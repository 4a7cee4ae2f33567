-- ===== src/VoiceTurn/Examples.antt =====
-- A session of core/cluster/voice_turn.py that listens, is interrupted, and ends.
use xiaozhi_desk_robot_serve.Prelude.{
  ℕ, suc, ◌≡◌, ◌≢◌, refl, String, Bool, true, false, none, some, List, [], ◌∷◌, ◌++◌, arith, map,
  str_eq,
}
use xiaozhi_desk_robot_serve.VoiceTurn.{
  asr_restarting, audio, Message, VoiceTurn, Config, init, is_running, emit, after, touch_activity,
  raised, attribute_error,
}
use xiaozhi_desk_robot_serve.VoiceTurn.Control.{
  recovery_audio_frames, abort, release, begin, listen, start, audio_frame, stop, put_frame,
  pre_roll,
}
use xiaozhi_desk_robot_serve.VoiceTurn.Turn.{
  asr_failed, Phrases, Playback, admitted, transcribe_attempt, reopen,
}
use xiaozhi_desk_robot_serve.VoiceTurn.Runs.{
  Call, start_call, audio_call, admitted_call, attempt_call, step, run,
}
use xiaozhi_desk_robot_serve.VoiceTurn.Invariant.{IsSound, init-IsSound}
use xiaozhi_desk_robot_serve.VoiceTurn.Stages.{run-IsSound}
use xiaozhi_desk_robot_serve.VoiceTurn.Frames.{newest, feed, feed-newest, frames-served}
use xiaozhi_desk_robot_serve.VoiceTurn.Tools.{ToolCall, Reply, Services, from_service, execute_all}
use xiaozhi_desk_robot_serve.VoiceTurn.ToolLaws.{with_refusals, execute_all-exit, execute_all-ids}

abbrev cfg : Config
cfg = record {
  no_voice_time = 120;
  end_prompt_enable = false;
  end_prompt = "bye";
  enable_greeting = true;
  exit_farewell = "Goodbye";
  has_tts = true;
}

abbrev phrases : Phrases
phrases = record {
  is_exit = str_eq "exit";
  matches = str_eq "hello";
  response_cache = true;
  enable_greeting = true;
  greeting = "Hi";
  has_tts = true;
}

abbrev all_sent : Message → Bool
all_sent m = true

-- listening, with a frame in the queue, while the speech worker restarts
abbrev opening : List ((Message → Bool) × ℕ × Call)
opening =
    (all_sent, 1, start_call "auto")
    ∷ (all_sent, 2, audio_call (7 ∷ []))
    ∷ (all_sent, 3, admitted_call 1)
    ∷ (all_sent, 4, attempt_call 1 "auto" 0 (asr_failed true))
    ∷ []

abbrev listening_state : VoiceTurn
listening_state = run cfg phrases opening (init 0)

run-IsSound_example : IsSound listening_state
run-IsSound_example = run-IsSound cfg phrases opening (init 0) (init-IsSound 0)

listening-IsSound : IsSound listening_state
listening-IsSound = run-IsSound cfg phrases opening (init 0) (init-IsSound 0)

abbrev aborted_state : VoiceTurn
aborted_state = abort all_sent (init 0)

-- the speech of the task that was replaced
abbrev old_speech : Playback
old_speech = record { started = true; packet_count = 3 }

-- a listening session whose worker restarts
abbrev restarting : VoiceTurn
restarting = record (listen "auto" (init 0)).0 { state = asr_restarting }

restarting_runs : is_running restarting.task ≡ true
unfolding listen is_running
restarting_runs = refl

restarting_open : restarting.ending ≡ false
unfolding listen
restarting_open = refl

restarting_queue : restarting.queue ≡ some []
unfolding listen
restarting_queue = refl

feed-newest_example :
    (feed all_sent ((1 ∷ []) ∷ (2 ∷ []) ∷ []) restarting).queue
    ≡ some (newest recovery_audio_frames ([] ++ map audio ((1 ∷ []) ∷ (2 ∷ []) ∷ [])))
feed-newest_example =
    feed-newest all_sent ((1 ∷ []) ∷ (2 ∷ []) ∷ []) [] restarting refl restarting_runs
      restarting_open restarting_queue (omega arith)
      ((omega arith, omega arith), ((omega arith, omega arith), tt))

listening_open : listening_state.idle_closing ≡ false
unfolding run step start audio_frame admitted transcribe_attempt reopen after emit begin listen
    touch_activity abort release init is_running put_frame pre_roll
listening_open = refl

frames-served_example :
    ((audio_frame all_sent (1 ∷ []) listening_state).1 ≢ raised attribute_error)
    × ((stop all_sent listening_state).1 ≢ raised attribute_error)
frames-served_example =
    frames-served all_sent (1 ∷ []) listening_state listening-IsSound listening_open

-- a device that counts its calls
abbrev device : ToolCall ℕ → ℕ → ℕ × List (Reply String)
device c n = (suc n, record { id = c.id; result = from_service "ok" } ∷ [])

abbrev services : Services ℕ String ℕ
services = record { memory = none; mcp = some device }

abbrev move : ToolCall ℕ
move = record { id = "a"; name = "move"; arguments = [] }

abbrev leave_call : ToolCall ℕ
leave_call = record { id = "b"; name = "handle_exit_intent"; arguments = [] }

execute_all-exit_example :
    execute_all services "Goodbye" ((move ∷ []) ++ leave_call ∷ move ∷ []) false 0
    ≡ with_refusals "Goodbye" leave_call
        (move ∷ [])
        (execute_all services "Goodbye" (move ∷ []) false 0)
execute_all-exit_example =
    execute_all-exit services "Goodbye" (move ∷ []) leave_call (move ∷ []) false 0 (refl, refl)

execute_all-ids_example :
    map
      (λ (r : Reply String). r.id)
      ((execute_all services "Goodbye" (move ∷ leave_call ∷ []) false 0).2)
    ≡ map (λ (c : ToolCall ℕ). c.id) (move ∷ leave_call ∷ [])
execute_all-ids_example =
    execute_all-ids services "Goodbye" (move ∷ leave_call ∷ []) false 0 tt (λ c w. refl)
