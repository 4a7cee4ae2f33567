-- ===== src/VoiceTurn/Runs.antt =====
-- Sequences of steps of core/cluster/voice_turn.py: the calls of the transport and of the idle watch,
-- in any interleaving with the stages of the tasks, also of tasks that have been replaced.
use xiaozhi_desk_robot_serve.Prelude.{ℕ, String, Bool, Option, List, [], ◌∷◌, if◌then◌else◌}
use xiaozhi_desk_robot_serve.VoiceTurn.{Message, VoiceTurn, Config}
use xiaozhi_desk_robot_serve.VoiceTurn.Control.{
  abort, start, start_text, audio_frame, stop, idle_due, expire_idle,
}
use xiaozhi_desk_robot_serve.VoiceTurn.Turn.{
  AsrResult, Phrases, Playback, heard_partial, heard_speech, admitted, take_frame,
  transcribe_attempt, accept_text, heard_text, finish, play_message, answer_chunk, answer_result,
}

pub data Call : Type 0 where
  abort_call stop_call : Call
  start_call : String → Call
  text_call : Option String → Bool → Call
  audio_call : List ℕ → Call
  idle_call : Call
  partial_call : ℕ → String → Call
  speech_call admitted_call take_call : ℕ → Call
  attempt_call : ℕ → String → ℕ → AsrResult → Call
  heard_call : ℕ → String → String → Call
  accept_call : ℕ → Bool → Bool → Bool → String → Call
  play_call : ℕ → Message → Call
  chunk_call : ℕ → Option (String × String) → String → ℕ → Call
  result_call : ℕ → Option Playback → String → Call
  finish_call : ℕ → Option Playback → Bool → Bool → Call

-- one turn of the idle watch
unfoldable pub watch_idle : Config → (Message → Bool) → ℕ → VoiceTurn → VoiceTurn
watch_idle cfg sends now v =
    let (w, due) = idle_due cfg now v in if due then (expire_idle cfg sends w).0 else w

module _ (cfg : Config) (ph : Phrases) where
  unfoldable pub step : (Message → Bool) → ℕ → Call → VoiceTurn → VoiceTurn
  step sends now abort_call v = abort sends v
  step sends now stop_call v = (stop sends v).0
  step sends now (start_call mode) v = (start sends now mode v).0
  step sends now (text_call text wake) v = (start_text cfg ph.matches sends now text wake v).0
  step sends now (audio_call bytes) v = (audio_frame sends bytes v).0
  step sends now idle_call v = watch_idle cfg sends now v
  step sends now (partial_call g text) v = (heard_partial sends now g text v).0
  step sends now (speech_call g) v = heard_speech now g v
  step sends now (admitted_call g) v = admitted g v
  step sends now (take_call g) v = take_frame g v
  step sends now (attempt_call g mode attempts r) v =
      (transcribe_attempt sends g mode attempts r v).0
  step sends now (heard_call g mode text) v = (heard_text sends now ph g mode text v).0
  step sends now (accept_call g wake listens closing text) v =
      (accept_text sends now ph g wake listens closing text v).0
  step sends now (play_call g m) v = (play_message sends g m v).0
  step sends now (chunk_call g emotion text seq) v = (answer_chunk sends g emotion text seq v).0
  step sends now (result_call g speech text) v = (answer_result sends g speech text v).0
  step sends now (finish_call g speech failed spoken) v = finish sends now g speech failed spoken v

  -- each call with its time and with the sends that get through
  unfoldable pub run : List ((Message → Bool) × ℕ × Call) → VoiceTurn → VoiceTurn
  run [] v = v
  run ((sends, now, c) ∷ calls) v = run calls (step sends now c v)
