-- ===== src/VoiceTurn/Stages.antt =====
-- The stages of a task of core/cluster/voice_turn.py keep the invariant of the session, and so does
-- every run.
use xiaozhi_desk_robot_serve.Prelude.{
  ℕ, ◌+◌, String, Bool, ◌≡◌, subst, true, false, Option, none, some, List, [], ◌∷◌, ◌++◌, inl, inr,
  arith, not, ◌==◌, ◌&&◌, if◌then◌else◌, Bool-cases, Option-cases,
}
use xiaozhi_desk_robot_serve.VoiceTurn.{
  stt_clear, tts_start, llm_final, llm_partial, llm_emotion, done, Frame, Message, stt_partial,
  stt_final, tts_stop, tts_stop_end, goodbye, complete, Task, VoiceTurn, Config, emit,
  touch_activity, ok,
}
use xiaozhi_desk_robot_serve.VoiceTurn.Control.{recovery_audio_frames, emit_quietly, drain}
use xiaozhi_desk_robot_serve.VoiceTurn.Turn.{
  open_speech, mark_speech, note_speech, emit_tts, play_message, answer_chunk, answer_result,
  AsrResult, heard, asr_failed, Phrases, Playback, heard_partial, heard_speech, admitted, reopen,
  transcribe_attempt, respond, accept_text, heard_text, conclude, close_speech, end_task, finish,
  text_only, still_playing,
}
use xiaozhi_desk_robot_serve.VoiceTurn.Runs.{
  play_call, chunk_call, result_call, Call, abort_call, stop_call, start_call, text_call,
  audio_call, idle_call, partial_call, speech_call, admitted_call, take_call, attempt_call,
  accept_call, heard_call, finish_call, step, run,
}
use xiaozhi_desk_robot_serve.VoiceTurn.Invariant.{
  QueueOk, TaskOk, IsSound, QueueOk-drain, QueueOk-end, TaskOk-end, TaskOk-queue, emit-IsSound,
  after-IsSound,
}
use xiaozhi_desk_robot_serve.VoiceTurn.Preserves.{
  abort-IsSound, start-IsSound, start_text-IsSound, audio_frame-IsSound, stop-IsSound,
  watch_idle-IsSound, take_frame-IsSound,
}

drained-IsSound :
    (n : ℕ) (q : List Frame) (v : VoiceTurn)
    → v.queue ≡ some q
    → IsSound v
    → IsSound (record v { queue = some (drain n q) })
drained-IsSound n q v h i = (
  QueueOk-drain v.ending n q (subst (λ x. QueueOk v.ending x) h i.0),
  TaskOk-queue v.generation q (drain n q) v.ending v.idle_closing v.task
      (subst (λ x. TaskOk v.generation x v.ending v.idle_closing v.task) h i.1),
)

reopen-IsSound :
    (sends : Message → Bool) (g attempts : ℕ) (v : VoiceTurn)
    → IsSound v
    → IsSound (reopen sends g attempts v).0
unfolding reopen emit
reopen-IsSound sends g attempts v i = elim (Option-cases v.queue) [
  | inl h ↦ ground arith
  | inr (q, h) ↦ ground (arith, drained-IsSound (recovery_audio_frames + 1) q v h i)
]

transcribe_attempt-IsSound :
    (sends : Message → Bool) (g : ℕ) (mode : String) (attempts : ℕ) (r : AsrResult) (v : VoiceTurn)
    → IsSound v
    → IsSound (transcribe_attempt sends g mode attempts r v).0
unfolding transcribe_attempt
transcribe_attempt-IsSound sends g mode attempts (heard text) v i =
    ground (arith, reopen-IsSound sends g attempts v i)
transcribe_attempt-IsSound sends g mode attempts (asr_failed recoverable) v i =
    ground (arith, reopen-IsSound sends g attempts v i)

respond-IsSound :
    (sends : Message → Bool) (ph : Phrases) (g : ℕ) (wake listens : Bool) (text : String)
    (v : VoiceTurn)
    → IsSound v
    → IsSound (respond sends ph g wake listens text v).0
unfolding respond open_speech
respond-IsSound sends ph g wake listens text v i =
    ground (arith, emit-IsSound sends tts_stop (record v { waking = false }) i)

accept_text-IsSound :
    (sends : Message → Bool) (now : ℕ) (ph : Phrases) (g : ℕ) (wake listens closing : Bool)
    (text : String) (v : VoiceTurn)
    → IsSound v
    → IsSound (accept_text sends now ph g wake listens closing text v).0
unfolding accept_text emit touch_activity
accept_text-IsSound sends now ph g wake listens closing text v i =
    let w = record v { ending = true } in
    let j : IsSound w = (
      QueueOk-end v.ending v.queue i.0,
      TaskOk-end v.generation v.queue v.ending v.idle_closing v.task i.1,
    ) in
    let said = record w { sent = v.sent ++ stt_final text ∷ [] } in
    ground (
      arith,
      respond-IsSound sends ph g wake listens text w j,
      respond-IsSound sends ph g wake listens text said j,
      respond-IsSound sends ph g wake listens text (record said { last_activity = now }) j,
    )

heard_text-IsSound :
    (sends : Message → Bool) (now : ℕ) (ph : Phrases) (g : ℕ) (mode text : String) (v : VoiceTurn)
    → IsSound v
    → IsSound (heard_text sends now ph g mode text v).0
unfolding heard_text
heard_text-IsSound sends now ph g mode text v i = ground (
  arith,
  emit-IsSound sends stt_clear v i,
  accept_text-IsSound sends now ph g false true false text v i,
)

note_speech-IsSound : (m : Message) (v : VoiceTurn) → IsSound v → IsSound (note_speech m v).0
unfolding note_speech
note_speech-IsSound tts_start v i = i
note_speech-IsSound tts_stop v i = i
note_speech-IsSound m v i = i

emit_tts-IsSound :
    (sends : Message → Bool) (g : ℕ) (m : Message) (v : VoiceTurn)
    → IsSound v
    → IsSound (emit_tts sends g m v).0
unfolding emit_tts
emit_tts-IsSound sends g m v i = elim (Bool-cases (g == v.generation)) [
  | inl e ↦
      rw e (emit-IsSound sends (note_speech m v).1 (note_speech m v).0 (note_speech-IsSound m v i))
  | inr e ↦ rw e i
]

play_message-IsSound :
    (sends : Message → Bool) (g : ℕ) (m : Message) (v : VoiceTurn)
    → IsSound v
    → IsSound (play_message sends g m v).0
unfolding play_message
play_message-IsSound sends g tts_start v i =
    emit_tts-IsSound sends g tts_start (record v { current_tts = mark_speech g true v.current_tts })
      i
play_message-IsSound sends g tts_stop v i =
    after-IsSound _ _ (emit_tts-IsSound sends g tts_stop v i) (λ w j. j)
play_message-IsSound sends g m v i = emit_tts-IsSound sends g m v i

answer_chunk-IsSound :
    (sends : Message → Bool) (g : ℕ) (emotion : Option (String × String)) (text : String) (seq : ℕ)
    (v : VoiceTurn)
    → IsSound v
    → IsSound (answer_chunk sends g emotion text seq v).0
unfolding answer_chunk
answer_chunk-IsSound sends g none text seq v i = elim (Bool-cases (g == v.generation)) [
  | inl e ↦ rw e (after-IsSound (v, ok) _ i (emit-IsSound sends (llm_partial seq text)))
  | inr e ↦ rw e i
]
answer_chunk-IsSound sends g (some (emoji, name)) text seq v i =
    elim (Bool-cases (g == v.generation)) [
      | inl e ↦ rw e (
          after-IsSound _ _ (emit-IsSound sends (llm_emotion emoji name) v i)
            (emit-IsSound sends (llm_partial seq text)))
      | inr e ↦ rw e i
    ]

TaskOk-end_task :
    (g g' : ℕ) (q : Option (List Frame)) (ending closing : Bool) (t : Option Task)
    → TaskOk g' q ending closing t
    → TaskOk g' q ending closing (end_task g t)
unfolding end_task
TaskOk-end_task g g' q ending closing none i = i
TaskOk-end_task g g' q ending closing (some t) i = elim (Bool-cases (t.generation == g)) [
  | inl e ↦ rw e i
  | inr e ↦ rw e i
]

emit_if-IsSound :
    (sends : Message → Bool) (b : Bool) (m : Message) (v : VoiceTurn)
    → IsSound v
    → IsSound (if b then emit sends m v else (v, ok)).0
emit_if-IsSound sends true m v i = emit-IsSound sends m v i
emit_if-IsSound sends false m v i = i

settled-IsSound :
    (failed : Bool) (v : VoiceTurn)
    → IsSound v
    → IsSound (if failed then v else record v { state = done })
settled-IsSound true v i = i
settled-IsSound false v i = i

conclude-IsSound :
    (sends : Message → Bool) (speech : Option Playback) (failed spoken : Bool) (v : VoiceTurn)
    → IsSound v
    → IsSound (conclude sends speech failed spoken v).0
unfolding conclude
conclude-IsSound sends speech failed spoken v i =
    after-IsSound _ _
      (emit_if-IsSound sends (v.close_after_chat && text_only speech) tts_stop_end v i)
      (λ a j.
        after-IsSound _ _
          (emit_if-IsSound sends (failed && not spoken && still_playing speech) tts_stop_end a j)
          (λ b k. after-IsSound _ _ (emit-IsSound sends (complete (text_only speech)) b k) (λ c l.
            let d = if failed then c else record c { state = done } in
            emit_if-IsSound sends d.close_after_chat (goodbye d.end_reason) d
              (settled-IsSound failed c l))))

close_speech-IsSound :
    (sends : Message → Bool) (g : ℕ) (speech : Option Playback) (failed : Bool) (v : VoiceTurn)
    → IsSound v
    → IsSound (close_speech sends g speech failed v)
unfolding close_speech emit_quietly
close_speech-IsSound sends g none failed v i = i
close_speech-IsSound sends g (some p) failed v i = ground (arith, emit-IsSound sends tts_stop v i)

finish-IsSound :
    (sends : Message → Bool) (now g : ℕ) (speech : Option Playback) (failed spoken : Bool)
    (v : VoiceTurn)
    → IsSound v
    → IsSound (finish sends now g speech failed spoken v)
unfolding finish touch_activity
finish-IsSound sends now g speech failed spoken v i =
    let w = close_speech sends g speech failed v in
    let x = (conclude sends speech failed spoken (record w { waking = false })).0 in
    let j : IsSound w = close_speech-IsSound sends g speech failed v i in
    let k : IsSound x =
      conclude-IsSound sends speech failed spoken (record w { waking = false }) j in
    elim (Bool-cases (g == w.generation)) [
      | inl e ↦
          rw e (k.0, TaskOk-end_task g x.generation x.queue x.ending x.idle_closing x.task k.1)
      | inr e ↦
          rw e (j.0, TaskOk-end_task g w.generation w.queue w.ending w.idle_closing w.task j.1)
    ]

step-IsSound :
    (cfg : Config) (ph : Phrases) (sends : Message → Bool) (now : ℕ) (c : Call) (v : VoiceTurn)
    → IsSound v
    → IsSound (step cfg ph sends now c v)
unfolding step
step-IsSound cfg ph sends now abort_call v i = abort-IsSound sends v
step-IsSound cfg ph sends now stop_call v i = stop-IsSound sends v i
step-IsSound cfg ph sends now (start_call mode) v i = start-IsSound sends now mode v i
step-IsSound cfg ph sends now (text_call text wake) v i =
    start_text-IsSound cfg ph.matches sends now text wake v i
step-IsSound cfg ph sends now (audio_call bytes) v i = audio_frame-IsSound sends bytes v i
step-IsSound cfg ph sends now idle_call v i = watch_idle-IsSound cfg sends now v i
step-IsSound cfg ph sends now (partial_call g text) v i =
    unfold heard_partial touch_activity in
    ground (
      arith,
      emit-IsSound sends (stt_partial text) v i,
      emit-IsSound sends (stt_partial text) (record v { last_activity = now }) i,
    )
step-IsSound cfg ph sends now (speech_call g) v i =
    unfold heard_speech touch_activity in ground arith
step-IsSound cfg ph sends now (admitted_call g) v i = unfold admitted in ground arith
step-IsSound cfg ph sends now (take_call g) v i = take_frame-IsSound g v i
step-IsSound cfg ph sends now (attempt_call g mode attempts r) v i =
    transcribe_attempt-IsSound sends g mode attempts r v i
step-IsSound cfg ph sends now (heard_call g mode text) v i =
    heard_text-IsSound sends now ph g mode text v i
step-IsSound cfg ph sends now (accept_call g wake listens closing text) v i =
    accept_text-IsSound sends now ph g wake listens closing text v i
step-IsSound cfg ph sends now (play_call g m) v i = play_message-IsSound sends g m v i
step-IsSound cfg ph sends now (chunk_call g emotion text seq) v i =
    answer_chunk-IsSound sends g emotion text seq v i
step-IsSound cfg ph sends now (result_call g speech text) v i =
    unfold answer_result in ground (arith, emit-IsSound sends (llm_final text) v i)
step-IsSound cfg ph sends now (finish_call g speech failed spoken) v i =
    finish-IsSound sends now g speech failed spoken v i

-- From a state with the invariant, any calls of the transport and of the idle watch, in any
-- interleaving with the stages of current and of replaced tasks and whichever sends fail, lead to
-- one: the task is of the current generation; the queue has at most 64 frames, audio only until the
-- speech ends and then nothing after the end mark; a task that listens has a queue, and one that
-- answers a text comes with `ending` or `idle_closing`.
pub run-IsSound :
    (cfg : Config) (ph : Phrases) (calls : List ((Message → Bool) × ℕ × Call)) (v : VoiceTurn)
    → IsSound v
    → IsSound (run cfg ph calls v)
unfolding run
run-IsSound cfg ph [] v i = i
run-IsSound cfg ph ((sends, now, c) ∷ calls) v i =
    run-IsSound cfg ph calls (step cfg ph sends now c v) (step-IsSound cfg ph sends now c v i)
