-- ===== src/VoiceTurn/Turn.antt =====
-- The stages of `run` of core/cluster/voice_turn.py: the task of one generation, which acts on the
-- session's state between the calls of the control methods.
use xiaozhi_desk_robot_serve.Prelude.{
  ℕ, ◌+◌, ◌^◌, String, Bool, true, false, Option, none, some, List, ◌∷◌, if◌then◌else◌, not, ◌&&◌,
  ◌||◌, ltb, ◌==◌, str_eq,
}
use xiaozhi_desk_robot_serve.Text.{is_blank}
use xiaozhi_desk_robot_serve.VoiceTurn.{
  asr, asr_restarting, llm, tts, done, Frame, Message, stt_clear, tts_start, tts_stop, tts_stop_end,
  stt_partial, llm_final, llm_partial, llm_emotion, Speech, cancelled_error, stt_final, goodbye,
  complete, Task, VoiceTurn, ok, raised, Step, after, emit, touch_activity,
}
use xiaozhi_desk_robot_serve.VoiceTurn.Control.{
  recovery_audio_frames, emit_quietly, drain, clear_speech,
}

-- How one stream of the speech client ends: with a text, or with an error, which is one of the
-- recoverable codes or not.
pub data AsrResult : Type 0 where
  heard : String → AsrResult
  asr_failed : Bool → AsrResult

-- How `transcribe` goes on: it returns a text, raises, is cancelled, or opens the stream again after
-- a delay.
pub data Next : Type 0 where
  returns : String → Next
  raises cancelled : Next
  reopens : ℕ → Next

-- `min(2, 0.25 * 2 ** min(attempts, 3))`, in quarters of a second
unfoldable pub backoff : ℕ → ℕ
backoff attempts =
    let factor = 2 ^ (if ltb attempts 3 then attempts else 3) in if ltb factor 8 then factor else 8

-- `partial`, of the stream of the generation `g`
unfoldable pub heard_partial : (Message → Bool) → ℕ → ℕ → String → VoiceTurn → Step
unfolding touch_activity
heard_partial sends now g text v =
    if g == v.generation
    then emit sends (stt_partial text) (if is_blank text then v else touch_activity now v)
    else (v, ok)

-- `speech`
unfoldable pub heard_speech : ℕ → ℕ → VoiceTurn → VoiceTurn
unfolding touch_activity
heard_speech now g v = if g == v.generation && not v.idle_closing then touch_activity now v else v

-- `admitted`
unfoldable pub admitted : ℕ → VoiceTurn → VoiceTurn
admitted g v = if g == v.generation then record v { state = asr } else v

-- the client takes the first frame of its queue, which is the session's in the current generation
unfoldable pub take_queue : Bool → Option (List Frame) → Option (List Frame)
take_queue true (some (f ∷ q)) = some q
take_queue _ q = q

unfoldable pub take_frame : ℕ → VoiceTurn → VoiceTurn
take_frame g v = record v { queue = take_queue (g == v.generation) v.queue }

-- the end of an attempt of `transcribe` that opens the stream again
unfoldable pub reopen : (Message → Bool) → ℕ → ℕ → VoiceTurn → VoiceTurn × Next
reopen sends g attempts v =
    if not (g == v.generation)
    then (v, cancelled)
    else (let (w, o) = emit sends stt_clear (record v { state = asr_restarting }) in
        elim o [
          | raised _ ↦ (w, raises)
          | ok ↦ elim w.queue [
            | none ↦ (w, raises)
            | some q ↦ (
              record w { queue = some (drain (recovery_audio_frames + 1) q) },
              reopens (backoff attempts),
            )
          ]
        ])

-- one attempt of `transcribe`, from the end of its stream
unfoldable pub transcribe_attempt :
    (Message → Bool) → ℕ → String → ℕ → AsrResult → VoiceTurn → VoiceTurn × Next
transcribe_attempt sends g mode attempts (heard text) v =
    if not (is_blank text) || not (str_eq mode "auto") || v.ending
    then (v, returns text)
    else reopen sends g attempts v
transcribe_attempt sends g mode attempts (asr_failed recoverable) v =
    if not recoverable || v.ending then (v, raises) else reopen sends g attempts v

-- the head of the loop of `transcribe`: whether another attempt starts
unfoldable pub transcribe_head : ℕ → ℕ → VoiceTurn → Option Next
transcribe_head g attempts v =
    if not (g == v.generation)
    then some cancelled
    else if ltb 0 attempts && v.ending
    then some (returns "")
    else none

-- what `run` does with a text
pub data Plan : Type 0 where
  leave silence fail listen_again : Plan
  speak ask : String → Plan

-- what a session is set to: the exit commands and the wake words, as tests, the greeting, and whether there
-- is a `tts_pool`
pub record Phrases : Type 0 where
  pub is_exit : String → Bool
  pub matches : String → Bool
  pub response_cache : Bool
  pub enable_greeting : Bool
  pub greeting : String
  pub has_tts : Bool

-- `fixed_response`: the greeting for a wake word, where that is on
unfoldable pub fixed_response : Phrases → Bool → Bool → String → Option String
fixed_response ph wake listens text =
    if (wake || (listens && ph.response_cache)) && ph.matches text
    then some (if ph.enable_greeting then ph.greeting else "")
    else none

-- an answer begins: with a pool, the task makes its speech
unfoldable pub open_speech : Phrases → ℕ → VoiceTurn → VoiceTurn
open_speech ph g v = record v {
  state = llm;
  current_tts = if ph.has_tts then some (record { owner = g; started = false }) else v.current_tts;
}

-- `if text:`, up to the call of the language model
unfoldable pub respond :
    (Message → Bool) → Phrases → ℕ → Bool → Bool → String → VoiceTurn → VoiceTurn × Plan
respond sends ph g wake listens text v =
    if str_eq text ""
    then (v, leave)
    else if ph.is_exit text
    then (record v { close_after_chat = true }, leave)
    else elim (fixed_response ph wake listens text) [
      | none ↦ (open_speech ph g v, ask text)
      | some r ↦
          if str_eq r ""
          then (let (w, o) = emit sends tts_stop (record v { waking = false }) in
              (w, elim o [ ok ↦ silence | raised _ ↦ fail ]))
          else (open_speech ph g v, speak r)
    ]

-- `run` from the text on, up to the call of the language model
unfoldable pub accept_text :
    (Message → Bool) → ℕ → Phrases → ℕ → Bool → Bool → Bool → String → VoiceTurn → VoiceTurn × Plan
accept_text sends now ph g wake listens closing text v =
    if not (g == v.generation)
    then (v, leave)
    else (let w = record v { ending = true } in
        if closing
        then respond sends ph g wake listens text w
        else (let (x, o) =
              emit sends (stt_final text) (if is_blank text then w else touch_activity now w) in
            elim o [ ok ↦ respond sends ph g wake listens text x | raised _ ↦ (x, fail) ]))

-- `run` from a text that was heard: a wake word without a greeting is passed over
unfoldable pub heard_text :
    (Message → Bool) → ℕ → Phrases → ℕ → String → String → VoiceTurn → VoiceTurn × Plan
heard_text sends now ph g mode text v =
    if g == v.generation
      && str_eq mode "auto"
      && ph.response_cache
      && not ph.enable_greeting
      && ph.matches text
    then (let (w, o) = emit sends stt_clear v in
        (w, elim o [ ok ↦ listen_again | raised _ ↦ fail ]))
    else accept_text sends now ph g false true false text v

-- `playback.started`, of the speech of the generation `g`
unfoldable pub mark_speech : ℕ → Bool → Option Speech → Option Speech
mark_speech g b none = none
mark_speech g b (some s) = some (if s.owner == g then record s { started = b } else s)

-- what `emit_tts` does with a message before it sends it, and what it sends
unfoldable pub note_speech : Message → VoiceTurn → VoiceTurn × Message
note_speech tts_start v = (record v { state = tts }, tts_start)
note_speech tts_stop v =
    (record v { waking = false }, if v.close_after_chat then tts_stop_end else tts_stop)
note_speech m v = (v, m)

-- `emit_tts`, through which the playback of the task sends
unfoldable pub emit_tts : (Message → Bool) → ℕ → Message → VoiceTurn → Step
unfolding note_speech
emit_tts sends g m v =
    if not (g == v.generation)
    then (v, raised cancelled_error)
    else (let (w, said) = note_speech m v in emit sends said w)

-- a message of the playback of the task: `segment` sets `started` before its start, and `finish` clears it
-- after its stop
unfoldable pub play_message : (Message → Bool) → ℕ → Message → VoiceTurn → Step
unfolding emit_tts mark_speech
play_message sends g tts_start v =
    emit_tts sends g tts_start (record v { current_tts = mark_speech g true v.current_tts })
play_message sends g tts_stop v =
    after (emit_tts sends g tts_stop v)
      (λ w. (record w { current_tts = mark_speech g false w.current_tts }, ok))
play_message sends g m v = emit_tts sends g m v

-- `chunk`: a text of the language model. `emotion` is what is sent for the first one that is not blank, and
-- what is fed to the speech is left out
unfoldable pub answer_chunk :
    (Message → Bool) → ℕ → Option (String × String) → String → ℕ → VoiceTurn → Step
answer_chunk sends g emotion text seq v =
    if not (g == v.generation)
    then (v, raised cancelled_error)
    else after
        (elim emotion [
          | none ↦ (v, ok)
          | some (emoji, name) ↦ emit sends (llm_emotion emoji name) v
        ])
        (emit sends (llm_partial seq text))

-- the playback of the task's own speech: `playback.started` and `playback.packet_count`
pub record Playback : Type 0 where
  pub started : Bool
  pub packet_count : ℕ

-- `tts is None or tts.playback.packet_count == 0`
unfoldable pub text_only : Option Playback → Bool
text_only none = true
text_only (some p) = p.packet_count == 0

-- `tts is not None and tts.playback.started`
unfoldable pub still_playing : Option Playback → Bool
still_playing none = false
still_playing (some p) = p.started

-- the result of the language model: a text that is not spoken is shown. The wait for the speech is left out
unfoldable pub answer_result : (Message → Bool) → ℕ → Option Playback → String → VoiceTurn → Step
answer_result sends g speech text v =
    if g == v.generation && text_only speech then emit sends (llm_final text) v else (v, ok)

-- the messages at the end of a turn, in the `try` of `finally`
unfoldable pub conclude : (Message → Bool) → Option Playback → Bool → Bool → VoiceTurn → Step
conclude sends speech failed spoken v =
    let emit_if =
      λ (b : Bool) (m : Message) (w : VoiceTurn). if b then emit sends m w else (w, ok) in
    after (emit_if (v.close_after_chat && text_only speech) tts_stop_end v) (λ a.
      after (emit_if (failed && not spoken && still_playing speech) tts_stop_end a) (λ b.
        after (emit sends (complete (text_only speech)) b) (λ c.
          let d = if failed then c else record c { state = done } in
          emit_if d.close_after_chat (goodbye d.end_reason) d)))

-- the speech is closed: `tts.close()`, and the stop of what still plays
unfoldable pub close_speech : (Message → Bool) → ℕ → Option Playback → Bool → VoiceTurn → VoiceTurn
close_speech sends g none failed v = v
close_speech sends g (some p) failed v =
    record (if g == v.generation && p.started && not failed
      then emit_quietly sends tts_stop v
      else v) { current_tts = clear_speech g v.current_tts }

-- the task is done; a task of an older generation has been replaced
unfoldable pub end_task : ℕ → Option Task → Option Task
end_task g none = none
end_task g (some t) = some (if t.generation == g then record t { finished = true } else t)

-- the `finally` part of `run`
unfoldable pub finish :
    (Message → Bool) → ℕ → ℕ → Option Playback → Bool → Bool → VoiceTurn → VoiceTurn
unfolding touch_activity
finish sends now g speech failed spoken v =
    let w = close_speech sends g speech failed v in
    let x =
      if g == w.generation
      then touch_activity now (conclude sends speech failed spoken (record w { waking = false })).0
      else w in
    record x { task = end_task g x.task }
