-- ===== src/VoiceTurn/Stale.antt =====
-- Tasks of core/cluster/voice_turn.py that have been replaced: their stages show nowhere.
use xiaozhi_desk_robot_serve.Prelude.{
  ℕ, ◌≤◌, String, Bool, ◌≡◌, refl, true, false, Option, none, some, List, [], ◌∷◌, ◌++◌, arith, not,
  ◌&&◌, ◌==◌, Bool-cases, ◌⊎◌, inl, inr, if◌then◌else◌,
}
use xiaozhi_desk_robot_serve.VoiceTurn.{
  Speech, tts_start, tts_stop, llm_partial, llm_emotion, Frame, Message, stt_clear, stt_final,
  tts_stop_end, goodbye, complete, done, VoiceTurn, Config, emit, after, touch_activity, ok, raised,
  Step,
}
use xiaozhi_desk_robot_serve.VoiceTurn.Control.{
  emit_quietly, abort, begin, listen, start, answer, start_text, put_frame, pre_roll, audio_frame,
  stop, idle_due, expire_idle,
}
use xiaozhi_desk_robot_serve.VoiceTurn.Turn.{
  open_speech, mark_speech, note_speech, emit_tts, play_message, answer_chunk, answer_result,
  AsrResult, heard, asr_failed, Phrases, Playback, heard_partial, heard_speech, admitted,
  take_frame, reopen, transcribe_attempt, respond, accept_text, heard_text, conclude, close_speech,
  finish, text_only, still_playing,
}
use xiaozhi_desk_robot_serve.VoiceTurn.Runs.{
  play_call, chunk_call, result_call, Call, abort_call, stop_call, start_call, text_call,
  audio_call, idle_call, partial_call, speech_call, admitted_call, take_call, attempt_call,
  accept_call, heard_call, finish_call, watch_idle, step, run,
}
use xiaozhi_desk_robot_serve.VoiceTurn.Invariant.{abort-none}

-- generations go up, and an expired session stays expired
abbrev pub Later : VoiceTurn → VoiceTurn → Type 0
Later v w = (v.generation ≤ w.generation) × (v.idle_closing ≡ true → w.idle_closing ≡ true)

Later-trans : (u v w : VoiceTurn) → Later u v → Later v w → Later u w
Later-trans u v w a b = (omega arith, λ h. b.1 (a.1 h))

-- the parts that no stage of a task and no send changes
abbrev Alike : VoiceTurn → VoiceTurn → Type 0
Alike v w = (w.generation ≡ v.generation) × (w.idle_closing ≡ v.idle_closing)

Alike-trans : (u v w : VoiceTurn) → Alike u v → Alike v w → Alike u w
Alike-trans u v w a b = (cc, cc)

Later-Alike : (v w : VoiceTurn) → Alike v w → Later v w
Later-Alike v w a = ground arith

emit-Alike : (sends : Message → Bool) (m : Message) (v : VoiceTurn) → Alike v (emit sends m v).0
unfolding emit
emit-Alike sends m v = ground arith

after-Alike :
    (u : VoiceTurn) (s : Step) (k : VoiceTurn → Step)
    → Alike u s.0
    → ((v : VoiceTurn) → Alike v (k v).0)
    → Alike u (after s k).0
unfolding after
after-Alike u (v, ok) k a h = Alike-trans u v (k v).0 a (h v)
after-Alike u (v, raised e) k a h = a

after-Later :
    (u : VoiceTurn) (s : Step) (k : VoiceTurn → Step)
    → Later u s.0
    → ((v : VoiceTurn) → Later v (k v).0)
    → Later u (after s k).0
unfolding after
after-Later u (v, ok) k a h = Later-trans u v (k v).0 a (h v)
after-Later u (v, raised e) k a h = a

abort-Later : (sends : Message → Bool) (v : VoiceTurn) → Later v (abort sends v)
abort-Later sends v = let (q, t, g, c) = abort-none sends v in (omega arith, λ h. cc)

put_frame-Later :
    (sends : Message → Bool) (f : Frame) (o : Option (List Frame)) (v : VoiceTurn)
    → Later v (put_frame sends f o v).0
unfolding put_frame emit
put_frame-Later sends f o v = ground (arith, abort-none sends v)

start-Later :
    (sends : Message → Bool) (now : ℕ) (mode : String) (v : VoiceTurn)
    → Later v (start sends now mode v).0
unfolding start emit after begin listen touch_activity
start-Later sends now mode v = ground (arith, abort-none sends v)

start_text-Later :
    (cfg : Config) (matches : String → Bool) (sends : Message → Bool) (now : ℕ)
    (text : Option String) (wake : Bool) (v : VoiceTurn)
    → Later v (start_text cfg matches sends now text wake v).0
unfolding start_text emit after begin answer touch_activity
start_text-Later cfg matches sends now text wake v = ground (arith, abort-none sends v)

audio_frame-Later :
    (sends : Message → Bool) (bytes : List ℕ) (v : VoiceTurn)
    → Later v (audio_frame sends bytes v).0
unfolding audio_frame
audio_frame-Later sends bytes v =
    ground (arith, put_frame-Later sends (Frame.audio bytes) (pre_roll v.state v.queue) v)

stop-Later : (sends : Message → Bool) (v : VoiceTurn) → Later v (stop sends v).0
unfolding stop emit after
stop-Later sends v =
    let x = record v { ending = true; sent = v.sent ++ stt_clear ∷ [] } in
    ground (arith, put_frame-Later sends Frame.end_of_speech x.queue x)

expire_idle-Later :
    (cfg : Config) (sends : Message → Bool) (v : VoiceTurn) → Later v (expire_idle cfg sends v).0
unfolding expire_idle emit after
expire_idle-Later cfg sends v = ground (arith, abort-none sends (record v { idle_closing = true }))

watch_idle-Later :
    (cfg : Config) (sends : Message → Bool) (now : ℕ) (v : VoiceTurn)
    → Later v (watch_idle cfg sends now v)
unfolding watch_idle idle_due touch_activity
watch_idle-Later cfg sends now v = ground (arith, expire_idle-Later cfg sends v)

reopen-Alike :
    (sends : Message → Bool) (g attempts : ℕ) (v : VoiceTurn)
    → Alike v (reopen sends g attempts v).0
unfolding reopen emit
reopen-Alike sends g attempts v = ground arith

transcribe_attempt-Alike :
    (sends : Message → Bool) (g : ℕ) (mode : String) (attempts : ℕ) (r : AsrResult) (v : VoiceTurn)
    → Alike v (transcribe_attempt sends g mode attempts r v).0
unfolding transcribe_attempt
transcribe_attempt-Alike sends g mode attempts (heard text) v =
    ground (arith, reopen-Alike sends g attempts v)
transcribe_attempt-Alike sends g mode attempts (asr_failed recoverable) v =
    ground (arith, reopen-Alike sends g attempts v)

respond-Alike :
    (sends : Message → Bool) (ph : Phrases) (g : ℕ) (wake listens : Bool) (text : String)
    (v : VoiceTurn)
    → Alike v (respond sends ph g wake listens text v).0
unfolding respond open_speech emit
respond-Alike sends ph g wake listens text v = ground arith

accept_text-Alike :
    (sends : Message → Bool) (now : ℕ) (ph : Phrases) (g : ℕ) (wake listens closing : Bool)
    (text : String) (v : VoiceTurn)
    → Alike v (accept_text sends now ph g wake listens closing text v).0
unfolding accept_text emit touch_activity
accept_text-Alike sends now ph g wake listens closing text v =
    let w = record v { ending = true } in
    let said = record w { sent = v.sent ++ stt_final text ∷ [] } in
    ground (
      arith,
      respond-Alike sends ph g wake listens text w,
      respond-Alike sends ph g wake listens text said,
      respond-Alike sends ph g wake listens text (record said { last_activity = now }),
    )

heard_text-Alike :
    (sends : Message → Bool) (now : ℕ) (ph : Phrases) (g : ℕ) (mode text : String) (v : VoiceTurn)
    → Alike v (heard_text sends now ph g mode text v).0
unfolding heard_text
heard_text-Alike sends now ph g mode text v =
    ground (
      arith,
      emit-Alike sends stt_clear v,
      accept_text-Alike sends now ph g false true false text v,
    )

note_speech-Alike : (m : Message) (v : VoiceTurn) → Alike v (note_speech m v).0
unfolding note_speech
note_speech-Alike tts_start v = (refl, refl)
note_speech-Alike tts_stop v = (refl, refl)
note_speech-Alike m v = (refl, refl)

emit_tts-Alike :
    (sends : Message → Bool) (g : ℕ) (m : Message) (v : VoiceTurn)
    → Alike v (emit_tts sends g m v).0
unfolding emit_tts
emit_tts-Alike sends g m v = elim (Bool-cases (g == v.generation)) [
  | inl e ↦ rw e (
      Alike-trans v (note_speech m v).0 (emit sends (note_speech m v).1 (note_speech m v).0).0
        (note_speech-Alike m v) (emit-Alike sends (note_speech m v).1 (note_speech m v).0))
  | inr e ↦ rw e (refl, refl)
]

play_message-Alike :
    (sends : Message → Bool) (g : ℕ) (m : Message) (v : VoiceTurn)
    → Alike v (play_message sends g m v).0
unfolding play_message
play_message-Alike sends g tts_start v =
    emit_tts-Alike sends g tts_start (record v { current_tts = mark_speech g true v.current_tts })
play_message-Alike sends g tts_stop v =
    after-Alike v _ _ (emit_tts-Alike sends g tts_stop v) (λ w. (refl, refl))
play_message-Alike sends g m v = emit_tts-Alike sends g m v

answer_chunk-Alike :
    (sends : Message → Bool) (g : ℕ) (emotion : Option (String × String)) (text : String) (seq : ℕ)
    (v : VoiceTurn)
    → Alike v (answer_chunk sends g emotion text seq v).0
unfolding answer_chunk
answer_chunk-Alike sends g none text seq v = elim (Bool-cases (g == v.generation)) [
  | inl e ↦ rw e (after-Alike v (v, ok) _ (refl, refl) (emit-Alike sends (llm_partial seq text)))
  | inr e ↦ rw e (refl, refl)
]
answer_chunk-Alike sends g (some (emoji, name)) text seq v = elim (Bool-cases (g == v.generation)) [
  | inl e ↦ rw e (
      after-Alike v _ _ (emit-Alike sends (llm_emotion emoji name) v)
        (emit-Alike sends (llm_partial seq text)))
  | inr e ↦ rw e (refl, refl)
]

emit_if-Alike :
    (sends : Message → Bool) (b : Bool) (m : Message) (v : VoiceTurn)
    → Alike v (if b then emit sends m v else (v, ok)).0
emit_if-Alike sends true m v = emit-Alike sends m v
emit_if-Alike sends false m v = (refl, refl)

settled-Alike :
    (failed : Bool) (v : VoiceTurn) → Alike v (if failed then v else record v { state = done })
settled-Alike true v = (refl, refl)
settled-Alike false v = (refl, refl)

conclude-Alike :
    (sends : Message → Bool) (speech : Option Playback) (failed spoken : Bool) (v : VoiceTurn)
    → Alike v (conclude sends speech failed spoken v).0
unfolding conclude
conclude-Alike sends speech failed spoken v =
    after-Alike v _ _ (emit_if-Alike sends (v.close_after_chat && text_only speech) tts_stop_end v)
      (λ a.
        after-Alike a _ _
          (emit_if-Alike sends (failed && not spoken && still_playing speech) tts_stop_end a)
          (λ b. after-Alike b _ _ (emit-Alike sends (complete (text_only speech)) b) (λ c.
            let d = if failed then c else record c { state = done } in
            Alike-trans c d
              (if d.close_after_chat then emit sends (goodbye d.end_reason) d else (d, ok)).0
              (settled-Alike failed c)
              (emit_if-Alike sends d.close_after_chat (goodbye d.end_reason) d))))

close_speech-Alike :
    (sends : Message → Bool) (g : ℕ) (speech : Option Playback) (failed : Bool) (v : VoiceTurn)
    → Alike v (close_speech sends g speech failed v)
unfolding close_speech emit_quietly emit
close_speech-Alike sends g none failed v = (refl, refl)
close_speech-Alike sends g (some p) failed v = ground arith

finish-Alike :
    (sends : Message → Bool) (now g : ℕ) (speech : Option Playback) (failed spoken : Bool)
    (v : VoiceTurn)
    → Alike v (finish sends now g speech failed spoken v)
unfolding finish touch_activity
finish-Alike sends now g speech failed spoken v =
    let w = close_speech sends g speech failed v in
    ground (
      arith,
      close_speech-Alike sends g speech failed v,
      conclude-Alike sends speech failed spoken (record w { waking = false }),
    )

pub step-Later :
    (cfg : Config) (ph : Phrases) (sends : Message → Bool) (now : ℕ) (c : Call) (v : VoiceTurn)
    → Later v (step cfg ph sends now c v)
unfolding step
step-Later cfg ph sends now abort_call v = abort-Later sends v
step-Later cfg ph sends now stop_call v = stop-Later sends v
step-Later cfg ph sends now (start_call mode) v = start-Later sends now mode v
step-Later cfg ph sends now (text_call text wake) v =
    start_text-Later cfg ph.matches sends now text wake v
step-Later cfg ph sends now (audio_call bytes) v = audio_frame-Later sends bytes v
step-Later cfg ph sends now idle_call v = watch_idle-Later cfg sends now v
step-Later cfg ph sends now (partial_call g text) v =
    unfold heard_partial touch_activity emit in ground arith
step-Later cfg ph sends now (speech_call g) v = unfold heard_speech touch_activity in ground arith
step-Later cfg ph sends now (admitted_call g) v = unfold admitted in ground arith
step-Later cfg ph sends now (take_call g) v = unfold take_frame in ground arith
step-Later cfg ph sends now (attempt_call g mode attempts r) v =
    Later-Alike v (transcribe_attempt sends g mode attempts r v).0
      (transcribe_attempt-Alike sends g mode attempts r v)
step-Later cfg ph sends now (heard_call g mode text) v =
    Later-Alike v (heard_text sends now ph g mode text v).0
      (heard_text-Alike sends now ph g mode text v)
step-Later cfg ph sends now (accept_call g wake listens closing text) v =
    Later-Alike v (accept_text sends now ph g wake listens closing text v).0
      (accept_text-Alike sends now ph g wake listens closing text v)
step-Later cfg ph sends now (play_call g m) v =
    Later-Alike v (play_message sends g m v).0 (play_message-Alike sends g m v)
step-Later cfg ph sends now (chunk_call g emotion text seq) v =
    Later-Alike v (answer_chunk sends g emotion text seq v).0
      (answer_chunk-Alike sends g emotion text seq v)
step-Later cfg ph sends now (result_call g speech text) v =
    unfold answer_result emit in ground arith
step-Later cfg ph sends now (finish_call g speech failed spoken) v =
    Later-Alike v (finish sends now g speech failed spoken v)
      (finish-Alike sends now g speech failed spoken v)

run-Later :
    (cfg : Config) (ph : Phrases) (calls : List ((Message → Bool) × ℕ × Call)) (v : VoiceTurn)
    → Later v (run cfg ph calls v)
unfolding run
run-Later cfg ph [] v = (omega arith, λ h. h)
run-Later cfg ph ((sends, now, c) ∷ calls) v =
    Later-trans v (step cfg ph sends now c v) (run cfg ph calls (step cfg ph sends now c v))
      (step-Later cfg ph sends now c v) (run-Later cfg ph calls (step cfg ph sends now c v))

-- the stages of the task of one generation
abbrev pub IsStageOf : ℕ → Call → Type 0
IsStageOf g (partial_call h text) = h ≡ g
IsStageOf g (speech_call h) = h ≡ g
IsStageOf g (admitted_call h) = h ≡ g
IsStageOf g (take_call h) = h ≡ g
IsStageOf g (attempt_call h mode attempts r) = h ≡ g
IsStageOf g (heard_call h mode text) = h ≡ g
IsStageOf g (accept_call h wake listens closing text) = h ≡ g
IsStageOf g (play_call h m) = h ≡ g
IsStageOf g (chunk_call h emotion text seq) = h ≡ g
IsStageOf g (result_call h speech text) = h ≡ g
IsStageOf g (finish_call h speech failed spoken) = h ≡ g
IsStageOf g _ = ⊥

-- the speech of a session, if it is not the one of the task of the generation `g`, stays as it is
abbrev pub KeepsSpeech : ℕ → Option Speech → Option Speech → Type 0
KeepsSpeech g none o = o ≡ none
KeepsSpeech g (some s) o = (s.owner ≡ g) ⊎ (o ≡ some s)

-- what the device and the control methods can see of a session, but for the speech of the task of the
-- generation `g`
abbrev pub LooksAs : ℕ → VoiceTurn → VoiceTurn → Type 0
LooksAs g v w =
    KeepsSpeech g v.current_tts w.current_tts
    × (w.sent ≡ v.sent)
    × (w.state ≡ v.state)
    × (w.queue ≡ v.queue)
    × (w.ending ≡ v.ending)
    × (w.waking ≡ v.waking)
    × (w.close_after_chat ≡ v.close_after_chat)
    × (w.end_reason ≡ v.end_reason)
    × (w.last_activity ≡ v.last_activity)
    × (w.generation ≡ v.generation)

-- After an expiry the idle watch never acts again, whatever the calls in between.
pub watch_idle-once :
    (cfg : Config) (ph : Phrases) (calls : List ((Message → Bool) × ℕ × Call))
    (sends : Message → Bool) (now : ℕ) (v : VoiceTurn)
    → v.idle_closing ≡ true
    → watch_idle cfg sends now (run cfg ph calls v) ≡ run cfg ph calls v
unfolding watch_idle idle_due
watch_idle-once cfg ph calls sends now v h = ground (arith, (run-Later cfg ph calls v).1 h)
