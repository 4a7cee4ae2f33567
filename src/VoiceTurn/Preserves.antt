-- ===== src/VoiceTurn/Preserves.antt =====
-- Every step of core/cluster/voice_turn.py keeps the invariant of the session.
use xiaozhi_desk_robot_serve.Prelude.{
  ℕ, ◌<◌, String, Bool, ◌≡◌, refl, subst, true, false, Option, none, some, List, [], ◌∷◌, ◌++◌, inl,
  inr, arith, ltb, ◌==◌, length, length-append, Bool-cases, All-append,
}
use xiaozhi_desk_robot_serve.VoiceTurn.{
  TurnState, asr_restarting, Frame, audio, end_of_speech, Message, stt_clear, stt_final, tts_stop,
  tts_stop_end, asr_overflow, goodbye, no_voice_timeout, Task, VoiceTurn, Config, emit, after,
  touch_activity,
}
use xiaozhi_desk_robot_serve.VoiceTurn.Control.{
  queue_size, recovery_audio_frames, abort, begin, listen, start, answer, start_text, put_frame,
  pre_roll, audio_frame, stop, idle_due, expire_idle,
}
use xiaozhi_desk_robot_serve.VoiceTurn.Turn.{take_queue, take_frame}
use xiaozhi_desk_robot_serve.VoiceTurn.Runs.{watch_idle}
use xiaozhi_desk_robot_serve.VoiceTurn.Invariant.{
  IsAudio, QueueOk, TaskOk, IsSound, QueueOk-drain, QueueOk-tail, QueueOk-end, TaskOk-end,
  TaskOk-queue, emit-IsSound, after-IsSound, EndsLast-append, abort-none,
}

none-IsSound : (v : VoiceTurn) → v.queue ≡ none → v.task ≡ none → IsSound v
none-IsSound v q t = (rw q tt, rw t tt)

pub abort-IsSound : (sends : Message → Bool) (v : VoiceTurn) → IsSound (abort sends v)
abort-IsSound sends v = let (q, t, g, c) = abort-none sends v in none-IsSound (abort sends v) q t

begin-IsSound : (sends : Message → Bool) (now : ℕ) (v : VoiceTurn) → IsSound (begin sends now v)
unfolding begin touch_activity
begin-IsSound sends now v = abort-IsSound sends v

pub start-IsSound :
    (sends : Message → Bool) (now : ℕ) (mode : String) (v : VoiceTurn)
    → IsSound v
    → IsSound (start sends now mode v).0
unfolding start
start-IsSound sends now mode v i = ground (
  arith,
  after-IsSound (emit sends stt_clear (begin sends now v)) (listen mode)
      (emit-IsSound sends stt_clear _ (begin-IsSound sends now v))
      (λ w j. unfold listen in ((omega arith, tt), (refl, tt))),
)

answer-IsSound :
    (text : String) (wake : Bool) (v : VoiceTurn) → IsSound v → IsSound (answer text wake v).0
unfolding answer
answer-IsSound text wake v i = (QueueOk-end v.ending v.queue i.0, (refl, inl refl))

pub start_text-IsSound :
    (cfg : Config) (matches : String → Bool) (sends : Message → Bool) (now : ℕ)
    (text : Option String) (wake : Bool) (v : VoiceTurn)
    → IsSound v
    → IsSound (start_text cfg matches sends now text wake v).0
unfolding start_text
start_text-IsSound cfg matches sends now none wake v i = i
start_text-IsSound cfg matches sends now (some text) wake v i =
    let w = record (begin sends now v) { waking = wake } in
    let x = record w { waking = false } in
    let b : IsSound w = begin-IsSound sends now v in
    let first : IsSound (emit sends (stt_final text) x).0 =
      emit-IsSound sends (stt_final text) x b in
    ground (
      arith,
      answer-IsSound text wake w b,
      after-IsSound (emit sends (stt_final text) x) (emit sends tts_stop) first
          (λ y j. emit-IsSound sends tts_stop y j),
    )

-- the state of a queue and a task that a new frame goes to
put_frame-IsSound :
    (sends : Message → Bool) (f : Frame) (o : Option (List Frame)) (v : VoiceTurn)
    → IsSound v
    → TaskOk v.generation o v.ending v.idle_closing v.task
    → ((q : List Frame)
        → o ≡ some q
        → length q < queue_size
        → QueueOk v.ending (some (q ++ f ∷ [])))
    → IsSound (put_frame sends f o v).0
unfolding put_frame
put_frame-IsSound sends f none v i t room = i
put_frame-IsSound sends f (some q) v i t room = elim (Bool-cases (ltb (length q) queue_size)) [
  | inl fits ↦ rw fits (
    room q refl (ground arith),
    TaskOk-queue v.generation q (q ++ f ∷ []) v.ending v.idle_closing v.task t,
  )
  | inr full ↦ rw full (emit-IsSound sends asr_overflow (abort sends v) (abort-IsSound sends v))
]

pre_roll-QueueOk :
    (s : TurnState) (ending : Bool) (o : Option (List Frame))
    → QueueOk ending o
    → QueueOk ending (pre_roll s o)
unfolding pre_roll
pre_roll-QueueOk asr_restarting ending none i = i
pre_roll-QueueOk asr_restarting ending (some q) i = QueueOk-drain ending recovery_audio_frames q i
pre_roll-QueueOk _ ending o i = i

pre_roll-TaskOk :
    (s : TurnState) (g : ℕ) (o : Option (List Frame)) (ending closing : Bool) (t : Option Task)
    → TaskOk g o ending closing t
    → TaskOk g (pre_roll s o) ending closing t
unfolding pre_roll
pre_roll-TaskOk asr_restarting g none ending closing t i = i
pre_roll-TaskOk asr_restarting g (some q) ending closing t i = TaskOk-queue g q _ ending closing t i
pre_roll-TaskOk _ g o ending closing t i = i

room_audio :
    (ending : Bool) (bytes : List ℕ) (o : Option (List Frame)) (q : List Frame)
    → ending ≡ false
    → QueueOk ending o
    → o ≡ some q
    → length q < queue_size
    → QueueOk ending (some (q ++ audio bytes ∷ []))
room_audio ending bytes o q e i h fits =
    let ok' : QueueOk false (some q) =
      subst (λ x. QueueOk false x) h (subst (λ x. QueueOk x o) e i) in
    rw e (
      omega (arith, length-append q (audio bytes ∷ [])),
      All-append IsAudio q (audio bytes ∷ []) ok'.1 (tt, tt),
    )

pub audio_frame-IsSound :
    (sends : Message → Bool) (bytes : List ℕ) (v : VoiceTurn)
    → IsSound v
    → IsSound (audio_frame sends bytes v).0
unfolding audio_frame
audio_frame-IsSound sends bytes v i = elim (Bool-cases v.ending) [
  | inl e ↦ ground arith
  | inr e ↦ ground (
    arith,
    put_frame-IsSound sends (audio bytes) (pre_roll v.state v.queue) v i
        (pre_roll-TaskOk v.state v.generation v.queue v.ending v.idle_closing v.task i.1)
        (λ q.
          room_audio v.ending bytes (pre_roll v.state v.queue) q e
            (pre_roll-QueueOk v.state v.ending v.queue i.0)),
  )
]

room_end :
    (o : Option (List Frame)) (q : List Frame)
    → QueueOk false o
    → o ≡ some q
    → length q < queue_size
    → QueueOk true (some (q ++ end_of_speech ∷ []))
room_end o q i h fits =
    let ok' : QueueOk false (some q) = subst (λ x. QueueOk false x) h i in
    (omega (arith, length-append q (end_of_speech ∷ [])), EndsLast-append q end_of_speech ok'.1)

pub stop-IsSound : (sends : Message → Bool) (v : VoiceTurn) → IsSound v → IsSound (stop sends v).0
unfolding stop emit after
stop-IsSound sends v i = elim (Bool-cases v.ending) [
  | inl e ↦ ground arith
  | inr e ↦
      let w = record v { ending = true } in
      let x = record w { sent = v.sent ++ stt_clear ∷ [] } in
      let j : IsSound w = (
        QueueOk-end v.ending v.queue i.0,
        TaskOk-end v.generation v.queue v.ending v.idle_closing v.task i.1,
      ) in
      let open' : QueueOk false v.queue = subst (λ b. QueueOk b v.queue) e i.0 in
      ground (
        arith,
        put_frame-IsSound sends end_of_speech x.queue x j j.1
            (λ q h fits. room_end v.queue q open' h fits),
      )
]

expire_idle-IsSound :
    (cfg : Config) (sends : Message → Bool) (v : VoiceTurn)
    → IsSound v
    → IsSound (expire_idle cfg sends v).0
unfolding expire_idle
expire_idle-IsSound cfg sends v i =
    let a = abort sends (record v { idle_closing = true }) in
    let w = record a { close_after_chat = true; end_reason = no_voice_timeout } in
    let j : IsSound w = abort-IsSound sends (record v { idle_closing = true }) in
    let (q, t, g, c) = abort-none sends (record v { idle_closing = true }) in
    ground (
      arith,
      after-IsSound (emit sends stt_clear w)
          (λ x. after (emit sends tts_stop_end x) (λ y. emit sends (goodbye y.end_reason) y))
          (emit-IsSound sends stt_clear w j)
          (λ x k.
            after-IsSound (emit sends tts_stop_end x) (λ y. emit sends (goodbye y.end_reason) y)
              (emit-IsSound sends tts_stop_end x k)
              (λ y l. emit-IsSound sends (goodbye y.end_reason) y l)),
    )

pub watch_idle-IsSound :
    (cfg : Config) (sends : Message → Bool) (now : ℕ) (v : VoiceTurn)
    → IsSound v
    → IsSound (watch_idle cfg sends now v)
unfolding watch_idle idle_due touch_activity
watch_idle-IsSound cfg sends now v i = ground (arith, expire_idle-IsSound cfg sends v i)

take_queue-QueueOk :
    (b ending : Bool) (o : Option (List Frame)) → QueueOk ending o → QueueOk ending (take_queue b o)
unfolding take_queue
take_queue-QueueOk true ending none i = i
take_queue-QueueOk true ending (some []) i = i
take_queue-QueueOk true ending (some (f ∷ q)) i = QueueOk-tail ending f q i
take_queue-QueueOk false ending o i = i

take_queue-TaskOk :
    (b : Bool) (g : ℕ) (o : Option (List Frame)) (ending closing : Bool) (t : Option Task)
    → TaskOk g o ending closing t
    → TaskOk g (take_queue b o) ending closing t
unfolding take_queue
take_queue-TaskOk true g none ending closing t i = i
take_queue-TaskOk true g (some []) ending closing t i = i
take_queue-TaskOk true g (some (f ∷ q)) ending closing t i =
    TaskOk-queue g (f ∷ q) q ending closing t i
take_queue-TaskOk false g o ending closing t i = i

pub take_frame-IsSound : (g : ℕ) (v : VoiceTurn) → IsSound v → IsSound (take_frame g v)
unfolding take_frame
take_frame-IsSound g v i =
    let b = g == v.generation in
    (
      take_queue-QueueOk b v.ending v.queue i.0,
      take_queue-TaskOk b v.generation v.queue v.ending v.idle_closing v.task i.1,
    )
