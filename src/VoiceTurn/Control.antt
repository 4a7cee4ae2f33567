-- ===== src/VoiceTurn/Control.antt =====
-- The methods of `VoiceTurn` of core/cluster/voice_turn.py that the transport calls. Each is one step;
-- the wait of `abort` for the cancelled task lets that task run its `finally` part.
use Prim.Native.String.{count}
use xiaozhi_desk_robot_serve.Prelude.{
  ℕ, ◌+◌, ◌-◌, String, Bool, true, false, Option, none, some, List, [], ◌∷◌, ◌++◌, if◌then◌else◌,
  not, ◌&&◌, ◌||◌, ltb, leb, ◌==◌, length, str_eq,
}
use xiaozhi_desk_robot_serve.Text.{is_blank}
use xiaozhi_desk_robot_serve.VoiceTurn.{
  TurnState, asr, asr_restarting, llm, tts, aborted, exit_intent, no_voice_timeout, Frame, audio,
  end_of_speech, Message, stt_clear, tts_stop, tts_stop_end, asr_overflow, stt_final, goodbye,
  listening, given, Task, Speech, VoiceTurn, Config, value_error, attribute_error, ok, raised, Step,
  after, emit, is_running, touch_activity,
}

abbrev pub queue_size : ℕ
queue_size = 64

abbrev pub recovery_audio_frames : ℕ
recovery_audio_frames = 10

abbrev pub max_audio : ℕ
max_audio = 4096

-- a send whose failure is passed over
unfoldable pub emit_quietly : (Message → Bool) → Message → VoiceTurn → VoiceTurn
unfolding emit
emit_quietly sends m v = (emit sends m v).0

-- `if self.current_tts is tts: self.current_tts = None`, for the speech of the task of the generation `g`
unfoldable pub clear_speech : ℕ → Option Speech → Option Speech
clear_speech g none = none
clear_speech g (some s) = if s.owner == g then none else some s

-- the `finally` part of a task that `abort` cancels: its generation is not the current one, and it drops
-- its own speech
unfoldable pub release : Option Task → Option Speech → Option Speech
unfolding clear_speech
release none s = s
release (some t) s = if t.finished then s else clear_speech t.generation s

-- abort
unfoldable pub abort : (Message → Bool) → VoiceTurn → VoiceTurn
unfolding release
abort sends v =
    let w = record v {
      current_tts = release v.task v.current_tts;
      generation = v.generation + 1;
      waking = false;
      task = none;
      queue = none;
      state = aborted;
    } in
    elim v.current_tts [
      | none ↦ w
      | some s ↦ if s.started then emit_quietly sends tts_stop w else w
    ]

-- what `start` and `start_text` do after their guards
unfoldable pub begin : (Message → Bool) → ℕ → VoiceTurn → VoiceTurn
begin sends now v = record (touch_activity now (abort sends v)) {
  close_after_chat = false;
  end_reason = exit_intent;
}

-- the end of `start`
unfoldable pub listen : String → VoiceTurn → Step
listen mode v = (
  record v {
    queue = some [];
    ending = false;
    state = asr;
    task = some (record { generation = v.generation; input = listening mode; finished = false });
  },
  ok,
)

-- start
unfoldable pub start : (Message → Bool) → ℕ → String → VoiceTurn → Step
start sends now mode v =
    if not (str_eq mode "manual" || str_eq mode "auto")
    then (v, raised value_error)
    else if v.waking && is_running v.task
    then (v, ok)
    else after (emit sends stt_clear (begin sends now v)) (listen mode)

-- the task that answers a given text
unfoldable pub answer : String → Bool → VoiceTurn → Step
answer text wake v = (
  record v {
    state = llm;
    ending = true;
    task =
        some
          (record { generation = v.generation; input = given text wake false; finished = false });
  },
  ok,
)

-- `start_text`. An argument that is not a text is `none`; `matches` is `matches_wakeup_word` with the
-- configured words.
unfoldable pub start_text :
    Config → (String → Bool) → (Message → Bool) → ℕ → Option String → Bool → VoiceTurn → Step
start_text cfg matches sends now none wake v = (v, raised value_error)
start_text cfg matches sends now (some text) wake v =
    if is_blank text || ltb 512 (count text)
    then (v, raised value_error)
    else (let w = record (begin sends now v) { waking = wake } in
        if wake && not cfg.enable_greeting && matches text
        then after (emit sends (stt_final text) (record w { waking = false })) (emit sends tts_stop)
        else answer text wake w)

-- `while self.queue.qsize() >= n: self.queue.get_nowait()`
unfoldable pub drain : ℕ → List Frame → List Frame
drain n [] = []
drain n (f ∷ q) = let rest = drain n q in if leb n (length (f ∷ q)) then rest else f ∷ q

-- `put_nowait` on the queue of 64, with the answer to `QueueFull`
unfoldable pub put_frame : (Message → Bool) → Frame → Option (List Frame) → VoiceTurn → Step
put_frame sends f none v = (v, raised attribute_error)
put_frame sends f (some q) v =
    if ltb (length q) queue_size
    then (record v { queue = some (q ++ f ∷ []) }, ok)
    else emit sends asr_overflow (abort sends v)

-- the queue that the frame is put on: while the worker restarts, only its last nine frames
unfoldable pub pre_roll : TurnState → Option (List Frame) → Option (List Frame)
pre_roll asr_restarting (some q) = some (drain recovery_audio_frames q)
pre_roll _ q = q

-- audio_frame
unfoldable pub audio_frame : (Message → Bool) → List ℕ → VoiceTurn → Step
audio_frame sends bytes v =
    if not (is_running v.task) || v.ending
    then (v, ok)
    else if length bytes == 0 || ltb max_audio (length bytes)
    then (v, raised value_error)
    else put_frame sends (audio bytes) (pre_roll v.state v.queue) v

-- stop
unfoldable pub stop : (Message → Bool) → VoiceTurn → Step
stop sends v =
    if is_running v.task && not v.ending
    then after (emit sends stt_clear (record v { ending = true }))
        (λ w. put_frame sends end_of_speech w.queue w)
    else (v, ok)

-- `self.state in {'llm', 'tts'} or self.waking or self.current_tts is not None`
unfoldable pub is_active : VoiceTurn → Bool
is_active v =
    elim v.state [ llm ↦ true | tts ↦ true | _ ↦ false ]
    || v.waking
    || elim v.current_tts [ none ↦ false | some _ ↦ true ]

-- idle_due
unfoldable pub idle_due : Config → ℕ → VoiceTurn → VoiceTurn × Bool
unfolding touch_activity
idle_due cfg now v =
    if v.idle_closing
    then (v, false)
    else if is_active v
    then (touch_activity now v, false)
    else (v, leb cfg.no_voice_time (now - v.last_activity))

-- `expire_idle`, up to the wait for the task that speaks the closing prompt
unfoldable pub expire_idle : Config → (Message → Bool) → VoiceTurn → Step
expire_idle cfg sends v =
    let w = record (abort sends (record v { idle_closing = true })) {
      close_after_chat = true;
      end_reason = no_voice_timeout;
    } in
    if cfg.end_prompt_enable && cfg.has_tts
    then (
      record w {
        state = llm;
        task = some (record {
          generation = w.generation;
          input = given cfg.end_prompt false true;
          finished = false;
        });
      },
      ok,
    )
    else after (emit sends stt_clear w)
        (λ x. after (emit sends tts_stop_end x) (λ y. emit sends (goodbye y.end_reason) y))
