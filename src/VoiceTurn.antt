-- ===== src/VoiceTurn.antt =====
-- The state of `VoiceTurn` of core/cluster/voice_turn.py: a session's listening, its one running
-- task, and what it has sent. Diagnostics and logging are left out.
pub mod Control
pub mod Turn
pub mod Runs
pub mod Invariant
pub mod Preserves
pub mod Stages
pub mod Stale
pub mod Frames
pub mod Tools
pub mod ToolLaws
mod Examples
use xiaozhi_desk_robot_serve.Prelude.{
  ℕ, zero, ◌+◌, ◌-◌, String, Bool, true, false, Option, none, some, List, [], ◌∷◌, ◌++◌,
  if◌then◌else◌, not, ◌&&◌,
}

pub data TurnState : Type 0 where
  idle asr asr_restarting llm tts done error aborted : TurnState

pub data EndReason : Type 0 where
  exit_intent no_voice_timeout : EndReason

-- a frame of the input queue: `('audio', data)` with the bytes, or `('end', b'')`
pub data Frame : Type 0 where
  audio : List ℕ → Frame
  end_of_speech : Frame

-- the messages of `emit`, by their `type` and `state`
pub data Message : Type 0 where
  stt_clear tts_start tts_stop tts_stop_end asr_overflow : Message
  stt_partial stt_final tts_sentence llm_final : String → Message
  llm_partial : ℕ → String → Message
  llm_emotion : String → String → Message
  goodbye : EndReason → Message
  complete : Bool → Message

-- what `run` was started with: the listening mode, or the text with `wake` and `closing`
pub data TaskInput : Type 0 where
  listening : String → TaskInput
  given : String → Bool → Bool → TaskInput

pub record Task : Type 0 where
  pub generation : ℕ
  pub input : TaskInput
  pub finished : Bool

-- a `TTSTurn`, by the generation of the task that made it, which makes one at most, and with the flag
-- `playback.started`
pub record Speech : Type 0 where
  pub owner : ℕ
  pub started : Bool

-- `sent` is what reached the device
pub record VoiceTurn : Type 0 where
  pub task : Option Task
  pub queue : Option (List Frame)
  pub generation : ℕ
  pub ending : Bool
  pub current_tts : Option Speech
  pub state : TurnState
  pub close_after_chat : Bool
  pub end_reason : EndReason
  pub idle_closing : Bool
  pub last_activity : ℕ
  pub waking : Bool
  pub sent : List Message

-- the fields of `session_config` that the control methods read, and whether there is a `tts_pool`
pub record Config : Type 0 where
  pub no_voice_time : ℕ
  pub end_prompt_enable : Bool
  pub end_prompt : String
  pub enable_greeting : Bool
  pub exit_farewell : String
  pub has_tts : Bool

-- __init__
unfoldable pub init : ℕ → VoiceTurn
init now = record {
  task = none;
  queue = none;
  generation = 0;
  ending = false;
  current_tts = none;
  state = idle;
  close_after_chat = false;
  end_reason = exit_intent;
  idle_closing = false;
  last_activity = now;
  waking = false;
  sent = [];
}

pub data Failure : Type 0 where
  value_error attribute_error send_failed cancelled_error : Failure

pub data Outcome : Type 0 where
  ok : Outcome
  raised : Failure → Outcome

abbrev pub Step : Type 0
Step = VoiceTurn × Outcome

-- what follows an `await` that may raise
unfoldable pub after : Step → (VoiceTurn → Step) → Step
after (v, ok) k = k v
after (v, raised e) k = (v, raised e)

-- `emit`: `sends` says which messages get through within the two seconds
unfoldable pub emit : (Message → Bool) → Message → VoiceTurn → Step
emit sends m v =
    if sends m then (record v { sent = v.sent ++ m ∷ [] }, ok) else (v, raised send_failed)

-- `self.task is not None and not self.task.done()`
unfoldable pub is_running : Option Task → Bool
is_running none = false
is_running (some t) = not t.finished

unfoldable pub touch_activity : ℕ → VoiceTurn → VoiceTurn
touch_activity now v = record v { last_activity = now }
