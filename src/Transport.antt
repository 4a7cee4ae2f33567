-- ===== src/Transport.antt =====
-- The WebSocket handler of core/cluster/transport_core.py after the hello: what each frame of the
-- gateway does to the session, and what the handler leaves when it ends.
pub mod Audio
pub mod Handler
pub mod Laws
pub mod Framing
mod Examples
use xiaozhi_desk_robot_serve.Prelude.{
  ℕ, ◌+◌, String, Bool, true, false, Option, none, some, List, [], ◌∷◌, ◌++◌, if◌then◌else◌, not,
  ◌&&◌, ◌||◌, leb, length, str_eq,
}
use xiaozhi_desk_robot_serve.VoiceTurn.{
  Message, stt_clear, VoiceTurn, Config, Outcome, ok, raised, value_error, Step, emit,
  touch_activity,
}
use xiaozhi_desk_robot_serve.VoiceTurn.Control.{abort, start, start_text, audio_frame, stop}
use xiaozhi_desk_robot_serve.Transport.Audio.{audio_payload}

abbrev pub max_sessions : ℕ
max_sessions = 128

-- a member of a decoded message: absent, a text, or another value
pub data Field : Type 0 where
  absent other : Field
  text : String → Field

-- a message that `decode_message` accepts, by the members that the handler reads
pub record Request (P : Type 0) : Type 0 where
  pub kind : String
  pub state : Field
  pub mode : Field
  pub input_mode : Field
  pub said : Field
  pub payload : P

-- a frame; `text_frame none` is one that `decode_message` refuses
pub data WsFrame (P : Type 0) : Type 0 where
  binary_frame : List ℕ → WsFrame P
  text_frame : Option (Request P) → WsFrame P
  closing_frame other_frame : WsFrame P

pub data Direct : Type 0 where
  pong runtime_unavailable : Direct

-- `M` is the state of the device's tools
pub record Session (M : Type 0) : Type 0 where
  pub voice : Option VoiceTurn
  pub mcp : Option M
  pub unavailable_sent : Bool
  pub received_audio_frames : ℕ
  pub direct : List Direct

-- how the handling of a frame ends: with the next frame, the end of the loop, or an exception
pub data Exit : Type 0 where
  continues breaks raises : Exit

abbrev pub is_text : String → Field → Bool
is_text s (text t) = str_eq t s
is_text s _ = false

abbrev pub as_text : Field → Option String
as_text (text t) = some t
as_text _ = none

-- `message.get('mode', 'auto')`; a mode that is no text is refused as an unknown one is
abbrev pub mode_of : Field → String
mode_of absent = "auto"
mode_of (text m) = m
mode_of other = ""

abbrev pub exit_of : Outcome → Exit
exit_of ok = continues
exit_of (raised e) = raises

module _ {M : Type 0} where
  unfoldable pub with_voice : Session M → Step → Session M × Exit
  with_voice s (v, o) = (record s { voice = some v }, exit_of o)

  -- `ws.send_json` of the handler itself
  unfoldable pub send_direct : Bool → Direct → Session M → Session M × Exit
  send_direct sent d s =
      if sent then (record s { direct = s.direct ++ d ∷ [] }, continues) else (s, raises)

module _ {P M : Type 0} (cfg : Config) (matches : String → Bool) (receive : P → M → M) where
  -- the branch `listen` of a session with voice
  unfoldable pub listen_request : (Message → Bool) → ℕ → Request P → VoiceTurn → Step
  listen_request sends now r v =
      if is_text "start" r.state
      then start sends now (mode_of r.mode) v
      else if is_text "stop" r.state
      then stop sends v
      else if is_text "detect" r.state && (is_text "text" r.input_mode || is_text "web_chat" r.said)
      then start_text cfg matches sends now (as_text r.said) false v
      else if is_text "detect" r.state && not (is_text "text" r.input_mode)
      then start_text cfg matches sends now (as_text r.said) true v
      else (v, raised value_error)

  -- the branch `abort`, for the session's voice
  unfoldable pub abort_request :
      (Message → Bool) → ℕ → Option VoiceTurn → Session M → Session M × Exit
  abort_request sends now none s = (record s { unavailable_sent = false }, continues)
  abort_request sends now (some v) s =
      let (v', o) = emit sends stt_clear (abort sends (touch_activity now v)) in
      elim o [
        | ok ↦ (record s { voice = some v'; unavailable_sent = false }, continues)
        | raised _ ↦ (record s { voice = some v' }, raises)
      ]

  -- the branch `mcp`
  unfoldable pub mcp_request : P → Session M → Session M × Exit
  mcp_request payload s = elim s.mcp [
    | none ↦ (s, continues)
    | some m ↦ (record s { mcp = some (receive payload m) }, continues)
  ]

  -- the last branch: the device is told once that there is no conversation
  unfoldable pub refuse_request : Bool → Session M → Session M × Exit
  refuse_request sent s =
      if s.unavailable_sent
      then (s, continues)
      else (let (s', e) = send_direct sent runtime_unavailable s in
          (elim e [ continues ↦ record s' { unavailable_sent = true } | _ ↦ s' ], e))

  -- the branches `voice and message['type'] == 'listen'` and after it
  unfoldable pub voice_request :
      (Message → Bool) → Bool → ℕ → Request P → Option VoiceTurn → Session M → Session M × Exit
  voice_request sends sent now r none s = refuse_request sent s
  voice_request sends sent now r (some v) s =
      if str_eq r.kind "listen"
      then with_voice s (listen_request sends now r v)
      else refuse_request sent s

  -- a text frame that is decoded
  unfoldable pub handle_request :
      (Message → Bool) → Bool → ℕ → Request P → Session M → Session M × Exit
  handle_request sends sent now r s =
      if str_eq r.kind "goodbye"
      then (s, breaks)
      else if str_eq r.kind "hello"
      then (s, raises)
      else if str_eq r.kind "ping"
      then send_direct sent pong s
      else if str_eq r.kind "abort"
      then abort_request sends now s.voice s
      else if str_eq r.kind "mcp"
      then mcp_request r.payload s
      else voice_request sends sent now r s.voice s

  -- the payload of a binary frame
  unfoldable pub feed_voice :
      (Message → Bool) → List ℕ → Option VoiceTurn → Session M → Session M × Exit
  feed_voice sends payload none s = (s, continues)
  feed_voice sends payload (some v) s = with_voice s (audio_frame sends payload v)

  -- a binary frame
  unfoldable pub handle_audio : (Message → Bool) → List ℕ → Session M → Session M × Exit
  handle_audio sends bytes s = elim (audio_payload bytes) [
    | none ↦ (s, raises)
    | some payload ↦
        feed_voice sends payload s.voice
          (record s { received_audio_frames = s.received_audio_frames + 1 })
  ]

  -- `voice is not None and voice.idle_closing`
  unfoldable pub is_expired : Session M → Bool
  is_expired s = elim s.voice [ none ↦ false | some v ↦ v.idle_closing ]

  -- a frame that comes after the expiry: only a goodbye is heard
  unfoldable pub handle_late : WsFrame P → Session M → Session M × Exit
  handle_late (text_frame none) s = (s, raises)
  handle_late (text_frame (some r)) s = (s, if str_eq r.kind "goodbye" then breaks else continues)
  handle_late _ s = (s, continues)

  -- a frame before the expiry
  unfoldable pub handle_live :
      (Message → Bool) → Bool → ℕ → WsFrame P → Session M → Session M × Exit
  handle_live sends sent now (binary_frame bytes) s = handle_audio sends bytes s
  handle_live sends sent now (text_frame none) s = (s, raises)
  handle_live sends sent now (text_frame (some r)) s = handle_request sends sent now r s
  handle_live sends sent now closing_frame s = (s, breaks)
  handle_live sends sent now other_frame s = (s, continues)

  -- the body of the loop
  unfoldable pub handle_frame :
      (Message → Bool) → Bool → ℕ → WsFrame P → Session M → Session M × Exit
  handle_frame sends sent now f s =
      if is_expired s then handle_late f s else handle_live sends sent now f s
