-- ===== src/Transport/Examples.antt =====
-- Connections of core/cluster/transport_core.py: one that talks, one that has expired.
use xiaozhi_desk_robot_serve.Prelude.{
  ℕ, ◌≤◌, ◌≡◌, refl, String, Bool, true, false, none, some, List, [], ◌∷◌, arith, length,
}
use xiaozhi_desk_robot_serve.VoiceTurn.{Message, Config, init, after, emit}
use xiaozhi_desk_robot_serve.VoiceTurn.Control.{expire_idle, abort, release}
use xiaozhi_desk_robot_serve.Transport.{
  max_sessions, absent, text, Request, binary_frame, text_frame, Session, is_expired,
}
use xiaozhi_desk_robot_serve.Transport.Audio.{audio_payload}
use xiaozhi_desk_robot_serve.Transport.Handler.{
  Arrival, Core, CoreEvent, request_event, open_event, close_event, core_run, loop,
}
use xiaozhi_desk_robot_serve.Transport.Laws.{length-core_run-le, loop-expired}
use xiaozhi_desk_robot_serve.Transport.Framing.{gateway_frame, audio_payload-gateway_frame}

abbrev cfg : Config
cfg = record {
  no_voice_time = 120;
  end_prompt_enable = false;
  end_prompt = "bye";
  enable_greeting = true;
  exit_farewell = "Goodbye";
  has_tts = true;
}

abbrev no_word : String → Bool
no_word s = false

abbrev keep : ℕ → ℕ → ℕ
keep payload m = m

abbrev sends : Message → Bool
sends m = true

abbrev empty_core : Core
empty_core = record { sockets = []; sessions = []; stopping = false }

abbrev events : List CoreEvent
events =
    request_event true false 1
    ∷ open_event "s"
    ∷ request_event true false 2
    ∷ close_event 1 (some "s")
    ∷ []

length-core_run-le_example : length (core_run events empty_core).sockets ≤ max_sessions
length-core_run-le_example = length-core_run-le events empty_core (omega arith)

abbrev listen_start : Request ℕ
listen_start = record {
  kind = "listen";
  state = text "start";
  mode = absent;
  input_mode = absent;
  said = absent;
  payload = 0;
}

abbrev frames : List (Arrival ℕ)
frames =
    (sends, true, 5, text_frame (some listen_start))
    ∷ (sends, true, 6, binary_frame (gateway_frame 0 0 0 1 (7 ∷ [])))
    ∷ (sends, true, 7, text_frame none)
    ∷ []

abbrev session : Session ℕ
session = record {
  voice = some (init 0);
  mcp = none;
  unavailable_sent = false;
  received_audio_frames = 0;
  direct = [];
}

abbrev late : Session ℕ
late = record session { voice = some (expire_idle cfg sends (init 0)).0 }

late_expired : is_expired cfg no_word keep late ≡ true
unfolding is_expired expire_idle abort release init after emit
late_expired = refl

loop-expired_example : (loop cfg no_word keep frames late).0 ≡ late
loop-expired_example = loop-expired cfg no_word keep frames late late_expired

audio_payload-gateway_frame_example : audio_payload (gateway_frame 0 0 0 1 (7 ∷ [])) ≡ some (7 ∷ [])
audio_payload-gateway_frame_example =
    audio_payload-gateway_frame 0 0 0 1 (7 ∷ []) (omega arith) (omega arith)
