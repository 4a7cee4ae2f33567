-- ===== src/Transport/Handler.antt =====
-- The loop of `websocket` of core/cluster/transport_core.py, its clean-up, and the admission of
-- connections.
use xiaozhi_desk_robot_serve.Prelude.{
  ℕ, String, Bool, Option, none, some, List, [], ◌∷◌, if◌then◌else◌, not, ◌||◌, leb, ◌==◌, length,
  str_eq,
}
use xiaozhi_desk_robot_serve.VoiceTurn.{Message, VoiceTurn, Config}
use xiaozhi_desk_robot_serve.VoiceTurn.Control.{abort}
use xiaozhi_desk_robot_serve.Transport.{
  max_sessions, WsFrame, Session, Exit, continues, breaks, raises, handle_frame,
}

-- a frame with its time, the sends of the session's voice that get through, and whether the
-- handler's own does
abbrev pub Arrival : Type 0 → Type 0
Arrival P = (Message → Bool) × Bool × ℕ × WsFrame P

module _ {P M : Type 0} (cfg : Config) (matches : String → Bool) (receive : P → M → M) where
  -- `async for frame in ws`; the frames run out when the connection closes
  unfoldable pub loop : List (Arrival P) → Session M → Session M × Exit
  loop [] s = (s, breaks)
  loop ((sends, sent, now, f) ∷ frames) s =
      let (s', e) = handle_frame cfg matches receive sends sent now f s in
      let rest = loop frames s' in
      elim e [ continues ↦ rest | breaks ↦ (s', breaks) | raises ↦ (s', raises) ]

-- the voice's part of the `finally` of the handler
unfoldable pub release_voice : (Message → Bool) → Option VoiceTurn → Option VoiceTurn
release_voice sends none = none
release_voice sends (some v) = some (abort sends v)

-- the handler from the hello on, to its end: the session as it leaves it
unfoldable pub serve :
    {P M : Type 0}
    → Config
    → (String → Bool)
    → (P → M → M)
    → (Message → Bool)
    → List (Arrival P)
    → Session M
    → Session M
serve cfg matches receive sends frames s =
    let (s', e) = loop cfg matches receive frames s in
    record s' { voice = release_voice sends s'.voice }

-- The core's sets of sockets and of sessions. A socket is a number, which stands for the object.
pub record Core : Type 0 where
  pub sockets : List ℕ
  pub sessions : List String
  pub stopping : Bool

unfoldable pub discard_socket : ℕ → List ℕ → List ℕ
discard_socket ws [] = []
discard_socket ws (x ∷ xs) = let rest = discard_socket ws xs in if x == ws then rest else x ∷ rest

unfoldable pub discard_session : String → List String → List String
discard_session s [] = []
discard_session s (x ∷ xs) =
    let rest = discard_session s xs in if str_eq x s then rest else x ∷ rest

-- how a request for a connection is answered
pub data Admission : Type 0 where
  unauthorized unavailable reserved : Admission

-- The guards of `websocket` and the reservation. `allowed` is the test of the query and of the
-- credentials, `paused` the answer of `requested`.
unfoldable pub admit : Bool → Bool → ℕ → Core → Core × Admission
admit allowed paused ws c =
    if not allowed
    then (c, unauthorized)
    else if c.stopping || paused || leb max_sessions (length c.sockets)
    then (c, unavailable)
    else (record c { sockets = ws ∷ c.sockets }, reserved)

-- `self.sessions.add(session)` of a new identifier
unfoldable pub open_session : String → Core → Core
open_session s c = record c { sessions = s ∷ c.sessions }

-- the core's part of the `finally` of the handler; a handler that ends before its hello has no session
unfoldable pub close_handler : ℕ → Option String → Core → Core
close_handler ws s c = record c {
  sockets = discard_socket ws c.sockets;
  sessions = elim s [ none ↦ c.sessions | some i ↦ discard_session i c.sessions ];
}

-- what the handlers do to the core, in any interleaving
pub data CoreEvent : Type 0 where
  request_event : Bool → Bool → ℕ → CoreEvent
  open_event : String → CoreEvent
  close_event : ℕ → Option String → CoreEvent

unfoldable pub core_run : List CoreEvent → Core → Core
core_run [] c = c
core_run (request_event allowed paused ws ∷ es) c = core_run es (admit allowed paused ws c).0
core_run (open_event s ∷ es) c = core_run es (open_session s c)
core_run (close_event ws s ∷ es) c = core_run es (close_handler ws s c)
