-- ===== src/Transport/Laws.antt =====
-- What the handler of core/cluster/transport_core.py keeps: the bound of its sockets, and the last turn of a
-- session that has expired.
use xiaozhi_desk_robot_serve.Prelude.{
  ℕ, ◌≤◌, String, Bool, ◌≡◌, refl, ap, ◌∙◌, true, none, some, List, [], ◌∷◌, arith, length,
}
use xiaozhi_desk_robot_serve.VoiceTurn.{Message, Config}
use xiaozhi_desk_robot_serve.Transport.{
  max_sessions, WsFrame, binary_frame, text_frame, closing_frame, other_frame, Session, Exit,
  continues, breaks, raises, is_expired, handle_late, handle_frame,
}
use xiaozhi_desk_robot_serve.Transport.Handler.{
  Arrival, loop, Core, discard_socket, admit, open_session, close_handler, CoreEvent, request_event,
  open_event, close_event, core_run,
}

length-discard_socket-le : (ws : ℕ) (xs : List ℕ) → length (discard_socket ws xs) ≤ length xs
unfolding discard_socket
length-discard_socket-le ws [] = omega arith
length-discard_socket-le ws (x ∷ xs) = ground (arith, length-discard_socket-le ws xs)

-- In any interleaving of requests, openings and clean-ups, a core that has at most 128 sockets never
-- has more.
pub length-core_run-le :
    (es : List CoreEvent) (c : Core)
    → length c.sockets ≤ max_sessions
    → length (core_run es c).sockets ≤ max_sessions
unfolding core_run admit open_session close_handler
length-core_run-le [] c h = h
length-core_run-le (request_event allowed paused ws ∷ es) c h =
    length-core_run-le es (admit allowed paused ws c).0 (ground arith)
length-core_run-le (open_event s ∷ es) c h = length-core_run-le es (open_session s c) h
length-core_run-le (close_event ws s ∷ es) c h =
    length-core_run-le es (close_handler ws s c)
      (omega (arith, length-discard_socket-le ws c.sockets))

module _ {P M : Type 0} (cfg : Config) (matches : String → Bool) (receive : P → M → M) where
  handle_frame-expired :
      (sends : Message → Bool) (sent : Bool) (now : ℕ) (f : WsFrame P) (s : Session M)
      → is_expired cfg matches receive s ≡ true
      → (handle_frame cfg matches receive sends sent now f s).0 ≡ s
  unfolding handle_frame handle_late
  handle_frame-expired sends sent now (binary_frame bytes) s e = ground arith
  handle_frame-expired sends sent now (text_frame none) s e = ground arith
  handle_frame-expired sends sent now (text_frame (some r)) s e = ground arith
  handle_frame-expired sends sent now closing_frame s e = ground arith
  handle_frame-expired sends sent now other_frame s e = ground arith

  -- In a session that has expired, no frames change anything, whichever sends fail: neither control messages
  -- nor audio supersede its last turn.
  pub loop-expired :
      (frames : List (Arrival P)) (s : Session M)
      → is_expired cfg matches receive s ≡ true
      → (loop cfg matches receive frames s).0 ≡ s
  unfolding loop
  loop-expired [] s e = refl
  loop-expired ((sends, sent, now, f) ∷ frames) s e =
      let p = handle_frame-expired sends sent now f s e in
      let (s', e') = handle_frame cfg matches receive sends sent now f s in
      elim e'
        as (λ x.
          (elim x as (λ _. Session M × Exit) [
            | continues ↦ loop cfg matches receive frames s'
            | breaks ↦ (s', breaks)
            | raises ↦ (s', raises)
          ]).0
          ≡ s) [
            | continues ↦
                ap (λ x. (loop cfg matches receive frames x).0) p ∙ loop-expired frames s e
            | breaks ↦ p
            | raises ↦ p
          ]
