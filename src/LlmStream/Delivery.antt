-- ===== src/LlmStream/Delivery.antt =====
-- A worker that sends and a core that receives: the text that arrives is the text that was sent.
use Prim.Native.String.{◌++◌, len}
use text.Mathlib.TextLemmas.{append_assoc, append-nil, nil-append}
use xiaozhi_desk_robot_serve.Text.Words.{concat}
use xiaozhi_desk_robot_serve.Prelude.{
  ℕ, zero, suc, ◌+◌, String, ◌≡◌, ◌≢◌, ◌||◌, ◌∙◌, Bool, true, false, not, ap, eq_iff, All, ◌⊎◌, inl,
  inr, refl, subst, sym, Option, none, some, List, [], ◌∷◌, arith, Bool-cases, ltb, ◌==◌, str_eq,
}
use xiaozhi_desk_robot_serve.LlmStream.{
  Kind, started, chunk, complete, error, Event, chunks, max_chunks, max_text_bytes,
}
use xiaozhi_desk_robot_serve.LlmStream.Pieces.{concat-chunks}
use xiaozhi_desk_robot_serve.LlmStream.Sender.{
  event, finish_stream, send_chunks, send_parts, send_stream,
}
use xiaozhi_desk_robot_serve.LlmStream.Receiver.{
  Trouble, Progress, fresh, StreamOutcome, finished, Round, continues, ends, other_worker,
  later_event, receive_event, next_round, receive_events,
}
use xiaozhi_desk_robot_serve.LlmStream.Sender.{Fault, last_error, interrupt, execute_stream}
use xiaozhi_desk_robot_serve.LlmStream.Rounds.{
  All-next, Delivers, Ended, Ends-Delivers, Fails, Fails-Delivers, Foreign, Goes-Delivers, Honest,
  Honest-from, In, Known, at, chunk-Goes, complete_ends, early_event-Fails, error-Fails,
  error_event-Fails, is_error, other_event-Fails, receive_event-later, text_after, unless-Fails,
  waiting-Delivers, started-Goes,
}

module _ (sha256 : String → String) (worker : String) where
  -- what the round of an event that may arrive comes to: it fails, or it returns the whole text, or it goes
  -- on with the next event of the stream
  abbrev Taken : String → ℕ → String → List Event → Round → Type 0
  Taken all n text [] r = Fails r ⊎ (r ≡ ends (finished all))
  Taken all n text (x ∷ xs) r =
      Fails r
      ⊎ ((r ≡ ends (finished all)) ⊎ (r ≡ continues (at worker (suc n) (text_after text x.kind))))

  Fails-Taken :
      (all : String) (n : ℕ) (text : String) (es : List Event) (r : Round)
      → Fails r
      → Taken all n text es r
  Fails-Taken all n text [] r h = inl h
  Fails-Taken all n text (x ∷ xs) r h = inl h

  wrong_number : (m n : ℕ) (b : Bool) → m ≢ n → (not (m == n) || b) ≡ true
  wrong_number m n b h = ground (arith, h)

  wrong_worker : (a : Bool) (w : String) → w ≢ worker → (a || not (str_eq w worker)) ≡ true
  wrong_worker a w h = ground (arith, h, eq_iff w worker)

  is_event :
      (n : ℕ) (x : Event) → x.seq ≡ n → x.worker_id ≡ worker → x ≡ event sha256 worker n x.kind
  is_event n x number sender =
      ap (λ (m : ℕ). record { worker_id = x.worker_id; seq = m; kind = x.kind }) number
      ∙ ap (λ (w : String). record { worker_id = w; seq = n; kind = x.kind }) sender

  -- the event that the core waits for
  right-Taken :
      (all : String) (t : Trouble) (n : ℕ) (text : String) (k : Kind) (es : List Event)
      → Ended sha256 worker all text k
      → Taken all
          (suc n)
          text
          (event sha256 worker (suc n) k ∷ es)
          (receive_event sha256 t (at worker (suc n) text) (event sha256 worker (suc n) k))
  unfolding later_event
  right-Taken all t n text started es h = inl (
      rw (receive_event-later sha256 worker t n text started)
        (unless-Fails sha256 worker t.taken "worker_rpc_invalid_reply"))
  right-Taken all t n text (chunk piece) es h = elim (chunk-Goes sha256 worker t n text piece) [
    | inl goes ↦ inr (inr goes)
    | inr fails ↦ inl fails
  ]
  right-Taken all t n text (error code) es h = inl (error-Fails sha256 worker t n text code)
  right-Taken all t n text (complete bytes digest) es h =
      elim (complete_ends sha256 worker t n text digest bytes) [
        | inl ended ↦ inr (inl (ended ∙ ap (λ s. ends (finished s)) h))
        | inr fails ↦ inl fails
      ]

  later-Taken :
      (all : String) (t : Trouble) (n : ℕ) (text : String) (es : List Event) (e : Event)
      → Honest sha256 worker all (suc n) text es
      → Known sha256 worker (suc n) es e
      → Taken all (suc n) text es (receive_event sha256 t (at worker (suc n) text) e)
  unfolding other_worker
  later-Taken all t n text es e h (inl past) = Fails-Taken all (suc n) text es _ (
      other_event-Fails sha256 worker t (at worker (suc n) text) e
        (wrong_number e.seq (suc n) _ (λ same. absurd (omega (arith, past, same)))))
  later-Taken all t n text es e h (inr (inr (inl failed_event))) =
      Fails-Taken all (suc n) text es _ (
        error_event-Fails sha256 worker t (at worker (suc n) text) e.worker_id e.seq e.kind
          failed_event)
  later-Taken all t n text es e h (inr (inr (inr foreign))) = Fails-Taken all (suc n) text es _ (
      other_event-Fails sha256 worker t (at worker (suc n) text) e
        (wrong_worker (not (e.seq == suc n)) e.worker_id foreign.0))
  later-Taken all t n text [] e h (inr (inl known)) = absurd known
  later-Taken all t n text (x ∷ xs) e h (inr (inl (inl same))) =
      subst
        (λ (y : Event).
          Taken all (suc n) text (x ∷ xs) (receive_event sha256 t (at worker (suc n) text) y))
        (sym (same ∙ is_event (suc n) x h.0 h.1)) (right-Taken all t n text x.kind xs h.2)
  later-Taken all t n text (x ∷ xs) e h (inr (inl (inr later))) = inl (
      other_event-Fails sha256 worker t (at worker (suc n) text) e (
        wrong_number e.seq (suc n) _ (λ eq. absurd (
          omega (
            arith,
            eq,
            Honest-from sha256 worker all (suc (suc n)) (text_after text x.kind) xs e h.3 later,
          )))))

  Taken-Delivers :
      (all : String) (n : ℕ) (text : String) (es : List Event) (r : Round)
      (rest : Progress → StreamOutcome)
      → Taken all n text es r
      → ((x : Event) (xs : List Event)
          → es ≡ x ∷ xs
          → Delivers sha256 worker (rest (at worker (suc n) (text_after text x.kind))) all)
      → Delivers sha256 worker (next_round sha256 r rest) all
  Taken-Delivers all n text [] r rest (inl (code, fails)) k =
      Fails-Delivers sha256 worker all r rest code fails
  Taken-Delivers all n text [] r rest (inr whole) k =
      Ends-Delivers sha256 worker all r rest (inl whole)
  Taken-Delivers all n text (x ∷ xs) r rest (inl (code, fails)) k =
      Fails-Delivers sha256 worker all r rest code fails
  Taken-Delivers all n text (x ∷ xs) r rest (inr (inl whole)) k =
      Ends-Delivers sha256 worker all r rest (inl whole)
  Taken-Delivers all n text (x ∷ xs) r rest (inr (inr goes)) k =
      Goes-Delivers sha256 worker all r (at worker (suc n) (text_after text x.kind)) rest (inl goes)
        (k x xs refl)

  arrived-Delivers :
      (all : String) (arrived : List (Trouble × Event)) (n : ℕ) (text : String) (es : List Event)
      → Honest sha256 worker all (suc n) text es
      → All (λ a. Known sha256 worker (suc n) es a.1) arrived
      → Delivers sha256 worker (receive_events sha256 (at worker (suc n) text) arrived) all
  unfolding receive_events
  arrived-Delivers all [] n text es h k =
      waiting-Delivers sha256 worker (at worker (suc n) text) all
  arrived-Delivers all ((t, e) ∷ arrived) n text es h k =
      Taken-Delivers all (suc n) text es (receive_event sha256 t (at worker (suc n) text) e)
        (λ q. receive_events sha256 q arrived) (later-Taken all t n text es e h k.0)
        (λ x xs same.
          let honest = subst (Honest sha256 worker all (suc n) text) same h in
          let known = subst (λ l. All (λ a. Known sha256 worker (suc n) l a.1) arrived) same k.1 in
          arrived-Delivers all arrived (suc n) (text_after text x.kind) xs honest.3
            (All-next sha256 worker (suc n) x xs arrived honest.0 known))

  -- before the admission
  first-Delivers :
      (all : String) (arrived : List (Trouble × Event)) (es : List Event)
      → Honest sha256 worker all 1 "" es
      → All (λ a. Known sha256 worker 0 (event sha256 worker 0 started ∷ es) a.1) arrived
      → Delivers sha256 worker (receive_events sha256 fresh arrived) all
  unfolding receive_events other_worker
  first-Delivers all [] es h k = waiting-Delivers sha256 worker fresh all
  first-Delivers all ((t, e) ∷ arrived) es h k =
      first_event-Delivers t e arrived es h k.0
        (λ known. arrived-Delivers all arrived 0 "" es h known) k.1
    where
      fails :
          (t : Trouble) (e : Event) (arrived : List (Trouble × Event))
          → Fails (receive_event sha256 t fresh e)
          → Delivers sha256 worker
              (next_round sha256
                (receive_event sha256 t fresh e)
                (λ q. receive_events sha256 q arrived))
              all
      fails t e arrived (code, h) =
          Fails-Delivers sha256 worker all (receive_event sha256 t fresh e)
            (λ q. receive_events sha256 q arrived) code h

      first_event-Delivers :
          (t : Trouble) (e : Event) (arrived : List (Trouble × Event)) (es : List Event)
          → Honest sha256 worker all 1 "" es
          → Known sha256 worker 0 (event sha256 worker 0 started ∷ es) e
          → (All (λ a. Known sha256 worker 1 es a.1) arrived
              → Delivers sha256 worker (receive_events sha256 (at worker 1 "") arrived) all)
          → All (λ a. Known sha256 worker 0 (event sha256 worker 0 started ∷ es) a.1) arrived
          → Delivers sha256 worker
              (next_round sha256
                (receive_event sha256 t fresh e)
                (λ q. receive_events sha256 q arrived))
              all
      first_event-Delivers t e arrived es h (inl past) go_on k = absurd (omega (arith, past))
      first_event-Delivers t e arrived es h (inr (inl (inl same))) go_on k =
          subst
            (λ (y : Event).
              Delivers sha256 worker
                (next_round sha256 (receive_event sha256 t fresh y)
                  (λ q. receive_events sha256 q arrived))
                all)
            (sym same)
            (Goes-Delivers sha256 worker all
              (receive_event sha256 t fresh (event sha256 worker 0 started)) (at worker 1 "")
              (λ q. receive_events sha256 q arrived) (started-Goes sha256 worker t)
              (go_on (All-next sha256 worker 0 (event sha256 worker 0 started) es arrived refl k)))
      first_event-Delivers t e arrived es h (inr (inl (inr later))) go_on k = fails t e arrived (
          other_event-Fails sha256 worker t fresh e (
            wrong_number e.seq 0 _
              (λ eq. absurd (omega (arith, eq, Honest-from sha256 worker all 1 "" es e h later)))))
      first_event-Delivers t e arrived es h (inr (inr (inl failed_event))) go_on k =
          fails t e arrived
            (error_event-Fails sha256 worker t fresh e.worker_id e.seq e.kind failed_event)
      first_event-Delivers t e arrived es h (inr (inr (inr foreign))) go_on k =
          fails t e arrived (early_event-Fails sha256 worker t e.worker_id e.seq e.kind foreign.1)

  chunks-Honest :
      (all : String) (texts : List String) (n : ℕ) (sent : String) (rest : ℕ → List Event)
      → ((m : ℕ) → Honest sha256 worker all m (sent ++ concat texts) (rest m))
      → Honest sha256 worker all n sent (send_chunks sha256 worker texts n rest)
  unfolding send_chunks concat
  chunks-Honest all [] n sent rest k =
      subst (λ s. Honest sha256 worker all n s (rest n)) (append-nil sent) (k n)
  chunks-Honest all (text ∷ texts) n sent rest k = elim (Bool-cases (ltb max_chunks n)) [
    | inl over ↦ rw over (refl, refl, tt, tt)
    | inr fits ↦ rw fits (
      refl,
      refl,
      tt,
      chunks-Honest all texts (suc n) (sent ++ text) rest (λ m.
          subst (λ s. Honest sha256 worker all m s (rest m))
            (sym (append_assoc sent text (concat texts))) (k m)),
    )
  ]

  finish-Honest :
      (n : ℕ) (sent : String)
      → Honest sha256 worker sent n sent (finish_stream sha256 worker n sent)
  unfolding finish_stream
  finish-Honest n sent = elim (Bool-cases (len sent == 0)) [
    | inl empty ↦ rw empty (refl, refl, tt, tt)
    | inr some_text ↦ rw some_text (refl, refl, refl, tt)
  ]

  parts-Honest :
      (parts : List String) (n : ℕ) (sent : String)
      → Honest sha256 worker (sent ++ concat parts) n sent (send_parts sha256 worker parts n sent)
  unfolding send_parts concat
  parts-Honest [] n sent = rw (append-nil sent) (finish-Honest n sent)
  parts-Honest (part ∷ parts) n sent =
      elim (Bool-cases (ltb max_text_bytes (len sent + len part))) [
        | inl over ↦ rw over (refl, refl, tt, tt)
        | inr fits ↦ rw fits (
            chunks-Honest (sent ++ (part ++ concat parts)) (chunks part) n sent
              (λ m. send_parts sha256 worker parts m (sent ++ part))
              (λ m. rw (concat-chunks part) (
                subst
                  (λ s.
                    Honest sha256 worker s m (sent ++ part)
                      (send_parts sha256 worker parts m (sent ++ part)))
                  (append_assoc sent part (concat parts)) (parts-Honest parts m (sent ++ part)))))
      ]

  last_error-In :
      (n : ℕ) (code : Option String) (e : Event)
      → In e (last_error sha256 worker n code)
      → is_error e.kind ≡ true
  unfolding last_error
  last_error-In n none e h = absurd h
  last_error-In n (some c) e (inl same) = ap (λ (y : Event). is_error y.kind) same
  last_error-In n (some c) e (inr more) = absurd more

  interrupt-In :
      (acknowledged : ℕ) (sent : Bool) (code : Option String) (n : ℕ) (es : List Event) (e : Event)
      → In e (
          interrupt sha256 worker
            (record { acknowledged = acknowledged; sent = sent; code = code })
            n
            es)
      → In e es ⊎ (is_error e.kind ≡ true)
  unfolding interrupt
  interrupt-In a sent code n [] e h = absurd h
  interrupt-In zero true code n (x ∷ xs) e (inl same) = inl (inl same)
  interrupt-In zero true code n (x ∷ xs) e (inr more) = inr (last_error-In n code e more)
  interrupt-In zero false code n (x ∷ xs) e h = inr (last_error-In n code e h)
  interrupt-In (suc a) sent code n (x ∷ xs) e (inl same) = inl (inl same)
  interrupt-In (suc a) sent code n (x ∷ xs) e (inr more) =
      elim (interrupt-In a sent code (suc n) xs e more) [
        | inl member ↦ inl (inr member)
        | inr failed_event ↦ inr failed_event
      ]

  execute_stream-In :
      (fault : Option Fault) (parts : List String) (e : Event)
      → In e (execute_stream sha256 worker fault parts)
      → In e (send_stream sha256 worker parts) ⊎ (is_error e.kind ≡ true)
  unfolding execute_stream
  execute_stream-In none parts e h = inl h
  execute_stream-In (some f) parts e h =
      interrupt-In f.acknowledged f.sent f.code 0 (send_stream sha256 worker parts) e h

  All-Known :
      (fault : Option Fault) (parts : List String) (arrived : List (Trouble × Event))
      → All (λ a. In a.1 (execute_stream sha256 worker fault parts) ⊎ Foreign worker a.1) arrived
      → All (λ a. Known sha256 worker 0 (send_stream sha256 worker parts) a.1) arrived
  All-Known fault parts [] h = tt
  All-Known fault parts ((t, e) ∷ arrived) (inr foreign, h) =
      (inr (inr (inr foreign)), All-Known fault parts arrived h)
  All-Known fault parts ((t, e) ∷ arrived) (inl member, h) = (
    elim (execute_stream-In fault parts e member) [
      | inl sent ↦ inr (inl sent)
      | inr failed_event ↦ inr (inr (inl failed_event))
    ],
    All-Known fault parts arrived h,
  )

-- A worker streams the parts of a provider to a core, and an exception (a failure of the provider, a lost
-- acknowledgment, a cancellation) may come up after any number of its events. What arrives at the core is any
-- sequence of events of this stream, some of them lost, repeated or in another order, and of events of other
-- workers that admit no request, each with any trouble at the core. If the core returns a text, it is exactly
-- the text that the provider yielded: all parts, each character of them once and in order.
pub receive-send_exact :
    (sha256 : String → String) (worker : String) (fault : Option Fault) (parts : List String)
    (arrived : List (Trouble × Event)) (text : String)
    → All (λ a. In a.1 (execute_stream sha256 worker fault parts) ⊎ Foreign worker a.1) arrived
    → receive_events sha256 fresh arrived ≡ finished text
    → text ≡ concat parts
unfolding send_stream
receive-send_exact sha256 worker fault parts arrived text h k =
    first-Delivers sha256 worker (concat parts) arrived (send_parts sha256 worker parts 1 "")
      (subst (λ s. Honest sha256 worker s 1 "" (send_parts sha256 worker parts 1 ""))
        (nil-append (concat parts)) (parts-Honest sha256 worker parts 1 ""))
      (All-Known sha256 worker fault parts arrived h) text k
