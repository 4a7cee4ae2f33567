-- ===== src/LlmStream/Rounds.antt =====
-- One round of core/cluster/llm_stream_client.py, for any event that may arrive.
use Prim.Native.String.{◌++◌, len}
use xiaozhi_desk_robot_serve.Prelude.{
  ℕ, suc, ◌+◌, String, ◌≡◌, ◌≢◌, ◌≤◌, ◌<◌, ◌||◌, Bool, true, false, not, ap, All, ◌⊎◌, inl, inr,
  refl, ◌&&◌, Option, none, some, List, [], ◌∷◌, arith, Bool-cases, ltb, ◌==◌, str_eq, eq_refl,
}
use xiaozhi_desk_robot_serve.LlmStream.{
  Kind, started, chunk, complete, error, Event, max_text_bytes,
}
use xiaozhi_desk_robot_serve.LlmStream.Sender.{event}
use xiaozhi_desk_robot_serve.LlmStream.Receiver.{
  Trouble, Progress, fresh, StreamOutcome, waiting, finished, failed, Round, continues, ends,
  other_worker, unless, first_event, later_event, receive_event, next_round,
}

abbrev pub at : String → ℕ → String → Progress
at worker seq text = record { worker_id = some worker; seq = seq; text = text }

-- a round that goes on with `q`, or fails
abbrev pub Goes : Round → Progress → Type 0
Goes r q = (r ≡ continues q) ⊎ ((code : String) × (r ≡ ends (failed code)))

pub unless-Goes : (o : Option String) (r : Round) (q : Progress) → Goes r q → Goes (unless o r) q
unfolding unless
unless-Goes none r q h = h
unless-Goes (some code) r q h = inr (code, refl)

pub unless_ends :
    (o : Option String) (r : Round) (sent : String)
    → (r ≡ ends (finished sent)) ⊎ ((code : String) × (r ≡ ends (failed code)))
    → (unless o r ≡ ends (finished sent)) ⊎ ((code : String) × (unless o r ≡ ends (failed code)))
unfolding unless
unless_ends none r sent h = h
unless_ends (some code) r sent h = inr (code, refl)

pub finished_inj : (s t : String) → finished t ≡ finished s → s ≡ t
finished_inj s t h = cc

abbrev pub is_error : Kind → Bool
is_error (error code) = true
is_error started = false
is_error (chunk text) = false
is_error (complete bytes digest) = false

abbrev pub is_start : Kind → Bool
is_start started = true
is_start (error code) = false
is_start (chunk text) = false
is_start (complete bytes digest) = false

abbrev pub text_after : String → Kind → String
text_after text (chunk piece) = text ++ piece
text_after text started = text
text_after text (complete bytes digest) = text
text_after text (error code) = text

abbrev pub In : Event → List Event → Type 0
In e [] = ⊥
In e (x ∷ xs) = (e ≡ x) ⊎ In e xs

-- an event of another worker, which does not admit the request
abbrev pub Foreign : String → Event → Type 0
Foreign worker e = (e.worker_id ≢ worker) × (is_start e.kind ≡ false)

-- a round that fails
abbrev pub Fails : Round → Type 0
Fails r = (code : String) × (r ≡ ends (failed code))

module _ (sha256 : String → String) (worker : String) where
  -- an event of the worker with the number that the core waits for
  pub receive_event-later :
      (t : Trouble) (n : ℕ) (text : String) (k : Kind)
      → receive_event sha256 t (at worker (suc n) text) (event sha256 worker (suc n) k)
        ≡ unless t.taken (later_event sha256 t (at worker (suc n) text) k)
  unfolding receive_event other_worker
  receive_event-later t n text k = ground (arith, eq_refl worker)

  pub later_chunk-Goes :
      (t : Trouble) (n : ℕ) (text piece : String)
      → Goes
          (later_event sha256 t (at worker (suc n) text) (chunk piece))
          (at worker (suc (suc n)) (text ++ piece))
  unfolding later_event
  later_chunk-Goes t n text piece = elim (Bool-cases (ltb max_text_bytes (len text + len piece))) [
    | inl over ↦ rw over (inr ("llm_output_too_large", refl))
    | inr fits ↦ rw fits (
        unless-Goes t.consumed
          (unless t.acknowledged (continues (at worker (suc (suc n)) (text ++ piece))))
          (at worker (suc (suc n)) (text ++ piece))
          (unless-Goes t.acknowledged (continues (at worker (suc (suc n)) (text ++ piece)))
            (at worker (suc (suc n)) (text ++ piece)) (inl refl)))
  ]

  pub chunk-Goes :
      (t : Trouble) (n : ℕ) (text piece : String)
      → Goes
          (receive_event sha256 t
            (at worker (suc n) text)
            (event sha256 worker (suc n) (chunk piece)))
          (at worker (suc (suc n)) (text ++ piece))
  chunk-Goes t n text piece = rw (receive_event-later t n text (chunk piece)) (
      unless-Goes t.taken (later_event sha256 t (at worker (suc n) text) (chunk piece))
        (at worker (suc (suc n)) (text ++ piece)) (later_chunk-Goes t n text piece))

  -- a text is returned only if it is this one
  abbrev pub Delivers : StreamOutcome → String → Type 0
  Delivers o sent = (s : String) → o ≡ finished s → s ≡ sent

  pub waiting-Delivers : (p : Progress) (all : String) → Delivers (waiting p) all
  waiting-Delivers p all s h = cc

  pub failed-Delivers : (code all : String) → Delivers (failed code) all
  failed-Delivers code all s h = cc

  pub Goes-Delivers :
      (all : String) (r : Round) (q : Progress) (rest : Progress → StreamOutcome)
      → Goes r q
      → Delivers (rest q) all
      → Delivers (next_round sha256 r rest) all
  unfolding next_round
  Goes-Delivers all r q rest (inl goes) d = rw goes d
  Goes-Delivers all r q rest (inr (code, fails)) d = rw fails (failed-Delivers code all)

  pub Fails-Delivers :
      (all : String) (r : Round) (rest : Progress → StreamOutcome) (code : String)
      → r ≡ ends (failed code)
      → Delivers (next_round sha256 r rest) all
  unfolding next_round
  Fails-Delivers all r rest code fails = rw fails (failed-Delivers code all)

  pub unless-Fails :
      (o : Option String) (code : String)
      → (c : String) × (unless o (ends (failed code)) ≡ ends (failed c))
  unfolding unless
  unless-Fails none code = (code, refl)
  unless-Fails (some c) code = (c, refl)

  pub error-Fails :
      (t : Trouble) (n : ℕ) (text code : String)
      → (c : String) × (receive_event sha256 t
            (at worker (suc n) text)
            (event sha256 worker (suc n) (error code))
          ≡ ends (failed c))
  unfolding later_event
  error-Fails t n text code =
      let (c, e) = unless-Fails t.acknowledged code in
      rw (receive_event-later t n text (error code)) (rw e (unless-Fails t.taken c))

  pub Ends-Delivers :
      (all : String) (r : Round) (rest : Progress → StreamOutcome)
      → (r ≡ ends (finished all)) ⊎ ((code : String) × (r ≡ ends (failed code)))
      → Delivers (next_round sha256 r rest) all
  unfolding next_round
  Ends-Delivers all r rest (inl ended) = rw ended (λ s h. finished_inj s all h)
  Ends-Delivers all r rest (inr (code, fails)) = rw fails (failed-Delivers code all)

  pub complete_ends :
      (t : Trouble) (n : ℕ) (sent digest : String) (bytes : ℕ)
      → let r =
          receive_event sha256 t
            (at worker (suc n) sent)
            (event sha256 worker (suc n) (complete bytes digest)) in
        (r ≡ ends (finished sent)) ⊎ ((code : String) × (r ≡ ends (failed code)))
  unfolding later_event
  complete_ends t n sent digest bytes =
      rw (receive_event-later t n sent (complete bytes digest))
        (elim (Bool-cases (len sent == bytes && str_eq (sha256 sent) digest)) [
          | inl right ↦ rw right (
              unless_ends t.taken (unless t.acknowledged (ends (finished sent))) sent
                (unless_ends t.acknowledged (ends (finished sent)) sent (inl refl)))
          | inr wrong ↦ rw wrong (
              unless_ends t.taken (ends (failed "worker_rpc_invalid_reply")) sent
                (inr ("worker_rpc_invalid_reply", refl)))
        ])

  -- the event is not the one that the core waits for
  pub other_event-Fails :
      (t : Trouble) (p : Progress) (e : Event)
      → (not (e.seq == p.seq) || other_worker p.worker_id e.worker_id) ≡ true
      → Fails (receive_event sha256 t p e)
  unfolding receive_event
  other_event-Fails t p e h = rw h (unless-Fails t.taken "worker_rpc_invalid_reply")

  pub error_event-Fails :
      (t : Trouble) (p : Progress) (w : String) (n : ℕ) (k : Kind)
      → is_error k ≡ true
      → Fails (receive_event sha256 t p (record { worker_id = w; seq = n; kind = k }))
  unfolding receive_event first_event later_event
  error_event-Fails t p w n (error code) h =
      let (c, e) = unless-Fails t.acknowledged code in
      elim (Bool-cases (not (n == p.seq) || other_worker p.worker_id w)) [
        | inl other ↦ rw other (unless-Fails t.taken "worker_rpc_invalid_reply")
        | inr right ↦ rw right (elim (Bool-cases (p.seq == 0)) [
          | inl first ↦ rw first (rw e (unless-Fails t.taken c))
          | inr later ↦ rw later (rw e (unless-Fails t.taken c))
        ])
      ]
  error_event-Fails t p w n started h = cc
  error_event-Fails t p w n (chunk text) h = cc
  error_event-Fails t p w n (complete bytes digest) h = cc

  -- before the admission, an event that is no start
  pub early_event-Fails :
      (t : Trouble) (w : String) (n : ℕ) (k : Kind)
      → is_start k ≡ false
      → Fails (receive_event sha256 t fresh (record { worker_id = w; seq = n; kind = k }))
  unfolding receive_event first_event other_worker
  early_event-Fails t w n (error code) h = error_event-Fails t fresh w n (error code) refl
  early_event-Fails t w n started h = cc
  early_event-Fails t w n (chunk text) h = elim (Bool-cases (n == 0)) [
    | inl zero_ ↦ rw zero_ (unless-Fails t.taken "worker_rpc_invalid_reply")
    | inr more ↦ rw more (unless-Fails t.taken "worker_rpc_invalid_reply")
  ]
  early_event-Fails t w n (complete bytes digest) h = elim (Bool-cases (n == 0)) [
    | inl zero_ ↦ rw zero_ (unless-Fails t.taken "worker_rpc_invalid_reply")
    | inr more ↦ rw more (unless-Fails t.taken "worker_rpc_invalid_reply")
  ]

  -- the events of `es` have the numbers from `n` on, and the text is complete where they say so
  abbrev pub Ended : String → String → Kind → Type 0
  Ended all text (complete bytes digest) = text ≡ all
  Ended all text started = Unit
  Ended all text (chunk piece) = Unit
  Ended all text (error code) = Unit

  abbrev pub Honest : String → ℕ → String → List Event → Type 0
  Honest all n text [] = Unit
  Honest all n text (e ∷ es) =
      (e.seq ≡ n)
      × (e.worker_id ≡ worker)
      × Ended all text e.kind
      × Honest all (suc n) (text_after text e.kind) es

  pub Honest-from :
      (all : String) (n : ℕ) (text : String) (es : List Event) (e : Event)
      → Honest all n text es
      → In e es
      → n ≤ e.seq
  Honest-from all n text [] e h i = absurd i
  Honest-from all n text (x ∷ xs) e h (inl same) =
      let number : e.seq ≡ x.seq = ap (λ (y : Event). y.seq) same in omega (arith, number, h.0)
  Honest-from all n text (x ∷ xs) e h (inr later) =
      omega (arith, Honest-from all (suc n) (text_after text x.kind) xs e h.3 later)

  -- what may arrive when the core waits for the number `n` and the events `es` are still to come
  abbrev pub Known : ℕ → List Event → Event → Type 0
  Known n es e = (e.seq < n) ⊎ (In e es ⊎ (is_error e.kind ≡ true) ⊎ Foreign worker e)

  pub Known-next :
      (n : ℕ) (x : Event) (es : List Event) (e : Event)
      → x.seq ≡ n
      → Known n (x ∷ es) e
      → Known (suc n) es e
  Known-next n x es e h (inl past) = inl (omega (arith, past))
  Known-next n x es e h (inr (inl (inl same))) =
      let number : e.seq ≡ x.seq = ap (λ (y : Event). y.seq) same in inl (omega (arith, number, h))
  Known-next n x es e h (inr (inl (inr later))) = inr (inl later)
  Known-next n x es e h (inr (inr other)) = inr (inr other)

  pub All-next :
      (n : ℕ) (x : Event) (es : List Event) (arrived : List (Trouble × Event))
      → x.seq ≡ n
      → All (λ a. Known n (x ∷ es) a.1) arrived
      → All (λ a. Known (suc n) es a.1) arrived
  All-next n x es [] h k = tt
  All-next n x es (a ∷ arrived) h k = (Known-next n x es a.1 h k.0, All-next n x es arrived h k.1)

  pub started-Goes :
      (t : Trouble)
      → Goes (receive_event sha256 t fresh (event sha256 worker 0 started)) (at worker 1 "")
  unfolding receive_event other_worker first_event
  started-Goes t =
      unless-Goes t.taken (unless t.acknowledged (continues (at worker 1 ""))) (at worker 1 "")
        (unless-Goes t.acknowledged (continues (at worker 1 "")) (at worker 1 "") (inl refl))
