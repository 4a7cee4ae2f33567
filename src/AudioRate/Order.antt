-- ===== src/AudioRate/Order.antt =====
-- What `check_queue` of core/utils/audioRateController.py hands over: in which order, and when.
use mathlib.Core.Path.{subst, subst₂}
use xiaozhi_desk_robot_serve.Prelude.{
  ℕ, suc, ◌+◌, ◌*◌, ◌≤◌, Bool, ◌≡◌, refl, true, false, some, List, [], ◌∷◌, ◌++◌, arith, ltb,
  length, ap, sym, ◌∙◌, if◌then◌else◌, Bool-cases, inl, inr,
}
use xiaozhi_desk_robot_serve.AudioRate.{Item, audio, message, Start, Controller, elapsed_ms}
use xiaozhi_desk_robot_serve.AudioRate.Loop.{
  Action, deliver, sleep, finish, started, turn, poll, check_queue,
}

-- the readings are all from the time at which `pos` is due
abbrev pub DueFrom : Start → ℕ → List ℕ → Type 0
DueFrom s pos [] = Unit
DueFrom s pos (t ∷ later) = (pos ≤ elapsed_ms t (some s)) × DueFrom s pos later

DueFrom-mono :
    (s : Start) (p q : ℕ) (readings : List ℕ) → p ≤ q → DueFrom s q readings → DueFrom s p readings
DueFrom-mono s p q [] le d = tt
DueFrom-mono s p q (t ∷ later) le d = (omega arith, DueFrom-mono s p q later le d.1)

module _ {P M : Type 0} where
  abbrev pub items : List (ℕ × Item P M) → List (Item P M)
  items [] = []
  items ((t, i) ∷ sent) = i ∷ items sent

  -- one turn: what it hands over is the head of the queue
  abbrev handed : Action P M → List (Item P M) → List (Item P M)
  handed (deliver i) q = i ∷ q
  handed (sleep n) q = q
  handed finish q = q

  turn_head :
      (now : ℕ) (q : List (Item P M)) (c : Controller P M)
      → c.queue ≡ q
      → handed (turn now q c).1 (turn now q c).0.queue ≡ q
  unfolding turn
  turn_head now [] c e = e
  turn_head now (message m ∷ rest) c e = refl
  turn_head now (audio p ∷ rest) c e = ground arith

  -- Whatever the readings and whichever callback raises, the items handed over, in order, followed by
  -- the queue that is left, are the queue.
  pub check_queue_fifo :
      (raises : Item P M → Bool) (readings : List ℕ) (c : Controller P M)
      → let (c', sent) = check_queue raises readings c in items sent ++ c'.queue ≡ c.queue
  unfolding check_queue poll
  check_queue_fifo raises [] c = refl
  check_queue_fifo raises (now ∷ later) c =
      ground
        (arith, turn_head now c.queue c refl, check_queue_fifo raises later (turn now c.queue c).0)

  -- each packet at its place in the playback or after, the places `interval` apart
  abbrev pub Paced : Start → ℕ → ℕ → List (ℕ × Item P M) → Type 0
  Paced s interval pos [] = Unit
  Paced s interval pos ((t, message m) ∷ sent) = Paced s interval pos sent
  Paced s interval pos ((t, audio p) ∷ sent) =
      (pos ≤ elapsed_ms t (some s)) × Paced s interval (pos + interval) sent

  -- how a turn moves the position
  abbrev Advances : ℕ → Start → Controller P M → ℕ → Action P M → Type 0
  Advances now s c pos (deliver (audio p)) =
      (c.play_position ≤ elapsed_ms now (some s)) × (pos ≡ c.play_position + c.interval_ms)
  Advances now s c pos (deliver (message m)) = pos ≡ c.play_position
  Advances now s c pos (sleep n) = pos ≡ c.play_position
  Advances now s c pos finish = pos ≡ c.play_position

  turn-Advances :
      (now : ℕ) (s : Start) (q : List (Item P M)) (c : Controller P M)
      → c.start_timestamp ≡ some s
      → let (c', a) = turn now q c in
        (c'.start_timestamp ≡ some s)
        × (c'.interval_ms ≡ c.interval_ms)
        × Advances now s c c'.play_position a
  unfolding turn
  turn-Advances now s [] c e = (e, refl, refl)
  turn-Advances now s (message m ∷ rest) c e = (e, refl, refl)
  turn-Advances now s (audio p ∷ rest) c e =
      elim (Bool-cases (ltb (elapsed_ms now (some s)) c.play_position)) [
        | inl early ↦ rw (e, started) (rw early (refl, refl, refl))
        | inr due ↦ rw (e, started) (rw due (refl, refl, (ground arith, refl)))
      ]

  -- With a start timestamp, every packet is handed over when the elapsed time has reached its place
  -- in the playback, the first at the position and each next one an interval further, whatever the
  -- readings and whichever callback raises.
  pub check_queue-Paced :
      (raises : Item P M → Bool) (readings : List ℕ) (s : Start) (c : Controller P M)
      → c.start_timestamp ≡ some s
      → Paced s c.interval_ms c.play_position (check_queue raises readings c).1
  unfolding check_queue poll
  check_queue-Paced raises [] s c e = tt
  check_queue-Paced raises (now ∷ later) s c e =
      let (c', a) = turn now c.queue c in
      let (e', same, moved) = turn-Advances now s c.queue c e in
      go c' a same moved (check_queue-Paced raises later s c' e')
    where
      go :
          (c' : Controller P M) (a : Action P M)
          → c'.interval_ms ≡ c.interval_ms
          → Advances now s c c'.play_position a
          → Paced s c'.interval_ms c'.play_position (check_queue raises later c').1
          → Paced s c.interval_ms c.play_position
              (elim a as (λ _. Controller P M × List (ℕ × Item P M)) [
                | finish ↦ (c', [])
                | sleep _ ↦ check_queue raises later c'
                | deliver i ↦ if raises i then (c', (now, i) ∷ []) else (
                  (check_queue raises later c').0,
                  (now, i) ∷ (check_queue raises later c').1,
                )
              ]).1
      go c' finish same moved ih = tt
      go c' (sleep n) same moved ih = rw (← same, ← moved) ih
      go c' (deliver (message m)) same moved ih = elim (Bool-cases (raises (message m))) [
        | inl r ↦ rw r tt
        | inr r ↦ rw r (rw (← same, ← moved) ih)
      ]
      go c' (deliver (audio p)) same moved ih = elim (Bool-cases (raises (audio p))) [
        | inl r ↦ rw r (moved.0, tt)
        | inr r ↦
            rw r
              (moved.0, subst₂ (λ x y. Paced s x y (check_queue raises later c').1) same moved.1 ih)
      ]

  turn_due :
      (now : ℕ) (s : Start) (i : Item P M) (q : List (Item P M)) (c : Controller P M)
      → c.start_timestamp ≡ some s
      → c.play_position ≤ elapsed_ms now (some s)
      → ((turn now (i ∷ q) c).1 ≡ deliver i)
        × ((turn now (i ∷ q) c).0.queue ≡ q)
        × ((turn now (i ∷ q) c).0.play_position ≤ c.play_position + c.interval_ms)
  unfolding turn
  turn_due now s (message m) q c e due = (refl, refl, ground arith)
  turn_due now s (audio p) q c e due =
      elim (Bool-cases (ltb (elapsed_ms now (some s)) c.play_position)) [
        | inl early ↦ absurd (ground arith)
        | inr late ↦ rw (e, started) (rw late (refl, refl, omega arith))
      ]

  poll_due :
      (now : ℕ) (s : Start) (i : Item P M) (q : List (Item P M)) (c : Controller P M)
      → c.queue ≡ i ∷ q
      → c.start_timestamp ≡ some s
      → c.play_position ≤ elapsed_ms now (some s)
      → let (c', a) = poll now c in
        (a ≡ deliver i)
        × (c'.queue ≡ q)
        × (c'.play_position ≤ c.play_position + c.interval_ms)
        × (c'.start_timestamp ≡ some s)
        × (c'.interval_ms ≡ c.interval_ms)
  unfolding poll
  poll_due now s i q c hq e due =
      let (gone, left, moved) =
        subst
          (λ x.
            let (c', a) = turn now x c in
            (a ≡ deliver i) × (c'.queue ≡ q) × (c'.play_position ≤ c.play_position + c.interval_ms))
          (sym hq) (turn_due now s i q c e due) in
      let (e', same, _) = turn-Advances now s c.queue c e in (gone, left, moved, e', same)

  check_queue_finish :
      (raises : Item P M → Bool) (now : ℕ) (later : List ℕ) (c : Controller P M)
      → c.queue ≡ []
      → let (c', sent) = check_queue raises (now ∷ later) c in
        (items sent ≡ []) × (c'.queue ≡ []) × (c'.empty_event ≡ true) × (c'.has_data_event ≡ false)
  unfolding check_queue poll turn
  check_queue_finish raises now later c e = ground arith

  check_queue-deliver :
      (raises : Item P M → Bool) (now : ℕ) (later : List ℕ) (i : Item P M) (c : Controller P M)
      → raises i ≡ false
      → (poll now c).1 ≡ deliver i
      → let (c', sent) = check_queue raises later (poll now c).0 in
        ((check_queue raises (now ∷ later) c).0 ≡ c')
        × (items (check_queue raises (now ∷ later) c).1 ≡ i ∷ items sent)
  unfolding check_queue
  check_queue-deliver raises now later i c r h = ground arith

  -- If no callback raises, one reading for each item and one more, all from the time at which the
  -- whole queue is due, are enough: everything is handed over in order, the queue is empty, and the
  -- events signal that it is.
  pub check_queue_drains :
      (raises : Item P M → Bool) (s : Start) (q : List (Item P M)) (readings : List ℕ)
      (c : Controller P M)
      → ((i : Item P M) → raises i ≡ false)
      → c.queue ≡ q
      → c.start_timestamp ≡ some s
      → length readings ≡ suc (length q)
      → DueFrom s (c.play_position + length q * c.interval_ms) readings
      → let (c', sent) = check_queue raises readings c in
        (items sent ≡ q) × (c'.queue ≡ []) × (c'.empty_event ≡ true) × (c'.has_data_event ≡ false)
  check_queue_drains raises s [] [] c calm hq e len due = absurd (omega arith)
  check_queue_drains raises s [] (now ∷ later) c calm hq e len due =
      check_queue_finish raises now later c hq
  check_queue_drains raises s (i ∷ q) [] c calm hq e len due = absurd (omega arith)
  check_queue_drains raises s (i ∷ q) (now ∷ later) c calm hq e len due =
      let (gone, left, moved, e', same) = poll_due now s i q c hq e (omega arith) in
      let fits = ap (λ (x : ℕ). length q * x) same in
      let (c'', sent) = check_queue-deliver raises now later i c (calm i) gone in
      let (all, empty, signal, idle) =
        check_queue_drains raises s q later (poll now c).0 calm left e' (omega arith) (
          DueFrom-mono s _ (c.play_position + suc (length q) * c.interval_ms) later (grind arith)
            due.1) in
      (
        sent ∙ ap (λ l. i ∷ l) all,
        ap (λ (x : Controller P M). x.queue) c'' ∙ empty,
        ap (λ (x : Controller P M). x.empty_event) c'' ∙ signal,
        ap (λ (x : Controller P M). x.has_data_event) c'' ∙ idle,
      )
