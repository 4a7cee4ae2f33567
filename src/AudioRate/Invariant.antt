-- ===== src/AudioRate/Invariant.antt =====
-- The two events of core/utils/audioRateController.py follow its queue, and its pace.
use xiaozhi_desk_robot_serve.Prelude.{
  ℕ, ◌+◌, ◌-◌, ◌≤◌, ◌<◌, ◌≡◌, ◌≢◌, refl, true, Option, none, some, List, [], ◌∷◌, arith, not, ltb,
  if◌then◌else◌,
}
use xiaozhi_desk_robot_serve.AudioRate.{
  Item, audio, message, Start, Controller, init, reset, add_audio, add_message, elapsed_ms,
}
use xiaozhi_desk_robot_serve.AudioRate.Loop.{Action, deliver, sleep, finish, turn, poll}

pub record Inv {P M : Type 0} (c : Controller P M) : Type 0 where
  pub opposite : c.has_data_event ≡ not c.empty_event
  pub data_seen : c.queue ≢ [] → c.has_data_event ≡ true
  pub started_first : 0 < c.play_position → c.start_timestamp ≢ none

-- the start was read before `now`
abbrev pub IsPast : ℕ → Option Start → Type 0
IsPast now none = Unit
IsPast now (some s) = s.reading ≤ now

module _ {P M : Type 0} where
  pub init-Inv :
      (frame_duration send_delay : ℕ) → Inv (init {P = P} {M = M} frame_duration send_delay)
  unfolding init
  init-Inv frame_duration send_delay = ground arith

  pub reset-Inv : (c : Controller P M) → Inv (reset c)
  unfolding reset
  reset-Inv c = ground arith

  pub add_audio-Inv : (now : ℕ) (p : P) (c : Controller P M) → Inv c → Inv (add_audio now p c)
  unfolding add_audio
  add_audio-Inv now p c v = ground arith

  pub add_message-Inv : (now : ℕ) (m : M) (c : Controller P M) → Inv c → Inv (add_message now m c)
  unfolding add_message
  add_message-Inv now m c v = ground arith

  turn-Inv :
      (now : ℕ) (q : List (Item P M)) (c : Controller P M)
      → c.queue ≡ q
      → Inv c
      → Inv (turn now q c).0
  unfolding turn
  turn-Inv now [] c e v = ground arith
  turn-Inv now (message m ∷ rest) c e v = ground arith
  turn-Inv now (audio p ∷ rest) c e v = ground arith

  pub poll-Inv : (now : ℕ) (c : Controller P M) → Inv c → Inv (poll now c).0
  unfolding poll
  poll-Inv now c v = turn-Inv now c.queue c refl v

  -- what a turn does when the head of the queue is due
  abbrev pub head_action : List (Item P M) → Action P M
  head_action [] = finish
  head_action (i ∷ rest) = deliver i

  -- a turn that sleeps leaves the queue alone
  queue-sleep :
      (now n : ℕ) (q : List (Item P M)) (c : Controller P M)
      → c.queue ≡ q
      → (turn now q c).1 ≡ sleep n
      → (turn now q c).0.queue ≡ q
  unfolding turn
  queue-sleep now n [] c e h = cc
  queue-sleep now n (message m ∷ rest) c e h = cc
  queue-sleep now n (audio p ∷ rest) c e h = ground arith

  turn_sleep_exact :
      (now n later : ℕ) (q : List (Item P M)) (c : Controller P M)
      → (turn now q c).1 ≡ sleep n
      → IsPast now c.start_timestamp
      → now ≤ later
      → ((turn later q (turn now q c).0).1
          ≡ (if ltb later (now + n) then sleep (now + n - later) else head_action q))
  unfolding turn elapsed_ms
  turn_sleep_exact now n later [] c h past le = cc
  turn_sleep_exact now n later (message m ∷ rest) c h past le = cc
  turn_sleep_exact now n later (audio p ∷ rest) c h past le = ground arith

  -- After a turn that sleeps, with a start that is not after its reading, a turn at the same or a
  -- later time hands the head of the queue over if the time asked for has passed, and otherwise
  -- sleeps for what is left of it.
  pub sleep_exact :
      (now n later : ℕ) (c : Controller P M)
      → (poll now c).1 ≡ sleep n
      → IsPast now c.start_timestamp
      → now ≤ later
      → (poll later (poll now c).0).1
        ≡ (if ltb later (now + n) then sleep (now + n - later) else head_action c.queue)
  unfolding poll
  sleep_exact now n later c h past le =
      rw (queue-sleep now n c.queue c refl h) (turn_sleep_exact now n later c.queue c h past le)
