-- ===== src/AudioRate/Loop.antt =====
-- `check_queue` of core/utils/audioRateController.py: one turn of its loops at a clock reading, and
-- the run over the readings that the event loop gives it.
use xiaozhi_desk_robot_serve.Prelude.{
  ℕ, ◌+◌, ◌-◌, Bool, true, false, Option, none, some, List, [], ◌∷◌, ltb, if◌then◌else◌,
}
use xiaozhi_desk_robot_serve.AudioRate.{Item, audio, message, Start, Controller, elapsed_ms}

-- What one turn does: hand an item to its callback, sleep for a time, or end the method.
pub data Action (P M : Type 0) : Type 0 where
  deliver : Item P M → Action P M
  sleep : ℕ → Action P M
  finish : Action P M

-- `if self.start_timestamp is None: self.start_timestamp = time.monotonic()`
unfoldable pub started : ℕ → Option Start → Start
started now none = record { reading = now; lead = 0 }
started now (some s) = s

module _ {P M : Type 0} where
  -- the turn for the items that the queue holds
  unfoldable pub turn : ℕ → List (Item P M) → Controller P M → Controller P M × Action P M
  unfolding started
  turn now [] c =
      (record c { empty_event = true; has_data_event = false; last_queue_empty_time = now }, finish)
  turn now (message m ∷ rest) c = (record c { queue = rest }, deliver (message m))
  turn now (audio p ∷ rest) c =
      let s = started now c.start_timestamp in
      let c' = record c { start_timestamp = some s } in
      let elapsed = elapsed_ms now (some s) in
      if ltb elapsed c.play_position then (c', sleep (c.play_position - elapsed)) else (
        record c' { queue = rest; play_position = c.play_position + c.interval_ms },
        deliver (audio p),
      )

  unfoldable pub poll : ℕ → Controller P M → Controller P M × Action P M
  unfolding turn
  poll now c = turn now c.queue c

  -- The method over a list of readings, with what its callbacks do: a callback that raises ends the
  -- method after the item has left the queue. The result has the items that were handed over, and
  -- the readings run out where the method is cancelled.
  unfoldable pub check_queue :
      (Item P M → Bool) → List ℕ → Controller P M → Controller P M × List (ℕ × Item P M)
  check_queue raises [] c = (c, [])
  check_queue raises (now ∷ later) c =
      let (c', a) = poll now c in
      let (c'', sent) = check_queue raises later c' in
      elim a [
        | finish ↦ (c', [])
        | sleep _ ↦ (c'', sent)
        | deliver i ↦ if raises i then (c', (now, i) ∷ []) else (c'', (now, i) ∷ sent)
      ]
