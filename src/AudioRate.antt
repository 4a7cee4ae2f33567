-- ===== src/AudioRate.antt =====
-- `AudioRateController` of core/utils/audioRateController.py. Times are readings of the monotonic
-- clock in milliseconds. The start timestamp is kept as a reading and a lead, and stands for their
-- difference, since it lies before the clock's zero when playback is ahead of a young clock.
pub mod Loop
pub mod Invariant
pub mod Order
mod Examples
use xiaozhi_desk_robot_serve.Prelude.{
  ℕ, zero, suc, ◌+◌, ◌-◌, Bool, true, false, Option, none, some, List, [], ◌∷◌, ◌++◌, ◌&&◌, ltb,
  leb, length, ◌==◌, if◌then◌else◌,
}

-- ("audio", opus_packet) and ("message", message_callback)
pub data Item (P M : Type 0) : Type 0 where
  audio : P → Item P M
  message : M → Item P M

pub record Start : Type 0 where
  pub reading : ℕ
  pub lead : ℕ

pub record Controller (P M : Type 0) : Type 0 where
  pub interval_ms : ℕ
  pub queue : List (Item P M)
  pub play_position : ℕ
  pub start_timestamp : Option Start
  pub empty_event : Bool
  pub has_data_event : Bool
  pub last_queue_empty_time : ℕ

-- _get_elapsed_ms
unfoldable pub elapsed_ms : ℕ → Option Start → ℕ
elapsed_ms now none = 0
elapsed_ms now (some s) = now + s.lead - s.reading

module _ {P M : Type 0} where
  -- __init__
  unfoldable pub init : ℕ → ℕ → Controller P M
  init frame_duration send_delay = record {
    interval_ms = if ltb 0 send_delay then send_delay else frame_duration;
    queue = [];
    play_position = 0;
    start_timestamp = none;
    empty_event = true;
    has_data_event = false;
    last_queue_empty_time = 0;
  }

  -- reset, with the cancelled task left out
  unfoldable pub reset : Controller P M → Controller P M
  reset c = record c {
    queue = [];
    play_position = 0;
    start_timestamp = none;
    last_queue_empty_time = 0;
    empty_event = true;
    has_data_event = false;
  }

  -- the start of `add_audio` and of `add_message`: after a pause of an interval or more the start
  -- moves, so that the position is where it was
  unfoldable pub resume : ℕ → Controller P M → Controller P M
  resume now c =
      if length c.queue == 0
        && ltb 0 c.play_position
        && leb c.interval_ms (now - c.last_queue_empty_time)
      then record c { start_timestamp = some (record { reading = now; lead = c.play_position }) }
      else c

  unfoldable pub enqueue : Item P M → Controller P M → Controller P M
  enqueue i c = record c { queue = c.queue ++ i ∷ []; empty_event = false; has_data_event = true }

  unfoldable pub add_audio : ℕ → P → Controller P M → Controller P M
  unfolding resume enqueue
  add_audio now packet c = enqueue (audio packet) (resume now c)

  unfoldable pub add_message : ℕ → M → Controller P M → Controller P M
  unfolding resume enqueue
  add_message now callback c = enqueue (message callback) (resume now c)
