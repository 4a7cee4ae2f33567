-- ===== src/AudioRate/Examples.antt =====
-- Runs of core/utils/audioRateController.py on a queue of a few items, 60 ms to a packet.
use xiaozhi_desk_robot_serve.Prelude.{ℕ, Bool, ◌≡◌, refl, true, false, some, [], ◌∷◌, ◌++◌, arith}
use xiaozhi_desk_robot_serve.AudioRate.{
  Item, audio, message, Start, Controller, init, add_audio, add_message, elapsed_ms,
}
use xiaozhi_desk_robot_serve.AudioRate.Loop.{sleep, poll, check_queue}
use xiaozhi_desk_robot_serve.AudioRate.Invariant.{IsPast}
use xiaozhi_desk_robot_serve.AudioRate.Order.{items, check_queue_fifo, check_queue_drains}

abbrev filled : Controller ℕ ℕ
filled = add_audio 7 3 (add_message 6 2 (add_audio 5 1 (init 60 0)))

-- the first packet is out, and the message after it
abbrev playing : Controller ℕ ℕ
playing = (poll 110 (poll 100 filled).0).0

first_start : Start
first_start = record { reading = 100; lead = 0 }

playing_start : playing.start_timestamp ≡ some first_start
unfolding poll add_audio add_message init first_start elapsed_ms
playing_start = refl

playing_sleeps : (poll 120 playing).1 ≡ sleep 40
unfolding poll add_audio add_message init elapsed_ms
playing_sleeps = refl

playing-IsPast : IsPast 120 playing.start_timestamp
unfolding poll add_audio add_message init elapsed_ms
playing-IsPast = omega arith

-- the message callback raises
abbrev message_raises : Item ℕ ℕ → Bool
message_raises (audio p) = false
message_raises (message m) = true

check_queue_fifo_example :
    let (c', sent) = check_queue message_raises (100 ∷ 101 ∷ 160 ∷ []) filled in
    items sent ++ c'.queue ≡ filled.queue
check_queue_fifo_example = check_queue_fifo message_raises (100 ∷ 101 ∷ 160 ∷ []) filled

abbrev calm : Item ℕ ℕ → Bool
calm i = false

playing_queue : playing.queue ≡ audio 3 ∷ []
unfolding poll add_audio add_message init elapsed_ms
playing_queue = refl

check_queue_drains_example :
    let (c', sent) = check_queue calm (220 ∷ 221 ∷ []) playing in
    (items sent ≡ audio 3 ∷ [])
    × (c'.queue ≡ [])
    × (c'.empty_event ≡ true)
    × (c'.has_data_event ≡ false)
check_queue_drains_example =
    check_queue_drains calm first_start (audio 3 ∷ []) (220 ∷ 221 ∷ []) playing (λ i. refl)
      playing_queue playing_start refl
      (unfold elapsed_ms poll add_audio add_message init first_start in
        (omega arith, (omega arith, tt)))
