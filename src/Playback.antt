-- ===== src/Playback.antt =====
-- `TTSPlayback` of core/cluster/tts_playback.py: the packets of a response, framed and paced. Times
-- are readings of the monotonic clock in milliseconds; the encoder gives the packets.
pub mod Pacing
mod Examples
use xiaozhi_desk_robot_serve.Prelude.{
  ℕ, ◌+◌, ◌-◌, ◌*◌, ◌/◌, ◌%◌, ◌^◌, String, Bool, true, false, Option, none, some, List, [], ◌∷◌,
  ◌++◌, if◌then◌else◌, ltb, leb, length,
}

pub record Playback : Type 0 where
  pub packet_count : ℕ
  pub next_due : Option ℕ
  pub closed : Bool
  pub started : Bool

-- __init__
unfoldable pub init : Playback
init = record { packet_count = 0; next_due = none; closed = false; started = false }

-- what reaches the device: the audio frames with the time of their sending, and the messages
pub data Output : Type 0 where
  tts_start tts_stop : Output
  sentence_start : String → Output
  frame : ℕ → List ℕ → Output

-- `n.to_bytes(2, "big")` and `n.to_bytes(4, "big")`, of a number that fits
unfoldable pub to_bytes2 : ℕ → List ℕ
to_bytes2 n = n / 256 % 256 ∷ n % 256 ∷ []

unfoldable pub to_bytes4 : ℕ → List ℕ
to_bytes4 n = n / 16777216 % 256 ∷ n / 65536 % 256 ∷ n / 256 % 256 ∷ n % 256 ∷ []

-- the header of 16 bytes: the packet's size, its number, the wall clock and the size again
unfoldable pub header : ℕ → ℕ → ℕ → List ℕ
header size count wall_ms =
    1 ∷ 0 ∷ to_bytes2 size ++ (to_bytes4 count ++ (to_bytes4 (wall_ms % 2 ^ 32) ++ to_bytes4 size))

-- the place of the next packet: an underrun of more than a frame moves it to the present
unfoldable pub schedule : ℕ → Option ℕ → ℕ
schedule now none = now
schedule now (some due) = if ltb (due + 60) now then now else due

-- the end of `packet`, at the time of the sending
unfoldable pub deliver : Bool → ℕ → ℕ → List ℕ → Playback → Playback × Option Output
deliver sent wall_ms time bytes p =
    if sent
    then (
      record p { packet_count = p.packet_count + 1 },
      some (frame time (header (length bytes) p.packet_count wall_ms ++ bytes)),
    )
    else (p, none)

-- `packet`; without an output it raises
unfoldable pub packet : Bool → ℕ → ℕ → List ℕ → Playback → Playback × Option Output
unfolding deliver
packet sent now wall_ms bytes p =
    if p.closed
    then (p, none)
    else if leb 5 p.packet_count
    then (let due = schedule now p.next_due in
        deliver sent wall_ms (now + (due - now)) bytes (record p { next_due = some (due + 60) }))
    else deliver sent wall_ms now bytes p

-- a packet of the encoder, with the clock when `packet` is called, the wall clock, and whether the
-- send gets through
abbrev pub Encoded : Type 0
Encoded = Bool × ℕ × ℕ × List ℕ

-- the loops `for packet in packets`; the second part says whether they end without an exception
unfoldable pub packets : List Encoded → Playback → Playback × Bool × List Output
packets [] p = (p, true, [])
packets ((sent, now, wall_ms, bytes) ∷ later) p =
    let (p', o) = packet sent now wall_ms bytes p in
    let (p'', ends, outputs) = packets later p' in
    elim o [ none ↦ (p', false, []) | some x ↦ (p'', ends, x ∷ outputs) ]

-- `segment`, with sends of the messages that get through
unfoldable pub segment : String → List Encoded → Playback → Playback × Bool × List Output
segment text encoded p =
    if p.closed
    then (p, false, [])
    else (let (p', ends, outputs) = packets encoded (record p { started = true }) in
        (
          p',
          ends,
          if p.started
              then sentence_start text ∷ outputs
              else tts_start ∷ sentence_start text ∷ outputs,
        ))

-- `finish`: the rest of the encoder, and the stop once the buffer of the device has played
unfoldable pub finish : List Encoded → Playback → Playback × Bool × List Output
finish encoded p =
    let (p', ends, outputs) = packets encoded p in
    if ends
    then (if p'.started
        then (record p' { started = false }, true, outputs ++ tts_stop ∷ [])
        else (p', true, outputs))
    else (p', false, outputs)

-- close
unfoldable pub close : Playback → Playback
close p = record p { closed = true }
