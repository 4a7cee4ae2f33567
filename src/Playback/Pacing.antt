-- ===== src/Playback/Pacing.antt =====
-- The pace and the numbers of the packets of core/cluster/tts_playback.py.
use xiaozhi_desk_robot_serve.Prelude.{
  ℕ, suc, ◌+◌, ◌≤◌, ◌<◌, ◌≡◌, refl, Option, none, some, List, [], ◌∷◌, arith, if◌then◌else◌, leb,
  length, take, drop,
}
use xiaozhi_desk_robot_serve.Transport.Audio.{from_bytes}
use xiaozhi_desk_robot_serve.Playback.{Playback, Output, frame, to_bytes2, to_bytes4, header}

-- the earliest place of the packet after one that is sent at `time` with the place `due`
abbrev pub next_place : ℕ → ℕ → ℕ
next_place due time = if leb (due + 60) time then time else due + 60

-- From the packet with the number 5 on, each packet comes at its place or after it: `due` is the place of
-- the next one, and `count` its number.
abbrev pub Paced : ℕ → ℕ → List Output → Type 0
Paced count due [] = Unit
Paced count due (frame time bytes ∷ outputs) =
    if leb 5 count
    then ((due ≤ time) × Paced (suc count) (next_place due time) outputs)
    else Paced (suc count) due outputs
Paced count due (x ∷ outputs) = Paced count due outputs

-- the earliest place of the next packet
abbrev pub place : Option ℕ → ℕ
place none = 0
place (some due) = due

-- what one packet does
abbrev Sent : Playback → Playback → Option Output → Type 0
Sent p p' none = Unit
Sent p p' (some (frame time bytes)) =
    (p'.packet_count ≡ suc p.packet_count)
    × (if leb 5 p.packet_count
        then ((place p.next_due ≤ time) × (next_place (place p.next_due) time ≤ place p'.next_due))
        else (place p.next_due ≤ place p'.next_due))
Sent p p' (some _) = ⊥

-- For a packet of fewer than 65536 bytes with a number below 2^32, the header has 16 bytes, and a
-- reader finds the size, the number and the size again at their places.
pub header_fields :
    (size count wall_ms : ℕ)
    → size < 65536
    → count < 4294967296
    → (length (header size count wall_ms) ≡ 16)
      × (from_bytes 0 (take 2 (drop 2 (header size count wall_ms))) ≡ size)
      × (from_bytes 0 (take 4 (drop 4 (header size count wall_ms))) ≡ count)
      × (from_bytes 0 (take 4 (drop 12 (header size count wall_ms))) ≡ size)
unfolding header to_bytes2 to_bytes4 from_bytes
header_fields size count wall_ms s c = (refl, omega arith, omega arith, omega arith)
