-- ===== src/Transport/Framing.antt =====
-- The check of audio frames of core/cluster/transport_core.py against the frames that it means.
use xiaozhi_desk_robot_serve.Prelude.{
  ℕ, ◌/◌, ◌%◌, ◌<◌, ◌≡◌, true, some, List, [], ◌∷◌, arith, length, length-drop, take, drop,
}
use xiaozhi_desk_robot_serve.Transport.Audio.{from_bytes, all_zero, stated_length, audio_payload}

-- eight zero bytes, four that the check does not read, the length, and the payload
abbrev pub gateway_frame : ℕ → ℕ → ℕ → ℕ → List ℕ → List ℕ
gateway_frame a b c d payload =
    let n = length payload in
    0
    ∷ 0
    ∷ 0
    ∷ 0
    ∷ 0
    ∷ 0
    ∷ 0
    ∷ 0
    ∷ a
    ∷ b
    ∷ c
    ∷ d
    ∷ n / 16777216 % 256
    ∷ n / 65536 % 256
    ∷ n / 256 % 256
    ∷ n % 256
    ∷ payload

big_endian :
    (n : ℕ)
    → n < 4294967296
    → from_bytes 0 (n / 16777216 % 256 ∷ n / 65536 % 256 ∷ n / 256 % 256 ∷ n % 256 ∷ []) ≡ n
unfolding from_bytes
big_endian n h = omega arith

-- A frame with a payload that is not empty and shorter than 2^32 bytes, behind any timestamp, is
-- accepted with exactly that payload.
pub audio_payload-gateway_frame :
    (a b c d : ℕ) (payload : List ℕ)
    → 0 < length payload
    → length payload < 4294967296
    → audio_payload (gateway_frame a b c d payload) ≡ some payload
unfolding audio_payload all_zero
audio_payload-gateway_frame a b c d payload pos fits =
    let n = big_endian (length payload) fits in ground arith

-- A payload that is accepted is what follows the header of 16 bytes; it is not empty and as long as
-- the header states, and the first eight bytes are zero.
pub audio_payload_accepts :
    (bytes payload : List ℕ)
    → audio_payload bytes ≡ some payload
    → (payload ≡ drop 16 bytes)
      × (0 < length payload)
      × (stated_length bytes ≡ length payload)
      × (all_zero (take 8 bytes) ≡ true)
unfolding audio_payload
audio_payload_accepts bytes payload h = ground (arith, length-drop 16 bytes)
