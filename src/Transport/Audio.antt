-- ===== src/Transport/Audio.antt =====
-- The audio frames of the gateway, as core/cluster/transport_core.py checks them.
use xiaozhi_desk_robot_serve.Prelude.{
  ℕ, ◌+◌, ◌-◌, ◌*◌, Bool, true, Option, none, some, List, [], ◌∷◌, if◌then◌else◌, ◌&&◌, ltb, leb,
  ◌==◌, length, take, drop,
}

-- `int.from_bytes(bytes, "big")`, after the bytes that make up `n`
unfoldable pub from_bytes : ℕ → List ℕ → ℕ
from_bytes n [] = n
from_bytes n (b ∷ bytes) = from_bytes (n * 256 + b) bytes

-- `bytes == bytes(len(bytes))`
unfoldable pub all_zero : List ℕ → Bool
all_zero [] = true
all_zero (b ∷ bytes) = b == 0 && all_zero bytes

-- the length in the header
abbrev pub stated_length : List ℕ → ℕ
stated_length bytes = from_bytes 0 (take 4 (drop 12 bytes))

-- `data[16:]` of a frame that passes the check, and `none` for one that does not
unfoldable pub audio_payload : List ℕ → Option (List ℕ)
audio_payload bytes =
    if leb 17 (length bytes)
      && all_zero (take 8 bytes)
      && ltb 0 (stated_length bytes)
      && stated_length bytes == length bytes - 16
    then some (drop 16 bytes)
    else none
