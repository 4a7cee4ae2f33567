-- ===== src/SpeechText/Boundary.antt =====
-- `_find_segment_boundary` of core/providers/tts/segmenter.py, without `prefer_latest`, which no call
-- sets: where the text that has arrived is cut. The position -1 is `none`. The tests of Unicode for digits
-- and letters are arguments; `stopped` is `self.tts_stop_request`.
use Prim.Native.Char.{Char, code}
use xiaozhi_desk_robot_serve.Prelude.{
  ℕ, zero, suc, String, Bool, true, false, not, ◌&&◌, ◌||◌, ◌==◌, leb, Option, none, some, List, [],
  ◌∷◌, if◌then◌else◌,
}

-- text[0], if there is one
unfoldable pub head_char : String → Option Char
head_char String.[] = none
head_char (String.◌∷◌ c s) = some c

unfoldable pub test_at : (Char → Bool) → Option Char → Bool
test_at test none = false
test_at test (some c) = test c

unfoldable pub is_missing : Option Char → Bool
is_missing none = true
is_missing (some c) = false

-- char in {".", ",", ":"}
unfoldable pub in_number : Char → Bool
in_number c = code c == 46 || code c == 44 || code c == 58

-- last_safe_position[char] = index
unfoldable pub put_position : ℕ → ℕ → List (ℕ × ℕ) → List (ℕ × ℕ)
put_position k i [] = (k, i) ∷ []
put_position k i ((j, h) ∷ ps) =
    let rest = put_position k i ps in if j == k then (j, i) ∷ ps else (j, h) ∷ rest

unfoldable pub sooner : ℕ → Option ℕ → ℕ
sooner i none = i
sooner i (some j) = if leb i j then i else j

-- min(positions, default=-1)
unfoldable pub earliest : List (ℕ × ℕ) → Option ℕ
unfolding sooner
earliest [] = none
earliest ((k, i) ∷ ps) = some (sooner i (earliest ps))

module _ (is_digit is_alnum : Char → Bool) (stopped : Bool) where
  -- the text may be cut after `c`
  unfoldable pub is_cut : Option Char → Char → Option Char → Bool
  unfolding in_number test_at is_missing
  is_cut previous c next =
      not (in_number c && test_at is_digit previous && test_at is_digit next)
      && not (in_number c && test_at is_digit previous && is_missing next && not stopped)
      && not (code c == 46 && is_missing next && not stopped)
      && not (code c == 46 && test_at is_alnum previous && test_at is_alnum next)

  -- the loop, from the index `i` on, over the rest of the text
  unfoldable pub scan : (Char → Bool) → ℕ → Option Char → String → List (ℕ × ℕ) → List (ℕ × ℕ)
  scan is_mark i previous String.[] ps = ps
  scan is_mark i previous (String.◌∷◌ c s) ps =
      scan is_mark (suc i) (some c) s
        (if is_mark c && is_cut previous c (head_char s) then put_position (code c) i ps else ps)

  -- _find_segment_boundary
  unfoldable pub find_boundary : (Char → Bool) → String → Option ℕ
  find_boundary is_mark text = earliest (scan is_mark zero none text [])
