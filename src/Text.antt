-- ===== src/Text.antt =====
-- The texts of the program, as far as the code measures, tests and cuts them.
pub mod Words
use Prim.Native.Char.{Char, code, len_utf8}
use Prim.Native.String.{len}
use Prim.Native.String.len
use xiaozhi_desk_robot_serve.Prelude.{
  ℕ, ◌+◌, ◌-◌, ◌≤◌, String, ◌≡◌, refl, arith, leb, Bool, true, false, ◌&&◌, ◌||◌, ◌==◌,
  if◌then◌else◌, Bool-cases, inl, inr, str_eq, Option, none, some, List, [], ◌∷◌,
}

-- `s.encode("utf-8")[:n].decode("utf-8", errors="ignore")`: the whole characters within the first
-- `n` bytes
unfoldable pub utf8_prefix : ℕ → String → String
utf8_prefix n String.[] = String.[]
utf8_prefix n (String.◌∷◌ c s) =
    if leb (len_utf8 c) n then String.◌∷◌ c (utf8_prefix (n - len_utf8 c) s) else String.[]

pub len-utf8_prefix : (n : ℕ) (s : String) → len (utf8_prefix n s) ≤ n
unfolding utf8_prefix
len-utf8_prefix n String.[] = omega arith
len-utf8_prefix n (String.◌∷◌ c s) = elim (Bool-cases (leb (len_utf8 c) n)) [
  | inl fits ↦ rw fits (
      rw (len.cons c (utf8_prefix (n - len_utf8 c) s))
        (ground (arith, len-utf8_prefix (n - len_utf8 c) s)))
  | inr over ↦ rw over (omega arith)
]

-- a text that fits is not cut
pub utf8_prefix_all : (n : ℕ) (s : String) → len s ≤ n → utf8_prefix n s ≡ s
unfolding utf8_prefix
utf8_prefix_all n String.[] h = refl
utf8_prefix_all n (String.◌∷◌ c s) h =
    let room : len_utf8 c + len s ≤ n = rw (len.cons c s) at h in
    ground (arith, utf8_prefix_all (n - len_utf8 c) s (omega arith))

abbrev pub between : ℕ → ℕ → ℕ → Bool
between lo hi n = leb lo n && leb n hi

-- the characters that Python's `str.strip` takes for white space
abbrev pub is_space : Char → Bool
is_space c =
    let n = code c in
    between 9 13 n
    || between 28 32 n
    || n == 133
    || n == 160
    || n == 5760
    || between 8192 8202 n
    || n == 8232
    || n == 8233
    || n == 8239
    || n == 8287
    || n == 12288

unfoldable pub all_chars : (Char → Bool) → String → Bool
all_chars test String.[] = true
all_chars test (String.◌∷◌ c s) = test c && all_chars test s

-- `not s.strip()`
unfoldable pub is_blank : String → Bool
unfolding all_chars
is_blank s = all_chars is_space s

-- [A-Za-z_], [A-Za-z0-9_-], [a-z_] and [0-9a-f]
abbrev pub is_letter : Char → Bool
is_letter c = let n = code c in between 65 90 n || between 97 122 n || n == 95

abbrev pub is_word : Char → Bool
is_word c = let n = code c in is_letter c || between 48 57 n || n == 45

abbrev pub is_lower : Char → Bool
is_lower c = let n = code c in between 97 122 n || n == 95

abbrev pub is_hex : Char → Bool
is_hex c = let n = code c in between 48 57 n || between 97 102 n

-- `s in texts`
unfoldable pub elem : String → List String → Bool
elem s [] = false
elem s (t ∷ ts) = if str_eq t s then true else elem s ts

-- what follows a prefix
unfoldable pub after_prefix : String → String → Option String
after_prefix String.[] s = some s
after_prefix (String.◌∷◌ c p) String.[] = none
after_prefix (String.◌∷◌ c p) (String.◌∷◌ d s) = if code c == code d then after_prefix p s else none
