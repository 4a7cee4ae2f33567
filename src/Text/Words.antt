-- ===== src/Text/Words.antt =====
-- Python's operations on texts that several parts use, over the characters of a text.
use Prim.Native.Char.{Char}
use Prim.Native.String.{◌++◌}
use xiaozhi_desk_robot_serve.Prelude.{
  ℕ, zero, suc, String, Bool, true, false, not, ◌||◌, List, [], ◌∷◌, if◌then◌else◌, str_eq,
}
use xiaozhi_desk_robot_serve.Text.{is_space}

module _ (test : Char → Bool) where
  unfoldable pub strip_start : String → String
  strip_start String.[] = String.[]
  strip_start (String.◌∷◌ c s) = let rest = strip_start s in if test c then rest else String.◌∷◌ c s

  unfoldable pub keep_unless : Char → String → String
  keep_unless c String.[] = if test c then String.[] else String.◌∷◌ c String.[]
  keep_unless c (String.◌∷◌ d s) = String.◌∷◌ c (String.◌∷◌ d s)

  unfoldable pub strip_end : String → String
  unfolding keep_unless
  strip_end String.[] = String.[]
  strip_end (String.◌∷◌ c s) = keep_unless c (strip_end s)

  -- both ends
  unfoldable pub strip : String → String
  strip s = strip_end (strip_start s)

unfoldable pub starts : (Char → Bool) → String → Bool
starts test String.[] = false
starts test (String.◌∷◌ c s) = test c

-- a character before a text whose words are known: it belongs to the first one if `joined`
unfoldable pub extend : Bool → Char → List String → List String
extend false c ws = String.◌∷◌ c String.[] ∷ ws
extend true c [] = String.◌∷◌ c String.[] ∷ []
extend true c (w ∷ ws) = String.◌∷◌ c w ∷ ws

-- the longest runs of characters that pass the test: `re.findall(r"\w+", s)`, and `s.split()`
unfoldable pub words : (Char → Bool) → String → List String
unfolding starts extend
words test String.[] = []
words test (String.◌∷◌ c s) =
    let rest = words test s in if test c then extend (starts test s) c rest else rest

-- `separator.join(parts)`
unfoldable pub join : String → List String → String
join separator [] = ""
join separator (w ∷ []) = w
join separator (w ∷ v ∷ ws) = w ++ separator ++ join separator (v ∷ ws)

abbrev pub not_space : Char → Bool
not_space c = not (is_space c)

-- `" ".join(s.split()).strip()`
unfoldable pub squeeze : String → String
squeeze s = strip is_space (join " " (words not_space s))

-- `s[:n]`
unfoldable pub take_chars : ℕ → String → String
take_chars zero s = ""
take_chars (suc n) String.[] = ""
take_chars (suc n) (String.◌∷◌ c s) = String.◌∷◌ c (take_chars n s)

-- `s[n:]`
unfoldable pub drop_chars : ℕ → String → String
drop_chars zero s = s
drop_chars (suc n) String.[] = ""
drop_chars (suc n) (String.◌∷◌ c s) = drop_chars n s

-- `s.startswith(prefix)` and `needle in s`
unfoldable pub is_prefix : String → String → Bool
is_prefix String.[] s = true
is_prefix (String.◌∷◌ c p) String.[] = false
is_prefix (String.◌∷◌ c p) (String.◌∷◌ d s) =
    let rest = is_prefix p s in
    if str_eq (String.◌∷◌ c String.[]) (String.◌∷◌ d String.[]) then rest else false

unfoldable pub occurs : String → String → Bool
occurs needle String.[] = is_prefix needle ""
occurs needle (String.◌∷◌ c s) = is_prefix needle (String.◌∷◌ c s) || occurs needle s

-- `''.join(parts)`
unfoldable pub concat : List String → String
concat [] = ""
concat (w ∷ ws) = w ++ concat ws
