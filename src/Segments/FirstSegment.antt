-- ===== src/Segments/FirstSegment.antt =====
-- core/providers/tts/first_segment.py: where the first segment of a text may end.
use Prim.Native.Char.{Char, code}
use Prim.Native.String.{count}
use xiaozhi_desk_robot_serve.Prelude.{
  ℕ, suc, ◌-◌, String, Bool, true, false, not, ◌&&◌, ◌||◌, Option, none, some, List, [], ◌∷◌,
  if◌then◌else◌, ltb, leb, ◌==◌, str_eq,
}
use xiaozhi_desk_robot_serve.Text.{between}
use xiaozhi_desk_robot_serve.Text.Words.{starts, not_space, strip_end, drop_chars}

-- `char in chars`
unfoldable pub in_chars : String → Char → Bool
in_chars String.[] c = false
in_chars (String.◌∷◌ d s) c = code c == code d || in_chars s c

-- `any(test(char) for char in text)`
unfoldable pub any_char : (Char → Bool) → String → Bool
any_char test String.[] = false
any_char test (String.◌∷◌ c s) = test c || any_char test s

abbrev pub punctuation : String
punctuation = ",;:.?!，；：。？！"

abbrev pub sentence_end : String
sentence_end = ".?!。？！"

abbrev pub trailing : String
trailing = ",;:.?!，；：。？！)]}\"'”’"

-- the pattern `[+-]?[0-9]+(?:[.,][0-9]+)*`, after the sign; the Boolean says whether a digit came before
unfoldable pub numeric_rest : Bool → String → Bool
numeric_rest after_digit String.[] = after_digit
numeric_rest after_digit (String.◌∷◌ c s) =
    let n = code c in
    let rest = numeric_rest (between 48 57 n) s in
    if between 48 57 n then rest else (n == 46 || n == 44) && after_digit && rest

unfoldable pub is_numeric : String → Bool
unfolding numeric_rest
is_numeric String.[] = false
is_numeric (String.◌∷◌ c s) =
    if code c == 43 || code c == 45
    then numeric_rest false s
    else numeric_rest false (String.◌∷◌ c s)

-- a character before tokens: it belongs to the first one if `joined`, and else is a token that ends after
-- the position `i`
unfoldable pub extend_token : Bool → Char → ℕ → List (String × ℕ) → List (String × ℕ)
extend_token true c i ((w, end) ∷ ts) = (String.◌∷◌ c w, end) ∷ ts
extend_token _ c i ts = (String.◌∷◌ c String.[], suc i) ∷ ts

-- the matches of `\S+`, each with its end
unfoldable pub tokens : ℕ → String → List (String × ℕ)
unfolding extend_token
tokens i String.[] = []
tokens i (String.◌∷◌ c s) =
    let rest = tokens (suc i) s in
    if not_space c then extend_token (starts not_space s) c i rest else rest

-- the lists of the loop
pub record Found : Type 0 where
  pub preferred : List ℕ
  pub whitespace : List ℕ
  pub overlong : List ℕ

unfoldable pub least : List ℕ → Option ℕ
least [] = none
least (i ∷ is) = elim (least is) [ none ↦ some i | some j ↦ some (if ltb j i then j else i) ]

unfoldable pub greatest : List ℕ → Option ℕ
greatest [] = none
greatest (i ∷ is) = elim (greatest is) [ none ↦ some i | some j ↦ some (if ltb i j then j else i) ]

-- what follows the loop
unfoldable pub choose : ℕ → ℕ → Found → Option ℕ
unfolding least greatest
choose length target_chars f = elim (least f.preferred) [
  | some i ↦ some i
  | none ↦
      if ltb length target_chars
      then none
      else elim (greatest f.whitespace) [ some i ↦ some i | none ↦ least f.overlong ]
]

-- one token: a sentence that ends early, or what the lists become
unfoldable pub visit : ℕ → ℕ → String → ℕ → Found → Option ℕ × Found
visit minimum target_chars token size f =
    let body = strip_end (in_chars trailing) token in
    let rest = drop_chars (count body) token in
    let ended = not (str_eq body "") && any_char (in_chars punctuation) rest in
    let in_size = leb minimum size && leb size target_chars in
    let g : Found =
      if ended && in_size
      then record f { preferred = (size - 1) ∷ f.preferred }
      else if ended && ltb target_chars size
      then record f { overlong = (size - 1) ∷ f.overlong }
      else f in
    let h : Found =
      if in_size && not (is_numeric body)
      then record g { whitespace = (size - 1) ∷ g.whitespace }
      else g in
    if ended && ltb size minimum && any_char (in_chars sentence_end) rest
    then (some (size - 1), f)
    else (none, h)

-- the loop over the tokens; a token at the end of the text is not complete
unfoldable pub visit_all : ℕ → ℕ → ℕ → List (String × ℕ) → Found → Option ℕ
unfolding visit choose
visit_all length minimum target_chars [] f = choose length target_chars f
visit_all length minimum target_chars ((token, size) ∷ ts) f =
    let (early, g) = visit minimum target_chars token size f in
    let next = visit_all length minimum target_chars ts (if size == length then f else g) in
    if size == length then next else elim early [ none ↦ next | some i ↦ some i ]

-- find_first_segment_boundary
unfoldable pub find_first_boundary : String → ℕ → Option ℕ
unfolding visit_all tokens
find_first_boundary text target_chars =
    visit_all (count text) (if ltb 20 target_chars then 20 else target_chars) target_chars
      (tokens 0 text) (record { preferred = []; whitespace = []; overlong = [] })
