-- ===== src/SpeechText/Cuts.antt =====
-- Where a text to speak may be cut.
use mathlib.Core.Option.{some-injective}
use Prim.Native.Char.{Char, code}
use xiaozhi_desk_robot_serve.Prelude.{
  ℕ, zero, suc, ◌+◌, String, ◌≡◌, refl, sym, ap, subst, ◌∙◌, Bool, true, false, not, ◌&&◌, ◌==◌,
  leb, Option, none, some, List, [], ◌∷◌, if◌then◌else◌, arith, Bool-cases, inl, inr,
}
use xiaozhi_desk_robot_serve.SpeechText.Boundary.{
  in_number, test_at, is_missing, head_char, is_cut, put_position, sooner, earliest, scan,
  find_boundary,
}

-- text[i]
unfoldable pub char_at : ℕ → String → Option Char
char_at i String.[] = none
char_at zero (String.◌∷◌ c s) = some c
char_at (suc i) (String.◌∷◌ c s) = char_at i s

unfoldable pub char_before : ℕ → String → Option Char
char_before zero s = none
char_before (suc i) s = char_at i s

head_char-eq : (s : String) → head_char s ≡ char_at zero s
unfolding head_char char_at
head_char-eq String.[] = refl
head_char-eq (String.◌∷◌ c s) = refl

module _ (is_digit is_alnum : Char → Bool) (stopped : Bool) (is_mark : Char → Bool) where
  -- the text has at `i` a punctuation mark after which it may be cut
  abbrev pub IsCut : String → ℕ → Type 0
  IsCut text i =
      (c : Char) × ((char_at i text ≡ some c)
        × (is_mark c ≡ true)
        × (is_cut is_digit is_alnum stopped (char_before i text) c (char_at (suc i) text) ≡ true))

  AllCuts : String → List (ℕ × ℕ) → Type 0
  AllCuts text [] = Unit
  AllCuts text ((k, i) ∷ ps) = IsCut text i × AllCuts text ps

  put_position-AllCuts :
      (text : String) (k i : ℕ) (ps : List (ℕ × ℕ))
      → IsCut text i
      → AllCuts text ps
      → AllCuts text (put_position k i ps)
  unfolding AllCuts put_position
  put_position-AllCuts text k i [] h a = (h, tt)
  put_position-AllCuts text k i ((j, p) ∷ ps) h (b, a) = elim (Bool-cases (j == k)) [
    | inl same ↦ rw same (h, a)
    | inr other ↦ rw other (b, put_position-AllCuts text k i ps h a)
  ]

  sooner-IsCut :
      (text : String) (i j : ℕ) (found : Option ℕ)
      → IsCut text i
      → ((h : ℕ) → found ≡ some h → IsCut text h)
      → IsCut text (sooner i found)
  unfolding sooner
  sooner-IsCut text i j none h k = h
  sooner-IsCut text i j (some p) h k = elim (Bool-cases (leb i p)) [
    | inl before ↦ rw before h
    | inr after ↦ rw after (k p refl)
  ]

  earliest-IsCut :
      (text : String) (ps : List (ℕ × ℕ))
      → AllCuts text ps
      → (i : ℕ) → earliest ps ≡ some i
      → IsCut text i
  unfolding earliest AllCuts
  earliest-IsCut text [] a i h = cc
  earliest-IsCut text ((k, p) ∷ ps) (b, a) i h =
      subst (IsCut text) (some-injective _ _ h)
        (sooner-IsCut text p i (earliest ps) b (earliest-IsCut text ps a))

  scan-AllCuts :
      (text : String) (i : ℕ) (previous : Option Char) (s : String) (ps : List (ℕ × ℕ))
      → previous ≡ char_before i text
      → ((n : ℕ) → char_at n s ≡ char_at (i + n) text)
      → AllCuts text ps
      → AllCuts text (scan is_digit is_alnum stopped is_mark i previous s ps)
  unfolding scan char_at char_before
  scan-AllCuts text i previous String.[] ps before at a = a
  scan-AllCuts text i previous (String.◌∷◌ c s) ps before at a =
      let here : char_at i text ≡ some c = sym (at zero ∙ ap (λ n. char_at n text) (omega arith)) in
      let next : head_char s ≡ char_at (suc i) text =
        head_char-eq s ∙ at (suc zero) ∙ ap (λ n. char_at n text) (omega arith) in
      let rest : (n : ℕ) → char_at n s ≡ char_at (suc i + n) text =
        λ n. at (suc n) ∙ ap (λ m. char_at m text) (omega arith) in
      let cuts = is_mark c && is_cut is_digit is_alnum stopped previous c (head_char s) in
      scan-AllCuts text (suc i) (some c) s (if cuts then put_position (code c) i ps else ps)
        (sym here) rest
        (elim (Bool-cases cuts) [
          | inl holds ↦ rw holds (
              put_position-AllCuts text (code c) i ps
                (c, (here, ground arith, rw (← before, ← next) (ground arith))) a)
          | inr skips ↦ rw skips a
        ])

find_boundary-IsCut :
    (is_digit is_alnum : Char → Bool) (stopped : Bool) (is_mark : Char → Bool) (text : String)
    (i : ℕ)
    → find_boundary is_digit is_alnum stopped is_mark text ≡ some i
    → IsCut is_digit is_alnum stopped is_mark text i
unfolding find_boundary char_before AllCuts
find_boundary-IsCut is_digit is_alnum stopped is_mark text i h =
    earliest-IsCut is_digit is_alnum stopped is_mark text
      (scan is_digit is_alnum stopped is_mark zero none text [])
      (scan-AllCuts is_digit is_alnum stopped is_mark text zero none text [] refl
        (λ n. ap (λ m. char_at m text) (omega arith)) tt)
      i h

cut_rules :
    (is_digit is_alnum : Char → Bool) (stopped : Bool) (before : Option Char) (c : Char)
    (next : Option Char)
    → is_cut is_digit is_alnum stopped before c next ≡ true
    → (in_number c ≡ true
        → test_at is_digit before ≡ true
        → (test_at is_digit next ≡ false) × ((is_missing next && not stopped) ≡ false))
      × ((code c == 46) ≡ true
          → ((is_missing next && not stopped) ≡ false)
            × ((test_at is_alnum before && test_at is_alnum next) ≡ false))
unfolding is_cut
cut_rules is_digit is_alnum stopped before c next h =
    ((λ number digit. (ground arith, ground arith)), (λ dot. (ground arith, ground arith)))

-- A text is cut only at one of the punctuation marks. A full stop, comma or colon after a digit is no cut
-- before a digit, nor a full stop between letters or digits; and where the text that has
-- arrived ends with such a mark after a digit, or with a full stop, it is a cut only once the stream is stopped.
pub find_boundary_rules :
    (is_digit is_alnum : Char → Bool) (stopped : Bool) (is_mark : Char → Bool) (text : String)
    (i : ℕ)
    → find_boundary is_digit is_alnum stopped is_mark text ≡ some i
    → let before = char_before i text in
      let next = char_at (suc i) text in
      (c : Char) × (char_at i text ≡ some c)
      × (is_mark c ≡ true)
      × (in_number c ≡ true
          → test_at is_digit before ≡ true
          → (test_at is_digit next ≡ false) × ((is_missing next && not stopped) ≡ false))
      × ((code c == 46) ≡ true
          → ((is_missing next && not stopped) ≡ false)
            × ((test_at is_alnum before && test_at is_alnum next) ≡ false))
find_boundary_rules is_digit is_alnum stopped is_mark text i h =
    let (c, rest) = find_boundary-IsCut is_digit is_alnum stopped is_mark text i h in
    let (here, mark, cut) = rest in
    let (numbers, dots) =
      cut_rules is_digit is_alnum stopped (char_before i text) c (char_at (suc i) text) cut in
    (c, here, mark, numbers, dots)
