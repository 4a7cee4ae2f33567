-- ===== src/Segments/Whole.antt =====
-- Nothing of a text is lost on its way to the segments.
use Prim.Native.String.{◌++◌, count}
use Prim.Native.String.count
use text.Mathlib.TextLemmas.{nil-append, cons-append}
use xiaozhi_desk_robot_serve.Prelude.{
  ℕ, zero, suc, ◌+◌, ◌-◌, ◌≤◌, String, ◌≡◌, refl, ap, sym, ◌∙◌, arith,
}
use xiaozhi_desk_robot_serve.Text.Words.{take_chars, drop_chars}

pub take-drop : (n : ℕ) (s : String) → take_chars n s ++ drop_chars (count (take_chars n s)) s ≡ s
unfolding take_chars drop_chars
take-drop zero s = nil-append s
take-drop (suc n) String.[] = refl
take-drop (suc n) (String.◌∷◌ c s) = rw (count.cons c (take_chars n s)) (
    cons-append c (take_chars n s) (drop_chars (count (take_chars n s)) s)
    ∙ ap (String.◌∷◌ c) (take-drop n s))

drop-nil : (n : ℕ) → drop_chars n "" ≡ ""
unfolding drop_chars
drop-nil zero = refl
drop-nil (suc n) = refl

sum_suc : (m n : ℕ) → suc m + n ≡ suc (m + n)
sum_suc m n = omega arith

pub drop-drop : (m n : ℕ) (s : String) → drop_chars (m + n) s ≡ drop_chars n (drop_chars m s)
unfolding drop_chars
drop-drop zero n s = ap (λ j. drop_chars j s) (omega arith)
drop-drop (suc m) n String.[] = ap (λ j. drop_chars j "") (sum_suc m n) ∙ sym (drop-nil n)
drop-drop (suc m) n (String.◌∷◌ c s) =
    ap (λ j. drop_chars j (String.◌∷◌ c s)) (sum_suc m n) ∙ drop-drop m n s

pub drop-all : (s : String) → drop_chars (count s) s ≡ ""
unfolding drop_chars
drop-all String.[] = refl
drop-all (String.◌∷◌ c s) = rw (count.cons c s) (drop-all s)

pub drop-append : (n : ℕ) (s t : String) → n ≤ count s → drop_chars n (s ++ t) ≡ drop_chars n s ++ t
unfolding drop_chars
drop-append zero s t h = refl
drop-append (suc n) String.[] t h = absurd (omega arith)
drop-append (suc n) (String.◌∷◌ c s) t h =
    rw (cons-append c s t) (drop-append n s t (omega (arith, count.cons c s)))

pub count-drop : (n : ℕ) (s : String) → count (drop_chars n s) ≡ count s - n
unfolding drop_chars
count-drop zero s = omega arith
count-drop (suc n) String.[] = omega arith
count-drop (suc n) (String.◌∷◌ c s) = omega (arith, count-drop n s, count.cons c s)
