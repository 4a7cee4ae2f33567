-- ===== src/LlmStream/Pieces.antt =====
-- The pieces into which a text is cut: nothing is lost, and each fits in an event.
use Prim.Native.Nat.{Ordering, compare}
use Prim.Native.Char.{Char, code, len_utf8, width, len_utf8_def}
use Prim.Native.String.{◌++◌, len}
use Prim.Native.String.len
use text.Mathlib.TextLemmas.{cons-append, nil-append}
use xiaozhi_desk_robot_serve.Text.Words.{concat}
use xiaozhi_desk_robot_serve.Prelude.{
  ℕ, zero, suc, ◌*◌, ◌≤◌, String, ◌≡◌, refl, ap, sym, ◌∙◌, arith, All,
}
use xiaozhi_desk_robot_serve.LlmStream.{pieces, chunks}

width_bounds : (a b c : Ordering) → (1 ≤ width a b c) × (width a b c ≤ 4)
width_bounds Ordering.lt b c = omega arith
width_bounds Ordering.eq Ordering.lt c = omega arith
width_bounds Ordering.gt Ordering.lt c = omega arith
width_bounds Ordering.eq Ordering.eq Ordering.lt = omega arith
width_bounds Ordering.eq Ordering.eq _ = omega arith
width_bounds Ordering.eq Ordering.gt Ordering.lt = omega arith
width_bounds Ordering.eq Ordering.gt _ = omega arith
width_bounds Ordering.gt Ordering.eq Ordering.lt = omega arith
width_bounds Ordering.gt Ordering.eq _ = omega arith
width_bounds Ordering.gt Ordering.gt Ordering.lt = omega arith
width_bounds Ordering.gt Ordering.gt _ = omega arith

len_utf8_bounds : (c : Char) → (1 ≤ len_utf8 c) × (len_utf8 c ≤ 4)
len_utf8_bounds c =
    rw (len_utf8_def c)
      (width_bounds (compare (code c) 128) (compare (code c) 2048) (compare (code c) 65536))

-- the first piece and the others spell the text
concat-pieces : (room : ℕ) (s : String) → (pieces room s).0 ++ concat (pieces room s).1 ≡ s
unfolding pieces concat
concat-pieces room String.[] = refl
concat-pieces zero (String.◌∷◌ c s) =
    nil-append (String.◌∷◌ c (pieces 1023 s).0 ++ concat (pieces 1023 s).1)
    ∙ cons-append c (pieces 1023 s).0 (concat (pieces 1023 s).1)
    ∙ ap (String.◌∷◌ c) (concat-pieces 1023 s)
concat-pieces (suc room) (String.◌∷◌ c s) =
    cons-append c (pieces room s).0 (concat (pieces room s).1)
    ∙ ap (String.◌∷◌ c) (concat-pieces room s)

first_empty : (s : String) → (pieces 0 s).0 ≡ ""
unfolding pieces
first_empty String.[] = refl
first_empty (String.◌∷◌ c s) = refl

abbrev pub Fits : String → Type 0
Fits w = (1 ≤ len w) × (len w ≤ 4096)

pieces-Fits :
    (room : ℕ) (s : String) → (len (pieces room s).0 ≤ 4 * room) × All Fits (pieces room s).1
unfolding pieces
pieces-Fits room String.[] = (omega arith, tt)
pieces-Fits zero (String.◌∷◌ c s) =
    let (l, a) = pieces-Fits 1023 s in
    let (low, high) = len_utf8_bounds c in
    (
      omega arith,
      (
        (
          omega (arith, len.cons c (pieces 1023 s).0, l, low),
          omega (arith, len.cons c (pieces 1023 s).0, l, high),
        ),
        a,
      ),
    )
pieces-Fits (suc room) (String.◌∷◌ c s) =
    let (l, a) = pieces-Fits room s in
    let (low, high) = len_utf8_bounds c in (omega (arith, len.cons c (pieces room s).0, l, high), a)

-- The chunks of a text spell the text, and none is empty or longer than an event allows.
pub concat-chunks : (s : String) → concat (chunks s) ≡ s
unfolding chunks
concat-chunks s =
    sym (nil-append (concat (pieces 0 s).1))
    ∙ ap (λ w. w ++ concat (pieces 0 s).1) (sym (first_empty s))
    ∙ concat-pieces 0 s

pub chunks-Fits : (s : String) → All Fits (chunks s)
unfolding chunks
chunks-Fits s = (pieces-Fits 0 s).1
