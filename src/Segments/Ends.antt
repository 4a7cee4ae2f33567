-- ===== src/Segments/Ends.antt =====
-- What `pop` takes off a buffer.
use Prim.Native.String.{◌++◌, count}
use text.Mathlib.TextLemmas.{append_assoc, append-nil, nil-append, length-append}
use mathlib.Core.List.{◌++◌ as ◌+++◌}
use xiaozhi_desk_robot_serve.Prelude.{
  ℕ, zero, suc, ◌+◌, ◌≤◌, ◌<◌, String, ◌≡◌, refl, ap, sym, subst, ◌∙◌, Bool, true, false, not,
  Option, none, some, List, [], ◌∷◌, arith, Bool-cases, inl, inr, if◌then◌else◌, ◌==◌, str_eq,
}
use xiaozhi_desk_robot_serve.Text.Words.{concat, take_chars, drop_chars}
use xiaozhi_desk_robot_serve.SpeechText.{clean}
use xiaozhi_desk_robot_serve.Segments.{Unicode, Options, boundary_of}
use xiaozhi_desk_robot_serve.Segments.Buffer.{
  SegmentBuffer, full_text, current_text, take_segment, get_segment, spoken_part, text_or_none,
  flush_rest, pop_rounds, pop_segment,
}
use xiaozhi_desk_robot_serve.Segments.Whole.{take-drop, drop-drop, drop-all, count-drop}

-- what is spoken of the pieces of a text
unfoldable pub spoken : Unicode → List String → List String
spoken u [] = []
spoken u (piece ∷ pieces) =
    let rest = spoken u pieces in
    let text = clean u.is_punctuation piece in if str_eq text "" then rest else text ∷ rest

pub spoken-append :
    (u : Unicode) (ps qs : List String) → spoken u (ps +++ qs) ≡ spoken u ps +++ spoken u qs
unfolding spoken
spoken-append u [] qs = refl
spoken-append u (p ∷ ps) qs = ground (arith, spoken-append u ps qs)

pub concat-append : (ps qs : List String) → concat (ps +++ qs) ≡ concat ps ++ concat qs
unfolding concat
concat-append [] qs = sym (nil-append (concat qs))
concat-append (p ∷ ps) qs =
    ap (λ s. p ++ s) (concat-append ps qs) ∙ sym (append_assoc p (concat ps) (concat qs))

-- no more is processed than there is
abbrev pub Fits : SegmentBuffer → Type 0
Fits b = b.processed_chars ≤ count (full_text b)

-- between the buffers `b` and `c` some pieces were taken off the text, and `outs` was spoken of them
abbrev pub Cuts : Unicode → SegmentBuffer → SegmentBuffer → List String → Type 0
Cuts u b c outs =
    (pieces : List String) × (concat pieces ++ current_text c ≡ current_text b)
    × (c.texts ≡ b.texts)
    × (spoken u pieces ≡ outs)
    × (Fits b → Fits c)

abbrev pub to_list : Option String → List String
to_list none = []
to_list (some s) = if str_eq s "" then [] else s ∷ []

pub Cuts-trans :
    (u : Unicode) (b c d : SegmentBuffer) (xs ys : List String)
    → Cuts u b c xs
    → Cuts u c d ys
    → Cuts u b d (xs +++ ys)
Cuts-trans u b c d xs ys (ps, e, t, s, g) (qs, f, v, r, h) = (
  ps +++ qs,
  ap (λ w. w ++ current_text d) (concat-append ps qs)
      ∙ append_assoc (concat ps) (concat qs) (current_text d)
      ∙ ap (λ w. concat ps ++ w) f
      ∙ e,
  v ∙ t,
  spoken-append u ps qs ∙ ap (λ l. l +++ spoken u qs) s ∙ ap (λ l. xs +++ l) r,
  λ fits. h (g fits),
)

pub Cuts-refl : (u : Unicode) (b : SegmentBuffer) → Cuts u b b []
unfolding concat spoken
Cuts-refl u b = ([], nil-append (current_text b), refl, refl, λ fits. fits)

absurd_false {ℓ} : {A : Type ℓ} → false ≡ true → A
absurd_false h = cc

absurd_speaks {ℓ} : {A : Type ℓ} (s : String) → str_eq s "" ≡ false → not (str_eq s "") ≡ false → A
absurd_speaks s h k = ground (arith, h, k)

module _ (u : Unicode) (o : Options) where
  -- `k` characters are processed on the way from `b` to `c`
  abbrev Moves : SegmentBuffer → SegmentBuffer → Option String → Type 0
  Moves b c text =
      (k : ℕ) × (c.processed_chars ≡ b.processed_chars + k)
      × (count (current_text c) + k ≡ count (current_text b))
      × (c.finished ≡ b.finished)
      × Cuts u b c (to_list text)

  take_segment-Moves :
      (b : SegmentBuffer) (position : Option ℕ)
      → let (c, text) = take_segment u o b position in Moves b c text
  unfolding take_segment concat spoken
  take_segment-Moves b none = (0, omega arith, omega arith, refl, Cuts-refl u b)
  take_segment-Moves b (some i) =
      let raw = take_chars (suc i) (current_text b) in
      let rest : drop_chars (b.processed_chars + count raw) (full_text b)
          ≡ drop_chars (count raw) (current_text b) =
        drop-drop b.processed_chars (count raw) (full_text b) in
      let whole : raw ++ drop_chars (b.processed_chars + count raw) (full_text b) ≡ current_text b =
        ap (λ w. raw ++ w) rest ∙ take-drop (suc i) (current_text b) in
      let left = drop_chars (b.processed_chars + count raw) (full_text b) in
      let shorter : count left + count raw ≡ count (current_text b) =
        omega (arith, length-append raw left, ap count whole) in
      (
        count raw,
        refl,
        shorter,
        refl,
        (
          raw ∷ [],
          ap (λ w. w ++ left) (append-nil raw) ∙ whole,
          refl,
          refl,
          λ fits. omega (
            arith,
            shorter,
            count-drop (b.processed_chars + count raw) (full_text b),
            count-drop b.processed_chars (full_text b),
          ),
        ),
      )

  get_segment-Moves : (b : SegmentBuffer) → let (c, text) = get_segment u o b in Moves b c text
  unfolding get_segment
  get_segment-Moves b = take_segment-Moves b (boundary_of u o b.is_first_sentence (current_text b))

  -- the text is not empty, if there is one
  abbrev pub proper : Option String → Bool
  proper none = true
  proper (some s) = not (str_eq s "")

  proper_text : (s : String) → proper (text_or_none u o s) ≡ true
  unfolding text_or_none
  proper_text s = elim (Bool-cases (str_eq s "")) [
    | inl empty ↦ rw empty refl
    | inr speaks ↦ rw speaks (rw speaks refl)
  ]

  proper_spoken : (t : Option String) → true ≡ not (str_eq (spoken_part u o t) "") → proper t ≡ true
  proper_spoken none h = refl
  proper_spoken (some s) h = sym h

  abbrev Left : SegmentBuffer → SegmentBuffer → Option String → Type 0
  Left b c text =
      Cuts u b c (to_list text)
      × (c.finished ≡ b.finished)
      × (b.finished ≡ true → text ≡ none → current_text c ≡ "")
      × (proper text ≡ true)

  rest_spoken :
      (s : String) → spoken u (s ∷ []) ≡ to_list (text_or_none u o (clean u.is_punctuation s))
  unfolding spoken text_or_none
  rest_spoken s = elim (Bool-cases (str_eq (clean u.is_punctuation s) "")) [
    | inl empty ↦ rw empty refl
    | inr speaks ↦ rw speaks (rw speaks refl)
  ]

  flush_finished :
      (b : SegmentBuffer) (f : Bool)
      → f ≡ b.finished
      → let (c, text) =
          if◌then◌else◌ {A = SegmentBuffer × Option String} f
            (
              record b { processed_chars = count (full_text b) },
              text_or_none u o (clean u.is_punctuation (current_text b)),
            )
            (b, none) in
        Left b c text
  unfolding concat
  flush_finished b true e = (
    (
      current_text b ∷ [],
      ap (λ w. (current_text b ++ "") ++ w) (drop-all (full_text b))
          ∙ append-nil (current_text b ++ "")
          ∙ append-nil (current_text b),
      refl,
      rest_spoken (current_text b),
      λ fits. omega arith,
    ),
    refl,
    λ fin none_left. drop-all (full_text b),
    proper_text (clean u.is_punctuation (current_text b)),
  )
  flush_finished b false e = (Cuts-refl u b, refl, λ fin none_left. absurd_false (e ∙ fin), refl)

  flush_rest-Left : (b : SegmentBuffer) → let (c, text) = flush_rest u o b in Left b c text
  unfolding flush_rest
  flush_rest-Left b = flush_finished b b.finished refl

  -- what `pop` returns of `b`
  abbrev pub Popped : SegmentBuffer → Option (SegmentBuffer × Option String) → Type 0
  Popped b r = (c : SegmentBuffer) × (text : Option String) × (r ≡ some (c, text)) × Left b c text

  silent : (t : Option String) → not (str_eq (spoken_part u o t) "") ≡ false → to_list t ≡ []
  silent none h = refl
  silent (some s) h = elim (Bool-cases (str_eq s "")) [
    | inl empty ↦ rw empty refl
    | inr speaks ↦ absurd_speaks s speaks h
  ]

  none_quiet {ℓ} :
      {A : Type ℓ} → (t : Option String) → true ≡ not (str_eq (spoken_part u o t) "") → t ≡ none → A
  none_quiet t h e = absurd_false (sym (h ∙ ap (λ x. not (str_eq (spoken_part u o x) "")) e))

  -- a round in which nothing is spoken goes before the rest
  quiet_Left :
      (b c d : SegmentBuffer) (text t : Option String)
      → Cuts u b c (to_list text)
      → c.finished ≡ b.finished
      → false ≡ not (str_eq (spoken_part u o text) "")
      → Left c d t
      → Left b d t
  quiet_Left b c d text t cut fin quiet (cuts, fins, ends, full) = (
    Cuts-trans u b c d [] (to_list t) (subst (λ l. Cuts u b c l) (silent text (sym quiet)) cut)
        cuts,
    fins ∙ fin,
    λ f none_left. ends (fin ∙ f) none_left,
    full,
  )

  round-Popped :
      (b c : SegmentBuffer) (text : Option String) (speaks more : Bool)
      (again : Option (SegmentBuffer × Option String))
      → Cuts u b c (to_list text)
      → c.finished ≡ b.finished
      → speaks ≡ not (str_eq (spoken_part u o text) "")
      → (more ≡ true → Popped c again)
      → Popped b
          (if speaks then some (c, text) else if more then again else some (flush_rest u o c))
  round-Popped b c text true more again cut fin h rest =
      (c, text, refl, (cut, fin, λ f none_left. none_quiet text h none_left, proper_spoken text h))
  round-Popped b c text false true again cut fin h rest =
      let (d, t, e, left) = rest refl in (d, t, e, quiet_Left b c d text t cut fin h left)
  round-Popped b c text false false again cut fin h rest =
      let (d, t) = flush_rest u o c in
      (d, t, refl, quiet_Left b c d text t cut fin h (flush_rest-Left c))

  moved_on : (m n k : ℕ) → m ≡ n + k → not (m == n) ≡ true → 0 < k
  moved_on m n k e h = ground (arith, e, h)

  pop_rounds-Popped :
      (fuel : ℕ) (b : SegmentBuffer)
      → count (current_text b) < fuel
      → Popped b (pop_rounds u o fuel b)
  unfolding pop_rounds
  pop_rounds-Popped zero b h = absurd (omega arith)
  pop_rounds-Popped (suc fuel) b h =
      let (c, text) = get_segment u o b in
      let (k, moved, shorter, fin, cut) = get_segment-Moves b in
      round-Popped b c text (not (str_eq (spoken_part u o text) ""))
        (not (c.processed_chars == b.processed_chars)) (pop_rounds u o fuel c) cut fin refl
        (λ more.
          pop_rounds-Popped fuel c
            (omega (arith, moved_on c.processed_chars b.processed_chars k moved more)))

  -- `pop` always returns. Some pieces, one after the other, are taken off the text, and what is left of it is
  -- what stands after them; what is spoken of the pieces is the one text that is returned, or nothing. When the
  -- buffer is finished and nothing is returned, all of the text is processed
  pub pop_segment-Popped : (b : SegmentBuffer) → Popped b (pop_segment u o b)
  unfolding pop_segment
  pop_segment-Popped b = pop_rounds-Popped (suc (count (current_text b))) b (omega arith)
