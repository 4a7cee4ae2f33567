-- ===== src/Memory/Budget.antt =====
-- What ExplicitMemory shows to the language model keeps within its budget of characters.
use Prim.Native.Char.{Char}
use Prim.Native.String.{◌++◌, count}
use Prim.Native.String.count
use text.Mathlib.TextLemmas.{length-append}
use xiaozhi_desk_robot_serve.Text.Words.{join, keep_unless, strip_end, take_chars}
use xiaozhi_desk_robot_serve.Prelude.{
  ℕ, zero, suc, ◌+◌, ◌-◌, ◌≤◌, String, ◌≡◌, refl, Bool, false, List, [], ◌∷◌, arith, Bool-cases,
  inl, inr, ltb, ◌==◌, str_eq,
}
use xiaozhi_desk_robot_serve.Text.{is_space}
use xiaozhi_desk_robot_serve.Memory.Entries.{Entry}
use xiaozhi_desk_robot_serve.Memory.Render.{
  render_entry, more_lines, first_line, render_lines, render_entries, section,
}

-- each line with the line break before it
total : List String → ℕ
total [] = 0
total (w ∷ ws) = suc (count w) + total ws

count-join : (w : String) (ws : List String) → count (join "\n" (w ∷ ws)) ≡ count w + total ws
unfolding join total
count-join w [] = omega arith
count-join w (v ∷ ws) =
    let break_one : count "\n" ≡ 1 = refl in
    omega (
      arith,
      length-append w ("\n" ++ join "\n" (v ∷ ws)),
      length-append "\n" (join "\n" (v ∷ ws)),
      count-join v ws,
      break_one,
    )

count-take_chars-le : (n : ℕ) (s : String) → count (take_chars n s) ≤ n
unfolding take_chars
count-take_chars-le zero s = omega arith
count-take_chars-le (suc n) String.[] = omega arith
count-take_chars-le (suc n) (String.◌∷◌ c s) =
    rw (count.cons c (take_chars n s)) (omega (arith, count-take_chars-le n s))

count-keep_unless-le :
    (test : Char → Bool) (c : Char) (s : String) → count (keep_unless test c s) ≤ suc (count s)
unfolding keep_unless
count-keep_unless-le test c String.[] = elim (Bool-cases (test c)) [
  | inl drops ↦ rw drops (omega arith)
  | inr keeps ↦
      let one : count (String.◌∷◌ c "") ≤ 1 = omega (arith, count.cons c "") in rw keeps one
]
count-keep_unless-le test c (String.◌∷◌ d s) = omega (arith, count.cons c (String.◌∷◌ d s))

count-strip_end-le : (test : Char → Bool) (s : String) → count (strip_end test s) ≤ count s
unfolding strip_end
count-strip_end-le test String.[] = omega arith
count-strip_end-le test (String.◌∷◌ c s) = omega (
  arith,
  count-keep_unless-le test c (strip_end test s),
  count-strip_end-le test s,
  count.cons c s,
)

count-first_line-le : (max_chars : ℕ) (e : Entry) → count (first_line max_chars e) ≤ max_chars
unfolding first_line
count-first_line-le max_chars e =
    let line = "- " ++ render_entry e in
    elim (Bool-cases (ltb max_chars (count line))) [
      | inl long ↦ rw long (
          omega (
            arith,
            count-strip_end-le is_space (take_chars max_chars line),
            count-take_chars-le max_chars line,
          ))
      | inr fits ↦ rw fits (ground arith)
    ]

total-more_lines-le :
    (max_chars used : ℕ) (es : List Entry)
    → used ≤ max_chars
    → used + total (more_lines max_chars used es) ≤ max_chars
unfolding more_lines total
total-more_lines-le max_chars used [] h = omega arith
total-more_lines-le max_chars used (e ∷ es) h =
    let line = "- " ++ render_entry e in
    elim (Bool-cases (ltb max_chars (used + (count line + 1)))) [
      | inl over ↦ rw over (omega arith)
      | inr fits ↦
          rw fits (
            omega
              (arith, total-more_lines-le max_chars (used + (count line + 1)) es (ground arith)))
    ]

count-pos : (s : String) → str_eq s "" ≡ false → 1 ≤ count s
count-pos String.[] h = cc
count-pos (String.◌∷◌ c s) h = omega (arith, count.cons c s)

-- The entries that are shown have at most `max_chars` characters, line breaks included.
pub count-render_entries-le :
    (max_chars : ℕ) (es : List Entry) → count (render_entries max_chars es) ≤ max_chars
unfolding render_entries render_lines join
count-render_entries-le max_chars es = elim (Bool-cases (max_chars == 0)) [
  | inl none ↦ rw none (omega arith)
  | inr room ↦ rw room (go es)
]
  where
    go : (ds : List Entry) → count (join "\n" (render_lines max_chars ds)) ≤ max_chars
    go [] = omega arith
    go (d ∷ ds) = omega (
      arith,
      count-join (first_line max_chars d)
          (more_lines max_chars (count (first_line max_chars d)) ds),
      total-more_lines-le max_chars (count (first_line max_chars d)) ds
          (count-first_line-le max_chars d),
    )

-- A section of what is recalled keeps with its heading within its number of characters, also where
-- there is no room for the heading: then there is no section.
pub count-section-le :
    (heading : String) (max_chars : ℕ) (es : List Entry)
    → count (section heading max_chars es) ≤ max_chars
unfolding section
count-section-le heading max_chars es =
    let rendered = render_entries (max_chars - count heading - 1) es in
    let break_one : count "\n" ≡ 1 = refl in
    elim (Bool-cases (str_eq rendered "")) [
      | inl empty ↦ rw empty (omega arith)
      | inr shown ↦
          let fits : count (heading ++ "\n" ++ rendered) ≤ max_chars = omega (
            arith,
            length-append heading ("\n" ++ rendered),
            length-append "\n" rendered,
            break_one,
            count-pos rendered shown,
            count-render_entries-le (max_chars - count heading - 1) es,
          ) in
          rw shown fits
    ]
