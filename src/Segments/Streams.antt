-- ===== src/Segments/Streams.antt =====
-- A stream of text through SegmentBuffer of core/cluster/tts_segments.py, with its calls in any order.
use Prim.Native.String.{◌++◌, count, len}
use text.Mathlib.TextLemmas.{append_assoc, append-nil, length-append}
use mathlib.Core.List.{◌++◌ as ◌+++◌}
use xiaozhi_desk_robot_serve.Prelude.{
  ◌+◌, ◌≤◌, String, ◌≡◌, refl, ap, sym, subst, ◌∙◌, Option, none, some, List, [], ◌∷◌, arith,
  Bool-cases, inl, inr, ltb, append_nil, append_assoc as list_assoc,
}
use xiaozhi_desk_robot_serve.Text.Words.{concat, drop_chars}
use xiaozhi_desk_robot_serve.Segments.{Unicode, Options}
use xiaozhi_desk_robot_serve.Segments.Buffer.{
  SegmentBuffer, empty_buffer, max_text, append_text, finish_buffer, full_text, current_text,
  pop_segment,
}
use xiaozhi_desk_robot_serve.Segments.Whole.{drop-append}
use xiaozhi_desk_robot_serve.Segments.Ends.{
  spoken, spoken-append, concat-append, Fits, to_list, Cuts, pop_segment-Popped,
}

-- the calls of a turn
pub data BufferCall : Type 0 where
  append_call : String → BufferCall
  finish_call : BufferCall
  pop_call : BufferCall

-- the texts that are spoken after the calls `calls`; a text that `append` refuses is not fed again
-- the calls give the buffer and what is spoken; `none` if a loop does not end
abbrev pub Played : Type 0
Played = Option (SegmentBuffer × List String)

unfoldable pub spoken_after : List String → Played → Played
spoken_after outs none = none
spoken_after outs (some (d, more)) = some (d, outs +++ more)

unfoldable pub then_more : Played → (SegmentBuffer → Played) → Played
unfolding spoken_after
then_more none next = none
then_more (some (c, outs)) next = spoken_after outs (next c)

unfoldable pub listed : Option (SegmentBuffer × Option String) → Played
listed none = none
listed (some (c, text)) = some (c, to_list text)

module _ (u : Unicode) (o : Options) where
  -- a text that `append` refuses is not fed again
  unfoldable pub one_call : BufferCall → SegmentBuffer → Played
  unfolding listed
  one_call (append_call text) b = some ((append_text text b).0, [])
  one_call finish_call b = some (finish_buffer b, [])
  one_call pop_call b = listed (pop_segment u o b)

  unfoldable pub run_calls : List BufferCall → SegmentBuffer → Played
  unfolding one_call then_more
  run_calls [] b = some (b, [])
  run_calls (call ∷ calls) b = then_more (one_call call b) (run_calls calls)

-- the texts `outs` are what is spoken of the pieces of the text before the place that is reached
abbrev pub Said : Unicode → SegmentBuffer → List String → Type 0
Said u b outs =
    (pieces : List String) × (concat pieces ++ current_text b ≡ full_text b)
    × (spoken u pieces ≡ outs)
    × Fits b

concat-one : (text : String) → concat (text ∷ []) ≡ text
unfolding concat
concat-one text = append-nil text

-- a buffer to whose text a piece is added
grown-Said :
    (u : Unicode) (b c : SegmentBuffer) (text : String) (outs : List String)
    → c.texts ≡ b.texts +++ text ∷ []
    → c.processed_chars ≡ b.processed_chars
    → Said u b outs
    → Said u c outs
grown-Said u b c text outs grown same (pieces, e, s, fits) =
    let full : full_text c ≡ full_text b ++ text =
      ap concat grown
      ∙ concat-append b.texts (text ∷ [])
      ∙ ap (λ w. full_text b ++ w) (concat-one text) in
    let current : current_text c ≡ current_text b ++ text =
      ap (λ n. drop_chars n (full_text c)) same
      ∙ ap (λ w. drop_chars b.processed_chars w) full
      ∙ drop-append b.processed_chars (full_text b) text fits in
    (
      pieces,
      ap (λ w. concat pieces ++ w) current
          ∙ sym (append_assoc (concat pieces) (current_text b) text)
          ∙ ap (λ w. w ++ text) e
          ∙ sym full,
      s,
      omega (arith, same, fits, ap count full, length-append (full_text b) text),
    )

pub append_text-Said :
    (u : Unicode) (b : SegmentBuffer) (text : String) (outs : List String)
    → Said u b outs
    → Said u (append_text text b).0 outs
unfolding append_text
append_text-Said u b text outs said = elim (Bool-cases b.finished) [
  | inl closed ↦ rw closed said
  | inr running ↦ rw running (elim (Bool-cases (ltb max_text (b.bytes + len text))) [
    | inl over ↦ rw over said
    | inr under ↦ rw under (
        grown-Said u b (record b { bytes = b.bytes + len text; texts = b.texts +++ text ∷ [] }) text
          outs refl refl said)
  ])
]

pub Cuts-Said :
    (u : Unicode) (b c : SegmentBuffer) (outs more : List String)
    → Said u b outs
    → Cuts u b c more
    → Said u c (outs +++ more)
Cuts-Said u b c outs more (ps, e, s, fits) (qs, f, same, r, g) = (
  ps +++ qs,
  ap (λ w. w ++ current_text c) (concat-append ps qs)
      ∙ append_assoc (concat ps) (concat qs) (current_text c)
      ∙ ap (λ w. concat ps ++ w) f
      ∙ e
      ∙ sym (ap concat same),
  spoken-append u ps qs ∙ ap (λ l. l +++ spoken u qs) s ∙ ap (λ l. outs +++ l) r,
  g fits,
)

-- a run from a buffer after which `outs` is spoken
abbrev pub Ran : Unicode → List String → Played → Type 0
Ran u outs r =
    (c : SegmentBuffer) × (more : List String) × (r ≡ some (c, more)) × Said u c (outs +++ more)

silent-Said :
    (u : Unicode) (b : SegmentBuffer) (outs : List String) → Said u b outs → Said u b (outs +++ [])
silent-Said u b outs said = subst (λ l. Said u b l) (sym (append_nil outs)) said

more-Said :
    (u : Unicode) (b : SegmentBuffer) (xs ys zs : List String)
    → Said u b ((xs +++ ys) +++ zs)
    → Said u b (xs +++ (ys +++ zs))
more-Said u b xs ys zs said = subst (λ l. Said u b l) (list_assoc xs ys zs) said

module _ (u : Unicode) (o : Options) where
  one_call-Ran :
      (call : BufferCall) (b : SegmentBuffer) (outs : List String)
      → Said u b outs
      → Ran u outs (one_call u o call b)
  unfolding one_call finish_buffer
  one_call-Ran (append_call text) b outs said =
      (_, [], refl, silent-Said u (append_text text b).0 outs (append_text-Said u b text outs said))
  one_call-Ran finish_call b outs said =
      ((finish_buffer b), [], refl, silent-Said u (finish_buffer b) outs said)
  one_call-Ran pop_call b outs said =
      let (c, text, e, (cuts, same, ends, full)) = pop_segment-Popped u o b in
      (c, to_list text, ap listed e, Cuts-Said u b c outs (to_list text) said cuts)

  run_calls-Ran :
      (calls : List BufferCall) (b : SegmentBuffer) (outs : List String)
      → Said u b outs
      → Ran u outs (run_calls u o calls b)
  unfolding run_calls
  run_calls-Ran [] b outs said = (b, [], refl, silent-Said u b outs said)
  run_calls-Ran (call ∷ calls) b outs said =
      let (c, more, e, now) = one_call-Ran call b outs said in
      let (d, rest, f, later) = run_calls-Ran calls c (outs +++ more) now in
      (
        d,
        more +++ rest,
        ap (λ r. then_more r (run_calls u o calls)) e ∙ ap (λ r. spoken_after more r) f,
        more-Said u d outs more rest later,
      )

  nothing-Said : Said u empty_buffer []
  unfolding spoken concat drop_chars
  nothing-Said = ([], refl, refl, omega arith)

  -- From an empty buffer, any sequence of `append`, `finish` and `pop` runs to its end: the texts that `pop`
  -- returned are what is spoken of some pieces, in their order, and these pieces followed by the text that is
  -- still unprocessed are exactly the text that was appended
  pub run_calls_lem :
      (calls : List BufferCall)
      → (c : SegmentBuffer) × (outs : List String) × (pieces : List String) × (run_calls u o calls
            empty_buffer
          ≡ some (c, outs))
        × (concat pieces ++ current_text c ≡ full_text c)
        × (spoken u pieces ≡ outs)
        × (c.processed_chars ≤ count (full_text c))
  run_calls_lem calls =
      let (c, outs, e, (pieces, whole, said, fits)) =
        run_calls-Ran calls empty_buffer [] nothing-Said in
      (c, outs, pieces, e, whole, said, fits)
