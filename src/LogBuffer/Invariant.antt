-- ===== src/LogBuffer/Invariant.antt =====
-- What holds of the buffer of core/utils/ui_log_buffer.py between two calls.
use Prim.Native.String.{len}
use xiaozhi_desk_robot_serve.Prelude.{
  ℕ, ◌+◌, ◌-◌, ◌≤◌, ◌<◌, String, ◌≡◌, refl, sym, subst, List, [], ◌∷◌, ◌++◌, arith, length,
  Bool-cases, inl, inr, str_eq, ◌==◌,
}
use xiaozhi_desk_robot_serve.LogBuffer.{
  max_buffer_bytes, max_buffer_lines, max_line_bytes, Entry, Origin, LogBuffer, init, trim,
  total_size, new_entry, append_line, append_lines, append, without_source, clear_source,
}
use xiaozhi_desk_robot_serve.LogBuffer.Trim.{
  len-truncate_utf8, total_size-append, trim_loop_total, trim_loop_suffix, trim_loop_last,
}

-- the sequence numbers rise from above `lo` to below `hi`
abbrev pub Rising : ℕ → List Entry → ℕ → Type 0
Rising lo [] hi = lo < hi
Rising lo (e ∷ es) hi = (lo < e.sequence) × Rising e.sequence es hi

pub record Inv (b : LogBuffer) : Type 0 where
  pub counted : b.total_bytes ≡ total_size b.entries
  pub lines_capped : length b.entries ≤ max_buffer_lines
  pub bytes_capped : b.total_bytes ≤ max_buffer_bytes
  pub rising : Rising 0 b.entries b.next_sequence

pub init-Inv : Inv init
unfolding init total_size
init-Inv = omega arith

Rising-lower : (lo k : ℕ) (es : List Entry) (hi : ℕ) → k ≤ lo → Rising lo es hi → Rising k es hi
Rising-lower lo k [] hi h r = omega arith
Rising-lower lo k (e ∷ es) hi h r = (omega arith, r.1)

Rising-suffix : (lo : ℕ) (pre es : List Entry) (hi : ℕ) → Rising lo (pre ++ es) hi → Rising lo es hi
Rising-suffix lo [] es hi r = r
Rising-suffix lo (p ∷ pre) es hi r =
    Rising-lower p.sequence lo es hi (omega arith) (Rising-suffix p.sequence pre es hi r.1)

Rising-append :
    (lo : ℕ) (es : List Entry) (e : Entry)
    → Rising lo es e.sequence
    → Rising lo (es ++ e ∷ []) (e.sequence + 1)
Rising-append lo [] e r = (r, omega arith)
Rising-append lo (x ∷ es) e r = (r.0, Rising-append x.sequence es e r.1)

Rising-without_source :
    (source : String) (lo : ℕ) (es : List Entry) (hi : ℕ)
    → Rising lo es hi
    → Rising lo (without_source source es) hi
unfolding without_source
Rising-without_source source lo [] hi r = r
Rising-without_source source lo (e ∷ es) hi r = elim (Bool-cases (str_eq e.source source)) [
  | inl gone ↦ rw gone (
      Rising-lower e.sequence lo _ hi (omega arith)
        (Rising-without_source source e.sequence es hi r.1))
  | inr kept ↦ rw kept (r.0, Rising-without_source source e.sequence es hi r.1)
]

-- what `trim` needs of a buffer, which may be over its limits
trim-Inv :
    (b : LogBuffer)
    → b.total_bytes ≡ total_size b.entries
    → Rising 0 b.entries b.next_sequence
    → Inv (trim b)
unfolding trim
trim-Inv b h r =
    let (exact, lines, bytes) = trim_loop_total b.entries b.total_bytes b.dropped_total h in
    let (pre, e, _) = trim_loop_suffix b.entries b.total_bytes b.dropped_total in
    record {
      counted = exact;
      lines_capped = lines;
      bytes_capped = bytes;
      rising =
          Rising-suffix 0 pre _ b.next_sequence (subst (λ l. Rising 0 l b.next_sequence) (sym e) r);
    }

pub append_line-Inv :
    (o : Origin) (line : String) (b : LogBuffer) → Inv b → Inv (append_line o line b)
unfolding append_line new_entry total_size
append_line-Inv o line b v =
    let e = new_entry o b.next_sequence line in
    trim-Inv _ (omega (arith, total_size-append b.entries (e ∷ [])))
      (Rising-append 0 b.entries e v.rising)

append_lines-Inv :
    (o : Origin) (lines : List String) (b : LogBuffer) → Inv b → Inv (append_lines o lines b)
unfolding append_lines
append_lines-Inv o [] b v = v
append_lines-Inv o (line ∷ lines) b v =
    append_lines-Inv o lines (append_line o line b) (append_line-Inv o line b v)

append-Inv : (o : Origin) (lines : List String) (b : LogBuffer) → Inv b → Inv (append o lines b)
unfolding append
append-Inv o [] b v = append_lines-Inv _ ("" ∷ []) b v
append-Inv o (line ∷ lines) b v = append_lines-Inv _ (line ∷ lines) b v

length-without_source-le :
    (source : String) (es : List Entry) → length (without_source source es) ≤ length es
unfolding without_source
length-without_source-le source [] = omega arith
length-without_source-le source (e ∷ es) = ground (arith, length-without_source-le source es)

total_size-without_source-le :
    (source : String) (es : List Entry) → total_size (without_source source es) ≤ total_size es
unfolding without_source total_size
total_size-without_source-le source [] = omega arith
total_size-without_source-le source (e ∷ es) =
    ground (arith, total_size-without_source-le source es)

clear_source-Inv : (source : String) (b : LogBuffer) → Inv b → Inv (clear_source source b)
unfolding clear_source
clear_source-Inv source b v =
    elim (Bool-cases (length b.entries - length (without_source source b.entries) == 0)) [
      | inl same ↦ rw same v
      | inr fewer ↦ rw fewer (record {
        counted = refl;
        lines_capped = omega (arith, v.lines_capped, length-without_source-le source b.entries);
        bytes_capped =
            omega (arith, v.counted, v.bytes_capped, total_size-without_source-le source b.entries);
        rising = Rising-without_source source 0 b.entries b.next_sequence v.rising;
      })
    ]

-- One call that writes.
pub data Call : Type 0 where
  append_call : Origin → List String → Call
  clear_call : String → Call

unfoldable pub run : List Call → LogBuffer → LogBuffer
run [] b = b
run (append_call o lines ∷ calls) b = run calls (append o lines b)
run (clear_call source ∷ calls) b = run calls (clear_source source b)

-- From a state with the invariant, any calls of `append` and `clear_source` lead to one: the byte
-- count is the sum of the entries' sizes, the limits on lines and bytes hold, and the sequence
-- numbers rise and lie below the next one.
pub run-Inv : (calls : List Call) (b : LogBuffer) → Inv b → Inv (run calls b)
unfolding run
run-Inv [] b v = v
run-Inv (append_call o lines ∷ calls) b v = run-Inv calls _ (append-Inv o lines b v)
run-Inv (clear_call source ∷ calls) b v = run-Inv calls _ (clear_source-Inv source b v)

-- In a state with the invariant, a line appended with a tag of at most 512 bytes is the last entry
-- of the buffer, whatever the limits made the buffer drop.
pub append_line_newest :
    (o : Origin) (line : String) (b : LogBuffer)
    → Inv b
    → len o.tag ≤ 512
    → (kept : List Entry) × ((append_line o line b).entries
        ≡ kept ++ new_entry o b.next_sequence line ∷ [])
unfolding append_line trim
append_line_newest o line b v tag_fits =
    let e = new_entry o b.next_sequence line in
    trim_loop_last b.entries e (b.total_bytes + e.size) b.dropped_total
      (unfold total_size in omega (arith, total_size-append b.entries (e ∷ []), v.counted))
      (unfold new_entry in omega (arith, len-truncate_utf8 line max_line_bytes (omega arith)))
