-- ===== src/LogBuffer/Trim.antt =====
-- The loop of `_trim_locked` of core/utils/ui_log_buffer.py.
use Prim.Native.String.{len}
use text.Mathlib.TextPositions.{len-append}
use xiaozhi_desk_robot_serve.Prelude.{
  ℕ, ◌+◌, ◌-◌, ◌≤◌, String, ◌≡◌, refl, ap, List, [], ◌∷◌, ◌++◌, arith, leb, length, Bool-cases, inl,
  inr,
}
use xiaozhi_desk_robot_serve.Text.{utf8_prefix, len-utf8_prefix}
use xiaozhi_desk_robot_serve.LogBuffer.{
  max_buffer_bytes, max_buffer_lines, truncated_suffix, truncate_utf8, Entry, over, trim_loop,
  total_size,
}

-- A truncated text has at most the given number of bytes, if that number has room for the suffix.
pub len-truncate_utf8 :
    (value : String) (max_bytes : ℕ)
    → len truncated_suffix ≤ max_bytes
    → len (truncate_utf8 value max_bytes) ≤ max_bytes
unfolding truncate_utf8
len-truncate_utf8 value max_bytes h = elim (Bool-cases (leb (len value) max_bytes)) [
  | inl fits ↦ rw fits (ground arith)
  | inr long ↦ rw long (
      rw (len-append (utf8_prefix (max_bytes - len truncated_suffix) value) truncated_suffix)
        (omega (arith, len-utf8_prefix (max_bytes - len truncated_suffix) value)))
]

pub total_size-append : (xs ys : List Entry) → total_size (xs ++ ys) ≡ total_size xs + total_size ys
unfolding total_size
total_size-append [] ys = omega arith
total_size-append (x ∷ xs) ys = omega (arith, total_size-append xs ys)

-- The loop keeps the byte count exact, and stops within both limits.
pub trim_loop_total :
    (es : List Entry) (total dropped : ℕ)
    → total ≡ total_size es
    → let (es', total', _) = trim_loop es total dropped in
      (total' ≡ total_size es') × (length es' ≤ max_buffer_lines) × (total' ≤ max_buffer_bytes)
unfolding trim_loop total_size over
trim_loop_total [] total dropped e = omega arith
trim_loop_total (x ∷ es) total dropped e =
    ground (arith, trim_loop_total es (total - x.size) (dropped + 1))

-- The loop drops from the front, and counts what it drops.
pub trim_loop_suffix :
    (es : List Entry) (total dropped : ℕ)
    → let (es', _, dropped') = trim_loop es total dropped in
      (pre : List Entry) × (pre ++ es' ≡ es) × (dropped' ≡ dropped + length pre)
unfolding trim_loop
trim_loop_suffix [] total dropped = ([], refl, omega arith)
trim_loop_suffix (x ∷ es) total dropped = elim (Bool-cases (over (length (x ∷ es)) total)) [
  | inl drop_it ↦
      let (pre, e, n) = trim_loop_suffix es (total - x.size) (dropped + 1) in
      rw drop_it (x ∷ pre, ap (λ l. x ∷ l) e, omega arith)
  | inr keep ↦ rw keep ([], refl, omega arith)
]

-- An entry that alone is within the limit survives as the last one.
pub trim_loop_last :
    (es : List Entry) (e : Entry) (total dropped : ℕ)
    → total ≡ total_size (es ++ e ∷ [])
    → e.size ≤ max_buffer_bytes
    → (kept : List Entry) × ((trim_loop (es ++ e ∷ []) total dropped).0 ≡ kept ++ e ∷ [])
unfolding trim_loop total_size over
trim_loop_last [] e total dropped h fits = ([], ground arith)
trim_loop_last (x ∷ es) e total dropped h fits =
    elim (Bool-cases (over (length (x ∷ (es ++ e ∷ []))) total)) [
      | inl drop_it ↦
          let (kept, p) = trim_loop_last es e (total - x.size) (dropped + 1) (omega arith) fits in
          rw drop_it (kept, p)
      | inr keep ↦ rw keep (x ∷ es, refl)
    ]
