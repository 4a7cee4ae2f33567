-- ===== src/LogBuffer/Paging.antt =====
-- `snapshot` of core/utils/ui_log_buffer.py: a reader that asks for what is newer than the last entry
-- it got sees every entry once.
use xiaozhi_desk_robot_serve.Prelude.{
  ℕ, zero, suc, ◌+◌, ◌-◌, ◌≤◌, ◌<◌, ◌≡◌, ◌≢◌, ◌↔◌, refl, sym, ◌∙◌, true, false, Option, List, [],
  ◌∷◌, ◌++◌, arith, ltb, not, ◌==◌, ◌&&◌, length, take, map, Bool-cases, inl, inr,
}
use xiaozhi_desk_robot_serve.Prelude.Int.{ℤ}
use xiaozhi_desk_robot_serve.LogBuffer.{
  Entry, LogBuffer, after_of, limit_of, last_sequence, newer, publish, is_reset, select, snapshot,
}
use xiaozhi_desk_robot_serve.LogBuffer.Invariant.{Rising, Inv}

newer_all :
    (after lo : ℕ) (es : List Entry) (hi : ℕ) → after ≤ lo → Rising lo es hi → newer after es ≡ es
unfolding newer
newer_all after lo [] hi h r = refl
newer_all after lo (e ∷ es) hi h r = ground (arith, newer_all after e.sequence es hi)

newer_drop : (k n : ℕ) (es : List Entry) → k ≤ n → newer n (newer k es) ≡ newer n es
unfolding newer
newer_drop k n [] h = refl
newer_drop k n (e ∷ es) h = ground (arith, newer_drop k n es)

last_sequence-ge :
    (n lo : ℕ) (es : List Entry) (hi : ℕ) → Rising lo es hi → lo ≤ last_sequence lo (take n es)
unfolding last_sequence
last_sequence-ge zero lo es hi r = omega arith
last_sequence-ge (suc n) lo [] hi r = omega arith
last_sequence-ge (suc n) lo (e ∷ es) hi r = omega (arith, last_sequence-ge n e.sequence es hi r.1)

last_sequence-ge_all :
    (lo : ℕ) (es : List Entry) (hi : ℕ) → Rising lo es hi → lo ≤ last_sequence lo es
unfolding last_sequence
last_sequence-ge_all lo [] hi r = omega arith
last_sequence-ge_all lo (e ∷ es) hi r = omega (arith, last_sequence-ge_all e.sequence es hi r.1)

Rising-raise : (lo : ℕ) (es : List Entry) (hi k : ℕ) → hi ≤ k → Rising lo es hi → Rising lo es k
Rising-raise lo [] hi k h r = omega arith
Rising-raise lo (e ∷ es) hi k h r = (r.0, Rising-raise e.sequence es hi k h r.1)

Rising-newer :
    (after lo : ℕ) (es : List Entry) (hi : ℕ)
    → Rising lo es hi
    → Rising after (newer after es) (hi + after)
unfolding newer
Rising-newer after lo [] hi r = omega arith
Rising-newer after lo (e ∷ es) hi r = elim (Bool-cases (ltb after e.sequence)) [
  | inl new ↦ rw new (
    ground arith,
    rw (newer_all after e.sequence es hi (ground arith) r.1)
        (Rising-raise e.sequence es hi (hi + after) (omega arith) r.1),
  )
  | inr old ↦ rw old (Rising-newer after e.sequence es hi r.1)
]

-- of entries that rise, the first `limit` and those newer than the last of these are all
take-newer :
    (limit lo : ℕ) (es : List Entry) (hi : ℕ)
    → Rising lo es hi
    → take limit es ++ newer (last_sequence lo (take limit es)) es ≡ es
unfolding newer last_sequence
take-newer zero lo es hi r = newer_all lo lo es hi (omega arith) r
take-newer (suc limit) lo [] hi r = refl
take-newer (suc limit) lo (e ∷ es) hi r =
    ground (arith, last_sequence-ge limit e.sequence es hi, take-newer limit e.sequence es hi)

-- the newest entry is newer than `k` exactly when some entry is
newer-nil_iff :
    (k d lo : ℕ) (e : Entry) (es : List Entry) (hi : ℕ)
    → Rising lo (e ∷ es) hi
    → (newer k (e ∷ es) ≡ []) ↔ (last_sequence d (e ∷ es) ≤ k)
unfolding newer last_sequence
newer-nil_iff k d lo e [] hi r = (ground arith, ground arith)
newer-nil_iff k d lo e (x ∷ es) hi r =
    let ih = newer-nil_iff k d e.sequence x es hi r.1 in
    let top = last_sequence-ge_all x.sequence es hi r.1.1 in
    (ground (arith, ih.0), ground (arith, ih.1))

-- What a page leaves out, when its cursor is a real one.
pub select_pages :
    (after limit : ℕ) (b : LogBuffer)
    → Inv b
    → 0 < after
    → is_reset after b.entries ≡ false
    → let page = select after limit b.entries in
      newer after b.entries ≡ page ++ newer (last_sequence after page) b.entries
unfolding select
select_pages after limit b v pos live =
    let page = take limit (newer after b.entries) in
    let r = Rising-newer after 0 b.entries b.next_sequence v.rising in
    let last_ge = last_sequence-ge limit after (newer after b.entries) _ r in
    let whole = take-newer limit after (newer after b.entries) _ r in
    ground (arith, newer_drop after (last_sequence after page) b.entries)

more_iff :
    (d after lo : ℕ) (page es : List Entry) (hi : ℕ)
    → Rising lo es hi
    → (page ≡ [] → newer after es ≡ [])
    → (page ≢ [] → es ≢ [])
    → ((not (length page == 0) && ltb (last_sequence 0 page) (last_sequence d es)) ≡ true)
      ↔ (newer (last_sequence after page) es ≢ [])
unfolding last_sequence newer
more_iff d after lo [] es hi r e ne = ((λ h. cc), (λ h. absurd (h (e refl))))
more_iff d after lo (p ∷ ps) [] hi r e ne = absurd (ne (λ q. cc) refl)
more_iff d after lo (p ∷ ps) (x ∷ es) hi r e ne =
    let iff = newer-nil_iff (last_sequence p.sequence ps) d lo x es hi r in
    ((λ h q. ground (arith, iff.0 q)), (λ h. ground (arith, iff.1)))

newer-nil : (after : ℕ) → newer after [] ≡ []
unfolding newer
newer-nil after = refl

limit_of-pos : (limit_arg : Option ℤ) → 0 < limit_of limit_arg
unfolding limit_of
limit_of-pos limit_arg = ground arith

take-empty : (n : ℕ) → take {A = Entry} n [] ≡ []
take-empty zero = refl
take-empty (suc n) = refl

take-nil : (n : ℕ) (xs : List Entry) → 0 < n → take n xs ≡ [] → xs ≡ []
take-nil zero xs h e = absurd (omega arith)
take-nil (suc n) [] h e = refl
take-nil (suc n) (x ∷ xs) h e = cc

-- In a state with the invariant, for a cursor that is positive and not reset: the published entries
-- are a page, what is newer than the cursor is the page followed by what is newer than the page's
-- last entry, and `has_more` holds exactly when this rest is not empty.
pub snapshot_pages :
    (after_arg limit_arg : Option ℤ) (b : LogBuffer)
    → Inv b
    → 0 < after_of after_arg
    → is_reset (after_of after_arg) b.entries ≡ false
    → let page = select (after_of after_arg) (limit_of limit_arg) b.entries in
      let rest = newer (last_sequence (after_of after_arg) page) b.entries in
      let s = snapshot after_arg limit_arg b in
      (s.entries ≡ map publish page)
      × (newer (after_of after_arg) b.entries ≡ page ++ rest)
      × ((s.has_more ≡ true) ↔ (rest ≢ []))
unfolding snapshot
snapshot_pages after_arg limit_arg b v pos live =
    let after = after_of after_arg in
    let page = select after (limit_of limit_arg) b.entries in
    let is_page : page ≡ take (limit_of limit_arg) (newer after b.entries) =
      (unfold select in ground arith) in
    (
      refl,
      select_pages after (limit_of limit_arg) b v pos live,
      more_iff (b.next_sequence - 1) after 0 page b.entries b.next_sequence v.rising
          (λ e. take-nil (limit_of limit_arg) _ (limit_of-pos limit_arg) (sym is_page ∙ e))
          (λ ne e. ne (is_page ∙ rw (e, newer-nil after) (take-empty (limit_of limit_arg)))),
    )
