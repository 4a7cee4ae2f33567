-- ===== src/Memory/Forgets.antt =====
-- What `forget` and `delete_entry` do to the entries.
use xiaozhi_desk_robot_serve.Text.Words.{occurs}
use xiaozhi_desk_robot_serve.Prelude.{
  ap, sym, map, ℕ, zero, suc, String, ◌≡◌, refl, Bool, true, false, ◌&&◌, some, List, [], ◌∷◌,
  arith, length, Bool-cases, inl, inr, if◌then◌else◌, str_eq,
}
use xiaozhi_desk_robot_serve.Memory.Entries.{Entry}
use xiaozhi_desk_robot_serve.Memory.Search.{normalize_for_search}
use xiaozhi_desk_robot_serve.Memory.Store.{
  Settings, returned, deactivate, mutate, is_positive, is_forgotten, forget_all, forget,
}

-- what the user can still find: the active entries whose content has the query
unfoldable pub found_by : Settings → String → List Entry → List Entry
found_by s query [] = []
found_by s query (e ∷ es) =
    let rest = found_by s query es in
    if e.active
      && occurs (normalize_for_search s.rules query) (normalize_for_search s.rules e.content)
    then e ∷ rest
    else rest

-- an entry that the query finds becomes inactive at `now`, and each other one stays
abbrev pub retired : Settings → String → String → Entry → Entry
retired s now query e =
    if e.active
      && occurs (normalize_for_search s.rules query) (normalize_for_search s.rules e.content)
    then record e { active = false; updated_at = now }
    else e

-- where the query finds nothing, every entry stays
retired_none :
    (s : Settings) (now query : String) (es : List Entry)
    → found_by s query es ≡ []
    → map (retired s now query) es ≡ es
unfolding found_by
retired_none s now query [] h = refl
retired_none s now query (e ∷ es) h =
    elim (Bool-cases (
      e.active
      && occurs (normalize_for_search s.rules query) (normalize_for_search s.rules e.content))) [
        | inl hit ↦ absurd (one_found e (found_by s query es) (rw hit at h))
        | inr miss ↦
            let rest : found_by s query es ≡ [] = rw miss at h in
            rw miss (ap (λ l. e ∷ l) (retired_none s now query es rest))
      ]
  where
    one_found : (e : Entry) (xs : List Entry) → e ∷ xs ≡ [] → ⊥
    one_found e xs h = cc

nothing_found {ℓ} : {A : Type ℓ} (xs : List A) → 0 ≡ length xs → xs ≡ []
nothing_found [] h = refl
nothing_found (x ∷ xs) h = absurd (omega arith)

module _ (s : Settings) (now new_id query : String) where
  abbrev normalized : String
  normalized = normalize_for_search s.rules query

  abbrev after : List Entry → List Entry
  after es = (forget_all s now new_id normalized es).1

  forget_all-found : (es : List Entry) → found_by s query (after es) ≡ []
  unfolding forget_all found_by is_forgotten deactivate
  forget_all-found [] = refl
  forget_all-found (e ∷ es) =
      elim (Bool-cases (e.active && occurs normalized (normalize_for_search s.rules e.content))) [
        | inl hit ↦ rw (hit, found_by) (forget_all-found es)
        | inr miss ↦ rw (miss, found_by) (rw miss (forget_all-found es))
      ]

  forget_all-count :
      (es : List Entry) → (forget_all s now new_id normalized es).0 ≡ length (found_by s query es)
  unfolding forget_all found_by is_forgotten
  forget_all-count [] = refl
  forget_all-count (e ∷ es) = elim (Bool-cases (is_forgotten s now new_id normalized e)) [
    | inl hit ↦ rw hit (omega (arith, forget_all-count es))
    | inr miss ↦ rw miss (forget_all-count es)
  ]

  forget_one-retires :
      (b : Bool) (n : ℕ) (e : Entry) (fs gs : List Entry)
      → fs ≡ gs
      → (if◌then◌else◌ {A = ℕ × List Entry} b (suc n, deactivate now e ∷ fs) (n, e ∷ fs)).1
        ≡ (if b then record e { active = false; updated_at = now } else e) ∷ gs
  unfolding deactivate
  forget_one-retires true n e fs gs h =
      ap (λ l. record e { active = false; updated_at = now } ∷ l) h
  forget_one-retires false n e fs gs h = ap (λ l. e ∷ l) h

  forget_all-retires : (es : List Entry) → after es ≡ map (retired s now query) es
  unfolding forget_all is_forgotten
  forget_all-retires [] = refl
  forget_all-retires (e ∷ es) =
      forget_one-retires (e.active && occurs normalized (normalize_for_search s.rules e.content))
        (forget_all s now new_id normalized es).0 e (after es) (map (retired s now query) es)
        (forget_all-retires es)

  mutate_forgets :
      (es : List Entry) (n : ℕ) (fs : List Entry)
      → n ≡ length (found_by s query es)
      → found_by s query fs ≡ []
      → fs ≡ map (retired s now query) es
      → let (gs, r) = mutate true is_positive es (some (n, fs)) in
        (r ≡ returned (length (found_by s query es)))
        × (found_by s query gs ≡ [])
        × (gs ≡ map (retired s now query) es)
  unfolding mutate
  mutate_forgets es zero fs h k e =
      let none_found = nothing_found (found_by s query es) h in
      (ap returned h, none_found, sym (retired_none s now query es none_found))
  mutate_forgets es (suc n) fs h k e = (ap returned h, k, e)

-- Where the file can be written, a query that has a word makes exactly the active entries whose content
-- has the query inactive at the present time, leaves every other entry as it is, all in their places, and
-- returns how many were made inactive: no active entry is found by the query any more.
pub forget_lem :
    (s : Settings) (now new_id query : String) (es : List Entry)
    → str_eq (normalize_for_search s.rules query) "" ≡ false
    → let (gs, r) = forget s now new_id true query es in
      (r ≡ returned (length (found_by s query es)))
      × (found_by s query gs ≡ [])
      × (gs ≡ map (retired s now query) es)
unfolding forget
forget_lem s now new_id query es asks =
    let normalized = normalize_for_search s.rules query in
    let (n, fs) = forget_all s now new_id normalized es in
    rw asks (
      mutate_forgets s now new_id query es (forget_all s now new_id normalized es).0
        (forget_all s now new_id normalized es).1 (forget_all-count s now new_id query es)
        (forget_all-found s now new_id query es) (forget_all-retires s now new_id query es))
