-- ===== src/CloudConfig/Laws.antt =====
-- What a merge of configurations gives, at one key and at any depth.
use mathlib.Core.Option.{some-injective}
use xiaozhi_desk_robot_serve.Prelude.{
  String, ◌≡◌, refl, ap, subst, ◌∙◌, true, false, Option, none, some, List, [], ◌∷◌, str_eq, eq_iff,
  arith, Bool-cases, inl, inr, Option-cases,
}
use xiaozhi_desk_robot_serve.CloudConfig.{
  Setting, scalar, object, Fields, empty, field, get_value, has_key, write, merge, merge_fields,
}

-- a dict has each key once, at any depth
unfoldable mutual
  pub WellFormed : Setting → Type 0
  WellFormed (scalar x) = Unit
  WellFormed (object d) = WellFormedFields d

  pub WellFormedFields : Fields → Type 0
  WellFormedFields empty = Unit
  WellFormedFields (field k v d) = (has_key k d ≡ false) × WellFormed v × WellFormedFields d

-- what a key holds after a merge: the override's value, merged with the default's where there is one
abbrev pub merged_at : Option Setting → Option Setting → Option Setting
merged_at w none = w
merged_at none (some v) = some v
merged_at (some w) (some v) = some (merge w v)

get_value-absent : (k : String) (d : Fields) → has_key k d ≡ false → get_value k d ≡ none
unfolding get_value has_key
get_value-absent k empty h = refl
get_value-absent k (field j v d) h = ground (arith, get_value-absent k d)

get_value-write_same :
    (j k : String) (v : Setting) (d : Fields)
    → str_eq j k ≡ true
    → get_value k (write j (λ w. merge w v) v d) ≡ merged_at (get_value k d) (some v)
unfolding get_value write
get_value-write_same j k v empty h = rw h refl
get_value-write_same j k v (field i w d) h = elim (Bool-cases (str_eq i k)) [
  | inl same ↦
      let here : str_eq i j ≡ true = ground (arith, eq_iff i j, eq_iff i k, eq_iff j k, h, same) in
      rw here (rw same refl)
  | inr other ↦
      let there : str_eq i j ≡ false =
        ground (arith, eq_iff i j, eq_iff i k, eq_iff j k, h, other) in
      rw there (rw other (get_value-write_same j k v d h))
]

get_value-write_other :
    (k j : String) (f : Setting → Setting) (v : Setting) (d : Fields)
    → str_eq k j ≡ false
    → get_value j (write k f v d) ≡ get_value j d
unfolding get_value write
get_value-write_other k j f v empty h = rw h refl
get_value-write_other k j f v (field i w d) h =
    ground (arith, eq_iff k j, eq_iff i k, eq_iff i j, get_value-write_other k j f v d h)

pub get_value-merge_fields :
    (k : String) (d c : Fields)
    → WellFormedFields c
    → get_value k (merge_fields d c) ≡ merged_at (get_value k d) (get_value k c)
unfolding merge_fields get_value WellFormedFields
get_value-merge_fields k d empty u = refl
get_value-merge_fields k d (field j v c) (fresh, _, u) =
    let d' = write j (λ w. merge w v) v d in
    let step : get_value k (merge_fields d' c) ≡ merged_at (get_value k d') (get_value k c) =
      get_value-merge_fields k d' c u in
    elim (Bool-cases (str_eq j k)) [
      | inl same ↦ rw same (
          step
          ∙ (rw
              (get_value-absent k c (subst (λ i. has_key i c ≡ false) ((eq_iff j k).0 same) fresh))
              (get_value-write_same j k v d same)))
      | inr other ↦ rw other (
          step
          ∙ ap (λ w. merged_at w (get_value k c))
              (get_value-write_other j k (λ w. merge w v) v d other))
    ]

-- d[p1][p2]..., where the path p1, p2, ... goes through objects
unfoldable pub get_path : List String → Option Setting → Option Setting
get_path [] v = v
get_path (k ∷ ks) none = none
get_path (k ∷ ks) (some (scalar x)) = none
get_path (k ∷ ks) (some (object d)) = get_path ks (get_value k d)

get_path-none : (ks : List String) → get_path ks none ≡ none
unfolding get_path
get_path-none [] = refl
get_path-none (k ∷ ks) = refl

get_value-WellFormed :
    (k : String) (d : Fields) (v : Setting)
    → WellFormedFields d
    → get_value k d ≡ some v
    → WellFormed v
unfolding get_value WellFormedFields
get_value-WellFormed k empty v u h = cc
get_value-WellFormed k (field j w d) v (_, w_ok, u) h = elim (Bool-cases (str_eq j k)) [
  | inl same ↦ subst WellFormed (some-injective w v (rw same at h)) w_ok
  | inr other ↦ get_value-WellFormed k d v u (rw other at h)
]

-- Whatever the defaults, a value of the overrides is found in the merged configuration where it is in the
-- overrides, at any depth, if no object of the overrides has a key twice.
pub get_path-merge :
    (ks : List String) (d c : Setting) (x : String)
    → WellFormed c
    → get_path ks (some c) ≡ some (scalar x)
    → get_path ks (some (merge d c)) ≡ some (scalar x)
unfolding get_path merge WellFormed
get_path-merge [] d (scalar y) x u h = h
get_path-merge [] d (object c) x u h = cc
get_path-merge (k ∷ ks) d (scalar y) x u h = cc
get_path-merge (k ∷ ks) (scalar y) (object c) x u h = h
get_path-merge (k ∷ ks) (object d) (object c) x u h = elim (Option-cases (get_value k c)) [
  | inl missing ↦
      (let clash : get_path ks none ≡ some (scalar x) = rw missing at h in
        let none_there = get_path-none ks in cc)
  | inr (v, found) ↦
      let inside : get_path ks (some v) ≡ some (scalar x) = rw found at h in
      let v_ok = get_value-WellFormed k c v u found in
      rw (get_value-merge_fields k d c u) (
        rw found (elim (Option-cases (get_value k d)) [
          | inl new ↦ rw new inside
          | inr (w, both) ↦ rw both (get_path-merge ks w v x v_ok inside)
        ]))
]
