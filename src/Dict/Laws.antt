-- ===== src/Dict/Laws.antt =====
-- What a lookup returns after each change of a dictionary.
use xiaozhi_desk_robot_serve.Prelude.{
  String, ◌≡◌, refl, Bool, true, false, Option, none, some, [], ◌∷◌, arith, str_eq, eq_iff,
  if◌then◌else◌,
}
use xiaozhi_desk_robot_serve.Dict.{Dict, lookup, has, put, without}

abbrev pub is_some {ℓ} : {V : Type ℓ} → Option V → Bool
is_some none = false
is_some (some v) = true

module _ {ℓ} {V : Type ℓ} where
  pub lookup-put :
      (k j : String) (v : V) (d : Dict V)
      → lookup j (put k v d) ≡ (if str_eq k j then some v else lookup j d)
  unfolding lookup put
  lookup-put k j v [] = refl
  lookup-put k j v ((i, w) ∷ d) =
      ground (arith, eq_iff k j, eq_iff i k, eq_iff i j, lookup-put k j v d)

  pub lookup-without :
      (k j : String) (d : Dict V)
      → lookup j (without k d) ≡ (if str_eq k j then none else lookup j d)
  unfolding lookup without
  lookup-without k j [] = ground arith
  lookup-without k j ((i, w) ∷ d) =
      ground (arith, eq_iff k j, eq_iff i k, eq_iff i j, lookup-without k j d)

  -- `k in d` is whether `d.get(k)` finds an entry.
  pub has_lem : (k : String) (d : Dict V) → has k d ≡ is_some (lookup k d)
  unfolding lookup has
  has_lem k [] = refl
  has_lem k ((i, w) ∷ d) = ground (arith, has_lem k d)

pub ruleset dict_laws = (lookup-put, lookup-without)
