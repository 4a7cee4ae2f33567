-- ===== src/Dict/Unique.antt =====
-- No key stands twice in a dictionary, whatever is written and removed.
use xiaozhi_desk_robot_serve.Prelude.{
  String, ◌≡◌, refl, true, false, [], ◌∷◌, arith, str_eq, eq_iff, if◌then◌else◌,
}
use xiaozhi_desk_robot_serve.Dict.{Dict, has, put, without}

abbrev pub Unique {ℓ} : {V : Type ℓ} → Dict V → Type 0
Unique [] = Unit
Unique ((k, v) ∷ d) = (has k d ≡ false) × Unique d

module _ {ℓ} {V : Type ℓ} where
  pub has-put :
      (k j : String) (v : V) (d : Dict V)
      → has j (put k v d) ≡ (if str_eq k j then true else has j d)
  unfolding has put
  has-put k j v [] = refl
  has-put k j v ((i, w) ∷ d) = ground (arith, eq_iff k j, eq_iff i k, eq_iff i j, has-put k j v d)

  pub has-without :
      (k j : String) (d : Dict V) → has j (without k d) ≡ (if str_eq k j then false else has j d)
  unfolding has without
  has-without k j [] = ground arith
  has-without k j ((i, w) ∷ d) =
      ground (arith, eq_iff k j, eq_iff i k, eq_iff i j, has-without k j d)

  pub Unique-put : (k : String) (v : V) (d : Dict V) → Unique d → Unique (put k v d)
  unfolding put has
  Unique-put k v [] u = ground arith
  Unique-put k v ((i, w) ∷ d) u =
      ground (arith, Unique-put k v d, has-put k i v d, eq_iff k i, eq_iff i k)

  pub Unique-without : (k : String) (d : Dict V) → Unique d → Unique (without k d)
  unfolding without
  Unique-without k [] u = ground arith
  Unique-without k ((i, w) ∷ d) u =
      ground (arith, Unique-without k d, has-without k i d, eq_iff k i, eq_iff i k)

  pub without-absent : (k : String) (d : Dict V) → has k d ≡ false → without k d ≡ d
  unfolding has without
  without-absent k [] h = refl
  without-absent k ((i, w) ∷ d) h = ground (arith, without-absent k d)
