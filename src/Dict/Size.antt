-- ===== src/Dict/Size.antt =====
-- The number of entries of a dictionary after each change.
use xiaozhi_desk_robot_serve.Prelude.{
  String, suc, ◌≤◌, ◌≡◌, refl, true, [], ◌∷◌, arith, length, if◌then◌else◌,
}
use xiaozhi_desk_robot_serve.Dict.{Dict, has, put, without}

module _ {ℓ} {V : Type ℓ} where
  pub length-put :
      (k : String) (v : V) (d : Dict V)
      → length (put k v d) ≡ (if has k d then length d else suc (length d))
  unfolding put has
  length-put k v [] = refl
  length-put k v ((i, w) ∷ d) = ground (arith, length-put k v d)

  pub length-without-le : (k : String) (d : Dict V) → length (without k d) ≤ length d
  unfolding without
  length-without-le k [] = omega arith
  length-without-le k ((i, w) ∷ d) = ground (arith, length-without-le k d)

  pub length-without-has :
      (k : String) (d : Dict V) → has k d ≡ true → suc (length (without k d)) ≤ length d
  unfolding without has
  length-without-has k [] h = ground arith
  length-without-has k ((i, w) ∷ d) h =
      ground (arith, length-without-le k d, length-without-has k d)
