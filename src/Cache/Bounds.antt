-- ===== src/Cache/Bounds.antt =====
-- The size limit of core/utils/cache/manager.py: no call leaves a cache over its `max_size`.
use xiaozhi_desk_robot_serve.Prelude.{
  ℕ, suc, ◌-◌, ◌≤◌, String, ◌≡◌, true, false, Option, none, some, List, [], ◌∷◌, length, arith,
  eq_iff,
}
use xiaozhi_desk_robot_serve.Dict.{Dict, lookup, has, put, without}
use xiaozhi_desk_robot_serve.Dict.Laws.{lookup-put}
use xiaozhi_desk_robot_serve.Dict.Size.{length-put, length-without-le, length-without-has}
use xiaozhi_desk_robot_serve.Dict.Unique.{Unique, Unique-put, Unique-without}
use xiaozhi_desk_robot_serve.Cache.Types.{CacheEntry, CacheConfig}
use xiaozhi_desk_robot_serve.Cache.Manager.{Manager, over_limit, del_first, store, del_all, renew}

-- The configuration and the cache of one name: both are there or none is, the cache
-- fits, and no key stands twice in it.
abbrev pub Fits : {A : Type 0} → Option CacheConfig → Option (Dict (CacheEntry A)) → Type 0
Fits none none = Unit
Fits none (some d) = ⊥
Fits (some c) none = ⊥
Fits (some c) (some d) = (over_limit c.max_size (length d) ≡ false) × Unique d

abbrev pub IsBounded : {A : Type 0} → Manager A → Type 0
IsBounded m = (name : String) → Fits (lookup name m.configs) (lookup name m.caches)

pub over_limit_mono :
    (mx : Option ℕ) (k n : ℕ) → k ≤ n → over_limit mx n ≡ false → over_limit mx k ≡ false
unfolding over_limit
over_limit_mono mx k n le h = ground arith

-- one entry more than fits, less one
pub over_limit-pred :
    (mx : Option ℕ) (k n : ℕ) → k ≤ suc n → over_limit mx n ≡ false → over_limit mx (k - 1) ≡ false
unfolding over_limit
over_limit-pred mx k n le h = ground arith

pub over_limit-zero : (mx : Option ℕ) → over_limit mx 0 ≡ false
unfolding over_limit
over_limit-zero mx = ground arith

module _ {A : Type 0} where
  pub length-del_first-le : (d : Dict (CacheEntry A)) → length (del_first d) ≤ length d - 1
  unfolding del_first without
  length-del_first-le [] = omega arith
  length-del_first-le ((k, e) ∷ d) = ground (arith, eq_iff k k, length-without-le k d)

  pub length-store-le :
      (c : CacheConfig) (key : String) (e : CacheEntry A) (d : Dict (CacheEntry A))
      → length (store c key e d) ≤ suc (length d)
  unfolding store
  length-store-le c key e d =
      ground (arith, length-put key e d, length-put key e (without key d), length-without-le key d)

  pub length-renew-le :
      (c : CacheConfig) (key : String) (e : CacheEntry A) (d : Dict (CacheEntry A))
      → has key d ≡ true
      → length (renew c key e d) ≤ length d
  unfolding renew
  length-renew-le c key e d h =
      ground (arith, length-put key e d, length-put key e (without key d), length-without-has key d)

  pub length-del_all-le :
      (ks : List String) (d : Dict (CacheEntry A)) → length (del_all ks d) ≤ length d
  unfolding del_all
  length-del_all-le [] d = omega arith
  length-del_all-le (k ∷ ks) d =
      omega (arith, length-del_all-le ks (without k d), length-without-le k d)

  pub Unique-del_first : (d : Dict (CacheEntry A)) → Unique d → Unique (del_first d)
  unfolding del_first
  Unique-del_first [] u = u
  Unique-del_first ((k, e) ∷ d) u = Unique-without k ((k, e) ∷ d) u

  pub Unique-store :
      (c : CacheConfig) (key : String) (e : CacheEntry A) (d : Dict (CacheEntry A))
      → Unique d
      → Unique (store c key e d)
  unfolding store
  Unique-store c key e d u =
      ground (arith, Unique-put key e d, Unique-put key e (without key d), Unique-without key d)

  pub Unique-renew :
      (c : CacheConfig) (key : String) (e : CacheEntry A) (d : Dict (CacheEntry A))
      → Unique d
      → Unique (renew c key e d)
  unfolding renew
  Unique-renew c key e d u =
      ground (arith, Unique-put key e d, Unique-put key e (without key d), Unique-without key d)

  pub Unique-del_all :
      (ks : List String) (d : Dict (CacheEntry A)) → Unique d → Unique (del_all ks d)
  unfolding del_all
  Unique-del_all [] d u = u
  Unique-del_all (k ∷ ks) d u = Unique-del_all ks (without k d) (Unique-without k d u)

  -- a fitting dictionary in place of the cache of one name
  pub put-IsBounded :
      (m : Manager A) (name : String) (c : CacheConfig) (d : Dict (CacheEntry A))
      → lookup name m.configs ≡ some c
      → over_limit c.max_size (length d) ≡ false
      → Unique d
      → IsBounded m
      → IsBounded (record m { caches = put name d m.caches })
  put-IsBounded m name c d hc fits u b j =
      rw (lookup-put name j d m.caches) (ground (arith, eq_iff name j, b j))
