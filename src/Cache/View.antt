-- ===== src/Cache/View.antt =====
-- What a caller can see of a cache of core/utils/cache: for each cache and key the value that has
-- not expired. The methods are compared with a plain map through it.
use xiaozhi_desk_robot_serve.Prelude.{
  ℕ, ◌≤◌, ◌<◌, String, Bool, ◌≡◌, refl, true, false, Option, none, some, List, [], ◌∷◌, inl, inr,
  length, arith, eq_iff, str_eq, if◌then◌else◌, Bool-cases, Option-cases, ◌&&◌,
}
use xiaozhi_desk_robot_serve.Dict.{Dict, lookup, has, put, without}
use xiaozhi_desk_robot_serve.Dict.Laws.{lookup-put, lookup-without}
use xiaozhi_desk_robot_serve.Dict.Size.{length-put, length-without-has}
use xiaozhi_desk_robot_serve.Dict.Unique.{Unique, has-without, without-absent}
use xiaozhi_desk_robot_serve.Cache.Types.{CacheEntry, CacheConfig, touch, is_expired}
use xiaozhi_desk_robot_serve.Cache.Manager.{
  Manager, over_limit, entries, del_first, store, del_all, contains, renew, keys_expired,
  keys_matching,
}

abbrev pub live : {A : Type 0} → ℕ → Option (CacheEntry A) → Option A
live now none = none
live now (some e) = if is_expired now e then none else some e.value

-- the value of `key` in the cache `name`, as a reader at the time `now` gets it
unfoldable pub view : {A : Type 0} → ℕ → String → String → Manager A → Option A
unfolding entries
view now name key m = live now (lookup key (entries name m))

-- key in keys
unfoldable pub mem : String → List String → Bool
mem k [] = false
mem k (j ∷ ks) = if str_eq j k then true else mem k ks

module _ {A : Type 0} where
  pub lookup-del_all :
      (ks : List String) (j : String) (d : Dict (CacheEntry A))
      → lookup j (del_all ks d) ≡ (if mem j ks then none else lookup j d)
  unfolding del_all mem
  lookup-del_all [] j d = refl
  lookup-del_all (k ∷ ks) j d =
      ground (arith, lookup-del_all ks j (without k d), lookup-without k j d)

  abbrev expired_at : ℕ → Option (CacheEntry A) → Bool
  expired_at now none = false
  expired_at now (some e) = is_expired now e

  mem-keys_expired-has :
      (now : ℕ) (j : String) (d : Dict (CacheEntry A))
      → has j d ≡ false
      → mem j (keys_expired now d) ≡ false
  unfolding mem keys_expired has
  mem-keys_expired-has now j [] h = refl
  mem-keys_expired-has now j ((k, e) ∷ d) h = ground (arith, mem-keys_expired-has now j d)

  pub mem-keys_expired :
      (now : ℕ) (j : String) (d : Dict (CacheEntry A))
      → Unique d
      → mem j (keys_expired now d) ≡ expired_at now (lookup j d)
  unfolding mem keys_expired lookup
  mem-keys_expired now j [] u = refl
  mem-keys_expired now j ((k, e) ∷ d) u =
      ground (arith, eq_iff k j, mem-keys_expired now j d, mem-keys_expired-has now k d)

  pub mem-keys_matching :
      (pattern j : String) (d : Dict (CacheEntry A))
      → mem j (keys_matching pattern d) ≡ (has j d && contains pattern j)
  unfolding mem keys_matching has
  mem-keys_matching pattern j [] = refl
  mem-keys_matching pattern j ((k, e) ∷ d) =
      ground (arith, eq_iff k j, mem-keys_matching pattern j d)

  -- what has expired stays expired
  pub expired-later :
      (now later : ℕ) (e : CacheEntry A)
      → now ≤ later
      → is_expired now e ≡ true
      → is_expired later e ≡ true
  unfolding is_expired
  expired-later now later e h x = ground arith

  pub is_expired-touch :
      (now later : ℕ) (e : CacheEntry A) → is_expired later (touch now e) ≡ is_expired later e
  unfolding is_expired touch
  is_expired-touch now later e = refl

  pub value-touch : (now : ℕ) (e : CacheEntry A) → (touch now e).value ≡ e.value
  unfolding touch
  value-touch now e = refl

  -- removing what has expired at `now` shows to no later reader
  pub live-cleanup :
      (now later : ℕ) (j : String) (d : Dict (CacheEntry A))
      → Unique d
      → now ≤ later
      → live later (lookup j (del_all (keys_expired now d) d)) ≡ live later (lookup j d)
  live-cleanup now later j d u h = elim (Option-cases (lookup j d)) [
    | inl p ↦ ground (arith, lookup-del_all (keys_expired now d) j d)
    | inr (e, p) ↦ ground (
      arith,
      lookup-del_all (keys_expired now d) j d,
      mem-keys_expired now j d,
      expired-later now later e,
    )
  ]

  pub lookup-store :
      (c : CacheConfig) (key j : String) (e : CacheEntry A) (d : Dict (CacheEntry A))
      → lookup j (store c key e d) ≡ (if str_eq key j then some e else lookup j d)
  unfolding store
  lookup-store c key j e d =
      ground
        (arith, lookup-put key j e d, lookup-put key j e (without key d), lookup-without key j d)

  pub lookup-renew :
      (c : CacheConfig) (key j : String) (e : CacheEntry A) (d : Dict (CacheEntry A))
      → lookup j (renew c key e d) ≡ (if str_eq key j then some e else lookup j d)
  unfolding renew
  lookup-renew c key j e d =
      ground
        (arith, lookup-put key j e d, lookup-put key j e (without key d), lookup-without key j d)

  -- an entry that is written to a new key of a cache that is not empty is not the oldest one
  lookup-del_first-put :
      (key : String) (e : CacheEntry A) (d : Dict (CacheEntry A))
      → has key d ≡ false
      → 0 < length d
      → lookup key (del_first (put key e d)) ≡ some e
  unfolding del_first put has lookup
  lookup-del_first-put key e [] h pos = absurd (omega arith)
  lookup-del_first-put key e ((k, x) ∷ d) h pos = ground (
    arith,
    lookup-without k key ((k, x) ∷ put key e d),
    eq_iff k key,
    lookup-put key key e d,
    eq_iff key key,
  )

  -- what a write leaves over the limit is a new key of a cache that was full
  pub lookup-del_first-store :
      (c : CacheConfig) (key : String) (e : CacheEntry A) (d : Dict (CacheEntry A))
      → over_limit c.max_size (length d) ≡ false
      → over_limit c.max_size (length (store c key e d)) ≡ true
      → lookup key (del_first (store c key e d)) ≡ some e
  unfolding store over_limit
  lookup-del_first-store c key e d f over = elim (Bool-cases (has key d)) [
    | inl old ↦ absurd (
        ground (
          arith,
          length-put key e d,
          length-put key e (without key d),
          length-without-has key d,
          has-without key key d,
          eq_iff key key,
        ))
    | inr new ↦
        ground (arith, without-absent key d, length-put key e d, lookup-del_first-put key e d)
  ]
