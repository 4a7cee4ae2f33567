-- ===== src/Cache/Runs.antt =====
-- Sequences of calls of the cache manager of core/utils/cache/manager.py.
use xiaozhi_desk_robot_serve.Prelude.{
  ℕ, String, ◌≡◌, refl, false, Option, none, some, List, [], ◌∷◌, ◌⊎◌, inl, inr, length, arith,
  eq_iff, Bool-cases,
}
use xiaozhi_desk_robot_serve.Dict.{Dict, lookup, without}
use xiaozhi_desk_robot_serve.Dict.Laws.{lookup-put, has_lem}
use xiaozhi_desk_robot_serve.Dict.Size.{length-without-le}
use xiaozhi_desk_robot_serve.Dict.Unique.{Unique, Unique-without}
use xiaozhi_desk_robot_serve.Cache.Types.{
  CacheEntry, CacheType, CacheConfig, for_type, new_entry, touch,
}
use xiaozhi_desk_robot_serve.Cache.Manager.{
  Manager, over_limit, config_of, get_or_create, entries, del_first, store, del_all, set_entry,
  renew, cache_name, cleanup_expired, maybe_cleanup, keys_expired, effective_ttl, set, get, found,
  hit, miss, delete, clear, keys_matching, invalidate_pattern,
}
use xiaozhi_desk_robot_serve.Cache.Bounds.{
  IsBounded, put-IsBounded, over_limit_mono, over_limit-pred, over_limit-zero, length-del_first-le,
  length-store-le, length-renew-le, length-del_all-le, Unique-del_first, Unique-store, Unique-renew,
  Unique-del_all,
}

-- One call of a public method.
pub data Call (A : Type 0) : Type 0 where
  set_call : CacheType → String → A → Option ℕ → String → Call A
  get_call delete_call invalidate_call : CacheType → String → String → Call A
  clear_call : CacheType → String → Call A

module _ {A : Type 0} where
  unfoldable pub step : ℕ → ℕ → Call A → Manager A → Manager A
  step second now (set_call t key v ttl namespace) m = set second now t key v ttl namespace m
  step second now (get_call t key namespace) m = (get now t key namespace m).0
  step second now (delete_call t key namespace) m = (delete t key namespace m).0
  step second now (invalidate_call t pattern namespace) m =
      (invalidate_pattern t pattern namespace m).0
  step second now (clear_call t namespace) m = clear t namespace m

  unfoldable pub run : ℕ → List (ℕ × Call A) → Manager A → Manager A
  unfolding step
  run second [] m = m
  run second ((now, c) ∷ calls) m = run second calls (step second now c m)

  -- What the invariant says of one name: none of the two, or both.
  pub bounded_cases :
      (m : Manager A) (name : String)
      → IsBounded m
      → ((lookup name m.configs ≡ none) × (lookup name m.caches ≡ none))
        ⊎ ((c : CacheConfig) × (d : Dict (CacheEntry A)) × (lookup name m.configs ≡ some c)
            × (lookup name m.caches ≡ some d)
            × (over_limit c.max_size (length d) ≡ false)
            × Unique d)
  bounded_cases m name b = go (lookup name m.configs) refl (lookup name m.caches) refl
    where
      go :
          (oc : Option CacheConfig)
          → lookup name m.configs ≡ oc
          → (od : Option (Dict (CacheEntry A))) → lookup name m.caches ≡ od
          → ((lookup name m.configs ≡ none) × (lookup name m.caches ≡ none))
            ⊎ ((c : CacheConfig) × (d : Dict (CacheEntry A)) × (lookup name m.configs ≡ some c)
                × (lookup name m.caches ≡ some d)
                × (over_limit c.max_size (length d) ≡ false)
                × Unique d)
      go none p none q = inl (p, q)
      go none p (some d) q = absurd (ground (arith, b name))
      go (some c) p none q = absurd (ground (arith, b name))
      go (some c) p (some d) q = inr (c, d, p, q, ground (arith, b name), ground (arith, b name))

  pub set_entry-IsBounded :
      (m : Manager A) (name key : String) (c : CacheConfig) (e : CacheEntry A)
      → lookup name m.configs ≡ some c
      → over_limit c.max_size (length (entries name m)) ≡ false
      → Unique (entries name m)
      → IsBounded m
      → IsBounded (set_entry c name key e m)
  unfolding set_entry
  set_entry-IsBounded m name key c e hc fits u b =
      elim (Bool-cases (over_limit c.max_size (length (store c key e (entries name m))))) [
        | inl over ↦ rw over (
            put-IsBounded m name c (del_first (store c key e (entries name m))) hc
              (over_limit_mono c.max_size _ _ (length-del_first-le (store c key e (entries name m)))
                (over_limit-pred c.max_size _ _ (length-store-le c key e (entries name m)) fits))
              (Unique-del_first _ (Unique-store c key e (entries name m) u)) b)
        | inr room ↦ rw room (
            put-IsBounded m name c (store c key e (entries name m)) hc room
              (Unique-store c key e (entries name m) u) b)
      ]

  -- the state after `_get_or_create_cache`: the name has the configuration that `set` goes on with
  pub created :
      (second : ℕ) (t : CacheType) (m : Manager A) (name : String)
      → IsBounded m
      → let m' = get_or_create name (config_of second t name m) m in
        IsBounded m'
        × (lookup name m'.configs ≡ some (config_of second t name m))
        × (over_limit (config_of second t name m).max_size (length (entries name m')) ≡ false)
        × Unique (entries name m')
  unfolding get_or_create config_of entries
  created second t m name b = elim (bounded_cases m name b) [
    | inl (p, q) ↦
        let c = for_type second t in
        (
          (λ j. ground (
            arith,
            has_lem name m.caches,
            lookup-put name j [] m.caches,
            lookup-put name j c m.configs,
            eq_iff name j,
            b j,
            over_limit-zero c.max_size,
          )),
          ground (arith, has_lem name m.caches, lookup-put name name c m.configs, eq_iff name name),
          ground (
            arith,
            has_lem name m.caches,
            lookup-put name name [] m.caches,
            eq_iff name name,
            over_limit-zero c.max_size,
          ),
          ground (arith, has_lem name m.caches, lookup-put name name [] m.caches, eq_iff name name),
        )
    | inr (c, d, p, q, f, u) ↦ (
      (λ j. ground (arith, has_lem name m.caches, b j)),
      ground (arith, has_lem name m.caches),
      ground (arith, has_lem name m.caches),
      ground (arith, has_lem name m.caches),
    )
  ]

  cleanup_expired-IsBounded :
      (now : ℕ) (name : String) (m : Manager A)
      → IsBounded m
      → IsBounded (cleanup_expired now name m).0
  unfolding cleanup_expired entries
  cleanup_expired-IsBounded now name m b = elim (bounded_cases m name b) [
    | inl (p, q) ↦ λ j. ground (arith, has_lem name m.caches, b j)
    | inr (c, d, p, q, f, u) ↦ λ j. ground (
      arith,
      has_lem name m.caches,
      put-IsBounded m name c (del_all (keys_expired now d) d) p
          (over_limit_mono c.max_size _ _ (length-del_all-le (keys_expired now d) d) f)
          (Unique-del_all (keys_expired now d) d u) b j,
      b j,
    )
  ]

  maybe_cleanup-IsBounded :
      (now : ℕ) (name : String) (m : Manager A) → IsBounded m → IsBounded (maybe_cleanup now name m)
  unfolding maybe_cleanup
  maybe_cleanup-IsBounded now name m b j =
      ground (arith, b j, cleanup_expired-IsBounded now name (record m { last_cleanup = now }) b j)

  pub set-IsBounded :
      (second now : ℕ) (t : CacheType) (key : String) (v : A) (ttl : Option ℕ) (namespace : String)
      (m : Manager A)
      → IsBounded m
      → IsBounded (set second now t key v ttl namespace m)
  unfolding set
  set-IsBounded second now t key v ttl namespace m b =
      let name = cache_name t namespace in
      let c = config_of second t name m in
      let (b', hc, fits, u) = created second t m name b in
      maybe_cleanup-IsBounded now name _ (
        set_entry-IsBounded (get_or_create name c m) name key c
          (new_entry v now (effective_ttl ttl c.ttl)) hc fits u b')

  found-IsBounded :
      (now : ℕ) (name key : String) (c : CacheConfig) (d : Dict (CacheEntry A)) (m : Manager A)
      (o : Option (CacheEntry A))
      → lookup name m.configs ≡ some c
      → lookup name m.caches ≡ some d
      → over_limit c.max_size (length d) ≡ false
      → Unique d
      → lookup key d ≡ o
      → IsBounded m
      → IsBounded (found now c name key o m).0
  unfolding found hit miss entries
  found-IsBounded now name key c d m none p q f u h b = b
  found-IsBounded now name key c d m (some e) p q f u h b = λ j. ground (
    arith,
    has_lem key d,
    put-IsBounded m name c (without key d) p
        (over_limit_mono c.max_size _ _ (length-without-le key d) f) (Unique-without key d u) b j,
    put-IsBounded m name c (renew c key (touch now e) d) p
        (over_limit_mono c.max_size _ _
          (length-renew-le c key (touch now e) d (ground (arith, has_lem key d))) f)
        (Unique-renew c key (touch now e) d u) b j,
  )

  pub get-IsBounded :
      (now : ℕ) (t : CacheType) (key namespace : String) (m : Manager A)
      → IsBounded m
      → IsBounded (get now t key namespace m).0
  unfolding get entries miss
  get-IsBounded now t key namespace m b =
      let name = cache_name t namespace in
      elim (bounded_cases m name b) [
        | inl (p, q) ↦ λ j. ground (arith, b j)
        | inr (c, d, p, q, f, u) ↦ λ j. ground (
          arith,
          has_lem name m.caches,
          b j,
          found-IsBounded now name key c d m (lookup key d) p q f u refl b j,
        )
      ]

  pub delete-IsBounded :
      (t : CacheType) (key namespace : String) (m : Manager A)
      → IsBounded m
      → IsBounded (delete t key namespace m).0
  unfolding delete entries
  delete-IsBounded t key namespace m b =
      let name = cache_name t namespace in
      elim (bounded_cases m name b) [
        | inl (p, q) ↦ λ j. ground (arith, has_lem name m.caches, b j)
        | inr (c, d, p, q, f, u) ↦ λ j. ground (
          arith,
          has_lem name m.caches,
          put-IsBounded m name c (without key d) p
              (over_limit_mono c.max_size _ _ (length-without-le key d) f) (Unique-without key d u)
              b j,
          b j,
        )
      ]

  pub clear-IsBounded :
      (t : CacheType) (namespace : String) (m : Manager A)
      → IsBounded m
      → IsBounded (clear t namespace m)
  unfolding clear
  clear-IsBounded t namespace m b =
      let name = cache_name t namespace in
      elim (bounded_cases m name b) [
        | inl (p, q) ↦ λ j. ground (arith, has_lem name m.caches, b j)
        | inr (c, d, p, q, f, u) ↦ λ j. ground (
          arith,
          has_lem name m.caches,
          put-IsBounded m name c [] p (over_limit-zero c.max_size) tt b j,
          b j,
        )
      ]

  invalidate_pattern-IsBounded :
      (t : CacheType) (pattern namespace : String) (m : Manager A)
      → IsBounded m
      → IsBounded (invalidate_pattern t pattern namespace m).0
  unfolding invalidate_pattern entries
  invalidate_pattern-IsBounded t pattern namespace m b =
      let name = cache_name t namespace in
      elim (bounded_cases m name b) [
        | inl (p, q) ↦ λ j. ground (arith, has_lem name m.caches, b j)
        | inr (c, d, p, q, f, u) ↦ λ j. ground (
          arith,
          has_lem name m.caches,
          put-IsBounded m name c (del_all (keys_matching pattern d) d) p
              (over_limit_mono c.max_size _ _ (length-del_all-le (keys_matching pattern d) d) f)
              (Unique-del_all (keys_matching pattern d) d u) b j,
          b j,
        )
      ]

  pub step-IsBounded :
      (second now : ℕ) (c : Call A) (m : Manager A) → IsBounded m → IsBounded (step second now c m)
  unfolding step
  step-IsBounded second now (set_call t key v ttl namespace) m b =
      set-IsBounded second now t key v ttl namespace m b
  step-IsBounded second now (get_call t key namespace) m b = get-IsBounded now t key namespace m b
  step-IsBounded second now (delete_call t key namespace) m b = delete-IsBounded t key namespace m b
  step-IsBounded second now (invalidate_call t pattern namespace) m b =
      invalidate_pattern-IsBounded t pattern namespace m b
  step-IsBounded second now (clear_call t namespace) m b = clear-IsBounded t namespace m b

  -- From a bounded manager, any calls at any times lead to a bounded one: each name has both a
  -- configuration and a cache or neither, no cache holds more than its `max_size`, and no key stands
  -- twice in a cache.
  pub run-IsBounded :
      (second : ℕ) (calls : List (ℕ × Call A)) (m : Manager A)
      → IsBounded m
      → IsBounded (run second calls m)
  unfolding run
  run-IsBounded second [] m b = b
  run-IsBounded second ((now, c) ∷ calls) m b =
      run-IsBounded second calls (step second now c m) (step-IsBounded second now c m b)
