-- ===== src/Cache/Refines.antt =====
-- The methods of core/utils/cache/manager.py against a plain map: what each does to the view.
use xiaozhi_desk_robot_serve.Prelude.{
  ℕ, suc, ◌≤◌, String, ◌≡◌, ◌≢◌, refl, false, Option, none, some, [], ◌⊎◌, inl, inr, length, arith,
  eq_iff, str_eq, if◌then◌else◌, ◌&&◌, ◌∙◌,
}
use xiaozhi_desk_robot_serve.Dict.{Dict, lookup, has, put, without}
use xiaozhi_desk_robot_serve.Dict.Laws.{lookup-put, lookup-without, has_lem}
use xiaozhi_desk_robot_serve.Cache.Types.{CacheEntry, CacheType, CacheConfig, new_entry, touch}
use xiaozhi_desk_robot_serve.Cache.Manager.{
  Manager, over_limit, entries, del_first, store, del_all, contains, config_of, get_or_create,
  cache_name, renew, keys_expired, keys_matching, cleanup_expired, maybe_cleanup, set_entry, set,
  get, found, hit, miss, delete, clear, invalidate_pattern, effective_ttl,
}
use xiaozhi_desk_robot_serve.Cache.Bounds.{IsBounded}
use xiaozhi_desk_robot_serve.Cache.Runs.{bounded_cases, created, set_entry-IsBounded}
use xiaozhi_desk_robot_serve.Cache.View.{
  live, view, lookup-del_all, mem-keys_matching, expired-later, live-cleanup, lookup-store,
  lookup-renew, lookup-del_first-store, is_expired-touch, value-touch,
}

module _ {A : Type 0} where
  found-eq-live :
      (now : ℕ) (c : CacheConfig) (name key : String) (o : Option (CacheEntry A)) (m : Manager A)
      → (found now c name key o m).1 ≡ live now o
  unfolding found hit miss
  found-eq-live now c name key o m = ground arith

  -- In a bounded manager, `get` returns what the view holds for its cache and key at the time of the
  -- call.
  pub get-eq-view :
      (now : ℕ) (t : CacheType) (key namespace : String) (m : Manager A)
      → IsBounded m
      → (get now t key namespace m).1 ≡ view now (cache_name t namespace) key m
  unfolding get view miss lookup
  get-eq-view now t key namespace m b =
      let name = cache_name t namespace in
      elim (bounded_cases m name b) [
        | inl (p, q) ↦ ground arith
        | inr (c, d, p, q, f, u) ↦
            ground (arith, has_lem name m.caches, found-eq-live now c name key (lookup key d) m)
      ]

  -- A `get` that returns a value adds one to `hits` and leaves `misses`; one that returns none adds
  -- one to `misses` and leaves `hits`.
  pub get_counts :
      (now : ℕ) (t : CacheType) (key namespace : String) (m : Manager A)
      → let (m', v) = get now t key namespace m in
        ((v ≢ none) × (m'.hits ≡ suc m.hits) × (m'.misses ≡ m.misses))
        ⊎ ((v ≡ none) × (m'.hits ≡ m.hits) × (m'.misses ≡ suc m.misses))
  unfolding get found hit miss
  get_counts now t key namespace m = ground arith

  view-put :
      (later : ℕ) (name n k : String) (d : Dict (CacheEntry A)) (m : Manager A)
      → view later n k (record m { caches = put name d m.caches })
        ≡ (if str_eq name n then live later (lookup k d) else view later n k m)
  unfolding view
  view-put later name n k d m = ground (arith, lookup-put name n d m.caches)

  view-counters :
      (later : ℕ) (n k : String) (m : Manager A)
      → view later n k (record m { misses = suc m.misses }) ≡ view later n k m
  unfolding view
  view-counters later n k m = refl

  found-view :
      (now later : ℕ) (c : CacheConfig) (name key n k : String) (d : Dict (CacheEntry A))
      (o : Option (CacheEntry A)) (m : Manager A)
      → now ≤ later
      → lookup name m.caches ≡ some d
      → lookup key d ≡ o
      → view later n k (found now c name key o m).0 ≡ view later n k m
  unfolding found hit miss view entries
  found-view now later c name key n k d none m le q h = refl
  found-view now later c name key n k d (some e) m le q h = ground (
    arith,
    lookup-put name n (without key d) m.caches,
    eq_iff name n,
    eq_iff key k,
    lookup-put name n (renew c key (touch now e) d) m.caches,
    lookup-without key k d,
    lookup-renew c key k (touch now e) d,
    expired-later now later e,
    is_expired-touch now later e,
    value-touch now e,
  )

  -- In a bounded manager, a `get` changes nothing that a reader at the same or a later time can see,
  -- in any cache and for any key.
  pub view-get :
      (now later : ℕ) (t : CacheType) (key namespace n k : String) (m : Manager A)
      → IsBounded m
      → now ≤ later
      → view later n k (get now t key namespace m).0 ≡ view later n k m
  unfolding get miss entries
  view-get now later t key namespace n k m b le =
      let name = cache_name t namespace in
      elim (bounded_cases m name b) [
        | inl (p, q) ↦ ground (arith, view-counters later n k m)
        | inr (c, d, p, q, f, u) ↦ ground (
          arith,
          has_lem name m.caches,
          found-view now later c name key n k d (lookup key d) m le q refl,
        )
      ]

  view-delete :
      (now : ℕ) (t : CacheType) (key namespace n k : String) (m : Manager A)
      → view now n k (delete t key namespace m).0
        ≡ (if str_eq (cache_name t namespace) n && str_eq key k then none else view now n k m)
  unfolding delete view lookup has
  view-delete now t key namespace n k m =
      let name = cache_name t namespace in
      ground (
        arith,
        lookup-put name n (without key (entries name m)) m.caches,
        eq_iff name n,
        eq_iff key k,
        lookup-without key k (entries name m),
        has_lem name m.caches,
        has_lem key (entries name m),
      )

  view-clear :
      (now : ℕ) (t : CacheType) (namespace n k : String) (m : Manager A)
      → view now n k (clear t namespace m)
        ≡ (if str_eq (cache_name t namespace) n then none else view now n k m)
  unfolding clear view lookup
  view-clear now t namespace n k m =
      let name = cache_name t namespace in
      ground (arith, lookup-put name n [] m.caches, eq_iff name n, has_lem name m.caches)

  view-invalidate_pattern :
      (now : ℕ) (t : CacheType) (pattern namespace n k : String) (m : Manager A)
      → view now n k (invalidate_pattern t pattern namespace m).0
        ≡ (if str_eq (cache_name t namespace) n && contains pattern k then none else view now n k m)
  unfolding invalidate_pattern view lookup has
  view-invalidate_pattern now t pattern namespace n k m =
      let name = cache_name t namespace in
      let d = entries name m in
      ground (
        arith,
        lookup-put name n (del_all (keys_matching pattern d) d) m.caches,
        eq_iff name n,
        lookup-del_all (keys_matching pattern d) k d,
        mem-keys_matching pattern k d,
        has_lem k d,
        has_lem name m.caches,
      )

  -- After `delete` its key has no value in its cache, after `clear` no key has one, and after
  -- `invalidate_pattern` the keys that contain the pattern have none; each leaves what a reader sees of
  -- every other key and cache.
  pub view-removals :
      (now : ℕ) (t : CacheType) (key pattern namespace n k : String) (m : Manager A)
      → (view now n k (delete t key namespace m).0
          ≡ (if str_eq (cache_name t namespace) n && str_eq key k then none else view now n k m))
        × (view now n k (clear t namespace m)
            ≡ (if str_eq (cache_name t namespace) n then none else view now n k m))
        × (view now n k (invalidate_pattern t pattern namespace m).0 ≡ (
            if str_eq (cache_name t namespace) n && contains pattern k
            then none
            else view now n k m))
  view-removals now t key pattern namespace n k m = (
    view-delete now t key namespace n k m,
    view-clear now t namespace n k m,
    view-invalidate_pattern now t pattern namespace n k m,
  )

  view-cleanup_expired :
      (now later : ℕ) (name n k : String) (m : Manager A)
      → IsBounded m
      → now ≤ later
      → view later n k (cleanup_expired now name m).0 ≡ view later n k m
  unfolding cleanup_expired view
  view-cleanup_expired now later name n k m b le = elim (bounded_cases m name b) [
    | inl (p, q) ↦ ground (arith, has_lem name m.caches)
    | inr (c, d, p, q, f, u) ↦ ground (
      arith,
      lookup-put name n (del_all (keys_expired now d) d) m.caches,
      eq_iff name n,
      has_lem name m.caches,
      live-cleanup now later k d u le,
    )
  ]

  view-maybe_cleanup :
      (now later : ℕ) (name n k : String) (m : Manager A)
      → IsBounded m
      → now ≤ later
      → view later n k (maybe_cleanup now name m) ≡ view later n k m
  unfolding maybe_cleanup view
  view-maybe_cleanup now later name n k m b le =
      ground (arith, view-cleanup_expired now later name n k (record m { last_cleanup = now }) b le)

  view-set_entry_self :
      (later : ℕ) (name key : String) (c : CacheConfig) (e : CacheEntry A) (m : Manager A)
      → over_limit c.max_size (length (entries name m)) ≡ false
      → view later name key (set_entry c name key e m) ≡ live later (some e)
  unfolding set_entry view
  view-set_entry_self later name key c e m fits =
      let d = store c key e (entries name m) in
      ground (
        arith,
        eq_iff name name,
        eq_iff key key,
        lookup-put name name d m.caches,
        lookup-put name name (del_first d) m.caches,
        lookup-store c key key e (entries name m),
        lookup-del_first-store c key e (entries name m),
      )

  -- the other caches keep their entries, and the written one loses at most its oldest
  view-set_entry_ne :
      (later : ℕ) (name n key k : String) (c : CacheConfig) (e : CacheEntry A) (m : Manager A)
      → name ≢ n
      → view later n k (set_entry c name key e m) ≡ view later n k m
  unfolding set_entry view
  view-set_entry_ne later name n key k c e m h =
      let d = store c key e (entries name m) in
      ground (
        arith,
        eq_iff name n,
        lookup-put name n d m.caches,
        lookup-put name n (del_first d) m.caches,
      )

  view-get_or_create :
      (later : ℕ) (name n k : String) (c : CacheConfig) (m : Manager A)
      → view later n k (get_or_create name c m) ≡ view later n k m
  unfolding get_or_create view lookup
  view-get_or_create later name n k c m =
      ground (arith, has_lem name m.caches, eq_iff name n, lookup-put name n [] m.caches)

  -- In a bounded manager, a reader at the same or a later time sees the value that `set` wrote as
  -- long as its lifetime, from the call or else from the configuration, has not passed: the limit
  -- and the clean-up never take the entry that was just written.
  pub view-set_self :
      (second now later : ℕ) (t : CacheType) (key : String) (v : A) (ttl : Option ℕ)
      (namespace : String) (m : Manager A)
      → IsBounded m
      → now ≤ later
      → let c = config_of second t (cache_name t namespace) m in
        view later (cache_name t namespace) key (set second now t key v ttl namespace m)
        ≡ live later (some (new_entry v now (effective_ttl ttl c.ttl)))
  unfolding set
  view-set_self second now later t key v ttl namespace m b le =
      let name = cache_name t namespace in
      let c = config_of second t name m in
      let e = new_entry v now (effective_ttl ttl c.ttl) in
      let (b', hc, fits, u) = created second t m name b in
      view-maybe_cleanup now later name name key (set_entry c name key e (get_or_create name c m))
        (set_entry-IsBounded (get_or_create name c m) name key c e hc fits u b') le
      ∙ view-set_entry_self later name key c e (get_or_create name c m) fits

  -- In a bounded manager, `set` changes nothing that a reader at the same or a later time can see in
  -- a cache of another name.
  pub view-set_ne :
      (second now later : ℕ) (t : CacheType) (key : String) (v : A) (ttl : Option ℕ)
      (namespace n k : String) (m : Manager A)
      → IsBounded m
      → now ≤ later
      → cache_name t namespace ≢ n
      → view later n k (set second now t key v ttl namespace m) ≡ view later n k m
  unfolding set
  view-set_ne second now later t key v ttl namespace n k m b le h =
      let name = cache_name t namespace in
      let c = config_of second t name m in
      let e = new_entry v now (effective_ttl ttl c.ttl) in
      let (b', hc, fits, u) = created second t m name b in
      view-maybe_cleanup now later name n k (set_entry c name key e (get_or_create name c m))
        (set_entry-IsBounded (get_or_create name c m) name key c e hc fits u b') le
      ∙ view-set_entry_ne later name n key k c e (get_or_create name c m) h
      ∙ view-get_or_create later name n k c m
