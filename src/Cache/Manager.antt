-- ===== src/Cache/Manager.antt =====
-- `GlobalCacheManager` of core/utils/cache/manager.py: one function for each method, from the state
-- and the clock reading of the call to the new state and the result. The locks make each method
-- atomic, so a run is a sequence of calls. A method reads the clock once; logging is left out.
use Prim.Native.String.{◌++◌}
use text.Mathlib.Text.{find?}
use xiaozhi_desk_robot_serve.Prelude.{
  ℕ, zero, suc, ◌+◌, String, Bool, true, false, Option, none, some, List, [], ◌∷◌, length, ltb,
  ◌&&◌, str_eq, if◌then◌else◌,
}
use xiaozhi_desk_robot_serve.Dict.{Dict, lookup, has, put, without}
use xiaozhi_desk_robot_serve.Cache.Types.{
  CacheEntry, CacheType, CacheConfig, is_lru, new_entry, is_expired, touch, type_value, for_type,
}

pub record Manager (A : Type 0) : Type 0 where
  pub caches : Dict (Dict (CacheEntry A))
  pub configs : Dict CacheConfig
  pub last_cleanup : ℕ
  pub hits : ℕ
  pub misses : ℕ
  pub evictions : ℕ
  pub cleanups : ℕ

-- __init__
unfoldable pub init : {A : Type 0} → ℕ → Manager A
init now = record {
  caches = [];
  configs = [];
  last_cleanup = now;
  hits = 0;
  misses = 0;
  evictions = 0;
  cleanups = 0;
}

-- _get_cache_name
unfoldable pub cache_name : CacheType → String → String
unfolding type_value
cache_name t namespace =
    if str_eq namespace "" then type_value t else type_value t ++ ":" ++ namespace

-- `config.max_size and len(cache) > config.max_size`: neither None nor 0 limits the cache
unfoldable pub over_limit : Option ℕ → ℕ → Bool
over_limit none size = false
over_limit (some zero) size = false
over_limit (some (suc n)) size = ltb (suc n) size

-- `ttl if ttl is not None else config.ttl`
abbrev pub effective_ttl : Option ℕ → Option ℕ → Option ℕ
effective_ttl none default = default
effective_ttl (some t) default = some t

-- `pattern in key`
unfoldable pub contains : String → String → Bool
contains pattern key = elim (find? key pattern) [ none ↦ false | some _ ↦ true ]

module _ {A : Type 0} where
  -- `self._configs.get(cache_name) or CacheConfig.for_type(cache_type)`
  unfoldable pub config_of : ℕ → CacheType → String → Manager A → CacheConfig
  config_of second t name m = elim (lookup name m.configs) [ none ↦ for_type second t | some c ↦ c ]

  -- _get_or_create_cache
  unfoldable pub get_or_create : String → CacheConfig → Manager A → Manager A
  get_or_create name c m =
      if has name m.caches
      then m
      else record m { caches = put name [] m.caches; configs = put name c m.configs }

  -- `self._caches[cache_name]`
  unfoldable pub entries : String → Manager A → Dict (CacheEntry A)
  entries name m = elim (lookup name m.caches) [ none ↦ [] | some d ↦ d ]

  -- `del cache[next(iter(cache))]`
  unfoldable pub del_first : Dict (CacheEntry A) → Dict (CacheEntry A)
  unfolding without
  del_first [] = []
  del_first ((k, e) ∷ d) = without k ((k, e) ∷ d)

  -- `cache[key] = entry`, in the LRU strategies after `del cache[key]`
  unfoldable pub store :
      CacheConfig → String → CacheEntry A → Dict (CacheEntry A) → Dict (CacheEntry A)
  store c key e d = if is_lru c.strategy then put key e (without key d) else put key e d

  unfoldable pub keys_expired : ℕ → Dict (CacheEntry A) → List String
  keys_expired now [] = []
  keys_expired now ((k, e) ∷ d) =
      let rest = keys_expired now d in if is_expired now e then k ∷ rest else rest

  unfoldable pub del_all : List String → Dict (CacheEntry A) → Dict (CacheEntry A)
  del_all [] d = d
  del_all (k ∷ ks) d = del_all ks (without k d)

  -- _cleanup_expired
  unfoldable pub cleanup_expired : ℕ → String → Manager A → Manager A × ℕ
  cleanup_expired now name m =
      if has name m.caches
      then (let expired = keys_expired now (entries name m) in
          (
            record m { caches = put name (del_all expired (entries name m)) m.caches },
            length expired,
          ))
      else (m, 0)

  -- _maybe_cleanup
  unfoldable pub maybe_cleanup : ℕ → String → Manager A → Manager A
  maybe_cleanup now name m = elim (lookup name m.configs) [
    | none ↦ m
    | some c ↦
        if ltb (m.last_cleanup + c.cleanup_interval) now
        then (let (m', deleted) = cleanup_expired now name (record m { last_cleanup = now }) in
            if ltb 0 deleted then record m' { cleanups = m'.cleanups + 1 } else m')
        else m
  ]

  -- the locked part of `set`
  unfoldable pub set_entry : CacheConfig → String → String → CacheEntry A → Manager A → Manager A
  set_entry c name key e m =
      let d = store c key e (entries name m) in
      if over_limit c.max_size (length d)
      then record m { caches = put name (del_first d) m.caches; evictions = m.evictions + 1 }
      else record m { caches = put name d m.caches }

  -- set
  unfoldable pub set : ℕ → ℕ → CacheType → String → A → Option ℕ → String → Manager A → Manager A
  set second now t key v ttl namespace m =
      let name = cache_name t namespace in
      let c = config_of second t name m in
      maybe_cleanup now name
        (set_entry c name key (new_entry v now (effective_ttl ttl c.ttl)) (get_or_create name c m))

  -- the entry is moved to the end in the LRU strategies, and changed in place in the others
  unfoldable pub renew :
      CacheConfig → String → CacheEntry A → Dict (CacheEntry A) → Dict (CacheEntry A)
  renew c key e d = if is_lru c.strategy then put key e (without key d) else put key e d

  unfoldable pub hit :
      ℕ → CacheConfig → String → String → CacheEntry A → Manager A → Manager A × Option A
  hit now c name key e m =
      let d = renew c key (touch now e) (entries name m) in
      (record m { caches = put name d m.caches; hits = m.hits + 1 }, some e.value)

  unfoldable pub miss : Manager A → Manager A × Option A
  miss m = (record m { misses = m.misses + 1 }, none)

  unfoldable pub found :
      ℕ → CacheConfig → String → String → Option (CacheEntry A) → Manager A → Manager A × Option A
  found now c name key none m = miss m
  found now c name key (some e) m =
      if is_expired now e
      then miss (record m { caches = put name (without key (entries name m)) m.caches })
      else hit now c name key e m

  -- `get`. The method reads `self._configs[cache_name]` next to `self._caches[cache_name]`: the two
  -- are created together, and a name without a configuration is not a state of the program.
  unfoldable pub get : ℕ → CacheType → String → String → Manager A → Manager A × Option A
  get now t key namespace m =
      let name = cache_name t namespace in
      elim (lookup name m.configs) [
        | none ↦ miss m
        | some c ↦
            if has name m.caches
            then found now c name key (lookup key (entries name m)) m
            else miss m
      ]

  -- delete
  unfoldable pub delete : CacheType → String → String → Manager A → Manager A × Bool
  delete t key namespace m =
      let name = cache_name t namespace in
      if has name m.caches && has key (entries name m)
      then (record m { caches = put name (without key (entries name m)) m.caches }, true)
      else (m, false)

  -- clear
  unfoldable pub clear : CacheType → String → Manager A → Manager A
  clear t namespace m =
      let name = cache_name t namespace in
      if has name m.caches then record m { caches = put name [] m.caches } else m

  -- `[key for key in cache.keys() if pattern in key]`
  unfoldable pub keys_matching : String → Dict (CacheEntry A) → List String
  keys_matching pattern [] = []
  keys_matching pattern ((k, e) ∷ d) =
      let rest = keys_matching pattern d in if contains pattern k then k ∷ rest else rest

  -- invalidate_pattern
  unfoldable pub invalidate_pattern : CacheType → String → String → Manager A → Manager A × ℕ
  invalidate_pattern t pattern namespace m =
      let name = cache_name t namespace in
      if has name m.caches
      then (let doomed = keys_matching pattern (entries name m) in
          (
            record m { caches = put name (del_all doomed (entries name m)) m.caches },
            length doomed,
          ))
      else (m, 0)
