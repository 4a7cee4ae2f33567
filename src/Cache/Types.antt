-- ===== src/Cache/Types.antt =====
-- core/utils/cache/strategies.py and core/utils/cache/config.py. A time is a number of ticks of one
-- clock; the ticks are fine enough for every reading and every configured duration.
use xiaozhi_desk_robot_serve.Prelude.{
  ℕ, ◌+◌, ◌*◌, String, Bool, true, false, Option, none, some, ltb,
}

pub data CacheStrategy : Type 0 where
  ttl lru fixed_size ttl_lru : CacheStrategy

-- `config.strategy in [CacheStrategy.LRU, CacheStrategy.TTL_LRU]`
abbrev pub is_lru : CacheStrategy → Bool
is_lru lru = true
is_lru ttl_lru = true
is_lru _ = false

pub record CacheEntry (A : Type 0) : Type 0 where
  pub value : A
  pub timestamp : ℕ
  pub ttl : Option ℕ
  pub access_count : ℕ
  pub last_access : ℕ

-- the dataclass with `access_count` and `last_access` left out, as `set` builds it
unfoldable pub new_entry : {A : Type 0} → A → ℕ → Option ℕ → CacheEntry A
new_entry v now effective = record {
  value = v;
  timestamp = now;
  ttl = effective;
  access_count = 0;
  last_access = now;
}

-- `time.time() - timestamp > ttl`, with the subtraction moved to the other side
unfoldable pub is_expired : {A : Type 0} → ℕ → CacheEntry A → Bool
is_expired now e = elim e.ttl [ none ↦ false | some t ↦ ltb (e.timestamp + t) now ]

unfoldable pub touch : {A : Type 0} → ℕ → CacheEntry A → CacheEntry A
touch now e = record e { last_access = now; access_count = e.access_count + 1 }

pub data CacheType : Type 0 where
  location weather air_quality intent config device_prompt voiceprint_health audio_data : CacheType

-- the `value` of each member
unfoldable pub type_value : CacheType → String
type_value location = "location"
type_value weather = "weather"
type_value air_quality = "air_quality"
type_value intent = "intent"
type_value config = "config"
type_value device_prompt = "device_prompt"
type_value voiceprint_health = "voiceprint_health"
type_value audio_data = "audio_data"

pub record CacheConfig : Type 0 where
  pub strategy : CacheStrategy
  pub ttl : Option ℕ
  pub max_size : Option ℕ
  pub cleanup_interval : ℕ

-- a configuration with the default clean-up interval of 60 seconds, at `second` ticks a second
abbrev sized : ℕ → CacheStrategy → Option ℕ → ℕ → CacheConfig
sized second s t n = record {
  strategy = s;
  ttl = t;
  max_size = some n;
  cleanup_interval = 60 * second;
}

-- Every member of `CacheType` is a key of the table, so the default is never taken.
unfoldable pub for_type : ℕ → CacheType → CacheConfig
for_type second location = sized second ttl none 1000
for_type second weather = sized second ttl (some (28800 * second)) 1000
for_type second air_quality = sized second ttl (some (1800 * second)) 1000
for_type second intent = sized second ttl_lru (some (600 * second)) 1000
for_type second config = sized second fixed_size none 20
for_type second device_prompt = sized second ttl none 1000
for_type second voiceprint_health = sized second ttl (some (600 * second)) 100
for_type second audio_data = sized second ttl (some (600 * second)) 100
