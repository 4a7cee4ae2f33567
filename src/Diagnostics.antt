-- ===== src/Diagnostics.antt =====
-- `VoiceDiagnostics` of core/cluster/voice_diagnostics.py: the bounded list of what happened in the
-- sessions of a node, and the check that a peer makes of it.
pub mod Laws
mod Examples
use Prim.Native.String.{count}
use xiaozhi_desk_robot_serve.Prelude.{
  ℕ, ◌+◌, ◌-◌, String, Bool, true, false, Option, none, some, List, [], ◌∷◌, ◌++◌, if◌then◌else◌,
  not, ◌&&◌, ◌||◌, leb, length, drop, str_eq, ◌==◌,
}
use xiaozhi_desk_robot_serve.Prelude.Int.{ℤ, pos, negsuc}
use xiaozhi_desk_robot_serve.Text.{all_chars, is_word, is_lower, is_hex, elem, after_prefix}

abbrev pub max_events : ℕ
max_events = 64

abbrev pub event_names : List String
event_names =
    "conversation_timeout" ∷ "vision_admitted" ∷ "vision_complete" ∷ "vision_failed"
    ∷ "session_opened" ∷ "session_closed" ∷ "asr_started" ∷ "asr_admitted" ∷ "asr_restarting"
    ∷ "asr_final" ∷ "mcp_ready" ∷ "mcp_unavailable" ∷ "mcp_call_started" ∷ "mcp_call_complete"
    ∷ "mcp_call_failed" ∷ "llm_started" ∷ "llm_first_chunk" ∷ "llm_complete" ∷ "tts_started"
    ∷ "tts_complete" ∷ "turn_failed" ∷ "turn_complete" ∷ "turn_aborted" ∷ []

pub data Value : Type 0 where
  int_value : ℤ → Value
  text_value : String → Value
  none_value other_value : Value

-- [0-9a-f]{32}
unfoldable pub is_session : String → Bool
is_session s = count s == 32 && all_chars is_hex s

-- `type(value) is int and 0 <= value <= 10000000`
unfoldable pub is_count : Value → Bool
is_count (int_value (pos n)) = leb n 10000000
is_count _ = false

-- [A-Za-z0-9_-]{1,192}
unfoldable pub is_worker : Value → Bool
is_worker (text_value s) = leb 1 (count s) && leb (count s) 192 && all_chars is_word s
is_worker _ = false

-- [a-z_]{1,48} after a prefix
unfoldable pub is_tail : Option String → Bool
is_tail none = false
is_tail (some s) = leb 1 (count s) && leb (count s) 48 && all_chars is_lower s

-- (asr|llm|tts|vision|worker_rpc|voice)_[a-z_]{1,48}
unfoldable pub is_code : Value → Bool
is_code (text_value s) =
    is_tail (after_prefix "asr_" s)
    || is_tail (after_prefix "llm_" s)
    || is_tail (after_prefix "tts_" s)
    || is_tail (after_prefix "vision_" s)
    || is_tail (after_prefix "worker_rpc_" s)
    || is_tail (after_prefix "voice_" s)
is_code _ = false

-- the tests of a field of `record`
unfoldable pub is_safe : String → Value → Bool
is_safe key v =
    (elem key ("elapsed_ms" ∷ "frames" ∷ "generation" ∷ []) && is_count v)
    || (str_eq key "worker_id" && is_worker v)
    || (str_eq key "code" && is_code v)

unfoldable pub safe_fields : List (String × Value) → List (String × Value)
safe_fields [] = []
safe_fields ((key, v) ∷ fields) =
    let rest = safe_fields fields in if is_safe key v then (key, v) ∷ rest else rest

pub record Event : Type 0 where
  pub seq : ℕ
  pub at : String
  pub event : String
  pub session_id : String
  pub fields : List (String × Value)

pub record Diagnostics : Type 0 where
  pub events : List Event
  pub sequence : ℕ

unfoldable pub init : Diagnostics
init = record { events = []; sequence = 0 }

-- `append` of a deque with a `maxlen`
unfoldable pub append_event : Event → List Event → List Event
append_event e events = let longer = events ++ e ∷ [] in drop (length longer - max_events) longer

-- `record`, at the time `at`; a name or a session that is no text is taken for one that is refused
unfoldable pub record_event :
    String → String → String → List (String × Value) → Diagnostics → Diagnostics
record_event at name session fields d =
    if not (elem name event_names) || not (is_session session) then d else record {
      events =
          append_event
            (record {
              seq = d.sequence + 1;
              at = at;
              event = name;
              session_id = session;
              fields = safe_fields fields;
            })
            d.events;
      sequence = d.sequence + 1;
    }

-- the fields that an event may have beside the four that it must have
unfoldable pub is_field : String → Bool
is_field key =
    elem key ("elapsed_ms" ∷ "frames" ∷ "generation" ∷ [])
    || str_eq key "worker_id"
    || str_eq key "code"

unfoldable pub is_none : Value → Bool
is_none none_value = true
is_none _ = false

-- the fields are allowed, and each one reads the same from the recorded event; one that was not kept reads
-- as None
unfoldable pub all_safe : List (String × Value) → Bool
all_safe [] = true
all_safe ((key, v) ∷ fields) = is_field key && (is_safe key v || is_none v) && all_safe fields

-- The check of an event in `safe_snapshot`: `is_stamp` is whether the time parses and has an offset.
-- The event is recorded in an empty list, from which its fields must read the same.
unfoldable pub check_event : (String → Bool) → Event → Bool
check_event is_stamp e =
    leb 1 e.seq
    && leb e.seq 9007199254740991
    && leb (count e.at) 40
    && is_stamp e.at
    && not (length (record_event e.at e.event e.session_id e.fields init).events == 0)
    && all_safe e.fields
