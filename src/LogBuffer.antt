-- ===== src/LogBuffer.antt =====
-- core/utils/ui_log_buffer.py: the bounded log buffer of the settings page. `append` is modelled from
-- the redacted lines on (the redaction is five regular expressions); the lock makes each method one step.
pub mod Trim
pub mod Invariant
pub mod Paging
mod Examples
use Prim.Native.String.{len, ◌++◌ as append_text}
use xiaozhi_desk_robot_serve.Prelude.{
  ℕ, zero, suc, ◌+◌, ◌-◌, ◌*◌, String, Bool, true, false, Option, none, some, List, [], ◌∷◌, ◌++◌,
  ◌&&◌, ◌||◌, not, ltb, leb, ◌==◌, str_eq, length, take, drop, map, if◌then◌else◌,
}
use xiaozhi_desk_robot_serve.Prelude.Int.{ℤ, max_zero}
use xiaozhi_desk_robot_serve.Text.{utf8_prefix}

abbrev pub max_buffer_bytes : ℕ
max_buffer_bytes = 2 * 1024 * 1024

abbrev pub max_buffer_lines : ℕ
max_buffer_lines = 2000

abbrev pub max_line_bytes : ℕ
max_line_bytes = 8 * 1024

abbrev pub max_api_limit : ℕ
max_api_limit = 500

abbrev pub truncated_suffix : String
truncated_suffix = " … [truncated]"

-- _truncate_utf8
unfoldable pub truncate_utf8 : String → ℕ → String
truncate_utf8 value max_bytes =
    if leb (len value) max_bytes
    then value
    else append_text (utf8_prefix (max_bytes - len truncated_suffix) value) truncated_suffix

pub record Entry : Type 0 where
  pub sequence : ℕ
  pub timestamp : String
  pub source : String
  pub level : String
  pub tag : String
  pub message : String
  pub size : ℕ

pub record LogBuffer : Type 0 where
  pub entries : List Entry
  pub total_bytes : ℕ
  pub next_sequence : ℕ
  pub dropped_total : ℕ

unfoldable pub init : LogBuffer
init = record { entries = []; total_bytes = 0; next_sequence = 1; dropped_total = 0 }

-- `len(self._entries) > MAX_BUFFER_LINES or self._total_bytes > MAX_BUFFER_BYTES`
unfoldable pub over : ℕ → ℕ → Bool
over lines bytes = ltb max_buffer_lines lines || ltb max_buffer_bytes bytes

-- the loop of _trim_locked over the entries, the total and the count of dropped ones
unfoldable pub trim_loop : List Entry → ℕ → ℕ → List Entry × ℕ × ℕ
trim_loop [] total dropped = ([], total, dropped)
trim_loop (e ∷ es) total dropped =
    let rest = trim_loop es (total - e.size) (dropped + 1) in
    if over (length (e ∷ es)) total then rest else (e ∷ es, total, dropped)

-- _trim_locked
unfoldable pub trim : LogBuffer → LogBuffer
trim b =
    let (es, total, dropped) = trim_loop b.entries b.total_bytes b.dropped_total in
    record b { entries = es; total_bytes = total; dropped_total = dropped }

-- what `append` fixes for all lines of one message: the time, source, level and tag
pub record Origin : Type 0 where
  pub timestamp : String
  pub source : String
  pub level : String
  pub tag : String

unfoldable pub new_entry : Origin → ℕ → String → Entry
new_entry o sequence line =
    let text = truncate_utf8 line max_line_bytes in
    record {
      sequence = sequence;
      timestamp = o.timestamp;
      source = o.source;
      level = o.level;
      tag = o.tag;
      message = text;
      size = len text + len o.tag + 96;
    }

-- one turn of the loop of `append`
unfoldable pub append_line : Origin → String → LogBuffer → LogBuffer
append_line o line b =
    let e = new_entry o b.next_sequence line in
    trim (record b {
      entries = b.entries ++ e ∷ [];
      total_bytes = b.total_bytes + e.size;
      next_sequence = b.next_sequence + 1;
    })

unfoldable pub append_lines : Origin → List String → LogBuffer → LogBuffer
append_lines o [] b = b
append_lines o (line ∷ lines) b = append_lines o lines (append_line o line b)

-- `safe_tag = _truncate_utf8(_redact(tag or ""), 512)` and `splitlines() or [""]`, of the redacted
-- tag and of the redacted message's lines
unfoldable pub append : Origin → List String → LogBuffer → LogBuffer
append o [] b = append_lines (record o { tag = truncate_utf8 o.tag 512 }) ("" ∷ []) b
append o (line ∷ lines) b =
    append_lines (record o { tag = truncate_utf8 o.tag 512 }) (line ∷ lines) b

unfoldable pub without_source : String → List Entry → List Entry
without_source source [] = []
without_source source (e ∷ es) =
    let rest = without_source source es in if str_eq e.source source then rest else e ∷ rest

unfoldable pub total_size : List Entry → ℕ
total_size [] = 0
total_size (e ∷ es) = e.size + total_size es

-- clear_source: nothing is written unless an entry goes
unfoldable pub clear_source : String → LogBuffer → LogBuffer
clear_source source b =
    let retained = without_source source b.entries in
    if length b.entries - length retained == 0
    then b
    else record b { entries = retained; total_bytes = total_size retained }

-- `max(0, int(after))`; `none` is an argument that `int` refuses
abbrev pub after_of : Option ℤ → ℕ
after_of none = 0
after_of (some n) = max_zero n

-- `min(MAX_API_LIMIT, max(1, int(limit)))`
unfoldable pub limit_of : Option ℤ → ℕ
limit_of none = 300
limit_of (some n) =
    let at_least = if ltb (max_zero n) 1 then 1 else max_zero n in
    if ltb max_api_limit at_least then max_api_limit else at_least

-- `entries[-1]["sequence"]`
unfoldable pub last_sequence : ℕ → List Entry → ℕ
last_sequence none_yet [] = none_yet
last_sequence none_yet (e ∷ es) = last_sequence e.sequence es

-- `entries[0]["sequence"] if entries else 0`
unfoldable pub first_sequence : List Entry → ℕ
first_sequence [] = 0
first_sequence (e ∷ es) = e.sequence

-- `[entry for entry in entries if entry["sequence"] > after]`
unfoldable pub newer : ℕ → List Entry → List Entry
newer after [] = []
newer after (e ∷ es) = let rest = newer after es in if ltb after e.sequence then e ∷ rest else rest

-- `{key: value for key, value in entry.items() if key != "size"}`
pub record PublicEntry : Type 0 where
  pub sequence : ℕ
  pub timestamp : String
  pub source : String
  pub level : String
  pub tag : String
  pub message : String

unfoldable pub publish : Entry → PublicEntry
publish e = record {
  sequence = e.sequence;
  timestamp = e.timestamp;
  source = e.source;
  level = e.level;
  tag = e.tag;
  message = e.message;
}

pub record Snapshot : Type 0 where
  pub entries : List PublicEntry
  pub oldest_sequence : ℕ
  pub latest_sequence : ℕ
  pub cursor_reset : Bool
  pub has_more : Bool
  pub lines : ℕ
  pub bytes : ℕ
  pub dropped_total : ℕ

-- `after and oldest_sequence and after < oldest_sequence - 1`
unfoldable pub is_reset : ℕ → List Entry → Bool
is_reset after es =
    let oldest = first_sequence es in
    not (after == 0) && not (oldest == 0) && ltb after (oldest - 1)

-- the selected entries
unfoldable pub select : ℕ → ℕ → List Entry → List Entry
select after limit es =
    if not (after == 0) && not (is_reset after es)
    then take limit (newer after es)
    else drop (length es - limit) es

-- snapshot
unfoldable pub snapshot : Option ℤ → Option ℤ → LogBuffer → Snapshot
snapshot after_arg limit_arg b =
    let after = after_of after_arg in
    let selected = select after (limit_of limit_arg) b.entries in
    let latest = last_sequence (b.next_sequence - 1) b.entries in
    record {
      entries = map publish selected;
      oldest_sequence = first_sequence b.entries;
      latest_sequence = latest;
      cursor_reset = is_reset after b.entries;
      has_more = not (length selected == 0) && ltb (last_sequence 0 selected) latest;
      lines = length b.entries;
      bytes = b.total_bytes;
      dropped_total = b.dropped_total;
    }
