-- ===== src/Memory.antt =====
-- core/explicit_memory.py and core/memory_schema.py: the facts that a user asks the robot to remember. This
-- file has how their texts are put in order. What Unicode says, which characters form a word (`\w`) and how
-- a text is folded (`casefold`), is an argument.
pub mod Entries
pub mod Store
pub mod Render
pub mod Search
mod Normal
mod Kept
mod Remembers
mod Changes
mod Runs
mod Forgets
mod Budget
mod Examples
use Prim.Native.Char.{Char, code}
use Prim.Native.String.{◌++◌}
use xiaozhi_desk_robot_serve.Text.Words.{
  concat, extend, is_prefix, join, keep_unless, not_space, occurs, squeeze, starts, strip,
  strip_end, strip_start, take_chars, words,
}
use xiaozhi_desk_robot_serve.Prelude.{
  ℕ, zero, suc, String, Bool, true, false, not, ◌||◌, Option, none, some, List, [], ◌∷◌,
  if◌then◌else◌, str_eq,
}
use xiaozhi_desk_robot_serve.Dict.{Dict, lookup}
use xiaozhi_desk_robot_serve.Text.{is_space}

-- _normalize_content
unfoldable pub normalize_content : ℕ → String → String
normalize_content max_chars s = strip_end is_space (take_chars max_chars (squeeze s))

-- `s or None`
unfoldable pub nonempty : String → Option String
nonempty String.[] = none
nonempty (String.◌∷◌ c s) = some (String.◌∷◌ c s)

-- _normalize_optional_text
unfoldable pub normalize_optional : Option String → Option String
normalize_optional none = none
normalize_optional (some s) = nonempty (squeeze s)
