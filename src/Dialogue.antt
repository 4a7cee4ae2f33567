-- ===== src/Dialogue.antt =====
-- `Dialogue` of core/utils/dialogue.py: the messages of a conversation, and the answers that are made
-- up for tool calls that were cut off. A set of identifiers is a list without repetitions, in the order
-- of insertion; the order of Python's set is another one, and the made-up answers come in that order.

pub mod Answers
mod Examples
use xiaozhi_desk_robot_serve.Prelude.{
  String, Bool, true, false, Option, none, some, List, [], ◌∷◌, ◌++◌, map, if◌then◌else◌, not, ◌&&◌,
  str_eq,
}

-- the identifiers of `tool_calls`; a call without one is `none`
pub record Message : Type 0 where
  pub role : String
  pub content : Option String
  pub tool_calls : Option (List (Option String))
  pub tool_call_id : Option String

-- put
unfoldable pub put : Message → List Message → List Message
put m dialogue = dialogue ++ m ∷ []

-- an entry of the list for the language model
pub data LlmEntry : Type 0 where
  calls_entry : String → List (Option String) → LlmEntry
  tool_entry : String → String → Option String → LlmEntry
  plain_entry : String → Option String → LlmEntry

-- getMessages: the entry that it appends, with the new identifier that it would take
unfoldable pub get_messages : String → Message → LlmEntry
get_messages fresh m = elim m.tool_calls [
  | some ids ↦ calls_entry m.role ids
  | none ↦
      if str_eq m.role "tool"
      then tool_entry m.role (elim m.tool_call_id [ none ↦ fresh | some i ↦ i ]) m.content
      else plain_entry m.role m.content
]

unfoldable pub system_message : String → Message
system_message content = record {
  role = "system";
  content = some content;
  tool_calls = none;
  tool_call_id = none;
}

-- update_system_message
unfoldable pub update_system_message : String → List Message → List Message
unfolding system_message
update_system_message content [] = system_message content ∷ []
update_system_message content (m ∷ dialogue) =
    let rest = update_system_message content dialogue in
    if str_eq m.role "system" then record m { content = some content } ∷ dialogue else m ∷ rest

-- `pending_tool_calls.add` of an identifier that is not empty
unfoldable pub add_id : Option String → List String → List String
add_id none ids = ids
add_id (some i) [] = if str_eq i "" then [] else i ∷ []
add_id (some i) (j ∷ ids) =
    let rest = add_id (some i) ids in if str_eq j i then j ∷ ids else j ∷ rest

unfoldable pub add_ids : List (Option String) → List String → List String
add_ids [] ids = ids
add_ids (i ∷ is) ids = add_ids is (add_id i ids)

-- `pending_tool_calls.discard`
unfoldable pub discard_id : String → List String → List String
discard_id i [] = []
discard_id i (j ∷ ids) = let rest = discard_id i ids in if str_eq j i then rest else j ∷ rest

-- `msg.tool_calls` and `msg.tool_call_id` as tests
abbrev pub calls_of : Option (List (Option String)) → List (Option String)
calls_of none = []
calls_of (some ids) = ids

unfoldable pub discard_answer : Option String → List String → List String
discard_answer none ids = ids
discard_answer (some i) ids = if str_eq i "" then ids else discard_id i ids

abbrev pub is_empty : List (Option String) → Bool
is_empty [] = true
is_empty (i ∷ is) = false

-- the body of the loop of _ensure_tool_calls_complete
unfoldable pub note_message : Message → List String → List String
note_message m ids =
    if str_eq m.role "assistant" && not (is_empty (calls_of m.tool_calls))
    then add_ids (calls_of m.tool_calls) ids
    else if str_eq m.role "tool"
    then discard_answer m.tool_call_id ids
    else ids

unfoldable pub pending : List Message → List String → List String
pending [] ids = ids
pending (m ∷ messages) ids = pending messages (note_message m ids)

-- the answer that is made up for a call
unfoldable pub interrupted : String → Message
interrupted i = record {
  role = "tool";
  content =
      some
        "{\"status\": \"interrupted\", \"message\": \"The action was cancelled or interrupted.\"}";
  tool_calls = none;
  tool_call_id = some i;
}

-- _ensure_tool_calls_complete
unfoldable pub ensure_complete : List Message → List Message
ensure_complete messages = messages ++ map interrupted (pending messages [])
