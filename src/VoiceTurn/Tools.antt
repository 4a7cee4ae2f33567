-- ===== src/VoiceTurn/Tools.antt =====
-- `execute_tools` of core/cluster/voice_turn.py, after `calls` of core/cluster/tool_stream_protocol.py.
use Prim.Native.String.{count}
use xiaozhi_desk_robot_serve.Prelude.{
  ℕ, String, Bool, true, false, Option, none, some, List, [], ◌∷◌, ◌++◌, if◌then◌else◌, not, ◌&&◌,
  leb, ◌==◌, length, str_eq,
}
use xiaozhi_desk_robot_serve.Dict.{Dict}
use xiaozhi_desk_robot_serve.Text.{elem, all_chars, is_letter, is_word}

pub record ToolCall (V : Type 0) : Type 0 where
  pub id : String
  pub name : String
  pub arguments : Dict V

-- the results that the session itself gives, and those of a service
pub data ToolResult (R : Type 0) : Type 0 where
  conversation_ending exit_with_arguments not_available : ToolResult R
  end_conversation : String → ToolResult R
  from_service : R → ToolResult R

pub record Reply (R : Type 0) : Type 0 where
  pub id : String
  pub result : ToolResult R

abbrev pub max_calls : ℕ
max_calls = 8

-- [A-Za-z0-9_-]{1,128}
unfoldable pub is_id : String → Bool
is_id s = leb 1 (count s) && leb (count s) 128 && all_chars is_word s

-- [A-Za-z_][A-Za-z0-9_-]{0,63}
unfoldable pub is_name : String → Bool
is_name String.[] = false
is_name (String.◌∷◌ c s) = is_letter c && leb (count s) 63 && all_chars is_word s

module _ {V : Type 0} where
  -- the loop of `calls` with the set of the ids so far
  unfoldable pub each_call_ok : List String → List (ToolCall V) → Bool
  each_call_ok ids [] = true
  each_call_ok ids (c ∷ cs) =
      is_id c.id && not (elem c.id ids) && is_name c.name && each_call_ok (c.id ∷ ids) cs

  -- `calls`, up to the size of the encoded value, which the argument `encodes` tests
  unfoldable pub calls_ok : (List (ToolCall V) → Bool) → List (ToolCall V) → Bool
  calls_ok encodes cs =
      leb 1 (length cs) && leb (length cs) max_calls && each_call_ok [] cs && encodes cs

-- The services that a session has, over the world `W` they act on: Memory answers a call with one
-- reply, the device with a list of replies.
pub record Services (V R W : Type 0) : Type 0 where
  pub memory : Option (ToolCall V → W → W × Reply R)
  pub mcp : Option (ToolCall V → W → W × List (Reply R))

module _ {V R W : Type 0} where
  -- a reply of the session itself, which does not touch the world
  abbrev pub answered : Bool → W → ToolCall V → ToolResult R → Bool × W × List (Reply R)
  answered closing w c r = (closing, w, record { id = c.id; result = r } ∷ [])

  -- the branch for the device, and what is left when there is none
  unfoldable pub call_device :
      Option (ToolCall V → W → W × List (Reply R)) → ToolCall V → W → Bool × W × List (Reply R)
  call_device none c w = answered false w c not_available
  call_device (some f) c w = let (w', rs) = f c w in (false, w', rs)

  -- the branch for Memory, and what follows it when there is none
  unfoldable pub call_memory :
      Option (ToolCall V → W → W × Reply R)
      → Option (ToolCall V → W → W × List (Reply R))
      → ToolCall V
      → W
      → Bool × W × List (Reply R)
  call_memory none mcp c w = call_device mcp c w
  call_memory (some f) mcp c w = let (w', r) = f c w in (false, w', r ∷ [])

  -- one turn of the loop: `close_after_chat`, the world and the replies after the call
  unfoldable pub execute_one :
      Services V R W → String → ToolCall V → Bool → W → Bool × W × List (Reply R)
  execute_one s goodbye c true w = answered true w c conversation_ending
  execute_one s goodbye c false w =
      if str_eq c.name "handle_exit_intent"
      then (if length c.arguments == 0
          then answered true w c (end_conversation goodbye)
          else answered false w c exit_with_arguments)
      else if str_eq c.name "manage_memory"
      then call_memory s.memory s.mcp c w
      else call_device s.mcp c w

  unfoldable pub execute_all :
      Services V R W → String → List (ToolCall V) → Bool → W → Bool × W × List (Reply R)
  execute_all s goodbye [] closing w = (closing, w, [])
  execute_all s goodbye (c ∷ cs) closing w =
      let (closing', w', rs) = execute_one s goodbye c closing w in
      let (closing'', w'', rest) = execute_all s goodbye cs closing' w' in
      (closing'', w'', rs ++ rest)

  -- `execute_tools`; `none` is the ValueError of `calls`
  unfoldable pub execute_tools :
      (List (ToolCall V) → Bool)
      → Services V R W
      → String
      → List (ToolCall V)
      → Bool
      → W
      → Option (Bool × W × List (Reply R))
  execute_tools encodes s goodbye cs closing w =
      if calls_ok encodes cs then some (execute_all s goodbye cs closing w) else none
