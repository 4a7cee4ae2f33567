-- ===== src/History.antt =====
-- `SessionHistory` of core/cluster/memory_client.py: the completed turns that a session sends along.
-- `encoded` is the number of bytes of the messages' encoding as JSON, which the library makes.
pub mod Laws
mod Examples
use xiaozhi_desk_robot_serve.Prelude.{
  ℕ, ◌-◌, String, Bool, true, false, Option, none, some, List, [], ◌∷◌, ◌++◌, map, if◌then◌else◌,
  ltb, leb, length, drop,
}
use xiaozhi_desk_robot_serve.Text.{utf8_prefix}

pub data Role : Type 0 where
  user assistant : Role

pub record Turn : Type 0 where
  pub role : Role
  pub content : String

abbrev pub max_messages : ℕ
max_messages = 14

abbrev pub max_encoded : ℕ
max_encoded = 24000

-- dialogue
unfoldable pub dialogue : String → List Turn → List Turn
dialogue said messages = messages ++ record { role = user; content = said } ∷ []

-- the pair that `complete` appends
unfoldable pub pair : String → String → List Turn
pair said response =
    record { role = user; content = said }
    ∷ record { role = assistant; content = utf8_prefix 12000 response }
    ∷ []

-- the limit at which `encode` raises
abbrev pub encode_limit : ℕ
encode_limit = 100000

module _ (encoded : List Turn → ℕ) where
  -- `len(self.messages) > 14 or len(wire.encode(self.messages, 100000)) > 24000`, and `none` where
  -- `encode` raises
  unfoldable pub too_long : List Turn → Option Bool
  too_long messages =
      if ltb max_messages (length messages)
      then some true
      else if ltb encode_limit (encoded messages)
      then none
      else some (ltb max_encoded (encoded messages))

  -- one test of the loop, with what the loop makes of the messages without the first two
  unfoldable pub forget_one : Option Bool → List Turn → List Turn × Bool → List Turn × Bool
  forget_one none messages rest = (messages, false)
  forget_one (some true) messages rest = rest
  forget_one (some false) messages rest = (messages, true)

  -- the loop that deletes the first two messages: what it leaves, and whether it ends without an
  -- exception
  unfoldable pub forget : List Turn → List Turn × Bool
  unfolding too_long forget_one
  forget [] = ([], leb (encoded []) encode_limit)
  forget (a ∷ []) = forget_one (too_long (a ∷ [])) (a ∷ []) ([], leb (encoded []) encode_limit)
  forget (a ∷ b ∷ messages) =
      let rest = forget messages in forget_one (too_long (a ∷ b ∷ messages)) (a ∷ b ∷ messages) rest

  -- complete
  unfoldable pub complete : String → String → List Turn → List Turn × Bool
  complete said response messages = forget (messages ++ pair said response)

-- recent
unfoldable pub recent : List Turn → List String
recent messages =
    map (λ (t : Turn). utf8_prefix 2048 t.content) (drop (length messages - 6) messages)
