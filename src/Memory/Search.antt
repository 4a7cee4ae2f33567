-- ===== src/Memory/Search.antt =====
-- How ExplicitMemory compares texts: `_normalize_for_search`, with the configured aliases.
use Prim.Native.Char.{Char}
use xiaozhi_desk_robot_serve.Text.Words.{join, words}
use xiaozhi_desk_robot_serve.Prelude.{String, Bool, Option, none, some, List, [], ◌∷◌, ◌++◌, str_eq}
use xiaozhi_desk_robot_serve.Dict.{Dict, lookup}

-- what the methods share: the rules of Unicode, and `recall_aliases`
pub record Rules : Type 0 where
  pub is_word : Char → Bool
  pub casefold : String → String
  pub aliases : Dict String

-- `aliases.get(term, term)`
unfoldable pub alias_of : Option String → String → String
alias_of none term = term
alias_of (some canonical) term = canonical

unfoldable pub expand : Rules → List String → List String
unfolding alias_of
expand r [] = []
expand r (term ∷ terms) = words r.is_word (alias_of (lookup term r.aliases) term) ++ expand r terms

-- _normalize_for_search
unfoldable pub normalize_for_search : Rules → String → String
normalize_for_search r s = join " " (expand r (words r.is_word (r.casefold s)))

unfoldable pub or_empty : Option String → String
or_empty none = ""
or_empty (some s) = s

-- _same_text
unfoldable pub same_text : Rules → Option String → Option String → Bool
same_text r a b = str_eq (normalize_for_search r (or_empty a)) (normalize_for_search r (or_empty b))
