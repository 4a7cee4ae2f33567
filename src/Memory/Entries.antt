-- ===== src/Memory/Entries.antt =====
-- core/memory_schema.py: the entries of a memory. A field has the type that its rule of normalization takes
-- it for, or is absent, which is `none`; a number below zero normalizes as zero does.
use xiaozhi_desk_robot_serve.Text.Words.{squeeze, strip}
use xiaozhi_desk_robot_serve.Prelude.{
  ℕ, String, Bool, true, false, Option, none, some, List, [], ◌∷◌, if◌then◌else◌, ltb, ◌==◌, str_eq,
  ◌&&◌,
}
use xiaozhi_desk_robot_serve.Text.{is_space, elem}
use xiaozhi_desk_robot_serve.Memory.{normalize_content, nonempty, normalize_optional}

pub record Entry : Type 0 where
  pub id : String
  pub content : String
  pub type : String
  pub project : Option String
  pub entities : List String
  pub tags : List String
  pub importance : ℕ
  pub pinned : Bool
  pub active : Bool
  pub supersedes : Option String
  pub created_at : String
  pub updated_at : String

-- the keyword arguments of a call; `some none` is a key with the value None
pub record Metadata : Type 0 where
  pub type : Option String
  pub project : Option (Option String)
  pub entities : Option (List String)
  pub tags : Option (List String)
  pub importance : Option ℕ
  pub pinned : Option Bool
  pub active : Option Bool
  pub supersedes : Option (Option String)

-- an entry as a file or a call has it
pub record RawEntry : Type 0 where
  pub id : Option String
  pub content : Option String
  pub created_at : Option String
  pub updated_at : Option String
  pub fields : Metadata

-- `value or default`, and `d.get(key, default)`
unfoldable pub or_else {ℓ} : {A : Type ℓ} → Option A → A → A
or_else none a = a
or_else (some b) a = b

unfoldable pub text_or : Option String → String → String
unfolding or_else nonempty
text_or none default = default
text_or (some s) default = or_else (nonempty s) default

-- _MEMORY_TYPES
abbrev pub memory_types : List String
memory_types =
    "fact" ∷ "preference" ∷ "decision" ∷ "project_state" ∷ "hardware" ∷ "todo" ∷ "session" ∷ []

module _ (casefold : String → String) where
  -- _normalize_type, `none` where it raises
  unfoldable pub normalize_type : String → Option String
  normalize_type value =
      let normalized = casefold (strip is_space (text_or (some value) "fact")) in
      if elem normalized memory_types then some normalized else none

  -- the loop of `_normalize_string_list`, with the keys that it has seen
  unfoldable pub distinct : List String → List String → List String
  distinct seen [] = []
  distinct seen (item ∷ items) =
      let normalized = squeeze item in
      let key = casefold normalized in
      let skip = distinct seen items in
      let keep = normalized ∷ distinct (key ∷ seen) items in
      if str_eq normalized "" then skip else if elem key seen then skip else keep

  -- _normalize_string_list, of a list
  unfoldable pub normalize_string_list : List String → List String
  normalize_string_list items = distinct [] items

-- _normalize_importance
unfoldable pub normalize_importance : ℕ → ℕ
normalize_importance n = if ltb n 1 then 1 else if ltb 5 n then 5 else n

unfoldable pub map_option {ℓ κ} : {A : Type ℓ} {B : Type κ} → (A → B) → Option A → Option B
map_option f none = none
map_option f (some a) = some (f a)

-- the type of the result, if there is one: the outer `none` is an exception
unfoldable pub normalize_given_type : (String → String) → Option String → Option (Option String)
normalize_given_type casefold none = some none
normalize_given_type casefold (some value) = map_option some (normalize_type casefold value)

-- the rest of `_normalize_metadata`
unfoldable pub normalize_rest : (String → String) → Metadata → Option String → Metadata
unfolding map_option normalize_optional normalize_importance
normalize_rest casefold m type = record {
  type = type;
  project = map_option normalize_optional m.project;
  entities = map_option (normalize_string_list casefold) m.entities;
  tags = map_option (normalize_string_list casefold) m.tags;
  importance = map_option normalize_importance m.importance;
  pinned = m.pinned;
  active = m.active;
  supersedes = map_option normalize_optional m.supersedes;
}

-- _normalize_metadata
unfoldable pub normalize_metadata : (String → String) → Metadata → Option Metadata
unfolding normalize_given_type map_option
normalize_metadata casefold m =
    map_option (normalize_rest casefold m) (normalize_given_type casefold m.type)

-- the entry that `_normalize_entry` returns, with its type
unfoldable pub complete_entry : (String → String) → ℕ → String → String → RawEntry → String → Entry
unfolding text_or or_else normalize_optional normalize_importance
complete_entry casefold max_chars now new_id r type = record {
  id = text_or r.id new_id;
  content = normalize_content max_chars (or_else r.content "");
  type = type;
  project = normalize_optional (or_else r.fields.project none);
  entities = normalize_string_list casefold (or_else r.fields.entities []);
  tags = normalize_string_list casefold (or_else r.fields.tags []);
  importance = normalize_importance (or_else r.fields.importance 3);
  pinned = or_else r.fields.pinned false;
  active = or_else r.fields.active true;
  supersedes = normalize_optional (or_else r.fields.supersedes none);
  created_at = text_or r.created_at now;
  updated_at = text_or r.updated_at (text_or r.created_at now);
}

-- _normalize_entry
unfoldable pub normalize_entry : (String → String) → ℕ → String → String → RawEntry → Option Entry
unfolding map_option or_else
normalize_entry casefold max_chars now new_id r =
    map_option (complete_entry casefold max_chars now new_id r)
      (normalize_type casefold (or_else r.fields.type "fact"))

-- `entry.update(metadata)`
unfoldable pub update_fields : Metadata → Entry → Entry
unfolding or_else
update_fields m e = record e {
  type = or_else m.type e.type;
  project = or_else m.project e.project;
  entities = or_else m.entities e.entities;
  tags = or_else m.tags e.tags;
  importance = or_else m.importance e.importance;
  pinned = or_else m.pinned e.pinned;
  active = or_else m.active e.active;
  supersedes = or_else m.supersedes e.supersedes;
}

-- `==` on entries, which are dictionaries with the same keys
unfoldable pub eq_list : List String → List String → Bool
eq_list [] [] = true
eq_list [] (t ∷ ts) = false
eq_list (s ∷ ss) [] = false
eq_list (s ∷ ss) (t ∷ ts) = str_eq s t && eq_list ss ts

unfoldable pub eq_option : Option String → Option String → Bool
eq_option none none = true
eq_option none (some t) = false
eq_option (some s) none = false
eq_option (some s) (some t) = str_eq s t

unfoldable pub eq_bool : Bool → Bool → Bool
eq_bool true b = b
eq_bool false true = false
eq_bool false false = true

unfoldable pub eq_entry : Entry → Entry → Bool
unfolding eq_list eq_option eq_bool
eq_entry d e =
    str_eq d.id e.id
    && str_eq d.content e.content
    && str_eq d.type e.type
    && eq_option d.project e.project
    && eq_list d.entities e.entities
    && eq_list d.tags e.tags
    && d.importance == e.importance
    && eq_bool d.pinned e.pinned
    && eq_bool d.active e.active
    && eq_option d.supersedes e.supersedes
    && str_eq d.created_at e.created_at
    && str_eq d.updated_at e.updated_at
