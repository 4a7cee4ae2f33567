-- ===== src/Memory/Store.antt =====
-- The methods of ExplicitMemory that change the entries of a device, with local storage. A call has the
-- clock reading `now`, a new identifier, and whether the file can be written, `saves`. An entry of the
-- list is changed in place where it is found, and removed by equality.
use xiaozhi_desk_robot_serve.Text.Words.{occurs}
use xiaozhi_desk_robot_serve.Prelude.{
  ℕ, zero, suc, ◌-◌, String, Bool, true, false, not, ◌&&◌, Option, none, some, List, [], ◌∷◌, ◌++◌,
  if◌then◌else◌, str_eq, length, drop, ◌==◌,
}
use xiaozhi_desk_robot_serve.Memory.{normalize_content}
use xiaozhi_desk_robot_serve.Memory.Entries.{
  Entry, Metadata, or_else, normalize_metadata, normalize_entry, update_fields, eq_entry,
}
use xiaozhi_desk_robot_serve.Memory.Search.{Rules, normalize_for_search, same_text}

pub record Settings : Type 0 where
  pub max_entries : ℕ
  pub entry_max_chars : ℕ
  pub rules : Rules

pub data Result {ℓ} (A : Type ℓ) : Type ℓ where
  returned : A → Result A
  raised : Result A

-- `next((entry for entry in entries if test(entry)), None)`
unfoldable pub find_first : (Entry → Bool) → List Entry → Option Entry
find_first test [] = none
find_first test (e ∷ es) = if test e then some e else find_first test es

-- the entry that `find_first` finds is changed in place
unfoldable pub revise : (Entry → Bool) → (Entry → Entry) → List Entry → List Entry
revise test change [] = []
revise test change (e ∷ es) =
    let rest = revise test change es in if test e then change e ∷ es else e ∷ rest

-- entries.remove(entry); entries.append(entry)
unfoldable pub remove_entry : Entry → List Entry → List Entry
remove_entry d [] = []
remove_entry d (e ∷ es) = let rest = remove_entry d es in if eq_entry e d then es else e ∷ rest

unfoldable pub move_last : Entry → List Entry → List Entry
move_last e es = remove_entry e es ++ e ∷ []

-- entries[-n:]
unfoldable pub keep_last {ℓ} : {A : Type ℓ} → ℕ → List A → List A
keep_last n xs = drop (length xs - n) xs

abbrev pub has_id : String → Entry → Bool
has_id i e = str_eq e.id i

unfoldable pub deactivate : String → Entry → Entry
deactivate now e = record e { active = false; updated_at = now }

unfoldable pub refresh : String → Metadata → Entry → Entry
refresh now m e = record (update_fields m e) { updated_at = now }

-- the superseded entry becomes inactive; `none` where it is not found
unfoldable pub supersede_found : String → String → List Entry → Option Entry → Option (List Entry)
supersede_found now i es none = none
supersede_found now i es (some e) = some (revise (has_id i) (deactivate now) es)

unfoldable pub supersede : String → Option String → List Entry → Option (List Entry)
unfolding supersede_found
supersede now none es = some es
supersede now (some i) es = supersede_found now i es (find_first (has_id i) es)

-- _mutate_entries without a storage
unfoldable pub mutate {ℓ} :
    {A : Type ℓ} → Bool → (A → Bool) → List Entry → Option (A × List Entry) → List Entry × Result A
mutate saves holds es none = (es, raised)
mutate saves holds es (some (a, candidate)) =
    if holds a then (candidate, if saves then returned a else raised) else (es, returned a)

abbrev pub itself : Bool → Bool
itself b = b

abbrev pub is_positive : ℕ → Bool
is_positive zero = false
is_positive (suc n) = true

module _ (s : Settings) (now new_id : String) where
  -- the entry that says the same of the same project
  unfoldable pub says : String → Option String → Entry → Bool
  says content project e =
      str_eq (s.rules.casefold e.content) (s.rules.casefold content)
      && same_text s.rules e.project project

  unfoldable pub append_new : List Entry → Option Entry → Option (Bool × List Entry)
  append_new es none = none
  append_new es (some e) = some (true, keep_last s.max_entries (es ++ e ∷ []))

  unfoldable pub new_entry : String → Metadata → Option Entry
  new_entry content m = normalize_entry s.rules.casefold s.entry_max_chars now new_id (record {
    id = some new_id;
    content = some content;
    created_at = some now;
    updated_at = some now;
    fields = m;
  })

  -- the matching entry is renewed, or a new one is appended
  unfoldable pub remember_match :
      String → Metadata → List Entry → Option Entry → Option (Bool × List Entry)
  unfolding append_new new_entry
  remember_match content m es none = append_new es (new_entry content m)
  remember_match content m es (some e) = some (
    true,
    move_last (refresh now m e) (revise (says content (or_else m.project none)) (refresh now m) es),
  )

  unfoldable pub remember_rest :
      String → Metadata → Option String → Option (List Entry) → Option (Bool × List Entry)
  unfolding remember_match
  remember_rest content m old none = none
  remember_rest content m (some i) (some es) = remember_match content m es none
  remember_rest content m none (some es) =
      remember_match content m es (find_first (says content (or_else m.project none)) es)

  unfoldable pub remember_with :
      Bool → String → List Entry → Option Metadata → List Entry × Result Bool
  unfolding remember_rest
  remember_with saves content es none = (es, raised)
  remember_with saves content es (some m) =
      let old = or_else m.supersedes none in
      mutate saves itself es (remember_rest content m old (supersede now old es))

  -- remember
  unfoldable pub remember : Bool → String → Metadata → List Entry → List Entry × Result Bool
  unfolding remember_with
  remember saves content m es =
      let normalized = normalize_content s.entry_max_chars content in
      if str_eq normalized ""
      then (es, returned false)
      else remember_with saves normalized es (normalize_metadata s.rules.casefold m)

  unfoldable pub is_forgotten : String → Entry → Bool
  is_forgotten normalized e = e.active && occurs normalized (normalize_for_search s.rules e.content)

  -- the loop of `forget`
  unfoldable pub forget_all : String → List Entry → ℕ × List Entry
  forget_all normalized [] = (0, [])
  forget_all normalized (e ∷ es) =
      let (n, rest) = forget_all normalized es in
      if is_forgotten normalized e then (suc n, deactivate now e ∷ rest) else (n, e ∷ rest)

  -- forget
  unfoldable pub forget : Bool → String → List Entry → List Entry × Result ℕ
  forget saves query es =
      let normalized = normalize_for_search s.rules query in
      if str_eq normalized ""
      then (es, returned 0)
      else mutate saves is_positive es (some (forget_all normalized es))

  unfoldable pub rewrite_entry : String → Metadata → Entry → Entry
  rewrite_entry content m e = refresh now m (record e { content = content })

  unfoldable pub update_rest :
      String → String → Metadata → Option (List Entry) → Option (Bool × List Entry)
  update_rest i content m none = none
  update_rest i content m (some es) = elim (find_first (has_id i) es) [
    | none ↦ some (false, es)
    | some e ↦ some (
      true,
      move_last (rewrite_entry content m e) (revise (has_id i) (rewrite_entry content m) es),
    )
  ]

  -- a memory does not supersede itself
  unfoldable pub names_itself : String → Option String → Bool
  names_itself i none = false
  names_itself i (some j) = str_eq j i

  unfoldable pub update_found :
      String → String → Metadata → List Entry → Option Entry → Option (Bool × List Entry)
  unfolding update_rest names_itself
  update_found i content m es none = some (false, es)
  update_found i content m es (some e) =
      let old = or_else m.supersedes none in
      if names_itself e.id old then none else update_rest i content m (supersede now old es)

  unfoldable pub update_with :
      Bool → String → String → List Entry → Option Metadata → List Entry × Result Bool
  unfolding update_found
  update_with saves i content es none = (es, raised)
  update_with saves i content es (some m) =
      mutate saves itself es (update_found i content m es (find_first (has_id i) es))

  -- update_entry
  unfoldable pub update_entry :
      Bool → String → String → Metadata → List Entry → List Entry × Result Bool
  unfolding update_with
  update_entry saves i content m es =
      let normalized = normalize_content s.entry_max_chars content in
      if str_eq normalized ""
      then (es, raised)
      else update_with saves i normalized es (normalize_metadata s.rules.casefold m)

-- [entry for entry in entries if entry.get("id") != str(entry_id)]
unfoldable pub without_id : String → List Entry → List Entry
without_id i [] = []
without_id i (e ∷ es) = let rest = without_id i es in if has_id i e then rest else e ∷ rest

-- delete_entry
unfoldable pub delete_entry : Bool → String → List Entry → List Entry × Result Bool
delete_entry saves i es =
    let kept = without_id i es in
    let same = length kept == length es in
    mutate saves itself es (some (not same, if same then es else kept))
