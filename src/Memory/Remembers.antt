-- ===== src/Memory/Remembers.antt =====
-- `remember` of core/explicit_memory.py keeps the invariant of the entries.
use xiaozhi_desk_robot_serve.Text.Words.{not_space, starts}
use xiaozhi_desk_robot_serve.Prelude.{
  ℕ, ◌-◌, ◌<◌, String, ◌≡◌, refl, Bool, true, Option, none, some, List, [], ◌∷◌, ◌++◌, arith,
  All-append, length, length-append, Bool-cases, inl, inr, str_eq,
}
use xiaozhi_desk_robot_serve.Memory.{normalize_content}
use xiaozhi_desk_robot_serve.Memory.Normal.{normalize_content-starts, normalize_content-again}
use xiaozhi_desk_robot_serve.Memory.Entries.{
  Entry, Metadata, or_else, map_option, normalize_importance, normalize_given_type, normalize_rest,
  normalize_metadata, complete_entry, normalize_entry, normalize_type, update_fields,
}
use xiaozhi_desk_robot_serve.Memory.Store.{
  Settings, find_first, revise, remove_entry, move_last, keep_last, has_id, deactivate, refresh,
  supersede_found, supersede, mutate, itself, says, append_new, new_entry, remember_match,
  remember_rest, remember_with, remember, rewrite_entry,
}
use xiaozhi_desk_robot_serve.Memory.Kept.{
  InRange, Sound, IsKept, length-revise, revise-Sound, remove_entry-Sound, length-remove-revise,
  find_first-Sound, drop-Sound, length-keep_last, normalize_importance-InRange,
}

pub or_else-InRange :
    (o : Option ℕ) (k : ℕ) → InRange (or_else o 3) → InRange k → InRange (or_else o k)
unfolding or_else
or_else-InRange none k h i = i
or_else-InRange (some n) k h i = h

-- metadata that have been normalized
abbrev pub MetadataInRange : Metadata → Type 0
MetadataInRange m = InRange (or_else m.importance 3)

pub given_importance : (o : Option ℕ) → InRange (or_else (map_option normalize_importance o) 3)
unfolding or_else map_option
given_importance none = omega arith
given_importance (some n) = normalize_importance-InRange n

abbrev pub AllOption {ℓ} : {A : Type ℓ} → (A → Type 0) → Option A → Type 0
AllOption P none = Unit
AllOption P (some a) = P a

pub normalize_metadata-InRange :
    (casefold : String → String) (m : Metadata)
    → AllOption MetadataInRange (normalize_metadata casefold m)
unfolding normalize_metadata normalize_rest
normalize_metadata-InRange casefold m = go (normalize_given_type casefold m.type)
  where
    go :
        (t : Option (Option String))
        → AllOption MetadataInRange (map_option (normalize_rest casefold m) t)
    go none = tt
    go (some t) = given_importance m.importance

module _ (s : Settings) (now new_id : String) (positive : 0 < s.entry_max_chars) where
  pub deactivate-Sound : (e : Entry) → Sound e → Sound (deactivate now e)
  unfolding deactivate
  deactivate-Sound e h = h

  pub refresh-Sound :
      (m : Metadata) → MetadataInRange m → (e : Entry) → Sound e → Sound (refresh now m e)
  unfolding refresh update_fields
  refresh-Sound m k e (h, i) = (h, or_else-InRange m.importance e.importance k i)

  pub rewrite_entry-Sound :
      (content : String) (m : Metadata)
      → starts not_space content ≡ true
      → MetadataInRange m
      → (e : Entry) → Sound e
      → Sound (rewrite_entry s now new_id content m e)
  unfolding rewrite_entry
  rewrite_entry-Sound content m c k e (h, i) =
      refresh-Sound m k (record e { content = content }) (c, i)

  pub moved-IsKept :
      (test : Entry → Bool) (change : Entry → Entry) (es : List Entry) (e : Entry)
      → find_first test es ≡ some e
      → ((d : Entry) → Sound d → Sound (change d))
      → IsKept s es
      → IsKept s (move_last (change e) (revise test change es))
  unfolding move_last
  moved-IsKept test change es e found k (l, a) =
      let revised = revise test change es in
      (
        omega (
          arith,
          length-remove-revise test change es e found,
          length-append (remove_entry (change e) revised) (change e ∷ []),
        ),
        All-append Sound (remove_entry (change e) revised) (change e ∷ [])
            (remove_entry-Sound (change e) revised (revise-Sound test change es k a))
            (k e (find_first-Sound test es e a found), tt),
      )

  pub supersede-IsKept :
      (old : Option String) (es : List Entry)
      → IsKept s es
      → AllOption (IsKept s) (supersede now old es)
  unfolding supersede
  supersede-IsKept none es h = h
  supersede-IsKept (some i) es h = go (find_first (has_id i) es)
    where
      go : (o : Option Entry) → AllOption (IsKept s) (supersede_found now i es o)
      go none = tt
      go (some e) = (
        omega (arith, length-revise (has_id i) (deactivate now) es),
        revise-Sound (has_id i) (deactivate now) es deactivate-Sound h.1,
      )

  abbrev pub ResultKept {ℓ} : {A : Type ℓ} → Option (A × List Entry) → Type 0
  ResultKept = AllOption (λ r. IsKept s r.1)

  pub mutate-IsKept {ℓ} :
      {A : Type ℓ} (saves : Bool) (holds : A → Bool) (es : List Entry) (r : Option (A × List Entry))
      → IsKept s es
      → ResultKept r
      → IsKept s (mutate saves holds es r).0
  unfolding mutate
  mutate-IsKept saves holds es none h k = h
  mutate-IsKept saves holds es (some (a, c)) h k = elim (Bool-cases (holds a)) [
    | inl changes ↦ rw changes k
    | inr stays ↦ rw stays h
  ]

  pub append_new-IsKept :
      (es : List Entry) (o : Option Entry)
      → IsKept s es
      → AllOption Sound o
      → ResultKept (append_new s now new_id es o)
  unfolding append_new keep_last
  append_new-IsKept es none h k = tt
  append_new-IsKept es (some e) (l, a) k = (
    length-keep_last s.max_entries (es ++ e ∷ []),
    drop-Sound (length (es ++ e ∷ []) - s.max_entries) (es ++ e ∷ [])
        (All-append Sound es (e ∷ []) a (k, tt)),
  )

  pub new_entry-Sound :
      (content : String) (m : Metadata)
      → starts not_space content ≡ true
      → AllOption Sound (new_entry s now new_id content m)
  unfolding new_entry normalize_entry complete_entry or_else
  new_entry-Sound content m c = go (normalize_type s.rules.casefold (or_else m.type "fact"))
    where
      go :
          (t : Option String)
          → AllOption Sound (
              map_option
                (complete_entry s.rules.casefold s.entry_max_chars now new_id (record {
                  id = some new_id;
                  content = some content;
                  created_at = some now;
                  updated_at = some now;
                  fields = m;
                }))
                t)
      go none = tt
      go (some t) = (
        normalize_content-again s.entry_max_chars content positive c,
        normalize_importance-InRange (or_else m.importance 3),
      )

  pub remember_match-IsKept :
      (content : String) (m : Metadata) (es : List Entry) (o : Option Entry)
      → starts not_space content ≡ true
      → MetadataInRange m
      → IsKept s es
      → ((e : Entry)
          → o ≡ some e
          → find_first (says s now new_id content (or_else m.project none)) es ≡ some e)
      → ResultKept (remember_match s now new_id content m es o)
  unfolding remember_match
  remember_match-IsKept content m es none c k h f =
      append_new-IsKept es (new_entry s now new_id content m) h (new_entry-Sound content m c)
  remember_match-IsKept content m es (some e) c k h f =
      moved-IsKept (says s now new_id content (or_else m.project none)) (refresh now m) es e
        (f e refl) (refresh-Sound m k) h

  pub remember_rest-IsKept :
      (content : String) (m : Metadata) (old : Option String) (o : Option (List Entry))
      → starts not_space content ≡ true
      → MetadataInRange m
      → AllOption (IsKept s) o
      → ResultKept (remember_rest s now new_id content m old o)
  unfolding remember_rest
  remember_rest-IsKept content m old none c k h = tt
  remember_rest-IsKept content m (some i) (some es) c k h =
      remember_match-IsKept content m es none c k h (λ e. λ p. cc)
  remember_rest-IsKept content m none (some es) c k h =
      remember_match-IsKept content m es
        (find_first (says s now new_id content (or_else m.project none)) es) c k h (λ e p. p)

  pub remember-IsKept :
      (saves : Bool) (content : String) (m : Metadata) (es : List Entry)
      → IsKept s es
      → IsKept s (remember s now new_id saves content m es).0
  unfolding remember remember_with
  remember-IsKept saves content m es h =
      let normalized = normalize_content s.entry_max_chars content in
      elim (Bool-cases (str_eq normalized "")) [
        | inl empty ↦ rw empty h
        | inr speaks ↦ rw speaks (
            go (normalize_metadata s.rules.casefold m)
              (normalize_metadata-InRange s.rules.casefold m)
              (normalize_content-starts s.entry_max_chars content positive speaks))
      ]
    where
      go :
          (o : Option Metadata)
          → AllOption MetadataInRange o
          → starts not_space (normalize_content s.entry_max_chars content) ≡ true
          → IsKept s
              (remember_with s now new_id saves
                (normalize_content s.entry_max_chars content)
                es
                o).0
      go none k c = h
      go (some n) k c =
          mutate-IsKept saves itself es
            (remember_rest s now new_id (normalize_content s.entry_max_chars content) n
              (or_else n.supersedes none) (supersede now (or_else n.supersedes none) es))
            h
            (remember_rest-IsKept (normalize_content s.entry_max_chars content) n
              (or_else n.supersedes none) (supersede now (or_else n.supersedes none) es) c k
              (supersede-IsKept (or_else n.supersedes none) es h))
