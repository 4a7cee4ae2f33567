-- ===== src/Memory/Changes.antt =====
-- `forget`, `update_entry` and `delete_entry` of core/explicit_memory.py keep the invariant of the entries.
use xiaozhi_desk_robot_serve.Text.Words.{not_space, starts}
use xiaozhi_desk_robot_serve.Prelude.{
  ◌≤◌, ◌<◌, String, ◌≡◌, refl, Bool, true, not, Option, none, some, List, [], ◌∷◌, arith, All,
  length, Bool-cases, Option-cases, inl, inr, if◌then◌else◌, ◌==◌, str_eq,
}
use xiaozhi_desk_robot_serve.Memory.{normalize_content}
use xiaozhi_desk_robot_serve.Memory.Normal.{normalize_content-starts}
use xiaozhi_desk_robot_serve.Memory.Entries.{Entry, Metadata, or_else, normalize_metadata}
use xiaozhi_desk_robot_serve.Memory.Store.{
  Settings, find_first, has_id, supersede, itself, is_positive, is_forgotten, forget_all, forget,
  rewrite_entry, update_rest, names_itself, update_found, update_with, update_entry, without_id,
  delete_entry,
}
use xiaozhi_desk_robot_serve.Memory.Search.{normalize_for_search}
use xiaozhi_desk_robot_serve.Memory.Kept.{Sound, IsKept}
use xiaozhi_desk_robot_serve.Memory.Remembers.{
  MetadataInRange, AllOption, normalize_metadata-InRange, deactivate-Sound, rewrite_entry-Sound,
  moved-IsKept, supersede-IsKept, ResultKept, mutate-IsKept,
}

module _ (s : Settings) (now new_id : String) (positive : 0 < s.entry_max_chars) where
  pub forget_all-IsKept :
      (normalized : String) (es : List Entry)
      → (length (forget_all s now new_id normalized es).1 ≡ length es)
        × (All Sound es → All Sound (forget_all s now new_id normalized es).1)
  unfolding forget_all
  forget_all-IsKept normalized [] = (refl, λ a. a)
  forget_all-IsKept normalized (e ∷ es) =
      let (l, k) = forget_all-IsKept normalized es in
      elim (Bool-cases (is_forgotten s now new_id normalized e)) [
        | inl hit ↦
            rw hit (omega (arith, l), λ a. (deactivate-Sound s now new_id positive e a.0, k a.1))
        | inr miss ↦ rw miss (omega (arith, l), λ a. (a.0, k a.1))
      ]

  pub forget-IsKept :
      (saves : Bool) (query : String) (es : List Entry)
      → IsKept s es
      → IsKept s (forget s now new_id saves query es).0
  unfolding forget
  forget-IsKept saves query es (l, a) =
      let normalized = normalize_for_search s.rules query in
      let (m, k) = forget_all-IsKept normalized es in
      elim (Bool-cases (str_eq normalized "")) [
        | inl empty ↦ rw empty (l, a)
        | inr asks ↦ rw asks (
            mutate-IsKept s now new_id positive saves is_positive es
              (some (forget_all s now new_id normalized es)) (l, a) (omega (arith, m), k a))
      ]

  pub update_rest-IsKept :
      (i content : String) (m : Metadata) (o : Option (List Entry))
      → starts not_space content ≡ true
      → MetadataInRange m
      → AllOption (IsKept s) o
      → ResultKept s now new_id positive (update_rest s now new_id i content m o)
  unfolding update_rest
  update_rest-IsKept i content m none c k h = tt
  update_rest-IsKept i content m (some es) c k h = elim (Option-cases (find_first (has_id i) es)) [
    | inl missing ↦ rw (missing, update_rest) h
    | inr (e, found) ↦
        rw (found, update_rest)
          (moved-IsKept s now new_id positive (has_id i) (rewrite_entry s now new_id content m) es e
            found (rewrite_entry-Sound s now new_id positive content m c k) h)
  ]

  pub update_found-IsKept :
      (i content : String) (m : Metadata) (es : List Entry) (o : Option Entry)
      → starts not_space content ≡ true
      → MetadataInRange m
      → IsKept s es
      → ResultKept s now new_id positive (update_found s now new_id i content m es o)
  unfolding update_found
  update_found-IsKept i content m es none c k h = h
  update_found-IsKept i content m es (some e) c k h =
      elim (Bool-cases (names_itself s now new_id e.id (or_else m.supersedes none))) [
        | inl itself ↦ rw itself tt
        | inr other ↦ rw other (
            update_rest-IsKept i content m (supersede now (or_else m.supersedes none) es) c k
              (supersede-IsKept s now new_id positive (or_else m.supersedes none) es h))
      ]

  pub update_entry-IsKept :
      (saves : Bool) (i content : String) (m : Metadata) (es : List Entry)
      → IsKept s es
      → IsKept s (update_entry s now new_id saves i content m es).0
  unfolding update_entry update_with
  update_entry-IsKept saves i content m es h =
      let normalized = normalize_content s.entry_max_chars content in
      elim (Bool-cases (str_eq normalized "")) [
        | inl empty ↦ rw empty h
        | inr speaks ↦ rw speaks (
            go (normalize_metadata s.rules.casefold m)
              (normalize_metadata-InRange s.rules.casefold m)
              (normalize_content-starts s.entry_max_chars content positive speaks))
      ]
    where
      go :
          (o : Option Metadata)
          → AllOption MetadataInRange o
          → starts not_space (normalize_content s.entry_max_chars content) ≡ true
          → IsKept s
              (update_with s now new_id saves i
                (normalize_content s.entry_max_chars content)
                es
                o).0
      go none k c = h
      go (some n) k c =
          mutate-IsKept s now new_id positive saves itself es
            (update_found s now new_id i (normalize_content s.entry_max_chars content) n es
              (find_first (has_id i) es))
            h
            (update_found-IsKept i (normalize_content s.entry_max_chars content) n es
              (find_first (has_id i) es) c k h)

pub without_id-IsKept :
    (i : String) (es : List Entry)
    → (length (without_id i es) ≤ length es) × (All Sound es → All Sound (without_id i es))
unfolding without_id
without_id-IsKept i [] = (omega arith, λ a. a)
without_id-IsKept i (e ∷ es) =
    let (l, k) = without_id-IsKept i es in
    elim (Bool-cases (has_id i e)) [
      | inl hit ↦ rw hit (omega (arith, l), λ a. k a.1)
      | inr miss ↦ rw miss (omega (arith, l), λ a. (a.0, k a.1))
    ]

pub delete_entry-IsKept :
    (s : Settings) (now new_id : String) (positive : 0 < s.entry_max_chars) (saves : Bool)
    (i : String) (es : List Entry)
    → IsKept s es
    → IsKept s (delete_entry saves i es).0
unfolding delete_entry
delete_entry-IsKept s now new_id positive saves i es (l, a) =
    let (m, k) = without_id-IsKept i es in
    let same = length (without_id i es) == length es in
    mutate-IsKept s now new_id positive saves itself es
      (some (not same, if same then es else without_id i es)) (l, a)
      (elim (Bool-cases same) [
        | inl stays ↦ rw stays (l, a)
        | inr goes ↦ rw goes (omega (arith, m), k a)
      ])
