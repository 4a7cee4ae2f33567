-- ===== src/Memory/Kept.antt =====
-- The invariant of a device's entries, and that each method keeps it.
use mathlib.Core.Option.{some-injective}
use xiaozhi_desk_robot_serve.Text.Words.{not_space, starts}
use xiaozhi_desk_robot_serve.Prelude.{
  ℕ, zero, suc, ◌-◌, ◌≤◌, ◌<◌, String, ◌≡◌, refl, subst, Bool, true, false, Option, none, some,
  List, [], ◌∷◌, arith, All, length, drop, length-drop, Bool-cases, inl, inr, if◌then◌else◌,
  eq_refl,
}
use xiaozhi_desk_robot_serve.Memory.Entries.{
  Entry, normalize_importance, eq_list, eq_option, eq_bool, eq_entry,
}
use xiaozhi_desk_robot_serve.Memory.Store.{Settings, find_first, revise, remove_entry, keep_last}

abbrev pub InRange : ℕ → Type 0
InRange n = (1 ≤ n) × (n ≤ 5)

abbrev pub Sound : Entry → Type 0
Sound e = (starts not_space e.content ≡ true) × InRange e.importance

abbrev pub IsKept : Settings → List Entry → Type 0
IsKept s es = (length es ≤ s.max_entries) × All Sound es

pub eq_list_refl : (ss : List String) → eq_list ss ss ≡ true
unfolding eq_list
eq_list_refl [] = refl
eq_list_refl (s ∷ ss) = rw (eq_refl s) (eq_list_refl ss)

pub eq_option_refl : (o : Option String) → eq_option o o ≡ true
unfolding eq_option
eq_option_refl none = refl
eq_option_refl (some s) = eq_refl s

pub eq_bool_refl : (b : Bool) → eq_bool b b ≡ true
unfolding eq_bool
eq_bool_refl true = refl
eq_bool_refl false = refl

pub eq_entry_refl : (e : Entry) → eq_entry e e ≡ true
unfolding eq_entry
eq_entry_refl e = ground (
  arith,
  eq_refl e.id,
  eq_refl e.content,
  eq_refl e.type,
  eq_option_refl e.project,
  eq_list_refl e.entities,
  eq_list_refl e.tags,
  eq_bool_refl e.pinned,
  eq_bool_refl e.active,
  eq_option_refl e.supersedes,
  eq_refl e.created_at,
  eq_refl e.updated_at,
)

pub length-revise :
    (test : Entry → Bool) (change : Entry → Entry) (es : List Entry)
    → length (revise test change es) ≡ length es
unfolding revise
length-revise test change [] = refl
length-revise test change (e ∷ es) = ground (arith, length-revise test change es)

pub revise-Sound :
    (test : Entry → Bool) (change : Entry → Entry) (es : List Entry)
    → ((e : Entry) → Sound e → Sound (change e))
    → All Sound es
    → All Sound (revise test change es)
unfolding revise
revise-Sound test change [] k a = tt
revise-Sound test change (e ∷ es) k (h, a) = elim (Bool-cases (test e)) [
  | inl hit ↦ rw hit (k e h, a)
  | inr miss ↦ rw miss (h, revise-Sound test change es k a)
]

pub remove_entry-Sound :
    (d : Entry) (es : List Entry) → All Sound es → All Sound (remove_entry d es)
unfolding remove_entry
remove_entry-Sound d [] a = tt
remove_entry-Sound d (e ∷ es) (h, a) = elim (Bool-cases (eq_entry e d)) [
  | inl hit ↦ rw hit a
  | inr miss ↦ rw miss (h, remove_entry-Sound d es a)
]

pub shorter_tail :
    (d f : Entry) (ds es : List Entry)
    → length (remove_entry f ds) < length es
    → length ds ≡ length es
    → length (remove_entry f (d ∷ ds)) < suc (length es)
unfolding remove_entry
shorter_tail d f ds es h k = elim (Bool-cases (eq_entry d f)) [
  | inl hit ↦ rw hit (omega arith)
  | inr miss ↦ rw miss (omega arith)
]

-- the entry that was changed is there to be removed
pub length-remove-revise :
    (test : Entry → Bool) (change : Entry → Entry) (es : List Entry) (e : Entry)
    → find_first test es ≡ some e
    → length (remove_entry (change e) (revise test change es)) < length es
unfolding find_first revise remove_entry
length-remove-revise test change [] e h = cc
length-remove-revise test change (d ∷ es) e h = elim (Bool-cases (test d)) [
  | inl hit ↦
      let found : (if test d then some d else find_first test es) ≡ some e = h in
      let same : d ≡ e = some-injective d e (rw hit at found) in
      rw (hit, same) (rw (eq_entry_refl (change e)) (omega arith))
  | inr miss ↦
      let found : (if test d then some d else find_first test es) ≡ some e = h in
      let rest = length-remove-revise test change es e (rw miss at found) in
      rw miss
        (shorter_tail d (change e) (revise test change es) es rest (length-revise test change es))
]

pub find_first-Sound :
    (test : Entry → Bool) (es : List Entry) (e : Entry)
    → All Sound es
    → find_first test es ≡ some e
    → Sound e
unfolding find_first
find_first-Sound test [] e a h = cc
find_first-Sound test (d ∷ es) e (k, a) h = elim (Bool-cases (test d)) [
  | inl hit ↦
      let found : (if test d then some d else find_first test es) ≡ some e = h in
      subst Sound (some-injective d e (rw hit at found)) k
  | inr miss ↦
      let found : (if test d then some d else find_first test es) ≡ some e = h in
      find_first-Sound test es e a (rw miss at found)
]

pub drop-Sound : (n : ℕ) (es : List Entry) → All Sound es → All Sound (drop n es)
drop-Sound zero es a = a
drop-Sound (suc n) [] a = a
drop-Sound (suc n) (e ∷ es) (h, a) = drop-Sound n es a

pub length-keep_last {ℓ} : {A : Type ℓ} (n : ℕ) (xs : List A) → length (keep_last n xs) ≤ n
unfolding keep_last
length-keep_last n xs = omega (arith, length-drop (length xs - n) xs)

pub normalize_importance-InRange : (n : ℕ) → InRange (normalize_importance n)
unfolding normalize_importance
normalize_importance-InRange n = ground arith
