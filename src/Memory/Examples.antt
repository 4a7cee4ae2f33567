-- ===== src/Memory/Examples.antt =====
-- A memory at concrete values.
use xiaozhi_desk_robot_serve.Text.Words.{
  extend, join, keep_unless, squeeze, starts, strip, strip_end, strip_start, take_chars, words,
}
use xiaozhi_desk_robot_serve.Prelude.{
  map, str_eq, ◌≡◌, refl, arith, true, false, none, [], ◌∷◌, length,
}
use xiaozhi_desk_robot_serve.Text.{is_word, elem}
use xiaozhi_desk_robot_serve.Dict.{lookup}
use xiaozhi_desk_robot_serve.Memory.{normalize_content, nonempty, normalize_optional}
use xiaozhi_desk_robot_serve.Memory.Entries.{
  Entry, Metadata, or_else, text_or, complete_entry, map_option, normalize_entry,
  normalize_importance, normalize_metadata, normalize_rest, normalize_string_list, normalize_type,
  normalize_given_type, distinct,
}
use xiaozhi_desk_robot_serve.Memory.Search.{
  Rules, expand, alias_of, or_empty, same_text, normalize_for_search,
}
use xiaozhi_desk_robot_serve.Memory.Store.{
  Settings, returned, remember, forget, says, append_new, find_first, keep_last, mutate, new_entry,
  remember_match, remember_rest, remember_with, supersede,
}
use xiaozhi_desk_robot_serve.Memory.Render.{
  project_part, render_entry, render_entries, render_lines, first_line, more_lines, section,
}
use xiaozhi_desk_robot_serve.Memory.Kept.{IsKept}
use xiaozhi_desk_robot_serve.Memory.Runs.{remember_call, forget_call, delete_call, run, run-IsKept}
use xiaozhi_desk_robot_serve.Memory.Forgets.{found_by, retired, forget_lem}

abbrev plain : Rules
plain = record { is_word = is_word; casefold = λ s. s; aliases = ("lamp", "light") ∷ [] }

abbrev small : Settings
small = record { max_entries = 2; entry_max_chars = 50; rules = plain }

abbrev nothing_given : Metadata
nothing_given = record {
  type = none;
  project = none;
  entities = none;
  tags = none;
  importance = none;
  pinned = none;
  active = none;
  supersedes = none;
}

abbrev light_is_red : Entry
light_is_red = record {
  id = "1";
  content = "the light is red";
  type = "fact";
  project = none;
  entities = [];
  tags = [];
  importance = 3;
  pinned = false;
  active = true;
  supersedes = none;
  created_at = "t1";
  updated_at = "t1";
}

remember_run :
    remember small "t1" "1" true "  the light   is red " nothing_given []
    ≡ (light_is_red ∷ [], returned true)
unfolding remember or_else text_or complete_entry map_option normalize_entry normalize_importance
    normalize_metadata normalize_rest normalize_string_list normalize_type normalize_given_type
    distinct append_new find_first keep_last mutate new_entry remember_match remember_rest
    remember_with supersede words extend starts join squeeze take_chars normalize_content nonempty
    normalize_optional strip strip_start strip_end keep_unless elem says same_text or_empty
remember_run = refl

section_run :
    section "Relevant memories:" 40 (light_is_red ∷ [])
    ≡ "Relevant memories:\n- [id=1; type=fact] t"
unfolding section render_entries render_lines first_line more_lines render_entry project_part join
    take_chars strip_end keep_unless
section_run = refl

run-IsKept_example : IsKept small (
    run small
      (("t2", "2", true, remember_call "a key is in the drawer" nothing_given)
        ∷ ("t3", "3", true, remember_call "the door is open" nothing_given)
        ∷ ("t4", "4", false, forget_call "the lamp")
        ∷ ("t5", "5", true, delete_call "2")
        ∷ [])
      (light_is_red ∷ []))
unfolding starts
run-IsKept_example =
    run-IsKept small
      (("t2", "2", true, remember_call "a key is in the drawer" nothing_given)
        ∷ ("t3", "3", true, remember_call "the door is open" nothing_given)
        ∷ ("t4", "4", false, forget_call "the lamp")
        ∷ ("t5", "5", true, delete_call "2")
        ∷ [])
      (light_is_red ∷ []) (omega arith) (omega arith, ((refl, omega arith), tt))

asks_lamp : str_eq (normalize_for_search plain "the lamp") "" ≡ false
unfolding normalize_for_search words extend starts expand alias_of lookup join
asks_lamp = refl

forget_lem_example :
    let (gs, r) = forget small "t2" "2" true "the lamp" (light_is_red ∷ []) in
    (r ≡ returned (length (found_by small "the lamp" (light_is_red ∷ []))))
    × (found_by small "the lamp" gs ≡ [])
    × (gs ≡ map (retired small "t2" "the lamp") (light_is_red ∷ []))
forget_lem_example = forget_lem small "t2" "2" "the lamp" (light_is_red ∷ []) asks_lamp
