-- ===== src/SpeechText/Examples.antt =====
-- The cleaning of texts at concrete values.
use xiaozhi_desk_robot_serve.Text.Words.{keep_unless, strip, strip_end, strip_start}
use xiaozhi_desk_robot_serve.Prelude.{
  String, some, none, not, ◌&&◌, Bool, ◌≡◌, refl, true, false, ◌==◌, ◌||◌,
}
use xiaozhi_desk_robot_serve.Text.{between, is_word}
use xiaozhi_desk_robot_serve.SpeechText.{
  clean, is_edge, remove_emojis, drop_emojis, join_lines, is_emoji,
}
use xiaozhi_desk_robot_serve.SpeechText.Boundary.{
  in_number, test_at, is_missing, head_char, is_cut, put_position, sooner, earliest, scan,
  find_boundary,
}
use xiaozhi_desk_robot_serve.SpeechText.Cuts.{char_at, char_before, find_boundary_rules}
use Prim.Native.Char.{Char, code}

abbrev full_stop_or_comma : Char → Bool
full_stop_or_comma c = code c == 46 || code c == 44

clean_run : clean full_stop_or_comma " hello, 🙂 world.\n" ≡ "hello,  world."
unfolding clean remove_emojis drop_emojis join_lines strip strip_end strip_start keep_unless is_edge
    is_emoji
clean_run = refl

clean_separators : clean full_stop_or_comma " ., 🙂\r\n." ≡ ""
unfolding clean remove_emojis drop_emojis join_lines strip strip_end strip_start keep_unless is_edge
    is_emoji
clean_separators = refl

abbrev ascii_digit : Char → Bool
ascii_digit c = between 48 57 (code c)

abbrev ascii_alnum : Char → Bool
ascii_alnum c = is_word c

abbrev said : String
said = "It is 3.5, I think."

-- the full stop of a number is no cut, and the one at the end of what has arrived is none yet
boundary_run : find_boundary ascii_digit ascii_alnum false full_stop_or_comma said ≡ some 9
unfolding find_boundary scan earliest sooner put_position is_cut in_number test_at is_missing
    head_char
boundary_run = refl

boundary_waits : find_boundary ascii_digit ascii_alnum false full_stop_or_comma "It is 3." ≡ none
unfolding find_boundary scan earliest sooner put_position is_cut in_number test_at is_missing
    head_char
boundary_waits = refl

find_boundary_rules_example :
    let before = char_before 9 said in
    let next = char_at 10 said in
    (c : Char) × (char_at 9 said ≡ some c)
    × (full_stop_or_comma c ≡ true)
    × (in_number c ≡ true
        → test_at ascii_digit before ≡ true
        → (test_at ascii_digit next ≡ false) × ((is_missing next && not false) ≡ false))
    × ((code c == 46) ≡ true
        → ((is_missing next && not false) ≡ false)
          × ((test_at ascii_alnum before && test_at ascii_alnum next) ≡ false))
find_boundary_rules_example =
    find_boundary_rules ascii_digit ascii_alnum false full_stop_or_comma said 9 boundary_run
