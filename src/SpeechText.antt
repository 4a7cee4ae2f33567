-- ===== src/SpeechText.antt =====
-- core/utils/text_utils.py: what is spoken of a text, and the emotion that its emoji shows. Whether a
-- character is punctuation, which the Unicode database says, is the argument `is_punctuation`.
mod Clean
pub mod Boundary
mod Cuts
mod Examples
use Prim.Native.Char.{Char, code}
use xiaozhi_desk_robot_serve.Text.Words.{
  concat, extend, is_prefix, join, keep_unless, not_space, occurs, squeeze, starts, strip,
  strip_end, strip_start, take_chars, words,
}
use xiaozhi_desk_robot_serve.Prelude.{
  ℕ, String, Bool, true, false, Option, none, some, List, [], ◌∷◌, if◌then◌else◌, not, ◌&&◌, ◌||◌,
  ◌==◌, str_eq,
}
use xiaozhi_desk_robot_serve.Dict.{Dict, lookup}
use xiaozhi_desk_robot_serve.Text.{between, is_space}

-- EMOTION_BY_EMOJI
abbrev pub emotion_by_emoji : Dict String
emotion_by_emoji =
    ("😶", "neutral")
    ∷ ("🙂", "happy")
    ∷ ("😑", "bored")
    ∷ ("😆", "laughing")
    ∷ ("😂", "funny")
    ∷ ("😔", "sad")
    ∷ ("😠", "angry")
    ∷ ("😭", "crying")
    ∷ ("😍", "loving")
    ∷ ("😳", "embarrassed")
    ∷ ("😲", "surprised")
    ∷ ("😱", "shocked")
    ∷ ("🤔", "thinking")
    ∷ ("😉", "winking")
    ∷ ("😎", "cool")
    ∷ ("😌", "relaxed")
    ∷ ("🤤", "delicious")
    ∷ ("😘", "kissy")
    ∷ ("😏", "confident")
    ∷ ("😴", "sleepy")
    ∷ ("😜", "silly")
    ∷ ("🙄", "confused")
    ∷ ("🤨", "suspicious")
    ∷ ("🫨", "shake")
    ∷ []

abbrev pub default_emoji : String
default_emoji = "🙂"

abbrev pub default_emotion : String
default_emotion = "happy"

-- a character's emotion, and what the rest of the text shows where it has none
unfoldable pub first_shown : String → Option String → String × String → String × String
first_shown emoji none rest = rest
first_shown emoji (some emotion) rest = (emoji, emotion)

-- extract_emotion
unfoldable pub extract_emotion : String → String × String
unfolding first_shown
extract_emotion String.[] = (default_emoji, default_emotion)
extract_emotion (String.◌∷◌ c s) =
    let emoji = String.◌∷◌ c String.[] in
    first_shown emoji (lookup emoji emotion_by_emoji) (extract_emotion s)

-- is_emoji_character
unfoldable pub is_emoji : Char → Bool
is_emoji c =
    let n = code c in
    n == 8205
    || n == 8419
    || n == 65039
    || between 127462 127487 n
    || between 127744 128511 n
    || between 128512 128591 n
    || between 128640 128767 n
    || between 129280 129535 n
    || between 129648 129791 n
    || between 9728 9983 n
    || between 9984 10175 n

abbrev space : Char
space = " "

-- the three calls of `replace`: a line break becomes a space, and so does CR LF as one; the Boolean
-- says whether the character before was a CR
unfoldable pub join_lines : Bool → String → String
join_lines after_cr String.[] = String.[]
join_lines after_cr (String.◌∷◌ c s) =
    let rest = join_lines (code c == 13) s in
    if code c == 10 && after_cr
    then rest
    else if code c == 10 || code c == 13
    then String.◌∷◌ space rest
    else String.◌∷◌ c rest

unfoldable pub drop_emojis : String → String
drop_emojis String.[] = String.[]
drop_emojis (String.◌∷◌ c s) =
    let rest = drop_emojis s in if is_emoji c then rest else String.◌∷◌ c rest

-- remove_emojis
unfoldable pub remove_emojis : String → String
remove_emojis s = drop_emojis (join_lines false s)

-- is_edge_separator
unfoldable pub is_edge : (Char → Bool) → Char → Bool
is_edge is_punctuation c = is_space c || is_punctuation c || is_emoji c

-- clean_text_segment, with `strip_edge_separators`
unfoldable pub clean : (Char → Bool) → String → String
clean is_punctuation s =
    let text = strip is_space (remove_emojis s) in
    if str_eq (strip (is_edge is_punctuation) text) "" then "" else text
