-- ===== src/SpeechText/Clean.antt =====
-- What core/utils/text_utils.py leaves of a text to speak, and the emotion it reads.
use Prim.Native.Char.{Char}
use xiaozhi_desk_robot_serve.Text.Words.{keep_unless, strip, strip_end, strip_start}
use xiaozhi_desk_robot_serve.Prelude.{
  String, Bool, ◌≡◌, ◌⊎◌, inl, inr, refl, true, false, Option, none, some, not, arith, str_eq,
  Bool-cases,
}
use xiaozhi_desk_robot_serve.Dict.{lookup}
use xiaozhi_desk_robot_serve.Text.{all_chars, is_space}
use xiaozhi_desk_robot_serve.SpeechText.{
  emotion_by_emoji, default_emoji, default_emotion, first_shown, extract_emotion, is_emoji,
  join_lines, drop_emojis, remove_emojis, is_edge, clean,
}

default-lookup : lookup default_emoji emotion_by_emoji ≡ some default_emotion
unfolding lookup
default-lookup = refl

abbrev InTable : String × String → Type 0
InTable (emoji, emotion) = lookup emoji emotion_by_emoji ≡ some emotion

first_shown-InTable :
    (emoji : String) (found : Option String) (rest : String × String)
    → lookup emoji emotion_by_emoji ≡ found
    → InTable rest
    → InTable (first_shown emoji found rest)
unfolding first_shown
first_shown-InTable emoji none rest h k = k
first_shown-InTable emoji (some emotion) rest h k = h

-- Whatever the text, the emotion that is shown is the one of its emoji in the table.
pub extract_emotion-lookup :
    (s : String)
    → let (emoji, emotion) = extract_emotion s in lookup emoji emotion_by_emoji ≡ some emotion
unfolding extract_emotion
extract_emotion-lookup String.[] = default-lookup
extract_emotion-lookup (String.◌∷◌ c s) =
    let emoji = String.◌∷◌ c String.[] in
    first_shown-InTable emoji (lookup emoji emotion_by_emoji) (extract_emotion s) refl
      (extract_emotion-lookup s)

abbrev pub not_emoji : Char → Bool
not_emoji c = not (is_emoji c)

all-drop_emojis : (s : String) → all_chars not_emoji (drop_emojis s) ≡ true
unfolding all_chars drop_emojis
all-drop_emojis String.[] = refl
all-drop_emojis (String.◌∷◌ c s) = ground (arith, all-drop_emojis s)

all-strip_start :
    (p test : Char → Bool) (s : String)
    → all_chars p s ≡ true
    → all_chars p (strip_start test s) ≡ true
unfolding all_chars strip_start
all-strip_start p test String.[] h = refl
all-strip_start p test (String.◌∷◌ c s) h = ground (arith, all-strip_start p test s)

all-keep_unless :
    (p test : Char → Bool) (c : Char) (s : String)
    → p c ≡ true
    → all_chars p s ≡ true
    → all_chars p (keep_unless test c s) ≡ true
unfolding all_chars keep_unless
all-keep_unless p test c String.[] h k = elim (Bool-cases (test c)) [
  | inl drops ↦ rw drops refl
  | inr keeps ↦ rw keeps (rw h refl)
]
all-keep_unless p test c (String.◌∷◌ d s) h k = ground arith

all-strip_end :
    (p test : Char → Bool) (s : String)
    → all_chars p s ≡ true
    → all_chars p (strip_end test s) ≡ true
unfolding all_chars strip_end
all-strip_end p test String.[] h = refl
all-strip_end p test (String.◌∷◌ c s) h =
    ground (arith, all-strip_end p test s, all-keep_unless p test c (strip_end test s))

-- a text of characters that go is stripped away
strip_start-all :
    (test : Char → Bool) (s : String) → all_chars test s ≡ true → strip_start test s ≡ ""
unfolding all_chars strip_start
strip_start-all test String.[] h = refl
strip_start-all test (String.◌∷◌ c s) h = ground (arith, strip_start-all test s)

strip-all : (test : Char → Bool) (s : String) → all_chars test s ≡ true → strip test s ≡ ""
unfolding strip strip_end
strip-all test s h = rw (strip_start-all test s h) refl

-- what is left at the ends of a text has no emoji where the text has none
all-strip :
    (p test : Char → Bool) (s : String) → all_chars p s ≡ true → all_chars p (strip test s) ≡ true
unfolding strip
all-strip p test s h = all-strip_end p test (strip_start test s) (all-strip_start p test s h)

-- What is left to speak of any text has no emoji, and unless it is empty it has a character that is
-- neither white space nor punctuation.
pub clean-speaks :
    (is_punctuation : Char → Bool) (s : String)
    → let spoken = clean is_punctuation s in
      (all_chars not_emoji spoken ≡ true)
      × ((spoken ≡ "") ⊎ (all_chars (is_edge is_punctuation) spoken ≡ false))
unfolding clean all_chars remove_emojis
clean-speaks is_punctuation s =
    let edge = is_edge is_punctuation in
    let text = strip is_space (remove_emojis s) in
    let no_emoji : all_chars not_emoji text ≡ true =
      all-strip not_emoji is_space (remove_emojis s) (all-drop_emojis (join_lines false s)) in
    elim (Bool-cases (str_eq (strip edge text) "")) [
      | inl empty ↦ rw empty (refl, inl refl)
      | inr speaks ↦ rw speaks (
        no_emoji,
        inr (elim (Bool-cases (all_chars edge text)) [
          | inl all_edge ↦
              let same : str_eq (strip edge text) "" ≡ true =
                rw (strip-all edge text all_edge) refl in
              ground (arith, same, speaks)
          | inr not_all ↦ not_all
        ]),
      )
    ]
