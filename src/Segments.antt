-- ===== src/Segments.antt =====
-- core/providers/tts/segmenter.py and core/cluster/tts_segments.py: a streamed text is cut into the segments
-- that are spoken one after the other.
pub mod FirstSegment
pub mod Buffer
pub mod Turn
mod Whole
mod Ends
mod Streams
mod Lookahead
mod Tasks
mod Dispatching
mod Turns
mod Played
mod Awake
mod Progress
mod Examples
use Prim.Native.Char.{Char}
use xiaozhi_desk_robot_serve.Prelude.{
  ℕ, suc, ◌+◌, String, Bool, true, false, not, ◌&&◌, ◌||◌, Option, none, some, List, [], ◌∷◌,
  if◌then◌else◌, ltb, ◌==◌, str_eq,
}
use xiaozhi_desk_robot_serve.Text.{elem}
use xiaozhi_desk_robot_serve.Text.Words.{strip, squeeze, take_chars, drop_chars, is_prefix}
use xiaozhi_desk_robot_serve.SpeechText.{is_edge, clean}
use xiaozhi_desk_robot_serve.SpeechText.Boundary.{find_boundary}
use FirstSegment.{find_first_boundary}

-- what Unicode says of a character or a text: `isdigit`, `isalnum`, the categories of punctuation, `casefold`
-- and the composed normal form
pub record Unicode : Type 0 where
  pub is_digit : Char → Bool
  pub is_alnum : Char → Bool
  pub is_punctuation : Char → Bool
  pub casefold : String → String
  pub nfc : String → String

-- the fields of a policy that do not change
pub record Options : Type 0 where
  pub first_segment_chars : ℕ
  pub split_on_all_punctuations : Bool
  pub is_mark : Char → Bool
  pub is_first_mark : Char → Bool
  pub soundbank_keys : List String

module _ (u : Unicode) (o : Options) where
  -- core/utils/soundbank_text.py: normalize_soundbank_text
  unfoldable pub normalize_soundbank : String → String
  normalize_soundbank text = u.casefold (squeeze (strip (is_edge u.is_punctuation) (u.nfc text)))

  unfoldable pub any_starts : String → List String → Bool
  any_starts pending [] = false
  any_starts pending (key ∷ keys) = is_prefix pending key || any_starts pending keys

  -- `current_text[: last_punct_pos + 1]`, where -1 is `none`
  unfoldable pub up_to : Option ℕ → String → String
  up_to none text = ""
  up_to (some i) text = take_chars (suc i) text

  unfoldable pub has_keys : List String → Bool
  has_keys [] = false
  has_keys (key ∷ keys) = true

  -- a phrase of the soundbank stays whole while its text arrives
  unfoldable pub preserves_soundbank : Option ℕ → String → Bool
  unfolding normalize_soundbank any_starts up_to has_keys
  preserves_soundbank position text =
      let pending_key = normalize_soundbank text in
      has_keys o.soundbank_keys
      && (elem (normalize_soundbank (up_to position text)) o.soundbank_keys
          || not (str_eq pending_key "") && any_starts pending_key o.soundbank_keys)

  -- where `_get_segment_text` cuts the text that is not processed
  unfoldable pub boundary_of : Bool → String → Option ℕ
  unfolding preserves_soundbank
  boundary_of is_first text =
      let marks = if is_first || o.split_on_all_punctuations then o.is_first_mark else o.is_mark in
      let position = find_boundary u.is_digit u.is_alnum false marks text in
      if is_first && ltb 0 o.first_segment_chars && not (preserves_soundbank position text)
      then find_first_boundary text o.first_segment_chars
      else position
