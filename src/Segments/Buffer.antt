-- ===== src/Segments/Buffer.antt =====
-- `_get_segment_text` of core/providers/tts/segmenter.py, and SegmentBuffer of core/cluster/tts_segments.py,
-- which never sets `tts_stop_request`.
use Prim.Native.String.{count, len}
use xiaozhi_desk_robot_serve.Prelude.{
  ℕ, zero, suc, ◌+◌, String, Bool, true, false, not, ◌&&◌, ◌||◌, Option, none, some, List, [], ◌∷◌,
  ◌++◌, if◌then◌else◌, ltb, ◌==◌, str_eq,
}
use xiaozhi_desk_robot_serve.Text.Words.{concat, take_chars, drop_chars}
use xiaozhi_desk_robot_serve.SpeechText.{clean}
use xiaozhi_desk_robot_serve.Segments.{Unicode, Options, boundary_of}

pub record SegmentBuffer : Type 0 where
  pub texts : List String
  pub processed_chars : ℕ
  pub bytes : ℕ
  pub is_first_sentence : Bool
  pub finished : Bool

-- __init__
abbrev pub empty_buffer : SegmentBuffer
empty_buffer = record {
  texts = [];
  processed_chars = 0;
  bytes = 0;
  is_first_sentence = true;
  finished = false;
}

abbrev pub max_text : ℕ
max_text = 65536

-- append: the buffer, and whether it returns without an exception
unfoldable pub append_text : String → SegmentBuffer → SegmentBuffer × Bool
append_text text b =
    let c = record b { bytes = b.bytes + len text } in
    if b.finished
    then (b, false)
    else if ltb max_text c.bytes
    then (c, false)
    else (record c { texts = b.texts ++ text ∷ [] }, true)

-- `finish` of TTSTurn sets the flag
unfoldable pub finish_buffer : SegmentBuffer → SegmentBuffer
finish_buffer b = record b { finished = true }

abbrev pub full_text : SegmentBuffer → String
full_text b = concat b.texts

abbrev pub current_text : SegmentBuffer → String
current_text b = drop_chars b.processed_chars (full_text b)

module _ (u : Unicode) (o : Options) where
  -- the text up to the boundary is processed
  unfoldable pub take_segment : SegmentBuffer → Option ℕ → SegmentBuffer × Option String
  take_segment b none = (b, none)
  take_segment b (some i) =
      let raw = take_chars (suc i) (current_text b) in
      let segment = clean u.is_punctuation raw in
      (
        record b {
          processed_chars = b.processed_chars + count raw;
          is_first_sentence =
              b.is_first_sentence && not (not (str_eq segment "") || o.first_segment_chars == 0);
        },
        some segment,
      )

  -- _get_segment_text
  unfoldable pub get_segment : SegmentBuffer → SegmentBuffer × Option String
  unfolding take_segment
  get_segment b = take_segment b (boundary_of u o b.is_first_sentence (current_text b))

  abbrev pub spoken_part : Option String → String
  spoken_part none = ""
  spoken_part (some s) = s

  -- `text or None`
  unfoldable pub text_or_none : String → Option String
  text_or_none s = if str_eq s "" then none else some s

  -- what `pop` does when nothing was processed
  unfoldable pub flush_rest : SegmentBuffer → SegmentBuffer × Option String
  unfolding text_or_none
  flush_rest b =
      if b.finished
      then (
        record b { processed_chars = count (full_text b) },
        text_or_none (clean u.is_punctuation (current_text b)),
      )
      else (b, none)

  -- the rounds of the loop of `pop`; `none` means that the fuel ran out
  unfoldable pub pop_rounds : ℕ → SegmentBuffer → Option (SegmentBuffer × Option String)
  unfolding flush_rest
  pop_rounds zero b = none
  pop_rounds (suc fuel) b =
      let (c, text) = get_segment b in
      let again = pop_rounds fuel c in
      if not (str_eq (spoken_part text) "")
      then some (c, text)
      else if not (c.processed_chars == b.processed_chars)
      then again
      else some (flush_rest c)

  -- pop: a round that does not end it processes a character
  unfoldable pub pop_segment : SegmentBuffer → Option (SegmentBuffer × Option String)
  unfolding pop_rounds
  pop_segment b = pop_rounds (suc (count (current_text b))) b
