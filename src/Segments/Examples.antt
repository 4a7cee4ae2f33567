-- ===== src/Segments/Examples.antt =====
-- A turn that speaks two segments.
use Prim.Native.Char.{Char, code}
use Prim.Native.String.{count}
use xiaozhi_desk_robot_serve.Prelude.{
  ℕ, ◌+◌, ◌≤◌, String, ◌≡◌, ◌⊎◌, refl, Bool, true, false, Option, none, some, List, [], ◌∷◌, ◌++◌,
  ◌==◌, ◌||◌, length,
}
use xiaozhi_desk_robot_serve.Text.{between, is_word}
use xiaozhi_desk_robot_serve.Text.Words.{
  concat, take_chars, drop_chars, keep_unless, strip, strip_end, strip_start,
}
use xiaozhi_desk_robot_serve.SpeechText.{
  clean, is_edge, remove_emojis, drop_emojis, join_lines, is_emoji,
}
use xiaozhi_desk_robot_serve.SpeechText.Boundary.{
  in_number, test_at, is_missing, head_char, is_cut, put_position, sooner, earliest, scan,
  find_boundary,
}
use xiaozhi_desk_robot_serve.Segments.{Unicode, Options, boundary_of}
use xiaozhi_desk_robot_serve.Segments.Buffer.{
  SegmentBuffer, empty_buffer, append_text, finish_buffer, full_text, current_text, take_segment,
  get_segment, text_or_none, flush_rest, pop_rounds, pop_segment,
}
use xiaozhi_desk_robot_serve.Segments.Ends.{spoken}
use xiaozhi_desk_robot_serve.Segments.Streams.{
  append_call, finish_call, pop_call, run_calls, run_calls_lem,
}
use xiaozhi_desk_robot_serve.Segments.Turn.{
  TurnEvent, TtsTurn, new_turn, player_done, waiting, raised, feed_text, finish_turn, dispatch_text,
  is_acquiring, put_job, get_job, play_segment, discard_job, acquire_slot, task_event, turn_step,
  then_steps, turn_steps, max_lookahead, max_segments,
}
use xiaozhi_desk_robot_serve.Segments.Lookahead.{texts, indices, numbers}
use xiaozhi_desk_robot_serve.Segments.Played.{
  turn_steps-plays_in_order, turn_steps-plays_all, turn_steps-looks_ahead,
}
use xiaozhi_desk_robot_serve.Segments.Progress.{is_task_event, turn_steps-never_block}

abbrev full_stop_or_comma : Char → Bool
full_stop_or_comma c = code c == 46 || code c == 44

abbrev ascii : Unicode
ascii = record {
  is_digit = λ c. between 48 57 (code c);
  is_alnum = is_word;
  is_punctuation = full_stop_or_comma;
  casefold = λ s. s;
  nfc = λ s. s;
}

abbrev by_sentence : Options
by_sentence = record {
  first_segment_chars = 0;
  split_on_all_punctuations = false;
  is_mark = λ c. code c == 46;
  is_first_mark = full_stop_or_comma;
  soundbank_keys = [];
}

abbrev greeting : List TurnEvent
greeting =
    TurnEvent.feed_event "Hi, 🙂 I am here"
    ∷ TurnEvent.acquire_event
    ∷ TurnEvent.put_event
    ∷ TurnEvent.get_event
    ∷ TurnEvent.finish_event
    ∷ TurnEvent.acquire_event
    ∷ TurnEvent.put_event
    ∷ TurnEvent.segment_event
    ∷ []

abbrev the_rest : List TurnEvent
the_rest =
    TurnEvent.acquire_event ∷ TurnEvent.put_event ∷ TurnEvent.get_event ∷ TurnEvent.segment_event
    ∷ TurnEvent.get_event ∷ []

abbrev or_new : Option TtsTurn → TtsTurn
or_new none = new_turn
or_new (some t) = t

abbrev half_way : TtsTurn
half_way = or_new (turn_steps ascii by_sentence greeting new_turn)

abbrev the_end : TtsTurn
the_end = or_new (turn_steps ascii by_sentence (greeting ++ the_rest) new_turn)

greeting_runs : turn_steps ascii by_sentence greeting new_turn ≡ some half_way
unfolding turn_steps then_steps turn_step task_event acquire_slot feed_text finish_turn
    dispatch_text is_acquiring put_job get_job play_segment discard_job pop_segment pop_rounds
    flush_rest text_or_none get_segment take_segment boundary_of append_text finish_buffer clean
    remove_emojis drop_emojis join_lines strip strip_end strip_start keep_unless is_edge is_emoji
    find_boundary scan earliest sooner put_position is_cut in_number test_at is_missing head_char
    concat take_chars drop_chars
greeting_runs = refl

end_runs : turn_steps ascii by_sentence (greeting ++ the_rest) new_turn ≡ some the_end
unfolding turn_steps then_steps turn_step task_event acquire_slot feed_text finish_turn
    dispatch_text is_acquiring put_job get_job play_segment discard_job pop_segment pop_rounds
    flush_rest text_or_none get_segment take_segment boundary_of append_text finish_buffer clean
    remove_emojis drop_emojis join_lines strip strip_end strip_start keep_unless is_edge is_emoji
    find_boundary scan earliest sooner put_position is_cut in_number test_at is_missing head_char
    concat take_chars drop_chars
end_runs = refl

half_way_texts : texts half_way.played ≡ "Hi," ∷ []
unfolding turn_steps then_steps turn_step task_event acquire_slot feed_text finish_turn
    dispatch_text is_acquiring put_job get_job play_segment discard_job pop_segment pop_rounds
    flush_rest text_or_none get_segment take_segment boundary_of append_text finish_buffer clean
    remove_emojis drop_emojis join_lines strip strip_end strip_start keep_unless is_edge is_emoji
    find_boundary scan earliest sooner put_position is_cut in_number test_at is_missing head_char
    concat take_chars drop_chars
half_way_texts = refl

end_texts : texts the_end.played ≡ "Hi," ∷ "I am here" ∷ []
unfolding turn_steps then_steps turn_step task_event acquire_slot feed_text finish_turn
    dispatch_text is_acquiring put_job get_job play_segment discard_job pop_segment pop_rounds
    flush_rest text_or_none get_segment take_segment boundary_of append_text finish_buffer clean
    remove_emojis drop_emojis join_lines strip strip_end strip_start keep_unless is_edge is_emoji
    find_boundary scan earliest sooner put_position is_cut in_number test_at is_missing head_char
    concat take_chars drop_chars
end_texts = refl

end_done : the_end.player ≡ player_done
unfolding turn_steps then_steps turn_step task_event acquire_slot feed_text finish_turn
    dispatch_text is_acquiring put_job get_job play_segment discard_job pop_segment pop_rounds
    flush_rest text_or_none get_segment take_segment boundary_of append_text finish_buffer clean
    remove_emojis drop_emojis join_lines strip strip_end strip_start keep_unless is_edge is_emoji
    find_boundary scan earliest sooner put_position is_cut in_number test_at is_missing head_char
    concat take_chars drop_chars
end_done = refl

half_way_on : half_way.stopped ≡ false
unfolding turn_steps then_steps turn_step task_event acquire_slot feed_text finish_turn
    dispatch_text is_acquiring put_job get_job play_segment discard_job pop_segment pop_rounds
    flush_rest text_or_none get_segment take_segment boundary_of append_text finish_buffer clean
    remove_emojis drop_emojis join_lines strip strip_end strip_start keep_unless is_edge is_emoji
    find_boundary scan earliest sooner put_position is_cut in_number test_at is_missing head_char
    concat take_chars drop_chars
half_way_on = refl

run_calls_lem_example :
    (c : SegmentBuffer) × (outs : List String) × (pieces : List String) × (run_calls ascii
        by_sentence
        (append_call "Hi, you." ∷ pop_call ∷ finish_call ∷ pop_call ∷ [])
        empty_buffer
      ≡ some (c, outs))
    × (Prim.Native.String.◌++◌ (concat pieces) (current_text c) ≡ full_text c)
    × (spoken ascii pieces ≡ outs)
    × (c.processed_chars ≤ count (full_text c))
run_calls_lem_example =
    run_calls_lem ascii by_sentence
      (append_call "Hi, you." ∷ pop_call ∷ finish_call ∷ pop_call ∷ [])

turn_steps-plays_in_order_example :
    (pieces : List String) × (later : List String) × (rest : List ℕ) × (Prim.Native.String.◌++◌
        (concat pieces)
        (current_text half_way.buffer)
      ≡ full_text half_way.buffer)
    × (spoken ascii pieces ≡ texts half_way.played ++ later)
    × (length later ≤ max_lookahead)
    × (indices half_way.played ++ rest ≡ numbers half_way.index)
turn_steps-plays_in_order_example =
    turn_steps-plays_in_order ascii by_sentence greeting half_way greeting_runs

turn_steps-plays_all_example :
    (pieces : List String) × (concat pieces ≡ full_text the_end.buffer)
    × (spoken ascii pieces ≡ texts the_end.played)
    × (the_end.buffer.finished ≡ true)
    × (the_end.slots ≡ max_lookahead)
    × (the_end.queue ≡ [])
turn_steps-plays_all_example =
    turn_steps-plays_all ascii by_sentence (greeting ++ the_rest) the_end end_runs end_done

turn_steps-looks_ahead_example :
    (length half_way.jobs + half_way.slots ≤ max_lookahead) × (half_way.index ≤ max_segments)
turn_steps-looks_ahead_example =
    turn_steps-looks_ahead ascii by_sentence greeting half_way greeting_runs half_way_on

turn_steps-never_block_example :
    ((e : TurnEvent) × (s : TtsTurn) × (is_task_event e ≡ true)
      × (turn_step ascii by_sentence e half_way ≡ some s))
    ⊎ (half_way.player ≡ player_done)
    ⊎ (half_way.dispatcher ≡ raised)
    ⊎ ((half_way.dispatcher ≡ waiting)
        × (half_way.changed ≡ false)
        × (half_way.buffer.finished ≡ false))
turn_steps-never_block_example =
    turn_steps-never_block ascii by_sentence greeting half_way greeting_runs half_way_on
