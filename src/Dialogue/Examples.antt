-- ===== src/Dialogue/Examples.antt =====
-- A conversation of core/utils/dialogue.py that was cut off after two tool calls, one of them answered.
use xiaozhi_desk_robot_serve.Prelude.{
  ◌++◌, eq_iff, arith, refl, true, ◌≡◌, none, some, List, [], ◌∷◌,
}
use xiaozhi_desk_robot_serve.Dialogue.{Message, ensure_complete}
use xiaozhi_desk_robot_serve.Dialogue.Answers.{has_answer, ensure_complete-answers}

abbrev assistant_calls : Message
assistant_calls = record {
  role = "assistant";
  content = none;
  tool_calls = some (some "a" ∷ some "b" ∷ []);
  tool_call_id = none;
}

abbrev tool_reply : Message
tool_reply = record {
  role = "tool";
  content = some "ok";
  tool_calls = none;
  tool_call_id = some "a";
}

abbrev cut_off : List Message
cut_off = assistant_calls ∷ tool_reply ∷ []

ensure_complete-answers_example :
    (made_up : List Message) × (ensure_complete cut_off
      ≡ [] ++ assistant_calls ∷ (tool_reply ∷ [] ++ made_up))
    × (has_answer "b" (tool_reply ∷ [] ++ made_up) ≡ true)
ensure_complete-answers_example =
    ensure_complete-answers [] (tool_reply ∷ []) assistant_calls "b"
      (λ e. absurd (ground (arith, eq_iff "b" ""))) refl refl
