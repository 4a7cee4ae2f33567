-- ===== src/Dialogue/Answers.antt =====
-- Each tool call of a list that core/utils/dialogue.py completes is answered behind it.
use xiaozhi_desk_robot_serve.Prelude.{
  String, ◌≡◌, ◌≢◌, ◌⊎◌, refl, ap, sym, ◌∙◌, Bool, true, false, ◌&&◌, ◌||◌, Option, none, some,
  List, [], ◌∷◌, ◌++◌, map, arith, eq_iff, str_eq, append_assoc, Bool-cases, inl, inr,
}
use xiaozhi_desk_robot_serve.Text.{elem}
use xiaozhi_desk_robot_serve.Dialogue.{
  Message, add_id, add_ids, discard_id, discard_answer, note_message, pending, interrupted,
  ensure_complete, calls_of, is_empty,
}

pending-append :
    (xs ys : List Message) (ids : List String)
    → pending (xs ++ ys) ids ≡ pending ys (pending xs ids)
unfolding pending
pending-append [] ys ids = refl
pending-append (x ∷ xs) ys ids = pending-append xs ys (note_message x ids)

-- a list of calls has one with the identifier
abbrev pub names_call : String → List (Option String) → Bool
names_call i [] = false
names_call i (none ∷ os) = names_call i os
names_call i (some j ∷ os) = str_eq j i || names_call i os

abbrev pub is_named : String → Option String → Bool
is_named i none = false
is_named i (some j) = str_eq j i

-- a message of a tool with the identifier
abbrev pub answers : String → Message → Bool
answers i m = str_eq m.role "tool" && is_named i m.tool_call_id

abbrev pub has_answer : String → List Message → Bool
has_answer i [] = false
has_answer i (m ∷ ms) = answers i m || has_answer i ms

named_some : (i : String) (os : List (Option String)) → names_call i os ≡ true → is_empty os ≡ false
named_some i [] h = cc
named_some i (o ∷ os) h = refl

add_id_keeps :
    (i : String) (o : Option String) (ids : List String)
    → elem i ids ≡ true
    → elem i (add_id o ids) ≡ true
unfolding add_id elem
add_id_keeps i none ids h = h
add_id_keeps i (some j) [] h = ground (arith, h)
add_id_keeps i (some j) (k ∷ ids) h = ground (arith, h, add_id_keeps i (some j) ids)

add_id_adds : (i : String) (ids : List String) → i ≢ "" → elem i (add_id (some i) ids) ≡ true
unfolding add_id elem
add_id_adds i [] ne = ground (arith, eq_iff i "", eq_iff i i)
add_id_adds i (k ∷ ids) ne = ground (arith, eq_iff k i, add_id_adds i ids ne)

add_ids_keeps :
    (i : String) (os : List (Option String)) (ids : List String)
    → elem i ids ≡ true
    → elem i (add_ids os ids) ≡ true
unfolding add_ids
add_ids_keeps i [] ids h = h
add_ids_keeps i (o ∷ os) ids h = add_ids_keeps i os (add_id o ids) (add_id_keeps i o ids h)

named_adds :
    (i j : String) (ids : List String)
    → i ≢ ""
    → str_eq j i ≡ true
    → elem i (add_id (some j) ids) ≡ true
named_adds i j ids ne same =
    let e : i ≡ j = ground (arith, eq_iff j i, same) in
    ap (λ k. elem i (add_id (some k) ids)) (sym e) ∙ add_id_adds i ids ne

add_ids_adds :
    (i : String) (os : List (Option String)) (ids : List String)
    → i ≢ ""
    → names_call i os ≡ true
    → elem i (add_ids os ids) ≡ true
unfolding add_ids
add_ids_adds i [] ids ne h = cc
add_ids_adds i (none ∷ os) ids ne h = add_ids_adds i os (add_id none ids) ne h
add_ids_adds i (some j ∷ os) ids ne h = elim (Bool-cases (str_eq j i)) [
  | inl same ↦ add_ids_keeps i os (add_id (some j) ids) (named_adds i j ids ne same)
  | inr other ↦ add_ids_adds i os (add_id (some j) ids) ne (ground (arith, h, other))
]

discard_id_keeps :
    (i j : String) (ids : List String)
    → str_eq j i ≡ false
    → elem i ids ≡ true
    → elem i (discard_id j ids) ≡ true
unfolding discard_id elem
discard_id_keeps i j [] ne h = h
discard_id_keeps i j (k ∷ ids) ne h =
    ground (arith, ne, h, eq_iff k j, eq_iff k i, eq_iff j i, discard_id_keeps i j ids ne)

discard_answer_keeps :
    (i : String) (o : Option String) (ids : List String)
    → is_named i o ≡ false
    → elem i ids ≡ true
    → elem i (discard_answer o ids) ≡ true
unfolding discard_answer
discard_answer_keeps i none ids ne h = h
discard_answer_keeps i (some j) ids ne h = ground (arith, h, discard_id_keeps i j ids ne h)

note_message_keeps :
    (i : String) (m : Message) (ids : List String)
    → answers i m ≡ false
    → elem i ids ≡ true
    → elem i (note_message m ids) ≡ true
unfolding note_message
note_message_keeps i m ids ne h = ground (
  arith,
  ne,
  h,
  add_ids_keeps i (calls_of m.tool_calls) ids h,
  discard_answer_keeps i m.tool_call_id ids,
)

-- a pending call stays pending until it is answered
pending_keeps :
    (i : String) (ms : List Message) (ids : List String)
    → elem i ids ≡ true
    → (has_answer i ms ≡ true) ⊎ (elem i (pending ms ids) ≡ true)
unfolding pending
pending_keeps i [] ids h = inr h
pending_keeps i (m ∷ ms) ids h = elim (Bool-cases (answers i m)) [
  | inl answered ↦ inl (ground (arith, answered))
  | inr other ↦
      elim (pending_keeps i ms (note_message m ids) (note_message_keeps i m ids other h)) [
        | inl later ↦ inl (ground (arith, later))
        | inr left ↦ inr left
      ]
]

has_answer-interrupted :
    (i : String) (ids : List String) → elem i ids ≡ true → has_answer i (map interrupted ids) ≡ true
unfolding elem interrupted
has_answer-interrupted i [] h = h
has_answer-interrupted i (k ∷ ids) h = ground (arith, h, has_answer-interrupted i ids)

has_answer-before :
    (i : String) (xs ys : List Message) → has_answer i xs ≡ true → has_answer i (xs ++ ys) ≡ true
has_answer-before i [] ys h = cc
has_answer-before i (x ∷ xs) ys h = ground (arith, h, has_answer-before i xs ys)

has_answer-behind :
    (i : String) (xs ys : List Message) → has_answer i ys ≡ true → has_answer i (xs ++ ys) ≡ true
has_answer-behind i [] ys h = h
has_answer-behind i (x ∷ xs) ys h = ground (arith, has_answer-behind i xs ys h)

-- the calls of an assistant's message become pending
note_message_adds :
    (i : String) (m : Message) (ids : List String)
    → i ≢ ""
    → m.role ≡ "assistant"
    → names_call i (calls_of m.tool_calls) ≡ true
    → elem i (note_message m ids) ≡ true
unfolding note_message
note_message_adds i m ids ne role call = ground (
  arith,
  eq_iff m.role "assistant",
  role,
  named_some i (calls_of m.tool_calls) call,
  add_ids_adds i (calls_of m.tool_calls) ids ne call,
)

-- In a completed list, each tool call of an assistant's message that has an identifier is answered behind
-- that message, by a message of a tool with the identifier; the messages themselves stay as they are and
-- in their places, and what is made up stands behind them.
pub ensure_complete-answers :
    (before after : List Message) (m : Message) (i : String)
    → i ≢ ""
    → m.role ≡ "assistant"
    → names_call i (calls_of m.tool_calls) ≡ true
    → (made_up : List Message) × (ensure_complete (before ++ m ∷ after)
        ≡ before ++ m ∷ (after ++ made_up))
      × (has_answer i (after ++ made_up) ≡ true)
unfolding ensure_complete pending
ensure_complete-answers before after m i ne role call =
    let ids = pending (before ++ m ∷ after) [] in
    let noted : elem i (note_message m (pending before [])) ≡ true =
      note_message_adds i m (pending before []) ne role call in
    (
      map interrupted ids,
      append_assoc before (m ∷ after) (map interrupted ids),
      elim (pending_keeps i after (note_message m (pending before [])) noted) [
        | inl answered ↦ has_answer-before i after (map interrupted ids) answered
        | inr left ↦
            let still : elem i ids ≡ true =
              ap (elem i) (pending-append before (m ∷ after) []) ∙ left in
            has_answer-behind i after (map interrupted ids) (has_answer-interrupted i ids still)
      ],
    )
