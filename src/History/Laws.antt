-- ===== src/History/Laws.antt =====
-- The history of core/cluster/memory_client.py keeps whole turns within its limits.
use Prim.Native.String.{len}
use xiaozhi_desk_robot_serve.Prelude.{
  ℕ, suc, ◌-◌, ◌≤◌, String, Bool, ◌≡◌, refl, true, false, Option, none, some, List, [], ◌∷◌, ◌++◌,
  map, arith, length, drop, All, ap, length-drop,
}
use xiaozhi_desk_robot_serve.Text.{utf8_prefix, len-utf8_prefix}
use xiaozhi_desk_robot_serve.History.{
  user, assistant, Turn, max_messages, max_encoded, encode_limit, pair, too_long, forget_one,
  forget, complete, recent,
}

-- the messages are questions, each with its answer
abbrev pub IsPaired : List Turn → Type 0
IsPaired [] = Unit
IsPaired (a ∷ []) = ⊥
IsPaired (a ∷ b ∷ messages) = (a.role ≡ user) × (b.role ≡ assistant) × IsPaired messages

-- what holds of the history between two turns
abbrev pub IsKept : (List Turn → ℕ) → List Turn → Type 0
IsKept encoded messages =
    IsPaired messages × (length messages ≤ max_messages) × (encoded messages ≤ max_encoded)

IsPaired-append : (xs ys : List Turn) → IsPaired xs → IsPaired ys → IsPaired (xs ++ ys)
IsPaired-append [] ys p q = q
IsPaired-append (a ∷ []) ys p q = absurd p
IsPaired-append (a ∷ b ∷ xs) ys p q = (p.0, p.1, IsPaired-append xs ys p.2 q)

too_long-false :
    (encoded : List Turn → ℕ) (messages : List Turn)
    → too_long encoded messages ≡ some false
    → (length messages ≤ max_messages) × (encoded messages ≤ max_encoded)
unfolding too_long
too_long-false encoded messages h = ground arith

module _ (encoded : List Turn → ℕ) (empty_fits : encoded [] ≤ max_encoded) where
  forget_one-IsKept :
      (o : Option Bool) (messages : List Turn) (rest : List Turn × Bool)
      → too_long encoded messages ≡ o
      → IsPaired messages
      → (rest.1 ≡ true → IsKept encoded rest.0)
      → (forget_one encoded o messages rest).1 ≡ true
      → IsKept encoded (forget_one encoded o messages rest).0
  unfolding forget_one
  forget_one-IsKept none messages rest h p k ends = absurd (cc)
  forget_one-IsKept (some true) messages rest h p k ends = k ends
  forget_one-IsKept (some false) messages rest h p k ends =
      let (short, small) = too_long-false encoded messages h in (p, short, small)

  forget-IsKept :
      (messages : List Turn)
      → IsPaired messages
      → (forget encoded messages).1 ≡ true
      → IsKept encoded (forget encoded messages).0
  unfolding forget
  forget-IsKept [] p ends = (tt, omega arith, empty_fits)
  forget-IsKept (a ∷ []) p ends = absurd p
  forget-IsKept (a ∷ b ∷ messages) p ends =
      forget_one-IsKept (too_long encoded (a ∷ b ∷ messages)) (a ∷ b ∷ messages)
        (forget encoded messages) refl p (λ e. forget-IsKept messages p.2 e) ends

  forget_ends :
      (messages : List Turn)
      → ((a b : Turn) (rest : List Turn) → encoded rest ≤ encoded (a ∷ b ∷ rest))
      → IsPaired messages
      → encoded messages ≤ encode_limit
      → (forget encoded messages).1 ≡ true
  unfolding forget forget_one too_long
  forget_ends [] shrinks p fits = ground arith
  forget_ends (a ∷ []) shrinks p fits = absurd p
  forget_ends (a ∷ b ∷ messages) shrinks p fits =
      ground (arith, shrinks a b messages, forget_ends messages shrinks p.2)

  -- If the encoding of no messages fits, if messages encode to no more than with two more before
  -- them, and if the history with the new turn encodes to at most 100000 bytes: `complete` ends
  -- without an exception, and leaves whole turns, question and answer, with at most 14 messages and
  -- 24000 bytes.
  pub complete-IsKept :
      (said response : String) (messages : List Turn)
      → ((a b : Turn) (rest : List Turn) → encoded rest ≤ encoded (a ∷ b ∷ rest))
      → IsKept encoded messages
      → encoded (messages ++ pair said response) ≤ encode_limit
      → let (messages', ends) = complete encoded said response messages in
        (ends ≡ true) × IsKept encoded messages'
  unfolding complete pair
  complete-IsKept said response messages shrinks k fits =
      let p : IsPaired (messages ++ pair said response) =
        IsPaired-append messages (pair said response) k.0 (refl, refl, tt) in
      let ends = forget_ends (messages ++ pair said response) shrinks p fits in
      (ends, forget-IsKept (messages ++ pair said response) p ends)

-- the texts of a list are all of at most `n` bytes
abbrev pub FitsIn : ℕ → List String → Type 0
FitsIn n texts = All (λ t. len t ≤ n) texts

map-FitsIn :
    (n : ℕ) (messages : List Turn) → FitsIn n (map (λ (t : Turn). utf8_prefix n t.content) messages)
map-FitsIn n [] = tt
map-FitsIn n (t ∷ messages) = (len-utf8_prefix n t.content, map-FitsIn n messages)

length-map : (f : Turn → String) (messages : List Turn) → length (map f messages) ≡ length messages
length-map f [] = refl
length-map f (t ∷ messages) = ap suc (length-map f messages)

-- Of any history, at most six recent texts are sent along, of at most 2048 bytes each.
pub recent-FitsIn :
    (messages : List Turn) → (length (recent messages) ≤ 6) × FitsIn 2048 (recent messages)
unfolding recent
recent-FitsIn messages =
    let short = drop (length messages - 6) messages in
    (
      omega (
        arith,
        length-map (λ (t : Turn). utf8_prefix 2048 t.content) short,
        length-drop (length messages - 6) messages,
      ),
      map-FitsIn 2048 short,
    )
