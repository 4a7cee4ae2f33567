-- ===== src/History/Examples.antt =====
-- A history of core/cluster/memory_client.py with one turn, and its next.
use xiaozhi_desk_robot_serve.Prelude.{ℕ, ◌+◌, ◌*◌, ◌≡◌, refl, true, List, arith, length}
use xiaozhi_desk_robot_serve.History.{Turn, pair, complete}
use xiaozhi_desk_robot_serve.History.Laws.{IsKept, complete-IsKept}

-- an encoding of fifty bytes a message
abbrev encoded : List Turn → ℕ
encoded messages = 2 + length messages * 50

abbrev one_turn : List Turn
one_turn = pair "hello" "hi"

one_turn-IsKept : IsKept encoded one_turn
unfolding pair
one_turn-IsKept = ((refl, refl, tt), omega arith, omega arith)

complete-IsKept_example :
    let (messages', ends) = complete encoded "again" "yes" one_turn in
    (ends ≡ true) × IsKept encoded messages'
complete-IsKept_example =
    complete-IsKept encoded (omega arith) "again" "yes" one_turn (λ a b rest. omega arith)
      one_turn-IsKept (unfold pair in omega arith)
