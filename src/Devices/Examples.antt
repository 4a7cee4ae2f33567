-- ===== src/Devices/Examples.antt =====
-- A device that connects again while its old connection is still open, as core/connected_devices.py
-- sees it.
use xiaozhi_desk_robot_serve.Prelude.{
  ℕ, String, Bool, ◌≡◌, ◌≢◌, refl, true, false, some, List, [], ◌∷◌, arith, eq_iff,
}
use xiaozhi_desk_robot_serve.Dict.{lookup, put}
use xiaozhi_desk_robot_serve.Devices.{
  Registry, hello, goodbye, send_if_current, register, register_after_hello, run,
}
use xiaozhi_desk_robot_serve.Devices.Laws.{run-keeps, send_if_current-replaced}

-- device "a" with connection 1, then again with connection 2
abbrev connected : Registry
connected = run (hello "a" 1 ∷ hello "a" 2 ∷ []) []

second_is_current : lookup "a" connected ≡ some 2
unfolding run lookup register_after_hello register put
second_is_current = refl

run-keeps_example : lookup "a" (run (goodbye "a" 1 ∷ hello "b" 3 ∷ []) connected) ≡ some 2
run-keeps_example =
    run-keeps "a" 2 (goodbye "a" 1 ∷ hello "b" 3 ∷ []) connected
      ((λ e. absurd (omega arith)), ((λ e. absurd (ground (arith, eq_iff "b" "a"))), tt))
      second_is_current

-- a world that keeps what reaches the connections
abbrev sends_to : ℕ → ℕ → List ℕ → List ℕ × Bool
sends_to h payload w = (h ∷ w, true)

named : ◌≢◌ {A = String} "a" ""
named e = absurd (ground (arith, eq_iff "a" ""))

other_one : ◌≢◌ {A = ℕ} 2 1
other_one e = absurd (omega (arith, e))

send_if_current-replaced_example :
    send_if_current sends_to "a" 1 7 (run (hello "a" 2 ∷ goodbye "a" 1 ∷ []) connected) []
    ≡ ([], false)
send_if_current-replaced_example =
    send_if_current-replaced sends_to "a" 2 1 (goodbye "a" 1 ∷ []) 7 connected [] named other_one
      (tt, tt)
