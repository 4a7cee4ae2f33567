-- ===== src/Diagnostics/Examples.antt =====
-- A node of core/cluster/voice_diagnostics.py that records its first event.
use xiaozhi_desk_robot_serve.Prelude.{◌<◌, String, Bool, true, [], ◌∷◌, refl, arith}
use xiaozhi_desk_robot_serve.Prelude.Int.{pos}
use xiaozhi_desk_robot_serve.Diagnostics.{int_value, text_value, init, record_event}
use xiaozhi_desk_robot_serve.Diagnostics.Laws.{IsSafe, record_event-IsSafe}

abbrev any_stamp : String → Bool
any_stamp s = true

init-IsSafe : IsSafe any_stamp init
unfolding init
init-IsSafe = (omega arith, tt)

init_few : init.sequence < 9007199254740991
unfolding init
init_few = omega arith

record_event-IsSafe_example : IsSafe any_stamp (
    record_event "2026-01-01T00:00:00+00:00" "asr_started" "0123456789abcdef0123456789abcdef"
      (("generation", int_value (pos 1)) ∷ ("code", text_value "secret") ∷ [])
      init)
record_event-IsSafe_example =
    record_event-IsSafe any_stamp "2026-01-01T00:00:00+00:00" "asr_started"
      "0123456789abcdef0123456789abcdef"
      (("generation", int_value (pos 1)) ∷ ("code", text_value "secret") ∷ []) init refl
      (omega arith) init_few init-IsSafe
