-- ===== src/Cache/Examples.antt =====
-- Runs of the cache manager of core/utils/cache/manager.py on concrete states.
use xiaozhi_desk_robot_serve.Prelude.{ℕ, ◌≡◌, ◌≢◌, none, some, List, [], ◌∷◌, arith, eq_iff}
use xiaozhi_desk_robot_serve.Dict.{lookup}
use xiaozhi_desk_robot_serve.Cache.Types.{weather, intent, type_value, new_entry}
use xiaozhi_desk_robot_serve.Cache.Manager.{
  Manager, init, cache_name, config_of, effective_ttl, set,
}
use xiaozhi_desk_robot_serve.Cache.Bounds.{IsBounded}
use xiaozhi_desk_robot_serve.Cache.Runs.{Call, set_call, get_call, run, run-IsBounded}
use xiaozhi_desk_robot_serve.Cache.View.{live, view}
use xiaozhi_desk_robot_serve.Cache.Refines.{view-set_self}

init-IsBounded : IsBounded (init {A = ℕ} 0)
unfolding init lookup
init-IsBounded name = tt

abbrev calls : List (ℕ × Call ℕ)
calls =
    (1, set_call weather "paris" 20 none "")
    ∷ (2, set_call intent "hello" 7 (some 5) "user")
    ∷ (3, get_call weather "paris" "")
    ∷ []

abbrev warm : Manager ℕ
warm = run 1 calls (init 0)

warm-IsBounded : IsBounded warm
warm-IsBounded = run-IsBounded 1 calls (init 0) init-IsBounded

run-IsBounded_example : IsBounded warm
run-IsBounded_example = run-IsBounded 1 calls (init 0) init-IsBounded

view-set_self_example :
    let c = config_of 1 weather (cache_name weather "") warm in
    view 30 (cache_name weather "") "rome" (set 1 10 weather "rome" 25 none "" warm)
    ≡ live 30 (some (new_entry 25 10 (effective_ttl none c.ttl)))
view-set_self_example =
    view-set_self 1 10 30 weather "rome" 25 none "" warm warm-IsBounded (omega arith)

names_differ : cache_name weather "" ≢ "config"
unfolding cache_name type_value
names_differ = ground (arith, eq_iff "weather" "config")
