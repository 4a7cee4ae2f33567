-- ===== src/Devices.antt =====
-- core/connected_devices.py: the newest live connection of each device. A handler is a number,
-- which stands for the object's identity. The lock makes each method one step.
pub mod Laws
mod Examples
use xiaozhi_desk_robot_serve.Prelude.{
  ℕ, String, Bool, true, false, Option, none, some, List, [], ◌∷◌, ◌==◌, str_eq, if◌then◌else◌,
}
use xiaozhi_desk_robot_serve.Dict.{Dict, lookup, put, without}

abbrev pub Registry : Type 0
Registry = Dict ℕ

-- `self._handlers.get(device_id) is handler`
unfoldable pub is_current : Option ℕ → ℕ → Bool
is_current none h = false
is_current (some g) h = g == h

-- `previous if previous is not handler else None`
unfoldable pub other_than : ℕ → Option ℕ → Option ℕ
other_than h none = none
other_than h (some g) = if g == h then none else some g

unfoldable pub register : String → ℕ → Registry → Registry × Option ℕ
unfolding other_than
register device h r =
    if str_eq device "" then (r, none) else (put device h r, other_than h (lookup device r))

unfoldable pub unregister : String → ℕ → Registry → Registry × Bool
unfolding is_current
unregister device h r =
    if str_eq device ""
    then (r, false)
    else if is_current (lookup device r) h
    then (without device r, true)
    else (r, false)

-- `handler.send_json(payload)`, a method of the connection, is the argument `send_json`: from the world of
-- the connections, what it makes of it and whether it gets through. The lock is held while it runs, so that
-- it is a part of the step.
module _ {P W : Type 0} (send_json : ℕ → P → W → W × Bool) where
  -- send, which takes the handler under the lock and sends without it
  unfoldable pub send : String → P → Registry → W → W × Bool
  send device payload r w = elim (lookup device r) [
    | none ↦ (w, false)
    | some h ↦ send_json h payload w
  ]

  unfoldable pub send_if_current : String → ℕ → P → Registry → W → W × Bool
  unfolding is_current
  send_if_current device expected payload r w =
      if is_current (lookup device r) expected then send_json expected payload w else (w, false)

-- register_connected_device_after_hello: the handler that was replaced is closed
unfoldable pub register_after_hello : String → ℕ → Registry → Registry × List ℕ
register_after_hello device h r =
    let (r', previous) = register device h r in (r', elim previous [ none ↦ [] | some g ↦ g ∷ [] ])

-- What one connection does to the registry, in any interleaving with the others.
pub data Event : Type 0 where
  hello goodbye : String → ℕ → Event

unfoldable pub step : Event → Registry → Registry
step (hello device h) r = (register_after_hello device h r).0
step (goodbye device h) r = (unregister device h r).0

unfoldable pub run : List Event → Registry → Registry
unfolding step
run [] r = r
run (e ∷ es) r = run es (step e r)
