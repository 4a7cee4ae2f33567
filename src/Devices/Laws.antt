-- ===== src/Devices/Laws.antt =====
-- A connection of core/connected_devices.py that ends late never removes its successor.
use xiaozhi_desk_robot_serve.Prelude.{
  ℕ, String, ◌≡◌, ◌≢◌, ◌⊎◌, inl, inr, refl, Bool, false, none, some, List, [], ◌∷◌, ◌↔◌, ◌&&◌,
  str_eq, eq_iff, arith, if◌then◌else◌, All,
}
use xiaozhi_desk_robot_serve.Dict.{lookup}
use xiaozhi_desk_robot_serve.Dict.Laws.{lookup-put, lookup-without}
use xiaozhi_desk_robot_serve.Devices.{
  Registry, Event, hello, goodbye, is_current, register, unregister, send_if_current,
  register_after_hello, step, run,
}

-- After a hello the device has the new handler and the other devices keep theirs.
lookup-register :
    (device d : String) (h : ℕ) (r : Registry)
    → lookup d (register device h r).0
      ≡ (if str_eq device "" then lookup d r else (if str_eq device d then some h else lookup d r))
unfolding register
lookup-register device d h r =
    ground (arith, lookup-put device d h r, eq_iff device "", eq_iff device d)

-- A handler removes the entry of its device exactly when the entry is its own.
lookup-unregister :
    (device d : String) (h : ℕ) (r : Registry)
    → lookup d (unregister device h r).0
      ≡ (if (unregister device h r).1 && str_eq device d then none else lookup d r)
unfolding unregister
lookup-unregister device d h r = ground (arith, lookup-without device d r, eq_iff device d)

-- The events of a run that do not claim the device for another handler, nor end its handler.
abbrev Spares : String → ℕ → Event → Type 0
Spares d h (hello device g) = device ≢ d
Spares d h (goodbye device g) = g ≢ h

step-Spares :
    (d : String) (h : ℕ) (e : Event) (r : Registry)
    → Spares d h e
    → lookup d r ≡ some h
    → lookup d (step e r) ≡ some h
unfolding step register_after_hello unregister
step-Spares d h (hello device g) r s l =
    ground (arith, lookup-register device d g r, eq_iff device d)
step-Spares d h (goodbye device g) r s l =
    ground (arith, lookup-without device d r, eq_iff device d, eq_iff device "")

-- A handler that is the current one of its device stays so through any events of which none is a
-- hello of that device or a goodbye of that handler: late goodbyes of other handlers of the same
-- device are among them.
pub run-keeps :
    (d : String) (h : ℕ) (es : List Event) (r : Registry)
    → All (Spares d h) es
    → lookup d r ≡ some h
    → lookup d (run es r) ≡ some h
unfolding run
run-keeps d h [] r s l = l
run-keeps d h (e ∷ es) r s l = run-keeps d h es (step e r) s.1 (step-Spares d h e r s.0 l)

-- The events of a run that are not the hello of `h` for the device.
abbrev pub SaysNoHello : String → ℕ → Event → Type 0
SaysNoHello d h (hello device g) = (device ≢ d) ⊎ (g ≢ h)
SaysNoHello d h (goodbye device g) = Unit

step-SaysNoHello :
    (d : String) (h : ℕ) (e : Event) (r : Registry)
    → SaysNoHello d h e
    → is_current (lookup d r) h ≡ false
    → is_current (lookup d (step e r)) h ≡ false
unfolding step register_after_hello unregister is_current
step-SaysNoHello d h (hello device g) r (inl other) l =
    ground (arith, l, lookup-register device d g r, eq_iff device d)
step-SaysNoHello d h (hello device g) r (inr other) l =
    ground (arith, l, lookup-register device d g r, eq_iff device d)
step-SaysNoHello d h (goodbye device g) r s l =
    ground (arith, l, lookup-without device d r, eq_iff device d)

run-SaysNoHello :
    (d : String) (h : ℕ) (es : List Event) (r : Registry)
    → All (SaysNoHello d h) es
    → is_current (lookup d r) h ≡ false
    → is_current (lookup d (run es r)) h ≡ false
unfolding run
run-SaysNoHello d h [] r s l = l
run-SaysNoHello d h (e ∷ es) r s l =
    run-SaysNoHello d h es (step e r) s.1 (step-SaysNoHello d h e r s.0 l)

-- Once the hello of another handler has replaced a handler of a device with a name, `send_if_current` for the replaced
-- handler has no effect on any connection and returns false, whatever hellos and goodbyes come in between,
-- as long as the replaced handler says no hello for the device again.
pub send_if_current-replaced :
    {P W : Type 0} (send_json : ℕ → P → W → W × Bool) (d : String) (g h : ℕ) (es : List Event)
    (payload : P) (r : Registry) (w : W)
    → d ≢ ""
    → g ≢ h
    → All (SaysNoHello d h) es
    → send_if_current send_json d h payload (run (hello d g ∷ es) r) w ≡ (w, false)
unfolding send_if_current run step register_after_hello is_current
send_if_current-replaced send_json d g h es payload r w named other later =
    let replaced : is_current (lookup d (register d g r).0) h ≡ false =
      ground (arith, lookup-register d d g r, eq_iff d d, eq_iff d "") in
    rw (run-SaysNoHello d h es (register d g r).0 later replaced) refl

-- For a device with a name, the hello of a handler closes exactly one handler `g` if and only if `g`
-- is the current handler of the device and another one than the new.
pub register_after_hello-closes :
    (device : String) (h g : ℕ) (r : Registry)
    → device ≢ ""
    → ((register_after_hello device h r).1 ≡ g ∷ []) ↔ ((lookup device r ≡ some g) × (g ≢ h))
unfolding register_after_hello register
register_after_hello-closes device h g r ne =
    (ground (arith, eq_iff device ""), ground (arith, eq_iff device ""))
