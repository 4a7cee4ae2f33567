-- ===== src/Diagnostics/Laws.antt =====
-- What core/cluster/voice_diagnostics.py records is bounded, numbered, and accepted by its peers.
use Prim.Native.String.{count}
use xiaozhi_desk_robot_serve.Prelude.{
  ℕ, suc, zero, ◌+◌, ◌-◌, ◌≤◌, ◌<◌, String, Bool, ◌≡◌, refl, true, List, [], ◌∷◌, ◌++◌, arith, not,
  ◌||◌, length, length-drop, drop, Bool-cases, inl, inr, All, All-append,
}
use xiaozhi_desk_robot_serve.Text.{elem}
use xiaozhi_desk_robot_serve.Diagnostics.{
  max_events, event_names, Value, is_session, safe_fields, Event, Diagnostics, init, append_event,
  record_event, is_field, is_safe, all_safe, check_event,
}

is_field-is_safe : (key : String) (v : Value) → is_safe key v ≡ true → is_field key ≡ true
unfolding is_safe is_field
is_field-is_safe key v h = ground (arith, h)

all_safe-safe_fields : (fields : List (String × Value)) → all_safe (safe_fields fields) ≡ true
unfolding all_safe safe_fields
all_safe-safe_fields [] = refl
all_safe-safe_fields ((key, v) ∷ fields) =
    ground (arith, all_safe-safe_fields fields, is_field-is_safe key v)

All-drop : (P : Event → Type 0) (n : ℕ) (es : List Event) → All P es → All P (drop n es)
All-drop P zero es a = a
All-drop P (suc n) [] a = tt
All-drop P (suc n) (e ∷ es) a = All-drop P n es a.1

-- an event that the check accepts
abbrev pub IsAccepted : (String → Bool) → Event → Type 0
IsAccepted is_stamp e = check_event is_stamp e ≡ true

-- at most 64 events, all accepted
abbrev pub IsSafe : (String → Bool) → Diagnostics → Type 0
IsSafe is_stamp d = (length d.events ≤ max_events) × All (IsAccepted is_stamp) d.events

-- The events of a node stay at most 64, and those that a peer accepts stay so when one is recorded
-- with any name, session and fields: what is recorded is accepted, if its time is a stamp of at most
-- 40 characters and fewer than 2^53 - 1 events were recorded before.
pub record_event-IsSafe :
    (is_stamp : String → Bool) (at name session : String) (fields : List (String × Value))
    (d : Diagnostics)
    → is_stamp at ≡ true
    → count at ≤ 40
    → d.sequence < 9007199254740991
    → IsSafe is_stamp d
    → IsSafe is_stamp (record_event at name session fields d)
unfolding record_event append_event
record_event-IsSafe is_stamp at name session fields d stamp short few s =
    elim (Bool-cases (not (elem name event_names) || not (is_session session))) [
      | inl refused ↦ rw refused s
      | inr kept ↦
          let e : Event = record {
            seq = d.sequence + 1;
            at = at;
            event = name;
            session_id = session;
            fields = safe_fields fields;
          } in
          let accepted : IsAccepted is_stamp e =
            (unfold check_event record_event append_event init in
              ground (arith, all_safe-safe_fields fields)) in
          rw kept (
            omega (
              arith,
              length-drop (length (d.events ++ e ∷ []) - max_events) (d.events ++ e ∷ []),
            ),
            All-drop (IsAccepted is_stamp) _ (d.events ++ e ∷ [])
                (All-append (IsAccepted is_stamp) d.events (e ∷ []) s.1 (accepted, tt)),
          )
    ]
