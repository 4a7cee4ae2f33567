-- ===== src/Segments/Turns.antt =====
-- The turns of TTSTurn in core/cluster/tts_turn.py.
use mathlib.Core.List.{◌++◌}
use xiaozhi_desk_robot_serve.Prelude.{
  String, ◌≡◌, refl, sym, subst, Bool, true, false, Option, none, some, List, [], ◌∷◌, ◌&&◌, ◌||◌,
  arith, if◌then◌else◌, ltb,
}
use xiaozhi_desk_robot_serve.Text.Words.{concat, drop_chars}
use xiaozhi_desk_robot_serve.Segments.{Unicode, Options}
use xiaozhi_desk_robot_serve.Segments.Buffer.{
  SegmentBuffer, append_text, finish_buffer, pop_segment,
}
use xiaozhi_desk_robot_serve.Segments.Ends.{spoken}
use xiaozhi_desk_robot_serve.Segments.Streams.{append_text-Said}
use xiaozhi_desk_robot_serve.Segments.Turn.{
  Dispatcher, acquiring, waiting, putting, dispatched, raised, TtsTurn, new_turn, TurnEvent,
  feed_text, finish_turn, dispatch_text, is_acquiring, stop_turn, acquire_slot, task_event,
  turn_step, then_steps, turn_steps,
}
use xiaozhi_desk_robot_serve.Segments.Lookahead.{
  Finished, flight, Ending, texts, Inv, TurnInv, Kept,
}
use xiaozhi_desk_robot_serve.Segments.Tasks.{
  absurd_bool, put_job-Kept, wake_up-Kept, get_job-Kept, play_segment-Kept,
}
use xiaozhi_desk_robot_serve.Segments.Dispatching.{pop_segment-Popping, dispatch_text-Kept}

-- a finished buffer takes no text
append_closed : (b : SegmentBuffer) (text : String) → b.finished ≡ true → (append_text text b).0 ≡ b
unfolding append_text
append_closed b text h = rw h refl

append_text-Ending :
    (b : SegmentBuffer) (text : String) (d : Dispatcher)
    → Ending b d
    → Ending (append_text text b).0 d
append_text-Ending b text dispatched e = subst Finished (sym (append_closed b text e.0)) e
append_text-Ending b text (putting none) e = subst Finished (sym (append_closed b text e.0)) e
append_text-Ending b text (putting (some job)) e = tt
append_text-Ending b text acquiring e = tt
append_text-Ending b text waiting e = tt
append_text-Ending b text raised e = tt

finish_turn-Ending : (b : SegmentBuffer) (d : Dispatcher) → Ending b d → Ending (finish_buffer b) d
unfolding finish_buffer
finish_turn-Ending b dispatched e = (refl, e.1)
finish_turn-Ending b (putting none) e = (refl, e.1)
finish_turn-Ending b (putting (some job)) e = tt
finish_turn-Ending b acquiring e = tt
finish_turn-Ending b waiting e = tt
finish_turn-Ending b raised e = tt

pub both : {a b : Bool} → (a && b) ≡ true → (a ≡ true) × (b ≡ true)
both {a} {b} h = ground (arith, h)

module _ (u : Unicode) (o : Options) where
  guarded : (b : Bool) (r : Option TtsTurn) → (b ≡ true → Kept u r) → Kept u (if b then r else none)
  guarded true r h = h refl
  guarded false r h = tt

  refused : (b : Bool) (r : Option TtsTurn) → Kept u r → Kept u (if b then none else r)
  refused true r h = tt
  refused false r h = h

  as_acquiring :
      (d : Dispatcher) (t : TtsTurn)
      → is_acquiring d ≡ true
      → Inv u t.buffer t.slots t.queue t.jobs t.index d t.player t.played t.stopped
      → Inv u t.buffer t.slots t.queue t.jobs t.index acquiring t.player t.played t.stopped
  unfolding is_acquiring
  as_acquiring acquiring t h inv = inv
  as_acquiring waiting t h inv = absurd_bool h
  as_acquiring (putting x) t h inv = absurd_bool h
  as_acquiring dispatched t h inv = absurd_bool h
  as_acquiring raised t h inv = absurd_bool h

  acquire_slot-Kept : (t : TtsTurn) → TurnInv u t → Kept u (acquire_slot u o t)
  unfolding acquire_slot
  acquire_slot-Kept t inv =
      guarded (is_acquiring t.dispatcher && ltb 0 t.slots)
        (dispatch_text (pop_segment u o t.buffer) t)
        (λ h.
          let (acquires, slot) = both h in
          dispatch_text-Kept u o (pop_segment u o t.buffer) t (pop_segment-Popping u o t.buffer)
            (ground (arith, slot)) (as_acquiring t.dispatcher t acquires inv))

  fed-Inv :
      (text : String) (t : TtsTurn)
      → TurnInv u t
      → let (b, fed) = append_text text t.buffer in
        TurnInv u (record t { buffer = b; changed = t.changed || fed })
  fed-Inv text t (queued, over, q, n, said, l, i, m, j, e, d) = (
    queued,
    over,
    q,
    n,
    append_text-Said u t.buffer text
        (texts (t.played ++ flight t.player queued t.dispatcher) ++ over) said,
    l,
    i,
    m,
    j,
    append_text-Ending t.buffer text t.dispatcher e,
    d,
  )

  feed_text-Kept : (text : String) (t : TtsTurn) → TurnInv u t → Kept u (feed_text text t)
  unfolding feed_text
  feed_text-Kept text t inv = refused (t.closed || t.failure) _ (fed-Inv text t inv)

  turn_step-Kept : (event : TurnEvent) (t : TtsTurn) → TurnInv u t → Kept u (turn_step u o event t)
  unfolding turn_step task_event finish_turn finish_buffer stop_turn
  turn_step-Kept (TurnEvent.feed_event text) t inv = feed_text-Kept text t inv
  turn_step-Kept TurnEvent.finish_event t (queued, over, q, n, said, l, i, m, j, e, d) =
      (queued, over, q, n, said, l, i, m, j, finish_turn-Ending t.buffer t.dispatcher e, d)
  turn_step-Kept TurnEvent.fail_event t inv = inv
  turn_step-Kept (TurnEvent.stop_event cancelled) t (queued, over, q, n, said, l, i, m, j, e, d) =
      (queued, over, q, n, said, l, i, m, λ runs. absurd_bool (sym runs), e, d)
  turn_step-Kept TurnEvent.close_event t (queued, over, q, n, said, l, i, m, j, e, d) =
      (queued, over, q, n, said, l, i, m, λ runs. absurd_bool (sym runs), e, d)
  turn_step-Kept TurnEvent.acquire_event t inv = refused t.stopped _ (acquire_slot-Kept t inv)
  turn_step-Kept TurnEvent.put_event t inv =
      refused t.stopped _ (guarded _ _ (λ h. put_job-Kept u t.dispatcher t inv))
  turn_step-Kept TurnEvent.wake_event t inv =
      refused t.stopped _ (wake_up-Kept u t.dispatcher t inv)
  turn_step-Kept TurnEvent.get_event t inv =
      refused t.stopped _ (get_job-Kept u t.player t.queue t inv)
  turn_step-Kept TurnEvent.segment_event t inv =
      refused t.stopped _ (play_segment-Kept u t.player t inv)

  after-Kept :
      (r : Option TtsTurn) (next : TtsTurn → Option TtsTurn)
      → Kept u r
      → ((t : TtsTurn) → TurnInv u t → Kept u (next t))
      → Kept u (then_steps u o r next)
  unfolding then_steps
  after-Kept none next kept more = tt
  after-Kept (some t) next kept more = more t kept

  turn_steps-Kept :
      (events : List TurnEvent) (t : TtsTurn) → TurnInv u t → Kept u (turn_steps u o events t)
  unfolding turn_steps
  turn_steps-Kept [] t inv = inv
  turn_steps-Kept (e ∷ es) t inv =
      after-Kept (turn_step u o e t) (turn_steps u o es) (turn_step-Kept e t inv)
        (turn_steps-Kept es)

  new_turn-Inv : TurnInv u new_turn
  unfolding spoken concat drop_chars
  new_turn-Inv = (
    [],
    [],
    refl,
    refl,
    ([], refl, refl, omega arith),
    refl,
    refl,
    omega arith,
    λ runs. refl,
    tt,
    tt,
  )

  pub reached-Inv :
      (events : List TurnEvent) (t : TtsTurn)
      → turn_steps u o events new_turn ≡ some t
      → TurnInv u t
  reached-Inv events t e = subst (λ r. Kept u r) e (turn_steps-Kept events new_turn new_turn-Inv)
