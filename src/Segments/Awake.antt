-- ===== src/Segments/Awake.antt =====
-- `dispatch` of TTSTurn in core/cluster/tts_turn.py waits for no text that is there.
use xiaozhi_desk_robot_serve.Prelude.{
  String, ◌≡◌, refl, sym, subst, ◌∙◌, Bool, true, false, Option, none, some, List, [], ◌∷◌, ◌||◌,
  arith, Bool-cases, inl, inr, if◌then◌else◌, ltb,
}
use xiaozhi_desk_robot_serve.Segments.{Unicode, Options}
use xiaozhi_desk_robot_serve.Segments.Buffer.{
  SegmentBuffer, append_text, finish_buffer, pop_segment,
}
use xiaozhi_desk_robot_serve.Segments.Turn.{
  Job, Dispatcher, acquiring, waiting, putting, dispatched, raised, Player, getting, awaiting,
  player_done, TtsTurn, new_turn, max_segments, TurnEvent, feed_text, finish_turn, dispatch_text,
  put_job, wake_up, get_job, play_segment, stop_turn, acquire_slot, task_event, turn_step,
  then_steps, turn_steps,
}
use xiaozhi_desk_robot_serve.Segments.Tasks.{absurd_bool}

-- `dispatch` sees every change of the text
abbrev pub Awake : Bool → Bool → Dispatcher → Type 0
Awake changed finished waiting = (changed ≡ false → finished ≡ false)
Awake changed finished acquiring = Unit
Awake changed finished (putting x) = Unit
Awake changed finished dispatched = Unit
Awake changed finished raised = Unit

abbrev pub TurnAwake : TtsTurn → Type 0
TurnAwake t = Awake t.changed t.buffer.finished t.dispatcher

abbrev Stays : Option TtsTurn → Type 0
Stays none = Unit
Stays (some t) = TurnAwake t

append_finished : (b : SegmentBuffer) (text : String) → (append_text text b).0.finished ≡ b.finished
unfolding append_text
append_finished b text = ground arith

or_false : (a b : Bool) → (a || b) ≡ false → a ≡ false
or_false a b h = ground (arith, h)

feed_text-Awake :
    (changed fed f g : Bool) (d : Dispatcher)
    → f ≡ g
    → Awake changed g d
    → Awake (changed || fed) f d
feed_text-Awake changed fed f g waiting e awake = λ h. e ∙ awake (or_false changed fed h)
feed_text-Awake changed fed f g acquiring e awake = tt
feed_text-Awake changed fed f g (putting x) e awake = tt
feed_text-Awake changed fed f g dispatched e awake = tt
feed_text-Awake changed fed f g raised e awake = tt

finish_turn-Awake : (f : Bool) (d : Dispatcher) → Awake true f d
finish_turn-Awake f waiting = λ h. absurd_bool (sym h)
finish_turn-Awake f acquiring = tt
finish_turn-Awake f (putting x) = tt
finish_turn-Awake f dispatched = tt
finish_turn-Awake f raised = tt

idle-Awake : (f : Bool) → Awake false f (if f then putting none else waiting)
idle-Awake true = tt
idle-Awake false = λ h. refl

guarded : (b : Bool) (r : Option TtsTurn) → Stays r → Stays (if b then r else none)
guarded true r h = h
guarded false r h = tt

refused : (b : Bool) (r : Option TtsTurn) → Stays r → Stays (if b then none else r)
refused true r h = tt
refused false r h = h

put_job-Stays : (d : Dispatcher) (t : TtsTurn) → Stays (put_job d t)
unfolding put_job
put_job-Stays (putting none) t = tt
put_job-Stays (putting (some job)) t = tt
put_job-Stays acquiring t = tt
put_job-Stays waiting t = tt
put_job-Stays dispatched t = tt
put_job-Stays raised t = tt

wake_up-Stays : (d : Dispatcher) (t : TtsTurn) → Stays (wake_up d t)
unfolding wake_up
wake_up-Stays waiting t = guarded t.changed _ tt
wake_up-Stays acquiring t = tt
wake_up-Stays (putting x) t = tt
wake_up-Stays dispatched t = tt
wake_up-Stays raised t = tt

get_job-Stays :
    (p : Player) (queue : List (Option Job)) (t : TtsTurn) → TurnAwake t → Stays (get_job p queue t)
unfolding get_job
get_job-Stays getting [] t h = tt
get_job-Stays getting (none ∷ queue) t h = h
get_job-Stays getting (some job ∷ queue) t h = h
get_job-Stays (awaiting job) queue t h = tt
get_job-Stays player_done queue t h = tt

play_segment-Stays : (p : Player) (t : TtsTurn) → TurnAwake t → Stays (play_segment p t)
unfolding play_segment
play_segment-Stays (awaiting job) t h = h
play_segment-Stays getting t h = tt
play_segment-Stays player_done t h = tt

dispatch_text-Stays :
    (r : Option (SegmentBuffer × Option String)) (t : TtsTurn) → Stays (dispatch_text r t)
unfolding dispatch_text
dispatch_text-Stays none t = tt
dispatch_text-Stays (some (c, none)) t = idle-Awake c.finished
dispatch_text-Stays (some (c, some text)) t = elim (Bool-cases (ltb t.index max_segments)) [
  | inl more ↦ rw more tt
  | inr many ↦ rw many tt
]

module _ (u : Unicode) (o : Options) where
  turn_step-Stays : (event : TurnEvent) (t : TtsTurn) → TurnAwake t → Stays (turn_step u o event t)
  unfolding turn_step task_event acquire_slot feed_text finish_turn finish_buffer stop_turn
  turn_step-Stays (TurnEvent.feed_event text) t h = refused (t.closed || t.failure) _ (
      feed_text-Awake t.changed (append_text text t.buffer).1 _ t.buffer.finished t.dispatcher
        (append_finished t.buffer text) h)
  turn_step-Stays TurnEvent.finish_event t h = finish_turn-Awake true t.dispatcher
  turn_step-Stays TurnEvent.fail_event t h = h
  turn_step-Stays (TurnEvent.stop_event cancelled) t h = h
  turn_step-Stays TurnEvent.close_event t h = h
  turn_step-Stays TurnEvent.acquire_event t h =
      refused t.stopped _ (guarded _ _ (dispatch_text-Stays (pop_segment u o t.buffer) t))
  turn_step-Stays TurnEvent.put_event t h =
      refused t.stopped _ (guarded _ _ (put_job-Stays t.dispatcher t))
  turn_step-Stays TurnEvent.wake_event t h = refused t.stopped _ (wake_up-Stays t.dispatcher t)
  turn_step-Stays TurnEvent.get_event t h = refused t.stopped _ (get_job-Stays t.player t.queue t h)
  turn_step-Stays TurnEvent.segment_event t h =
      refused t.stopped _ (play_segment-Stays t.player t h)

  after-Stays :
      (r : Option TtsTurn) (next : TtsTurn → Option TtsTurn)
      → Stays r
      → ((t : TtsTurn) → TurnAwake t → Stays (next t))
      → Stays (then_steps u o r next)
  unfolding then_steps
  after-Stays none next h more = tt
  after-Stays (some t) next h more = more t h

  turn_steps-Stays :
      (events : List TurnEvent) (t : TtsTurn) → TurnAwake t → Stays (turn_steps u o events t)
  unfolding turn_steps
  turn_steps-Stays [] t h = h
  turn_steps-Stays (e ∷ es) t h =
      after-Stays (turn_step u o e t) (turn_steps u o es) (turn_step-Stays e t h)
        (turn_steps-Stays es)

  pub reached-Awake :
      (events : List TurnEvent) (t : TtsTurn)
      → turn_steps u o events new_turn ≡ some t
      → TurnAwake t
  reached-Awake events t e = subst (λ r. Stays r) e (turn_steps-Stays events new_turn tt)
