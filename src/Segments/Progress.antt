-- ===== src/Segments/Progress.antt =====
-- The tasks of TTSTurn in core/cluster/tts_turn.py never wait for each other.
use mathlib.Core.List.{◌++◌, map}
use xiaozhi_desk_robot_serve.Prelude.{
  ◌<◌, String, ◌≡◌, ◌⊎◌, refl, ap, subst, ◌∙◌, Bool, true, false, Option, none, some, List, [], ◌∷◌,
  ◌&&◌, arith, Bool-cases, inl, inr, if◌then◌else◌, ltb, length,
}
use xiaozhi_desk_robot_serve.Segments.{Unicode, Options}
use xiaozhi_desk_robot_serve.Segments.Buffer.{SegmentBuffer, pop_segment}
use xiaozhi_desk_robot_serve.Segments.Ends.{pop_segment-Popped}
use xiaozhi_desk_robot_serve.Segments.Turn.{
  Job, Dispatcher, acquiring, waiting, putting, dispatched, raised, Player, getting, awaiting,
  player_done, TtsTurn, new_turn, max_lookahead, max_segments, TurnEvent, dispatch_text,
  is_acquiring, put_job, wake_up, get_job, play_segment, acquire_slot, task_event, turn_step,
  turn_steps,
}
use xiaozhi_desk_robot_serve.Segments.Lookahead.{end_of, Inv, TurnInv}
use xiaozhi_desk_robot_serve.Segments.Turns.{reached-Inv}
use xiaozhi_desk_robot_serve.Segments.Awake.{Awake, TurnAwake, reached-Awake}

-- an event of the tasks
abbrev pub is_task_event : TurnEvent → Bool
is_task_event TurnEvent.acquire_event = true
is_task_event TurnEvent.put_event = true
is_task_event TurnEvent.wake_event = true
is_task_event TurnEvent.get_event = true
is_task_event TurnEvent.segment_event = true
is_task_event (TurnEvent.feed_event text) = false
is_task_event TurnEvent.finish_event = false
is_task_event TurnEvent.fail_event = false
is_task_event (TurnEvent.stop_event cancelled) = false
is_task_event TurnEvent.close_event = false

-- what `play` can do
abbrev Playing : Player → List (Option Job) → TtsTurn → Type 0
Playing p queue t =
    ((s : TtsTurn) × (get_job p queue t ≡ some s))
    ⊎ ((s : TtsTurn) × (play_segment p t ≡ some s))
    ⊎ (p ≡ player_done)
    ⊎ ((p ≡ getting) × (queue ≡ []))

play-Playing : (p : Player) (queue : List (Option Job)) (t : TtsTurn) → Playing p queue t
unfolding get_job play_segment
play-Playing getting [] t = inr (inr (inr (refl, refl)))
play-Playing getting (none ∷ queue) t = inl (_, refl)
play-Playing getting (some job ∷ queue) t = inl (_, refl)
play-Playing (awaiting job) queue t = inr (inl (_, refl))
play-Playing player_done queue t = inr (inr (inl refl))

put_job_runs : (x : Option Job) (t : TtsTurn) → (s : TtsTurn) × (put_job (putting x) t ≡ some s)
unfolding put_job
put_job_runs none t = (_, refl)
put_job_runs (some job) t = (_, refl)

wake_up_runs : (t : TtsTurn) → t.changed ≡ true → (s : TtsTurn) × (wake_up waiting t ≡ some s)
unfolding wake_up
wake_up_runs t h = rw h (_, refl)

no_queue :
    (queued : List Job) (rest : List (Option Job)) → [] ≡ map some queued ++ rest → queued ≡ []
no_queue [] rest e = refl
no_queue (x ∷ xs) rest e = cc

no_end {ℓ} : {A : Type ℓ} → (queued : List Job) → [] ≡ map some queued ++ end_of dispatched → A
no_end [] e = cc
no_end (x ∷ xs) e = cc

widen {ℓ} : {A B C D : Type ℓ} → A ⊎ (B ⊎ C) → A ⊎ (D ⊎ (B ⊎ C))
widen (inl a) = inl a
widen (inr rest) = inr (inr rest)

module _ (u : Unicode) (o : Options) where
  dispatch_text_runs :
      (c : SegmentBuffer) (text : Option String) (t : TtsTurn)
      → (s : TtsTurn) × (dispatch_text (some (c, text)) t ≡ some s)
  unfolding dispatch_text
  dispatch_text_runs c none t = (_, refl)
  dispatch_text_runs c (some text) t = elim (Bool-cases (ltb t.index max_segments)) [
    | inl more ↦ rw more (_, refl)
    | inr many ↦ rw many (_, refl)
  ]

  acquire_runs :
      (t : TtsTurn)
      → t.dispatcher ≡ acquiring
      → 0 < t.slots
      → (s : TtsTurn) × (acquire_slot u o t ≡ some s)
  unfolding acquire_slot is_acquiring
  acquire_runs t e h =
      let (c, text, popped, left) = pop_segment-Popped u o t.buffer in
      let (s, next) = dispatch_text_runs c text t in
      let slot : ltb 0 t.slots ≡ true = ground (arith, h) in
      (
        s,
        ap (λ b. if b then dispatch_text (pop_segment u o t.buffer) t else none)
              (ap (λ d. is_acquiring d && ltb 0 t.slots) e ∙ slot)
            ∙ ap (λ r. dispatch_text r t) popped
            ∙ next,
      )

  task_runs :
      (t : TtsTurn) (r : Option TtsTurn) (s : TtsTurn)
      → t.stopped ≡ false
      → r ≡ some s
      → (if t.stopped then none else r) ≡ some s
  task_runs t r s h e = ap (λ b. if b then none else r) h ∙ e

  -- a step of the tasks
  abbrev Moves : TtsTurn → Type 0
  Moves t =
      (e : TurnEvent) × (s : TtsTurn) × (is_task_event e ≡ true) × (turn_step u o e t ≡ some s)

  -- `dispatch` waits for a text that is not there
  abbrev Idles : TtsTurn → Type 0
  Idles t = (t.dispatcher ≡ waiting) × (t.changed ≡ false) × (t.buffer.finished ≡ false)

  put_runs :
      (t : TtsTurn) (x : Option Job)
      → t.stopped ≡ false
      → t.dispatcher ≡ putting x
      → t.queue ≡ []
      → Moves t
  unfolding turn_step task_event put_job
  put_runs t x h e q =
      let (s, next) : (s : TtsTurn) × (put_job t.dispatcher t ≡ some s) =
        let (s, next) = put_job_runs x t in (s, ap (λ d. put_job d t) e ∙ next) in
      (
        TurnEvent.put_event,
        s,
        refl,
        task_runs t _ s h (
            ap (λ l. if ltb (length l) max_lookahead then put_job t.dispatcher t else none) q
            ∙ next),
      )

  -- what `dispatch` can do when `play` waits for the queue
  dispatch-Moves :
      (t : TtsTurn) (d : Dispatcher)
      → t.stopped ≡ false
      → t.dispatcher ≡ d
      → t.queue ≡ []
      → t.player ≡ getting
      → Awake t.changed t.buffer.finished d
      → Inv u t.buffer t.slots [] t.jobs t.index d getting t.played t.stopped
      → Moves t ⊎ (t.dispatcher ≡ raised) ⊎ Idles t
  unfolding turn_step task_event wake_up
  dispatch-Moves t acquiring h e q p awake inv =
      let (s, next) =
        acquire_runs t e (omega (arith, inv.3, ap length (no_queue inv.0 [] inv.2))) in
      inl (TurnEvent.acquire_event, s, refl, task_runs t _ s h next)
  dispatch-Moves t waiting h e q p awake inv = elim (Bool-cases t.changed) [
    | inl changed ↦
        let (s, next) = wake_up_runs t changed in
        inl (TurnEvent.wake_event, s, refl, task_runs t _ s h (ap (λ d. wake_up d t) e ∙ next))
    | inr same ↦ inr (inr (e, same, awake same))
  ]
  dispatch-Moves t (putting x) h e q p awake inv = inl (put_runs t x h e q)
  dispatch-Moves t dispatched h e q p awake inv = no_end inv.0 inv.2
  dispatch-Moves t raised h e q p awake inv = inr (inl e)

  turn-Moves :
      (t : TtsTurn)
      → t.stopped ≡ false
      → TurnInv u t
      → TurnAwake t
      → Moves t ⊎ (t.player ≡ player_done) ⊎ (t.dispatcher ≡ raised) ⊎ Idles t
  unfolding turn_step task_event
  turn-Moves t h inv awake = elim (play-Playing t.player t.queue t) [
    | inl (s, next) ↦ inl (TurnEvent.get_event, s, refl, task_runs t _ s h next)
    | inr (inl (s, next)) ↦ inl (TurnEvent.segment_event, s, refl, task_runs t _ s h next)
    | inr (inr (inl ended)) ↦ inr (inl ended)
    | inr (inr (inr (gets, alone))) ↦
        let first =
          subst
            (λ p. Inv u t.buffer t.slots t.queue t.jobs t.index t.dispatcher p t.played t.stopped)
            gets inv in
        let second =
          subst
            (λ q. Inv u t.buffer t.slots q t.jobs t.index t.dispatcher getting t.played t.stopped)
            alone first in
        widen (dispatch-Moves t t.dispatcher h refl alone gets awake second)
  ]

  -- The tasks never block each other: in every turn that events lead to and that is not stopped, a step of
  -- `dispatch` or `play` is possible, unless `play` has come to its end, `dispatch` has raised, or `dispatch`
  -- waits while the text has not changed and the turn is not finished
  pub turn_steps-never_block :
      (events : List TurnEvent) (t : TtsTurn)
      → turn_steps u o events new_turn ≡ some t
      → t.stopped ≡ false
      → ((e : TurnEvent) × (s : TtsTurn) × (is_task_event e ≡ true) × (turn_step u o e t ≡ some s))
        ⊎ (t.player ≡ player_done)
        ⊎ (t.dispatcher ≡ raised)
        ⊎ ((t.dispatcher ≡ waiting) × (t.changed ≡ false) × (t.buffer.finished ≡ false))
  turn_steps-never_block events t e h =
      turn-Moves t h (reached-Inv u o events t e) (reached-Awake u o events t e)
