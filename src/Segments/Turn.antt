-- ===== src/Segments/Turn.antt =====
-- TTSTurn of core/cluster/tts_turn.py: `dispatch` and `play` and the calls of the turn, as events in any order.
use xiaozhi_desk_robot_serve.Prelude.{
  ℕ, suc, ◌-◌, String, Bool, true, false, not, ◌&&◌, ◌||◌, Option, none, some, List, [], ◌∷◌, ◌++◌,
  if◌then◌else◌, ltb, ◌==◌, length,
}
use xiaozhi_desk_robot_serve.Segments.{Unicode, Options}
use xiaozhi_desk_robot_serve.Segments.Buffer.{
  SegmentBuffer, empty_buffer, append_text, finish_buffer, pop_segment,
}

abbrev pub max_lookahead : ℕ
max_lookahead = 3

-- core/cluster/tts_protocol.py
abbrev pub max_segments : ℕ
max_segments = 512

-- a job of the pool, which generates the sound of a text
pub record Job : Type 0 where
  pub index : ℕ
  pub text : String

-- where `dispatch` waits: for a slot, for a change of the text, or for a place in the queue
pub data Dispatcher : Type 0 where
  acquiring : Dispatcher
  waiting : Dispatcher
  putting : Option Job → Dispatcher
  dispatched : Dispatcher
  raised : Dispatcher

-- where `play` waits: for the queue, or for a job
pub data Player : Type 0 where
  getting : Player
  awaiting : Job → Player
  player_done : Player

pub record TtsTurn : Type 0 where
  pub buffer : SegmentBuffer
  pub changed : Bool
  pub slots : ℕ
  pub queue : List (Option Job)
  pub jobs : List ℕ
  pub index : ℕ
  pub dispatcher : Dispatcher
  pub player : Player
  -- the jobs whose sound went to the playback
  pub played : List Job
  pub failure : Bool
  pub stopped : Bool
  pub closed : Bool

-- __init__
abbrev pub new_turn : TtsTurn
new_turn = record {
  buffer = empty_buffer;
  changed = false;
  slots = max_lookahead;
  queue = [];
  jobs = [];
  index = 0;
  dispatcher = acquiring;
  player = getting;
  played = [];
  failure = false;
  stopped = false;
  closed = false;
}

-- `jobs.discard`: the set is a list without duplicates
unfoldable pub discard_job : ℕ → List ℕ → List ℕ
discard_job x [] = []
discard_job x (y ∷ ys) = let rest = discard_job x ys in if x == y then ys else y ∷ rest

pub data TurnEvent : Type 0 where
  feed_event : String → TurnEvent
  finish_event : TurnEvent
  acquire_event : TurnEvent
  put_event : TurnEvent
  wake_event : TurnEvent
  get_event : TurnEvent
  segment_event : TurnEvent
  fail_event : TurnEvent
  stop_event : Bool → TurnEvent
  close_event : TurnEvent

-- feed: the text, or an exception
unfoldable pub feed_text : String → TtsTurn → Option TtsTurn
feed_text text t =
    let (b, fed) = append_text text t.buffer in
    if t.closed || t.failure
    then none
    else some (record t { buffer = b; changed = t.changed || fed })

unfoldable pub finish_turn : TtsTurn → TtsTurn
finish_turn t = record t { buffer = finish_buffer t.buffer; changed = true }

-- dispatch: what it does with a slot and the result of `pop`. The `index` of the loop counts a job at once, not
-- after its `put`, which no other task can see
unfoldable pub dispatch_text : Option (SegmentBuffer × Option String) → TtsTurn → Option TtsTurn
dispatch_text none t = none
dispatch_text (some (c, none)) t = some (record t {
  buffer = c;
  changed = false;
  dispatcher = if c.finished then putting none else waiting;
})
dispatch_text (some (c, some text)) t =
    let job : Job = record { index = t.index; text = text } in
    if ltb t.index max_segments
    then some (record t {
      buffer = c;
      changed = false;
      slots = t.slots - 1;
      jobs = t.jobs ++ t.index ∷ [];
      index = suc t.index;
      dispatcher = putting (some job);
    })
    else some (record t { buffer = c; changed = false; slots = t.slots - 1; dispatcher = raised })

unfoldable pub is_acquiring : Dispatcher → Bool
is_acquiring acquiring = true
is_acquiring waiting = false
is_acquiring (putting x) = false
is_acquiring dispatched = false
is_acquiring raised = false

-- dispatch: `put` of what it holds
unfoldable pub put_job : Dispatcher → TtsTurn → Option TtsTurn
put_job (putting none) t = some (record t { queue = t.queue ++ none ∷ []; dispatcher = dispatched })
put_job (putting (some job)) t =
    some (record t { queue = t.queue ++ some job ∷ []; dispatcher = acquiring })
put_job acquiring t = none
put_job waiting t = none
put_job dispatched t = none
put_job raised t = none

-- dispatch: the text has changed
unfoldable pub wake_up : Dispatcher → TtsTurn → Option TtsTurn
wake_up waiting t = if t.changed then some (record t { dispatcher = acquiring }) else none
wake_up acquiring t = none
wake_up (putting x) t = none
wake_up dispatched t = none
wake_up raised t = none

-- play: the next job of the queue
unfoldable pub get_job : Player → List (Option Job) → TtsTurn → Option TtsTurn
get_job getting [] t = none
get_job getting (none ∷ queue) t = some (record t { queue = queue; player = player_done })
get_job getting (some job ∷ queue) t = some (record t { queue = queue; player = awaiting job })
get_job (awaiting job) queue t = none
get_job player_done queue t = none

-- play: the sound of the job is generated and played
unfoldable pub play_segment : Player → TtsTurn → Option TtsTurn
unfolding discard_job
play_segment (awaiting job) t = some (record t {
  player = getting;
  played = t.played ++ job ∷ [];
  jobs = discard_job job.index t.jobs;
  slots = suc t.slots;
})
play_segment getting t = none
play_segment player_done t = none

-- the end of `run`, by a cancellation or by an exception: every task and every job is cancelled
unfoldable pub stop_turn : Bool → TtsTurn → TtsTurn
stop_turn cancelled t = record t { stopped = true; jobs = []; failure = t.failure || not cancelled }

module _ (u : Unicode) (o : Options) where
  -- dispatch: a slot is there
  unfoldable pub acquire_slot : TtsTurn → Option TtsTurn
  unfolding is_acquiring dispatch_text
  acquire_slot t =
      if is_acquiring t.dispatcher && ltb 0 t.slots
      then dispatch_text (pop_segment u o t.buffer) t
      else none

  -- an event of a turn whose tasks run
  unfoldable pub task_event : TurnEvent → TtsTurn → Option TtsTurn
  unfolding acquire_slot put_job wake_up get_job play_segment
  task_event acquire_event t = acquire_slot t
  task_event put_event t =
      if ltb (length t.queue) max_lookahead then put_job t.dispatcher t else none
  task_event wake_event t = wake_up t.dispatcher t
  task_event get_event t = get_job t.player t.queue t
  task_event segment_event t = play_segment t.player t
  task_event (feed_event text) t = none
  task_event finish_event t = none
  task_event fail_event t = none
  task_event (stop_event cancelled) t = none
  task_event close_event t = none

  -- `none` for an event that cannot happen or that raises without a change
  unfoldable pub turn_step : TurnEvent → TtsTurn → Option TtsTurn
  unfolding feed_text finish_turn stop_turn task_event
  turn_step (feed_event text) t = feed_text text t
  turn_step finish_event t = some (finish_turn t)
  turn_step fail_event t = some (record t { failure = true })
  turn_step (stop_event cancelled) t = some (stop_turn cancelled t)
  turn_step close_event t = some (record (stop_turn true t) { closed = true })
  turn_step acquire_event t = if t.stopped then none else task_event acquire_event t
  turn_step put_event t = if t.stopped then none else task_event put_event t
  turn_step wake_event t = if t.stopped then none else task_event wake_event t
  turn_step get_event t = if t.stopped then none else task_event get_event t
  turn_step segment_event t = if t.stopped then none else task_event segment_event t

  unfoldable pub then_steps : Option TtsTurn → (TtsTurn → Option TtsTurn) → Option TtsTurn
  then_steps none next = none
  then_steps (some t) next = next t

  unfoldable pub turn_steps : List TurnEvent → TtsTurn → Option TtsTurn
  unfolding turn_step then_steps
  turn_steps [] t = some t
  turn_steps (e ∷ es) t = then_steps (turn_step e t) (turn_steps es)
