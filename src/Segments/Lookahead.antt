-- ===== src/Segments/Lookahead.antt =====
-- What the tasks of TTSTurn in core/cluster/tts_turn.py keep between their steps.
use mathlib.Core.List.{◌++◌, map}
use xiaozhi_desk_robot_serve.Prelude.{
  ℕ, zero, suc, ◌+◌, ◌≤◌, String, ◌≡◌, Bool, true, false, Option, none, some, List, [], ◌∷◌, length,
}
use xiaozhi_desk_robot_serve.Segments.{Unicode}
use xiaozhi_desk_robot_serve.Segments.Buffer.{SegmentBuffer, current_text}
use xiaozhi_desk_robot_serve.Segments.Streams.{Said}
use xiaozhi_desk_robot_serve.Segments.Turn.{
  Job, Dispatcher, acquiring, waiting, putting, dispatched, raised, Player, getting, awaiting,
  player_done, TtsTurn, max_segments,
}

-- the job that `play` waits for
abbrev pub busy : Player → List Job
busy getting = []
busy (awaiting job) = job ∷ []
busy player_done = []

-- the job that `dispatch` puts
abbrev pub carried : Dispatcher → List Job
carried (putting (some job)) = job ∷ []
carried (putting none) = []
carried acquiring = []
carried waiting = []
carried dispatched = []
carried raised = []

abbrev pub flight : Player → List Job → Dispatcher → List Job
flight p queued d = busy p ++ (queued ++ carried d)

-- the slot that is not given back when `dispatch` raises
abbrev pub lost : Dispatcher → ℕ
lost raised = 1
lost acquiring = 0
lost waiting = 0
lost (putting x) = 0
lost dispatched = 0

abbrev pub end_of : Dispatcher → List (Option Job)
end_of dispatched = none ∷ []
end_of acquiring = []
end_of waiting = []
end_of (putting x) = []
end_of raised = []

-- the mark after the last job of the queue
abbrev pub closing : Player → Dispatcher → List (Option Job)
closing getting d = end_of d
closing (awaiting job) d = end_of d
closing player_done d = []

abbrev pub Finished : SegmentBuffer → Type 0
Finished b = (b.finished ≡ true) × (current_text b ≡ "")

abbrev pub Ending : SegmentBuffer → Dispatcher → Type 0
Ending b dispatched = Finished b
Ending b (putting none) = Finished b
Ending b (putting (some job)) = Unit
Ending b acquiring = Unit
Ending b waiting = Unit
Ending b raised = Unit

abbrev pub is_dispatched : Dispatcher → Bool
is_dispatched dispatched = true
is_dispatched (putting x) = false
is_dispatched acquiring = false
is_dispatched waiting = false
is_dispatched raised = false

abbrev pub Done : Player → List Job → Dispatcher → Type 0
Done getting queued d = Unit
Done (awaiting job) queued d = Unit
Done player_done queued d = (queued ≡ []) × (is_dispatched d ≡ true)

abbrev pub texts : List Job → List String
texts jobs = map (λ j. j.text) jobs

abbrev pub indices : List Job → List ℕ
indices jobs = map (λ j. j.index) jobs

-- 0, 1, … up to a bound
abbrev pub numbers : ℕ → List ℕ
numbers zero = []
numbers (suc n) = numbers n ++ n ∷ []

abbrev pub Inv :
    Unicode
    → SegmentBuffer
    → ℕ
    → List (Option Job)
    → List ℕ
    → ℕ
    → Dispatcher
    → Player
    → List Job
    → Bool
    → Type 0
Inv u b slots queue jobs index d p played stopped =
    (queued : List Job) × (over : List String) × (queue ≡ map some queued ++ closing p d)
    × (slots + (length (busy p) + length queued + length (carried d) + lost d) ≡ 3)
    × Said u b (texts (played ++ flight p queued d) ++ over)
    × (length over ≡ lost d)
    × (indices (played ++ flight p queued d) ≡ numbers index)
    × (index ≤ max_segments)
    × (stopped ≡ false → jobs ≡ indices (flight p queued d))
    × Ending b d
    × Done p queued d

abbrev pub TurnInv : Unicode → TtsTurn → Type 0
TurnInv u t = Inv u t.buffer t.slots t.queue t.jobs t.index t.dispatcher t.player t.played t.stopped

-- the invariant, if the event happens
abbrev pub Kept : Unicode → Option TtsTurn → Type 0
Kept u none = Unit
Kept u (some t) = TurnInv u t
