-- ===== src/VoiceTurn/Invariant.antt =====
-- What holds of a session of core/cluster/voice_turn.py between two steps.
use xiaozhi_desk_robot_serve.Prelude.{
  ℕ, ◌+◌, ◌≤◌, Bool, ◌≡◌, refl, true, false, Option, none, some, List, [], ◌∷◌, ◌++◌, ◌⊎◌, inl, inr,
  arith, length, Bool-cases, All,
}
use xiaozhi_desk_robot_serve.VoiceTurn.{
  Frame, audio, end_of_speech, Message, Task, listening, given, VoiceTurn, init, emit, after, ok,
  raised, TaskInput, Step,
}
use xiaozhi_desk_robot_serve.VoiceTurn.Control.{queue_size, emit_quietly, release, abort, drain}

-- the frames of a queue: audio, and after the end of speech nothing
abbrev pub IsAudio : Frame → Type 0
IsAudio (audio bytes) = Unit
IsAudio end_of_speech = ⊥

abbrev pub EndsLast : List Frame → Type 0
EndsLast [] = Unit
EndsLast (audio bytes ∷ q) = EndsLast q
EndsLast (end_of_speech ∷ q) = q ≡ []

abbrev pub QueueOk : Bool → Option (List Frame) → Type 0
QueueOk ending none = Unit
QueueOk false (some q) = (length q ≤ queue_size) × All IsAudio q
QueueOk true (some q) = (length q ≤ queue_size) × EndsLast q

-- a task that listens has its queue; one that answers a text lets no frame in
abbrev pub Served : TaskInput → Option (List Frame) → Bool → Bool → Type 0
Served (listening mode) none ending closing = ⊥
Served (listening mode) (some q) ending closing = Unit
Served (given text wake last) q ending closing = (ending ≡ true) ⊎ (closing ≡ true)

-- the task of the state belongs to the current generation
abbrev pub TaskOk : ℕ → Option (List Frame) → Bool → Bool → Option Task → Type 0
TaskOk g q ending closing none = Unit
TaskOk g q ending closing (some t) = (t.generation ≡ g) × Served t.input q ending closing

abbrev pub IsSound : VoiceTurn → Type 0
IsSound v = QueueOk v.ending v.queue × TaskOk v.generation v.queue v.ending v.idle_closing v.task

pub init-IsSound : (now : ℕ) → IsSound (init now)
unfolding init
init-IsSound now = (tt, tt)

pub All-EndsLast : (q : List Frame) → All IsAudio q → EndsLast q
All-EndsLast [] a = tt
All-EndsLast (audio bytes ∷ q) a = All-EndsLast q a.1
All-EndsLast (end_of_speech ∷ q) a = absurd a.0

pub EndsLast-append : (q : List Frame) (f : Frame) → All IsAudio q → EndsLast (q ++ f ∷ [])
EndsLast-append [] (audio bytes) a = tt
EndsLast-append [] end_of_speech a = refl
EndsLast-append (audio bytes ∷ q) f a = EndsLast-append q f a.1
EndsLast-append (end_of_speech ∷ q) f a = absurd a.0

pub length-drain-le : (n : ℕ) (q : List Frame) → length (drain n q) ≤ length q
unfolding drain
length-drain-le n [] = omega arith
length-drain-le n (f ∷ q) = ground (arith, length-drain-le n q)

All-drain : (n : ℕ) (q : List Frame) → All IsAudio q → All IsAudio (drain n q)
unfolding drain
All-drain n [] a = tt
All-drain n (f ∷ q) a = ground (arith, All-drain n q)

EndsLast-tail : (f : Frame) (q : List Frame) → EndsLast (f ∷ q) → EndsLast q
EndsLast-tail (audio bytes) q e = e
EndsLast-tail end_of_speech [] e = tt
EndsLast-tail end_of_speech (f ∷ q) e = absurd (cc)

EndsLast-drain : (n : ℕ) (q : List Frame) → EndsLast q → EndsLast (drain n q)
unfolding drain
EndsLast-drain n [] e = tt
EndsLast-drain n (f ∷ q) e = ground (arith, EndsLast-drain n q, EndsLast-tail f q)

pub QueueOk-drain :
    (ending : Bool) (n : ℕ) (q : List Frame)
    → QueueOk ending (some q)
    → QueueOk ending (some (drain n q))
QueueOk-drain true n q i = (omega (arith, length-drain-le n q, i.0), EndsLast-drain n q i.1)
QueueOk-drain false n q i = (omega (arith, length-drain-le n q, i.0), All-drain n q i.1)

pub QueueOk-tail :
    (ending : Bool) (f : Frame) (q : List Frame)
    → QueueOk ending (some (f ∷ q))
    → QueueOk ending (some q)
QueueOk-tail true f q i = (omega arith, EndsLast-tail f q i.1)
QueueOk-tail false f q i = (omega arith, i.1.1)

pub QueueOk-end : (ending : Bool) (q : Option (List Frame)) → QueueOk ending q → QueueOk true q
QueueOk-end ending none i = tt
QueueOk-end true (some q) i = i
QueueOk-end false (some q) i = (i.0, All-EndsLast q i.1)

Served-end :
    (t : TaskInput) (q : Option (List Frame)) (ending closing : Bool)
    → Served t q ending closing
    → Served t q true closing
Served-end (listening mode) none ending closing s = s
Served-end (listening mode) (some q) ending closing s = tt
Served-end (given text wake last) q ending closing s = inl refl

pub TaskOk-end :
    (g : ℕ) (q : Option (List Frame)) (ending closing : Bool) (t : Option Task)
    → TaskOk g q ending closing t
    → TaskOk g q true closing t
TaskOk-end g q ending closing none i = tt
TaskOk-end g q ending closing (some t) i = (i.0, Served-end t.input q ending closing i.1)

Served-queue :
    (t : TaskInput) (q q' : List Frame) (ending closing : Bool)
    → Served t (some q) ending closing
    → Served t (some q') ending closing
Served-queue (listening mode) q q' ending closing s = tt
Served-queue (given text wake last) q q' ending closing s = s

pub TaskOk-queue :
    (g : ℕ) (q q' : List Frame) (ending closing : Bool) (t : Option Task)
    → TaskOk g (some q) ending closing t
    → TaskOk g (some q') ending closing t
TaskOk-queue g q q' ending closing none i = tt
TaskOk-queue g q q' ending closing (some t) i = (i.0, Served-queue t.input q q' ending closing i.1)

-- sending changes only what was sent
pub emit-IsSound :
    (sends : Message → Bool) (m : Message) (v : VoiceTurn) → IsSound v → IsSound (emit sends m v).0
unfolding emit
emit-IsSound sends m v i = elim (Bool-cases (sends m)) [ inl e ↦ rw e i | inr e ↦ rw e i ]

pub after-IsSound :
    (s : Step) (k : VoiceTurn → Step)
    → IsSound s.0
    → ((v : VoiceTurn) → IsSound v → IsSound (k v).0)
    → IsSound (after s k).0
unfolding after
after-IsSound (v, ok) k i h = h v i
after-IsSound (v, raised e) k i h = i

-- after `abort` there is neither task nor queue
pub abort-none :
    (sends : Message → Bool) (v : VoiceTurn)
    → ((abort sends v).queue ≡ none)
      × ((abort sends v).task ≡ none)
      × ((abort sends v).generation ≡ v.generation + 1)
      × ((abort sends v).idle_closing ≡ v.idle_closing)
unfolding abort emit_quietly emit release
abort-none sends v = ground arith
