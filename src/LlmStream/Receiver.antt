-- ===== src/LlmStream/Receiver.antt =====
-- core/cluster/llm_stream_client.py: what a core makes of the events of a text.
use Prim.Native.String.{◌++◌, len}
use xiaozhi_desk_robot_serve.Prelude.{
  ℕ, suc, ◌+◌, String, Bool, false, not, ◌&&◌, ◌||◌, Option, none, some, List, [], ◌∷◌, ltb, ◌==◌,
  str_eq, if◌then◌else◌,
}
use xiaozhi_desk_robot_serve.LlmStream.{
  Kind, started, chunk, complete, error, Event, max_text_bytes,
}

-- what goes wrong around one event, by its code: the stream has failed or is closed when the event is
-- taken, the consumer does not accept the text, the stream fails meanwhile, or the acknowledgment
-- cannot be sent
pub record Trouble : Type 0 where
  pub taken : Option String
  pub consumed : Option String
  pub acknowledged : Option String

-- the variables of `run`; `text` joins the parts
pub record Progress : Type 0 where
  pub worker_id : Option String
  pub seq : ℕ
  pub text : String

abbrev pub fresh : Progress
fresh = record { worker_id = none; seq = 0; text = "" }

-- `waiting`: the events have ended, and the client waits until its deadline
pub data StreamOutcome : Type 0 where
  waiting : Progress → StreamOutcome
  finished failed : String → StreamOutcome

-- one round of the loop: it goes on, or the stream ends
pub data Round : Type 0 where
  continues : Progress → Round
  ends : StreamOutcome → Round

abbrev pub invalid : Round
invalid = ends (failed "worker_rpc_invalid_reply")

unfoldable pub other_worker : Option String → String → Bool
other_worker none w = false
other_worker (some v) w = not (str_eq w v)

-- a failure ends the stream, and else the round goes on
unfoldable pub unless : Option String → Round → Round
unless none r = r
unless (some code) r = ends (failed code)

module _ (sha256 : String → String) where
  -- `seq == 0`: the event that admits the request
  unfoldable pub first_event : Trouble → Progress → Event → Kind → Round
  unfolding unless
  first_event t p e started =
      unless t.acknowledged (continues (record p { worker_id = some e.worker_id; seq = suc p.seq }))
  first_event t p e (error code) = unless t.acknowledged (ends (failed code))
  first_event t p e (chunk text) = invalid
  first_event t p e (complete n digest) = invalid

  unfoldable pub later_event : Trouble → Progress → Kind → Round
  unfolding unless
  later_event t p started = invalid
  later_event t p (error code) = unless t.acknowledged (ends (failed code))
  later_event t p (chunk text) =
      if ltb max_text_bytes (len p.text + len text)
      then ends (failed "llm_output_too_large")
      else unless t.consumed
          (unless t.acknowledged (continues (record p { seq = suc p.seq; text = p.text ++ text })))
  later_event t p (complete n digest) =
      if len p.text == n && str_eq (sha256 p.text) digest
      then unless t.acknowledged (ends (finished p.text))
      else invalid

  -- one event, in the order of the loop's body
  unfoldable pub receive_event : Trouble → Progress → Event → Round
  unfolding other_worker first_event later_event
  receive_event t p e = unless t.taken (
      if not (e.seq == p.seq) || other_worker p.worker_id e.worker_id
      then invalid
      else if p.seq == 0
      then first_event t p e e.kind
      else later_event t p e.kind)

  unfoldable pub next_round : Round → (Progress → StreamOutcome) → StreamOutcome
  next_round (continues p) rest = rest p
  next_round (ends o) rest = o

  -- the loop of `run`
  unfoldable pub receive_events : Progress → List (Trouble × Event) → StreamOutcome
  unfolding next_round receive_event
  receive_events p [] = waiting p
  receive_events p ((t, e) ∷ es) = next_round (receive_event t p e) (λ q. receive_events q es)
