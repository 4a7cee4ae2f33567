-- ===== src/LlmStream/Sender.antt =====
-- `_execute_stream` of core/cluster/llm_worker.py for a stream of texts: the events that the worker sends for
-- the parts that the provider yields. `send_stream` has them for the case that each is acknowledged, and
-- `execute_stream` adds the exceptions.
use Prim.Native.String.{◌++◌, len}
use xiaozhi_desk_robot_serve.Prelude.{
  ℕ, zero, suc, ◌+◌, String, Bool, Option, none, some, List, [], ◌∷◌, ltb, ◌==◌, if◌then◌else◌,
}
use xiaozhi_desk_robot_serve.LlmStream.{
  Kind, started, chunk, complete, error, Event, chunks, max_chunks, max_text_bytes,
}

-- an exception: after how many acknowledged events, whether the next one was published, and the code of the
-- error, which a cancellation does not have
pub record Fault : Type 0 where
  pub acknowledged : ℕ
  pub sent : Bool
  pub code : Option String

module _ (sha256 : String → String) (worker : String) where
  abbrev pub event : ℕ → Kind → Event
  event seq kind = record { worker_id = worker; seq = seq; kind = kind }

  -- the end of the stream; `sent` is what has been sent
  unfoldable pub finish_stream : ℕ → String → List Event
  finish_stream seq sent =
      if len sent == 0
      then event seq (error "llm_empty_response") ∷ []
      else event seq (complete (len sent) (sha256 sent)) ∷ []

  -- the inner loop over the chunks of a part; `rest` is what follows, from the next number on
  unfoldable pub send_chunks : List String → ℕ → (ℕ → List Event) → List Event
  send_chunks [] seq rest = rest seq
  send_chunks (text ∷ texts) seq rest =
      let next = event seq (chunk text) ∷ send_chunks texts (suc seq) rest in
      if ltb max_chunks seq then event seq (error "llm_output_too_large") ∷ [] else next

  -- the loop over the provider's parts
  unfoldable pub send_parts : List String → ℕ → String → List Event
  unfolding finish_stream send_chunks
  send_parts [] seq sent = finish_stream seq sent
  send_parts (part ∷ parts) seq sent =
      let next = send_chunks (chunks part) seq (λ n. send_parts parts n (sent ++ part)) in
      if ltb max_text_bytes (len sent + len part)
      then event seq (error "llm_output_too_large") ∷ []
      else next

  -- _execute_stream
  unfoldable pub send_stream : List String → List Event
  unfolding send_parts
  send_stream parts = event 0 started ∷ send_parts parts 1 ""

  -- the event of the `except` clause, or none after a cancellation
  unfoldable pub last_error : ℕ → Option String → List Event
  last_error seq none = []
  last_error seq (some code) = event seq (error code) ∷ []

  -- the events up to an exception: `acknowledged` of them are, and `sent` says whether the next one was
  -- published as well, whose acknowledgment then fails. The number of the error is the number reached
  unfoldable pub interrupt : Fault → ℕ → List Event → List Event
  unfolding last_error
  interrupt f seq [] = []
  interrupt f seq (e ∷ es) = elim f.acknowledged [
    | zero ↦ if f.sent then e ∷ last_error seq f.code else last_error seq f.code
    | suc n ↦ e ∷ interrupt (record f { acknowledged = n }) (suc seq) es
  ]

  -- _execute_stream, with the exception that comes up on the way
  unfoldable pub execute_stream : Option Fault → List String → List Event
  unfolding send_stream interrupt
  execute_stream none parts = send_stream parts
  execute_stream (some f) parts = interrupt f 0 (send_stream parts)
