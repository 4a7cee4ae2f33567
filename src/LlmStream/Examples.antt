-- ===== src/LlmStream/Examples.antt =====
-- A streamed text at concrete values.
use Prim.Native.String.{len}
use xiaozhi_desk_robot_serve.Text.Words.{concat}
use xiaozhi_desk_robot_serve.Prelude.{
  ◌≤◌, ◌<◌, String, ◌≡◌, refl, arith, Bool, true, false, List, [], ◌∷◌, All, ◌⊎◌, inl, inr, Option,
  none,
}
use xiaozhi_desk_robot_serve.Dict.{has}
use xiaozhi_desk_robot_serve.LlmStream.{valid_event, chunks, pieces}
use xiaozhi_desk_robot_serve.LlmStream.Sender.{
  Fault, execute_stream, send_stream, send_parts, send_chunks, finish_stream,
}
use xiaozhi_desk_robot_serve.LlmStream.Receiver.{
  fresh, finished, receive_events, receive_event, next_round, other_worker, first_event,
  later_event, unless,
}
use xiaozhi_desk_robot_serve.LlmStream.Delivery.{receive-send_exact}
use xiaozhi_desk_robot_serve.LlmStream.Rounds.{In, Foreign}
use xiaozhi_desk_robot_serve.LlmStream.Completes.{quiet, chunk_count, receive-send_total}
use xiaozhi_desk_robot_serve.LlmStream.Sound.{send_stream-valid}
use xiaozhi_desk_robot_serve.LlmStream.Admission.{
  LlmRequest, Worker, refused, admit_request, cancel,
}
use xiaozhi_desk_robot_serve.LlmStream.Jobs.{
  IsBusy, admit_call, cancel_call, released_call, worker_run, worker_run-IsBusy, cancel-refuses,
}

abbrev digest_of : String → String
digest_of s = "digest"

abbrev any_digest : String → Bool
any_digest s = true

abbrev said : List String
said = "Hello, " ∷ "" ∷ "robot." ∷ []

few_chunks : chunk_count said ≤ 4096
unfolding chunk_count chunks pieces
few_chunks = omega arith

has_bytes : 0 < len (concat said)
unfolding concat
has_bytes = omega arith

fits_bytes : len (concat said) ≤ 65536
unfolding concat
fits_bytes = omega arith

receive-send_total_example :
    receive_events digest_of fresh (quiet (send_stream digest_of "w" said)) ≡ finished (concat said)
receive-send_total_example = receive-send_total digest_of "w" said few_chunks has_bytes fits_bytes

abbrev no_fault : Option Fault
no_fault = none

arrives :
    receive_events digest_of fresh (quiet (execute_stream digest_of "w" no_fault said))
    ≡ finished "Hello, robot."
unfolding receive_events receive_event next_round other_worker first_event later_event unless
    execute_stream send_stream send_parts send_chunks finish_stream chunks pieces
arrives = refl

sent_events :
    All
      (λ a. In a.1 (execute_stream digest_of "w" no_fault said) ⊎ Foreign "w" a.1)
      (quiet (execute_stream digest_of "w" no_fault said))
unfolding execute_stream send_stream send_parts send_chunks finish_stream chunks pieces
sent_events = (
  inl (inl refl),
  (inl (inr (inl refl)), (inl (inr (inr (inl refl))), (inl (inr (inr (inr (inl refl)))), tt))),
)

receive-send_exact_example : ◌≡◌ {A = String} "Hello, robot." (concat said)
receive-send_exact_example =
    receive-send_exact digest_of "w" no_fault said
      (quiet (execute_stream digest_of "w" no_fault said)) "Hello, robot." sent_events arrives

send_stream-valid_example :
    All (λ e. valid_event any_digest e ≡ true) (send_stream digest_of "w" said)
send_stream-valid_example = send_stream-valid any_digest digest_of "w" (λ s. refl) said

abbrev hello : LlmRequest
hello = record { request_id = "r1"; cancel_token = "t1"; deadline_ms = 9000; revision = 1 }

abbrev idle_worker : Worker
idle_worker = record {
  jobs = [];
  cancelled = [];
  stopping = false;
  draining = false;
  revision = 1;
  active = 0;
  next_task = 0;
}

worker_run-IsBusy_example : IsBusy (
    worker_run
      (admit_call 1 1000 hello
        ∷ cancel_call 2 "r1" "t1"
        ∷ released_call "r1"
        ∷ admit_call 3 3000 hello
        ∷ [])
      idle_worker)
worker_run-IsBusy_example =
    worker_run-IsBusy
      (admit_call 1 1000 hello
        ∷ cancel_call 2 "r1" "t1"
        ∷ released_call "r1"
        ∷ admit_call 3 3000 hello
        ∷ [])
      idle_worker (omega arith)

cancel-refuses_example :
    (admit_request 7 1000 hello (cancel 5 "r1" "t1" idle_worker).0).1 ≡ refused "llm_cancelled"
unfolding has
cancel-refuses_example = cancel-refuses 5 7 1000 hello idle_worker (omega arith) refl refl
