-- ===== src/LlmStream/Admission.antt =====
-- The requests that a worker with a record of its activity has accepted: `_admit`, `_cancel`, `_finished` and `_prune_cancelled` of
-- core/cluster/llm_worker.py, for requests that have been parsed. A task is a number, which stands for the
-- identity of the object.
use xiaozhi_desk_robot_serve.Prelude.{
  ℕ, suc, ◌+◌, ◌-◌, String, Bool, false, not, ◌&&◌, ◌||◌, Option, none, some, List, [], ◌∷◌, ◌++◌,
  if◌then◌else◌, str_eq, leb, ◌==◌, length, drop,
}
use xiaozhi_desk_robot_serve.Dict.{Dict, lookup, has, put, without}

abbrev pub max_jobs : ℕ
max_jobs = 2

abbrev pub max_tombstones : ℕ
max_tombstones = 128

-- seconds that a cancellation is kept: the longest stream, and two more
abbrev pub keep_seconds : ℕ
keep_seconds = 122

pub record LlmRequest : Type 0 where
  pub request_id : String
  pub cancel_token : String
  pub deadline_ms : ℕ
  pub revision : ℕ

-- a cancelled request, and when it is forgotten
pub record Tombstone : Type 0 where
  pub request_id : String
  pub cancel_token : String
  pub expires : ℕ

pub record Worker : Type 0 where
  pub jobs : Dict (String × ℕ)
  pub cancelled : List Tombstone
  pub stopping : Bool
  pub draining : Bool
  pub revision : ℕ
  -- the tasks that `counts['llm']` of the activity counts, and the next one
  pub active : ℕ
  pub next_task : ℕ

abbrev pub is_for : String → String → Tombstone → Bool
is_for i token t = str_eq t.request_id i && str_eq t.cancel_token token

-- _prune_cancelled
unfoldable pub prune_cancelled : ℕ → List Tombstone → List Tombstone
prune_cancelled now [] = []
prune_cancelled now (t ∷ ts) =
    let rest = prune_cancelled now ts in if leb t.expires now then rest else t ∷ rest

unfoldable pub is_cancelled : String → String → List Tombstone → Bool
is_cancelled i token [] = false
is_cancelled i token (t ∷ ts) = is_for i token t || is_cancelled i token ts

unfoldable pub without_key : String → String → List Tombstone → List Tombstone
without_key i token [] = []
without_key i token (t ∷ ts) =
    let rest = without_key i token ts in if is_for i token t then rest else t ∷ rest

-- the task of a request that has this token
unfoldable pub owned_task : String → Option (String × ℕ) → Option ℕ
owned_task token none = none
owned_task token (some (owner, task)) = if str_eq owner token then some task else none

-- _cancel: the new state, and the task that is cancelled
unfoldable pub cancel : ℕ → String → String → Worker → Worker × Option ℕ
unfolding owned_task
cancel now i token w =
    let tombstone : Tombstone = record {
      request_id = i;
      cancel_token = token;
      expires = now + keep_seconds;
    } in
    let known = without_key i token (prune_cancelled now w.cancelled) ++ tombstone ∷ [] in
    (
      record w { cancelled = drop (length known - max_tombstones) known },
      owned_task token (lookup i w.jobs),
    )

pub data Answer : Type 0 where
  ignored : Answer
  refused : String → Answer
  accepted : ℕ → Answer

-- the error with which `_admit` refuses, if there is one
unfoldable pub refusal : ℕ → LlmRequest → Worker → Option String
refusal now_ms r w =
    if is_cancelled r.request_id r.cancel_token w.cancelled
    then some "llm_cancelled"
    else if leb r.deadline_ms now_ms
    then some "llm_expired"
    else if not (r.revision == w.revision)
    then some "llm_revision_mismatch"
    else if leb max_jobs (length w.jobs) || w.draining || leb max_jobs w.active
    then some "llm_busy"
    else none

unfoldable pub admit_job : LlmRequest → Worker → Option String → Worker × Answer
admit_job r w (some code) = (w, refused code)
admit_job r w none = (
  record w {
    jobs = put r.request_id (r.cancel_token, w.next_task) w.jobs;
    active = suc w.active;
    next_task = suc w.next_task;
  },
  accepted w.next_task,
)

-- _admit, with the readings of the monotonic clock and of the time of day
unfoldable pub admit_request : ℕ → ℕ → LlmRequest → Worker → Worker × Answer
unfolding refusal admit_job
admit_request now now_ms r w =
    let v = record w { cancelled = prune_cancelled now w.cancelled } in
    if w.stopping
    then (w, ignored)
    else if has r.request_id w.jobs
    then (v, ignored)
    else admit_job r v (refusal now_ms r v)

abbrev pub is_task : ℕ → Option (String × ℕ) → Bool
is_task task none = false
is_task task (some (token, other)) = other == task

-- _finished, the callback of a task
unfoldable pub job_finished : String → ℕ → Worker → Worker
job_finished i task w = record w {
  jobs = if is_task task (lookup i w.jobs) then without i w.jobs else w.jobs;
  active = w.active - 1;
}

-- the end of `_execute_stream`, which runs before that callback
unfoldable pub job_released : String → Worker → Worker
job_released i w = record w { jobs = without i w.jobs }
