-- ===== src/LlmStream/Jobs.antt =====
-- What a worker keeps of its requests.
use xiaozhi_desk_robot_serve.Prelude.{
  ℕ, zero, suc, ◌+◌, ◌-◌, ◌≤◌, ◌<◌, String, ◌≡◌, refl, Bool, true, false, Option, none, some, List,
  [], ◌∷◌, ◌++◌, arith, if◌then◌else◌, eq_refl, length, drop, length-drop, length-append,
  Bool-cases, inl, inr,
}
use xiaozhi_desk_robot_serve.Dict.{lookup, has}
use xiaozhi_desk_robot_serve.Dict.Size.{length-put, length-without-le}
use xiaozhi_desk_robot_serve.Dict.Unique.{Unique, Unique-put, Unique-without}
use xiaozhi_desk_robot_serve.LlmStream.Admission.{
  LlmRequest, Tombstone, Worker, max_jobs, max_tombstones, keep_seconds, is_for, prune_cancelled,
  is_cancelled, without_key, cancel, Answer, ignored, refused, refusal, admit_job, admit_request,
  is_task, job_finished, job_released,
}

is_cancelled_last :
    (i token : String) (ts : List Tombstone) (t : Tombstone)
    → is_for i token t ≡ true
    → is_cancelled i token (ts ++ t ∷ []) ≡ true
unfolding is_cancelled
is_cancelled_last i token [] t h = rw h refl
is_cancelled_last i token (u ∷ ts) t h = ground (arith, is_cancelled_last i token ts t h)

prune_last :
    (now : ℕ) (ts : List Tombstone) (t : Tombstone)
    → now < t.expires
    → prune_cancelled now (ts ++ t ∷ []) ≡ prune_cancelled now ts ++ t ∷ []
unfolding prune_cancelled
prune_last now [] t h = ground arith
prune_last now (u ∷ ts) t h = ground (arith, prune_last now ts t h)

drop_last :
    (n : ℕ) (ts : List Tombstone) (t : Tombstone)
    → n ≤ length ts
    → drop n (ts ++ t ∷ []) ≡ drop n ts ++ t ∷ []
drop_last zero ts t h = refl
drop_last (suc n) [] t h = absurd (omega arith)
drop_last (suc n) (u ∷ ts) t h = drop_last n ts t (omega arith)

-- A cancellation that comes before its request, also of a request that is still on its way, makes the
-- worker refuse the request for as long as the cancellation is kept.
pub cancel-refuses :
    (now later now_ms : ℕ) (r : LlmRequest) (w : Worker)
    → later < now + keep_seconds
    → w.stopping ≡ false
    → has r.request_id w.jobs ≡ false
    → (admit_request later now_ms r (cancel now r.request_id r.cancel_token w).0).1
      ≡ refused "llm_cancelled"
unfolding admit_request cancel refusal admit_job
cancel-refuses now later now_ms r w soon running absent =
    let tombstone : Tombstone = record {
      request_id = r.request_id;
      cancel_token = r.cancel_token;
      expires = now + keep_seconds;
    } in
    let others = without_key r.request_id r.cancel_token (prune_cancelled now w.cancelled) in
    let surplus = length (others ++ tombstone ∷ []) - max_tombstones in
    let few : surplus ≤ length others = omega (arith, length-append others (tombstone ∷ [])) in
    let hit : is_for r.request_id r.cancel_token tombstone ≡ true =
      ground (arith, eq_refl r.request_id, eq_refl r.cancel_token) in
    let known : is_cancelled r.request_id r.cancel_token
          (prune_cancelled later (drop surplus (others ++ tombstone ∷ [])))
        ≡ true =
      rw (drop_last surplus others tombstone few) (
        rw (prune_last later (drop surplus others) tombstone soon) (
          is_cancelled_last r.request_id r.cancel_token
            (prune_cancelled later (drop surplus others)) tombstone hit)) in
    rw running (rw absent (rw known refl))

length-prune-le : (now : ℕ) (ts : List Tombstone) → length (prune_cancelled now ts) ≤ length ts
unfolding prune_cancelled
length-prune-le now [] = omega arith
length-prune-le now (t ∷ ts) = ground (arith, length-prune-le now ts)

-- at most two jobs, each request once, and at most 128 cancellations
abbrev pub IsBusy : Worker → Type 0
IsBusy w = (length w.jobs ≤ max_jobs) × Unique w.jobs × (length w.cancelled ≤ max_tombstones)

pub data WorkerCall : Type 0 where
  admit_call : ℕ → ℕ → LlmRequest → WorkerCall
  cancel_call : ℕ → String → String → WorkerCall
  finished_call : String → ℕ → WorkerCall
  released_call : String → WorkerCall

unfoldable pub worker_step : WorkerCall → Worker → Worker
worker_step (admit_call now now_ms r) w = (admit_request now now_ms r w).0
worker_step (cancel_call now i token) w = (cancel now i token w).0
worker_step (finished_call i task) w = job_finished i task w
worker_step (released_call i) w = job_released i w

unfoldable pub worker_run : List WorkerCall → Worker → Worker
worker_run [] w = w
worker_run (c ∷ cs) w = worker_run cs (worker_step c w)

not_refused :
    (now_ms : ℕ) (r : LlmRequest) (w : Worker)
    → refusal now_ms r w ≡ none
    → length w.jobs < max_jobs
unfolding refusal
not_refused now_ms r w h = ground arith

admit_job-IsBusy :
    (r : LlmRequest) (w : Worker) (o : Option String)
    → (o ≡ none → length w.jobs < max_jobs)
    → IsBusy w
    → IsBusy (admit_job r w o).0
unfolding admit_job
admit_job-IsBusy r w (some code) h b = b
admit_job-IsBusy r w none h (l, u, t) =
    let room = h refl in
    (
      ground (arith, length-put r.request_id (r.cancel_token, w.next_task) w.jobs),
      Unique-put r.request_id (r.cancel_token, w.next_task) w.jobs u,
      t,
    )

either :
    (b : Bool) (x y : Worker × Answer)
    → IsBusy x.0
    → IsBusy y.0
    → IsBusy (if◌then◌else◌ {A = Worker × Answer} b x y).0
either true x y h k = h
either false x y h k = k

admit_request-IsBusy :
    (now now_ms : ℕ) (r : LlmRequest) (w : Worker)
    → IsBusy w
    → IsBusy (admit_request now now_ms r w).0
unfolding admit_request
admit_request-IsBusy now now_ms r w (l, u, t) =
    let v : Worker = record w { cancelled = prune_cancelled now w.cancelled } in
    let kept : IsBusy v = (l, u, omega (arith, length-prune-le now w.cancelled)) in
    either w.stopping (w, ignored)
      (if has r.request_id w.jobs then (v, ignored) else admit_job r v (refusal now_ms r v))
      (l, u, t)
      (either (has r.request_id w.jobs) (v, ignored) (admit_job r v (refusal now_ms r v)) kept
        (admit_job-IsBusy r v (refusal now_ms r v) (not_refused now_ms r v) kept))

worker_step-IsBusy : (c : WorkerCall) (w : Worker) → IsBusy w → IsBusy (worker_step c w)
unfolding worker_step cancel job_finished job_released
worker_step-IsBusy (admit_call now now_ms r) w b = admit_request-IsBusy now now_ms r w b
worker_step-IsBusy (cancel_call now i token) w (l, u, t) =
    let tombstone : Tombstone = record {
      request_id = i;
      cancel_token = token;
      expires = now + keep_seconds;
    } in
    let known = without_key i token (prune_cancelled now w.cancelled) ++ tombstone ∷ [] in
    (l, u, omega (arith, length-drop (length known - max_tombstones) known))
worker_step-IsBusy (released_call i) w (l, u, t) =
    (omega (arith, length-without-le i w.jobs), Unique-without i w.jobs u, t)
worker_step-IsBusy (finished_call i task) w (l, u, t) =
    elim (Bool-cases (is_task task (lookup i w.jobs))) [
      | inl own ↦ rw own (omega (arith, length-without-le i w.jobs), Unique-without i w.jobs u, t)
      | inr other ↦ rw other (l, u, t)
    ]

-- Whatever requests, cancellations and ends of tasks come, in any order, a worker has at most two jobs,
-- no request twice, and at most 128 cancellations, if it was so before.
pub worker_run-IsBusy : (cs : List WorkerCall) (w : Worker) → IsBusy w → IsBusy (worker_run cs w)
unfolding worker_run
worker_run-IsBusy [] w b = b
worker_run-IsBusy (c ∷ cs) w b = worker_run-IsBusy cs (worker_step c w) (worker_step-IsBusy c w b)
