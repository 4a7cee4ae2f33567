-- ===== src/Synthesis/Service.antt =====
-- TTSService of core/cluster/tts_worker.py: one slot for one segment.
use xiaozhi_desk_robot_serve.Prelude.{
  ℕ, ◌+◌, ◌-◌, ◌*◌, String, Bool, true, false, not, ◌&&◌, ◌||◌, Option, none, some, List, [], ◌∷◌,
  ◌++◌, length, take, drop, ltb, leb, ◌==◌, str_eq, if◌then◌else◌,
}
use xiaozhi_desk_robot_serve.Synthesis.{
  Bytes, max_pcm_chunk, max_pcm, lease_seconds, is_rate, JobOp, Op, admit_op, job_op, poll_op,
  cancel_op, done_op, SegmentRequest, State, admitted_state, pending_state, released_state,
  error_state, audio_state, Response, owner_of, is_even, no_bytes, AudioHeader,
}

pub record VoiceBundle : Type 0 where
  pub revision : ℕ
  pub fingerprint : String

pub record VoiceJob : Type 0 where
  pub value : SegmentRequest
  pub lease : ℕ
  pub pcm : Bytes
  pub rate : ℕ
  pub checksum : String
  pub synthesis_ms : ℕ
  pub offset : ℕ
  pub error : String
  pub started : Bool
  pub released : Bool
  pub cancelled : Bool

pub record Service : Type 0 where
  pub stopping : Bool
  pub draining : Bool
  pub asr_jobs : ℕ
  pub tts_jobs : ℕ
  pub job : Option VoiceJob

-- a new Job
unfoldable pub new_job : ℕ → SegmentRequest → VoiceJob
new_job clock value = record {
  value = value;
  lease = clock;
  pcm = [];
  rate = 0;
  checksum = "";
  synthesis_ms = 0;
  offset = 0;
  error = "";
  started = false;
  released = false;
  cancelled = false;
}

unfoldable pub is_free : Option VoiceJob → Bool
is_free none = true
is_free (some job) = false

unfoldable pub available : Service → Bool
unfolding is_free
available w = not w.stopping && is_free w.job && not (w.draining || ltb 0 w.asr_jobs)

unfoldable pub owns : SegmentRequest → VoiceJob → Bool
owns value job =
    str_eq value.job_id job.value.job_id
    && str_eq value.core_id job.value.core_id
    && value.index == job.value.index
    && value.revision == job.value.revision
    && str_eq value.fingerprint job.value.fingerprint
    && str_eq value.token job.value.token

-- execute: the first turn of the task
unfoldable pub start_job : VoiceJob → VoiceJob
start_job job = record job { started = true }

-- execute: whether a result is accepted
unfoldable pub is_sound : Bytes → ℕ → Bool
unfolding is_rate is_even
is_sound pcm rate =
    is_rate rate
    && ltb 0 (length pcm)
    && leb (length pcm) max_pcm
    && leb (length pcm) (rate * 2 * 30)
    && is_even (length pcm)

unfoldable pub fail_job : VoiceJob → VoiceJob
fail_job job = record job { error = "tts_provider_failed" }

-- execute: the engine returns
unfoldable pub take_result : (Bytes → String) → Bytes → ℕ → ℕ → VoiceJob → VoiceJob
unfolding is_sound fail_job
take_result sha256 pcm rate synthesis_ms job =
    if is_sound pcm rate
    then record job { pcm = pcm; rate = rate; checksum = sha256 pcm; synthesis_ms = synthesis_ms }
    else fail_job job

-- the task waits for the engine
unfoldable pub synthesizes : VoiceJob → Bool
unfolding no_bytes
synthesizes job = job.started && not job.cancelled && no_bytes job.pcm && str_eq job.error ""

unfoldable pub cancel_job : VoiceJob → VoiceJob
cancel_job job = record job { cancelled = true }

-- watch: the connection, the lease and the deadline
unfoldable pub watch_job : Bool → ℕ → ℕ → VoiceJob → VoiceJob
unfolding cancel_job
watch_job is_connected now clock job =
    if not is_connected || ltb (job.lease + lease_seconds) clock || leb job.value.deadline_ms now
    then cancel_job job
    else job

-- stop
unfoldable pub stop_job : VoiceJob → VoiceJob
stop_job job = record job { released = true; cancelled = true }

module _ (worker_id : String) (bundle : VoiceBundle) where
  unfoldable pub answer_state : SegmentRequest → State → Response
  answer_state value state = record { owner = owner_of worker_id value; state = state; pcm = [] }

  -- receive: a poll of a job that is leased
  unfoldable pub poll_job : SegmentRequest → ℕ → VoiceJob → VoiceJob × Response
  unfolding answer_state no_bytes
  poll_job value offset job =
      let chunk = take max_pcm_chunk (drop job.offset job.pcm) in
      let header : AudioHeader = record {
        offset = job.offset;
        total_bytes = length job.pcm;
        sample_rate = job.rate;
        sha256 = job.checksum;
        synth_ms = job.synthesis_ms;
      } in
      if not (str_eq job.error "")
      then (job, answer_state value (error_state job.error))
      else if no_bytes job.pcm
      then (job, answer_state value pending_state)
      else if not (offset == job.offset) || leb (length job.pcm) job.offset
      then (job, answer_state value (error_state "tts_invalid_result"))
      else (
        record job { offset = job.offset + length chunk },
        record { owner = owner_of worker_id value; state = audio_state header; pcm = chunk },
      )

  unfoldable pub release_job : SegmentRequest → VoiceJob → VoiceJob × Response
  unfolding answer_state
  release_job value job =
      (record job { released = true; cancelled = true }, answer_state value released_state)

  -- receive: an operation of the owner
  unfoldable pub serve_job : JobOp → SegmentRequest → VoiceJob → VoiceJob × Response
  unfolding poll_job release_job no_bytes
  serve_job (poll_op offset) value job = poll_job value offset job
  serve_job cancel_op value job = release_job value job
  serve_job done_op value job =
      if no_bytes job.pcm || not (job.offset == length job.pcm)
      then (job, answer_state value (error_state "tts_invalid_result"))
      else release_job value job

  -- receive: the error that comes before the job is looked at
  unfoldable pub early_error : ℕ → SegmentRequest → Option String
  early_error now value =
      if leb value.deadline_ms now
      then some "tts_expired"
      else if not (value.revision == bundle.revision)
      then some "tts_revision_mismatch"
      else if not (str_eq value.fingerprint bundle.fingerprint)
      then some "tts_voice_mismatch"
      else none

  unfoldable pub reserve_slot : ℕ → SegmentRequest → Service → Service × Response
  unfolding available new_job answer_state
  reserve_slot clock value w =
      if available w
      then (record w { job = some (new_job clock value) }, answer_state value admitted_state)
      else (w, answer_state value (error_state "tts_busy"))

  unfoldable pub owner_call :
      ℕ → JobOp → SegmentRequest → Option VoiceJob → Service → Service × Response
  unfolding owns serve_job answer_state
  owner_call clock op value none w = (w, answer_state value (error_state "tts_unavailable"))
  owner_call clock op value (some job) w =
      let (next, response) = serve_job op value (record job { lease = clock }) in
      if owns value job
      then (record w { job = some next }, response)
      else (w, answer_state value (error_state "tts_unavailable"))

  unfoldable pub accepted_call : Op → ℕ → SegmentRequest → Service → Service × Response
  unfolding reserve_slot owner_call
  accepted_call (admit_op text) clock value w = reserve_slot clock value w
  accepted_call (job_op op) clock value w = owner_call clock op value w.job w

  -- receive, for a request that names a job, at the times of the two clocks
  unfoldable pub receive_call : ℕ → ℕ → SegmentRequest → Service → Service × Response
  unfolding early_error accepted_call answer_state
  receive_call now clock value w = elim (early_error now value) [
    | some code ↦ (w, answer_state value (error_state code))
    | none ↦ accepted_call value.op clock value w
  ]

-- what happens to a service
pub data ServiceEvent : Type 0 where
  call_event : ℕ → ℕ → SegmentRequest → ServiceEvent
  start_event : ServiceEvent
  result_event : Bytes → ℕ → ℕ → ServiceEvent
  failed_event : ServiceEvent
  watch_event : Bool → ℕ → ℕ → ServiceEvent
  end_event : ServiceEvent
  stop_event : ServiceEvent
  activity_event : Bool → ℕ → ServiceEvent

module _ (sha256 : Bytes → String) (worker_id : String) (bundle : VoiceBundle) where
  -- the slot is free once the task of the job has ended, the engine's thread included
  unfoldable pub end_job : VoiceJob → Service → Service
  end_job job w =
      if job.cancelled || job.released
      then record w { job = none; tts_jobs = if job.started then w.tts_jobs - 1 else w.tts_jobs }
      else w

  unfoldable pub job_event : ServiceEvent → VoiceJob → Service → Service
  unfolding start_job take_result fail_job synthesizes watch_job stop_job end_job
  job_event start_event job w =
      if job.started || job.cancelled
      then w
      else record w { job = some (start_job job); tts_jobs = w.tts_jobs + 1 }
  job_event (result_event pcm rate elapsed) job w =
      if synthesizes job
      then record w { job = some (take_result sha256 pcm rate elapsed job) }
      else w
  job_event failed_event job w =
      if synthesizes job then record w { job = some (fail_job job) } else w
  job_event (watch_event is_connected now clock) job w =
      if job.started then record w { job = some (watch_job is_connected now clock job) } else w
  job_event end_event job w = end_job job w
  job_event stop_event job w = record w { stopping = true; job = some (stop_job job) }
  job_event (call_event now clock value) job w = w
  job_event (activity_event draining asr_jobs) job w = w

  unfoldable pub idle_event : ServiceEvent → Service → Service
  idle_event stop_event w = record w { stopping = true }
  idle_event start_event w = w
  idle_event (result_event pcm rate elapsed) w = w
  idle_event failed_event w = w
  idle_event (watch_event is_connected now clock) w = w
  idle_event end_event w = w
  idle_event (call_event now clock value) w = w
  idle_event (activity_event draining asr_jobs) w = w

  unfoldable pub slot_event : ServiceEvent → Option VoiceJob → Service → Service
  unfolding job_event idle_event
  slot_event e none w = idle_event e w
  slot_event e (some job) w = job_event e job w

  -- the answers stand with their calls
  unfoldable pub service_step : ServiceEvent → Service → Service × List (SegmentRequest × Response)
  unfolding receive_call slot_event
  service_step (call_event now clock value) w =
      let (next, response) = receive_call worker_id bundle now clock value w in
      (next, (value, response) ∷ [])
  service_step (activity_event draining asr_jobs) w =
      (record w { draining = draining; asr_jobs = asr_jobs }, [])
  service_step start_event w = (slot_event start_event w.job w, [])
  service_step (result_event pcm rate elapsed) w =
      (slot_event (result_event pcm rate elapsed) w.job w, [])
  service_step failed_event w = (slot_event failed_event w.job w, [])
  service_step (watch_event is_connected now clock) w =
      (slot_event (watch_event is_connected now clock) w.job w, [])
  service_step end_event w = (slot_event end_event w.job w, [])
  service_step stop_event w = (slot_event stop_event w.job w, [])

  unfoldable pub service_run :
      List ServiceEvent → Service → Service × List (SegmentRequest × Response)
  unfolding service_step
  service_run [] w = (w, [])
  service_run (e ∷ es) w =
      let (next, answers) = service_step e w in
      let (last, more) = service_run es next in (last, answers ++ more)

-- a service that has just started
abbrev pub new_service : Service
new_service = record { stopping = false; draining = false; asr_jobs = 0; tts_jobs = 0; job = none }
