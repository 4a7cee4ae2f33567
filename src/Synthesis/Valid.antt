-- ===== src/Synthesis/Valid.antt =====
-- TTSService of core/cluster/tts_worker.py keeps to the contract of core/cluster/tts_protocol.py.
use xiaozhi_desk_robot_serve.Prelude.{
  ℕ, ◌+◌, ◌*◌, ◌≤◌, ◌<◌, String, ◌≡◌, ◌⊎◌, refl, ap, sym, ◌∙◌, Bool, true, false, not, ◌||◌, Option,
  none, some, [], length, take, drop, leb, ◌==◌, str_eq, eq_refl, if◌then◌else◌, arith, inl,
}
use xiaozhi_desk_robot_serve.Text.{elem}
use xiaozhi_desk_robot_serve.Synthesis.{
  Bytes, max_pcm_chunk, max_pcm, error_codes, is_rate, JobOp, job_op, poll_op, cancel_op, done_op,
  SegmentRequest, Owner, State, admitted_state, pending_state, released_state, error_state,
  audio_state, Response, owner_of, eq_owner, is_even, no_bytes, AudioHeader, asks_offset,
  valid_audio, valid_state, valid_response,
}
use xiaozhi_desk_robot_serve.Synthesis.Service.{
  VoiceBundle, VoiceJob, Service, new_job, is_free, available, owns, answer_state, poll_job,
  release_job, serve_job, reserve_slot, owner_call,
}
use xiaozhi_desk_robot_serve.Synthesis.Chunks.{
  chunk-Sized, chunk_even, chunk_bounds, and, leb-true, ltb-true, eq_self, same_offset, before_end,
  branch, unequal, known_error,
}

module _ (sha256 : Bytes → String) (is_digest : String → Bool) where
  -- what a job of the slot has
  abbrev pub JobOk : VoiceJob → Type 0
  JobOk job =
      (length job.pcm ≤ max_pcm)
      × (length job.pcm ≤ job.rate * 2 * 30)
      × (is_even (length job.pcm) ≡ true)
      × (is_even job.offset ≡ true)
      × (job.offset ≤ length job.pcm)
      × (no_bytes job.pcm ≡ false → (is_rate job.rate ≡ true) × (job.checksum ≡ sha256 job.pcm))
      × ((job.error ≡ "") ⊎ (job.error ≡ "tts_provider_failed"))

  abbrev pub SlotOk : ℕ → Option VoiceJob → Type 0
  SlotOk n none = (n ≡ 0)
  SlotOk n (some job) = JobOk job × (n ≡ (if job.started then 1 else 0))

  abbrev pub ServiceOk : Service → Type 0
  ServiceOk w = SlotOk w.tts_jobs w.job

  owner_refl : (o : Owner) → eq_owner o o ≡ true
  unfolding eq_owner
  owner_refl o =
      ground (arith, eq_refl o.worker_id, eq_refl o.fingerprint, eq_refl o.job_id, eq_refl o.token)

  free_slot : (slot : Option VoiceJob) (n : ℕ) → SlotOk n slot → is_free slot ≡ true → n ≡ 0
  unfolding is_free
  free_slot none n ok free = ok
  free_slot (some job) n ok free = unequal free

  is_available : (w : Service) → available w ≡ true → is_free w.job ≡ true
  unfolding available
  is_available w h = ground (arith, h)

  new_job-JobOk : (clock : ℕ) (value : SegmentRequest) → JobOk (new_job clock value)
  unfolding new_job is_even no_bytes
  new_job-JobOk clock value =
      (omega arith, omega arith, refl, refl, omega arith, λ full. unequal (sym full), inl refl)

  module _ (worker_id : String) where
    pub answer-valid :
        (b : VoiceBundle) (value : SegmentRequest) (state : State)
        → valid_state is_digest value.op state [] ≡ true
        → valid_response is_digest worker_id value (answer_state worker_id b value state) ≡ true
    unfolding valid_response answer_state is_even
    answer-valid b value state h = ground (arith, h, owner_refl (owner_of worker_id value))

    pub error-valid :
        (b : VoiceBundle) (value : SegmentRequest) (code : String)
        → elem code error_codes ≡ true
        → valid_response is_digest worker_id value
            (answer_state worker_id b value (error_state code))
          ≡ true
    unfolding valid_state no_bytes
    error-valid b value code h = answer-valid b value (error_state code) h

    -- an answer that keeps the contract, and the job after it
    abbrev pub Answered : SegmentRequest → Bool → VoiceJob × Response → Type 0
    Answered value started r =
        JobOk r.0 × (r.0.started ≡ started) × (valid_response is_digest worker_id value r.1 ≡ true)

    -- the part of the sound that a poll at its place gets
    pub audio-Answered :
        (digests : (pcm : Bytes) → is_digest (sha256 pcm) ≡ true) (value : SegmentRequest)
        (job : VoiceJob)
        → value.op ≡ job_op (poll_op job.offset)
        → no_bytes job.pcm ≡ false
        → job.offset < length job.pcm
        → JobOk job
        → let chunk = take max_pcm_chunk (drop job.offset job.pcm) in
          Answered value job.started (
            record job { offset = job.offset + length chunk },
            record {
              owner = owner_of worker_id value;
              state = audio_state (record {
                offset = job.offset;
                total_bytes = length job.pcm;
                sample_rate = job.rate;
                sha256 = job.checksum;
                synth_ms = job.synthesis_ms;
              });
              pcm = chunk;
            },
          )
    unfolding valid_response valid_state valid_audio asks_offset
    audio-Answered digests value job op full inside
          (short, fit, even, even_offset, within, sound, error) =
        let chunk = take max_pcm_chunk (drop job.offset job.pcm) in
        let header : AudioHeader = record {
          offset = job.offset;
          total_bytes = length job.pcm;
          sample_rate = job.rate;
          sha256 = job.checksum;
          synth_ms = job.synthesis_ms;
        } in
        let size = chunk-Sized job.offset job.pcm in
        let (evenly, next) =
          chunk_even (length job.pcm) job.offset (length chunk) even even_offset within size in
        let (rate, sum) = sound full in
        let positive : 0 < length job.pcm = omega (arith, inside) in
        let (some_bytes, small, inner, rest) =
          chunk_bounds (length job.pcm) job.offset (length chunk) inside size in
        (
          (short, fit, even, next, inner, sound, error),
          refl,
          and (and (and (leb-true small) (evenly)) (owner_refl (owner_of worker_id value))) (
              ap (λ o. valid_state is_digest o (audio_state header) chunk) op
              ∙ and
                  (and
                    (and
                      (and
                        (and
                          (and (and (and (eq_self job.offset) (ltb-true positive)) (leb-true short))
                            (even))
                          (ltb-true some_bytes))
                        (leb-true rest))
                      (rate))
                    (leb-true fit))
                  (ap is_digest sum ∙ digests job.pcm)),
        )

    poll_job-Answered :
        (digests : (pcm : Bytes) → is_digest (sha256 pcm) ≡ true) (b : VoiceBundle)
        (value : SegmentRequest) (offset : ℕ) (job : VoiceJob)
        → value.op ≡ job_op (poll_op offset)
        → JobOk job
        → Answered value job.started (poll_job worker_id b value offset job)
    unfolding poll_job elem valid_state no_bytes
    poll_job-Answered digests b value offset job op ok =
        branch (Answered value job.started) (not (str_eq job.error "")) _ _
          (λ failed. (ok, refl, error-valid b value job.error (known_error job.error ok.6 failed)))
          (λ sound.
            branch (Answered value job.started) (no_bytes job.pcm) _ _
              (λ empty. (ok, refl, answer-valid b value pending_state refl))
              (λ full.
                branch (Answered value job.started)
                  (not (offset == job.offset) || leb (length job.pcm) job.offset) _ _
                  (λ wrong. (ok, refl, error-valid b value "tts_invalid_result" refl))
                  (λ right.
                    audio-Answered digests value job
                      (op
                        ∙ ap (λ n. job_op (poll_op n))
                            (same_offset offset job.offset (length job.pcm) right))
                      full (before_end offset job.offset (length job.pcm) right) ok)))

    release_job-Answered :
        (b : VoiceBundle) (value : SegmentRequest) (job : VoiceJob)
        → JobOk job
        → Answered value job.started (release_job worker_id b value job)
    unfolding release_job valid_state no_bytes
    release_job-Answered b value job ok = (ok, refl, answer-valid b value released_state refl)

    serve_job-Answered :
        (digests : (pcm : Bytes) → is_digest (sha256 pcm) ≡ true) (b : VoiceBundle) (op : JobOp)
        (value : SegmentRequest) (job : VoiceJob)
        → value.op ≡ job_op op
        → JobOk job
        → Answered value job.started (serve_job worker_id b op value job)
    unfolding serve_job elem
    serve_job-Answered digests b (poll_op offset) value job e ok =
        poll_job-Answered digests b value offset job e ok
    serve_job-Answered digests b cancel_op value job e ok = release_job-Answered b value job ok
    serve_job-Answered digests b done_op value job e ok =
        branch (Answered value job.started) (no_bytes job.pcm || not (job.offset == length job.pcm))
          _ _ (λ early. (ok, refl, error-valid b value "tts_invalid_result" refl))
          (λ whole. release_job-Answered b value job ok)

    -- an answer of the service that keeps the contract, and the service after it
    abbrev pub Served : SegmentRequest → Service × Response → Type 0
    Served value r = ServiceOk r.0 × (valid_response is_digest worker_id value r.1 ≡ true)

    pub owner_call-Served :
        (digests : (pcm : Bytes) → is_digest (sha256 pcm) ≡ true) (b : VoiceBundle) (clock : ℕ)
        (op : JobOp) (value : SegmentRequest) (slot : Option VoiceJob) (w : Service)
        → value.op ≡ job_op op
        → w.job ≡ slot
        → SlotOk w.tts_jobs slot
        → ServiceOk w
        → Served value (owner_call worker_id b clock op value slot w)
    unfolding owner_call elem
    owner_call-Served digests b clock op value none w e same slot ok =
        (ok, error-valid b value "tts_unavailable" refl)
    owner_call-Served digests b clock op value (some job) w e same (slot, count) ok =
        let (next, same_start, valid) =
          serve_job-Answered digests b op value (record job { lease = clock }) e slot in
        branch (Served value) (owns value job) _ _
          (λ owned. ((next, count ∙ ap (λ s. if s then 1 else 0) (sym same_start)), valid))
          (λ other. (ok, error-valid b value "tts_unavailable" refl))

    pub reserve_slot-Served :
        (b : VoiceBundle) (clock : ℕ) (value : SegmentRequest) (w : Service)
        → ServiceOk w
        → Served value (reserve_slot worker_id b clock value w)
    unfolding reserve_slot elem valid_state no_bytes
    reserve_slot-Served b clock value w ok =
        branch (Served value) (available w) _ _
          (λ free. (
            (new_job-JobOk clock value, free_slot w.job w.tts_jobs ok (is_available w free)),
            answer-valid b value admitted_state refl,
          ))
          (λ taken. (ok, error-valid b value "tts_busy" refl))
