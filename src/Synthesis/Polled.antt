-- ===== src/Synthesis/Polled.antt =====
-- One poll of a job of core/cluster/tts_worker.py that has its sound.
use xiaozhi_desk_robot_serve.Prelude.{
  ℕ, ◌+◌, ◌<◌, String, ◌≡◌, ap, ◌∙◌, Bool, true, false, not, ◌||◌, none, some, length, take, drop,
  leb, ◌==◌, str_eq, if◌then◌else◌, arith,
}
use xiaozhi_desk_robot_serve.Synthesis.{
  Bytes, max_pcm_chunk, job_op, poll_op, SegmentRequest, error_state, audio_state, AudioHeader,
  Response, no_bytes, owner_of,
}
use xiaozhi_desk_robot_serve.Synthesis.Service.{
  VoiceBundle, VoiceJob, Service, receive_call, early_error, accepted_call, owner_call, owns,
  serve_job, poll_job, answer_state,
}

pub if_false {ℓ} : {A : Type ℓ} → (c : Bool) (x y : A) → c ≡ false → (if c then x else y) ≡ y
if_false c x y h = ap (λ b. if b then x else y) h

pub if_true {ℓ} : {A : Type ℓ} → (c : Bool) (x y : A) → c ≡ true → (if c then x else y) ≡ x
if_true c x y h = ap (λ b. if b then x else y) h

abbrev pub chunk_of : VoiceJob → Bytes
chunk_of job = take max_pcm_chunk (drop job.offset job.pcm)

abbrev pub header_of : VoiceJob → AudioHeader
header_of job = record {
  offset = job.offset;
  total_bytes = length job.pcm;
  sample_rate = job.rate;
  sha256 = job.checksum;
  synth_ms = job.synthesis_ms;
}

abbrev pub audio_of : String → SegmentRequest → VoiceJob → Response
audio_of worker_id value job = record {
  owner = owner_of worker_id value;
  state = audio_state (header_of job);
  pcm = chunk_of job;
}

abbrev pub leased : ℕ → VoiceJob → VoiceJob
leased clock job = record job { lease = clock }

abbrev pub polled : VoiceJob → VoiceJob
polled job = record job { offset = job.offset + length (chunk_of job) }

-- the job has its sound, and some of it was not polled
abbrev pub Ready : VoiceJob → Type 0
Ready job = (job.error ≡ "") × (no_bytes job.pcm ≡ false) × (job.offset < length job.pcm)

-- a call of a job that the worker takes
abbrev pub Timely : VoiceBundle → ℕ → SegmentRequest → Type 0
Timely b now value =
    (now < value.deadline_ms)
    × ((value.revision == b.revision) ≡ true)
    × (str_eq value.fingerprint b.fingerprint ≡ true)

no_error : (s : String) → s ≡ "" → not (str_eq s "") ≡ false
no_error s e = ap (λ t. not (str_eq t "")) e

right_place : (n m : ℕ) → n < m → (not (n == n) || leb m n) ≡ false
right_place n m h = ground (arith, h)

not_late : {now deadline : ℕ} → now < deadline → leb deadline now ≡ false
not_late h = ground (arith, h)

not_other : {t : Bool} → t ≡ true → not t ≡ false
not_other h = ap not h

module _ (worker_id : String) (b : VoiceBundle) where
  poll_job_gives :
      (value : SegmentRequest) (job : VoiceJob)
      → Ready job
      → poll_job worker_id b value job.offset job ≡ (polled job, audio_of worker_id value job)
  unfolding poll_job
  poll_job_gives value job (sound, full, inside) =
      if_false _ _ _ (no_error job.error sound)
      ∙ if_false _ _ _ full
      ∙ if_false _ _ _ (right_place job.offset (length job.pcm) inside)

  early_error-none :
      (now : ℕ) (value : SegmentRequest)
      → Timely b now value
      → early_error worker_id b now value ≡ none
  unfolding early_error
  early_error-none now value (early, revision, voice) =
      if_false _ _ _ (not_late early)
      ∙ if_false _ _ _ (not_other revision)
      ∙ if_false _ _ _ (not_other voice)

  -- a poll in time, at its place, of the owner of the job, gets the next chunk
  pub receive_call_gives :
      (now clock : ℕ) (value : SegmentRequest) (job : VoiceJob) (w : Service)
      → value.op ≡ job_op (poll_op job.offset)
      → Timely b now value
      → owns value job ≡ true
      → Ready job
      → w.job ≡ some job
      → receive_call worker_id b now clock value w ≡ (
        record w { job = some (polled (leased clock job)) },
        audio_of worker_id value (leased clock job),
      )
  unfolding receive_call accepted_call owner_call serve_job
  receive_call_gives now clock value job w op timely owner ready slot =
      ap
        (λ e. elim e [
          | some code ↦ (w, answer_state worker_id b value (error_state code))
          | none ↦ accepted_call worker_id b value.op clock value w
        ])
        (early_error-none now value timely)
      ∙ ap (λ o. accepted_call worker_id b o clock value w) op
      ∙ ap (λ s. owner_call worker_id b clock (poll_op job.offset) value s w) slot
      ∙ if_true _ _ _ owner
      ∙ ap (λ (r : VoiceJob × Response). (record w { job = some r.0 }, r.1))
          (poll_job_gives value (leased clock job) ready)
