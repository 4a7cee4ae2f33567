-- ===== src/Synthesis/Runs.antt =====
-- A synthesis service of core/cluster/tts_worker.py through any events.
use xiaozhi_desk_robot_serve.Prelude.{
  ℕ, ◌+◌, ◌-◌, ◌*◌, ◌≤◌, String, ◌≡◌, refl, ap, sym, ◌∙◌, Bool, true, false, not, ◌||◌, Option,
  none, some, List, [], ◌∷◌, length, ltb, leb, ◌==◌, str_eq, if◌then◌else◌, arith, inr, All,
  All-append,
}
use xiaozhi_desk_robot_serve.Text.{elem}
use xiaozhi_desk_robot_serve.Synthesis.{
  Bytes, max_pcm, lease_seconds, error_codes, is_rate, Op, admit_op, job_op, SegmentRequest,
  error_state, Response, is_even, no_bytes, valid_response,
}
use xiaozhi_desk_robot_serve.Synthesis.Service.{
  VoiceBundle, VoiceJob, Service, answer_state, early_error, accepted_call, receive_call, start_job,
  is_sound, fail_job, take_result, synthesizes, cancel_job, watch_job, stop_job, ServiceEvent,
  end_job, job_event, idle_event, slot_event, service_step, service_run, new_service,
}
use xiaozhi_desk_robot_serve.Synthesis.Chunks.{branch, unequal}
use xiaozhi_desk_robot_serve.Synthesis.Valid.{
  JobOk, SlotOk, ServiceOk, Served, owner_call-Served, reserve_slot-Served, error-valid,
}

abbrev Known : Option String → Type 0
Known none = Unit
Known (some code) = elem code error_codes ≡ true

early_error-Known :
    (worker_id : String) (b : VoiceBundle) (now : ℕ) (value : SegmentRequest)
    → Known (early_error worker_id b now value)
unfolding early_error elem
early_error-Known worker_id b now value =
    branch Known (leb value.deadline_ms now) _ _ (λ late. refl)
      (λ timely.
        branch Known (not (value.revision == b.revision)) _ _ (λ old. refl)
          (λ current.
            branch Known (not (str_eq value.fingerprint b.fingerprint)) _ _ (λ other. refl)
              (λ same. tt)))

empty_length : (pcm : Bytes) → no_bytes pcm ≡ true → length pcm ≡ 0
unfolding no_bytes
empty_length [] e = refl
empty_length (x ∷ xs) e = unequal e

sound_lem :
    (pcm : Bytes) (rate : ℕ)
    → is_sound pcm rate ≡ true
    → (is_rate rate ≡ true)
      × (length pcm ≤ max_pcm)
      × (length pcm ≤ rate * 2 * 30)
      × (is_even (length pcm) ≡ true)
unfolding is_sound
sound_lem pcm rate h = (ground (arith, h), ground (arith, h), ground (arith, h), ground (arith, h))

synthesizes_lem : (job : VoiceJob) → synthesizes job ≡ true → no_bytes job.pcm ≡ true
unfolding synthesizes
synthesizes_lem job h = ground (arith, h)

idle_count : (s c : Bool) (n : ℕ) → n ≡ (if s then 1 else 0) → (s || c) ≡ false → n ≡ 0
idle_count false c n e h = e
idle_count true c n e h = unequal (sym h)

ended_count : (s : Bool) (n : ℕ) → n ≡ (if s then 1 else 0) → (if s then n - 1 else n) ≡ 0
ended_count true n e = omega (arith, e)
ended_count false n e = e

take_result_started :
    (sha256 : Bytes → String) (pcm : Bytes) (rate elapsed : ℕ) (job : VoiceJob)
    → (take_result sha256 pcm rate elapsed job).started ≡ job.started
unfolding take_result fail_job
take_result_started sha256 pcm rate elapsed job =
    branch (λ (j : VoiceJob). j.started ≡ job.started) (is_sound pcm rate) _ _ (λ h. refl)
      (λ h. refl)

module _ (sha256 : Bytes → String) (is_digest : String → Bool) (worker_id : String)
    (b : VoiceBundle) (digests : (pcm : Bytes) → is_digest (sha256 pcm) ≡ true) where
  accepted_call-Served :
      (op : Op) (clock : ℕ) (value : SegmentRequest) (w : Service)
      → value.op ≡ op
      → ServiceOk sha256 is_digest w
      → Served sha256 is_digest worker_id value (accepted_call worker_id b op clock value w)
  unfolding accepted_call
  accepted_call-Served (admit_op text) clock value w e ok =
      reserve_slot-Served sha256 is_digest worker_id b clock value w ok
  accepted_call-Served (job_op op) clock value w e ok =
      owner_call-Served sha256 is_digest worker_id digests b clock op value w.job w e refl ok ok

  after_error :
      (error : Option String) (clock : ℕ) (value : SegmentRequest) (w : Service)
      → Known error
      → ServiceOk sha256 is_digest w
      → Served sha256 is_digest worker_id value (elim error [
        | some code ↦ (w, answer_state worker_id b value (error_state code))
        | none ↦ accepted_call worker_id b value.op clock value w
      ])
  after_error none clock value w known ok = accepted_call-Served value.op clock value w refl ok
  after_error (some code) clock value w known ok =
      (ok, error-valid sha256 is_digest worker_id b value code known)

  receive_call-Served :
      (now clock : ℕ) (value : SegmentRequest) (w : Service)
      → ServiceOk sha256 is_digest w
      → Served sha256 is_digest worker_id value (receive_call worker_id b now clock value w)
  unfolding receive_call
  receive_call-Served now clock value w ok =
      after_error (early_error worker_id b now value) clock value w
        (early_error-Known worker_id b now value) ok

  take_result-JobOk :
      (pcm : Bytes) (rate elapsed : ℕ) (job : VoiceJob)
      → no_bytes job.pcm ≡ true
      → JobOk sha256 is_digest job
      → JobOk sha256 is_digest (take_result sha256 pcm rate elapsed job)
  unfolding take_result fail_job
  take_result-JobOk pcm rate elapsed job empty
        (short, fit, even, even_offset, within, sound, error) =
      branch (JobOk sha256 is_digest) (is_sound pcm rate) _ _
        (λ good.
          let (at_rate, small, brief, evenly) = sound_lem pcm rate good in
          (
            small,
            brief,
            evenly,
            even_offset,
            omega (arith, within, empty_length job.pcm empty),
            λ full. (at_rate, refl),
            error,
          ))
        (λ bad. (short, fit, even, even_offset, within, sound, inr refl))

  keep_if :
      (c : Bool) (w v : Service)
      → (c ≡ true → ServiceOk sha256 is_digest v)
      → ServiceOk sha256 is_digest w
      → ServiceOk sha256 is_digest (if c then v else w)
  keep_if true w v h ok = h refl
  keep_if false w v h ok = ok

  job_event-Ok :
      (e : ServiceEvent) (job : VoiceJob) (w : Service)
      → SlotOk sha256 is_digest w.tts_jobs (some job)
      → ServiceOk sha256 is_digest w
      → ServiceOk sha256 is_digest (job_event sha256 worker_id b e job w)
  unfolding job_event start_job fail_job watch_job cancel_job stop_job end_job
  job_event-Ok ServiceEvent.start_event job w (ok, n) same =
      branch (ServiceOk sha256 is_digest) (job.started || job.cancelled) _ _ (λ before. same)
        (λ fresh. (ok, ap (λ k. k + 1) (idle_count job.started job.cancelled w.tts_jobs n fresh)))
  job_event-Ok (ServiceEvent.result_event pcm rate elapsed) job w (ok, n) same =
      keep_if (synthesizes job) w _
        (λ h. (
          take_result-JobOk pcm rate elapsed job (synthesizes_lem job h) ok,
          n ∙ ap (λ s. if s then 1 else 0) (sym (take_result_started sha256 pcm rate elapsed job)),
        ))
        same
  job_event-Ok ServiceEvent.failed_event job w
        ((short, fit, even, even_offset, within, sound, error), n) same =
      keep_if (synthesizes job) w _
        (λ h. ((short, fit, even, even_offset, within, sound, inr refl), n)) same
  job_event-Ok (ServiceEvent.watch_event is_connected now clock) job w (ok, n) same =
      keep_if job.started w _
        (λ runs.
          branch (λ j. SlotOk sha256 is_digest w.tts_jobs (some j))
            (not is_connected
              || ltb (job.lease + lease_seconds) clock
              || leb job.value.deadline_ms now)
            _ _ (λ lost. (ok, n)) (λ kept. (ok, n)))
        same
  job_event-Ok ServiceEvent.end_event job w (ok, n) same =
      keep_if (job.cancelled || job.released) w _ (λ ended. ended_count job.started w.tts_jobs n)
        same
  job_event-Ok ServiceEvent.stop_event job w (ok, n) same = (ok, n)
  job_event-Ok (ServiceEvent.call_event now clock value) job w (ok, n) same = same
  job_event-Ok (ServiceEvent.activity_event draining asr_jobs) job w (ok, n) same = same

  idle_event-Ok :
      (e : ServiceEvent) (w : Service)
      → ServiceOk sha256 is_digest w
      → ServiceOk sha256 is_digest (idle_event sha256 worker_id b e w)
  unfolding idle_event
  idle_event-Ok ServiceEvent.stop_event w ok = ok
  idle_event-Ok ServiceEvent.start_event w ok = ok
  idle_event-Ok (ServiceEvent.result_event pcm rate elapsed) w ok = ok
  idle_event-Ok ServiceEvent.failed_event w ok = ok
  idle_event-Ok (ServiceEvent.watch_event is_connected now clock) w ok = ok
  idle_event-Ok ServiceEvent.end_event w ok = ok
  idle_event-Ok (ServiceEvent.call_event now clock value) w ok = ok
  idle_event-Ok (ServiceEvent.activity_event draining asr_jobs) w ok = ok

  slot_event-Ok :
      (e : ServiceEvent) (slot : Option VoiceJob) (w : Service)
      → SlotOk sha256 is_digest w.tts_jobs slot
      → ServiceOk sha256 is_digest w
      → ServiceOk sha256 is_digest (slot_event sha256 worker_id b e slot w)
  unfolding slot_event
  slot_event-Ok e none w slot ok = idle_event-Ok e w ok
  slot_event-Ok e (some job) w slot ok = job_event-Ok e job w slot ok

  -- an answer passes the check that the core makes for its call
  abbrev pub Passes : SegmentRequest × Response → Type 0
  Passes (value, r) = valid_response is_digest worker_id value r ≡ true

  service_step-Ok :
      (e : ServiceEvent) (w : Service)
      → ServiceOk sha256 is_digest w
      → let (next, answers) = service_step sha256 worker_id b e w in
        ServiceOk sha256 is_digest next × All Passes answers
  unfolding service_step
  service_step-Ok (ServiceEvent.call_event now clock value) w ok =
      let (next, valid) = receive_call-Served now clock value w ok in (next, (valid, tt))
  service_step-Ok (ServiceEvent.activity_event draining asr_jobs) w ok = (ok, tt)
  service_step-Ok ServiceEvent.start_event w ok =
      (slot_event-Ok ServiceEvent.start_event w.job w ok ok, tt)
  service_step-Ok (ServiceEvent.result_event pcm rate elapsed) w ok =
      (slot_event-Ok (ServiceEvent.result_event pcm rate elapsed) w.job w ok ok, tt)
  service_step-Ok ServiceEvent.failed_event w ok =
      (slot_event-Ok ServiceEvent.failed_event w.job w ok ok, tt)
  service_step-Ok (ServiceEvent.watch_event is_connected now clock) w ok =
      (slot_event-Ok (ServiceEvent.watch_event is_connected now clock) w.job w ok ok, tt)
  service_step-Ok ServiceEvent.end_event w ok =
      (slot_event-Ok ServiceEvent.end_event w.job w ok ok, tt)
  service_step-Ok ServiceEvent.stop_event w ok =
      (slot_event-Ok ServiceEvent.stop_event w.job w ok ok, tt)

  run-Ok :
      (es : List ServiceEvent) (w : Service)
      → ServiceOk sha256 is_digest w
      → let (last, answers) = service_run sha256 worker_id b es w in
        ServiceOk sha256 is_digest last × All Passes answers
  unfolding service_run
  run-Ok [] w ok = (ok, tt)
  run-Ok (e ∷ es) w ok =
      let (next, first) = service_step-Ok e w ok in
      let (last, rest) = run-Ok es (service_step sha256 worker_id b e w).0 next in
      (last, All-append Passes (service_step sha256 worker_id b e w).1 _ first rest)

  -- Whatever happens to a service that has started, its calls, its engine and its watchdog in any order: each
  -- answer passes the core's check of answers to its call. The sound of the job in the slot is within the
  -- bounds of a segment, it has its checksum, and the place up to which it was polled is in it and even; the
  -- number of jobs at work is one if the job in the slot has started, and else none
  pub service_run-Ok :
      (es : List ServiceEvent)
      → let (last, answers) = service_run sha256 worker_id b es new_service in
        ServiceOk sha256 is_digest last × All Passes answers
  service_run-Ok es = run-Ok es new_service refl
