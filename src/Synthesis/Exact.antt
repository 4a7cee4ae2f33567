-- ===== src/Synthesis/Exact.antt =====
-- What a core fetches of a worker: core/cluster/tts_client.py against core/cluster/tts_worker.py.
use xiaozhi_desk_robot_serve.Prelude.{
  ℕ, ◌+◌, ◌*◌, ◌≤◌, ◌<◌, String, ◌≡◌, ◌⊎◌, refl, ap, sym, ◌∙◌, Bool, true, false, not, Option, none,
  some, List, [], ◌∷◌, ◌++◌, length, drop, ◌==◌, str_eq, eq_refl, arith, Bool-cases, inl, inr,
  length-append, All, map,
}
use xiaozhi_desk_robot_serve.Synthesis.{
  Bytes, max_pcm_chunk, job_op, poll_op, SegmentRequest, Response, no_bytes,
}
use xiaozhi_desk_robot_serve.Synthesis.Service.{VoiceBundle, VoiceJob, Service, receive_call, owns}
use xiaozhi_desk_robot_serve.Synthesis.Chunks.{chunk-Sized}
use xiaozhi_desk_robot_serve.Synthesis.Valid.{JobOk, audio-Answered}
use xiaozhi_desk_robot_serve.Synthesis.Polled.{
  if_false, if_true, chunk_of, header_of, audio_of, leased, polled, Ready, Timely,
  receive_call_gives,
}
use xiaozhi_desk_robot_serve.Synthesis.Fetch.{
  metadata_of, eq_metadata, agrees, take_chunk, take_state, PollOutcome, trouble, answered,
  ChunkMetadata, Fetch, new_fetch, FetchStep, polls_on, gives_up, returns, poll_request,
  take_outcome,
}
use xiaozhi_desk_robot_serve.Synthesis.Received.{
  received_next, nothing_left, enough_polls, positive, still_more, no_more_left, same_size,
}

-- a poll that reaches the worker at the times of its two clocks, or does not come through
pub data Poll : Type 0 where
  poll_at : ℕ → ℕ → Poll
  poll_fails : String → Poll

module _ (sha256 : Bytes → String) (is_digest : String → Bool) (worker_id : String)
    (b : VoiceBundle) where
  unfoldable pub poll_worker : SegmentRequest → Poll → ℕ → Service → Service × PollOutcome
  poll_worker value (poll_fails code) offset w = (w, trouble code)
  poll_worker value (poll_at now clock) offset w =
      let (next, r) = receive_call worker_id b now clock (poll_request value offset) w in
      (next, answered r)

  -- `none` while the loop has not ended
  unfoldable pub fetch_run : SegmentRequest → List Poll → Service → Fetch → Option FetchStep
  unfolding poll_worker
  fetch_run value [] w f = none
  fetch_run value (p ∷ ps) w f =
      let (next, outcome) = poll_worker value p (length f.pcm) w in
      let step = take_outcome sha256 is_digest worker_id value outcome f in
      let rest = λ (g : Fetch). fetch_run value ps next g in
      elim step [
        | polls_on g ↦ rest g
        | gives_up code ↦ some (gives_up code)
        | returns r ↦ some (returns r)
      ]

  -- the core has received what was polled of the job
  abbrev pub Follows : VoiceJob → Fetch → Type 0
  Follows job f =
      (f.pcm ++ drop job.offset job.pcm ≡ job.pcm)
      × (length f.pcm ≡ job.offset)
      × (agrees f.metadata (metadata_of (header_of job)) ≡ true)

  abbrev pub result_of : VoiceJob → FetchStep
  result_of job =
      returns (record { pcm = job.pcm; sample_rate = job.rate; synth_ms = job.synthesis_ms })

  -- the core goes on, or has all of the sound
  abbrev Takes : VoiceJob → FetchStep → Type 0
  Takes job step =
      ((f : Fetch) × (step ≡ polls_on f) × Follows job f × (job.offset < length job.pcm))
      ⊎ ((step ≡ result_of job) × (length job.pcm ≤ job.offset))

  same_metadata : (m : ChunkMetadata) → eq_metadata m m ≡ true
  unfolding eq_metadata
  same_metadata m = ground (arith, eq_refl m.sha256)

  take_chunk-Takes :
      (job : VoiceJob) (f : Fetch)
      → Follows job f
      → JobOk sha256 is_digest job
      → Ready job
      → JobOk sha256 is_digest (polled job)
      → Takes (polled job) (take_chunk sha256 is_digest worker_id (header_of job) (chunk_of job) f)
  unfolding take_chunk agrees metadata_of
  take_chunk-Takes job f (joined, place, agree) ok (sound, full, inside) next =
      let pcm = f.pcm ++ chunk_of job in
      let joined' = received_next f.pcm job.pcm job.offset max_pcm_chunk joined in
      let size : length pcm ≡ job.offset + length (chunk_of job) =
        omega (arith, length-append f.pcm (chunk_of job), place) in
      elim (Bool-cases (length pcm == length job.pcm)) [
        | inr more ↦ inl (
          record { pcm = pcm; metadata = some (metadata_of (header_of job)) },
          if_false _ _ _ (ap not agree) ∙ if_true _ _ _ (ap not more),
          (joined', size, same_metadata (metadata_of (header_of job))),
          still_more (length pcm) (length job.pcm) (job.offset + length (chunk_of job)) size next.4
              more,
        )
        | inl whole ↦
            let all : pcm ≡ job.pcm =
              nothing_left pcm _ job.pcm joined' (same_size (length pcm) (length job.pcm) whole) in
            let sum : job.checksum ≡ sha256 job.pcm = (ok.5 full).1 in
            inr (
              if_false _ _ _ (ap not agree)
                  ∙ if_false _ _ _ (ap not whole)
                  ∙ if_false _ _ _ (
                      ap not (
                        ap (λ s. str_eq (sha256 pcm) s) (sum ∙ sym (ap sha256 all))
                        ∙ eq_refl (sha256 pcm)))
                  ∙ ap
                      (λ l.
                        returns
                          (record { pcm = l; sample_rate = job.rate; synth_ms = job.synthesis_ms }))
                      all,
              no_more_left (length pcm) (length job.pcm) (job.offset + length (chunk_of job)) size
                  whole,
            )
      ]

  -- the polls come through at these times of the two clocks
  abbrev pub polls : List (ℕ × ℕ) → List Poll
  polls times = map (λ (t : ℕ × ℕ). poll_at t.0 t.1) times

  unfoldable pub go_on :
      SegmentRequest → List Poll → Fetch → Service × PollOutcome → Option FetchStep
  go_on value ps f (next, outcome) =
      elim (take_outcome sha256 is_digest worker_id value outcome f) [
        | polls_on g ↦ fetch_run value ps next g
        | gives_up code ↦ some (gives_up code)
        | returns r ↦ some (returns r)
      ]

  go_on_by :
      (value : SegmentRequest) (ps : List Poll) (w : Service) (step : FetchStep) (r : FetchStep)
      → step ≡ r
      → (elim step [
        | polls_on g ↦ fetch_run value ps w g
        | gives_up code ↦ some (gives_up code)
        | returns x ↦ some (returns x)
      ])
        ≡ (elim r [
          | polls_on g ↦ fetch_run value ps w g
          | gives_up code ↦ some (gives_up code)
          | returns x ↦ some (returns x)
        ])
  go_on_by value ps w step r e =
      ap
        (λ s. elim s [
          | polls_on g ↦ fetch_run value ps w g
          | gives_up code ↦ some (gives_up code)
          | returns x ↦ some (returns x)
        ])
        e

  fetch_run-Follows :
      (digests : (pcm : Bytes) → is_digest (sha256 pcm) ≡ true) (value : SegmentRequest)
      (times : List (ℕ × ℕ)) (job : VoiceJob) (w : Service) (f : Fetch)
      → All (λ t. Timely b t.0 value) times
      → owns value job ≡ true
      → w.job ≡ some job
      → JobOk sha256 is_digest job
      → Ready job
      → Follows job f
      → length job.pcm ≤ job.offset + length times * max_pcm_chunk
      → fetch_run value (polls times) w f ≡ some (result_of job)
  unfolding fetch_run poll_worker go_on poll_request owns take_outcome take_state
  fetch_run-Follows digests value [] job w f timely owner slot ok ready follows enough =
      absurd (omega (arith, enough, ready.2))
  fetch_run-Follows digests value ((now, clock) ∷ times) job w f timely owner slot ok ready follows
        enough =
      let v = poll_request value (length f.pcm) in
      let here = leased clock job in
      let at_place : v.op ≡ job_op (poll_op job.offset) = ap (λ n. job_op (poll_op n)) follows.1 in
      let (next, same_start, valid) =
        audio-Answered sha256 is_digest worker_id digests v here at_place ready.1 ready.2 ok in
      let w' : Service = record w { job = some (polled here) } in
      let call =
        receive_call_gives worker_id b now clock v job w at_place timely.0 owner ready slot in
      let first : fetch_run value (poll_at now clock ∷ polls times) w f
          ≡ go_on value (polls times) f (w', answered (audio_of worker_id v here)) =
        ap (λ (r : Service × Response). go_on value (polls times) f (r.0, answered r.1)) call in
      first
      ∙ go_on_by value (polls times) w' _ _ (if_true _ _ _ valid)
      ∙ elim (take_chunk-Takes here f follows ok ready next) [
        | inl (g, e, goes_on, inside) ↦
            go_on_by value (polls times) w' _ _ e
            ∙ fetch_run-Follows digests value times (polled here) w' g timely.1 owner refl next
                (ready.0, ready.1, inside) goes_on
                (enough_polls (length job.pcm) job.offset (length (chunk_of job)) (length times)
                  (chunk-Sized job.offset job.pcm) enough ready.2)
        | inr (e, ends) ↦ go_on_by value (polls times) w' _ _ e
      ]

  -- When a worker has the sound of a job, of which nothing was polled, the core that owns the job and whose
  -- polls come through before the deadline returns exactly this sound with its rate, after at most one poll for
  -- each 32768 bytes or part of them
  pub fetch_run-exact :
      (digests : (pcm : Bytes) → is_digest (sha256 pcm) ≡ true) (value : SegmentRequest)
      (times : List (ℕ × ℕ)) (job : VoiceJob) (w : Service)
      → All (λ t. Timely b t.0 value) times
      → owns value job ≡ true
      → w.job ≡ some job
      → JobOk sha256 is_digest job
      → job.error ≡ ""
      → no_bytes job.pcm ≡ false
      → job.offset ≡ 0
      → length job.pcm ≤ length times * max_pcm_chunk
      → fetch_run value (polls times) w new_fetch
        ≡ some (
            returns (record { pcm = job.pcm; sample_rate = job.rate; synth_ms = job.synthesis_ms }))
  unfolding agrees
  fetch_run-exact digests value times job w timely owner slot ok sound full start enough =
      fetch_run-Follows digests value times job w new_fetch timely owner slot ok
        (sound, full, omega (arith, start, positive job.pcm full))
        (ap (λ n. drop n job.pcm) start, sym start, refl) (omega (arith, enough, start))
