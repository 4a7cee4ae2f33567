-- ===== src/Synthesis/Examples.antt =====
-- A segment of four bytes.
use xiaozhi_desk_robot_serve.Prelude.{
  String, ◌≡◌, refl, Bool, true, false, some, List, [], ◌∷◌, All, arith, inl,
}
use xiaozhi_desk_robot_serve.Synthesis.{
  Bytes, Op, admit_op, job_op, poll_op, done_op, SegmentRequest, no_bytes, is_even, is_rate,
}
use xiaozhi_desk_robot_serve.Synthesis.Service.{
  VoiceBundle, VoiceJob, Service, owns, ServiceEvent, service_run, new_service,
}
use xiaozhi_desk_robot_serve.Synthesis.Fetch.{returns, new_fetch}
use xiaozhi_desk_robot_serve.Synthesis.Valid.{JobOk, ServiceOk}
use xiaozhi_desk_robot_serve.Synthesis.Runs.{Passes, service_run-Ok}
use xiaozhi_desk_robot_serve.Synthesis.Exact.{polls, fetch_run, fetch_run-exact}

abbrev sum_of : Bytes → String
sum_of pcm = "digest"

abbrev any_text : String → Bool
any_text s = true

abbrev voice : VoiceBundle
voice = record { revision = 1; fingerprint = "voice" }

abbrev request_for : Op → SegmentRequest
request_for op = record {
  op = op;
  core_id = "core";
  revision = 1;
  fingerprint = "voice";
  job_id = "job";
  token = "token";
  index = 0;
  deadline_ms = 9000;
}

abbrev ready_job : VoiceJob
ready_job = record {
  value = request_for (admit_op "Hi");
  lease = 0;
  pcm = 1 ∷ 2 ∷ 3 ∷ 4 ∷ [];
  rate = 16000;
  checksum = "digest";
  synthesis_ms = 5;
  offset = 0;
  error = "";
  started = true;
  released = false;
  cancelled = false;
}

abbrev ready_service : Service
ready_service = record {
  stopping = false;
  draining = false;
  asr_jobs = 0;
  tts_jobs = 1;
  job = some ready_job;
}

abbrev lifecycle : List ServiceEvent
lifecycle =
    ServiceEvent.call_event 0 0 (request_for (admit_op "Hi"))
    ∷ ServiceEvent.start_event
    ∷ ServiceEvent.result_event (1 ∷ 2 ∷ []) 16000 5
    ∷ ServiceEvent.call_event 10 1 (request_for (job_op (poll_op 0)))
    ∷ ServiceEvent.call_event 20 1 (request_for (job_op done_op))
    ∷ ServiceEvent.end_event
    ∷ []

service_run-Ok_example :
    let (last, answers) = service_run sum_of "worker" voice lifecycle new_service in
    ServiceOk sum_of any_text last
    × All (Passes sum_of any_text "worker" voice (λ pcm. refl)) answers
service_run-Ok_example = service_run-Ok sum_of any_text "worker" voice (λ pcm. refl) lifecycle

ready_owner : owns (request_for (job_op (poll_op 0))) ready_job ≡ true
unfolding owns
ready_owner = refl

ready_job-JobOk : JobOk sum_of any_text ready_job
unfolding is_even is_rate
ready_job-JobOk =
    (omega arith, omega arith, refl, refl, omega arith, λ full. (refl, refl), inl refl)

ready_full : no_bytes ready_job.pcm ≡ false
unfolding no_bytes
ready_full = refl

fetch_run-exact_example :
    fetch_run sum_of any_text "worker" voice
      (request_for (job_op (poll_op 0)))
      (polls sum_of any_text "worker" voice ((10, 1) ∷ []))
      ready_service
      new_fetch
    ≡ some (returns (record { pcm = 1 ∷ 2 ∷ 3 ∷ 4 ∷ []; sample_rate = 16000; synth_ms = 5 }))
fetch_run-exact_example =
    fetch_run-exact sum_of any_text "worker" voice (λ pcm. refl) (request_for (job_op (poll_op 0)))
      ((10, 1) ∷ []) ready_job ready_service ((omega arith, refl, refl), tt) ready_owner refl
      ready_job-JobOk refl ready_full refl (omega arith)
