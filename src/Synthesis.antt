-- ===== src/Synthesis.antt =====
-- core/cluster/tts_protocol.py: the messages by which a core has a worker synthesize one segment.
pub mod Service
pub mod Fetch
mod Chunks
mod Valid
mod Runs
mod Polled
mod Received
mod Exact
mod Examples
use xiaozhi_desk_robot_serve.Prelude.{
  ℕ, ◌+◌, ◌-◌, ◌*◌, ◌%◌, String, Bool, true, false, not, ◌&&◌, ◌||◌, List, [], ◌∷◌, length, ltb,
  leb, ◌==◌, str_eq,
}
use xiaozhi_desk_robot_serve.Text.{elem}

abbrev pub Bytes : Type 0
Bytes = List ℕ

abbrev pub max_pcm_chunk : ℕ
max_pcm_chunk = 32768

abbrev pub max_pcm : ℕ
max_pcm = 3145728

abbrev pub lease_seconds : ℕ
lease_seconds = 4

-- RATES
unfoldable pub is_rate : ℕ → Bool
is_rate n = n == 16000 || n == 22050 || n == 24000 || n == 44100 || n == 48000

-- ERRORS
abbrev pub error_codes : List String
error_codes =
    "tts_busy" ∷ "tts_expired" ∷ "tts_revision_mismatch" ∷ "tts_voice_mismatch" ∷ "tts_unavailable"
    ∷ "tts_provider_failed" ∷ "tts_invalid_result" ∷ "tts_segment_too_large" ∷ []

-- the operations of the owner of a job
pub data JobOp : Type 0 where
  poll_op : ℕ → JobOp
  cancel_op : JobOp
  done_op : JobOp

pub data Op : Type 0 where
  admit_op : String → Op
  job_op : JobOp → Op

pub record SegmentRequest : Type 0 where
  pub op : Op
  pub core_id : String
  pub revision : ℕ
  pub fingerprint : String
  pub job_id : String
  pub token : String
  pub index : ℕ
  pub deadline_ms : ℕ

-- what an answer repeats of its request
pub record Owner : Type 0 where
  pub worker_id : String
  pub revision : ℕ
  pub fingerprint : String
  pub job_id : String
  pub token : String
  pub index : ℕ

pub record AudioHeader : Type 0 where
  pub offset : ℕ
  pub total_bytes : ℕ
  pub sample_rate : ℕ
  pub sha256 : String
  pub synth_ms : ℕ

pub data State : Type 0 where
  admitted_state : State
  pending_state : State
  released_state : State
  error_state : String → State
  audio_state : AudioHeader → State

pub record Response : Type 0 where
  pub owner : Owner
  pub state : State
  pub pcm : Bytes

-- response_header
unfoldable pub owner_of : String → SegmentRequest → Owner
owner_of worker_id value = record {
  worker_id = worker_id;
  revision = value.revision;
  fingerprint = value.fingerprint;
  job_id = value.job_id;
  token = value.token;
  index = value.index;
}

unfoldable pub eq_owner : Owner → Owner → Bool
eq_owner a b =
    str_eq a.worker_id b.worker_id
    && a.revision == b.revision
    && str_eq a.fingerprint b.fingerprint
    && str_eq a.job_id b.job_id
    && str_eq a.token b.token
    && a.index == b.index

unfoldable pub is_even : ℕ → Bool
is_even n = n % 2 == 0

unfoldable pub no_bytes : Bytes → Bool
no_bytes [] = true
no_bytes (x ∷ xs) = false

-- `header['offset'] == value['offset']`: only a poll has one
unfoldable pub asks_offset : Op → ℕ → Bool
asks_offset (job_op (poll_op offset)) n = n == offset
asks_offset (job_op cancel_op) n = false
asks_offset (job_op done_op) n = false
asks_offset (admit_op text) n = false

module _ (is_digest : String → Bool) where
  unfoldable pub valid_audio : Op → AudioHeader → Bytes → Bool
  unfolding asks_offset is_even is_rate
  valid_audio op h pcm =
      asks_offset op h.offset
      && ltb 0 h.total_bytes
      && leb h.total_bytes max_pcm
      && is_even h.total_bytes
      && ltb 0 (length pcm)
      && leb (length pcm) (h.total_bytes - h.offset)
      && is_rate h.sample_rate
      && leb h.total_bytes (h.sample_rate * 2 * 30)
      && is_digest h.sha256

  unfoldable pub valid_state : Op → State → Bytes → Bool
  unfolding valid_audio no_bytes
  valid_state op admitted_state pcm = no_bytes pcm
  valid_state op pending_state pcm = no_bytes pcm
  valid_state op released_state pcm = no_bytes pcm
  valid_state op (error_state code) pcm = no_bytes pcm && elem code error_codes
  valid_state op (audio_state h) pcm = valid_audio op h pcm

  -- parse_response, with the bounds of unpack
  unfoldable pub valid_response : String → SegmentRequest → Response → Bool
  unfolding owner_of eq_owner valid_state is_even
  valid_response worker_id value r =
      leb (length r.pcm) max_pcm_chunk
      && is_even (length r.pcm)
      && eq_owner r.owner (owner_of worker_id value)
      && valid_state value.op r.state r.pcm
