-- ===== src/Synthesis/Fetch.antt =====
-- `call` and `fetch` of OwnedSegment in core/cluster/tts_client.py: a core pulls the sound of a segment.
use xiaozhi_desk_robot_serve.Prelude.{
  ℕ, String, Bool, true, not, ◌&&◌, Option, none, some, [], ◌++◌, length, ◌==◌, str_eq,
  if◌then◌else◌,
}
use xiaozhi_desk_robot_serve.Synthesis.{
  Bytes, job_op, poll_op, SegmentRequest, State, admitted_state, pending_state, released_state,
  error_state, audio_state, AudioHeader, Response, no_bytes, valid_response,
}

-- what a poll brings: an exception of the connection or of the deadline, or an answer
pub data PollOutcome : Type 0 where
  trouble : String → PollOutcome
  answered : Response → PollOutcome

-- the fields that every chunk repeats
pub record ChunkMetadata : Type 0 where
  pub total_bytes : ℕ
  pub sample_rate : ℕ
  pub sha256 : String
  pub synth_ms : ℕ

-- SegmentResult
pub record SegmentResult : Type 0 where
  pub pcm : Bytes
  pub sample_rate : ℕ
  pub synth_ms : ℕ

pub record Fetch : Type 0 where
  pub pcm : Bytes
  pub metadata : Option ChunkMetadata

abbrev pub new_fetch : Fetch
new_fetch = record { pcm = []; metadata = none }

-- the loop goes on, or ends by an error code or a result
pub data FetchStep : Type 0 where
  polls_on : Fetch → FetchStep
  gives_up : String → FetchStep
  returns : SegmentResult → FetchStep

-- the request of a poll
unfoldable pub poll_request : SegmentRequest → ℕ → SegmentRequest
poll_request value offset = record value { op = job_op (poll_op offset) }

unfoldable pub metadata_of : AudioHeader → ChunkMetadata
metadata_of h = record {
  total_bytes = h.total_bytes;
  sample_rate = h.sample_rate;
  sha256 = h.sha256;
  synth_ms = h.synth_ms;
}

unfoldable pub eq_metadata : ChunkMetadata → ChunkMetadata → Bool
eq_metadata a b =
    a.total_bytes == b.total_bytes
    && a.sample_rate == b.sample_rate
    && str_eq a.sha256 b.sha256
    && a.synth_ms == b.synth_ms

unfoldable pub agrees : Option ChunkMetadata → ChunkMetadata → Bool
unfolding eq_metadata
agrees none current = true
agrees (some known) current = eq_metadata known current

module _ (sha256 : Bytes → String) (is_digest : String → Bool) (worker_id : String) where
  -- fetch: a chunk
  unfoldable pub take_chunk : AudioHeader → Bytes → Fetch → FetchStep
  unfolding metadata_of agrees
  take_chunk h chunk f =
      let pcm = f.pcm ++ chunk in
      if not (agrees f.metadata (metadata_of h))
      then gives_up "tts_invalid_result"
      else if not (length pcm == h.total_bytes)
      then polls_on (record { pcm = pcm; metadata = some (metadata_of h) })
      else if not (str_eq (sha256 pcm) h.sha256)
      then gives_up "tts_invalid_result"
      else returns (record { pcm = pcm; sample_rate = h.sample_rate; synth_ms = h.synth_ms })

  unfoldable pub take_state : State → Bytes → Fetch → FetchStep
  unfolding take_chunk no_bytes
  take_state (error_state code) chunk f = gives_up code
  take_state pending_state chunk f =
      if no_bytes f.pcm then polls_on f else gives_up "tts_invalid_result"
  take_state admitted_state chunk f = gives_up "tts_invalid_result"
  take_state released_state chunk f = gives_up "tts_invalid_result"
  take_state (audio_state h) chunk f = take_chunk h chunk f

  -- call, and what fetch makes of it
  unfoldable pub take_outcome : SegmentRequest → PollOutcome → Fetch → FetchStep
  unfolding take_state
  take_outcome value (trouble code) f = gives_up code
  take_outcome value (answered r) f =
      if valid_response is_digest worker_id (poll_request value (length f.pcm)) r
      then take_state r.state r.pcm f
      else gives_up "tts_unavailable"
