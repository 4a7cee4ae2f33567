-- ===== src/LlmStream.antt =====
-- core/cluster/llm_stream_protocol.py: the events of a text that a worker sends to a core piece by piece. An
-- event is what `parse_event` returns, without the fields that it compares with the request; the tool
-- events of the other protocol are left out. `is_digest` is the pattern of a SHA-256 digest.
pub mod Sender
pub mod Receiver
pub mod Admission
mod Pieces
mod Sound
mod Rounds
mod Delivery
mod Completes
mod Jobs
mod Examples
use Prim.Native.Char.{Char}
use Prim.Native.String.{◌++◌, len}
use xiaozhi_desk_robot_serve.Text.Words.{
  concat, extend, is_prefix, join, keep_unless, not_space, occurs, squeeze, starts, strip,
  strip_end, strip_start, take_chars, words,
}
use xiaozhi_desk_robot_serve.Prelude.{
  ℕ, zero, suc, ◌+◌, String, Bool, true, false, ◌&&◌, List, [], ◌∷◌, leb, ltb, ◌==◌, if◌then◌else◌,
}
use xiaozhi_desk_robot_serve.Text.{elem}

abbrev pub max_chunk_bytes : ℕ
max_chunk_bytes = 4096

abbrev pub max_chunks : ℕ
max_chunks = 4096

-- MAX_TEXT_BYTES of core/cluster/llm_protocol.py
abbrev pub max_text_bytes : ℕ
max_text_bytes = 65536

-- ERRORS
abbrev pub stream_errors : List String
stream_errors =
    "llm_busy" ∷ "llm_expired" ∷ "llm_cancelled" ∷ "llm_revision_mismatch" ∷ "llm_output_too_large"
    ∷ "llm_provider_failed" ∷ "llm_empty_response" ∷ "llm_stream_unavailable" ∷ []

pub data Kind : Type 0 where
  started : Kind
  chunk : String → Kind
  complete : ℕ → String → Kind
  error : String → Kind

pub record Event : Type 0 where
  pub worker_id : String
  pub seq : ℕ
  pub kind : Kind

module _ (is_digest : String → Bool) where
  -- the part of `parse_event` that depends on the kind
  unfoldable pub valid_kind : ℕ → Kind → Bool
  valid_kind seq started = seq == 0
  valid_kind seq (chunk text) =
      leb 1 seq && leb seq max_chunks && ltb 0 (len text) && leb (len text) max_chunk_bytes
  valid_kind seq (complete text_bytes sha256) =
      ltb 0 text_bytes && leb text_bytes max_text_bytes && is_digest sha256
  valid_kind seq (error code) = elem code stream_errors

  -- the checks of `parse_event` on the fields of an event
  unfoldable pub valid_event : Event → Bool
  unfolding valid_kind
  valid_event e = leb e.seq (max_chunks + 1) && valid_kind e.seq e.kind

-- MAX_CHUNK_BYTES // 4
abbrev pub piece_chars : ℕ
piece_chars = 1024

-- the first piece, which has room for `room` characters more, and the pieces after it
unfoldable pub pieces : ℕ → String → String × List String
pieces room String.[] = ("", [])
pieces zero (String.◌∷◌ c s) = let (w, ws) = pieces 1023 s in ("", String.◌∷◌ c w ∷ ws)
pieces (suc room) (String.◌∷◌ c s) = let (w, ws) = pieces room s in (String.◌∷◌ c w, ws)

-- chunks
unfoldable pub chunks : String → List String
chunks text = (pieces 0 text).1
