-- ===== src/LlmStream/Sound.antt =====
-- Every event that a worker sends passes the check of the core that receives it.
use Prim.Native.String.{◌++◌, len}
use text.Mathlib.TextPositions.{len-append}
use xiaozhi_desk_robot_serve.Prelude.{
  ℕ, suc, ◌+◌, ◌≤◌, String, ◌≡◌, refl, Bool, true, List, [], ◌∷◌, arith, All, Bool-cases, inl, inr,
  ltb, ◌==◌,
}
use xiaozhi_desk_robot_serve.Text.{elem}
use xiaozhi_desk_robot_serve.LlmStream.{
  error, Event, valid_event, chunks, max_chunks, max_text_bytes,
}
use xiaozhi_desk_robot_serve.LlmStream.Pieces.{Fits, chunks-Fits}
use xiaozhi_desk_robot_serve.LlmStream.Sender.{
  event, finish_stream, send_chunks, send_parts, send_stream,
}

module _ (is_digest : String → Bool) (sha256 : String → String) (worker : String)
    (digests : (s : String) → is_digest (sha256 s) ≡ true) where
  abbrev pub Valid : Event → Type 0
  Valid e = valid_event is_digest e ≡ true

  too_large-Valid :
      (n : ℕ) → n ≤ max_chunks + 1 → Valid (event sha256 worker n (error "llm_output_too_large"))
  unfolding valid_event elem
  too_large-Valid n h = ground arith

  finish-Valid :
      (n : ℕ) (sent : String)
      → n ≤ max_chunks + 1
      → len sent ≤ max_text_bytes
      → All Valid (finish_stream sha256 worker n sent)
  unfolding finish_stream valid_event elem
  finish-Valid n sent h l = elim (Bool-cases (len sent == 0)) [
    | inl empty ↦ rw empty (ground arith, tt)
    | inr some_text ↦ rw some_text (ground (arith, digests sent), tt)
  ]

  chunks-Valid :
      (texts : List String) (n : ℕ) (rest : ℕ → List Event)
      → All Fits texts
      → 1 ≤ n
      → n ≤ max_chunks + 1
      → ((m : ℕ) → 1 ≤ m → m ≤ max_chunks + 1 → All Valid (rest m))
      → All Valid (send_chunks sha256 worker texts n rest)
  unfolding send_chunks valid_event
  chunks-Valid [] n rest f p h k = k n p h
  chunks-Valid (text ∷ texts) n rest (ft, f) p h k = elim (Bool-cases (ltb max_chunks n)) [
    | inl over ↦ rw over (too_large-Valid n h, tt)
    | inr fits ↦ rw fits (
      ground (arith, ft.0, ft.1),
      chunks-Valid texts (suc n) rest f (omega arith) (ground arith) k,
    )
  ]

  parts-Valid :
      (parts : List String) (n : ℕ) (sent : String)
      → 1 ≤ n
      → n ≤ max_chunks + 1
      → len sent ≤ max_text_bytes
      → All Valid (send_parts sha256 worker parts n sent)
  unfolding send_parts
  parts-Valid [] n sent p h l = finish-Valid n sent h l
  parts-Valid (part ∷ parts) n sent p h l =
      elim (Bool-cases (ltb max_text_bytes (len sent + len part))) [
        | inl over ↦ rw over (too_large-Valid n h, tt)
        | inr fits ↦ rw fits (
            chunks-Valid (chunks part) n (λ m. send_parts sha256 worker parts m (sent ++ part))
              (chunks-Fits part) p h
              (λ m q i.
                parts-Valid parts m (sent ++ part) q i (ground (arith, len-append sent part))))
      ]

-- Every event of a stream passes the receiver's check of its kind and number, whatever the provider
-- yields, if the hash function returns digests of the form that the check asks for.
pub send_stream-valid :
    (is_digest : String → Bool) (sha256 : String → String) (worker : String)
    → ((s : String) → is_digest (sha256 s) ≡ true)
    → (parts : List String)
    → All (λ e. valid_event is_digest e ≡ true) (send_stream sha256 worker parts)
unfolding send_stream valid_event
send_stream-valid is_digest sha256 worker digests parts = (
  refl,
  parts-Valid is_digest sha256 worker digests parts 1 "" (omega arith) (omega arith) (omega arith),
)
