-- ===== src/LlmStream/Completes.antt =====
-- A text that keeps within the limits is delivered when nothing goes wrong.
use Prim.Native.String.{◌++◌, len}
use text.Mathlib.TextLemmas.{append_assoc, append-nil, nil-append}
use text.Mathlib.TextPositions.{len-append}
use xiaozhi_desk_robot_serve.Text.Words.{concat}
use xiaozhi_desk_robot_serve.Prelude.{
  ℕ, suc, ◌+◌, ◌≤◌, ◌<◌, String, ◌≡◌, refl, ap, subst, sym, ◌∙◌, false, none, List, [], ◌∷◌, arith,
  ltb, ◌==◌, eq_refl, length, map,
}
use xiaozhi_desk_robot_serve.LlmStream.{
  started, chunk, complete, Event, chunks, max_chunks, max_text_bytes,
}
use xiaozhi_desk_robot_serve.LlmStream.Pieces.{concat-chunks}
use xiaozhi_desk_robot_serve.LlmStream.Sender.{
  event, finish_stream, send_chunks, send_parts, send_stream,
}
use xiaozhi_desk_robot_serve.LlmStream.Receiver.{
  Trouble, fresh, StreamOutcome, finished, continues, ends, other_worker, unless, first_event,
  later_event, receive_event, next_round, receive_events,
}
use xiaozhi_desk_robot_serve.LlmStream.Rounds.{at}

abbrev pub no_trouble : Trouble
no_trouble = record { taken = none; consumed = none; acknowledged = none }

abbrev pub quiet : List Event → List (Trouble × Event)
quiet = map (λ e. (no_trouble, e))

-- how many chunks the parts are sent in
unfoldable pub chunk_count : List String → ℕ
chunk_count [] = 0
chunk_count (part ∷ parts) = length (chunks part) + chunk_count parts

module _ (sha256 : String → String) (worker : String) where
  receive_chunk :
      (n : ℕ) (text piece : String)
      → len text + len piece ≤ max_text_bytes
      → receive_event sha256 no_trouble
          (at worker (suc n) text)
          (event sha256 worker (suc n) (chunk piece))
        ≡ continues (at worker (suc (suc n)) (text ++ piece))
  unfolding receive_event other_worker later_event unless
  receive_chunk n text piece h = ground (arith, eq_refl worker)

  receive_complete :
      (n : ℕ) (text : String)
      → receive_event sha256 no_trouble
          (at worker (suc n) text)
          (event sha256 worker (suc n) (complete (len text) (sha256 text)))
        ≡ ends (finished text)
  unfolding receive_event other_worker later_event unless
  receive_complete n text = ground (arith, eq_refl worker, eq_refl (sha256 text))

  receive_started :
      receive_event sha256 no_trouble fresh (event sha256 worker 0 started)
      ≡ continues (at worker 1 "")
  unfolding receive_event other_worker first_event unless
  receive_started = refl

  -- the chunks of a part arrive, and then what is sent after them
  receive_chunks :
      (texts : List String) (n : ℕ) (sent : String) (rest : ℕ → List Event) (o : StreamOutcome)
      (m : ℕ) (all : String)
      → m ≡ n + length texts
      → all ≡ sent ++ concat texts
      → m ≤ max_chunks
      → len all ≤ max_text_bytes
      → receive_events sha256 (at worker (suc m) all) (quiet (rest (suc m))) ≡ o
      → receive_events sha256
          (at worker (suc n) sent)
          (quiet (send_chunks sha256 worker texts (suc n) rest))
        ≡ o
  unfolding receive_events next_round send_chunks concat
  receive_chunks [] n sent rest o m all em ea h l k =
      let same : m ≡ n = omega (arith, em) in
      subst (λ s. receive_events sha256 (at worker (suc n) s) (quiet (rest (suc n))) ≡ o)
        (ea ∙ append-nil sent)
        (subst (λ j. receive_events sha256 (at worker (suc j) all) (quiet (rest (suc j))) ≡ o) same
          k)
  receive_chunks (text ∷ texts) n sent rest o m all em ea h l k =
      let bytes : len all ≡ len sent + (len text + len (concat texts)) =
        ap len ea
        ∙ len-append sent (text ++ concat texts)
        ∙ ap (λ j. len sent + j) (len-append text (concat texts)) in
      let allowed : ltb max_chunks (suc n) ≡ false = ground (arith, em) in
      let fits : len sent + len text ≤ max_text_bytes = omega (arith, bytes) in
      rw allowed (
        rw (receive_chunk n sent text fits) (
          receive_chunks texts (suc n) (sent ++ text) rest o m all (omega (arith, em))
            (ea ∙ sym (append_assoc sent text (concat texts))) h l k))

  receive_finish :
      (n : ℕ) (sent : String)
      → 0 < len sent
      → receive_events sha256
          (at worker (suc n) sent)
          (quiet (finish_stream sha256 worker (suc n) sent))
        ≡ finished sent
  unfolding receive_events next_round finish_stream
  receive_finish n sent h =
      let some_text : (len sent == 0) ≡ false = ground arith in
      rw some_text (rw (receive_complete n sent) refl)

  receive_parts :
      (parts : List String) (n : ℕ) (sent : String)
      → n + chunk_count parts ≤ max_chunks
      → len (sent ++ concat parts) ≤ max_text_bytes
      → 0 < len (sent ++ concat parts)
      → receive_events sha256
          (at worker (suc n) sent)
          (quiet (send_parts sha256 worker parts (suc n) sent))
        ≡ finished (sent ++ concat parts)
  unfolding send_parts chunk_count concat
  receive_parts [] n sent h l p =
      rw (append-nil sent) (receive_finish n sent (subst (λ s. 0 < len s) (append-nil sent) p))
  receive_parts (part ∷ parts) n sent h l p =
      let all = sent ++ (part ++ concat parts) in
      let joined : (sent ++ part) ++ concat parts ≡ all = append_assoc sent part (concat parts) in
      let bytes : len all ≡ len sent + (len part + len (concat parts)) =
        len-append sent (part ++ concat parts)
        ∙ ap (λ j. len sent + j) (len-append part (concat parts)) in
      let fits : ltb max_text_bytes (len sent + len part) ≡ false = ground (arith, bytes) in
      rw fits (
        receive_chunks (chunks part) n sent (λ m. send_parts sha256 worker parts m (sent ++ part))
          (finished all) (n + length (chunks part)) (sent ++ part) refl
          (ap (λ s. sent ++ s) (sym (concat-chunks part))) (omega arith)
          (omega (arith, bytes, len-append sent part))
          (subst
            (λ s.
              receive_events sha256 (at worker (suc (n + length (chunks part))) (sent ++ part)) (
                quiet
                  (send_parts sha256 worker parts (suc (n + length (chunks part))) (sent ++ part)))
              ≡ finished s)
            joined
            (receive_parts parts (n + length (chunks part)) (sent ++ part) (omega arith)
              (subst (λ s. len s ≤ max_text_bytes) (sym joined) l)
              (subst (λ s. 0 < len s) (sym joined) p))))

-- A text of at least one and at most 65536 bytes, whose parts take no more than 4096 chunks, is returned
-- whole when nothing goes wrong.
pub receive-send_total :
    (sha256 : String → String) (worker : String) (parts : List String)
    → chunk_count parts ≤ max_chunks
    → 0 < len (concat parts)
    → len (concat parts) ≤ max_text_bytes
    → receive_events sha256 fresh (quiet (send_stream sha256 worker parts))
      ≡ finished (concat parts)
unfolding send_stream receive_events next_round
receive-send_total sha256 worker parts h p l =
    let none_before = nil-append (concat parts) in
    rw (receive_started sha256 worker) (
      subst
        (λ s.
          receive_events sha256 (at worker 1 "") (quiet (send_parts sha256 worker parts 1 ""))
          ≡ finished s)
        none_before
        (receive_parts sha256 worker parts 0 "" (omega arith)
          (subst (λ s. len s ≤ max_text_bytes) (sym none_before) l)
          (subst (λ s. 0 < len s) (sym none_before) p)))
