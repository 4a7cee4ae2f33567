-- ===== src/Segments/Played.antt =====
-- What TTSTurn of core/cluster/tts_turn.py plays.
use mathlib.Core.List.{◌++◌, map}
use xiaozhi_desk_robot_serve.Prelude.{
  ℕ, suc, ◌+◌, ◌≤◌, String, ◌≡◌, refl, ap, sym, ◌∙◌, Bool, true, false, Option, some, List, [], ◌∷◌,
  arith, length, length-append, append_nil, append_assoc, map-append,
}
use text.Mathlib.TextLemmas.{append-nil}
use xiaozhi_desk_robot_serve.Text.Words.{concat}
use xiaozhi_desk_robot_serve.Segments.{Unicode, Options}
use xiaozhi_desk_robot_serve.Segments.Buffer.{SegmentBuffer, full_text, current_text}
use xiaozhi_desk_robot_serve.Segments.Ends.{spoken}
use xiaozhi_desk_robot_serve.Segments.Turn.{
  Job, Dispatcher, acquiring, waiting, putting, dispatched, raised, Player, getting, awaiting,
  player_done, TtsTurn, new_turn, max_lookahead, max_segments, TurnEvent, turn_steps,
}
use xiaozhi_desk_robot_serve.Segments.Lookahead.{
  busy, carried, flight, lost, texts, indices, numbers, Inv,
}
use xiaozhi_desk_robot_serve.Segments.Tasks.{absurd_bool}
use xiaozhi_desk_robot_serve.Segments.Turns.{reached-Inv}

length-texts : (jobs : List Job) → length (texts jobs) ≡ length jobs
length-texts [] = refl
length-texts (j ∷ js) = ap suc (length-texts js)

length-indices : (jobs : List Job) → length (indices jobs) ≡ length jobs
length-indices [] = refl
length-indices (j ∷ js) = ap suc (length-indices js)

length-flight :
    (p : Player) (queued : List Job) (d : Dispatcher)
    → length (flight p queued d) ≡ length (busy p) + length queued + length (carried d)
length-flight p queued d =
    omega (arith, length-append (busy p) (queued ++ carried d), length-append queued (carried d))

unspoken_le :
    (p : Player) (queued : List Job) (d : Dispatcher) (slots : ℕ) (over : List String)
    → slots + (length (busy p) + length queued + length (carried d) + lost d) ≡ 3
    → length over ≡ lost d
    → length (texts (flight p queued d) ++ over) ≤ 3
unspoken_le p queued d slots over n l = omega (
  arith,
  n,
  l,
  length-append (texts (flight p queued d)) over,
  length-texts (flight p queued d),
  length-flight p queued d,
)

whole_text : (a b c : String) → Prim.Native.String.◌++◌ a b ≡ c → b ≡ "" → a ≡ c
whole_text a b c e h = sym (append-nil a) ∙ ap (λ w. Prim.Native.String.◌++◌ a w) (sym h) ∙ e

no_more : (over : List String) → length over ≡ 0 → over ≡ []
no_more [] h = refl
no_more (x ∷ xs) h = absurd (omega (arith, h))

module _ (u : Unicode) (o : Options) where
  at_end :
      (b : SegmentBuffer) (slots : ℕ) (queue : List (Option Job)) (jobs : List ℕ) (index : ℕ)
      (d : Dispatcher) (p : Player) (played : List Job) (stopped : Bool)
      → p ≡ player_done
      → Inv u b slots queue jobs index d p played stopped
      → (pieces : List String) × (concat pieces ≡ full_text b)
        × (spoken u pieces ≡ texts played)
        × (b.finished ≡ true)
        × (slots ≡ max_lookahead)
        × (queue ≡ [])
  at_end b slots queue jobs index dispatched player_done played stopped h
        (queued, over, q, n, (pieces, whole, said, fits), l, i, m, j, (fin, clear), (alone, last)) =
      (
        pieces,
        whole_text (concat pieces) (current_text b) (full_text b) whole clear,
        said
            ∙ ap (λ w. texts (played ++ (w ++ [])) ++ over) alone
            ∙ ap (λ w. texts (played ++ []) ++ w) (no_more over l)
            ∙ append_nil (texts (played ++ []))
            ∙ ap texts (append_nil played),
        fin,
        omega (arith, n, ap length alone),
        q ∙ ap (λ w. map some w ++ []) alone,
      )
  at_end b slots queue jobs index acquiring player_done played stopped h inv = absurd_bool inv.10.1
  at_end b slots queue jobs index waiting player_done played stopped h inv = absurd_bool inv.10.1
  at_end b slots queue jobs index (putting x) player_done played stopped h inv =
      absurd_bool inv.10.1
  at_end b slots queue jobs index raised player_done played stopped h inv = absurd_bool inv.10.1
  at_end b slots queue jobs index d getting played stopped h inv = cc
  at_end b slots queue jobs index d (awaiting job) played stopped h inv = cc

  -- In every turn that events lead to, in any order, the texts that were played are what is spoken of the
  -- text that was fed: the pieces before the place that `pop` has reached, cut off one after the other, are
  -- spoken as the texts played, in their order, then at most three others; the jobs played are numbered
  -- from 0 on, without a gap
  pub turn_steps-plays_in_order :
      (events : List TurnEvent) (t : TtsTurn)
      → turn_steps u o events new_turn ≡ some t
      → (pieces : List String) × (later : List String) × (rest : List ℕ) × (Prim.Native.String.◌++◌
            (concat pieces)
            (current_text t.buffer)
          ≡ full_text t.buffer)
        × (spoken u pieces ≡ texts t.played ++ later)
        × (length later ≤ max_lookahead)
        × (indices t.played ++ rest ≡ numbers t.index)
  turn_steps-plays_in_order events t e =
      let (queued, over, q, n, (pieces, whole, said, fits), l, i, m, j, ending, done) =
        reached-Inv u o events t e in
      let way = flight t.player queued t.dispatcher in
      (
        pieces,
        texts way ++ over,
        indices way,
        whole,
        said
            ∙ ap (λ w. w ++ over) (map-append (λ k. k.text) t.played way)
            ∙ append_assoc (texts t.played) (texts way) over,
        unspoken_le t.player queued t.dispatcher t.slots over n l,
        sym (map-append (λ k. k.index) t.played way) ∙ i,
      )

  -- When `play` has come to the end mark, the turn is finished, all of its slots are back, and the texts that
  -- were played are what is spoken of pieces that make up all the text that was fed, in their order
  pub turn_steps-plays_all :
      (events : List TurnEvent) (t : TtsTurn)
      → turn_steps u o events new_turn ≡ some t
      → t.player ≡ player_done
      → (pieces : List String) × (concat pieces ≡ full_text t.buffer)
        × (spoken u pieces ≡ texts t.played)
        × (t.buffer.finished ≡ true)
        × (t.slots ≡ max_lookahead)
        × (t.queue ≡ [])
  turn_steps-plays_all events t e ended =
      at_end t.buffer t.slots t.queue t.jobs t.index t.dispatcher t.player t.played t.stopped ended
        (reached-Inv u o events t e)

  -- In every turn that events lead to and that is not stopped, the jobs that generate sound or wait to be
  -- played are at most as many as the slots that are not free, so that there are never more than three; never
  -- more than 512 jobs are started
  pub turn_steps-looks_ahead :
      (events : List TurnEvent) (t : TtsTurn)
      → turn_steps u o events new_turn ≡ some t
      → t.stopped ≡ false
      → (length t.jobs + t.slots ≤ max_lookahead) × (t.index ≤ max_segments)
  turn_steps-looks_ahead events t e runs =
      let (queued, over, q, n, said, l, i, m, j, ending, done) = reached-Inv u o events t e in
      (
        omega (
          arith,
          n,
          ap length (j runs),
          length-indices (flight t.player queued t.dispatcher),
          length-flight t.player queued t.dispatcher,
        ),
        m,
      )
