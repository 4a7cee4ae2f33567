-- ===== src/Segments/Tasks.antt =====
-- The steps of TTSTurn in core/cluster/tts_turn.py.
use mathlib.Core.List.{◌++◌, map}
use xiaozhi_desk_robot_serve.Prelude.{
  ℕ, ◌≡◌, refl, ap, sym, subst, ◌∙◌, true, false, Option, none, some, List, [], ◌∷◌, arith,
  Bool-cases, inl, inr, length, length-append, append_nil, append_snoc, map-append,
}
use xiaozhi_desk_robot_serve.Segments.{Unicode}
use xiaozhi_desk_robot_serve.Segments.Streams.{Said}
use xiaozhi_desk_robot_serve.Segments.Turn.{
  Job, Dispatcher, acquiring, waiting, putting, dispatched, raised, Player, getting, awaiting,
  player_done, TtsTurn, discard_job, put_job, wake_up, get_job, play_segment,
}
use xiaozhi_desk_robot_serve.Segments.Lookahead.{
  end_of, busy, carried, flight, closing, is_dispatched, Done, texts, indices, Inv, Kept,
}

pub absurd_bool {ℓ} : {A : Type ℓ} → false ≡ true → A
absurd_bool h = cc

-- a job that is put into the queue stays in its place
snoc-flight :
    (p : Player) (queued : List Job) (job : Job)
    → flight p (queued ++ job ∷ []) acquiring ≡ flight p queued (putting (some job))
snoc-flight p queued job = ap (λ l. busy p ++ l) (append_nil (queued ++ job ∷ []))

snoc-row :
    (queued : List Job) (job : Job) (queue : List (Option Job))
    → queue ≡ map some queued ++ []
    → queue ++ some job ∷ [] ≡ map some (queued ++ job ∷ []) ++ []
snoc-row queued job queue e =
    ap (λ q. q ++ some job ∷ []) (e ∙ append_nil (map some queued))
    ∙ sym (map-append some queued (job ∷ []))
    ∙ sym (append_nil (map some (queued ++ job ∷ [])))

queue-snoc :
    (p : Player) (queued : List Job) (job : Job) (queue : List (Option Job))
    → queue ≡ map some queued ++ closing p (putting (some job))
    → Done p queued (putting (some job))
    → queue ++ some job ∷ [] ≡ map some (queued ++ job ∷ []) ++ closing p acquiring
queue-snoc getting queued job queue e h = snoc-row queued job queue e
queue-snoc (awaiting now) queued job queue e h = snoc-row queued job queue e
queue-snoc player_done queued job queue e h = absurd_bool h.1

end-row :
    (queued : List Job) (queue : List (Option Job))
    → queue ≡ map some queued ++ []
    → queue ++ none ∷ [] ≡ map some queued ++ none ∷ []
end-row queued queue e = ap (λ q. q ++ none ∷ []) (e ∙ append_nil (map some queued))

queue-end :
    (p : Player) (queued : List Job) (queue : List (Option Job))
    → queue ≡ map some queued ++ closing p (putting none)
    → Done p queued (putting none)
    → queue ++ none ∷ [] ≡ map some queued ++ closing p dispatched
queue-end getting queued queue e h = end-row queued queue e
queue-end (awaiting now) queued queue e h = end-row queued queue e
queue-end player_done queued queue e h = absurd_bool h.1

-- while `dispatch` is not at its end, neither is `play`
pub Done-any :
    (p : Player) (queued rest : List Job) (d e : Dispatcher)
    → Done p queued d
    → is_dispatched d ≡ false
    → Done p rest e
Done-any getting queued rest d e h l = tt
Done-any (awaiting now) queued rest d e h l = tt
Done-any player_done queued rest d e h l = absurd_bool (sym l ∙ h.1)

pub closing-same : (p : Player) (d e : Dispatcher) → end_of d ≡ end_of e → closing p d ≡ closing p e
closing-same getting d e h = h
closing-same (awaiting now) d e h = h
closing-same player_done d e h = refl

-- `play` takes the first job of the queue
first-job :
    (queued : List Job) (d : Dispatcher) (job : Job) (queue : List (Option Job))
    → some job ∷ queue ≡ map some queued ++ end_of d
    → (rest : List Job) × (queued ≡ job ∷ rest) × (queue ≡ map some rest ++ end_of d)
first-job [] dispatched job queue e = cc
first-job [] acquiring job queue e = cc
first-job [] waiting job queue e = cc
first-job [] (putting x) job queue e = cc
first-job [] raised job queue e = cc
first-job (k ∷ ks) d job queue e = (ks, cc, cc)

first-end :
    (queued : List Job) (d : Dispatcher) (queue : List (Option Job))
    → none ∷ queue ≡ map some queued ++ end_of d
    → (queued ≡ []) × (is_dispatched d ≡ true) × (queue ≡ [])
first-end [] dispatched queue e = (refl, refl, cc)
first-end [] acquiring queue e = cc
first-end [] waiting queue e = cc
first-end [] (putting x) queue e = cc
first-end [] raised queue e = cc
first-end (k ∷ ks) d queue e = cc

discard_job-first : (x : ℕ) (xs : List ℕ) → discard_job x (x ∷ xs) ≡ xs
unfolding discard_job
discard_job-first x xs = ground arith

module _ (u : Unicode) where
  pub put_job-Kept :
      (d : Dispatcher) (t : TtsTurn)
      → Inv u t.buffer t.slots t.queue t.jobs t.index d t.player t.played t.stopped
      → Kept u (put_job d t)
  unfolding put_job
  put_job-Kept (putting (some job)) t (queued, over, q, n, said, o, i, m, j, e, d) = (
    queued ++ job ∷ [],
    over,
    queue-snoc t.player queued job t.queue q d,
    omega (arith, n, length-append queued (job ∷ [])),
    subst (λ l. Said u t.buffer (texts (t.played ++ l) ++ over))
        (sym (snoc-flight t.player queued job)) said,
    o,
    ap (λ l. indices (t.played ++ l)) (snoc-flight t.player queued job) ∙ i,
    m,
    λ runs. j runs ∙ ap indices (sym (snoc-flight t.player queued job)),
    tt,
    Done-any t.player queued (queued ++ job ∷ []) (putting (some job)) acquiring d refl,
  )
  put_job-Kept (putting none) t (queued, over, q, n, said, o, i, m, j, e, d) = (
    queued,
    over,
    queue-end t.player queued t.queue q d,
    n,
    said,
    o,
    i,
    m,
    j,
    e,
    Done-any t.player queued queued (putting none) dispatched d refl,
  )
  put_job-Kept acquiring t inv = tt
  put_job-Kept waiting t inv = tt
  put_job-Kept dispatched t inv = tt
  put_job-Kept raised t inv = tt

  pub wake_up-Kept :
      (d : Dispatcher) (t : TtsTurn)
      → Inv u t.buffer t.slots t.queue t.jobs t.index d t.player t.played t.stopped
      → Kept u (wake_up d t)
  unfolding wake_up
  wake_up-Kept waiting t (queued, over, q, n, said, o, i, m, j, e, d) =
      elim (Bool-cases t.changed) [
        | inl changed ↦ rw changed (
          queued,
          over,
          q ∙ ap (λ l. map some queued ++ l) (closing-same t.player waiting acquiring refl),
          n,
          said,
          o,
          i,
          m,
          j,
          e,
          Done-any t.player queued queued waiting acquiring d refl,
        )
        | inr same ↦ rw same tt
      ]
  wake_up-Kept acquiring t inv = tt
  wake_up-Kept (putting x) t inv = tt
  wake_up-Kept dispatched t inv = tt
  wake_up-Kept raised t inv = tt

  pub get_job-Kept :
      (p : Player) (queue : List (Option Job)) (t : TtsTurn)
      → Inv u t.buffer t.slots queue t.jobs t.index t.dispatcher p t.played t.stopped
      → Kept u (get_job p queue t)
  unfolding get_job
  get_job-Kept getting [] t inv = tt
  get_job-Kept getting (none ∷ queue) t (queued, over, q, n, said, o, i, m, j, e, d) =
      let (alone, ended, clear) = first-end queued t.dispatcher queue q in
      (
        queued,
        over,
        clear ∙ sym (ap (λ l. map some l ++ []) alone),
        n,
        said,
        o,
        i,
        m,
        j,
        e,
        (alone, ended),
      )
  get_job-Kept getting (some job ∷ queue) t (queued, over, q, n, said, o, i, m, j, e, d) =
      let (rest, first, row) = first-job queued t.dispatcher job queue q in
      let same : queued ++ carried t.dispatcher ≡ job ∷ (rest ++ carried t.dispatcher) =
        ap (λ l. l ++ carried t.dispatcher) first in
      (
        rest,
        over,
        row,
        omega (arith, n, ap length first),
        subst (λ l. Said u t.buffer (texts (t.played ++ l) ++ over)) same said,
        o,
        ap (λ l. indices (t.played ++ l)) (sym same) ∙ i,
        m,
        λ runs. j runs ∙ ap indices same,
        e,
        tt,
      )
  get_job-Kept (awaiting job) queue t inv = tt
  get_job-Kept player_done queue t inv = tt

  pub play_segment-Kept :
      (p : Player) (t : TtsTurn)
      → Inv u t.buffer t.slots t.queue t.jobs t.index t.dispatcher p t.played t.stopped
      → Kept u (play_segment p t)
  unfolding play_segment
  play_segment-Kept (awaiting job) t (queued, over, q, n, said, o, i, m, j, e, d) =
      let rest = queued ++ carried t.dispatcher in
      let moved : (t.played ++ job ∷ []) ++ rest ≡ t.played ++ job ∷ rest =
        append_snoc t.played job rest in
      (
        queued,
        over,
        q,
        omega (arith, n),
        subst (λ l. Said u t.buffer (texts l ++ over)) (sym moved) said,
        o,
        ap indices moved ∙ i,
        m,
        λ runs. ap (discard_job job.index) (j runs) ∙ discard_job-first job.index (indices rest),
        e,
        tt,
      )
  play_segment-Kept getting t inv = tt
  play_segment-Kept player_done t inv = tt
