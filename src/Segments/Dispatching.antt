-- ===== src/Segments/Dispatching.antt =====
-- `dispatch` of TTSTurn in core/cluster/tts_turn.py, when it has a slot.
use mathlib.Core.List.{◌++◌, map}
use xiaozhi_desk_robot_serve.Prelude.{
  ℕ, suc, ◌≤◌, ◌<◌, String, ◌≡◌, refl, ap, sym, subst, ◌∙◌, Bool, true, false, Option, none, some,
  List, [], ◌∷◌, arith, Bool-cases, inl, inr, if◌then◌else◌, ltb, str_eq, length, append_nil,
  append_assoc, map-append,
}
use xiaozhi_desk_robot_serve.Segments.{Unicode, Options}
use xiaozhi_desk_robot_serve.Segments.Buffer.{SegmentBuffer, current_text, pop_segment}
use xiaozhi_desk_robot_serve.Segments.Ends.{Cuts, to_list, proper, pop_segment-Popped}
use xiaozhi_desk_robot_serve.Segments.Streams.{Said, Cuts-Said}
use xiaozhi_desk_robot_serve.Segments.Turn.{
  Job, acquiring, waiting, putting, raised, Player, TtsTurn, max_segments, dispatch_text,
}
use xiaozhi_desk_robot_serve.Segments.Lookahead.{
  Finished, busy, flight, texts, indices, numbers, Inv, Kept,
}
use xiaozhi_desk_robot_serve.Segments.Tasks.{Done-any, closing-same}

-- the next job goes behind all others
next-flight :
    (played : List Job) (p : Player) (queued : List Job) (job : Job)
    → played ++ flight p queued (putting (some job))
      ≡ (played ++ flight p queued acquiring) ++ job ∷ []
next-flight played p queued job =
    ap (λ l. played ++ (busy p ++ (l ++ job ∷ []))) (sym (append_nil queued))
    ∙ ap (λ l. played ++ l) (sym (append_assoc (busy p) (queued ++ []) (job ∷ [])))
    ∙ sym (append_assoc played (busy p ++ (queued ++ [])) (job ∷ []))

texts-next :
    (jobs next : List Job) (job : Job) (over : List String)
    → next ≡ jobs ++ job ∷ []
    → length over ≡ 0
    → (texts jobs ++ over) ++ job.text ∷ [] ≡ texts next ++ []
texts-next jobs next job [] e h =
    ap (λ l. l ++ job.text ∷ []) (append_nil (texts jobs))
    ∙ sym (map-append (λ k. k.text) jobs (job ∷ []))
    ∙ ap texts (sym e)
    ∙ sym (append_nil (texts next))
texts-next jobs next job (x ∷ xs) e h = absurd (omega (arith, h))

indices-next :
    (jobs next : List Job) (job : Job) (n : ℕ)
    → next ≡ jobs ++ job ∷ []
    → indices jobs ≡ numbers n
    → job.index ≡ n
    → indices next ≡ numbers (suc n)
indices-next jobs next job n e h k =
    ap indices e
    ∙ map-append (λ j. j.index) jobs (job ∷ [])
    ∙ ap (λ l. l ++ job.index ∷ []) h
    ∙ ap (λ i. numbers n ++ i ∷ []) k

texts-over :
    (outs over : List String) (text : String)
    → length over ≡ 0
    → (outs ++ over) ++ text ∷ [] ≡ outs ++ text ∷ []
texts-over outs [] text h = ap (λ l. l ++ text ∷ []) (append_nil outs)
texts-over outs (x ∷ xs) text h = absurd (omega (arith, h))

-- a job more in flight
indices-flight :
    (p : Player) (queued : List Job) (job : Job)
    → indices (flight p queued (putting (some job)))
      ≡ indices (flight p queued acquiring) ++ job.index ∷ []
indices-flight p queued job =
    ap indices (next-flight [] p queued job)
    ∙ map-append (λ j. j.index) (flight p queued acquiring) (job ∷ [])

below : {m n : ℕ} → ltb m n ≡ true → suc m ≤ n
below h = ground (arith, h)

module _ (u : Unicode) (o : Options) where
  -- `pop` of a turn that has a slot
  abbrev pub Popping : SegmentBuffer → Option (SegmentBuffer × Option String) → Type 0
  Popping b none = Unit
  Popping b (some (c, text)) =
      Cuts u b c (to_list text)
      × (c.finished ≡ b.finished)
      × (b.finished ≡ true → text ≡ none → current_text c ≡ "")
      × (proper u o text ≡ true)

  pub pop_segment-Popping : (b : SegmentBuffer) → Popping b (pop_segment u o b)
  pop_segment-Popping b =
      let (c, text, e, (cuts, same, ends, full)) = pop_segment-Popped u o b in
      subst (λ r. Popping b r) (sym e) (cuts, same, ends, full)

  one_text : (s : String) → proper u o (some s) ≡ true → to_list (some s) ≡ s ∷ []
  one_text s h = elim (Bool-cases (str_eq s "")) [
    | inl empty ↦ ground (arith, h, empty)
    | inr speaks ↦ rw speaks refl
  ]

  -- nothing to speak: the end of the turn, or a pause
  idle-Inv :
      (f : Bool) (c : SegmentBuffer) (slots : ℕ) (queue : List (Option Job)) (jobs : List ℕ)
      (index : ℕ) (p : Player) (played : List Job) (stopped : Bool)
      → (f ≡ true → Finished c)
      → Inv u c slots queue jobs index acquiring p played stopped
      → Inv u c slots queue jobs index (if f then putting none else waiting) p played stopped
  idle-Inv true c slots queue jobs index p played stopped h
        (queued, over, q, n, said, l, i, m, j, e, d) =
      (
        queued,
        over,
        q ∙ ap (λ r. map some queued ++ r) (closing-same p acquiring (putting none) refl),
        n,
        said,
        l,
        i,
        m,
        j,
        h refl,
        Done-any p queued queued acquiring (putting none) d refl,
      )
  idle-Inv false c slots queue jobs index p played stopped h
        (queued, over, q, n, said, l, i, m, j, e, d) =
      (
        queued,
        over,
        q ∙ ap (λ r. map some queued ++ r) (closing-same p acquiring waiting refl),
        n,
        said,
        l,
        i,
        m,
        j,
        tt,
        Done-any p queued queued acquiring waiting d refl,
      )

  pub dispatch_text-Kept :
      (r : Option (SegmentBuffer × Option String)) (t : TtsTurn)
      → Popping t.buffer r
      → 0 < t.slots
      → Inv u t.buffer t.slots t.queue t.jobs t.index acquiring t.player t.played t.stopped
      → Kept u (dispatch_text r t)
  unfolding dispatch_text
  dispatch_text-Kept none t popping h inv = tt
  dispatch_text-Kept (some (c, none)) t (cuts, same, ends, full) h
        (queued, over, q, n, said, l, i, m, j, e, d) =
      idle-Inv c.finished c t.slots t.queue t.jobs t.index t.player t.played t.stopped
        (λ fin. (fin, ends (sym same ∙ fin) refl))
        (
          queued,
          over,
          q,
          n,
          subst (λ w. Said u c w) (append_nil _) (Cuts-Said u t.buffer c _ [] said cuts),
          l,
          i,
          m,
          j,
          e,
          d,
        )
  dispatch_text-Kept (some (c, some text)) t (cuts, same, ends, full) h
        (queued, over, q, n, said, l, i, m, j, e, d) =
      let job : Job = record { index = t.index; text = text } in
      let later : Said u c
          ((texts (t.played ++ flight t.player queued acquiring) ++ over) ++ text ∷ []) =
        Cuts-Said u t.buffer c _ (text ∷ []) said
          (subst (λ w. Cuts u t.buffer c w) (one_text text full) cuts) in
      let behind = next-flight t.played t.player queued job in
      elim (Bool-cases (ltb t.index max_segments)) [
        | inl more ↦ rw more (
          queued,
          [],
          q
              ∙ ap (λ r. map some queued ++ r)
                  (closing-same t.player acquiring (putting (some job)) refl),
          omega (arith, n, h),
          subst (λ w. Said u c w)
              (texts-next (t.played ++ flight t.player queued acquiring) _ job over behind l) later,
          refl,
          indices-next (t.played ++ flight t.player queued acquiring) _ job t.index behind i refl,
          below more,
          λ runs. ap (λ l. l ++ t.index ∷ []) (j runs) ∙ sym (indices-flight t.player queued job),
          tt,
          Done-any t.player queued queued acquiring (putting (some job)) d refl,
        )
        | inr many ↦ rw many (
          queued,
          text ∷ [],
          q ∙ ap (λ r. map some queued ++ r) (closing-same t.player acquiring raised refl),
          omega (arith, n, h),
          subst (λ w. Said u c w) (texts-over _ over text l) later,
          refl,
          i,
          m,
          j,
          tt,
          Done-any t.player queued queued acquiring raised d refl,
        )
      ]
