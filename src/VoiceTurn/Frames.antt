-- ===== src/VoiceTurn/Frames.antt =====
-- The input queue of core/cluster/voice_turn.py: what is kept while the speech worker restarts, and
-- why the queue is always there when a frame comes.
use xiaozhi_desk_robot_serve.Prelude.{
  ℕ, zero, suc, ◌-◌, ◌≤◌, ◌<◌, Bool, ◌≡◌, ◌≢◌, refl, sym, ap, subst, ◌∙◌, true, false, Option, none,
  some, List, [], ◌∷◌, ◌++◌, inl, inr, arith, leb, length, length-append, length-drop, append_nil,
  append_snoc, drop, map, Bool-cases, All,
}
use xiaozhi_desk_robot_serve.VoiceTurn.{
  TurnState, asr_restarting, Frame, audio, end_of_speech, Message, stt_clear, Task, listening,
  given, VoiceTurn, is_running, emit, after, raised, TaskInput, attribute_error,
}
use xiaozhi_desk_robot_serve.VoiceTurn.Control.{
  recovery_audio_frames, max_audio, drain, put_frame, pre_roll, audio_frame, stop,
}
use xiaozhi_desk_robot_serve.VoiceTurn.Invariant.{Served, TaskOk, IsSound, length-drain-le}

-- the last `n` elements
abbrev pub newest {ℓ} : {A : Type ℓ} → ℕ → List A → List A
newest n xs = drop (length xs - n) xs

newest_append : (n : ℕ) (xs ys : List Frame) → newest n (newest n xs ++ ys) ≡ newest n (xs ++ ys)
newest_append n [] ys = ap (λ (k : ℕ). newest n (drop k [] ++ ys)) {x = 0 - n} {y = 0} (omega arith)
newest_append n (x ∷ xs) ys = elim (Bool-cases (leb (suc (length xs)) n)) [
  | inl fits ↦
      let e : length (x ∷ xs) - n ≡ 0 = ground arith in
      ap (λ (k : ℕ). newest n (drop k (x ∷ xs) ++ ys)) e
  | inr over ↦
      let a : length (x ∷ xs) - n ≡ suc (length xs - n) = ground arith in
      let b : length (x ∷ (xs ++ ys)) - n ≡ suc (length (xs ++ ys) - n) =
        ground (arith, length-append xs ys) in
      ap (λ (k : ℕ). newest n (drop k (x ∷ xs) ++ ys)) a
      ∙ newest_append n xs ys
      ∙ sym (ap (λ (k : ℕ). drop k (x ∷ (xs ++ ys))) b)
]

drop_at : (k : ℕ) (xs : List Frame) → k ≡ 0 → drop k xs ≡ xs
drop_at k xs h = ap (λ (j : ℕ). drop j xs) h

drop-append : (k : ℕ) (xs ys : List Frame) → k ≤ length xs → drop k (xs ++ ys) ≡ drop k xs ++ ys
drop-append zero xs ys h = refl
drop-append (suc k) [] ys h = absurd (omega arith)
drop-append (suc k) (x ∷ xs) ys h = drop-append k xs ys (omega arith)

drain-drop : (n : ℕ) (q : List Frame) → 0 < n → drain n q ≡ drop (suc (length q) - n) q
unfolding drain
drain-drop n [] pos = ap (λ (k : ℕ). drop k []) {x = 0} {y = 1 - n} (omega arith)
drain-drop n (f ∷ q) pos = elim (Bool-cases (leb n (length (f ∷ q)))) [
  | inl over ↦
      let e : suc (suc (length q)) - n ≡ suc (suc (length q) - n) = ground arith in
      rw over (drain-drop n q pos ∙ sym (ap (λ (k : ℕ). drop k (f ∷ q)) e))
  | inr fits ↦
      let e : suc (suc (length q)) - n ≡ 0 = ground arith in
      rw fits (sym (ap (λ (k : ℕ). drop k (f ∷ q)) e))
]

-- room is made for one frame, and the queue has the last ten then
drain-newest :
    (q : List Frame) (f : Frame)
    → drain recovery_audio_frames q ++ f ∷ [] ≡ newest recovery_audio_frames (q ++ f ∷ [])
drain-newest q f =
    ap (λ x. x ++ f ∷ []) (drain-drop recovery_audio_frames q (omega arith))
    ∙ sym (drop-append (suc (length q) - recovery_audio_frames) q (f ∷ []) (omega arith))
    ∙ ap (λ (k : ℕ). drop k (q ++ f ∷ [])) {x = suc (length q) - recovery_audio_frames}
        {y = length (q ++ f ∷ []) - recovery_audio_frames} (omega (arith, length-append q (f ∷ [])))

length-newest-le : (n : ℕ) (q : List Frame) → length (newest n q) ≤ n
length-newest-le n q = omega (arith, length-drop (length q - n) q)

-- the bytes of a frame that is let in
abbrev pub IsFrame : List ℕ → Type 0
IsFrame bytes = (0 < length bytes) × (length bytes ≤ max_audio)

audio_frame-restarting :
    (sends : Message → Bool) (bytes : List ℕ) (q : List Frame) (v : VoiceTurn)
    → v.state ≡ asr_restarting
    → is_running v.task ≡ true
    → v.ending ≡ false
    → v.queue ≡ some q
    → length q ≤ recovery_audio_frames
    → IsFrame bytes
    → (audio_frame sends bytes v).0
      ≡ record v { queue = some (newest recovery_audio_frames (q ++ audio bytes ∷ [])) }
unfolding audio_frame put_frame pre_roll
audio_frame-restarting sends bytes q v s r e h le fits =
    ground (arith, drain-newest q (audio bytes), length-drain-le recovery_audio_frames q)

-- one frame after another
unfoldable pub feed : (Message → Bool) → List (List ℕ) → VoiceTurn → VoiceTurn
feed sends [] v = v
feed sends (bytes ∷ frames) v = feed sends frames (audio_frame sends bytes v).0

-- While the speech worker restarts, with a running task, before the end of speech and with at most
-- ten frames in the queue: after any frames of a valid size the queue has the last ten of what it
-- had and of these frames, in order, whichever sends would get through.
pub feed-newest :
    (sends : Message → Bool) (frames : List (List ℕ)) (q : List Frame) (v : VoiceTurn)
    → v.state ≡ asr_restarting
    → is_running v.task ≡ true
    → v.ending ≡ false
    → v.queue ≡ some q
    → length q ≤ recovery_audio_frames
    → All IsFrame frames
    → (feed sends frames v).queue ≡ some (newest recovery_audio_frames (q ++ map audio frames))
unfolding feed
feed-newest sends [] q v s r e h le fits =
    h
    ∙ ap some (
        sym (append_nil q)
        ∙ sym (
            drop_at (length (q ++ []) - recovery_audio_frames) (q ++ [])
              (rw (append_nil q) (omega arith))))
feed-newest sends (bytes ∷ frames) q v s r e h le fits =
    let q' = newest recovery_audio_frames (q ++ audio bytes ∷ []) in
    subst
      (λ x.
        (feed sends frames x).queue
        ≡ some (newest recovery_audio_frames (q ++ audio bytes ∷ map audio frames)))
      (sym (audio_frame-restarting sends bytes q v s r e h le fits.0))
      (feed-newest sends frames q' (record v { queue = some q' }) s r e refl
          (length-newest-le recovery_audio_frames (q ++ audio bytes ∷ [])) fits.1
        ∙ ap some (
            newest_append recovery_audio_frames (q ++ audio bytes ∷ []) (map audio frames)
            ∙ ap (newest recovery_audio_frames) (append_snoc q (audio bytes) (map audio frames))))

Served-none :
    (i : TaskInput) (ending closing : Bool)
    → Served i none ending closing
    → ending ≡ false
    → closing ≡ false
    → ⊥
Served-none (listening mode) ending closing s e c = s
Served-none (given text wake last) ending closing (inl a) e c = absurd (cc)
Served-none (given text wake last) ending closing (inr a) e c = absurd (cc)

-- the queue is there when the guards let a frame through
served_queue :
    (g : ℕ) (q : Option (List Frame)) (ending closing : Bool) (t : Option Task)
    → TaskOk g q ending closing t
    → is_running t ≡ true
    → ending ≡ false
    → closing ≡ false
    → q ≢ none
unfolding is_running
served_queue g q ending closing none k r e c = absurd (cc)
served_queue g none ending closing (some t) k r e c =
    absurd (Served-none t.input ending closing k.1 e c)
served_queue g (some q) ending closing (some t) k r e c = λ h. absurd (cc)

put_frame-served :
    (sends : Message → Bool) (f : Frame) (o : Option (List Frame)) (v : VoiceTurn)
    → o ≢ none
    → (put_frame sends f o v).1 ≢ raised attribute_error
unfolding put_frame emit
put_frame-served sends f none v ne = absurd (ne refl)
put_frame-served sends f (some q) v ne = ground arith

pre_roll-served : (s : TurnState) (o : Option (List Frame)) → o ≢ none → pre_roll s o ≢ none
unfolding pre_roll
pre_roll-served s none ne = absurd (ne refl)
pre_roll-served asr_restarting (some q) ne = λ h. absurd (cc)
pre_roll-served _ (some q) ne = ne

audio_frame-served :
    (sends : Message → Bool) (bytes : List ℕ) (v : VoiceTurn)
    → IsSound v
    → v.idle_closing ≡ false
    → (audio_frame sends bytes v).1 ≢ raised attribute_error
unfolding audio_frame
audio_frame-served sends bytes v i c = ground (
  arith,
  served_queue v.generation v.queue v.ending v.idle_closing v.task i.1,
  pre_roll-served v.state v.queue,
  put_frame-served sends (audio bytes) (pre_roll v.state v.queue) v,
)

stop-served :
    (sends : Message → Bool) (v : VoiceTurn)
    → IsSound v
    → v.idle_closing ≡ false
    → (stop sends v).1 ≢ raised attribute_error
unfolding stop emit after
stop-served sends v i c =
    let x = record v { ending = true; sent = v.sent ++ stt_clear ∷ [] } in
    ground (
      arith,
      served_queue v.generation v.queue v.ending v.idle_closing v.task i.1,
      put_frame-served sends end_of_speech v.queue x,
    )

-- In a state with the invariant that has not expired, neither a frame nor the end of speech meets a
-- missing queue.
pub frames-served :
    (sends : Message → Bool) (bytes : List ℕ) (v : VoiceTurn)
    → IsSound v
    → v.idle_closing ≡ false
    → ((audio_frame sends bytes v).1 ≢ raised attribute_error)
      × ((stop sends v).1 ≢ raised attribute_error)
frames-served sends bytes v i c = (audio_frame-served sends bytes v i c, stop-served sends v i c)
