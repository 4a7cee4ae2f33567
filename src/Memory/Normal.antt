-- ===== src/Memory/Normal.antt =====
-- A text that has been put in order starts with a character that is no white space, unless it is empty.
use Prim.Native.Char.{Char}
use Prim.Native.String.{◌++◌}
use text.Mathlib.TextLemmas.{cons-append}
use xiaozhi_desk_robot_serve.Text.Words.{
  extend, join, keep_unless, not_space, squeeze, starts, strip, strip_end, strip_start, take_chars,
  words,
}
use xiaozhi_desk_robot_serve.Prelude.{
  ℕ, zero, suc, ◌<◌, String, ◌≡◌, ◌⊎◌, inl, inr, refl, Bool, true, false, not, List, [], ◌∷◌, arith,
  All, Bool-cases, str_eq,
}
use xiaozhi_desk_robot_serve.Text.{is_space}
use xiaozhi_desk_robot_serve.Memory.{normalize_content}

not-true : (b : Bool) → not b ≡ true → b ≡ false
not-true true h = cc
not-true false h = refl

module _ (test : Char → Bool) where
  extend-starts :
      (joined : Bool) (c : Char) (ws : List String)
      → test c ≡ true
      → All (λ w. starts test w ≡ true) ws
      → All (λ w. starts test w ≡ true) (extend joined c ws)
  unfolding extend starts
  extend-starts false c ws h a = (h, a)
  extend-starts true c [] h a = (h, tt)
  extend-starts true c (w ∷ ws) h (b, a) = (h, a)

  extend_lem :
      (joined : Bool) (c : Char) (ws : List String)
      → (w : String) × (vs : List String) × (extend joined c ws ≡ w ∷ vs)
  unfolding extend
  extend_lem false c ws = (String.◌∷◌ c String.[], ws, refl)
  extend_lem true c [] = (String.◌∷◌ c String.[], [], refl)
  extend_lem true c (w ∷ ws) = (String.◌∷◌ c w, ws, refl)

  words-starts : (s : String) → All (λ w. starts test w ≡ true) (words test s)
  unfolding words
  words-starts String.[] = tt
  words-starts (String.◌∷◌ c s) = elim (Bool-cases (test c)) [
    | inl h ↦ rw h (extend-starts (starts test s) c (words test s) h (words-starts s))
    | inr h ↦ rw h (words-starts s)
  ]

  starts-append : (s t : String) → starts test s ≡ true → starts test (s ++ t) ≡ true
  unfolding starts
  starts-append String.[] t h = cc
  starts-append (String.◌∷◌ c s) t h = rw (cons-append c s t) h

  join-starts :
      (separator w : String) (ws : List String)
      → starts test w ≡ true
      → starts test (join separator (w ∷ ws)) ≡ true
  unfolding join
  join-starts separator w [] h = h
  join-starts separator w (v ∷ ws) h = starts-append w (separator ++ join separator (v ∷ ws)) h

-- for any notion of white space
module _ (space : Char → Bool) where
  abbrev visible : Char → Bool
  visible c = not (space c)

  keep_unless-starts :
      (c : Char) (s : String) → space c ≡ false → starts visible (keep_unless space c s) ≡ true
  unfolding starts keep_unless
  keep_unless-starts c String.[] h = rw h (rw h refl)
  keep_unless-starts c (String.◌∷◌ d s) h = rw h refl

  strip_end-starts :
      (s : String) → starts visible s ≡ true → starts visible (strip_end space s) ≡ true
  unfolding starts strip_end
  strip_end-starts String.[] h = cc
  strip_end-starts (String.◌∷◌ c s) h =
      keep_unless-starts c (strip_end space s) (not-true (space c) h)

  strip-starts : (s : String) → starts visible s ≡ true → starts visible (strip space s) ≡ true
  unfolding starts strip strip_start
  strip-starts String.[] h = cc
  strip-starts (String.◌∷◌ c s) h = rw (not-true (space c) h) (strip_end-starts (String.◌∷◌ c s) h)

  take_chars-starts :
      (n : ℕ) (s : String)
      → 0 < n
      → starts visible s ≡ true
      → starts visible (take_chars n s) ≡ true
  unfolding starts take_chars
  take_chars-starts zero s p h = absurd (omega arith)
  take_chars-starts (suc n) String.[] p h = h
  take_chars-starts (suc n) (String.◌∷◌ c s) p h = h

  -- what is left of the words of a text, cut after `n` characters
  abbrev ordered : ℕ → List String → String
  ordered n ws = strip_end space (take_chars n (strip space (join " " ws)))

  ordered-starts :
      (n : ℕ) (w : String) (ws : List String)
      → 0 < n
      → starts visible w ≡ true
      → starts visible (ordered n (w ∷ ws)) ≡ true
  ordered-starts n w ws p h = strip_end-starts (take_chars n (strip space (join " " (w ∷ ws)))) (
      take_chars-starts n (strip space (join " " (w ∷ ws))) p
        (strip-starts (join " " (w ∷ ws)) (join-starts visible " " w ws h)))

  ordered-nil : (n : ℕ) → ordered n [] ≡ ""
  unfolding strip strip_start strip_end join take_chars
  ordered-nil zero = refl
  ordered-nil (suc n) = refl

  ordered-words :
      (n : ℕ) (ws : List String)
      → 0 < n
      → All (λ w. starts visible w ≡ true) ws
      → (ordered n ws ≡ "") ⊎ (starts visible (ordered n ws) ≡ true)
  ordered-words n [] p a = inl (ordered-nil n)
  ordered-words n (w ∷ ws) p (h, a) = inr (ordered-starts n w ws p h)

  elim_words :
      (n : ℕ) (ws : List String)
      → 0 < n
      → All (λ w. starts visible w ≡ true) ws
      → (w : String) × (vs : List String) × (ws ≡ w ∷ vs)
      → starts visible (ordered n ws) ≡ true
  elim_words n [] p a (w, vs, e) = cc
  elim_words n (w ∷ ws) p (h, a) e = ordered-starts n w ws p h

  -- a text that starts with a visible character has a word
  ordered-visible :
      (n : ℕ) (s : String)
      → 0 < n
      → starts visible s ≡ true
      → starts visible (ordered n (words visible s)) ≡ true
  unfolding starts words extend
  ordered-visible n String.[] p h = cc
  ordered-visible n (String.◌∷◌ c s) p h = rw h (
      elim_words n (extend (starts visible s) c (words visible s)) p
        (extend-starts visible (starts visible s) c (words visible s) h (words-starts visible s))
        (extend_lem visible (starts visible s) c (words visible s)))

-- A normalized content starts with a character that is no white space, unless it is empty.
pub normalize_content-starts :
    (n : ℕ) (s : String)
    → 0 < n
    → str_eq (normalize_content n s) "" ≡ false
    → starts not_space (normalize_content n s) ≡ true
unfolding normalize_content squeeze
normalize_content-starts n s p h =
    elim (ordered-words is_space n (words not_space s) p (words-starts not_space s)) [
      | inl empty ↦
          (let same : str_eq (ordered is_space n (words not_space s)) "" ≡ true = rw empty refl in
            ground (arith, same, h))
      | inr visible ↦ visible
    ]

-- To normalize it again leaves it so.
pub normalize_content-again :
    (n : ℕ) (s : String)
    → 0 < n
    → starts not_space s ≡ true
    → starts not_space (normalize_content n s) ≡ true
unfolding normalize_content squeeze
normalize_content-again n s p h = ordered-visible is_space n s p h
