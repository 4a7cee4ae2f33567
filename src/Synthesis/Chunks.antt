-- ===== src/Synthesis/Chunks.antt =====
-- The numbers and the tests of the contract of core/cluster/tts_protocol.py.
use xiaozhi_desk_robot_serve.Prelude.{
  ℕ, suc, ◌+◌, ◌-◌, ◌≤◌, ◌<◌, String, ◌≡◌, ◌⊎◌, refl, ap, sym, ◌∙◌, Bool, true, false, not, ◌&&◌,
  ◌||◌, [], ◌∷◌, length, take, drop, ltb, leb, ◌==◌, str_eq, if◌then◌else◌, arith, inl, inr,
  length-drop,
}
use xiaozhi_desk_robot_serve.Text.{elem}
use xiaozhi_desk_robot_serve.Synthesis.{Bytes, max_pcm_chunk, error_codes, is_even}

pub length-take :
    (n : ℕ) (xs : Bytes)
    → ((length (take n xs) ≡ n) × (n ≤ length xs))
      ⊎ ((length (take n xs) ≡ length xs) × (length xs ≤ n))
length-take ℕ.zero xs = inl (refl, omega arith)
length-take (suc n) [] = inr (refl, omega arith)
length-take (suc n) (x ∷ xs) = elim (length-take n xs) [
  | inl (e, l) ↦ inl (ap suc e, omega (arith, l))
  | inr (e, l) ↦ inr (ap suc e, omega (arith, l))
]

-- the size `k` of a chunk from `n` on of `m` bytes
abbrev pub Sized : ℕ → ℕ → ℕ → Type 0
Sized m n k =
    ((k ≡ max_pcm_chunk) × (max_pcm_chunk ≤ m - n)) ⊎ ((k ≡ m - n) × (m - n ≤ max_pcm_chunk))

pub chunk-Sized :
    (n : ℕ) (xs : Bytes) → Sized (length xs) n (length (take max_pcm_chunk (drop n xs)))
chunk-Sized n xs = elim (length-take max_pcm_chunk (drop n xs)) [
  | inl (e, l) ↦ inl (e, omega (arith, l, length-drop n xs))
  | inr (e, l) ↦ inr (e ∙ length-drop n xs, omega (arith, l, length-drop n xs))
]

-- a chunk of an even number of bytes at an even place
pub chunk_even :
    (m n k : ℕ)
    → is_even m ≡ true
    → is_even n ≡ true
    → n ≤ m
    → Sized m n k
    → (is_even k ≡ true) × (is_even (n + k) ≡ true)
unfolding is_even
chunk_even m n k hm hn l (inl (e, d)) = (ground (arith, hm, hn, l, e), ground (arith, hm, hn, l, e))
chunk_even m n k hm hn l (inr (e, d)) = (ground (arith, hm, hn, l, e), ground (arith, hm, hn, l, e))

pub chunk_bounds :
    (m n k : ℕ) → n < m → Sized m n k → (0 < k) × (k ≤ max_pcm_chunk) × (n + k ≤ m) × (k ≤ m - n)
chunk_bounds m n k l (inl (e, d)) = (omega arith, omega arith, omega arith, omega arith)
chunk_bounds m n k l (inr (e, d)) = (omega arith, omega arith, omega arith, omega arith)

pub and : {a b : Bool} → a ≡ true → b ≡ true → (a && b) ≡ true
and {a} {b} h k = ground (arith, h, k)

pub leb-true : {m n : ℕ} → m ≤ n → leb m n ≡ true
leb-true h = ground (arith, h)

pub ltb-true : {m n : ℕ} → m < n → ltb m n ≡ true
ltb-true h = ground (arith, h)

pub eq_self : (n : ℕ) → (n == n) ≡ true
eq_self n = ground arith

pub same_offset : (a b c : ℕ) → (not (a == b) || leb c b) ≡ false → a ≡ b
same_offset a b c h = ground (arith, h)

pub before_end : (a b c : ℕ) → (not (a == b) || leb c b) ≡ false → b < c
before_end a b c h = ground (arith, h)

pub branch {ℓ κ} :
    {A : Type ℓ}
    → (P : A → Type κ) → (b : Bool) (x y : A) → (b ≡ true → P x)
    → (b ≡ false → P y)
    → P (if b then x else y)
branch P true x y f g = f refl
branch P false x y f g = g refl

pub unequal {ℓ} : {A : Type ℓ} → false ≡ true → A
unequal e = cc

pub known_error :
    (code : String)
    → (code ≡ "") ⊎ (code ≡ "tts_provider_failed")
    → not (str_eq code "") ≡ true
    → elem code error_codes ≡ true
unfolding elem
known_error code (inl e) h = unequal (ap (λ c. not (str_eq c "")) (sym e) ∙ h)
known_error code (inr e) h = ap (λ c. elem c error_codes) e
