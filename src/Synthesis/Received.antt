-- ===== src/Synthesis/Received.antt =====
-- The bytes that `fetch` of core/cluster/tts_client.py has received.
use xiaozhi_desk_robot_serve.Prelude.{
  ℕ, zero, suc, ◌+◌, ◌*◌, ◌≤◌, ◌<◌, ◌≡◌, refl, ap, sym, ◌∙◌, true, false, [], ◌∷◌, ◌++◌, length,
  take, drop, ◌==◌, arith, inl, inr, length-append, append_nil, append_assoc,
}
use xiaozhi_desk_robot_serve.Synthesis.{Bytes, max_pcm_chunk, no_bytes}
use xiaozhi_desk_robot_serve.Synthesis.Chunks.{unequal, Sized}

pub take_rest : (n : ℕ) (xs : Bytes) → take n xs ++ drop (length (take n xs)) xs ≡ xs
take_rest zero xs = refl
take_rest (suc n) [] = refl
take_rest (suc n) (x ∷ xs) = ap (λ l. x ∷ l) (take_rest n xs)

pub drop_nil : (n : ℕ) → drop {A = ℕ} n [] ≡ []
drop_nil zero = refl
drop_nil (suc n) = refl

pub sum_suc : (m n : ℕ) → suc m + n ≡ suc (m + n)
sum_suc m n = omega arith

pub drop-drop : (m n : ℕ) (xs : Bytes) → drop (m + n) xs ≡ drop n (drop m xs)
drop-drop zero n xs = ap (λ k. drop k xs) (omega arith)
drop-drop (suc m) n [] = drop_nil (suc m + n) ∙ sym (drop_nil n)
drop-drop (suc m) n (x ∷ xs) = ap (λ k. drop k (x ∷ xs)) (sum_suc m n) ∙ drop-drop m n xs

-- what was received, with the next chunk, is again what stands before the rest
pub received_next :
    (got xs : Bytes) (n k : ℕ)
    → got ++ drop n xs ≡ xs
    → (got ++ take k (drop n xs)) ++ drop (n + length (take k (drop n xs))) xs ≡ xs
received_next got xs n k e =
    ap (λ l. (got ++ take k (drop n xs)) ++ l) (drop-drop n (length (take k (drop n xs))) xs)
    ∙ append_assoc got (take k (drop n xs)) (drop (length (take k (drop n xs))) (drop n xs))
    ∙ ap (λ l. got ++ l) (take_rest k (drop n xs))
    ∙ e

pub nothing_left : (xs ys zs : Bytes) → xs ++ ys ≡ zs → length xs ≡ length zs → xs ≡ zs
nothing_left xs [] zs e h = sym (append_nil xs) ∙ e
nothing_left xs (y ∷ ys) zs e h = absurd (omega (arith, h, ap length e, length-append xs (y ∷ ys)))

pub enough_polls :
    (m n k ts : ℕ)
    → Sized m n k
    → m ≤ n + suc ts * max_pcm_chunk
    → n < m
    → m ≤ (n + k) + ts * max_pcm_chunk
enough_polls m n k ts (inl (e, l)) h i = omega (arith, e, h)
enough_polls m n k ts (inr (e, l)) h i = omega (arith, e, i)

pub positive : (xs : Bytes) → no_bytes xs ≡ false → 0 < length xs
unfolding no_bytes
positive [] h = unequal (sym h)
positive (x ∷ xs) h = omega arith

pub still_more : (m n k : ℕ) → m ≡ k → k ≤ n → (m == n) ≡ false → k < n
still_more m n k e l h = ground (arith, e, l, h)

pub no_more_left : (m n k : ℕ) → m ≡ k → (m == n) ≡ true → n ≤ k
no_more_left m n k e h = ground (arith, e, h)

pub same_size : (m n : ℕ) → (m == n) ≡ true → m ≡ n
same_size m n h = ground (arith, h)
