-- ===== src/Common/Streams.antt =====
-- Pieces of a list that is read from the front, in blocks that need not end where its parts do.
use Prim.Native.Nat.{ℕ, zero, suc, ◌+◌, ◌≤◌}
use mathlib.Core.Path.{◌≡◌, refl, ap}
use mathlib.Core.List.{List, [], ◌∷◌, ◌++◌}
use native.Mathlib.Omega.{arith}
use zpserver.Common.Lists.{length, take, drop, take-append-drop}

module _ {ℓ} {A : Type ℓ} where
  -- Of two ways to divide a list, the first `k` elements and the rest.
  pub take_common :
      (k : ℕ) (xs ys later tail : List A)
      → xs ++ later ≡ ys ++ tail
      → k ≤ length xs
      → k ≤ length ys
      → (take k xs ≡ take k ys) × (drop k xs ++ later ≡ drop k ys ++ tail)
  take_common zero xs ys later tail e p q = (refl, e)
  take_common (suc k) [] ys later tail e p q = absurd (omega arith)
  take_common (suc k) (x ∷ xs) [] later tail e p q = absurd (omega arith)
  take_common (suc k) (x ∷ xs) (y ∷ ys) later tail e p q =
      let same : (x ≡ y) × (xs ++ later ≡ ys ++ tail) = ground (arith, e) in
      let (t, d) = take_common k xs ys later tail same.1 (omega arith) (omega arith) in
      (rw (same.0, t) refl, d)

  take-plus :
      (n k : ℕ) (xs : List A) → n ≤ length xs → take n xs ++ take k (drop n xs) ≡ take (n + k) xs
  take-plus zero k xs h = ap (λ i. take i xs) (omega arith)
  take-plus (suc n) k [] h = absurd (omega arith)
  take-plus (suc n) k (x ∷ xs) h =
      let next : suc n + k ≡ suc (n + k) = omega arith in
      rw next (ap (λ i. x ∷ i) (take-plus n k xs (omega arith)))

  -- What is held, from `s` on, grows by the next `k` elements.
  pub held-plus :
      (s n k : ℕ) (xs : List A)
      → s ≤ n
      → n ≤ length xs
      → drop s (take n xs) ++ take k (drop n xs) ≡ drop s (take (n + k) xs)
  held-plus zero n k xs s_le h = take-plus n k xs h
  held-plus (suc s) zero k xs s_le h = absurd (omega arith)
  held-plus (suc s) (suc n) k [] s_le h = absurd (omega arith)
  held-plus (suc s) (suc n) k (x ∷ xs) s_le h =
      let next : suc n + k ≡ suc (n + k) = omega arith in
      rw next (held-plus s n k xs (omega arith) (omega arith))

  drop_nil : (k : ℕ) → ◌≡◌ {A = List A} (drop k []) []
  drop_nil zero = refl
  drop_nil (suc k) = refl

  pub drop-plus : (n k : ℕ) (xs : List A) → drop k (drop n xs) ≡ drop (n + k) xs
  drop-plus zero k xs = ap (λ i. drop i xs) (omega arith)
  drop-plus (suc n) k [] = let next : suc n + k ≡ suc (n + k) = omega arith in rw next (drop_nil k)
  drop-plus (suc n) k (x ∷ xs) =
      let next : suc n + k ≡ suc (n + k) = omega arith in rw next (drop-plus n k xs)

  -- What is held from `s` on, and what is to come.
  pub held-append-drop :
      (s n : ℕ) (xs : List A) → s ≤ n → drop s (take n xs) ++ drop n xs ≡ drop s xs
  held-append-drop zero n xs h = take-append-drop n xs
  held-append-drop (suc s) zero xs h = absurd (omega arith)
  held-append-drop (suc s) (suc n) [] h = refl
  held-append-drop (suc s) (suc n) (x ∷ xs) h = held-append-drop s n xs (omega arith)

  pub drop_at_end : (xs : List A) → drop (length xs) xs ≡ []
  drop_at_end [] = refl
  drop_at_end (x ∷ xs) = drop_at_end xs

  pub held_all : (n : ℕ) (xs : List A) → drop n (take n xs) ≡ []
  held_all zero xs = refl
  held_all (suc n) [] = refl
  held_all (suc n) (x ∷ xs) = held_all n xs

  pub take_full : (n : ℕ) (xs : List A) → length xs ≤ n → take n xs ≡ xs
  take_full zero [] h = refl
  take_full zero (x ∷ xs) h = absurd (omega arith)
  take_full (suc n) [] h = refl
  take_full (suc n) (x ∷ xs) h = ap (λ i. x ∷ i) (take_full n xs (omega arith))
