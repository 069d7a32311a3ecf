-- ===== src/Pbft/Quorum/Intersection.antt =====
-- Counting replicas: two quorums of `intersectionQuorum` replicas share a correct one.
use client_sdk.Prelude.{
  ℕ, zero, suc, ◌+◌, ◌/◌, ◌≤◌, ◌<◌, ◌≡◌, ◌⊎◌, inl, inr, Bool, true, false, List, [], ◌∷◌, ◌++◌,
  arith, refl, ap, sym, ◌∙◌, not, ◌&&◌, ◌||◌, nat_eq, ◌==◌, any, length, All, Bool-cases,
  if◌then◌else◌,
}
use native.Mathlib.Decide.{dec_lt}

abbrev pub mem : ℕ → List ℕ → Bool
mem k xs = any (λ x. x == k) xs

-- No replica stands in the list twice.
abbrev pub Distinct : List ℕ → Type 0
Distinct [] = Unit
Distinct (x ∷ xs) = (mem x xs ≡ false) × Distinct xs

mem-append_false :
    (k x : ℕ) (xs : List ℕ) → mem k xs ≡ false → (x == k) ≡ false → mem k (xs ++ x ∷ []) ≡ false
mem-append_false k x [] h e = ground arith
mem-append_false k x (y ∷ xs) h e = ground (arith, mem-append_false k x xs)

pub Distinct-append :
    (x : ℕ) (xs : List ℕ) → mem x xs ≡ false → Distinct xs → Distinct (xs ++ x ∷ [])
Distinct-append x [] h d = (refl, tt)
Distinct-append x (y ∷ xs) h d =
    (mem-append_false y x xs d.0 (ground arith), Distinct-append x xs (ground arith) d.1)

-- How many numbers below a bound pass the test.
unfoldable pub count_below : (ℕ → Bool) → ℕ → ℕ
count_below p zero = 0
count_below p (suc n) = if p n then suc (count_below p n) else count_below p n

module _ (x : ℕ) (q : ℕ → Bool) where
  count_below-or_of_le : (n : ℕ) → n ≤ x → count_below (λ k. (x == k) || q k) n ≡ count_below q n
  unfolding count_below
  count_below-or_of_le zero h = refl
  count_below-or_of_le (suc n) h = ground (arith, count_below-or_of_le n)

  count_below-or :
      (n : ℕ) → x < n → q x ≡ false → count_below (λ k. (x == k) || q k) n ≡ suc (count_below q n)
  unfolding count_below
  count_below-or zero h e = elim h [ ]
  count_below-or (suc n) h e = elim (dec_lt x n) [
    | yes below ↦ ground (arith, count_below-or n)
    | no last ↦ let same : n ≡ x = omega arith in ground (arith, ap q same, count_below-or_of_le n)
  ]

-- Distinct numbers below a bound are no more than the numbers below it that they name.
length-eq-count_below :
    (n : ℕ) (xs : List ℕ)
    → Distinct xs
    → All (λ x. x < n) xs
    → length xs ≡ count_below (λ k. mem k xs) n
unfolding count_below
length-eq-count_below zero [] d b = refl
length-eq-count_below (suc n) [] d b = length-eq-count_below n [] tt tt
length-eq-count_below n (x ∷ xs) d b =
    ap suc (length-eq-count_below n xs d.1 b.1) ∙ sym (count_below-or x (λ k. mem k xs) n b.0 d.0)

-- A number that passes two tests and fails a third.
abbrev pub Shared : (p q bad : ℕ → Bool) → ℕ → Type 0
Shared p q bad n = (k : ℕ) × (k < n) × (p k ≡ true) × (q k ≡ true) × (bad k ≡ false)

module _ (p q bad : ℕ → Bool) where
  Shared-suc : (n : ℕ) → Shared p q bad n → Shared p q bad (suc n)
  Shared-suc n (k, lt, hp, hq, hb) = (k, omega arith, hp, hq, hb)

  Shared-or_few :
      (n : ℕ) → Shared p q bad n ⊎ (count_below p n + count_below q n ≤ n + count_below bad n)
  unfolding count_below
  Shared-or_few zero = inr (omega arith)
  Shared-or_few (suc n) = elim (Shared-or_few n) [
    | inl found ↦ inl (Shared-suc n found)
    | inr few ↦ elim (Bool-cases (p n && q n && not (bad n))) [
      | inl here ↦ inl (n, omega arith, ground arith, ground arith, ground arith)
      | inr not_here ↦ inr (ground arith)
    ]
  ]

-- Two sets of `(N + f + 2) / 2` distinct replicas, out of `N` of which at most `f` are faulty, have
-- a replica in common that is not faulty.
pub quorum_intersection :
    (n f : ℕ) (bad : ℕ → Bool) (xs ys : List ℕ)
    → count_below bad n ≤ f
    → Distinct xs
    → Distinct ys
    → All (λ x. x < n) xs
    → All (λ y. y < n) ys
    → (n + f + 2) / 2 ≤ length xs
    → (n + f + 2) / 2 ≤ length ys
    → Shared (λ k. mem k xs) (λ k. mem k ys) bad n
quorum_intersection n f bad xs ys few dx dy bx by qx qy =
    elim (Shared-or_few (λ k. mem k xs) (λ k. mem k ys) bad n) [
      | inl found ↦ found
      | inr h ↦
          absurd (omega (arith, length-eq-count_below n xs dx bx, length-eq-count_below n ys dy by))
    ]
