-- ===== src/Ledger/Bytes/Order.antt =====
-- `bytes.Compare` is a strict total order.
use client_sdk.Prelude.{◌≡◌, ◌↔◌, refl, [], ◌∷◌, arith}
use client_sdk.Ledger.Text.{Text}
use client_sdk.Ledger.Bytes.{less, same, greater, compare_bytes}

pub compare_bytes-same : (s t : Text) → compare_bytes s t ≡ same → s ≡ t
compare_bytes-same [] [] e = refl
compare_bytes-same [] (y ∷ ys) e = absurd (cc e)
compare_bytes-same (x ∷ xs) [] e = absurd (cc e)
compare_bytes-same (x ∷ xs) (y ∷ ys) e = ground (arith, compare_bytes-same xs ys)

pub compare_bytes_refl : (s : Text) → compare_bytes s s ≡ same
compare_bytes_refl [] = refl
compare_bytes_refl (x ∷ xs) = ground (arith, compare_bytes_refl xs)

pub compare_bytes-greater :
    (s t : Text) → (compare_bytes s t ≡ greater) ↔ (compare_bytes t s ≡ less)
compare_bytes-greater [] [] = ground arith
compare_bytes-greater [] (y ∷ ys) = ground arith
compare_bytes-greater (x ∷ xs) [] = ground arith
compare_bytes-greater (x ∷ xs) (y ∷ ys) = ground (arith, compare_bytes-greater xs ys)

pub compare_bytes_trans :
    (s t u : Text) → compare_bytes s t ≡ less → compare_bytes t u ≡ less → compare_bytes s u ≡ less
compare_bytes_trans [] t [] p q = absurd (none_below t q)
  where
    none_below : (t : Text) → compare_bytes t [] ≡ less → ⊥
    none_below [] e = cc e
    none_below (y ∷ ys) e = cc e
compare_bytes_trans [] t (z ∷ zs) p q = refl
compare_bytes_trans (x ∷ xs) [] u p q = absurd (cc p)
compare_bytes_trans (x ∷ xs) (y ∷ ys) [] p q = absurd (cc q)
compare_bytes_trans (x ∷ xs) (y ∷ ys) (z ∷ zs) p q = ground (arith, compare_bytes_trans xs ys zs)
