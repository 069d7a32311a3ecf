-- ===== src/Ledger/BucketTree/Tree/Hashes.antt =====
-- The hashes of children in a bucket node, and the hash that the state keeps.
use client_sdk.Prelude.{
  ℕ, zero, suc, ◌<◌, ◌≡◌, refl, sym, ap, ◌∙◌, ◌≢◌, Bool, true, Option, none, some, List, [], ◌∷◌,
  length, arith,
}
use mathlib.Core.Option.{some-injective}
use client_sdk.Ledger.State.{ok}
use client_sdk.Ledger.BucketTree.{Config, BucketKey, get_child_index}
use client_sdk.Ledger.BucketTree.Tree.{
  StateImpl, Store, compute_crypto_hash, compute_root_node_crypto_hash,
}
use client_sdk.Ledger.BucketTree.BucketNodes.{
  BucketNode, set_at, set_child_crypto_hash, merge_children, merge_bucket_node,
}

abbrev pub child_at {ℓ} : {A : Type ℓ} → ℕ → List A → Option A
child_at i [] = none
child_at zero (x ∷ xs) = some x
child_at (suc i) (x ∷ xs) = child_at i xs

child_at-set_at :
    (i : ℕ) (h : Option (List ℕ)) (hs : List (Option (List ℕ)))
    → i < length hs
    → child_at i (set_at i h hs) ≡ some h
child_at-set_at i h [] i<hs = ground arith
child_at-set_at zero h (k ∷ hs) i<hs = refl
child_at-set_at (suc i) h (k ∷ hs) i<hs = child_at-set_at i h hs (omega arith)

child_at-set_at_other :
    (i j : ℕ) (h : Option (List ℕ)) (hs : List (Option (List ℕ)))
    → i ≢ j
    → child_at j (set_at i h hs) ≡ child_at j hs
child_at-set_at_other i j h [] i≢j = refl
child_at-set_at_other zero zero h (k ∷ hs) i≢j = ground (arith, i≢j refl)
child_at-set_at_other zero (suc j) h (k ∷ hs) i≢j = refl
child_at-set_at_other (suc i) zero h (k ∷ hs) i≢j = refl
child_at-set_at_other (suc i) (suc j) h (k ∷ hs) i≢j =
    child_at-set_at_other i j h hs (λ e. i≢j (ap suc e))

merge_children-here :
    (i : ℕ) (us : List Bool) (h : Option (List ℕ)) (hs gs : List (Option (List ℕ)))
    → i < length us
    → i < length hs
    → child_at i (merge_children (set_at i true us) (set_at i h hs) gs) ≡ some h
merge_children-here i [] h hs gs i<us i<hs = ground arith
merge_children-here i (u ∷ us) h [] gs i<us i<hs = ground arith
merge_children-here zero (u ∷ us) h (k ∷ hs) [] i<us i<hs = refl
merge_children-here zero (u ∷ us) h (k ∷ hs) (g ∷ gs) i<us i<hs = refl
merge_children-here (suc i) (u ∷ us) h (k ∷ hs) [] i<us i<hs = child_at-set_at i h hs (omega arith)
merge_children-here (suc i) (u ∷ us) h (k ∷ hs) (g ∷ gs) i<us i<hs =
    merge_children-here i us h hs gs (omega arith) (omega arith)

merge_children-there :
    (i j : ℕ) (us : List Bool) (h : Option (List ℕ)) (hs gs : List (Option (List ℕ)))
    → i ≢ j
    → child_at j (merge_children (set_at i true us) (set_at i h hs) gs)
      ≡ child_at j (merge_children us hs gs)
merge_children-there i j [] h hs gs i≢j = child_at-set_at_other i j h hs i≢j
merge_children-there zero j (u ∷ us) h [] gs i≢j = refl
merge_children-there (suc i) j (u ∷ us) h [] gs i≢j = refl
merge_children-there zero j (u ∷ us) h (k ∷ hs) [] i≢j = child_at-set_at_other zero j h (k ∷ hs) i≢j
merge_children-there (suc i) j (u ∷ us) h (k ∷ hs) [] i≢j =
    child_at-set_at_other (suc i) j h (k ∷ hs) i≢j
merge_children-there zero zero (u ∷ us) h (k ∷ hs) (g ∷ gs) i≢j = ground (arith, i≢j refl)
merge_children-there zero (suc j) (u ∷ us) h (k ∷ hs) (g ∷ gs) i≢j = refl
merge_children-there (suc i) zero (u ∷ us) h (k ∷ hs) (g ∷ gs) i≢j = refl
merge_children-there (suc i) (suc j) (u ∷ us) h (k ∷ hs) (g ∷ gs) i≢j =
    merge_children-there i j us h hs gs (λ e. i≢j (ap suc e))

-- What a merge that returns leaves of the children.
hashes-merge_bucket_node :
    (another node merged : BucketNode)
    → merge_bucket_node another node ≡ some merged
    → merged.children_crypto_hash
      ≡ merge_children node.children_updated node.children_crypto_hash another.children_crypto_hash
unfolding merge_bucket_node
hashes-merge_bucket_node another node merged e = ground (arith, e)

set_child_crypto_hash-here :
    (conf : Config) (child : BucketKey) (i : ℕ) (h : Option (List ℕ)) (node : BucketNode)
    → get_child_index node.bucket_key child conf ≡ some i
    → set_child_crypto_hash conf child h node
      ≡ some (record node {
        children_crypto_hash = set_at i h node.children_crypto_hash;
        children_updated = set_at i true node.children_updated;
      })
unfolding set_child_crypto_hash
set_child_crypto_hash-here conf child i h node e = ground (arith, e)

-- A child's hash that is set, nil included, is the one that the bucket node has after it takes over
-- what the stored node has, whatever that holds for the child; the other children have what they
-- would have without it.
pub merge_bucket_node-set_child_crypto_hash :
    (conf : Config) (child : BucketKey) (i j : ℕ) (h : Option (List ℕ))
    (node stored before after updated : BucketNode)
    → get_child_index node.bucket_key child conf ≡ some i
    → i < length node.children_updated
    → i < length node.children_crypto_hash
    → i ≢ j
    → merge_bucket_node stored node ≡ some before
    → set_child_crypto_hash conf child h node ≡ some updated
    → merge_bucket_node stored updated ≡ some after
    → (child_at i after.children_crypto_hash ≡ some h)
      × (child_at j after.children_crypto_hash ≡ child_at j before.children_crypto_hash)
merge_bucket_node-set_child_crypto_hash conf child i j h node stored before after updated at i<us
      i<hs i≢j merged set merged' =
    let us = node.children_updated in
    let hs = node.children_crypto_hash in
    let gs = stored.children_crypto_hash in
    let setting =
      some-injective _ _ (sym set ∙ set_child_crypto_hash-here conf child i h node at) in
    let hashes : after.children_crypto_hash ≡ merge_children (set_at i true us) (set_at i h hs) gs =
      hashes-merge_bucket_node stored updated after merged'
      ∙ ap (λ (n : BucketNode). merge_children n.children_updated n.children_crypto_hash gs)
          setting in
    (
      ap (child_at i) hashes ∙ merge_children-here i us h hs gs i<us i<hs,
      ap (child_at j) hashes
          ∙ merge_children-there i j us h hs gs i≢j
          ∙ sym (ap (child_at j) (hashes-merge_bucket_node stored node before merged)),
    )

-- After ComputeCryptoHash returns a hash, further calls return that hash and change nothing.
pub compute_crypto_hash-again :
    (db : Store) (s s' : StateImpl) (h : Option (List ℕ))
    → compute_crypto_hash db s ≡ (ok h, s')
    → compute_crypto_hash db s' ≡ (ok h, s')
unfolding compute_crypto_hash compute_root_node_crypto_hash
compute_crypto_hash-again db s s' h e = ground (arith, e)
