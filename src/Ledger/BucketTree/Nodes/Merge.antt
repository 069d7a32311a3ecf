-- ===== src/Ledger/BucketTree/Nodes/Merge.antt =====
-- The hash of a bucket after changes, and that of its nodes as they are then stored.
use client_sdk.Prelude.{
  ℕ, ◌+◌, ◌≡◌, refl, sym, ap, ◌∙◌, subst, ◌⊎◌, inl, inr, not, Option, none, some, List, [], ◌∷◌,
  arith, keep, length, Bool-cases, All, if◌then◌else◌,
}
use client_sdk.Ledger.Text.{Text}
use client_sdk.Ledger.Bytes.{less, greater, compare_bytes}
use client_sdk.Ledger.Bytes.Order.{compare_bytes-same}
use client_sdk.Ledger.BucketTree.Nodes.{
  DataNode, is_delete_node, merge_nodes, add_nodes, new_bucket_hash_calculator,
  compute_calculator_hash, compute_data_nodes_crypto_hash,
}
use client_sdk.Ledger.BucketTree.Nodes.Sorted.{
  key_of, IsAscending, find_node, compare-cases, find_node-below, IsAscending-ext,
}
use client_sdk.Ledger.BucketTree.Nodes.Taken.{
  newer, find_node-here, find_node-other, find_node-merge_nodes, IsAscending-merge_nodes,
}

abbrev live_nodes : List DataNode → List DataNode
live_nodes = keep (λ n. not (is_delete_node n))

abbrev pub live : Option DataNode → Option DataNode
live none = none
live (some n) = if is_delete_node n then none else some n

All-live_nodes : (P : DataNode → Type 0) (ns : List DataNode) → All P ns → All P (live_nodes ns)
All-live_nodes P [] h = tt
All-live_nodes P (n ∷ rest) h = elim (Bool-cases (is_delete_node n)) [
  | inl gone ↦ rw gone (All-live_nodes P rest h.1)
  | inr kept ↦ rw kept (h.0, All-live_nodes P rest h.1)
]

IsAscending-live_nodes : (ns : List DataNode) → IsAscending ns → IsAscending (live_nodes ns)
IsAscending-live_nodes [] a = tt
IsAscending-live_nodes (n ∷ rest) a = elim (Bool-cases (is_delete_node n)) [
  | inl gone ↦ rw gone (IsAscending-live_nodes rest a.1)
  | inr kept ↦ rw kept (All-live_nodes _ rest a.0, IsAscending-live_nodes rest a.1)
]

-- A node of another key is passed over, deleted or not.
skipped :
    (n : DataNode) (rest : List DataNode) (k : Text)
    → (compare_bytes (key_of n) k ≡ less) ⊎ (compare_bytes (key_of n) k ≡ greater)
    → find_node k (live_nodes rest) ≡ live (find_node k rest)
    → find_node k (live_nodes (n ∷ rest)) ≡ live (find_node k (n ∷ rest))
skipped n rest k other later = elim (Bool-cases (is_delete_node n)) [
  | inr kept ↦
      let head : live_nodes (n ∷ rest) ≡ n ∷ live_nodes rest = rw kept refl in
      ap (find_node k) head
      ∙ find_node-other n (live_nodes rest) k other
      ∙ later
      ∙ sym (ap live (find_node-other n rest k other))
  | inl gone ↦
      let head : live_nodes (n ∷ rest) ≡ live_nodes rest = rw gone refl in
      ap (find_node k) head ∙ later ∙ sym (ap live (find_node-other n rest k other))
]

find_node-live_nodes :
    (ns : List DataNode) (k : Text)
    → IsAscending ns
    → find_node k (live_nodes ns) ≡ live (find_node k ns)
unfolding find_node
find_node-live_nodes [] k a = refl
find_node-live_nodes (n ∷ rest) k a =
    let later = find_node-live_nodes rest k a.1 in
    elim (compare-cases (key_of n) k) [
      | inl lower ↦ skipped n rest k (inl lower) later
      | inr (inr higher) ↦ skipped n rest k (inr higher) later
      | inr (inl here) ↦ elim (Bool-cases (is_delete_node n)) [
        | inr kept ↦
            let head : live_nodes (n ∷ rest) ≡ n ∷ live_nodes rest = rw kept refl in
            ap (find_node k) head
            ∙ find_node-here n (live_nodes rest) k here
            ∙ sym (ap live (find_node-here n rest k here) ∙ rw kept refl)
        | inl gone ↦
            let head : live_nodes (n ∷ rest) ≡ live_nodes rest = rw gone refl in
            let nothing : find_node k rest ≡ none =
              subst (λ j. find_node j rest ≡ none) (compare_bytes-same (key_of n) k here)
                (find_node-below (key_of n) rest a.0) in
            ap (find_node k) head
            ∙ later
            ∙ ap live nothing
            ∙ sym (ap live (find_node-here n rest k here) ∙ rw gone refl)
      ]
    ]

live-live : (o : Option DataNode) → live (live o) ≡ live o
live-live none = refl
live-live (some n) = elim (Bool-cases (is_delete_node n)) [
  | inl gone ↦ rw gone refl
  | inr kept ↦ ground (arith, kept)
]

hash_of : (ℕ → List ℕ) → (List ℕ → List ℕ) → List DataNode → Option (Option (List ℕ))
hash_of encode_varint crypto_hash ns =
    elim (add_nodes encode_varint ns new_bucket_hash_calculator) [
      | none ↦ none
      | some c ↦ some (compute_calculator_hash encode_varint crypto_hash c)
    ]

-- The hash of the lowest-level buckets does not depend on how its nodes come together: the hash
-- over the changes and the stored nodes is the hash of the nodes that are stored once the changes
-- are, which are those that are not deleted, the changed ones first.
pub compute_data_nodes_crypto_hash-stored :
    (encode_varint : ℕ → List ℕ) (crypto_hash : List ℕ → List ℕ)
    (updated existing stored : List DataNode)
    → IsAscending updated
    → IsAscending existing
    → IsAscending stored
    → ((k : Text) → find_node k stored ≡ live (newer (find_node k updated) (find_node k existing)))
    → compute_data_nodes_crypto_hash encode_varint crypto_hash updated existing
      ≡ compute_data_nodes_crypto_hash encode_varint crypto_hash [] stored
unfolding compute_data_nodes_crypto_hash merge_nodes hash_of
compute_data_nodes_crypto_hash-stored encode_varint crypto_hash updated existing stored au ae asc
      h =
    let taken = merge_nodes (length updated + length existing) updated existing in
    let ascending =
      IsAscending-merge_nodes (length updated + length existing) updated existing au ae in
    let one : live_nodes taken ≡ live_nodes stored =
      IsAscending-ext (live_nodes taken) (live_nodes stored)
        (IsAscending-live_nodes taken ascending) (IsAscending-live_nodes stored asc)
        (λ k.
          find_node-live_nodes taken k ascending
          ∙ ap live (
              find_node-merge_nodes (length updated + length existing) updated existing k
                (omega arith) au ae)
          ∙ sym (find_node-live_nodes stored k asc ∙ ap live (h k) ∙ live-live _)) in
    ap (hash_of encode_varint crypto_hash) one
