-- ===== src/Ledger/BucketTree/BucketNodes.antt =====
-- Bucket nodes and the tree of the changed ones: bucket_node.go and bucket_tree_delta.go of
-- core/ledger/statemgmt/buckettree.
use client_sdk.Prelude.{
  ℕ, zero, suc, Bool, true, false, not, ◌&&◌, Option, none, some, List, [], ◌∷◌, ◌++◌, Map, lookup,
  insert, ◌==◌, nat_eq, if◌then◌else◌,
}
use client_sdk.Ledger.Text.{text_eq}
use client_sdk.Ledger.Bytes.{is_nil, not_nil}
use client_sdk.Ledger.BucketTree.{Config, BucketKey, key_equals, get_child_index}
use client_sdk.Ledger.BucketTree.Nodes.{bucket_key_eq}

pub record BucketNode : Type 0 where
  pub bucket_key : BucketKey
  pub children_crypto_hash : List (Option (List ℕ))
  pub children_updated : List Bool
  pub marked_for_deletion : Bool

abbrev pub replicate {ℓ} : {A : Type ℓ} → ℕ → A → List A
replicate zero x = []
replicate (suc n) x = x ∷ replicate n x

unfoldable pub new_bucket_node : Config → BucketKey → BucketNode
new_bucket_node conf key = record {
  bucket_key = key;
  children_crypto_hash = replicate conf.max_grouping_at_each_level none;
  children_updated = replicate conf.max_grouping_at_each_level false;
  marked_for_deletion = false;
}

-- `xs[i] = x`, within the slice.
abbrev pub set_at {ℓ} : {A : Type ℓ} → ℕ → A → List A → List A
set_at i x [] = []
set_at zero x (y ∷ ys) = x ∷ ys
set_at (suc i) x (y ∷ ys) = y ∷ set_at i x ys

-- `none` is the panic on a key that is not a child's.
unfoldable pub set_child_crypto_hash :
    Config → BucketKey → Option (List ℕ) → BucketNode → Option BucketNode
set_child_crypto_hash conf child crypto_hash node =
    elim (get_child_index node.bucket_key child conf) [
      | none ↦ none
      | some i ↦ some (record node {
        children_crypto_hash = set_at i crypto_hash node.children_crypto_hash;
        children_updated = set_at i true node.children_updated;
      })
    ]

-- The loop of `mergeBucketNode` over the slices of one length.
abbrev pub merge_children :
    List Bool → List (Option (List ℕ)) → List (Option (List ℕ)) → List (Option (List ℕ))
merge_children (u ∷ us) (h ∷ hs) (g ∷ gs) =
    (if not u && is_nil h then g else h) ∷ merge_children us hs gs
merge_children us hs gs = hs

unfoldable pub merge_bucket_node : BucketNode → BucketNode → Option BucketNode
merge_bucket_node another node =
    if not (key_equals node.bucket_key another.bucket_key)
    then none
    else some (record node {
      children_crypto_hash =
          merge_children node.children_updated node.children_crypto_hash
            another.children_crypto_hash;
    })

abbrev pub hash_content : List (Option (List ℕ)) → List ℕ
hash_content [] = []
hash_content (none ∷ rest) = hash_content rest
hash_content (some h ∷ rest) = h ++ hash_content rest

abbrev pub count_children : List (Option (List ℕ)) → ℕ
count_children [] = 0
count_children (h ∷ rest) = if not_nil h then suc (count_children rest) else count_children rest

-- The hash of a bucket, and the bucket, which is marked where it has no children.
unfoldable pub compute_bucket_hash : (List ℕ → List ℕ) → BucketNode → Option (List ℕ) × BucketNode
compute_bucket_hash crypto_hash node =
    let content = hash_content node.children_crypto_hash in
    let children = count_children node.children_crypto_hash in
    if children == 0
    then (none, record node { marked_for_deletion = true })
    else if children == 1
    then (some content, node)
    else (some (crypto_hash content), node)

-- `bucketTreeDelta`: the nodes by level and number.
abbrev pub BucketTreeDelta : Type 0
BucketTreeDelta = Map ℕ (Map ℕ BucketNode)

unfoldable pub get_or_create_bucket_node : Config → BucketKey → BucketTreeDelta → BucketNode
get_or_create_bucket_node conf key tree = elim (lookup key.level tree) [
  | none ↦ new_bucket_node conf key
  | some by_number ↦ elim (lookup key.bucket_number by_number) [
    | none ↦ new_bucket_node conf key
    | some node ↦ node
  ]
]

-- A write through the pointer that `getOrCreateBucketNode` returns.
unfoldable pub put_bucket_node : BucketKey → BucketNode → BucketTreeDelta → BucketTreeDelta
put_bucket_node key node tree = elim (lookup key.level tree) [
  | none ↦ insert key.level (insert key.bucket_number node []) tree
  | some by_number ↦ insert key.level (insert key.bucket_number node by_number) tree
]

unfoldable pub nodes_of : Map ℕ BucketNode → List BucketNode
nodes_of [] = []
nodes_of ((number, node) ∷ rest) = node ∷ nodes_of rest

unfoldable pub get_bucket_nodes_at : ℕ → BucketTreeDelta → List BucketNode
get_bucket_nodes_at level tree = elim (lookup level tree) [
  | none ↦ []
  | some by_number ↦ nodes_of by_number
]

-- `none` is the panic on a tree without a root.
unfoldable pub get_root_node : BucketTreeDelta → Option BucketNode
get_root_node tree = elim (get_bucket_nodes_at 0 tree) [ [] ↦ none | node ∷ _ ↦ some node ]
