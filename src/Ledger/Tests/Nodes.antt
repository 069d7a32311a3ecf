-- ===== src/Ledger/Tests/Nodes.antt =====
-- Nodes of a bucket, and the hash of a tree of one bucket below the root, with the content as hash.
use client_sdk.Prelude.{
  ℕ, ◌≡◌, refl, true, false, Option, none, some, List, [], ◌∷◌, length, arith, lookup, insert,
}
use client_sdk.Ledger.Text.{Text}
use client_sdk.Ledger.Bytes.{
  construct_composite_key, decode_composite_key, decode_composite_key-construct,
}
use client_sdk.Ledger.State.{ok}
use client_sdk.Ledger.BucketTree.{
  Config, BucketKey, get_num_buckets, new_bucket_key, get_parent_key, get_child_index, key_equals,
  compute_parent_bucket_number,
}
use client_sdk.Ledger.BucketTree.Nodes.{
  DataNode, is_delete_node, get_key_elements, append_size_and_data, append_nodes,
  append_current_chaincode_data, add_next_node, add_nodes, compute_calculator_hash, merge_nodes,
  compute_data_nodes_crypto_hash,
}
use client_sdk.Ledger.BucketTree.Nodes.Sorted
use client_sdk.Ledger.BucketTree.Nodes.Taken
use client_sdk.Ledger.BucketTree.Nodes.Merge
use client_sdk.Ledger.BucketTree.Tree.{
  StateImpl, Store, set_in_parent, process_data_nodes, merge_stored, process_nodes, process_levels,
  process_bucket_tree_delta, process_deltas, compute_root_node_crypto_hash, compute_crypto_hash,
}
use client_sdk.Ledger.BucketTree.BucketNodes.{
  BucketNode, new_bucket_node, set_child_crypto_hash, merge_bucket_node, compute_bucket_hash,
  get_or_create_bucket_node, put_bucket_node, nodes_of, get_bucket_nodes_at, get_root_node,
}
use client_sdk.Ledger.BucketTree.Tree.Hashes

unfoldable program : Unit {0}
unfolding construct_composite_key decode_composite_key is_delete_node get_key_elements
    append_size_and_data append_nodes append_current_chaincode_data add_next_node add_nodes
    compute_calculator_hash merge_nodes compute_data_nodes_crypto_hash get_num_buckets
    new_bucket_key get_parent_key get_child_index key_equals compute_parent_bucket_number
    new_bucket_node set_child_crypto_hash merge_bucket_node compute_bucket_hash
    get_or_create_bucket_node put_bucket_node nodes_of get_bucket_nodes_at get_root_node
    set_in_parent process_data_nodes merge_stored process_nodes process_levels
    process_bucket_tree_delta process_deltas compute_root_node_crypto_hash compute_crypto_hash
    lookup insert
program = tt

decode_composite_key-construct_example :
    decode_composite_key (construct_composite_key (99 ∷ 99 ∷ []) (107 ∷ []))
    ≡ some (99 ∷ 99 ∷ [], 107 ∷ [])
decode_composite_key-construct_example =
    decode_composite_key-construct (99 ∷ 99 ∷ []) (107 ∷ []) (omega arith, (omega arith, tt))

abbrev conf : Config
conf = record { max_grouping_at_each_level = 2; lowest_level = 1; levels = 1 ∷ 2 ∷ [] }

abbrev pub root : BucketKey
root = record { level = 0; bucket_number = 1 }

abbrev pub bucket : BucketKey
bucket = record { level = 1; bucket_number = 2 }

-- The key `key` of the chaincode "c".
abbrev node : ℕ → Option (List ℕ) → DataNode
node key value = record {
  data_key = record { bucket_key = bucket; composite_key = 99 ∷ 0 ∷ key ∷ [] };
  value = value;
}

abbrev size_byte : ℕ → List ℕ
size_byte n = n ∷ []

abbrev updated : List DataNode
updated = node 1 (some (7 ∷ [])) ∷ node 3 none ∷ []

abbrev existing : List DataNode
existing = node 1 (some (8 ∷ [])) ∷ node 3 (some (9 ∷ [])) ∷ []

abbrev stored : List DataNode
stored = node 1 (some (7 ∷ [])) ∷ []

hashes :
    compute_data_nodes_crypto_hash size_byte (λ bytes. bytes) updated existing
    ≡ some (some (1 ∷ 99 ∷ 1 ∷ 1 ∷ 1 ∷ 1 ∷ 7 ∷ []))
unfolding program
hashes = refl

stores :
    (k : Text)
    → Sorted.find_node k stored
      ≡ Merge.live (Taken.newer (Sorted.find_node k updated) (Sorted.find_node k existing))
unfolding program Sorted.find_node
stores k = ground arith

compute_data_nodes_crypto_hash-stored_example :
    compute_data_nodes_crypto_hash size_byte (λ bytes. bytes) updated existing
    ≡ compute_data_nodes_crypto_hash size_byte (λ bytes. bytes) [] stored
unfolding program Sorted.find_node
compute_data_nodes_crypto_hash-stored_example =
    Merge.compute_data_nodes_crypto_hash-stored size_byte (λ bytes. bytes) updated existing stored
      ((refl, tt), (tt, tt)) ((refl, tt), (tt, tt)) (tt, tt) stores

-- What the database has of the root.
abbrev pub stored_root : BucketNode
stored_root = record {
  bucket_key = root;
  children_crypto_hash = some (5 ∷ []) ∷ some (6 ∷ []) ∷ [];
  children_updated = false ∷ false ∷ [];
  marked_for_deletion = false;
}

abbrev db : Store
db = record {
  conf = conf;
  hash = length;
  encode_varint = size_byte;
  crypto_hash = λ bytes. bytes;
  fetch_data_nodes_for = λ key. ok existing;
  get_bucket_node = λ key. ok (some stored_root);
}

abbrev working : StateImpl
working = record {
  data_nodes_delta = some ((bucket, updated) ∷ []);
  bucket_tree_delta = some [];
  persisted_state_hash = none;
  last_computed_crypto_hash = none;
  recompute_crypto_hash = true;
}

abbrev computed : StateImpl
computed = (compute_crypto_hash db working).1

compute_crypto_hash-again_example :
    compute_crypto_hash db computed ≡ (ok (some (5 ∷ 1 ∷ 99 ∷ 1 ∷ 1 ∷ 1 ∷ 1 ∷ 7 ∷ [])), computed)
unfolding program
compute_crypto_hash-again_example = Hashes.compute_crypto_hash-again db working computed _ refl

-- The node of the root, with what `setChildCryptoHash` and `mergeBucketNode` make of it.
abbrev fresh : BucketNode
fresh = record {
  bucket_key = root;
  children_crypto_hash = none ∷ none ∷ [];
  children_updated = false ∷ false ∷ [];
  marked_for_deletion = false;
}

abbrev updated_root : BucketNode
updated_root = record fresh { children_updated = false ∷ true ∷ [] }

abbrev merged_root : BucketNode
merged_root = record updated_root { children_crypto_hash = some (5 ∷ []) ∷ none ∷ [] }

merge_bucket_node-set_child_crypto_hash_example :
    (Hashes.child_at 1 merged_root.children_crypto_hash ≡ some none)
    × (Hashes.child_at 0 merged_root.children_crypto_hash
        ≡ Hashes.child_at 0 stored_root.children_crypto_hash)
unfolding program
merge_bucket_node-set_child_crypto_hash_example =
    Hashes.merge_bucket_node-set_child_crypto_hash conf bucket 1 0 none fresh stored_root
      stored_root merged_root updated_root refl (omega arith) (omega arith) (omega arith) refl refl
      refl
