-- ===== src/Ledger/BucketTree/Tree.antt =====
-- The working set and the hash of the root: state_impl.go of core/ledger/statemgmt/buckettree.
-- What it reads of the database and its cache is a record.
pub mod Hashes
use client_sdk.Prelude.{
  ℕ, zero, suc, ◌+◌, ◌-◌, Bool, true, false, not, ◌&&◌, ◌||◌, Option, none, some, List, [], ◌∷◌,
  ◌++◌, length, Map, keys, lookup, insert, delete, ◌==◌, nat_eq, if◌then◌else◌,
}
use client_sdk.Ledger.Text.{Text, text_eq}
use client_sdk.Ledger.Bytes.{is_nil, not_nil}
use client_sdk.Ledger.Delta.{StateDelta, is_empty}
use client_sdk.Ledger.State.{Result, ok, failed, panicked}
use client_sdk.Ledger.BucketTree.{Config, BucketKey, key_equals, get_child_index, get_parent_key}
use client_sdk.Ledger.BucketTree.Nodes.{
  DataNode, is_delete_node, bucket_key_eq, compute_data_nodes_crypto_hash, new_data_nodes_delta,
}
use client_sdk.Ledger.BucketTree.BucketNodes.{
  BucketNode, set_child_crypto_hash, merge_bucket_node, compute_bucket_hash, BucketTreeDelta,
  get_or_create_bucket_node, put_bucket_node, get_bucket_nodes_at, get_root_node,
}

pub record StateImpl : Type 0 where
  pub data_nodes_delta : Option (Map BucketKey (List DataNode))
  pub bucket_tree_delta : Option BucketTreeDelta
  pub persisted_state_hash : Option (List ℕ)
  pub last_computed_crypto_hash : Option (List ℕ)
  pub recompute_crypto_hash : Bool

-- The configuration, the hashes, the encoder, and what is read of the database and its cache.
pub record Store : Type 0 where
  pub conf : Config
  pub hash : Text → ℕ
  pub encode_varint : ℕ → List ℕ
  pub crypto_hash : List ℕ → List ℕ
  pub fetch_data_nodes_for : BucketKey → Result (List DataNode)
  pub get_bucket_node : BucketKey → Result (Option BucketNode)

-- What a loop over the tree leaves: the tree at its end or at an error, or a panic.
pub data Processed : Type 0 where
  done : BucketTreeDelta → Processed
  stopped : BucketTreeDelta → Text → Processed
  crashed : Processed

module _ (db : Store) where
  -- `none` is a panic on an invalid key of a change.
  unfoldable pub prepare_working_set : StateDelta → StateImpl → Option StateImpl
  prepare_working_set d s =
      if is_empty d then some s else elim (new_data_nodes_delta db.hash db.conf d) [
        | none ↦ none
        | some nodes ↦ some (record s {
          data_nodes_delta = some nodes;
          bucket_tree_delta = some [];
          recompute_crypto_hash = true;
        })
      ]

  -- The hash of a bucket enters its parent's node; `none` is a panic.
  unfoldable pub set_in_parent :
      BucketKey → Option (List ℕ) → BucketTreeDelta → Option BucketTreeDelta
  set_in_parent key crypto_hash tree = elim (get_parent_key key db.conf) [
    | none ↦ none
    | some parent ↦
        elim (set_child_crypto_hash db.conf key crypto_hash
          (get_or_create_bucket_node db.conf parent tree)) [
            | none ↦ none
            | some node ↦ some (put_bucket_node parent node tree)
          ]
  ]

  -- The loop of `processDataNodeDelta`.
  unfoldable pub process_data_nodes : Map BucketKey (List DataNode) → BucketTreeDelta → Processed
  process_data_nodes [] tree = done tree
  process_data_nodes ((key, updated) ∷ rest) tree = elim (db.fetch_data_nodes_for key) [
    | failed e ↦ stopped tree e
    | panicked ↦ crashed
    | ok existing ↦
        elim (compute_data_nodes_crypto_hash db.encode_varint db.crypto_hash updated existing) [
          | none ↦ crashed
          | some crypto_hash ↦ elim (set_in_parent key crypto_hash tree) [
            | some tree' ↦ process_data_nodes rest tree'
            | none ↦ crashed
          ]
        ]
  ]

  -- The node of the tree with what the database has of the children that did not change.
  unfoldable pub merge_stored : BucketNode → Result BucketNode
  merge_stored node = elim (db.get_bucket_node node.bucket_key) [
    | failed e ↦ failed e
    | panicked ↦ panicked
    | ok none ↦ ok node
    | ok (some stored) ↦ elim (merge_bucket_node stored node) [
      | none ↦ panicked
      | some merged ↦ ok merged
    ]
  ]

  -- One level of `processBucketTreeDelta` below the root.
  unfoldable pub process_nodes : List BucketNode → BucketTreeDelta → Processed
  process_nodes [] tree = done tree
  process_nodes (node ∷ rest) tree = elim (merge_stored node) [
    | failed e ↦ stopped tree e
    | panicked ↦ crashed
    | ok merged ↦
        let hashed = compute_bucket_hash db.crypto_hash merged in
        elim (set_in_parent node.bucket_key hashed.0
          (put_bucket_node node.bucket_key hashed.1 tree)) [
            | some tree' ↦ process_nodes rest tree'
            | none ↦ crashed
          ]
  ]

  -- The loop of `processBucketTreeDelta` from a level up to the root, whose first node ends it.
  unfoldable pub process_levels : ℕ → BucketTreeDelta → Processed
  process_levels zero tree = elim (get_bucket_nodes_at 0 tree) [
    | [] ↦ done tree
    | node ∷ _ ↦ elim (merge_stored node) [
      | ok merged ↦ done (put_bucket_node node.bucket_key merged tree)
      | failed e ↦ stopped tree e
      | panicked ↦ crashed
    ]
  ]
  process_levels (suc level) tree =
      elim (process_nodes (get_bucket_nodes_at (suc level) tree) tree) [
        | done tree' ↦ process_levels level tree'
        | stopped tree' e ↦ stopped tree' e
        | crashed ↦ crashed
      ]

  -- A tree of one level has no level above the data nodes.
  unfoldable pub process_bucket_tree_delta : BucketTreeDelta → Processed
  process_bucket_tree_delta tree = elim db.conf.lowest_level [
    | zero ↦ done tree
    | suc second_last_level ↦ process_levels second_last_level tree
  ]

  -- `processDataNodeDelta` and `processBucketTreeDelta`.
  unfoldable pub process_deltas : Map BucketKey (List DataNode) → BucketTreeDelta → Processed
  process_deltas nodes tree = elim (process_data_nodes nodes tree) [
    | done tree' ↦ process_bucket_tree_delta tree'
    | stopped tree' e ↦ stopped tree' e
    | crashed ↦ crashed
  ]

  -- The hash of the root, and the state with it.
  unfoldable pub compute_root_node_crypto_hash :
      BucketTreeDelta → StateImpl → Result (Option (List ℕ)) × StateImpl
  compute_root_node_crypto_hash tree s = elim (get_root_node tree) [
    | none ↦ (panicked, s)
    | some root ↦
        let hashed = compute_bucket_hash db.crypto_hash root in
        (
          ok hashed.0,
          record s {
            bucket_tree_delta = some (put_bucket_node root.bucket_key hashed.1 tree);
            last_computed_crypto_hash = hashed.0;
            recompute_crypto_hash = false;
          },
        )
  ]

  -- An error leaves the tree as far as it was built, and the hash to be computed again.
  unfoldable pub compute_crypto_hash : StateImpl → Result (Option (List ℕ)) × StateImpl
  compute_crypto_hash s =
      if s.recompute_crypto_hash
      then elim s.data_nodes_delta [
        | none ↦ (panicked, s)
        | some nodes ↦ elim s.bucket_tree_delta [
          | none ↦ (panicked, s)
          | some tree ↦ elim (process_deltas nodes tree) [
            | done tree' ↦ compute_root_node_crypto_hash tree' s
            | stopped tree' e ↦ (failed e, record s { bucket_tree_delta = some tree' })
            | crashed ↦ (panicked, s)
          ]
        ]
      ]
      else (ok s.last_computed_crypto_hash, s)

-- What `AddChangesForPersistence` puts into the write batch, by the keys before their encoding.
pub data Write : Type 0 where
  put_data delete_data : DataNode → Write
  put_bucket delete_bucket : BucketNode → Write

unfoldable pub write_data_nodes : List DataNode → List Write
write_data_nodes [] = []
write_data_nodes (node ∷ rest) =
    (if is_delete_node node then delete_data node else put_data node) ∷ write_data_nodes rest

unfoldable pub add_data_node_changes : Map BucketKey (List DataNode) → List Write
add_data_node_changes [] = []
add_data_node_changes ((key, nodes) ∷ rest) = write_data_nodes nodes ++ add_data_node_changes rest

unfoldable pub write_bucket_nodes : List BucketNode → List Write
write_bucket_nodes [] = []
write_bucket_nodes (node ∷ rest) =
    (if node.marked_for_deletion then delete_bucket node else put_bucket node)
    ∷ write_bucket_nodes rest

-- From the level above the data nodes up to the root; `levels` is how many levels there are.
unfoldable pub add_bucket_node_changes : ℕ → BucketTreeDelta → List Write
add_bucket_node_changes zero tree = []
add_bucket_node_changes (suc level) tree =
    write_bucket_nodes (get_bucket_nodes_at level tree) ++ add_bucket_node_changes level tree

-- An error of the hash is dropped, and nothing is written; `none` is a panic.
unfoldable pub add_changes_for_persistence : Store → StateImpl → Option (List Write) × StateImpl
add_changes_for_persistence db s = elim s.data_nodes_delta [
  | none ↦ (some [], s)
  | some nodes ↦
      let computed : Result (Option (List ℕ)) × StateImpl =
        if s.recompute_crypto_hash
        then compute_crypto_hash db s
        else (ok s.last_computed_crypto_hash, s) in
      elim computed.0 [
        | failed e ↦ (some [], computed.1)
        | panicked ↦ (none, computed.1)
        | ok crypto_hash ↦ elim computed.1.bucket_tree_delta [
          | none ↦ (none, computed.1)
          | some tree ↦ (
            some (add_data_node_changes nodes ++ add_bucket_node_changes db.conf.lowest_level tree),
            computed.1,
          )
        ]
      ]
]

-- `ClearWorkingSet`, beside the update of the cache.
unfoldable pub clear_working_set : Bool → StateImpl → StateImpl
clear_working_set changes_persisted s =
    let s' : StateImpl =
      if changes_persisted
      then record s { persisted_state_hash = s.last_computed_crypto_hash }
      else record s { last_computed_crypto_hash = s.persisted_state_hash } in
    record s' { data_nodes_delta = none; bucket_tree_delta = none; recompute_crypto_hash = false }
