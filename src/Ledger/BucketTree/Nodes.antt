-- ===== src/Ledger/BucketTree/Nodes.antt =====
-- The data nodes of a bucket and its hash: data_key.go, data_node.go, bucket_hash.go,
-- data_nodes_delta.go and computeDataNodesCryptoHash of core/ledger/statemgmt/buckettree.
-- `encode_varint` and `crypto_hash` are the encoder of protobuf and the hash.
pub mod Sorted
pub mod Taken
pub mod Merge
use client_sdk.Prelude.{
  ℕ, zero, suc, ◌+◌, ◌%◌, Bool, true, false, not, Option, none, some, List, [], ◌∷◌, ◌++◌, keep,
  length, Map, lookup, insert, Eq, ◌==◌, nat_eq, ◌&&◌, ◌≡◌, ◌↔◌, arith, if◌then◌else◌,
}
use client_sdk.Ledger.Text.{Text, text_eq}
use client_sdk.Ledger.Bytes.{
  less, same, greater, compare_bytes, is_nil, construct_composite_key, decode_composite_key,
}
use client_sdk.Ledger.Delta.{UpdatedValue, ChaincodeStateDelta, StateDelta}
use client_sdk.Ledger.BucketTree.{
  Config, BucketKey, get_num_buckets_at_lowest_level, new_bucket_key_at_lowest_level,
}

pub record DataKey : Type 0 where
  pub bucket_key : BucketKey
  pub composite_key : Text

pub record DataNode : Type 0 where
  pub data_key : DataKey
  pub value : Option (List ℕ)

-- `newDataKey`, with the configured hash function. A lowest level without buckets is a division by
-- zero, a panic like an invalid bucket number.
unfoldable pub new_data_key : (Text → ℕ) → Config → Text → Text → Option DataKey
new_data_key hash conf chaincode_id key =
    let composite_key = construct_composite_key chaincode_id key in
    elim (get_num_buckets_at_lowest_level conf) [
      | none ↦ none
      | some zero ↦ none
      | some (suc count) ↦
          elim (new_bucket_key_at_lowest_level (hash composite_key % suc count + 1) conf) [
            | none ↦ none
            | some bucket_key ↦
                some (record { bucket_key = bucket_key; composite_key = composite_key })
          ]
    ]

unfoldable pub is_delete_node : DataNode → Bool
is_delete_node node = is_nil node.value

unfoldable pub get_key_elements : DataNode → Option (Text × Text)
get_key_elements node = decode_composite_key node.data_key.composite_key

pub record BucketHashCalculator : Type 0 where
  pub current_chaincode_id : Text
  pub data_nodes : List DataNode
  pub hashing_data : List ℕ

abbrev pub new_bucket_hash_calculator : BucketHashCalculator
new_bucket_hash_calculator = record {
  current_chaincode_id = [];
  data_nodes = [];
  hashing_data = [];
}

module _ (encode_varint : ℕ → List ℕ) where
  unfoldable pub append_size_and_data : List ℕ → List ℕ → List ℕ
  append_size_and_data bytes hashing_data = hashing_data ++ encode_varint (length bytes) ++ bytes

  -- The keys were decoded when their nodes were added.
  unfoldable pub append_nodes : List DataNode → List ℕ → List ℕ
  append_nodes [] hashing_data = hashing_data
  append_nodes (node ∷ rest) hashing_data =
      let key : Text = elim (get_key_elements node) [ none ↦ [] | some parts ↦ parts.1 ] in
      let value : List ℕ = elim node.value [ none ↦ [] | some bytes ↦ bytes ] in
      append_nodes rest (append_size_and_data value (append_size_and_data key hashing_data))

  unfoldable pub append_current_chaincode_data : BucketHashCalculator → BucketHashCalculator
  append_current_chaincode_data c = if c.current_chaincode_id == [] then c else record c {
    hashing_data = append_nodes c.data_nodes (
        append_size_and_data c.current_chaincode_id c.hashing_data
        ++ encode_varint (length c.data_nodes));
  }

  -- `none` is the panic on a key without a delimiter.
  unfoldable pub add_next_node : DataNode → BucketHashCalculator → Option BucketHashCalculator
  add_next_node node c = elim (get_key_elements node) [
    | none ↦ none
    | some (chaincode_id, key) ↦
        let c' : BucketHashCalculator =
          if chaincode_id == c.current_chaincode_id
          then c
          else record (append_current_chaincode_data c) {
            current_chaincode_id = chaincode_id;
            data_nodes = [];
          } in
        some (record c' { data_nodes = c'.data_nodes ++ node ∷ [] })
  ]

  unfoldable pub add_nodes : List DataNode → BucketHashCalculator → Option BucketHashCalculator
  add_nodes [] c = some c
  add_nodes (node ∷ rest) c = elim (add_next_node node c) [
    | none ↦ none
    | some c' ↦ add_nodes rest c'
  ]

  -- A hash that is nil is `none`.
  unfoldable pub compute_calculator_hash :
      (List ℕ → List ℕ) → BucketHashCalculator → Option (List ℕ)
  compute_calculator_hash crypto_hash c =
      let content : List ℕ = (append_current_chaincode_data c).hashing_data in
      elim content [ [] ↦ none | x ∷ xs ↦ some (crypto_hash (x ∷ xs)) ]

-- The loop of `computeDataNodesCryptoHash` as the nodes that it takes in turn, with fuel. What is
-- left of the other slice follows where one is at its end.
unfoldable pub merge_nodes : ℕ → List DataNode → List DataNode → List DataNode
merge_nodes fuel [] existing = existing
merge_nodes fuel (u ∷ us) [] = u ∷ us
merge_nodes zero (u ∷ us) (e ∷ es) = []
merge_nodes (suc fuel) (u ∷ us) (e ∷ es) =
    elim (compare_bytes u.data_key.composite_key e.data_key.composite_key) [
      | less ↦ u ∷ merge_nodes fuel us (e ∷ es)
      | same ↦ u ∷ merge_nodes fuel us es
      | greater ↦ e ∷ merge_nodes fuel (u ∷ us) es
    ]

-- `none` is a panic; `some none` is the hash nil of a bucket without nodes.
unfoldable pub compute_data_nodes_crypto_hash :
    (ℕ → List ℕ) → (List ℕ → List ℕ) → List DataNode → List DataNode → Option (Option (List ℕ))
compute_data_nodes_crypto_hash encode_varint crypto_hash updated existing =
    let taken = merge_nodes (length updated + length existing) updated existing in
    elim (add_nodes encode_varint (keep (λ n. not (is_delete_node n)) taken)
      new_bucket_hash_calculator) [
        | none ↦ none
        | some c ↦ some (compute_calculator_hash encode_varint crypto_hash c)
      ]

abbrev pub bucket_key_beq : BucketKey → BucketKey → Bool
bucket_key_beq a b = (a.level == b.level) && (a.bucket_number == b.bucket_number)

pub bucket_key_beq_iff : (a b : BucketKey) → (bucket_key_beq a b ≡ true) ↔ (a ≡ b)
bucket_key_beq_iff a b = ground arith

instance abbrev pub bucket_key_eq : Eq BucketKey
bucket_key_eq = record { same = bucket_key_beq; same_iff = bucket_key_beq_iff }

-- `sort.Sort(dataNodes)`
abbrev pub insert_node : DataNode → List DataNode → List DataNode
insert_node n [] = n ∷ []
insert_node n (m ∷ rest) =
    let later = insert_node n rest in
    elim (compare_bytes m.data_key.composite_key n.data_key.composite_key) [
      | less ↦ m ∷ later
      | _ ↦ n ∷ m ∷ rest
    ]

abbrev pub sort_nodes : List DataNode → List DataNode
sort_nodes [] = []
sort_nodes (n ∷ rest) = insert_node n (sort_nodes rest)

module _ (hash : Text → ℕ) (conf : Config) where
  -- `add`
  unfoldable pub add_data_node :
      Text
      → Text
      → Option (List ℕ)
      → Map BucketKey (List DataNode)
      → Option (Map BucketKey (List DataNode))
  add_data_node chaincode_id key value by_bucket = elim (new_data_key hash conf chaincode_id key) [
    | none ↦ none
    | some data_key ↦
        let node : DataNode = record { data_key = data_key; value = value } in
        some (
          insert data_key.bucket_key
            (elim (lookup data_key.bucket_key by_bucket) [
              | none ↦ node ∷ []
              | some nodes ↦ nodes ++ node ∷ []
            ])
            by_bucket)
  ]

  unfoldable pub add_updates :
      Bool
      → Text
      → Map Text UpdatedValue
      → Map BucketKey (List DataNode)
      → Option (Map BucketKey (List DataNode))
  add_updates backwards chaincode_id [] by_bucket = some by_bucket
  add_updates backwards chaincode_id ((key, u) ∷ rest) by_bucket =
      elim (add_data_node chaincode_id key (if backwards then u.previous_value else u.value)
        by_bucket) [
          | none ↦ none
          | some by_bucket' ↦ add_updates backwards chaincode_id rest by_bucket'
        ]

  unfoldable pub add_chaincodes :
      Bool
      → Map Text ChaincodeStateDelta
      → Map BucketKey (List DataNode)
      → Option (Map BucketKey (List DataNode))
  add_chaincodes backwards [] by_bucket = some by_bucket
  add_chaincodes backwards ((chaincode_id, csd) ∷ rest) by_bucket =
      elim (add_updates backwards chaincode_id csd.updated_kvs by_bucket) [
        | none ↦ none
        | some by_bucket' ↦ add_chaincodes backwards rest by_bucket'
      ]

  unfoldable pub sort_buckets : Map BucketKey (List DataNode) → Map BucketKey (List DataNode)
  sort_buckets [] = []
  sort_buckets ((key, nodes) ∷ rest) = (key, sort_nodes nodes) ∷ sort_buckets rest

  -- `newDataNodesDelta`
  unfoldable pub new_data_nodes_delta : StateDelta → Option (Map BucketKey (List DataNode))
  new_data_nodes_delta d = elim (add_chaincodes d.roll_backwards d.chaincode_state_deltas []) [
    | none ↦ none
    | some by_bucket ↦ some (sort_buckets by_bucket)
  ]
