-- ===== src/Ledger/Block.antt =====
-- Blocks: protos/block.go. Protobuf, the types of a block's transactions and results, and the hash
-- are a record.
use client_sdk.Prelude.{ℕ, ◌≡◌, Option, none, some, List, []}
use client_sdk.Ledger.State.{Result, ok, failed, panicked}

pub record Format : Type 1 where
  pub Transaction : Type 0
  pub TransactionResult : Type 0

module _ (F : Format) where
  pub record NonHashData : Type 0 where
    pub transaction_results : List F.TransactionResult
    pub local_ledger_commit_timestamp : Option ℕ

  pub record Block : Type 0 where
    pub transactions : List F.Transaction
    pub state_hash : List ℕ
    pub previous_block_hash : List ℕ
    pub consensus_metadata : List ℕ
    pub non_hash_data : Option NonHashData

-- `proto.Marshal` and `proto.Unmarshal`, where `none` is an error, and `util.ComputeCryptoHash`.
pub record Codec (F : Format) : Type 0 where
  pub marshal : Block F → Option (List ℕ)
  pub unmarshal : List ℕ → Option (Block F)
  pub crypto_hash : List ℕ → List ℕ

-- What protobuf documents: what it writes, it reads back.
unfoldable pub RoundTrips : {F : Format} → Codec F → Type 0
RoundTrips {F} C =
    (block : Block F) (bytes : List ℕ)
    → C.marshal block ≡ some bytes
    → C.unmarshal bytes ≡ some block

module _ {F : Format} where
  unfoldable pub new_block : List F.Transaction → List ℕ → Block F
  new_block transactions metadata = record {
    transactions = transactions;
    state_hash = [];
    previous_block_hash = [];
    consensus_metadata = metadata;
    non_hash_data = none;
  }

  module _ (C : Codec F) where
    unfoldable pub block_bytes : Block F → Result (List ℕ)
    block_bytes block = elim (C.marshal block) [ none ↦ failed [] | some bytes ↦ ok bytes ]

    unfoldable pub unmarshall_block : List ℕ → Result (Block F)
    unmarshall_block bytes = elim (C.unmarshal bytes) [ none ↦ failed [] | some block ↦ ok block ]

    -- The hash of a copy of the block without what is not hashed.
    unfoldable pub get_block_hash : Block F → Result (List ℕ)
    get_block_hash block = elim (block_bytes block) [
      | ok bytes ↦ elim (unmarshall_block bytes) [
        | ok copy ↦ elim (C.marshal (record copy { non_hash_data = none })) [
          | none ↦ failed []
          | some hashed ↦ ok (C.crypto_hash hashed)
        ]
        | failed e ↦ failed e
        | panicked ↦ panicked
      ]
      | failed e ↦ failed e
      | panicked ↦ panicked
    ]

  unfoldable pub set_previous_block_hash : List ℕ → Block F → Block F
  set_previous_block_hash hash block = record block { previous_block_hash = hash }
