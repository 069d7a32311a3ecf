-- ===== src/Ledger/Blockchain.antt =====
-- core/ledger/blockchain.go over the blocks of the database: by number, as the keys of blocks are
-- their encoded numbers, with the count of blocks. A write to the database succeeds as a whole or
-- changes nothing, and which is an argument. The indexes are not part of it.
pub mod Chain
use client_sdk.Prelude.{
  ℕ, ◌+◌, ◌-◌, ◌^◌, Bool, true, false, Option, none, some, List, [], ltb, add64, sub64, Map, insert,
  lookup, ◌==◌, nat_eq, if◌then◌else◌,
}
use client_sdk.Ledger.State.{Result, ok, failed, panicked}
use client_sdk.Ledger.Block.{
  Format, Codec, NonHashData, Block, block_bytes, unmarshall_block, get_block_hash,
  set_previous_block_hash,
}

-- The column family of the blockchain, with what a read of it does.
pub record Database : Type 0 where
  pub blocks : Map ℕ (List ℕ)
  pub block_count : Option ℕ
  pub read_fails : ℕ → Bool
  pub count_fails : Bool

-- What `addPersistenceChangesForNewBlock` puts into the write batch.
pub record BlockWrite : Type 0 where
  pub block_number : ℕ
  pub bytes : List ℕ
  pub block_count : Option ℕ

unfoldable pub write_block : BlockWrite → Database → Database
write_block w db = record db {
  blocks = insert w.block_number w.bytes db.blocks;
  block_count = elim w.block_count [ none ↦ db.block_count | some count ↦ some count ];
}

module _ (F : Format) where
  pub record LastProcessedBlock : Type 0 where
    pub block : Block F
    pub block_number : ℕ
    pub block_hash : List ℕ

  -- `size` is a uint64. No hash and the empty one are not told apart.
  pub record Blockchain : Type 0 where
    pub size : ℕ
    pub previous_block_hash : List ℕ
    pub last_processed_block : Option LastProcessedBlock

  pub record BlockchainInfo : Type 0 where
    pub height : ℕ
    pub current_block_hash : List ℕ
    pub info_previous_block_hash : List ℕ

unfoldable pub fetch_blockchain_size_from_db : Database → Result ℕ
fetch_blockchain_size_from_db db =
    if db.count_fails
    then failed []
    else elim db.block_count [ none ↦ ok 0 | some count ↦ ok count ]

module _ {F : Format} (C : Codec F) where
  -- A block that is not there is nil.
  unfoldable pub fetch_block_from_db : ℕ → Database → Result (Option (Block F))
  fetch_block_from_db block_number db =
      if db.read_fails block_number then failed [] else elim (lookup block_number db.blocks) [
        | none ↦ ok none
        | some bytes ↦ elim (unmarshall_block C bytes) [
          | ok block ↦ ok (some block)
          | failed e ↦ failed e
          | panicked ↦ panicked
        ]
      ]

  -- `GetHash` on a block that may be nil, which protobuf refuses to marshal.
  unfoldable pub hash_of_fetched : Option (Block F) → Result (List ℕ)
  hash_of_fetched none = failed []
  hash_of_fetched (some block) = get_block_hash C block

  unfoldable pub new_blockchain : Database → Result (Blockchain F)
  new_blockchain db = elim (fetch_blockchain_size_from_db db) [
    | failed e ↦ failed e
    | panicked ↦ panicked
    | ok size ↦
        if ltb 0 size
        then elim (fetch_block_from_db (sub64 size 1) db) [
          | failed e ↦ failed e
          | panicked ↦ panicked
          | ok fetched ↦ elim (hash_of_fetched fetched) [
            | failed e ↦ failed e
            | panicked ↦ panicked
            | ok hash ↦
                ok (record { size = size; previous_block_hash = hash; last_processed_block = none })
          ]
        ]
        else ok (record { size = size; previous_block_hash = []; last_processed_block = none })
  ]

  unfoldable pub get_block : ℕ → Database → Result (Option (Block F))
  get_block block_number db = fetch_block_from_db block_number db

  unfoldable pub get_last_block : Blockchain F → Database → Result (Option (Block F))
  get_last_block chain db = if chain.size == 0 then ok none else get_block (sub64 chain.size 1) db

  -- The transactions of a block that is nil are none.
  unfoldable pub get_transactions : ℕ → Database → Result (List F.Transaction)
  get_transactions block_number db = elim (get_block block_number db) [
    | failed e ↦ failed e
    | panicked ↦ panicked
    | ok none ↦ ok []
    | ok (some block) ↦ ok block.transactions
  ]

  unfoldable pub get_blockchain_info : Blockchain F → Database → Result (BlockchainInfo F)
  get_blockchain_info chain db =
      if chain.size == 0
      then ok (record { height = 0; current_block_hash = []; info_previous_block_hash = [] })
      else elim (get_last_block chain db) [
        | failed e ↦ failed e
        | panicked ↦ panicked
        | ok none ↦ panicked
        | ok (some last_block) ↦ ok (record {
          height = chain.size;
          current_block_hash = chain.previous_block_hash;
          info_previous_block_hash = last_block.previous_block_hash;
        })
      ]

  unfoldable pub build_block : Block F → List ℕ → Blockchain F → Block F
  build_block block state_hash chain =
      record (set_previous_block_hash chain.previous_block_hash block) { state_hash = state_hash }

  unfoldable pub stamp : ℕ → Option (NonHashData F) → NonHashData F
  stamp now none = record { transaction_results = []; local_ledger_commit_timestamp = some now }
  stamp now (some non_hash_data) = record non_hash_data { local_ledger_commit_timestamp = some now }

  unfoldable pub stamp_block : ℕ → Block F → Block F
  stamp_block now block = record block { non_hash_data = some (stamp now block.non_hash_data) }

  -- `now` is the time of the call.
  unfoldable pub add_persistence_changes_for_new_block :
      ℕ → Block F → List ℕ → Blockchain F → Result (BlockWrite × Blockchain F)
  add_persistence_changes_for_new_block now block state_hash chain =
      let stamped = stamp_block now (build_block block state_hash chain) in
      elim (get_block_hash C stamped) [
        | failed e ↦ failed e
        | panicked ↦ panicked
        | ok block_hash ↦ elim (block_bytes C stamped) [
          | failed e ↦ failed e
          | panicked ↦ panicked
          | ok bytes ↦ ok (
            record {
              block_number = chain.size;
              bytes = bytes;
              block_count = some (add64 chain.size 1);
            },
            record chain {
              last_processed_block =
                  some (record {
                    block = stamped;
                    block_number = chain.size;
                    block_hash = block_hash;
                  });
            },
          )
        ]
      ]

  -- Success without a processed block is a nil dereference.
  unfoldable pub block_persistence_status : Bool → Blockchain F → Result (Blockchain F)
  block_persistence_status success chain =
      if success
      then elim chain.last_processed_block [
        | none ↦ panicked
        | some processed ↦ ok (record {
          size = add64 chain.size 1;
          previous_block_hash = processed.block_hash;
          last_processed_block = none;
        })
      ]
      else ok (record chain { last_processed_block = none })

  -- The blockchain in memory moves before the block is written.
  unfoldable pub persist_raw_block :
      Bool → Block F → ℕ → Blockchain F → Database → Result (Unit {0}) × (Blockchain F × Database)
  persist_raw_block written block block_number chain db = elim (block_bytes C block) [
    | failed e ↦ (failed e, (chain, db))
    | panicked ↦ (panicked, (chain, db))
    | ok bytes ↦ elim (get_block_hash C block) [
      | failed e ↦ (failed e, (chain, db))
      | panicked ↦ (panicked, (chain, db))
      | ok block_hash ↦
          let grows = ltb chain.size (add64 block_number 1) in
          let chain' : Blockchain F =
            if grows
            then record chain { size = add64 block_number 1; previous_block_hash = block_hash }
            else chain in
          let w : BlockWrite = record {
            block_number = block_number;
            bytes = bytes;
            block_count = if grows then some (add64 block_number 1) else none;
          } in
          if written then (ok tt, (chain', write_block w db)) else (failed [], (chain', db))
    ]
  ]
