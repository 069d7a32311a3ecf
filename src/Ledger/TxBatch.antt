-- ===== src/Ledger/TxBatch.antt =====
-- core/ledger/ledger.go: batches of transactions, which become blocks, and the deltas of state
-- synchronization. `written` says whether a write to the database succeeds, `now` is the time.
pub mod Integrity
pub mod Hashes
pub mod Preview
pub mod Ending
use client_sdk.Prelude.{
  ℕ, zero, suc, ◌+◌, ◌-◌, ◌^◌, Bool, true, false, not, ◌&&◌, ◌||◌, Option, none, some, List, [],
  ◌∷◌, ltb, leb, Eq, add64, sub64, Map, insert, lookup, ◌==◌, nat_eq, if◌then◌else◌,
}
use client_sdk.Ledger.Text.{Text, text_eq}
use client_sdk.Ledger.Delta.{StateDelta}
use client_sdk.Ledger.State
use client_sdk.Ledger.State.{
  Result, ok, failed, panicked, HashableState, State, clear_in_memory_changes,
}
use client_sdk.Ledger.Block.{Format, Codec, NonHashData, Block, new_block, get_block_hash}
use client_sdk.Ledger.Blockchain.{
  Database, BlockWrite, write_block, Blockchain, build_block, get_block,
  add_persistence_changes_for_new_block, block_persistence_status, persist_raw_block,
}

-- A ledger with its database: that of the blocks, and the batches of state changes, the latest
-- first. The id of a batch is of any type with a test of equality.
pub record Ledger (F : Format) (S : HashableState) (I : Type 0) : Type 0 where
  pub blockchain : Blockchain F
  pub state : State S
  pub current_id : Option I
  pub db : Database
  pub state_writes : List S.Batch

-- The block of a batch, with the results of its transactions beside what is hashed.
unfoldable pub block_of_batch :
    {F : Format} → List F.Transaction → List F.TransactionResult → List ℕ → Block F
block_of_batch transactions results metadata = record (new_block transactions metadata) {
  non_hash_data =
      some (record { transaction_results = results; local_ledger_commit_timestamp = none });
}

module _ {F : Format} (C : Codec F) {S : HashableState} (new_batch : S.Batch) {I : Type 0}
    ⦃E : Eq I⦄ where
  unfoldable pub is_valid_id_begin : Ledger F S I → Bool
  is_valid_id_begin l = elim l.current_id [ none ↦ true | some _ ↦ false ]

  -- The empty id is that of no batch in progress.
  unfoldable pub is_valid_id_commit_or_rollback : Option I → Ledger F S I → Bool
  is_valid_id_commit_or_rollback none l = is_valid_id_begin l
  is_valid_id_commit_or_rollback (some id) l = elim l.current_id [
    | none ↦ false
    | some current ↦ current == id
  ]

  unfoldable pub reset_for_next_tx_group : Bool → Ledger F S I → Ledger F S I
  reset_for_next_tx_group tx_committed l = record l {
    current_id = none;
    state = clear_in_memory_changes tx_committed l.state;
  }

  unfoldable pub begin_tx_batch : Option I → Ledger F S I → Result (Unit {0}) × Ledger F S I
  begin_tx_batch id l =
      if is_valid_id_begin l then (ok tt, record l { current_id = id }) else (failed [], l)

  unfoldable pub get_tx_batch_preview_block :
      Option I → List F.Transaction → List ℕ → Ledger F S I → Result (Block F) × Ledger F S I
  get_tx_batch_preview_block id transactions metadata l =
      if not (is_valid_id_commit_or_rollback id l)
      then (failed [], l)
      else let hashed = State.get_hash l.state in
        let l' : Ledger F S I = record l { state = hashed.1 } in
        elim hashed.0 [
          | failed e ↦ (failed e, l')
          | panicked ↦ (panicked, l')
          | ok state_hash ↦
              (ok (build_block C (new_block transactions metadata) state_hash l'.blockchain), l')
        ]

  -- What `CommitTxBatch` does before it returns an error.
  unfoldable pub give_up : Text → Ledger F S I → Result (Unit {0}) × Ledger F S I
  give_up e l =
      let l' = reset_for_next_tx_group false l in
      elim (block_persistence_status C false l'.blockchain) [
        | ok chain ↦ (failed e, record l' { blockchain = chain })
        | failed e' ↦ (failed e', l')
        | panicked ↦ (panicked, l')
      ]

  -- What `CommitTxBatch` does once the batch is written.
  unfoldable pub complete : Ledger F S I → Result (Unit {0}) × Ledger F S I
  complete l =
      let l' = reset_for_next_tx_group true l in
      elim (block_persistence_status C true l'.blockchain) [
        | ok chain ↦ (ok tt, record l' { blockchain = chain })
        | failed e ↦ (failed e, l')
        | panicked ↦ (panicked, l')
      ]

  -- The write of a block and of the changes of the state.
  unfoldable pub write_batch :
      Bool → BlockWrite → Blockchain F → Ledger F S I → Result (Unit {0}) × Ledger F S I
  write_batch written w chain l =
      let added = State.add_changes_for_persistence w.block_number l.state new_batch in
      let l' : Ledger F S I = record l { blockchain = chain; state = added.0 } in
      if not written
      then give_up [] l'
      else complete
          (record l' { db = write_block w l'.db; state_writes = added.1 ∷ l'.state_writes })

  -- From the hash of the state on; the event for the block that follows is not part of it.
  unfoldable pub commit_block :
      Bool
      → ℕ
      → List F.Transaction
      → List F.TransactionResult
      → List ℕ
      → List ℕ
      → Ledger F S I
      → Result (Unit {0}) × Ledger F S I
  commit_block written now transactions results metadata state_hash l =
      let block = block_of_batch transactions results metadata in
      elim (add_persistence_changes_for_new_block C now block state_hash l.blockchain) [
        | failed e ↦ give_up e l
        | panicked ↦ (panicked, l)
        | ok (w, chain) ↦ write_batch written w chain l
      ]

  unfoldable pub commit_tx_batch :
      Bool
      → ℕ
      → Option I
      → List F.Transaction
      → List F.TransactionResult
      → List ℕ
      → Ledger F S I
      → Result (Unit {0}) × Ledger F S I
  commit_tx_batch written now id transactions results metadata l =
      if not (is_valid_id_commit_or_rollback id l)
      then (failed [], l)
      else let hashed = State.get_hash l.state in
        let l' : Ledger F S I = record l { state = hashed.1 } in
        elim hashed.0 [
          | failed e ↦ give_up e l'
          | panicked ↦ (panicked, l')
          | ok state_hash ↦ commit_block written now transactions results metadata state_hash l'
        ]

  unfoldable pub rollback_tx_batch : Option I → Ledger F S I → Result (Unit {0}) × Ledger F S I
  rollback_tx_batch id l =
      if not (is_valid_id_commit_or_rollback id l)
      then (failed [], l)
      else (ok tt, reset_for_next_tx_group false l)

  unfoldable pub apply_state_delta :
      Option I → StateDelta → Ledger F S I → Result (Unit {0}) × Ledger F S I
  apply_state_delta id delta l =
      if not (is_valid_id_begin l)
      then (failed [], l)
      else (ok tt, record l { current_id = id; state = State.apply_state_delta delta l.state })

  -- The group is reset as committed whether the write succeeds or not.
  unfoldable pub commit_state_delta :
      Bool → Option I → Ledger F S I → Result (Unit {0}) × Ledger F S I
  commit_state_delta written id l =
      if not (is_valid_id_commit_or_rollback id l)
      then (failed [], l)
      else let added = State.commit_state_delta l.state new_batch in
        let l' : Ledger F S I = record l { state = added.0 } in
        if written
        then (
          ok tt,
          reset_for_next_tx_group true (record l' { state_writes = added.1 ∷ l'.state_writes }),
        )
        else (failed [], reset_for_next_tx_group true l')

  unfoldable pub rollback_state_delta : Option I → Ledger F S I → Result (Unit {0}) × Ledger F S I
  rollback_state_delta id l =
      if not (is_valid_id_commit_or_rollback id l)
      then (failed [], l)
      else (ok tt, reset_for_next_tx_group false l)

  unfoldable pub get_block_by_number : ℕ → Ledger F S I → Result (Option (Block F))
  get_block_by_number block_number l =
      if leb l.blockchain.size block_number then failed [] else get_block C block_number l.db

  unfoldable pub put_raw_block :
      Bool → Block F → ℕ → Ledger F S I → Result (Unit {0}) × Ledger F S I
  put_raw_block written block block_number l =
      let persisted = persist_raw_block C written block block_number l.blockchain l.db in
      (persisted.0, record l { blockchain = persisted.1.0; db = persisted.1.1 })

  -- The body of the loop of `VerifyChain` for the block `suc i`: nothing where the loop goes on,
  -- and else the number that is returned, and whether with an error.
  unfoldable pub verify_link : ℕ → Ledger F S I → Option (ℕ × Bool)
  verify_link i l = elim (get_block_by_number (suc i) l) [
    | ok (some current_block) ↦ elim (get_block_by_number i l) [
      | ok (some previous_block) ↦ elim (get_block_hash C previous_block) [
        | ok hash ↦ if hash == current_block.previous_block_hash then none else some (suc i, false)
        | _ ↦ some (i, true)
      ]
      | _ ↦ some (i, true)
    ]
    | _ ↦ some (suc i, true)
  ]

  -- The loop from the block `steps + low` down.
  unfoldable pub verify_loop : ℕ → ℕ → Ledger F S I → ℕ × Bool
  verify_loop zero low l = (0, false)
  verify_loop (suc steps) low l = elim (verify_link (steps + low) l) [
    | none ↦ verify_loop steps low l
    | some verdict ↦ verdict
  ]

  unfoldable pub verify_chain : ℕ → ℕ → Ledger F S I → ℕ × Bool
  verify_chain high_block low_block l =
      if leb l.blockchain.size high_block
      then (high_block, true)
      else if leb high_block low_block
      then (low_block, true)
      else verify_loop (high_block - low_block) low_block l
