-- ===== src/Ledger/Tests/Blocks.antt =====
-- A ledger that commits two blocks.
use client_sdk.Prelude.{
  ℕ, ◌+◌, ◌≡◌, ◌↔◌, ◌≤◌, ◌<◌, refl, true, false, none, some, [], ◌∷◌, arith, lookup, insert, nat_eq,
}
use client_sdk.Ledger.State
use client_sdk.Ledger.State.{Result, ok, failed, panicked}
use client_sdk.Ledger.Block.{
  block_bytes, unmarshall_block, get_block_hash, new_block, set_previous_block_hash,
}
use client_sdk.Ledger.Blockchain.{
  Database, write_block, fetch_blockchain_size_from_db, fetch_block_from_db, new_blockchain,
  build_block, stamp_block, add_persistence_changes_for_new_block, block_persistence_status,
}
use client_sdk.Ledger.Blockchain.Chain
use client_sdk.Ledger.Blockchain.Chain.{Reads, IsChain}
use client_sdk.Ledger.TxBatch.{
  Ledger, is_valid_id_begin, is_valid_id_commit_or_rollback, reset_for_next_tx_group,
  begin_tx_batch, block_of_batch, complete, write_batch, commit_block, get_tx_batch_preview_block,
  commit_tx_batch, verify_chain,
}
use client_sdk.Ledger.TxBatch.Integrity
use client_sdk.Ledger.TxBatch.Preview
use client_sdk.Ledger.TxBatch.Ending
use client_sdk.Ledger.Tests.{values, idle}
use client_sdk.Ledger.Tests.Codec.{numbers, codec, codec-RoundTrips}

abbrev empty : Database
empty = record { blocks = []; block_count = none; read_fails = λ n. false; count_fails = false }

abbrev start : Ledger numbers values ℕ
start = record {
  blockchain = record { size = 0; previous_block_hash = []; last_processed_block = none };
  state = idle;
  current_id = none;
  db = empty;
  state_writes = [];
}

unfoldable program : Unit {0}
unfolding lookup insert block_bytes unmarshall_block get_block_hash new_block
    set_previous_block_hash write_block fetch_blockchain_size_from_db fetch_block_from_db
    new_blockchain build_block stamp_block add_persistence_changes_for_new_block
    block_persistence_status is_valid_id_begin is_valid_id_commit_or_rollback
    reset_for_next_tx_group begin_tx_batch block_of_batch complete write_batch commit_block
    commit_tx_batch State.get_hash State.update_working_set State.add_changes_for_persistence
    State.clear_in_memory_changes Chain.IsTip Integrity.IsIntact
program = tt

empty-Reads : Reads empty
empty-Reads = record { block = λ n. refl; count = refl }

-- A batch that begins, and commits one transaction with its result.
abbrev batch : ℕ → Ledger numbers values ℕ → Ledger numbers values ℕ
batch n l = record l { current_id = some n }

abbrev committed : ℕ → Ledger numbers values ℕ → Ledger numbers values ℕ
committed n l =
    (commit_tx_batch codec [] true (100 + n) (some n) (n ∷ []) (7 ∷ []) [] (batch n l)).1

abbrev one : Ledger numbers values ℕ
one = committed 1 start

abbrev two : Ledger numbers values ℕ
two = committed 2 one

start-IsIntact : Integrity.IsIntact codec [] (batch 1 start)
unfolding program
start-IsIntact = record {
  counted = refl;
  tip = refl;
  links = λ n below. absurd (omega (arith, below));
}

commit_tx_batch-IsIntact_example : Integrity.IsIntact codec [] one
unfolding program
commit_tx_batch-IsIntact_example =
    Integrity.commit_tx_batch-IsIntact codec [] true 101 (some 1) (1 ∷ []) (7 ∷ []) []
      (batch 1 start) codec-RoundTrips empty-Reads (omega arith) start-IsIntact

two-IsIntact : Integrity.IsIntact codec [] two
unfolding program
two-IsIntact =
    Integrity.commit_tx_batch-IsIntact codec [] true 102 (some 2) (2 ∷ []) (7 ∷ []) [] (batch 2 one)
      codec-RoundTrips (record { block = λ n. refl; count = refl }) (omega arith)
      (Integrity.commit_tx_batch-IsIntact codec [] true 101 (some 1) (1 ∷ []) (7 ∷ []) []
        (batch 1 start) codec-RoundTrips empty-Reads (omega arith) start-IsIntact)

verify_chain_iff_example : (verify_chain codec [] 1 0 two ≡ (0, false)) ↔ (
    (0 < 1)
    × (1 < two.blockchain.size)
    × ((n : ℕ) → 0 ≤ n → n < 1 → Integrity.IsLinked codec [] n two))
verify_chain_iff_example = Integrity.verify_chain_iff codec [] 1 0 two

-- The chain of the two blocks is found to be whole.
verify_chain-two : verify_chain codec [] 1 0 two ≡ (0, false)
unfolding program
verify_chain-two =
    (Integrity.verify_chain_iff codec [] 1 0 two).1
      (omega arith, omega arith, λ n from to. two-IsIntact.links n (omega (arith, to)))

new_blockchain-IsChain_example :
    new_blockchain codec two.db ≡ ok (record two.blockchain { last_processed_block = none })
unfolding program
new_blockchain-IsChain_example =
    Chain.new_blockchain-IsChain codec two.db two.blockchain (omega arith) two-IsIntact

-- A batch that is previewed before it is committed.
abbrev begun : Ledger numbers values ℕ
begun = batch 2 one

commit_tx_batch-get_tx_batch_preview_block_example :
    Preview.IsStored codec [] 102
      (7 ∷ [])
      begun
      two
      (build_block codec (new_block (2 ∷ []) []) [] one.blockchain)
unfolding program get_tx_batch_preview_block
commit_tx_batch-get_tx_batch_preview_block_example =
    Preview.commit_tx_batch-get_tx_batch_preview_block codec [] true 102 (some 2) (2 ∷ []) (7 ∷ [])
      [] begun begun two _ codec-RoundTrips (record { block = λ n. refl; count = refl }) refl refl

commit_tx_batch-IsEnded_example : Ending.IsEnded codec [] (batch 1 start) (ok tt) one
unfolding program
commit_tx_batch-IsEnded_example =
    Ending.commit_tx_batch-IsEnded codec [] true 101 (some 1) (1 ∷ []) (7 ∷ []) [] (batch 1 start)
      refl (λ e. absurd (cc e))
