-- ===== src/Ledger/TxBatch/Ending.antt =====
-- What a ledger holds after the end of a batch.
use client_sdk.Prelude.{
  ℕ, ◌≡◌, ◌≢◌, refl, ap, ◌∙◌, Bool, true, false, Option, none, List, [], inl, inr, ltb, Bool-cases,
  Option-cases, Eq,
}
use client_sdk.Ledger.Delta.{new_state_delta}
use client_sdk.Ledger.State
use client_sdk.Ledger.State.{
  Result, ok, failed, panicked, Result-cases, HashableState, State, clear_in_memory_changes,
  update_working_set,
}
use client_sdk.Ledger.Block.{Format, Codec}
use client_sdk.Ledger.Blockchain.{
  BlockWrite, Blockchain, add_persistence_changes_for_new_block, block_persistence_status,
}
use client_sdk.Ledger.TxBatch.{
  Ledger, is_valid_id_commit_or_rollback, reset_for_next_tx_group, give_up, complete,
  block_of_batch, write_batch, commit_block, commit_tx_batch,
}

module _ {S : HashableState} where
  -- A working set that is up to date stays as it is.
  pub update_working_set_again :
      (s : State S) → update_working_set (update_working_set s) ≡ update_working_set s
  unfolding update_working_set
  update_working_set_again s = elim (Bool-cases s.update_state_impl) [
    | inl stale ↦ rw (stale, update_working_set) refl
    | inr fresh ↦
        let stays : update_working_set s ≡ s = simp (update_working_set, fresh) in
        ap update_working_set stays
  ]

  -- What the update of the working set leaves alone.
  record IsUpdated (s s' : State S) : Type 0 where
    delta : s'.current_tx_state_delta ≡ s.current_tx_state_delta
    uuid : s'.current_tx_uuid ≡ s.current_tx_uuid
    fresh : s'.update_state_impl ≡ false

  update_working_set-IsUpdated : (s : State S) → IsUpdated s (update_working_set s)
  unfolding update_working_set
  update_working_set-IsUpdated s = elim (Bool-cases s.update_state_impl) [
    | inl stale ↦
        rw (stale, update_working_set) (record { delta = refl; uuid = refl; fresh = refl })
    | inr fresh ↦
        rw (fresh, update_working_set) (record { delta = refl; uuid = refl; fresh = refl })
  ]

abbrev pub succeeded : Result (Unit {0}) → Bool
succeeded (ok _) = true
succeeded (failed _) = false
succeeded panicked = false

module _ {F : Format} (C : Codec F) {S : HashableState} (new_batch : S.Batch) {I : Type 0}
    ⦃E : Eq I⦄ where
  -- The ledger `y` after the end of a batch of the ledger `l`, with the result of the end.
  pub record IsEnded (l : Ledger F S I) (result : Result (Unit {0})) (y : Ledger F S I)
      : Type 0 where
    pub id : y.current_id ≡ none
    pub changes : y.state.state_delta ≡ new_state_delta
    pub hashes : y.state.tx_state_delta_hash ≡ []
    pub working_set :
        y.state.state_impl
        ≡ S.clear_working_set (succeeded result) (update_working_set l.state).state_impl
    pub fresh : y.state.update_state_impl ≡ false
    pub block : y.blockchain.last_processed_block ≡ none
    pub tx_delta : y.state.current_tx_state_delta ≡ l.state.current_tx_state_delta
    pub tx_uuid : y.state.current_tx_uuid ≡ l.state.current_tx_uuid

  -- A call that does not panic ends the batch.
  unfoldable pub Ends : Ledger F S I → Result (Unit {0}) × Ledger F S I → Type 0
  Ends l r = r.0 ≢ panicked → IsEnded l r.0 r.1

  give_up-Ends :
      (e : List ℕ) (l x : Ledger F S I)
      → x.state ≡ update_working_set l.state
      → Ends l (give_up C new_batch e x)
  unfolding Ends give_up block_persistence_status reset_for_next_tx_group clear_in_memory_changes
  give_up-Ends e l x same =
      let updated = update_working_set-IsUpdated l.state in
      λ _. record {
        id = refl;
        changes = refl;
        hashes = refl;
        working_set = ap (λ (s : State S). S.clear_working_set false s.state_impl) same;
        fresh = ap (λ (s : State S). s.update_state_impl) same ∙ updated.fresh;
        block = refl;
        tx_delta = ap (λ (s : State S). s.current_tx_state_delta) same ∙ updated.delta;
        tx_uuid = ap (λ (s : State S). s.current_tx_uuid) same ∙ updated.uuid;
      }

  complete-Ends :
      (l x : Ledger F S I) → x.state ≡ update_working_set l.state → Ends l (complete C new_batch x)
  unfolding Ends complete reset_for_next_tx_group clear_in_memory_changes block_persistence_status
  complete-Ends l x same =
      let updated = update_working_set-IsUpdated l.state in
      elim (Option-cases x.blockchain.last_processed_block) [
        | inl missing ↦ rw (missing, complete) (λ panics. absurd (panics refl))
        | inr (processed, held) ↦
            rw (held, complete)
              (λ _. record {
                id = refl;
                changes = refl;
                hashes = refl;
                working_set = ap (λ (s : State S). S.clear_working_set true s.state_impl) same;
                fresh = ap (λ (s : State S). s.update_state_impl) same ∙ updated.fresh;
                block = refl;
                tx_delta = ap (λ (s : State S). s.current_tx_state_delta) same ∙ updated.delta;
                tx_uuid = ap (λ (s : State S). s.current_tx_uuid) same ∙ updated.uuid;
              })
      ]

  kept :
      (block_number : ℕ) (l x : Ledger F S I)
      → x.state ≡ update_working_set l.state
      → (State.add_changes_for_persistence block_number x.state new_batch).0
        ≡ update_working_set l.state
  unfolding State.add_changes_for_persistence
  kept block_number l x same =
      let again : update_working_set x.state ≡ update_working_set l.state =
        ap update_working_set same ∙ update_working_set_again l.state in
      elim (Bool-cases (ltb block_number (update_working_set x.state).history_state_delta_size)) [
        | inl early ↦ rw (early, State.add_changes_for_persistence) again
        | inr late ↦ rw (late, State.add_changes_for_persistence) again
      ]

  write_batch-Ends :
      (written : Bool) (w : BlockWrite) (chain : Blockchain F) (l x : Ledger F S I)
      → x.state ≡ update_working_set l.state
      → Ends l (write_batch C new_batch written w chain x)
  unfolding write_batch
  write_batch-Ends false w chain l x same = give_up-Ends [] l _ (kept w.block_number l x same)
  write_batch-Ends true w chain l x same = complete-Ends l _ (kept w.block_number l x same)

  commit_block-Ends :
      (written : Bool) (now : ℕ) (transactions : List F.Transaction)
      (results : List F.TransactionResult) (metadata state_hash : List ℕ) (l x : Ledger F S I)
      → x.state ≡ update_working_set l.state
      → Ends l (commit_block C new_batch written now transactions results metadata state_hash x)
  unfolding commit_block Ends
  commit_block-Ends written now transactions results metadata state_hash l x same =
      let block = block_of_batch transactions results metadata in
      elim (Result-cases
        (add_persistence_changes_for_new_block C now block state_hash x.blockchain)) [
          | inl ((w, chain), made) ↦
              rw (made, commit_block) (write_batch-Ends written w chain l x same)
          | inr (inl (e, bad)) ↦ rw (bad, commit_block) (give_up-Ends e l x same)
          | inr (inr bad) ↦ rw (bad, commit_block) (λ panics. absurd (panics refl))
        ]

  -- CommitTxBatch of the batch in progress ends it, whether it succeeds or returns an error. No batch
  -- is in progress after it; the state holds no change of a finished transaction and no hash of one;
  -- the state implementation is the one to which the last changes were passed on, with its working
  -- set cleared, as persisted exactly where the call succeeds; the blockchain has no block under
  -- way; the changes of a transaction that is still running stay. A panic is the only exception.
  pub commit_tx_batch-IsEnded :
      (written : Bool) (now : ℕ) (id : Option I) (transactions : List F.Transaction)
      (results : List F.TransactionResult) (metadata : List ℕ) (l : Ledger F S I)
      → is_valid_id_commit_or_rollback C new_batch id l ≡ true
      → (commit_tx_batch C new_batch written now id transactions results metadata l).0 ≢ panicked
      → IsEnded l
          (commit_tx_batch C new_batch written now id transactions results metadata l).0
          (commit_tx_batch C new_batch written now id transactions results metadata l).1
  unfolding commit_tx_batch Ends State.get_hash
  commit_tx_batch-IsEnded written now id transactions results metadata l allowed =
      let x : Ledger F S I = record l { state = update_working_set l.state } in
      elim (Result-cases (S.compute_crypto_hash (update_working_set l.state).state_impl)) [
        | inl (state_hash, hashed) ↦
            rw (allowed, hashed, commit_tx_batch)
              (commit_block-Ends written now transactions results metadata state_hash l x refl)
        | inr (inl (e, bad)) ↦ rw (allowed, bad, commit_tx_batch) (give_up-Ends e l x refl)
        | inr (inr bad) ↦ rw (allowed, bad, commit_tx_batch) (λ panics. absurd (panics refl))
      ]
