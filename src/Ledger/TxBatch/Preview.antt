-- ===== src/Ledger/TxBatch/Preview.antt =====
-- The preview of a block, and the block that the commit of the same batch stores.
use client_sdk.Prelude.{
  ℕ, ◌≡◌, refl, sym, ap, ◌∙◌, subst, Bool, true, false, Option, none, some, List, [], inl, inr,
  Bool-cases, Eq, add64,
}
use client_sdk.Ledger.State
use client_sdk.Ledger.State.{
  Result, ok, Result-cases, ok-injective, HashableState, State, update_working_set,
}
use client_sdk.Ledger.Block.{Format, Codec, RoundTrips, Block, new_block, get_block_hash}
use client_sdk.Ledger.Blockchain.{
  BlockWrite, write_block, Blockchain, fetch_block_from_db, add_persistence_changes_for_new_block,
  build_block, block_persistence_status,
}
use client_sdk.Ledger.Blockchain.Chain.{Reads, fetch_block_from_db-written}
use client_sdk.Ledger.TxBatch.{
  Ledger, is_valid_id_begin, is_valid_id_commit_or_rollback, reset_for_next_tx_group, give_up,
  complete, block_of_batch, write_batch, commit_block, get_tx_batch_preview_block, commit_tx_batch,
}
use client_sdk.Ledger.TxBatch.Hashes.{
  preview_of, non_hash_data-stamped, get_block_hash-preview, add_persistence_changes-IsAdded,
}
use client_sdk.Ledger.TxBatch.Ending.{update_working_set_again}

module _ {F : Format} (C : Codec F) {S : HashableState} (new_batch : S.Batch) {I : Type 0}
    ⦃E : Eq I⦄ where
  -- The block that the ledger `y` has stored above the blocks of the ledger `l` has the hash of the
  -- preview, which is the last hash that `y` knows, and beside what is hashed the results and the
  -- time.
  pub record IsStored (now : ℕ) (results : List F.TransactionResult) (l y : Ledger F S I)
      (preview : Block F) : Type 0 where
    pub stored : Block F
    pub beside :
        stored.non_hash_data
        ≡ some (record { transaction_results = results; local_ledger_commit_timestamp = some now })
    pub found : fetch_block_from_db C l.blockchain.size y.db ≡ ok (some stored)
    pub same : get_block_hash C stored ≡ get_block_hash C preview
    pub tip : get_block_hash C preview ≡ ok y.blockchain.previous_block_hash
    pub size : y.blockchain.size ≡ add64 l.blockchain.size 1

  give_up-fails : (e : List ℕ) (x y : Ledger F S I) → give_up C new_batch e x ≡ (ok tt, y) → ⊥
  unfolding give_up block_persistence_status
  give_up-fails e x y given = cc (ap (λ (r : Result (Unit {0}) × Ledger F S I). r.0) given)

  write_batch-eq-ok :
      (written : Bool) (w : BlockWrite) (chain chain' : Blockchain F) (x y : Ledger F S I)
      → block_persistence_status C true chain ≡ ok chain'
      → write_batch C new_batch written w chain x ≡ (ok tt, y)
      → (write_block w x.db ≡ y.db) × (chain' ≡ y.blockchain)
  unfolding write_batch complete reset_for_next_tx_group block_persistence_status
  write_batch-eq-ok false w chain chain' x y success e = absurd (give_up-fails [] _ y e)
  write_batch-eq-ok true w chain chain' x y success e =
      let done = rw success at e in
      (
        ap (λ (r : Result (Unit {0}) × Ledger F S I). r.1.db) done,
        ap (λ (r : Result (Unit {0}) × Ledger F S I). r.1.blockchain) done,
      )

  commit_block-IsStored :
      (written : Bool) (now : ℕ) (transactions : List F.Transaction)
      (results : List F.TransactionResult) (metadata state_hash : List ℕ) (x y : Ledger F S I)
      → (trips : RoundTrips C) → Reads x.db
      → commit_block C new_batch written now transactions results metadata state_hash x ≡ (ok tt, y)
      → IsStored now results x y
          (preview_of C trips now transactions results metadata state_hash x.blockchain)
  unfolding commit_block
  commit_block-IsStored written now transactions results metadata state_hash x y trips reads e =
      let block = block_of_batch transactions results metadata in
      elim (Result-cases
        (add_persistence_changes_for_new_block C now block state_hash x.blockchain)) [
          | inr (inl (text, bad)) ↦ absurd (give_up-fails text x y (rw (bad, commit_block) at e))
          | inr (inr bad) ↦ absurd (
              cc (ap (λ (r : Result (Unit {0}) × Ledger F S I). r.0) (rw (bad, commit_block) at e)))
          | inl ((w, chain), made) ↦
              let a =
                add_persistence_changes-IsAdded C trips now transactions results metadata state_hash
                  x.blockchain w chain made in
              let (db, blockchain) =
                write_batch-eq-ok written w chain _ x y a.success (rw (made, commit_block) at e) in
              let preview =
                get_block_hash-preview C trips now transactions results metadata state_hash
                  x.blockchain a.hash a.own in
              record {
                stored = _;
                beside =
                    non_hash_data-stamped C trips now transactions results metadata state_hash
                      x.blockchain;
                found =
                    ap (λ n. fetch_block_from_db C n y.db) (sym a.number)
                    ∙ ap (fetch_block_from_db C w.block_number) (sym db)
                    ∙ fetch_block_from_db-written C w x.db _ (reads.block w.block_number) a.bytes;
                same = a.own ∙ sym preview;
                tip = preview ∙ ap (λ (b : Blockchain F). ok b.previous_block_hash) blockchain;
                size = ap (λ (b : Blockchain F). b.size) (sym blockchain);
              }
        ]

  is_valid_id-state :
      (id : Option I) (l : Ledger F S I) (s : State S)
      → is_valid_id_commit_or_rollback C new_batch id (record l { state = s })
        ≡ is_valid_id_commit_or_rollback C new_batch id l
  unfolding is_valid_id_commit_or_rollback is_valid_id_begin
  is_valid_id-state none l s = refl
  is_valid_id-state (some id) l s = refl

  -- A commit over a working set that is up to date, whose hash is known.
  commit_tx_batch-IsStored :
      (written : Bool) (now : ℕ) (id : Option I) (transactions : List F.Transaction)
      (results : List F.TransactionResult) (metadata state_hash : List ℕ) (l y : Ledger F S I)
      → (trips : RoundTrips C) → Reads l.db
      → update_working_set l.state ≡ l.state
      → is_valid_id_commit_or_rollback C new_batch id l ≡ true
      → S.compute_crypto_hash l.state.state_impl ≡ ok state_hash
      → commit_tx_batch C new_batch written now id transactions results metadata l ≡ (ok tt, y)
      → IsStored now results l y
          (build_block C (new_block transactions metadata) state_hash l.blockchain)
  unfolding commit_tx_batch State.get_hash
  commit_tx_batch-IsStored written now id transactions results metadata state_hash l y trips reads
        fresh allowed hashed e =
      let found : S.compute_crypto_hash (update_working_set l.state).state_impl ≡ ok state_hash =
        ap (λ (s : State S). S.compute_crypto_hash s.state_impl) fresh ∙ hashed in
      let r =
        commit_block-IsStored written now transactions results metadata state_hash
          (record l { state = update_working_set l.state }) y trips reads
          (rw (allowed, found, commit_tx_batch) at e) in
      record {
        stored = r.stored;
        beside = r.beside;
        found = r.found;
        same = r.same;
        tip = r.tip;
        size = r.size;
      }

  -- Where GetTXBatchPreviewBlock returns a block, and then CommitTxBatch of the same batch,
  -- transactions and metadata succeeds, whatever the results and the time are, the block that it has
  -- stored at the end of the blockchain has the hash of the preview, and holds these results and
  -- this time beside what is hashed. The hash is the one the ledger keeps as that of its last block,
  -- and the blockchain is longer by one. Protobuf reads back what it writes, and reads of the database
  -- do not fail.
  pub commit_tx_batch-get_tx_batch_preview_block :
      (written : Bool) (now : ℕ) (id : Option I) (transactions : List F.Transaction)
      (results : List F.TransactionResult) (metadata : List ℕ) (l x y : Ledger F S I)
      (preview : Block F)
      → RoundTrips C
      → Reads l.db
      → get_tx_batch_preview_block C new_batch id transactions metadata l ≡ (ok preview, x)
      → commit_tx_batch C new_batch written now id transactions results metadata x ≡ (ok tt, y)
      → IsStored now results l y preview
  unfolding get_tx_batch_preview_block commit_tx_batch State.get_hash
  commit_tx_batch-get_tx_batch_preview_block written now id transactions results metadata l x y
        preview trips reads previewed committed =
      let l' : Ledger F S I = record l { state = update_working_set l.state } in
      elim (Bool-cases (is_valid_id_commit_or_rollback C new_batch id l)) [
        | inr refused ↦ absurd (
            cc (
              ap (λ (r : Result (Block F) × Ledger F S I). r.0)
                (rw (refused, get_tx_batch_preview_block) at previewed)))
        | inl allowed ↦ elim (Result-cases (S.compute_crypto_hash l'.state.state_impl)) [
          | inr (inl (text, bad)) ↦ absurd (
              cc (
                ap (λ (r : Result (Block F) × Ledger F S I). r.0)
                  (rw (allowed, bad, get_tx_batch_preview_block) at previewed)))
          | inr (inr bad) ↦ absurd (
              cc (
                ap (λ (r : Result (Block F) × Ledger F S I). r.0)
                  (rw (allowed, bad, get_tx_batch_preview_block) at previewed)))
          | inl (state_hash, hashed) ↦
              let given = rw (allowed, hashed, get_tx_batch_preview_block) at previewed in
              let same : l' ≡ x = ap (λ (r : Result (Block F) × Ledger F S I). r.1) given in
              let made =
                ok-injective _ preview (ap (λ (r : Result (Block F) × Ledger F S I). r.0) given) in
              let r =
                commit_tx_batch-IsStored written now id transactions results metadata state_hash l'
                  y trips reads (update_working_set_again l.state)
                  (is_valid_id-state id l (update_working_set l.state) ∙ allowed) hashed
                  (subst
                    (λ z.
                      commit_tx_batch C new_batch written now id transactions results metadata z
                      ≡ (ok tt, y))
                    (sym same) committed) in
              subst (IsStored now results l y) made (record {
                stored = r.stored;
                beside = r.beside;
                found = r.found;
                same = r.same;
                tip = r.tip;
                size = r.size;
              })
        ]
      ]
