-- ===== src/Ledger/TxBatch/Hashes.antt =====
-- The hash of the block that a commit puts into its write batch, and that of the block's preview.
use client_sdk.Prelude.{
  ℕ, ◌≡◌, refl, sym, ap, ◌∙◌, subst, true, none, some, List, arith, inl, inr, Option-cases, add64,
}
use client_sdk.Ledger.State.{ok, Result-cases, ok-injective}
use client_sdk.Ledger.Block.{
  Format, Codec, RoundTrips, Block, new_block, block_bytes, unmarshall_block, get_block_hash,
  set_previous_block_hash,
}
use client_sdk.Ledger.Blockchain.{
  BlockWrite, Blockchain, add_persistence_changes_for_new_block, build_block, stamp, stamp_block,
  block_persistence_status,
}
use client_sdk.Ledger.TxBatch.{block_of_batch}

module _ {F : Format} (C : Codec F) (trips : RoundTrips C) where
  -- A block that has a hash can be marshalled, and so can its copy without what is not hashed.
  record HasHash (block : Block F) (hash : List ℕ) : Type 0 where
    bytes : List ℕ
    hashed : List ℕ
    written : C.marshal block ≡ some bytes
    bare : C.marshal (record block { non_hash_data = none }) ≡ some hashed
    is : C.crypto_hash hashed ≡ hash

  get_block_hash-HasHash :
      (block : Block F) (hash : List ℕ) → get_block_hash C block ≡ ok hash → HasHash block hash
  unfolding get_block_hash block_bytes unmarshall_block RoundTrips
  get_block_hash-HasHash block hash e = elim (Option-cases (C.marshal block)) [
    | inl bad ↦ absurd (ground (arith, bad, e))
    | inr (bytes, written) ↦
        let copy = trips block bytes written in
        elim (Option-cases (C.marshal (record block { non_hash_data = none }))) [
          | inl bad ↦ absurd (ground (arith, written, copy, bad, e))
          | inr (hashed, bare) ↦ record {
            bytes = bytes;
            hashed = hashed;
            written = written;
            bare = bare;
            is = ground (arith, written, copy, bare, e);
          }
        ]
  ]

  -- The hash of a block that can be marshalled is that of its bytes without what is not hashed.
  get_block_hash-bare :
      (block : Block F) (bytes hashed : List ℕ)
      → C.marshal block ≡ some bytes
      → C.marshal (record block { non_hash_data = none }) ≡ some hashed
      → get_block_hash C block ≡ ok (C.crypto_hash hashed)
  unfolding get_block_hash block_bytes unmarshall_block RoundTrips
  get_block_hash-bare block bytes hashed marshalled bare =
      rw (marshalled, trips block bytes marshalled, bare, get_block_hash) refl

  module _ (now : ℕ) (transactions : List F.Transaction) (results : List F.TransactionResult)
      (metadata state_hash : List ℕ) (chain : Blockchain F) where
    abbrev pub preview_of : Block F
    preview_of = build_block C (new_block transactions metadata) state_hash chain

    abbrev pub stamped_of : Block F
    stamped_of =
        stamp_block C now
          (build_block C (block_of_batch transactions results metadata) state_hash chain)

    pub non_hash_data-stamped :
        stamped_of.non_hash_data
        ≡ some (record { transaction_results = results; local_ledger_commit_timestamp = some now })
    unfolding stamp stamp_block build_block block_of_batch set_previous_block_hash
    non_hash_data-stamped = refl

    pub get_block_hash-preview :
        (hash : List ℕ)
        → get_block_hash C stamped_of ≡ ok hash
        → get_block_hash C preview_of ≡ ok hash
    unfolding stamp_block build_block new_block block_of_batch set_previous_block_hash
    get_block_hash-preview hash own =
        let h = get_block_hash-HasHash stamped_of hash own in
        get_block_hash-bare preview_of h.hashed h.hashed h.bare h.bare ∙ ap ok h.is

    -- What a block that is put into a write batch is.
    pub record IsAdded (w : BlockWrite) (chain' : Blockchain F) : Type 0 where
      pub hash : List ℕ
      pub own : get_block_hash C stamped_of ≡ ok hash
      pub number : w.block_number ≡ chain.size
      pub bytes : C.unmarshal w.bytes ≡ some stamped_of
      pub success :
          block_persistence_status C true chain'
          ≡ ok (record {
            size = add64 chain.size 1;
            previous_block_hash = hash;
            last_processed_block = none;
          })

    pub add_persistence_changes-IsAdded :
        (w : BlockWrite) (chain' : Blockchain F)
        → add_persistence_changes_for_new_block C now
            (block_of_batch transactions results metadata)
            state_hash
            chain
          ≡ ok (w, chain')
        → IsAdded w chain'
    unfolding add_persistence_changes_for_new_block block_bytes block_persistence_status RoundTrips
    add_persistence_changes-IsAdded w chain' e =
        let stamped = stamped_of in
        elim (Result-cases (get_block_hash C stamped)) [
          | inr (inl (_, bad)) ↦ absurd (ground (arith, bad, e))
          | inr (inr bad) ↦ absurd (ground (arith, bad, e))
          | inl (hash, own) ↦ elim (Option-cases (C.marshal stamped)) [
            | inl bad ↦ absurd (ground (arith, own, bad, e))
            | inr (bytes, marshalled) ↦
                let made : BlockWrite × Blockchain F = (
                  record {
                    block_number = chain.size;
                    bytes = bytes;
                    block_count = some (add64 chain.size 1);
                  },
                  record chain {
                    last_processed_block =
                        some (record {
                          block = stamped;
                          block_number = chain.size;
                          block_hash = hash;
                        });
                  },
                ) in
                let makes : add_persistence_changes_for_new_block C now
                      (block_of_batch transactions results metadata) state_hash chain
                    ≡ ok made =
                  rw (own, marshalled, add_persistence_changes_for_new_block) refl in
                let same : made ≡ (w, chain') = ok-injective made (w, chain') (sym makes ∙ e) in
                subst (λ (p : BlockWrite × Blockchain F). IsAdded p.0 p.1) same
                  (record {
                    hash = hash;
                    own = own;
                    number = refl;
                    bytes = trips stamped bytes marshalled;
                    success = refl;
                  })
          ]
        ]
