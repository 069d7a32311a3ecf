-- ===== src/Ledger/Blockchain/Chain.antt =====
-- The blocks of the database as a chain: each block holds the hash of the one before.
use client_sdk.Prelude.{
  ℕ, zero, suc, ◌+◌, ◌<◌, ◌^◌, ◌≡◌, refl, sym, ap, ◌∙◌, subst, ◌≢◌, true, false, Option, none, some,
  List, [], arith, inl, inr, Bool-cases, Option-cases, add64, sub64, add64_of_lt, lookup, insert,
  lookup-insert, nat_eq, ◌==◌, ltb,
}
use client_sdk.Ledger.State.{Result, ok, failed, panicked, ok-injective, Result-cases}
use client_sdk.Ledger.Block.{
  Format, Codec, RoundTrips, Block, block_bytes, unmarshall_block, get_block_hash,
  set_previous_block_hash,
}
use client_sdk.Ledger.Blockchain.{
  Database, BlockWrite, write_block, Blockchain, fetch_blockchain_size_from_db, fetch_block_from_db,
  hash_of_fetched, new_blockchain, build_block, stamp_block, add_persistence_changes_for_new_block,
  block_persistence_status,
}

-- Reads of the database do not fail.
pub record Reads (db : Database) : Type 0 where
  pub block : (n : ℕ) → db.read_fails n ≡ false
  pub count : db.count_fails ≡ false

module _ {F : Format} (C : Codec F) where
  abbrev pub hash_of : Result (Option (Block F)) → Result (List ℕ)
  hash_of (ok fetched) = hash_of_fetched C fetched
  hash_of (failed e) = failed e
  hash_of panicked = panicked

  abbrev pub previous_of : Result (Option (Block F)) → Result (List ℕ)
  previous_of (ok none) = failed []
  previous_of (ok (some block)) = ok block.previous_block_hash
  previous_of (failed e) = failed e
  previous_of panicked = panicked

  -- The hash of a stored block, and the one it holds of the block before.
  abbrev pub hash_at : ℕ → Database → Result (List ℕ)
  hash_at n db = hash_of (fetch_block_from_db C n db)

  abbrev pub previous_at : ℕ → Database → Result (List ℕ)
  previous_at n db = previous_of (fetch_block_from_db C n db)

  -- The hash of the last block of a chain, none where it is empty.
  unfoldable pub IsTip : Database → ℕ → List ℕ → Type 0
  IsTip db zero hash = hash ≡ []
  IsTip db (suc last) hash = hash_at last db ≡ ok hash

  pub record IsChain (db : Database) (size : ℕ) (hash : List ℕ) : Type 0 where
    pub counted : fetch_blockchain_size_from_db db ≡ ok size
    pub tip : IsTip db size hash
    pub links :
        (n : ℕ)
        → suc n < size
        → (h : List ℕ) × (hash_at n db ≡ ok h) × (previous_at (suc n) db ≡ ok h)

  -- A read of the blocks after the write of one.
  fetch_block_from_db-other :
      (n : ℕ) (w : BlockWrite) (db : Database)
      → n ≢ w.block_number
      → fetch_block_from_db C n (write_block w db) ≡ fetch_block_from_db C n db
  unfolding fetch_block_from_db write_block
  fetch_block_from_db-other n w db other =
      let elsewhere : (w.block_number == n) ≡ false = ground (arith, other) in
      let kept : lookup n (insert w.block_number w.bytes db.blocks) ≡ lookup n db.blocks =
        lookup-insert w.block_number n w.bytes db.blocks ∙ rw elsewhere refl in
      rw kept refl

  pub fetch_block_from_db-written :
      (w : BlockWrite) (db : Database) (block : Block F)
      → db.read_fails w.block_number ≡ false
      → C.unmarshal w.bytes ≡ some block
      → fetch_block_from_db C w.block_number (write_block w db) ≡ ok (some block)
  unfolding fetch_block_from_db write_block unmarshall_block
  fetch_block_from_db-written w db block reads bytes =
      let here : (w.block_number == w.block_number) ≡ true = ground arith in
      let held : lookup w.block_number (insert w.block_number w.bytes db.blocks) ≡ some w.bytes =
        lookup-insert w.block_number w.block_number w.bytes db.blocks ∙ rw here refl in
      rw (reads, held, bytes) refl

  -- A written block that is a chain's next: it holds the hash of the last.
  pub record Extends (hash : List ℕ) (w : BlockWrite) (block : Block F) (block_hash : List ℕ)
      : Type 0 where
    pub count : w.block_count ≡ some (suc w.block_number)
    pub bytes : C.unmarshal w.bytes ≡ some block
    pub own : get_block_hash C block ≡ ok block_hash
    pub previous : block.previous_block_hash ≡ hash

  hash_at-tip :
      (db : Database) (n size : ℕ) (hash : List ℕ)
      → size ≡ suc n
      → IsTip db size hash
      → hash_at n db ≡ ok hash
  unfolding IsTip
  hash_at-tip db n size hash last tip = subst (λ m. IsTip db m hash) last tip

  counted-write_block :
      (w : BlockWrite) (db : Database)
      → Reads db
      → w.block_count ≡ some (suc w.block_number)
      → fetch_blockchain_size_from_db (write_block w db) ≡ ok (suc w.block_number)
  unfolding fetch_blockchain_size_from_db write_block
  counted-write_block w db reads count = rw (reads.count, count) refl

  -- A block that extends a chain makes it longer by one when it is written.
  pub write_block-IsChain :
      (db : Database) (hash : List ℕ) (w : BlockWrite) (block : Block F) (block_hash : List ℕ)
      → Reads db
      → Extends hash w block block_hash
      → IsChain db w.block_number hash
      → IsChain (write_block w db) (suc w.block_number) block_hash
  unfolding IsTip hash_of_fetched
  write_block-IsChain db hash w block block_hash reads e chain =
      let size = w.block_number in
      let written = fetch_block_from_db-written w db block (reads.block size) e.bytes in
      record {
        counted = counted-write_block w db reads e.count;
        tip = ap hash_of written ∙ e.own;
        links = λ n below. elim (Bool-cases (suc n == size)) [
          | inr inner ↦
              let elsewhere : suc n ≢ size = ground (arith, inner) in
              let link = chain.links n (omega (arith, elsewhere)) in
              (
                link.0,
                ap hash_of (fetch_block_from_db-other n w db (omega arith)) ∙ link.1,
                ap previous_of (fetch_block_from_db-other (suc n) w db elsewhere) ∙ link.2,
              )
          | inl last ↦
              let q : size ≡ suc n = ground (arith, last) in
              (
                hash,
                ap hash_of (fetch_block_from_db-other n w db (omega (arith, q)))
                    ∙ hash_at-tip db n size hash q chain.tip,
                subst (λ m. previous_at m (write_block w db) ≡ ok hash) q
                    (ap previous_of written ∙ ap ok e.previous),
              )
        ];
      }

  -- What a new block puts into a batch and the blockchain extends the chain.
  pub record Added (chain : Blockchain F) (w : BlockWrite) (chain' : Blockchain F) : Type 0 where
    pub stamped : Block F
    pub block_hash : List ℕ
    pub extends : Extends chain.previous_block_hash w stamped block_hash
    pub number : w.block_number ≡ chain.size
    pub success :
        block_persistence_status C true chain'
        ≡ ok (record {
          size = suc chain.size;
          previous_block_hash = block_hash;
          last_processed_block = none;
        })
    pub size_kept : chain'.size ≡ chain.size
    pub hash_kept : chain'.previous_block_hash ≡ chain.previous_block_hash

  previous-stamp_block :
      (now : ℕ) (block : Block F) (state_hash : List ℕ) (chain : Blockchain F)
      → (stamp_block C now (build_block C block state_hash chain)).previous_block_hash
        ≡ chain.previous_block_hash
  unfolding stamp_block build_block set_previous_block_hash
  previous-stamp_block now block state_hash chain = refl

  -- A block that `addPersistenceChangesForNewBlock` puts into a batch extends the chain.
  pub add_persistence_changes_for_new_block-Added :
      (now : ℕ) (block : Block F) (state_hash : List ℕ) (chain chain' : Blockchain F)
      (w : BlockWrite)
      → RoundTrips C
      → chain.size + 1 < 2 ^ 64
      → add_persistence_changes_for_new_block C now block state_hash chain ≡ ok (w, chain')
      → Added chain w chain'
  unfolding add_persistence_changes_for_new_block block_bytes block_persistence_status RoundTrips
  add_persistence_changes_for_new_block-Added now block state_hash chain chain' w trips room e =
      let stamped = stamp_block C now (build_block C block state_hash chain) in
      let next : add64 chain.size 1 ≡ suc chain.size =
        add64_of_lt chain.size 1 room ∙ omega arith in
      elim (Result-cases (get_block_hash C stamped)) [
        | inr (inl (_, bad)) ↦ ground (arith, bad, e)
        | inr (inr bad) ↦ ground (arith, bad, e)
        | inl (block_hash, own) ↦ elim (Option-cases (C.marshal stamped)) [
          | inl bad ↦ ground (arith, own, bad, e)
          | inr (bytes, marshalled) ↦
              let made : BlockWrite × Blockchain F = (
                record {
                  block_number = chain.size;
                  bytes = bytes;
                  block_count = some (add64 chain.size 1);
                },
                record chain {
                  last_processed_block = some (record {
                    block = stamped;
                    block_number = chain.size;
                    block_hash = block_hash;
                  });
                },
              ) in
              let makes : add_persistence_changes_for_new_block C now block state_hash chain
                  ≡ ok made =
                rw (own, marshalled, add_persistence_changes_for_new_block) refl in
              subst (λ (p : BlockWrite × Blockchain F). Added chain p.0 p.1)
                (ok-injective made (w, chain') (sym makes ∙ e))
                (record {
                  stamped = stamped;
                  block_hash = block_hash;
                  extends = record {
                    count = ap some next;
                    bytes = trips stamped bytes marshalled;
                    own = own;
                    previous = previous-stamp_block now block state_hash chain;
                  };
                  number = refl;
                  success = rw next refl;
                  size_kept = refl;
                  hash_kept = refl;
                })
        ]
      ]

  new_blockchain-tip :
      (db : Database) (size : ℕ) (hash : List ℕ)
      → size < 2 ^ 64
      → fetch_blockchain_size_from_db db ≡ ok size
      → IsTip db size hash
      → new_blockchain C db
        ≡ ok (record { size = size; previous_block_hash = hash; last_processed_block = none })
  unfolding new_blockchain IsTip
  new_blockchain-tip db zero hash bound counted tip = rw (counted, tip, new_blockchain) refl
  new_blockchain-tip db (suc last) hash bound counted tip =
      let before : sub64 (suc last) 1 ≡ last = omega (arith, bound) in
      elim (Result-cases (fetch_block_from_db C last db)) [
        | inr (inl (_, bad)) ↦ ground (arith, bad, tip)
        | inr (inr bad) ↦ ground (arith, bad, tip)
        | inl (fetched, found) ↦
            let own : hash_of_fetched C fetched ≡ ok hash = ap hash_of (sym found) ∙ tip in
            let positive : ltb 0 (suc last) ≡ true = ground arith in
            rw (counted, positive, before, found, own, new_blockchain) refl
      ]

  -- Where the blocks of the database are a chain, a new start finds its size and last hash.
  pub new_blockchain-IsChain :
      (db : Database) (chain : Blockchain F)
      → chain.size < 2 ^ 64
      → IsChain db chain.size chain.previous_block_hash
      → new_blockchain C db ≡ ok (record chain { last_processed_block = none })
  new_blockchain-IsChain db chain bound valid =
      new_blockchain-tip db chain.size chain.previous_block_hash bound valid.counted valid.tip
