-- ===== src/Ledger/TxBatch/Integrity.antt =====
-- The chain of blocks under the operations of the ledger.
use client_sdk.Prelude.{
  ℕ, zero, suc, ◌+◌, ◌-◌, ◌<◌, ◌^◌, ◌≡◌, ◌↔◌, refl, sym, ap, ◌∙◌, subst, Bool, true, false, Option,
  none, some, List, [], arith, inl, inr, Bool-cases, Option-cases, ◌≤◌, ◌≢◌, Eq, ◌==◌, leb, nat_eq,
}
use client_sdk.Ledger.Text.{text_eq, text_beq_iff}
use client_sdk.Ledger.State
use client_sdk.Ledger.State.{
  Result, ok, failed, panicked, Result-cases, ok-injective, HashableState, State,
}
use client_sdk.Ledger.Block.{Format, Codec, RoundTrips, get_block_hash}
use client_sdk.Ledger.Blockchain.{
  Blockchain, BlockWrite, write_block, get_block, fetch_block_from_db, hash_of_fetched,
  add_persistence_changes_for_new_block, block_persistence_status,
}
use client_sdk.Ledger.Blockchain.Chain.{
  Reads, IsChain, hash_at, previous_at, Added, write_block-IsChain,
  add_persistence_changes_for_new_block-Added,
}
use client_sdk.Ledger.TxBatch.{
  Ledger, is_valid_id_commit_or_rollback, reset_for_next_tx_group, give_up, complete,
  block_of_batch, write_batch, commit_block, commit_tx_batch, get_block_by_number, verify_link,
  verify_loop, verify_chain,
}

module _ {F : Format} (C : Codec F) {S : HashableState} (new_batch : S.Batch) {I : Type 0}
    ⦃E : Eq I⦄ where
  -- The blocks of the ledger's database are a chain, which the ledger knows the end of.
  unfoldable pub IsIntact : Ledger F S I → Type 0
  IsIntact l = IsChain C l.db l.blockchain.size l.blockchain.previous_block_hash

  give_up-IsIntact :
      (e : List ℕ) (l : Ledger F S I) → IsIntact l → IsIntact (give_up C new_batch e l).1
  unfolding give_up block_persistence_status reset_for_next_tx_group IsIntact
  give_up-IsIntact e l intact = intact

  write_batch-IsIntact :
      (written : Bool) (w : BlockWrite) (chain : Blockchain F) (l : Ledger F S I)
      → Reads l.db
      → Added C l.blockchain w chain
      → IsIntact l
      → IsIntact (write_batch C new_batch written w chain l).1
  unfolding write_batch IsIntact reset_for_next_tx_group complete
  write_batch-IsIntact false w chain l reads added intact =
      give_up-IsIntact []
        (record l {
          blockchain = chain;
          state = (State.add_changes_for_persistence w.block_number l.state new_batch).0;
        })
        (rw (added.size_kept, added.hash_kept) intact)
  write_batch-IsIntact true w chain l reads added intact =
      rw (added.success, complete)
        (subst (λ size. IsChain C (write_block w l.db) (suc size) added.block_hash) added.number
          (write_block-IsChain C l.db l.blockchain.previous_block_hash w added.stamped
            added.block_hash reads added.extends
            (subst (λ size. IsChain C l.db size l.blockchain.previous_block_hash) (sym added.number)
              intact)))

  commit_block-IsIntact :
      (written : Bool) (now : ℕ) (transactions : List F.Transaction)
      (results : List F.TransactionResult) (metadata state_hash : List ℕ) (l : Ledger F S I)
      → RoundTrips C
      → Reads l.db
      → l.blockchain.size + 1 < 2 ^ 64
      → IsIntact l
      → IsIntact (commit_block C new_batch written now transactions results metadata state_hash l).1
  unfolding commit_block IsIntact
  commit_block-IsIntact written now transactions results metadata state_hash l trips reads room
        intact =
      let block = block_of_batch transactions results metadata in
      elim (Result-cases
        (add_persistence_changes_for_new_block C now block state_hash l.blockchain)) [
          | inl ((w, chain), made) ↦
              rw (made, commit_block)
                (write_batch-IsIntact written w chain l reads
                  (add_persistence_changes_for_new_block-Added C now block state_hash l.blockchain
                    chain w trips room made)
                  intact)
          | inr (inl (e, bad)) ↦ rw (bad, commit_block) (give_up-IsIntact e l intact)
          | inr (inr bad) ↦ rw (bad, commit_block) intact
        ]

  -- CommitTxBatch keeps the blocks a chain, whatever it returns and whether the write to the
  -- database succeeds or not.
  pub commit_tx_batch-IsIntact :
      (written : Bool) (now : ℕ) (id : Option I) (transactions : List F.Transaction)
      (results : List F.TransactionResult) (metadata : List ℕ) (l : Ledger F S I)
      → RoundTrips C
      → Reads l.db
      → l.blockchain.size + 1 < 2 ^ 64
      → IsIntact l
      → IsIntact (commit_tx_batch C new_batch written now id transactions results metadata l).1
  unfolding commit_tx_batch IsIntact
  commit_tx_batch-IsIntact written now id transactions results metadata l trips reads room intact =
      elim (Bool-cases (is_valid_id_commit_or_rollback C new_batch id l)) [
        | inr refused ↦ rw (refused, commit_tx_batch) intact
        | inl allowed ↦ elim (Result-cases (State.get_hash l.state).0) [
          | inl (state_hash, hashed) ↦
              rw (allowed, hashed, commit_tx_batch)
                (commit_block-IsIntact written now transactions results metadata state_hash
                  (record l { state = (State.get_hash l.state).1 }) trips reads room intact)
          | inr (inl (e, bad)) ↦
              rw (allowed, bad, commit_tx_batch)
                (give_up-IsIntact e (record l { state = (State.get_hash l.state).1 }) intact)
          | inr (inr bad) ↦ rw (allowed, bad, commit_tx_batch) intact
        ]
      ]

  -- The block after `n` holds the hash of the block `n`.
  abbrev pub IsLinked : ℕ → Ledger F S I → Type 0
  IsLinked n l = (h : List ℕ) × (hash_at C n l.db ≡ ok h) × (previous_at C (suc n) l.db ≡ ok h)

  -- A step of `VerifyChain` goes on exactly over a link that holds.
  verify_link_iff :
      (i : ℕ) (l : Ledger F S I)
      → suc i < l.blockchain.size
      → (verify_link C new_batch i l ≡ none) ↔ IsLinked i l
  unfolding verify_link get_block_by_number get_block hash_of_fetched
  verify_link_iff i l below =
      let inside : leb l.blockchain.size (suc i) ≡ false = ground (arith, below) in
      let inside' : leb l.blockchain.size i ≡ false = ground (arith, below) in
      elim (Result-cases (fetch_block_from_db C (suc i) l.db)) [
        | inr (inl (e, bad)) ↦
            rw (inside, bad, verify_link) (λ goes. absurd (cc goes), λ link. cc (link.2))
        | inr (inr bad) ↦
            rw (inside, bad, verify_link) (λ goes. absurd (cc goes), λ link. cc (link.2))
        | inl (none, found) ↦
            rw (inside, found, verify_link) (λ goes. absurd (cc goes), λ link. cc (link.2))
        | inl (some current, found) ↦ elim (Result-cases (fetch_block_from_db C i l.db)) [
          | inr (inl (e, bad)) ↦
              rw (inside, found, inside', bad, verify_link)
                (λ goes. absurd (cc goes), λ link. cc (link.1))
          | inr (inr bad) ↦
              rw (inside, found, inside', bad, verify_link)
                (λ goes. absurd (cc goes), λ link. cc (link.1))
          | inl (none, found') ↦
              rw (inside, found, inside', found', verify_link)
                (λ goes. absurd (cc goes), λ link. cc (link.1))
          | inl (some previous, found') ↦ elim (Result-cases (get_block_hash C previous)) [
            | inr (inl (e, bad)) ↦
                rw (inside, found, inside', found', bad, verify_link)
                  (λ goes. absurd (cc goes), λ link. cc (link.1))
            | inr (inr bad) ↦
                rw (inside, found, inside', found', bad, verify_link)
                  (λ goes. absurd (cc goes), λ link. cc (link.1))
            | inl (hash, own) ↦
                let held = text_beq_iff hash current.previous_block_hash in
                elim (Bool-cases (hash == current.previous_block_hash)) [
                  | inl same ↦
                      rw (inside, found, inside', found', own, same, verify_link)
                        (λ goes. (hash, refl, ap ok (sym (held.0 same))), λ link. refl)
                  | inr other ↦
                      rw (inside, found, inside', found', own, other, verify_link)
                        (
                          λ goes. absurd (cc goes),
                          λ link.
                              let same : hash ≡ current.previous_block_hash =
                                ok-injective _ _ (link.1 ∙ sym link.2) in
                              absurd (cc (sym other ∙ held.1 same)),
                        )
                ]
          ]
        ]
      ]

  -- What `VerifyChain` returns for a link that does not hold is not the answer for a whole chain.
  verify_link-ne :
      (i : ℕ) (l : Ledger F S I) (verdict : ℕ × Bool)
      → verify_link C new_batch i l ≡ some verdict
      → verdict ≢ (0, false)
  unfolding verify_link
  verify_link-ne i l verdict e = λ whole. ground (arith, e, whole)

  verify_loop_iff :
      (steps low : ℕ) (l : Ledger F S I)
      → steps + low < l.blockchain.size
      → (verify_loop C new_batch steps low l ≡ (0, false))
        ↔ ((n : ℕ) → low ≤ n → n < steps + low → IsLinked n l)
  unfolding verify_loop
  verify_loop_iff zero low l below = (λ goes n from to. absurd (omega arith), λ links. refl)
  verify_loop_iff (suc steps) low l below =
      let rest = verify_loop_iff steps low l (omega (arith, below)) in
      let this = verify_link_iff (steps + low) l (omega (arith, below)) in
      elim (Option-cases (verify_link C new_batch (steps + low) l)) [
        | inl goes ↦
            rw (goes, verify_loop)
              (
                λ whole n from to. elim (Bool-cases (n == (steps + low))) [
                  | inl last ↦
                      let q : n ≡ steps + low = ground (arith, last) in
                      subst (λ m. IsLinked m l) (sym q) (this.0 goes)
                  | inr other ↦ rest.0 whole n from (ground (arith, other, to))
                ],
                λ links. rest.1 (λ n from to. links n from (omega (arith, to))),
              )
        | inr (verdict, stops) ↦
            rw (stops, verify_loop)
              (
                λ whole. absurd (verify_link-ne (steps + low) l verdict stops whole),
                λ links.
                    let goes = this.1 (links (steps + low) (omega arith) (omega arith)) in
                    absurd (cc (sym stops ∙ goes)),
              )
      ]

  -- VerifyChain returns 0 without an error exactly where its range is not empty and within the
  -- blockchain, and every block of the range above the lowest one is there and holds the hash of the
  -- block before it.
  pub verify_chain_iff :
      (high low : ℕ) (l : Ledger F S I)
      → (verify_chain C new_batch high low l ≡ (0, false)) ↔ (
          (low < high) × (high < l.blockchain.size) × ((n : ℕ) → low ≤ n → n < high → IsLinked n l))
  unfolding verify_chain
  verify_chain_iff high low l = elim (Bool-cases (leb l.blockchain.size high)) [
    | inl outside ↦
        rw outside (λ whole. absurd (cc whole), λ range. absurd (ground (arith, outside, range.1)))
    | inr inside ↦ elim (Bool-cases (leb high low)) [
      | inl empty ↦
          rw (inside, empty)
            (λ whole. absurd (cc whole), λ range. absurd (ground (arith, empty, range.0)))
      | inr above ↦
          let up : low < high = ground (arith, above) in
          let below : high < l.blockchain.size = ground (arith, inside) in
          let total : (high - low) + low ≡ high = omega (arith, up) in
          let loop = verify_loop_iff (high - low) low l (omega (arith, up, below)) in
          rw (inside, above)
            (
              λ whole. (up, below, λ n from to. loop.0 whole n from (omega (arith, to, total))),
              λ range. loop.1 (λ n from to. range.2 n from (omega (arith, to, total))),
            )
    ]
  ]
