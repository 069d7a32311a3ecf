-- ===== src/Ledger/State.antt =====
-- core/ledger/statemgmt/state/state.go: the changes of the running transaction over those of the
-- finished ones over a state implementation. A call returns, fails with an error, or panics.
pub mod Reads
pub mod Rollback
pub mod Previous
use client_sdk.Prelude.{
  ◌≡◌, refl, ap, ◌⊎◌, inl, inr, ℕ, zero, suc, ◌-◌, ◌/◌, ◌%◌, ◌^◌, Bool, true, false, not, Option,
  none, some, List, [], ◌∷◌, ◌++◌, ltb, Map, keys, insert, lookup, ◌==◌, if◌then◌else◌,
}
use client_sdk.Ledger.Text.{Text, text_eq, sort_strings}
use client_sdk.Ledger.Delta
use client_sdk.Ledger.Delta.{
  StateDelta, new_state_delta, is_updated_value_set, delta_hash, is_empty, apply_changes,
}

pub data Result {ℓ} (A : Type ℓ) : Type ℓ where
  ok : A → Result A
  failed : Text → Result A
  panicked : Result A

pub ok-injective {ℓ} : {A : Type ℓ} (a b : A) → ok a ≡ ok b → a ≡ b
ok-injective a b e = ap (λ r. elim r [ ok x ↦ x | failed _ ↦ a | panicked ↦ a ]) e

pub Result-cases {ℓ} :
    {A : Type ℓ} (r : Result A)
    → ((a : A) × (r ≡ ok a)) ⊎ (((e : Text) × (r ≡ failed e)) ⊎ (r ≡ panicked))
Result-cases (ok a) = inl (a, refl)
Result-cases (failed e) = inr (inl (e, refl))
Result-cases panicked = inr (inr refl)

-- What `State` uses of core/ledger/statemgmt/hashable_state.go. `PrepareWorkingSet` and
-- `AddChangesForPersistence` may fail, which `State` ignores.
pub record HashableState : Type 1 where
  pub Impl : Type 0
  pub Batch : Type 0
  pub get : Text → Text → Impl → Result (Option (List ℕ))
  pub prepare_working_set : StateDelta → Impl → Impl
  pub compute_crypto_hash : Impl → Result (List ℕ)
  pub add_changes_for_persistence : Impl → Batch → Batch
  pub clear_working_set : Bool → Impl → Impl
  pub put_state_delta : List ℕ → StateDelta → Batch → Batch
  pub delete_state_delta : List ℕ → Batch → Batch
  pub crypto_hash : List ℕ → List ℕ

-- The `n` low bytes of a number, the highest first.
unfoldable pub big_endian : ℕ → ℕ → List ℕ
big_endian zero number = []
big_endian (suc n) number = (number / 256 ^ n) % 256 ∷ big_endian n number

unfoldable pub encode_uint64 : ℕ → List ℕ
encode_uint64 number = big_endian 8 number

module _ (S : HashableState) where
  pub record State : Type 0 where
    pub state_impl : S.Impl
    pub state_delta : StateDelta
    pub current_tx_state_delta : StateDelta
    pub current_tx_uuid : Text
    pub tx_state_delta_hash : Map Text (Option (List ℕ))
    pub update_state_impl : Bool
    pub history_state_delta_size : ℕ

module _ {S : HashableState} where
  unfoldable pub tx_in_progress : State S → Bool
  tx_in_progress s = not (s.current_tx_uuid == [])

  unfoldable pub tx_begin : Text → State S → Result (State S)
  tx_begin tx_uuid s =
      if tx_in_progress s then panicked else ok (record s { current_tx_uuid = tx_uuid })

  -- The part of `TxFinish` for a successful transaction.
  unfoldable pub merge_tx : Text → State S → State S
  merge_tx tx_uuid s =
      if is_empty s.current_tx_state_delta
      then record s { tx_state_delta_hash = insert tx_uuid none s.tx_state_delta_hash }
      else record s {
        state_delta = apply_changes s.current_tx_state_delta s.state_delta;
        tx_state_delta_hash =
            insert tx_uuid (delta_hash S.crypto_hash s.current_tx_state_delta)
              s.tx_state_delta_hash;
        update_state_impl = true;
      }

  unfoldable pub tx_finish : Text → Bool → State S → Result (State S)
  tx_finish tx_uuid tx_successful s =
      if not (s.current_tx_uuid == tx_uuid)
      then panicked
      else ok (record (if tx_successful then merge_tx tx_uuid s else s) {
        current_tx_state_delta = new_state_delta;
        current_tx_uuid = [];
      })

  unfoldable pub get_state : Text → Text → Bool → State S → Result (Option (List ℕ))
  get_state chaincode_id key committed s =
      if committed
      then S.get chaincode_id key s.state_impl
      else elim (Delta.get chaincode_id key s.current_tx_state_delta) [
        | some value_holder ↦ ok value_holder.value
        | none ↦ elim (Delta.get chaincode_id key s.state_delta) [
          | some value_holder ↦ ok value_holder.value
          | none ↦ S.get chaincode_id key s.state_impl
        ]
      ]

  -- `Set` of a value, and `Delete` where there is none: both record the previous value of a key
  -- at its first change in the transaction.
  unfoldable pub set_state : Text → Text → Option (List ℕ) → State S → Result (State S)
  set_state chaincode_id key value s =
      if not (tx_in_progress s)
      then panicked
      else if is_updated_value_set chaincode_id key s.current_tx_state_delta
      then ok (record s {
        current_tx_state_delta = Delta.set chaincode_id key value none s.current_tx_state_delta;
      })
      else elim (get_state chaincode_id key true s) [
        | ok previous_value ↦ ok (record s {
          current_tx_state_delta =
              Delta.set chaincode_id key value previous_value s.current_tx_state_delta;
        })
        | failed e ↦ failed e
        | panicked ↦ panicked
      ]

  unfoldable pub delete_state : Text → Text → State S → Result (State S)
  delete_state chaincode_id key s =
      if not (tx_in_progress s)
      then panicked
      else if is_updated_value_set chaincode_id key s.current_tx_state_delta
      then ok (record s {
        current_tx_state_delta = Delta.delete_key chaincode_id key none s.current_tx_state_delta;
      })
      else elim (get_state chaincode_id key true s) [
        | ok previous_value ↦ ok (record s {
          current_tx_state_delta =
              Delta.delete_key chaincode_id key previous_value s.current_tx_state_delta;
        })
        | failed e ↦ failed e
        | panicked ↦ panicked
      ]

  -- The working set is passed on if it changed since it was last.
  unfoldable pub update_working_set : State S → State S
  update_working_set s =
      if s.update_state_impl
      then record s {
        state_impl = S.prepare_working_set s.state_delta s.state_impl;
        update_state_impl = false;
      }
      else s

  unfoldable pub get_hash : State S → Result (List ℕ) × State S
  get_hash s = let s' = update_working_set s in (S.compute_crypto_hash s'.state_impl, s')

  unfoldable pub clear_in_memory_changes : Bool → State S → State S
  clear_in_memory_changes changes_persisted s = record s {
    state_delta = new_state_delta;
    tx_state_delta_hash = [];
    state_impl = S.clear_working_set changes_persisted s.state_impl;
  }

  unfoldable pub apply_state_delta : StateDelta → State S → State S
  apply_state_delta delta s = record s { state_delta = delta; update_state_impl = true }

  -- `AddChangesForPersistence` of block `block_number`: the delta of the block is kept, and that
  -- of the block that leaves the history goes.
  unfoldable pub add_changes_for_persistence : ℕ → State S → S.Batch → State S × S.Batch
  add_changes_for_persistence block_number s batch =
      let s' = update_working_set s in
      let kept =
        S.put_state_delta (encode_uint64 block_number) s'.state_delta
          (S.add_changes_for_persistence s'.state_impl batch) in
      if ltb block_number s'.history_state_delta_size then (s', kept) else (
        s',
        S.delete_state_delta (encode_uint64 (block_number - s'.history_state_delta_size)) kept,
      )

  -- The batch of `CommitStateDelta`, which it writes.
  unfoldable pub commit_state_delta : State S → S.Batch → State S × S.Batch
  commit_state_delta s batch =
      let s' = update_working_set s in (s', S.add_changes_for_persistence s'.state_impl batch)
