-- ===== src/Ledger/State/Reads.antt =====
-- What an uncommitted `Get` reads after a change and after the end of a transaction.
use client_sdk.Prelude.{
  ℕ, ◌≡◌, ◌⊎◌, refl, sym, ◌∙◌, Bool, true, false, ◌&&◌, Option, none, some, List, [], ◌∷◌, arith,
  inl, inr, lookup, Bool-cases, ◌==◌, if◌then◌else◌,
}
use client_sdk.Ledger.Text.{Text, text_eq, text_beq_iff}
use client_sdk.Ledger.Delta
use client_sdk.Ledger.Delta.{
  UpdatedValue, StateDelta, new_state_delta, is_empty, apply_changes, is_updated_value_set,
}
use client_sdk.Ledger.Delta.Merge.{DeltaIsValid, get-apply_changes}
use client_sdk.Ledger.Delta.Lookup.{merged, get-set}
use client_sdk.Ledger.State.{
  Result, ok, failed, panicked, HashableState, State, tx_in_progress, tx_finish, merge_tx,
  get_state, set_state, delete_state,
}

-- A value read through a delta.
over : Option UpdatedValue → Result (Option (List ℕ)) → Result (Option (List ℕ))
over none below = below
over (some u) below = ok u.value

over-merged :
    (new old : Option UpdatedValue) (below : Result (Option (List ℕ)))
    → over (merged new old) below ≡ over new (over old below)
unfolding over
over-merged none old below = refl
over-merged (some u) none below = refl
over-merged (some u) (some old) below = refl

pub Result-cases :
    {A : Type 0} (r : Result A)
    → ((a : A) × (r ≡ ok a))
      ⊎ ((x : Option Text) × (r ≡ elim x [ none ↦ panicked | some e ↦ failed e ]))
Result-cases (ok a) = inl (a, refl)
Result-cases (failed e) = inr (some e, refl)
Result-cases panicked = inr (none, refl)

list_cases : {A : Type 0} (xs : List A) → (xs ≡ []) ⊎ ((x : A) × (ys : List A) × (xs ≡ x ∷ ys))
list_cases [] = inl refl
list_cases (x ∷ ys) = inr (x, ys, refl)

pub new_state_delta-get : (c k : Text) → Delta.get c k new_state_delta ≡ none
unfolding Delta.get lookup
new_state_delta-get c k = refl

is_empty-get : (d : StateDelta) (c k : Text) → is_empty d ≡ true → Delta.get c k d ≡ none
unfolding is_empty Delta.get lookup
is_empty-get d c k empty = elim (list_cases d.chaincode_state_deltas) [
  | inl nothing ↦ rw (nothing, Delta.get) refl
  | inr some_entry ↦ absurd (ground (arith, some_entry))
]

module _ {S : HashableState} where
  get_state-over :
      (c k : Text) (s : State S)
      → get_state c k false s
        ≡ over
            (Delta.get c k s.current_tx_state_delta)
            (over (Delta.get c k s.state_delta) (S.get c k s.state_impl))
  unfolding get_state over
  get_state-over c k s = ground arith

  -- What the merge of a transaction does to the values that are read through both deltas.
  over-merge_tx :
      (tx_uuid c k : Text) (s : State S) (below : Result (Option (List ℕ)))
      → DeltaIsValid s.current_tx_state_delta
      → over (Delta.get c k (merge_tx tx_uuid s).state_delta) below
        ≡ over (Delta.get c k s.current_tx_state_delta) (over (Delta.get c k s.state_delta) below)
  unfolding merge_tx over
  over-merge_tx tx_uuid c k s below valid = elim (Bool-cases (is_empty s.current_tx_state_delta)) [
    | inl empty ↦ ground (arith, is_empty-get s.current_tx_state_delta c k empty)
    | inr changed ↦
        let new = Delta.get c k s.current_tx_state_delta in
        let old = Delta.get c k s.state_delta in
        let together : Delta.get c k (merge_tx tx_uuid s).state_delta ≡ merged new old =
          rw (changed, merge_tx)
            (get-apply_changes s.current_tx_state_delta s.state_delta c k valid) in
        rw together (over-merged new old below)
  ]

  pub state_impl-merge_tx :
      (tx_uuid : Text) (s : State S) → (merge_tx tx_uuid s).state_impl ≡ s.state_impl
  unfolding merge_tx
  state_impl-merge_tx tx_uuid s = ground arith

  pub tx_finish-eq-ok :
      (tx_uuid : Text) (successful : Bool) (s s' : State S)
      → tx_finish tx_uuid successful s ≡ ok s'
      → (s.current_tx_uuid ≡ tx_uuid)
        × (record (if successful then merge_tx tx_uuid s else s) {
          current_tx_state_delta = new_state_delta;
          current_tx_uuid = [];
        }
            ≡ s')
  unfolding tx_finish
  tx_finish-eq-ok tx_uuid successful s s' e = elim (Bool-cases (s.current_tx_uuid == tx_uuid)) [
    | inl same ↦ ((text_beq_iff s.current_tx_uuid tx_uuid).0 same, ground arith)
    | inr other ↦ absurd (ground arith)
  ]

  -- A successful `TxFinish` leaves what an uncommitted `Get` reads of every key.
  pub get_state-tx_finish :
      (tx_uuid c k : Text) (s s' : State S)
      → DeltaIsValid s.current_tx_state_delta
      → tx_finish tx_uuid true s ≡ ok s'
      → get_state c k false s' ≡ get_state c k false s
  unfolding Delta.get over
  get_state-tx_finish tx_uuid c k s s' valid e =
      let after = (tx_finish-eq-ok tx_uuid true s s' e).1 in
      rw (← after) (
        get_state-over c k _
        ∙ rw (state_impl-merge_tx tx_uuid s, new_state_delta-get c k)
            (over-merge_tx tx_uuid c k s (S.get c k s.state_impl) valid)
        ∙ sym (get_state-over c k s))

  -- What `Set` records, where it returns.
  pub set_state-eq-ok :
      (chaincode_id key : Text) (value : Option (List ℕ)) (s s' : State S)
      → set_state chaincode_id key value s ≡ ok s'
      → (previous : Option (List ℕ)) × ((is_updated_value_set chaincode_id key
              s.current_tx_state_delta
            ≡ true)
          ⊎ (S.get chaincode_id key s.state_impl ≡ ok previous))
        × (tx_in_progress s ≡ true)
        × (record s {
          current_tx_state_delta =
              Delta.set chaincode_id key value previous s.current_tx_state_delta;
        }
            ≡ s')
  unfolding set_state get_state
  set_state-eq-ok chaincode_id key value s s' e =
      elim (Bool-cases (is_updated_value_set chaincode_id key s.current_tx_state_delta)) [
        | inl seen ↦ (none, inl seen, ground arith, ground arith)
        | inr new ↦ elim (Result-cases (S.get chaincode_id key s.state_impl)) [
          | inl (previous, read) ↦ (previous, inr read, ground arith, ground arith)
          | inr other ↦ absurd (ground (arith, other))
        ]
      ]

  -- `Delete` is `Set` of nothing.
  pub delete_state-set_state :
      (chaincode_id key : Text) (s : State S)
      → delete_state chaincode_id key s ≡ set_state chaincode_id key none s
  unfolding delete_state set_state Delta.delete_key Delta.set Delta.remove_kv Delta.set_kv
  delete_state-set_state chaincode_id key s = refl

  -- After `Set` an uncommitted `Get` reads the value at its key, and all else as before.
  pub get_state-set_state :
      (chaincode_id key c k : Text) (value : Option (List ℕ)) (s s' : State S)
      → set_state chaincode_id key value s ≡ ok s'
      → get_state c k false s'
        ≡ (if (chaincode_id == c) && (key == k) then ok value else get_state c k false s)
  unfolding over
  get_state-set_state chaincode_id key c k value s s' e =
      let (previous, from, going, after) = set_state-eq-ok chaincode_id key value s s' e in
      rw (← after) (
        get_state-over c k _
        ∙ ground (
          arith,
          get_state-over c k s,
          over-merged (some (record { value = value; previous_value = previous }))
              (Delta.get chaincode_id key s.current_tx_state_delta)
              (over (Delta.get c k s.state_delta) (S.get c k s.state_impl)),
          get-set chaincode_id key previous s.current_tx_state_delta value c k,
        ))
