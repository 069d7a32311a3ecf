-- ===== src/Ledger/State/Previous.antt =====
-- The previous values of a delta are those of the state implementation, to which a delta that is
-- applied backwards returns.
use client_sdk.Prelude.{
  ℕ, ◌≡◌, ◌⊎◌, sym, ◌∙◌, Bool, true, false, ◌&&◌, Option, some, List, arith, inl, inr, lookup,
  has_key, Bool-cases, Option-cases, ◌==◌,
}
use client_sdk.Ledger.Text.{Text, text_eq, text_beq_iff}
use client_sdk.Ledger.Delta
use client_sdk.Ledger.Delta.{
  UpdatedValue, StateDelta, new_state_delta, is_empty, apply_changes, is_updated_value_set,
}
use client_sdk.Ledger.Delta.Merge.{
  DeltaIsValid, get-apply_changes, apply_changes-DeltaIsValid, set-DeltaIsValid,
  new_state_delta-DeltaIsValid,
}
use client_sdk.Ledger.Delta.Lookup.{get-set}
use client_sdk.Ledger.State.{ok, HashableState, State, tx_begin, tx_finish, merge_tx, set_state}
use client_sdk.Ledger.State.Reads.{
  set_state-eq-ok, tx_finish-eq-ok, state_impl-merge_tx, new_state_delta-get,
}
use client_sdk.Ledger.State.Rollback.{Change, make_changes, make_changes_induction}

-- Each entry of a delta has the value below it as its previous value.
abbrev RecordsPrevious : (S : HashableState) → S.Impl → StateDelta → Type 0
RecordsPrevious S impl d =
    (c k : Text) (u : UpdatedValue)
    → Delta.get c k d ≡ some u
    → S.get c k impl ≡ ok u.previous_value

pub record StateIsValid {S : HashableState} (s : State S) : Type 0 where
  pub current : DeltaIsValid s.current_tx_state_delta
  pub delta : DeltaIsValid s.state_delta
  pub current_previous : RecordsPrevious S s.state_impl s.current_tx_state_delta
  pub delta_previous : RecordsPrevious S s.state_impl s.state_delta

is_updated_value_set-get :
    (c k : Text) (d : StateDelta)
    → is_updated_value_set c k d ≡ true
    → (u : UpdatedValue) × (Delta.get c k d ≡ some u)
unfolding is_updated_value_set has_key Delta.get
is_updated_value_set-get c k d h = elim (Option-cases (lookup c d.chaincode_state_deltas)) [
  | inl missing ↦ absurd (ground (arith, missing))
  | inr (csd, found) ↦ elim (Option-cases (lookup k csd.updated_kvs)) [
    | inl missing ↦ absurd (ground (arith, found, missing))
    | inr (u, has) ↦ (u, ground (arith, found, has))
  ]
]

module _ (S : HashableState) (impl : S.Impl) where
  -- An entry that is new has the value that was read; one that was there keeps its own.
  RecordsPrevious-set :
      (c k : Text) (value previous : Option (List ℕ)) (d : StateDelta)
      → (is_updated_value_set c k d ≡ true) ⊎ (S.get c k impl ≡ ok previous)
      → RecordsPrevious S impl d
      → RecordsPrevious S impl (Delta.set c k value previous d)
  RecordsPrevious-set c k value previous d from all c' k' u found =
      let now = get-set c k previous d value c' k' in
      elim (Bool-cases ((c == c') && (k == k'))) [
        | inr other ↦ all c' k' u (ground (arith, now, other))
        | inl here ↦
            let p : c ≡ c' = ground (arith, text_beq_iff c c') in
            let q : k ≡ k' = ground (arith, text_beq_iff k k') in
            rw (← p, ← q)
              (elim (Option-cases (Delta.get c k d)) [
                | inr (old, had) ↦
                    let kept = all c k old had in
                    let same : old.previous_value ≡ u.previous_value = ground (arith, now, had) in
                    ground (arith, kept, same)
                | inl new ↦ elim from [
                  | inl seen ↦
                      let (old, had) = is_updated_value_set-get c k d seen in
                      absurd (ground (arith, new, had))
                  | inr read ↦
                      let same : previous ≡ u.previous_value = ground (arith, now, new) in
                      ground (arith, read, same)
                ]
              ])
      ]

  RecordsPrevious-merged :
      (another d : StateDelta)
      → DeltaIsValid another
      → RecordsPrevious S impl another
      → RecordsPrevious S impl d
      → RecordsPrevious S impl (apply_changes another d)
  RecordsPrevious-merged another d valid newer older c k u found =
      let now = get-apply_changes another d c k valid in
      elim (Option-cases (Delta.get c k another)) [
        | inl untouched ↦ older c k u (ground (arith, now, untouched))
        | inr (new, changed) ↦ elim (Option-cases (Delta.get c k d)) [
          | inl first ↦ newer c k u (ground (arith, now, changed, first))
          | inr (old, had) ↦
              let kept = older c k old had in
              let same : old.previous_value ≡ u.previous_value =
                ground (arith, now, changed, had) in
              ground (arith, kept, same)
        ]
      ]

  new_state_delta-RecordsPrevious : RecordsPrevious S impl new_state_delta
  new_state_delta-RecordsPrevious c k u found = absurd (cc (sym (new_state_delta-get c k) ∙ found))

module _ {S : HashableState} where
  set_state-StateIsValid :
      (c k : Text) (value : Option (List ℕ)) (s s' : State S)
      → StateIsValid s
      → set_state c k value s ≡ ok s'
      → StateIsValid s'
  set_state-StateIsValid c k value s s' valid e =
      let (previous, from, going, after) = set_state-eq-ok c k value s s' e in
      let d = s.current_tx_state_delta in
      rw (← after) (record {
        current = set-DeltaIsValid c k previous d valid.current value;
        delta = valid.delta;
        current_previous = λ c' k' u found.
            RecordsPrevious-set S s.state_impl c k value previous d from valid.current_previous c'
              k' u found;
        delta_previous = valid.delta_previous;
      })

  merge_tx-RecordsPrevious :
      (tx_uuid : Text) (s : State S)
      → StateIsValid s
      → RecordsPrevious S s.state_impl (merge_tx tx_uuid s).state_delta
  unfolding merge_tx
  merge_tx-RecordsPrevious tx_uuid s valid = elim (Bool-cases (is_empty s.current_tx_state_delta)) [
    | inl empty ↦ rw (empty, merge_tx) valid.delta_previous
    | inr changed ↦
        rw (changed, merge_tx)
          (RecordsPrevious-merged S s.state_impl s.current_tx_state_delta s.state_delta
            valid.current valid.current_previous valid.delta_previous)
  ]

  merge_tx-DeltaIsValid :
      (tx_uuid : Text) (s : State S)
      → StateIsValid s
      → DeltaIsValid (merge_tx tx_uuid s).state_delta
  unfolding merge_tx
  merge_tx-DeltaIsValid tx_uuid s valid = elim (Bool-cases (is_empty s.current_tx_state_delta)) [
    | inl empty ↦ rw (empty, merge_tx) valid.delta
    | inr changed ↦
        rw (changed, merge_tx)
          (apply_changes-DeltaIsValid s.current_tx_state_delta s.state_delta valid.delta)
  ]

  pub tx_begin-StateIsValid :
      (tx_uuid : Text) (s s' : State S)
      → StateIsValid s
      → tx_begin tx_uuid s ≡ ok s'
      → StateIsValid s'
  unfolding tx_begin
  tx_begin-StateIsValid tx_uuid s s' valid e =
      let after : record s { current_tx_uuid = tx_uuid } ≡ s' = ground (arith, e) in
      rw (← after) (record {
        current = valid.current;
        delta = valid.delta;
        current_previous = valid.current_previous;
        delta_previous = valid.delta_previous;
      })

  tx_finish-StateIsValid :
      (tx_uuid : Text) (successful : Bool) (s s' : State S)
      → StateIsValid s
      → tx_finish tx_uuid successful s ≡ ok s'
      → StateIsValid s'
  tx_finish-StateIsValid tx_uuid true s s' valid e =
      rw (← (tx_finish-eq-ok tx_uuid true s s' e).1) (record {
        current = new_state_delta-DeltaIsValid;
        delta = merge_tx-DeltaIsValid tx_uuid s valid;
        current_previous = new_state_delta-RecordsPrevious S _;
        delta_previous =
            rw (state_impl-merge_tx tx_uuid s) (merge_tx-RecordsPrevious tx_uuid s valid);
      })
  tx_finish-StateIsValid tx_uuid false s s' valid e =
      rw (← (tx_finish-eq-ok tx_uuid false s s' e).1) (record {
        current = new_state_delta-DeltaIsValid;
        delta = valid.delta;
        current_previous = new_state_delta-RecordsPrevious S _;
        delta_previous = valid.delta_previous;
      })

  pub make_changes-StateIsValid :
      (changes : List Change) (s s' : State S)
      → StateIsValid s
      → make_changes changes s ≡ ok s'
      → StateIsValid s'
  make_changes-StateIsValid changes s s' valid e =
      make_changes_induction StateIsValid
        (λ c k value x x' v one. set_state-StateIsValid c k value x x' v one) changes s s' valid e

  -- A transaction from TxBegin over any sequence of Set and Delete to TxFinish, whether it succeeds
  -- or not, leads from a valid state to one: neither in the delta of the finished transactions nor in
  -- that of the running one does a key stand twice, and each change has as its previous value the
  -- value of its key in the state implementation.
  pub transaction-StateIsValid :
      (tx_uuid : Text) (changes : List Change) (successful : Bool) (s begun changed s' : State S)
      → StateIsValid s
      → tx_begin tx_uuid s ≡ ok begun
      → make_changes changes begun ≡ ok changed
      → tx_finish tx_uuid successful changed ≡ ok s'
      → StateIsValid s'
  transaction-StateIsValid tx_uuid changes successful s begun changed s' valid begins middle ends =
      let inside =
        make_changes-StateIsValid changes begun changed
          (tx_begin-StateIsValid tx_uuid s begun valid begins) middle in
      tx_finish-StateIsValid tx_uuid successful changed s' inside ends
