-- ===== src/Ledger/State/Rollback.antt =====
-- A transaction is a sequence of `Set` and `Delete` calls between `TxBegin` and `TxFinish`.
use client_sdk.Prelude.{
  ℕ, ◌≡◌, refl, sym, ◌∙◌, false, Option, none, List, [], ◌∷◌, arith, inl, inr, Bool-cases, ◌==◌,
}
use client_sdk.Ledger.Text.{Text, text_eq, text_beq_iff}
use client_sdk.Ledger.Delta.{new_state_delta}
use client_sdk.Ledger.State.{
  Result, ok, failed, panicked, HashableState, State, tx_in_progress, tx_begin, tx_finish,
  set_state, delete_state,
}
use client_sdk.Ledger.State.Reads.{set_state-eq-ok, delete_state-set_state, Result-cases}

pub data Change : Type 0 where
  set : Text → Text → Option (List ℕ) → Change
  delete : Text → Text → Change

module _ {S : HashableState} where
  unfoldable pub make_change : Change → State S → Result (State S)
  make_change (set c k value) s = set_state c k value s
  make_change (delete c k) s = delete_state c k s

  unfoldable pub make_changes : List Change → State S → Result (State S)
  make_changes [] s = ok s
  make_changes (change ∷ rest) s = elim (make_change change s) [
    | ok s' ↦ make_changes rest s'
    | failed e ↦ failed e
    | panicked ↦ panicked
  ]

  -- What one change keeps, a sequence of them keeps.
  pub make_changes_induction {ℓ} :
      (P : State S → Type ℓ)
      → ((c k : Text) (value : Option (List ℕ)) (s s' : State S)
          → P s
          → set_state c k value s ≡ ok s'
          → P s')
      → (changes : List Change) (s s' : State S) → P s
      → make_changes changes s ≡ ok s'
      → P s'
  unfolding make_changes make_change
  make_changes_induction P step [] s s' h e = let same : s ≡ s' = ground (arith, e) in rw (← same) h
  make_changes_induction P step (set c k value ∷ rest) s s' h e =
      elim (Result-cases (set_state c k value s)) [
        | inl (t, done) ↦
            make_changes_induction P step rest t s' (step c k value s t h done)
              (ground (arith, done))
        | inr other ↦ absurd (ground (arith, other))
      ]
  make_changes_induction P step (delete c k ∷ rest) s s' h e =
      elim (Result-cases (delete_state c k s)) [
        | inl (t, done) ↦
            make_changes_induction P step rest t s'
              (step c k none s t h (sym (delete_state-set_state c k s) ∙ done))
              (ground (arith, done))
        | inr other ↦ absurd (ground (arith, other))
      ]

  -- The changes of a transaction that fails leave the state as it was before `TxBegin`.
  pub tx_finish-make_changes :
      (tx_uuid : Text) (changes : List Change) (s begun changed : State S)
      → s.current_tx_state_delta ≡ new_state_delta
      → tx_begin tx_uuid s ≡ ok begun
      → make_changes changes begun ≡ ok changed
      → tx_finish tx_uuid false changed ≡ ok s
  unfolding tx_begin tx_finish tx_in_progress
  tx_finish-make_changes tx_uuid changes s begun changed fresh begins changes_it =
      make_changes_induction (λ x. tx_finish tx_uuid false x ≡ ok s)
        (λ c k value x x' h one. rw (← (set_state-eq-ok c k value x x' one).3) h) changes begun
        changed
        (elim (Bool-cases (s.current_tx_uuid == [])) [
          | inl idle ↦
              let was : s.current_tx_uuid ≡ [] = (text_beq_iff s.current_tx_uuid []).0 idle in
              let after : record s { current_tx_uuid = tx_uuid } ≡ begun = ground arith in
              rw (← after, (text_beq_iff tx_uuid tx_uuid).1 refl) (ground (arith, was, fresh))
          | inr busy ↦ absurd (ground (arith, busy))
        ])
        changes_it
