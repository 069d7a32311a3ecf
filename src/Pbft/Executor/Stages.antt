-- ===== src/Pbft/Executor/Stages.antt =====
-- The functions of Run on their results: what holds of the result holds if it holds of each way out.
use client_sdk.Prelude.{
  ℕ, ◌≡◌, sym, subst, Bool, true, false, none, List, ◌∷◌, ◌⊎◌, refl, Bool-cases, Option-cases, inl,
  inr,
}
use client_sdk.Pbft.Executor.{
  BlockInfo, Transaction, Reply, ExecutorEnv, Call, call_rolled_back, call_committed, Outcome,
  value, error, panic, Executor,
}
use client_sdk.Pbft.Executor.Run.{rollback, fail_back, commit, take_reply, validate}

module _ (E : ExecutorEnv) where
  -- A statement about what a function returns, on its calls and the last execution.
  abbrev pub On :
      {A : Type 0} → (Outcome A → List Call → ℕ → Type 0) → Outcome A × Executor E → Type 0
  On P r = P r.0 r.1.calls r.1.last_exec

  pub rollback-cases :
      (tx : Transaction E.Tx) (x : Executor E)
      → let st = (E.rollback_tx_batch tx x.stack).1 in
        (rollback E tx x
          ≡ (value tt, record x { stack = st; calls = call_rolled_back tx.seq_no ∷ x.calls }))
        ⊎ (rollback E tx x ≡ (panic, record x { stack = st }))
  unfolding rollback
  rollback-cases tx x = elim (Bool-cases (E.rollback_tx_batch tx x.stack).0) [
    | inl ok ↦ inl (rw ok refl)
    | inr not ↦ inr (rw not refl)
  ]

  pub fail_back-cases :
      {A : Type 0} (tx : Transaction E.Tx) (x : Executor E)
      → let st = (E.rollback_tx_batch tx x.stack).1 in
        (fail_back E {A = A} tx x
          ≡ (error, record x { stack = st; calls = call_rolled_back tx.seq_no ∷ x.calls }))
        ⊎ (fail_back E {A = A} tx x ≡ (panic, record x { stack = st }))
  unfolding fail_back
  fail_back-cases tx x = elim (rollback-cases tx x) [
    | inl ok ↦ inl (rw (fail_back, ok, ok) refl)
    | inr not ↦ inr (rw (fail_back, not, not) refl)
  ]

  pub fail_back-On :
      {A : Type 0} (P : Outcome A → List Call → ℕ → Type 0) (tx : Transaction E.Tx) (x : Executor E)
      → P error (call_rolled_back tx.seq_no ∷ x.calls) x.last_exec
      → P panic x.calls x.last_exec
      → On P (fail_back E tx x)
  fail_back-On P tx x failed panicked = elim (fail_back-cases tx x) [
    | inl ok ↦ subst (On P) (sym ok) failed
    | inr not ↦ subst (On P) (sym not) panicked
  ]

  pub take_reply-On :
      (P : Outcome Bool → List Call → ℕ → Type 0) (tx : Transaction E.Tx) (reply : Reply)
      (x : Executor E)
      → P error (call_rolled_back tx.seq_no ∷ x.calls) x.last_exec
      → ((id : List ℕ)
          → E.unmarshal_id id ≡ none
          → P error (call_rolled_back tx.seq_no ∷ call_rolled_back tx.seq_no ∷ x.calls) x.last_exec)
      → P (value true) (call_rolled_back tx.seq_no ∷ x.calls) x.last_exec
      → P (value false) x.calls x.last_exec
      → P panic x.calls x.last_exec
      → P panic (call_rolled_back tx.seq_no ∷ x.calls) x.last_exec
      → On P (take_reply E tx reply x)
  unfolding take_reply
  take_reply-On P tx reply x failed twice synced passed panicked late =
      elim (Bool-cases reply.commit) [
        | inr not ↦ rw (take_reply, not) (fail_back-On P tx x failed panicked)
        | inl told ↦ elim (Option-cases reply.corrected_id) [
          | inl right ↦ rw (take_reply, told, right) passed
          | inr (id, wrong) ↦ elim (rollback-cases tx x) [
            | inr not ↦ rw (take_reply, told, wrong, not, not) panicked
            | inl ok ↦ elim (Option-cases (E.unmarshal_id id)) [
              | inl bad ↦
                  rw (take_reply, told, wrong, ok, bad, ok)
                    (fail_back-On P tx _ (twice id bad) late)
              | inr (b, good) ↦ rw (take_reply, told, wrong, ok, good, ok) synced
            ]
          ]
        ]
      ]

  pub validate-On :
      (P : Outcome Bool → List Call → ℕ → Type 0) (tx : Transaction E.Tx) (x : Executor E)
      → ((st : E.St) → (E.preview_commit_tx_batch tx st).0 ≡ none → P error x.calls x.last_exec)
      → P error (call_rolled_back tx.seq_no ∷ x.calls) x.last_exec
      → ((id : List ℕ)
          → E.unmarshal_id id ≡ none
          → P error (call_rolled_back tx.seq_no ∷ call_rolled_back tx.seq_no ∷ x.calls) x.last_exec)
      → P (value true) (call_rolled_back tx.seq_no ∷ x.calls) x.last_exec
      → P (value false) x.calls x.last_exec
      → P panic x.calls x.last_exec
      → P panic (call_rolled_back tx.seq_no ∷ x.calls) x.last_exec
      → On P (validate E tx x)
  unfolding validate
  validate-On P tx x unseen failed twice synced passed panicked late =
      let seen = E.preview_commit_tx_batch tx x.stack in
      elim (Option-cases seen.0) [
        | inl nil ↦ rw (validate, nil) (unseen x.stack nil)
        | inr (block, previewed) ↦ elim (Option-cases (E.get_blockchain_size seen.1)) [
          | inl nil ↦ rw (validate, previewed, nil) panicked
          | inr (height, sized) ↦ elim (Option-cases (E.hash_block block)) [
            | inl nil ↦ rw (validate, previewed, sized, nil) panicked
            | inr (h, hashed) ↦
                let b : BlockInfo = record { block_number = height; block_hash = h } in
                elim (Option-cases (E.marshal_id b)) [
                  | inl nil ↦
                      rw (validate, previewed, sized, hashed, nil)
                        (fail_back-On P tx _ failed panicked)
                  | inr (id, made) ↦
                      rw (validate, previewed, sized, hashed, made)
                        (take_reply-On P tx _ _ failed twice synced passed panicked late)
                ]
          ]
        ]
      ]

  pub commit-On :
      (P : Outcome (List ℕ) → List Call → ℕ → Type 0) (tx : Transaction E.Tx) (x : Executor E)
      → P error (call_rolled_back tx.seq_no ∷ x.calls) x.last_exec
      → P panic x.calls x.last_exec
      → ((h : List ℕ) → P (value h) (call_committed tx.seq_no ∷ x.calls) tx.seq_no)
      → P panic (call_committed tx.seq_no ∷ x.calls) tx.seq_no
      → On P (commit E tx x)
  unfolding commit
  commit-On P tx x failed panicked done late =
      elim (Option-cases (E.commit_tx_batch tx x.stack).0) [
        | inl nil ↦ rw (commit, nil) (fail_back-On P tx _ failed panicked)
        | inr (block, stored) ↦ elim (Option-cases (E.hash_block block)) [
          | inl nil ↦ rw (commit, stored, nil) late
          | inr (h, hashed) ↦ rw (commit, stored, hashed) (done h)
        ]
      ]
