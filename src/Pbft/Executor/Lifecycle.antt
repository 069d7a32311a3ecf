-- ===== src/Pbft/Executor/Lifecycle.antt =====
-- The batch of a request on the stack: what becomes of it on each way through the execution.
use client_sdk.Prelude.{
  ℕ, ◌≡◌, sym, subst, Bool, true, false, Option, none, some, List, ◌∷◌, Bool-cases, Option-cases,
  inl, inr,
}
use client_sdk.Pbft.Executor.{
  BlockInfo, Transaction, ExecutorEnv, Call, call_began, call_rolled_back, call_committed, Outcome,
  value, error, panic, Executor,
}
use client_sdk.Pbft.Executor.Run.{
  prepare_commit, commit, validate, validates, finish_commit, finish_prepare, finish_execute,
  execute,
}
use client_sdk.Pbft.Executor.Stages.{On, fail_back-cases, validate-On, commit-On}

module _ (E : ExecutorEnv) where
  -- How an execution can end: what it returns, the calls then, and the number of the last execution.
  -- A batch is left open, or rolled back twice, only for the reason that is given.
  pub data Batch (tx : Transaction E.Tx) (before : List Call) (last : ℕ)
      : Outcome (Option BlockInfo) → List Call → ℕ → Type 0 where
    not_begun : Batch tx before last error before last
    rolled_back :
        Batch tx before last error (call_rolled_back tx.seq_no ∷ call_began tx.seq_no ∷ before) last
    asks_for_sync :
        Batch tx before last
          (value none)
          (call_rolled_back tx.seq_no ∷ call_began tx.seq_no ∷ before)
          last
    committed :
        (b : BlockInfo)
        → Batch tx before last
            (value (some b))
            (call_committed tx.seq_no ∷ call_began tx.seq_no ∷ before)
            tx.seq_no
    left_open :
        (st : E.St)
        → (E.preview_commit_tx_batch tx st).0 ≡ none
        → Batch tx before last error (call_began tx.seq_no ∷ before) last
    rolled_back_twice :
        (id : List ℕ)
        → E.unmarshal_id id ≡ none
        → Batch tx before last error
            (call_rolled_back tx.seq_no
              ∷ call_rolled_back tx.seq_no
              ∷ call_began tx.seq_no
              ∷ before)
            last
    panics : Batch tx before last panic (call_began tx.seq_no ∷ before) last
    panics_after_rollback :
        Batch tx before last panic (call_rolled_back tx.seq_no ∷ call_began tx.seq_no ∷ before) last
    panics_after_commit :
        Batch tx before last panic
          (call_committed tx.seq_no ∷ call_began tx.seq_no ∷ before)
          tx.seq_no

  -- What must hold of a stage's result for a statement to hold after the stages that follow.
  abbrev AfterCommit :
      (Outcome (Option BlockInfo) → List Call → ℕ → Type 0)
      → Outcome (List ℕ)
      → List Call
      → ℕ
      → Type 0
  AfterCommit P error c l = P error c l
  AfterCommit P panic c l = P panic c l
  AfterCommit P (value _) c l = P panic c l × ((b : BlockInfo) → P (value (some b)) c l)

  abbrev Commits :
      (Outcome (Option BlockInfo) → List Call → ℕ → Type 0) → ℕ → List Call → ℕ → Type 0
  Commits P n c l =
      P error (call_rolled_back n ∷ c) l
      × P panic c l
      × P panic (call_committed n ∷ c) n
      × ((b : BlockInfo) → P (value (some b)) (call_committed n ∷ c) n)

  abbrev AfterValidate :
      (Outcome (Option BlockInfo) → List Call → ℕ → Type 0)
      → ℕ
      → Outcome Bool
      → List Call
      → ℕ
      → Type 0
  AfterValidate P n error c l = P error c l
  AfterValidate P n panic c l = P panic c l
  AfterValidate P n (value true) c l = P (value none) c l
  AfterValidate P n (value false) c l = Commits P n c l

  finish_commit-On :
      (P : Outcome (Option BlockInfo) → List Call → ℕ → Type 0) (r : Outcome (List ℕ) × Executor E)
      → On E (AfterCommit P) r
      → On E P (finish_commit E r)
  unfolding finish_commit
  finish_commit-On P (error, x) p = p
  finish_commit-On P (panic, x) p = p
  finish_commit-On P (value h, x) p = elim (Option-cases (E.get_blockchain_size x.stack)) [
    | inl nil ↦ rw (finish_commit, nil) p.0
    | inr (height, sized) ↦ rw (finish_commit, sized) (p.1 _)
  ]

  finish_execute-On :
      (P : Outcome (Option BlockInfo) → List Call → ℕ → Type 0) (tx : Transaction E.Tx)
      (r : Outcome Bool × Executor E)
      → On E (AfterValidate P tx.seq_no) r
      → On E P (finish_execute E tx r)
  unfolding finish_execute
  finish_execute-On P tx (error, x) p = p
  finish_execute-On P tx (panic, x) p = p
  finish_execute-On P tx (value true, x) p = p
  finish_execute-On P tx (value false, x) p =
      finish_commit-On P (commit E tx x)
        (commit-On E (AfterCommit P) tx x p.0 p.1 (λ h. (p.2, p.3)) p.2)

  -- Whatever the stack, the orderer and protobuf do, an execution ends as one of the cases of
  -- `Batch`: its batch is committed where it returns a block, which becomes the last execution, is
  -- rolled back where it asks for state transfer, and on an error was not begun or is rolled back,
  -- but for a preview that fails, which leaves the batch open, and for a corrected id that does not
  -- unmarshal, which rolls it back twice.
  pub execute-Batch :
      (tx : Transaction E.Tx) (x : Executor E)
      → Batch tx x.calls x.last_exec
          (execute E tx x).0
          (execute E tx x).1.calls
          (execute E tx x).1.last_exec
  unfolding execute finish_prepare prepare_commit
  execute-Batch tx x =
      let begun = E.begin_tx_batch tx x.stack in
      let ran = E.exec_txs tx tx.txs begun.1 in
      let x' : Executor E = record x { stack = ran.1; calls = call_began tx.seq_no ∷ x.calls } in
      let P = Batch tx x.calls x.last_exec in
      let done : AfterValidate P tx.seq_no (value false) x'.calls x'.last_exec =
        (rolled_back, panics, panics_after_commit, committed) in
      elim (Bool-cases begun.0) [
        | inr not ↦ rw (execute, prepare_commit, not) not_begun
        | inl opened ↦ elim (Bool-cases ran.0) [
          | inr not ↦
              rw (execute, prepare_commit, opened, not)
                (elim (fail_back-cases E tx x') [
                  | inl ok ↦ subst (λ r. On E P (finish_prepare E tx r)) (sym ok) rolled_back
                  | inr lost ↦ subst (λ r. On E P (finish_prepare E tx r)) (sym lost) panics
                ])
          | inl executed ↦ elim (Bool-cases (validates E tx)) [
            | inr not ↦
                rw (execute, prepare_commit, opened, executed, not)
                  (finish_execute-On P tx (value false, x') done)
            | inl checks ↦
                rw (execute, prepare_commit, opened, executed, checks)
                  (finish_execute-On P tx (validate E tx x') (
                    validate-On E (AfterValidate P tx.seq_no) tx x' left_open rolled_back
                      rolled_back_twice asks_for_sync done panics panics_after_rollback))
          ]
        ]
      ]
