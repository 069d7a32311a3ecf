-- ===== src/Pbft/Executor/Run.antt =====
-- The execution of a request over the batches of the stack.
use client_sdk.Prelude.{
  ℕ, sub64, Bool, true, false, not, Option, none, some, List, [], ◌∷◌, ◌++◌, if◌then◌else◌,
}
use client_sdk.Pbft.Executor.{
  BlockInfo, Transaction, Reply, ExecutorEnv, call_began, call_rolled_back, call_committed, Outcome,
  value, error, panic, Executor,
}

module _ (E : ExecutorEnv) where
  unfoldable pub rollback : Transaction E.Tx → Executor E → Outcome (Unit {0}) × Executor E
  rollback tx x =
      let r = E.rollback_tx_batch tx x.stack in
      if r.0
      then (value tt, record x { stack = r.1; calls = call_rolled_back tx.seq_no ∷ x.calls })
      else (panic, record x { stack = r.1 })

  -- An error that is returned after a rollback.
  unfoldable pub fail_back : {A : Type 0} → Transaction E.Tx → Executor E → Outcome A × Executor E
  fail_back tx x =
      let r = rollback tx x in
      elim r.0 [ value _ ↦ (error, r.1) | error ↦ (error, r.1) | panic ↦ (panic, r.1) ]

  unfoldable pub prepare_commit : Transaction E.Tx → Executor E → Outcome (Unit {0}) × Executor E
  prepare_commit tx x =
      let begun = E.begin_tx_batch tx x.stack in
      if not begun.0
      then (error, record x { stack = begun.1 })
      else let ran = E.exec_txs tx tx.txs begun.1 in
        let x' : Executor E = record x { stack = ran.1; calls = call_began tx.seq_no ∷ x.calls } in
        if ran.0 then (value tt, x') else fail_back tx x'

  unfoldable pub commit : Transaction E.Tx → Executor E → Outcome (List ℕ) × Executor E
  commit tx x =
      let r = E.commit_tx_batch tx x.stack in
      elim r.0 [
        | none ↦ fail_back tx (record x { stack = r.1 })
        | some block ↦
            let x' : Executor E = record x {
              stack = r.1;
              last_exec = tx.seq_no;
              calls = call_committed tx.seq_no ∷ x.calls;
            } in
            elim (E.hash_block block) [ none ↦ (panic, x') | some h ↦ (value h, x') ]
      ]

  -- The part of `validate` after `Orderer.Validate` replied. A corrected id that does not unmarshal
  -- is an error after the rollback, and the deferred function rolls back once more.
  unfoldable pub take_reply : Transaction E.Tx → Reply → Executor E → Outcome Bool × Executor E
  take_reply tx reply x = if not reply.commit then fail_back tx x else elim reply.corrected_id [
    | none ↦ (value false, x)
    | some corrected ↦
        let r = rollback tx x in
        elim r.0 [
          | panic ↦ (panic, r.1)
          | error ↦ (error, r.1)
          | value _ ↦ elim (E.unmarshal_id corrected) [
            | none ↦ fail_back tx r.1
            | some b ↦ (
              value true,
              record (r.1) {
                senders =
                    r.1.senders
                    ++ record {
                      seq_no = tx.seq_no;
                      peer_ids = reply.peer_ids;
                      block_info = b;
                      exec_info = none;
                    }
                      ∷ [];
              },
            )
          ]
        ]
  ]

  -- The deferred rollback is set up only after the preview.
  unfoldable pub validate : Transaction E.Tx → Executor E → Outcome Bool × Executor E
  validate tx x =
      let previewed = E.preview_commit_tx_batch tx x.stack in
      let x' : Executor E = record x { stack = previewed.1 } in
      elim previewed.0 [
        | none ↦ (error, x')
        | some block ↦ elim (E.get_blockchain_size x'.stack) [
          | none ↦ (panic, x')
          | some height ↦ elim (E.hash_block block) [
            | none ↦ (panic, x')
            | some h ↦ elim (E.marshal_id (record { block_number = height; block_hash = h })) [
              | none ↦ fail_back tx x'
              | some id ↦
                  let replied = E.orderer_validate tx.seq_no id x'.stack in
                  take_reply tx replied.0 (record x' { stack = replied.1 })
            ]
          ]
        ]
      ]

  unfoldable pub validates : Transaction E.Tx → Bool
  validates tx = elim tx.exec_info [ none ↦ false | some info ↦ info.validate ]

  -- The end of `execute`, after `commit`.
  unfoldable pub finish_commit :
      Outcome (List ℕ) × Executor E → Outcome (Option BlockInfo) × Executor E
  finish_commit (error, x) = (error, x)
  finish_commit (panic, x) = (panic, x)
  finish_commit (value h, x) = elim (E.get_blockchain_size x.stack) [
    | none ↦ (panic, x)
    | some height ↦ (value (some (record { block_number = sub64 height 1; block_hash = h })), x)
  ]

  -- `execute` after `prepareCommit` and `validate`; none is for a request to sync.
  unfoldable pub finish_execute :
      Transaction E.Tx → Outcome Bool × Executor E → Outcome (Option BlockInfo) × Executor E
  finish_execute tx (error, x) = (error, x)
  finish_execute tx (panic, x) = (panic, x)
  finish_execute tx (value true, x) = (value none, x)
  finish_execute tx (value false, x) = finish_commit (commit tx x)

  unfoldable pub finish_prepare :
      Transaction E.Tx → Outcome (Unit {0}) × Executor E → Outcome (Option BlockInfo) × Executor E
  finish_prepare tx (error, x) = (error, x)
  finish_prepare tx (panic, x) = (panic, x)
  finish_prepare tx (value _, x) =
      finish_execute tx (if validates tx then validate tx x else (value false, x))

  unfoldable pub execute : Transaction E.Tx → Executor E → Outcome (Option BlockInfo) × Executor E
  execute tx x = finish_prepare tx (prepare_commit tx x)
