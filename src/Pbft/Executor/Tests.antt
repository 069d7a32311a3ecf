-- ===== src/Pbft/Executor/Tests.antt =====
-- A stack whose blocks are numbers: it commits every batch, but its preview fails.
use client_sdk.Prelude.{ℕ, ◌+◌, ◌≡◌, refl, true, false, Option, none, some, [], ◌∷◌, arith}
use client_sdk.Pbft.Executor.{
  ExecutionInfo, Transaction, ExecutorEnv, call_began, error, at_queue, Executor, new_obc_executor,
  enqueue, send, drain_execution_queue, skip_to, valid_state, add_target,
}
use client_sdk.Pbft.Executor.Run
use client_sdk.Pbft.Executor.Loop
use client_sdk.Pbft.Executor.Loop.{
  start_queue_thread, step_enqueue, step_pass, step_skip_to, step_take_target, step_state_transfer,
  Steps, stay, next,
}
use client_sdk.Pbft.Executor.Order
use client_sdk.Pbft.Executor.Order.{InOrder}
use client_sdk.Pbft.Executor.Lifecycle
use client_sdk.Pbft.Executor.Lifecycle.{Batch}
use client_sdk.Pbft.Executor.Progress
use client_sdk.Pbft.Executor.Progress.{commits, passes, enqueue_all}

abbrev counter : ExecutorEnv
counter = record {
  Tx = ℕ;
  Block = ℕ;
  St = ℕ;
  get_blockchain_size = λ n. some (n + 1);
  get_block = λ n st. some n;
  hash_block = λ b. some (b ∷ []);
  begin_tx_batch = λ tx st. (true, st);
  exec_txs = λ tx txs st. (true, st);
  preview_commit_tx_batch = λ tx st. (none, st);
  commit_tx_batch = λ tx st. (some st, st + 1);
  rollback_tx_batch = λ tx st. (true, st);
  orderer_validate = λ n id st. (record { commit = true; corrected_id = none; peer_ids = [] }, st);
  marshal_id = λ b. some b.block_hash;
  unmarshal_id = λ id. some (record { block_number = 0; block_hash = id });
}

unfoldable program : Unit {0}
unfolding new_obc_executor enqueue send drain_execution_queue skip_to valid_state add_target
    Run.rollback Run.fail_back Run.prepare_commit Run.commit Run.take_reply Run.validate
    Run.validates Run.finish_commit Run.finish_execute Run.finish_prepare Run.execute
    Loop.get_current_info Loop.crash Loop.start_queue_thread Loop.send_checkpoint Loop.start_sync
    Loop.info_of Loop.end_request Loop.end_null Loop.process Loop.pass Loop.take_target
    Loop.end_sync Loop.complete_sync Loop.state_transfer_completed
program = tt

abbrev idle : Executor counter
idle = record {
  execution_queue = [];
  queue_size = 2;
  senders = [];
  thread = at_queue;
  last_exec = 0;
  stack = 5;
  calls = [];
}

abbrev checked : Option ExecutionInfo
checked = some (record { checkpoint = true; validate = true; null = false })

abbrev plain : ℕ → Transaction ℕ
plain n = record { seq_no = n; txs = 7 ∷ []; exec_info = none; sync = false }

-- A request that asks for validation, on the stack whose preview fails.
execute-Batch_example :
    Batch counter (record (plain 3) { exec_info = checked }) [] 0 error (call_began 3 ∷ []) 0
unfolding program
execute-Batch_example =
    Lifecycle.execute-Batch counter (record (plain 3) { exec_info = checked }) idle

-- Two requests, then a jump to 9, its sync target and the state transfer to it, and a last request.
abbrev steps : Steps counter (start_queue_thread counter idle) (
    Loop.pass counter (
      enqueue counter 12 (7 ∷ []) none (
        Loop.state_transfer_completed counter
          (some (record {
            seq_no = 9;
            peer_ids = [];
            block_info = record { block_number = 0; block_hash = [] };
            exec_info = checked;
          }))
          (Loop.take_target counter (
            Loop.pass counter (
              skip_to counter 9 [] [] checked (
                Loop.pass counter
                  (enqueue counter 4 (7 ∷ []) none (start_queue_thread counter idle)))))))))
steps =
    next
      (next
        (next
          (next
            (next
              (next (next (next stay (step_enqueue 4 (7 ∷ []) none)) step_pass)
                (step_skip_to 9 [] [] checked))
              step_pass)
            step_take_target)
          (step_state_transfer (some _)))
        (step_enqueue 12 (7 ∷ []) none))
      step_pass

new_obc_executor-InOrder_example :
    let y = Loop.pass counter (
      enqueue counter 12 (7 ∷ []) none (
        Loop.state_transfer_completed counter
          (some (record {
            seq_no = 9;
            peer_ids = [];
            block_info = record { block_number = 0; block_hash = [] };
            exec_info = checked;
          }))
          (Loop.take_target counter (
            Loop.pass counter (
              skip_to counter 9 [] [] checked (
                Loop.pass counter
                  (enqueue counter 4 (7 ∷ []) none (start_queue_thread counter idle)))))))) in
    InOrder y.calls y.last_exec
unfolding program
new_obc_executor-InOrder_example = Order.new_obc_executor-InOrder counter 2 5 idle _ refl steps

counter-Reliable : Progress.Reliable counter
counter-Reliable = record {
  begins = λ tx st. refl;
  executes = λ tx txs st. refl;
  stores = λ tx st. (st, refl);
  hashes = λ b. (b ∷ [], refl);
  counts = λ st. (st + 1, refl);
}

plain-IsPlain : (n : ℕ) → Progress.IsPlain counter (plain n)
unfolding program
plain-IsPlain n = record { no_sync = refl; no_null = refl; no_check = refl }

enqueue_all-commits_example :
    let y = passes counter 2 (enqueue_all counter (plain 3 ∷ plain 8 ∷ []) idle) in
    (y.execution_queue ≡ []) × (commits y.calls ≡ 3 ∷ 8 ∷ [])
unfolding program
enqueue_all-commits_example =
    Progress.enqueue_all-commits counter (plain 3 ∷ plain 8 ∷ []) idle counter-Reliable
      (plain-IsPlain 3, omega arith, (plain-IsPlain 8, omega arith, tt)) refl refl (omega arith)
