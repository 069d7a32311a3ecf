-- ===== src/Pbft/Executor/Loop.antt =====
-- The thread of the executor: the passes of queueThread and of sync.
use client_sdk.Prelude.{ℕ, ◌-◌, false, Option, none, some, List, [], ◌∷◌, leb, if◌then◌else◌}
use client_sdk.Pbft.Executor.{
  ExecutionInfo, BlockInfo, SyncTarget, Transaction, ExecutorEnv, call_synced, call_startup,
  call_checkpoint, call_initiate, Outcome, value, error, panic, at_queue, in_sync, crashed, exited,
  Executor, enqueue, skip_to, valid_state, add_target,
}
use client_sdk.Pbft.Executor.Run.{execute}

module _ (E : ExecutorEnv) where
  unfoldable pub get_current_info : Executor E → Outcome BlockInfo
  get_current_info x = elim (E.get_blockchain_size x.stack) [
    | none ↦ panic
    | some height ↦ if leb height 0 then error else elim (E.get_block (height - 1) x.stack) [
      | none ↦ error
      | some head ↦ elim (E.hash_block head) [
        | none ↦ panic
        | some h ↦ value (record { block_number = height - 1; block_hash = h })
      ]
    ]
  ]

  -- What a panic leaves is a thread that has ended.
  unfoldable pub crash : Executor E → Executor E
  crash x = record x { thread = crashed }

  -- The start of `queueThread`. The error of getCurrentInfo is overwritten, and its nil result is
  -- dereferenced by createID.
  unfoldable pub start_queue_thread : Executor E → Executor E
  start_queue_thread x = elim (get_current_info x) [
    | panic ↦ crash x
    | error ↦ crash x
    | value b ↦ elim (E.marshal_id b) [
      | none ↦ crash x
      | some id ↦ record x { calls = call_startup 0 id ∷ x.calls }
    ]
  ]

  -- The end of a pass: the checkpoint, where it is asked for. The error of createID is ignored, and
  -- its bytes are nil then.
  unfoldable pub send_checkpoint : ExecutionInfo → ℕ → BlockInfo → Executor E → Executor E
  send_checkpoint info n b x =
      let id : List ℕ = elim (E.marshal_id b) [ none ↦ [] | some id ↦ id ] in
      if info.checkpoint then record x { calls = call_checkpoint n id ∷ x.calls } else x

  unfoldable pub start_sync : Executor E → Executor E
  start_sync x = record x { thread = in_sync; calls = call_initiate ∷ x.calls }

  unfoldable pub info_of : Transaction E.Tx → ExecutionInfo
  info_of tx = elim tx.exec_info [
    | none ↦ record { checkpoint = false; validate = false; null = false }
    | some info ↦ info
  ]

  -- The end of a pass after `execute`. The default case leaves `seqNo` at 0.
  unfoldable pub end_request :
      Transaction E.Tx → Outcome (Option BlockInfo) × Executor E → Executor E
  end_request tx (error, x) = x
  end_request tx (panic, x) = crash x
  end_request tx (value none, x) = start_sync x
  end_request tx (value (some b), x) = send_checkpoint (info_of tx) 0 b x

  -- The end of a pass for a request that is null.
  unfoldable pub end_null : Transaction E.Tx → Executor E → Outcome BlockInfo → Executor E
  end_null tx x error = x
  end_null tx x panic = crash x
  end_null tx x (value b) = send_checkpoint (info_of tx) tx.seq_no b x

  -- What a pass does with the transaction that it has read.
  unfoldable pub process : Transaction E.Tx → Executor E → Executor E
  process tx x = elim (E.get_blockchain_size x.stack) [
    | none ↦ crash x
    | some _ ↦
        if leb tx.seq_no x.last_exec
        then x
        else if tx.sync
        then start_sync x
        else if (info_of tx).null
        then end_null tx x (get_current_info x)
        else end_request tx (execute E tx x)
  ]

  -- A pass of queueThread: the thread waits where the queue is empty.
  unfoldable pub pass : Executor E → Executor E
  pass x = elim x.thread [
    | in_sync ↦ x
    | crashed ↦ x
    | exited ↦ x
    | at_queue ↦ elim x.execution_queue [
      | [] ↦ x
      | tx ∷ rest ↦ process tx (record x { execution_queue = rest })
    ]
  ]

  -- A case of `sync`: a sender that waits is served.
  unfoldable pub take_target : Executor E → Executor E
  take_target x = elim x.thread [
    | at_queue ↦ x
    | crashed ↦ x
    | exited ↦ x
    | in_sync ↦ elim x.senders [ [] ↦ x | t ∷ rest ↦ add_target E t (record x { senders = rest }) ]
  ]

  -- The end of a pass after `sync`. A target without execution info is a nil dereference.
  unfoldable pub end_sync : SyncTarget → Option ExecutionInfo → Executor E → Executor E
  end_sync t none x = crash x
  end_sync t (some info) x = send_checkpoint info t.seq_no t.block_info x

  -- The other case: state transfer has reached a target, and the pass goes on.
  unfoldable pub complete_sync : SyncTarget → Executor E → Executor E
  complete_sync t x = elim x.thread [
    | at_queue ↦ x
    | crashed ↦ x
    | exited ↦ x
    | in_sync ↦ end_sync t t.exec_info (record x {
      thread = at_queue;
      last_exec = t.seq_no;
      calls = call_synced t.seq_no ∷ x.calls;
    })
  ]

  -- What state transfer calls at its end. A completion without a sync target of the executor is
  -- only logged.
  unfoldable pub state_transfer_completed : Option SyncTarget → Executor E → Executor E
  state_transfer_completed none x = x
  state_transfer_completed (some t) x = complete_sync t x

  -- The thread ends where it next waits.
  unfoldable pub stop : Executor E → Executor E
  stop x = elim x.thread [
    | at_queue ↦ record x { thread = exited }
    | in_sync ↦ record x { thread = exited }
    | crashed ↦ x
    | exited ↦ x
  ]

  -- The calls of the consenter, the passes of the thread, and changes of the stack by others.
  pub data Step (x : Executor E) : Executor E → Type 0 where
    step_enqueue :
        (n : ℕ) (txs : List E.Tx) (info : Option ExecutionInfo) → Step x (enqueue E n txs info x)
    step_skip_to :
        (n : ℕ) (id peers : List ℕ) (info : Option ExecutionInfo)
        → Step x (skip_to E n id peers info x)
    step_valid_state :
        (n : ℕ) (id peers : List ℕ) (info : Option ExecutionInfo)
        → Step x (valid_state E n id peers info x)
    step_pass : Step x (pass x)
    step_take_target : Step x (take_target x)
    step_state_transfer : (md : Option SyncTarget) → Step x (state_transfer_completed md x)
    step_stop : Step x (stop x)
    step_stack : (st : E.St) → Step x (record x { stack = st })

  pub data Steps (x : Executor E) : Executor E → Type 0 where
    stay : Steps x x
    next : {y z : Executor E} → Steps x y → Step y z → Steps x z
