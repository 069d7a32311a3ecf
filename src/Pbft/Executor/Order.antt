-- ===== src/Pbft/Executor/Order.antt =====
-- The order in which an executor commits requests.
use client_sdk.Prelude.{
  ℕ, ◌<◌, ◌≡◌, refl, subst, true, false, Bool, Option, none, some, List, [], ◌∷◌, leb, ltb, length,
  if◌then◌else◌, arith, Bool-cases, Option-cases, inl, inr,
}
use client_sdk.Pbft.Executor.{
  BlockInfo, SyncTarget, Transaction, ExecutionInfo, ExecutorEnv, Call, call_committed, call_synced,
  Outcome, value, error, panic, Thread, at_queue, in_sync, crashed, exited, Executor,
  new_obc_executor, enqueue, skip_to, valid_state, send, drain_execution_queue, add_target,
}
use client_sdk.Pbft.Executor.Run.{execute}
use client_sdk.Pbft.Executor.Loop.{
  get_current_info, crash, start_queue_thread, send_checkpoint, start_sync, info_of, end_request,
  end_null, process, pass, take_target, end_sync, complete_sync, state_transfer_completed, stop,
  Step, step_enqueue, step_skip_to, step_valid_state, step_pass, step_take_target,
  step_state_transfer, step_stop, step_stack, Steps, stay, next,
}
use client_sdk.Pbft.Executor.Lifecycle.{Batch, execute-Batch}

-- The number of the last commit or completed state transfer in a trace.
abbrev pub last_done : List Call → ℕ
last_done [] = 0
last_done (call_committed n ∷ _) = n
last_done (call_synced n ∷ _) = n
last_done (_ ∷ earlier) = last_done earlier

-- Each commit has a number above that of the commit or completed state transfer before it.
abbrev pub Ascending : List Call → Type 0
Ascending [] = Unit
Ascending (call_committed n ∷ earlier) = (last_done earlier < n) × Ascending earlier
Ascending (_ ∷ earlier) = Ascending earlier

abbrev pub InOrder : List Call → ℕ → Type 0
InOrder calls last = (last ≡ last_done calls) × Ascending calls

module _ (E : ExecutorEnv) where
  Batch-InOrder :
      (tx : Transaction E.Tx) (before calls : List Call) (last last' : ℕ)
      (o : Outcome (Option BlockInfo))
      → Batch E tx before last o calls last'
      → InOrder before last
      → last < tx.seq_no
      → InOrder calls last'
  Batch-InOrder tx before _ last _ _ (Batch.not_begun) i above = i
  Batch-InOrder tx before _ last _ _ (Batch.rolled_back) i above = i
  Batch-InOrder tx before _ last _ _ (Batch.asks_for_sync) i above = i
  Batch-InOrder tx before _ last _ _ (Batch.left_open _ _) i above = i
  Batch-InOrder tx before _ last _ _ (Batch.rolled_back_twice _ _) i above = i
  Batch-InOrder tx before _ last _ _ (Batch.panics) i above = i
  Batch-InOrder tx before _ last _ _ (Batch.panics_after_rollback) i above = i
  Batch-InOrder tx before _ last _ _ (Batch.committed _) i above =
      (refl, (subst (λ n. n < tx.seq_no) i.0 above, i.1))
  Batch-InOrder tx before _ last _ _ (Batch.panics_after_commit) i above =
      (refl, (subst (λ n. n < tx.seq_no) i.0 above, i.1))

  abbrev Keeps : Executor E → Type 0
  Keeps x = InOrder x.calls x.last_exec

  send_checkpoint-Keeps :
      (info : ExecutionInfo) (n : ℕ) (b : BlockInfo) (x : Executor E)
      → Keeps x
      → Keeps (send_checkpoint E info n b x)
  unfolding send_checkpoint
  send_checkpoint-Keeps info n b x i = elim (Bool-cases info.checkpoint) [
    | inl asked ↦ rw (send_checkpoint, asked) i
    | inr not ↦ rw (send_checkpoint, not) i
  ]

  end_null-Keeps :
      (tx : Transaction E.Tx) (x : Executor E) (o : Outcome BlockInfo)
      → Keeps x
      → Keeps (end_null E tx x o)
  unfolding end_null crash
  end_null-Keeps tx x error i = i
  end_null-Keeps tx x panic i = i
  end_null-Keeps tx x (value b) i = send_checkpoint-Keeps _ _ b x i

  end_request-Keeps :
      (tx : Transaction E.Tx) (r : Outcome (Option BlockInfo) × Executor E)
      → Keeps r.1
      → Keeps (end_request E tx r)
  unfolding end_request crash start_sync
  end_request-Keeps tx (error, x) i = i
  end_request-Keeps tx (panic, x) i = i
  end_request-Keeps tx (value none, x) i = i
  end_request-Keeps tx (value (some b), x) i = send_checkpoint-Keeps _ _ b x i

  by_if :
      (P : Executor E → Type 0) (b : Bool) (x y : Executor E)
      → (b ≡ true → P x)
      → (b ≡ false → P y)
      → P (if b then x else y)
  by_if P true x y p q = p refl
  by_if P false x y p q = q refl

  process-Keeps : (tx : Transaction E.Tx) (x : Executor E) → Keeps x → Keeps (process E tx x)
  unfolding process crash start_sync
  process-Keeps tx x i = elim (Option-cases (E.get_blockchain_size x.stack)) [
    | inl nil ↦ rw (process, nil) i
    | inr (height, sized) ↦
        rw (process, sized)
          (by_if Keeps (leb tx.seq_no x.last_exec) _ _ (λ _. i)
            (λ new.
              by_if Keeps tx.sync _ _ (λ _. i)
                (λ _.
                  by_if Keeps (info_of E tx).null _ _
                    (λ _. end_null-Keeps tx x (get_current_info E x) i)
                    (λ _.
                      end_request-Keeps tx (execute E tx x)
                        (Batch-InOrder tx _ _ _ _ _ (execute-Batch E tx x) i (ground arith))))))
  ]

  -- A statement holds of a choice by the thread if it holds of the four.
  by_thread :
      (P : Executor E → Type 0) (a b c d : Executor E) (t : Thread)
      → P a
      → P b
      → P c
      → P d
      → P (elim t [ at_queue ↦ a | in_sync ↦ b | crashed ↦ c | exited ↦ d ])
  by_thread P a b c d at_queue p q r s = p
  by_thread P a b c d in_sync p q r s = q
  by_thread P a b c d crashed p q r s = r
  by_thread P a b c d exited p q r s = s

  by_option :
      {A : Type 0} (P : Executor E → Type 0) (a : Executor E) (f : A → Executor E) (o : Option A)
      → P a
      → ((b : A) → P (f b))
      → P (elim o [ none ↦ a | some b ↦ f b ])
  by_option P a f none p q = p
  by_option P a f (some b) p q = q b

  pass-Keeps : (x : Executor E) → Keeps x → Keeps (pass E x)
  unfolding pass
  pass-Keeps x i = by_thread Keeps _ x x x x.thread (read x.execution_queue) i i i
    where
      read :
          (q : List (Transaction E.Tx))
          → Keeps
              (elim q [ [] ↦ x | tx ∷ rest ↦ process E tx (record x { execution_queue = rest }) ])
      read [] = i
      read (tx ∷ rest) = process-Keeps tx (record x { execution_queue = rest }) i

  take_target-Keeps : (x : Executor E) → Keeps x → Keeps (take_target E x)
  unfolding take_target add_target
  take_target-Keeps x i = by_thread Keeps x _ x x x.thread i (serve x.senders) i i
    where
      serve :
          (ts : List SyncTarget)
          → Keeps (elim ts [ [] ↦ x | t ∷ rest ↦ add_target E t (record x { senders = rest }) ])
      serve [] = i
      serve (t ∷ rest) = i

  end_sync-Keeps :
      (t : SyncTarget) (info : Option ExecutionInfo) (x : Executor E)
      → Keeps x
      → Keeps (end_sync E t info x)
  unfolding end_sync crash
  end_sync-Keeps t none x i = i
  end_sync-Keeps t (some info) x i = send_checkpoint-Keeps info t.seq_no t.block_info x i

  complete_sync-Keeps : (t : SyncTarget) (x : Executor E) → Keeps x → Keeps (complete_sync E t x)
  unfolding complete_sync
  complete_sync-Keeps t x i =
      let done : Executor E = record x {
        thread = at_queue;
        last_exec = t.seq_no;
        calls = call_synced t.seq_no ∷ x.calls;
      } in
      by_thread Keeps x (end_sync E t t.exec_info done) x x x.thread i
        (end_sync-Keeps t t.exec_info done (refl, i.1)) i i

  Step-Keeps : (x y : Executor E) → Step E x y → Keeps x → Keeps y
  unfolding enqueue skip_to valid_state send drain_execution_queue add_target
      state_transfer_completed stop
  Step-Keeps x _ (step_enqueue n txs info) i =
      by_if Keeps (ltb (length x.execution_queue) x.queue_size) _ _ (λ _. i) (λ _. i)
  Step-Keeps x _ (step_skip_to n id peers info) i =
      by_option Keeps _ _ (E.unmarshal_id id) i (λ b. i)
  Step-Keeps x _ (step_valid_state n id peers info) i =
      by_option Keeps _ _ (E.unmarshal_id id) i (λ b. by_thread Keeps _ _ _ _ x.thread i i i i)
  Step-Keeps x _ step_pass i = pass-Keeps x i
  Step-Keeps x _ step_take_target i = take_target-Keeps x i
  Step-Keeps x _ (step_state_transfer none) i = i
  Step-Keeps x _ (step_state_transfer (some t)) i = complete_sync-Keeps t x i
  Step-Keeps x _ step_stop i = by_thread Keeps _ _ _ _ x.thread i i i i
  Step-Keeps x _ (step_stack st) i = i

  Steps-Keeps : (x y : Executor E) → Steps E x y → Keeps x → Keeps y
  Steps-Keeps x _ stay i = i
  Steps-Keeps x z (next {y = y} xs s) i = Step-Keeps y z s (Steps-Keeps x y xs i)

  start_queue_thread-Keeps : (x : Executor E) → Keeps x → Keeps (start_queue_thread E x)
  unfolding start_queue_thread crash
  start_queue_thread-Keeps x i = started (get_current_info E x) refl
    where
      started : (o : Outcome BlockInfo) → get_current_info E x ≡ o → Keeps (start_queue_thread E x)
      started error e = rw (start_queue_thread, e) i
      started panic e = rw (start_queue_thread, e) i
      started (value b) e = elim (Option-cases (E.marshal_id b)) [
        | inl nil ↦ rw (start_queue_thread, e, nil) i
        | inr (id, made) ↦ rw (start_queue_thread, e, made) i
      ]

  abbrev KeepsResult : Outcome (Executor E) → Type 0
  KeepsResult (value x) = Keeps x
  KeepsResult _ = Unit

  new_obc_executor-KeepsResult :
      (queue_size : ℕ) (st : E.St) → KeepsResult (new_obc_executor E queue_size st)
  unfolding new_obc_executor
  new_obc_executor-KeepsResult queue_size st = elim (Bool-cases (leb queue_size 0)) [
    | inl refused ↦ rw (new_obc_executor, refused) tt
    | inr room ↦ rw (new_obc_executor, room) (refl, tt)
  ]

  -- Whatever calls the consenter makes, in whatever order these and the passes of the thread and
  -- the state transfer come, and whatever the stack does, a new executor commits each request with
  -- a number above that of the commit or completed state transfer before it, which is `lastExec`.
  pub new_obc_executor-InOrder :
      (queue_size : ℕ) (st : E.St) (x y : Executor E)
      → new_obc_executor E queue_size st ≡ value x
      → Steps E (start_queue_thread E x) y
      → InOrder y.calls y.last_exec
  new_obc_executor-InOrder queue_size st x y made steps = Steps-Keeps _ y steps (
      start_queue_thread-Keeps x
        (subst KeepsResult made (new_obc_executor-KeepsResult queue_size st)))
