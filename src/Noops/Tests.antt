-- ===== src/Noops/Tests.antt =====
-- A small queue, and a stack that takes up every batch and commits none.
use client_sdk.Prelude.{ℕ, ◌≡◌, refl, true, false, some, none, List, [], ◌∷◌, arith}
use client_sdk.Noops.{
  Stack, Noops, can_process_block, process_transactions, process_block, handle_transaction,
}
use client_sdk.Noops.Queue.{new_txq, append, get_txs, is_full, size, reset}
use client_sdk.Noops.Queue.Fifo
use client_sdk.Noops.Queue.Fifo.{
  Call, call_append, call_get_txs, call_is_full, Answer, nothing, transactions, full,
}
use client_sdk.Noops.Order

unfoldable program : Unit {0}
unfolding new_txq append get_txs is_full size reset can_process_block process_transactions
    process_block handle_transaction Fifo.fifo_run Fifo.fifo_step Order.handle_transactions
program = tt

abbrev calls : List (Call ℕ)
calls =
    call_append 4
    ∷ call_is_full
    ∷ call_append 5
    ∷ call_append 6
    ∷ call_is_full
    ∷ call_get_txs
    ∷ call_get_txs
    ∷ []

run-new_txq_example :
    Fifo.run calls (new_txq 2)
    ≡ nothing
      ∷ full false
      ∷ nothing
      ∷ nothing
      ∷ full true
      ∷ transactions (some 4 ∷ some 5 ∷ [])
      ∷ transactions []
      ∷ []
unfolding program
run-new_txq_example = Fifo.run-new_txq 2 calls

abbrev stack : Stack
stack = record {
  Transaction = ℕ;
  St = Unit {0};
  begin_tx_batch = λ s. (true, s);
  exec_txs = λ txs s. (true, s);
  commit_tx_batch = λ s. (false, s);
  rollback_tx_batch = λ s. s;
  broadcast_to_validators = λ bytes s. (true, s);
  unmarshal_transaction = λ bytes. none;
  marshal_block = λ tx. none;
  unmarshal_block = λ bytes. none;
}

abbrev idle : Noops stack
idle = record { stack = tt; tx_q = new_txq 2; timer_active = false; channel = []; executed = [] }

stack-Begins : Order.Begins stack
unfolding Order.Begins
stack-Begins = λ s. refl

handle_transactions-Ordered_example :
    Order.Ordered stack 2 (4 ∷ 5 ∷ 6 ∷ []) (Order.handle_transactions stack (4 ∷ 5 ∷ 6 ∷ []) idle)
handle_transactions-Ordered_example =
    Order.handle_transactions-Ordered stack 2 [] (4 ∷ 5 ∷ 6 ∷ []) idle stack-Begins
      (record { held = []; holds = Fifo.new_txq-Holds 2; room = omega arith; order = refl })

executes :
    (Order.handle_transactions stack (4 ∷ 5 ∷ 6 ∷ []) idle).executed ≡ (some 4 ∷ some 5 ∷ []) ∷ []
unfolding program
executes = refl
