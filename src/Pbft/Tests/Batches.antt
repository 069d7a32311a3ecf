-- ===== src/Pbft/Tests/Batches.antt =====
-- Batches of two requests.
use client_sdk.Prelude.{ℕ, ◌≡◌, refl, false, none, some, List, [], ◌∷◌, arith}
use client_sdk.Pbft.State.{change_view}
use client_sdk.Pbft.Batch.{BatchEnv, ObcBatch, on_view_change, handle_calls, leader_proc_req}
use client_sdk.Pbft.Batch.Store
use client_sdk.Pbft.Tests.{env, boot}

abbrev transactions : BatchEnv
transactions = record {
  Transaction = List ℕ;
  unmarshal_transaction = λ bytes. some bytes;
  marshal_transaction_block = λ txs. some [];
  unmarshal_batch_message = λ bytes. none;
  unmarshal_message = λ bytes. none;
}

abbrev empty : ObcBatch
empty = record {
  pbft = boot 0;
  batch_size = 2;
  batch_store = [];
  batch_timer_active = false;
  forwarded = [];
}

abbrev reqs : List (List ℕ)
reqs = (1 ∷ []) ∷ (2 ∷ []) ∷ (3 ∷ []) ∷ []

process-Waits_example : Store.Waits env transactions (Store.process env transactions reqs empty) 1 2
process-Waits_example =
    Store.process-Waits env transactions reqs empty 0 2 (omega arith)
      (record { waiting = refl; bound = refl; timer = λ some_wait. absurd (some_wait refl) })

-- A view change stops the timer of a request that waits, and nothing starts it.
waits_without_timer :
    (handle_calls
      (change_view 1 ∷ [])
      (leader_proc_req env transactions (1 ∷ []) empty)).batch_timer_active
    ≡ false
unfolding leader_proc_req handle_calls on_view_change
waits_without_timer = refl
