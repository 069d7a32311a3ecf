-- ===== src/Pbft/Batch.antt =====
-- consensus/obcpbft/obc-batch.go: requests are collected into blocks of transactions, which are
-- requests of the core. Protobuf and the map from peers to replicas are a record.
pub mod Store
use client_sdk.Prelude.{
  ℕ, Bool, true, false, not, ◌&&◌, Option, none, some, List, [], ◌∷◌, ◌++◌, length, leb, ◌==◌,
  nat_eq, if◌then◌else◌,
}
use client_sdk.Pbft.Messages.{Message}
use client_sdk.Pbft.State.{PbftCore, Env, Output, change_view}
use client_sdk.Pbft.Quorum.{primary}
use client_sdk.Pbft.Replica.{request, receive}

-- `BatchMessage`; `no_payload` is one with neither.
pub data BatchMessage : Type 0 where
  batch_request pbft_message : List ℕ → BatchMessage
  no_payload : BatchMessage

-- `pb.Message` by its type.
pub data FabricMessage : Type 0 where
  chain_transaction consensus : List ℕ → FabricMessage
  other_type : FabricMessage

pub record BatchEnv : Type 1 where
  pub Transaction : Type 0
  pub unmarshal_transaction : List ℕ → Option Transaction
  pub marshal_transaction_block : List Transaction → Option (List ℕ)
  pub unmarshal_batch_message : List ℕ → Option BatchMessage
  pub unmarshal_message : List ℕ → Option Message

pub data BatchError : Type 0 where
  nil unexpected_type unpacking packing no_validator_panic : BatchError

-- `forwarded` holds the requests that were broadcast to the other replicas, the latest first.
pub record ObcBatch : Type 0 where
  pub pbft : PbftCore
  pub batch_size : ℕ
  pub batch_store : List (List ℕ)
  pub batch_timer_active : Bool
  pub forwarded : List (List ℕ)

abbrev pub start_batch_timer : ObcBatch → ObcBatch
start_batch_timer op = record op { batch_timer_active = true }

abbrev pub stop_batch_timer : ObcBatch → ObcBatch
stop_batch_timer op = record op { batch_timer_active = false }

-- `viewChange`
unfoldable pub on_view_change : ObcBatch → ObcBatch
on_view_change op = if op.batch_timer_active then stop_batch_timer op else op

-- What the calls of the core do to the batches; the others are passed on to the stack or the
-- executor.
unfoldable pub handle_calls : List Output → ObcBatch → ObcBatch
handle_calls [] op = op
handle_calls (change_view _ ∷ calls) op = on_view_change (handle_calls calls op)
handle_calls (_ ∷ calls) op = handle_calls calls op

-- A call into the core. No call that the core makes reads the batches, so that they are handled
-- after it.
unfoldable pub call_core : (PbftCore → PbftCore) → ObcBatch → ObcBatch
call_core f op =
    let core = f (record op.pbft { outbox = [] }) in
    let called = handle_calls core.outbox op in
    record called { pbft = record core { outbox = core.outbox ++ op.pbft.outbox } }

module _ (env : Env) (B : BatchEnv) where
  -- The requests that are transactions.
  unfoldable pub unpack_transactions : List (List ℕ) → List B.Transaction
  unpack_transactions [] = []
  unpack_transactions (req ∷ reqs) =
      let txs = unpack_transactions reqs in
      elim (B.unmarshal_transaction req) [ none ↦ txs | some tx ↦ tx ∷ txs ]

  unfoldable pub send_batch : ObcBatch → ObcBatch × BatchError
  send_batch op =
      let emptied : ObcBatch = record (stop_batch_timer op) { batch_store = [] } in
      elim (B.marshal_transaction_block (unpack_transactions op.batch_store)) [
        | none ↦ (emptied, packing)
        | some packed ↦ (call_core (λ c. (request env packed c.id c).0) emptied, nil)
      ]

  -- An error of `sendBatch` is dropped.
  unfoldable pub leader_proc_req : List ℕ → ObcBatch → ObcBatch
  leader_proc_req req op =
      let stored : ObcBatch = record op { batch_store = op.batch_store ++ req ∷ [] } in
      let timed = if not stored.batch_timer_active then start_batch_timer stored else stored in
      if leb timed.batch_size (length timed.batch_store) then (send_batch timed).0 else timed

  -- The case of `batchTimerHander` on the expired timer.
  unfoldable pub batch_timer_expired : ObcBatch → ObcBatch
  batch_timer_expired op =
      if op.pbft.active_view && not (length op.batch_store == 0) then (send_batch op).0 else op

  unfoldable pub is_active_primary : ObcBatch → Bool
  is_active_primary op = (primary op.pbft.view op.pbft == op.pbft.id) && op.pbft.active_view

  -- `sender` is the replica of the sender's peer, if it is one.
  unfoldable pub recv_msg : FabricMessage → Option ℕ → ObcBatch → ObcBatch × BatchError
  recv_msg (chain_transaction payload) sender op =
      if is_active_primary op
      then (leader_proc_req payload op, nil)
      else (record op { forwarded = payload ∷ op.forwarded }, nil)
  recv_msg other_type sender op = (op, unexpected_type)
  recv_msg (consensus payload) sender op = elim (B.unmarshal_batch_message payload) [
    | none ↦ (op, unpacking)
    | some no_payload ↦ (op, nil)
    | some (batch_request req) ↦ (if is_active_primary op then leader_proc_req req op else op, nil)
    | some (pbft_message msg) ↦ elim sender [
      | none ↦ (op, no_validator_panic)
      | some sender_id ↦
          (call_core (λ c. (receive env B.unmarshal_message msg sender_id c).0) op, nil)
    ]
  ]
