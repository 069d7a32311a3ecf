-- ===== src/Pbft/Executor.antt =====
-- The executor of the consenters, consensus/obcpbft/obc-executor.go: the queue of requests, the
-- thread that executes them, and state transfer where the queue has a gap. The stack, the orderer
-- and protobuf are a record; what the executor calls of them is kept in a trace.
pub mod Run
pub mod Loop
pub mod Stages
pub mod Order
pub mod Lifecycle
pub mod Progress
mod Tests
use client_sdk.Prelude.{
  ℕ, Bool, true, false, Option, none, some, List, [], ◌∷◌, ◌++◌, ltb, leb, length, if◌then◌else◌,
}

pub record ExecutionInfo : Type 0 where
  pub checkpoint : Bool
  pub validate : Bool
  pub null : Bool

pub record BlockInfo : Type 0 where
  pub block_number : ℕ
  pub block_hash : List ℕ

-- `exec_info` is none for a nil pointer.
pub record SyncTarget : Type 0 where
  pub seq_no : ℕ
  pub peer_ids : List ℕ
  pub block_info : BlockInfo
  pub exec_info : Option ExecutionInfo

pub record Transaction (Tx : Type 0) : Type 0 where
  pub seq_no : ℕ
  pub txs : List Tx
  pub exec_info : Option ExecutionInfo
  pub sync : Bool

-- What `Orderer.Validate` replies.
pub record Reply : Type 0 where
  pub commit : Bool
  pub corrected_id : Option (List ℕ)
  pub peer_ids : List ℕ

-- What the executor uses of the stack, the orderer and protobuf; a call that does not succeed
-- returns an error.
pub record ExecutorEnv : Type 1 where
  pub Tx : Type 0
  pub Block : Type 0
  pub St : Type 0
  pub get_blockchain_size : St → Option ℕ
  pub get_block : ℕ → St → Option Block
  pub hash_block : Block → Option (List ℕ)
  pub begin_tx_batch : Transaction Tx → St → Bool × St
  pub exec_txs : Transaction Tx → List Tx → St → Bool × St
  pub preview_commit_tx_batch : Transaction Tx → St → Option Block × St
  pub commit_tx_batch : Transaction Tx → St → Option Block × St
  pub rollback_tx_batch : Transaction Tx → St → Bool × St
  pub orderer_validate : ℕ → List ℕ → St → Reply × St
  pub marshal_id : BlockInfo → Option (List ℕ)
  pub unmarshal_id : List ℕ → Option BlockInfo

-- The calls that succeed, of the stack's batches by their sequence number, of the orderer and of
-- state transfer, and the completed state transfers.
pub data Call : Type 0 where
  call_began call_rolled_back call_committed call_synced : ℕ → Call
  call_startup call_checkpoint : ℕ → List ℕ → Call
  call_initiate : Call
  call_add_target : SyncTarget → Call

-- What a function returns, an error, or a panic.
pub data Outcome (A : Type 0) : Type 0 where
  value : A → Outcome A
  error panic : Outcome A

-- Where the thread is: at the queue, in `sync`, or ended, by a panic or by `Stop`.
pub data Thread : Type 0 where
  at_queue in_sync crashed exited : Thread

module _ (E : ExecutorEnv) where
  -- `execution_queue` holds what is in the channel, the first to be read first; what is beyond
  -- `queue_size` is a sender that waits. `senders` are those that wait to send a sync target.
  pub record Executor : Type 0 where
    pub execution_queue : List (Transaction E.Tx)
    pub queue_size : ℕ
    pub senders : List SyncTarget
    pub thread : Thread
    pub last_exec : ℕ
    pub stack : E.St
    pub calls : List Call

  -- `NewOBCExecutor` panics for a queue without room.
  unfoldable pub new_obc_executor : ℕ → E.St → Outcome Executor
  new_obc_executor queue_size stack =
      if leb queue_size 0
      then panic
      else value (record {
        execution_queue = [];
        queue_size = queue_size;
        senders = [];
        thread = at_queue;
        last_exec = 0;
        stack = stack;
        calls = [];
      })

  -- A send that waits where the channel is full.
  unfoldable pub send : Transaction E.Tx → Executor → Executor
  send tx x = record x { execution_queue = x.execution_queue ++ tx ∷ [] }

  unfoldable pub drain_execution_queue : Executor → Executor
  drain_execution_queue x = record x { execution_queue = [] }

  unfoldable pub enqueue : ℕ → List E.Tx → Option ExecutionInfo → Executor → Executor
  enqueue n txs info x =
      let request : Transaction E.Tx = record {
        seq_no = n;
        txs = txs;
        exec_info = info;
        sync = false;
      } in
      if ltb (length x.execution_queue) x.queue_size
      then send request x
      else send request (
          send (record { seq_no = n; txs = []; exec_info = none; sync = true })
            (drain_execution_queue x))

  unfoldable pub skip_to : ℕ → List ℕ → List ℕ → Option ExecutionInfo → Executor → Executor
  skip_to n id peers info x =
      let x' =
        send (record { seq_no = n; txs = []; exec_info = info; sync = true })
          (drain_execution_queue x) in
      elim (E.unmarshal_id id) [
        | none ↦ x'
        | some b ↦ record x' {
          senders =
              x'.senders
              ++ record { seq_no = n; peer_ids = peers; block_info = b; exec_info = info } ∷ [];
        }
      ]

  unfoldable pub add_target : SyncTarget → Executor → Executor
  add_target t x = record x { calls = call_add_target t ∷ x.calls }

  -- The target is taken only by a thread that waits for one.
  unfoldable pub valid_state : ℕ → List ℕ → List ℕ → Option ExecutionInfo → Executor → Executor
  valid_state n id peers info x = elim (E.unmarshal_id id) [
    | none ↦ x
    | some b ↦ elim x.thread [
      | in_sync ↦
          add_target (record { seq_no = n; peer_ids = peers; block_info = b; exec_info = info }) x
      | at_queue ↦ x
      | crashed ↦ x
      | exited ↦ x
    ]
  ]
