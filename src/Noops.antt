-- ===== src/Noops.antt =====
-- The consenter without consensus, consensus/noops: it collects transactions, and executes them as
-- a block when there are enough of them or the timer expires. The stack is a record.
pub mod Queue
pub mod Order
mod Tests
use client_sdk.Prelude.{
  ℕ, Bool, true, false, not, Option, none, some, List, [], ◌∷◌, ◌++◌, ltb, ◌==◌, nat_eq,
  if◌then◌else◌,
}
use client_sdk.Noops.Queue
use client_sdk.Noops.Queue.{Txq, new_txq, append, get_txs, is_full}

-- What `Noops` uses of `consensus.Stack` and of protobuf; a call that does not succeed returns an
-- error.
pub record Stack : Type 1 where
  pub Transaction : Type 0
  pub St : Type 0
  pub begin_tx_batch : St → Bool × St
  pub exec_txs : List (Option Transaction) → St → Bool × St
  pub commit_tx_batch : St → Bool × St
  pub rollback_tx_batch : St → St
  pub broadcast_to_validators : List ℕ → St → Bool × St
  pub unmarshal_transaction : List ℕ → Option Transaction
  pub marshal_block : Transaction → Option (List ℕ)
  pub unmarshal_block : List ℕ → Option (List Transaction)

pub data Message : Type 0 where
  chain_transaction consensus : List ℕ → Message
  other_type : Message

pub data Outcome : Type 0 where
  nil error index_panic : Outcome

module _ (S : Stack) where
  -- `channel` holds the transactions that wait for the loop, the first to be read first, and
  -- `executed` the arguments of `ExecTxs`, the latest first.
  pub record Noops : Type 0 where
    pub stack : S.St
    pub tx_q : Txq S.Transaction
    pub timer_active : Bool
    pub channel : List S.Transaction
    pub executed : List (List (Option S.Transaction))

  -- The message is turned into one of consensus with the payload that is broadcast.
  unfoldable pub broadcast_consensus_msg : List ℕ → Noops → Option (List ℕ) × Noops
  broadcast_consensus_msg payload i = elim (S.unmarshal_transaction payload) [
    | none ↦ (none, i)
    | some t ↦ elim (S.marshal_block t) [
      | none ↦ (none, i)
      | some packed ↦
          let sent = S.broadcast_to_validators packed i.stack in
          let i' : Noops = record i { stack = sent.1 } in
          if sent.0 then (some packed, i') else (none, i')
    ]
  ]

  -- A block without transactions is an index out of range.
  unfoldable pub recv_consensus : List ℕ → Noops → Outcome × Noops
  recv_consensus payload i = elim (S.unmarshal_block payload) [
    | none ↦ (error, i)
    | some [] ↦ (index_panic, i)
    | some (tx ∷ _) ↦ (nil, record i { channel = i.channel ++ tx ∷ [] })
  ]

  -- A transaction of a client is broadcast, and goes on as a message of consensus.
  unfoldable pub recv_msg : Message → Noops → Outcome × Noops
  recv_msg (chain_transaction payload) i =
      let sent = broadcast_consensus_msg payload i in
      elim sent.0 [ none ↦ (error, sent.1) | some packed ↦ recv_consensus packed sent.1 ]
  recv_msg (consensus payload) i = recv_consensus payload i
  recv_msg other_type i = (nil, i)

  unfoldable pub can_process_block : S.Transaction → Noops → Bool × Noops
  can_process_block tx i =
      let q = append tx i.tx_q in
      let i' : Noops = record i {
        tx_q = q;
        timer_active = if Queue.size q == 1 then true else i.timer_active;
      } in
      (is_full q, i')

  unfoldable pub process_transactions : Noops → Bool × Noops
  process_transactions i =
      let begun = S.begin_tx_batch i.stack in
      if not begun.0
      then (false, record i { stack = begun.1 })
      else let got = get_txs i.tx_q in
        let ran = S.exec_txs got.0 begun.1 in
        let i' : Noops = record i { tx_q = got.1; executed = got.0 ∷ i.executed } in
        if not ran.0
        then (false, record i' { stack = S.rollback_tx_batch ran.1 })
        else let committed = S.commit_tx_batch ran.1 in
          if not committed.0
          then (false, record i' { stack = S.rollback_tx_batch committed.1 })
          else (true, record i' { stack = committed.1 })

  -- What follows a committed block, for peers that do not validate, is not part of it.
  unfoldable pub process_block : Noops → Noops
  process_block i =
      let stopped : Noops = record i { timer_active = false } in
      if ltb (Queue.size stopped.tx_q) 1 then stopped else (process_transactions stopped).1

  -- The two cases of `handleChannels`.
  unfoldable pub handle_transaction : S.Transaction → Noops → Noops
  handle_transaction tx i = let r = can_process_block tx i in if r.0 then process_block r.1 else r.1

  unfoldable pub handle_channel : Noops → Noops
  handle_channel i = elim i.channel [
    | [] ↦ i
    | tx ∷ rest ↦ handle_transaction tx (record i { channel = rest })
  ]

  unfoldable pub handle_timer : Noops → Noops
  handle_timer i = if i.timer_active then process_block (record i { timer_active = false }) else i
