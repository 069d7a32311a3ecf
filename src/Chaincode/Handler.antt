-- ===== src/Chaincode/Handler.antt =====
-- The state of a handler and the operations on its maps.
use client_sdk.Prelude.{
  ℕ, String, string_eq, Bool, true, false, Option, none, some, List, [], ◌∷◌, ◌++◌, Map, lookup,
  has_key, insert, delete, if◌then◌else◌,
}
use client_sdk.Chaincode.{error, response, FsmState, ChaincodeMessage, Fault, HandlerEnv}

-- What a handler does in a goroutine of its own, with its message.
pub data Job : Type 0 where
  job_get_state job_busy job_query job_range_query job_range_query_next job_range_query_close :
      ChaincodeMessage → Job

pub record NextStateInfo : Type 0 where
  pub msg : ChaincodeMessage
  pub send_to_cc : Bool

-- `response_notifier` holds the messages of the channel, the first one first; it has room for one,
-- and what is beyond that is a sender that waits, with the lock held. `iterators` holds the
-- open range queries: an iterator is the keys and values from its current one on. That `notify`
-- closes the iterators of its context, which frees what they hold of the database, is left out.
pub record TransactionContext (Tx : Type 0) : Type 0 where
  pub transaction_sec_context : Option Tx
  pub response_notifier : List ChaincodeMessage
  pub iterators : Map String (List (List ℕ × List ℕ))

module _ (E : HandlerEnv) where
  -- A map is none while it is nil. `next_state` holds the senders that wait, `sent` what was sent on
  -- the stream, the latest first, `jobs` the goroutines that were started, and `outside` what is
  -- not the handler's.
  pub record Handler : Type 0 where
    pub fsm_current : FsmState
    pub chaincode_id : Option String
    pub deploy_tx_sec_context : Option E.Tx
    pub registered : Bool
    pub ready_notify : Option (List Bool)
    pub tx_ctxs : Option (Map String (TransactionContext E.Tx))
    pub uuid_map : Option (Map String Bool)
    pub is_transaction : Option (Map String Bool)
    pub next_state : List NextStateInfo
    pub sent : List ChaincodeMessage
    pub jobs : List Job
    pub outside : E.St
    pub ended : Bool
    pub crashed : Bool

  unfoldable pub serial_send : ChaincodeMessage → Handler → Bool × Handler
  serial_send msg h =
      if E.send h.sent msg then (true, record h { sent = msg ∷ h.sent }) else (false, h)

  unfoldable pub create_tx_context : String → Option E.Tx → Handler → Bool × Handler
  create_tx_context uuid tx h = elim h.tx_ctxs [
    | none ↦ (false, h)
    | some m ↦ if has_key uuid m then (false, h) else (
      true,
      record h {
        tx_ctxs = some (
            insert uuid
              (record { transaction_sec_context = tx; response_notifier = []; iterators = [] }) m);
      },
    )
  ]

  unfoldable pub get_tx_context : String → Handler → Option (TransactionContext E.Tx)
  get_tx_context uuid h = elim h.tx_ctxs [ none ↦ none | some m ↦ lookup uuid m ]

  unfoldable pub delete_tx_context : String → Handler → Handler
  delete_tx_context uuid h = elim h.tx_ctxs [
    | none ↦ h
    | some m ↦ record h { tx_ctxs = some (delete uuid m) }
  ]

  -- A key that a map of Booleans does not hold reads as false.
  unfoldable pub reads_true : String → Map String Bool → Bool
  reads_true uuid m = elim (lookup uuid m) [ none ↦ false | some b ↦ b ]

  unfoldable pub create_uuid_entry : String → Handler → Bool × Handler
  create_uuid_entry uuid h = elim h.uuid_map [
    | none ↦ (false, h)
    | some m ↦
        if reads_true uuid m
        then (false, h)
        else (true, record h { uuid_map = some (insert uuid true m) })
  ]

  unfoldable pub delete_uuid_entry : String → Handler → Handler
  delete_uuid_entry uuid h = elim h.uuid_map [
    | none ↦ h
    | some m ↦ record h { uuid_map = some (delete uuid m) }
  ]

  unfoldable pub mark_is_transaction : String → Bool → Handler → Bool × Handler
  mark_is_transaction uuid is_trans h = elim h.is_transaction [
    | none ↦ (false, h)
    | some m ↦ (true, record h { is_transaction = some (insert uuid is_trans m) })
  ]

  unfoldable pub get_is_transaction : String → Handler → Bool
  get_is_transaction uuid h = elim h.is_transaction [ none ↦ false | some m ↦ reads_true uuid m ]

  unfoldable pub delete_is_transaction : String → Handler → Handler
  delete_is_transaction uuid h = elim h.is_transaction [
    | none ↦ h
    | some m ↦ record h { is_transaction = some (delete uuid m) }
  ]

  unfoldable pub notify_during_startup : Bool → Handler → Handler
  notify_during_startup val h = elim h.ready_notify [
    | none ↦ h
    | some held ↦ record h { ready_notify = some (held ++ val ∷ []) }
  ]

  unfoldable pub notify : ChaincodeMessage → Handler → Handler
  notify msg h = elim h.tx_ctxs [
    | none ↦ h
    | some m ↦ elim (lookup msg.uuid m) [
      | none ↦ h
      | some ctx ↦ record h {
        tx_ctxs = some (
            insert msg.uuid (record ctx { response_notifier = ctx.response_notifier ++ msg ∷ [] })
              m);
      }
    ]
  ]

  unfoldable pub trigger_next_state : ChaincodeMessage → Bool → Handler → Handler
  trigger_next_state msg send h = record h {
    next_state = h.next_state ++ record { msg = msg; send_to_cc = send } ∷ [];
  }

  unfoldable pub deregister : Handler → Handler
  deregister h =
      if h.registered
      then record h { outside = E.deregister_handler h.chaincode_id h.outside }
      else h

  -- An error for a transaction, and a response.
  unfoldable pub error_message : Fault → String → ChaincodeMessage
  error_message f uuid = record { type = error; payload = E.error_text f; uuid = uuid }

  unfoldable pub response_message : List ℕ → String → ChaincodeMessage
  response_message res uuid = record { type = response; payload = res; uuid = uuid }
