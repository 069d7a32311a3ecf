-- ===== src/Chaincode.antt =====
-- The validating peer's side of a chaincode's stream: the messages and states of
-- core/chaincode/handler.go and what its handler uses of other packages.
pub mod Fsm
pub mod Handler
pub mod Security
pub mod Jobs
pub mod Stream
pub mod Busy
pub mod Ranges
pub mod Iterators
pub mod Pages
pub mod Context
pub mod Answers
pub mod Reply
mod Tests
use client_sdk.Prelude.{Bool, Option, String, ℕ, List}

-- `pb.ChaincodeMessage_Type`.
pub data MessageType : Type 0 where
  undefined register registered init ready transaction completed error : MessageType
  get_state put_state del_state invoke_chaincode invoke_query response : MessageType
  query query_completed query_error : MessageType
  range_query_state range_query_state_next range_query_state_close : MessageType

-- The states of the handler's machine, by the names of the source's constants.
pub data FsmState : Type 0 where
  createdstate establishedstate initstate readystate transactionstate : FsmState
  busyinitstate busyxactstate endstate : FsmState

-- `pb.ChaincodeMessage` without its timestamp and security context.
pub record ChaincodeMessage : Type 0 where
  pub type : MessageType
  pub payload : List ℕ
  pub uuid : String

-- `type` of `pb.Transaction`.
pub data TxKind : Type 0 where
  chaincode_deploy chaincode_invoke chaincode_query other_kind : TxKind

-- The errors whose text is sent as a payload.
pub data Fault : Type 0 where
  iterator_not_found in_query_context no_ledger bad_payload launch_failed call_failed send_failed
        crypto_failed :
      Fault

-- What `Execute` of the chaincode support returns: the payload of a response, without an error or
-- with one, or an error and no response.
pub data Executed : Type 0 where
  executed failed : List ℕ → Executed
  no_response : Executed

-- What the handler uses of protobuf, the ledger, the chaincode support, the crypto layer and the
-- stream; `St` is the state of all these. `register_handler` has no result for a duplicate, and else
-- says whether a handler that was set up before has a channel to give. `chaincode_id_name` is the name
-- in the id of a specification, which may have no id.
pub record HandlerEnv : Type 1 where
  pub Tx : Type 0
  pub Spec : Type 0
  pub Enc : Type 0
  pub St : Type 0
  pub tx_kind : Tx → TxKind
  pub is_public : Tx → Bool
  pub has_sec_helper : Bool
  pub get_state_encryptor : Option Tx → Option Tx → Option (Option Enc)
  pub encrypt : Enc → List ℕ → Option (List ℕ)
  pub decrypt : Enc → List ℕ → Option (List ℕ)
  pub get_ledger : St → Bool
  pub ledger_get_state : String → List ℕ → Bool → St → Option (List ℕ)
  pub ledger_set_state : String → List ℕ → List ℕ → St → Bool × St
  pub ledger_delete_state : String → List ℕ → St → Bool × St
  pub launch_chaincode : Spec → String → St → Bool × St
  pub chaincode_id_name : Spec → Option String
  pub execute : String → Spec → String → MessageType → St → Executed × St
  pub register_handler : String → St → Option Bool × St
  pub deregister_handler : Option String → St → St
  pub unmarshal_chaincode_id : List ℕ → Option String
  pub unmarshal_put_state_info : List ℕ → Option (List ℕ × List ℕ)
  pub unmarshal_chaincode_spec : List ℕ → Option Spec
  pub unmarshal_range_query_state : List ℕ → Option (List ℕ × List ℕ)
  pub unmarshal_range_query_id : List ℕ → Option String
  pub marshal_range_response : List (List ℕ × List ℕ) → Bool → String → Option (List ℕ)
  pub unmarshal_range_response : List ℕ → Option (List (List ℕ × List ℕ) × Bool)
  pub range_scan : String → List ℕ → List ℕ → Bool → St → Option (List (List ℕ × List ℕ))
  pub generate_uuid : St → String × St
  pub send : List ChaincodeMessage → ChaincodeMessage → Bool
  pub error_text : Fault → List ℕ
