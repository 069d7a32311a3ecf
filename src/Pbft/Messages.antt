-- ===== src/Pbft/Messages.antt =====
-- The consensus messages (consensus/obcpbft/messages.proto). A `uint64` is a number, `bytes` a list
-- of bytes; a message field that Go holds as a pointer which may be nil is an `Option`.
use Prim.Native.Nat.{ℕ}
use Prim.Native.String.{String}
use mathlib.Core.Option.{Option}
use mathlib.Core.List.{List}

pub record Timestamp : Type 0 where
  pub seconds : ℕ
  pub nanos : ℕ

pub record Request : Type 0 where
  pub timestamp : Option Timestamp
  pub payload : List ℕ
  pub replica_id : ℕ

pub record PrePrepare : Type 0 where
  pub view : ℕ
  pub sequence_number : ℕ
  pub request_digest : String
  pub request : Option Request
  pub replica_id : ℕ

pub record Prepare : Type 0 where
  pub view : ℕ
  pub sequence_number : ℕ
  pub request_digest : String
  pub replica_id : ℕ

pub record Commit : Type 0 where
  pub view : ℕ
  pub sequence_number : ℕ
  pub request_digest : String
  pub replica_id : ℕ

pub record Checkpoint : Type 0 where
  pub sequence_number : ℕ
  pub replica_id : ℕ
  pub id : String

-- `view_change.C`
pub record ViewChangeC : Type 0 where
  pub sequence_number : ℕ
  pub id : String

-- `view_change.PQ`
pub record ViewChangePq : Type 0 where
  pub sequence_number : ℕ
  pub digest : String
  pub view : ℕ

pub record ViewChange : Type 0 where
  pub view : ℕ
  pub h : ℕ
  pub cset : List ViewChangeC
  pub pset : List ViewChangePq
  pub qset : List ViewChangePq
  pub replica_id : ℕ
  pub signature : List ℕ

pub record NewView : Type 0 where
  pub view : ℕ
  pub vset : List ViewChange
  pub xset : List (ℕ × String)
  pub replica_id : ℕ

pub record FetchRequest : Type 0 where
  pub request_digest : String
  pub replica_id : ℕ

-- The `oneof payload`; `unset` is a message that carries none of its kinds.
pub data Message : Type 0 where
  request : Request → Message
  pre_prepare : PrePrepare → Message
  prepare : Prepare → Message
  commit : Commit → Message
  checkpoint : Checkpoint → Message
  view_change : ViewChange → Message
  new_view : NewView → Message
  fetch_request : FetchRequest → Message
  return_request : Request → Message
  unset : Message
