-- ===== src/Pbft/Replica.antt =====
-- The entry points of pbft-core.go, `request` and `receive`, over all its handlers.
use client_sdk.Prelude.{ℕ, Option, none, some, List}
use client_sdk.Pbft.Messages.{Message}
use client_sdk.Pbft.State.{PbftCore, Env, Error, nil_error, unpacking_failed}
use client_sdk.Pbft.Checkpoint.{recv_msg_sync}
use client_sdk.Pbft.ViewChange.{view_changes}

unfoldable pub request : Env → List ℕ → ℕ → PbftCore → PbftCore × Error
request env payload sender_id c =
    let req : Message =
      Message.request (record { timestamp = none; payload = payload; replica_id = sender_id }) in
    ((recv_msg_sync env (view_changes env) req sender_id c).0, nil_error)

-- `unmarshal` is the decoder of the messages.
unfoldable pub receive : Env → (List ℕ → Option Message) → List ℕ → ℕ → PbftCore → PbftCore × Error
receive env unmarshal payload sender_id c = elim (unmarshal payload) [
  | none ↦ (c, unpacking_failed)
  | some msg ↦ ((recv_msg_sync env (view_changes env) msg sender_id c).0, nil_error)
]
