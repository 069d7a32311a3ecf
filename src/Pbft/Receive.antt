-- ===== src/Pbft/Receive.antt =====
-- The normal case of pbft-core.go: requests, pre-prepares, prepares, commits and execution.
-- `consumer.execute` is an output: what another thread does while the lock is released around that
-- call is a step of its own, before or after the handler.
pub mod Sent
pub mod Frame
pub mod Execution
pub mod Errors
pub mod Invariant
use client_sdk.Prelude.{
  ℕ, zero, suc, ◌+◌, ◌%◌, String, Bool, true, false, not, ◌&&◌, ◌||◌, Option, none, some, List, [],
  ◌∷◌, ◌++◌, ltb, ◌==◌, any, length, Map, keys, lookup, insert, delete, has_key, nat_eq, string_eq,
  if◌then◌else◌, add64,
}
use client_sdk.Pbft.Messages.{Request, PrePrepare, Prepare, Commit, Message}
use client_sdk.Pbft.State.{
  PbftCore, MsgId, MsgCert, msg_id_eq, ExecutionInfo, Output, broadcast, execute, nil_dereference,
  Env, Error, nil_error, validation_failed, nil_pointer, hash_req, emit, start_timer, stop_timer,
  get_cert, set_cert,
}
use client_sdk.Pbft.Quorum.{primary, in_wv, pre_prepared, prepared, committed}

-- The end of `executeOne`: the request of `idx` is handed to the consumer.
unfoldable pub execute_request : MsgId → String → PbftCore → PbftCore
execute_request idx digest c =
    let boundary = (idx.n % c.k) == 0 in
    if digest == ""
    then if boundary
      then emit (execute idx.n none (record { checkpoint = true; null = true })) c
      else c
    else let c' : PbftCore = record c { outstanding_reqs = delete digest c.outstanding_reqs } in
      elim (lookup digest c.req_store) [
        | none ↦ emit nil_dereference c'
        | some req ↦
            emit (execute idx.n (some req.payload) (record { checkpoint = boundary; null = false }))
              c'
      ]

-- The state in which `executeOne` returns true.
unfoldable pub executed : MsgId → String → PbftCore → PbftCore
executed idx digest c =
    let c' = stop_timer (record c { last_exec = idx.n }) in
    let c'' =
      execute_request idx digest (record c' { last_new_view_timeout = c'.new_view_timeout }) in
    if ltb 0 (length c''.outstanding_reqs) then start_timer c''.request_timeout c'' else c''

-- `none` is the result false, which leaves the state as it was.
unfoldable pub execute_one : MsgId → PbftCore → Option PbftCore
execute_one idx c = elim (lookup idx c.cert_store) [
  | none ↦ none
  | some cert ↦ elim cert.pre_prepare [
    | none ↦ none
    | some p ↦
        if not (idx.n == add64 c.last_exec 1) || c.skip_in_progress
        then none
        else if committed p.request_digest idx.v idx.n c
        then some (executed idx p.request_digest c)
        else none
  ]
]

-- One walk of the certificate store, up to the first certificate that executes.
unfoldable pub execute_pass : List MsgId → PbftCore → Option PbftCore
execute_pass [] c = none
execute_pass (idx ∷ rest) c = elim (execute_one idx c) [
  | some c' ↦ some c'
  | none ↦ execute_pass rest c
]

-- The loop of `executeOutstanding`, with fuel.
unfoldable pub execute_loop : ℕ → PbftCore → PbftCore
execute_loop zero c = c
execute_loop (suc fuel) c = elim (execute_pass (keys c.cert_store) c) [
  | none ↦ c
  | some c' ↦ execute_loop fuel c'
]

unfoldable pub execute_outstanding : PbftCore → PbftCore
execute_outstanding c = execute_loop (suc (length c.cert_store)) c

unfoldable pub recv_commit : Commit → PbftCore → PbftCore
recv_commit commit c =
    if not (in_wv commit.view commit.sequence_number c)
    then c
    else let (cert, c') = get_cert commit.view commit.sequence_number c in
      if any (λ (prev : Commit). prev.replica_id == commit.replica_id) cert.commit
      then c'
      else execute_outstanding (
          set_cert commit.view commit.sequence_number
            (record cert { commit = cert.commit ++ commit ∷ [] }) c')

-- `innerBroadcast` of a commit, to this replica too.
unfoldable pub broadcast_commit : Commit → PbftCore → PbftCore
broadcast_commit commit c = recv_commit commit (emit (broadcast (Message.commit commit)) c)

-- The log line reads the view of the pre-prepare, which is a panic where there is none.
unfoldable pub maybe_send_commit : String → ℕ → ℕ → PbftCore → PbftCore
maybe_send_commit digest v n c =
    let (cert, c') = get_cert v n c in
    if prepared digest v n c' && not cert.sent_commit
    then elim cert.pre_prepare [
      | none ↦ emit nil_dereference c'
      | some _ ↦
          broadcast_commit
            (record { view = v; sequence_number = n; request_digest = digest; replica_id = c'.id })
            (set_cert v n (record cert { sent_commit = true }) c')
    ]
    else c'

unfoldable pub recv_prepare : Prepare → PbftCore → PbftCore
recv_prepare prep c =
    if primary prep.view c == prep.replica_id
    then c
    else if not (in_wv prep.view prep.sequence_number c)
    then c
    else let (cert, c') = get_cert prep.view prep.sequence_number c in
      if any (λ (prev : Prepare). prev.replica_id == prep.replica_id) cert.prepare
      then c'
      else maybe_send_commit prep.request_digest prep.view prep.sequence_number (
          set_cert prep.view prep.sequence_number
            (record cert { prepare = cert.prepare ++ prep ∷ [] }) c')

-- `innerBroadcast` of a prepare, to this replica too.
unfoldable pub broadcast_prepare : Prepare → PbftCore → PbftCore
broadcast_prepare prep c = recv_prepare prep (emit (broadcast (Message.prepare prep)) c)

-- Another pre-prepare of this view holds the digest at another number.
unfoldable pub have_other : ℕ → ℕ → String → Map MsgId MsgCert → Bool
have_other view n digest [] = false
have_other view n digest ((idx, cert) ∷ rest) =
    elim cert.pre_prepare [
      | none ↦ false
      | some p ↦ (p.view == view) && not (p.sequence_number == n) && (p.request_digest == digest)
    ]
    || have_other view n digest rest

-- The primary's part of `recvRequest`.
unfoldable pub propose : Request → String → PbftCore → PbftCore
propose req digest c =
    let n = add64 c.seq_no 1 in
    if in_wv c.view n c && not (have_other c.view n digest c.cert_store)
    then (let preprep : PrePrepare = record {
      view = c.view;
      sequence_number = n;
      request_digest = digest;
      request = some req;
      replica_id = c.id;
    } in
        let (cert, c') = get_cert c.view n (record c { seq_no = n }) in
        maybe_send_commit digest c.view n (
          emit (broadcast (Message.pre_prepare preprep))
            (set_cert c.view n (record cert { pre_prepare = some preprep }) c')))
    else c

unfoldable pub recv_request : Env → Request → PbftCore → PbftCore × Error
recv_request env req c =
    let digest = hash_req env (some req) in
    if not (env.validate req.payload)
    then (c, validation_failed)
    else let c' : PbftCore = record c {
      req_store = insert digest req c.req_store;
      outstanding_reqs = insert digest req c.outstanding_reqs;
    } in
      let c'' : PbftCore =
        if not c'.timer_active && c'.active_view then start_timer c'.request_timeout c' else c' in
      if (primary c''.view c'' == c''.id) && c''.active_view
      then (propose req digest c'', nil_error)
      else (c'', nil_error)

-- The end of `recvPrePrepare`: a backup that has pre-prepared sends its prepare, once.
unfoldable pub maybe_send_prepare : PrePrepare → PbftCore → PbftCore
maybe_send_prepare preprep c =
    let c' = if not c.timer_active then start_timer c.request_timeout c else c in
    let (cert, c'') = get_cert preprep.view preprep.sequence_number c' in
    if not (primary c''.view c'' == c''.id)
      && pre_prepared preprep.request_digest preprep.view preprep.sequence_number c''
      && not cert.sent_prepare
    then broadcast_prepare
        (record {
          view = preprep.view;
          sequence_number = preprep.sequence_number;
          request_digest = preprep.request_digest;
          replica_id = c''.id;
        })
        (set_cert preprep.view preprep.sequence_number (record cert { sent_prepare = true }) c'')
    else c''

-- A pre-prepare that is not for the digest of the stored one is not stored.
unfoldable pub store_pre_prepare : PrePrepare → PbftCore → PbftCore
store_pre_prepare preprep c =
    let (cert, c') = get_cert preprep.view preprep.sequence_number c in
    elim cert.pre_prepare [
      | none ↦
          set_cert preprep.view preprep.sequence_number (record cert { pre_prepare = some preprep })
            c'
      | some old ↦
          if not (old.request_digest == preprep.request_digest)
          then c'
          else set_cert preprep.view preprep.sequence_number
              (record cert { pre_prepare = some preprep }) c'
    ]

-- `recvPrePrepare` after its guards.
unfoldable pub accept_pre_prepare : Env → PrePrepare → PbftCore → PbftCore × Error
accept_pre_prepare env preprep c =
    let c' = store_pre_prepare preprep c in
    if has_key preprep.request_digest c'.req_store
    then (maybe_send_prepare preprep c', nil_error)
    else let digest = hash_req env preprep.request in
      if not (digest == preprep.request_digest) then (c', nil_error) else elim preprep.request [
        | none ↦ (emit nil_dereference c', nil_pointer)
        | some req ↦ if not (env.validate req.payload) then (c', validation_failed) else (
          maybe_send_prepare preprep (record c' {
            req_store = insert digest req c'.req_store;
            outstanding_reqs = insert digest req c'.outstanding_reqs;
          }),
          nil_error,
        )
      ]

unfoldable pub recv_pre_prepare : Env → PrePrepare → PbftCore → PbftCore × Error
recv_pre_prepare env preprep c =
    if not c.active_view
    then (c, nil_error)
    else if not (primary c.view c == preprep.replica_id)
    then (c, nil_error)
    else if not (in_wv preprep.view preprep.sequence_number c)
    then (c, nil_error)
    else accept_pre_prepare env preprep c
