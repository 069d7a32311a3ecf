-- ===== src/Pbft/Checkpoint.antt =====
-- Checkpoints, watermarks and the fetch of missing requests of pbft-core.go, and the dispatch of
-- messages. The handlers of viewchange.go that these call are arguments.
pub mod Cleaning
use client_sdk.Prelude.{
  ℕ, zero, suc, ◌+◌, ◌-◌, ◌%◌, String, Bool, true, false, not, ◌&&◌, ◌||◌, Option, none, some, List,
  [], ◌∷◌, map, ltb, leb, ◌==◌, count, keep, length, Map, keys, lookup, insert, delete, has_key,
  keep_entries, nat_eq, string_eq, if◌then◌else◌, add64,
}
use client_sdk.Pbft.Messages.{Request, Checkpoint, ViewChange, NewView, FetchRequest, Message}
use client_sdk.Pbft.State.{
  PbftCore, MsgId, QIdx, MsgCert, checkpoint_eq, ExecutionInfo, Output, broadcast, unicast, skip_to,
  valid_state, nil_dereference, Env, Error, nil_error, sender_mismatch, invalid_message, hash_req,
  emit,
}
use client_sdk.Pbft.Quorum.{primary, in_w, intersection_quorum}
use client_sdk.Pbft.Receive.{recv_request, recv_pre_prepare, recv_prepare, recv_commit}

-- A certificate whose pre-prepare has this digest.
unfoldable pub has_pre_prepare : String → Map MsgId MsgCert → Bool
has_pre_prepare digest [] = false
has_pre_prepare digest ((idx, cert) ∷ rest) =
    elim cert.pre_prepare [ none ↦ false | some p ↦ p.request_digest == digest ]
    || has_pre_prepare digest rest

-- One round of the loop of `resubmitRequests`. A request that an earlier round removed is not
-- visited.
unfoldable pub resubmit_request : Env → String → PbftCore → PbftCore
resubmit_request env digest c = elim (lookup digest c.outstanding_reqs) [
  | none ↦ c
  | some req ↦ if has_pre_prepare digest c.cert_store then c else (recv_request env req c).0
]

unfoldable pub resubmit_each : Env → List String → PbftCore → PbftCore
resubmit_each env [] c = c
resubmit_each env (digest ∷ rest) c = resubmit_each env rest (resubmit_request env digest c)

unfoldable pub resubmit_requests : Env → PbftCore → PbftCore
resubmit_requests env c =
    if not (primary c.view c == c.id) then c else resubmit_each env (keys c.outstanding_reqs) c

-- The requests of the certificates up to `h` are deleted.
unfoldable pub clean_requests : ℕ → Map MsgId MsgCert → Map String Request → Map String Request
clean_requests h [] reqs = reqs
clean_requests h ((idx, cert) ∷ rest) reqs = clean_requests h rest (
    if leb idx.n h
    then elim cert.pre_prepare [ none ↦ reqs | some p ↦ delete p.request_digest reqs ]
    else reqs)

-- `moveWatermarks` up to the call of `resubmitRequests`.
unfoldable pub clean_logs : ℕ → PbftCore → PbftCore
clean_logs h c = record c {
  req_store = clean_requests h c.cert_store c.req_store;
  cert_store = keep_entries (λ idx _. not (leb idx.n h)) c.cert_store;
  checkpoint_store = keep_entries (λ chkpt _. not (leb chkpt.sequence_number h)) c.checkpoint_store;
  pset = keep_entries (λ n _. not (leb n h)) c.pset;
  qset = keep_entries (λ idx _. not (leb idx.n h)) c.qset;
  chkpts = keep_entries (λ n _. not (ltb n h)) c.chkpts;
  h = h;
}

unfoldable pub move_watermarks : Env → ℕ → PbftCore → PbftCore
move_watermarks env h c = resubmit_requests env (clean_logs h c)

-- `sort.Sort(sortableUint64Slice(...))`
abbrev pub insert_number : ℕ → List ℕ → List ℕ
insert_number n [] = n ∷ []
insert_number n (m ∷ rest) = if leb n m then n ∷ m ∷ rest else m ∷ insert_number n rest

abbrev pub sort_numbers : List ℕ → List ℕ
sort_numbers [] = []
sort_numbers (n ∷ rest) = insert_number n (sort_numbers rest)

abbrev pub element : ℕ → List ℕ → Option ℕ
element i [] = none
element zero (x ∷ xs) = some x
element (suc i) (x ∷ xs) = element i xs

unfoldable pub values : Map ℕ ℕ → List ℕ
values [] = []
values ((k, v) ∷ rest) = v ∷ values rest

-- An index out of range is a run-time panic like a nil dereference.
unfoldable pub weak_checkpoint_set_out_of_range : Env → Checkpoint → PbftCore → Bool × PbftCore
weak_checkpoint_set_out_of_range env chkpt c =
    let high = add64 c.h c.l in
    if ltb chkpt.sequence_number high
    then (false, record c { h_chkpts = delete chkpt.replica_id c.h_chkpts })
    else let tracked = insert chkpt.replica_id chkpt.sequence_number c.h_chkpts in
      if ltb (length tracked) (c.f + 1)
      then (false, record c { h_chkpts = tracked })
      else let c' : PbftCore = record c {
        h_chkpts = keep_entries (λ _ n. not (ltb n high)) tracked;
      } in
        elim (element (length tracked - (c.f + 1)) (sort_numbers (values tracked))) [
          | none ↦ (true, emit nil_dereference c')
          | some m ↦
              if ltb high m
              then (
                true,
                record (move_watermarks env m (record c' { req_store = [] })) {
                  skip_in_progress = true;
                },
              )
              else (false, c')
        ]

unfoldable pub same_checkpoint : Checkpoint → Checkpoint → Bool
same_checkpoint chkpt test =
    (test.sequence_number == chkpt.sequence_number) && (test.id == chkpt.id)

-- Called on the first weak certificate only, which has exactly `f + 1` members.
unfoldable pub witness_checkpoint_weak_cert : Env → Checkpoint → PbftCore → PbftCore
witness_checkpoint_weak_cert env chkpt c =
    let members =
      map (λ (test : Checkpoint). test.replica_id)
        (keep (same_checkpoint chkpt) (keys c.checkpoint_store)) in
    let info : ExecutionInfo = record { checkpoint = true; null = false } in
    elim (env.decode_base64 chkpt.id) [
      | none ↦ c
      | some snapshot_id ↦
          if c.skip_in_progress
          then (let c' =
                move_watermarks env chkpt.sequence_number (record c { skip_in_progress = false }) in
              emit (skip_to chkpt.sequence_number snapshot_id members info)
                (record c' { last_exec = chkpt.sequence_number }))
          else emit (valid_state chkpt.sequence_number snapshot_id members info) c
    ]

-- The replies of viewchange.go to what these handlers find.
pub record ViewChanges : Type 0 where
  pub process_new_view : PbftCore → PbftCore × Error
  pub recv_view_change : ViewChange → PbftCore → PbftCore × Error
  pub recv_new_view : NewView → PbftCore → PbftCore × Error

module _ (env : Env) (changes : ViewChanges) where
  -- `recvCheckpoint` of a checkpoint in the window.
  unfoldable pub record_checkpoint : Checkpoint → PbftCore → PbftCore × Error
  record_checkpoint chkpt c =
      let stored : PbftCore = record c {
        checkpoint_store = insert chkpt true c.checkpoint_store;
      } in
      let matching = count (same_checkpoint chkpt) (keys stored.checkpoint_store) in
      let c' =
        if matching == c.f + 1 then witness_checkpoint_weak_cert env chkpt stored else stored in
      if ltb matching (intersection_quorum c')
      then (c', nil_error)
      else if not (has_key chkpt.sequence_number c'.chkpts)
      then (c', nil_error)
      else changes.process_new_view (move_watermarks env chkpt.sequence_number c')

  unfoldable pub recv_checkpoint : Checkpoint → PbftCore → PbftCore × Error
  recv_checkpoint chkpt c =
      let (out_of_range, c') = weak_checkpoint_set_out_of_range env chkpt c in
      if out_of_range
      then (c', nil_error)
      else if not (in_w chkpt.sequence_number c')
      then (c', nil_error)
      else record_checkpoint chkpt c'

  -- `Checkpoint`, whose message comes back to this replica. A remainder by zero is a run-time
  -- panic.
  unfoldable pub make_checkpoint : ℕ → List ℕ → PbftCore → PbftCore
  make_checkpoint seq_no id c =
      if c.k == 0
      then emit nil_dereference c
      else if not ((seq_no % c.k) == 0)
      then c
      else let id_as_string = env.encode_base64 id in
        let chkpt : Checkpoint = record {
          sequence_number = c.last_exec;
          replica_id = c.id;
          id = id_as_string;
        } in
        let c' : PbftCore = record c { chkpts = insert c.last_exec id_as_string c.chkpts } in
        (recv_checkpoint chkpt (emit (broadcast (Message.checkpoint chkpt)) c')).0

  unfoldable pub recv_return_request : Request → PbftCore → PbftCore × Error
  recv_return_request req c =
      let digest = hash_req env (some req) in
      if not (has_key digest c.missing_reqs)
      then (c, nil_error)
      else changes.process_new_view (record c {
        req_store = insert digest req c.req_store;
        missing_reqs = delete digest c.missing_reqs;
      })

unfoldable pub fetch_each : List String → PbftCore → PbftCore
fetch_each [] c = c
fetch_each (digest ∷ rest) c = fetch_each rest (
    emit (broadcast (Message.fetch_request (record { request_digest = digest; replica_id = c.id })))
      c)

unfoldable pub fetch_requests : PbftCore → PbftCore
fetch_requests c = fetch_each (keys c.missing_reqs) c

unfoldable pub recv_fetch_request : FetchRequest → PbftCore → PbftCore × Error
recv_fetch_request fr c = elim (lookup fr.request_digest c.req_store) [
  | none ↦ (c, nil_error)
  | some req ↦ (emit (unicast (Message.return_request req) fr.replica_id) c, nil_error)
]

-- A message that names another sender than the stream it came on is dropped.
unfoldable pub from_sender : ℕ → ℕ → PbftCore × Error → PbftCore → PbftCore × Error
from_sender sender_id replica_id handled c =
    if not (sender_id == replica_id) then (c, sender_mismatch) else handled

unfoldable pub recv_msg_sync : Env → ViewChanges → Message → ℕ → PbftCore → PbftCore × Error
recv_msg_sync env changes (Message.request req) sender c =
    from_sender sender req.replica_id (recv_request env req c) c
recv_msg_sync env changes (Message.pre_prepare preprep) sender c =
    from_sender sender preprep.replica_id (recv_pre_prepare env preprep c) c
recv_msg_sync env changes (Message.prepare prep) sender c =
    from_sender sender prep.replica_id (recv_prepare prep c, nil_error) c
recv_msg_sync env changes (Message.commit commit) sender c =
    from_sender sender commit.replica_id (recv_commit commit c, nil_error) c
recv_msg_sync env changes (Message.checkpoint chkpt) sender c =
    from_sender sender chkpt.replica_id (recv_checkpoint env changes chkpt c) c
recv_msg_sync env changes (Message.view_change vc) sender c =
    from_sender sender vc.replica_id (changes.recv_view_change vc c) c
recv_msg_sync env changes (Message.new_view nv) sender c =
    from_sender sender nv.replica_id (changes.recv_new_view nv c) c
recv_msg_sync env changes (Message.fetch_request fr) sender c =
    from_sender sender fr.replica_id (recv_fetch_request fr c) c
recv_msg_sync env changes (Message.return_request req) sender c =
    recv_return_request env changes req c
recv_msg_sync env changes Message.unset sender c = (c, invalid_message)
