-- ===== src/Pbft/ViewChange.antt =====
-- The handlers of viewchange.go. They call each other through `sendViewChange`, which a replica
-- answers itself; it has fuel, and the others take it as an argument.

pub mod Sets
pub mod Entries
pub mod Install
pub mod Frame
pub mod Counts
pub mod Later
pub mod Ends
pub mod Fuel
use client_sdk.Prelude.{
  ℕ, zero, suc, ◌+◌, ◌*◌, ◌%◌, ◌^◌, String, Bool, true, false, not, ◌&&◌, ◌||◌, Option, none, some,
  List, [], ◌∷◌, ◌++◌, map, ltb, leb, ◌==◌, all, count, length, Map, keys, lookup, insert, delete,
  has_key, keep_entries, nat_eq, string_eq, if◌then◌else◌, add64, sub64,
}
use client_sdk.Pbft.Messages.{
  PrePrepare, Prepare, ViewChange, ViewChangeC, ViewChangePq, NewView, Message,
}
use client_sdk.Pbft.State.{
  PbftCore, MsgId, QIdx, VcIdx, MsgCert, qidx_eq, vcidx_eq, ExecutionInfo, Output, broadcast,
  skip_to, change_view, Env, Error, nil_error, emit, start_timer, stop_timer, get_cert, set_cert,
}
use client_sdk.Pbft.Quorum.{primary, all_correct_replicas_quorum, pre_prepared, prepared}
use client_sdk.Pbft.Receive.{recv_prepare}
use client_sdk.Pbft.Checkpoint.{move_watermarks, resubmit_requests, fetch_requests, ViewChanges}
use client_sdk.Pbft.NewView.{
  Initial, correct_view_change, get_view_changes, select_initial_checkpoint,
  assign_sequence_numbers,
}
use client_sdk.Pbft.Leave.{enter_next_view, make_view_change}

-- The replicas that ask for a later view, and the smallest such view, 0 if there is none.
unfoldable pub later_views : ℕ → Map VcIdx ViewChange → Map ℕ Bool × ℕ → Map ℕ Bool × ℕ
later_views view [] found = found
later_views view ((idx, vc) ∷ rest) (replicas, min_view) = later_views view rest (
    if leb idx.v view then (replicas, min_view) else (
      insert idx.id true replicas,
      if (min_view == 0) || ltb idx.v min_view then idx.v else min_view,
    ))

-- `reflect.DeepEqual` on the maps of an assignment.
unfoldable pub same_assignment : Map ℕ String → Map ℕ String → Bool
same_assignment a b =
    (length a == length b)
    && all
        (λ (entry : ℕ × String). elim (lookup entry.0 b) [ none ↦ false | some d ↦ entry.1 == d ]) a

-- The loop of `processNewView` over the requests it assigns: is a request missing that was not?
unfoldable pub find_missing : List (ℕ × String) → Bool × PbftCore → Bool × PbftCore
find_missing [] found = found
find_missing ((n, d) ∷ rest) (missing, c) = find_missing rest (
    if leb n c.h || (d == "") || has_key d c.req_store || has_key d c.missing_reqs
    then (missing, c)
    else (true, record c { missing_reqs = insert d true c.missing_reqs }))

-- The first loop of `processNewView2`.
unfoldable pub install_pre_prepares : List (ℕ × String) → PbftCore → PbftCore
install_pre_prepares [] c = c
install_pre_prepares ((n, d) ∷ rest) c =
    let preprep : PrePrepare = record {
      view = c.view;
      sequence_number = n;
      request_digest = d;
      request = none;
      replica_id = c.id;
    } in
    let (cert, c') = get_cert c.view n c in
    let c'' = set_cert c.view n (record cert { pre_prepare = some preprep }) c' in
    install_pre_prepares rest (if ltb c''.seq_no n then record c'' { seq_no = n } else c'')

-- Its second loop, on a backup: the prepare is in the certificate before it is sent.
unfoldable pub install_prepares : List (ℕ × String) → PbftCore → PbftCore
install_prepares [] c = c
install_prepares ((n, d) ∷ rest) c =
    let prep : Prepare = record {
      view = c.view;
      sequence_number = n;
      request_digest = d;
      replica_id = c.id;
    } in
    let (cert, c') = get_cert c.view n c in
    let sent : MsgCert = record cert { prepare = cert.prepare ++ prep ∷ []; sent_prepare = true } in
    install_prepares rest
      (recv_prepare prep (emit (broadcast (Message.prepare prep)) (set_cert c.view n sent c')))

-- `processNewView2`
unfoldable pub process_new_view2 : Env → NewView → PbftCore → PbftCore
process_new_view2 env nv c =
    let active : PbftCore = record c {
      active_view = true;
      new_view_store = delete (sub64 c.view 1) c.new_view_store;
    } in
    let installed = install_pre_prepares nv.xset active in
    let answered =
      if not (primary installed.view installed == installed.id)
      then install_prepares nv.xset installed
      else resubmit_requests env installed in
    emit (change_view answered.view) answered

-- `processNewView` from the fetch of requests on.
unfoldable pub fetch_or_install : Env → NewView → PbftCore → PbftCore
fetch_or_install env nv c =
    let (new_request_missing, c') = find_missing nv.xset (false, c) in
    if length c'.missing_reqs == 0
    then process_new_view2 env nv c'
    else if new_request_missing
    then fetch_requests c'
    else c'

-- `processNewView` of a new view whose assignment is verified: a replica that has not reached the
-- initial checkpoint skips to it.
unfoldable pub accept_new_view : Env → NewView → Initial → PbftCore → PbftCore
accept_new_view env nv cp c =
    let number = cp.checkpoint.sequence_number in
    if ltb c.h number
    then (let moved = move_watermarks env number c in
        elim (env.decode_base64 cp.checkpoint.id) [
          | none ↦ moved
          | some snapshot_id ↦
              fetch_or_install env nv
                (record (emit
                  (skip_to number snapshot_id cp.replicas
                    (record { checkpoint = true; null = false }))
                  moved) { last_exec = number })
        ])
    else fetch_or_install env nv c

module _ (env : Env) (send : PbftCore → PbftCore) where
  unfoldable pub process_new_view_with : PbftCore → PbftCore
  process_new_view_with c = elim (lookup c.view c.new_view_store) [
    | none ↦ c
    | some nv ↦
        if c.active_view
        then c
        else let cp = select_initial_checkpoint nv.vset c in
          if not cp.ok
          then send c
          else elim (assign_sequence_numbers nv.vset cp.checkpoint.sequence_number c) [
            | none ↦ send c
            | some msg_list ↦
                if not ((length msg_list == 0) && (length nv.xset == 0))
                  && not (same_assignment msg_list nv.xset)
                then send c
                else accept_new_view env nv cp c
          ]
  ]

  unfoldable pub send_new_view_with : PbftCore → PbftCore
  send_new_view_with c =
      if has_key c.view c.new_view_store
      then c
      else let vset = get_view_changes c.view_change_store in
        let cp = select_initial_checkpoint vset c in
        if not cp.ok
        then c
        else elim (assign_sequence_numbers vset cp.checkpoint.sequence_number c) [
          | none ↦ c
          | some msg_list ↦
              let nv : NewView = record {
                view = c.view;
                vset = vset;
                xset = msg_list;
                replica_id = c.id;
              } in
              let sent = emit (broadcast (Message.new_view nv)) c in
              process_new_view_with
                (record sent { new_view_store = insert sent.view nv sent.new_view_store })
        ]

  -- `recvViewChange` of a view change that is stored. A timeout is a 64-bit number.
  unfoldable pub count_view_change : ViewChange → PbftCore → PbftCore
  count_view_change vc c =
      let (replicas, min_view) = later_views c.view c.view_change_store ([], 0) in
      if leb (c.f + 1) (length replicas)
      then send (record c { view = sub64 min_view 1 })
      else let quorum = count (λ (idx : VcIdx). idx.v == c.view) (keys c.view_change_store) in
        if (vc.view == c.view) && (quorum == all_correct_replicas_quorum c)
        then (let timed = start_timer c.last_new_view_timeout c in
            let doubled : PbftCore = record timed {
              last_new_view_timeout = (2 * timed.last_new_view_timeout) % 2 ^ 64;
            } in
            if primary doubled.view doubled == doubled.id
            then send_new_view_with doubled
            else process_new_view_with doubled)
        else process_new_view_with c

  unfoldable pub recv_view_change_with : ViewChange → PbftCore → PbftCore
  recv_view_change_with vc c =
      let idx : VcIdx = record { v = vc.view; id = vc.replica_id } in
      if not (env.verify vc)
      then c
      else if not
          (leb c.view vc.view && correct_view_change vc c && not (has_key idx c.view_change_store))
      then c
      else count_view_change vc (record c { view_change_store = insert idx vc c.view_change_store })

  unfoldable pub recv_new_view_with : NewView → PbftCore → PbftCore
  recv_new_view_with nv c =
      if not (
        ltb 0 nv.view
        && leb c.view nv.view
        && (primary nv.view c == nv.replica_id)
        && not (has_key nv.view c.new_view_store))
      then c
      else if not (all (λ vc. env.verify vc) nv.vset)
      then c
      else process_new_view_with (record c { new_view_store = insert nv.view nv c.new_view_store })

-- `sendViewChange`, which also receives its own message.
unfoldable pub send_view_change : ℕ → Env → PbftCore → PbftCore
send_view_change zero env c = c
send_view_change (suc fuel) env c =
    let entered = enter_next_view c in
    let vc = make_view_change env entered in
    recv_view_change_with env (send_view_change fuel env) vc
      (emit (broadcast (Message.view_change vc)) entered)

-- The fuel of a handler: a replica sends at most one view change for each later view that is
-- asked for and each new view that is stored.
unfoldable pub view_fuel : PbftCore → ℕ
view_fuel c = suc (suc (suc (length c.view_change_store + length c.new_view_store)))

unfoldable pub recv_view_change : Env → ViewChange → PbftCore → PbftCore
recv_view_change env vc c = recv_view_change_with env (send_view_change (view_fuel c) env) vc c

unfoldable pub recv_new_view : Env → NewView → PbftCore → PbftCore
recv_new_view env nv c = recv_new_view_with env (send_view_change (view_fuel c) env) nv c

unfoldable pub process_new_view : Env → PbftCore → PbftCore
process_new_view env c = process_new_view_with env (send_view_change (view_fuel c) env) c

-- The case of `timerHander` on the expired timer, which has stopped running.
unfoldable pub timer_expired : Env → PbftCore → PbftCore
timer_expired env c =
    let counted : PbftCore = record c {
      timer_expired_count = add64 c.timer_expired_count 1;
      new_view_timer = none;
    } in
    if ltb counted.timer_expired_count counted.timer_reset_count
    then counted
    else send_view_change (view_fuel counted) env counted

-- The interface of the checkpoints, filled.
abbrev pub view_changes : Env → ViewChanges
view_changes env = record {
  process_new_view = λ c. (process_new_view env c, nil_error);
  recv_view_change = λ vc c. (recv_view_change env vc c, nil_error);
  recv_new_view = λ nv c. (recv_new_view env nv c, nil_error);
}
