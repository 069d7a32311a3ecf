-- ===== src/Pbft/Tests.antt =====
-- Four replicas, the last of them faulty, that agree on a request; and the theorems about the PBFT
-- core at such inputs.
pub mod Committed
mod Watermarks
mod Views
mod Changes
mod Batches
use client_sdk.Prelude.{
  ℕ, zero, suc, String, ◌≡◌, ◌↔◌, ◌≤◌, ◌<◌, ◌+◌, length, refl, Bool, true, false, Option, none,
  some, List, [], ◌∷◌, arith, inl, inr, ◌==◌, nat_eq, lookup, insert, delete, has_key, keys,
  keep_entries,
}
use client_sdk.Pbft.Messages.{Request, PrePrepare, Prepare, Commit}
use client_sdk.Pbft.State.{
  PbftCore, MsgId, MsgCert, msg_id_eq, nil_pointer, validation_failed, Env, Config, new_pbft_core,
  hash_req, emit, start_timer, stop_timer, get_cert, set_cert,
}
use client_sdk.Pbft.Quorum.{
  primary, in_w, in_wv, intersection_quorum, in_qset, pre_prepare_matches, pre_prepared, in_pset,
  prepared, committed,
}
use client_sdk.Pbft.Receive.{
  execute_request, executed, execute_one, execute_pass, execute_loop, execute_outstanding,
  recv_commit, broadcast_commit, maybe_send_commit, recv_prepare, broadcast_prepare, have_other,
  propose, recv_request, maybe_send_prepare, store_pre_prepare, accept_pre_prepare,
  recv_pre_prepare,
}
use client_sdk.Pbft.Agreement.Network
use client_sdk.Pbft.Agreement.Network.{
  Setup, Net, Event, handle, update, Reach, here, next, deliver, source_at, NetIsValid,
  Reach-NetIsValid, Step-NetIsValid,
}
use client_sdk.Pbft.Agreement.Boot
use client_sdk.Pbft.Agreement.Safety
use client_sdk.Pbft.Quorum.Intersection.{count_below, Distinct}
use client_sdk.Pbft.Quorum.Window
use client_sdk.Pbft.Receive.Errors
use client_sdk.Pbft.Receive.Frame.{SameLog}
use client_sdk.Pbft.Receive.Sent.{Descending, executions}
use client_sdk.Pbft.Receive.Invariant.{IsValid, IsValid-SameLog, commit_ids}

-- Everything that runs in these tests.
unfoldable pub program : Unit {0}
unfolding lookup insert delete has_key keys keep_entries hash_req emit start_timer stop_timer
    get_cert set_cert new_pbft_core primary in_w in_wv intersection_quorum in_qset
    pre_prepare_matches pre_prepared in_pset prepared committed execute_request executed execute_one
    execute_pass execute_loop execute_outstanding recv_commit broadcast_commit maybe_send_commit
    recv_prepare broadcast_prepare have_other propose recv_request maybe_send_prepare
    store_pre_prepare accept_pre_prepare recv_pre_prepare handle count_below
program = tt

abbrev pub env : Env
env = record {
  marshal_request = λ r. [];
  compute_crypto_hash = λ bytes. bytes;
  encode_base64 = λ bytes. "digest";
  decode_base64 = λ text. some [];
  validate = λ payload. true;
  sign = λ vc. vc;
  verify = λ vc. true;
}

abbrev pub config : Config
config = record {
  n = 4;
  f = 1;
  k = 10;
  logmultiplier = 4;
  request_timeout = 2;
  view_change_timeout = 2;
}

abbrev pub setup : Setup
setup = record { env = env; n_replicas = 4; f = 1; view = 0; bad = λ i. i == 3 }

new_replica : ℕ → Option PbftCore
new_replica i = new_pbft_core env i config []

-- The network as it starts.
abbrev pub boot : Net
boot i = record {
  active_view = true;
  f = 1;
  n_replicas = 4;
  h = 0;
  id = i;
  k = 10;
  l = 40;
  last_exec = 0;
  replica_count = 4;
  seq_no = 0;
  view = 0;
  chkpts = (0, "digest") ∷ [];
  pset = [];
  qset = [];
  skip_in_progress = false;
  h_chkpts = [];
  new_view_timer = none;
  timer_active = false;
  request_timeout = 2;
  new_view_timeout = 2;
  last_new_view_timeout = 2;
  outstanding_reqs = [];
  timer_expired_count = 0;
  timer_reset_count = 1;
  missing_reqs = [];
  req_store = [];
  cert_store = [];
  checkpoint_store = [];
  view_change_store = [];
  new_view_store = [];
  outbox = [];
}

boot_is_new : (i : ℕ) → new_pbft_core env i config [] ≡ some (boot i)
unfolding program
boot_is_new i = refl

abbrev pub req : Request
req = record { timestamp = none; payload = 7 ∷ []; replica_id = 0 }

abbrev pub pre : PrePrepare
pre = record {
  view = 0;
  sequence_number = 1;
  request_digest = "digest";
  request = some req;
  replica_id = 0;
}

abbrev pub prep : ℕ → Prepare
prep i = record { view = 0; sequence_number = 1; request_digest = "digest"; replica_id = i }

abbrev pub commit_of : ℕ → Commit
commit_of i = record { view = 0; sequence_number = 1; request_digest = "digest"; replica_id = i }

-- The network after each delivery.
abbrev net1 : Net
net1 = update boot 0 (handle env (Event.request req) (boot 0))

abbrev net2 : Net
net2 = update net1 1 (handle env (Event.pre_prepare pre) (net1 1))

abbrev net3 : Net
net3 = update net2 2 (handle env (Event.pre_prepare pre) (net2 2))

abbrev net4 : Net
net4 = update net3 1 (handle env (Event.prepare (prep 2)) (net3 1))

abbrev pub net5 : Net
net5 = update net4 2 (handle env (Event.prepare (prep 1)) (net4 2))

pub reach : Reach setup boot net5
unfolding program
reach =
    next
      (next
        (next
          (next (next here (deliver 0 (Event.request req) (omega arith) refl tt)) (
            deliver 1 (Event.pre_prepare pre) (omega arith) refl
              (omega arith, (omega arith, inr (inl refl)))))
          (deliver 2 (Event.pre_prepare pre) (omega arith) refl
            (omega arith, (omega arith, inr (inl refl)))))
        (deliver 1 (Event.prepare (prep 2)) (omega arith) refl
          (omega arith, (omega arith, inr (inl refl)))))
      (deliver 2 (Event.prepare (prep 1)) (omega arith) refl
        (omega arith, (omega arith, inr (inl refl))))

prepared_agree_example : ◌≡◌ {A = String} "digest" "digest"
unfolding program
prepared_agree_example =
    Safety.prepared_agree setup boot net5 1 2 1 "digest" "digest" (omega arith)
      (Boot.new_pbft_core-NetIsValid setup boot config [] refl refl refl boot_is_new) reach
      (omega arith) (omega arith) refl refl refl refl

pub boot-NetIsValid : NetIsValid setup boot
boot-NetIsValid = Boot.new_pbft_core-NetIsValid setup boot config [] refl refl refl boot_is_new

new_pbft_core-NetIsValid_example : IsValid (source_at setup boot 1) (boot 1)
unfolding program
new_pbft_core-NetIsValid_example =
    Boot.new_pbft_core-NetIsValid setup boot config [] refl refl refl boot_is_new 1 (omega arith)
      refl

Step-NetIsValid_example : IsValid (source_at setup net1 0) (net1 0)
unfolding program
Step-NetIsValid_example =
    Network.Step-NetIsValid setup (deliver 0 (Event.request req) (omega arith) refl tt)
      boot-NetIsValid 0 (omega arith) refl

in_w_iff_example : (in_w 40 (boot 1) ≡ true) ↔ ((0 < 40) × (40 ≤ 0 + 40))
in_w_iff_example = Window.in_w_iff 40 (boot 1) (omega arith) (omega arith)

-- A pre-prepare that carries no request and the digest of none.
abbrev empty_pre : PrePrepare
empty_pre = record pre { request = none }

recv_pre_prepare-nil_pointer_iff_example :
    ((recv_pre_prepare env empty_pre (boot 1)).1 ≡ nil_pointer) ↔ (
      Errors.ReachesRequest empty_pre (boot 1)
      × (empty_pre.request ≡ none)
      × ("digest" ≡ hash_req env none))
recv_pre_prepare-nil_pointer_iff_example =
    Errors.recv_pre_prepare-nil_pointer_iff env empty_pre (boot 1)

crashes : (recv_pre_prepare env empty_pre (boot 1)).1 ≡ nil_pointer
unfolding program
crashes = refl

abbrev strict_env : Env
strict_env = record env { validate = λ payload. false }

recv_pre_prepare-validation_failed_iff_example :
    ((recv_pre_prepare strict_env pre (boot 1)).1 ≡ validation_failed) ↔ (
      Errors.ReachesRequest pre (boot 1)
      × (hash_req strict_env pre.request ≡ pre.request_digest)
      × (r : Request) × (pre.request ≡ some r)
      × (strict_env.validate r.payload ≡ false))
recv_pre_prepare-validation_failed_iff_example =
    Errors.recv_pre_prepare-validation_failed_iff strict_env pre (boot 1)

refused : (recv_pre_prepare strict_env pre (boot 1)).1 ≡ validation_failed
unfolding program
refused = refl
