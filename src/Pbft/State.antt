-- ===== src/Pbft/State.antt =====
-- The state of `pbftCore` (consensus/obcpbft/pbft-core.go), the calls that it makes on its consumer,
-- and what it uses of code that is not its own. Of the struct are left out the lock, the channels
-- and the switch for deliberate Byzantine behaviour. A model function returns the new state.
use client_sdk.Prelude.{
  ℕ, String, ◌≡◌, Bool, true, false, not, ◌&&◌, Option, none, some, List, [], ◌∷◌, arith, Eq, ◌==◌,
  string_beq_iff, nat_eq, string_eq, Map, lookup, insert, if◌then◌else◌, add64, ltb, ◌+◌, ◌*◌, ◌%◌,
  ◌^◌,
}
use client_sdk.Pbft.Messages.{
  Request, PrePrepare, Prepare, Commit, Checkpoint, ViewChange, ViewChangePq, NewView, Message,
}

-- `qidx`, `msgID` and `vcidx`, the keys of maps.
pub record QIdx : Type 0 where
  pub d : String
  pub n : ℕ

pub record MsgId : Type 0 where
  pub v : ℕ
  pub n : ℕ

pub record VcIdx : Type 0 where
  pub v : ℕ
  pub id : ℕ

abbrev pub qidx_beq : QIdx → QIdx → Bool
qidx_beq a b = (a.d == b.d) && (a.n == b.n)

pub qidx_beq_iff : (a b : QIdx) → (qidx_beq a b ≡ true → a ≡ b) × (a ≡ b → qidx_beq a b ≡ true)
qidx_beq_iff a b = ground (arith, string_beq_iff a.d b.d)

instance abbrev pub qidx_eq : Eq QIdx
qidx_eq = record { same = qidx_beq; same_iff = qidx_beq_iff }

abbrev pub msg_id_beq : MsgId → MsgId → Bool
msg_id_beq a b = (a.v == b.v) && (a.n == b.n)

pub msg_id_beq_iff :
    (a b : MsgId) → (msg_id_beq a b ≡ true → a ≡ b) × (a ≡ b → msg_id_beq a b ≡ true)
msg_id_beq_iff a b = ground arith

instance abbrev pub msg_id_eq : Eq MsgId
msg_id_eq = record { same = msg_id_beq; same_iff = msg_id_beq_iff }

abbrev pub vcidx_beq : VcIdx → VcIdx → Bool
vcidx_beq a b = (a.v == b.v) && (a.id == b.id)

pub vcidx_beq_iff : (a b : VcIdx) → (vcidx_beq a b ≡ true → a ≡ b) × (a ≡ b → vcidx_beq a b ≡ true)
vcidx_beq_iff a b = ground arith

instance abbrev pub vcidx_eq : Eq VcIdx
vcidx_eq = record { same = vcidx_beq; same_iff = vcidx_beq_iff }

abbrev pub checkpoint_beq : Checkpoint → Checkpoint → Bool
checkpoint_beq a b =
    (a.sequence_number == b.sequence_number) && (a.replica_id == b.replica_id) && (a.id == b.id)

pub checkpoint_beq_iff :
    (a b : Checkpoint) → (checkpoint_beq a b ≡ true → a ≡ b) × (a ≡ b → checkpoint_beq a b ≡ true)
checkpoint_beq_iff a b = ground (arith, string_beq_iff a.id b.id)

instance abbrev pub checkpoint_eq : Eq Checkpoint
checkpoint_eq = record { same = checkpoint_beq; same_iff = checkpoint_beq_iff }

pub record MsgCert : Type 0 where
  pub pre_prepare : Option PrePrepare
  pub sent_prepare : Bool
  pub prepare : List Prepare
  pub sent_commit : Bool
  pub commit : List Commit

-- `&msgCert{}`
abbrev pub empty_cert : MsgCert
empty_cert = record {
  pre_prepare = none;
  sent_prepare = false;
  prepare = [];
  sent_commit = false;
  commit = [];
}

pub record ExecutionInfo : Type 0 where
  pub checkpoint : Bool
  pub null : Bool

-- The calls on the consumer (`innerStack`). `nil_dereference` stands for a run-time panic: a state
-- with it in its outbox is one in which the process has stopped.
pub data Output : Type 0 where
  broadcast : Message → Output
  unicast : Message → ℕ → Output
  execute : ℕ → Option (List ℕ) → ExecutionInfo → Output
  skip_to : ℕ → List ℕ → List ℕ → ExecutionInfo → Output
  valid_state : ℕ → List ℕ → List ℕ → ExecutionInfo → Output
  change_view : ℕ → Output
  nil_dereference : Output

-- The fields of `pbftCore`, with `n_replicas` for `N`, `k` for `K` and `l` for `L`. The timer holds
-- its timeout while it runs. `outbox` holds the calls made so far, the latest first.
pub record PbftCore : Type 0 where
  pub active_view : Bool
  pub f : ℕ
  pub n_replicas : ℕ
  pub h : ℕ
  pub id : ℕ
  pub k : ℕ
  pub l : ℕ
  pub last_exec : ℕ
  pub replica_count : ℕ
  pub seq_no : ℕ
  pub view : ℕ
  pub chkpts : Map ℕ String
  pub pset : Map ℕ ViewChangePq
  pub qset : Map QIdx ViewChangePq
  pub skip_in_progress : Bool
  pub h_chkpts : Map ℕ ℕ
  pub new_view_timer : Option ℕ
  pub timer_active : Bool
  pub request_timeout : ℕ
  pub new_view_timeout : ℕ
  pub last_new_view_timeout : ℕ
  pub outstanding_reqs : Map String Request
  pub timer_expired_count : ℕ
  pub timer_reset_count : ℕ
  pub missing_reqs : Map String Bool
  pub req_store : Map String Request
  pub cert_store : Map MsgId MsgCert
  pub checkpoint_store : Map Checkpoint Bool
  pub view_change_store : Map VcIdx ViewChange
  pub new_view_store : Map ℕ NewView
  pub outbox : List Output

-- What the handlers call and do not implement: the serialiser, the hash, the text encoding of
-- bytes, the consumer's check of a payload, and its signatures.
pub record Env : Type 0 where
  pub marshal_request : Option Request → List ℕ
  pub compute_crypto_hash : List ℕ → List ℕ
  pub encode_base64 : List ℕ → String
  pub decode_base64 : String → Option (List ℕ)
  pub validate : List ℕ → Bool
  pub sign : ViewChange → ViewChange
  pub verify : ViewChange → Bool

-- `nil_pointer` is the run-time panic on the dereference of nil.
pub data Error : Type 0 where
  nil_error validation_failed sender_mismatch invalid_message nil_pointer unpacking_failed : Error

-- `hashReq`
unfoldable pub hash_req : Env → Option Request → String
hash_req env req = env.encode_base64 (env.compute_crypto_hash (env.marshal_request req))

unfoldable pub emit : Output → PbftCore → PbftCore
emit o c = record c { outbox = o ∷ c.outbox }

-- Reset reports whether the timer was running.
unfoldable pub start_timer : ℕ → PbftCore → PbftCore
start_timer timeout c =
    let running : Bool = elim c.new_view_timer [ none ↦ false | some _ ↦ true ] in
    record c {
      timer_reset_count =
          if not running && c.timer_active
          then add64 c.timer_reset_count 1
          else c.timer_reset_count;
      new_view_timer = some timeout;
      timer_active = true;
    }

unfoldable pub stop_timer : PbftCore → PbftCore
stop_timer c =
    let running : Bool = elim c.new_view_timer [ none ↦ false | some _ ↦ true ] in
    record c {
      timer_reset_count =
          if not running && c.timer_active
          then add64 c.timer_reset_count 1
          else c.timer_reset_count;
      new_view_timer = none;
      timer_active = false;
    }

-- `getCert`: the certificate of a view and a sequence number, entered empty if it is missing.
unfoldable pub get_cert : ℕ → ℕ → PbftCore → MsgCert × PbftCore
get_cert v n c =
    let idx : MsgId = record { v = v; n = n } in
    elim (lookup idx c.cert_store) [
      | some cert ↦ (cert, c)
      | none ↦ (empty_cert, record c { cert_store = insert idx empty_cert c.cert_store })
    ]

-- A write through the pointer that `getCert` returns.
unfoldable pub set_cert : ℕ → ℕ → MsgCert → PbftCore → PbftCore
set_cert v n cert c =
    let idx : MsgId = record { v = v; n = n } in
    record c { cert_store = insert idx cert c.cert_store }

-- The settings that `newPbftCore` reads.
pub record Config : Type 0 where
  pub n : ℕ
  pub f : ℕ
  pub k : ℕ
  pub logmultiplier : ℕ
  pub request_timeout : ℕ
  pub view_change_timeout : ℕ

-- `newPbftCore`; `none` is the panic on too few replicas.
unfoldable pub new_pbft_core : Env → ℕ → Config → List ℕ → Option PbftCore
new_pbft_core env id config startup_id =
    if ltb config.n (config.f * 3 + 1)
    then none
    else some (record {
      active_view = true;
      f = config.f;
      n_replicas = config.n;
      h = 0;
      id = id;
      k = config.k;
      l = (config.logmultiplier * config.k) % 2 ^ 64;
      last_exec = 0;
      replica_count = config.n;
      seq_no = 0;
      view = 0;
      chkpts = insert 0 (env.encode_base64 startup_id) [];
      pset = [];
      qset = [];
      skip_in_progress = false;
      h_chkpts = [];
      new_view_timer = none;
      timer_active = false;
      request_timeout = config.request_timeout;
      new_view_timeout = config.view_change_timeout;
      last_new_view_timeout = config.view_change_timeout;
      outstanding_reqs = [];
      timer_expired_count = 0;
      timer_reset_count = 1;
      missing_reqs = [];
      req_store = [];
      cert_store = [];
      checkpoint_store = [];
      view_change_store = [];
      new_view_store = [];
      outbox = [];
    })
