-- ===== src/Pbft/Quorum.antt =====
-- Views, watermarks and the quorum checks of pbft-core.go.
pub mod Window
pub mod Intersection
use client_sdk.Prelude.{
  ℕ, ◌+◌, ◌-◌, ◌/◌, ◌%◌, String, Bool, true, false, not, ◌&&◌, Option, none, some, ltb, leb, ◌==◌,
  count, lookup, has_key, nat_eq, string_eq, if◌then◌else◌, sub64,
}
use client_sdk.Pbft.Messages.{PrePrepare, Prepare, Commit}
use client_sdk.Pbft.State.{PbftCore, MsgId, MsgCert, QIdx, msg_id_eq, qidx_eq}

unfoldable pub primary : ℕ → PbftCore → ℕ
primary n c = n % c.replica_count

unfoldable pub in_w : ℕ → PbftCore → Bool
in_w n c = ltb 0 (sub64 n c.h) && leb (sub64 n c.h) c.l

unfoldable pub in_wv : ℕ → ℕ → PbftCore → Bool
in_wv v n c = (c.view == v) && in_w n c

unfoldable pub intersection_quorum : PbftCore → ℕ
intersection_quorum c = (c.n_replicas + c.f + 2) / 2

unfoldable pub all_correct_replicas_quorum : PbftCore → ℕ
all_correct_replicas_quorum c = c.n_replicas - c.f

-- The Q set holds this digest at this number in this view.
unfoldable pub in_qset : String → ℕ → ℕ → PbftCore → Bool
in_qset digest v n c = elim (lookup (record { d = digest; n = n }) c.qset) [
  | none ↦ false
  | some q ↦ q.view == v
]

-- The pre-prepare of a certificate is for this digest.
unfoldable pub pre_prepare_matches : String → ℕ → ℕ → MsgCert → Bool
pre_prepare_matches digest v n cert = elim cert.pre_prepare [
  | none ↦ false
  | some p ↦ (p.view == v) && (p.sequence_number == n) && (p.request_digest == digest)
]

unfoldable pub pre_prepared : String → ℕ → ℕ → PbftCore → Bool
pre_prepared digest v n c =
    if not (digest == "") && not (has_key digest c.req_store)
    then false
    else if in_qset digest v n c
    then true
    else elim (lookup (record { v = v; n = n }) c.cert_store) [
      | none ↦ false
      | some cert ↦ pre_prepare_matches digest v n cert
    ]

unfoldable pub in_pset : String → ℕ → ℕ → PbftCore → Bool
in_pset digest v n c = elim (lookup n c.pset) [
  | none ↦ false
  | some p ↦ (p.view == v) && (p.digest == digest)
]

-- A prepare vote for this digest.
abbrev pub prepare_matches : String → ℕ → ℕ → Prepare → Bool
prepare_matches digest v n p =
    (p.view == v) && (p.sequence_number == n) && (p.request_digest == digest)

-- A commit vote, whatever its digest.
abbrev pub commit_matches : ℕ → ℕ → Commit → Bool
commit_matches v n p = (p.view == v) && (p.sequence_number == n)

unfoldable pub prepared : String → ℕ → ℕ → PbftCore → Bool
prepared digest v n c =
    if not (pre_prepared digest v n c)
    then false
    else if in_pset digest v n c
    then true
    else elim (lookup (record { v = v; n = n }) c.cert_store) [
      | none ↦ false
      | some cert ↦
          leb (intersection_quorum c - 1) (count (prepare_matches digest v n) cert.prepare)
    ]

unfoldable pub committed : String → ℕ → ℕ → PbftCore → Bool
committed digest v n c =
    if not (prepared digest v n c)
    then false
    else elim (lookup (record { v = v; n = n }) c.cert_store) [
      | none ↦ false
      | some cert ↦ leb (intersection_quorum c) (count (commit_matches v n) cert.commit)
    ]
