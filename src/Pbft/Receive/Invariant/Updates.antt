-- ===== src/Pbft/Receive/Invariant/Updates.antt =====
-- Preservation of the invariant by `getCert`, by the calls on the consumer, and by the fields that
-- it does not read.
use client_sdk.Prelude.{ℕ, ◌^◌, ◌<◌, ◌≡◌, inl, inr, refl, none, some, arith, lookup, Option-cases}
use client_sdk.Pbft.State.{PbftCore, MsgCert, empty_cert, msg_id_eq, get_cert, set_cert}
use client_sdk.Pbft.Receive.Sent.{sent_pre_prepares, sent_prepares}
use client_sdk.Pbft.Receive.Invariant.{
  Source, CertOk, empty_cert-CertIsValid, IsValid, IsValid-set_cert, sent_prepare_at,
  sent_commit_at, lookup-set_cert,
}

-- What `getCert` returns, and the state after it.
pub record GotCert (src : Source) (v n : ℕ) (c : PbftCore) (cert : MsgCert) (c' : PbftCore)
    : Type 0 where
  pub valid : IsValid src c'
  pub cert_valid : CertOk src c' (record { v = v; n = n }) cert
  pub found : lookup (record { v = v; n = n }) c'.cert_store ≡ some cert
  pub prepare_flag : sent_prepare_at v n c' ≡ cert.sent_prepare
  pub commit_flag : sent_commit_at v n c' ≡ cert.sent_commit
  pub rest : c' ≡ record c { cert_store = c'.cert_store }

get_cert_found :
    {src : Source} (v n : ℕ) (c : PbftCore) (cert : MsgCert)
    → IsValid src c
    → lookup (record { v = v; n = n }) c.cert_store ≡ some cert
    → GotCert src v n c cert c
unfolding sent_prepare_at sent_commit_at
get_cert_found v n c cert valid e = record {
  valid = valid;
  cert_valid = valid.certs (record { v = v; n = n }) cert e;
  found = e;
  prepare_flag = ground arith;
  commit_flag = ground arith;
  rest = refl;
}

get_cert_fresh :
    {src : Source} (v n : ℕ) (c : PbftCore)
    → 0 < n
    → n < 2 ^ 64
    → IsValid src c
    → lookup (record { v = v; n = n }) c.cert_store ≡ none
    → GotCert src v n c empty_cert (set_cert v n empty_cert c)
unfolding sent_prepare_at sent_commit_at
get_cert_fresh {src} v n c positive small valid e =
    let after : PbftCore = set_cert v n empty_cert c in
    let ok =
      empty_cert-CertIsValid src c.replica_count (sent_pre_prepares c.outbox)
        (sent_prepares c.outbox) (record { v = v; n = n }) positive small in
    let found : lookup (record { v = v; n = n }) after.cert_store ≡ some empty_cert =
      ground (arith, lookup-set_cert v n empty_cert c (record { v = v; n = n })) in
    let valid' : IsValid src after =
      IsValid-set_cert v n empty_cert c ok (λ h. ground arith) (λ h. ground arith) valid in
    record {
      valid = valid';
      cert_valid = valid'.certs (record { v = v; n = n }) empty_cert found;
      found = found;
      prepare_flag = ground arith;
      commit_flag = ground arith;
      rest = unfold set_cert in refl;
    }

pub get_cert_lem :
    {src : Source} (v n : ℕ) (c : PbftCore)
    → 0 < n
    → n < 2 ^ 64
    → IsValid src c
    → GotCert src v n c (get_cert v n c).0 (get_cert v n c).1
unfolding get_cert
get_cert_lem v n c positive small valid =
    elim (Option-cases (lookup (record { v = v; n = n }) c.cert_store)) [
      | inl missing ↦
          rw (missing, get_cert)
            (unfold set_cert in get_cert_fresh v n c positive small valid missing)
      | inr (cert, found) ↦ rw (found, get_cert) (get_cert_found v n c cert valid found)
    ]
