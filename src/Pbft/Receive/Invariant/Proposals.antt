-- ===== src/Pbft/Receive/Invariant/Proposals.antt =====
-- Pre-prepares and the invariant of a replica.
use client_sdk.Prelude.{
  ℕ, ◌%◌, ◌^◌, ◌<◌, String, ◌≡◌, refl, sym, ◌∙◌, ◌⊎◌, inl, inr, Bool, true, false, not, ◌&&◌, arith,
  ◌==◌, nat_eq, string_eq, Bool-cases, Option-cases, insert, has_key,
}
use client_sdk.Pbft.Messages.{PrePrepare, Prepare, Message}
use client_sdk.Pbft.State.{
  PbftCore, MsgCert, Env, hash_req, emit, broadcast, get_cert, set_cert, start_timer,
}
use client_sdk.Pbft.Quorum.{primary, in_w, in_wv, pre_prepared}
use client_sdk.Pbft.Quorum.Window.{lt_of_in_w, in_wv_parts}
use client_sdk.Pbft.Receive.{
  maybe_send_prepare, store_pre_prepare, accept_pre_prepare, recv_pre_prepare, broadcast_prepare,
}
use client_sdk.Pbft.Receive.Sent.{
  sent_pre_prepares, sent_prepares, pre_prepare_ballot, prepare_ballot, In,
}
use client_sdk.Pbft.Receive.Invariant.{
  Source, CertOk, IsValid, IsValid-set_cert, sent_prepare_at, sent_commit_at,
  sent_prepare_at-set_cert,
}
use client_sdk.Pbft.Receive.Invariant.Emit.{Agree-fresh, IsValid-emit_fault, IsValid-emit_prepare}
use client_sdk.Pbft.Receive.Invariant.Votes.{got_in_window, in_w-get_cert, recv_prepare-IsValid}
use client_sdk.Pbft.Receive.Invariant.Requests.{
  stored-IsValid, IsValid-untouched, with_timer, with_timer-IsValid,
}

store_pre_prepare-IsValid :
    {src : Source} (p : PrePrepare) (c : PbftCore)
    → p.sequence_number < 2 ^ 64
    → in_w p.sequence_number c ≡ true
    → p.replica_id ≡ p.view % c.replica_count
    → src.pre p ⊎ In (pre_prepare_ballot p) (sent_pre_prepares c.outbox)
    → IsValid src c
    → IsValid src (store_pre_prepare p c)
unfolding store_pre_prepare
store_pre_prepare-IsValid p c small inside from source valid =
    let cert : MsgCert = (get_cert p.view p.sequence_number c).0 in
    let new = stored-IsValid p c small inside from source valid in
    elim (Option-cases cert.pre_prepare) [
      | inl missing ↦ rw (missing, store_pre_prepare) new
      | inr (old, has) ↦
          rw (has, store_pre_prepare)
            (elim (Bool-cases (old.request_digest == p.request_digest)) [
              | inl same ↦ rw same new
              | inr other ↦
                  rw other (got_in_window p.view p.sequence_number c small inside valid).valid
            ])
    ]

-- The prepare of `recvPrePrepare` and the certificate with its flag raised.
send_prepare-IsValid :
    {src : Source} (p : PrePrepare) (c : PbftCore) (cert : MsgCert)
    → p.sequence_number < 2 ^ 64
    → in_w p.sequence_number c ≡ true
    → cert.sent_prepare ≡ false
    → sent_prepare_at p.view p.sequence_number c ≡ cert.sent_prepare
    → sent_commit_at p.view p.sequence_number c ≡ cert.sent_commit
    → CertOk src c (record { v = p.view; n = p.sequence_number }) cert
    → IsValid src c
    → IsValid src (
        broadcast_prepare
          (record {
            view = p.view;
            sequence_number = p.sequence_number;
            request_digest = p.request_digest;
            replica_id = c.id;
          })
          (set_cert p.view p.sequence_number (record cert { sent_prepare = true }) c))
unfolding broadcast_prepare
send_prepare-IsValid {src} p c cert small inside down prepare_flag commit_flag ok valid =
    let v = p.view in
    let n = p.sequence_number in
    let up : MsgCert = record cert { sent_prepare = true } in
    let c' : PbftCore = set_cert v n up c in
    let prep : Prepare = record {
      view = v;
      sequence_number = n;
      request_digest = p.request_digest;
      replica_id = c.id;
    } in
    let above : c.h < n = lt_of_in_w n c small valid.fits inside in
    let ok' : CertOk src c (record { v = v; n = n }) up = record {
      positive = ok.positive;
      small = ok.small;
      pre = ok.pre;
      pre_from = ok.pre_from;
      prepares = ok.prepares;
      prepares_from = ok.prepares_from;
      prepares_distinct = ok.prepares_distinct;
      commits = ok.commits;
      commits_distinct = ok.commits_distinct;
    } in
    recv_prepare-IsValid prep (emit (broadcast (Message.prepare prep)) c') small
      (inr (unfold emit in inl refl))
      (IsValid-emit_prepare prep c' (unfold set_cert in refl)
        (ground (arith, sent_prepare_at-set_cert v n up c v n))
        (unfold set_cert in
          Agree-fresh sent_prepare_at c (prepare_ballot prep) (sent_prepares c.outbox) above
            (prepare_flag ∙ down) valid.prepares_recorded)
        (IsValid-set_cert v n up c ok' (λ h. refl) (λ h. sym commit_flag ∙ h) valid))

in_w-with_timer : (n : ℕ) (wanted : Bool) (c : PbftCore) → in_w n (with_timer wanted c) ≡ in_w n c
unfolding in_w start_timer
in_w-with_timer n false c = refl
in_w-with_timer n true c = refl

maybe_send_prepare-IsValid :
    {src : Source} (p : PrePrepare) (c : PbftCore)
    → p.sequence_number < 2 ^ 64
    → in_w p.sequence_number c ≡ true
    → IsValid src c
    → IsValid src (maybe_send_prepare p c)
unfolding maybe_send_prepare
maybe_send_prepare-IsValid p c small inside valid =
    let v = p.view in
    let n = p.sequence_number in
    let c₁ : PbftCore = with_timer (not c.timer_active) c in
    let c₂ : PbftCore = (get_cert v n c₁).1 in
    let cert : MsgCert = (get_cert v n c₁).0 in
    let inside₁ : in_w n c₁ ≡ true = in_w-with_timer n (not c.timer_active) c ∙ inside in
    let got =
      got_in_window v n c₁ small inside₁ (with_timer-IsValid (not c.timer_active) c valid) in
    elim (Bool-cases (
      not (primary c₂.view c₂ == c₂.id)
      && pre_prepared p.request_digest v n c₂
      && not cert.sent_prepare)) [
        | inr stay ↦ rw stay got.valid
        | inl send ↦ rw send (
            send_prepare-IsValid p c₂ cert small (in_w-get_cert n v n c₁ ∙ inside₁) (ground arith)
              got.prepare_flag got.commit_flag got.cert_valid got.valid)
      ]

in_w-store_pre_prepare :
    (n : ℕ) (p : PrePrepare) (c : PbftCore) → in_w n (store_pre_prepare p c) ≡ in_w n c
unfolding in_w store_pre_prepare get_cert set_cert
in_w-store_pre_prepare n p c = ground arith

accept_pre_prepare-IsValid :
    {src : Source} (env : Env) (p : PrePrepare) (c : PbftCore)
    → p.sequence_number < 2 ^ 64
    → in_w p.sequence_number c ≡ true
    → p.replica_id ≡ p.view % c.replica_count
    → src.pre p ⊎ In (pre_prepare_ballot p) (sent_pre_prepares c.outbox)
    → IsValid src c
    → IsValid src (accept_pre_prepare env p c).0
unfolding accept_pre_prepare
accept_pre_prepare-IsValid {src} env p c small inside from source valid =
    let c' : PbftCore = store_pre_prepare p c in
    let digest : String = hash_req env p.request in
    let inside' : in_w p.sequence_number c' ≡ true =
      in_w-store_pre_prepare p.sequence_number p c ∙ inside in
    let valid' : IsValid src c' = store_pre_prepare-IsValid p c small inside from source valid in
    elim (Bool-cases (has_key p.request_digest c'.req_store)) [
      | inl known ↦ rw known (maybe_send_prepare-IsValid p c' small inside' valid')
      | inr unknown ↦ rw unknown (elim (Bool-cases (digest == p.request_digest)) [
        | inr wrong ↦ rw wrong valid'
        | inl right ↦ rw right (elim (Option-cases p.request) [
          | inl missing ↦ rw (missing, accept_pre_prepare) (IsValid-emit_fault c' valid')
          | inr (req, has) ↦
              rw (has, accept_pre_prepare)
                (elim (Bool-cases (env.validate req.payload)) [
                  | inr bad ↦ rw bad valid'
                  | inl good ↦
                      let c₁ : PbftCore = record c' {
                        req_store = insert digest req c'.req_store;
                        outstanding_reqs = insert digest req c'.outstanding_reqs;
                      } in
                      rw good (
                        maybe_send_prepare-IsValid p c₁ small (unfold in_w in inside')
                          (IsValid-untouched {c = c'} {c' = c₁} (ground arith) refl refl valid'))
                ])
        ])
      ])
    ]

pub recv_pre_prepare-IsValid :
    {src : Source} (env : Env) (p : PrePrepare) (c : PbftCore)
    → p.sequence_number < 2 ^ 64
    → src.pre p ⊎ In (pre_prepare_ballot p) (sent_pre_prepares c.outbox)
    → IsValid src c
    → IsValid src (recv_pre_prepare env p c).0
unfolding recv_pre_prepare
recv_pre_prepare-IsValid env p c small source valid = elim (Bool-cases c.active_view) [
  | inr changing ↦ simp changing valid
  | inl active ↦ simp active (elim (Bool-cases (primary c.view c == p.replica_id)) [
    | inr other ↦ rw other valid
    | inl lead ↦ rw lead (elim (Bool-cases (in_wv p.view p.sequence_number c)) [
      | inr out ↦ rw out valid
      | inl inside ↦
          let parts = in_wv_parts p.view p.sequence_number c inside in
          rw inside (
            accept_pre_prepare-IsValid env p c small parts.1 (unfold primary in ground arith) source
              valid)
    ])
  ])
]
