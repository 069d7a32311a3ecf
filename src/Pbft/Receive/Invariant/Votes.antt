-- ===== src/Pbft/Receive/Invariant/Votes.antt =====
-- The handlers of commits and prepares keep the invariant.
use client_sdk.Prelude.{
  ℕ, suc, ◌%◌, ◌^◌, ◌<◌, String, ◌≡◌, ◌≢◌, inl, inr, refl, sym, ap, ◌∙◌, ◌⊎◌, true, false, not,
  ◌&&◌, some, List, [], ◌∷◌, ◌++◌, arith, All-append, any, ◌==◌, nat_eq, Bool-cases, Option-cases,
  length, map-append,
}
use client_sdk.Pbft.Messages.{Prepare, Commit, Message}
use client_sdk.Pbft.State.{
  start_timer, stop_timer, PbftCore, MsgId, MsgCert, emit, broadcast, get_cert, set_cert, msg_id_eq,
}
use client_sdk.Pbft.Quorum.{primary, in_w, in_wv, prepared}
use client_sdk.Pbft.Quorum.Window.{lt_of_in_w, in_wv_parts}
use client_sdk.Pbft.Quorum.Intersection.{mem, Distinct-append}
use client_sdk.Pbft.Receive.{
  execute_request, executed, execute_one, execute_outstanding, recv_commit, broadcast_commit,
  maybe_send_commit, recv_prepare,
}
use client_sdk.Pbft.Receive.Sent.{
  Ballot, sent_pre_prepares, sent_prepares, sent_commits, executions, Descending, Descending-suc,
  prepare_ballot, commit_ballot, In,
}
use client_sdk.Pbft.Receive.Frame.{SameLog-execute_one, execute_one-eq-some, execute_loop_induction}
use client_sdk.Pbft.Receive.Invariant.{
  Source, CertOk, CertIsValid, prepare_ids, commit_ids, IsValid, IsValid-SameLog, IsValid-set_cert,
  sent_prepare_at, sent_commit_at, sent_commit_at-set_cert,
}
use client_sdk.Pbft.Receive.Invariant.Updates.{GotCert, get_cert_lem}
use client_sdk.Pbft.Receive.Invariant.Emit.{Agree-fresh, IsValid-emit_fault, IsValid-emit_commit}

-- One execution.
last_exec-executed :
    (idx : MsgId) (digest : String) (c : PbftCore) → (executed idx digest c).last_exec ≡ idx.n
unfolding executed execute_request emit stop_timer start_timer
last_exec-executed idx digest c = ground arith

executions-executed :
    (idx : MsgId) (digest : String) (c : PbftCore)
    → idx.n ≡ suc c.last_exec
    → Descending (suc c.last_exec) (executions c.outbox)
    → Descending (suc idx.n) (executions (executed idx digest c).outbox)
unfolding executed execute_request emit stop_timer start_timer
executions-executed idx digest c next d =
    ground (arith, Descending-suc idx.n (executions c.outbox) (rw next d))

IsValid-execute_one :
    {src : Source} (idx : MsgId) (c c' : PbftCore)
    → IsValid src c
    → execute_one idx c ≡ some c'
    → IsValid src c'
IsValid-execute_one idx c c' valid e =
    let (cert, p, found, has, next, going, done, same) = execute_one-eq-some idx c c' e in
    let ok = valid.certs idx cert found in
    let after : c'.last_exec ≡ idx.n =
      ap (λ (x : PbftCore). x.last_exec) same ∙ last_exec-executed idx p.request_digest c in
    let next' : idx.n ≡ suc c.last_exec = omega (arith, ok.positive, valid.exec_small) in
    IsValid-SameLog (SameLog-execute_one idx c c' e) (omega (arith, ok.small))
      (rw (after, same) (executions-executed idx p.request_digest c next' valid.in_order)) valid

pub IsValid-execute_outstanding :
    {src : Source} (c : PbftCore) → IsValid src c → IsValid src (execute_outstanding c)
unfolding execute_outstanding
IsValid-execute_outstanding {src} c valid =
    execute_loop_induction (IsValid src) IsValid-execute_one (suc (length c.cert_store)) c valid

-- A vote is added to a certificate.
mem-prepare_ids :
    (k : ℕ) (ps : List Prepare)
    → any (λ (p : Prepare). p.replica_id == k) ps ≡ mem k (prepare_ids ps)
mem-prepare_ids k [] = refl
mem-prepare_ids k (p ∷ ps) = ground (arith, mem-prepare_ids k ps)

mem-commit_ids :
    (k : ℕ) (ps : List Commit) → any (λ (p : Commit). p.replica_id == k) ps ≡ mem k (commit_ids ps)
mem-commit_ids k [] = refl
mem-commit_ids k (p ∷ ps) = ground (arith, mem-commit_ids k ps)

CertIsValid-add_commit :
    {src : Source} (rc : ℕ) (ps bs : List Ballot) (cert : MsgCert) (p : Commit)
    → any (λ (prev : Commit). prev.replica_id == p.replica_id) cert.commit ≡ false
    → CertIsValid src rc ps bs (record { v = p.view; n = p.sequence_number }) cert
    → CertIsValid src rc ps bs
        (record { v = p.view; n = p.sequence_number })
        (record cert { commit = cert.commit ++ p ∷ [] })
CertIsValid-add_commit rc ps bs cert p new ok = record {
  positive = ok.positive;
  small = ok.small;
  pre = ok.pre;
  pre_from = ok.pre_from;
  prepares = ok.prepares;
  prepares_from = ok.prepares_from;
  prepares_distinct = ok.prepares_distinct;
  commits = All-append _ cert.commit (p ∷ []) ok.commits ((refl, refl), tt);
  commits_distinct = rw map-append (
      Distinct-append p.replica_id (commit_ids cert.commit)
        (sym (mem-commit_ids p.replica_id cert.commit) ∙ new) ok.commits_distinct);
}

CertIsValid-add_prepare :
    {src : Source} (rc : ℕ) (ps bs : List Ballot) (cert : MsgCert) (p : Prepare)
    → src.prep p ⊎ In (prepare_ballot p) bs
    → p.view % rc ≢ p.replica_id
    → any (λ (prev : Prepare). prev.replica_id == p.replica_id) cert.prepare ≡ false
    → CertIsValid src rc ps bs (record { v = p.view; n = p.sequence_number }) cert
    → CertIsValid src rc ps bs
        (record { v = p.view; n = p.sequence_number })
        (record cert { prepare = cert.prepare ++ p ∷ [] })
CertIsValid-add_prepare rc ps bs cert p from backup new ok = record {
  positive = ok.positive;
  small = ok.small;
  pre = ok.pre;
  pre_from = ok.pre_from;
  prepares = All-append _ cert.prepare (p ∷ []) ok.prepares ((refl, refl, backup), tt);
  prepares_from = All-append _ cert.prepare (p ∷ []) ok.prepares_from (from, tt);
  prepares_distinct = rw map-append (
      Distinct-append p.replica_id (prepare_ids cert.prepare)
        (sym (mem-prepare_ids p.replica_id cert.prepare) ∙ new) ok.prepares_distinct);
  commits = ok.commits;
  commits_distinct = ok.commits_distinct;
}

-- A number in the window is positive, and `getCert` may be called on it.
pub got_in_window :
    {src : Source} (v n : ℕ) (c : PbftCore)
    → n < 2 ^ 64
    → in_w n c ≡ true
    → IsValid src c
    → GotCert src v n c (get_cert v n c).0 (get_cert v n c).1
got_in_window v n c small inside valid =
    let above = lt_of_in_w n c small valid.fits inside in
    get_cert_lem v n c (omega arith) small valid

pub recv_commit-IsValid :
    {src : Source} (commit : Commit) (c : PbftCore)
    → commit.sequence_number < 2 ^ 64
    → IsValid src c
    → IsValid src (recv_commit commit c)
unfolding recv_commit
recv_commit-IsValid commit c small valid =
    elim (Bool-cases (in_wv commit.view commit.sequence_number c)) [
      | inr out ↦ rw out valid
      | inl inside ↦
          let v = commit.view in
          let n = commit.sequence_number in
          let c' : PbftCore = (get_cert v n c).1 in
          let cert : MsgCert = (get_cert v n c).0 in
          let got = got_in_window v n c small (in_wv_parts v n c inside).1 valid in
          let new : MsgCert = record cert { commit = cert.commit ++ commit ∷ [] } in
          rw inside
            (elim (Bool-cases
              (any (λ (prev : Commit). prev.replica_id == commit.replica_id) cert.commit)) [
                | inl old ↦ rw old got.valid
                | inr fresh ↦ rw fresh (
                    IsValid-execute_outstanding (set_cert v n new c') (
                      IsValid-set_cert v n new c'
                        (CertIsValid-add_commit c'.replica_count (sent_pre_prepares c'.outbox)
                          (sent_prepares c'.outbox) cert commit fresh got.cert_valid)
                        (λ h. sym got.prepare_flag ∙ h) (λ h. sym got.commit_flag ∙ h) got.valid))
              ])
    ]

-- The commit of `maybeSendCommit` and the certificate with its flag raised.
send_commit-IsValid :
    {src : Source} (digest : String) (v n : ℕ) (c : PbftCore) (cert : MsgCert)
    → n < 2 ^ 64
    → in_w n c ≡ true
    → cert.sent_commit ≡ false
    → sent_prepare_at v n c ≡ cert.sent_prepare
    → sent_commit_at v n c ≡ cert.sent_commit
    → CertOk src c (record { v = v; n = n }) cert
    → IsValid src c
    → IsValid src (
        broadcast_commit
          (record { view = v; sequence_number = n; request_digest = digest; replica_id = c.id })
          (set_cert v n (record cert { sent_commit = true }) c))
unfolding broadcast_commit
send_commit-IsValid {src} digest v n c cert small inside down prepare_flag commit_flag ok valid =
    let up : MsgCert = record cert { sent_commit = true } in
    let c' : PbftCore = set_cert v n up c in
    let commit : Commit = record {
      view = v;
      sequence_number = n;
      request_digest = digest;
      replica_id = c.id;
    } in
    let above : c.h < n = lt_of_in_w n c small valid.fits inside in
    let ok' : CertOk src c (record { v = v; n = n }) up = record {
      positive = ok.positive;
      small = ok.small;
      pre = ok.pre;
      pre_from = ok.pre_from;
      prepares = ok.prepares;
      prepares_from = ok.prepares_from;
      prepares_distinct = ok.prepares_distinct;
      commits = ok.commits;
      commits_distinct = ok.commits_distinct;
    } in
    recv_commit-IsValid commit (emit (broadcast (Message.commit commit)) c') small (
      IsValid-emit_commit commit c' (unfold set_cert in refl)
        (ground (arith, sent_commit_at-set_cert v n up c v n))
        (unfold set_cert in
          Agree-fresh sent_commit_at c (commit_ballot commit) (sent_commits c.outbox) above
            (commit_flag ∙ down) valid.commits_recorded)
        (IsValid-set_cert v n up c ok' (λ h. sym prepare_flag ∙ h) (λ h. refl) valid))

-- `getCert` changes no test of the window.
pub in_w-get_cert : (m v n : ℕ) (c : PbftCore) → in_w m (get_cert v n c).1 ≡ in_w m c
unfolding in_w get_cert
in_w-get_cert m v n c = ground arith

pub maybe_send_commit-IsValid :
    {src : Source} (digest : String) (v n : ℕ) (c : PbftCore)
    → n < 2 ^ 64
    → in_w n c ≡ true
    → IsValid src c
    → IsValid src (maybe_send_commit digest v n c)
unfolding maybe_send_commit
maybe_send_commit-IsValid digest v n c small inside valid =
    let c' : PbftCore = (get_cert v n c).1 in
    let cert : MsgCert = (get_cert v n c).0 in
    let got = got_in_window v n c small inside valid in
    elim (Bool-cases (prepared digest v n c' && not cert.sent_commit)) [
      | inr stay ↦ rw stay got.valid
      | inl send ↦ rw send (elim (Option-cases cert.pre_prepare) [
        | inl missing ↦ rw missing (IsValid-emit_fault c' got.valid)
        | inr (p, has) ↦ rw has (
            send_commit-IsValid digest v n c' cert small (in_w-get_cert n v n c ∙ inside)
              (ground arith) got.prepare_flag got.commit_flag got.cert_valid got.valid)
      ])
    ]

pub in_w-set_cert :
    (m v n : ℕ) (cert : MsgCert) (c : PbftCore) → in_w m (set_cert v n cert c) ≡ in_w m c
unfolding in_w set_cert
in_w-set_cert m v n cert c = refl

pub replica_count-get_cert :
    (v n : ℕ) (c : PbftCore) → (get_cert v n c).1.replica_count ≡ c.replica_count
unfolding get_cert
replica_count-get_cert v n c = ground arith

pub not_primary :
    (v r : ℕ) (c c' : PbftCore)
    → c'.replica_count ≡ c.replica_count
    → (primary v c == r) ≡ false
    → v % c'.replica_count ≢ r
unfolding primary
not_primary v r c c' same h = rw same (λ e. ground arith)

pub recv_prepare-IsValid :
    {src : Source} (prep : Prepare) (c : PbftCore)
    → prep.sequence_number < 2 ^ 64
    → src.prep prep ⊎ In (prepare_ballot prep) (sent_prepares c.outbox)
    → IsValid src c
    → IsValid src (recv_prepare prep c)
unfolding recv_prepare
recv_prepare-IsValid prep c small from valid =
    elim (Bool-cases (primary prep.view c == prep.replica_id)) [
      | inl from_primary ↦ rw from_primary valid
      | inr backup ↦ rw backup (elim (Bool-cases (in_wv prep.view prep.sequence_number c)) [
        | inr out ↦ rw out valid
        | inl inside ↦
            let v = prep.view in
            let n = prep.sequence_number in
            let c' : PbftCore = (get_cert v n c).1 in
            let cert : MsgCert = (get_cert v n c).0 in
            let window = (in_wv_parts v n c inside).1 in
            let got = got_in_window v n c small window valid in
            let new : MsgCert = record cert { prepare = cert.prepare ++ prep ∷ [] } in
            rw inside
              (elim (Bool-cases
                (any (λ (prev : Prepare). prev.replica_id == prep.replica_id) cert.prepare)) [
                  | inl old ↦ rw old got.valid
                  | inr fresh ↦ rw fresh (
                      maybe_send_commit-IsValid prep.request_digest v n (set_cert v n new c') small
                        (in_w-set_cert n v n new c' ∙ in_w-get_cert n v n c ∙ window)
                        (IsValid-set_cert v n new c'
                          (CertIsValid-add_prepare c'.replica_count (sent_pre_prepares c'.outbox)
                            (sent_prepares c'.outbox) cert prep
                            (rw (ap (λ (x : PbftCore). x.outbox) got.rest) from)
                            (not_primary v prep.replica_id c c' (replica_count-get_cert v n c)
                              backup)
                            fresh got.cert_valid)
                          (λ h. sym got.prepare_flag ∙ h) (λ h. sym got.commit_flag ∙ h) got.valid))
                ])
      ])
    ]
