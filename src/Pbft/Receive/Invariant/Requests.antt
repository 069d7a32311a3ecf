-- ===== src/Pbft/Receive/Invariant/Requests.antt =====
-- A request and a proposal of the primary, and the invariant of a replica.
use client_sdk.Prelude.{
  ℕ, ◌%◌, ◌^◌, ◌≤◌, ◌<◌, String, ◌≡◌, refl, sym, ap, ◌∙◌, subst, ◌⊎◌, inl, inr, Bool, true, false,
  not, ◌&&◌, some, List, arith, All, All-map, ◌==◌, nat_eq, string_eq, Bool-cases, insert,
  if◌then◌else◌, add64,
}
use client_sdk.Pbft.Messages.{Request, PrePrepare, Message}
use client_sdk.Pbft.State.{
  PbftCore, MsgCert, Output, Env, hash_req, emit, broadcast, get_cert, set_cert, start_timer,
}
use client_sdk.Pbft.Quorum.{primary, in_w, in_wv}
use client_sdk.Pbft.Quorum.Window.{lt_of_in_w, in_wv_parts}
use client_sdk.Pbft.Receive.{have_other, propose, recv_request}
use client_sdk.Pbft.Receive.Sent.{
  Ballot, sent_pre_prepares, sent_prepares, Agree, pre_prepare_ballot, In,
}
use client_sdk.Pbft.Receive.Frame.{SameLog, SameLog-start_timer}
use client_sdk.Pbft.Receive.Invariant.{
  Source, CertIsValid, IsValid, IsValid-SameLog, IsValid-set_cert, sent_prepare_at, sent_commit_at,
}
use client_sdk.Pbft.Receive.Invariant.Emit.{IsValid-emit_pre_prepare}
use client_sdk.Pbft.Receive.Invariant.Votes.{
  got_in_window, replica_count-get_cert, maybe_send_commit-IsValid,
}

IsValid-raise_seq_no :
    {src : Source} (n : ℕ) (c : PbftCore)
    → c.seq_no ≤ n
    → n < 2 ^ 64
    → IsValid src c
    → IsValid src (record c { seq_no = n })
unfolding sent_prepare_at sent_commit_at
IsValid-raise_seq_no n c up small v = record {
  fits = v.fits;
  config = v.config;
  kept_pre_prepares = v.kept_pre_prepares;
  kept_prepares = v.kept_prepares;
  exec_small = v.exec_small;
  seq_small = small;
  certs = v.certs;
  pset_below = v.pset_below;
  qset_below = v.qset_below;
  pre_prepares_own = v.pre_prepares_own;
  pre_prepares_below =
      All-map _ _ (sent_pre_prepares c.outbox) (λ b h. omega arith) v.pre_prepares_below;
  pre_prepares_one = v.pre_prepares_one;
  prepares_own = v.prepares_own;
  prepares_recorded = v.prepares_recorded;
  prepares_one = v.prepares_one;
  commits_own = v.commits_own;
  commits_recorded = v.commits_recorded;
  commits_one = v.commits_one;
  in_order = v.in_order;
}

CertIsValid-set_pre_prepare :
    {src : Source} (rc : ℕ) (ps bs : List Ballot) (cert : MsgCert) (p : PrePrepare)
    → src.pre p ⊎ In (pre_prepare_ballot p) ps
    → p.replica_id ≡ p.view % rc
    → CertIsValid src rc ps bs (record { v = p.view; n = p.sequence_number }) cert
    → CertIsValid src rc ps bs
        (record { v = p.view; n = p.sequence_number })
        (record cert { pre_prepare = some p })
CertIsValid-set_pre_prepare {src} rc ps bs cert p source from ok = record {
  positive = ok.positive;
  small = ok.small;
  pre = λ q e. ground arith;
  pre_from = λ q e.
      let same : p ≡ q = cc in subst (λ x. src.pre x ⊎ In (pre_prepare_ballot x) ps) same source;
  prepares = ok.prepares;
  prepares_from = ok.prepares_from;
  prepares_distinct = ok.prepares_distinct;
  commits = ok.commits;
  commits_distinct = ok.commits_distinct;
}

Agree-above :
    (b : Ballot) (m : ℕ) (bs : List Ballot)
    → m < b.number
    → All (λ (q : Ballot). q.number ≤ m) bs
    → All (Agree b) bs
Agree-above b m bs above = All-map _ _ bs (λ q low v n. absurd (omega arith))

-- The certificate of a pre-prepare's view and number, with the pre-prepare stored in it.
abbrev stored : PrePrepare → PbftCore → PbftCore
stored p c =
    let (cert, c') = get_cert p.view p.sequence_number c in
    set_cert p.view p.sequence_number (record cert { pre_prepare = some p }) c'

pub stored-IsValid :
    {src : Source} (p : PrePrepare) (c : PbftCore)
    → p.sequence_number < 2 ^ 64
    → in_w p.sequence_number c ≡ true
    → p.replica_id ≡ p.view % c.replica_count
    → src.pre p ⊎ In (pre_prepare_ballot p) (sent_pre_prepares c.outbox)
    → IsValid src c
    → IsValid src (stored p c)
stored-IsValid p c small inside from source valid =
    let v = p.view in
    let n = p.sequence_number in
    let c' : PbftCore = (get_cert v n c).1 in
    let cert : MsgCert = (get_cert v n c).0 in
    let got = got_in_window v n c small inside valid in
    IsValid-set_cert v n (record cert { pre_prepare = some p }) c'
      (CertIsValid-set_pre_prepare c'.replica_count (sent_pre_prepares c'.outbox)
        (sent_prepares c'.outbox) cert p (rw (ap (λ (x : PbftCore). x.outbox) got.rest) source)
        (rw (replica_count-get_cert v n c) from) got.cert_valid)
      (λ h. sym got.prepare_flag ∙ h) (λ h. sym got.commit_flag ∙ h) got.valid

-- It makes no difference to the state whether the pre-prepare is stored or sent first.
emit-stored :
    (o : Output) (p : PrePrepare) (c : PbftCore) → emit o (stored p c) ≡ stored p (emit o c)
unfolding emit get_cert set_cert
emit-stored o p c = ground arith

in_w-stored : (n : ℕ) (p : PrePrepare) (c : PbftCore) → in_w n (stored p c) ≡ in_w n c
unfolding in_w get_cert set_cert
in_w-stored n p c = ground arith

-- The pre-prepare of the primary for its next number.
proposal-IsValid :
    {src : Source} (p : PrePrepare) (c : PbftCore)
    → p.replica_id ≡ c.id
    → p.replica_id ≡ p.view % c.replica_count
    → c.seq_no < p.sequence_number
    → p.sequence_number < 2 ^ 64
    → in_w p.sequence_number c ≡ true
    → IsValid src c
    → IsValid src (
        emit
          (broadcast (Message.pre_prepare p))
          (stored p (record c { seq_no = p.sequence_number })))
proposal-IsValid p c own lead next small inside valid =
    let c₁ : PbftCore = record c { seq_no = p.sequence_number } in
    let o : Output = broadcast (Message.pre_prepare p) in
    let sent : IsValid _ (emit o c₁) =
      IsValid-emit_pre_prepare p c₁ own (omega arith)
        (Agree-above (pre_prepare_ballot p) c.seq_no (sent_pre_prepares c.outbox) next
          valid.pre_prepares_below)
        (IsValid-raise_seq_no p.sequence_number c (omega arith) small valid) in
    rw (emit-stored o p c₁) (
      stored-IsValid p (emit o c₁) small (unfold in_w emit in inside) (unfold emit in lead)
        (inr (unfold emit in inl refl)) sent)

pub propose-IsValid :
    {src : Source} (req : Request) (digest : String) (c : PbftCore)
    → (primary c.view c == c.id) ≡ true
    → IsValid src c
    → IsValid src (propose req digest c)
unfolding propose
propose-IsValid req digest c lead valid =
    let n : ℕ = add64 c.seq_no 1 in
    elim (Bool-cases (in_wv c.view n c && not (have_other c.view n digest c.cert_store))) [
      | inr stay ↦ rw stay valid
      | inl go ↦
          let inside : in_w n c ≡ true = (in_wv_parts c.view n c (ground arith)).1 in
          let small : n < 2 ^ 64 = omega arith in
          let above : c.h < n = lt_of_in_w n c small valid.fits inside in
          let next : c.seq_no < n = omega (arith, valid.seq_small) in
          let c₁ : PbftCore = record c { seq_no = n } in
          let p : PrePrepare = record {
            view = c.view;
            sequence_number = n;
            request_digest = digest;
            request = some req;
            replica_id = c.id;
          } in
          let o : Output = broadcast (Message.pre_prepare p) in
          rw go (
            maybe_send_commit-IsValid digest c.view n (emit o (stored p c₁)) small
              (unfold in_w emit in (in_w-stored n p c₁ ∙ inside))
              (proposal-IsValid p c refl (unfold primary in ground arith) next small inside valid))
    ]

-- Fields that the invariant does not read may change.
pub IsValid-untouched :
    {src : Source} {c c' : PbftCore}
    → SameLog c c'
    → c'.last_exec ≡ c.last_exec
    → c'.outbox ≡ c.outbox
    → IsValid src c
    → IsValid src c'
IsValid-untouched {c} {c'} s last out valid =
    IsValid-SameLog s (ground (arith, valid.exec_small)) (rw (last, out) valid.in_order) valid

-- The timer starts unless it is active.
abbrev pub with_timer : Bool → PbftCore → PbftCore
with_timer wanted c = if wanted then start_timer c.request_timeout c else c

pub with_timer-IsValid :
    {src : Source} (wanted : Bool) (c : PbftCore)
    → IsValid src c
    → IsValid src (with_timer wanted c)
with_timer-IsValid false c valid = valid
with_timer-IsValid true c valid =
    IsValid-untouched (SameLog-start_timer c.request_timeout c) (unfold start_timer in refl)
      (unfold start_timer in refl) valid

pub recv_request-IsValid :
    {src : Source} (env : Env) (req : Request) (c : PbftCore)
    → IsValid src c
    → IsValid src (recv_request env req c).0
unfolding recv_request
recv_request-IsValid env req c valid = elim (Bool-cases (env.validate req.payload)) [
  | inr bad ↦ rw bad valid
  | inl good ↦
      let digest : String = hash_req env (some req) in
      let c₁ : PbftCore = record c {
        req_store = insert digest req c.req_store;
        outstanding_reqs = insert digest req c.outstanding_reqs;
      } in
      let c₂ : PbftCore = with_timer (not c.timer_active && c.active_view) c₁ in
      let valid₂ =
        with_timer-IsValid (not c.timer_active && c.active_view) c₁
          (IsValid-untouched {c = c} {c' = c₁} (ground arith) refl refl valid) in
      rw good (elim (Bool-cases ((primary c₂.view c₂ == c₂.id) && c₂.active_view)) [
        | inr wait ↦ rw wait valid₂
        | inl lead ↦ rw lead (propose-IsValid req digest c₂ (ground arith) valid₂)
      ])
]
