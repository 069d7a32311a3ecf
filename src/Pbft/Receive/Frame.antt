-- ===== src/Pbft/Receive/Frame.antt =====
-- What the execution of requests leaves as it was: the certificates, the configuration, the view,
-- the watermark and the votes sent.
use client_sdk.Prelude.{
  ℕ, zero, suc, String, ◌≡◌, true, false, some, List, [], ◌∷◌, arith, keys, lookup, Option-cases,
  inl, inr, add64, length,
}
use client_sdk.Pbft.Messages.{PrePrepare}
use client_sdk.Pbft.State.{PbftCore, MsgId, MsgCert, msg_id_eq, emit, start_timer, stop_timer}
use client_sdk.Pbft.Quorum.{committed}
use client_sdk.Pbft.Receive.{
  execute_request, executed, execute_one, execute_pass, execute_loop, execute_outstanding,
}
use client_sdk.Pbft.Receive.Sent.{sent_pre_prepares, sent_prepares, sent_commits}

pub record SameLog (c c' : PbftCore) : Type 0 where
  pub cert_store : c'.cert_store ≡ c.cert_store
  pub view : c'.view ≡ c.view
  pub active_view : c'.active_view ≡ c.active_view
  pub h : c'.h ≡ c.h
  pub l : c'.l ≡ c.l
  pub id : c'.id ≡ c.id
  pub f : c'.f ≡ c.f
  pub n_replicas : c'.n_replicas ≡ c.n_replicas
  pub replica_count : c'.replica_count ≡ c.replica_count
  pub seq_no : c'.seq_no ≡ c.seq_no
  pub pset : c'.pset ≡ c.pset
  pub qset : c'.qset ≡ c.qset
  pub pre_prepares : sent_pre_prepares c'.outbox ≡ sent_pre_prepares c.outbox
  pub prepares : sent_prepares c'.outbox ≡ sent_prepares c.outbox
  pub commits : sent_commits c'.outbox ≡ sent_commits c.outbox

pub SameLog-refl : (c : PbftCore) → SameLog c c
SameLog-refl c = ground arith

pub SameLog-trans : {a b c : PbftCore} → SameLog a b → SameLog b c → SameLog a c
SameLog-trans p q = ground arith

pub SameLog-stop_timer : (c : PbftCore) → SameLog c (stop_timer c)
unfolding stop_timer
SameLog-stop_timer c = ground arith

pub SameLog-start_timer : (t : ℕ) (c : PbftCore) → SameLog c (start_timer t c)
unfolding start_timer
SameLog-start_timer t c = ground arith

SameLog-execute_request :
    (idx : MsgId) (digest : String) (c : PbftCore) → SameLog c (execute_request idx digest c)
unfolding execute_request emit
SameLog-execute_request idx digest c = ground arith

pub SameLog-executed :
    (idx : MsgId) (digest : String) (c : PbftCore) → SameLog c (executed idx digest c)
unfolding executed
SameLog-executed idx digest c =
    let c₁ : PbftCore = record c { last_exec = idx.n } in
    let c₂ : PbftCore = stop_timer c₁ in
    let c₃ : PbftCore = record c₂ { last_new_view_timeout = c₂.new_view_timeout } in
    let c₄ : PbftCore = execute_request idx digest c₃ in
    ground (
      arith,
      SameLog-stop_timer c₁,
      SameLog-execute_request idx digest c₃,
      SameLog-start_timer c₄.request_timeout c₄,
    )

-- A certificate that executes is for the next sequence number, is committed, and what follows is
-- `executed`.
pub execute_one-eq-some :
    (idx : MsgId) (c c' : PbftCore)
    → execute_one idx c ≡ some c'
    → (cert : MsgCert) × (p : PrePrepare) × (lookup idx c.cert_store ≡ some cert)
      × (cert.pre_prepare ≡ some p)
      × (idx.n ≡ add64 c.last_exec 1)
      × (c.skip_in_progress ≡ false)
      × (committed p.request_digest idx.v idx.n c ≡ true)
      × (c' ≡ executed idx p.request_digest c)
unfolding execute_one
execute_one-eq-some idx c c' e = elim (Option-cases (lookup idx c.cert_store)) [
  | inl missing ↦ absurd (ground arith)
  | inr (cert, found) ↦ elim (Option-cases cert.pre_prepare) [
    | inl missing ↦ absurd (ground arith)
    | inr (p, has) ↦ (cert, p, found, has, ground arith, ground arith, ground arith, ground arith)
  ]
]

pub SameLog-execute_one :
    (idx : MsgId) (c c' : PbftCore) → execute_one idx c ≡ some c' → SameLog c c'
SameLog-execute_one idx c c' e =
    let (cert, p, found, has, next, going, done, same) = execute_one-eq-some idx c c' e in
    rw same (SameLog-executed idx p.request_digest c)

pub execute_pass-eq-some :
    (ids : List MsgId) (c c' : PbftCore)
    → execute_pass ids c ≡ some c'
    → (idx : MsgId) × (execute_one idx c ≡ some c')
unfolding execute_pass
execute_pass-eq-some [] c c' e = cc
execute_pass-eq-some (idx ∷ ids) c c' e = elim (Option-cases (execute_one idx c)) [
  | inl not_now ↦ execute_pass-eq-some ids c c' (ground arith)
  | inr (d, now) ↦ (idx, ground arith)
]

-- What one execution keeps, the loop keeps.
pub execute_loop_induction {ℓ} :
    (P : PbftCore → Type ℓ)
    → ((idx : MsgId) (c c' : PbftCore) → P c → execute_one idx c ≡ some c' → P c')
    → (fuel : ℕ) (c : PbftCore) → P c
    → P (execute_loop fuel c)
unfolding execute_loop
execute_loop_induction P step zero c h = h
execute_loop_induction P step (suc fuel) c h =
    elim (Option-cases (execute_pass (keys c.cert_store) c)) [
      | inl stop ↦ rw (stop, execute_loop) h
      | inr (c', go) ↦
          let (idx, one) = execute_pass-eq-some (keys c.cert_store) c c' go in
          rw (go, execute_loop) (execute_loop_induction P step fuel c' (step idx c c' h one))
    ]

pub SameLog-execute_outstanding : (c : PbftCore) → SameLog c (execute_outstanding c)
unfolding execute_outstanding
SameLog-execute_outstanding c =
    execute_loop_induction (SameLog c)
      (λ idx d d' same one. SameLog-trans same (SameLog-execute_one idx d d' one))
      (suc (length c.cert_store)) c (SameLog-refl c)
