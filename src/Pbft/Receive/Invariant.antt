-- ===== src/Pbft/Receive/Invariant.antt =====
-- The invariant of a replica in the normal case, and its preservation by the primitive updates.
pub mod Updates
pub mod Emit
pub mod Votes
pub mod Requests
pub mod Proposals
use client_sdk.Prelude.{
  ℕ, suc, ◌+◌, ◌%◌, ◌^◌, ◌≤◌, ◌<◌, String, ◌≡◌, ◌≢◌, ◌⊎◌, inl, inr, refl, Bool, true, false, Option,
  none, some, List, [], ◌∷◌, ◌++◌, map, arith, All, All-map, All-append, lookup, insert,
  lookup-insert, Option-cases, Bool-cases, ◌==◌, nat_eq, ◌&&◌, subst, if◌then◌else◌,
}
use client_sdk.Pbft.Messages.{PrePrepare, Prepare, Commit, ViewChangePq, Message}
use client_sdk.Pbft.State.{
  PbftCore, MsgId, QIdx, MsgCert, empty_cert, msg_id_eq, qidx_eq, msg_id_beq_iff, Output, emit,
  get_cert, set_cert, broadcast,
}
use client_sdk.Pbft.Quorum.Intersection.{Distinct}
use client_sdk.Pbft.Receive.Sent.{
  Ballot, sent_pre_prepares, sent_prepares, sent_commits, executions, Descending, OneDigest,
  prepare_ballot, pre_prepare_ballot, In,
}
use client_sdk.Pbft.Receive.Frame.{SameLog}

abbrev pub prepare_ids : List Prepare → List ℕ
prepare_ids = map (λ p. p.replica_id)

abbrev pub commit_ids : List Commit → List ℕ
commit_ids = map (λ p. p.replica_id)

-- The setting of a replica: its configuration and view, where the votes of its certificates may
-- come from beside the replica itself, and ballots that it has sent already.
pub record Source : Type 1 where
  pub id : ℕ
  pub n_replicas : ℕ
  pub f : ℕ
  pub view : ℕ
  pub had_pre_prepares : List Ballot
  pub had_prepares : List Ballot
  pub pre : PrePrepare → Type 0
  pub prep : Prepare → Type 0

-- A certificate of `idx` holds votes for `idx` only, at most one of each kind from each replica,
-- its pre-prepare comes from the primary, none of its prepares does, and each was received from a
-- source or is among the replica's own ballots `ps` and `bs`.
pub record CertIsValid (src : Source) (replica_count : ℕ) (ps bs : List Ballot) (idx : MsgId)
    (cert : MsgCert) : Type 0 where
  pub positive : 0 < idx.n
  pub small : idx.n < 2 ^ 64
  pub pre :
      (p : PrePrepare)
      → cert.pre_prepare ≡ some p
      → (p.view ≡ idx.v) × (p.sequence_number ≡ idx.n) × (p.replica_id ≡ idx.v % replica_count)
  pub pre_from :
      (p : PrePrepare) → cert.pre_prepare ≡ some p → src.pre p ⊎ In (pre_prepare_ballot p) ps
  pub prepares :
      All
        (λ (p : Prepare).
          (p.view ≡ idx.v) × (p.sequence_number ≡ idx.n) × (idx.v % replica_count ≢ p.replica_id))
        cert.prepare
  pub prepares_from : All (λ (p : Prepare). src.prep p ⊎ In (prepare_ballot p) bs) cert.prepare
  pub prepares_distinct : Distinct (prepare_ids cert.prepare)
  pub commits : All (λ (p : Commit). (p.view ≡ idx.v) × (p.sequence_number ≡ idx.n)) cert.commit
  pub commits_distinct : Distinct (commit_ids cert.commit)

abbrev pub CertOk : Source → PbftCore → MsgId → MsgCert → Type 0
CertOk src c = CertIsValid src c.replica_count (sent_pre_prepares c.outbox) (sent_prepares c.outbox)

pub empty_cert-CertIsValid :
    (src : Source) (rc : ℕ) (ps bs : List Ballot) (idx : MsgId)
    → 0 < idx.n
    → idx.n < 2 ^ 64
    → CertIsValid src rc ps bs idx empty_cert
empty_cert-CertIsValid src rc ps bs idx positive small = record {
  positive = positive;
  small = small;
  pre = λ p e. cc;
  pre_from = λ p e. absurd (cc);
  prepares = tt;
  prepares_from = tt;
  prepares_distinct = tt;
  commits = tt;
  commits_distinct = tt;
}

-- The replica's own ballots grow.
pub CertIsValid-more :
    {src : Source} (rc : ℕ) (ps ps' bs bs' : List Ballot) (idx : MsgId) (cert : MsgCert)
    → ((b : Ballot) → In b ps → In b ps')
    → ((b : Ballot) → In b bs → In b bs')
    → CertIsValid src rc ps bs idx cert
    → CertIsValid src rc ps' bs' idx cert
CertIsValid-more rc ps ps' bs bs' idx cert f g ok = record {
  positive = ok.positive;
  small = ok.small;
  pre = ok.pre;
  pre_from =
      λ p e. elim (ok.pre_from p e) [ inl s ↦ inl s | inr i ↦ inr (f (pre_prepare_ballot p) i) ];
  prepares = ok.prepares;
  prepares_from =
      All-map _ _ cert.prepare
        (λ p from. elim from [ inl s ↦ inl s | inr i ↦ inr (g (prepare_ballot p) i) ])
        ok.prepares_from;
  prepares_distinct = ok.prepares_distinct;
  commits = ok.commits;
  commits_distinct = ok.commits_distinct;
}

-- The flags `sentPrepare` and `sentCommit` of a certificate, false where there is none.
unfoldable pub sent_prepare_at : ℕ → ℕ → PbftCore → Bool
sent_prepare_at v n c = elim (lookup (record { v = v; n = n }) c.cert_store) [
  | none ↦ false
  | some cert ↦ cert.sent_prepare
]

unfoldable pub sent_commit_at : ℕ → ℕ → PbftCore → Bool
sent_commit_at v n c = elim (lookup (record { v = v; n = n }) c.cert_store) [
  | none ↦ false
  | some cert ↦ cert.sent_commit
]

-- A vote that was sent is below the window, or its certificate has the flag.
abbrev pub Recorded : (ℕ → ℕ → PbftCore → Bool) → PbftCore → Ballot → Type 0
Recorded flag c b = (b.number ≤ c.h) ⊎ (flag b.view b.number c ≡ true)

pub record IsValid (src : Source) (c : PbftCore) : Type 0 where
  pub fits : c.h + c.l < 2 ^ 64
  pub config :
      (c.id ≡ src.id)
      × (c.n_replicas ≡ src.n_replicas)
      × (c.replica_count ≡ src.n_replicas)
      × (c.f ≡ src.f)
      × (c.view ≡ src.view)
  pub kept_pre_prepares :
      (b : Ballot) → In b src.had_pre_prepares → In b (sent_pre_prepares c.outbox)
  pub kept_prepares : (b : Ballot) → In b src.had_prepares → In b (sent_prepares c.outbox)
  pub exec_small : c.last_exec < 2 ^ 64
  pub seq_small : c.seq_no < 2 ^ 64
  pub certs :
      (idx : MsgId) (cert : MsgCert) → lookup idx c.cert_store ≡ some cert → CertOk src c idx cert
  pub pset_below : (n : ℕ) (p : ViewChangePq) → lookup n c.pset ≡ some p → p.view < c.view
  pub qset_below : (i : QIdx) (q : ViewChangePq) → lookup i c.qset ≡ some q → q.view < c.view
  pub pre_prepares_own : All (λ b. b.replica ≡ c.id) (sent_pre_prepares c.outbox)
  pub pre_prepares_below : All (λ b. b.number ≤ c.seq_no) (sent_pre_prepares c.outbox)
  pub pre_prepares_one : OneDigest (sent_pre_prepares c.outbox)
  pub prepares_own : All (λ b. b.replica ≡ c.id) (sent_prepares c.outbox)
  pub prepares_recorded : All (Recorded sent_prepare_at c) (sent_prepares c.outbox)
  pub prepares_one : OneDigest (sent_prepares c.outbox)
  pub commits_own : All (λ b. b.replica ≡ c.id) (sent_commits c.outbox)
  pub commits_recorded : All (Recorded sent_commit_at c) (sent_commits c.outbox)
  pub commits_one : OneDigest (sent_commits c.outbox)
  pub in_order : Descending (suc c.last_exec) (executions c.outbox)

-- The part that the execution of requests does not touch.
pub IsValid-SameLog :
    {src : Source} {c c' : PbftCore}
    → SameLog c c'
    → c'.last_exec < 2 ^ 64
    → Descending (suc c'.last_exec) (executions c'.outbox)
    → IsValid src c
    → IsValid src c'
unfolding sent_prepare_at sent_commit_at
IsValid-SameLog {c} {c'} s small order v = record {
  config = ground (arith, s.id, s.n_replicas, s.replica_count, s.f, s.view, v.config);
  kept_pre_prepares = λ b i. rw s.pre_prepares (v.kept_pre_prepares b i);
  kept_prepares = λ b i. rw s.prepares (v.kept_prepares b i);
  exec_small = small;
  seq_small = ground (arith, s.seq_no, v.seq_small);
  fits = ground (arith, s.h, s.l, v.fits);
  certs = λ idx cert e.
      rw (s.replica_count, s.pre_prepares, s.prepares) (v.certs idx cert (rw s.cert_store at e));
  pset_below = λ n p e. rw s.view (v.pset_below n p (rw s.pset at e));
  qset_below = λ i q e. rw s.view (v.qset_below i q (rw s.qset at e));
  pre_prepares_own = rw (s.pre_prepares, s.id) v.pre_prepares_own;
  pre_prepares_below = rw (s.pre_prepares, s.seq_no) v.pre_prepares_below;
  pre_prepares_one = rw s.pre_prepares v.pre_prepares_one;
  prepares_own = rw (s.prepares, s.id) v.prepares_own;
  prepares_recorded = rw (s.prepares, s.h, s.cert_store) v.prepares_recorded;
  prepares_one = rw s.prepares v.prepares_one;
  commits_own = rw (s.commits, s.id) v.commits_own;
  commits_recorded = rw (s.commits, s.h, s.cert_store) v.commits_recorded;
  commits_one = rw s.commits v.commits_one;
  in_order = order;
}

module _ (v n : ℕ) (cert : MsgCert) (c : PbftCore) where
  pub lookup-set_cert :
      (idx : MsgId)
      → lookup idx (set_cert v n cert c).cert_store
        ≡ (if (v == idx.v) && (n == idx.n) then some cert else lookup idx c.cert_store)
  unfolding set_cert
  lookup-set_cert idx = lookup-insert (record { v = v; n = n }) idx cert c.cert_store

  pub sent_prepare_at-set_cert :
      (v' n' : ℕ)
      → sent_prepare_at v' n' (set_cert v n cert c)
        ≡ (if (v == v') && (n == n') then cert.sent_prepare else sent_prepare_at v' n' c)
  unfolding sent_prepare_at
  sent_prepare_at-set_cert v' n' = ground (arith, lookup-set_cert (record { v = v'; n = n' }))

  pub sent_commit_at-set_cert :
      (v' n' : ℕ)
      → sent_commit_at v' n' (set_cert v n cert c)
        ≡ (if (v == v') && (n == n') then cert.sent_commit else sent_commit_at v' n' c)
  unfolding sent_commit_at
  sent_commit_at-set_cert v' n' = ground (arith, lookup-set_cert (record { v = v'; n = n' }))

  prepare_kept :
      (b : Ballot)
      → (sent_prepare_at v n c ≡ true → cert.sent_prepare ≡ true)
      → Recorded sent_prepare_at c b
      → Recorded sent_prepare_at (set_cert v n cert c) b
  unfolding set_cert
  prepare_kept b keeps (inl low) = inl low
  prepare_kept b keeps (inr e) = inr (ground (arith, sent_prepare_at-set_cert b.view b.number))

  commit_kept :
      (b : Ballot)
      → (sent_commit_at v n c ≡ true → cert.sent_commit ≡ true)
      → Recorded sent_commit_at c b
      → Recorded sent_commit_at (set_cert v n cert c) b
  unfolding set_cert
  commit_kept b keeps (inl low) = inl low
  commit_kept b keeps (inr e) = inr (ground (arith, sent_commit_at-set_cert b.view b.number))

  certs_kept :
      {src : Source}
      → CertOk src c (record { v = v; n = n }) cert
      → IsValid src c
      → (idx : MsgId) (x : MsgCert) → lookup idx (set_cert v n cert c).cert_store ≡ some x
      → CertOk src c idx x
  certs_kept {src} ok valid idx x e = elim (Bool-cases ((v == idx.v) && (n == idx.n))) [
    | inl here ↦
        let same : record { v = v; n = n } ≡ idx = (msg_id_beq_iff _ idx).0 here in
        let is : cert ≡ x = ground (arith, lookup-set_cert idx) in
        rw (← is) (subst (λ i. CertOk src c i cert) same ok)
    | inr other ↦ valid.certs idx x (ground (arith, lookup-set_cert idx))
  ]

  -- A certificate may be written if it is valid and lowers no flag.
  pub IsValid-set_cert :
      {src : Source}
      → CertOk src c (record { v = v; n = n }) cert
      → (sent_prepare_at v n c ≡ true → cert.sent_prepare ≡ true)
      → (sent_commit_at v n c ≡ true → cert.sent_commit ≡ true)
      → IsValid src c
      → IsValid src (set_cert v n cert c)
  unfolding set_cert
  IsValid-set_cert ok keeps_prepare keeps_commit valid = record {
    fits = valid.fits;
    config = valid.config;
    kept_pre_prepares = valid.kept_pre_prepares;
    kept_prepares = valid.kept_prepares;
    exec_small = valid.exec_small;
    seq_small = valid.seq_small;
    certs = certs_kept ok valid;
    pset_below = valid.pset_below;
    qset_below = valid.qset_below;
    pre_prepares_own = valid.pre_prepares_own;
    pre_prepares_below = valid.pre_prepares_below;
    pre_prepares_one = valid.pre_prepares_one;
    prepares_own = valid.prepares_own;
    prepares_recorded =
        All-map _ _ (sent_prepares c.outbox) (λ b. prepare_kept b keeps_prepare)
          valid.prepares_recorded;
    prepares_one = valid.prepares_one;
    commits_own = valid.commits_own;
    commits_recorded =
        All-map _ _ (sent_commits c.outbox) (λ b. commit_kept b keeps_commit)
          valid.commits_recorded;
    commits_one = valid.commits_one;
    in_order = valid.in_order;
  }
