-- ===== src/Pbft/Agreement/Network.antt =====
-- A network of replicas in one view. A step delivers one message to one correct replica. Messages
-- that name a correct replica as their sender were sent by it; a faulty replica sends anything.
use client_sdk.Prelude.{
  ℕ, ◌^◌, ◌<◌, ◌≡◌, refl, sym, subst, inl, inr, ◌⊎◌, Bool, true, false, List, arith, ◌==◌, nat_eq,
  nat_beq_iff, Bool-cases, if◌then◌else◌, All-map, ==_refl,
}
use client_sdk.Pbft.Messages.{Request, PrePrepare, Prepare, Commit}
use client_sdk.Pbft.State.{PbftCore, MsgId, MsgCert, Env}
use client_sdk.Pbft.Receive.{recv_request, recv_pre_prepare, recv_prepare, recv_commit}
use client_sdk.Pbft.Receive.Sent.{
  Ballot, sent_pre_prepares, sent_prepares, In, pre_prepare_ballot, prepare_ballot,
}
use client_sdk.Pbft.Receive.Invariant.{Source, CertIsValid, IsValid}
use client_sdk.Pbft.Receive.Invariant.Votes.{recv_prepare-IsValid, recv_commit-IsValid}
use client_sdk.Pbft.Receive.Invariant.Proposals.{recv_pre_prepare-IsValid}
use client_sdk.Pbft.Receive.Invariant.Requests.{recv_request-IsValid}

pub record Setup : Type 0 where
  pub env : Env
  pub n_replicas : ℕ
  pub f : ℕ
  pub view : ℕ
  pub bad : ℕ → Bool

abbrev pub Net : Type 0
Net = ℕ → PbftCore

pub data Event : Type 0 where
  request : Request → Event
  pre_prepare : PrePrepare → Event
  prepare : Prepare → Event
  commit : Commit → Event

unfoldable pub handle : Env → Event → PbftCore → PbftCore
handle env (request req) c = (recv_request env req c).0
handle env (pre_prepare p) c = (recv_pre_prepare env p c).0
handle env (prepare p) c = recv_prepare p c
handle env (commit p) c = recv_commit p c

-- A ballot comes from a replica of the network: a faulty one, or one that has sent it.
abbrev pub Authentic : Setup → (ℕ → List Ballot) → Ballot → Type 0
Authentic s sent b = (b.replica < s.n_replicas) × ((s.bad b.replica ≡ true) ⊎ In b (sent b.replica))

abbrev pub pre_prepares_of : Net → ℕ → List Ballot
pre_prepares_of net k = sent_pre_prepares (net k).outbox

abbrev pub prepares_of : Net → ℕ → List Ballot
prepares_of net k = sent_prepares (net k).outbox

-- What may be delivered: numbers are `uint64`s, and votes are authentic.
abbrev pub Admissible : Setup → Net → Event → Type 0
Admissible s net (request req) = Unit
Admissible s net (pre_prepare p) =
    (p.sequence_number < 2 ^ 64) × Authentic s (pre_prepares_of net) (pre_prepare_ballot p)
Admissible s net (prepare p) =
    (p.sequence_number < 2 ^ 64) × Authentic s (prepares_of net) (prepare_ballot p)
Admissible s net (commit p) = p.sequence_number < 2 ^ 64

abbrev pub update : Net → ℕ → PbftCore → Net
update net i c k = if i == k then c else net k

pub data Step (s : Setup) (net : Net) : Net → Type 0 where
  deliver :
      (i : ℕ) (e : Event)
      → i < s.n_replicas
      → s.bad i ≡ false
      → Admissible s net e
      → Step s net (update net i (handle s.env e (net i)))

pub data Reach (s : Setup) (start : Net) : Net → Type 0 where
  here : Reach s start start
  next : {a b : Net} → Reach s start a → Step s a b → Reach s start b

-- The setting of one replica in the network.
abbrev pub source_at : Setup → Net → ℕ → Source
source_at s net i = record {
  id = i;
  n_replicas = s.n_replicas;
  f = s.f;
  view = s.view;
  had_pre_prepares = pre_prepares_of net i;
  had_prepares = prepares_of net i;
  pre = λ p. Authentic s (pre_prepares_of net) (pre_prepare_ballot p);
  prep = λ p. Authentic s (prepares_of net) (prepare_ballot p);
}

-- Every correct replica is in its valid state.
abbrev pub NetIsValid : Setup → Net → Type 0
NetIsValid s net =
    (i : ℕ) → i < s.n_replicas → s.bad i ≡ false → IsValid (source_at s net i) (net i)

handle-IsValid :
    (s : Setup) (net : Net) (i : ℕ) (e : Event)
    → Admissible s net e
    → IsValid (source_at s net i) (net i)
    → IsValid (source_at s net i) (handle s.env e (net i))
unfolding handle
handle-IsValid s net i (request req) ok v = recv_request-IsValid s.env req (net i) v
handle-IsValid s net i (pre_prepare p) ok v =
    recv_pre_prepare-IsValid s.env p (net i) ok.0 (inl ok.1) v
handle-IsValid s net i (prepare p) ok v = recv_prepare-IsValid p (net i) ok.0 (inl ok.1) v
handle-IsValid s net i (commit p) ok v = recv_commit-IsValid p (net i) ok v

-- The setting may change where everything that was sent stays sent.
module _ {src src' : Source} where
  CertIsValid-resource :
      {rc : ℕ} {ps bs : _} {idx : MsgId} {cert : MsgCert}
      → ((p : PrePrepare) → src.pre p → src'.pre p)
      → ((p : Prepare) → src.prep p → src'.prep p)
      → CertIsValid src rc ps bs idx cert
      → CertIsValid src' rc ps bs idx cert
  CertIsValid-resource {cert = cert} f g ok = record {
    positive = ok.positive;
    small = ok.small;
    pre = ok.pre;
    pre_from = λ p e. elim (ok.pre_from p e) [ inl x ↦ inl (f p x) | inr i ↦ inr i ];
    prepares = ok.prepares;
    prepares_from =
        All-map _ _ cert.prepare (λ p from. elim from [ inl x ↦ inl (g p x) | inr i ↦ inr i ])
          ok.prepares_from;
    prepares_distinct = ok.prepares_distinct;
    commits = ok.commits;
    commits_distinct = ok.commits_distinct;
  }

  IsValid-resource :
      {c : PbftCore}
      → (src.id ≡ src'.id)
        × (src.n_replicas ≡ src'.n_replicas)
        × (src.f ≡ src'.f)
        × (src.view ≡ src'.view)
      → ((p : PrePrepare) → src.pre p → src'.pre p)
      → ((p : Prepare) → src.prep p → src'.prep p)
      → ((b : Ballot) → In b src'.had_pre_prepares → In b (sent_pre_prepares c.outbox))
      → ((b : Ballot) → In b src'.had_prepares → In b (sent_prepares c.outbox))
      → IsValid src c
      → IsValid src' c
  IsValid-resource same f g had_pre had v = record {
    fits = v.fits;
    config = ground arith;
    kept_pre_prepares = had_pre;
    kept_prepares = had;
    exec_small = v.exec_small;
    seq_small = v.seq_small;
    certs = λ idx cert e. CertIsValid-resource f g (v.certs idx cert e);
    pset_below = v.pset_below;
    qset_below = v.qset_below;
    pre_prepares_own = v.pre_prepares_own;
    pre_prepares_below = v.pre_prepares_below;
    pre_prepares_one = v.pre_prepares_one;
    prepares_own = v.prepares_own;
    prepares_recorded = v.prepares_recorded;
    prepares_one = v.prepares_one;
    commits_own = v.commits_own;
    commits_recorded = v.commits_recorded;
    commits_one = v.commits_one;
    in_order = v.in_order;
  }

module _ (s : Setup) (net : Net) (i : ℕ) (c : PbftCore) (v : IsValid (source_at s net i) c) where
  grown_pre_prepares :
      (k : ℕ) (b : Ballot)
      → In b (pre_prepares_of net k)
      → In b (pre_prepares_of (update net i c) k)
  grown_pre_prepares k b h = elim (Bool-cases (i == k)) [
    | inl same ↦ rw same (
        v.kept_pre_prepares b
          (subst (λ j. In b (pre_prepares_of net j)) (sym ((nat_beq_iff i k).0 same)) h))
    | inr other ↦ rw other h
  ]

  grown_prepares :
      (k : ℕ) (b : Ballot) → In b (prepares_of net k) → In b (prepares_of (update net i c) k)
  grown_prepares k b h = elim (Bool-cases (i == k)) [
    | inl same ↦ rw same (
        v.kept_prepares b
          (subst (λ j. In b (prepares_of net j)) (sym ((nat_beq_iff i k).0 same)) h))
    | inr other ↦ rw other h
  ]

  -- A valid state of any replica is valid in the setting after the step.
  IsValid-step :
      (k : ℕ) (d : PbftCore)
      → update net i c k ≡ d
      → IsValid (source_at s net k) d
      → IsValid (source_at s (update net i c) k) d
  IsValid-step k d now w =
      IsValid-resource (refl, refl, refl, refl)
        (λ p from. (
          from.0,
          elim from.1 [
            | inl faulty ↦ inl faulty
            | inr sent ↦ inr (grown_pre_prepares p.replica_id (pre_prepare_ballot p) sent)
          ],
        ))
        (λ p from. (
          from.0,
          elim from.1 [
            | inl faulty ↦ inl faulty
            | inr sent ↦ inr (grown_prepares p.replica_id (prepare_ballot p) sent)
          ],
        ))
        (λ b h. rw now at h) (λ b h. rw now at h) w

-- A step keeps every correct replica in a valid state.
pub Step-NetIsValid : (s : Setup) {a b : Net} → Step s a b → NetIsValid s a → NetIsValid s b
Step-NetIsValid s {a = net} (deliver i e lt good ok) all k ltk goodk =
    let c = handle s.env e (net i) in
    let v = handle-IsValid s net i e ok (all i lt good) in
    let after : Net = update net i c in
    elim (Bool-cases (i == k)) [
      | inl same ↦
          let now : after i ≡ c = rw ==_refl refl in
          subst (λ j. IsValid (source_at s after j) (after j)) ((nat_beq_iff i k).0 same)
            (subst (λ d. IsValid (source_at s after i) d) (sym now)
              (IsValid-step s net i c v i c now v))
      | inr other ↦
          let now : after k ≡ net k = rw other refl in
          subst (λ d. IsValid (source_at s after k) d) (sym now)
            (IsValid-step s net i c v k (net k) now (all k ltk goodk))
    ]

pub Reach-NetIsValid :
    (s : Setup) {start net : Net} → NetIsValid s start → Reach s start net → NetIsValid s net
Reach-NetIsValid s h here = h
Reach-NetIsValid s h (next r st) = Step-NetIsValid s st (Reach-NetIsValid s h r)
