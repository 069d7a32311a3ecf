-- ===== src/Pbft/Agreement/Safety.antt =====
-- Agreement in a view: two correct replicas never hold prepared certificates for two digests.
use client_sdk.Prelude.{
  ℕ, ◌+◌, ◌%◌, ◌≤◌, ◌<◌, String, ◌≡◌, ◌≢◌, refl, sym, ap, ◌∙◌, subst, inl, inr, ◌⊎◌, true, false,
  List, ◌∷◌, arith, All, All-map, length, ◌==◌, nat_eq, string_eq, string_beq_iff, nat_beq_iff, ◌/◌,
  Bool-cases,
}
use client_sdk.Pbft.Messages.{PrePrepare, Prepare}
use client_sdk.Pbft.State.{PbftCore, MsgId, msg_id_eq}
use client_sdk.Pbft.Quorum.{intersection_quorum, prepared, prepare_matches}
use client_sdk.Pbft.Quorum.Intersection.{mem, Distinct, count_below, quorum_intersection}
use client_sdk.Pbft.Receive.Sent.{Ballot, In, All-In, Agree-In, pre_prepare_ballot, prepare_ballot}
use client_sdk.Pbft.Receive.Invariant.{CertIsValid, IsValid}
use client_sdk.Pbft.Agreement.Backers.{
  backers, backers-Distinct, length-voters, All-voters, find_voter, prepared_parts,
}
use client_sdk.Pbft.Agreement.Network.{
  Setup, Net, Reach, Authentic, pre_prepares_of, prepares_of, source_at, NetIsValid,
  Reach-NetIsValid,
}

-- What the replica `k` has sent for a digest: its pre-prepare if it is the primary, or a prepare.
abbrev Supports : Setup → Net → String → ℕ → ℕ → Type 0
Supports s net digest n k =
    let b : Ballot = record { view = s.view; number = n; digest = digest; replica = k } in
    ((k ≡ s.view % s.n_replicas) × In b (pre_prepares_of net k))
    ⊎ ((s.view % s.n_replicas ≢ k) × In b (prepares_of net k))

ballot_of_vote :
    (digest : String) (v n k : ℕ) (q : Prepare)
    → prepare_matches digest v n q ≡ true
    → q.replica_id ≡ k
    → prepare_ballot q ≡ record { view = v; number = n; digest = digest; replica = k }
ballot_of_vote digest v n k q h me = ground (arith, string_beq_iff q.request_digest digest)

ne_of_beq : (a b : ℕ) → (a == b) ≡ false → a ≢ b
ne_of_beq a b h = ground arith

voter_of_backer :
    (r k : ℕ) (xs : List ℕ) → mem k (r ∷ xs) ≡ true → (r == k) ≡ false → mem k xs ≡ true
voter_of_backer r k xs m other = ground arith

-- A quorum of replicas whose correct members support the digest.
record Backed (s : Setup) (net : Net) (digest : String) (n q : ℕ) (xs : List ℕ) : Type 0 where
  distinct : Distinct xs
  small : All (λ x. x < s.n_replicas) xs
  quorum : q ≤ length xs
  support : (k : ℕ) → mem k xs ≡ true → s.bad k ≡ false → Supports s net digest n k

module _ (s : Setup) (net : Net) (i : ℕ) (lt : i < s.n_replicas)
    (v : IsValid (source_at s net i) (net i)) where
  -- A replica's own ballots are authentic too.
  Authentic-pre :
      (p : PrePrepare)
      → Authentic s (pre_prepares_of net) (pre_prepare_ballot p)
        ⊎ In (pre_prepare_ballot p) (pre_prepares_of net i)
      → Authentic s (pre_prepares_of net) (pre_prepare_ballot p)
  Authentic-pre p (inl a) = a
  Authentic-pre p (inr own) =
      let me : p.replica_id ≡ i =
        All-In (λ b. b.replica ≡ (net i).id) (pre_prepare_ballot p) (pre_prepares_of net i)
          v.pre_prepares_own own
        ∙ v.config.0 in
      (rw me lt, inr (subst (λ k. In (pre_prepare_ballot p) (pre_prepares_of net k)) (sym me) own))

  Authentic-prep :
      (p : Prepare)
      → Authentic s (prepares_of net) (prepare_ballot p) ⊎ In (prepare_ballot p) (prepares_of net i)
      → Authentic s (prepares_of net) (prepare_ballot p)
  Authentic-prep p (inl a) = a
  Authentic-prep p (inr own) =
      let me : p.replica_id ≡ i =
        All-In (λ b. b.replica ≡ (net i).id) (prepare_ballot p) (prepares_of net i) v.prepares_own
          own
        ∙ v.config.0 in
      (rw me lt, inr (subst (λ k. In (prepare_ballot p) (prepares_of net k)) (sym me) own))

  -- The ballot of a correct replica behind a certificate.
  support_pre :
      (digest : String) (n k : ℕ) (p : PrePrepare)
      → pre_prepare_ballot p
        ≡ record { view = s.view; number = n; digest = digest; replica = s.view % s.n_replicas }
      → Authentic s (pre_prepares_of net) (pre_prepare_ballot p)
      → s.view % s.n_replicas ≡ k
      → s.bad k ≡ false
      → Supports s net digest n k
  support_pre digest n k p is from lead good = elim from.1 [
    | inl faulty ↦ absurd (ground (arith, ap (λ (b : Ballot). b.replica) is))
    | inr sent ↦
        let me : p.replica_id ≡ k = ap (λ (b : Ballot). b.replica) is ∙ lead in
        inl (
          sym lead,
          subst (λ b. In b (pre_prepares_of net k)) (ground arith)
              (subst (λ j. In (pre_prepare_ballot p) (pre_prepares_of net j)) me sent),
        )
  ]

  support_prep :
      (digest : String) (n k : ℕ) (p : Prepare)
      → prepare_ballot p ≡ record { view = s.view; number = n; digest = digest; replica = k }
      → Authentic s (prepares_of net) (prepare_ballot p)
      → s.view % s.n_replicas ≢ k
      → s.bad k ≡ false
      → Supports s net digest n k
  support_prep digest n k p is from other good = elim from.1 [
    | inl faulty ↦ absurd (ground (arith, ap (λ (b : Ballot). b.replica) is))
    | inr sent ↦
        let me : p.replica_id ≡ k = ap (λ (b : Ballot). b.replica) is in
        inr (
          other,
          subst (λ b. In b (prepares_of net k)) is
              (subst (λ j. In (prepare_ballot p) (prepares_of net j)) me sent),
        )
  ]

  prepared-Backed :
      (digest : String) (n : ℕ)
      → prepared digest s.view n (net i) ≡ true
      → (xs : List ℕ) × Backed s net digest n ((s.n_replicas + s.f + 2) / 2) xs
  unfolding intersection_quorum
  prepared-Backed digest n h =
      let c : PbftCore = net i in
      let (cert, p, found, has, named, enough) =
        prepared_parts digest s.view n c v (sym v.config.4) h in
      let idx : MsgId = record { v = s.view; n = n } in
      let ok : CertIsValid (source_at s net i) s.n_replicas (pre_prepares_of net i)
          (prepares_of net i) idx cert =
        subst
          (λ rc.
            CertIsValid (source_at s net i) rc (pre_prepares_of net i) (prepares_of net i) idx cert)
          v.config.2 (v.certs idx cert found) in
      let test = prepare_matches digest s.view n in
      let pre = ok.pre p has in
      let authentic =
        All-map _ (λ (q : Prepare). Authentic s (prepares_of net) (prepare_ballot q)) cert.prepare
          Authentic-prep ok.prepares_from in
      (
        backers s.n_replicas digest s.view n cert,
        record {
          distinct = backers-Distinct digest idx cert ok;
          small = (
            grind arith,
            All-voters test (λ x. x < s.n_replicas) cert.prepare
                (All-map _ _ cert.prepare (λ q a. a.0) authentic),
          );
          quorum = omega (arith, enough, v.config.1, v.config.3, length-voters test cert.prepare);
          support = λ k m good. elim (Bool-cases (s.view % s.n_replicas == k)) [
            | inl lead ↦
                support_pre digest n k p (ground arith) (Authentic-pre p (ok.pre_from p has))
                  ((nat_beq_iff _ k).0 lead) good
            | inr other ↦
                let (q, me, passes, from) =
                  find_voter test (λ q. Authentic s (prepares_of net) (prepare_ballot q)) k
                    cert.prepare authentic (voter_of_backer _ k _ m other) in
                support_prep digest n k q (ballot_of_vote digest s.view n k q passes me) from
                  (ne_of_beq _ k other) good
          ];
        },
      )

Agree-Supports :
    (s : Setup) (net : Net) (d d' : String) (n k : ℕ)
    → IsValid (source_at s net k) (net k)
    → Supports s net d n k
    → Supports s net d' n k
    → d ≡ d'
Agree-Supports s net d d' n k v (inl a) (inl b) =
    Agree-In _ _ (pre_prepares_of net k) v.pre_prepares_one a.1 b.1 refl refl
Agree-Supports s net d d' n k v (inl a) (inr b) = absurd (b.0 (sym a.0))
Agree-Supports s net d d' n k v (inr a) (inl b) = absurd (a.0 (sym b.0))
Agree-Supports s net d d' n k v (inr a) (inr b) =
    Agree-In _ _ (prepares_of net k) v.prepares_one a.1 b.1 refl refl

-- In every state that a network reaches from a valid one, however its messages are ordered, lost or repeated and
-- whatever its faulty replicas send, two correct replicas whose `prepared` test passes in the view
-- for one sequence number have the same digest, if at most `f` replicas are faulty.
pub prepared_agree :
    (s : Setup) (start net : Net) (i j n : ℕ) (d d' : String)
    → count_below s.bad s.n_replicas ≤ s.f
    → NetIsValid s start
    → Reach s start net
    → i < s.n_replicas
    → j < s.n_replicas
    → s.bad i ≡ false
    → s.bad j ≡ false
    → prepared d s.view n (net i) ≡ true
    → prepared d' s.view n (net j) ≡ true
    → d ≡ d'
unfolding intersection_quorum
prepared_agree s start net i j n d d' few valid reach lti ltj goodi goodj hi hj =
    let all = Reach-NetIsValid s valid reach in
    let vi = all i lti goodi in
    let (xs, left) = prepared-Backed s net i lti vi d n hi in
    let (ys, right) = prepared-Backed s net j ltj (all j ltj goodj) d' n hj in
    let (k, ltk, inx, iny, good) =
      quorum_intersection (s.n_replicas) s.f s.bad xs ys few left.distinct right.distinct left.small
        right.small left.quorum right.quorum in
    Agree-Supports s net d d' n k (all k ltk good) (left.support k inx good)
      (right.support k iny good)
