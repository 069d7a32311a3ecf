-- ===== src/Pbft/Agreement/Backers.antt =====
-- A replica whose test `prepared` passes holds the ballots of a quorum: the primary's pre-prepare
-- and the prepares of backups, each from another replica.
use client_sdk.Prelude.{
  ℕ, suc, ◌%◌, ◌≤◌, String, ◌≡◌, ◌≢◌, refl, inl, inr, Bool, true, false, some, List, [], ◌∷◌, arith,
  All, All-map, count, keep, length, ◌==◌, nat_eq, string_eq, string_beq_iff, Bool-cases,
  Option-cases, lookup,
}
use client_sdk.Pbft.Messages.{PrePrepare, Prepare}
use client_sdk.Pbft.State.{PbftCore, MsgId, MsgCert, msg_id_eq, qidx_eq}
use client_sdk.Pbft.Quorum.{
  intersection_quorum, in_qset, in_pset, pre_prepare_matches, pre_prepared, prepare_matches,
  prepared,
}
use client_sdk.Pbft.Quorum.Intersection.{mem, Distinct}
use client_sdk.Pbft.Receive.Invariant.{Source, CertIsValid, prepare_ids, IsValid}

module _ {src : Source} (digest : String) (v n : ℕ) (c : PbftCore) (valid : IsValid src c) where
  -- The P and Q sets are of earlier views.
  in_pset_current : v ≡ c.view → in_pset digest v n c ≡ false
  unfolding in_pset
  in_pset_current now = elim (Option-cases (lookup n c.pset)) [
    | inl missing ↦ rw (missing, in_pset) refl
    | inr (p, found) ↦ ground (arith, valid.pset_below n p found)
  ]

  in_qset_current : v ≡ c.view → in_qset digest v n c ≡ false
  unfolding in_qset
  in_qset_current now = elim (Option-cases (lookup (record { d = digest; n = n }) c.qset)) [
    | inl missing ↦ rw (missing, in_qset) refl
    | inr (q, found) ↦ ground (arith, valid.qset_below (record { d = digest; n = n }) q found)
  ]

  -- What the test reads in the certificate.
  pub prepared_parts :
      v ≡ c.view
      → prepared digest v n c ≡ true
      → (cert : MsgCert) × (p : PrePrepare) × (lookup (record { v = v; n = n }) c.cert_store
          ≡ some cert)
        × (cert.pre_prepare ≡ some p)
        × (p.request_digest ≡ digest)
        × (intersection_quorum c ≤ suc (count (prepare_matches digest v n) cert.prepare))
  unfolding prepared pre_prepared pre_prepare_matches
  prepared_parts now h = elim (Option-cases (lookup (record { v = v; n = n }) c.cert_store)) [
    | inl missing ↦ absurd (ground (arith, in_pset_current now, in_qset_current now))
    | inr (cert, found) ↦ elim (Option-cases cert.pre_prepare) [
      | inl none_yet ↦ absurd (ground (arith, in_pset_current now, in_qset_current now))
      | inr (p, has) ↦ (
        cert,
        p,
        found,
        has,
        ground (
          arith,
          in_pset_current now,
          in_qset_current now,
          string_beq_iff p.request_digest digest,
        ),
        ground (arith, in_pset_current now, in_qset_current now),
      )
    ]
  ]

-- The replicas whose prepares pass a test.
module _ (test : Prepare → Bool) where
  abbrev pub voters : List Prepare → List ℕ
  voters ps = prepare_ids (keep test ps)

  mem-voters :
      (k : ℕ) (ps : List Prepare) → mem k (prepare_ids ps) ≡ false → mem k (voters ps) ≡ false
  mem-voters k [] h = refl
  mem-voters k (p ∷ ps) h = ground (arith, mem-voters k ps)

  pub Distinct-voters : (ps : List Prepare) → Distinct (prepare_ids ps) → Distinct (voters ps)
  Distinct-voters [] d = tt
  Distinct-voters (p ∷ ps) d = elim (Bool-cases (test p)) [
    | inl yes_vote ↦ rw yes_vote (mem-voters p.replica_id ps d.0, Distinct-voters ps d.1)
    | inr no_vote ↦ rw no_vote (Distinct-voters ps d.1)
  ]

  pub length-voters : (ps : List Prepare) → length (voters ps) ≡ count test ps
  length-voters [] = refl
  length-voters (p ∷ ps) = ground (arith, length-voters ps)

  pub All-voters {ℓ} :
      (P : ℕ → Type ℓ) (ps : List Prepare) → All (λ p. P p.replica_id) ps → All P (voters ps)
  All-voters P [] h = tt
  All-voters P (p ∷ ps) h = elim (Bool-cases (test p)) [
    | inl yes_vote ↦ rw yes_vote (h.0, All-voters P ps h.1)
    | inr no_vote ↦ rw no_vote (All-voters P ps h.1)
  ]

  -- Behind each voter is a prepare that passes the test.
  pub find_voter {ℓ} :
      (P : Prepare → Type ℓ) (k : ℕ) (ps : List Prepare)
      → All P ps
      → mem k (voters ps) ≡ true
      → (p : Prepare) × (p.replica_id ≡ k) × (test p ≡ true) × P p
  find_voter P k [] h m = absurd (cc)
  find_voter P k (p ∷ ps) h m = elim (Bool-cases (test p)) [
    | inr no_vote ↦ find_voter P k ps h.1 (ground arith)
    | inl yes_vote ↦ elim (Bool-cases (p.replica_id == k)) [
      | inl here ↦ (p, ground arith, yes_vote, h.0)
      | inr later ↦ find_voter P k ps h.1 (ground arith)
    ]
  ]

-- The primary and the backups that voted for the digest.
abbrev pub backers : ℕ → String → ℕ → ℕ → MsgCert → List ℕ
backers replica_count digest v n cert =
    v % replica_count ∷ voters (prepare_matches digest v n) cert.prepare

not_voter :
    (r : ℕ) (ps : List Prepare)
    → All (λ (p : Prepare). r ≢ p.replica_id) ps
    → mem r (prepare_ids ps) ≡ false
not_voter r [] h = refl
not_voter r (p ∷ ps) h = let other = h.0 in ground (arith, not_voter r ps h.1)

pub backers-Distinct :
    {src : Source} {rc : ℕ} {ps bs : _} (digest : String) (idx : MsgId) (cert : MsgCert)
    → CertIsValid src rc ps bs idx cert
    → Distinct (backers rc digest idx.v idx.n cert)
backers-Distinct {rc = rc} digest idx cert ok = (
  mem-voters (prepare_matches digest idx.v idx.n) (idx.v % rc) cert.prepare
      (not_voter (idx.v % rc) cert.prepare (All-map _ _ cert.prepare (λ p h. h.2) ok.prepares)),
  Distinct-voters (prepare_matches digest idx.v idx.n) cert.prepare ok.prepares_distinct,
)
