-- ===== src/Pbft/ViewChange/Sets.antt =====
-- The P set of a view change, and what has prepared.
use client_sdk.Prelude.{
  ℕ, ◌≤◌, ◌-◌, ◌||◌, string_eq, String, ◌≡◌, ◌⊎◌, refl, sym, ◌∙◌, subst, inl, inr, Bool, true,
  false, ◌&&◌, none, some, [], ◌∷◌, arith, ltb, leb, ◌==◌, count, Map, lookup, insert,
  lookup-insert, Bool-cases, Option-cases, nat_eq, nat_beq_iff,
}
use client_sdk.Pbft.Messages.{PrePrepare, ViewChangePq}
use client_sdk.Pbft.State.{PbftCore, MsgId, MsgCert, msg_id_eq, msg_id_beq_iff}
use client_sdk.Pbft.Quorum.{
  prepared, pre_prepared, in_pset, in_qset, prepare_matches, intersection_quorum,
}
use client_sdk.Pbft.Leave.{collect_prepared, collect_pset}

-- The P set has an entry for the number from the view or a later one.
abbrev pub Covers : ℕ → ℕ → PbftCore → Type 0
Covers v n c = (q : ViewChangePq) × (lookup n c.pset ≡ some q) × (v ≤ q.view)

-- A round changes the P set only.
unfoldable pub SamePrepared : PbftCore → PbftCore → Type 0
SamePrepared c c' = c' ≡ record c { pset = c'.pset }

pub SamePrepared-collect_prepared :
    (idx : MsgId) (cert : MsgCert) (c c' : PbftCore)
    → SamePrepared c c'
    → SamePrepared c (collect_prepared idx cert c')
unfolding SamePrepared collect_prepared
SamePrepared-collect_prepared idx cert c c' same = ground arith

Covers-insert :
    (v n m : ℕ) (entry : ViewChangePq) (c : PbftCore)
    → ((q : ViewChangePq) → m ≡ n → lookup n c.pset ≡ some q → q.view ≤ entry.view)
    → Covers v n c
    → Covers v n (record c { pset = insert m entry c.pset })
Covers-insert v n m entry c newer (q, found, low) = elim (Bool-cases (m == n)) [
  | inl here ↦ (
    entry,
    ground (arith, lookup-insert m n entry c.pset),
    omega (arith, low, newer q ((nat_beq_iff m n).0 here) found),
  )
  | inr other ↦ (q, ground (arith, lookup-insert m n entry c.pset), low)
]

-- A round leaves the state, or enters its certificate over an older entry.
pub data Collected (idx : MsgId) (c c' : PbftCore) : Type 0 where
  left : c' ≡ c → Collected idx c c'
  entered :
      (entry : ViewChangePq)
      → entry.view ≡ idx.v
      → entry.sequence_number ≡ idx.n
      → prepared entry.digest entry.view idx.n c ≡ true
      → ((q : ViewChangePq) → lookup idx.n c.pset ≡ some q → q.view ≤ idx.v)
      → c' ≡ record c { pset = insert idx.n entry c.pset }
      → Collected idx c c'

pub Collected-collect_prepared :
    (idx : MsgId) (cert : MsgCert) (c : PbftCore) → Collected idx c (collect_prepared idx cert c)
unfolding collect_prepared
Collected-collect_prepared idx cert c = elim (Option-cases cert.pre_prepare) [
  | inl missing ↦ left (ground (arith, missing))
  | inr (p, has) ↦ elim (Bool-cases (prepared p.request_digest idx.v idx.n c)) [
    | inr not_yet ↦ left (ground (arith, has, not_yet))
    | inl done ↦
        let entry : ViewChangePq = record {
          sequence_number = idx.n;
          digest = p.request_digest;
          view = idx.v;
        } in
        elim (Option-cases (lookup idx.n c.pset)) [
          | inl new ↦
              entered entry refl refl done (λ q found. absurd (cc (sym new ∙ found)))
                (ground (arith, has, done, new))
          | inr (old, was) ↦ elim (Bool-cases (ltb idx.v old.view)) [
            | inl later ↦ left (ground (arith, has, done, was, later))
            | inr older ↦
                entered entry refl refl done (λ q found. ground (arith, older, sym was ∙ found))
                  (ground (arith, has, done, was, older))
          ]
        ]
  ]
]

Covers-Collected :
    (v n : ℕ) (idx : MsgId) (c c' : PbftCore) → Collected idx c c' → Covers v n c → Covers v n c'
Covers-Collected v n idx c c' (left same) h = rw same h
Covers-Collected v n idx c c' (entered entry view numbered done newer same) h =
    rw same (Covers-insert v n idx.n entry c (λ q here found. rw view (newer q (rw here found))) h)

Covers-collect_pset :
    (v n : ℕ) (certs : Map MsgId MsgCert) (c : PbftCore)
    → Covers v n c
    → Covers v n (collect_pset certs c)
unfolding collect_pset
Covers-collect_pset v n [] c h = h
Covers-collect_pset v n ((idx, cert) ∷ rest) c h =
    Covers-collect_pset v n rest (collect_prepared idx cert c) (
      Covers-Collected v n idx c (collect_prepared idx cert c)
        (Collected-collect_prepared idx cert c) h)

-- The round of a prepared certificate covers it.
Covers-collect_prepared :
    (idx : MsgId) (cert : MsgCert) (p : PrePrepare) (c : PbftCore)
    → cert.pre_prepare ≡ some p
    → prepared p.request_digest idx.v idx.n c ≡ true
    → Covers idx.v idx.n (collect_prepared idx cert c)
unfolding collect_prepared
Covers-collect_prepared idx cert p c has done =
    let entry : ViewChangePq = record {
      sequence_number = idx.n;
      digest = p.request_digest;
      view = idx.v;
    } in
    let entered_now : Covers idx.v idx.n (record c { pset = insert idx.n entry c.pset }) =
      (entry, ground (arith, lookup-insert idx.n idx.n entry c.pset), omega arith) in
    elim (Option-cases (lookup idx.n c.pset)) [
      | inl new ↦
          let same : collect_prepared idx cert c ≡ record c { pset = insert idx.n entry c.pset } =
            ground (arith, has, done, new) in
          rw same entered_now
      | inr (old, was) ↦ elim (Bool-cases (ltb idx.v old.view)) [
        | inl later ↦
            let same : collect_prepared idx cert c ≡ c = ground (arith, has, done, was, later) in
            rw same (old, was, ground arith)
        | inr older ↦
            let same : collect_prepared idx cert c ≡ record c { pset = insert idx.n entry c.pset } =
              ground (arith, has, done, was, older) in
            rw same entered_now
      ]
    ]

Covers-in_pset :
    (digest : String) (v n : ℕ) (c : PbftCore) → in_pset digest v n c ≡ true → Covers v n c
unfolding in_pset
Covers-in_pset digest v n c h = elim (Option-cases (lookup n c.pset)) [
  | inl missing ↦ absurd (ground (arith, missing))
  | inr (q, found) ↦ (q, found, ground (arith, found))
]

has_prepares : String → ℕ → ℕ → PbftCore → Bool
has_prepares digest v n c = elim (lookup (record { v = v; n = n }) c.cert_store) [
  | none ↦ false
  | some cert ↦ leb (intersection_quorum c - 1) (count (prepare_matches digest v n) cert.prepare)
]

prepared-parts :
    (digest : String) (v n : ℕ) (c : PbftCore)
    → prepared digest v n c
      ≡ (pre_prepared digest v n c && (in_pset digest v n c || has_prepares digest v n c))
unfolding prepared has_prepares
prepared-parts digest v n c = ground arith

-- Neither of the other two tests reads the P set, the view or the timer.
module _ (digest : String) (v n : ℕ) (c c' : PbftCore) where
  pub prepared-another_pset :
      (c'.req_store ≡ c.req_store)
        × (c'.qset ≡ c.qset)
        × (c'.cert_store ≡ c.cert_store)
        × (c'.n_replicas ≡ c.n_replicas)
        × (c'.f ≡ c.f)
      → prepared digest v n c ≡ true
      → (in_pset digest v n c ≡ false) ⊎ (in_pset digest v n c' ≡ true)
      → prepared digest v n c' ≡ true
  unfolding pre_prepared in_qset has_prepares intersection_quorum
  prepared-another_pset (reqs, qset, certs, replicas, f) done new =
      let pre : pre_prepared digest v n c' ≡ pre_prepared digest v n c =
        rw (reqs, qset, certs) refl in
      let votes : has_prepares digest v n c' ≡ has_prepares digest v n c =
        rw (certs, replicas, f) refl in
      ground (arith, prepared-parts digest v n c, prepared-parts digest v n c', pre, votes)

-- What was prepared before some rounds is prepared after them, or the P set had its entry.
prepared_before :
    (digest : String) (v n : ℕ) (c c' : PbftCore)
    → SamePrepared c c'
    → prepared digest v n c ≡ true
    → (prepared digest v n c' ≡ true) ⊎ Covers v n c
unfolding SamePrepared
prepared_before digest v n c c' same done = elim (Bool-cases (in_pset digest v n c)) [
  | inl had ↦ inr (Covers-in_pset digest v n c had)
  | inr new ↦ inl (
      subst (λ x. prepared digest v n x ≡ true) (sym same)
        (prepared-another_pset digest v n c (record c { pset = c'.pset })
          (refl, refl, refl, refl, refl) done (inl new)))
]

-- After the rounds of a list of certificates, each of them that was prepared at their start is
-- covered.
pub collect_pset-Covers :
    (start : PbftCore) (certs : Map MsgId MsgCert) (c : PbftCore) (idx : MsgId) (cert : MsgCert)
    (p : PrePrepare)
    → SamePrepared start c
    → ((v n : ℕ) → Covers v n start → Covers v n c)
    → lookup idx certs ≡ some cert
    → cert.pre_prepare ≡ some p
    → prepared p.request_digest idx.v idx.n start ≡ true
    → Covers idx.v idx.n (collect_pset certs c)
unfolding collect_pset lookup
collect_pset-Covers start [] c idx cert p same kept found has done = absurd (cc found)
collect_pset-Covers start ((idx', cert') ∷ rest) c idx cert p same kept found has done =
    let after = collect_prepared idx' cert' c in
    elim (Bool-cases ((idx'.v == idx.v) && (idx'.n == idx.n))) [
      | inl here ↦
          let q : idx' ≡ idx = (msg_id_beq_iff idx' idx).0 here in
          let is : cert' ≡ cert = ground (arith, found, here) in
          Covers-collect_pset idx.v idx.n rest after
            (elim (prepared_before p.request_digest idx.v idx.n start c same done) [
              | inl still ↦ rw (q, is) (Covers-collect_prepared idx cert p c has still)
              | inr had ↦
                  Covers-Collected idx.v idx.n idx' c after
                    (Collected-collect_prepared idx' cert' c) (kept idx.v idx.n had)
            ])
      | inr other ↦
          collect_pset-Covers start rest after idx cert p
            (SamePrepared-collect_prepared idx' cert' start c same)
            (λ v n h.
              Covers-Collected v n idx' c after (Collected-collect_prepared idx' cert' c)
                (kept v n h))
            (ground (arith, found, other)) has done
    ]
