-- ===== src/Pbft/ViewChange/Entries.antt =====
-- The entries of the P set that a replica sends when it leaves its view.
use client_sdk.Prelude.{
  ℕ, ◌≤◌, add64, delete, String, ◌≡◌, ◌⊎◌, refl, sym, ◌∙◌, subst, inl, inr, true, false, some, List,
  [], ◌∷◌, arith, ◌==◌, Map, lookup, insert, lookup-insert, Bool-cases, Option-cases, nat_eq,
  nat_beq_iff, string_eq,
}
use client_sdk.Pbft.Messages.{PrePrepare, ViewChangePq}
use client_sdk.Pbft.State.{PbftCore, MsgId, MsgCert, msg_id_eq, stop_timer}
use client_sdk.Pbft.Quorum.{prepared, in_pset}
use client_sdk.Pbft.Leave.{
  collect_prepared, collect_pset, collect_pre_prepared, collect_qset, enter_next_view, entries_of,
}
use client_sdk.Pbft.ViewChange.Sets.{
  SamePrepared, SamePrepared-collect_prepared, Collected, left, entered, Collected-collect_prepared,
  prepared-another_pset, collect_pset-Covers,
}

-- An entry for a number that was in the P set before, or of what was prepared.
pub data IsSound (start : PbftCore) (n : ℕ) (q : ViewChangePq) : Type 0 where
  kept : lookup n start.pset ≡ some q → IsSound start n q
  new : q.sequence_number ≡ n → prepared q.digest q.view n start ≡ true → IsSound start n q

abbrev AllSound : PbftCore → PbftCore → Type 0
AllSound start c = (n : ℕ) (q : ViewChangePq) → lookup n c.pset ≡ some q → IsSound start n q

in_pset-entry :
    (digest : String) (v n : ℕ) (c : PbftCore)
    → in_pset digest v n c ≡ true
    → (q : ViewChangePq) × (lookup n c.pset ≡ some q) × (q.view ≡ v) × (q.digest ≡ digest)
unfolding in_pset
in_pset-entry digest v n c h = elim (Option-cases (lookup n c.pset)) [
  | inl missing ↦ absurd (ground (arith, missing))
  | inr (q, found) ↦ (
    q,
    found,
    ground (arith, found),
    (string_eq.same_iff q.digest digest).0 (ground (arith, found)),
  )
]

in_pset-found :
    (n : ℕ) (q : ViewChangePq) (c : PbftCore)
    → lookup n c.pset ≡ some q
    → in_pset q.digest q.view n c ≡ true
unfolding in_pset
in_pset-found n q c found =
    let itself : (q.digest == q.digest) ≡ true = (string_eq.same_iff q.digest q.digest).1 refl in
    ground (arith, found, itself)

module _ (start : PbftCore) where
  prepared_back :
      (digest : String) (v n : ℕ) (c : PbftCore)
      → SamePrepared start c
      → prepared digest v n c ≡ true
      → (in_pset digest v n c ≡ false) ⊎ (in_pset digest v n start ≡ true)
      → prepared digest v n start ≡ true
  unfolding SamePrepared in_pset
  prepared_back digest v n c same done how =
      prepared-another_pset digest v n (record start { pset = c.pset }) start
        (refl, refl, refl, refl, refl) (subst (λ x. prepared digest v n x ≡ true) same done) how

  -- What is prepared while the set is collected was prepared at the start.
  prepared_at_start :
      (digest : String) (v n : ℕ) (c : PbftCore)
      → SamePrepared start c
      → AllSound start c
      → prepared digest v n c ≡ true
      → prepared digest v n start ≡ true
  prepared_at_start digest v n c same sound done = elim (Bool-cases (in_pset digest v n c)) [
    | inr fresh ↦ prepared_back digest v n c same done (inl fresh)
    | inl had ↦
        let (q, found, view, d) = in_pset-entry digest v n c had in
        elim (sound n q found) [
          | kept old ↦ prepared_back digest v n c same done (
              inr (
                subst (λ x. in_pset x v n start ≡ true) d
                  (subst (λ x. in_pset q.digest x n start ≡ true) view
                    (in_pset-found n q start old))))
          | new number was ↦
              subst (λ x. prepared x v n start ≡ true) d
                (subst (λ x. prepared q.digest x n start ≡ true) view was)
        ]
  ]

  Collected-AllSound :
      (idx : MsgId) (c c' : PbftCore)
      → Collected idx c c'
      → SamePrepared start c
      → AllSound start c
      → AllSound start c'
  Collected-AllSound idx c c' (left is) same sound n q found =
      sound n q (subst (λ (x : PbftCore). lookup n x.pset ≡ some q) is found)
  Collected-AllSound idx c c' (entered entry view numbered done newer is) same sound n q found =
      let after : lookup n (insert idx.n entry c.pset) ≡ some q =
        subst (λ (x : PbftCore). lookup n x.pset ≡ some q) is found in
      let read = lookup-insert idx.n n entry c.pset in
      elim (Bool-cases (idx.n == n)) [
        | inr other ↦ sound n q (ground (arith, read, other, after))
        | inl here ↦
            let number : idx.n ≡ n = (nat_beq_iff idx.n n).0 here in
            let this : entry ≡ q = ground (arith, read, here, after) in
            subst (IsSound start n) this (
              new (numbered ∙ number) (
                subst (λ m. prepared entry.digest entry.view m start ≡ true) number
                  (prepared_at_start entry.digest entry.view idx.n c same sound done)))
      ]

  collect_pset-AllSound :
      (certs : Map MsgId MsgCert) (c : PbftCore)
      → SamePrepared start c
      → AllSound start c
      → AllSound start (collect_pset certs c)
  unfolding collect_pset
  collect_pset-AllSound [] c same sound = sound
  collect_pset-AllSound ((idx, cert) ∷ rest) c same sound =
      collect_pset-AllSound rest (collect_prepared idx cert c)
        (SamePrepared-collect_prepared idx cert start c same)
        (Collected-AllSound idx c (collect_prepared idx cert c)
          (Collected-collect_prepared idx cert c) same sound)

pset-collect_qset :
    (certs : Map MsgId MsgCert) (c : PbftCore) → (collect_qset certs c).pset ≡ c.pset
unfolding collect_qset collect_pre_prepared
pset-collect_qset [] c = refl
pset-collect_qset ((idx, cert) ∷ rest) c =
    ground (arith, pset-collect_qset rest (collect_pre_prepared idx cert c))

-- The list holds the entry.
abbrev pub Lists : ViewChangePq → List ViewChangePq → Type 0
Lists q [] = ⊥
Lists q (x ∷ xs) = (x ≡ q) ⊎ Lists q xs

Lists-entries_of :
    (n : ℕ) (q : ViewChangePq) (m : Map ℕ ViewChangePq)
    → lookup n m ≡ some q
    → Lists q (entries_of m)
unfolding lookup entries_of
Lists-entries_of n q [] found = absurd (cc found)
Lists-entries_of n q ((k, x) ∷ rest) found = elim (Bool-cases (k == n)) [
  | inl here ↦ inl (ground (arith, here, found))
  | inr other ↦ inr (Lists-entries_of n q rest (ground (arith, other, found)))
]

-- The P set has an entry for the number, from the view or a later one, and that entry is one that
-- was there before, or it has the number and a digest that was prepared for it in its view.
pub record IsSent (c sender : PbftCore) (v n : ℕ) : Type 0 where
  pub entry : ViewChangePq
  pub sent : Lists entry (entries_of sender.pset)
  pub late : v ≤ entry.view
  pub sound : IsSound c n entry

-- A replica that leaves its view has, in the P set that it sends, an entry for the number of each
-- certificate that was prepared, from the view of the certificate or a later one. The entry stood
-- in the P set before, or it has this number and a digest that was prepared for it in the view of
-- the entry.
pub enter_next_view-IsSent :
    (c : PbftCore) (idx : MsgId) (cert : MsgCert) (p : PrePrepare)
    → lookup idx c.cert_store ≡ some cert
    → cert.pre_prepare ≡ some p
    → prepared p.request_digest idx.v idx.n c ≡ true
    → IsSent c (enter_next_view c) idx.v idx.n
unfolding enter_next_view stop_timer in_pset SamePrepared
enter_next_view-IsSent c idx cert p found has done =
    let stopped = stop_timer c in
    let next : PbftCore = record stopped {
      new_view_store = delete stopped.view stopped.new_view_store;
      view = add64 stopped.view 1;
      active_view = false;
    } in
    let collected = collect_pset next.cert_store next in
    let (q, there, late) =
      collect_pset-Covers next next.cert_store next idx cert p refl (λ v n h. h) found has
        (prepared-another_pset p.request_digest idx.v idx.n c next (refl, refl, refl, refl, refl)
          done
          (elim (Bool-cases (in_pset p.request_digest idx.v idx.n c)) [
            | inl had ↦ inr had
            | inr fresh ↦ inl fresh
          ])) in
    let from =
      collect_pset-AllSound next next.cert_store next refl (λ n x old. kept old) idx.n q there in
    record {
      entry = q;
      sent =
          subst (λ m. Lists q (entries_of m)) (sym (pset-collect_qset next.cert_store collected))
            (Lists-entries_of idx.n q collected.pset there);
      late = late;
      sound = elim from [
        | kept old ↦ kept old
        | new number was ↦ new number (
            prepared-another_pset q.digest q.view idx.n next c (refl, refl, refl, refl, refl) was
              (elim (Bool-cases (in_pset q.digest q.view idx.n c)) [
                | inl had ↦ inr had
                | inr fresh ↦ inl fresh
              ]))
      ];
    }
