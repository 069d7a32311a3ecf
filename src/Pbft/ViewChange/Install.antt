-- ===== src/Pbft/ViewChange/Install.antt =====
-- What the pre-prepares of a new view leave in the certificates.
use client_sdk.Prelude.{
  ℕ, ◌≤◌, String, ◌≡◌, refl, sym, ◌∙◌, inl, inr, false, ◌&&◌, none, some, List, [], ◌∷◌, arith, ltb,
  ◌==◌, Map, lookup, insert, lookup-insert, KeysDistinct, Bool-cases, Option-cases, nat_eq,
  nat_beq_iff, if◌then◌else◌,
}
use client_sdk.Pbft.Messages.{PrePrepare}
use client_sdk.Pbft.State.{PbftCore, MsgId, MsgCert, msg_id_eq, get_cert, set_cert, empty_cert}
use client_sdk.Pbft.ViewChange.{install_pre_prepares}

-- The certificate of `n` in the current view has the pre-prepare of the digest `d`, and proposals
-- go on above `n`.
abbrev pub Installed : ℕ → String → PbftCore → Type 0
Installed n d c =
    (cert : MsgCert) × (p : PrePrepare) × (lookup (record { v = c.view; n = n }) c.cert_store
      ≡ some cert)
    × (cert.pre_prepare ≡ some p)
    × (p.view ≡ c.view)
    × (p.sequence_number ≡ n)
    × (p.request_digest ≡ d)
    × (n ≤ c.seq_no)

-- One round of the loop.
install_one : ℕ → String → PbftCore → PbftCore
install_one n d c =
    let preprep : PrePrepare = record {
      view = c.view;
      sequence_number = n;
      request_digest = d;
      request = none;
      replica_id = c.id;
    } in
    let (cert, c') = get_cert c.view n c in
    let c'' = set_cert c.view n (record cert { pre_prepare = some preprep }) c' in
    if ltb c''.seq_no n then record c'' { seq_no = n } else c''

install_pre_prepares-cons :
    (n : ℕ) (d : String) (rest : List (ℕ × String)) (c : PbftCore)
    → install_pre_prepares ((n, d) ∷ rest) c ≡ install_pre_prepares rest (install_one n d c)
unfolding install_pre_prepares install_one
install_pre_prepares-cons n d rest c = refl

lookup-get_cert_other :
    (v n : ℕ) (c : PbftCore) (idx : MsgId)
    → ((v == idx.v) && (n == idx.n)) ≡ false
    → lookup idx (get_cert v n c).1.cert_store ≡ lookup idx c.cert_store
unfolding get_cert
lookup-get_cert_other v n c idx other =
    elim (Option-cases (lookup (record { v = v; n = n }) c.cert_store)) [
      | inl missing ↦
          ground
            (arith, missing, lookup-insert (record { v = v; n = n }) idx empty_cert c.cert_store)
      | inr (cert, found) ↦ ground (arith, found)
    ]

module _ (n : ℕ) (d : String) (c : PbftCore) where
  installed_cert : MsgCert
  installed_cert = record (get_cert c.view n c).0 {
    pre_prepare = some (record {
      view = c.view;
      sequence_number = n;
      request_digest = d;
      request = none;
      replica_id = c.id;
    });
  }

  install_one-parts :
      ((install_one n d c).view ≡ c.view)
      × ((install_one n d c).cert_store
          ≡ insert (record { v = c.view; n = n }) installed_cert (get_cert c.view n c).1.cert_store)
      × (n ≤ (install_one n d c).seq_no)
      × (c.seq_no ≤ (install_one n d c).seq_no)
  unfolding install_one get_cert set_cert installed_cert
  install_one-parts = elim (Option-cases (lookup (record { v = c.view; n = n }) c.cert_store)) [
    | inl missing ↦ ground (arith, missing)
    | inr (cert, found) ↦ ground (arith, found)
  ]

  lookup-install_one :
      (idx : MsgId)
      → lookup idx (install_one n d c).cert_store ≡ (
          if (c.view == idx.v) && (n == idx.n)
          then some installed_cert
          else lookup idx c.cert_store)
  lookup-install_one idx = rw install_one-parts.1 (
      lookup-insert (record { v = c.view; n = n }) idx installed_cert
        (get_cert c.view n c).1.cert_store
      ∙ elim (Bool-cases ((c.view == idx.v) && (n == idx.n))) [
        | inl here ↦ rw here refl
        | inr other ↦ rw other (lookup-get_cert_other c.view n c idx other)
      ])

  Installed-one : Installed n d (install_one n d c)
  unfolding installed_cert
  Installed-one =
      let parts = install_one-parts in
      (
        installed_cert,
        _,
        rw parts.0 (ground (arith, lookup-install_one (record { v = c.view; n = n }))),
        refl,
        sym parts.0,
        refl,
        refl,
        parts.2,
      )

  -- A round for another number keeps what is installed.
  Installed-another :
      (m : ℕ) (e : String) → (n == m) ≡ false → Installed m e c → Installed m e (install_one n d c)
  Installed-another m e other (cert, p, found, has, view, number, digest, low) =
      let parts = install_one-parts in
      (
        cert,
        p,
        rw parts.0
            (ground (arith, lookup-install_one (record { v = c.view; n = m }), found, other)),
        has,
        view ∙ sym parts.0,
        number,
        digest,
        omega (arith, low, parts.3),
      )

Installed-kept :
    (rest : Map ℕ String) (n : ℕ) (d : String) (c : PbftCore)
    → lookup n rest ≡ none
    → Installed n d c
    → Installed n d (install_pre_prepares rest c)
unfolding install_pre_prepares lookup
Installed-kept [] n d c new here = here
Installed-kept ((m, e) ∷ rest) n d c new here =
    let other : (m == n) ≡ false = ground (arith, new) in
    rw (install_pre_prepares-cons m e rest c) (
      Installed-kept rest n d (install_one m e c) (ground (arith, new, other))
        (Installed-another m e c n d other here))

-- After the loop over an assignment without repeated numbers, the certificate of each of its
-- numbers in the current view has the pre-prepare of its digest, and proposals go on above.
pub install_pre_prepares-Installed :
    (xset : Map ℕ String) (c : PbftCore) (n : ℕ) (d : String)
    → KeysDistinct xset
    → lookup n xset ≡ some d
    → Installed n d (install_pre_prepares xset c)
unfolding install_pre_prepares lookup
install_pre_prepares-Installed [] c n d distinct found = absurd (cc found)
install_pre_prepares-Installed ((m, e) ∷ rest) c n d distinct found =
    rw (install_pre_prepares-cons m e rest c) (elim (Bool-cases (m == n)) [
      | inl here ↦
          let q : m ≡ n = (nat_beq_iff m n).0 here in
          let is : e ≡ d = ground (arith, found, here) in
          rw (← q, ← is)
            (Installed-kept rest m e (install_one m e c) distinct.0 (Installed-one m e c))
      | inr other ↦
          install_pre_prepares-Installed rest (install_one m e c) n d distinct.1
            (ground (arith, found, other))
    ])
