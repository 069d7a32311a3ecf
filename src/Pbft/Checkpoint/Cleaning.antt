-- ===== src/Pbft/Checkpoint/Cleaning.antt =====
-- What `moveWatermarks` leaves of the logs, and that the invariant survives it.
use client_sdk.Prelude.{
  ℕ, ◌+◌, ◌^◌, ◌≤◌, ◌<◌, String, ◌≡◌, refl, sym, ap, ◌∙◌, Bool, true, false, not, ◌&&◌, ◌||◌, any,
  Map, delete, lookup-delete, Option, none, some, List, [], ◌∷◌, arith, inl, inr, leb, ltb, lookup,
  lookup-keep_entries, nat_eq, All-map, Option-cases, Bool-cases, keys, string_eq, ◌==◌,
  if◌then◌else◌,
}
use client_sdk.Pbft.Messages.{Checkpoint, PrePrepare, Request}
use client_sdk.Pbft.State.{PbftCore, Env, MsgId, MsgCert, QIdx, msg_id_eq, qidx_eq, checkpoint_eq}
use client_sdk.Pbft.Receive.Sent.{Ballot, sent_prepares, sent_commits}
use client_sdk.Pbft.Receive.Invariant.{Source, IsValid, Recorded, sent_prepare_at, sent_commit_at}
use client_sdk.Pbft.Quorum.{primary}
use client_sdk.Pbft.Receive.Invariant.Requests.{recv_request-IsValid}
use client_sdk.Pbft.Checkpoint.{
  clean_requests, clean_logs, has_pre_prepare, resubmit_request, resubmit_each, resubmit_requests,
  move_watermarks,
}

-- Some certificate at or below `h` has a pre-prepare of this digest.
abbrev pub is_covered : ℕ → String → Map MsgId MsgCert → Bool
is_covered h digest certs =
    any
      (λ (e : MsgId × MsgCert).
        leb e.0.n h && elim e.1.pre_prepare [ none ↦ false | some p ↦ p.request_digest == digest ])
      certs

delete_if :
    (low : Bool) (pre_prepare : Option PrePrepare) (digest : String) (reqs : Map String Request)
    → lookup digest (
        if low
        then elim pre_prepare [ none ↦ reqs | some p ↦ delete p.request_digest reqs ]
        else reqs)
      ≡ (if low && elim pre_prepare [ none ↦ false | some p ↦ p.request_digest == digest ]
          then none
          else lookup digest reqs)
delete_if false pre_prepare digest reqs = refl
delete_if true none digest reqs = refl
delete_if true (some p) digest reqs = lookup-delete p.request_digest digest reqs

if_or :
    {A : Type 0} (a b : Bool) (x : Option A)
    → (if b then none else if a then none else x) ≡ (if a || b then none else x)
if_or true true x = refl
if_or true false x = refl
if_or false true x = refl
if_or false false x = refl

lookup-clean_requests :
    (h : ℕ) (digest : String) (certs : Map MsgId MsgCert) (reqs : Map String Request)
    → lookup digest (clean_requests h certs reqs)
      ≡ (if is_covered h digest certs then none else lookup digest reqs)
unfolding clean_requests
lookup-clean_requests h digest [] reqs = refl
lookup-clean_requests h digest ((idx, cert) ∷ rest) reqs =
    lookup-clean_requests h digest rest _
    ∙ ap (λ x. if is_covered h digest rest then none else x)
        (delete_if (leb idx.n h) cert.pre_prepare digest reqs)
    ∙ if_or _ (is_covered h digest rest) (lookup digest reqs)

module _ (h : ℕ) (c : PbftCore) where
  lookup-clean_certs :
      (idx : MsgId)
      → lookup idx (clean_logs h c).cert_store
        ≡ (if not (leb idx.n h) then lookup idx c.cert_store else none)
  unfolding clean_logs
  lookup-clean_certs idx = lookup-keep_entries (λ i. not (leb i.n h)) idx c.cert_store

  -- The clean-up of `moveWatermarks` sets the low watermark. It forgets what is at or below it in
  -- the stores of certificates and checkpoints and in the P and Q sets, and what is below it in the
  -- replica's own checkpoints, and keeps all that is above. Of the stored requests it forgets
  -- exactly those whose digest is in the pre-prepare of a certificate that is forgotten.
  pub lookup-clean_logs :
      (idx : MsgId) (chkpt : Checkpoint) (n : ℕ) (q : QIdx) (digest : String)
      → ((clean_logs h c).h ≡ h)
        × (lookup idx (clean_logs h c).cert_store
            ≡ (if not (leb idx.n h) then lookup idx c.cert_store else none))
        × (lookup digest (clean_logs h c).req_store
            ≡ (if is_covered h digest c.cert_store then none else lookup digest c.req_store))
        × (lookup chkpt (clean_logs h c).checkpoint_store
            ≡ (if not (leb chkpt.sequence_number h) then lookup chkpt c.checkpoint_store else none))
        × (lookup n (clean_logs h c).pset ≡ (if not (leb n h) then lookup n c.pset else none))
        × (lookup q (clean_logs h c).qset ≡ (if not (leb q.n h) then lookup q c.qset else none))
        × (lookup n (clean_logs h c).chkpts ≡ (if not (ltb n h) then lookup n c.chkpts else none))
  unfolding clean_logs
  lookup-clean_logs idx chkpt n q digest = (
    refl,
    lookup-clean_certs idx,
    lookup-clean_requests h digest c.cert_store c.req_store,
    lookup-keep_entries (λ (t : Checkpoint). not (leb t.sequence_number h)) chkpt
        c.checkpoint_store,
    lookup-keep_entries (λ i. not (leb i h)) n c.pset,
    lookup-keep_entries (λ (i : QIdx). not (leb i.n h)) q c.qset,
    lookup-keep_entries (λ i. not (ltb i h)) n c.chkpts,
  )

  Recorded-prepare :
      c.h ≤ h
      → (b : Ballot) → Recorded sent_prepare_at c b
      → Recorded sent_prepare_at (clean_logs h c) b
  unfolding sent_prepare_at clean_logs
  Recorded-prepare up b (inl low) = inl (omega (arith, low, up))
  Recorded-prepare up b (inr flag) = elim (Bool-cases (leb b.number h)) [
    | inl low ↦ inl (ground arith)
    | inr high ↦
        inr (ground (arith, lookup-clean_certs (record { v = b.view; n = b.number }), flag))
  ]

  Recorded-commit :
      c.h ≤ h
      → (b : Ballot) → Recorded sent_commit_at c b
      → Recorded sent_commit_at (clean_logs h c) b
  unfolding sent_commit_at clean_logs
  Recorded-commit up b (inl low) = inl (omega (arith, low, up))
  Recorded-commit up b (inr flag) = elim (Bool-cases (leb b.number h)) [
    | inl low ↦ inl (ground arith)
    | inr high ↦
        inr (ground (arith, lookup-clean_certs (record { v = b.view; n = b.number }), flag))
  ]

  some_of_kept :
      {A : Type 0} (b : Bool) (o : Option A) (a : A) → (if b then o else none) ≡ some a → o ≡ some a
  some_of_kept true o a e = e
  some_of_kept false o a e = absurd (cc e)

  -- The invariant of a replica survives the clean-up, if the watermark does not fall and the log
  -- still ends below 2 ^ 64.
  pub clean_logs-IsValid :
      {src : Source} → c.h ≤ h → h + c.l < 2 ^ 64 → IsValid src c → IsValid src (clean_logs h c)
  unfolding clean_logs
  clean_logs-IsValid up fits valid = record {
    fits = fits;
    config = valid.config;
    kept_pre_prepares = valid.kept_pre_prepares;
    kept_prepares = valid.kept_prepares;
    exec_small = valid.exec_small;
    seq_small = valid.seq_small;
    certs = λ idx cert found.
        valid.certs idx cert (some_of_kept _ _ cert (sym (lookup-clean_certs idx) ∙ found));
    pset_below = λ n p found.
        valid.pset_below n p
          (some_of_kept _ _ p (sym (lookup-keep_entries (λ i. not (leb i h)) n c.pset) ∙ found));
    qset_below = λ i q found. valid.qset_below i q (
        some_of_kept _ _ q
          (sym (lookup-keep_entries (λ (j : QIdx). not (leb j.n h)) i c.qset) ∙ found));
    pre_prepares_own = valid.pre_prepares_own;
    pre_prepares_below = valid.pre_prepares_below;
    pre_prepares_one = valid.pre_prepares_one;
    prepares_own = valid.prepares_own;
    prepares_recorded =
        All-map _ _ (sent_prepares c.outbox) (Recorded-prepare up) valid.prepares_recorded;
    prepares_one = valid.prepares_one;
    commits_own = valid.commits_own;
    commits_recorded =
        All-map _ _ (sent_commits c.outbox) (Recorded-commit up) valid.commits_recorded;
    commits_one = valid.commits_one;
    in_order = valid.in_order;
  }

resubmit_each-IsValid :
    {src : Source} (env : Env) (digests : List String) (c : PbftCore)
    → IsValid src c
    → IsValid src (resubmit_each env digests c)
unfolding resubmit_each resubmit_request
resubmit_each-IsValid env [] c valid = valid
resubmit_each-IsValid {src} env (digest ∷ rest) c valid =
    resubmit_each-IsValid env rest (resubmit_request env digest c)
      (elim (Option-cases (lookup digest c.outstanding_reqs)) [
        | inl gone ↦ rw (gone, resubmit_request) valid
        | inr (req, found) ↦ elim (Bool-cases (has_pre_prepare digest c.cert_store)) [
          | inl known ↦ rw (found, known, resubmit_request) valid
          | inr new ↦ rw (found, new, resubmit_request) (recv_request-IsValid env req c valid)
        ]
      ])

-- `moveWatermarks`, with the requests that the primary proposes again, keeps the invariant of a
-- replica, if the watermark does not fall and the log still ends below 2 ^ 64.
pub move_watermarks-IsValid :
    {src : Source} (env : Env) (h : ℕ) (c : PbftCore)
    → c.h ≤ h
    → h + c.l < 2 ^ 64
    → IsValid src c
    → IsValid src (move_watermarks env h c)
unfolding move_watermarks resubmit_requests
move_watermarks-IsValid env h c up fits valid =
    let clean : PbftCore = clean_logs h c in
    let kept = clean_logs-IsValid h c up fits valid in
    elim (Bool-cases (primary clean.view clean == clean.id)) [
      | inl lead ↦
          rw (lead, resubmit_requests)
            (resubmit_each-IsValid env (keys clean.outstanding_reqs) clean kept)
      | inr backup ↦ rw (backup, resubmit_requests) kept
    ]
