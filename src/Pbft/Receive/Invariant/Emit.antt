-- ===== src/Pbft/Receive/Invariant/Emit.antt =====
-- Preservation of the invariant by the calls on the consumer that send a vote.
use client_sdk.Prelude.{
  ℕ, ◌≤◌, ◌<◌, ◌≡◌, inl, inr, Bool, true, false, List, ◌∷◌, arith, All, All-map,
}
use client_sdk.Pbft.Messages.{PrePrepare, Prepare, Commit, Message}
use client_sdk.Pbft.State.{PbftCore, emit, broadcast, nil_dereference}
use client_sdk.Pbft.Receive.Sent.{
  Ballot, sent_pre_prepares, sent_prepares, sent_commits, Agree, pre_prepare_ballot, prepare_ballot,
  commit_ballot,
}
use client_sdk.Pbft.Receive.Invariant.{
  Source, CertIsValid-more, IsValid, sent_prepare_at, sent_commit_at, Recorded,
}

-- A ballot whose flag is still down and whose number lies in the window has no ballot of its view
-- and number before it.
pub Agree-fresh :
    (flag : ℕ → ℕ → PbftCore → Bool) (c : PbftCore) (b : Ballot) (bs : List Ballot)
    → c.h < b.number
    → flag b.view b.number c ≡ false
    → All (Recorded flag c) bs
    → All (Agree b) bs
Agree-fresh flag c b bs above down = All-map _ _ bs (λ q r. agree q r)
  where
    agree : (q : Ballot) → Recorded flag c q → Agree b q
    agree q (inl low) = λ v n. absurd (omega arith)
    agree q (inr up) = λ v n. absurd (cc)

pub IsValid-emit_fault :
    {src : Source} (c : PbftCore) → IsValid src c → IsValid src (emit nil_dereference c)
unfolding emit sent_prepare_at sent_commit_at
IsValid-emit_fault c v = record {
  fits = v.fits;
  config = v.config;
  kept_pre_prepares = v.kept_pre_prepares;
  kept_prepares = v.kept_prepares;
  exec_small = v.exec_small;
  seq_small = v.seq_small;
  certs = v.certs;
  pset_below = v.pset_below;
  qset_below = v.qset_below;
  pre_prepares_own = v.pre_prepares_own;
  pre_prepares_below = v.pre_prepares_below;
  pre_prepares_one = v.pre_prepares_one;
  prepares_own = v.prepares_own;
  prepares_recorded = v.prepares_recorded;
  prepares_one = v.prepares_one;
  commits_own = v.commits_own;
  commits_recorded = v.commits_recorded;
  commits_one = v.commits_one;
  in_order = v.in_order;
}

pub IsValid-emit_prepare :
    {src : Source} (p : Prepare) (c : PbftCore)
    → p.replica_id ≡ c.id
    → sent_prepare_at p.view p.sequence_number c ≡ true
    → All (Agree (prepare_ballot p)) (sent_prepares c.outbox)
    → IsValid src c
    → IsValid src (emit (broadcast (Message.prepare p)) c)
unfolding emit sent_prepare_at sent_commit_at
IsValid-emit_prepare p c own flag one v =
    let pres = sent_pre_prepares c.outbox in
    let preps = sent_prepares c.outbox in
    record {
      fits = v.fits;
      config = v.config;
      kept_pre_prepares = v.kept_pre_prepares;
      kept_prepares = λ b i. inr (v.kept_prepares b i);
      exec_small = v.exec_small;
      seq_small = v.seq_small;
      certs = λ idx cert e.
          CertIsValid-more c.replica_count pres pres preps (prepare_ballot p ∷ preps) idx cert
            (λ b i. i) (λ b i. inr i) (v.certs idx cert e);
      pset_below = v.pset_below;
      qset_below = v.qset_below;
      pre_prepares_own = v.pre_prepares_own;
      pre_prepares_below = v.pre_prepares_below;
      pre_prepares_one = v.pre_prepares_one;
      prepares_own = (own, v.prepares_own);
      prepares_recorded = (inr flag, v.prepares_recorded);
      prepares_one = (one, v.prepares_one);
      commits_own = v.commits_own;
      commits_recorded = v.commits_recorded;
      commits_one = v.commits_one;
      in_order = v.in_order;
    }

pub IsValid-emit_commit :
    {src : Source} (p : Commit) (c : PbftCore)
    → p.replica_id ≡ c.id
    → sent_commit_at p.view p.sequence_number c ≡ true
    → All (Agree (commit_ballot p)) (sent_commits c.outbox)
    → IsValid src c
    → IsValid src (emit (broadcast (Message.commit p)) c)
unfolding emit sent_prepare_at sent_commit_at
IsValid-emit_commit p c own flag one v = record {
  fits = v.fits;
  config = v.config;
  kept_pre_prepares = v.kept_pre_prepares;
  kept_prepares = v.kept_prepares;
  exec_small = v.exec_small;
  seq_small = v.seq_small;
  certs = v.certs;
  pset_below = v.pset_below;
  qset_below = v.qset_below;
  pre_prepares_own = v.pre_prepares_own;
  pre_prepares_below = v.pre_prepares_below;
  pre_prepares_one = v.pre_prepares_one;
  prepares_own = v.prepares_own;
  prepares_recorded = v.prepares_recorded;
  prepares_one = v.prepares_one;
  commits_own = (own, v.commits_own);
  commits_recorded = (inr flag, v.commits_recorded);
  commits_one = (one, v.commits_one);
  in_order = v.in_order;
}

-- A pre-prepare for a number above all that went before raises `seqNo` to it.
pub IsValid-emit_pre_prepare :
    {src : Source} (p : PrePrepare) (c : PbftCore)
    → p.replica_id ≡ c.id
    → p.sequence_number ≤ c.seq_no
    → All (Agree (pre_prepare_ballot p)) (sent_pre_prepares c.outbox)
    → IsValid src c
    → IsValid src (emit (broadcast (Message.pre_prepare p)) c)
unfolding emit sent_prepare_at sent_commit_at
IsValid-emit_pre_prepare p c own below one v =
    let pres = sent_pre_prepares c.outbox in
    let preps = sent_prepares c.outbox in
    record {
      fits = v.fits;
      config = v.config;
      kept_pre_prepares = λ b i. inr (v.kept_pre_prepares b i);
      kept_prepares = v.kept_prepares;
      exec_small = v.exec_small;
      seq_small = v.seq_small;
      certs = λ idx cert e.
          CertIsValid-more c.replica_count pres (pre_prepare_ballot p ∷ pres) preps preps idx cert
            (λ b i. inr i) (λ b i. i) (v.certs idx cert e);
      pset_below = v.pset_below;
      qset_below = v.qset_below;
      pre_prepares_own = (own, v.pre_prepares_own);
      pre_prepares_below = (below, v.pre_prepares_below);
      pre_prepares_one = (one, v.pre_prepares_one);
      prepares_own = v.prepares_own;
      prepares_recorded = v.prepares_recorded;
      prepares_one = v.prepares_one;
      commits_own = v.commits_own;
      commits_recorded = v.commits_recorded;
      commits_one = v.commits_one;
      in_order = v.in_order;
    }
