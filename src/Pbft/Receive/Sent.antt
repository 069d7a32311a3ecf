-- ===== src/Pbft/Receive/Sent.antt =====
-- The votes and the executions among the calls that a replica has made on its consumer.
use client_sdk.Prelude.{ℕ, suc, String, ◌≡◌, sym, ◌⊎◌, inl, inr, ◌<◌, List, [], ◌∷◌, All, arith}
use client_sdk.Pbft.Messages.{Message, PrePrepare, Prepare, Commit}
use client_sdk.Pbft.State.{Output, broadcast, execute}

-- What a pre-prepare, a prepare and a commit have in common.
pub record Ballot : Type 0 where
  pub view : ℕ
  pub number : ℕ
  pub digest : String
  pub replica : ℕ

abbrev pub pre_prepare_ballot : PrePrepare → Ballot
pre_prepare_ballot p = record {
  view = p.view;
  number = p.sequence_number;
  digest = p.request_digest;
  replica = p.replica_id;
}

abbrev pub prepare_ballot : Prepare → Ballot
prepare_ballot p = record {
  view = p.view;
  number = p.sequence_number;
  digest = p.request_digest;
  replica = p.replica_id;
}

abbrev pub commit_ballot : Commit → Ballot
commit_ballot p = record {
  view = p.view;
  number = p.sequence_number;
  digest = p.request_digest;
  replica = p.replica_id;
}

abbrev pub sent_pre_prepares : List Output → List Ballot
sent_pre_prepares [] = []
sent_pre_prepares (broadcast (Message.pre_prepare p) ∷ rest) =
    pre_prepare_ballot p ∷ sent_pre_prepares rest
sent_pre_prepares (_ ∷ rest) = sent_pre_prepares rest

abbrev pub sent_prepares : List Output → List Ballot
sent_prepares [] = []
sent_prepares (broadcast (Message.prepare p) ∷ rest) = prepare_ballot p ∷ sent_prepares rest
sent_prepares (_ ∷ rest) = sent_prepares rest

abbrev pub sent_commits : List Output → List Ballot
sent_commits [] = []
sent_commits (broadcast (Message.commit p) ∷ rest) = commit_ballot p ∷ sent_commits rest
sent_commits (_ ∷ rest) = sent_commits rest

-- The sequence numbers of the requests handed over for execution, the latest first.
abbrev pub executions : List Output → List ℕ
executions [] = []
executions (execute n payload info ∷ rest) = n ∷ executions rest
executions (_ ∷ rest) = executions rest

-- The numbers fall, from one below the bound.
abbrev pub Descending : ℕ → List ℕ → Type 0
Descending bound [] = Unit
Descending bound (n ∷ ns) = (n < bound) × Descending n ns

pub Descending-suc : (b : ℕ) (ns : List ℕ) → Descending b ns → Descending (suc b) ns
Descending-suc b [] d = tt
Descending-suc b (n ∷ ns) d = (omega arith, d.1)

-- Two ballots for one view and one number are for one digest.
abbrev pub Agree : Ballot → Ballot → Type 0
Agree a b = a.view ≡ b.view → a.number ≡ b.number → a.digest ≡ b.digest

-- No two ballots of the list are for one view and one number and two digests.
abbrev pub OneDigest : List Ballot → Type 0
OneDigest [] = Unit
OneDigest (b ∷ bs) = All (Agree b) bs × OneDigest bs

abbrev pub In : Ballot → List Ballot → Type 0
In b [] = ⊥
In b (a ∷ bs) = (a ≡ b) ⊎ In b bs

pub All-In {ℓ} : (P : Ballot → Type ℓ) (b : Ballot) (bs : List Ballot) → All P bs → In b bs → P b
All-In P b [] h i = elim i [ ]
All-In P b (a ∷ bs) h (inl e) = rw (← e) h.0
All-In P b (a ∷ bs) h (inr i) = All-In P b bs h.1 i

pub Agree-In : (a b : Ballot) (bs : List Ballot) → OneDigest bs → In a bs → In b bs → Agree a b
Agree-In a b [] one i j = elim i [ ]
Agree-In a b (c ∷ bs) one (inl p) (inl q) = λ v n. cc
Agree-In a b (c ∷ bs) one (inl p) (inr j) = rw (← p) (All-In (Agree c) b bs one.0 j)
Agree-In a b (c ∷ bs) one (inr i) (inl q) =
    rw (← q) (λ v n. sym (All-In (Agree c) a bs one.0 i (sym v) (sym n)))
Agree-In a b (c ∷ bs) one (inr i) (inr j) = Agree-In a b bs one.1 i j
