-- ===== src/Pbft/Receive/Execution.antt =====
-- What `executeOutstanding` executes, and where it ends.
use client_sdk.Prelude.{
  ℕ, zero, suc, ◌+◌, ◌^◌, ◌≤◌, ◌<◌, String, ◌≡◌, refl, ap, ◌∙◌, inl, inr, true, none, some, List,
  [], ◌∷◌, arith, count, length, count-le-length, ltb, Map, keys, lookup, add64, Option-cases,
}
use client_sdk.Pbft.Messages.{Commit}
use client_sdk.Pbft.State.{PbftCore, MsgId, MsgCert, msg_id_eq, emit, start_timer, stop_timer}
use client_sdk.Pbft.Quorum.{intersection_quorum, committed, commit_matches}
use client_sdk.Pbft.Quorum.Intersection.{Distinct}
use client_sdk.Pbft.Receive.{
  execute_request, executed, execute_one, execute_pass, execute_loop, execute_outstanding,
}
use client_sdk.Pbft.Receive.Frame.{SameLog-execute_one, execute_one-eq-some, execute_pass-eq-some}
use client_sdk.Pbft.Receive.Invariant.{Source, IsValid, commit_ids}

-- How many of the certificates are for numbers above the last execution.
abbrev above : ℕ → List MsgId → ℕ
above last = count (λ (idx : MsgId). ltb last idx.n)

above_mono : (a b : ℕ) (ids : List MsgId) → a ≤ b → above b ids ≤ above a ids
above_mono a b [] h = omega arith
above_mono a b (idx ∷ ids) h = ground (arith, above_mono a b ids)

last_exec-executed :
    (idx : MsgId) (digest : String) (c : PbftCore) → (executed idx digest c).last_exec ≡ idx.n
unfolding executed execute_request emit stop_timer start_timer
last_exec-executed idx digest c = ground arith

last_exec-execute_one :
    (idx : MsgId) (c c' : PbftCore)
    → execute_one idx c ≡ some c'
    → (idx.n ≡ add64 c.last_exec 1) × (c'.last_exec ≡ idx.n)
last_exec-execute_one idx c c' e =
    let (cert, p, found, has, next_number, going, done, same) = execute_one-eq-some idx c c' e in
    (
      next_number,
      ap (λ (x : PbftCore). x.last_exec) same ∙ last_exec-executed idx p.request_digest c,
    )

-- Each execution of a walk leaves fewer certificates above.
above-execute_pass :
    (ids : List MsgId) (c c' : PbftCore)
    → c.last_exec + 1 < 2 ^ 64
    → execute_pass ids c ≡ some c'
    → (c'.last_exec ≡ suc c.last_exec) × (above c'.last_exec ids < above c.last_exec ids)
unfolding execute_pass
above-execute_pass [] c c' small e = absurd (cc)
above-execute_pass (idx ∷ ids) c c' small e = elim (Option-cases (execute_one idx c)) [
  | inl not_now ↦
      let rest = above-execute_pass ids c c' small (ground arith) in (rest.0, ground (arith, rest))
  | inr (d, now) ↦
      let same : d ≡ c' = ground arith in
      let step = last_exec-execute_one idx c d now in
      let last : c'.last_exec ≡ suc c.last_exec =
        ground (arith, step, ap (λ (x : PbftCore). x.last_exec) same) in
      let here : idx.n ≡ suc c.last_exec = ground (arith, step) in
      (last, ground (arith, above_mono c.last_exec c'.last_exec ids))
]

length-keys : (m : Map MsgId MsgCert) → length (keys m) ≡ length m
unfolding keys
length-keys [] = refl
length-keys ((idx, cert) ∷ m) = ap suc (length-keys m)

-- With more fuel than certificates above, the loop ends by its test.
execute_loop_ends :
    (fuel : ℕ) (c : PbftCore)
    → above c.last_exec (keys c.cert_store) < fuel
    → c.last_exec + fuel < 2 ^ 64
    → execute_pass (keys (execute_loop fuel c).cert_store) (execute_loop fuel c) ≡ none
unfolding execute_loop
execute_loop_ends zero c few small = elim few [ ]
execute_loop_ends (suc fuel) c few small =
    elim (Option-cases (execute_pass (keys c.cert_store) c)) [
      | inl stop ↦ rw (stop, execute_loop) stop
      | inr (c', go) ↦
          let (idx, one) = execute_pass-eq-some (keys c.cert_store) c c' go in
          let kept : c'.cert_store ≡ c.cert_store = (SameLog-execute_one idx c c' one).cert_store in
          let step = above-execute_pass (keys c.cert_store) c c' (omega arith) go in
          rw (go, execute_loop)
            (execute_loop_ends fuel c' (rw kept (omega (arith, step))) (omega (arith, step)))
    ]

above_le_length : (last : ℕ) (ids : List MsgId) → above last ids ≤ length ids
above_le_length last [] = omega arith
above_le_length last (idx ∷ ids) = ground (arith, above_le_length last ids)

-- After `executeOutstanding` a walk of the certificate store executes nothing: the fuel of the
-- model is enough, for fewer certificates than the sequence numbers that are left.
pub execute_outstanding-ends :
    (c : PbftCore)
    → c.last_exec + suc (length c.cert_store) < 2 ^ 64
    → execute_pass (keys (execute_outstanding c).cert_store) (execute_outstanding c) ≡ none
unfolding execute_outstanding
execute_outstanding-ends c small =
    execute_loop_ends (suc (length c.cert_store)) c
      (omega (arith, above_le_length c.last_exec (keys c.cert_store), length-keys c.cert_store))
      small

committed_parts :
    (digest : String) (v n : ℕ) (c : PbftCore) (cert : MsgCert)
    → lookup (record { v = v; n = n }) c.cert_store ≡ some cert
    → committed digest v n c ≡ true
    → intersection_quorum c ≤ count (commit_matches v n) cert.commit
unfolding committed
committed_parts digest v n c cert found h = ground arith

length-commit_ids : (cs : List Commit) → length (commit_ids cs) ≡ length cs
length-commit_ids [] = refl
length-commit_ids (x ∷ cs) = ap suc (length-commit_ids cs)

-- What a replica in a valid state executes is the next sequence number, and the certificate holds
-- commits for it from a quorum of different replicas.
pub execute_one-HasQuorum :
    {src : Source} (idx : MsgId) (c c' : PbftCore)
    → IsValid src c
    → execute_one idx c ≡ some c'
    → (cert : MsgCert) × (lookup idx c.cert_store ≡ some cert)
      × (idx.n ≡ suc c.last_exec)
      × (c'.last_exec ≡ idx.n)
      × Distinct (commit_ids cert.commit)
      × (intersection_quorum c ≤ length (commit_ids cert.commit))
execute_one-HasQuorum idx c c' valid e =
    let (cert, p, found, has, going, idle, done, same) = execute_one-eq-some idx c c' e in
    let ok = valid.certs idx cert found in
    let small = valid.exec_small in
    (
      cert,
      found,
      ground (arith, ok.positive, ok.small),
      (last_exec-execute_one idx c c' e).1,
      ok.commits_distinct,
      omega (
        arith,
        committed_parts p.request_digest idx.v idx.n c cert found done,
        count-le-length (commit_matches idx.v idx.n) cert.commit,
        length-commit_ids cert.commit,
      ),
    )
