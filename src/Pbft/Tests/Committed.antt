-- ===== src/Pbft/Tests/Committed.antt =====
-- A replica that executes a committed request, and the theorems about execution at it.
use client_sdk.Prelude.{
  suc, ◌≡◌, subst, ◌≤◌, length, refl, true, false, none, some, [], ◌∷◌, arith, nat_eq, lookup, keys,
}
use client_sdk.Pbft.Messages.{Message}
use client_sdk.Pbft.State.{PbftCore, MsgId, MsgCert, msg_id_eq, execute, broadcast}
use client_sdk.Pbft.Quorum.{intersection_quorum}
use client_sdk.Pbft.Receive.{executed, execute_pass, execute_outstanding}
use client_sdk.Pbft.Agreement.Network.{
  Net, Event, handle, update, Reach, next, deliver, source_at, Reach-NetIsValid,
}
use client_sdk.Pbft.Quorum.Intersection.{Distinct}
use client_sdk.Pbft.Receive.Execution
use client_sdk.Pbft.Receive.Frame.{SameLog}
use client_sdk.Pbft.Receive.Sent.{Descending, executions}
use client_sdk.Pbft.Receive.Invariant.{IsValid, IsValid-SameLog, commit_ids}
use client_sdk.Pbft.Tests.{
  env, setup, boot, boot-NetIsValid, req, pre, prep, commit_of, net5, reach, program,
}

abbrev net6 : Net
net6 = update net5 1 (handle env (Event.commit (commit_of 2)) (net5 1))

abbrev pub net7 : Net
net7 = update net6 1 (handle env (Event.commit (commit_of 3)) (net6 1))

abbrev pub first : MsgId
first = record { v = 0; n = 1 }

-- Replica 1 with the commits of replicas 1, 2 and 3, after and before it executes.
abbrev pub done : PbftCore
done = record (boot 1) {
  last_exec = 1;
  req_store = ("digest", req) ∷ [];
  cert_store =
      (
        first,
        record {
          pre_prepare = some pre;
          sent_prepare = true;
          prepare = prep 1 ∷ prep 2 ∷ [];
          sent_commit = true;
          commit = commit_of 1 ∷ commit_of 2 ∷ commit_of 3 ∷ [];
        },
      )
      ∷ [];
  outbox =
      execute 1 (some (7 ∷ [])) (record { checkpoint = false; null = false })
      ∷ broadcast (Message.commit (commit_of 1))
      ∷ broadcast (Message.prepare (prep 1))
      ∷ [];
}

abbrev ready : PbftCore
ready = record done {
  last_exec = 0;
  outbox = broadcast (Message.commit (commit_of 1)) ∷ broadcast (Message.prepare (prep 1)) ∷ [];
}

reach7 : Reach setup boot net7
unfolding program
reach7 =
    next (next reach (deliver 1 (Event.commit (commit_of 2)) (omega arith) refl (omega arith)))
      (deliver 1 (Event.commit (commit_of 3)) (omega arith) refl (omega arith))

executes : net7 1 ≡ done
unfolding program
executes = refl

ready_same : SameLog (done) ready
ready_same = record {
  cert_store = refl;
  view = refl;
  active_view = refl;
  h = refl;
  l = refl;
  id = refl;
  f = refl;
  n_replicas = refl;
  replica_count = refl;
  seq_no = refl;
  pset = refl;
  qset = refl;
  pre_prepares = refl;
  prepares = refl;
  commits = refl;
}

pub done-IsValid : IsValid (source_at setup net7 1) done
done-IsValid =
    subst (λ c. IsValid (source_at setup net7 1) c) executes
      (Reach-NetIsValid setup boot-NetIsValid reach7 1 (omega arith) refl)

ready_in_order : Descending 1 (executions ready.outbox)
ready_in_order = tt

ready-IsValid : IsValid (source_at setup net7 1) ready
ready-IsValid = IsValid-SameLog ready_same (omega arith) ready_in_order done-IsValid

execute_one-HasQuorum_example :
    (cert : MsgCert) × (lookup first ready.cert_store ≡ some cert)
    × (first.n ≡ suc ready.last_exec)
    × ((executed first "digest" ready).last_exec ≡ first.n)
    × Distinct (commit_ids cert.commit)
    × (intersection_quorum ready ≤ length (commit_ids cert.commit))
unfolding program
execute_one-HasQuorum_example =
    Execution.execute_one-HasQuorum first ready (executed first "digest" ready) ready-IsValid refl

execute_outstanding-ends_example :
    execute_pass (keys (execute_outstanding ready).cert_store) (execute_outstanding ready) ≡ none
unfolding program
execute_outstanding-ends_example = Execution.execute_outstanding-ends ready (omega arith)
