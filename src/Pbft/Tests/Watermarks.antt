-- ===== src/Pbft/Tests/Watermarks.antt =====
-- The watermarks of the replica that has executed, moved to 10.
use client_sdk.Prelude.{◌≡◌, none, not, lookup, leb, ltb, nat_eq, string_eq, arith, if◌then◌else◌}
use client_sdk.Pbft.Messages.{Checkpoint}
use client_sdk.Pbft.State.{QIdx, msg_id_eq, qidx_eq, checkpoint_eq}
use client_sdk.Pbft.Receive.Invariant.{IsValid}
use client_sdk.Pbft.Agreement.Network.{source_at}
use client_sdk.Pbft.Checkpoint.{clean_logs, move_watermarks}
use client_sdk.Pbft.Checkpoint.Cleaning
use client_sdk.Pbft.Tests.{env, setup}
use client_sdk.Pbft.Tests.Committed.{done, done-IsValid, net7, first}

abbrev chkpt : Checkpoint
chkpt = record { sequence_number = 10; replica_id = 1; id = "digest" }

abbrev qidx : QIdx
qidx = record { d = "digest"; n = 11 }

move_watermarks-IsValid_example : IsValid (source_at setup net7 1) (move_watermarks env 10 done)
move_watermarks-IsValid_example =
    Cleaning.move_watermarks-IsValid env 10 done (omega arith) (omega arith) done-IsValid

lookup-clean_logs_example :
    ((clean_logs 10 done).h ≡ 10)
    × (lookup first (clean_logs 10 done).cert_store
        ≡ (if not (leb 1 10) then lookup first done.cert_store else none))
    × (lookup "digest" (clean_logs 10 done).req_store ≡ (
        if Cleaning.is_covered 10 "digest" done.cert_store
        then none
        else lookup "digest" done.req_store))
    × (lookup chkpt (clean_logs 10 done).checkpoint_store
        ≡ (if not (leb 10 10) then lookup chkpt done.checkpoint_store else none))
    × (lookup 0 (clean_logs 10 done).pset ≡ (if not (leb 0 10) then lookup 0 done.pset else none))
    × (lookup qidx (clean_logs 10 done).qset
        ≡ (if not (leb 11 10) then lookup qidx done.qset else none))
    × (lookup 0 (clean_logs 10 done).chkpts
        ≡ (if not (ltb 0 10) then lookup 0 done.chkpts else none))
lookup-clean_logs_example = Cleaning.lookup-clean_logs 10 done first chkpt 0 qidx "digest"
