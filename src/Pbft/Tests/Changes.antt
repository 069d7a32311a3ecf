-- ===== src/Pbft/Tests/Changes.antt =====
-- Replicas that leave their view.
use client_sdk.Prelude.{
  ◌≡◌, ◌+◌, refl, true, some, [], ◌∷◌, arith, lookup, insert, delete, has_key, keys, keep_entries,
  nat_eq,
}
use client_sdk.Pbft.Messages.{ViewChange, NewView}
use client_sdk.Pbft.State.{MsgCert, msg_id_eq, emit, start_timer, stop_timer, get_cert, set_cert}
use client_sdk.Pbft.Quorum.{
  primary, intersection_quorum, all_correct_replicas_quorum, in_qset, pre_prepare_matches,
  pre_prepared, in_pset, prepared,
}
use client_sdk.Pbft.NewView.{correct_view_change}
use client_sdk.Pbft.ViewChange.{
  send_view_change, view_fuel, install_pre_prepares, process_new_view_with, process_new_view,
  recv_view_change_with, recv_view_change, recv_new_view_with, recv_new_view,
}
use client_sdk.Pbft.Leave.{
  collect_prepared, collect_pset, collect_pre_prepared, collect_qset, enter_next_view, cset_entries,
  entries_of, make_view_change,
}
use client_sdk.Pbft.ViewChange.Entries
use client_sdk.Pbft.ViewChange.Install
use client_sdk.Pbft.ViewChange.Fuel
use client_sdk.Pbft.Tests.{env, boot, pre, prep, commit_of}
use client_sdk.Pbft.Tests.Committed.{done, first}

unfoldable program : Unit {0}
unfolding lookup insert delete has_key keys keep_entries emit start_timer stop_timer get_cert
    set_cert primary intersection_quorum all_correct_replicas_quorum in_qset pre_prepare_matches
    pre_prepared in_pset prepared correct_view_change collect_prepared collect_pset
    collect_pre_prepared collect_qset enter_next_view cset_entries entries_of make_view_change
    install_pre_prepares
program = tt

abbrev cert : MsgCert
cert = record {
  pre_prepare = some pre;
  sent_prepare = true;
  prepare = prep 1 ∷ prep 2 ∷ [];
  sent_commit = true;
  commit = commit_of 1 ∷ commit_of 2 ∷ commit_of 3 ∷ [];
}

enter_next_view-IsSent_example : Entries.IsSent done (enter_next_view done) 0 1
unfolding program
enter_next_view-IsSent_example = Entries.enter_next_view-IsSent done first cert pre refl refl refl

-- The view change of the replica that has executed a request is correct.
is_correct : correct_view_change (make_view_change env (enter_next_view done)) done ≡ true
unfolding program
is_correct = refl

install_pre_prepares-Installed_example :
    Install.Installed 1 "digest" (install_pre_prepares ((1, "digest") ∷ []) (boot 1))
unfolding program
install_pre_prepares-Installed_example =
    Install.install_pre_prepares-Installed ((1, "digest") ∷ []) (boot 1) 1 "digest" (refl, tt) refl

abbrev asked : ViewChange
asked = record { view = 1; h = 0; cset = []; pset = []; qset = []; replica_id = 2; signature = [] }

abbrev made : NewView
made = record { view = 1; vset = asked ∷ []; xset = []; replica_id = 1 }

handlers-end_example :
    (send_view_change (2 + view_fuel (boot 1)) env (boot 1)
      ≡ send_view_change (view_fuel (boot 1)) env (boot 1))
    × (process_new_view_with env (send_view_change (2 + view_fuel (boot 1)) env) (boot 1)
        ≡ process_new_view env (boot 1))
    × (recv_view_change_with env (send_view_change (2 + view_fuel (boot 1)) env) asked (boot 1)
        ≡ recv_view_change env asked (boot 1))
    × (recv_new_view_with env (send_view_change (2 + view_fuel (boot 1)) env) made (boot 1)
        ≡ recv_new_view env made (boot 1))
unfolding view_fuel
handlers-end_example =
    Fuel.handlers-end env 2 asked made (boot 1) (λ vc. refl) (omega arith) (omega arith) tt
