-- ===== src/Pbft/Tests/Views.antt =====
-- Three and four view changes of a network of four replicas.
use client_sdk.Prelude.{
  ℕ, ◌+◌, ◌≡◌, refl, some, List, [], ◌∷◌, arith, All, true, lookup, insert, keep_entries,
}
use client_sdk.Pbft.Messages.{ViewChange, ViewChangeC, ViewChangePq}
use client_sdk.Pbft.State.{PbftCore}
use client_sdk.Pbft.Quorum.{intersection_quorum}
use client_sdk.Pbft.NewView.{
  add_checkpoints, all_checkpoints, consider_checkpoint, consider_checkpoints,
  select_initial_checkpoint, pset_entries, allows, pre_prepares_for, selects, first_selected,
  null_quorum, assign_loop, assign_sequence_numbers,
}
use client_sdk.Pbft.NewView.Assignment
use client_sdk.Pbft.Tests.{boot}

unfoldable program : Unit {0}
unfolding lookup insert keep_entries intersection_quorum add_checkpoints all_checkpoints
    consider_checkpoint consider_checkpoints select_initial_checkpoint pset_entries allows
    pre_prepares_for selects first_selected null_quorum assign_loop assign_sequence_numbers
program = tt

abbrev core : PbftCore
core = record (boot 1) { l = 2 }

abbrev entry : ViewChangePq
entry = record { sequence_number = 1; digest = "digest"; view = 0 }

abbrev change_of : ℕ → List ViewChangeC → ViewChange
change_of i cset = record {
  view = 1;
  h = 0;
  cset = cset;
  pset = entry ∷ [];
  qset = entry ∷ [];
  replica_id = i;
  signature = [];
}

abbrev changes : List ViewChange
changes = change_of 1 [] ∷ change_of 2 [] ∷ change_of 3 [] ∷ []

assigns : assign_sequence_numbers changes 0 core ≡ some ((1, "digest") ∷ [])
unfolding program
assigns = refl

assign_sequence_numbers-Assigned_example :
    All (Assignment.Assigned core changes 0 (0 + 2)) ((1, "digest") ∷ [])
assign_sequence_numbers-Assigned_example =
    Assignment.assign_sequence_numbers-Assigned core changes 0 ((1, "digest") ∷ []) (omega arith)
      assigns

-- Checkpoint 10 is selected, with the replicas of checkpoint 5.
abbrev high : ViewChangeC
high = record { sequence_number = 10; id = "ten" }

abbrev low : ViewChangeC
low = record { sequence_number = 5; id = "five" }

selects_wrong_replicas :
    select_initial_checkpoint
      (change_of 0 (high ∷ low ∷ [])
        ∷ change_of 1 (high ∷ low ∷ [])
        ∷ change_of 2 (high ∷ [])
        ∷ change_of 3 (low ∷ [])
        ∷ [])
      core
    ≡ record { checkpoint = high; ok = true; replicas = 0 ∷ 1 ∷ 3 ∷ [] }
unfolding program
selects_wrong_replicas = refl
