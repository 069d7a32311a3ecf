-- ===== src/Pbft/NewView.antt =====
-- The choices of viewchange.go that a new view rests on: which view changes are correct, which
-- checkpoint it starts from, and which request each sequence number gets.
pub mod Assignment
use client_sdk.Prelude.{
  ℕ, zero, suc, ◌+◌, String, ◌≡◌, ◌↔◌, Bool, true, false, not, ◌&&◌, ◌||◌, Option, none, some, List,
  [], ◌∷◌, ◌++◌, map, arith, ltb, leb, ◌==◌, Eq, all, count, length, Map, lookup, insert,
  keep_entries, nat_eq, string_eq, string_beq_iff, if◌then◌else◌, add64,
}
use client_sdk.Pbft.Messages.{ViewChange, ViewChangeC, ViewChangePq}
use client_sdk.Pbft.State.{PbftCore, VcIdx}
use client_sdk.Pbft.Quorum.{intersection_quorum}

abbrev pub view_change_c_beq : ViewChangeC → ViewChangeC → Bool
view_change_c_beq a b = (a.sequence_number == b.sequence_number) && (a.id == b.id)

pub view_change_c_beq_iff : (a b : ViewChangeC) → (view_change_c_beq a b ≡ true) ↔ (a ≡ b)
view_change_c_beq_iff a b = ground (arith, string_beq_iff a.id b.id)

instance abbrev pub view_change_c_eq : Eq ViewChangeC
view_change_c_eq = record { same = view_change_c_beq; same_iff = view_change_c_beq_iff }

unfoldable pub correct_view_change : ViewChange → PbftCore → Bool
correct_view_change vc c =
    all
      (λ (p : ViewChangePq).
        ltb p.view vc.view && ltb vc.h p.sequence_number && leb p.sequence_number (add64 vc.h c.l))
      (vc.pset ++ vc.qset)
    && all
        (λ (p : ViewChangeC). leb vc.h p.sequence_number && leb p.sequence_number (add64 vc.h c.l))
        vc.cset

unfoldable pub get_view_changes : Map VcIdx ViewChange → List ViewChange
get_view_changes [] = []
get_view_changes ((idx, vc) ∷ rest) = vc ∷ get_view_changes rest

-- The view changes that name each checkpoint, in their order.
unfoldable pub add_checkpoints :
    ViewChange
    → List ViewChangeC
    → Map ViewChangeC (List ViewChange)
    → Map ViewChangeC (List ViewChange)
add_checkpoints vc [] m = m
add_checkpoints vc (p ∷ rest) m =
    add_checkpoints vc rest
      (insert p (elim (lookup p m) [ none ↦ vc ∷ [] | some vcs ↦ vcs ++ vc ∷ [] ]) m)

unfoldable pub all_checkpoints :
    List ViewChange → Map ViewChangeC (List ViewChange) → Map ViewChangeC (List ViewChange)
all_checkpoints [] m = m
all_checkpoints (vc ∷ rest) m = all_checkpoints rest (add_checkpoints vc vc.cset m)

-- The results `checkpoint`, `ok` and `replicas` of `selectInitialCheckpoint`.
pub record Initial : Type 0 where
  pub checkpoint : ViewChangeC
  pub ok : Bool
  pub replicas : List ℕ

-- One round of its second loop: the replicas are written before the sequence numbers are compared.
unfoldable pub consider_checkpoint : PbftCore → ViewChangeC → List ViewChange → Initial → Initial
consider_checkpoint c idx vcs found =
    if leb (length vcs) c.f
    then found
    else if ltb (count (λ (vc : ViewChange). leb vc.h idx.sequence_number) vcs)
        (intersection_quorum c)
    then found
    else let found' : Initial = record found {
      replicas = map (λ (vc : ViewChange). vc.replica_id) vcs;
    } in
      if leb found.checkpoint.sequence_number idx.sequence_number
      then record found' { checkpoint = idx; ok = true }
      else found'

unfoldable pub consider_checkpoints :
    PbftCore → Map ViewChangeC (List ViewChange) → Initial → Initial
consider_checkpoints c [] found = found
consider_checkpoints c ((idx, vcs) ∷ rest) found =
    consider_checkpoints c rest (consider_checkpoint c idx vcs found)

unfoldable pub select_initial_checkpoint : List ViewChange → PbftCore → Initial
select_initial_checkpoint vset c =
    consider_checkpoints c (all_checkpoints vset [])
      (record { checkpoint = record { sequence_number = 0; id = "" }; ok = false; replicas = [] })

-- The entries of the P sets, in the order in which the loops of `assignSequenceNumbers` meet them.
unfoldable pub pset_entries : List ViewChange → List ViewChangePq
pset_entries [] = []
pset_entries (m ∷ rest) = m.pset ++ pset_entries rest

-- Condition A1 for one view change: it starts below `n`, and what it prepared for `n` is older
-- than `em` or agrees with it.
unfoldable pub allows : ℕ → ViewChangePq → ViewChange → Bool
allows n em mp =
    not (leb n mp.h)
    && all
        (λ (emp : ViewChangePq). not (
          (n == emp.sequence_number)
          && not (ltb emp.view em.view || ((emp.view == em.view) && (emp.digest == em.digest)))))
        mp.pset

-- Condition A2 counts the entries of the Q sets that pre-prepare the digest for `n`.
unfoldable pub pre_prepares_for : ℕ → ViewChangePq → List ViewChange → ℕ
pre_prepares_for n em [] = 0
pre_prepares_for n em (mp ∷ rest) =
    count
      (λ (emp : ViewChangePq).
        (n == emp.sequence_number) && leb em.view emp.view && (emp.digest == em.digest))
      mp.qset
    + pre_prepares_for n em rest

unfoldable pub selects : PbftCore → List ViewChange → ℕ → ViewChangePq → Bool
selects c vset n em =
    leb (intersection_quorum c) (count (allows n em) vset)
    && leb (c.f + 1) (pre_prepares_for n em vset)

unfoldable pub first_selected : PbftCore → List ViewChange → ℕ → List ViewChangePq → Option String
first_selected c vset n [] = none
first_selected c vset n (em ∷ rest) =
    if selects c vset n em then some em.digest else first_selected c vset n rest

unfoldable pub null_quorum : PbftCore → List ViewChange → ℕ → Bool
null_quorum c vset n = leb (intersection_quorum c) (
    count (λ (m : ViewChange). all (λ (em : ViewChangePq). not (em.sequence_number == n)) m.pset)
      vset)

-- The loop over `n`, with fuel; `none` is the result nil.
unfoldable pub assign_loop :
    PbftCore → List ViewChange → ℕ → ℕ → ℕ → ℕ → Map ℕ String → Option (ℕ × Map ℕ String)
assign_loop c vset last zero n max_n msg_list = some (max_n, msg_list)
assign_loop c vset last (suc fuel) n max_n msg_list =
    if ltb last n
    then some (max_n, msg_list)
    else elim (first_selected c vset n (pset_entries vset)) [
      | some digest ↦ assign_loop c vset last fuel (add64 n 1) n (insert n digest msg_list)
      | none ↦ elim (null_quorum c vset n) [
        | true ↦ assign_loop c vset last fuel (add64 n 1) max_n (insert n "" msg_list)
        | false ↦ none
      ]
    ]

unfoldable pub assign_sequence_numbers : List ViewChange → ℕ → PbftCore → Option (Map ℕ String)
assign_sequence_numbers vset h c =
    elim (assign_loop c vset (add64 h c.l) c.l (add64 h 1) (add64 h 1) []) [
      | none ↦ none
      | some found ↦ some (keep_entries (λ n msg. not (ltb found.0 n && (msg == ""))) found.1)
    ]
