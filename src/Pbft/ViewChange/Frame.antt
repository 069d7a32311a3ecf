-- ===== src/Pbft/ViewChange/Frame.antt =====
-- The new primary verifies its own new view: the choices depend on the view changes and the
-- settings only, and an assignment equals itself.
use client_sdk.Prelude.{
  ℕ, zero, suc, String, ◌≡◌, refl, sym, ◌∙◌, inl, inr, Bool, true, false, not, ◌&&◌, none, some,
  List, [], ◌∷◌, arith, ltb, ◌==◌, ==_refl, all, Map, lookup, insert, has_key, lookup-insert,
  keep_entries, KeysDistinct, insert-KeysDistinct, Bool-cases, Option-cases, nat_eq, string_eq,
  add64, if◌then◌else◌,
}
use client_sdk.Pbft.Messages.{ViewChange, ViewChangeC, ViewChangePq, NewView, Message}
use client_sdk.Pbft.State.{PbftCore, Env, emit, broadcast}
use client_sdk.Pbft.Quorum.{intersection_quorum}
use client_sdk.Pbft.NewView.{
  Initial, consider_checkpoint, consider_checkpoints, all_checkpoints, select_initial_checkpoint,
  pset_entries, selects, first_selected, null_quorum, assign_loop, assign_sequence_numbers,
  get_view_changes,
}
use client_sdk.Pbft.ViewChange.{
  same_assignment, process_new_view_with, send_new_view_with, accept_new_view,
}

-- The settings that the choices read.
abbrev pub SameSettings : PbftCore → PbftCore → Type 0
SameSettings c c' = (c.f ≡ c'.f) × (c.n_replicas ≡ c'.n_replicas) × (c.l ≡ c'.l)

module _ (c c' : PbftCore) (same : SameSettings c c') where
  quorum_same : intersection_quorum c ≡ intersection_quorum c'
  unfolding intersection_quorum
  quorum_same = rw (same.0, same.1) refl

  consider_checkpoints_same :
      (m : Map ViewChangeC (List ViewChange)) (found : Initial)
      → consider_checkpoints c m found ≡ consider_checkpoints c' m found
  unfolding consider_checkpoints consider_checkpoint
  consider_checkpoints_same [] found = refl
  consider_checkpoints_same ((idx, vcs) ∷ rest) found =
      let one : consider_checkpoint c idx vcs found ≡ consider_checkpoint c' idx vcs found =
        rw (quorum_same, same.0) refl in
      rw one (consider_checkpoints_same rest (consider_checkpoint c' idx vcs found))

  select_initial_checkpoint_same :
      (vset : List ViewChange)
      → select_initial_checkpoint vset c ≡ select_initial_checkpoint vset c'
  unfolding select_initial_checkpoint
  select_initial_checkpoint_same vset = consider_checkpoints_same (all_checkpoints vset []) _

  first_selected_same :
      (vset : List ViewChange) (n : ℕ) (ems : List ViewChangePq)
      → first_selected c vset n ems ≡ first_selected c' vset n ems
  unfolding first_selected selects
  first_selected_same vset n [] = refl
  first_selected_same vset n (em ∷ rest) =
      let one : selects c vset n em ≡ selects c' vset n em = rw (quorum_same, same.0) refl in
      rw (one, first_selected_same vset n rest) refl

  null_quorum_same : (vset : List ViewChange) (n : ℕ) → null_quorum c vset n ≡ null_quorum c' vset n
  unfolding null_quorum
  null_quorum_same vset n = rw quorum_same refl

  assign_loop_same :
      (vset : List ViewChange) (last fuel n max_n : ℕ) (m : Map ℕ String)
      → assign_loop c vset last fuel n max_n m ≡ assign_loop c' vset last fuel n max_n m
  unfolding assign_loop
  assign_loop_same vset last zero n max_n m = refl
  assign_loop_same vset last (suc fuel) n max_n m =
      let first = first_selected_same vset n (pset_entries vset) in
      let nulls = null_quorum_same vset n in
      elim (Option-cases (first_selected c' vset n (pset_entries vset))) [
        | inr (digest, chosen) ↦ ground (
          arith,
          first,
          chosen,
          assign_loop_same vset last fuel (add64 n 1) n (insert n digest m),
        )
        | inl nothing ↦ ground (
          arith,
          first,
          nothing,
          nulls,
          assign_loop_same vset last fuel (add64 n 1) max_n (insert n "" m),
        )
      ]

  assign_sequence_numbers_same :
      (vset : List ViewChange) (h : ℕ)
      → assign_sequence_numbers vset h c ≡ assign_sequence_numbers vset h c'
  unfolding assign_sequence_numbers
  assign_sequence_numbers_same vset h =
      rw
        (
          assign_loop_same vset (add64 h c.l) c.l (add64 h 1) (add64 h 1) [],
          same.2,
          assign_sequence_numbers,
        )
        refl

lookup-keep_missing :
    (test : ℕ → String → Bool) (n : ℕ) (m : Map ℕ String)
    → lookup n m ≡ none
    → lookup n (keep_entries test m) ≡ none
unfolding lookup keep_entries
lookup-keep_missing test n [] new = refl
lookup-keep_missing test n ((k, v) ∷ rest) new =
    let later = lookup-keep_missing test n rest in ground (arith, new, later)

keep_entries-KeysDistinct :
    (test : ℕ → String → Bool) (m : Map ℕ String)
    → KeysDistinct m
    → KeysDistinct (keep_entries test m)
unfolding keep_entries
keep_entries-KeysDistinct test [] distinct = tt
keep_entries-KeysDistinct test ((k, v) ∷ rest) distinct = elim (Bool-cases (test k v)) [
  | inl kept ↦
      rw kept
        (lookup-keep_missing test k rest distinct.0, keep_entries-KeysDistinct test rest distinct.1)
  | inr gone ↦ rw gone (keep_entries-KeysDistinct test rest distinct.1)
]

assign_loop-KeysDistinct :
    (c : PbftCore) (vset : List ViewChange) (last fuel n max_n : ℕ) (m : Map ℕ String)
    (found : ℕ × Map ℕ String)
    → KeysDistinct m
    → assign_loop c vset last fuel n max_n m ≡ some found
    → KeysDistinct found.1
unfolding assign_loop
assign_loop-KeysDistinct c vset last zero n max_n m found distinct e =
    let same : (max_n, m) ≡ found = ground (arith, e) in rw (← same) distinct
assign_loop-KeysDistinct c vset last (suc fuel) n max_n m found distinct e =
    elim (Bool-cases (ltb last n)) [
      | inl over ↦ let same : (max_n, m) ≡ found = ground (arith, e, over) in rw (← same) distinct
      | inr within ↦ elim (Option-cases (first_selected c vset n (pset_entries vset))) [
        | inr (digest, chosen) ↦
            assign_loop-KeysDistinct c vset last fuel (add64 n 1) n (insert n digest m) found
              (insert-KeysDistinct n digest m distinct) (ground (arith, e, within, chosen))
        | inl nothing ↦ elim (Bool-cases (null_quorum c vset n)) [
          | inl empty ↦
              assign_loop-KeysDistinct c vset last fuel (add64 n 1) max_n (insert n "" m) found
                (insert-KeysDistinct n "" m distinct) (ground (arith, e, within, nothing, empty))
          | inr neither ↦ absurd (ground (arith, e, within, nothing, neither))
        ]
      ]
    ]

-- An assignment has each number once.
pub assign_sequence_numbers-KeysDistinct :
    (c : PbftCore) (vset : List ViewChange) (h : ℕ) (msg_list : Map ℕ String)
    → assign_sequence_numbers vset h c ≡ some msg_list
    → KeysDistinct msg_list
unfolding assign_sequence_numbers
assign_sequence_numbers-KeysDistinct c vset h msg_list e =
    elim (Option-cases (assign_loop c vset (add64 h c.l) c.l (add64 h 1) (add64 h 1) [])) [
      | inl none_found ↦ absurd (ground (arith, e, none_found))
      | inr (found, done) ↦
          let is : keep_entries (λ n msg. not (ltb found.0 n && (msg == ""))) found.1 ≡ msg_list =
            ground (arith, e, done) in
          rw (← is) (
            keep_entries-KeysDistinct _ found.1 (
              assign_loop-KeysDistinct c vset (add64 h c.l) c.l (add64 h 1) (add64 h 1) [] found tt
                done))
    ]

-- Every entry of `a` is in `b`.
all_within : Map ℕ String → Map ℕ String → Bool
all_within b a =
    all (λ (entry : ℕ × String). elim (lookup entry.0 b) [ none ↦ false | some d ↦ entry.1 == d ]) a

all_within-cons :
    (n : ℕ) (d : String) (b a : Map ℕ String)
    → lookup n a ≡ none
    → all_within b a ≡ true
    → all_within ((n, d) ∷ b) a ≡ true
unfolding all_within lookup
all_within-cons n d b [] new h = refl
all_within-cons n d b ((k, v) ∷ rest) new h =
    let later = all_within-cons n d b rest in
    elim (Bool-cases (n == k)) [
      | inl here ↦ absurd (ground (arith, new, here))
      | inr other ↦ ground (arith, new, h, later, other)
    ]

all_within_self : (m : Map ℕ String) → KeysDistinct m → all_within m m ≡ true
unfolding all_within lookup
all_within_self [] distinct = refl
all_within_self ((n, d) ∷ rest) distinct = ground (
  arith,
  all_within-cons n d rest rest distinct.0 (all_within_self rest distinct.1),
  ==_refl {K = String} d,
)

same_assignment_self : (m : Map ℕ String) → KeysDistinct m → same_assignment m m ≡ true
unfolding same_assignment all_within
same_assignment_self m distinct = rw (all_within_self m distinct) (ground arith)

-- A new view that the replica computes as the sender did is accepted.
process_new_view_with-computed :
    (env : Env) (send : PbftCore → PbftCore) (c : PbftCore) (nv : NewView)
    → lookup c.view c.new_view_store ≡ some nv
    → (select_initial_checkpoint nv.vset c).ok ≡ true
    → assign_sequence_numbers nv.vset
        (select_initial_checkpoint nv.vset c).checkpoint.sequence_number
        c
      ≡ some nv.xset
    → process_new_view_with env send c ≡ (
        if c.active_view then c else accept_new_view env nv (select_initial_checkpoint nv.vset c) c)
unfolding process_new_view_with
process_new_view_with-computed env send c nv found good assigned =
    let whole =
      same_assignment_self nv.xset
        (assign_sequence_numbers-KeysDistinct c nv.vset _ nv.xset assigned) in
    rw (found, good, assigned, whole, process_new_view_with) (ground arith)

-- A new primary does not leave the view over its own new view.
pub send_new_view_with_same :
    (env : Env) (send send' : PbftCore → PbftCore) (c : PbftCore)
    → send_new_view_with env send c ≡ send_new_view_with env send' c
unfolding send_new_view_with emit
send_new_view_with_same env send send' c =
    let vset = get_view_changes c.view_change_store in
    let cp = select_initial_checkpoint vset c in
    elim (Bool-cases (has_key c.view c.new_view_store)) [
      | inl sent ↦ rw (sent, send_new_view_with) refl
      | inr new ↦ elim (Bool-cases cp.ok) [
        | inr bad ↦ rw (new, bad, send_new_view_with) refl
        | inl good ↦
            elim (Option-cases (assign_sequence_numbers vset cp.checkpoint.sequence_number c)) [
              | inl nothing ↦ rw (new, good, nothing, send_new_view_with) refl
              | inr (msg_list, assigned) ↦
                  let nv : NewView = record {
                    view = c.view;
                    vset = vset;
                    xset = msg_list;
                    replica_id = c.id;
                  } in
                  let sent = emit (broadcast (Message.new_view nv)) c in
                  let c' : PbftCore = record sent {
                    new_view_store = insert sent.view nv sent.new_view_store;
                  } in
                  let same : SameSettings c' c = (refl, refl, refl) in
                  let chosen = select_initial_checkpoint_same c' c same vset in
                  let found : lookup c'.view c'.new_view_store ≡ some nv =
                    ground (arith, lookup-insert c.view c.view nv c.new_view_store) in
                  let computed = λ (g : PbftCore → PbftCore).
                    process_new_view_with-computed env g c' nv found (rw chosen good)
                      (rw chosen (assign_sequence_numbers_same c' c same vset _ ∙ assigned)) in
                  rw (new, good, assigned, send_new_view_with)
                    (computed send ∙ sym (computed send'))
            ]
      ]
    ]
