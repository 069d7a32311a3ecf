-- ===== src/Pbft/ViewChange/Ends.antt =====
-- The fuel of `sendViewChange`: a replica that leaves a view again does so for a later view that was
-- asked for, or over a new view that it has stored.
use client_sdk.Prelude.{
  ℕ, zero, suc, ◌+◌, ◌*◌, ◌%◌, ◌^◌, ◌≡◌, refl, sym, ap, ◌∙◌, inl, inr, true, false, not, none, [],
  ◌∷◌, arith, ltb, leb, length, Map, lookup, insert, delete, keep_entries, Bool-cases, Option-cases,
  nat_eq, add64, sub64,
}
use client_sdk.Pbft.Messages.{ViewChange, NewView, Message}
use client_sdk.Pbft.State.{
  PbftCore, VcIdx, MsgId, MsgCert, vcidx_eq, Env, emit, broadcast, start_timer, stop_timer,
}
use client_sdk.Pbft.ViewChange.{
  later_views, process_new_view_with, count_view_change, recv_view_change_with, recv_new_view_with,
  send_view_change,
}
use client_sdk.Pbft.Leave.{
  collect_prepared, collect_pset, collect_pre_prepared, collect_qset, enter_next_view,
  make_view_change,
}
use client_sdk.Pbft.ViewChange.Frame.{send_new_view_with_same}
use client_sdk.Pbft.ViewChange.Counts.{
  later-insert, later-keep_entries, later_mono, later_drop, stored-delete, stored_mono, stored_drop,
  Room-weaken, Room-insert, Room-keep_entries, Room-HasView,
}
use client_sdk.Pbft.ViewChange.Later.{later_views-Found, Budget, Ready}

process_missing :
    (env : Env) (g : PbftCore → PbftCore) (c : PbftCore)
    → lookup c.view c.new_view_store ≡ none
    → process_new_view_with env g c ≡ c
unfolding process_new_view_with
process_missing env g c missing = rw (missing, process_new_view_with) refl

module _ (env : Env) (fuel : ℕ) (send send' : PbftCore → PbftCore)
    (agree : (x : PbftCore) → Budget fuel x → send x ≡ send' x) where
  process_new_view_with_send :
      (g : PbftCore → PbftCore) (c : PbftCore)
      → process_new_view_with env g c ≡ process_new_view_with env (λ x. g c) c
  unfolding process_new_view_with
  process_new_view_with_send g c = refl

  pub process_new_view_with_same :
      (c : PbftCore)
      → Ready fuel c
      → process_new_view_with env send c ≡ process_new_view_with env send' c
  process_new_view_with_same c ready = elim (Option-cases (lookup c.view c.new_view_store)) [
    | inl missing ↦ process_missing env send c missing ∙ sym (process_missing env send' c missing)
    | inr (nv, found) ↦
        let budget : Budget fuel c = record {
          few = omega (
            arith,
            ready.few,
            stored_drop c.view c.new_view_store nv found,
            later_mono c.view (suc c.view) c.view_change_store (omega arith),
          );
          room = ready.room;
          rooms = ready.rooms;
        } in
        process_new_view_with_send send c
        ∙ ap (λ w. process_new_view_with env (λ x. w) c) (agree c budget)
        ∙ sym (process_new_view_with_send send' c)
  ]

  joining-Budget :
      (c : PbftCore)
      → Ready fuel c
      → leb (c.f + 1) (length (later_views c.view c.view_change_store ([], 0)).0) ≡ true
      → Budget fuel (record c { view = sub64 (later_views c.view c.view_change_store ([], 0)).1 1 })
  joining-Budget c ready joins =
      let asked = later_views c.view c.view_change_store ([], 0) in
      elim (later_views-Found c.view c.view_change_store) [
        | inl nobody ↦
            let empty : length asked.0 ≡ 0 = rw nobody refl in absurd (ground (arith, empty, joins))
        | inr (up, from) ↦
            let roomy = Room-HasView (suc fuel) asked.1 c.view_change_store ready.rooms from in
            let before : suc (sub64 asked.1 1) ≡ asked.1 = ground (arith, up, roomy) in
            record {
              few = rw before (
                  omega (
                    arith,
                    ready.few,
                    later_drop c.view asked.1 c.view_change_store from up,
                    stored_mono c.view asked.1 c.new_view_store (omega (arith, up)),
                  ));
              room = omega (arith, before, roomy);
              rooms = ready.rooms;
            }
      ]

  count_view_change_same :
      (vc : ViewChange) (c : PbftCore)
      → Ready fuel c
      → count_view_change env send vc c ≡ count_view_change env send' vc c
  unfolding count_view_change start_timer
  count_view_change_same vc c ready =
      let asked = later_views c.view c.view_change_store ([], 0) in
      elim (Bool-cases (leb (c.f + 1) (length asked.0))) [
        | inl joins ↦ rw (joins, count_view_change) (agree _ (joining-Budget c ready joins))
        | inr stays ↦
            let timed = start_timer c.last_new_view_timeout c in
            let doubled : PbftCore = record timed {
              last_new_view_timeout = (2 * timed.last_new_view_timeout) % 2 ^ 64;
            } in
            let own = send_new_view_with_same env send send' doubled in
            let later_one =
              process_new_view_with_same doubled
                (record { few = ready.few; room = ready.room; rooms = ready.rooms }) in
            let now = process_new_view_with_same c ready in
            rw (stays, own, later_one, now, count_view_change) refl
      ]

  pub recv_view_change_with_stored :
      (vc : ViewChange) (c : PbftCore)
      → Ready fuel (record c {
        view_change_store =
            insert (record { v = vc.view; id = vc.replica_id }) vc c.view_change_store;
      })
      → recv_view_change_with env send vc c ≡ recv_view_change_with env send' vc c
  unfolding recv_view_change_with
  recv_view_change_with_stored vc c ready =
      rw (count_view_change_same vc _ ready, recv_view_change_with) refl

  pub recv_new_view_with_stored :
      (nv : NewView) (c : PbftCore)
      → Ready fuel (record c { new_view_store = insert nv.view nv c.new_view_store })
      → recv_new_view_with env send nv c ≡ recv_new_view_with env send' nv c
  unfolding recv_new_view_with
  recv_new_view_with_stored nv c ready =
      rw (process_new_view_with_same _ ready, recv_new_view_with) refl

  recv_view_change_with_same :
      (vc : ViewChange) (c : PbftCore)
      → vc.view ≡ c.view
      → Ready fuel c
      → recv_view_change_with env send vc c ≡ recv_view_change_with env send' vc c
  recv_view_change_with_same vc c is ready =
      let idx : VcIdx = record { v = vc.view; id = vc.replica_id } in
      recv_view_change_with_stored vc c (record {
        few =
            omega (
              arith,
              ready.few,
              later-insert c.view idx vc c.view_change_store (omega (arith, is)),
            );
        room = ready.room;
        rooms =
            Room-insert (suc fuel) idx vc c.view_change_store (omega (arith, is, ready.room))
              ready.rooms;
      })

-- What entering a view does to the stores.
record Entered (c c' : PbftCore) : Type 0 where
  view : c'.view ≡ add64 c.view 1
  changes :
      c'.view_change_store ≡ keep_entries (λ idx _. not (ltb idx.v c'.view)) c.view_change_store
  views : c'.new_view_store ≡ delete c.view c.new_view_store

SameViews : PbftCore → PbftCore → Type 0
SameViews c c' =
    (c'.view ≡ c.view)
    × (c'.view_change_store ≡ c.view_change_store)
    × (c'.new_view_store ≡ c.new_view_store)

collect_pset-SameViews :
    (certs : Map MsgId MsgCert) (c : PbftCore) → SameViews c (collect_pset certs c)
unfolding collect_pset collect_prepared SameViews
collect_pset-SameViews [] c = (refl, refl, refl)
collect_pset-SameViews ((idx, cert) ∷ rest) c =
    let later_rounds = collect_pset-SameViews rest (collect_prepared idx cert c) in
    ground (arith, later_rounds)

collect_qset-SameViews :
    (certs : Map MsgId MsgCert) (c : PbftCore) → SameViews c (collect_qset certs c)
unfolding collect_qset collect_pre_prepared SameViews
collect_qset-SameViews [] c = (refl, refl, refl)
collect_qset-SameViews ((idx, cert) ∷ rest) c =
    let later_rounds = collect_qset-SameViews rest (collect_pre_prepared idx cert c) in
    ground (arith, later_rounds)

enter_next_view-Entered : (c : PbftCore) → Entered c (enter_next_view c)
unfolding enter_next_view stop_timer SameViews
enter_next_view-Entered c =
    let stopped = stop_timer c in
    let next : PbftCore = record stopped {
      new_view_store = delete stopped.view stopped.new_view_store;
      view = add64 stopped.view 1;
      active_view = false;
    } in
    let p = collect_pset-SameViews next.cert_store next in
    let q = collect_qset-SameViews next.cert_store (collect_pset next.cert_store next) in
    record { view = q.0 ∙ p.0; changes = ap (keep_entries _) (q.1 ∙ p.1); views = q.2 ∙ p.2 }

-- What a replica keeps after it has entered a view.
Ready-Budget : (fuel : ℕ) (c c' : PbftCore) → Entered c c' → Budget (suc fuel) c → Ready fuel c'
Ready-Budget fuel c c' entered budget =
    let next : c'.view ≡ suc c.view = ground (arith, entered.view, budget.room) in
    record {
      few =
          rw (entered.changes, entered.views, next)
            (omega (
              arith,
              budget.few,
              later-keep_entries (suc c.view) (λ idx _. not (ltb idx.v (suc c.view)))
                  c.view_change_store,
              stored-delete (suc c.view) c.view c.new_view_store,
            ));
      room = omega (arith, next, budget.room);
      rooms = rw entered.changes (
          Room-keep_entries (suc fuel) _ c.view_change_store (
            Room-weaken (suc fuel) (suc (suc fuel)) c.view_change_store (omega arith)
              budget.rooms));
    }

-- A signature leaves the view of a view change.
abbrev pub SignsView : Env → Type 0
SignsView env = (vc : ViewChange) → (env.sign vc).view ≡ vc.view

-- Once the fuel is above what is asked for and stored, more of it makes no difference.
pub send_view_change_same :
    (env : Env) (fuel : ℕ) (c : PbftCore)
    → SignsView env
    → Budget fuel c
    → send_view_change fuel env c ≡ send_view_change (suc fuel) env c
unfolding send_view_change make_view_change emit
send_view_change_same env zero c signs budget = elim budget.few [ ]
send_view_change_same env (suc fuel) c signs budget =
    let entered = enter_next_view c in
    let vc = make_view_change env entered in
    let ready = Ready-Budget fuel c entered (enter_next_view-Entered c) budget in
    recv_view_change_with_same env fuel (send_view_change fuel env)
      (send_view_change (suc fuel) env) (λ x b. send_view_change_same env fuel x signs b) vc
      (emit (broadcast (Message.view_change vc)) entered) (signs _)
      (record { few = ready.few; room = ready.room; rooms = ready.rooms })
