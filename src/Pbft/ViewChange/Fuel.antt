-- ===== src/Pbft/ViewChange/Fuel.antt =====
-- The fuel of the handlers that leave a view is enough.
use client_sdk.Prelude.{
  ℕ, zero, suc, ◌+◌, ◌^◌, ◌≤◌, ◌<◌, ◌≡◌, sym, ap, ◌∙◌, [], ◌∷◌, arith, length, Map,
}
use client_sdk.Pbft.Messages.{ViewChange, NewView}
use client_sdk.Pbft.State.{PbftCore, VcIdx, vcidx_eq, Env}
use client_sdk.Pbft.ViewChange.{
  process_new_view_with, recv_view_change_with, recv_new_view_with, send_view_change, view_fuel,
  recv_view_change, recv_new_view, process_new_view,
}
use client_sdk.Pbft.ViewChange.Counts.{
  later, stored, Room, later-insert_any, stored-insert_any, Room-weaken, Room-insert,
}
use client_sdk.Pbft.ViewChange.Later.{Budget}
use client_sdk.Pbft.ViewChange.Ends.{
  SignsView, send_view_change_same, process_new_view_with_same, recv_view_change_with_stored,
  recv_new_view_with_stored,
}

later_le_length : (v : ℕ) (m : Map VcIdx ViewChange) → later v m ≤ length m
later_le_length v [] = omega arith
later_le_length v ((idx, vc) ∷ rest) = ground (arith, later_le_length v rest)

stored_le_length : (v : ℕ) (m : Map ℕ NewView) → stored v m ≤ length m
stored_le_length v [] = omega arith
stored_le_length v ((k, nv) ∷ rest) = ground (arith, stored_le_length v rest)

-- What is stored for a view or a later one leaves two of the fuel.
enough :
    (c : PbftCore) (v : ℕ)
    → suc (suc (suc (later v c.view_change_store + stored v c.new_view_store))) ≤ view_fuel c
unfolding view_fuel
enough c v =
    omega (arith, later_le_length v c.view_change_store, stored_le_length v c.new_view_store)

-- A result that does not change from one amount to the next does not change at all.
unchanged :
    (result : ℕ → PbftCore) (base more : ℕ)
    → ((k : ℕ) → k < more → result (k + base) ≡ result (suc (k + base)))
    → result (more + base) ≡ result base
unchanged result base zero step = ap result (omega arith)
unchanged result base (suc more) step =
    ap result (omega arith)
    ∙ sym (step more (omega arith))
    ∙ unchanged result base more (λ k below. step k (omega (arith, below)))

module _ (env : Env) (signs : SignsView env) (c : PbftCore) (more : ℕ)
    (room : c.view + (more + view_fuel c) < 2 ^ 64)
    (rooms : Room (more + view_fuel c) c.view_change_store) (k : ℕ) (below : k < more) where
  less : (x : ℕ) → x + (more + view_fuel c) < 2 ^ 64 → x + suc (k + view_fuel c) < 2 ^ 64
  less x h = omega (arith, h, below)

  fewer_rooms : Room (suc (k + view_fuel c)) c.view_change_store
  fewer_rooms = Room-weaken _ _ c.view_change_store (omega (arith, below)) rooms

  agrees :
      (x : PbftCore)
      → Budget (k + view_fuel c) x
      → send_view_change (k + view_fuel c) env x ≡ send_view_change (suc (k + view_fuel c)) env x
  agrees x budget = send_view_change_same env (k + view_fuel c) x signs budget

  send_step :
      send_view_change (k + view_fuel c) env c ≡ send_view_change (suc (k + view_fuel c)) env c
  send_step = agrees c (record {
    few = omega (arith, enough c (suc c.view));
    room = less c.view room;
    rooms = fewer_rooms;
  })

  process_step :
      process_new_view_with env (send_view_change (k + view_fuel c) env) c
      ≡ process_new_view_with env (send_view_change (suc (k + view_fuel c)) env) c
  process_step = process_new_view_with_same env (k + view_fuel c) _ _ agrees c (record {
    few = omega (arith, enough c c.view);
    room = less c.view room;
    rooms = fewer_rooms;
  })

  recv_new_view_step :
      (nv : NewView)
      → recv_new_view_with env (send_view_change (k + view_fuel c) env) nv c
        ≡ recv_new_view_with env (send_view_change (suc (k + view_fuel c)) env) nv c
  recv_new_view_step nv = recv_new_view_with_stored env (k + view_fuel c) _ _ agrees nv c (record {
    few = omega (arith, enough c c.view, stored-insert_any c.view nv.view nv c.new_view_store);
    room = less c.view room;
    rooms = fewer_rooms;
  })

  recv_view_change_step :
      (vc : ViewChange)
      → vc.view + (more + view_fuel c) < 2 ^ 64
      → recv_view_change_with env (send_view_change (k + view_fuel c) env) vc c
        ≡ recv_view_change_with env (send_view_change (suc (k + view_fuel c)) env) vc c
  recv_view_change_step vc asked =
      let idx : VcIdx = record { v = vc.view; id = vc.replica_id } in
      recv_view_change_with_stored env (k + view_fuel c) _ _ agrees vc c (record {
        few = omega (arith, enough c c.view, later-insert_any c.view idx vc c.view_change_store);
        room = less c.view room;
        rooms =
            Room-insert (suc (k + view_fuel c)) idx vc c.view_change_store (less vc.view asked)
              fewer_rooms;
      })

-- The fuel that the model gives is enough for each of the handlers that may call
-- `sendViewChange`, and for that call by the view timer: any amount more has the same result, where
-- signing leaves the view of a message, and neither the replica's view, nor the view of the message
-- that is received, nor a view that is asked for is within that much of the largest machine integer.
pub handlers-end :
    (env : Env) (more : ℕ) (vc : ViewChange) (nv : NewView) (c : PbftCore)
    → SignsView env
    → c.view + (more + view_fuel c) < 2 ^ 64
    → vc.view + (more + view_fuel c) < 2 ^ 64
    → Room (more + view_fuel c) c.view_change_store
    → (send_view_change (more + view_fuel c) env c ≡ send_view_change (view_fuel c) env c)
      × (process_new_view_with env (send_view_change (more + view_fuel c) env) c
          ≡ process_new_view env c)
      × (recv_view_change_with env (send_view_change (more + view_fuel c) env) vc c
          ≡ recv_view_change env vc c)
      × (recv_new_view_with env (send_view_change (more + view_fuel c) env) nv c
          ≡ recv_new_view env nv c)
unfolding process_new_view recv_view_change recv_new_view
handlers-end env more vc nv c signs room asked rooms = (
  unchanged (λ fuel. send_view_change fuel env c) (view_fuel c) more
      (λ k below. send_step env signs c more room rooms k below),
  unchanged (λ fuel. process_new_view_with env (send_view_change fuel env) c) (view_fuel c) more
      (λ k below. process_step env signs c more room rooms k below),
  unchanged (λ fuel. recv_view_change_with env (send_view_change fuel env) vc c) (view_fuel c) more
      (λ k below. recv_view_change_step env signs c more room rooms k below vc asked),
  unchanged (λ fuel. recv_new_view_with env (send_view_change fuel env) nv c) (view_fuel c) more
      (λ k below. recv_new_view_step env signs c more room rooms k below nv),
)
