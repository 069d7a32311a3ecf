-- ===== src/Pbft/ViewChange/Later.antt =====
-- The walk of `recvViewChange` over the view changes for later views.
use client_sdk.Prelude.{
  ℕ, suc, ◌+◌, ◌^◌, ◌≤◌, ◌<◌, ◌≡◌, ◌⊎◌, refl, sym, ap, subst, inl, inr, Bool, true, false, ◌||◌, [],
  ◌∷◌, arith, ltb, leb, ◌==◌, Map, insert, Bool-cases, nat_eq, if◌then◌else◌,
}
use client_sdk.Pbft.Messages.{ViewChange}
use client_sdk.Pbft.State.{PbftCore, VcIdx, vcidx_eq}
use client_sdk.Pbft.ViewChange.{later_views}
use client_sdk.Pbft.ViewChange.Counts.{later, stored, HasView, Room}

-- One round of the loop of `recvViewChange` over the views.
module _ (view : ℕ) (idx : VcIdx) (vc : ViewChange) (rest : Map VcIdx ViewChange) where
  later_views-past :
      (found : Map ℕ Bool × ℕ)
      → leb idx.v view ≡ true
      → later_views view ((idx, vc) ∷ rest) found ≡ later_views view rest found
  unfolding later_views
  later_views-past found past = ap (later_views view rest) (rw past refl)

  later_views-ahead :
      (found : Map ℕ Bool × ℕ) (first : Bool)
      → leb idx.v view ≡ false
      → ((found.1 == 0) || ltb idx.v found.1) ≡ first
      → later_views view ((idx, vc) ∷ rest) found
        ≡ later_views view rest (insert idx.id true found.0, if first then idx.v else found.1)
  unfolding later_views
  later_views-ahead found first ahead smaller =
      ap (later_views view rest) (rw (ahead, smaller) refl)

-- The smallest view that `recvViewChange` finds is one that is asked for.
abbrev From : ℕ → Map VcIdx ViewChange → ℕ → Map ℕ Bool × ℕ → Type 0
From view m min_view r = (view < r.1) × ((r.1 ≡ min_view) ⊎ HasView r.1 m)

later_views-From :
    (view : ℕ) (m : Map VcIdx ViewChange) (found : Map ℕ Bool × ℕ)
    → view < found.1
    → From view m found.1 (later_views view m found)
unfolding later_views
later_views-From view [] found low = (low, inl refl)
later_views-From view ((idx, vc) ∷ rest) found low = elim (Bool-cases (leb idx.v view)) [
  | inl past ↦
      let (up, from) = later_views-From view rest found low in
      subst (From view ((idx, vc) ∷ rest) found.1)
        (sym (later_views-past view idx vc rest found past))
        (up, elim from [ inl e ↦ inl e | inr e ↦ inr (inr e) ])
  | inr ahead ↦ elim (Bool-cases ((found.1 == 0) || ltb idx.v found.1)) [
    | inl first ↦
        let (up, from) =
          later_views-From view rest (insert idx.id true found.0, idx.v) (ground (arith, ahead)) in
        subst (From view ((idx, vc) ∷ rest) found.1)
          (sym (later_views-ahead view idx vc rest found true ahead first))
          (up, elim from [ inl e ↦ inr (inl (sym e)) | inr e ↦ inr (inr e) ])
    | inr other ↦
        let (up, from) = later_views-From view rest (insert idx.id true found.0, found.1) low in
        subst (From view ((idx, vc) ∷ rest) found.1)
          (sym (later_views-ahead view idx vc rest found false ahead other))
          (up, elim from [ inl e ↦ inl e | inr e ↦ inr (inr e) ])
  ]
]

abbrev Found : ℕ → Map VcIdx ViewChange → Map ℕ Bool × ℕ → Type 0
Found view m r = (r ≡ ([], 0)) ⊎ ((view < r.1) × HasView r.1 m)

pub later_views-Found :
    (view : ℕ) (m : Map VcIdx ViewChange) → Found view m (later_views view m ([], 0))
unfolding later_views
later_views-Found view [] = inl refl
later_views-Found view ((idx, vc) ∷ rest) = elim (Bool-cases (leb idx.v view)) [
  | inl past ↦
      subst (Found view ((idx, vc) ∷ rest)) (sym (later_views-past view idx vc rest ([], 0) past))
        (elim (later_views-Found view rest) [ inl e ↦ inl e | inr (up, from) ↦ inr (up, inr from) ])
  | inr ahead ↦
      let (up, from) =
        later_views-From view rest (insert idx.id true [], idx.v) (ground (arith, ahead)) in
      subst (Found view ((idx, vc) ∷ rest))
        (sym (later_views-ahead view idx vc rest ([], 0) true ahead refl))
        (inr (up, elim from [ inl e ↦ inl (sym e) | inr e ↦ inr e ]))
]

-- What bounds the view changes that a replica may still send.
pub record Budget (fuel : ℕ) (c : PbftCore) : Type 0 where
  pub few : later (suc c.view) c.view_change_store + stored (suc c.view) c.new_view_store < fuel
  pub room : c.view + suc fuel < 2 ^ 64
  pub rooms : Room (suc fuel) c.view_change_store

-- The same of a replica that has just entered its view.
pub record Ready (fuel : ℕ) (c : PbftCore) : Type 0 where
  pub few : later c.view c.view_change_store + stored c.view c.new_view_store ≤ fuel
  pub room : c.view + suc fuel < 2 ^ 64
  pub rooms : Room (suc fuel) c.view_change_store
