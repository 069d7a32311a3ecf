-- ===== src/Pbft/ViewChange/Counts.antt =====
-- How many view changes and new views are stored for later views, and room for their numbers.
use client_sdk.Prelude.{
  ℕ, suc, ◌+◌, ◌^◌, ◌≤◌, ◌<◌, ◌≡◌, ◌⊎◌, inl, inr, Bool, ◌&&◌, some, [], ◌∷◌, arith, ltb, leb, ◌==◌,
  Map, lookup, insert, delete, keep_entries, Bool-cases, nat_eq, if◌then◌else◌,
}
use client_sdk.Pbft.Messages.{ViewChange, NewView}
use client_sdk.Pbft.State.{VcIdx, vcidx_eq}

-- How many view changes ask for a view above `v`.
abbrev pub later : ℕ → Map VcIdx ViewChange → ℕ
later v [] = 0
later v ((idx, vc) ∷ rest) = if ltb v idx.v then suc (later v rest) else later v rest

-- How many new views from `v` on are stored.
abbrev pub stored : ℕ → Map ℕ NewView → ℕ
stored v [] = 0
stored v ((k, nv) ∷ rest) = if leb v k then suc (stored v rest) else stored v rest

-- There is a view change for `v`.
abbrev pub HasView : ℕ → Map VcIdx ViewChange → Type 0
HasView v [] = ⊥
HasView v ((idx, vc) ∷ rest) = (idx.v ≡ v) ⊎ HasView v rest

-- No view that is asked for is within `k` of the largest machine integer.
abbrev pub Room : ℕ → Map VcIdx ViewChange → Type 0
Room k [] = Unit
Room k ((idx, vc) ∷ rest) = (idx.v + k < 2 ^ 64) × Room k rest

pub later-insert :
    (v : ℕ) (idx : VcIdx) (vc : ViewChange) (m : Map VcIdx ViewChange)
    → idx.v ≤ v
    → later v (insert idx vc m) ≤ later v m
unfolding insert
later-insert v idx vc [] low = ground arith
later-insert v idx vc ((j, w) ∷ rest) low = ground (arith, later-insert v idx vc rest low)

pub later-insert_any :
    (v : ℕ) (idx : VcIdx) (vc : ViewChange) (m : Map VcIdx ViewChange)
    → later v (insert idx vc m) ≤ suc (later v m)
unfolding insert
later-insert_any v idx vc [] = ground arith
later-insert_any v idx vc ((j, w) ∷ rest) = ground (arith, later-insert_any v idx vc rest)

pub stored-insert_any :
    (v k : ℕ) (nv : NewView) (m : Map ℕ NewView) → stored v (insert k nv m) ≤ suc (stored v m)
unfolding insert
stored-insert_any v k nv [] = ground arith
stored-insert_any v k nv ((j, x) ∷ rest) = ground (arith, stored-insert_any v k nv rest)

pub later-keep_entries :
    (v : ℕ) (test : VcIdx → ViewChange → Bool) (m : Map VcIdx ViewChange)
    → later v (keep_entries test m) ≤ later v m
unfolding keep_entries
later-keep_entries v test [] = omega arith
later-keep_entries v test ((j, w) ∷ rest) = ground (arith, later-keep_entries v test rest)

pub later_mono : (v w : ℕ) (m : Map VcIdx ViewChange) → v ≤ w → later w m ≤ later v m
later_mono v w [] h = omega arith
later_mono v w ((j, x) ∷ rest) h = ground (arith, later_mono v w rest h)

pub later_drop : (v w : ℕ) (m : Map VcIdx ViewChange) → HasView w m → v < w → later w m < later v m
later_drop v w [] h low = elim h [ ]
later_drop v w ((j, x) ∷ rest) (inl here) low =
    ground (arith, later_mono v w rest (omega (arith, low)))
later_drop v w ((j, x) ∷ rest) (inr there) low = ground (arith, later_drop v w rest there low)

pub stored-delete : (v k : ℕ) (m : Map ℕ NewView) → stored v (delete k m) ≤ stored v m
unfolding delete
stored-delete v k [] = omega arith
stored-delete v k ((j, x) ∷ rest) = ground (arith, stored-delete v k rest)

pub stored_mono : (v w : ℕ) (m : Map ℕ NewView) → v ≤ w → stored w m ≤ stored v m
stored_mono v w [] h = omega arith
stored_mono v w ((j, x) ∷ rest) h = ground (arith, stored_mono v w rest h)

pub stored_drop :
    (v : ℕ) (m : Map ℕ NewView) (nv : NewView)
    → lookup v m ≡ some nv
    → stored (suc v) m < stored v m
unfolding lookup
stored_drop v [] nv found = absurd (cc found)
stored_drop v ((j, x) ∷ rest) nv found = elim (Bool-cases (j == v)) [
  | inl here ↦ ground (arith, here, stored_mono v (suc v) rest (omega arith))
  | inr other ↦ ground (arith, other, found, stored_drop v rest nv)
]

pub Room-weaken : (k l : ℕ) (m : Map VcIdx ViewChange) → k ≤ l → Room l m → Room k m
Room-weaken k l [] low room = tt
Room-weaken k l ((j, x) ∷ rest) low room =
    (omega (arith, low, room.0), Room-weaken k l rest low room.1)

pub Room-insert :
    (k : ℕ) (idx : VcIdx) (vc : ViewChange) (m : Map VcIdx ViewChange)
    → idx.v + k < 2 ^ 64
    → Room k m
    → Room k (insert idx vc m)
unfolding insert
Room-insert k idx vc [] low room = (low, tt)
Room-insert k idx vc ((j, x) ∷ rest) low room =
    elim (Bool-cases ((j.v == idx.v) && (j.id == idx.id))) [
      | inl here ↦ rw here (low, room.1)
      | inr other ↦ rw other (room.0, Room-insert k idx vc rest low room.1)
    ]

pub Room-keep_entries :
    (k : ℕ) (test : VcIdx → ViewChange → Bool) (m : Map VcIdx ViewChange)
    → Room k m
    → Room k (keep_entries test m)
unfolding keep_entries
Room-keep_entries k test [] room = tt
Room-keep_entries k test ((j, x) ∷ rest) room = elim (Bool-cases (test j x)) [
  | inl kept ↦ rw kept (room.0, Room-keep_entries k test rest room.1)
  | inr gone ↦ rw gone (Room-keep_entries k test rest room.1)
]

pub Room-HasView : (k v : ℕ) (m : Map VcIdx ViewChange) → Room k m → HasView v m → v + k < 2 ^ 64
Room-HasView k v [] room h = elim h [ ]
Room-HasView k v ((j, x) ∷ rest) room (inl here) = omega (arith, here, room.0)
Room-HasView k v ((j, x) ∷ rest) room (inr there) = Room-HasView k v rest room.1 there
