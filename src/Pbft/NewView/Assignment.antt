-- ===== src/Pbft/NewView/Assignment.antt =====
-- Every number that `assignSequenceNumbers` assigns is in the window and has the quorums of its
-- conditions.
use client_sdk.Prelude.{
  ℕ, zero, suc, ◌+◌, ◌^◌, ◌≤◌, ◌<◌, String, ◌≡◌, ◌⊎◌, refl, Bool, true, not, ◌&&◌, some, List, [],
  ◌∷◌, arith, inl, inr, ltb, ◌==◌, All, count, nat_eq, string_eq, Bool-cases, Option-cases, Map,
  insert, keep_entries, add64,
}
use client_sdk.Pbft.Messages.{ViewChange, ViewChangePq}
use client_sdk.Pbft.State.{PbftCore}
use client_sdk.Pbft.Quorum.{intersection_quorum}
use client_sdk.Pbft.NewView.{
  pset_entries, allows, pre_prepares_for, selects, first_selected, null_quorum, assign_loop,
  assign_sequence_numbers,
}

abbrev Among : ViewChangePq → List ViewChangePq → Type 0
Among em [] = ⊥
Among em (x ∷ xs) = (x ≡ em) ⊎ Among em xs

-- A number may have the digest of an entry of a P set with a quorum that allows it and `f + 1`
-- entries of Q sets for it, or the null request where a quorum has no entry for the number.
pub Justified : PbftCore → List ViewChange → ℕ → String → Type 0
Justified c vset n digest =
    ((em : ViewChangePq) × Among em (pset_entries vset)
      × (em.digest ≡ digest)
      × (intersection_quorum c ≤ count (allows n em) vset)
      × (c.f < pre_prepares_for n em vset))
    ⊎ ((digest ≡ "") × (null_quorum c vset n ≡ true))

first_selected-eq-some :
    (c : PbftCore) (vset : List ViewChange) (n : ℕ) (digest : String) (ems : List ViewChangePq)
    → first_selected c vset n ems ≡ some digest
    → (em : ViewChangePq) × Among em ems
      × (em.digest ≡ digest)
      × (intersection_quorum c ≤ count (allows n em) vset)
      × (c.f < pre_prepares_for n em vset)
unfolding first_selected selects
first_selected-eq-some c vset n digest [] e = absurd (cc e)
first_selected-eq-some c vset n digest (em ∷ rest) e = elim (Bool-cases (selects c vset n em)) [
  | inl here ↦ (em, inl refl, ground arith, ground arith, ground arith)
  | inr other ↦
      let (x, among, is, a1, a2) = first_selected-eq-some c vset n digest rest (ground arith) in
      (x, inr among, is, a1, a2)
]

-- What an assignment between `h` and `last` has to meet.
abbrev pub Assigned : PbftCore → List ViewChange → ℕ → ℕ → ℕ × String → Type 0
Assigned c vset h last entry = (h < entry.0) × (entry.0 ≤ last) × Justified c vset entry.0 entry.1

All-insert :
    (P : ℕ × String → Type 0) (n : ℕ) (d : String) (m : Map ℕ String)
    → P (n, d)
    → All P m
    → All P (insert n d m)
unfolding insert
All-insert P n d [] p all = (p, tt)
All-insert P n d ((k, v) ∷ m) p all = elim (Bool-cases (k == n)) [
  | inl here ↦ rw here (p, all.1)
  | inr other ↦ rw other (all.0, All-insert P n d m p all.1)
]

All-keep_entries :
    (P : ℕ × String → Type 0) (test : ℕ → String → Bool) (m : Map ℕ String)
    → All P m
    → All P (keep_entries test m)
unfolding keep_entries
All-keep_entries P test [] all = tt
All-keep_entries P test ((k, v) ∷ m) all = elim (Bool-cases (test k v)) [
  | inl kept ↦ rw kept (all.0, All-keep_entries P test m all.1)
  | inr gone ↦ rw gone (All-keep_entries P test m all.1)
]

module _ (c : PbftCore) (vset : List ViewChange) (h last : ℕ) (fits : last + 1 < 2 ^ 64) where
  assign_loop-Assigned :
      (fuel n max_n : ℕ) (m : Map ℕ String) (found : ℕ × Map ℕ String)
      → h < n
      → All (Assigned c vset h last) m
      → assign_loop c vset last fuel n max_n m ≡ some found
      → All (Assigned c vset h last) found.1
  unfolding assign_loop Justified
  assign_loop-Assigned zero n max_n m found above all e =
      let same : (max_n, m) ≡ found = ground (arith, e) in rw (← same) all
  assign_loop-Assigned (suc fuel) n max_n m found above all e = elim (Bool-cases (ltb last n)) [
    | inl over ↦ let same : (max_n, m) ≡ found = ground (arith, e, over) in rw (← same) all
    | inr within ↦
        let low : n ≤ last = ground arith in
        let next : add64 n 1 ≡ suc n = ground arith in
        elim (Option-cases (first_selected c vset n (pset_entries vset))) [
          | inr (digest, chosen) ↦
              let why = first_selected-eq-some c vset n digest (pset_entries vset) chosen in
              assign_loop-Assigned fuel (add64 n 1) n (insert n digest m) found
                (rw next (omega arith)) (All-insert _ n digest m (above, low, inl why) all)
                (ground (arith, e, within, chosen))
          | inl nothing ↦ elim (Bool-cases (null_quorum c vset n)) [
            | inl empty ↦
                assign_loop-Assigned fuel (add64 n 1) max_n (insert n "" m) found
                  (rw next (omega arith)) (All-insert _ n "" m (above, low, inr (refl, empty)) all)
                  (ground (arith, e, within, nothing, empty))
            | inr neither ↦ absurd (ground (arith, e, within, nothing, neither))
          ]
        ]
  ]

-- Where `assignSequenceNumbers` returns an assignment, in a log that ends below the largest
-- machine integer, each of its numbers is above `h` and in the log, and is justified.
pub assign_sequence_numbers-Assigned :
    (c : PbftCore) (vset : List ViewChange) (h : ℕ) (msg_list : Map ℕ String)
    → h + c.l + 1 < 2 ^ 64
    → assign_sequence_numbers vset h c ≡ some msg_list
    → All (Assigned c vset h (h + c.l)) msg_list
unfolding assign_sequence_numbers
assign_sequence_numbers-Assigned c vset h msg_list fits e =
    let last : add64 h c.l ≡ h + c.l = ground arith in
    let first : add64 h 1 ≡ suc h = ground arith in
    elim (Option-cases (assign_loop c vset (add64 h c.l) c.l (add64 h 1) (add64 h 1) [])) [
      | inl none_found ↦ absurd (ground (arith, e, none_found))
      | inr (found, done) ↦
          let is : keep_entries (λ n msg. not (ltb found.0 n && (msg == ""))) found.1 ≡ msg_list =
            ground (arith, e, done) in
          rw (← is) (
            All-keep_entries _ _ found.1 (
              assign_loop-Assigned c vset h (h + c.l) fits c.l (add64 h 1) (add64 h 1) [] found
                (rw first (omega arith)) tt (rw last at done)))
    ]
