-- ===== src/Ledger/BucketTree/Nodes/Taken.antt =====
-- The nodes that the merge of changed and stored nodes takes.
use client_sdk.Prelude.{
  ℕ, zero, suc, ◌+◌, ◌≤◌, ◌≡◌, refl, sym, ap, ap₂, ◌∙◌, subst, ◌⊎◌, inl, inr, Option, none, some,
  List, [], ◌∷◌, arith, length, All, All-map,
}
use client_sdk.Ledger.Text.{Text}
use client_sdk.Ledger.Bytes.{less, same, greater, compare_bytes}
use client_sdk.Ledger.Bytes.Order.{compare_bytes-same, compare_bytes-greater, compare_bytes_trans}
use client_sdk.Ledger.BucketTree.Nodes.{DataNode, merge_nodes}
use client_sdk.Ledger.BucketTree.Nodes.Sorted.{
  key_of, IsAscending, find_node, compare-cases, find_node-below,
}

-- The newer of two nodes of a key.
abbrev pub newer : Option DataNode → Option DataNode → Option DataNode
newer none old = old
newer (some u) old = some u

newer-none : (o : Option DataNode) → newer o none ≡ o
newer-none none = refl
newer-none (some n) = refl

module _ (n : DataNode) (rest : List DataNode) (k : Text) where
  pub find_node-here : compare_bytes (key_of n) k ≡ same → find_node k (n ∷ rest) ≡ some n
  unfolding find_node
  find_node-here here = ground (arith, here)

  pub find_node-other :
      (compare_bytes (key_of n) k ≡ less) ⊎ (compare_bytes (key_of n) k ≡ greater)
      → find_node k (n ∷ rest) ≡ find_node k rest
  unfolding find_node
  find_node-other other = ground arith

-- One step of the loop.
module _ (fuel : ℕ) (u e : DataNode) (us es : List DataNode) where
  merge_nodes-less :
      compare_bytes (key_of u) (key_of e) ≡ less
      → merge_nodes (suc fuel) (u ∷ us) (e ∷ es) ≡ u ∷ merge_nodes fuel us (e ∷ es)
  unfolding merge_nodes
  merge_nodes-less h = rw (h, merge_nodes) refl

  merge_nodes-same :
      compare_bytes (key_of u) (key_of e) ≡ same
      → merge_nodes (suc fuel) (u ∷ us) (e ∷ es) ≡ u ∷ merge_nodes fuel us es
  unfolding merge_nodes
  merge_nodes-same h = rw (h, merge_nodes) refl

  merge_nodes-greater :
      compare_bytes (key_of u) (key_of e) ≡ greater
      → merge_nodes (suc fuel) (u ∷ us) (e ∷ es) ≡ e ∷ merge_nodes fuel (u ∷ us) es
  unfolding merge_nodes
  merge_nodes-greater h = rw (h, merge_nodes) refl

-- What the loop takes: of each key the updated node, or else the existing one.
pub find_node-merge_nodes :
    (fuel : ℕ) (us es : List DataNode) (k : Text)
    → length us + length es ≤ fuel
    → IsAscending us
    → IsAscending es
    → find_node k (merge_nodes fuel us es) ≡ newer (find_node k us) (find_node k es)
unfolding merge_nodes find_node
find_node-merge_nodes fuel [] es k enough au ae = refl
find_node-merge_nodes fuel (u ∷ us) [] k enough au ae = sym (newer-none _)
find_node-merge_nodes zero (u ∷ us) (e ∷ es) k enough au ae = absurd (omega arith)
find_node-merge_nodes (suc fuel) (u ∷ us) (e ∷ es) k enough au ae =
    elim (compare-cases (key_of u) (key_of e)) [
      | inl below ↦
          let rest = find_node-merge_nodes fuel us (e ∷ es) k (omega (arith, enough)) au.1 ae in
          ap (find_node k) (merge_nodes-less fuel u e us es below)
          ∙ elim (compare-cases (key_of u) k) [
            | inr (inl here) ↦
                find_node-here u _ k here
                ∙ sym (ap (λ o. newer o (find_node k (e ∷ es))) (find_node-here u us k here))
            | inl lower ↦
                find_node-other u _ k (inl lower)
                ∙ rest
                ∙ sym
                    (ap (λ o. newer o (find_node k (e ∷ es))) (find_node-other u us k (inl lower)))
            | inr (inr higher) ↦
                find_node-other u _ k (inr higher)
                ∙ rest
                ∙ sym
                    (ap (λ o. newer o (find_node k (e ∷ es))) (find_node-other u us k (inr higher)))
          ]
      | inr (inl equal) ↦
          let rest = find_node-merge_nodes fuel us es k (omega (arith, enough)) au.1 ae.1 in
          let q : key_of u ≡ key_of e = compare_bytes-same (key_of u) (key_of e) equal in
          let passed =
            λ (o : (compare_bytes (key_of u) k ≡ less) ⊎ (compare_bytes (key_of u) k ≡ greater)).
              find_node-other u (merge_nodes fuel us es) k o
              ∙ rest
              ∙ sym (
                  ap₂ newer (find_node-other u us k o) (
                    find_node-other e es k (
                      subst (λ j. (compare_bytes j k ≡ less) ⊎ (compare_bytes j k ≡ greater)) q
                        o))) in
          ap (find_node k) (merge_nodes-same fuel u e us es equal)
          ∙ elim (compare-cases (key_of u) k) [
            | inr (inl here) ↦
                find_node-here u _ k here
                ∙ sym (ap (λ o. newer o (find_node k (e ∷ es))) (find_node-here u us k here))
            | inl lower ↦ passed (inl lower)
            | inr (inr higher) ↦ passed (inr higher)
          ]
      | inr (inr above) ↦
          let rest = find_node-merge_nodes fuel (u ∷ us) es k (omega (arith, enough)) au ae.1 in
          let passed =
            λ (o : (compare_bytes (key_of e) k ≡ less) ⊎ (compare_bytes (key_of e) k ≡ greater)).
              find_node-other e (merge_nodes fuel (u ∷ us) es) k o
              ∙ rest
              ∙ sym (ap (newer (find_node k (u ∷ us))) (find_node-other e es k o)) in
          ap (find_node k) (merge_nodes-greater fuel u e us es above)
          ∙ elim (compare-cases (key_of e) k) [
            | inr (inl here) ↦
                let up : compare_bytes (key_of e) (key_of u) ≡ less =
                  (compare_bytes-greater (key_of u) (key_of e)).0 above in
                let nothing = find_node-below (key_of e) (u ∷ us) (
                  up,
                  All-map _ _ us (λ m more. compare_bytes_trans _ (key_of u) _ up more) au.0,
                ) in
                let gone : find_node k (u ∷ us) ≡ none =
                  subst (λ j. find_node j (u ∷ us) ≡ none) (compare_bytes-same (key_of e) k here)
                    nothing in
                find_node-here e _ k here ∙ sym (ap₂ newer gone (find_node-here e es k here))
            | inl lower ↦ passed (inl lower)
            | inr (inr higher) ↦ passed (inr higher)
          ]
    ]

All-below-merge_nodes :
    (fuel : ℕ) (k : Text) (us es : List DataNode)
    → All (λ (m : DataNode). compare_bytes k (key_of m) ≡ less) us
    → All (λ (m : DataNode). compare_bytes k (key_of m) ≡ less) es
    → All (λ (m : DataNode). compare_bytes k (key_of m) ≡ less) (merge_nodes fuel us es)
unfolding merge_nodes
All-below-merge_nodes fuel k [] es bu be = be
All-below-merge_nodes fuel k (u ∷ us) [] bu be = bu
All-below-merge_nodes zero k (u ∷ us) (e ∷ es) bu be = tt
All-below-merge_nodes (suc fuel) k (u ∷ us) (e ∷ es) bu be =
    elim (compare-cases (key_of u) (key_of e)) [
      | inl below ↦
          subst (All (λ (m : DataNode). compare_bytes k (key_of m) ≡ less))
            (sym (merge_nodes-less fuel u e us es below))
            (bu.0, All-below-merge_nodes fuel k us (e ∷ es) bu.1 be)
      | inr (inl equal) ↦
          subst (All (λ (m : DataNode). compare_bytes k (key_of m) ≡ less))
            (sym (merge_nodes-same fuel u e us es equal))
            (bu.0, All-below-merge_nodes fuel k us es bu.1 be.1)
      | inr (inr above) ↦
          subst (All (λ (m : DataNode). compare_bytes k (key_of m) ≡ less))
            (sym (merge_nodes-greater fuel u e us es above))
            (be.0, All-below-merge_nodes fuel k (u ∷ us) es bu be.1)
    ]

-- What is above the second key is above the first, if the first is below it.
All-below_trans :
    (k l : Text) (ns : List DataNode)
    → compare_bytes k l ≡ less
    → All (λ (m : DataNode). compare_bytes l (key_of m) ≡ less) ns
    → All (λ (m : DataNode). compare_bytes k (key_of m) ≡ less) ns
All-below_trans k l ns low = All-map _ _ ns (λ m up. compare_bytes_trans k l (key_of m) low up)

-- The loop takes its nodes in order.
pub IsAscending-merge_nodes :
    (fuel : ℕ) (us es : List DataNode)
    → IsAscending us
    → IsAscending es
    → IsAscending (merge_nodes fuel us es)
unfolding merge_nodes
IsAscending-merge_nodes fuel [] es au ae = ae
IsAscending-merge_nodes fuel (u ∷ us) [] au ae = au
IsAscending-merge_nodes zero (u ∷ us) (e ∷ es) au ae = tt
IsAscending-merge_nodes (suc fuel) (u ∷ us) (e ∷ es) au ae =
    elim (compare-cases (key_of u) (key_of e)) [
      | inl below ↦ subst (IsAscending) (sym (merge_nodes-less fuel u e us es below)) (
        All-below-merge_nodes fuel (key_of u) us (e ∷ es) au.0
            (below, All-below_trans (key_of u) (key_of e) es below ae.0),
        IsAscending-merge_nodes fuel us (e ∷ es) au.1 ae,
      )
      | inr (inl equal) ↦
          let q : key_of e ≡ key_of u = sym (compare_bytes-same (key_of u) (key_of e) equal) in
          subst (IsAscending) (sym (merge_nodes-same fuel u e us es equal)) (
            All-below-merge_nodes fuel (key_of u) us es au.0
                (subst (λ j. All (λ (m : DataNode). compare_bytes j (key_of m) ≡ less) es) q ae.0),
            IsAscending-merge_nodes fuel us es au.1 ae.1,
          )
      | inr (inr above) ↦
          let up : compare_bytes (key_of e) (key_of u) ≡ less =
            (compare_bytes-greater (key_of u) (key_of e)).0 above in
          subst (IsAscending) (sym (merge_nodes-greater fuel u e us es above)) (
            All-below-merge_nodes fuel (key_of e) (u ∷ us) es
                (up, All-below_trans (key_of e) (key_of u) us up au.0) ae.0,
            IsAscending-merge_nodes fuel (u ∷ us) es au ae.1,
          )
    ]
