-- ===== src/Ledger/BucketTree/Nodes/Sorted.antt =====
-- Nodes in the order of their keys, and what is found in them.
use client_sdk.Prelude.{
  ◌≡◌, refl, sym, ap₂, ◌≢◌, ◌∙◌, subst, ◌⊎◌, inl, inr, Option, none, some, List, [], ◌∷◌, arith,
  All, All-map,
}
use client_sdk.Ledger.Text.{Text}
use client_sdk.Ledger.Bytes.{Comparison, less, same, greater, compare_bytes}
use client_sdk.Ledger.Bytes.Order.{
  compare_bytes-same, compare_bytes_refl, compare_bytes-greater, compare_bytes_trans,
}
use client_sdk.Ledger.BucketTree.Nodes.{DataNode}

abbrev pub key_of : DataNode → Text
key_of n = n.data_key.composite_key

-- The nodes of a bucket come in the strict order of their keys.
abbrev pub IsAscending : List DataNode → Type 0
IsAscending [] = Unit
IsAscending (n ∷ rest) =
    All (λ (m : DataNode). compare_bytes (key_of n) (key_of m) ≡ less) rest × IsAscending rest

-- The node of a key.
unfoldable pub find_node : Text → List DataNode → Option DataNode
find_node k [] = none
find_node k (n ∷ rest) =
    let later = find_node k rest in elim (compare_bytes (key_of n) k) [ same ↦ some n | _ ↦ later ]

pub compare-cases :
    (s t : Text)
    → (compare_bytes s t ≡ less) ⊎ ((compare_bytes s t ≡ same) ⊎ (compare_bytes s t ≡ greater))
compare-cases s t = cases (compare_bytes s t)
  where
    cases : (c : Comparison) → (c ≡ less) ⊎ ((c ≡ same) ⊎ (c ≡ greater))
    cases less = inl refl
    cases same = inr (inl refl)
    cases greater = inr (inr refl)

-- Nothing is found below the first key.
pub find_node-below :
    (k : Text) (ns : List DataNode)
    → All (λ (m : DataNode). compare_bytes k (key_of m) ≡ less) ns
    → find_node k ns ≡ none
unfolding find_node
find_node-below k [] h = refl
find_node-below k (n ∷ rest) h =
    let later = find_node-below k rest h.1 in
    ground (arith, later, h.0, compare_bytes-greater (key_of n) k)

-- The first key of a list is not below that of an ascending list with the same nodes.
not_below :
    (x y : DataNode) (xs ys : List DataNode)
    → IsAscending (y ∷ ys)
    → find_node (key_of x) (x ∷ xs) ≡ find_node (key_of x) (y ∷ ys)
    → compare_bytes (key_of x) (key_of y) ≢ less
unfolding find_node
not_below x y xs ys ay h below =
    let nothing =
      find_node-below (key_of x) (y ∷ ys)
        (below, All-map _ _ ys (λ m up. compare_bytes_trans _ (key_of y) _ below up) ay.0) in
    absurd (ground (arith, compare_bytes_refl (key_of x), h, nothing))

find_node-tail :
    (n : DataNode) (rest : List DataNode) (k : Text)
    → IsAscending (n ∷ rest)
    → find_node k rest
      ≡ elim (compare_bytes (key_of n) k) [ same ↦ none | _ ↦ find_node k (n ∷ rest) ]
unfolding find_node
find_node-tail n rest k ascending = elim (compare-cases (key_of n) k) [
  | inl lower ↦
      let step : find_node k (n ∷ rest) ≡ find_node k rest = ground (arith, lower) in
      ground (arith, lower, step)
  | inr (inl equal) ↦
      let q = compare_bytes-same (key_of n) k equal in
      rw equal (
        find_node-below k rest (
          subst (λ j. All (λ (m : DataNode). compare_bytes j (key_of m) ≡ less) rest) q
            ascending.0))
  | inr (inr higher) ↦
      let step : find_node k (n ∷ rest) ≡ find_node k rest = ground (arith, higher) in
      ground (arith, higher, step)
]

-- Ascending lists with the same node for every key are the same list.
pub IsAscending-ext :
    (xs ys : List DataNode)
    → IsAscending xs
    → IsAscending ys
    → ((k : Text) → find_node k xs ≡ find_node k ys)
    → xs ≡ ys
unfolding find_node
IsAscending-ext [] [] ax ay h = refl
IsAscending-ext [] (y ∷ ys) ax ay h =
    absurd (ground (arith, h (key_of y), compare_bytes_refl (key_of y)))
IsAscending-ext (x ∷ xs) [] ax ay h =
    absurd (ground (arith, h (key_of x), compare_bytes_refl (key_of x)))
IsAscending-ext (x ∷ xs) (y ∷ ys) ax ay h = elim (compare-cases (key_of x) (key_of y)) [
  | inl below ↦ absurd (not_below x y xs ys ay (h (key_of x)) below)
  | inr (inr above) ↦ absurd (
      not_below y x ys xs ax (sym (h (key_of y)))
        ((compare_bytes-greater (key_of x) (key_of y)).0 above))
  | inr (inl equal) ↦
      let q : key_of x ≡ key_of y = compare_bytes-same (key_of x) (key_of y) equal in
      let first : x ≡ y = ground (arith, h (key_of y), compare_bytes_refl (key_of y), equal) in
      let rest : xs ≡ ys = IsAscending-ext xs ys ax.1 ay.1 (λ k.
        find_node-tail x xs k ax
        ∙ ap₂ (λ (j : Text) (o : Option DataNode). elim (compare_bytes j k) [ same ↦ none | _ ↦ o ])
            q (h k)
        ∙ sym (find_node-tail y ys k ay)) in
      ap₂ (λ n ns. n ∷ ns) first rest
]
