-- ===== src/Ledger/BucketTree/Shape.antt =====
-- Children and parents of a bucket, and the levels of the tree.
use native.Mathlib.Nat.{
  add-mul, div-add-mod, div-eq_of_lt, div_self, mod_self, mod-eq_of_lt, add-mul-div_right,
  add-mul-mod_self_right, mul-le-mul_right,
}
use client_sdk.Prelude.{
  ℕ, zero, suc, ◌+◌, ◌-◌, ◌*◌, ◌/◌, ◌%◌, ◌<◌, ◌≡◌, refl, ap, ◌∙◌, inl, inr, not, some, List, [],
  ◌∷◌, arith, ltb, ◌==◌, nat_eq, Bool-cases, Option-cases, if◌then◌else◌,
}
use client_sdk.Ledger.BucketTree.{
  Config, compute_parent_bucket_number, level_counts, new_config, size, BucketKey, get_num_buckets,
  new_bucket_key, get_parent_key, get_child_index, get_child_key,
}

compute_parent_of_child :
    (m i : ℕ) (conf : Config)
    → i < conf.max_grouping_at_each_level
    → compute_parent_bucket_number (suc i + m * conf.max_grouping_at_each_level) conf ≡ suc m
unfolding compute_parent_bucket_number
compute_parent_of_child m i conf small =
    let g = conf.max_grouping_at_each_level in
    let some_groups : 0 < g = omega (arith, small) in
    rw (add-mul-div_right (suc i) m some_groups, add-mul-mod_self_right (suc i) m g)
      (elim (Bool-cases (suc i == g)) [
        | inl full ↦
            let q : suc i ≡ g = ground arith in
            rw (q, div_self some_groups, mod_self g) (omega arith)
        | inr part ↦
            let less : suc i < g = ground arith in
            rw (div-eq_of_lt less, mod-eq_of_lt less) (ground arith)
      ])

new_bucket_key-eq-some :
    (level number : ℕ) (key : BucketKey) (conf : Config)
    → new_bucket_key level number conf ≡ some key
    → (level ≡ key.level) × (number ≡ key.bucket_number) × (0 < number)
unfolding new_bucket_key
new_bucket_key-eq-some level number key conf e = elim (Option-cases (get_num_buckets level conf)) [
  | inl missing ↦ absurd (ground (arith, e, missing))
  | inr (count, found) ↦ ground (arith, e, found)
]

-- A child of a bucket has that bucket as its parent, and its index under it is the one that it was
-- made with.
pub get_parent_key-get_child_key :
    (index : ℕ) (key child : BucketKey) (conf : Config)
    → index < conf.max_grouping_at_each_level
    → new_bucket_key key.level key.bucket_number conf ≡ some key
    → get_child_key index key conf ≡ some child
    → (get_parent_key child conf ≡ some key) × (get_child_index key child conf ≡ some index)
unfolding get_parent_key get_child_key get_child_index
get_parent_key-get_child_key index key child conf small valid made =
    let g = conf.max_grouping_at_each_level in
    let own = new_bucket_key-eq-some key.level key.bucket_number key conf valid in
    let its =
      new_bucket_key-eq-some (key.level + 1) ((key.bucket_number - 1) * g + 1 + index) child conf
        made in
    let number : child.bucket_number ≡ suc index + (key.bucket_number - 1) * g =
      omega (arith, its) in
    let whole : suc (key.bucket_number - 1) ≡ key.bucket_number = omega (arith, own) in
    let above : compute_parent_bucket_number child.bucket_number conf ≡ key.bucket_number =
      rw number (compute_parent_of_child (key.bucket_number - 1) index conf small ∙ whole) in
    let up : child.level - 1 ≡ key.level = omega (arith, its) in
    let last : suc (key.bucket_number - 1) * g ≡ key.bucket_number * g = rw whole refl in
    let row : suc (key.bucket_number - 1) * g ≡ (key.bucket_number - 1) * g + 1 * g =
      let one_more : suc (key.bucket_number - 1) ≡ (key.bucket_number - 1) + 1 = omega arith in
      ap (λ x. x * g) one_more ∙ add-mul (key.bucket_number - 1) 1 g in
    (rw above (rw up (ground (arith, its, valid))), ground (arith, number, last, row, small))

-- With groups of at least two each level has fewer buckets than the one below it.
parent_lt :
    (n grouping : ℕ)
    → 1 < n
    → 1 < grouping
    → (if not (n % grouping == 0) then n / grouping + 1 else n / grouping) < n
parent_lt n grouping many grouped =
    ground (arith, div-add-mod n grouping, mul-le-mul_right (n / grouping) grouped)

level_counts-ends :
    (fuel n grouping : ℕ) (above : List ℕ)
    → 1 < grouping
    → n < fuel
    → (counts : List ℕ) × (level_counts fuel n grouping above ≡ some counts)
unfolding level_counts
level_counts-ends zero n grouping above grouped small = elim small [ ]
level_counts-ends (suc fuel) n grouping above grouped small = elim (Bool-cases (ltb 1 n)) [
  | inr one_left ↦ (n ∷ above, ground (arith, one_left))
  | inl many ↦
      let less = parent_lt n grouping (ground arith) grouped in
      let (counts, ends) =
        level_counts-ends fuel (if not (n % grouping == 0) then n / grouping + 1 else n / grouping)
          grouping (n ∷ above) grouped (omega (arith, less, small)) in
      (counts, rw many ends)
]

-- `newConfig` returns for every number of buckets and groups of at least two.
pub new_config-returns :
    (num_buckets grouping : ℕ)
    → 1 < grouping
    → (conf : Config) × (new_config num_buckets grouping ≡ some conf)
      × (conf.max_grouping_at_each_level ≡ grouping)
unfolding new_config
new_config-returns num_buckets grouping grouped =
    let (counts, ends) =
      level_counts-ends (suc num_buckets) num_buckets grouping [] grouped (omega arith) in
    (
      record {
        max_grouping_at_each_level = grouping;
        lowest_level = size counts - 1;
        levels = counts;
      },
      ground (arith, ends),
      refl,
    )
