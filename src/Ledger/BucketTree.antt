-- ===== src/Ledger/BucketTree.antt =====
-- The shape of the bucket tree: config.go and bucket_key.go of core/ledger/statemgmt/buckettree.
-- Buckets are numbered from 1 at each level, and level 0 is the root. `none` is a panic.
pub mod Shape
pub mod Nodes
pub mod BucketNodes
pub mod Tree
pub mod Cache
use client_sdk.Prelude.{
  ℕ, zero, suc, ◌+◌, ◌-◌, ◌*◌, ◌/◌, ◌%◌, Bool, not, ◌&&◌, ◌||◌, Option, none, some, List, [], ◌∷◌,
  ◌++◌, ltb, ◌==◌, nat_eq, if◌then◌else◌,
}

-- `levels` holds the number of buckets of each level, the root's first.
pub record Config : Type 0 where
  pub max_grouping_at_each_level : ℕ
  pub lowest_level : ℕ
  pub levels : List ℕ

unfoldable pub compute_parent_bucket_number : ℕ → Config → ℕ
compute_parent_bucket_number bucket_number conf =
    let grouped = bucket_number / conf.max_grouping_at_each_level in
    if not (bucket_number % conf.max_grouping_at_each_level == 0) then grouped + 1 else grouped

-- The loop of `newConfig`, with fuel, from the lowest level up; `none` where the fuel is used up.
unfoldable pub level_counts : ℕ → ℕ → ℕ → List ℕ → Option (List ℕ)
level_counts zero n grouping above = none
level_counts (suc fuel) n grouping above =
    let grouped = n / grouping in
    let parent = if not (n % grouping == 0) then grouped + 1 else grouped in
    let rest = level_counts fuel parent grouping (n ∷ above) in
    if ltb 1 n then rest else some (n ∷ above)

abbrev pub size : List ℕ → ℕ
size [] = 0
size (x ∷ xs) = suc (size xs)

-- A grouping of 0 is a division by zero where there is more than one bucket.
unfoldable pub new_config : ℕ → ℕ → Option Config
new_config num_buckets grouping =
    if ltb 1 num_buckets && (grouping == 0)
    then none
    else elim (level_counts (suc num_buckets) num_buckets grouping []) [
      | none ↦ none
      | some counts ↦ some (record {
        max_grouping_at_each_level = grouping;
        lowest_level = size counts - 1;
        levels = counts;
      })
    ]

abbrev pub element : ℕ → List ℕ → Option ℕ
element i [] = none
element zero (x ∷ xs) = some x
element (suc i) (x ∷ xs) = element i xs

unfoldable pub get_num_buckets : ℕ → Config → Option ℕ
get_num_buckets level conf = if ltb conf.lowest_level level then none else element level conf.levels

pub record BucketKey : Type 0 where
  pub level : ℕ
  pub bucket_number : ℕ

unfoldable pub new_bucket_key : ℕ → ℕ → Config → Option BucketKey
new_bucket_key level bucket_number conf = elim (get_num_buckets level conf) [
  | none ↦ none
  | some count ↦
      if ltb bucket_number 1 || ltb count bucket_number
      then none
      else some (record { level = level; bucket_number = bucket_number })
]

-- The root has no parent: its level would be below 0.
unfoldable pub get_parent_key : BucketKey → Config → Option BucketKey
get_parent_key key conf =
    if key.level == 0
    then none
    else new_bucket_key (key.level - 1) (compute_parent_bucket_number key.bucket_number conf) conf

-- Bucket numbers start at 1, so that the subtraction of 1 does not stop at 0.
unfoldable pub get_child_index : BucketKey → BucketKey → Config → Option ℕ
get_child_index key child conf =
    let first = (key.bucket_number - 1) * conf.max_grouping_at_each_level + 1 in
    let last = key.bucket_number * conf.max_grouping_at_each_level in
    if ltb child.bucket_number first || ltb last child.bucket_number
    then none
    else some (child.bucket_number - first)

unfoldable pub get_child_key : ℕ → BucketKey → Config → Option BucketKey
get_child_key index key conf =
    let first = (key.bucket_number - 1) * conf.max_grouping_at_each_level + 1 in
    new_bucket_key (key.level + 1) (first + index) conf

unfoldable pub get_num_buckets_at_lowest_level : Config → Option ℕ
get_num_buckets_at_lowest_level conf = get_num_buckets conf.lowest_level conf

unfoldable pub new_bucket_key_at_lowest_level : ℕ → Config → Option BucketKey
new_bucket_key_at_lowest_level bucket_number conf =
    new_bucket_key conf.lowest_level bucket_number conf

unfoldable pub construct_root_bucket_key : Config → Option BucketKey
construct_root_bucket_key conf = new_bucket_key 0 1 conf

unfoldable pub key_equals : BucketKey → BucketKey → Bool
key_equals key another =
    (key.level == another.level) && (key.bucket_number == another.bucket_number)

unfoldable pub clone_key : BucketKey → Config → Option BucketKey
clone_key key conf = new_bucket_key key.level key.bucket_number conf
