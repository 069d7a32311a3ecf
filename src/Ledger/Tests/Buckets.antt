-- ===== src/Ledger/Tests/Buckets.antt =====
-- A tree over five buckets in groups of two.
use client_sdk.Prelude.{◌≡◌, refl, none, some, [], ◌∷◌, arith}
use client_sdk.Ledger.BucketTree.{
  Config, compute_parent_bucket_number, level_counts, new_config, BucketKey, get_num_buckets,
  new_bucket_key, get_parent_key, get_child_index, get_child_key,
}
use client_sdk.Ledger.BucketTree.Shape

unfoldable program : Unit {0}
unfolding compute_parent_bucket_number level_counts new_config get_num_buckets new_bucket_key
    get_parent_key get_child_index get_child_key
program = tt

abbrev conf : Config
conf = record { max_grouping_at_each_level = 2; lowest_level = 3; levels = 1 ∷ 2 ∷ 3 ∷ 5 ∷ [] }

configures : new_config 5 2 ≡ some conf
unfolding program
configures = refl

abbrev parent : BucketKey
parent = record { level = 2; bucket_number = 2 }

abbrev child : BucketKey
child = record { level = 3; bucket_number = 4 }

get_parent_key-get_child_key_example :
    (get_parent_key child conf ≡ some parent) × (get_child_index parent child conf ≡ some 1)
unfolding program
get_parent_key-get_child_key_example =
    Shape.get_parent_key-get_child_key 1 parent child conf (omega arith) refl refl

new_config-returns_example :
    (c : Config) × (new_config 5 2 ≡ some c) × (c.max_grouping_at_each_level ≡ 2)
new_config-returns_example = Shape.new_config-returns 5 2 (omega arith)

-- In groups of one the levels never shrink.
groups_of_one : level_counts 20 2 1 [] ≡ none
unfolding program
groups_of_one = refl
