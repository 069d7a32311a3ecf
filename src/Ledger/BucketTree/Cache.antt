-- ===== src/Ledger/BucketTree/Cache.antt =====
-- The cache of bucket nodes: bucket_cache.go of core/ledger/statemgmt/buckettree, beside its lock and
-- the load at the start. The sizes of keys and nodes in memory are parameters.
pub mod Coherence
use client_sdk.Prelude.{
  ℕ, ◌*◌, ◌%◌, ◌^◌, ◌≡◌, Bool, false, not, Option, none, some, List, [], ltb, add64, sub64, Map,
  lookup, insert, delete, lookup-insert, lookup-delete, arith, ◌==◌, if◌then◌else◌,
}
use client_sdk.Ledger.State.{Result, ok, failed, panicked}
use client_sdk.Ledger.BucketTree.{BucketKey}
use client_sdk.Ledger.BucketTree.Nodes.{bucket_key_eq}
use client_sdk.Ledger.BucketTree.BucketNodes.{BucketNode}

pub record BucketCache : Type 0 where
  pub is_enabled : Bool
  pub c : Map BucketKey BucketNode
  pub size : ℕ
  pub max_size : ℕ

-- The size is given in megabytes.
unfoldable pub new_bucket_cache : ℕ → BucketCache
new_bucket_cache max_size_mbs = record {
  is_enabled = ltb 0 max_size_mbs;
  c = [];
  size = 0;
  max_size = (max_size_mbs * 1024 * 1024) % 2 ^ 64;
}

-- The node as it is put, without its marks. A slice that is nil has no elements.
unfoldable pub cleaned : BucketNode → BucketNode
cleaned node = record node { marked_for_deletion = false; children_updated = [] }

module _ (key_size : ℕ) (node_size : BucketNode → ℕ) where
  unfoldable pub put_without_lock : BucketKey → BucketNode → BucketCache → BucketCache
  put_without_lock key node cache =
      if not cache.is_enabled
      then cache
      else let held = cleaned node in
        elim (lookup key cache.c) [
          | some existing ↦
              let grown = add64 cache.size (sub64 (node_size held) (node_size existing)) in
              if ltb cache.max_size grown
              then record cache {
                c = delete key cache.c;
                size = sub64 grown (add64 key_size (node_size existing));
              }
              else record cache { c = insert key held cache.c; size = grown }
          | none ↦
              let grown = add64 cache.size (node_size held) in
              if ltb cache.max_size grown
              then record cache { size = grown }
              else record cache { c = insert key held cache.c; size = grown }
        ]

  unfoldable pub remove_without_lock : BucketKey → BucketCache → BucketCache
  remove_without_lock key cache =
      if not cache.is_enabled then cache else elim (lookup key cache.c) [
        | none ↦ cache
        | some node ↦ record cache {
          c = delete key cache.c;
          size = sub64 cache.size (add64 key_size (node_size node));
        }
      ]

-- `fetch` reads the database.
unfoldable pub get :
    (BucketKey → Result (Option BucketNode)) → BucketKey → BucketCache → Result (Option BucketNode)
get fetch key cache =
    if not cache.is_enabled
    then fetch key
    else elim (lookup key cache.c) [ none ↦ fetch key | some node ↦ ok (some node) ]

-- The hashes of the children of a node that is read, which is all that is taken from it.
abbrev pub hashes_of : Result (Option BucketNode) → Result (Option (List (Option (List ℕ))))
hashes_of (ok none) = ok none
hashes_of (ok (some node)) = ok (some node.children_crypto_hash)
hashes_of (failed e) = failed e
hashes_of panicked = panicked

module _ (key_size : ℕ) (node_size : BucketNode → ℕ) where
  -- Once the database holds a node that is put into the cache, a read of its key gives the hashes of
  -- that node, whether the cache has taken it, has no room for it or is off, and never older ones;
  -- reads of the other keys are as before.
  pub get-put_without_lock :
      (fetch : BucketKey → Result (Option BucketNode)) (key asked : BucketKey) (node : BucketNode)
      (cache : BucketCache)
      → hashes_of (fetch key) ≡ ok (some node.children_crypto_hash)
      → hashes_of (get fetch asked (put_without_lock key_size node_size key node cache)) ≡ (
          if key == asked
          then ok (some node.children_crypto_hash)
          else hashes_of (get fetch asked cache))
  unfolding get put_without_lock cleaned
  get-put_without_lock fetch key asked node cache written = ground (
    arith,
    lookup-insert key asked (cleaned node) cache.c,
    lookup-delete key asked cache.c,
    bucket_key_eq.same_iff key asked,
    written,
  )

  -- Once the database has no node for a key that is removed from the cache, a read of the key gives
  -- none; reads of the other keys are as before.
  pub get-remove_without_lock :
      (fetch : BucketKey → Result (Option BucketNode)) (key asked : BucketKey) (cache : BucketCache)
      → hashes_of (fetch key) ≡ ok none
      → hashes_of (get fetch asked (remove_without_lock key_size node_size key cache))
        ≡ (if key == asked then ok none else hashes_of (get fetch asked cache))
  unfolding get remove_without_lock
  get-remove_without_lock fetch key asked cache written =
      ground (arith, lookup-delete key asked cache.c, bucket_key_eq.same_iff key asked, written)
