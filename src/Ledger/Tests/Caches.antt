-- ===== src/Ledger/Tests/Caches.antt =====
-- A small cache, with a node that is written and one that is deleted.
use client_sdk.Prelude.{[], ◌∷◌}
use client_sdk.Ledger.BucketTree.Cache.{new_bucket_cache}
use client_sdk.Ledger.BucketTree.Cache.Coherence
use client_sdk.Ledger.BucketTree.Cache.Coherence.{
  put_node, remove_node, IsCoherent, write_all, change_all,
}
use client_sdk.Ledger.Tests.Nodes.{root, bucket, stored_root}

new_bucket_cache-IsCoherent_example :
    let changes = put_node root stored_root ∷ remove_node bucket ∷ [] in
    IsCoherent (write_all changes []) (change_all 16 (λ n. 32) changes (new_bucket_cache 1))
new_bucket_cache-IsCoherent_example =
    Coherence.new_bucket_cache-IsCoherent 16 (λ n. 32) 1
      (put_node root stored_root ∷ remove_node bucket ∷ []) []
