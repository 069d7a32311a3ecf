-- ===== src/Ledger/BucketTree/Cache/Coherence.antt =====
-- The cache of bucket nodes beside the database, over a sequence of changes.
use client_sdk.Prelude.{
  ℕ, ◌≡◌, refl, sym, ap, ◌∙◌, true, not, Option, none, some, List, [], ◌∷◌, Map, lookup, insert,
  delete, lookup-insert, lookup-delete, ◌==◌, ltb, Bool-cases, inl, inr, if◌then◌else◌,
}
use client_sdk.Ledger.State.{Result, ok}
use client_sdk.Ledger.BucketTree.{BucketKey}
use client_sdk.Ledger.BucketTree.Nodes.{bucket_key_eq}
use client_sdk.Ledger.BucketTree.BucketNodes.{BucketNode}
use client_sdk.Ledger.BucketTree.Cache.{
  BucketCache, new_bucket_cache, put_without_lock, remove_without_lock, get, hashes_of,
  get-put_without_lock, get-remove_without_lock,
}

-- A bucket node that is written, or deleted.
pub data Change : Type 0 where
  put_node : BucketKey → BucketNode → Change
  remove_node : BucketKey → Change

abbrev pub write : Change → Map BucketKey BucketNode → Map BucketKey BucketNode
write (put_node key node) db = insert key node db
write (remove_node key) db = delete key db

abbrev pub write_all : List Change → Map BucketKey BucketNode → Map BucketKey BucketNode
write_all [] db = db
write_all (change ∷ rest) db = write_all rest (write change db)

-- A read of the database without the cache.
abbrev pub fetch : Map BucketKey BucketNode → BucketKey → Result (Option BucketNode)
fetch db key = ok (lookup key db)

-- Reads through the cache give the hashes that the database holds.
unfoldable pub IsCoherent : Map BucketKey BucketNode → BucketCache → Type 0
IsCoherent db cache =
    (asked : BucketKey) → hashes_of (get (fetch db) asked cache) ≡ hashes_of (fetch db asked)

get-fetch :
    (db db' : Map BucketKey BucketNode) (asked : BucketKey) (cache : BucketCache)
    → lookup asked db ≡ lookup asked db'
    → get (fetch db) asked cache ≡ get (fetch db') asked cache
unfolding get
get-fetch db db' asked cache same =
    let through : Option BucketNode → Result (Option BucketNode) = λ o.
      if not cache.is_enabled
      then ok o
      else elim (lookup asked cache.c) [ none ↦ ok o | some node ↦ ok (some node) ] in
    ap through same

fresh :
    (max_size_mbs : ℕ) (db : Map BucketKey BucketNode)
    → IsCoherent db (new_bucket_cache max_size_mbs)
unfolding IsCoherent get new_bucket_cache lookup
fresh max_size_mbs db asked = elim (Bool-cases (ltb 0 max_size_mbs)) [
  | inl on ↦ simp on
  | inr off ↦ simp off
]

module _ (key_size : ℕ) (node_size : BucketNode → ℕ) where
  abbrev pub change_cache : Change → BucketCache → BucketCache
  change_cache (put_node key node) cache = put_without_lock key_size node_size key node cache
  change_cache (remove_node key) cache = remove_without_lock key_size node_size key cache

  abbrev pub change_all : List Change → BucketCache → BucketCache
  change_all [] cache = cache
  change_all (change ∷ rest) cache = change_all rest (change_cache change cache)

  change-IsCoherent :
      (change : Change) (db : Map BucketKey BucketNode) (cache : BucketCache)
      → IsCoherent db cache
      → IsCoherent (write change db) (change_cache change cache)
  unfolding IsCoherent
  change-IsCoherent (put_node key node) db cache coherent asked =
      let db' = insert key node db in
      let itself : (key == key) ≡ true = (bucket_key_eq.same_iff key key).1 refl in
      let first = lookup-insert key key node db in
      let now : lookup key db' ≡ some node = simp itself at first in
      let written : hashes_of (fetch db' key) ≡ ok (some node.children_crypto_hash) =
        ap (λ o. hashes_of (ok o)) now in
      let reads =
        get-put_without_lock key_size node_size (fetch db') key asked node cache written in
      let stored = lookup-insert key asked node db in
      elim (Bool-cases (key == asked)) [
        | inl here ↦
            let then_now : lookup asked db' ≡ some node = simp here at stored in
            (simp here at reads) ∙ sym (ap (λ o. hashes_of (ok o)) then_now)
        | inr other ↦
            let same : lookup asked db' ≡ lookup asked db = simp other at stored in
            (simp other at reads)
            ∙ ap hashes_of (get-fetch db' db asked cache same)
            ∙ coherent asked
            ∙ sym (ap (λ o. hashes_of (ok o)) same)
      ]
  change-IsCoherent (remove_node key) db cache coherent asked =
      let db' = delete key db in
      let itself : (key == key) ≡ true = (bucket_key_eq.same_iff key key).1 refl in
      let first = lookup-delete key key db in
      let now : lookup key db' ≡ none = simp itself at first in
      let written : hashes_of (fetch db' key) ≡ ok none = ap (λ o. hashes_of (ok o)) now in
      let reads = get-remove_without_lock key_size node_size (fetch db') key asked cache written in
      let stored = lookup-delete key asked db in
      elim (Bool-cases (key == asked)) [
        | inl here ↦
            let then_now : lookup asked db' ≡ none = simp here at stored in
            (simp here at reads) ∙ sym (ap (λ o. hashes_of (ok o)) then_now)
        | inr other ↦
            let same : lookup asked db' ≡ lookup asked db = simp other at stored in
            (simp other at reads)
            ∙ ap hashes_of (get-fetch db' db asked cache same)
            ∙ coherent asked
            ∙ sym (ap (λ o. hashes_of (ok o)) same)
      ]

  change_all-IsCoherent :
      (changes : List Change) (db : Map BucketKey BucketNode) (cache : BucketCache)
      → IsCoherent db cache
      → IsCoherent (write_all changes db) (change_all changes cache)
  change_all-IsCoherent [] db cache coherent = coherent
  change_all-IsCoherent (change ∷ rest) db cache coherent =
      change_all-IsCoherent rest (write change db) (change_cache change cache)
        (change-IsCoherent change db cache coherent)

  -- After any sequence of puts and removals on a new cache of any size, beside a database that is
  -- written the same changes, a read of any key through the cache gives the hashes that the
  -- database holds for it, and never older ones, whatever the cache had room for.
  pub new_bucket_cache-IsCoherent :
      (max_size_mbs : ℕ) (changes : List Change) (db : Map BucketKey BucketNode)
      → IsCoherent (write_all changes db) (change_all changes (new_bucket_cache max_size_mbs))
  new_bucket_cache-IsCoherent max_size_mbs changes db =
      change_all-IsCoherent changes db (new_bucket_cache max_size_mbs) (fresh max_size_mbs db)
