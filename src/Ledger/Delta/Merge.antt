-- ===== src/Ledger/Delta/Merge.antt =====
-- What `ApplyChanges` makes of two deltas, key by key.
use client_sdk.Prelude.{
  ℕ, ◌≡◌, refl, ◌∙◌, ap, sym, subst, Bool, Option, none, some, List, [], ◌∷◌, arith, inl, inr, Map,
  lookup, insert, has_key, lookup-insert, KeysDistinct, insert-KeysDistinct, Bool-cases,
  Option-cases, ◌==◌, if◌then◌else◌,
}
use client_sdk.Ledger.Text.{Text, text_eq, text_beq_iff}
use client_sdk.Ledger.Delta.{
  UpdatedValue, ChaincodeStateDelta, StateDelta, new_state_delta, get,
  get_or_create_chaincode_state_delta, is_delete, set_kv, remove_kv, set, delete_key, apply_kv,
  apply_kvs, apply_chaincodes, apply_changes,
}
use client_sdk.Ledger.Delta.Lookup.{merged, get-apply_kv}

-- After the inner loop each key of the chaincode is merged.
get-apply_kvs :
    (existing : Bool) (chaincode_id : Text) (kvs : Map Text UpdatedValue) (d : StateDelta)
    (c k : Text)
    → KeysDistinct kvs
    → get c k (apply_kvs existing chaincode_id kvs d)
      ≡ (if chaincode_id == c then merged (lookup k kvs) (get c k d) else get c k d)
unfolding apply_kvs lookup
get-apply_kvs existing chaincode_id [] d c k distinct = ground arith
get-apply_kvs existing chaincode_id ((key, u) ∷ rest) d c k distinct =
    let after = apply_kv existing chaincode_id key u d in
    let rec = get-apply_kvs existing chaincode_id rest after c k distinct.1 in
    let one = get-apply_kv existing chaincode_id key u d c k in
    elim (Bool-cases (chaincode_id == c)) [
      | inr other ↦ ground (arith, rec, one)
      | inl here ↦
          let q : chaincode_id ≡ c = (text_beq_iff chaincode_id c).0 here in
          elim (Bool-cases (key == k)) [
            | inr another ↦ ground (arith, rec, one)
            | inl this ↦
                let p : key ≡ k = (text_beq_iff key k).0 this in
                let gone : lookup k rest ≡ none = subst (λ x. lookup x rest ≡ none) p distinct.0 in
                let was : get chaincode_id key d ≡ get c k d = rw (q, p) refl in
                ground (arith, rec, one, was, gone)
          ]
    ]

-- A delta as the maps of the source are: no chaincode and no key of a chaincode stands twice.
pub record DeltaIsValid (d : StateDelta) : Type 0 where
  pub chaincodes : KeysDistinct d.chaincode_state_deltas
  pub kvs :
      (c : Text) (csd : ChaincodeStateDelta)
      → lookup c d.chaincode_state_deltas ≡ some csd
      → KeysDistinct csd.updated_kvs

KvsDistinct : Map Text ChaincodeStateDelta → Type 0
KvsDistinct ccs =
    (c : Text) (csd : ChaincodeStateDelta) → lookup c ccs ≡ some csd → KeysDistinct csd.updated_kvs

abbrev entry : Text → Text → Map Text ChaincodeStateDelta → Option UpdatedValue
entry c k ccs = elim (lookup c ccs) [ none ↦ none | some csd ↦ lookup k csd.updated_kvs ]

KvsDistinct-tail :
    (c : Text) (csd : ChaincodeStateDelta) (ccs : Map Text ChaincodeStateDelta)
    → lookup c ccs ≡ none
    → KvsDistinct ((c, csd) ∷ ccs)
    → KvsDistinct ccs
unfolding KvsDistinct lookup
KvsDistinct-tail c csd ccs new all c' csd' found = all c' csd' (elim (Bool-cases (c == c')) [
  | inl same ↦
      let q : c ≡ c' = (text_beq_iff c c').0 same in
      absurd (cc (sym new ∙ ap (λ x. lookup x ccs) q ∙ found))
  | inr other ↦ rw other found
])

KvsDistinct-head :
    (c : Text) (csd : ChaincodeStateDelta) (ccs : Map Text ChaincodeStateDelta)
    → KvsDistinct ((c, csd) ∷ ccs)
    → KeysDistinct csd.updated_kvs
unfolding KvsDistinct lookup
KvsDistinct-head c csd ccs all = all c csd (rw ((text_beq_iff c c).1 refl) refl)

get-apply_chaincodes :
    (ccs : Map Text ChaincodeStateDelta) (d : StateDelta) (c k : Text)
    → KeysDistinct ccs
    → KvsDistinct ccs
    → get c k (apply_chaincodes ccs d) ≡ merged (entry c k ccs) (get c k d)
unfolding apply_chaincodes lookup
get-apply_chaincodes [] d c k distinct kvs = refl
get-apply_chaincodes ((id, csd) ∷ rest) d c k distinct kvs =
    let existing = has_key id d.chaincode_state_deltas in
    let after = apply_kvs existing id csd.updated_kvs d in
    let rec =
      get-apply_chaincodes rest after c k distinct.1
        (KvsDistinct-tail id csd rest distinct.0 kvs) in
    let one = get-apply_kvs existing id csd.updated_kvs d c k (KvsDistinct-head id csd rest kvs) in
    elim (Bool-cases (id == c)) [
      | inl here ↦
          let q : id ≡ c = (text_beq_iff id c).0 here in
          let gone : lookup c rest ≡ none = subst (λ x. lookup x rest ≡ none) q distinct.0 in
          ground (arith, rec, one, gone)
      | inr other ↦ ground (arith, rec, one)
    ]

-- After `ApplyChanges` each key has the newer value where the other delta has one, with the older
-- previous value where there was one.
pub get-apply_changes :
    (another d : StateDelta) (c k : Text)
    → DeltaIsValid another
    → get c k (apply_changes another d) ≡ merged (get c k another) (get c k d)
unfolding apply_changes get KvsDistinct
get-apply_changes another d c k valid =
    get-apply_chaincodes another.chaincode_state_deltas d c k valid.chaincodes valid.kvs

-- The maps of a delta stay maps.
DeltaIsValid-replaced :
    (chaincode_id : Text) (csd : ChaincodeStateDelta) (d : StateDelta)
    → KeysDistinct csd.updated_kvs
    → DeltaIsValid d
    → DeltaIsValid
        (record d { chaincode_state_deltas = insert chaincode_id csd d.chaincode_state_deltas })
DeltaIsValid-replaced chaincode_id csd d distinct valid = record {
  chaincodes = insert-KeysDistinct chaincode_id csd d.chaincode_state_deltas valid.chaincodes;
  kvs = λ c x found. elim (Bool-cases (chaincode_id == c)) [
    | inl here ↦
        let same : some csd ≡ some x =
          ground (arith, lookup-insert chaincode_id c csd d.chaincode_state_deltas) in
        let is : csd ≡ x = ground arith in subst (λ y. KeysDistinct y.updated_kvs) is distinct
    | inr other ↦
        valid.kvs c x (ground (arith, lookup-insert chaincode_id c csd d.chaincode_state_deltas))
  ];
}

get_or_create-KeysDistinct :
    (chaincode_id : Text) (d : StateDelta)
    → DeltaIsValid d
    → KeysDistinct (get_or_create_chaincode_state_delta chaincode_id d).updated_kvs
unfolding get_or_create_chaincode_state_delta
get_or_create-KeysDistinct chaincode_id d valid =
    elim (Option-cases (lookup chaincode_id d.chaincode_state_deltas)) [
      | inl missing ↦ rw (missing, get_or_create_chaincode_state_delta) tt
      | inr (csd, found) ↦
          rw (found, get_or_create_chaincode_state_delta) (valid.kvs chaincode_id csd found)
    ]

module _ (chaincode_id key : Text) (previous : Option (List ℕ)) (d : StateDelta)
    (valid : DeltaIsValid d) where
  pub set-DeltaIsValid :
      (value : Option (List ℕ)) → DeltaIsValid (set chaincode_id key value previous d)
  unfolding set set_kv
  set-DeltaIsValid value =
      let csd = get_or_create_chaincode_state_delta chaincode_id d in
      let distinct = get_or_create-KeysDistinct chaincode_id d valid in
      DeltaIsValid-replaced chaincode_id (set_kv key value previous csd) d
        (elim (Option-cases (lookup key csd.updated_kvs)) [
          | inl missing ↦ rw (missing, set_kv) (insert-KeysDistinct key _ csd.updated_kvs distinct)
          | inr (old, found) ↦
              rw (found, set_kv) (insert-KeysDistinct key _ csd.updated_kvs distinct)
        ])
        valid

  pub delete_key-DeltaIsValid : DeltaIsValid (delete_key chaincode_id key previous d)
  unfolding delete_key remove_kv
  delete_key-DeltaIsValid =
      let csd = get_or_create_chaincode_state_delta chaincode_id d in
      let distinct = get_or_create-KeysDistinct chaincode_id d valid in
      DeltaIsValid-replaced chaincode_id (remove_kv key previous csd) d
        (elim (Option-cases (lookup key csd.updated_kvs)) [
          | inl missing ↦
              rw (missing, remove_kv) (insert-KeysDistinct key _ csd.updated_kvs distinct)
          | inr (old, found) ↦
              rw (found, remove_kv) (insert-KeysDistinct key _ csd.updated_kvs distinct)
        ])
        valid

pub new_state_delta-DeltaIsValid : DeltaIsValid new_state_delta
unfolding lookup
new_state_delta-DeltaIsValid = record { chaincodes = tt; kvs = λ c csd found. absurd (cc found) }

-- The merge of any changes leaves maps.
apply_kv-DeltaIsValid :
    (existing : Bool) (chaincode_id key : Text) (u : UpdatedValue) (d : StateDelta)
    → DeltaIsValid d
    → DeltaIsValid (apply_kv existing chaincode_id key u d)
unfolding apply_kv
apply_kv-DeltaIsValid existing chaincode_id key u d valid = elim (Bool-cases (is_delete u)) [
  | inl gone ↦ rw (gone, apply_kv) (delete_key-DeltaIsValid chaincode_id key _ d valid)
  | inr value ↦ rw (value, apply_kv) (set-DeltaIsValid chaincode_id key _ d valid u.value)
]

apply_kvs-DeltaIsValid :
    (existing : Bool) (chaincode_id : Text) (kvs : Map Text UpdatedValue) (d : StateDelta)
    → DeltaIsValid d
    → DeltaIsValid (apply_kvs existing chaincode_id kvs d)
unfolding apply_kvs
apply_kvs-DeltaIsValid existing chaincode_id [] d valid = valid
apply_kvs-DeltaIsValid existing chaincode_id ((key, u) ∷ rest) d valid =
    apply_kvs-DeltaIsValid existing chaincode_id rest (apply_kv existing chaincode_id key u d)
      (apply_kv-DeltaIsValid existing chaincode_id key u d valid)

apply_chaincodes-DeltaIsValid :
    (ccs : Map Text ChaincodeStateDelta) (d : StateDelta)
    → DeltaIsValid d
    → DeltaIsValid (apply_chaincodes ccs d)
unfolding apply_chaincodes
apply_chaincodes-DeltaIsValid [] d valid = valid
apply_chaincodes-DeltaIsValid ((id, csd) ∷ rest) d valid =
    apply_chaincodes-DeltaIsValid rest _ (apply_kvs-DeltaIsValid _ id csd.updated_kvs d valid)

pub apply_changes-DeltaIsValid :
    (another d : StateDelta) → DeltaIsValid d → DeltaIsValid (apply_changes another d)
unfolding apply_changes
apply_changes-DeltaIsValid another d valid =
    apply_chaincodes-DeltaIsValid another.chaincode_state_deltas d valid
