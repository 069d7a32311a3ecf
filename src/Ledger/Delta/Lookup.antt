-- ===== src/Ledger/Delta/Lookup.antt =====
-- What is read of a delta after one change.
use client_sdk.Prelude.{
  ℕ, ◌≡◌, refl, ap, Bool, ◌&&◌, Option, none, some, List, arith, inl, inr, lookup, insert,
  lookup-insert, Bool-cases, Option-cases, ◌==◌, if◌then◌else◌,
}
use client_sdk.Ledger.Text.{Text, text_eq, text_beq_iff}
use client_sdk.Ledger.Delta.{
  UpdatedValue, ChaincodeStateDelta, StateDelta, is_delete, get,
  get_or_create_chaincode_state_delta, set_kv, remove_kv, set, delete_key, apply_kv,
}

-- A change on top of another: the newer value, and the older previous value.
abbrev pub merged : Option UpdatedValue → Option UpdatedValue → Option UpdatedValue
merged none old = old
merged (some u) none = some u
merged (some u) (some old) = some (record { value = u.value; previous_value = old.previous_value })

lookup-get_or_create :
    (chaincode_id k : Text) (d : StateDelta)
    → lookup k (get_or_create_chaincode_state_delta chaincode_id d).updated_kvs
      ≡ get chaincode_id k d
unfolding get get_or_create_chaincode_state_delta lookup
lookup-get_or_create chaincode_id k d =
    elim (Option-cases (lookup chaincode_id d.chaincode_state_deltas)) [
      | inl missing ↦ rw (missing, get_or_create_chaincode_state_delta, get) refl
      | inr (csd, found) ↦ rw (found, get_or_create_chaincode_state_delta, get) refl
    ]

lookup-set_kv :
    (key k : Text) (value previous : Option (List ℕ)) (csd : ChaincodeStateDelta)
    → lookup k (set_kv key value previous csd).updated_kvs ≡ (
        if key == k
        then merged
            (some (record { value = value; previous_value = previous }))
            (lookup key csd.updated_kvs)
        else lookup k csd.updated_kvs)
unfolding set_kv
lookup-set_kv key k value previous csd = elim (Option-cases (lookup key csd.updated_kvs)) [
  | inl missing ↦
      rw (missing, set_kv)
        (lookup-insert key k (record { value = value; previous_value = previous }) csd.updated_kvs)
  | inr (old, found) ↦
      rw (found, set_kv)
        (lookup-insert key k (record { value = value; previous_value = old.previous_value })
          csd.updated_kvs)
]

lookup-remove_kv :
    (key k : Text) (previous : Option (List ℕ)) (csd : ChaincodeStateDelta)
    → lookup k (remove_kv key previous csd).updated_kvs ≡ (
        if key == k
        then merged
            (some (record { value = none; previous_value = previous }))
            (lookup key csd.updated_kvs)
        else lookup k csd.updated_kvs)
unfolding remove_kv
lookup-remove_kv key k previous csd = elim (Option-cases (lookup key csd.updated_kvs)) [
  | inl missing ↦
      rw (missing, remove_kv)
        (lookup-insert key k (record { value = none; previous_value = previous }) csd.updated_kvs)
  | inr (old, found) ↦
      rw (found, remove_kv)
        (lookup-insert key k (record { value = none; previous_value = old.previous_value })
          csd.updated_kvs)
]

get-replaced :
    (chaincode_id c k : Text) (csd : ChaincodeStateDelta) (d : StateDelta)
    → get c k
        (record d { chaincode_state_deltas = insert chaincode_id csd d.chaincode_state_deltas })
      ≡ (if chaincode_id == c then lookup k csd.updated_kvs else get c k d)
unfolding get
get-replaced chaincode_id c k csd d = elim (Bool-cases (chaincode_id == c)) [
  | inl here ↦ rw (lookup-insert chaincode_id c csd d.chaincode_state_deltas, here, get) refl
  | inr other ↦ rw (lookup-insert chaincode_id c csd d.chaincode_state_deltas, other, get) refl
]

-- A chaincode whose one key is changed.
get-changed :
    (chaincode_id key c k : Text) (u : UpdatedValue) (csd : ChaincodeStateDelta) (d : StateDelta)
    → lookup k csd.updated_kvs
      ≡ (if key == k then merged (some u) (get chaincode_id key d) else get chaincode_id k d)
    → get c k
        (record d { chaincode_state_deltas = insert chaincode_id csd d.chaincode_state_deltas })
      ≡ (if (chaincode_id == c) && (key == k)
          then merged (some u) (get chaincode_id key d)
          else get c k d)
get-changed chaincode_id key c k u csd d one = elim (Bool-cases (chaincode_id == c)) [
  | inl here ↦
      let q : chaincode_id ≡ c = (text_beq_iff chaincode_id c).0 here in
      rw (get-replaced chaincode_id c k csd d, here, one)
        (ap (λ x. if key == k then merged (some u) (get chaincode_id key d) else get x k d) q)
  | inr other ↦ rw (get-replaced chaincode_id c k csd d, other) refl
]

module _ (chaincode_id key : Text) (previous : Option (List ℕ)) (d : StateDelta) where
  pub get-set :
      (value : Option (List ℕ)) (c k : Text)
      → get c k (set chaincode_id key value previous d) ≡ (
          if (chaincode_id == c) && (key == k)
          then merged
              (some (record { value = value; previous_value = previous }))
              (get chaincode_id key d)
          else get c k d)
  unfolding set
  get-set value c k =
      let csd = get_or_create_chaincode_state_delta chaincode_id d in
      get-changed chaincode_id key c k (record { value = value; previous_value = previous })
        (set_kv key value previous csd) d
        (rw
          (
            lookup-set_kv key k value previous csd,
            lookup-get_or_create chaincode_id key d,
            lookup-get_or_create chaincode_id k d,
          )
          refl)

  pub get-delete_key :
      (c k : Text)
      → get c k (delete_key chaincode_id key previous d) ≡ (
          if (chaincode_id == c) && (key == k)
          then merged
              (some (record { value = none; previous_value = previous }))
              (get chaincode_id key d)
          else get c k d)
  unfolding delete_key
  get-delete_key c k =
      let csd = get_or_create_chaincode_state_delta chaincode_id d in
      get-changed chaincode_id key c k (record { value = none; previous_value = previous })
        (remove_kv key previous csd) d
        (rw
          (
            lookup-remove_kv key k previous csd,
            lookup-get_or_create chaincode_id key d,
            lookup-get_or_create chaincode_id k d,
          )
          refl)

pub get-apply_kv :
    (existing : Bool) (chaincode_id key : Text) (u : UpdatedValue) (d : StateDelta) (c k : Text)
    → get c k (apply_kv existing chaincode_id key u d) ≡ (
        if (chaincode_id == c) && (key == k)
        then merged (some u) (get chaincode_id key d)
        else get c k d)
unfolding apply_kv is_delete
get-apply_kv existing chaincode_id key u d c k = elim (Option-cases u.value) [
  | inl gone ↦ elim (Option-cases (get chaincode_id key d)) [
    | inl new ↦ ground (arith, gone, new, get-delete_key chaincode_id key u.previous_value d c k)
    | inr (old, had) ↦ ground (
      arith,
      gone,
      had,
      get-delete_key chaincode_id key u.previous_value d c k,
      get-delete_key chaincode_id key old.previous_value d c k,
    )
  ]
  | inr (v, is) ↦ elim (Option-cases (get chaincode_id key d)) [
    | inl new ↦ ground (arith, is, new, get-set chaincode_id key u.previous_value d u.value c k)
    | inr (old, had) ↦ ground (
      arith,
      is,
      had,
      get-set chaincode_id key u.previous_value d u.value c k,
      get-set chaincode_id key old.previous_value d u.value c k,
    )
  ]
]
