-- ===== src/Ledger/Delta.antt =====
-- The uncommitted changes of core/ledger/statemgmt/state_delta.go. Go's strings are sequences of
-- bytes; a slice that may be nil is an `Option`, and a nil value marks a deleted key.
pub mod Lookup
pub mod Merge
use client_sdk.Prelude.{
  ℕ, Bool, true, false, Option, none, some, List, [], ◌∷◌, Map, lookup, insert, has_key, keys, ◌++◌,
  if◌then◌else◌,
}
use client_sdk.Ledger.Text.{Text, text_eq, sort_strings}

pub record UpdatedValue : Type 0 where
  pub value : Option (List ℕ)
  pub previous_value : Option (List ℕ)

pub record ChaincodeStateDelta : Type 0 where
  pub chaincode_id : Text
  pub updated_kvs : Map Text UpdatedValue

pub record StateDelta : Type 0 where
  pub chaincode_state_deltas : Map Text ChaincodeStateDelta
  pub roll_backwards : Bool

abbrev pub new_state_delta : StateDelta
new_state_delta = record { chaincode_state_deltas = []; roll_backwards = false }

unfoldable pub is_delete : UpdatedValue → Bool
is_delete u = elim u.value [ none ↦ true | some _ ↦ false ]

-- `GetUpdates`, where a chaincode without changes has a nil map.
unfoldable pub get_updates : Text → StateDelta → Map Text UpdatedValue
get_updates chaincode_id d = elim (lookup chaincode_id d.chaincode_state_deltas) [
  | none ↦ []
  | some csd ↦ csd.updated_kvs
]

unfoldable pub get : Text → Text → StateDelta → Option UpdatedValue
get chaincode_id key d = elim (lookup chaincode_id d.chaincode_state_deltas) [
  | none ↦ none
  | some csd ↦ lookup key csd.updated_kvs
]

unfoldable pub is_updated_value_set : Text → Text → StateDelta → Bool
is_updated_value_set chaincode_id key d = elim (lookup chaincode_id d.chaincode_state_deltas) [
  | none ↦ false
  | some csd ↦ has_key key csd.updated_kvs
]

unfoldable pub get_or_create_chaincode_state_delta : Text → StateDelta → ChaincodeStateDelta
get_or_create_chaincode_state_delta chaincode_id d =
    elim (lookup chaincode_id d.chaincode_state_deltas) [
      | none ↦ record { chaincode_id = chaincode_id; updated_kvs = [] }
      | some csd ↦ csd
    ]

-- `ChaincodeStateDelta.set`: an entry that is there keeps its previous value.
unfoldable pub set_kv :
    Text → Option (List ℕ) → Option (List ℕ) → ChaincodeStateDelta → ChaincodeStateDelta
set_kv key updated_value previous_value csd = elim (lookup key csd.updated_kvs) [
  | some updated_kv ↦ record csd {
    updated_kvs = insert key (record updated_kv { value = updated_value }) csd.updated_kvs;
  }
  | none ↦ record csd {
    updated_kvs =
        insert key (record { value = updated_value; previous_value = previous_value })
          csd.updated_kvs;
  }
]

-- `ChaincodeStateDelta.remove`
unfoldable pub remove_kv : Text → Option (List ℕ) → ChaincodeStateDelta → ChaincodeStateDelta
remove_kv key previous_value csd = elim (lookup key csd.updated_kvs) [
  | some updated_kv ↦ record csd {
    updated_kvs = insert key (record updated_kv { value = none }) csd.updated_kvs;
  }
  | none ↦ record csd {
    updated_kvs =
        insert key (record { value = none; previous_value = previous_value }) csd.updated_kvs;
  }
]

unfoldable pub set : Text → Text → Option (List ℕ) → Option (List ℕ) → StateDelta → StateDelta
set chaincode_id key value previous_value d =
    let csd = get_or_create_chaincode_state_delta chaincode_id d in
    record d {
      chaincode_state_deltas =
          insert chaincode_id (set_kv key value previous_value csd) d.chaincode_state_deltas;
    }

unfoldable pub delete_key : Text → Text → Option (List ℕ) → StateDelta → StateDelta
delete_key chaincode_id key previous_value d =
    let csd = get_or_create_chaincode_state_delta chaincode_id d in
    record d {
      chaincode_state_deltas =
          insert chaincode_id (remove_kv key previous_value csd) d.chaincode_state_deltas;
    }

unfoldable pub is_empty : StateDelta → Bool
is_empty d = elim d.chaincode_state_deltas [ [] ↦ true | _ ∷ _ ↦ false ]

-- The inner loop of `ApplyChanges` for one key. The entry that `existing` reads is the one that
-- the loop writes.
unfoldable pub apply_kv : Bool → Text → Text → UpdatedValue → StateDelta → StateDelta
apply_kv existing chaincode_id key value_holder d =
    let previous_value =
      if existing
      then elim (get chaincode_id key d) [
        | some existing_value ↦ existing_value.previous_value
        | none ↦ value_holder.previous_value
      ]
      else value_holder.previous_value in
    if is_delete value_holder
    then delete_key chaincode_id key previous_value d
    else set chaincode_id key value_holder.value previous_value d

unfoldable pub apply_kvs : Bool → Text → Map Text UpdatedValue → StateDelta → StateDelta
apply_kvs existing chaincode_id [] d = d
apply_kvs existing chaincode_id ((key, value_holder) ∷ rest) d =
    apply_kvs existing chaincode_id rest (apply_kv existing chaincode_id key value_holder d)

unfoldable pub apply_chaincodes : Map Text ChaincodeStateDelta → StateDelta → StateDelta
apply_chaincodes [] d = d
apply_chaincodes ((chaincode_id, csd) ∷ rest) d =
    apply_chaincodes rest
      (apply_kvs (has_key chaincode_id d.chaincode_state_deltas) chaincode_id csd.updated_kvs d)

-- `stateDelta.ApplyChanges(anotherStateDelta)`
unfoldable pub apply_changes : StateDelta → StateDelta → StateDelta
apply_changes another d = apply_chaincodes another.chaincode_state_deltas d

-- The bytes that `ComputeCryptoHash` writes for a chaincode: each key in order, and its value if
-- it is not deleted.
unfoldable pub key_bytes : List Text → Map Text UpdatedValue → List ℕ
key_bytes [] kvs = []
key_bytes (key ∷ rest) kvs =
    key
    ++ elim (lookup key kvs) [
      | none ↦ []
      | some u ↦ elim u.value [ none ↦ [] | some bytes ↦ bytes ]
    ]
    ++ key_bytes rest kvs

unfoldable pub chaincode_bytes : List Text → StateDelta → List ℕ
chaincode_bytes [] d = []
chaincode_bytes (chaincode_id ∷ rest) d =
    let kvs = get_updates chaincode_id d in
    chaincode_id ++ key_bytes (sort_strings (keys kvs)) kvs ++ chaincode_bytes rest d

-- `ComputeCryptoHash`, which is nil for a delta without chaincodes.
unfoldable pub delta_hash : (List ℕ → List ℕ) → StateDelta → Option (List ℕ)
delta_hash crypto_hash d =
    if is_empty d
    then none
    else some (crypto_hash (chaincode_bytes (sort_strings (keys d.chaincode_state_deltas)) d))

unfoldable pub has_changes : ChaincodeStateDelta → Bool
has_changes csd = elim csd.updated_kvs [ [] ↦ false | _ ∷ _ ↦ true ]
