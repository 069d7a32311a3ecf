-- ===== src/Ledger/Tests.antt =====
-- A small state under a transaction, and the theorems about the ledger's state at it.
mod Buckets
mod Nodes
mod Caches
mod Codec
mod Blocks
use client_sdk.Prelude.{
  ℕ, ◌≡◌, refl, true, false, ◌&&◌, none, some, List, [], ◌∷◌, Map, lookup, insert, has_key, keys,
  ◌==◌, if◌then◌else◌,
}
use client_sdk.Ledger.Text.{Text, text_eq}
use client_sdk.Ledger.Delta
use client_sdk.Ledger.Delta.{
  UpdatedValue, ChaincodeStateDelta, StateDelta, new_state_delta, is_delete, get_updates,
  is_updated_value_set, get_or_create_chaincode_state_delta, set_kv, remove_kv, is_empty, apply_kv,
  apply_kvs, apply_chaincodes, apply_changes, key_bytes, chaincode_bytes, delta_hash,
}
use client_sdk.Ledger.Delta.Merge
use client_sdk.Ledger.Delta.Merge.{DeltaIsValid}
use client_sdk.Ledger.Delta.Lookup.{merged}
use client_sdk.Ledger.State.{
  ok, HashableState, State, tx_in_progress, tx_begin, merge_tx, tx_finish, get_state, set_state,
  delete_state,
}
use client_sdk.Ledger.State.Reads
use client_sdk.Ledger.State.Rollback
use client_sdk.Ledger.State.Rollback.{Change, make_change, make_changes}
use client_sdk.Ledger.State.Previous

unfoldable program : Unit {0}
unfolding lookup insert has_key keys Delta.get Delta.set Delta.delete_key is_delete get_updates
    is_updated_value_set get_or_create_chaincode_state_delta set_kv remove_kv is_empty apply_kv
    apply_kvs apply_chaincodes apply_changes key_bytes chaincode_bytes delta_hash tx_in_progress
    tx_begin merge_tx tx_finish get_state set_state delete_state make_change make_changes
program = tt

-- A state implementation that holds the values of one chaincode, and whose hash is the identity.
abbrev values : HashableState
values = record {
  Impl = Map Text (List ℕ);
  Batch = List (List ℕ);
  get = λ c k m. ok (lookup k m);
  prepare_working_set = λ d m. m;
  compute_crypto_hash = λ m. ok [];
  add_changes_for_persistence = λ m batch. batch;
  clear_working_set = λ persisted m. m;
  put_state_delta = λ key d batch. key ∷ batch;
  delete_state_delta = λ key batch. key ∷ batch;
  crypto_hash = λ bytes. bytes;
}

abbrev key_a : Text
key_a = 97 ∷ []

abbrev key_b : Text
key_b = 98 ∷ []

abbrev idle : State values
idle = record {
  state_impl = (key_a, 1 ∷ []) ∷ [];
  state_delta = new_state_delta;
  current_tx_state_delta = new_state_delta;
  current_tx_uuid = [];
  tx_state_delta_hash = [];
  update_state_impl = false;
  history_state_delta_size = 500;
}

abbrev begun : State values
begun = record idle { current_tx_uuid = key_a }

abbrev delta : StateDelta
delta = record {
  chaincode_state_deltas =
      (
        key_a,
        record {
          chaincode_id = key_a;
          updated_kvs =
              (key_a, record { value = none; previous_value = some (1 ∷ []) })
              ∷ (key_b, record { value = some (2 ∷ []); previous_value = none })
              ∷ [];
        },
      )
      ∷ [];
  roll_backwards = false;
}

abbrev changes : List Change
changes =
    Change.set key_a key_a (some (7 ∷ []))
    ∷ Change.set key_a key_b (some (2 ∷ []))
    ∷ Change.delete key_a key_a
    ∷ []

abbrev changed : State values
changed = record begun { current_tx_state_delta = delta }

abbrev finished : State values
finished = record idle {
  state_delta = delta;
  tx_state_delta_hash = (key_a, some (97 ∷ 97 ∷ 98 ∷ 2 ∷ [])) ∷ [];
  update_state_impl = true;
}

makes_changes : make_changes changes begun ≡ ok changed
unfolding program
makes_changes = refl

begins : tx_begin key_a idle ≡ ok begun
unfolding program
begins = refl

finishes : tx_finish key_a true changed ≡ ok finished
unfolding program
finishes = refl

idle-StateIsValid : Previous.StateIsValid idle
unfolding Delta.get lookup
idle-StateIsValid = record {
  current = Merge.new_state_delta-DeltaIsValid;
  delta = Merge.new_state_delta-DeltaIsValid;
  current_previous = λ c k u found. absurd (cc found);
  delta_previous = λ c k u found. absurd (cc found);
}

delta-DeltaIsValid : DeltaIsValid delta
delta-DeltaIsValid =
    (Previous.make_changes-StateIsValid changes begun changed
      (Previous.tx_begin-StateIsValid key_a idle begun idle-StateIsValid begins)
      makes_changes).current

get-apply_changes_example :
    Delta.get key_a key_a (apply_changes delta new_state_delta)
    ≡ merged (Delta.get key_a key_a delta) (Delta.get key_a key_a new_state_delta)
get-apply_changes_example =
    Merge.get-apply_changes delta new_state_delta key_a key_a delta-DeltaIsValid

get_state-tx_finish_example :
    get_state key_a key_a false finished ≡ get_state key_a key_a false changed
get_state-tx_finish_example =
    Reads.get_state-tx_finish key_a key_a key_a changed finished delta-DeltaIsValid finishes

get_state-set_state_example :
    get_state key_a key_b false (record begun {
      current_tx_state_delta = Delta.set key_a key_b (some (2 ∷ [])) none new_state_delta;
    })
    ≡ (if (key_a == key_a) && (key_b == key_b)
        then ok (some (2 ∷ []))
        else get_state key_a key_b false begun)
unfolding program
get_state-set_state_example =
    Reads.get_state-set_state key_a key_b key_a key_b (some (2 ∷ [])) begun
      (record begun {
        current_tx_state_delta = Delta.set key_a key_b (some (2 ∷ [])) none new_state_delta;
      })
      refl

tx_finish-make_changes_example : tx_finish key_a false changed ≡ ok idle
tx_finish-make_changes_example =
    Rollback.tx_finish-make_changes key_a changes idle begun changed refl begins makes_changes

transaction-StateIsValid_example : Previous.StateIsValid finished
transaction-StateIsValid_example =
    Previous.transaction-StateIsValid key_a changes true idle begun changed finished
      idle-StateIsValid begins makes_changes finishes

-- The bytes that are hashed do not say where a key ends: two deltas with one hash.
abbrev delta_of : Text → List ℕ → StateDelta
delta_of key value = record {
  chaincode_state_deltas =
      (
        key_a,
        record {
          chaincode_id = key_a;
          updated_kvs = (key, record { value = some value; previous_value = none }) ∷ [];
        },
      )
      ∷ [];
  roll_backwards = false;
}

same_hash :
    (crypto_hash : List ℕ → List ℕ)
    → delta_hash crypto_hash (delta_of (98 ∷ []) (99 ∷ 100 ∷ []))
      ≡ delta_hash crypto_hash (delta_of (98 ∷ 99 ∷ []) (100 ∷ []))
unfolding program
same_hash crypto_hash = refl
