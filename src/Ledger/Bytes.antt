-- ===== src/Ledger/Bytes.antt =====
-- `bytes.Compare` and the composite keys of core/ledger/statemgmt/commons.go.
pub mod Order
use client_sdk.Prelude.{
  ℕ, ◌≡◌, refl, Bool, true, false, Option, none, some, List, [], ◌∷◌, ◌++◌, arith, ltb, ◌==◌,
  nat_eq, All, ◌≢◌, if◌then◌else◌,
}
use client_sdk.Ledger.Text.{Text}

pub data Comparison : Type 0 where
  less same greater : Comparison

abbrev pub compare_bytes : Text → Text → Comparison
compare_bytes [] [] = same
compare_bytes [] (y ∷ ys) = less
compare_bytes (x ∷ xs) [] = greater
compare_bytes (x ∷ xs) (y ∷ ys) =
    if ltb x y then less else if ltb y x then greater else compare_bytes xs ys

-- `util.IsNil`
abbrev pub is_nil : Option (List ℕ) → Bool
is_nil none = true
is_nil (some []) = true
is_nil (some (x ∷ xs)) = false

abbrev pub not_nil : Option (List ℕ) → Bool
not_nil none = false
not_nil (some []) = false
not_nil (some (x ∷ xs)) = true

-- The delimiter is a zero byte.
unfoldable pub construct_composite_key : Text → Text → Text
construct_composite_key chaincode_id key = chaincode_id ++ 0 ∷ key

-- `bytes.SplitN` at the first delimiter; `none` is the panic where there is none.
unfoldable pub decode_composite_key : Text → Option (Text × Text)
decode_composite_key [] = none
decode_composite_key (x ∷ xs) =
    let rest = decode_composite_key xs in
    if x == 0
    then some ([], xs)
    else elim rest [ none ↦ none | some parts ↦ some (x ∷ parts.0, parts.1) ]

-- Decoding gives back the chaincode id and the key, if the chaincode id has no zero byte.
pub decode_composite_key-construct :
    (chaincode_id key : Text)
    → All (λ x. x ≢ 0) chaincode_id
    → decode_composite_key (construct_composite_key chaincode_id key) ≡ some (chaincode_id, key)
unfolding decode_composite_key construct_composite_key
decode_composite_key-construct [] key clean = refl
decode_composite_key-construct (x ∷ xs) key clean =
    let rest = decode_composite_key-construct xs key clean.1 in
    let nonzero : (x == 0) ≡ false = ground (arith, clean.0) in rw (nonzero, rest) refl
