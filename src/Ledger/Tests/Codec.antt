-- ===== src/Ledger/Tests/Codec.antt =====
-- An encoding of blocks that reads back what it writes, for the tests: lists end with a zero.
use client_sdk.Prelude.{ℕ, zero, suc, ◌≡◌, refl, sym, ap, ◌∙◌, Option, none, some, List, [], ◌∷◌}
use mathlib.Core.Option.{some-injective}
use client_sdk.Ledger.Block.{Format, NonHashData, Block, Codec, RoundTrips}

abbrev pub numbers : Format
numbers = record { Transaction = ℕ; TransactionResult = ℕ }

abbrev write : List ℕ → List ℕ → List ℕ
write [] rest = 0 ∷ rest
write (x ∷ xs) rest = suc x ∷ write xs rest

abbrev read : List ℕ → List ℕ × List ℕ
read [] = ([], [])
read (zero ∷ rest) = ([], rest)
read (suc n ∷ rest) = let later = read rest in (n ∷ later.0, later.1)

read-write : (xs rest : List ℕ) → read (write xs rest) ≡ (xs, rest)
read-write [] rest = refl
read-write (x ∷ xs) rest = rw (read-write xs rest) refl

abbrev write_time : Option ℕ → List ℕ
write_time none = []
write_time (some t) = t ∷ []

abbrev read_time : List ℕ → Option ℕ
read_time [] = none
read_time (t ∷ _) = some t

abbrev write_non_hash : Option (NonHashData numbers) → List ℕ
write_non_hash none = []
write_non_hash (some n) =
    1 ∷ write n.transaction_results (write_time n.local_ledger_commit_timestamp)

abbrev read_non_hash : List ℕ → Option (NonHashData numbers)
read_non_hash [] = none
read_non_hash (_ ∷ bytes) =
    let results = read bytes in
    some (record {
      transaction_results = results.0;
      local_ledger_commit_timestamp = read_time results.1;
    })

abbrev marshal_block : Block numbers → List ℕ
marshal_block b = write b.transactions (
    write b.state_hash
      (write b.previous_block_hash (write b.consensus_metadata (write_non_hash b.non_hash_data))))

abbrev unmarshal_block : List ℕ → Block numbers
unmarshal_block bytes =
    let transactions = read bytes in
    let state_hash = read transactions.1 in
    let previous_block_hash = read state_hash.1 in
    let consensus_metadata = read previous_block_hash.1 in
    record {
      transactions = transactions.0;
      state_hash = state_hash.0;
      previous_block_hash = previous_block_hash.0;
      consensus_metadata = consensus_metadata.0;
      non_hash_data = read_non_hash consensus_metadata.1;
    }

read_time-write_time : (o : Option ℕ) → read_time (write_time o) ≡ o
read_time-write_time none = refl
read_time-write_time (some t) = refl

read_non_hash-write_non_hash :
    (o : Option (NonHashData numbers)) → read_non_hash (write_non_hash o) ≡ o
read_non_hash-write_non_hash none = refl
read_non_hash-write_non_hash (some n) =
    rw
      (
        read-write n.transaction_results (write_time n.local_ledger_commit_timestamp),
        read_time-write_time n.local_ledger_commit_timestamp,
      )
      refl

unmarshal_block-marshal_block : (b : Block numbers) → unmarshal_block (marshal_block b) ≡ b
unmarshal_block-marshal_block b =
    let end = write_non_hash b.non_hash_data in
    let metadata = write b.consensus_metadata end in
    let previous = write b.previous_block_hash metadata in
    let hash = write b.state_hash previous in
    rw
      (
        read-write b.transactions hash,
        read-write b.state_hash previous,
        read-write b.previous_block_hash metadata,
        read-write b.consensus_metadata end,
        read_non_hash-write_non_hash b.non_hash_data,
      )
      refl

abbrev pub codec : Codec numbers
codec = record {
  marshal = λ b. some (marshal_block b);
  unmarshal = λ bytes. some (unmarshal_block bytes);
  crypto_hash = λ bytes. bytes;
}

pub codec-RoundTrips : RoundTrips codec
unfolding RoundTrips
codec-RoundTrips b bytes e =
    ap (λ r. some (unmarshal_block r)) (sym (some-injective _ _ e))
    ∙ ap some (unmarshal_block-marshal_block b)
