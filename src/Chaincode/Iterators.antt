-- ===== src/Chaincode/Iterators.antt =====
-- An iterator page by page, and the context of an id under changes of its iterators.
use client_sdk.Prelude.{
  ℕ, zero, suc, ◌<◌, ◌≤◌, ◌≡◌, refl, sym, ap, ◌∙◌, String, string_eq, ◌==◌, true, Option, none,
  some, List, [], ◌∷◌, ◌++◌, length, Map, lookup, insert, lookup-insert, arith, inl, inr,
  Option-cases,
}
use mathlib.Core.Option.{some-injective}
use client_sdk.Chaincode.{HandlerEnv}
use client_sdk.Chaincode.Handler.{TransactionContext, Handler, get_tx_context}
use client_sdk.Chaincode.Security.{decrypt, encrypt_or_decrypt}
use client_sdk.Chaincode.Ranges.{KeyValue, fill_page, with_iterators}

-- The keys of an iterator with their decrypted values.
unfoldable pub plain_values : (List ℕ → Option (List ℕ)) → List KeyValue → Option (List KeyValue)
plain_values plain [] = some []
plain_values plain ((key, value) ∷ rest) =
    let later = plain_values plain rest in
    elim (plain value) [
      | none ↦ none
      | some v ↦ elim later [ none ↦ none | some kvs ↦ some ((key, v) ∷ kvs) ]
    ]

-- A page of an iterator whose values can be decrypted.
pub record Filled (n : ℕ) (plain : List ℕ → Option (List ℕ)) (iter out : List KeyValue)
    : Type 0 where
  pub page : List KeyValue
  pub rest : List KeyValue
  pub after : List KeyValue
  pub filled : fill_page n plain iter ≡ some (page, rest)
  pub joined : out ≡ page ++ after
  pub values : plain_values plain rest ≡ some after
  pub bounded : length page ≤ n
  pub no_longer : length rest ≤ length iter
  pub shorter : 0 < n → 0 < length rest → length rest < length iter

pub fill_page-Filled :
    (n : ℕ) (plain : List ℕ → Option (List ℕ)) (iter out : List KeyValue)
    → plain_values plain iter ≡ some out
    → Filled n plain iter out
unfolding fill_page plain_values
fill_page-Filled zero plain iter out good = record {
  page = [];
  rest = iter;
  after = out;
  filled = refl;
  joined = refl;
  values = good;
  bounded = omega arith;
  no_longer = omega arith;
  shorter = λ some_room more. omega arith;
}
fill_page-Filled (suc n) plain [] out good = record {
  page = [];
  rest = [];
  after = [];
  filled = refl;
  joined = sym (some-injective _ _ good);
  values = refl;
  bounded = omega arith;
  no_longer = omega arith;
  shorter = λ some_room more. omega arith;
}
fill_page-Filled (suc n) plain ((key, value) ∷ rest) out good = elim (Option-cases (plain value)) [
  | inl lost ↦ cc (rw (plain_values, lost) at good)
  | inr (v, shown) ↦ elim (Option-cases (plain_values plain rest)) [
    | inl lost ↦ cc (rw (plain_values, shown, lost) at good)
    | inr (kvs, others) ↦
        let f = fill_page-Filled n plain rest kvs others in
        let all : out ≡ (key, v) ∷ kvs =
          sym (some-injective _ _ (rw (plain_values, shown, others) at good)) in
        record {
          page = (key, v) ∷ f.page;
          rest = f.rest;
          after = f.after;
          filled = rw (fill_page, shown, f.filled) refl;
          joined = all ∙ ap (λ l. (key, v) ∷ l) f.joined;
          values = f.values;
          bounded = omega (arith, f.bounded);
          no_longer = omega (arith, f.no_longer);
          shorter = λ some_room more. omega (arith, f.no_longer);
        }
  ]
]

module _ (E : HandlerEnv) where
  -- A handler with the context of an id, for the same transaction.
  pub record HasContext (uuid : String) (tx : Option E.Tx) (deploy : Option E.Tx) (h : Handler E)
      : Type 0 where
    pub ctx : TransactionContext E.Tx
    pub held : get_tx_context E uuid h ≡ some ctx
    pub of_tx : ctx.transaction_sec_context ≡ tx
    pub deployed : h.deploy_tx_sec_context ≡ deploy

  pub with_iterators-context :
      (uuid : String) (f : Map String (List KeyValue) → Map String (List KeyValue)) (h : Handler E)
      (ctx : TransactionContext E.Tx)
      → get_tx_context E uuid h ≡ some ctx
      → (get_tx_context E uuid (with_iterators E uuid f h)
          ≡ some (record ctx { iterators = f ctx.iterators }))
        × ((with_iterators E uuid f h).deploy_tx_sec_context ≡ h.deploy_tx_sec_context)
  unfolding get_tx_context with_iterators
  with_iterators-context uuid f h ctx held = elim (Option-cases h.tx_ctxs) [
    | inl nil ↦ cc (rw (get_tx_context, nil) at held)
    | inr (m, made) ↦
        let found : lookup uuid m ≡ some ctx = rw (get_tx_context, made) at held in
        let itself : (uuid == uuid) ≡ true = (string_eq.same_iff uuid uuid).1 refl in
        let ctx' : TransactionContext E.Tx = record ctx { iterators = f ctx.iterators } in
        let again : lookup uuid (insert uuid ctx' m) ≡ some ctx' =
          lookup-insert uuid uuid ctx' m ∙ simp itself in
        let kept : with_iterators E uuid f h ≡ record h { tx_ctxs = some (insert uuid ctx' m) } =
          simp (with_iterators, made, found) in
        (ap (get_tx_context E uuid) kept ∙ again, ap (λ x. x.deploy_tx_sec_context) kept)
  ]

  pub with_iterators-HasContext :
      (uuid : String) (tx deploy : Option E.Tx)
      (f : Map String (List KeyValue) → Map String (List KeyValue)) (h : Handler E)
      → HasContext uuid tx deploy h
      → HasContext uuid tx deploy (with_iterators E uuid f h)
  with_iterators-HasContext uuid tx deploy f h c =
      let kept = with_iterators-context uuid f h c.ctx c.held in
      record { ctx = _; held = kept.0; of_tx = c.of_tx; deployed = kept.1 ∙ c.deployed }

  -- What decryption does depends on the transaction and on the one that deployed the chaincode.
  pub decrypt-HasContext :
      (uuid : String) (tx deploy : Option E.Tx) (v : List ℕ) (h h' : Handler E)
      → HasContext uuid tx deploy h
      → HasContext uuid tx deploy h'
      → decrypt E uuid v h ≡ decrypt E uuid v h'
  unfolding decrypt encrypt_or_decrypt
  decrypt-HasContext uuid none deploy v h h' c c' = simp (c.held, c'.held, c.of_tx, c'.of_tx)
  decrypt-HasContext uuid (some t) deploy v h h' c c' =
      simp (c.held, c'.held, c.of_tx, c'.of_tx, c.deployed, c'.deployed)
