-- ===== src/Chaincode/Pages.antt =====
-- The pages of a range query, from the first one to the last.
use client_sdk.Prelude.{
  ℕ, zero, suc, ◌<◌, ◌≤◌, ◌≡◌, refl, sym, ap, ◌∙◌, subst, String, string_eq, ◌==◌, Bool, true,
  false, not, Option, none, some, List, [], ◌∷◌, ◌++◌, length, All, lookup, insert, lookup-insert,
  arith, if◌then◌else◌,
}
use mathlib.Core.Option.{some-injective}
use client_sdk.Chaincode.{range_query_state_next, ChaincodeMessage, HandlerEnv}
use client_sdk.Chaincode.Handler.{
  TransactionContext, Handler, get_tx_context, get_is_transaction, response_message,
}
use client_sdk.Chaincode.Security.{decrypt}
use client_sdk.Chaincode.Ranges.{
  KeyValue, max_range_query_state_limit, fill_page, put_range_query_iterator, move_iterator,
  has_more, send_page, range_work, next_work,
}
use client_sdk.Chaincode.Iterators.{
  plain_values, fill_page-Filled, HasContext, with_iterators-context, with_iterators-HasContext,
  decrypt-HasContext,
}

no_fuel : (n : ℕ) → n < 0 → ⊥
no_fuel n fuel = omega arith

module _ (E : HandlerEnv) where
  -- What a chaincode reads: the pages from a reply on, while there are more, each with the next
  -- request, whose payload is `p`.
  unfoldable pub pages_from :
      ℕ → ChaincodeMessage → Option ChaincodeMessage × Handler E → Option (List (List KeyValue))
  pages_from zero next r = none
  pages_from (suc n) next r =
      let later = pages_from n next (next_work E next r.1) in
      elim r.0 [
        | none ↦ none
        | some reply ↦ elim (E.unmarshal_range_response reply.payload) [
          | none ↦ none
          | some page ↦
              if page.1
              then elim later [ none ↦ none | some ps ↦ some (page.0 ∷ ps) ]
              else some (page.0 ∷ [])
        ]
      ]

  abbrev pub join : List (List KeyValue) → List KeyValue
  join [] = []
  join (page ∷ rest) = page ++ join rest

  -- A page can be marshalled, and protobuf reads back what it writes.
  pub record Marshals : Type 0 where
    pub bytes : List KeyValue → Bool → String → List ℕ
    pub writes :
        (kvs : List KeyValue) (more : Bool) (id : String)
        → E.marshal_range_response kvs more id ≡ some (bytes kvs more id)
    pub reads :
        (kvs : List KeyValue) (more : Bool) (id : String)
        → E.unmarshal_range_response (bytes kvs more id) ≡ some (kvs, more)

  next_work-send_page :
      (uuid id : String) (next : ChaincodeMessage) (h : Handler E) (c : TransactionContext E.Tx)
      (iter : List KeyValue)
      → E.unmarshal_range_query_id next.payload ≡ some id
      → get_tx_context E next.uuid h ≡ some c
      → lookup id c.iterators ≡ some iter
      → next_work E next h ≡ send_page E next.uuid id iter h
  unfolding next_work
  next_work-send_page uuid id next h c iter asks held open_one =
      rw (next_work, asks, held, open_one) refl

  -- All pages of an iterator in the context of an id: none of them is too long, and together they
  -- are the decrypted keys and values.
  pub record AllPages (out : List KeyValue) (r : Option (List (List KeyValue))) : Type 0 where
    pub pages : List (List KeyValue)
    pub read : r ≡ some pages
    pub joined : join pages ≡ out
    pub bounded : All (λ page. length page ≤ max_range_query_state_limit) pages

  -- One page, and the rest by what follows.
  page-AllPages :
      (n : ℕ) (id : String) (next : ChaincodeMessage) (tx deploy : Option E.Tx) (h : Handler E)
      (iter out page rest after : List KeyValue)
      → Marshals
      → E.unmarshal_range_query_id next.payload ≡ some id
      → HasContext E next.uuid tx deploy h
      → fill_page max_range_query_state_limit (λ v. decrypt E next.uuid v h) iter
        ≡ some (page, rest)
      → out ≡ page ++ after
      → plain_values (λ v. decrypt E next.uuid v h) rest ≡ some after
      → length page ≤ max_range_query_state_limit
      → ((h' : Handler E)
          → 0 < length rest
          → HasContext E next.uuid tx deploy h'
          → AllPages after (pages_from n next (send_page E next.uuid id rest h')))
      → AllPages out (pages_from (suc n) next (send_page E next.uuid id iter h))
  unfolding pages_from send_page move_iterator has_more response_message plain_values
      put_range_query_iterator
  page-AllPages n id next tx deploy h iter out page [] after ms asks c filled joined values bounded
        later =
      let sent : send_page E next.uuid id iter h ≡ (
        some (response_message E (ms.bytes page false id) next.uuid),
        move_iterator E next.uuid id [] h,
      ) =
        simp (send_page, filled, ms.writes page false id) in
      record {
        pages = page ∷ [];
        read = ap (pages_from (suc n) next) sent ∙ rw (pages_from, ms.reads page false id) refl;
        joined = sym (joined ∙ ap (λ l. page ++ l) (sym (some-injective _ _ values)));
        bounded = (bounded, tt);
      }
  page-AllPages n id next tx deploy h iter out page (kv ∷ rest) after ms asks c filled joined values
        bounded later =
      let h' = put_range_query_iterator E next.uuid id (kv ∷ rest) h in
      let c' : HasContext E next.uuid tx deploy h' =
        with_iterators-HasContext E next.uuid tx deploy (insert id (kv ∷ rest)) h c in
      let a = later h' (omega arith) c' in
      let held = with_iterators-context E next.uuid (insert id (kv ∷ rest)) h c.ctx c.held in
      let itself : (id == id) ≡ true = (string_eq.same_iff id id).1 refl in
      let there : lookup id (insert id (kv ∷ rest) c.ctx.iterators) ≡ some (kv ∷ rest) =
        lookup-insert id id (kv ∷ rest) c.ctx.iterators ∙ simp itself in
      let more : next_work E next h' ≡ send_page E next.uuid id (kv ∷ rest) h' =
        next_work-send_page next.uuid id next h' _ (kv ∷ rest) asks held.0 there in
      let sent : send_page E next.uuid id iter h
          ≡ (some (response_message E (ms.bytes page true id) next.uuid), h') =
        simp (send_page, filled, ms.writes page true id) in
      record {
        pages = page ∷ a.pages;
        read =
            ap (pages_from (suc n) next) sent
            ∙ rw (pages_from, ms.reads page true id, more, a.read) refl;
        joined = ap (λ l. page ++ l) a.joined ∙ sym joined;
        bounded = (bounded, a.bounded);
      }

  send_page-AllPages :
      (n : ℕ) (id : String) (next : ChaincodeMessage) (tx deploy : Option E.Tx) (h : Handler E)
      (iter out : List KeyValue)
      → Marshals
      → E.unmarshal_range_query_id next.payload ≡ some id
      → HasContext E next.uuid tx deploy h
      → plain_values (λ v. decrypt E next.uuid v h) iter ≡ some out
      → length iter < n
      → AllPages out (pages_from n next (send_page E next.uuid id iter h))
  send_page-AllPages zero id next tx deploy h iter out ms asks c good fuel =
      absurd (no_fuel (length iter) fuel)
  send_page-AllPages (suc n) id next tx deploy h iter out ms asks c good fuel =
      let f =
        fill_page-Filled max_range_query_state_limit (λ v. decrypt E next.uuid v h) iter out good in
      page-AllPages n id next tx deploy h iter out f.page f.rest f.after ms asks c f.filled f.joined
        f.values f.bounded
        (λ h' more c'.
          send_page-AllPages n id next tx deploy h' f.rest f.after ms asks c'
            (subst (λ d. plain_values d f.rest ≡ some f.after)
              (λ i v. decrypt-HasContext E next.uuid tx deploy v h h' c c' i) f.values)
            (omega (arith, f.shorter (omega arith) more)))

  -- A range query reads all that the ledger's iterator gives: the reply to the query and the
  -- replies to the requests for the next page, up to the first one that says that there is no more,
  -- are pages of at most 100 keys and values, which together are those of the iterator, in its order
  -- and with their values decrypted. The context of the id is there, the values can be decrypted,
  -- the requests for the next page have the id that was made, and protobuf reads back the pages
  -- that it writes.
  pub range_work-AllPages :
      (msg : ChaincodeMessage) (p : List ℕ) (name : String) (range : List ℕ × List ℕ)
      (tx deploy : Option E.Tx) (h : Handler E) (iter out : List KeyValue)
      → Marshals
      → E.unmarshal_range_query_state msg.payload ≡ some range
      → E.get_ledger h.outside ≡ true
      → h.chaincode_id ≡ some name
      → E.range_scan name range.0 range.1 (not (get_is_transaction E msg.uuid h)) h.outside
        ≡ some iter
      → E.unmarshal_range_query_id p ≡ some (E.generate_uuid h.outside).0
      → HasContext E msg.uuid tx deploy h
      → plain_values (λ v. decrypt E msg.uuid v h) iter ≡ some out
      → AllPages out (
          pages_from
            (suc (length iter))
            (record msg { type = range_query_state_next; payload = p })
            (range_work E msg h))
  unfolding range_work get_tx_context put_range_query_iterator get_is_transaction
  range_work-AllPages msg p name range tx deploy h iter out ms asks there named scanned next_asks c
        good =
      let next : ChaincodeMessage = record msg { type = range_query_state_next; payload = p } in
      let made = E.generate_uuid h.outside in
      let h1 : Handler E = record h { outside = made.1 } in
      let c1 : HasContext E msg.uuid tx deploy h1 = record {
        ctx = c.ctx;
        held = c.held;
        of_tx = c.of_tx;
        deployed = c.deployed;
      } in
      let h2 = put_range_query_iterator E msg.uuid made.0 iter h1 in
      let c2 : HasContext E msg.uuid tx deploy h2 =
        with_iterators-HasContext E msg.uuid tx deploy (insert made.0 iter) h1 c1 in
      let begun : range_work E msg h ≡ send_page E msg.uuid made.0 iter h2 =
        simp (range_work, asks, there, named, scanned, c.held) in
      subst (λ r. AllPages out (pages_from (suc (length iter)) next r)) (sym begun)
        (send_page-AllPages (suc (length iter)) made.0 next tx deploy h2 iter out ms next_asks c2
          (subst (λ d. plain_values d iter ≡ some out)
            (λ i v. decrypt-HasContext E msg.uuid tx deploy v h h2 c c2 i) good)
          (omega arith))
