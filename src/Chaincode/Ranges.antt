-- ===== src/Chaincode/Ranges.antt =====
-- The goroutines of range queries: the first page, the next one, and the end.
use client_sdk.Prelude.{
  ℕ, zero, suc, String, string_eq, Bool, true, false, not, Option, none, some, List, [], ◌∷◌, Map,
  lookup, insert, delete, if◌then◌else◌,
}
use client_sdk.Chaincode.{
  ChaincodeMessage, iterator_not_found, no_ledger, bad_payload, call_failed, HandlerEnv,
}
use client_sdk.Chaincode.Handler.{
  Handler, get_tx_context, create_uuid_entry, delete_uuid_entry, get_is_transaction, serial_send,
  error_message, response_message,
}
use client_sdk.Chaincode.Security.{decrypt}
use client_sdk.Chaincode.Jobs.{crash}

-- `maxRangeQueryStateLimit`.
abbrev pub max_range_query_state_limit : ℕ
max_range_query_state_limit = 100

abbrev pub KeyValue : Type 0
KeyValue = List ℕ × List ℕ

-- The loop over an iterator: the keys with their decrypted values, and what is left. None is for a
-- value that cannot be decrypted.
unfoldable pub fill_page :
    ℕ → (List ℕ → Option (List ℕ)) → List KeyValue → Option (List KeyValue × List KeyValue)
fill_page zero plain rest = some ([], rest)
fill_page (suc n) plain [] = some ([], [])
fill_page (suc n) plain ((key, value) ∷ rest) =
    let later = fill_page n plain rest in
    elim (plain value) [
      | none ↦ none
      | some v ↦ elim later [ none ↦ none | some p ↦ some ((key, v) ∷ p.0, p.1) ]
    ]

module _ (E : HandlerEnv) where
  -- A change of the iterators of the context of an id.
  unfoldable pub with_iterators :
      String → (Map String (List KeyValue) → Map String (List KeyValue)) → Handler E → Handler E
  with_iterators uuid f h = elim h.tx_ctxs [
    | none ↦ h
    | some m ↦ elim (lookup uuid m) [
      | none ↦ h
      | some ctx ↦ record h {
        tx_ctxs = some (insert uuid (record ctx { iterators = f ctx.iterators }) m);
      }
    ]
  ]

  unfoldable pub put_range_query_iterator : String → String → List KeyValue → Handler E → Handler E
  put_range_query_iterator uuid id iter h = with_iterators uuid (insert id iter) h

  unfoldable pub delete_range_query_iterator : String → String → Handler E → Handler E
  delete_range_query_iterator uuid id h = with_iterators uuid (delete id) h

  -- What an iterator holds after a page; it is closed and deleted when nothing is left.
  unfoldable pub move_iterator : String → String → List KeyValue → Handler E → Handler E
  move_iterator uuid id [] h = delete_range_query_iterator uuid id h
  move_iterator uuid id (kv ∷ rest) h = put_range_query_iterator uuid id (kv ∷ rest) h

  unfoldable pub has_more : List KeyValue → Bool
  has_more [] = false
  has_more (_ ∷ _) = true

  -- The page of an iterator. For a value that cannot be decrypted the text of an error is read that
  -- is nil there.
  unfoldable pub send_page :
      String → String → List KeyValue → Handler E → Option ChaincodeMessage × Handler E
  send_page uuid id iter h =
      elim (fill_page max_range_query_state_limit (λ v. decrypt E uuid v h) iter) [
        | none ↦ (none, h)
        | some p ↦
            let moved = move_iterator uuid id p.1 h in
            elim (E.marshal_range_response p.0 (has_more p.1) id) [
              | none ↦ (
                some (error_message E bad_payload uuid),
                delete_range_query_iterator uuid id moved,
              )
              | some bytes ↦ (some (response_message E bytes uuid), moved)
            ]
      ]

  -- The first page. A context that is not there is a nil dereference.
  unfoldable pub range_work : ChaincodeMessage → Handler E → Option ChaincodeMessage × Handler E
  range_work msg h = elim (E.unmarshal_range_query_state msg.payload) [
    | none ↦ (some (error_message E bad_payload msg.uuid), h)
    | some range ↦
        if not (E.get_ledger h.outside)
        then (some (error_message E no_ledger msg.uuid), h)
        else elim h.chaincode_id [
          | none ↦ (none, h)
          | some name ↦
              let committed = not (get_is_transaction E msg.uuid h) in
              elim (E.range_scan name range.0 range.1 committed h.outside) [
                | none ↦ (some (error_message E call_failed msg.uuid), h)
                | some iter ↦
                    let made = E.generate_uuid h.outside in
                    let h' : Handler E = record h { outside = made.1 } in
                    elim (get_tx_context E msg.uuid h') [
                      | none ↦ (none, h')
                      | some _ ↦
                          send_page msg.uuid made.0 iter
                            (put_range_query_iterator msg.uuid made.0 iter h')
                    ]
              ]
        ]
  ]

  unfoldable pub next_work : ChaincodeMessage → Handler E → Option ChaincodeMessage × Handler E
  next_work msg h = elim (E.unmarshal_range_query_id msg.payload) [
    | none ↦ (some (error_message E bad_payload msg.uuid), h)
    | some id ↦ elim (get_tx_context E msg.uuid h) [
      | none ↦ (none, h)
      | some ctx ↦ elim (lookup id ctx.iterators) [
        | none ↦ (some (error_message E iterator_not_found msg.uuid), h)
        | some iter ↦ send_page msg.uuid id iter h
      ]
    ]
  ]

  unfoldable pub close_work : ChaincodeMessage → Handler E → Option ChaincodeMessage × Handler E
  close_work msg h = elim (E.unmarshal_range_query_id msg.payload) [
    | none ↦ (some (error_message E bad_payload msg.uuid), h)
    | some id ↦ elim (get_tx_context E msg.uuid h) [
      | none ↦ (none, h)
      | some ctx ↦
          let closed = delete_range_query_iterator msg.uuid id h in
          elim (E.marshal_range_response [] false id) [
            | none ↦ (some (error_message E bad_payload msg.uuid), closed)
            | some bytes ↦ (some (response_message E bytes msg.uuid), closed)
          ]
    ]
  ]

  -- The frame of the three goroutines: one request of an id at a time, and the reply by their
  -- deferred function.
  unfoldable pub end_read : String → Option ChaincodeMessage × Handler E → Handler E
  end_read uuid (none, h) = crash E h
  end_read uuid (some reply, h) = (serial_send E reply (delete_uuid_entry E uuid h)).1

  unfoldable pub handle_range_query_state : ChaincodeMessage → Handler E → Handler E
  handle_range_query_state msg h =
      let c = create_uuid_entry E msg.uuid h in
      if not c.0 then c.1 else end_read msg.uuid (range_work msg c.1)

  unfoldable pub handle_range_query_state_next : ChaincodeMessage → Handler E → Handler E
  handle_range_query_state_next msg h =
      let c = create_uuid_entry E msg.uuid h in
      if not c.0 then c.1 else end_read msg.uuid (next_work msg c.1)

  unfoldable pub handle_range_query_state_close : ChaincodeMessage → Handler E → Handler E
  handle_range_query_state_close msg h =
      let c = create_uuid_entry E msg.uuid h in
      if not c.0 then c.1 else end_read msg.uuid (close_work msg c.1)
