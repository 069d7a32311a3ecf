-- ===== src/Chaincode/Jobs.antt =====
-- The goroutines of a handler: a read of the state, a change of it or a call of another chaincode
-- in a busy state, and a query of another chaincode.
use client_sdk.Prelude.{String, Bool, true, not, Option, none, some, [], if◌then◌else◌}
use client_sdk.Chaincode.{
  transaction, query, put_state, del_state, invoke_chaincode, ChaincodeMessage, in_query_context,
  no_ledger, bad_payload, launch_failed, call_failed, crypto_failed, executed, failed, no_response,
  HandlerEnv,
}
use client_sdk.Chaincode.Fsm.{same_type}
use client_sdk.Chaincode.Handler.{
  Handler, create_uuid_entry, delete_uuid_entry, get_is_transaction, serial_send,
  trigger_next_state, error_message, response_message,
}
use client_sdk.Chaincode.Security.{encrypt, decrypt}

module _ (E : HandlerEnv) where
  -- The answer to a read; none where the handler has no chaincode's id, which is a nil dereference.
  unfoldable pub answer_get_state : ChaincodeMessage → Handler E → Option ChaincodeMessage
  answer_get_state msg h =
      if not (E.get_ledger h.outside)
      then some (error_message E no_ledger msg.uuid)
      else elim h.chaincode_id [
        | none ↦ none
        | some name ↦
            elim (E.ledger_get_state name msg.payload (not (get_is_transaction E msg.uuid h))
              h.outside) [
                | none ↦ some (error_message E call_failed msg.uuid)
                | some res ↦ elim (decrypt E msg.uuid res h) [
                  | none ↦ some (error_message E crypto_failed msg.uuid)
                  | some plain ↦ some (response_message E plain msg.uuid)
                ]
              ]
      ]

  unfoldable pub crash : Handler E → Handler E
  crash h = record h { crashed = true }

  -- The goroutine of handleGetState. The error of the stream is ignored.
  unfoldable pub handle_get_state : ChaincodeMessage → Handler E → Handler E
  handle_get_state msg h =
      let c = create_uuid_entry E msg.uuid h in
      if not c.0 then c.1 else elim (answer_get_state msg c.1) [
        | none ↦ crash c.1
        | some reply ↦ (serial_send E reply (delete_uuid_entry E msg.uuid c.1)).1
      ]

  -- The reply after a change of the ledger that succeeded or failed.
  unfoldable pub changed : String → Bool × E.St → Handler E → Option ChaincodeMessage × Handler E
  changed uuid r h =
      let h' : Handler E = record h { outside = r.1 } in
      (some (if r.0 then response_message E [] uuid else error_message E call_failed uuid), h')

  unfoldable pub put_work :
      String → ChaincodeMessage → Handler E → Option ChaincodeMessage × Handler E
  put_work name msg h = elim (E.unmarshal_put_state_info msg.payload) [
    | none ↦ (some (error_message E bad_payload msg.uuid), h)
    | some info ↦ elim (encrypt E msg.uuid info.1 h) [
      | none ↦ (some (error_message E crypto_failed msg.uuid), h)
      | some p_val ↦ changed msg.uuid (E.ledger_set_state name info.0 p_val h.outside) h
    ]
  ]

  -- A call of another chaincode. A specification without an id is a nil dereference; so is a result
  -- without a response, whose payload is read before the test of the error.
  unfoldable pub invoke_work : ChaincodeMessage → Handler E → Option ChaincodeMessage × Handler E
  invoke_work msg h = elim (E.unmarshal_chaincode_spec msg.payload) [
    | none ↦ (some (error_message E bad_payload msg.uuid), h)
    | some spec ↦ elim (E.chaincode_id_name spec) [
      | none ↦ (none, h)
      | some name ↦
          let launched = E.launch_chaincode spec msg.uuid h.outside in
          if not launched.0
          then (some (error_message E launch_failed msg.uuid), record h { outside = launched.1 })
          else let ran = E.execute name spec msg.uuid transaction launched.1 in
            let h' : Handler E = record h { outside = ran.1 } in
            elim ran.0 [
              | no_response ↦ (none, h')
              | failed _ ↦ (some (error_message E call_failed msg.uuid), h')
              | executed res ↦ (some (response_message E res msg.uuid), h')
            ]
    ]
  ]

  -- The reply to a request that the goroutine of enterBusyState works on; none is a panic.
  unfoldable pub busy_work : ChaincodeMessage → Handler E → Option ChaincodeMessage × Handler E
  busy_work msg h =
      if not (E.get_ledger h.outside)
      then (some (error_message E no_ledger msg.uuid), h)
      else elim h.chaincode_id [
        | none ↦ (none, h)
        | some name ↦
            if same_type msg.type put_state
            then put_work name msg h
            else if same_type msg.type del_state
            then changed msg.uuid (E.ledger_delete_state name msg.payload h.outside) h
            else if same_type msg.type invoke_chaincode
            then invoke_work msg h
            else (some (response_message E [] msg.uuid), h)
      ]

  -- The end of the goroutine, by its deferred function.
  unfoldable pub end_busy : String → Option ChaincodeMessage × Handler E → Handler E
  end_busy uuid (none, h) = crash h
  end_busy uuid (some reply, h) = trigger_next_state E reply true (delete_uuid_entry E uuid h)

  -- The goroutine of enterBusyState.
  unfoldable pub enter_busy_state : ChaincodeMessage → Handler E → Handler E
  enter_busy_state msg h =
      if not (get_is_transaction E msg.uuid h)
      then trigger_next_state E (error_message E in_query_context msg.uuid) true h
      else let c = create_uuid_entry E msg.uuid h in
        if not c.0 then c.1 else end_busy msg.uuid (busy_work msg c.1)

  -- A query of another chaincode; none is a nil dereference.
  unfoldable pub query_work : ChaincodeMessage → Handler E → Option ChaincodeMessage × Handler E
  query_work msg h = elim (E.unmarshal_chaincode_spec msg.payload) [
    | none ↦ (some (error_message E bad_payload msg.uuid), h)
    | some spec ↦ elim (E.chaincode_id_name spec) [
      | none ↦ (none, h)
      | some name ↦
          let launched = E.launch_chaincode spec msg.uuid h.outside in
          if not launched.0
          then (some (error_message E launch_failed msg.uuid), record h { outside = launched.1 })
          else let ran = E.execute name spec msg.uuid query launched.1 in
            let h' : Handler E = record h { outside = ran.1 } in
            elim ran.0 [
              | no_response ↦ (some (error_message E call_failed msg.uuid), h')
              | failed _ ↦ (some (error_message E call_failed msg.uuid), h')
              | executed res ↦ (some (response_message E res msg.uuid), h')
            ]
    ]
  ]

  -- The goroutine of handleQueryChaincode.
  unfoldable pub handle_query_chaincode : ChaincodeMessage → Handler E → Handler E
  handle_query_chaincode msg h =
      let c = create_uuid_entry E msg.uuid h in
      if not c.0
      then c.1
      else let worked = query_work msg c.1 in
        elim worked.0 [
          | none ↦ crash worked.1
          | some reply ↦ (serial_send E reply (delete_uuid_entry E msg.uuid worked.1)).1
        ]
