-- ===== src/Chaincode/Stream.antt =====
-- The callbacks of the handler's machine, HandleMessage, and the loop over the stream.
use client_sdk.Prelude.{
  Bool, true, false, not, ◌&&◌, ◌||◌, none, some, [], ◌∷◌, ◌++◌, if◌then◌else◌,
}
use client_sdk.Chaincode.{
  MessageType, register, registered, init, get_state, put_state, del_state, invoke_chaincode,
  invoke_query, query_completed, query_error, range_query_state, range_query_state_next,
  range_query_state_close, FsmState, createdstate, establishedstate, initstate, readystate,
  transactionstate, busyinitstate, busyxactstate, endstate, ChaincodeMessage, in_query_context,
  send_failed, crypto_failed, HandlerEnv,
}
use client_sdk.Chaincode.Fsm.{
  events, same_type, EventError, no_transition_error, canceled_error, Machine, Fsm,
}
use client_sdk.Chaincode.Handler.{
  Job, job_get_state, job_busy, job_query, job_range_query, job_range_query_next,
  job_range_query_close, Handler, serial_send, mark_is_transaction, get_is_transaction,
  delete_is_transaction, notify_during_startup, notify, deregister, error_message,
}
use client_sdk.Chaincode.Security.{encrypt}

module _ (E : HandlerEnv) where
  -- `go func`.
  unfoldable pub start_job : Job → Handler E → Handler E
  start_job j h = record h { jobs = h.jobs ++ j ∷ [] }

  -- What `registerHandler` of the chaincode support does with the handler: it makes its maps, and
  -- gives it the channel of a handler that was set up before, if that has one.
  unfoldable pub take_up : Bool → Handler E → Handler E
  take_up given h = record h {
    registered = true;
    ready_notify = if given then some [] else h.ready_notify;
    tx_ctxs = some [];
    uuid_map = some [];
    is_transaction = some [];
  }

  unfoldable pub before_register_event : ChaincodeMessage → Handler E → Bool × Handler E
  before_register_event msg h = elim (E.unmarshal_chaincode_id msg.payload) [
    | none ↦ (true, h)
    | some name ↦
        let r = E.register_handler name h.outside in
        let named : Handler E = record h { chaincode_id = some name; outside = r.1 } in
        elim r.0 [
          | none ↦ (true, notify_during_startup E false named)
          | some given ↦
              let reply : ChaincodeMessage = record {
                type = registered;
                payload = [];
                uuid = "";
              } in
              let sent = serial_send E reply (take_up given named) in
              if sent.0 then (false, sent.1) else (true, notify_during_startup E false sent.1)
        ]
  ]

  unfoldable pub before_event : MessageType → ChaincodeMessage → Handler E → Bool × Handler E
  before_event register msg h = before_register_event msg h
  before_event init msg h = (false, notify_during_startup E true h)
  before_event _ msg h = (false, h)

  unfoldable pub after_event : MessageType → ChaincodeMessage → Handler E → Bool × Handler E
  after_event get_state msg h = (false, start_job (job_get_state msg) h)
  after_event range_query_state msg h = (false, start_job (job_range_query msg) h)
  after_event range_query_state_next msg h = (false, start_job (job_range_query_next msg) h)
  after_event range_query_state_close msg h = (false, start_job (job_range_query_close msg) h)
  after_event _ msg h = (false, h)

  unfoldable pub enter_init_state : ChaincodeMessage → Handler E → Handler E
  enter_init_state msg h =
      if same_type msg.type init
      then (let sent = serial_send E msg (mark_is_transaction E msg.uuid true h).1 in
          if sent.0 then sent.1 else notify E (error_message E send_failed msg.uuid) sent.1)
      else h

  unfoldable pub enter_ready_state : ChaincodeMessage → Handler E → Handler E
  enter_ready_state msg h = notify E msg (delete_is_transaction E msg.uuid h)

  -- The event is canceled after the state has changed.
  unfoldable pub enter_end_state : ChaincodeMessage → Handler E → Bool × Handler E
  enter_end_state msg h = (true, deregister E (notify E msg (delete_is_transaction E msg.uuid h)))

  unfoldable pub enter_state : FsmState → ChaincodeMessage → Handler E → Bool × Handler E
  enter_state establishedstate msg h = (false, notify_during_startup E true h)
  enter_state initstate msg h = (false, enter_init_state msg h)
  enter_state readystate msg h = (false, enter_ready_state msg h)
  enter_state busyinitstate msg h = (false, start_job (job_busy msg) h)
  enter_state busyxactstate msg h = (false, start_job (job_busy msg) h)
  enter_state endstate msg h = enter_end_state msg h
  enter_state _ msg h = (false, h)

  unfoldable pub machine : Machine (Handler E)
  machine = record {
    table = events;
    current = λ h. h.fsm_current;
    set_current = λ s h. record h { fsm_current = s };
    before = before_event;
    enter = enter_state;
    after = after_event;
  }

  -- Whether the error goes on.
  unfoldable pub filter_error : EventError → Bool
  filter_error (no_transition_error embedded) = embedded
  filter_error (canceled_error embedded) = embedded
  filter_error _ = false

  unfoldable pub needs_transaction : MessageType → Bool
  needs_transaction t =
      same_type t put_state || same_type t del_state || same_type t invoke_chaincode

  -- A message that the table does not allow.
  unfoldable pub refuse : ChaincodeMessage → Handler E → Handler E
  refuse msg h =
      if needs_transaction msg.type && not (get_is_transaction E msg.uuid h)
      then (serial_send E (error_message E in_query_context msg.uuid) h).1
      else h

  -- `HandleMessage` after its tests of the type, with whether it returns an error.
  unfoldable pub handle_event : Fsm (Handler E) → ChaincodeMessage → Handler E → Bool × Handler E
  handle_event F msg h =
      if F.cannot machine msg.type h
      then (true, refuse msg h)
      else let r = F.event machine msg.type msg h in (filter_error r.0, r.1)

  unfoldable pub query_done : ChaincodeMessage → Handler E → Handler E
  query_done msg h =
      let h' = delete_is_transaction E msg.uuid h in
      elim (encrypt E msg.uuid msg.payload h') [
        | none ↦
            notify E
              (record { type = query_error; payload = E.error_text crypto_failed; uuid = msg.uuid })
              h'
        | some payload ↦ notify E (record msg { payload = payload }) h'
      ]

  unfoldable pub handle_message : Fsm (Handler E) → ChaincodeMessage → Handler E → Bool × Handler E
  handle_message F msg h =
      if same_type msg.type query_completed
      then (false, query_done msg h)
      else if same_type msg.type query_error
      then (false, notify E msg (delete_is_transaction E msg.uuid h))
      else if same_type msg.type invoke_query
      then (false, start_job (job_query msg) h)
      else handle_event F msg h

  -- The end of processStream, by its deferred function.
  unfoldable pub end_stream : Handler E → Handler E
  end_stream h = deregister E (record h { ended = true })

  -- A pass of processStream with a message of the stream, and with one that waits to be the next.
  unfoldable pub pass_message : Fsm (Handler E) → ChaincodeMessage → Handler E → Handler E
  pass_message F msg h = let r = handle_message F msg h in if r.0 then end_stream r.1 else r.1

  unfoldable pub pass_next : Fsm (Handler E) → Handler E → Handler E
  pass_next F h = elim h.next_state [
    | [] ↦ h
    | ns ∷ rest ↦
        let r = handle_message F ns.msg (record h { next_state = rest }) in
        if r.0
        then end_stream r.1
        else if ns.send_to_cc
        then (let sent = serial_send E ns.msg r.1 in if sent.0 then sent.1 else end_stream sent.1)
        else r.1
  ]

  unfoldable pub is_running : Handler E → Bool
  is_running h = elim h.fsm_current [
    | createdstate ↦ false
    | establishedstate ↦ false
    | initstate ↦ false
    | readystate ↦ true
    | transactionstate ↦ true
    | busyinitstate ↦ true
    | busyxactstate ↦ true
    | endstate ↦ true
  ]
