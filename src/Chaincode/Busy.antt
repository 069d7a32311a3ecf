-- ===== src/Chaincode/Busy.antt =====
-- The events that change the ledger, and the way into and out of a busy state.
use client_sdk.Prelude.{◌≡◌, refl, ap, ◌∙◌, true, false, none, some, ◌⊎◌, inl, inr}
use client_sdk.Chaincode.{
  init, MessageType, error, put_state, del_state, invoke_chaincode, response, FsmState,
  createdstate, establishedstate, initstate, readystate, transactionstate, busyinitstate,
  busyxactstate, endstate, ChaincodeMessage, HandlerEnv, query_completed, query_error, invoke_query,
}
use client_sdk.Chaincode.Fsm.{
  events, destination, any_state, same_type, same_state, nil, Fsm, IsDocumented, target,
  event-moves,
}
use client_sdk.Chaincode.Handler.{Handler, job_busy}
use client_sdk.Chaincode.Stream.{
  machine, before_event, after_event, enter_state, enter_init_state, start_job, refuse,
  handle_message, handle_event, filter_error,
}

-- The requests to change the ledger or to call another chaincode.
pub data IsRequest : MessageType → Type 0 where
  is_put : IsRequest put_state
  is_del : IsRequest del_state
  is_invoke : IsRequest invoke_chaincode

-- The answers to these.
pub data IsAnswer : MessageType → Type 0 where
  is_error : IsAnswer error
  is_response : IsAnswer response

-- The states that take a request, with the busy states that they lead to.
pub data LeadsTo : FsmState → FsmState → Type 0 where
  from_init : LeadsTo initstate busyinitstate
  from_transaction : LeadsTo transactionstate busyxactstate

request_destination :
    (t : MessageType) (s : FsmState)
    → IsRequest t
    → (destination events t s ≡ none)
      ⊎ ((d : FsmState) × (destination events t s ≡ some d) × LeadsTo s d)
unfolding events destination any_state same_type same_state
request_destination _ createdstate is_put = inl refl
request_destination _ establishedstate is_put = inl refl
request_destination _ initstate is_put = inr (busyinitstate, refl, from_init)
request_destination _ readystate is_put = inl refl
request_destination _ transactionstate is_put = inr (busyxactstate, refl, from_transaction)
request_destination _ busyinitstate is_put = inl refl
request_destination _ busyxactstate is_put = inl refl
request_destination _ endstate is_put = inl refl
request_destination _ createdstate is_del = inl refl
request_destination _ establishedstate is_del = inl refl
request_destination _ initstate is_del = inr (busyinitstate, refl, from_init)
request_destination _ readystate is_del = inl refl
request_destination _ transactionstate is_del = inr (busyxactstate, refl, from_transaction)
request_destination _ busyinitstate is_del = inl refl
request_destination _ busyxactstate is_del = inl refl
request_destination _ endstate is_del = inl refl
request_destination _ createdstate is_invoke = inl refl
request_destination _ establishedstate is_invoke = inl refl
request_destination _ initstate is_invoke = inr (busyinitstate, refl, from_init)
request_destination _ readystate is_invoke = inl refl
request_destination _ transactionstate is_invoke = inr (busyxactstate, refl, from_transaction)
request_destination _ busyinitstate is_invoke = inl refl
request_destination _ busyxactstate is_invoke = inl refl
request_destination _ endstate is_invoke = inl refl

answer_destination :
    (t : MessageType) (s d : FsmState) → IsAnswer t → LeadsTo s d → destination events t d ≡ some s
unfolding events destination any_state same_type same_state
answer_destination _ _ _ is_error from_init = refl
answer_destination _ _ _ is_error from_transaction = refl
answer_destination _ _ _ is_response from_init = refl
answer_destination _ _ _ is_response from_transaction = refl

other_state : {s d : FsmState} → LeadsTo s d → same_state s d ≡ false
unfolding same_state
other_state from_init = refl
other_state from_transaction = refl

module _ (E : HandlerEnv) where
  before_request :
      (t : MessageType) (msg : ChaincodeMessage) (h : Handler E)
      → IsRequest t
      → before_event E t msg h ≡ (false, h)
  unfolding before_event
  before_request _ msg h is_put = refl
  before_request _ msg h is_del = refl
  before_request _ msg h is_invoke = refl

  after_request :
      (t : MessageType) (msg : ChaincodeMessage) (h : Handler E)
      → IsRequest t
      → after_event E t msg h ≡ (false, h)
  unfolding after_event
  after_request _ msg h is_put = refl
  after_request _ msg h is_del = refl
  after_request _ msg h is_invoke = refl

  enter_busy :
      {s d : FsmState} (msg : ChaincodeMessage) (h : Handler E)
      → LeadsTo s d
      → enter_state E d msg h ≡ (false, start_job E (job_busy msg) h)
  unfolding enter_state
  enter_busy msg h from_init = refl
  enter_busy msg h from_transaction = refl

module _ (E : HandlerEnv) (F : Fsm (Handler E)) (doc : IsDocumented F (machine E)) where
  -- A request is refused, or starts its goroutine in a busy state.
  pub request_event :
      (t : MessageType) (msg : ChaincodeMessage) (h : Handler E)
      → IsRequest t
      → (F.cannot (machine E) t h ≡ true)
        ⊎ ((d : FsmState) × LeadsTo h.fsm_current d
            × (F.cannot (machine E) t h ≡ false)
            × (F.event (machine E) t msg h
                ≡ (nil, start_job E (job_busy msg) (record h { fsm_current = d }))))
  unfolding machine target
  request_event t msg h request = elim (request_destination t h.fsm_current request) [
    | inl refused ↦ inl (doc.cannot_refused t h refused)
    | inr (d, leads, way) ↦ inr (
      d,
      way,
      doc.cannot_allowed t h d leads,
      event-moves F (machine E) t msg h h _ _ d doc leads (other_state way)
          (before_request E t msg h request) (enter_busy E msg _ way)
          (after_request E t msg _ request),
    )
  ]

-- `HandleMessage` treats the three types that do not go to the machine first.
unfoldable pub IsOrdinary : (t : MessageType) → Type 0
IsOrdinary t =
    (same_type t query_completed ≡ false)
    × (same_type t query_error ≡ false)
    × (same_type t invoke_query ≡ false)

request_ordinary : (t : MessageType) → IsRequest t → IsOrdinary t
unfolding same_type IsOrdinary
request_ordinary _ is_put = (refl, refl, refl)
request_ordinary _ is_del = (refl, refl, refl)
request_ordinary _ is_invoke = (refl, refl, refl)

pub answer_ordinary : (t : MessageType) → IsAnswer t → IsOrdinary t
unfolding same_type IsOrdinary
answer_ordinary _ is_error = (refl, refl, refl)
answer_ordinary _ is_response = (refl, refl, refl)

module _ (E : HandlerEnv) where
  pub handle_ordinary :
      (F : Fsm (Handler E)) (msg : ChaincodeMessage) (h : Handler E)
      → IsOrdinary msg.type
      → handle_message E F msg h ≡ handle_event E F msg h
  unfolding handle_message IsOrdinary
  handle_ordinary F msg h (done, failed, asks) = simp (done, failed, asks)

  pub handle_request :
      (F : Fsm (Handler E)) (msg : ChaincodeMessage) (h : Handler E)
      → IsDocumented F (machine E)
      → IsRequest msg.type
      → (handle_message E F msg h ≡ (true, refuse E msg h))
        ⊎ ((d : FsmState) × LeadsTo h.fsm_current d
            × (handle_message E F msg h
                ≡ (false, start_job E (job_busy msg) (record h { fsm_current = d }))))
  unfolding handle_event filter_error
  handle_request F msg h doc request =
      let plain = handle_ordinary F msg h (request_ordinary msg.type request) in
      elim (request_event E F doc msg.type msg h request) [
        | inl refused ↦ inl (plain ∙ simp refused)
        | inr (d, way, allowed, moved) ↦ inr (d, way, plain ∙ rw (allowed, moved) refl)
      ]

  before_answer :
      (t : MessageType) (msg : ChaincodeMessage) (h : Handler E)
      → IsAnswer t
      → before_event E t msg h ≡ (false, h)
  unfolding before_event
  before_answer _ msg h is_error = refl
  before_answer _ msg h is_response = refl

  after_answer :
      (t : MessageType) (msg : ChaincodeMessage) (h : Handler E)
      → IsAnswer t
      → after_event E t msg h ≡ (false, h)
  unfolding after_event
  after_answer _ msg h is_error = refl
  after_answer _ msg h is_response = refl

  not_init : (t : MessageType) → IsAnswer t → same_type t init ≡ false
  unfolding same_type
  not_init _ is_error = refl
  not_init _ is_response = refl

  leave_busy :
      {s d : FsmState} (msg : ChaincodeMessage) (h : Handler E)
      → LeadsTo s d
      → IsAnswer msg.type
      → enter_state E s msg h ≡ (false, h)
  unfolding enter_state enter_init_state
  leave_busy msg h from_init answer = simp (not_init msg.type answer)
  leave_busy msg h from_transaction answer = refl

  back_state : {s d : FsmState} → LeadsTo s d → same_state d s ≡ false
  unfolding same_state
  back_state from_init = refl
  back_state from_transaction = refl

  -- An answer leads back from a busy state.
  pub handle_answer :
      {s d : FsmState} (F : Fsm (Handler E)) (msg : ChaincodeMessage) (h : Handler E)
      → IsDocumented F (machine E)
      → IsAnswer msg.type
      → LeadsTo s d
      → h.fsm_current ≡ d
      → handle_message E F msg h ≡ (false, record h { fsm_current = s })
  unfolding handle_event filter_error machine target
  handle_answer {s = s} {d = d} F msg h doc answer way busy =
      let t = msg.type in
      let leads : target (machine E) t h ≡ some s =
        ap (λ x. destination events t x) busy ∙ answer_destination t s d answer way in
      let other : same_state h.fsm_current s ≡ false =
        ap (λ x. same_state x s) busy ∙ back_state way in
      let moved =
        event-moves F (machine E) t msg h h _ _ s doc leads other (before_answer t msg h answer)
          (leave_busy msg _ way answer) (after_answer t msg _ answer) in
      handle_ordinary F msg h (answer_ordinary t answer)
      ∙ rw (doc.cannot_allowed t h s leads, moved) refl
