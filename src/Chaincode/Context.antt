-- ===== src/Chaincode/Context.antt =====
-- What a chaincode can do while it answers a query.
use client_sdk.Prelude.{
  ◌≡◌, refl, sym, subst, Bool, true, false, not, ◌&&◌, [], ◌∷◌, ◌++◌, inl, inr, Bool-cases,
  if◌then◌else◌,
}
use client_sdk.Chaincode.{ChaincodeMessage, in_query_context, HandlerEnv}
use client_sdk.Chaincode.Fsm.{Fsm, IsDocumented}
use client_sdk.Chaincode.Handler.{
  Handler, job_busy, get_is_transaction, serial_send, error_message, trigger_next_state,
}
use client_sdk.Chaincode.Jobs.{enter_busy_state}
use client_sdk.Chaincode.Stream.{machine, handle_message, start_job, needs_transaction, refuse}
use client_sdk.Chaincode.Busy.{IsRequest, handle_request}

module _ (E : HandlerEnv) where
  -- The two ways in which a request ends that is not of a transaction: an error at once, or a
  -- goroutine that does nothing but send an error.
  pub data IsRejected (msg : ChaincodeMessage) (h : Handler E) : Bool × Handler E → Type 0 where
    at_once :
        (h' : Handler E) → h'.outside ≡ h.outside → h'.jobs ≡ h.jobs → IsRejected msg h (true, h')
    by_goroutine :
        (h' : Handler E)
        → h'.outside ≡ h.outside
        → h'.jobs ≡ h.jobs ++ job_busy msg ∷ []
        → enter_busy_state E msg h'
          ≡ trigger_next_state E (error_message E in_query_context msg.uuid) true h'
        → IsRejected msg h (false, h')

  serial_send-kept :
      (m : ChaincodeMessage) (h : Handler E)
      → ((serial_send E m h).1.outside ≡ h.outside) × ((serial_send E m h).1.jobs ≡ h.jobs)
  unfolding serial_send
  serial_send-kept m h = elim (Bool-cases (E.send h.sent m)) [
    | inl ok ↦ (rw (serial_send, ok) refl, rw (serial_send, ok) refl)
    | inr lost ↦ (rw (serial_send, lost) refl, rw (serial_send, lost) refl)
  ]

  refuse-kept :
      (msg : ChaincodeMessage) (h : Handler E)
      → ((refuse E msg h).outside ≡ h.outside) × ((refuse E msg h).jobs ≡ h.jobs)
  unfolding refuse
  refuse-kept msg h =
      go (serial_send E (error_message E in_query_context msg.uuid) h).1
        (needs_transaction E msg.type && not (get_is_transaction E msg.uuid h))
        (serial_send-kept (error_message E in_query_context msg.uuid) h)
    where
      go :
          (x : Handler E) (b : Bool)
          → (x.outside ≡ h.outside) × (x.jobs ≡ h.jobs)
          → ((if b then x else h).outside ≡ h.outside) × ((if b then x else h).jobs ≡ h.jobs)
      go x true kept = kept
      go x false kept = (refl, refl)

  -- A request to change the ledger or to call another chaincode, for an id that is not of a
  -- transaction, changes nothing outside the handler, whatever the state is: either HandleMessage
  -- returns an error and starts no goroutine, or the goroutine that it starts only makes an error
  -- message the next one, if the library for the machine behaves as documented.
  pub handle_message-IsRejected :
      (F : Fsm (Handler E)) (msg : ChaincodeMessage) (h : Handler E)
      → IsDocumented F (machine E)
      → IsRequest msg.type
      → get_is_transaction E msg.uuid h ≡ false
      → IsRejected msg h (handle_message E F msg h)
  unfolding enter_busy_state start_job get_is_transaction
  handle_message-IsRejected F msg h doc request asks = elim (handle_request E F msg h doc request) [
    | inl refused ↦
        let kept = refuse-kept msg h in
        subst (IsRejected msg h) (sym refused) (at_once _ kept.0 kept.1)
    | inr (d, way, taken) ↦
        subst (IsRejected msg h) (sym taken) (by_goroutine _ refl refl (simp asks))
  ]
