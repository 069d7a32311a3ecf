-- ===== src/Chaincode/Fsm.antt =====
-- The handler's table of events, and what it relies on of the library that runs it.
use client_sdk.Prelude.{
  ℕ, ◌==◌, nat_eq, ◌≡◌, refl, ap, ◌∙◌, Bool, true, false, ◌&&◌, ◌||◌, Option, none, some, List, [],
  ◌∷◌, if◌then◌else◌,
}
use client_sdk.Chaincode.{
  MessageType, undefined, register, registered, init, ready, transaction, completed, error,
  get_state, put_state, del_state, invoke_chaincode, invoke_query, response, query, query_completed,
  query_error, range_query_state, range_query_state_next, range_query_state_close, FsmState,
  createdstate, establishedstate, initstate, readystate, transactionstate, busyinitstate,
  busyxactstate, endstate, ChaincodeMessage,
}

-- A row of `fsm.Events`.
pub record EventDesc : Type 0 where
  pub name : MessageType
  pub src : List FsmState
  pub dst : FsmState

abbrev row : MessageType → List FsmState → FsmState → EventDesc
row name src dst = record { name = name; src = src; dst = dst }

-- A request to read leaves the state as it is, in the five states that allow it.
abbrev stays : MessageType → List EventDesc → List EventDesc
stays name rest =
    row name (readystate ∷ []) readystate
    ∷ row name (initstate ∷ []) initstate
    ∷ row name (busyinitstate ∷ []) busyinitstate
    ∷ row name (transactionstate ∷ []) transactionstate
    ∷ row name (busyxactstate ∷ []) busyxactstate
    ∷ rest

unfoldable pub events : List EventDesc
events =
    row register (createdstate ∷ []) establishedstate
    ∷ row init (establishedstate ∷ []) initstate
    ∷ row ready (establishedstate ∷ []) readystate
    ∷ row transaction (readystate ∷ []) transactionstate
    ∷ row put_state (transactionstate ∷ []) busyxactstate
    ∷ row del_state (transactionstate ∷ []) busyxactstate
    ∷ row invoke_chaincode (transactionstate ∷ []) busyxactstate
    ∷ row put_state (initstate ∷ []) busyinitstate
    ∷ row del_state (initstate ∷ []) busyinitstate
    ∷ row invoke_chaincode (initstate ∷ []) busyinitstate
    ∷ row completed (initstate ∷ readystate ∷ transactionstate ∷ []) readystate
    ∷ stays get_state (
        stays range_query_state (
          stays range_query_state_next (
            stays range_query_state_close (
              row error (initstate ∷ []) endstate
              ∷ row error (transactionstate ∷ []) readystate
              ∷ row error (busyinitstate ∷ []) initstate
              ∷ row error (busyxactstate ∷ []) transactionstate
              ∷ row response (busyinitstate ∷ []) initstate
              ∷ row response (busyxactstate ∷ []) transactionstate
              ∷ []))))

abbrev type_code : MessageType → ℕ
type_code undefined = 0
type_code register = 1
type_code registered = 2
type_code init = 3
type_code ready = 4
type_code transaction = 5
type_code completed = 6
type_code error = 7
type_code get_state = 8
type_code put_state = 9
type_code del_state = 10
type_code invoke_chaincode = 11
type_code invoke_query = 12
type_code response = 13
type_code query = 14
type_code query_completed = 15
type_code query_error = 16
type_code range_query_state = 17
type_code range_query_state_next = 18
type_code range_query_state_close = 19

abbrev state_code : FsmState → ℕ
state_code createdstate = 0
state_code establishedstate = 1
state_code initstate = 2
state_code readystate = 3
state_code transactionstate = 4
state_code busyinitstate = 5
state_code busyxactstate = 6
state_code endstate = 7

-- The names of two events, and of two states, are compared as strings; each has a name of its own.
unfoldable pub same_type : MessageType → MessageType → Bool
same_type a b = type_code a == type_code b

unfoldable pub same_state : FsmState → FsmState → Bool
same_state a b = state_code a == state_code b

unfoldable pub any_state : FsmState → List FsmState → Bool
any_state s [] = false
any_state s (t ∷ rest) = if same_state s t then true else any_state s rest

-- Where the table leads from a state on an event.
unfoldable pub destination : List EventDesc → MessageType → FsmState → Option FsmState
destination [] name s = none
destination (e ∷ rest) name s =
    let later = destination rest name s in
    if same_type e.name name && any_state s e.src then some e.dst else later

-- What `Event` returns: nil, an error of one of the two kinds that `filterError` tests, with an
-- embedded error or without one, or another error.
pub data EventError : Type 0 where
  nil other_error : EventError
  no_transition_error canceled_error : Bool → EventError

-- A table with the callbacks on a state of type `H`; a callback says whether it canceled the event.
pub record Machine (H : Type 0) : Type 0 where
  pub table : List EventDesc
  pub current : H → FsmState
  pub set_current : FsmState → H → H
  pub before : MessageType → ChaincodeMessage → H → Bool × H
  pub enter : FsmState → ChaincodeMessage → H → Bool × H
  pub after : MessageType → ChaincodeMessage → H → Bool × H

-- The two methods of the library that the handler calls.
pub record Fsm (H : Type 0) : Type 0 where
  pub cannot : Machine H → MessageType → H → Bool
  pub event : Machine H → MessageType → ChaincodeMessage → H → EventError × H

module _ {H : Type 0} where
  unfoldable pub target : Machine H → MessageType → H → Option FsmState
  target m t h = destination m.table t (m.current h)

  -- The documented behaviour of the library for a machine without leave callbacks: an event that
  -- the table does not allow is refused; `before` can cancel; then the state changes, unless it
  -- stays, with `enter` and `after`.
  pub record IsDocumented (F : Fsm H) (m : Machine H) : Type 0 where
    pub cannot_refused : (t : MessageType) (h : H) → target m t h ≡ none → F.cannot m t h ≡ true
    pub cannot_allowed :
        (t : MessageType) (h : H) (d : FsmState) → target m t h ≡ some d → F.cannot m t h ≡ false
    pub event_canceled :
        (t : MessageType) (msg : ChaincodeMessage) (h : H) (d : FsmState)
        → target m t h ≡ some d
        → (m.before t msg h).0 ≡ true
        → F.event m t msg h ≡ (canceled_error true, (m.before t msg h).1)
    pub event_stays :
        (t : MessageType) (msg : ChaincodeMessage) (h : H) (d : FsmState)
        → target m t h ≡ some d
        → (m.before t msg h).0 ≡ false
        → same_state (m.current h) d ≡ true
        → let after = m.after t msg (m.before t msg h).1 in
          F.event m t msg h ≡ (no_transition_error after.0, after.1)
    pub event_moves :
        (t : MessageType) (msg : ChaincodeMessage) (h : H) (d : FsmState)
        → target m t h ≡ some d
        → (m.before t msg h).0 ≡ false
        → same_state (m.current h) d ≡ false
        → let entered = m.enter d msg (m.set_current d (m.before t msg h).1) in
          let after = m.after t msg entered.1 in
          F.event m t msg h ≡ (if entered.0 || after.0 then other_error else nil, after.1)

  -- An event that leads to another state, by what its three callbacks do.
  pub event-moves :
      (F : Fsm H) (m : Machine H) (t : MessageType) (msg : ChaincodeMessage) (h h1 h2 h3 : H)
      (d : FsmState)
      → IsDocumented F m
      → target m t h ≡ some d
      → same_state (m.current h) d ≡ false
      → m.before t msg h ≡ (false, h1)
      → m.enter d msg (m.set_current d h1) ≡ (false, h2)
      → m.after t msg h2 ≡ (false, h3)
      → F.event m t msg h ≡ (nil, h3)
  event-moves F m t msg h h1 h2 h3 d doc leads other before enter after =
      let moved = doc.event_moves t msg h d leads (ap (λ r. r.0) before) other in
      moved ∙ rw before (rw enter (rw after refl))
