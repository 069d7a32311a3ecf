-- ===== src/Chaincode/Tests.antt =====
-- A machine library that behaves as documented, and a small ledger that counts its changes.
use client_sdk.Prelude.{
  ℕ, zero, suc, ◌≡◌, refl, ap, ◌∙◌, string_eq, Bool, true, false, ◌||◌, Option, none, some, List,
  [], ◌∷◌, ◌⊎◌, if◌then◌else◌, lookup, insert, delete,
}
use client_sdk.Chaincode.{
  range_query_state, range_query_state_next, put_state, invoke_chaincode, chaincode_invoke,
  readystate, transactionstate, ChaincodeMessage, executed, HandlerEnv, MessageType,
}
use client_sdk.Chaincode.Fsm
use client_sdk.Chaincode.Fsm.{
  EventError, nil, other_error, no_transition_error, canceled_error, Machine, Fsm, IsDocumented,
  target, same_state,
}
use client_sdk.Chaincode.Handler
use client_sdk.Chaincode.Handler.{Handler}
use client_sdk.Chaincode.Security
use client_sdk.Chaincode.Jobs
use client_sdk.Chaincode.Stream
use client_sdk.Chaincode.Stream.{machine, handle_message, pass_next}
use client_sdk.Chaincode.Busy.{is_put}
use client_sdk.Chaincode.Context
use client_sdk.Chaincode.Context.{IsRejected}
use client_sdk.Chaincode.Ranges.{KeyValue, range_work}
use client_sdk.Chaincode.Iterators
use client_sdk.Chaincode.Pages
use client_sdk.Chaincode.Pages.{AllPages, pages_from}
use client_sdk.Chaincode.Reply
use client_sdk.Chaincode.Answers.{Panics}
use client_sdk.Chaincode.Reply.{IsAnswered}

module _ {H : Type 0} where
  unfoldable run_event : Machine H → MessageType → ChaincodeMessage → H → EventError × H
  run_event m t msg h = elim (target m t h) [
    | none ↦ (other_error, h)
    | some d ↦
        let b = m.before t msg h in
        let stay = m.after t msg b.1 in
        let entered = m.enter d msg (m.set_current d b.1) in
        let go = m.after t msg entered.1 in
        if b.0
        then (canceled_error true, b.1)
        else if same_state (m.current h) d
        then (no_transition_error stay.0, stay.1)
        else (if entered.0 || go.0 then other_error else nil, go.1)
  ]

  unfoldable is_refused : Machine H → MessageType → H → Bool
  is_refused m t h = elim (target m t h) [ none ↦ true | some _ ↦ false ]

  abbrev library : Fsm H
  library = record { cannot = is_refused; event = run_event }

  library-IsDocumented : (m : Machine H) → IsDocumented library m
  unfolding run_event is_refused
  library-IsDocumented m = record {
    cannot_refused = λ t h refused. rw (is_refused, refused) refl;
    cannot_allowed = λ t h d leads. rw (is_refused, leads) refl;
    event_canceled = λ t msg h d leads canceled. rw (run_event, leads, canceled) refl;
    event_stays = λ t msg h d leads goes same. rw (run_event, leads, goes, same) refl;
    event_moves = λ t msg h d leads goes other. rw (run_event, leads, goes, other) refl;
  }

-- Pages as lists of numbers: a number stands for its successor, and zero ends a key or a value.
abbrev write_bytes : List ℕ → List ℕ → List ℕ
write_bytes [] rest = zero ∷ rest
write_bytes (n ∷ l) rest = suc n ∷ write_bytes l rest

abbrev write_kvs : List KeyValue → List ℕ
write_kvs [] = []
write_kvs ((k, v) ∷ rest) = write_bytes k (write_bytes v (write_kvs rest))

abbrev write_page : List KeyValue → Bool → List ℕ
write_page kvs true = 1 ∷ write_kvs kvs
write_page kvs false = 0 ∷ write_kvs kvs

abbrev push : ℕ → List (List ℕ) → List (List ℕ)
push n [] = (n ∷ []) ∷ []
push n (l ∷ ls) = (n ∷ l) ∷ ls

abbrev split : List ℕ → List (List ℕ)
split [] = []
split (zero ∷ rest) = [] ∷ split rest
split (suc n ∷ rest) = push n (split rest)

abbrev pairs : List (List ℕ) → List KeyValue
pairs (k ∷ v ∷ rest) = (k, v) ∷ pairs rest
pairs _ = []

abbrev read_page : List ℕ → Option (List KeyValue × Bool)
read_page [] = none
read_page (zero ∷ rest) = some (pairs (split rest), false)
read_page (suc _ ∷ rest) = some (pairs (split rest), true)

split-write_bytes : (l rest : List ℕ) → split (write_bytes l rest) ≡ l ∷ split rest
split-write_bytes [] rest = refl
split-write_bytes (n ∷ l) rest = ap (push n) (split-write_bytes l rest)

pairs-write_kvs : (kvs : List KeyValue) → pairs (split (write_kvs kvs)) ≡ kvs
pairs-write_kvs [] = refl
pairs-write_kvs ((k, v) ∷ rest) =
    ap pairs (split-write_bytes k (write_bytes v (write_kvs rest)))
    ∙ ap (λ ls. pairs (k ∷ ls)) (split-write_bytes v (write_kvs rest))
    ∙ ap (λ kvs. (k, v) ∷ kvs) (pairs-write_kvs rest)

read_page-write_page :
    (kvs : List KeyValue) (more : Bool) → read_page (write_page kvs more) ≡ some (kvs, more)
read_page-write_page kvs true = ap (λ l. some (l, true)) (pairs-write_kvs kvs)
read_page-write_page kvs false = ap (λ l. some (l, false)) (pairs-write_kvs kvs)

abbrev counter : HandlerEnv
counter = record {
  Tx = Unit {0};
  Spec = Unit {0};
  Enc = Unit {0};
  St = ℕ;
  tx_kind = λ tx. chaincode_invoke;
  is_public = λ tx. true;
  has_sec_helper = false;
  get_state_encryptor = λ deploy tx. none;
  encrypt = λ enc p. some p;
  decrypt = λ enc p. some p;
  get_ledger = λ st. true;
  ledger_get_state = λ name key committed st. some [];
  ledger_set_state = λ name key value st. (true, suc st);
  ledger_delete_state = λ name key st. (true, suc st);
  launch_chaincode = λ spec uuid st. (true, st);
  chaincode_id_name = λ spec. some "other";
  execute = λ name spec uuid t st. (executed [], st);
  register_handler = λ name st. (some false, st);
  deregister_handler = λ name st. st;
  unmarshal_chaincode_id = λ p. some "cc";
  unmarshal_put_state_info = λ p. some (p, p);
  unmarshal_chaincode_spec = λ p. some tt;
  unmarshal_range_query_state = λ p. some (p, p);
  unmarshal_range_query_id = λ p. some "i";
  marshal_range_response = λ kvs more id. some (write_page kvs more);
  unmarshal_range_response = λ p. read_page p;
  range_scan = λ name start end committed st. some ((1 ∷ [], 2 ∷ []) ∷ []);
  generate_uuid = λ st. ("i", st);
  send = λ l m. true;
  error_text = λ f. [];
}

unfoldable program : Unit {0}
unfolding lookup insert delete Fsm.events Fsm.same_type Fsm.same_state Fsm.any_state Fsm.destination
    Fsm.target run_event is_refused Handler.serial_send Handler.reads_true Handler.create_uuid_entry
    Handler.delete_uuid_entry Handler.get_is_transaction Handler.trigger_next_state
    Handler.error_message Handler.response_message Security.encrypt Security.encrypt_or_decrypt
    Jobs.changed Jobs.put_work Jobs.busy_work Jobs.end_busy Jobs.enter_busy_state Stream.start_job
    Stream.before_event Stream.after_event Stream.enter_state Stream.machine Stream.filter_error
    Stream.needs_transaction Stream.refuse Stream.handle_event Stream.handle_message
    Stream.pass_next
program = tt

abbrev put : ChaincodeMessage
put = record { type = put_state; payload = 1 ∷ []; uuid = "a" }

abbrev at_work : Handler counter
at_work = record {
  fsm_current = transactionstate;
  chaincode_id = some "cc";
  deploy_tx_sec_context = none;
  registered = true;
  ready_notify = none;
  tx_ctxs = some [];
  uuid_map = some [];
  is_transaction = some (("a", true) ∷ []);
  next_state = [];
  sent = [];
  jobs = [];
  outside = 0;
  ended = false;
  crashed = false;
}

-- The same request for another id, while the machine is ready for a query.
abbrev asked : Handler counter
asked = record at_work { fsm_current = readystate; is_transaction = some (("a", false) ∷ []) }

handle_message-IsRejected_example :
    IsRejected counter put asked (handle_message counter library put asked)
unfolding program
handle_message-IsRejected_example =
    Context.handle_message-IsRejected counter library put asked
      (library-IsDocumented (machine counter)) is_put refl

request-IsAnswered_example :
    IsAnswered counter put at_work (
      pass_next counter library
        (Jobs.enter_busy_state counter put (handle_message counter library put at_work).1))
    ⊎ (Panics counter put 0
        × ((Jobs.enter_busy_state counter put
              (handle_message counter library put at_work).1).crashed
            ≡ true))
unfolding program Reply.Sends
request-IsAnswered_example =
    Reply.request-IsAnswered counter library "cc" put at_work
      (library-IsDocumented (machine counter)) (λ l m. refl) is_put refl refl refl
      (record { entries = []; made = refl; free = refl }) refl

-- A call of another chaincode whose specification has no id ends the peer.
abbrev nameless : HandlerEnv
nameless = record counter { chaincode_id_name = λ spec. none }

abbrev called : Handler nameless
called = record {
  fsm_current = transactionstate;
  chaincode_id = some "cc";
  deploy_tx_sec_context = none;
  registered = true;
  ready_notify = none;
  tx_ctxs = some [];
  uuid_map = some [];
  is_transaction = some (("a", true) ∷ []);
  next_state = [];
  sent = [];
  jobs = [];
  outside = 0;
  ended = false;
  crashed = false;
}

call_without_id :
    (Jobs.enter_busy_state nameless (record put { type = invoke_chaincode }) called).crashed ≡ true
unfolding program Jobs.invoke_work Jobs.crash
call_without_id = refl

-- A query of all keys in an open context, and its pages.
abbrev ranging : Handler counter
ranging = record at_work {
  tx_ctxs = some (
      ("a", record { transaction_sec_context = none; response_notifier = []; iterators = [] })
      ∷ []);
}

abbrev range : ChaincodeMessage
range = record { type = range_query_state; payload = []; uuid = "a" }

range_work-AllPages_example : AllPages counter ((1 ∷ [], 2 ∷ []) ∷ []) (
    pages_from counter 2
      (record range { type = range_query_state_next; payload = [] })
      (range_work counter range ranging))
unfolding program Handler.get_tx_context Iterators.plain_values Security.decrypt
range_work-AllPages_example =
    Pages.range_work-AllPages counter range [] "cc" ([], []) none none ranging
      ((1 ∷ [], 2 ∷ []) ∷ []) ((1 ∷ [], 2 ∷ []) ∷ [])
      (record {
        bytes = λ kvs more id. write_page kvs more;
        writes = λ kvs more id. refl;
        reads = λ kvs more id. read_page-write_page kvs more;
      })
      refl refl refl refl refl (record { ctx = _; held = refl; of_tx = refl; deployed = refl }) refl
