-- ===== src/Chaincode/Answers.antt =====
-- What the goroutine of a busy state makes of a request.
use client_sdk.Prelude.{
  ℕ, ◌≡◌, refl, String, string_eq, Bool, true, false, not, Option, none, some, List, [], ◌⊎◌, inl,
  inr, Bool-cases, Option-cases, if◌then◌else◌,
}
use client_sdk.Chaincode.{
  transaction, put_state, del_state, invoke_chaincode, ChaincodeMessage, executed, failed,
  no_response, Executed, Fault, HandlerEnv,
}
use client_sdk.Chaincode.Fsm.{same_type}
use client_sdk.Chaincode.Handler.{Handler, error_message, response_message}
use client_sdk.Chaincode.Security.{encrypt}
use client_sdk.Chaincode.Jobs.{changed, put_work, invoke_work, busy_work}
use client_sdk.Chaincode.Busy.{IsAnswer, is_error, is_response}

module _ (E : HandlerEnv) where
  -- A call of another chaincode that ends the peer: its specification has no id, or the execution
  -- has no response, not even one with an error.
  pub data Panics (msg : ChaincodeMessage) (st : E.St) : Type 0 where
    no_id :
        (spec : E.Spec)
        → same_type msg.type invoke_chaincode ≡ true
        → E.unmarshal_chaincode_spec msg.payload ≡ some spec
        → E.chaincode_id_name spec ≡ none
        → Panics msg st
    no_reply :
        (spec : E.Spec) (name : String)
        → same_type msg.type invoke_chaincode ≡ true
        → E.unmarshal_chaincode_spec msg.payload ≡ some spec
        → E.chaincode_id_name spec ≡ some name
        → (E.launch_chaincode spec msg.uuid st).0 ≡ true
        → (E.execute name spec msg.uuid transaction (E.launch_chaincode spec msg.uuid st).1).0
          ≡ no_response
        → Panics msg st

  -- The result of the work on a request: an answer for its id, and the handler with another state
  -- outside it.
  pub record Answers (msg : ChaincodeMessage) (g : Handler E)
      (r : Option ChaincodeMessage × Handler E) : Type 0 where
    pub reply : ChaincodeMessage
    pub outside : E.St
    pub result : r ≡ (some reply, record g { outside = outside })
    pub kind : IsAnswer reply.type
    pub same : reply.uuid ≡ msg.uuid

  -- The work on a request has an answer, or is a call that ends the peer.
  abbrev pub Worked : ChaincodeMessage → Handler E → Option ChaincodeMessage × Handler E → Type 0
  Worked msg g r = Answers msg g r ⊎ (Panics msg g.outside × (r.0 ≡ none))

  error-Answers :
      (f : Fault) (msg : ChaincodeMessage) (g : Handler E) (st : E.St)
      → Answers msg g (some (error_message E f msg.uuid), record g { outside = st })
  unfolding error_message
  error-Answers f msg g st = record {
    reply = _;
    outside = st;
    result = refl;
    kind = is_error;
    same = refl;
  }

  response-Answers :
      (p : List ℕ) (msg : ChaincodeMessage) (g : Handler E) (st : E.St)
      → Answers msg g (some (response_message E p msg.uuid), record g { outside = st })
  unfolding response_message
  response-Answers p msg g st = record {
    reply = _;
    outside = st;
    result = refl;
    kind = is_response;
    same = refl;
  }

  changed-Answers :
      (msg : ChaincodeMessage) (g : Handler E) (r : Bool × E.St)
      → Answers msg g (changed E msg.uuid r g)
  unfolding changed
  changed-Answers msg g (true, st) = response-Answers [] msg g st
  changed-Answers msg g (false, st) = error-Answers _ msg g st

  put_work-Answers :
      (name : String) (msg : ChaincodeMessage) (g : Handler E)
      → Answers msg g (put_work E name msg g)
  unfolding put_work
  put_work-Answers name msg g = elim (Option-cases (E.unmarshal_put_state_info msg.payload)) [
    | inl bad ↦ rw (put_work, bad) (error-Answers _ msg g g.outside)
    | inr (info, good) ↦ elim (Option-cases (encrypt E msg.uuid info.1 g)) [
      | inl lost ↦ rw (put_work, good, lost) (error-Answers _ msg g g.outside)
      | inr (p_val, closed) ↦ rw (put_work, good, closed) (changed-Answers msg g _)
    ]
  ]

  Executed-cases :
      (r : Executed)
      → ((p : List ℕ) × (r ≡ executed p)) ⊎ (((p : List ℕ) × (r ≡ failed p)) ⊎ (r ≡ no_response))
  Executed-cases (executed p) = inl (p, refl)
  Executed-cases (failed p) = inr (inl (p, refl))
  Executed-cases no_response = inr (inr refl)

  invoke_work-Worked :
      (msg : ChaincodeMessage) (g : Handler E)
      → same_type msg.type invoke_chaincode ≡ true
      → Worked msg g (invoke_work E msg g)
  unfolding invoke_work
  invoke_work-Worked msg g calls = elim (Option-cases (E.unmarshal_chaincode_spec msg.payload)) [
    | inl bad ↦ inl (rw (invoke_work, bad) (error-Answers _ msg g g.outside))
    | inr (spec, good) ↦ elim (Option-cases (E.chaincode_id_name spec)) [
      | inl missing ↦ inr (no_id spec calls good missing, rw (invoke_work, good, missing) refl)
      | inr (name, named) ↦
          let launched = E.launch_chaincode spec msg.uuid g.outside in
          let ran = E.execute name spec msg.uuid transaction launched.1 in
          elim (Bool-cases launched.0) [
            | inr down ↦
                inl (rw (invoke_work, good, named, down) (error-Answers _ msg g launched.1))
            | inl up ↦ elim (Executed-cases ran.0) [
              | inl (p, done) ↦
                  inl (rw (invoke_work, good, named, up, done) (response-Answers p msg g ran.1))
              | inr (inl (p, lost)) ↦
                  inl (rw (invoke_work, good, named, up, lost) (error-Answers _ msg g ran.1))
              | inr (inr nothing) ↦ inr (
                no_reply spec name calls good named up nothing,
                rw (invoke_work, good, named, up, nothing) refl,
              )
            ]
          ]
    ]
  ]

  by_kind :
      (msg : ChaincodeMessage) (g : Handler E) (puts deletes calls : Bool)
      (x y z w : Option ChaincodeMessage × Handler E)
      → Worked msg g x
      → Worked msg g y
      → (calls ≡ true → Worked msg g z)
      → Worked msg g w
      → Worked msg g (if puts then x else if deletes then y else if calls then z else w)
  by_kind msg g true deletes calls x y z w a b c d = a
  by_kind msg g false true calls x y z w a b c d = b
  by_kind msg g false false true x y z w a b c d = c refl
  by_kind msg g false false false x y z w a b c d = d

  by_ledger :
      (msg : ChaincodeMessage) (g : Handler E) (missing : Bool)
      (x y : Option ChaincodeMessage × Handler E)
      → Worked msg g x
      → Worked msg g y
      → Worked msg g (if missing then x else y)
  by_ledger msg g true x y a b = a
  by_ledger msg g false x y a b = b

  pub busy_work-Worked :
      (name : String) (msg : ChaincodeMessage) (g : Handler E)
      → g.chaincode_id ≡ some name
      → Worked msg g (busy_work E msg g)
  unfolding busy_work
  busy_work-Worked name msg g named =
      by_ledger msg g (not (E.get_ledger g.outside)) _ _ (inl (error-Answers _ msg g g.outside))
        (go g.chaincode_id named)
    where
      go :
          (o : Option String)
          → o ≡ some name
          → Worked msg g (elim o [
            | none ↦ (none, g)
            | some n ↦
                if same_type msg.type put_state
                then put_work E n msg g
                else if same_type msg.type del_state
                then changed E msg.uuid (E.ledger_delete_state n msg.payload g.outside) g
                else if same_type msg.type invoke_chaincode
                then invoke_work E msg g
                else (some (response_message E [] msg.uuid), g)
          ])
      go none e = cc
      go (some n) e =
          by_kind msg g (same_type msg.type put_state) (same_type msg.type del_state)
            (same_type msg.type invoke_chaincode) (put_work E n msg g)
            (changed E msg.uuid (E.ledger_delete_state n msg.payload g.outside) g)
            (invoke_work E msg g) (some (response_message E [] msg.uuid), g)
            (inl (put_work-Answers n msg g))
            (inl (changed-Answers msg g (E.ledger_delete_state n msg.payload g.outside)))
            (λ calls. invoke_work-Worked msg g calls) (inl (response-Answers [] msg g g.outside))
