-- ===== src/Chaincode/Reply.antt =====
-- The way of a request of a transaction through its busy state, up to the reply to the chaincode.
use client_sdk.Prelude.{
  ◌≡◌, refl, sym, ap, ◌∙◌, subst, String, string_eq, ◌==◌, Bool, true, false, none, some, List, [],
  ◌∷◌, ◌++◌, Map, lookup, insert, delete, lookup-delete, ◌⊎◌, inl, inr, Option,
}
use client_sdk.Chaincode.{FsmState, ChaincodeMessage, HandlerEnv}
use client_sdk.Chaincode.Fsm.{Fsm, IsDocumented}
use client_sdk.Chaincode.Handler.{
  Handler, reads_true, create_uuid_entry, delete_uuid_entry, get_is_transaction, trigger_next_state,
  serial_send, job_busy,
}
use client_sdk.Chaincode.Jobs.{crash, busy_work, end_busy, enter_busy_state}
use client_sdk.Chaincode.Stream.{machine, handle_message, start_job, pass_next}
use client_sdk.Chaincode.Busy.{IsRequest, IsAnswer, LeadsTo, handle_request, handle_answer}
use client_sdk.Chaincode.Answers.{Panics, busy_work-Worked}

module _ (E : HandlerEnv) where
  -- The stream takes every message.
  unfoldable pub Sends : Type 0
  Sends = (l : List ChaincodeMessage) (m : ChaincodeMessage) → E.send l m ≡ true

  -- No other request of the id is worked on.
  pub record IsFree (uuid : String) (h : Handler E) : Type 0 where
    pub entries : Map String Bool
    pub made : h.uuid_map ≡ some entries
    pub free : reads_true E uuid entries ≡ false

  -- The request was answered: the machine is back in its state, the latest message that was sent is
  -- an error or a response for the id, and the id is free.
  pub record IsAnswered (msg : ChaincodeMessage) (h y : Handler E) : Type 0 where
    pub reply : ChaincodeMessage
    pub kind : IsAnswer reply.type
    pub same : reply.uuid ≡ msg.uuid
    pub sent : y.sent ≡ reply ∷ h.sent
    pub state : y.fsm_current ≡ h.fsm_current
    pub waits : y.next_state ≡ []
    pub ended : y.ended ≡ h.ended
    pub free : IsFree msg.uuid y

  -- After the goroutine: the reply is the next message, and the id is free.
  record IsTriggered (msg : ChaincodeMessage) (h y : Handler E) : Type 0 where
    reply : ChaincodeMessage
    kind : IsAnswer reply.type
    same : reply.uuid ≡ msg.uuid
    waits : y.next_state ≡ record { msg = reply; send_to_cc = true } ∷ []
    sent : y.sent ≡ h.sent
    state : y.fsm_current ≡ h.fsm_current
    ended : y.ended ≡ h.ended
    free : IsFree msg.uuid y

  deleted : (uuid : String) (m : Map String Bool) → reads_true E uuid (delete uuid m) ≡ false
  unfolding reads_true
  deleted uuid m =
      let itself : (uuid == uuid) ≡ true = (string_eq.same_iff uuid uuid).1 refl in
      let gone : lookup uuid (delete uuid m) ≡ none = lookup-delete uuid uuid m ∙ simp itself in
      rw (reads_true, gone) refl

  end_busy-none :
      (uuid : String) (r : Option ChaincodeMessage × Handler E)
      → r.0 ≡ none
      → (end_busy E uuid r).crashed ≡ true
  unfolding end_busy crash
  end_busy-none uuid (none, h) e = refl
  end_busy-none uuid (some reply, h) e = absurd (cc e)

  -- The goroutine of a request of a transaction makes the answer the next message, or ends the
  -- peer.
  enter_busy_state-IsTriggered :
      (name : String) (msg : ChaincodeMessage) (h : Handler E)
      → h.chaincode_id ≡ some name
      → get_is_transaction E msg.uuid h ≡ true
      → IsFree msg.uuid h
      → h.next_state ≡ []
      → IsTriggered msg h (enter_busy_state E msg h)
        ⊎ (Panics E msg h.outside × ((enter_busy_state E msg h).crashed ≡ true))
  unfolding enter_busy_state create_uuid_entry end_busy trigger_next_state delete_uuid_entry
  enter_busy_state-IsTriggered name msg h named marked f waits =
      let g : Handler E = record h { uuid_map = some (insert msg.uuid true f.entries) } in
      let created : create_uuid_entry E msg.uuid h ≡ (true, g) =
        simp (create_uuid_entry, f.made, f.free) in
      let worked : enter_busy_state E msg h ≡ end_busy E msg.uuid (busy_work E msg g) =
        simp (enter_busy_state, marked, created) in
      elim (busy_work-Worked E name msg g named) [
        | inr (panics, nothing) ↦
            inr
              (panics, ap (λ (y : Handler E). y.crashed) worked ∙ end_busy-none msg.uuid _ nothing)
        | inl a ↦
            let ended : enter_busy_state E msg h
                ≡ trigger_next_state E a.reply true
                    (delete_uuid_entry E msg.uuid (record g { outside = a.outside })) =
              worked ∙ ap (end_busy E msg.uuid) a.result in
            inl (
              subst (IsTriggered msg h) (sym ended) (record {
                reply = a.reply;
                kind = a.kind;
                same = a.same;
                waits = ap (λ l. l ++ record { msg = a.reply; send_to_cc = true } ∷ []) waits;
                sent = refl;
                state = refl;
                ended = refl;
                free = record {
                  entries = _;
                  made = refl;
                  free = deleted msg.uuid (insert msg.uuid true f.entries);
                };
              }))
      ]

  pass_next-IsAnswered :
      (F : Fsm (Handler E)) (msg : ChaincodeMessage) (s d : FsmState) (h y : Handler E)
      → IsDocumented F (machine E)
      → Sends
      → LeadsTo s d
      → h.fsm_current ≡ d
      → IsTriggered msg h y
      → IsAnswered msg (record h { fsm_current = s }) (pass_next E F y)
  unfolding pass_next Sends serial_send
  pass_next-IsAnswered F msg s d h y doc sends way busy t =
      let y' : Handler E = record y { next_state = [] } in
      let handled = handle_answer E F t.reply y' doc t.kind way (t.state ∙ busy) in
      let passed : pass_next E F y
          ≡ record y { next_state = []; fsm_current = s; sent = t.reply ∷ y.sent } =
        simp (pass_next, t.waits, handled, sends y.sent t.reply) in
      subst (IsAnswered msg (record h { fsm_current = s })) (sym passed) (record {
        reply = t.reply;
        kind = t.kind;
        same = t.same;
        sent = ap (λ l. t.reply ∷ l) t.sent;
        state = refl;
        waits = refl;
        ended = t.ended;
        free = record { entries = t.free.entries; made = t.free.made; free = t.free.free };
      })

  -- A request to change the ledger or to call another chaincode, which the machine takes and whose
  -- id is of a transaction and free, is answered: after its goroutine and one more pass of the
  -- stream the machine is back in the state before, the latest message that was sent is an error or
  -- a response for the id, the id is free again, and the stream goes on. The only exception is a
  -- call of another chaincode whose specification has no id, or which is launched and whose
  -- execution returns no response: its goroutine ends the peer. The library for the machine behaves
  -- as documented, the stream takes every message, and no other message waits to be the next.
  pub request-IsAnswered :
      (F : Fsm (Handler E)) (name : String) (msg : ChaincodeMessage) (h : Handler E)
      → IsDocumented F (machine E)
      → Sends
      → IsRequest msg.type
      → (handle_message E F msg h).0 ≡ false
      → h.chaincode_id ≡ some name
      → get_is_transaction E msg.uuid h ≡ true
      → IsFree msg.uuid h
      → h.next_state ≡ []
      → IsAnswered msg h (pass_next E F (enter_busy_state E msg (handle_message E F msg h).1))
        ⊎ (Panics E msg h.outside
            × ((enter_busy_state E msg (handle_message E F msg h).1).crashed ≡ true))
  unfolding start_job get_is_transaction
  request-IsAnswered F name msg h doc sends request taken named marked f waits =
      elim (handle_request E F msg h doc request) [
        | inl refused ↦ cc (sym taken ∙ ap (λ r. r.0) refused)
        | inr (d, way, moved) ↦
            let g : Handler E = start_job E (job_busy msg) (record h { fsm_current = d }) in
            let free : IsFree msg.uuid g = record {
              entries = f.entries;
              made = f.made;
              free = f.free;
            } in
            elim (enter_busy_state-IsTriggered name msg g named marked free waits) [
              | inr (panics, ends) ↦ inr (
                panics,
                subst (λ r. (enter_busy_state E msg r.1).crashed ≡ true) (sym moved) ends,
              )
              | inl t ↦
                  let a = pass_next-IsAnswered F msg h.fsm_current d g _ doc sends way refl t in
                  inl (
                    subst (λ r. IsAnswered msg h (pass_next E F (enter_busy_state E msg r.1)))
                      (sym moved)
                      (record {
                        reply = a.reply;
                        kind = a.kind;
                        same = a.same;
                        sent = a.sent;
                        state = a.state;
                        waits = a.waits;
                        ended = a.ended;
                        free = a.free;
                      }))
            ]
      ]
