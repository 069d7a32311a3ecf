-- ===== src/Pbft/Leave.antt =====
-- A replica leaves its view: the P and Q sets and the message of `sendViewChange` in
-- consensus/obcpbft/viewchange.go.

use client_sdk.Prelude.{
  ℕ, String, false, not, none, some, List, [], ◌∷◌, ltb, Map, lookup, insert, delete, keep_entries,
  nat_eq, string_eq, if◌then◌else◌, add64,
}
use client_sdk.Pbft.Messages.{ViewChange, ViewChangeC, ViewChangePq}
use client_sdk.Pbft.State.{PbftCore, MsgId, QIdx, MsgCert, qidx_eq, vcidx_eq, Env, stop_timer}
use client_sdk.Pbft.Quorum.{pre_prepared, prepared}

-- One round of the loop that collects the P set.
unfoldable pub collect_prepared : MsgId → MsgCert → PbftCore → PbftCore
collect_prepared idx cert c = elim cert.pre_prepare [
  | none ↦ c
  | some p ↦
      if not (prepared p.request_digest idx.v idx.n c)
      then c
      else let entry : ViewChangePq = record {
        sequence_number = idx.n;
        digest = p.request_digest;
        view = idx.v;
      } in
        elim (lookup idx.n c.pset) [
          | none ↦ record c { pset = insert idx.n entry c.pset }
          | some old ↦
              if ltb idx.v old.view then c else record c { pset = insert idx.n entry c.pset }
        ]
]

unfoldable pub collect_pset : Map MsgId MsgCert → PbftCore → PbftCore
collect_pset [] c = c
collect_pset ((idx, cert) ∷ rest) c = collect_pset rest (collect_prepared idx cert c)

-- One round of the loop that collects the Q set.
unfoldable pub collect_pre_prepared : MsgId → MsgCert → PbftCore → PbftCore
collect_pre_prepared idx cert c = elim cert.pre_prepare [
  | none ↦ c
  | some p ↦
      if not (pre_prepared p.request_digest idx.v idx.n c)
      then c
      else let qi : QIdx = record { d = p.request_digest; n = idx.n } in
        let entry : ViewChangePq = record {
          sequence_number = idx.n;
          digest = p.request_digest;
          view = idx.v;
        } in
        elim (lookup qi c.qset) [
          | none ↦ record c { qset = insert qi entry c.qset }
          | some old ↦ if ltb idx.v old.view then c else record c { qset = insert qi entry c.qset }
        ]
]

unfoldable pub collect_qset : Map MsgId MsgCert → PbftCore → PbftCore
collect_qset [] c = c
collect_qset ((idx, cert) ∷ rest) c = collect_qset rest (collect_pre_prepared idx cert c)

-- `sendViewChange` up to the message: the next view, the sets, and old messages cleared.
unfoldable pub enter_next_view : PbftCore → PbftCore
enter_next_view c =
    let stopped = stop_timer c in
    let next : PbftCore = record stopped {
      new_view_store = delete stopped.view stopped.new_view_store;
      view = add64 stopped.view 1;
      active_view = false;
    } in
    let collected = collect_qset next.cert_store (collect_pset next.cert_store next) in
    record collected {
      cert_store = keep_entries (λ idx _. not (ltb idx.v collected.view)) collected.cert_store;
      view_change_store =
          keep_entries (λ idx _. not (ltb idx.v collected.view)) collected.view_change_store;
    }

unfoldable pub cset_entries : Map ℕ String → List ViewChangeC
cset_entries [] = []
cset_entries ((n, id) ∷ rest) = record { sequence_number = n; id = id } ∷ cset_entries rest

unfoldable pub entries_of {ℓ} : {K : Type ℓ} → Map K ViewChangePq → List ViewChangePq
entries_of [] = []
entries_of ((key, p) ∷ rest) = p ∷ entries_of rest

unfoldable pub make_view_change : Env → PbftCore → ViewChange
make_view_change env c = env.sign (record {
  view = c.view;
  h = c.h;
  cset = cset_entries c.chkpts;
  pset = entries_of c.pset;
  qset = entries_of c.qset;
  replica_id = c.id;
  signature = [];
})
