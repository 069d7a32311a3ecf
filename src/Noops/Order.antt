-- ===== src/Noops/Order.antt =====
-- The order in which transactions execute.
use client_sdk.Prelude.{
  ℕ, suc, ◌<◌, ◌≡◌, refl, sym, ap, ◌∙◌, subst, true, false, some, List, [], ◌∷◌, ◌++◌, map,
  map-append, length, ltb, nat_eq, arith, inl, inr, Bool-cases, if◌then◌else◌,
}
use mathlib.Core.List.{append-nil, append_assoc}
use client_sdk.Noops.Queue
use client_sdk.Noops.Queue.{Txq, append, first_cells, get_txs, is_full}
use client_sdk.Noops.Queue.Fifo.{Holds, append-Holds, length-snoc}
use client_sdk.Noops.{
  Stack, Noops, can_process_block, process_transactions, process_block, handle_transaction,
}

module _ {ℓ} {A : Type ℓ} where
  -- What was executed, the first transaction first.
  abbrev pub history : List (List A) → List A
  history [] = []
  history (batch ∷ earlier) = history earlier ++ batch

module _ (S : Stack) where
  -- The ledger takes up every batch; that transactions execute, or commit, is not asked for.
  unfoldable pub Begins : Type 0
  Begins = (s : S.St) → (S.begin_tx_batch s).0 ≡ true

  -- What was received is what was executed and then what waits, which does not fill a block.
  pub record Ordered (bound : ℕ) (received : List S.Transaction) (i : Noops S) : Type 0 where
    pub held : List S.Transaction
    pub holds : Holds bound i.tx_q held
    pub room : length held < bound
    pub order : history i.executed ++ map some held ≡ map some received

  process_transactions-Ordered :
      (bound : ℕ) (received held : List S.Transaction) (i : Noops S)
      → Begins
      → 0 < bound
      → Holds bound i.tx_q held
      → history i.executed ++ map some held ≡ map some received
      → Ordered bound received (process_transactions S i).1
  unfolding process_transactions Begins get_txs
  process_transactions-Ordered bound received held i begins positive holds order =
      let kept =
        append-nil (history i.executed ++ first_cells i.tx_q.i i.tx_q.q)
        ∙ ap (λ r. history i.executed ++ r) holds.cells
        ∙ order in
      let empty : Holds bound (get_txs i.tx_q).1 [] = record {
        bounded = holds.bounded;
        counted = refl;
        room = omega arith;
        cells = refl;
      } in
      let done : (st : S.St)
          → Ordered bound received (record i {
            tx_q = (get_txs i.tx_q).1;
            executed = (get_txs i.tx_q).0 ∷ i.executed;
            stack = st;
          }) =
        λ st. record { held = []; holds = empty; room = positive; order = kept } in
      let ran = S.exec_txs (get_txs i.tx_q).0 (S.begin_tx_batch i.stack).1 in
      elim (Bool-cases ran.0) [
        | inr failed ↦ rw (begins i.stack, failed, process_transactions) (done _)
        | inl executed ↦ elim (Bool-cases (S.commit_tx_batch ran.1).0) [
          | inr failed ↦ rw (begins i.stack, executed, failed, process_transactions) (done _)
          | inl committed ↦ rw (begins i.stack, executed, committed, process_transactions) (done _)
        ]
      ]

  room_left :
      (bound : ℕ) (o : Txq S.Transaction) (held : List S.Transaction)
      → Holds bound o held
      → is_full o ≡ false
      → length held < bound
  unfolding is_full
  room_left bound o held h room = ground (arith, room, h.bounded, h.counted, h.room)

  handle_transaction-Ordered :
      (bound : ℕ) (received : List S.Transaction) (tx : S.Transaction) (i : Noops S)
      → Begins
      → Ordered bound received i
      → Ordered bound (received ++ tx ∷ []) (handle_transaction S tx i)
  unfolding handle_transaction can_process_block process_block Queue.size
  handle_transaction-Ordered bound received tx i begins o =
      let held' = o.held ++ tx ∷ [] in
      let below : ltb (length o.held) bound ≡ true = ground (arith, o.room) in
      let holds : Holds bound (append tx i.tx_q) held' =
        subst (λ b. Holds bound (append tx i.tx_q) (if b then held' else o.held)) below
          (append-Holds bound tx i.tx_q o.held o.holds) in
      let order : history i.executed ++ map some held' ≡ map some (received ++ tx ∷ []) =
        ap (λ r. history i.executed ++ r) (map-append some o.held (tx ∷ []))
        ∙ sym (append_assoc (history i.executed) (map some o.held) (some tx ∷ []))
        ∙ ap (λ r. r ++ some tx ∷ []) o.order
        ∙ sym (map-append some received (tx ∷ [])) in
      let counted : (append tx i.tx_q).i ≡ suc (length o.held) =
        holds.counted ∙ length-snoc o.held tx in
      elim (Bool-cases (is_full (append tx i.tx_q))) [
        | inl full ↦
            let some_wait : ltb (append tx i.tx_q).i 1 ≡ false = ground (arith, counted) in
            rw (full, some_wait)
              (process_transactions-Ordered bound (received ++ tx ∷ []) held'
                (record (can_process_block S tx i).1 { timer_active = false }) begins
                (omega (arith, o.room)) holds order)
        | inr room ↦ rw room (record {
          held = held';
          holds = holds;
          room = room_left bound (append tx i.tx_q) held' holds room;
          order = order;
        })
      ]

  unfoldable pub handle_transactions : List S.Transaction → Noops S → Noops S
  handle_transactions [] i = i
  handle_transactions (tx ∷ txs) i = handle_transactions txs (handle_transaction S tx i)

  -- Transactions that arrive one after the other execute in the order of their arrival, none is
  -- lost or repeated, and those that wait do not fill a block, if the ledger takes up every batch.
  pub handle_transactions-Ordered :
      (bound : ℕ) (received txs : List S.Transaction) (i : Noops S)
      → Begins
      → Ordered bound received i
      → Ordered bound (received ++ txs) (handle_transactions txs i)
  unfolding handle_transactions
  handle_transactions-Ordered bound received [] i begins o =
      subst (λ r. Ordered bound r i) (sym (append-nil received)) o
  handle_transactions-Ordered bound received (tx ∷ txs) i begins o =
      subst (λ r. Ordered bound r (handle_transactions (tx ∷ txs) i))
        (append_assoc received (tx ∷ []) txs)
        (handle_transactions-Ordered bound (received ++ tx ∷ []) txs (handle_transaction S tx i)
          begins (handle_transaction-Ordered bound received tx i begins o))
