-- ===== src/Pbft/Executor/Progress.antt =====
-- What becomes of requests that wait for the executor, where the stack takes them up.
use client_sdk.Prelude.{
  ℕ, zero, suc, ◌+◌, sub64, ◌<◌, ◌≤◌, ◌≡◌, refl, sym, ap, ◌∙◌, subst, true, false, some, List, [],
  ◌∷◌, ◌++◌, map, leb, ltb, length, length-append, arith, Bool-cases, inl, inr,
}
use mathlib.Core.List.{append-nil, append_assoc}
use client_sdk.Pbft.Executor.{
  BlockInfo, Transaction, ExecutorEnv, Call, call_began, call_committed, value, at_queue, Executor,
  enqueue, send,
}
use client_sdk.Pbft.Executor.Run.{
  prepare_commit, commit, validates, finish_commit, finish_execute, finish_prepare, execute,
}
use client_sdk.Pbft.Executor.Loop.{info_of, end_request, send_checkpoint, process, pass}

-- The numbers of the batches that were committed, the first one first.
abbrev pub commits : List Call → List ℕ
commits [] = []
commits (call_committed n ∷ earlier) = commits earlier ++ n ∷ []
commits (_ ∷ earlier) = commits earlier

module _ (E : ExecutorEnv) where
  -- The stack begins, executes and commits every batch, and its blocks have a hash.
  pub record Reliable : Type 0 where
    pub begins : (tx : Transaction E.Tx) (st : E.St) → (E.begin_tx_batch tx st).0 ≡ true
    pub executes :
        (tx : Transaction E.Tx) (txs : List E.Tx) (st : E.St) → (E.exec_txs tx txs st).0 ≡ true
    pub stores :
        (tx : Transaction E.Tx) (st : E.St) → (b : E.Block) × ((E.commit_tx_batch tx st).0 ≡ some b)
    pub hashes : (b : E.Block) → (h : List ℕ) × (E.hash_block b ≡ some h)
    pub counts : (st : E.St) → (n : ℕ) × (E.get_blockchain_size st ≡ some n)

  -- A request, neither null nor a sync target, that executes without validation.
  pub record IsPlain (tx : Transaction E.Tx) : Type 0 where
    pub no_sync : tx.sync ≡ false
    pub no_null : (info_of E tx).null ≡ false
    pub no_check : validates E tx ≡ false

  execute-reliable :
      (tx : Transaction E.Tx) (x : Executor E)
      → Reliable
      → validates E tx ≡ false
      → (b : BlockInfo) × (st : E.St) × (execute E tx x ≡ (
        value (some b),
        record x {
          stack = st;
          last_exec = tx.seq_no;
          calls = call_committed tx.seq_no ∷ call_began tx.seq_no ∷ x.calls;
        },
      ))
  unfolding execute finish_prepare finish_execute finish_commit prepare_commit commit
  execute-reliable tx x r plain =
      let begun = (E.begin_tx_batch tx x.stack).1 in
      let ran = (E.exec_txs tx tx.txs begun).1 in
      let st = (E.commit_tx_batch tx ran).1 in
      let (block, stored) = r.stores tx ran in
      let (h, hashed) = r.hashes block in
      let (n, counted) = r.counts st in
      (
        record { block_number = sub64 n 1; block_hash = h },
        st,
        rw
            (
              execute,
              prepare_commit,
              r.begins tx x.stack,
              r.executes tx tx.txs begun,
              finish_prepare,
              plain,
              finish_execute,
              commit,
              stored,
              hashed,
              finish_commit,
              counted,
            )
            refl,
      )

  -- What a pass leaves after it has executed `tx`.
  record Ran (tx : Transaction E.Tx) (x y : Executor E) : Type 0 where
    queue : y.execution_queue ≡ x.execution_queue
    thread : y.thread ≡ x.thread
    last : y.last_exec ≡ tx.seq_no
    adds : commits y.calls ≡ commits x.calls ++ tx.seq_no ∷ []

  end_request-Ran :
      (tx : Transaction E.Tx) (x : Executor E)
      → Reliable
      → validates E tx ≡ false
      → Ran tx x (end_request E tx (execute E tx x))
  unfolding end_request send_checkpoint
  end_request-Ran tx x r plain =
      let (b, st, ran) = execute-reliable tx x r plain in
      subst (λ o. Ran tx x (end_request E tx o)) (sym ran)
        (elim (Bool-cases (info_of E tx).checkpoint) [
          | inl asked ↦
              rw (send_checkpoint, asked)
                (record { queue = refl; thread = refl; last = refl; adds = refl })
          | inr not ↦
              rw (send_checkpoint, not)
                (record { queue = refl; thread = refl; last = refl; adds = refl })
        ])

  pass-Ran :
      (tx : Transaction E.Tx) (rest : List (Transaction E.Tx)) (x : Executor E)
      → Reliable
      → IsPlain tx
      → x.last_exec < tx.seq_no
      → x.thread ≡ at_queue
      → x.execution_queue ≡ tx ∷ rest
      → Ran tx (record x { execution_queue = rest }) (pass E x)
  unfolding pass process
  pass-Ran tx rest x r plain above waits queued =
      let y : Executor E = record x { execution_queue = rest } in
      let (n, counted) = r.counts x.stack in
      let new : leb tx.seq_no x.last_exec ≡ false = ground arith in
      let processed : process E tx y ≡ end_request E tx (execute E tx y) =
        simp (process, counted, new, plain.no_sync, plain.no_null) in
      let passed : pass E x ≡ process E tx y = simp (pass, waits, queued) in
      subst (Ran tx y) (sym (passed ∙ processed)) (end_request-Ran tx y r plain.no_check)

  abbrev pub passes : ℕ → Executor E → Executor E
  passes zero x = x
  passes (suc n) x = passes n (pass E x)

  -- The calls of `Execute` for requests, one after the other.
  abbrev pub enqueue_all : List (Transaction E.Tx) → Executor E → Executor E
  enqueue_all [] x = x
  enqueue_all (tx ∷ rest) x = enqueue_all rest (enqueue E tx.seq_no tx.txs tx.exec_info x)

  -- Requests with rising numbers, all of them above `last`.
  abbrev pub Rising : ℕ → List (Transaction E.Tx) → Type 0
  Rising last [] = Unit
  Rising last (tx ∷ rest) = IsPlain tx × (last < tx.seq_no) × Rising tx.seq_no rest

  passes-commits :
      (q : List (Transaction E.Tx)) (x : Executor E)
      → Reliable
      → Rising x.last_exec q
      → x.thread ≡ at_queue
      → x.execution_queue ≡ q
      → ((passes (length q) x).execution_queue ≡ [])
        × (commits (passes (length q) x).calls ≡ commits x.calls ++ map (λ tx. tx.seq_no) q)
  passes-commits [] x r rising waits queued = (queued, sym (append-nil (commits x.calls)))
  passes-commits (tx ∷ rest) x r (plain, above, rising) waits queued =
      let ran = pass-Ran tx rest x r plain above waits queued in
      let (empty, done) =
        passes-commits rest (pass E x) r (subst (λ n. Rising n rest) (sym ran.last) rising)
          (ran.thread ∙ waits) ran.queue in
      (
        empty,
        done
            ∙ ap (λ l. l ++ map (λ t. t.seq_no) rest) ran.adds
            ∙ append_assoc (commits x.calls) (tx.seq_no ∷ []) (map (λ t. t.seq_no) rest),
      )

  -- What calls of `Execute` leave where there is room for all of them.
  record Queued (q : List (Transaction E.Tx)) (x y : Executor E) : Type 0 where
    queue : y.execution_queue ≡ x.execution_queue ++ q
    thread : y.thread ≡ x.thread
    last : y.last_exec ≡ x.last_exec
    calls : y.calls ≡ x.calls

  unsynced : (tx : Transaction E.Tx) → IsPlain tx → record tx { sync = false } ≡ tx
  unsynced tx plain = ap (λ b. record tx { sync = b }) (sym plain.no_sync)

  enqueue-Queued :
      (tx : Transaction E.Tx) (x : Executor E)
      → IsPlain tx
      → length x.execution_queue < x.queue_size
      → Queued (tx ∷ []) x (enqueue E tx.seq_no tx.txs tx.exec_info x)
        × ((enqueue E tx.seq_no tx.txs tx.exec_info x).queue_size ≡ x.queue_size)
  unfolding enqueue send
  enqueue-Queued tx x plain room =
      let below : ltb (length x.execution_queue) x.queue_size ≡ true = ground arith in
      (
        record {
          queue = rw (enqueue, below) (ap (λ t. x.execution_queue ++ t ∷ []) (unsynced tx plain));
          thread = rw (enqueue, below) refl;
          last = rw (enqueue, below) refl;
          calls = rw (enqueue, below) refl;
        },
        rw (enqueue, below) refl,
      )

  enqueue_all-Queued :
      (q : List (Transaction E.Tx)) (last : ℕ) (x : Executor E)
      → Rising last q
      → length x.execution_queue + length q ≤ x.queue_size
      → Queued q x (enqueue_all q x)
  enqueue_all-Queued [] last x rising room = record {
    queue = sym (append-nil x.execution_queue);
    thread = refl;
    last = refl;
    calls = refl;
  }
  enqueue_all-Queued (tx ∷ rest) last x (plain, above, rising) room =
      let y = enqueue E tx.seq_no tx.txs tx.exec_info x in
      let (one, size) = enqueue-Queued tx x plain (omega arith) in
      let longer : length y.execution_queue ≡ length x.execution_queue + 1 =
        ap length one.queue ∙ length-append x.execution_queue (tx ∷ []) in
      let more = enqueue_all-Queued rest tx.seq_no y rising (omega arith) in
      record {
        queue =
            more.queue
            ∙ ap (λ l. l ++ rest) one.queue
            ∙ append_assoc x.execution_queue (tx ∷ []) rest;
        thread = more.thread ∙ one.thread;
        last = more.last ∙ one.last;
        calls = more.calls ∙ one.calls;
      }

  -- Requests with rising numbers above the last execution, which are not null and no sync targets,
  -- need no validation and fit in the queue of an idle executor, are all committed after as many
  -- passes of the thread as there are requests, in the order of the calls of `Execute`, none of them
  -- twice, and the queue is empty again, if the stack takes up every batch.
  pub enqueue_all-commits :
      (q : List (Transaction E.Tx)) (x : Executor E)
      → Reliable
      → Rising x.last_exec q
      → x.thread ≡ at_queue
      → x.execution_queue ≡ []
      → length q ≤ x.queue_size
      → let y = passes (length q) (enqueue_all q x) in
        (y.execution_queue ≡ []) × (commits y.calls ≡ commits x.calls ++ map (λ tx. tx.seq_no) q)
  enqueue_all-commits q x r rising waits idle room =
      let queued =
        enqueue_all-Queued q x.last_exec x rising
          (subst (λ l. length l + length q ≤ x.queue_size) (sym idle) (omega arith)) in
      let (empty, done) =
        passes-commits q (enqueue_all q x) r (subst (λ n. Rising n q) (sym queued.last) rising)
          (queued.thread ∙ waits) (queued.queue ∙ ap (λ l. l ++ q) idle) in
      (empty, done ∙ ap (λ c. commits c ++ map (λ tx. tx.seq_no) q) queued.calls)
