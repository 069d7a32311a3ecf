-- ===== src/Pbft/Batch/Store.antt =====
-- The requests that wait in a batch, and the timer that sends them.
use client_sdk.Prelude.{
  ℕ, suc, ◌+◌, ◌%◌, ◌<◌, ◌≡◌, ◌≢◌, refl, ap, ◌∙◌, true, not, List, [], ◌∷◌, ◌++◌, length, leb,
  arith, inl, inr, Bool-cases, Option-cases, subst, if◌then◌else◌,
}
use native.Mathlib.Nat.{mod_self, mod-eq_of_lt, mod-add-mod, mod-lt}
use client_sdk.Pbft.State.{
  Env, Output, broadcast, unicast, execute, skip_to, valid_state, change_view, nil_dereference,
}
use client_sdk.Pbft.Batch.{
  BatchEnv, ObcBatch, on_view_change, handle_calls, call_core, unpack_transactions,
  start_batch_timer, send_batch, leader_proc_req,
}

-- The calls of the core leave the requests that wait as they are.
store-handle_calls :
    (calls : List Output) (op : ObcBatch)
    → ((handle_calls calls op).batch_store ≡ op.batch_store)
      × ((handle_calls calls op).batch_size ≡ op.batch_size)
unfolding handle_calls on_view_change
store-handle_calls [] op = (refl, refl)
store-handle_calls (broadcast _ ∷ calls) op = store-handle_calls calls op
store-handle_calls (unicast _ _ ∷ calls) op = store-handle_calls calls op
store-handle_calls (execute _ _ _ ∷ calls) op = store-handle_calls calls op
store-handle_calls (skip_to _ _ _ _ ∷ calls) op = store-handle_calls calls op
store-handle_calls (valid_state _ _ _ _ ∷ calls) op = store-handle_calls calls op
store-handle_calls (nil_dereference ∷ calls) op = store-handle_calls calls op
store-handle_calls (change_view _ ∷ calls) op = ground (arith, store-handle_calls calls op)

module _ (env : Env) (B : BatchEnv) where
  store-send_batch :
      (op : ObcBatch)
      → ((send_batch env B op).0.batch_store ≡ [])
        × ((send_batch env B op).0.batch_size ≡ op.batch_size)
  unfolding send_batch call_core
  store-send_batch op =
      elim (Option-cases (B.marshal_transaction_block (unpack_transactions env B op.batch_store))) [
        | inl failed ↦ rw (failed, send_batch) (refl, refl)
        | inr (packed, e) ↦ rw (e, send_batch) (store-handle_calls _ _)
      ]

  -- Requests that arrive one after the other.
  unfoldable pub process : List (List ℕ) → ObcBatch → ObcBatch
  process [] op = op
  process (req ∷ reqs) op = process reqs (leader_proc_req env B req op)

  length-snoc : (xs : List (List ℕ)) (x : List ℕ) → length (xs ++ x ∷ []) ≡ suc (length xs)
  length-snoc [] x = refl
  length-snoc (y ∷ ys) x = ap suc (length-snoc ys x)

  -- The batch with one more request and its timer running.
  with_request : List ℕ → ObcBatch → ObcBatch
  with_request req op =
      let stored : ObcBatch = record op { batch_store = op.batch_store ++ req ∷ [] } in
      if not stored.batch_timer_active then start_batch_timer stored else stored

  length-with_request :
      (req : List ℕ) (op : ObcBatch)
      → (length (with_request req op).batch_store ≡ suc (length op.batch_store))
        × ((with_request req op).batch_size ≡ op.batch_size)
        × ((with_request req op).batch_timer_active ≡ true)
  unfolding with_request
  length-with_request req op = elim (Bool-cases op.batch_timer_active) [
    | inl running ↦ rw (running, with_request) (length-snoc op.batch_store req, refl, refl)
    | inr stopped ↦ rw (stopped, with_request) (length-snoc op.batch_store req, refl, refl)
  ]

  -- What waits and whether the timer that sends it runs.
  pub record Waits (op : ObcBatch) (count size : ℕ) : Type 0 where
    pub waiting : length op.batch_store ≡ count
    pub bound : op.batch_size ≡ size
    pub timer : count ≢ 0 → op.batch_timer_active ≡ true

  -- A request that fills the batch empties it.
  leader_proc_req-Waits :
      (req : List ℕ) (op : ObcBatch) (count size : ℕ)
      → count < size
      → Waits op count size
      → Waits (leader_proc_req env B req op) (suc count % size) size
  unfolding leader_proc_req with_request
  leader_proc_req-Waits req op count size below waits =
      let timed = with_request req op in
      let stored = length-with_request req op in
      let counted : length timed.batch_store ≡ suc count = stored.0 ∙ ap suc waits.waiting in
      let sized : timed.batch_size ≡ size = stored.1 ∙ waits.bound in
      elim (Bool-cases (leb timed.batch_size (length timed.batch_store))) [
        | inl full ↦
            let filled : suc count ≡ size = ground (arith, full, counted, sized, below) in
            let none_left : suc count % size ≡ 0 =
              subst (λ m. suc count % m ≡ 0) filled (mod_self (suc count)) in
            let sent = store-send_batch timed in
            rw (full, none_left, leader_proc_req)
              (record {
                waiting = ap length sent.0;
                bound = sent.1 ∙ sized;
                timer = λ some_wait. absurd (some_wait refl);
              })
        | inr room ↦
            let fits : suc count < size = ground (arith, room, counted, sized) in
            rw (room, mod-eq_of_lt fits, leader_proc_req)
              (record { waiting = counted; bound = sized; timer = λ _. stored.2 })
      ]

  -- After requests that the primary takes up one after the other, exactly as many wait as
  -- do not fill a batch, and the timer that sends them runs if there are any.
  pub process-Waits :
      (reqs : List (List ℕ)) (op : ObcBatch) (count size : ℕ)
      → count < size
      → Waits op count size
      → Waits (process reqs op) ((count + length reqs) % size) size
  unfolding process
  process-Waits [] op count size below waits =
      let same : (count + length {A = List ℕ} []) % size ≡ count =
        mod-eq_of_lt (omega (arith, below)) ∙ omega arith in
      rw same waits
  process-Waits (req ∷ reqs) op count size below waits =
      let total : ((suc count % size) + length reqs) % size ≡ (count + length (req ∷ reqs)) % size =
        mod-add-mod (suc count) size (length reqs) ∙ ap (λ n. n % size) (omega arith) in
      subst (λ n. Waits (process (req ∷ reqs) op) n size) total
        (process-Waits reqs (leader_proc_req env B req op) (suc count % size) size
          (mod-lt (suc count) (omega (arith, below)))
          (leader_proc_req-Waits req op count size below waits))
