-- ===== src/Noops/Queue/Fifo.antt =====
-- The queue beside a bounded first-in first-out queue.
use client_sdk.Prelude.{
  ℕ, zero, suc, ◌+◌, ◌≤◌, ◌<◌, ◌≡◌, refl, sym, ap, ◌∙◌, Bool, true, false, Option, some, List, [],
  ◌∷◌, ◌++◌, map, length, ltb, ◌==◌, nat_eq, arith, inl, inr, Bool-cases, if◌then◌else◌,
}
use client_sdk.Noops.Queue.{
  Txq, make, new_txq, set_cell, append, first_cells, get_txs, is_full, size, reset,
}

-- The calls of a queue, and what they return.
pub data Call (A : Type 0) : Type 0 where
  call_append : A → Call A
  call_get_txs call_is_full call_size call_reset : Call A

pub data Answer (A : Type 0) : Type 0 where
  nothing : Answer A
  transactions : List (Option A) → Answer A
  full : Bool → Answer A
  count : ℕ → Answer A

length-make : (A : Type 0) (n : ℕ) → length (make {A = A} n) ≡ n
length-make A zero = refl
length-make A (suc n) = ap suc (length-make A n)

module _ {A : Type 0} where
  unfoldable pub step : Call A → Txq A → Answer A × Txq A
  step (call_append tx) o = (nothing, append tx o)
  step call_get_txs o = let r = get_txs o in (transactions r.0, r.1)
  step call_is_full o = (full (is_full o), o)
  step call_size o = (count (size o), o)
  step call_reset o = (nothing, reset o)

  unfoldable pub run : List (Call A) → Txq A → List (Answer A)
  run [] o = []
  run (c ∷ cs) o = let r = step c o in r.0 ∷ run cs r.1

  -- What the queue promises: the transactions in the order in which they came, none of them lost
  -- but those that come when the bound is reached.
  unfoldable pub fifo_step : ℕ → Call A → List A → Answer A × List A
  fifo_step bound (call_append tx) held =
      (nothing, if ltb (length held) bound then held ++ tx ∷ [] else held)
  fifo_step bound call_get_txs held = (transactions (map some held), [])
  fifo_step bound call_is_full held = (full (length held == bound), held)
  fifo_step bound call_size held = (count (length held), held)
  fifo_step bound call_reset held = (nothing, [])

  unfoldable pub fifo_run : ℕ → List (Call A) → List A → List (Answer A)
  fifo_run bound [] held = []
  fifo_run bound (c ∷ cs) held = let r = fifo_step bound c held in r.0 ∷ fifo_run bound cs r.1

  -- The first cells of the queue hold what it promises to hold.
  pub record Holds (bound : ℕ) (o : Txq A) (held : List A) : Type 0 where
    pub bounded : length o.q ≡ bound
    pub counted : o.i ≡ length held
    pub room : length held ≤ bound
    pub cells : first_cells o.i o.q ≡ map some held

  length-set_cell : (i : ℕ) (tx : A) (cs : List (Option A)) → length (set_cell i tx cs) ≡ length cs
  length-set_cell i tx [] = refl
  length-set_cell zero tx (c ∷ cs) = refl
  length-set_cell (suc i) tx (c ∷ cs) = ap suc (length-set_cell i tx cs)

  first_cells-set_cell :
      (i : ℕ) (tx : A) (cs : List (Option A))
      → i < length cs
      → first_cells (suc i) (set_cell i tx cs) ≡ first_cells i cs ++ some tx ∷ []
  first_cells-set_cell i tx [] below = ground arith
  first_cells-set_cell zero tx (c ∷ cs) below = refl
  first_cells-set_cell (suc i) tx (c ∷ cs) below =
      ap (λ r. c ∷ r) (first_cells-set_cell i tx cs (omega (arith, below)))

  map-snoc : (xs : List A) (x : A) → map some (xs ++ x ∷ []) ≡ map some xs ++ some x ∷ []
  map-snoc [] x = refl
  map-snoc (y ∷ ys) x = ap (λ r. some y ∷ r) (map-snoc ys x)

  pub length-snoc : (xs : List A) (x : A) → length (xs ++ x ∷ []) ≡ suc (length xs)
  length-snoc [] x = refl
  length-snoc (y ∷ ys) x = ap suc (length-snoc ys x)

  pub append-Holds :
      (bound : ℕ) (tx : A) (o : Txq A) (held : List A)
      → Holds bound o held
      → Holds bound (append tx o) (if ltb (length held) bound then held ++ tx ∷ [] else held)
  unfolding append
  append-Holds bound tx o held h = elim (Bool-cases (ltb (length held) bound)) [
    | inr at_bound ↦
        let no_room : ltb o.i (length o.q) ≡ false =
          ground (arith, at_bound, h.bounded, h.counted) in
        rw (at_bound, no_room, append) h
    | inl below ↦
        let has_room : ltb o.i (length o.q) ≡ true = ground (arith, below, h.bounded, h.counted) in
        let inside : o.i < length o.q = ground (arith, has_room) in
        let next : o.i + 1 ≡ suc o.i = omega arith in
        rw (below, has_room, append)
          (record {
            bounded = length-set_cell o.i tx o.q ∙ h.bounded;
            counted = next ∙ ap suc h.counted ∙ sym (length-snoc held tx);
            room = rw (length-snoc held tx) (ground (arith, below));
            cells =
                ap (λ n. first_cells n (set_cell o.i tx o.q)) next
                ∙ first_cells-set_cell o.i tx o.q inside
                ∙ ap (λ r. r ++ some tx ∷ []) h.cells
                ∙ sym (map-snoc held tx);
          })
  ]

  -- What one call answers, and that the queue goes on holding what it promises to.
  step-Holds :
      (bound : ℕ) (c : Call A) (o : Txq A) (held : List A)
      → Holds bound o held
      → ((step c o).0 ≡ (fifo_step bound c held).0)
        × Holds bound (step c o).1 (fifo_step bound c held).1
  unfolding step fifo_step get_txs is_full size reset
  step-Holds bound (call_append tx) o held h = (refl, append-Holds bound tx o held h)
  step-Holds bound call_get_txs o held h = (
    ap transactions h.cells,
    record { bounded = h.bounded; counted = refl; room = omega arith; cells = refl },
  )
  step-Holds bound call_is_full o held h =
      let same : (length o.q == o.i) ≡ (length held == bound) =
        ground (arith, h.bounded, h.counted) in
      (ap full same, h)
  step-Holds bound call_size o held h = (ap count h.counted, h)
  step-Holds bound call_reset o held h =
      (refl, record { bounded = h.bounded; counted = refl; room = omega arith; cells = refl })

  pub run-Holds :
      (bound : ℕ) (cs : List (Call A)) (o : Txq A) (held : List A)
      → Holds bound o held
      → run cs o ≡ fifo_run bound cs held
  unfolding run fifo_run
  run-Holds bound [] o held h = refl
  run-Holds bound (c ∷ cs) o held h =
      let now = step-Holds bound c o held h in
      ap (λ a. a ∷ run cs (step c o).1) now.0
      ∙ ap (λ r. (fifo_step bound c held).0 ∷ r)
          (run-Holds bound cs (step c o).1 (fifo_step bound c held).1 now.1)

  pub new_txq-Holds : (n : ℕ) → Holds (if ltb n 1 then 1 else n) (new_txq n) []
  unfolding new_txq
  new_txq-Holds n = record {
    bounded = length-make A (if ltb n 1 then 1 else n);
    counted = refl;
    room = omega arith;
    cells = refl;
  }

  -- Every sequence of calls on a new queue of a size has the answers of a first-in first-out queue
  -- of that bound, which is at least one.
  pub run-new_txq :
      (n : ℕ) (cs : List (Call A)) → run cs (new_txq n) ≡ fifo_run (if ltb n 1 then 1 else n) cs []
  run-new_txq n cs = run-Holds (if ltb n 1 then 1 else n) cs (new_txq n) [] (new_txq-Holds n)
