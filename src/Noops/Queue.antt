-- ===== src/Noops/Queue.antt =====
-- consensus/noops/txq.go: a queue of transactions in a slice of fixed length. A cell that was never
-- written holds nil.
pub mod Fifo
use client_sdk.Prelude.{
  ℕ, zero, suc, ◌+◌, Bool, true, false, Option, none, some, List, [], ◌∷◌, ◌++◌, length, ltb, ◌==◌,
  nat_eq, if◌then◌else◌,
}

pub record Txq (Transaction : Type 0) : Type 0 where
  pub i : ℕ
  pub q : List (Option Transaction)

module _ {A : Type 0} where
  abbrev pub make : ℕ → List (Option A)
  make zero = []
  make (suc n) = none ∷ make n

  unfoldable pub new_txq : ℕ → Txq A
  new_txq size = record { i = 0; q = make (if ltb size 1 then 1 else size) }

  -- `q[i] = tx`, within the slice.
  abbrev pub set_cell : ℕ → A → List (Option A) → List (Option A)
  set_cell i tx [] = []
  set_cell zero tx (c ∷ cs) = some tx ∷ cs
  set_cell (suc i) tx (c ∷ cs) = c ∷ set_cell i tx cs

  unfoldable pub append : A → Txq A → Txq A
  append tx o = if ltb o.i (length o.q) then record { i = o.i + 1; q = set_cell o.i tx o.q } else o

  abbrev pub first_cells : ℕ → List (Option A) → List (Option A)
  first_cells zero cs = []
  first_cells (suc n) [] = []
  first_cells (suc n) (c ∷ cs) = c ∷ first_cells n cs

  -- The slice that is returned shares its cells with the queue; its one caller reads it before the
  -- next write.
  unfoldable pub get_txs : Txq A → List (Option A) × Txq A
  get_txs o = (first_cells o.i o.q, record o { i = 0 })

  unfoldable pub is_full : Txq A → Bool
  is_full o = length o.q == o.i

  unfoldable pub size : Txq A → ℕ
  size o = o.i

  unfoldable pub reset : Txq A → Txq A
  reset o = record o { i = 0 }
