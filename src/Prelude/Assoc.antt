-- ===== src/Prelude/Assoc.antt =====
-- Go's `map` as an association list. A map is read, written and deleted from by key; a `range`
-- over it is a walk of the list, so a theorem about every list holds for every order of the walk.
use mathlib.Core.Path.{◌≡◌, refl, ap}
use mathlib.Core.Bool.{Bool, true, false}
use mathlib.Core.Option.{Option, none, some}
use mathlib.Core.List.{List, [], ◌∷◌}
use native.Mathlib.Omega.{arith}
use mathlib.Core.Logic.{inl, inr}
use client_sdk.Prelude.Tests.{if◌then◌else◌, Bool-cases}
use client_sdk.Prelude.Equality.{Eq, ◌==◌}

abbrev pub Map {ℓ κ} : Type ℓ → Type κ → Type (ℓ ⊔ κ)
Map K V = List (K × V)

module _ {ℓ κ} {K : Type ℓ} {V : Type κ} where
  -- `for k, v := range m { if !p(k, v) { delete(m, k) } }`
  unfoldable pub keep_entries : (K → V → Bool) → Map K V → Map K V
  keep_entries p [] = []
  keep_entries p ((k, v) ∷ m) = if p k v then (k, v) ∷ keep_entries p m else keep_entries p m

  unfoldable pub keys : Map K V → List K
  keys [] = []
  keys ((k, v) ∷ m) = k ∷ keys m

module _ {ℓ κ} {K : Type ℓ} {V : Type κ} ⦃e : Eq K⦄ where
  -- `v, ok := m[k]`
  unfoldable pub lookup : K → Map K V → Option V
  lookup key [] = none
  lookup key ((held, value) ∷ rest) = if held == key then some value else lookup key rest

  -- `_, ok := m[k]`
  unfoldable pub has_key : K → Map K V → Bool
  unfolding lookup
  has_key key m = elim (lookup key m) [ none ↦ false | some _ ↦ true ]

  -- `m[k] = v`
  unfoldable pub insert : K → V → Map K V → Map K V
  insert key new [] = (key, new) ∷ []
  insert key new ((held, value) ∷ rest) =
      if held == key then (key, new) ∷ rest else (held, value) ∷ insert key new rest

  -- `delete(m, k)`
  unfoldable pub delete : K → Map K V → Map K V
  delete key [] = []
  delete key ((held, value) ∷ rest) =
      if held == key then delete key rest else (held, value) ∷ delete key rest

  pub lookup-delete :
      (key asked : K) (m : Map K V)
      → lookup asked (delete key m) ≡ (if key == asked then none else lookup asked m)
  unfolding lookup delete
  lookup-delete key asked [] = ground arith
  lookup-delete key asked ((held, value) ∷ rest) = ground (
    arith,
    lookup-delete key asked rest,
    e.same_iff held key,
    e.same_iff key asked,
    e.same_iff held asked,
  )

  pub lookup-insert :
      (key asked : K) (new : V) (m : Map K V)
      → lookup asked (insert key new m) ≡ (if key == asked then some new else lookup asked m)
  unfolding lookup insert
  lookup-insert key asked new [] = refl
  lookup-insert key asked new ((held, value) ∷ rest) = ground (
    arith,
    lookup-insert key asked new rest,
    e.same_iff held key,
    e.same_iff key asked,
    e.same_iff held asked,
  )

  -- Of a map cleaned by a test on the key.
  pub lookup-keep_entries :
      (p : K → Bool) (j : K) (m : Map K V)
      → lookup j (keep_entries (λ k _. p k) m) ≡ (if p j then lookup j m else none)
  unfolding lookup keep_entries
  lookup-keep_entries p j [] = ground arith
  lookup-keep_entries p j ((i, w) ∷ m) = elim (Bool-cases (i == j)) [
    | inl same ↦
        let q : i ≡ j = (e.same_iff i j).0 same in ground (arith, ap p q, lookup-keep_entries p j m)
    | inr other ↦ ground (arith, lookup-keep_entries p j m)
  ]

  -- No key stands twice.
  abbrev pub KeysDistinct : Map K V → Type κ
  KeysDistinct [] = Unit {κ}
  KeysDistinct ((held, value) ∷ rest) = (lookup held rest ≡ none) × KeysDistinct rest

  pub insert-KeysDistinct :
      (key : K) (new : V) (m : Map K V) → KeysDistinct m → KeysDistinct (insert key new m)
  unfolding insert lookup
  insert-KeysDistinct key new [] d = (refl, tt)
  insert-KeysDistinct key new ((held, value) ∷ rest) d = elim (Bool-cases (held == key)) [
    | inl here ↦ let q : held ≡ key = (e.same_iff held key).0 here in rw here (rw (← q) d)
    | inr other ↦ rw other (
      ground (arith, lookup-insert key held new rest, e.same_iff held key, e.same_iff key held),
      insert-KeysDistinct key new rest d.1,
    )
  ]
