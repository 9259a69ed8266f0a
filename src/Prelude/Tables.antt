-- ===== src/Prelude/Tables.antt =====
-- Go maps as association lists. A theorem holds for every order of the entries, as Go's maps have
-- none.
use Prim.Native.Nat.{◌+◌, ◌≤◌, ◌<◌, suc}
use mathlib.Core.Logic.{inl, inr}
use mathlib.Core.Path.{ap, ◌≡◌, refl}
use mathlib.Core.List.{List, [], ◌∷◌}
use mathlib.Core.Option.{Option, none, some}
use native.Mathlib.Omega.{arith}
use colca.Prelude.Tests.{if◌then◌else◌, Bool-cases, Eq}
use colca.Prelude.Lists.{length}

abbrev pub Table {ℓ κ} : Type ℓ → Type κ → Type (ℓ ⊔ κ)
Table K V = List (K × V)

module _ {ℓ κ} {K : Type ℓ} {V : Type κ} ⦃e : Eq K⦄ where
  -- m[k]
  unfoldable pub lookup : K → Table K V → Option V
  lookup k [] = none
  lookup k ((j, v) ∷ m) = if e.beq j k then some v else lookup k m

  -- m[k] = v
  unfoldable pub insert : K → V → Table K V → Table K V
  insert at new [] = (at, new) ∷ []
  insert at new ((key, old) ∷ table) =
      if e.beq key at then (key, new) ∷ table else (key, old) ∷ insert at new table

  -- delete(m, k)
  unfoldable pub erase : K → Table K V → Table K V
  erase k [] = []
  erase k ((j, v) ∷ m) = let rest = erase k m in if e.beq j k then rest else (j, v) ∷ rest

  pub lookup-insert :
      (at k : K) (new : V) (table : Table K V)
      → lookup k (insert at new table) ≡ (if e.beq at k then some new else lookup k table)
  unfolding insert lookup
  lookup-insert at k new [] = refl
  lookup-insert at k new ((key, old) ∷ table) =
      ground
        (lookup-insert at k new table, e.beq_iff at k, e.beq_iff key at, e.beq_iff key k, arith)

  pub lookup-erase :
      (k j : K) (m : Table K V) → lookup j (erase k m) ≡ (if e.beq k j then none else lookup j m)
  unfolding lookup erase
  lookup-erase k j [] = ground arith
  lookup-erase k j ((i, w) ∷ m) =
      ground (arith, e.beq_iff k j, e.beq_iff i k, e.beq_iff i j, lookup-erase k j m)

  pub length-insert-le : (k : K) (v : V) (m : Table K V) → length (insert k v m) ≤ length m + 1
  unfolding insert
  length-insert-le k v [] = omega arith
  length-insert-le k v ((j, w) ∷ m) = ground (arith, length-insert-le k v m)

  pub length-le-insert : (k : K) (v : V) (m : Table K V) → length m ≤ length (insert k v m)
  unfolding insert
  length-le-insert k v [] = omega arith
  length-le-insert k v ((j, w) ∷ m) = ground (arith, length-le-insert k v m)

  pub length-erase-le : (k : K) (m : Table K V) → length (erase k m) ≤ length m
  unfolding erase
  length-erase-le k [] = omega arith
  length-erase-le k ((j, w) ∷ m) = ground (arith, length-erase-le k m)

  pub length-insert-some :
      (k : K) (v w : V) (m : Table K V) → lookup k m ≡ some w → length (insert k v m) ≡ length m
  unfolding insert lookup
  length-insert-some k v w [] h = cc
  length-insert-some k v w ((j, u) ∷ m) h = elim (Bool-cases (e.beq j k)) [
    | inl q ↦ rw q refl
    | inr q ↦ rw q (ap suc (length-insert-some k v w m (rw q at h)))
  ]

  -- A map without keys is empty.
  pub table-empty : (m : Table K V) → ((k : K) → lookup k m ≡ none) → m ≡ []
  unfolding lookup
  table-empty [] h = refl
  table-empty ((j, v) ∷ m) h = absurd (ground (arith, h j, e.beq_iff j j))

  pub length-erase-some :
      (k : K) (w : V) (m : Table K V) → lookup k m ≡ some w → length (erase k m) < length m
  unfolding erase lookup
  length-erase-some k w [] h = cc
  length-erase-some k w ((j, u) ∷ m) h =
      ground (arith, length-erase-le k m, length-erase-some k w m)
