-- ===== src/Prelude/Maps.antt =====
-- Go maps that are only looked up, as functions from every key to the value or to what stands for none, and keys that
-- are pairs.
use mathlib.Core.Bool.{Bool, true, false, ◌&&◌}
use mathlib.Core.Path.{◌≡◌, refl, ap}
use mathlib.Core.Option.{Option, none, some}
use mathlib.Core.Logic.{◌↔◌}
use native.Mathlib.Omega.{arith}
use colca.Prelude.Tests.{Eq, and-eq-true, if◌then◌else◌}

module _ {ℓ κ} {A : Type ℓ} {B : Type κ} ⦃a : Eq A⦄ ⦃b : Eq B⦄ where
  unfoldable pub pair_beq : A × B → A × B → Bool
  pair_beq p q = a.beq p.0 q.0 && b.beq p.1 q.1

  pub pair_beq_iff : (p q : A × B) → (pair_beq p q ≡ true) ↔ (p ≡ q)
  unfolding pair_beq
  pair_beq_iff (x, y) (z, w) = (
    λ h.
        let (e, f) = and-eq-true (a.beq x z) (b.beq y w) h in
        let same_first : x ≡ z = (a.beq_iff x z).0 e in
        let same_second : y ≡ w = (b.beq_iff y w).0 f in cc (same_first, same_second),
    λ h. rw ((a.beq_iff x z).1 (ap (λ p. p.0) h), (b.beq_iff y w).1 (ap (λ p. p.1) h)) refl,
  )

  instance unfoldable pub pair_eq : Eq (A × B)
  unfolding pair_beq
  pair_eq = record { beq = pair_beq; beq_iff = pair_beq_iff }

module _ {ℓ κ} {K : Type ℓ} {V : Type κ} ⦃e : Eq K⦄ where
  -- m[at] = new
  unfoldable pub set_at : K → V → (K → V) → K → V
  set_at at new m k = if e.beq at k then new else m k

  pub set_at_same : (at : K) (new : V) (m : K → V) → set_at at new m at ≡ new
  unfolding set_at
  set_at_same at new m = rw ((e.beq_iff at at).1 refl) refl

  pub set_at_other : (at k : K) (new : V) (m : K → V) → e.beq at k ≡ false → set_at at new m k ≡ m k
  unfolding set_at
  set_at_other at k new m h = rw h refl

module _ {ℓ κ} {K : Type ℓ} {A : Type κ} ⦃e : Eq K⦄ where
  -- A map of pending values, with the default behind it, after a value is set under a condition.
  pub set_at-pending :
      (c : Bool) (at key : K) (n dflt : A) (m : K → Option A)
      → elim ((if c then set_at at (some n) m else m) key) as (λ _. A) [ some v ↦ v | none ↦ dflt ]
        ≡ (if c
            then (if e.beq at key then n else elim (m key) as (λ _. A) [ some v ↦ v | none ↦ dflt ])
            else elim (m key) as (λ _. A) [ some v ↦ v | none ↦ dflt ])
  unfolding set_at
  set_at-pending c at key n dflt m = ground arith
