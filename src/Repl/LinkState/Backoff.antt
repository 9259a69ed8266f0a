-- ===== src/Repl/LinkState/Backoff.antt =====
-- internal/repl/linkstate.go: how long an unenrolled node waits.
use colca.Prelude.{
  ℕ, zero, suc, ◌+◌, ◌*◌, ◌/◌, ◌^◌, ◌≤◌, ◌<◌, min, max, false, ltb, ◌≡◌, refl, ap, ◌∙◌, arith,
  lt→ltb,
}
use native.Mathlib.Numerals.{unary_clauses}
use colca.Repl.LinkState.{
  UnenrolledBackoff, unenrolled_retry_min, unenrolled_retry_max, refused, accepted,
}

-- A backoff after refusals since the last accepted request: `n` of them counted, as they came when no wait
-- was running, the last of these at `t`. The jitter is at most half the delay.
pub data Refusals : ℕ → ℕ → UnenrolledBackoff → Type 0 where
  none_yet : (t : ℕ) → Refusals 0 t accepted
  ignored :
      (n t now jitter : ℕ) (b : UnenrolledBackoff)
      → Refusals n t b
      → now < b.until
      → Refusals n t (refused jitter now b)
  counted :
      (n t now jitter : ℕ) (b : UnenrolledBackoff)
      → Refusals n t b
      → b.until ≤ now
      → jitter ≤ (refused jitter now b).delay / 2
      → Refusals (suc n) now (refused jitter now b)

refused_ignored :
    (jitter now : ℕ) (b : UnenrolledBackoff) → now < b.until → refused jitter now b ≡ b
unfolding refused
refused_ignored jitter now b h = rw (lt→ltb now b.until h) refl

refused_counted :
    (jitter now : ℕ) (b : UnenrolledBackoff)
    → b.until ≤ now
    → refused jitter now b ≡ record {
      delay = min (max (2 * b.delay) unenrolled_retry_min) unenrolled_retry_max;
      until =
          now + (min (max (2 * b.delay) unenrolled_retry_min) unenrolled_retry_max / 2 + jitter);
    }
unfolding refused
refused_counted jitter now b h = let late : ltb now b.until ≡ false = ground arith in rw late refl

-- The delay of the n-th counted refusal.
pub nth_delay : ℕ → ℕ
nth_delay zero = 0
nth_delay (suc n) = min (2 ^ n * 10 ^ 9) (10 * 10 ^ 9)

pow_suc : (n : ℕ) → 2 ^ suc n ≡ 2 * 2 ^ n
pow_suc n = simp unary_clauses (omega arith)

pow_pos : (n : ℕ) → 1 ≤ 2 ^ n
pow_pos zero = omega arith
pow_pos (suc n) = omega (arith, pow_suc n, pow_pos n)

next_delay :
    (n : ℕ)
    → min (max (2 * nth_delay n) unenrolled_retry_min) unenrolled_retry_max ≡ nth_delay (suc n)
unfolding nth_delay
next_delay zero = omega arith
next_delay (suc n) =
    let this : nth_delay (suc n) ≡ min (2 ^ n * 10 ^ 9) (10 * 10 ^ 9) = refl in
    let next : nth_delay (suc (suc n)) ≡ min (2 ^ suc n * 10 ^ 9) (10 * 10 ^ 9) = refl in
    omega (arith, this, next, pow_suc n, pow_pos n)

-- The hold that a counted refusal leaves.
IsHolding : ℕ → ℕ → UnenrolledBackoff → Type 0
IsHolding zero t b = Unit
IsHolding (suc n) t b = (t + b.delay / 2 ≤ b.until) × (b.until ≤ t + b.delay)

Refusals-holds :
    (n t : ℕ) (b : UnenrolledBackoff) → Refusals n t b → (b.delay ≡ nth_delay n) × IsHolding n t b
unfolding IsHolding nth_delay
Refusals-holds _ _ _ (none_yet t) = (refl, tt)
Refusals-holds _ _ _ (ignored n t now jitter b r h) =
    rw (refused_ignored jitter now b h) (Refusals-holds n t b r)
Refusals-holds _ _ _ (counted n t now jitter b r h j) =
    let before = (Refusals-holds n t b r).0 in
    let eq = refused_counted jitter now b h in
    let delay_is : (refused jitter now b).delay ≡ nth_delay (suc n) =
      ap (λ x. x.delay) eq ∙ rw before (next_delay n) in
    let until_is : (refused jitter now b).until
        ≡ now + ((refused jitter now b).delay / 2 + jitter) =
      rw eq refl in
    (delay_is, (omega (arith, until_is), omega (arith, until_is, j)))

-- The waits of an unenrolled node double from one second to ten. After `n` counted refusals, the last at `t`, and
-- any that came while a wait was running, the delay is 2ⁿ⁻¹ seconds but at most ten, and requests are held
-- back until between half the delay and the whole of it after `t`.
pub Refusals-delay :
    (n t : ℕ) (b : UnenrolledBackoff)
    → Refusals (suc n) t b
    → (b.delay ≡ nth_delay (suc n)) × (t + b.delay / 2 ≤ b.until) × (b.until ≤ t + b.delay)
unfolding IsHolding
Refusals-delay n t b r =
    let (delay_is, holding) = Refusals-holds (suc n) t b r in (delay_is, holding.0, holding.1)
