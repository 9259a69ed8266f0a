-- ===== src/Prelude/Signed.antt =====
-- Integers over the native numbers, under the library's names, for durations.
use Prim.Native.Nat.{ℕ, suc, ◌+◌, ◌-◌, ◌≤◌}
use native.Mathlib.Omega.{arith}
use colca.Prelude.Tests.{leb, if◌then◌else◌}

pub data ℤ : Type 0 where
  pos : ℕ → ℤ
  negsuc : ℕ → ℤ

-- The difference of two natural numbers.
infixl 30 ◌⊖◌
unfoldable pub ◌⊖◌ : ℕ → ℕ → ℤ
m ⊖ n = if leb n m then pos (m - n) else negsuc (n - m - 1)

-- max(z, 0)
abbrev pub to_nat : ℤ → ℕ
to_nat (pos n) = n
to_nat (negsuc n) = 0

abbrev pub abs : ℤ → ℕ
abs (pos n) = n
abs (negsuc n) = suc n

-- The integer is within `d` of the difference of `p` and `l`.
abbrev pub IsWithin : ℕ → ℤ → ℕ → ℕ → Type 0
IsWithin d (pos n) p l = (n + l ≤ p + d) × (p ≤ n + l + d)
IsWithin d (negsuc n) p l = (l ≤ p + suc n + d) × (p + suc n ≤ l + d)

pub ⊖-IsWithin : (d m n p l : ℕ) → m + l ≤ n + p + d → n + p ≤ m + l + d → IsWithin d (m ⊖ n) p l
unfolding ◌⊖◌
⊖-IsWithin d m n p l h k = ground arith
