-- ===== src/Base/Int64.antt =====
-- Go's `int64`: an integer between -2^63 and 2^63 - 1; sums and differences wrap around modulo 2^64.
use mileage_core.Base.Tests.{ltb, Bool-cases, if◌then◌else◌}
use mathlib.Core.Logic.{inl, inr}
use mileage_core.Base.Int.{
  ℤ, pos, negsuc, ◌+ℤ◌, ◌-ℤ◌, ◌≤ℤ◌, ◌<ℤ◌, pos_part, neg_part, int_laws, eq_of_parts,
}
use Prim.Native.Nat.{ℕ, ◌+◌, ◌-◌, ◌*◌, ◌/◌, ◌%◌, ◌^◌}
use mathlib.Core.Path.{◌≡◌}
use native.Mathlib.Omega.{arith}

-- The two's complement bits of an integer, as a number below 2^64.
unfoldable pub word : ℤ → ℕ
word (pos n) = n % 2 ^ 64
word (negsuc n) = 2 ^ 64 - 1 - n % 2 ^ 64

-- The integer that 64 bits stand for.
unfoldable pub of_word : ℕ → ℤ
of_word w = if ltb w (2 ^ 63) then pos w else negsuc (2 ^ 64 - 1 - w)

unfoldable pub wrap64 : ℤ → ℤ
unfolding word of_word
wrap64 z = of_word (word z)

abbrev pub IsInt64 : ℤ → Type 0
IsInt64 z = (z ≤ℤ pos (2 ^ 63 - 1)) × (negsuc (2 ^ 63 - 1) ≤ℤ z)

pub wrap64-IsInt64 : (z : ℤ) → IsInt64 (wrap64 z)
unfolding wrap64
wrap64-IsInt64 (pos n) = ground arith
wrap64-IsInt64 (negsuc n) = ground arith

pub wrap64_self : (z : ℤ) → IsInt64 z → wrap64 z ≡ z
unfolding wrap64
wrap64_self (pos n) h = ground arith
wrap64_self (negsuc n) h = ground arith

-- Wrapping changes an integer by a multiple of 2^64.
wrap64_lem :
    (z : ℤ)
    → (k : ℕ) × (l : ℕ) × (pos_part (wrap64 z) + neg_part z + k * 2 ^ 64
        ≡ neg_part (wrap64 z) + pos_part z + l * 2 ^ 64)
unfolding wrap64
wrap64_lem (pos n) = elim (Bool-cases (ltb (n % 2 ^ 64) (2 ^ 63))) [
  | inl low ↦ (n / 2 ^ 64, 0, ground arith)
  | inr high ↦ (n / 2 ^ 64 + 1, 0, ground arith)
]
wrap64_lem (negsuc n) = elim (Bool-cases (ltb (2 ^ 64 - 1 - n % 2 ^ 64) (2 ^ 63))) [
  | inl low ↦ (0, n / 2 ^ 64 + 1, ground arith)
  | inr high ↦ (0, n / 2 ^ 64, ground arith)
]

-- Integers that differ by a multiple of 2^64 wrap to the same value.
wrap64-eq :
    (a b : ℤ) (k l : ℕ)
    → pos_part a + neg_part b + k * 2 ^ 64 ≡ pos_part b + neg_part a + l * 2 ^ 64
    → wrap64 a ≡ wrap64 b
wrap64-eq a b k l h =
    let (ka, la, ea) = wrap64_lem a in
    let (kb, lb, eb) = wrap64_lem b in
    eq_of_parts (wrap64 a) (wrap64 b) (omega (arith, wrap64-IsInt64 a, wrap64-IsInt64 b))

pub wrap64-wrap64-add : (a b : ℤ) → wrap64 (wrap64 a +ℤ b) ≡ wrap64 (a +ℤ b)
wrap64-wrap64-add a b =
    let (k, l, e) = wrap64_lem a in wrap64-eq (wrap64 a +ℤ b) (a +ℤ b) k l (omega int_laws)

pub wrap64-wrap64-sub : (a b : ℤ) → wrap64 (wrap64 a -ℤ b) ≡ wrap64 (a -ℤ b)
wrap64-wrap64-sub a b =
    let (k, l, e) = wrap64_lem a in wrap64-eq (wrap64 a -ℤ b) (a -ℤ b) k l (omega int_laws)

-- Above the largest int64 the wrapped value is negative.
pub wrap64_over : (z : ℤ) → pos (2 ^ 63 - 1) <ℤ z → z ≤ℤ pos (2 ^ 64 - 1) → wrap64 z <ℤ pos 0
unfolding wrap64
wrap64_over (pos n) over below = ground arith
wrap64_over (negsuc n) over below = absurd (omega arith)
