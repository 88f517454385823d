-- ===== src/Base/Int.antt =====
-- C's `int`, as an integer over the native numbers.
use Prim.Native.Nat.{ℕ, zero, suc, ◌+◌, ◌-◌, ◌%◌, ◌^◌, ◌≤◌, ◌<◌}
use mathlib.Core.Path.{◌≡◌}
use mathlib.Core.Logic.{◌↔◌}
use mathlib.Core.Bool.{Bool, true}
use native.Mathlib.Omega.{arith}
use vcd.Base.Tests.{ltb, ◌==◌, if◌then◌else◌}

-- `negsuc n` is -(n + 1).
pub data ℤ : Type 0 where
  pos : ℕ → ℤ
  negsuc : ℕ → ℤ

abbrev pub pos_part : ℤ → ℕ
pos_part (pos n) = n
pos_part (negsuc n) = 0

abbrev pub neg_part : ℤ → ℕ
neg_part (pos n) = 0
neg_part (negsuc n) = suc n

infix 50 ◌<ℤ◌ ◌≤ℤ◌
abbrev pub ◌<ℤ◌ : ℤ → ℤ → Type 0
a <ℤ b = pos_part a + neg_part b < pos_part b + neg_part a

abbrev pub ◌≤ℤ◌ : ℤ → ℤ → Type 0
a ≤ℤ b = pos_part a + neg_part b ≤ pos_part b + neg_part a

abbrev pub ltb_ℤ : ℤ → ℤ → Bool
ltb_ℤ a b = ltb (pos_part a + neg_part b) (pos_part b + neg_part a)

abbrev pub eqb_ℤ : ℤ → ℤ → Bool
eqb_ℤ a b = pos_part a + neg_part b == pos_part b + neg_part a

pub eqb_ℤ_iff : (a b : ℤ) → (eqb_ℤ a b ≡ true) ↔ (a ≡ b)
eqb_ℤ_iff a b = ground arith

-- The value modulo 2^32 that an `int` holds; where C leaves an overflow open, it wraps.
unfoldable pub to_int : ℤ → ℤ
to_int (pos n) = let m = n % 2 ^ 32 in if ltb m (2 ^ 31) then pos m else negsuc (2 ^ 32 - m - 1)
to_int (negsuc n) = let m = n % 2 ^ 32 in if ltb m (2 ^ 31) then negsuc m else pos (2 ^ 32 - m - 1)

-- The value fits in an `int`.
abbrev pub is_int : ℤ → Bool
is_int (pos n) = ltb n (2 ^ 31)
is_int (negsuc n) = ltb n (2 ^ 31)

pub to_int-same : (z : ℤ) → is_int z ≡ true → to_int z ≡ z
unfolding to_int
to_int-same (pos n) h = ground arith
to_int-same (negsuc n) h = ground arith

-- `x + 1` in an `int`
unfoldable pub suc_int : ℤ → ℤ
suc_int (pos n) = to_int (pos (suc n))
suc_int (negsuc zero) = pos 0
suc_int (negsuc (suc n)) = to_int (negsuc n)

-- A uint32_t as `%d` prints it: as the `int` of the same 32 bits. No uint32_t is 2^32 or more.
unfoldable pub as_int : ℕ → ℤ
as_int n =
    if ltb n (2 ^ 31) then pos n else if ltb n (2 ^ 32) then negsuc (2 ^ 32 - n - 1) else pos n

pub as_int-small : (n : ℕ) → n < 2147483648 → as_int n ≡ pos n
unfolding as_int
as_int-small n h = ground arith

pub as_int-injective : (m n : ℕ) → as_int m ≡ as_int n → m ≡ n
unfolding as_int
as_int-injective m n e = ground arith
