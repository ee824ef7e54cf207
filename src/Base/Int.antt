-- ===== src/Base/Int.antt =====
-- Signed machine integers: Go's `int64` and `int` (64 bits) as integers with the wrap-around of
-- the one operation that the program applies to them, `x++`. `negsuc n` is -(n + 1).
use Prim.Native.Nat.{ℕ, zero, suc, ◌+◌, ◌-◌, ◌^◌, ◌<◌}
use mathlib.Core.Path.{◌≡◌}
use mathlib.Core.Logic.{◌↔◌, ◌≢◌}
use mathlib.Core.Bool.{Bool, true, false}
use native.Mathlib.Omega.{arith}
use tritontube.Base.Tests.{ltb, ◌==◌, if◌then◌else◌}

pub data ℤ : Type 0 where
  pos : ℕ → ℤ
  negsuc : ℕ → ℤ

abbrev pub Int64 : Type 0
Int64 = ℤ

abbrev pub max_int64 : ℕ
max_int64 = 2 ^ 63 - 1

-- `x++` on int64: the largest value wraps to the smallest.
unfoldable pub inc64 : Int64 → Int64
inc64 (pos n) = if n == max_int64 then negsuc max_int64 else pos (n + 1)
inc64 (negsuc zero) = pos 0
inc64 (negsuc (suc n)) = negsuc n

abbrev pub int_eq : ℤ → ℤ → Bool
int_eq (pos a) (pos b) = a == b
int_eq (negsuc a) (negsuc b) = a == b
int_eq _ _ = false

-- `x > 0` and `x >= 0`
abbrev pub is_pos : ℤ → Bool
is_pos (pos n) = ltb 0 n
is_pos (negsuc n) = false

abbrev pub is_nonneg : ℤ → Bool
is_nonneg (pos n) = true
is_nonneg (negsuc n) = false

abbrev pub pos_part : ℤ → ℕ
pos_part (pos n) = n
pos_part (negsuc n) = 0

pub int_eq_iff : (a b : ℤ) → (int_eq a b ≡ true) ↔ (a ≡ b)
int_eq_iff (pos a) (pos b) = ground arith
int_eq_iff (pos a) (negsuc b) = ground arith
int_eq_iff (negsuc a) (pos b) = ground arith
int_eq_iff (negsuc a) (negsuc b) = ground arith

-- Below the largest value `x++` adds one.
pub inc64_lem : (n : ℕ) → n < max_int64 → inc64 (pos n) ≡ pos (n + 1)
unfolding inc64
inc64_lem n h = ground arith

-- No value is its own successor, the wrapped one included.
pub inc64_ne : (a : ℤ) → int_eq (inc64 a) a ≡ false
unfolding inc64
inc64_ne (pos n) = ground arith
inc64_ne (negsuc zero) = ground arith
inc64_ne (negsuc (suc n)) = ground arith

pub int_eq_ne : (a b : ℤ) → a ≢ b → int_eq a b ≡ false
int_eq_ne a b h = ground (arith, int_eq_iff a b)
