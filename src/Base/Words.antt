-- ===== src/Base/Words.antt =====
-- Machine words. A C `int` or `uint32_t` is its 32-bit pattern, a number below 2 ^ 32, so that the
-- conversions between the two change nothing; arithmetic wraps.
use Prim.Native.Nat.{ℕ, ◌+◌, ◌-◌, ◌%◌, ◌/◌}
use mathlib.Core.Bool.{Bool}
use rpmem.Base.Tests.{ltb, if◌then◌else◌}

-- The conversion of any wider value to `int` or `uint32_t`.
abbrev pub u32 : ℕ → ℕ
u32 n = n % 4294967296

abbrev pub u64 : ℕ → ℕ
u64 n = n % 18446744073709551616

abbrev pub add32 : ℕ → ℕ → ℕ
add32 a b = (a + b) % 4294967296

-- `-` on ℕ is truncated, so the modulus comes first; `b` is a pattern.
abbrev pub sub32 : ℕ → ℕ → ℕ
sub32 a b = (a + 4294967296 - b) % 4294967296

-- `a < b` on two ints: the sign bit is flipped, and the patterns are compared.
abbrev pub int_ltb : ℕ → ℕ → Bool
int_ltb a b = ltb ((a + 2147483648) % 4294967296) ((b + 2147483648) % 4294967296)

-- The conversion of an `int` to `size_t` or `off_t`: sign extension to 64 bits.
abbrev pub sext : ℕ → ℕ
sext a = if ltb a 2147483648 then a else a + 18446744069414584320

-- -1
abbrev pub minus_one : ℕ
minus_one = 4294967295

-- `a / b` on two ints, of which `b` is positive: the quotient is cut off towards 0.
abbrev pub int_div : ℕ → ℕ → ℕ
int_div a b = if ltb a 2147483648 then a / b else (4294967296 - (4294967296 - a) / b) % 4294967296
