-- ===== src/Base/Words.antt =====
-- A C `int` is its 32-bit pattern, a number below 2 ^ 32; `v >> k` followed by a conversion to
-- `uint8_t` takes the same bits from the pattern, `v / 2 ^ k % 256`.
use Prim.Native.Nat.{ℕ, ◌+◌, ◌-◌, ◌%◌}
use mathlib.Core.Bool.{Bool, ◌&&◌, ◌||◌}
use tools.Base.Tests.{ltb, leb}

abbrev pub int_mod : ℕ
int_mod = 0x1_0000_0000

-- the patterns of the negative numbers
abbrev pub is_neg : ℕ → Bool
is_neg v = leb 0x8000_0000 v

-- `v - a`, a long difference stored in an int
abbrev pub sub_int : ℕ → ℕ → ℕ
sub_int v a = (v + int_mod - a % int_mod) % int_mod

-- `a < k` and `a > k` for an int `a` and a non-negative constant `k`
abbrev pub int_lt : ℕ → ℕ → Bool
int_lt a k = is_neg a || ltb a k

abbrev pub int_gt : ℕ → ℕ → Bool
int_gt a k = ltb k a && ltb a 0x8000_0000
