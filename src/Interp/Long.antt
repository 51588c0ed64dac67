-- ===== src/Interp/Long.antt =====
-- The C type long, by its 64-bit pattern, a number below 2 ^ 64. What the C standard leaves
-- undefined and the processor traps is `none`.
use tools.Base.{
  ℕ, ◌+◌, ◌-◌, ◌*◌, ◌/◌, ◌%◌, ◌^◌, Bool, true, false, ◌&&◌, ◌||◌, not, Option, none, some, ltb, leb,
  ◌==◌, if◌then◌else◌,
}

abbrev pub long_mod : ℕ
long_mod = 0x1_0000_0000_0000_0000

abbrev pub half : ℕ
half = 0x8000_0000_0000_0000

abbrev pub is_negative : ℕ → Bool
is_negative a = leb half a

abbrev pub long_neg : ℕ → ℕ
long_neg a = (long_mod - a) % long_mod

abbrev pub magnitude : ℕ → ℕ
magnitude a = if is_negative a then long_neg a else a

abbrev pub with_sign : Bool → ℕ → ℕ
with_sign negative n = if negative then long_neg n else n

abbrev pub differ : Bool → Bool → Bool
differ true b = not b
differ false b = b

abbrev pub long_add : ℕ → ℕ → ℕ
long_add a b = (a + b) % long_mod

abbrev pub long_sub : ℕ → ℕ → ℕ
long_sub a b = (a + long_mod - b) % long_mod

abbrev pub long_mul : ℕ → ℕ → ℕ
long_mul a b = a * b % long_mod

-- a division by 0, and that of the least long by -1
abbrev pub traps : ℕ → ℕ → Bool
traps a b = (b == 0) || ((a == half) && (b == long_mod - 1))

unfoldable pub long_div : ℕ → ℕ → Option ℕ
long_div a b =
    if traps a b
    then none
    else some (with_sign (differ (is_negative a) (is_negative b)) (magnitude a / magnitude b))

-- The remainder has the sign of the dividend.
unfoldable pub long_rem : ℕ → ℕ → Option ℕ
long_rem a b =
    if traps a b then none else some (with_sign (is_negative a) (magnitude a % magnitude b))

unfoldable pub shift_left : ℕ → ℕ → Option ℕ
shift_left a b = if ltb b 64 then some (a * 2 ^ b % long_mod) else none

-- The sign is shifted in.
unfoldable pub shift_right : ℕ → ℕ → Option ℕ
shift_right a b =
    if ltb b 64
    then some (if is_negative a then long_mod - 1 - (long_mod - 1 - a) / 2 ^ b else a / 2 ^ b)
    else none

abbrev pub long_lt : ℕ → ℕ → Bool
long_lt a b = ltb ((a + half) % long_mod) ((b + half) % long_mod)

abbrev pub long_le : ℕ → ℕ → Bool
long_le a b = leb ((a + half) % long_mod) ((b + half) % long_mod)

abbrev pub truth : Bool → ℕ
truth b = if b then 1 else 0
