-- ===== src/Scanner/Numbers.antt =====
-- number, hex and binary of as-c/src/scanner.c. The characters are those of the file from the
-- lookahead `ch` on, each converted to an int, by its 32-bit pattern, and at their end `ch` is
-- CH_EOF. `ival` is an int, by its 32-bit pattern, and
-- wraps around.
use tools.Base.{
  ℕ, ◌+◌, ◌-◌, ◌*◌, ◌%◌, Bool, false, ◌&&◌, ◌||◌, List, [], ◌∷◌, leb, ◌==◌, if◌then◌else◌, int_mod,
}

-- the characters from `from` to `to`
abbrev pub between : ℕ → ℕ → ℕ → Bool
between from to ch = leb from ch && leb ch to

-- `ch - n`
abbrev pub minus_char : ℕ → ℕ → ℕ
minus_char ch n = (ch + int_mod - n) % int_mod

-- CH_EOF, the char -1
abbrev ch_eof : ℕ
ch_eof = int_mod - 1

abbrev pub next_ival : ℕ → ℕ → ℕ → ℕ
next_ival base ival d = (base * ival + d) % int_mod

-- the rounds of a loop behind its first, with the value of a digit and the loop's condition
unfoldable pub digits_loop : ℕ → (ℕ → ℕ) → (ℕ → Bool) → ℕ → List ℕ → ℕ × List ℕ
digits_loop base digit more ival [] = (ival, [])
digits_loop base digit more ival (ch ∷ cs) =
    let rest = digits_loop base digit more (next_ival base ival (digit ch)) cs in
    if more ch then rest else (ival, ch ∷ cs)

-- The first round takes whatever character it finds.
abbrev pub first_digit : ℕ → (ℕ → ℕ) → (ℕ → Bool) → List ℕ → ℕ × List ℕ
first_digit base digit more [] = (next_ival base 0 (digit ch_eof), [])
first_digit base digit more (ch ∷ cs) = digits_loop base digit more (next_ival base 0 (digit ch)) cs

abbrev pub decimal_digit : ℕ → ℕ
decimal_digit ch = minus_char ch 48

abbrev pub is_decimal : ℕ → Bool
is_decimal ch = between 48 57 ch

-- '0' to '9', 'A' to 'F', and all else as from 'a' on
abbrev pub hex_digit : ℕ → ℕ
hex_digit ch =
    if between 48 57 ch
    then minus_char ch 48
    else if between 65 70 ch
    then (minus_char ch 65 + 10) % int_mod
    else (minus_char ch 97 + 10) % int_mod

abbrev pub is_hex : ℕ → Bool
is_hex ch = between 48 57 ch || (between 65 70 ch || between 97 102 ch)

abbrev pub is_binary : ℕ → Bool
is_binary ch = between 48 49 ch

-- whether the symbol is sREAL, and not sINTEGER
abbrev pub is_period : List ℕ → Bool
is_period [] = false
is_period (ch ∷ cs) = ch == 46

unfoldable pub number : List ℕ → Bool × ℕ × List ℕ
number cs =
    let (ival, rest) = first_digit 10 decimal_digit is_decimal cs in (is_period rest, ival, rest)

unfoldable pub hex : List ℕ → ℕ × List ℕ
hex cs = first_digit 16 hex_digit is_hex cs

unfoldable pub binary : List ℕ → ℕ × List ℕ
binary cs = first_digit 2 decimal_digit is_binary cs
