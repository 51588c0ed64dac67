-- ===== src/Scanner/Digits.antt =====
-- The digits of a number, read by the scanner.
use tools.Base.{
  ℕ, zero, suc, ◌+◌, ◌*◌, ◌/◌, ◌%◌, ◌<◌, ◌≤◌, ◌≡◌, refl, ap, ◌∙◌, inl, inr, Bool, true, List, [],
  ◌∷◌, ltb, not, if◌then◌else◌, int_mod, Bool-cases, arith,
}
use tools.Scanner.Numbers.{
  next_ival, digits_loop, first_digit, decimal_digit, is_decimal, hex_digit, is_hex, is_binary,
  is_period, number, hex, binary,
}

-- the digits of `n` in front of others, the highest first; the fuel is enough if it is `n`
abbrev pub spelled : ℕ → (ℕ → ℕ) → ℕ → ℕ → List ℕ → List ℕ
spelled base char zero n cs = cs
spelled base char (suc fuel) n cs =
    let more = spelled base char fuel (n / base) (char (n % base) ∷ cs) in
    if ltb n base then char n ∷ cs else more

abbrev pub spell : ℕ → (ℕ → ℕ) → ℕ → List ℕ → List ℕ
spell base char n cs = spelled base char (suc n) n cs

abbrev pub stops : (ℕ → Bool) → List ℕ → Bool
stops more [] = true
stops more (ch ∷ cs) = not (more ch)

digits_loop-stops :
    (base : ℕ) (digit : ℕ → ℕ) (more : ℕ → Bool) (ival : ℕ) (cs : List ℕ)
    → stops more cs ≡ true
    → digits_loop base digit more ival cs ≡ (ival, cs)
unfolding digits_loop
digits_loop-stops base digit more ival [] h = refl
digits_loop-stops base digit more ival (ch ∷ cs) h = elim (Bool-cases (more ch)) [
  | inl e ↦ cc
  | inr e ↦ rw e refl
]

-- What the loop needs of a base and its digits.
abbrev IsBase : ℕ → (ℕ → ℕ) → (ℕ → Bool) → (ℕ → ℕ) → Type 0
IsBase base digit more char =
    ((d : ℕ) → d < base → (digit (char d) ≡ d) × (more (char d) ≡ true))
    × ((n : ℕ)
        → (base ≤ n → n / base < n)
          × (base * (n / base) + n % base ≡ n)
          × (n % base < base)
          × (base * 0 + n ≡ n))

module _ (base : ℕ) (digit : ℕ → ℕ) (more : ℕ → Bool) (char : ℕ → ℕ)
    (h : IsBase base digit more char) where
  digits_loop-char :
      (ival d : ℕ) (cs : List ℕ)
      → d < base
      → digits_loop base digit more ival (char d ∷ cs)
        ≡ digits_loop base digit more (next_ival base ival d) cs
  unfolding digits_loop
  digits_loop-char ival d cs k =
      let (e, m) = h.0 d k in
      rw m (ap (λ x. digits_loop base digit more (next_ival base ival x) cs) e)

  first_digit-spelled :
      (fuel n : ℕ) (cs : List ℕ)
      → n < fuel
      → n < int_mod
      → first_digit base digit more (spelled base char fuel n cs) ≡ digits_loop base digit more n cs
  first_digit-spelled zero n cs k small = absurd (omega (arith, k))
  first_digit-spelled (suc fuel) n cs k small = elim (Bool-cases (ltb n base)) [
    | inl e ↦
        let below : n < base = ground (arith, e) in
        let value : next_ival base 0 (digit (char n)) ≡ n =
          rw (h.0 n below).0 (rw ((h.1 n).3) (omega (arith, small))) in
        rw e (ap (λ x. digits_loop base digit more x cs) value)
    | inr e ↦
        let above : base ≤ n = ground (arith, e) in
        let smaller = (h.1 n).0 above in
        let value : next_ival base (n / base) (n % base) ≡ n =
          rw ((h.1 n).1) (omega (arith, small)) in
        rw e (
          first_digit-spelled fuel (n / base) (char (n % base) ∷ cs) (omega (arith, k, smaller))
            (omega (arith, small, smaller))
          ∙ digits_loop-char (n / base) (n % base) cs ((h.1 n).2)
          ∙ ap (λ x. digits_loop base digit more x cs) value)
  ]

  first_digit-spell :
      (n : ℕ) (cs : List ℕ)
      → n < int_mod
      → stops more cs ≡ true
      → first_digit base digit more (spell base char n cs) ≡ (n, cs)
  first_digit-spell n cs small end =
      first_digit-spelled (suc n) n cs (omega arith) small
      ∙ digits_loop-stops base digit more n cs end

-- the digits as they are written
abbrev pub decimal_char : ℕ → ℕ
decimal_char d = 48 + d

abbrev pub lower_char : ℕ → ℕ
lower_char d = if ltb d 10 then 48 + d else 87 + d

abbrev pub upper_char : ℕ → ℕ
upper_char d = if ltb d 10 then 48 + d else 55 + d

decimal-IsBase : IsBase 10 decimal_digit is_decimal decimal_char
decimal-IsBase = (λ d h. ground (arith, h), λ n. omega arith)

binary-IsBase : IsBase 2 decimal_digit is_binary decimal_char
binary-IsBase = (λ d h. ground (arith, h), λ n. omega arith)

lower-IsBase : IsBase 16 hex_digit is_hex lower_char
lower-IsBase = (λ d h. ground (arith, h), λ n. omega arith)

upper-IsBase : IsBase 16 hex_digit is_hex upper_char
upper-IsBase = (λ d h. ground (arith, h), λ n. omega arith)

stops-is_hex :
    (cs : List ℕ)
    → stops is_hex cs ≡ true
    → (stops is_decimal cs ≡ true) × (stops is_binary cs ≡ true)
stops-is_hex [] h = (refl, refl)
stops-is_hex (ch ∷ cs) h = ground (arith, h)

-- A number below 2 ^ 31 that is written in decimal, binary or hexadecimal digits, these in lower or
-- in upper case, and is not followed by a hexadecimal digit, is read back by number, binary or hex,
-- which stop behind it; number tells a real from an integer by a period there.
pub digits-spell :
    (n : ℕ) (cs : List ℕ)
    → n < 0x8000_0000
    → stops is_hex cs ≡ true
    → (number (spell 10 decimal_char n cs) ≡ (is_period cs, n, cs))
      × (binary (spell 2 decimal_char n cs) ≡ (n, cs))
      × (hex (spell 16 lower_char n cs) ≡ (n, cs))
      × (hex (spell 16 upper_char n cs) ≡ (n, cs))
unfolding number binary hex
digits-spell n cs small end =
    let k : n < int_mod = omega (arith, small) in
    let (d, b) = stops-is_hex cs end in
    (
      ap (λ (ival, rest). (is_period rest, ival, rest))
          (first_digit-spell 10 decimal_digit is_decimal decimal_char decimal-IsBase n cs k d),
      first_digit-spell 2 decimal_digit is_binary decimal_char binary-IsBase n cs k b,
      first_digit-spell 16 hex_digit is_hex lower_char lower-IsBase n cs k end,
      first_digit-spell 16 hex_digit is_hex upper_char upper-IsBase n cs k end,
    )
