-- ===== src/Buffer/Powers.antt =====
-- Powers of two, and the test `num & (num - 1)` for them.
use Prim.Native.Nat.{bit_and, bit_and-bitwise, digits, min, two}
use native.Mathlib.Nat.{two-pow-succ, one-le-pow}
use tools.Base.{
  ℕ, zero, suc, ◌+◌, ◌-◌, ◌*◌, ◌/◌, ◌%◌, ◌^◌, ◌≤◌, ◌<◌, ◌≡◌, ◌⊎◌, ◌∙◌, refl, arith, inl, inr, ltb,
  Bool-cases,
}

digits-none : (n a b : ℕ) → a ≡ 0 → digits (λ _. zero) min n a b ≡ 0
digits-none zero a b e = refl
digits-none (suc n) zero b e = refl
digits-none (suc n) (suc a) b e = omega (arith, e)

min-none : (x y : ℕ) → (x ≡ 0) ⊎ (y ≡ 0) → min x y ≡ 0
min-none x y h = omega (arith, h)

-- the digits of a power of two and of the number below it have no 1 in common
digits-power : (n k a b : ℕ) → a ≡ 2 ^ k → suc b ≡ a → digits (λ _. zero) min n a b ≡ 0
digits-power zero k a b e h = refl
digits-power (suc n) k zero b e h = refl
digits-power (suc n) zero (suc a) b e h =
    let high : digits (λ _. zero) min n (suc a / two) (b / two) ≡ 0 =
      digits-none n (suc a / two) (b / two) (omega (arith, e)) in
    let low : min (suc a % two) (b % two) ≡ 0 = min-none _ (b % two) (inr (omega (arith, e, h))) in
    omega (arith, high, low)
digits-power (suc n) (suc k) (suc a) b e h =
    let high : digits (λ _. zero) min n (suc a / two) (b / two) ≡ 0 =
      digits-power n k (suc a / two) (b / two) (omega (arith, e, two-pow-succ k))
        (omega (arith, e, h, two-pow-succ k)) in
    let low : min (suc a % two) (b % two) ≡ 0 =
      min-none (suc a % two) _ (inl (omega (arith, e, two-pow-succ k))) in
    omega (arith, high, low)

pub bit_and-power : (k : ℕ) → bit_and (2 ^ k) (2 ^ k - 1) ≡ 0
bit_and-power k =
    bit_and-bitwise (2 ^ k) (2 ^ k - 1)
    ∙ digits-power (2 ^ k) k (2 ^ k) (2 ^ k - 1) refl (omega (arith, one-le-pow k 2 (omega arith)))

-- between a positive number and its double there is a power of two
pub next_power : (n : ℕ) → (k : ℕ) × (n + 1 < 2 ^ k) × (2 ^ k ≤ 2 * (n + 1))
next_power zero = (1, omega arith, omega arith)
next_power (suc n) =
    let (k, below, above) = next_power n in
    elim (Bool-cases (ltb (suc n + 1) (2 ^ k))) [
      | inl e ↦ (k, ground (arith, e), omega (arith, above))
      | inr e ↦ (
        suc k,
        ground (arith, e, below, two-pow-succ k),
        ground (arith, e, below, two-pow-succ k),
      )
    ]
