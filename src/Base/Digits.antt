-- ===== src/Base/Digits.antt =====
-- What `&`, `|` and `^` do to the lowest binary digit, and what they do with 0.
use Prim.Native.Nat.{
  ℕ, zero, suc, ◌+◌, ◌*◌, ◌/◌, ◌%◌, ◌≤◌, ◌<◌, min, max, digits, bitwise, differ, bit_and, bit_or,
  bit_xor, bit_and-bitwise, bit_or-bitwise, bit_xor-bitwise,
}
use mathlib.Core.Path.{◌≡◌, refl}
use mathlib.Core.WellFounded
use native.Mathlib.Omega.{arith}
use sserialize.Base.Order.{lt_wf}

-- Any fuel that is not less than the first number gives the same digits.
module _ (last : ℕ → ℕ) (op : ℕ → ℕ → ℕ) where
  enough_fuel :
      (x y fuel more : ℕ) → x ≤ more → x ≤ fuel → digits last op more x y ≡ digits last op fuel x y
  enough_fuel zero y zero zero h k = refl
  enough_fuel zero y zero (suc more) h k = refl
  enough_fuel zero y (suc fuel) zero h k = refl
  enough_fuel zero y (suc fuel) (suc more) h k = refl
  enough_fuel (suc x) y zero more h k = absurd (omega arith)
  enough_fuel (suc x) y (suc fuel) zero h k = absurd (omega arith)
  enough_fuel (suc x) y (suc fuel) (suc more) h k =
      let half : suc x / 2 ≤ x = omega arith in
      omega (arith, enough_fuel (suc x / 2) (y / 2) fuel more (omega arith) (omega arith))

  bitwise-step :
      (x y : ℕ)
      → bitwise last op (suc x) y ≡ op (suc x % 2) (y % 2) + 2 * bitwise last op (suc x / 2) (y / 2)
  bitwise-step x y =
      omega (arith, enough_fuel (suc x / 2) (y / 2) (suc x / 2) x (omega arith) (omega arith))

-- On two digits.
differ_sum : (x y : ℕ) → x < 2 → y < 2 → differ x y ≡ (x + y) % 2
differ_sum zero y hx hy = omega arith
differ_sum (suc zero) zero hx hy = refl
differ_sum (suc zero) (suc zero) hx hy = refl
differ_sum (suc zero) (suc (suc y)) hx hy = absurd (omega arith)
differ_sum (suc (suc x)) y hx hy = absurd (omega arith)

pub bit_or_step : (x y : ℕ) → bit_or x y ≡ max (x % 2) (y % 2) + 2 * bit_or (x / 2) (y / 2)
bit_or_step zero y = simp bit_or-bitwise (omega arith)
bit_or_step (suc x) y = simp bit_or-bitwise (bitwise-step (λ t. t) max x y)

pub bit_and_step : (x y : ℕ) → bit_and x y ≡ min (x % 2) (y % 2) + 2 * bit_and (x / 2) (y / 2)
bit_and_step zero y = simp bit_and-bitwise (omega arith)
bit_and_step (suc x) y = simp bit_and-bitwise (bitwise-step (λ t. 0) min x y)

pub bit_xor_step : (x y : ℕ) → bit_xor x y ≡ (x % 2 + y % 2) % 2 + 2 * bit_xor (x / 2) (y / 2)
bit_xor_step zero y = simp bit_xor-bitwise (omega arith)
bit_xor_step (suc x) y =
    let d = differ_sum (suc x % 2) (y % 2) (omega arith) (omega arith) in
    simp bit_xor-bitwise (omega (arith, bitwise-step (λ t. t) differ x y, d))

-- Functions with the same lowest digit of the result at each number are the same.
module _ (g h low : ℕ → ℕ) (base : g 0 ≡ h 0) (dg : (x : ℕ) → g x ≡ low x + 2 * g (x / 2))
    (dh : (x : ℕ) → h x ≡ low x + 2 * h (x / 2)) where
  same_digits_step : (x : ℕ) → ((m : ℕ) → m < x → g m ≡ h m) → g x ≡ h x
  same_digits_step zero ih = base
  same_digits_step (suc n) ih = omega (arith, dg (suc n), dh (suc n), ih (suc n / 2) (omega arith))

  same_digits : (x : ℕ) → g x ≡ h x
  same_digits x = WellFounded.induction lt_wf x same_digits_step

pub bit_or-zero : (x : ℕ) → bit_or x 0 ≡ x
bit_or-zero =
    same_digits (λ x. bit_or x 0) (λ x. x) (λ x. x % 2) refl (λ x. omega (arith, bit_or_step x 0))
      (λ x. omega arith)

pub bit_and-zero : (x : ℕ) → bit_and x 0 ≡ 0
bit_and-zero =
    same_digits (λ x. bit_and x 0) (λ x. 0) (λ x. 0) refl (λ x. omega (arith, bit_and_step x 0))
      (λ x. omega arith)

pub bit_and_self : (x : ℕ) → bit_and x x ≡ x
bit_and_self =
    same_digits (λ x. bit_and x x) (λ x. x) (λ x. x % 2) refl (λ x. omega (arith, bit_and_step x x))
      (λ x. omega arith)

pub bit_xor-zero : (x : ℕ) → bit_xor x 0 ≡ x
bit_xor-zero =
    same_digits (λ x. bit_xor x 0) (λ x. x) (λ x. x % 2) refl (λ x. omega (arith, bit_xor_step x 0))
      (λ x. omega arith)

pub zero-bit_or : (x : ℕ) → bit_or 0 x ≡ x
zero-bit_or x = simp bit_or-bitwise refl

pub zero-bit_xor : (x : ℕ) → bit_xor 0 x ≡ x
zero-bit_xor x = simp bit_xor-bitwise refl
