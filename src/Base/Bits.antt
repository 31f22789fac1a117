-- ===== src/Base/Bits.antt =====
-- `&`, `|` and `^` as arithmetic.
use Prim.Native.Nat.{ℕ, zero, suc, ◌+◌, ◌-◌, ◌*◌, ◌/◌, ◌%◌, ◌^◌, ◌<◌, ◌≤◌, min, max}
use Prim.Native.Nat.{bit_and, bit_or, bit_xor}
use mathlib.Core.Logic.{◌≢◌}
use mathlib.Core.Path.{◌≡◌, refl, ap}
use native.Mathlib.Nat.{pow-suc, one-le-pow, div-div-eq-div-mul}
use native.Mathlib.Omega.{arith}
use sserialize.Base.Digits.{bit_or_step, bit_and_step, bit_xor_step, bit_and_self}
pub use sserialize.Base.Digits.{bit_or-zero, bit_and-zero, bit_xor-zero, zero-bit_or, zero-bit_xor}

pub shifted_twice : (q k : ℕ) → q * 2 ^ suc k ≡ 2 * (q * 2 ^ k)
shifted_twice q k = omega (arith, ap (λ (t : ℕ). q * t) (pow-suc 2 k))

pub pow-add : (a b : ℕ) → 2 ^ (a + b) ≡ 2 ^ a * 2 ^ b
pow-add a zero = let e : a + 0 ≡ a = omega arith in rw e (omega arith)
pow-add a (suc b) =
    let e : a + suc b ≡ suc (a + b) = omega arith in
    rw e (omega (arith, pow-add a b, pow-suc 2 (a + b), shifted_twice (2 ^ a) b))

-- `s >> (k + b)` is `s >> k >> b`.
pub shift-add : (s k b : ℕ) → s / 2 ^ (k + b) ≡ s / 2 ^ k / 2 ^ b
shift-add s k b = rw (div-div-eq-div-mul, pow-add k b)

-- Disjoint fields are added by `|`.
pub bit_or_fields : (n x low : ℕ) → low < 2 ^ n → bit_or (x * 2 ^ n) low ≡ x * 2 ^ n + low
bit_or_fields zero x low h = ground (arith, bit_or-zero x)
bit_or_fields (suc n) x low h =
    let rest = bit_or_fields n x (low / 2) (omega (arith, pow-suc 2 n)) in
    let digit = bit_or_step (x * 2 ^ suc n) low in
    ground (arith, rest, digit, shifted_twice x n, pow-suc 2 n)

bit_and_fields : (n x low : ℕ) → low < 2 ^ n → bit_and (x * 2 ^ n + low) (2 ^ n - 1) ≡ low
bit_and_fields zero x low h = ground (arith, bit_and-zero (x * 1 + low))
bit_and_fields (suc n) x low h =
    let rest = bit_and_fields n x (low / 2) (omega (arith, pow-suc 2 n)) in
    let digit = bit_and_step (x * 2 ^ suc n + low) (2 ^ suc n - 1) in
    ground (arith, rest, digit, shifted_twice x n, pow-suc 2 n)

-- Masking the `k` low bits is taking the remainder.
pub bit_and_mask : (n x : ℕ) → bit_and x (2 ^ n - 1) ≡ x % 2 ^ n
bit_and_mask n x =
    let split = bit_and_fields n (x / 2 ^ n) (x % 2 ^ n) in ground (arith, split, one-le-pow n 2)

-- The binary digit of `a` at position `i`.
abbrev pub bit : ℕ → ℕ → ℕ
bit a zero = a % 2
bit a (suc i) = bit (a / 2) i

pub bit_lt : (a i : ℕ) → bit a i < 2
bit_lt a zero = omega arith
bit_lt a (suc i) = bit_lt (a / 2) i

pub bit-zero : (i : ℕ) → bit 0 i ≡ 0
bit-zero zero = refl
bit-zero (suc i) = bit-zero i

pub bit-bit_or : (a b i : ℕ) → bit (bit_or a b) i ≡ max (bit a i) (bit b i)
bit-bit_or a b zero = omega (arith, bit_or_step a b)
bit-bit_or a b (suc i) =
    let e : bit_or a b / 2 ≡ bit_or (a / 2) (b / 2) = omega (arith, bit_or_step a b) in
    rw e (bit-bit_or (a / 2) (b / 2) i)

pub bit-bit_and : (a b i : ℕ) → bit (bit_and a b) i ≡ min (bit a i) (bit b i)
bit-bit_and a b zero = omega (arith, bit_and_step a b)
bit-bit_and a b (suc i) =
    let e : bit_and a b / 2 ≡ bit_and (a / 2) (b / 2) = omega (arith, bit_and_step a b) in
    rw e (bit-bit_and (a / 2) (b / 2) i)

-- A single set bit.
pub bit-pow_self : (i : ℕ) → bit (2 ^ i) i ≡ 1
bit-pow_self zero = refl
bit-pow_self (suc i) =
    let e : 2 ^ suc i / 2 ≡ 2 ^ i = omega (arith, pow-suc 2 i) in rw e (bit-pow_self i)

pub bit-pow_ne : (i j : ℕ) → i ≢ j → bit (2 ^ i) j ≡ 0
bit-pow_ne zero zero h = absurd (h refl)
bit-pow_ne zero (suc j) h = bit-zero j
bit-pow_ne (suc i) zero h = omega (arith, pow-suc 2 i)
bit-pow_ne (suc i) (suc j) h =
    let e : 2 ^ suc i / 2 ≡ 2 ^ i = omega (arith, pow-suc 2 i) in
    rw e (bit-pow_ne i j (λ e'. h (ap suc e')))

-- All bits at or above `k` are clear below `2 ^ k`.
pub bit-eq-zero : (k a i : ℕ) → a < 2 ^ k → k ≤ i → bit a i ≡ 0
bit-eq-zero zero a i h le = let e : a ≡ 0 = omega arith in rw e (bit-zero i)
bit-eq-zero (suc k) a zero h le = absurd (omega arith)
bit-eq-zero (suc k) a (suc i) h le =
    bit-eq-zero k (a / 2) i (omega (arith, pow-suc 2 k)) (omega arith)

-- Numbers below `2 ^ k` with the same first `k` bits are equal.
pub bit_ext : (k a b : ℕ) → a < 2 ^ k → b < 2 ^ k → ((i : ℕ) → i < k → bit a i ≡ bit b i) → a ≡ b
bit_ext zero a b ha hb h = omega arith
bit_ext (suc k) a b ha hb h = omega (
  arith,
  h 0 (omega arith),
  bit_ext k (a / 2) (b / 2) (omega (arith, pow-suc 2 k)) (omega (arith, pow-suc 2 k))
      (λ i p. h (suc i) (omega arith)),
)

pub bit-bit_xor : (a b i : ℕ) → bit (bit_xor a b) i ≡ (bit a i + bit b i) % 2
bit-bit_xor a b zero = omega (arith, bit_xor_step a b)
bit-bit_xor a b (suc i) =
    let e : bit_xor a b / 2 ≡ bit_xor (a / 2) (b / 2) = omega (arith, bit_xor_step a b) in
    rw e (bit-bit_xor (a / 2) (b / 2) i)

-- A test of one bit.
pub bit_and-pow : (a i : ℕ) → bit_and a (2 ^ i) ≡ bit a i * 2 ^ i
bit_and-pow a zero = omega (arith, bit_and_step a 1, bit_and-zero (a / 2))
bit_and-pow a (suc i) =
    let e : 2 ^ suc i / 2 ≡ 2 ^ i = omega (arith, pow-suc 2 i) in
    omega (
      arith,
      pow-suc 2 i,
      shifted_twice (bit (a / 2) i) i,
      bit_and-pow (a / 2) i,
      (rw e at (bit_and_step a (2 ^ suc i))),
    )

-- `~b` in `n` bits.
pub bit-complement : (n b i : ℕ) → b < 2 ^ n → i < n → bit (2 ^ n - 1 - b) i ≡ 1 - bit b i
bit-complement zero b i hb hi = absurd (omega arith)
bit-complement (suc n) b zero hb hi = omega (arith, pow-suc 2 n)
bit-complement (suc n) b (suc i) hb hi =
    let e : (2 ^ suc n - 1 - b) / 2 ≡ 2 ^ n - 1 - b / 2 = omega (arith, pow-suc 2 n) in
    rw e (bit-complement n (b / 2) i (omega (arith, pow-suc 2 n)) (omega arith))

-- The digits of a number from one on are among its digits.
pub bit_and-high : (s n : ℕ) → bit_and (n / 2 ^ s * 2 ^ s) n ≡ n / 2 ^ s * 2 ^ s
bit_and-high zero n = let e : n / 1 * 1 ≡ n = omega arith in rw e (bit_and_self n)
bit_and-high (suc s) n =
    let rest = bit_and-high s (n / 2) in
    let q = n / 2 ^ suc s in
    let t = q * 2 ^ s in
    let two : 2 * 2 ^ s ≡ 2 ^ suc s = omega (arith, pow-suc 2 s) in
    let d : n / 2 / 2 ^ s ≡ q = rw two at (div-div-eq-div-mul n 2 (2 ^ s)) in
    let ih : bit_and t (n / 2) ≡ t = rw d at rest in
    let h : 2 * t / 2 ≡ t = omega arith in
    let st : bit_and (2 * t) n ≡ min (2 * t % 2) (n % 2) + 2 * bit_and t (n / 2) =
      rw h at (bit_and_step (2 * t) n) in
    rw (shifted_twice q s) (omega (arith, st, ih))
