-- ===== src/Base/Bytes.antt =====
-- `&` and `|` with one bit or on the two sides of a position, and on the values of a byte.
use Prim.Native.Nat.{ℕ, zero, suc, ◌+◌, ◌*◌, ◌/◌, ◌%◌, ◌^◌, ◌<◌, bit_and, bit_or, bit_or-bitwise}
use mathlib.Core.Path.{◌≡◌}
use native.Mathlib.Nat.{pow-suc}
use native.Mathlib.Omega.{arith}
use sserialize.Base.Digits.{bit_or_step, bit_and_step}
use sserialize.Base.Bits.{bit_or-zero, bit_and-zero, bit_and_mask, shifted_twice}

-- Setting bit `k` keeps the bits above and below it.
bit_or_bit :
    (k q d r : ℕ)
    → d < 2
    → r < 2 ^ k
    → bit_or (q * 2 ^ suc k + d * 2 ^ k + r) (2 ^ k) ≡ q * 2 ^ suc k + 2 ^ k + r
bit_or_bit zero q d r hd fits = omega (
  arith,
  bit_or_step (q * 2 ^ 1 + d * 2 ^ 0 + r) (2 ^ 0),
  bit_or-zero ((q * 2 ^ 1 + d * 2 ^ 0 + r) / 2),
)
bit_or_bit (suc k) q d r hd fits = ground (
  arith,
  bit_or_step (q * 2 ^ suc (suc k) + d * 2 ^ suc k + r) (2 ^ suc k),
  shifted_twice q (suc k),
  shifted_twice d k,
  pow-suc 2 k,
  bit_or_bit k q d (r / 2),
)

-- The byte that `x | 0x80` leaves.
pub set_top_bit : (a : ℕ) → bit_or a 0x80 % 256 ≡ a % 128 + 128
set_top_bit a = ground (arith, bit_or_bit 7 (a / 256) (a / 128 % 2) (a % 128))

-- Bit `k` alone.
bit_and_bit :
    (k q d r : ℕ) → d < 2 → r < 2 ^ k → bit_and (q * 2 ^ suc k + d * 2 ^ k + r) (2 ^ k) ≡ d * 2 ^ k
bit_and_bit zero q d r hd fits = omega (
  arith,
  bit_and_step (q * 2 ^ 1 + d * 2 ^ 0 + r) (2 ^ 0),
  bit_and-zero ((q * 2 ^ 1 + d * 2 ^ 0 + r) / 2),
)
bit_and_bit (suc k) q d r hd fits = ground (
  arith,
  bit_and_step (q * 2 ^ suc (suc k) + d * 2 ^ suc k + r) (2 ^ suc k),
  shifted_twice q (suc k),
  shifted_twice d k,
  pow-suc 2 k,
  bit_and_bit k q d (r / 2),
)

pub top_bit : (a : ℕ) → bit_and a 0x80 ≡ a / 128 % 2 * 128
top_bit a = ground (arith, bit_and_bit 7 (a / 256) (a / 128 % 2) (a % 128))

pub low_bits : (a : ℕ) → bit_and a 0x7f ≡ a % 128
low_bits a = bit_and_mask 7 a

zero-bit_or : (b : ℕ) → bit_or 0 (b * 2 ^ 0) ≡ 0 + b * 2 ^ 0
zero-bit_or b = simp bit_or-bitwise (omega arith)

-- `r | (q << k)` is a sum where `r` fits `k` bits.
pub bit_or_above : (k q r : ℕ) → r < 2 ^ k → bit_or r (q * 2 ^ k) ≡ r + q * 2 ^ k
bit_or_above zero q r fits = let e : r ≡ 0 = omega arith in rw e (zero-bit_or q)
bit_or_above (suc k) q r fits = ground (
  arith,
  bit_or_step r (q * 2 ^ suc k),
  shifted_twice q k,
  bit_or_above k q (r / 2) (omega arith),
)

pub bit_or_lt : (k a b : ℕ) → a < 2 ^ k → b < 2 ^ k → bit_or a b < 2 ^ k
bit_or_lt zero a b ha hb =
    let e : a ≡ 0 = omega arith in let e' : b ≡ 0 = omega arith in rw (e, e') (omega arith)
bit_or_lt (suc k) a b ha hb = omega (
  arith,
  bit_or_step a b,
  pow-suc 2 k,
  bit_or_lt k (a / 2) (b / 2) (omega (arith, pow-suc 2 k)) (omega (arith, pow-suc 2 k)),
)

-- `x | 0x80` of a group of seven bits.
pub mark_group : (a : ℕ) → a < 128 → bit_or a 0x80 ≡ a + 128
mark_group a h = ground (arith, bit_or_above 7 1 a)
