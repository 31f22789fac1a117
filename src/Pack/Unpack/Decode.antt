-- ===== src/Pack/Unpack/Decode.antt =====
-- up_v on any bytes, well formed or not.
use sserialize.Base.{ℕ, ◌+◌, ◌^◌, ◌<◌, ◌≤◌, ◌≡◌, arith, inl, inr}
use sserialize.Base.{List, [], ◌∷◌, length, some, ℤ, pos, abs, abs-neg, Bool-cases, true}
use sserialize.Base.{ltb}
use sserialize.Base.Bytes.{bit_or_lt}
use sserialize.Pack.Generic.{max_bytes}
use sserialize.Pack.Unpack.{add_group, goes_on, up_v_checked, up_v_unchecked, up_v}
use native.Mathlib.Nat.{mod-lt, one-le-pow}

add_group-lt : (w ret b shift : ℕ) → ret < 2 ^ w → add_group w ret b shift < 2 ^ w
unfolding add_group
add_group-lt w ret b shift h = bit_or_lt w ret _ h (mod-lt _ (one-le-pow w 2 (omega arith)))

goes_on-lt : (w len b : ℕ) → goes_on w len b ≡ true → len < max_bytes w
unfolding goes_on
goes_on-lt w len b h = ground arith

-- A value of `w` bits, and a length that neither the buffer nor maxLen limits.
abbrev pub InBounds : ℕ → ℕ → ℕ × ℤ → Type 0
InBounds w room r = (r.0 < 2 ^ w) × (abs r.1 ≤ room) × (abs r.1 ≤ max_bytes w)

up_v_checked-InBounds :
    (w : ℕ) (buf : List ℕ) (ret len shift : ℕ)
    → ret < 2 ^ w
    → len < max_bytes w
    → InBounds w (len + length buf) (up_v_checked w buf ret len shift)
unfolding up_v_checked
up_v_checked-InBounds w [] ret len shift hr hl = omega (arith, abs-neg len)
up_v_checked-InBounds w (b ∷ buf) ret len shift hr hl = ground (
  arith,
  add_group-lt w ret b shift,
  goes_on-lt w (len + 1) b,
  up_v_checked-InBounds w buf (add_group w ret b shift) (len + 1) (shift + 7),
)

up_v_unchecked-InBounds :
    (w : ℕ) (buf : List ℕ) (ret len shift : ℕ)
    → ret < 2 ^ w
    → len < max_bytes w
    → max_bytes w ≤ len + length buf
    → (r : ℕ × ℤ) × (up_v_unchecked w buf ret len shift ≡ some r) × InBounds w (len + length buf) r
unfolding up_v_unchecked
up_v_unchecked-InBounds w [] ret len shift hr hl room = absurd (omega arith)
up_v_unchecked-InBounds w (b ∷ buf) ret len shift hr hl room =
    elim (Bool-cases (goes_on w (len + 1) b)) [
      | inl more ↦
          let (r, e, (v, l, m)) =
            up_v_unchecked-InBounds w buf (add_group w ret b shift) (len + 1) (shift + 7)
              (add_group-lt w ret b shift hr) (goes_on-lt w (len + 1) b more) (omega arith) in
          (r, rw more e, (v, omega arith, m))
      | inr last ↦ (
        (add_group w ret b shift, pos (len + 1)),
        rw last,
        (add_group-lt w ret b shift hr, omega arith, omega arith),
      )
    ]

-- up_v on any buffer: it returns, with no read behind the end, a value of its type, and the length
-- that it stores is at most the buffer's and at most maxLen in magnitude.
pub up_v-InBounds :
    (w : ℕ) (buf : List ℕ)
    → 0 < max_bytes w
    → (r : ℕ × ℤ) × (up_v w buf ≡ some r) × InBounds w (length buf) r
unfolding up_v
up_v-InBounds w buf h = elim (Bool-cases (ltb (length buf) (max_bytes w))) [
  | inl short ↦ (
    up_v_checked w buf 0 0 0,
    rw short,
    ground (arith, up_v_checked-InBounds w buf 0 0 0 (one-le-pow w 2 (omega arith)) h),
  )
  | inr long ↦
      let (r, e, (v, l, m)) =
        up_v_unchecked-InBounds w buf 0 0 0 (one-le-pow w 2 (omega arith)) h (ground arith) in
      (r, rw long e, (v, omega arith, m))
]
