-- ===== src/Pack/Unpack/RoundTrip.antt =====
-- up_v reads back the groups of a number, whatever follows them.
use sserialize.Base.{ℕ, zero, suc, ◌+◌, ◌*◌, ◌/◌, ◌%◌, ◌^◌, ◌<◌, ◌≤◌, ◌≡◌, ap, arith}
use sserialize.Base.{List, ◌++◌, length, some, pos, true, false}
use sserialize.Base.Bits.{pow-add}
use sserialize.Base.Bytes.{top_bit, low_bits, bit_or_above}
use sserialize.Pack.Generic.{max_bytes}
use sserialize.Pack.Unpack.{add_group, goes_on, up_v_checked, up_v_unchecked, up_v}
use sserialize.Pack.Varint.Groups.{groups, HasGroups, length-groups, HasGroups-count}
use native.Mathlib.Nat.{div-add-mod, mod-eq_of_lt}

pub goes_on-last : (w len b : ℕ) → b < 128 → goes_on w len b ≡ false
unfolding goes_on
goes_on-last w len b h = ground (arith, top_bit b)

pub goes_on-inner : (w len g : ℕ) → g < 128 → len < max_bytes w → goes_on w len (g + 128) ≡ true
unfolding goes_on
goes_on-inner w len g h more = ground (arith, top_bit (g + 128))

pub add_group-sum :
    (w ret g b shift : ℕ)
    → b % 128 ≡ g
    → ret < 2 ^ shift
    → g * 2 ^ shift < 2 ^ w
    → add_group w ret b shift ≡ ret + g * 2 ^ shift
unfolding add_group
add_group-sum w ret g b shift e h fits =
    ground (arith, low_bits b, bit_or_above shift g ret, mod-eq_of_lt fits)

-- The lowest group of `v` and the rest, both at bit `shift`.
split_group : (v shift : ℕ) → v * 2 ^ shift ≡ v % 128 * 2 ^ shift + v / 128 * 2 ^ (shift + 7)
split_group v shift = omega (
  arith,
  ap (λ (t : ℕ). t * 2 ^ shift) (div-add-mod v 128),
  ap (λ (t : ℕ). v / 128 * t) (pow-add shift 7),
)

pub group_below :
    (ret g shift : ℕ) → ret < 2 ^ shift → g < 128 → ret + g * 2 ^ shift < 2 ^ (shift + 7)
group_below ret g shift h hg = grind (arith, pow-add shift 7)

-- `v` is what is still to be read, and counts from bit `shift` on.
up_v_unchecked-groups :
    (n w j v ret len shift : ℕ) (rest : List ℕ)
    → n ≤ j
    → HasGroups n v
    → len + suc n ≤ max_bytes w
    → ret < 2 ^ shift
    → v * 2 ^ shift < 2 ^ w
    → up_v_unchecked w (groups (suc j) v ++ rest) ret len shift
      ≡ some (ret + v * 2 ^ shift, pos (len + suc n))
unfolding up_v_unchecked groups
up_v_unchecked-groups zero w j v ret len shift rest h r room hr fits =
    ground (arith, goes_on-last w (len + 1) v, add_group-sum w ret v v shift)
up_v_unchecked-groups (suc n) w zero v ret len shift rest h r room hr fits = absurd (omega arith)
up_v_unchecked-groups (suc n) w (suc j) v ret len shift rest h r room hr fits = ground (
  arith,
  split_group v shift,
  goes_on-inner w (len + 1) (v % 128),
  add_group-sum w ret (v % 128) (v % 128 + 128) shift,
  group_below ret (v % 128) shift,
  up_v_unchecked-groups n w j (v / 128) (ret + v % 128 * 2 ^ shift) (len + 1) (shift + 7) rest,
)

up_v_checked-groups :
    (n w j v ret len shift : ℕ) (rest : List ℕ)
    → n ≤ j
    → HasGroups n v
    → len + suc n ≤ max_bytes w
    → ret < 2 ^ shift
    → v * 2 ^ shift < 2 ^ w
    → up_v_checked w (groups (suc j) v ++ rest) ret len shift
      ≡ (ret + v * 2 ^ shift, pos (len + suc n))
unfolding up_v_checked groups
up_v_checked-groups zero w j v ret len shift rest h r room hr fits =
    ground (arith, goes_on-last w (len + 1) v, add_group-sum w ret v v shift)
up_v_checked-groups (suc n) w zero v ret len shift rest h r room hr fits = absurd (omega arith)
up_v_checked-groups (suc n) w (suc j) v ret len shift rest h r room hr fits = ground (
  arith,
  split_group v shift,
  goes_on-inner w (len + 1) (v % 128),
  add_group-sum w ret (v % 128) (v % 128 + 128) shift,
  group_below ret (v % 128) shift,
  up_v_checked-groups n w j (v / 128) (ret + v % 128 * 2 ^ shift) (len + 1) (shift + 7) rest,
)

pub up_v-groups :
    (w j v : ℕ) (rest : List ℕ)
    → suc j ≡ max_bytes w
    → v < 2 ^ w
    → v < 128 ^ suc j
    → up_v w (groups (suc j) v ++ rest) ≡ some (v, pos (length (groups (suc j) v)))
unfolding up_v
up_v-groups w j v rest e fits h =
    let (n, le, r) = HasGroups-count j v h in
    ground (
      arith,
      length-groups n j v le r,
      up_v_checked-groups n w j v 0 0 0 rest le r,
      up_v_unchecked-groups n w j v 0 0 0 rest le r,
    )
