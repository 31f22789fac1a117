-- ===== src/Pack/Generic/Encode.antt =====
-- What the loops of the template p_v write, and that it agrees with its specialisations.
use sserialize.Base.{ℕ, zero, suc, ◌+◌, ◌/◌, ◌%◌, ◌^◌, ◌<◌, ◌≤◌, ◌≡◌, arith}
use sserialize.Base.{List, [], ◌∷◌, ◌++◌, length, take, drop, ltb, if◌then◌else◌, some}
use sserialize.Base.{pos, neg}
use sserialize.Base.Bytes.{mark_group, low_bits}
use sserialize.Pack.Generic.{group_byte, p_v_checked, p_v_unchecked, p_v, max_bytes}
use sserialize.Pack.Varint.Groups.{groups, HasGroups, length-groups, HasGroups-count}

group_byte-last : (s : ℕ) → s < 128 → group_byte s ≡ s
unfolding group_byte
group_byte-last s h = ground (arith, low_bits s)

group_byte-inner : (s : ℕ) → 128 ≤ s → group_byte s ≡ s % 128 + 128
unfolding group_byte
group_byte-inner s h = ground (arith, low_bits s, mark_group (s % 128))

p_v_unchecked-groups :
    (n j s : ℕ) (buf : List ℕ) (i : ℕ)
    → n ≤ j
    → HasGroups n s
    → suc n ≤ length buf
    → p_v_unchecked s buf i ≡ some (pos (i + suc n), groups (suc j) s ++ drop (suc n) buf)
unfolding p_v_unchecked groups
p_v_unchecked-groups n j s [] i h r room = absurd (omega arith)
p_v_unchecked-groups zero j s (x ∷ buf) i h r room = ground (arith, group_byte-last s)
p_v_unchecked-groups (suc n) zero s (x ∷ buf) i h r room = absurd (omega arith)
p_v_unchecked-groups (suc n) (suc j) s (x ∷ buf) i h r room =
    ground (arith, group_byte-inner s, p_v_unchecked-groups n j (s / 128) buf (i + 1))

-- In a buffer that is too short the checked loop fills it and returns its length negated.
p_v_checked-groups :
    (n j s : ℕ) (buf : List ℕ) (i : ℕ)
    → n ≤ j
    → HasGroups n s
    → p_v_checked s buf i ≡ (
        if ltb (length buf) (suc n)
        then (neg (i + length buf), take (length buf) (groups (suc j) s))
        else (pos (i + suc n), groups (suc j) s ++ drop (suc n) buf))
unfolding p_v_checked groups
p_v_checked-groups n j s [] i h r = ground arith
p_v_checked-groups zero j s (x ∷ buf) i h r = ground (arith, group_byte-last s)
p_v_checked-groups (suc n) zero s (x ∷ buf) i h r = absurd (omega arith)
p_v_checked-groups (suc n) (suc j) s (x ∷ buf) i h r =
    ground (arith, group_byte-inner s, p_v_checked-groups n j (s / 128) buf (i + 1))

-- The template at `w` bits: all groups where they fit, and otherwise as many as there is room for.
pub p_v-groups :
    (w j s : ℕ) (buf : List ℕ)
    → s < 128 ^ suc j
    → suc j ≡ max_bytes w
    → let g = groups (suc j) s in
      p_v w s buf ≡ (
        if ltb (length buf) (length g)
        then some (neg (length buf), take (length buf) g)
        else some (pos (length g), g ++ drop (length g) buf))
unfolding p_v
p_v-groups w j s buf h e =
    let (n, le, r) = HasGroups-count j s h in
    ground (
      arith,
      length-groups n j s le r,
      p_v_checked-groups n j s buf 0 le r,
      p_v_unchecked-groups n j s buf 0 le r,
    )
