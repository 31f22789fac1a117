-- ===== src/Pack/Varint/Groups.antt =====
-- The encoding as an independent description: the groups of seven bits of a number.
use sserialize.Base.{ℕ, zero, suc, ◌+◌, ◌/◌, ◌%◌, ◌^◌, ◌<◌, ◌≤◌, ◌≡◌, arith}
use sserialize.Base.{List, [], ◌∷◌, length, ltb, if◌then◌else◌}
use native.Mathlib.Decide.{dec_lt}
use native.Mathlib.Nat.{pow-suc}

-- The groups of `v`, lowest first, at most `k` of them.
unfoldable pub groups : ℕ → ℕ → List ℕ
groups zero v = []
groups (suc k) v =
    let rest = groups k (v / 128) in if ltb v 128 then v ∷ [] else (v % 128 + 128) ∷ rest

-- `v` has `suc n` groups.
abbrev pub HasGroups : ℕ → ℕ → Type 0
HasGroups zero v = v < 128
HasGroups (suc n) v = (128 ≤ v) × HasGroups n (v / 128)

pub length-groups : (n k v : ℕ) → n ≤ k → HasGroups n v → length (groups (suc k) v) ≡ suc n
unfolding groups
length-groups zero k v h r = ground arith
length-groups (suc n) zero v h r = absurd (omega arith)
length-groups (suc n) (suc k) v h r = ground (arith, length-groups n k (v / 128))

-- A number below 128 ^ (j + 1) has at most j + 1 groups.
pub HasGroups-count : (j v : ℕ) → v < 128 ^ suc j → (n : ℕ) × (n ≤ j) × HasGroups n v
HasGroups-count zero v h = (0, omega arith, omega arith)
HasGroups-count (suc j) v h = elim (dec_lt v 128) [
  | yes small ↦ (0, omega arith, small)
  | no large ↦
      let (n, le, r) = HasGroups-count j (v / 128) (omega (arith, pow-suc 128 (suc j))) in
      (suc n, omega arith, (omega arith, r))
]

pub length-groups-le : (k v : ℕ) → length (groups k v) ≤ k
unfolding groups
length-groups-le zero v = omega arith
length-groups-le (suc k) v = ground (arith, length-groups-le k (v / 128))

pub length-groups-pos : (k v : ℕ) → 1 ≤ length (groups (suc k) v)
unfolding groups
length-groups-pos k v = ground arith
