-- ===== src/Pack/Generic/Size.antt =====
-- psize_v counts the bytes that p_v writes.
use sserialize.Base.{ℕ, zero, suc, ◌+◌, ◌/◌, ◌^◌, ◌<◌, ◌≡◌, arith, length}
use sserialize.Pack.Generic.{psize_loop, psize_v}
use sserialize.Pack.Varint.Groups.{groups, HasGroups, length-groups, HasGroups-count}
use mathlib.Core.WellFounded.{Acc}

psize_loop-HasGroups : (n s i : ℕ) (a : Acc ◌<◌ s) → HasGroups n s → psize_loop s i a ≡ i + suc n
unfolding psize_loop
psize_loop-HasGroups zero s i (Acc.intro _ smaller) r = ground arith
psize_loop-HasGroups (suc n) s i (Acc.intro _ smaller) r =
    grind (
      arith,
      λ (p : s / 128 < s). psize_loop-HasGroups n (s / 128) (i + 1) (smaller (s / 128) p) r.1,
    )

pub psize_v-groups : (j s : ℕ) → s < 128 ^ suc j → psize_v s ≡ length (groups (suc j) s)
unfolding psize_v
psize_v-groups j s h =
    let (n, le, r) = HasGroups-count j s h in
    omega (arith, length-groups n j s le r, psize_loop-HasGroups n s 0 _ r)
