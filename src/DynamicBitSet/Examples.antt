-- ===== src/DynamicBitSet/Examples.antt =====
-- Runs of the set operations and of their theorems.
use sserialize.Base.{
  ℕ, true, false, ◌/◌, ◌==◌, ◌≡◌, ◌↔◌, arith, ltb, not, ◌&&◌, ◌||◌, [], ◌∷◌, length,
}
use sserialize.DynamicBitSet.{DynamicBitSet, is_set, set_bit, intersection, union, difference}
use sserialize.DynamicBitSet.{
  symmetric_difference, intersect_assign, unite_assign, subtract_assign, xor_assign, equal,
  upper_bound, upper_bound_from,
}
use sserialize.DynamicBitSet.Member.{IsClean, is_set-set_bit}
use sserialize.DynamicBitSet.{reach, grow, resize_bytes, assign, fresh}
use sserialize.DynamicBitSet.Operators.{
  IsBytes, is_set-intersection, is_set-union, is_set-symmetric_difference,
}
use sserialize.DynamicBitSet.Operators.{is_set-difference, is_set-subtract_assign, assign_eq}
use sserialize.DynamicBitSet.Equal.{equal_iff, is_set-upper_bound}
use sserialize.DynamicBitSet.Align.{align-next_size}
use sserialize.DynamicBitSet.{
  aligned_size, align, msb, msb_loop, smallest_entry, smallest_entry_from, largest_entry,
  largest_entry_from,
}
use sserialize.Base.{leb, refl, ◌+◌, ◌*◌, ◌^◌, if◌then◌else◌}

-- The positions 0, 2 and 9, and the position 2.
abbrev wide : DynamicBitSet
wide = record { bytes = 5 ∷ 2 ∷ []; behind = [] }

abbrev narrow : DynamicBitSet
narrow = record { bytes = 4 ∷ []; behind = 0 ∷ 0 ∷ [] }

wide-IsBytes : IsBytes wide.bytes
wide-IsBytes = ground arith

narrow-IsBytes : IsBytes narrow.bytes
narrow-IsBytes = ground arith

narrow-IsClean : IsClean narrow
narrow-IsClean = omega arith

is_set-set_bit_example :
    ((q : ℕ) → is_set (set_bit narrow 9) q ≡ ((9 == q) || is_set narrow q))
    × IsClean (set_bit narrow 9)
is_set-set_bit_example = is_set-set_bit narrow 9 narrow-IsClean

-- operator&= leaves the byte 2 behind the set {2}; set shows it again, and 9 is in the set with 8.
stale : (set_bit (intersect_assign wide narrow) 8).bytes ≡ 4 ∷ 3 ∷ []
unfolding set_bit reach grow intersect_assign resize_bytes assign
stale = refl

is_set-intersection_example :
    is_set (intersection wide narrow) 2 ≡ (is_set wide 2 && is_set narrow 2)
is_set-intersection_example = is_set-intersection wide narrow 2

is_set-union_example : is_set (union wide narrow) 9 ≡ (is_set wide 9 || is_set narrow 9)
is_set-union_example = is_set-union wide narrow 9

is_set-symmetric_difference_example :
    is_set (symmetric_difference wide narrow) 9
    ≡ ((is_set wide 9 && not (is_set narrow 9)) || (is_set narrow 9 && not (is_set wide 9)))
is_set-symmetric_difference_example = is_set-symmetric_difference wide narrow 9

is_set-difference_example :
    is_set (difference wide narrow) 9
    ≡ (ltb (9 / 8) (length narrow.bytes) && (is_set wide 9 && not (is_set narrow 9)))
is_set-difference_example = is_set-difference wide narrow 9 narrow-IsBytes

is_set-subtract_assign_example :
    is_set (subtract_assign wide narrow) 9 ≡ (is_set wide 9 && not (is_set narrow 9))
is_set-subtract_assign_example = is_set-subtract_assign wide narrow 9 wide-IsBytes narrow-IsBytes

assign_eq_example :
    (intersection narrow wide ≡ fresh (intersect_assign narrow wide).bytes)
    × (union narrow wide ≡ fresh (unite_assign narrow wide).bytes)
    × (symmetric_difference narrow wide ≡ fresh (xor_assign narrow wide).bytes)
assign_eq_example = assign_eq narrow wide

equal_iff_example : (equal wide narrow ≡ true) ↔ ((q : ℕ) → is_set wide q ≡ is_set narrow q)
equal_iff_example = equal_iff wide narrow wide-IsBytes narrow-IsBytes

is_set-upper_bound_example : is_set wide 16 ≡ false
is_set-upper_bound_example =
    is_set-upper_bound wide 16 (unfold upper_bound upper_bound_from in omega arith)

align_drops : (align narrow 1).bytes ≡ []
unfolding align resize_bytes grow aligned_size
align_drops = refl

align_grows : (align wide 1).bytes ≡ 5 ∷ 2 ∷ 0 ∷ 0 ∷ []
unfolding align resize_bytes grow aligned_size
align_grows = refl

align-next_size_example :
    (length (align wide 1).bytes ≡ (if ltb 2 (2 ^ 1) then 0 else (2 / 2 ^ 1 + 1) * 2 ^ 1))
    × (is_set (align wide 1) 9 ≡ (leb (2 ^ 1) 2 && is_set wide 9))
align-next_size_example = align-next_size wide 1 9 tt (omega arith)

-- The position of the highest bit of the first byte that is not zero.
smallest_wide : smallest_entry wide ≡ 2
unfolding smallest_entry smallest_entry_from msb msb_loop
smallest_wide = refl

-- One below the highest position.
largest_wide : largest_entry wide ≡ 8
unfolding largest_entry largest_entry_from msb msb_loop
largest_wide = refl
