-- ===== src/ItemIndex/Find.antt =====
-- The binary searches: ItemIndexPrivate::find of src/containers/ItemIndexPrivates/ItemIndexPrivate.cpp,
-- and binarySearchKeyInArray of include/sserialize/algorithm/find_key_in_array_functions.h. `at` and
-- `size` are those of the container, whose values stand for numbers in their order.
pub mod Sorted
use sserialize.Base.{
  ℕ, zero, suc, true, false, ◌+◌, ◌-◌, ◌/◌, ◌^◌, ◌==◌, ltb, if◌then◌else◌, Option, none, some,
}

-- The loop that both have, and the comparison behind it. `past` is the source's right + 1, since right
-- can be -1: with left = 0, and then mid is 0.
unfoldable pub search_from : ℕ → (ℕ → ℕ) → ℕ → ℕ → ℕ → ℕ → Option ℕ
search_from zero at key npos left past = none
search_from (suc fuel) at key npos left past =
    let mid = (past - 1 - left) / 2 + left in
    elim (ltb (left + 1) past) [
      | true ↦ elim (at mid == key) [
        | true ↦ some mid
        | false ↦ elim (ltb (at mid) key) [
          | true ↦ search_from fuel at key npos (mid + 1) past
          | false ↦ search_from fuel at key npos left mid
        ]
      ]
      | false ↦ some (if at mid == key then mid else npos)
    ]

-- Each round takes a position away at least.
unfoldable pub find_id : (ℕ → ℕ) → ℕ → ℕ → Option ℕ
find_id at size id =
    if size == 0 then some (2 ^ 32 - 1) else search_from (size + 1) at id (2 ^ 32 - 1) 0 size

unfoldable pub binary_search_key : (ℕ → ℕ) → ℕ → ℕ → Option ℕ
binary_search_key at size key =
    if size == 0 then some (2 ^ 64 - 1) else search_from (size + 1) at key (2 ^ 64 - 1) 0 size
