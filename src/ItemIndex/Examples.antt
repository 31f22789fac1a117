-- ===== src/ItemIndex/Examples.antt =====
-- Runs of the merge and of its theorems.
use sserialize.Base.{ℕ, ◌≡◌, refl, arith, not, ◌&&◌, ◌||◌, List, [], ◌∷◌}
use sserialize.Base.{◌^◌, ◌<◌, All, some, ◌>>=◌}
use sserialize.ItemIndex.Delta.{
  DeltaCreator, DeltaIndex, create_index, push_all, flush_index, get_private_index, put_into,
}
use sserialize.ItemIndex.Delta.RoundTrip.{put_into-push_all}
use sserialize.Base.{length, ◌+◌, ◌-◌, ◌*◌}
use sserialize.ItemIndex.Find.{find_id, binary_search_key}
use sserialize.ItemIndex.Find.Sorted.{IsPositionOf, find_id-binary_search_key}
use sserialize.Storage.Adapter.{Adapter, of_vector}
use sserialize.Base.{inr}
use sserialize.Pack.Varint.Groups.{groups}
use sserialize.ItemIndex.Delta.{generic_op}
use sserialize.ItemIndex.Delta.Encode.{deltas}
use sserialize.ItemIndex.Delta.Operation.{IsIndexOf, put_into-generic_op}
use sserialize.ItemIndex.SetOp.{
  execute, push_if, intersect_op, unite_op, difference_op, symmetric_difference_op,
}
use sserialize.ItemIndex.SetOp.Member.{IsAscending, has, execute-IsAscending, has-set_operations}

abbrev odd : List ℕ
odd = 1 ∷ 3 ∷ 5 ∷ []

abbrev small : List ℕ
small = 2 ∷ 3 ∷ []

odd-All : All (λ id. id < 2 ^ 32) odd
odd-All = ground arith

odd-IsAscending : IsAscending 0 odd
odd-IsAscending = ground arith

small-IsAscending : IsAscending 0 small
small-IsAscending = ground arith

execute_unite : execute unite_op odd small ≡ 1 ∷ 2 ∷ 3 ∷ 5 ∷ []
unfolding execute push_if
execute_unite = refl

execute-IsAscending_example : IsAscending 0 (execute symmetric_difference_op odd small)
execute-IsAscending_example =
    execute-IsAscending symmetric_difference_op odd small 0 odd-IsAscending small-IsAscending

has-set_operations_example :
    (has 3 (execute intersect_op odd small) ≡ (has 3 odd && has 3 small))
    × (has 3 (execute unite_op odd small) ≡ (has 3 odd || has 3 small))
    × (has 3 (execute difference_op odd small) ≡ (has 3 odd && not (has 3 small)))
    × (has 3 (execute symmetric_difference_op odd small)
        ≡ ((has 3 odd && not (has 3 small)) || (has 3 small && not (has 3 odd))))
has-set_operations_example = has-set_operations odd small 3 odd-IsAscending small-IsAscending

-- Two bytes behind a first one, and room for more.
abbrev behind : Adapter
behind = record { storage = 7 ∷ 8 ∷ 9 ∷ []; off_set = 1; len = 2; get_ptr = 0; put_ptr = 2 }

put_into-push_all_example :
    (c : DeltaCreator) × (i : DeltaIndex) × ((create_index behind
        >>= (λ c. push_all c odd)
        >>= flush_index)
      ≡ some c)
    × (get_private_index c ≡ some i)
    × (i.size ≡ 3)
    × (put_into i ≡ some odd)
put_into-push_all_example =
    put_into-push_all behind odd (inr (record { whole = refl; at_end = refl })) (omega arith)
      odd-All (omega arith)

-- The index of 1, 3 and 5, and the one of 2 and 3.
abbrev odd_index : DeltaIndex
odd_index = record { body = of_vector (1 ∷ 2 ∷ 2 ∷ []); size = 3 }

abbrev small_index : DeltaIndex
small_index = record { body = of_vector (2 ∷ 1 ∷ []); size = 2 }

odd_index-IsIndexOf : IsIndexOf odd_index odd
unfolding of_vector deltas groups
odd_index-IsIndexOf = record {
  valid = omega arith;
  small = omega arith;
  size = refl;
  content = refl;
}

small_index-IsIndexOf : IsIndexOf small_index small
unfolding of_vector deltas groups
small_index-IsIndexOf = record {
  valid = omega arith;
  small = omega arith;
  size = refl;
  content = refl;
}

put_into-generic_op_example :
    (c : DeltaCreator) × (i : DeltaIndex) × (generic_op unite_op odd_index small_index ≡ some c)
    × (get_private_index c ≡ some i)
    × (i.size ≡ length (execute unite_op odd small))
    × (put_into i ≡ some (execute unite_op odd small))
put_into-generic_op_example =
    put_into-generic_op unite_op odd_index small_index 1 2 (3 ∷ 5 ∷ []) (3 ∷ []) odd_index-IsIndexOf
      small_index-IsIndexOf odd-All (ground arith) (omega arith)

find_id-binary_search_key_example :
    ((r : ℕ) × (find_id (λ p. 2 * p + 1) 4 5 ≡ some r)
      × IsPositionOf (λ p. 2 * p + 1) 4 (2 ^ 32 - 1) 5 r)
    × ((r : ℕ) × (binary_search_key (λ p. 2 * p + 1) 4 5 ≡ some r)
        × IsPositionOf (λ p. 2 * p + 1) 4 (2 ^ 64 - 1) 5 r)
find_id-binary_search_key_example =
    find_id-binary_search_key (λ p. 2 * p + 1) 4 5 (λ p q h k. omega arith)
