-- ===== src/ItemIndex/RunDelta/Examples.antt =====
-- Runs of run-length indexes and of their theorems.
use sserialize.Base.{ℕ, ◌≡◌, refl, arith, List, [], ◌∷◌, some, ◌>>=◌, take}
use sserialize.Pack.Varint.Groups.{groups}
use sserialize.Storage.Adapter.{of_vector}
use sserialize.Storage.Stream.Append.{IsAtEnd}
use sserialize.ItemIndex.SetOp.{execute, unite_op}
use sserialize.ItemIndex.RunDelta.Operation.{generic_runs, get_dest_index}
use sserialize.ItemIndex.RunDelta.Operation.Result.{put_into_runs-generic_runs}
use sserialize.DynamicBitSet.{DynamicBitSet, is_set}
use sserialize.ItemIndex.RunDelta.BitSet.{from_bit_set}
use sserialize.ItemIndex.RunDelta.BitSet.Result.{put_into_runs-from_bit_set}
use sserialize.ItemIndex.RunDelta.PutBits.{put_into_bit_set}
use sserialize.ItemIndex.RunDelta.PutBits.Ids.{HasBoth, put_into_bit_set-HasBoth}
use sserialize.ItemIndex.SetOp.Member.{IsAscending, has}
use sserialize.ItemIndex.RunDelta.{
  RunCreator, RunIndex, creator_of, push_each, push_rle, flush_runs, get_run_index, put_into_runs,
  run_ids, run_end,
}
use sserialize.ItemIndex.RunDelta.Runs.{run_bytes}
use sserialize.ItemIndex.RunDelta.Read.{IsRunIndexOf}
use sserialize.ItemIndex.RunDelta.Write.{AreNear}
use sserialize.ItemIndex.RunDelta.RoundTrip.{put_into_runs-push_each}
use sserialize.ItemIndex.RunDelta.PushRle.{push_rle-push_each}
use sserialize.ItemIndex.RunDelta.Intersect.{constrained_intersect}
use sserialize.ItemIndex.RunDelta.Intersect.Lists.{has_each}
use sserialize.ItemIndex.RunDelta.Intersect.Common.{AreIndexesOf, constrained_intersect-AreCommon}

abbrev odd : List ℕ
odd = 1 ∷ 3 ∷ 5 ∷ []

abbrev late : List ℕ
late = 3 ∷ 5 ∷ []

odd-AreNear : AreNear 0 odd
odd-AreNear = omega arith

nothing_yet-IsAtEnd : IsAtEnd (of_vector [])
unfolding of_vector
nothing_yet-IsAtEnd = omega arith

put_into_runs-push_each_example :
    (c : RunCreator) × (i : RunIndex) × ((push_each (creator_of (of_vector [])) odd >>= flush_runs)
      ≡ some c)
    × (get_run_index c ≡ some i)
    × IsRunIndexOf i odd
    × (i.size ≡ 3)
    × (put_into_runs i ≡ some odd)
put_into_runs-push_each_example =
    put_into_runs-push_each (of_vector []) odd nothing_yet-IsAtEnd (unfold of_vector in omega arith)
      odd-AreNear (omega arith)

push_rle-push_each_example :
    push_rle (creator_of (of_vector [])) 7 2 3
    ≡ push_each (creator_of (of_vector [])) (7 ∷ run_ids 3 2 7)
push_rle-push_each_example =
    push_rle-push_each (creator_of (of_vector [])) 7 2 3 (omega arith) (omega arith)

abbrev odd_index : RunIndex
odd_index = record { body = of_vector (2 ∷ 5 ∷ 4 ∷ []); size = 3 }

abbrev late_index : RunIndex
late_index = record { body = of_vector (6 ∷ 4 ∷ []); size = 2 }

odd_index-IsRunIndexOf : IsRunIndexOf odd_index odd
unfolding of_vector run_bytes run_ids run_end groups
odd_index-IsRunIndexOf = record {
  runs = (1, 1) ∷ (2, 2) ∷ [];
  small = omega arith;
  stored = refl;
  size = refl;
  at_start = refl;
  on = record { valid = omega arith; small = omega arith; ahead = refl };
}

late_index-IsRunIndexOf : IsRunIndexOf late_index late
unfolding of_vector run_bytes run_ids run_end groups
late_index-IsRunIndexOf = record {
  runs = (1, 3) ∷ (1, 2) ∷ [];
  small = omega arith;
  stored = refl;
  size = refl;
  at_start = refl;
  on = record { valid = omega arith; small = omega arith; ahead = refl };
}

both : AreIndexesOf (odd_index ∷ late_index ∷ []) (odd ∷ late ∷ [])
both = (
  odd_index-IsRunIndexOf,
  omega arith,
  ground arith,
  (late_index-IsRunIndexOf, omega arith, ground arith, tt),
)

constrained_intersect-AreCommon_example :
    (ids : List ℕ) × (constrained_intersect (odd_index ∷ late_index ∷ []) 10 ≡ some (take 10 ids))
    × IsAscending 0 ids
    × ((v : ℕ) → has v ids ≡ has_each v (odd ∷ late ∷ []))
constrained_intersect-AreCommon_example =
    constrained_intersect-AreCommon (odd_index ∷ late_index ∷ []) (odd ∷ late ∷ []) 10 both
      (omega arith) (omega arith)

put_into_runs-generic_runs_example :
    (c : RunCreator) × (i : RunIndex) × (generic_runs unite_op odd_index late_index ≡ some c)
    × (get_dest_index c ≡ some i)
    × IsRunIndexOf i (execute unite_op odd late)
    × (put_into_runs i ≡ some (execute unite_op odd late))
put_into_runs-generic_runs_example =
    put_into_runs-generic_runs unite_op odd_index late_index 1 3 (3 ∷ 5 ∷ []) (5 ∷ [])
      odd_index-IsRunIndexOf late_index-IsRunIndexOf (omega arith) (omega arith) (omega arith)

abbrev marks : DynamicBitSet
marks = record { bytes = 5 ∷ 0 ∷ 130 ∷ []; behind = 0 ∷ [] }

put_into_runs-from_bit_set_example :
    (c : RunCreator) × (i : RunIndex) × (ids : List ℕ) × (from_bit_set marks ≡ some c)
    × (get_run_index c ≡ some i)
    × IsRunIndexOf i ids
    × (put_into_runs i ≡ some ids)
    × IsAscending 0 ids
    × ((v : ℕ) → has v ids ≡ is_set marks v)
put_into_runs-from_bit_set_example = put_into_runs-from_bit_set marks (ground arith) (omega arith)

put_into_bit_set-HasBoth_example :
    (s : DynamicBitSet) × (put_into_bit_set odd_index marks ≡ some s) × HasBoth s marks odd
put_into_bit_set-HasBoth_example =
    put_into_bit_set-HasBoth odd_index odd marks (refl, tt) odd_index-IsRunIndexOf (omega arith)
