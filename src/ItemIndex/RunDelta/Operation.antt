-- ===== src/ItemIndex/RunDelta/Operation.antt =====
-- genericOp of ItemIndexPrivateRleDE.h: the set operations on two run-length indexes. Ids of a run that
-- stand before the other side's id, or that both sides have, are passed at once.
pub mod Sides
pub mod Passes
pub mod Kept
pub mod Rounds
pub mod Steps
pub mod Merge
pub mod Open
pub mod Flush
pub mod Remainder
pub mod Result
use sserialize.Base.{
  ℕ, zero, suc, true, false, ◌+◌, ◌-◌, ◌*◌, ◌/◌, ◌%◌, ◌^◌, ◌==◌, ltb, if◌then◌else◌, Bool, ◌&&◌,
  bit_and, min,
}
use sserialize.Base.{Option, none, some, ◌>>=◌}
use sserialize.Storage.Adapter.{Adapter, reset_get_ptr, reset_put_ptr, shrink_to_get_ptr}
use sserialize.Storage.Stream.{get_vl_packed_uint32}
use sserialize.ItemIndex.SetOp.{SetOpTraits}
use sserialize.ItemIndex.Delta.{create_cache}
use sserialize.ItemIndex.RunDelta.{
  RunCreator, RunIndex, creator_of, push_back_run, push_rle, flush_runs, flush_runs_with, open_runs,
}

-- aData, aVal, aRle, aId and aIndexIt, and the same of b.
pub record RunSide : Type 0 where
  pub reader : Adapter
  pub val : ℕ
  pub rle : ℕ
  pub id : ℕ
  pub index_it : ℕ

-- `if (val & 0x1) …; val >>= 1`, for the word `w` that was read and the reader behind it.
unfoldable pub run_word : RunSide → ℕ → Adapter → Option RunSide
run_word s w d =
    if bit_and w 0x1 == 0
    then some (record s { reader = d; val = w / 2 })
    else (get_vl_packed_uint32 d >>= λ r.
        some (record s { reader = r.1; val = r.0 / 2; rle = w / 2 }))

unfoldable pub get_next : RunSide → Option RunSide
get_next s =
    if ltb s.reader.get_ptr s.reader.len
    then (get_vl_packed_uint32 s.reader >>= λ r. run_word s r.0 r.1)
    else run_word s 0 s.reader

unfoldable pub start_side : RunIndex → Option RunSide
start_side i = get_vl_packed_uint32 (reset_get_ptr i.body) >>= λ r.
    run_word (record { reader = r.1; val = 0; rle = 0; id = 0; index_it = 0 }) r.0 r.1 >>= λ s.
    some (record s { id = s.val })

-- One id of a side is passed.
unfoldable pub pass_one : RunSide → Option RunSide
pass_one s =
    let s1 = record s { rle = s.rle - 1 } in
    (if s1.rle == 0 then get_next s1 else some s1) >>= λ s2.
    some (record s2 { id = (s2.id + s2.val) % 2 ^ 32; index_it = (s2.index_it + 1) % 2 ^ 32 })

-- `my_rle` ids of the run are passed.
unfoldable pub pass_run : ℕ → RunSide → Option RunSide
pass_run my_rle s =
    let s1 = record s {
      rle = (s.rle + 2 ^ 32 - my_rle) % 2 ^ 32;
      index_it = (s.index_it + my_rle) % 2 ^ 32;
      id = (s.id + s.val * ((my_rle + 2 ^ 32 - 1) % 2 ^ 32)) % 2 ^ 32;
    } in
    (if s1.rle == 0 then get_next s1 else some s1) >>= λ s2.
    some (record s2 { id = (s2.id + s2.val) % 2 ^ 32 })

-- How many ids of the run stand before `other`; a division by zero is a fault.
unfoldable pub run_before : RunSide → ℕ → Option ℕ
run_before s other =
    let d = (other + 2 ^ 32 - s.id) % 2 ^ 32 in
    if s.val == 0
    then none
    else some (min ((d / s.val + 2 ^ 32 - (if ltb 0 (d % s.val) then 0 else 1) + 1) % 2 ^ 32) s.rle)

unfoldable pub push_one_when : Bool → RunCreator → ℕ → Option RunCreator
push_one_when b c id = if b then push_back_run c id else some c

unfoldable pub push_run_when : Bool → RunCreator → RunSide → ℕ → Option RunCreator
push_run_when b c s my_rle =
    if b then push_rle c s.id s.val ((my_rle + 2 ^ 32 - 1) % 2 ^ 32) else some c

-- The branch of the smaller side; the source has it once for each side.
unfoldable pub smaller_round : Bool → RunSide → ℕ → RunCreator → Option (RunSide × RunCreator)
smaller_round b s other c =
    if ltb 1 s.rle && ltb ((s.id + s.val) % 2 ^ 32) other
    then (run_before s other >>= λ my_rle.
        push_run_when b c s my_rle >>= λ c'. pass_run my_rle s >>= λ s'. some (s', c'))
    else (push_one_when b c s.id >>= λ c'. pass_one s >>= λ s'. some (s', c'))

unfoldable pub equal_round :
    Bool → RunSide → RunSide → RunCreator → Option (RunSide × RunSide × RunCreator)
equal_round p a b c =
    if ltb 2 a.rle && ltb 2 b.rle && a.val == b.val
    then (push_run_when p c a (min a.rle b.rle) >>= λ c'. pass_run (min a.rle b.rle) a >>= λ a'.
        pass_run (min a.rle b.rle) b >>= λ b'. some (a', b', c'))
    else (push_one_when p c a.id >>= λ c'.
        pass_one a >>= λ a'. pass_one b >>= λ b'. some (a', b', c'))

-- The body of the while loop.
unfoldable pub merge_round :
    SetOpTraits → RunSide → RunSide → RunCreator → Option (RunSide × RunSide × RunCreator)
merge_round t a b c = elim (ltb a.id b.id) [
  | true ↦ smaller_round t.push_first_smaller a b.id c >>= λ r. some (r.0, b, r.1)
  | false ↦ elim (ltb b.id a.id) [
    | true ↦ smaller_round t.push_second_smaller b a.id c >>= λ r. some (a, r.0, r.1)
    | false ↦ equal_round t.push_equal a b c
  ]
]

-- The while loop; a position grows in each round.
unfoldable pub merge_runs :
    ℕ
    → SetOpTraits
    → ℕ
    → ℕ
    → RunSide
    → RunSide
    → RunCreator
    → Option (RunSide × RunSide × RunCreator)
merge_runs zero t m n a b c = none
merge_runs (suc fuel) t m n a b c = elim (ltb a.index_it m && ltb b.index_it n) [
  | true ↦ merge_round t a b c >>= λ r. merge_runs fuel t m n r.0 r.1 r.2
  | false ↦ some (a, b, c)
]

-- The rest of one side: the ids of its run, and then its bytes as they are.
unfoldable pub push_rest_runs : RunCreator → ℕ → RunSide → Option RunCreator
push_rest_runs c n s =
    if s.rle == 0
    then (push_back_run c s.id >>= λ c'.
        flush_runs_with c' (shrink_to_get_ptr s.reader)
          ((n + 2 ^ 32 - (s.index_it + 1) % 2 ^ 32) % 2 ^ 32))
    else (push_rle c s.id s.val (s.rle - 1) >>= λ c'.
        flush_runs_with c' (shrink_to_get_ptr s.reader)
          ((n + 2 ^ 32 - (s.index_it + s.rle) % 2 ^ 32) % 2 ^ 32))

-- genericOp, up to the index that it opens.
unfoldable pub generic_runs : SetOpTraits → RunIndex → RunIndex → Option RunCreator
generic_runs t a b = start_side a >>= λ sa. start_side b >>= λ sb.
    merge_runs (a.size + b.size + 1) t a.size b.size sa sb (creator_of (create_cache 8)) >>= λ r.
    if t.push_first_remainder && ltb r.0.index_it a.size
    then push_rest_runs r.2 a.size r.0
    else if t.push_second_remainder && ltb r.1.index_it b.size
    then push_rest_runs r.2 b.size r.1
    else flush_runs r.2

-- `dest.resetPtrs(); return new ItemIndexPrivateRleDE(dest)`; the creator writes to dest itself.
unfoldable pub get_dest_index : RunCreator → Option RunIndex
get_dest_index c = open_runs (reset_put_ptr (reset_get_ptr c.dest))
