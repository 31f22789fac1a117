-- ===== src/ItemIndex/RunDelta/BitSet/Result.antt =====
-- The index that fromBitSet builds has the positions of the bit set.
use sserialize.Base.{
  ℕ, zero, suc, true, ◌+◌, ◌-◌, ◌*◌, ◌/◌, ◌%◌, ◌^◌, ◌<◌, ◌≤◌, ◌≡◌, refl, sym, ap, ◌∙◌, arith, ◌==◌,
  ltb, Bool-cases, inl, inr, if◌then◌else◌,
}
use sserialize.Base.{
  List, [], ◌∷◌, append-nil, length, length-append, length-replicate, replicate, some, All,
}
use sserialize.Storage.Adapter.{Adapter, of_vector, sub_adapter, reset_get_ptr}
use sserialize.Storage.Stream.Over.{over}
use sserialize.DynamicBitSet.{DynamicBitSet, is_set}
use sserialize.DynamicBitSet.Member.{is_set-digit}
use sserialize.ItemIndex.SetOp.Member.{IsAscending, has}
use sserialize.ItemIndex.Delta.{create_cache}
use sserialize.ItemIndex.RunDelta.{
  RunCreator, RunIndex, creator_of, flush_runs, open_runs, get_run_index, put_into_runs,
}
use sserialize.ItemIndex.RunDelta.Read.{IsRunIndexOf, put_into_runs-IsRunIndexOf}
use sserialize.ItemIndex.RunDelta.Write.{push_each-Holds}
use sserialize.ItemIndex.RunDelta.RoundTrip.{creator_of-Holds}
use sserialize.ItemIndex.RunDelta.Operation.Kept.{Rises-AreNear}
use sserialize.ItemIndex.RunDelta.Operation.Open.{Shows, over-IsOn}
use sserialize.ItemIndex.RunDelta.Operation.Flush.{flush_runs-result}
use sserialize.ItemIndex.RunDelta.BitSet.{push_bytes, from_bit_set}
use sserialize.ItemIndex.RunDelta.BitSet.Positions.{
  byte_ids, bytes_ids, push_bytes-push_each, bytes_ids-Rises, Rises-IsAscending, has-bytes_ids,
}

-- The view of the cache that getPrivateIndex opens.
abbrev from_start : Adapter → Adapter
from_start d = sub_adapter d 0

from_start-Shows : Shows from_start
unfolding sub_adapter reset_get_ptr
from_start-Shows x pad room =
    let z : (if ltb (length x + pad) 0 then length x + pad else 0) ≡ 0 = ground arith in
    let m : length x + pad - 0 ≡ length x + pad = omega arith in rw (z, m) (over-IsOn x pad _ room)

create_cache-over : (n : ℕ) → (k : ℕ) × (k ≤ n + 1) × (create_cache n ≡ over [] k)
unfolding create_cache of_vector
create_cache-over n =
    let k = if n == 0 then 1 else n in
    let l : length (replicate k 0) ≡ 0 + k = omega (arith, length-replicate {A = ℕ} k 0) in
    (k, ground arith, ap (λ (m : ℕ). record (over [] k) { len = m }) l)

length-byte_ids : (k id b : ℕ) → length (byte_ids k id b) ≤ k
length-byte_ids zero id b = omega arith
length-byte_ids (suc k) id b =
    let ih = length-byte_ids k (id + 1) (b / 2) in
    elim (Bool-cases (b % 2 == 0)) [ inl e ↦ rw e (omega arith) | inr e ↦ rw e (omega arith) ]

length-bytes_ids : (bs : List ℕ) (id : ℕ) → length (bytes_ids id bs) ≤ 8 * length bs
length-bytes_ids [] id = omega arith
length-bytes_ids (b ∷ bs) id = omega (
  arith,
  length-append (byte_ids 8 id b) (bytes_ids (id + 8) bs),
  length-byte_ids 8 id b,
  length-bytes_ids bs (id + 8),
)

from_bit_set-pushed :
    (s : DynamicBitSet) (c1 c : RunCreator)
    → ltb (length s.bytes) (2 ^ 32) ≡ true
    → push_bytes 0 s.bytes (creator_of (create_cache (length s.bytes))) ≡ some c1
    → flush_runs c1 ≡ some c
    → from_bit_set s ≡ some c
unfolding from_bit_set
from_bit_set-pushed s c1 c l p f = rw (l, p, f) refl

get_run_index-from_start :
    (c : RunCreator) (i : RunIndex)
    → c.beginning ≡ 0
    → open_runs (from_start c.dest) ≡ some i
    → get_run_index c ≡ some i
unfolding get_run_index
get_run_index-from_start c i z o = ap (λ (b : ℕ). open_runs (sub_adapter c.dest b)) z ∙ o

-- `s` is a bit set of fewer than 2 ^ 25 bytes. fromBitSet does not throw, and it returns a valid
-- run-length index; putInto gives its ids, which are strictly ascending, and an id is in it exactly
-- where isSet holds.
pub put_into_runs-from_bit_set :
    (s : DynamicBitSet)
    → All (λ (b : ℕ). b < 2 ^ 8) s.bytes
    → length s.bytes < 2 ^ 25
    → (c : RunCreator) × (i : RunIndex) × (ids : List ℕ) × (from_bit_set s ≡ some c)
      × (get_run_index c ≡ some i)
      × IsRunIndexOf i ids
      × (put_into_runs i ≡ some ids)
      × IsAscending 0 ids
      × ((v : ℕ) → has v ids ≡ is_set s v)
put_into_runs-from_bit_set s small few =
    let bs = s.bytes in
    let n = length bs in
    let ids = bytes_ids 0 bs in
    let le = length-bytes_ids bs 0 in
    let rises = bytes_ids-Rises bs 0 (omega arith) in
    let (k, hk, e) = create_cache-over n in
    let c0 = creator_of (create_cache n) in
    let near = Rises-AreNear ids [] 0 0 (rw append-nil rises) (omega arith) (omega arith) in
    let (c1, rs, p, h, d, b) =
      push_each-Holds ids c0 [] [] (creator_of-Holds (create_cache n)) (unfold creator_of in near)
        (omega arith) in
    let d0 : c0.dest ≡ over [] k = unfold creator_of in e in
    let b0 : c0.beginning ≡ 0 = unfold creator_of in ap (λ (a : Adapter). a.put_ptr) e in
    let (c, i, f, z, o, w) =
      flush_runs-result k (omega arith) from_start from_start-Shows c1 rs ids h (d ∙ d0) (b ∙ b0)
        (omega arith) in
    let q = push_bytes-push_each bs 0 c0 small (omega arith) in
    let fits : ltb n (2 ^ 32) ≡ true = ground arith in
    let run = from_bit_set-pushed s c1 c fits (q ∙ p) f in
    let opened = get_run_index-from_start c i z o in
    (
      c,
      i,
      ids,
      run,
      opened,
      w,
      put_into_runs-IsRunIndexOf i ids w,
      Rises-IsAscending ids 0 rises,
      λ v.
          ap (λ (u : ℕ). has u ids) (let u : v ≡ 0 + v = omega arith in u)
          ∙ has-bytes_ids bs 0 v (omega arith)
          ∙ sym (is_set-digit s v),
    )
