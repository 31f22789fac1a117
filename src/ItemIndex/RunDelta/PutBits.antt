-- ===== src/ItemIndex/RunDelta/PutBits.antt =====
-- ItemIndexPrivateRleDE::putInto(DynamicBitSet&): the ids of an index are set in a bit set.
pub mod Ids
use sserialize.Base.{
  ℕ, zero, suc, true, false, ◌+◌, ◌-◌, ◌*◌, ◌/◌, ◌%◌, ◌^◌, ◌==◌, ltb, bit_and, Option, none, some,
  ◌>>=◌,
}
use sserialize.DynamicBitSet.{DynamicBitSet, set_bit}
use sserialize.Storage.Adapter.{Adapter}
use sserialize.Storage.Stream.{get_vl_packed_uint32}
use sserialize.ItemIndex.RunDelta.{RunIndex}

-- `while (rle) { prev += val; … }`: the bit set, and where the loop leaves prev.
unfoldable pub set_run : ℕ → ℕ → ℕ → DynamicBitSet → DynamicBitSet × ℕ
set_run zero val prev s = (s, prev)
set_run (suc rle) val prev s = let id = (prev + val) % 2 ^ 32 in set_run rle val id (set_bit s id)

-- The loop over the words. The last id of a run is set first.
unfoldable pub put_bits : ℕ → ℕ → ℕ → Adapter → ℕ → DynamicBitSet → Option DynamicBitSet
put_bits zero size count d prev s = none
put_bits (suc fuel) size count d prev s = elim (ltb count size) [
  | true ↦ get_vl_packed_uint32 d >>= λ r. elim (bit_and r.0 0x1 == 0) [
    | true ↦
        let id = (prev + r.0 / 2) % 2 ^ 32 in
        put_bits fuel size ((count + 1) % 2 ^ 32) r.1 id (set_bit s id)
    | false ↦ get_vl_packed_uint32 r.1 >>= λ w.
        let rle = r.0 / 2 in
        let val = w.0 / 2 in
        let t =
          set_run ((rle + 2 ^ 32 - 1) % 2 ^ 32) val prev
            (set_bit s ((prev + rle * val) % 2 ^ 32)) in
        put_bits fuel size ((count + rle) % 2 ^ 32) w.1 ((t.1 + val) % 2 ^ 32) t.0
  ]
  | false ↦ some s
]

-- Every round reads a byte at least.
unfoldable pub put_into_bit_set : RunIndex → DynamicBitSet → Option DynamicBitSet
put_into_bit_set i s = put_bits (i.body.len + 1) i.size 0 i.body 0 s
