-- ===== src/ItemIndex/RunDelta/BitSet.antt =====
-- ItemIndexPrivateRleDE::fromBitSet: the index of the positions of a bit set.
pub mod Positions
pub mod Result
use sserialize.Base.{
  ℕ, zero, suc, true, false, ◌+◌, ◌/◌, ◌%◌, ◌^◌, ◌==◌, ltb, if◌then◌else◌, bit_and, List, [], ◌∷◌,
  length, Option, none, some, ◌>>=◌,
}
use sserialize.DynamicBitSet.{DynamicBitSet}
use sserialize.ItemIndex.Delta.{create_cache}
use sserialize.ItemIndex.RunDelta.{RunCreator, creator_of, push_back_run, flush_runs}

-- The inner loop, from the bit that stands for `id`, which is curId + i. A byte has eight bits, so that
-- nothing is left of it after eight rounds.
unfoldable pub push_byte : ℕ → ℕ → ℕ → RunCreator → Option RunCreator
push_byte zero id byte c = if byte == 0 then some c else none
push_byte (suc fuel) id byte c = elim (byte == 0) [
  | true ↦ some c
  | false ↦ (if bit_and byte 0x1 == 0 then some c else push_back_run c (id % 2 ^ 32)) >>= λ c'.
      push_byte fuel (id + 1) (byte / 2) c'
]

-- The outer loop.
unfoldable pub push_bytes : ℕ → List ℕ → RunCreator → Option RunCreator
push_bytes cur_id [] c = some c
push_bytes cur_id (byte ∷ bytes) c =
    push_byte 8 cur_id byte c >>= λ c'. push_bytes ((cur_id + 8) % 2 ^ 32) bytes c'

-- fromBitSet, up to getPrivateIndex; narrow_check throws.
unfoldable pub from_bit_set : DynamicBitSet → Option RunCreator
from_bit_set s =
    if ltb (length s.bytes) (2 ^ 32)
    then (push_bytes 0 s.bytes (creator_of (create_cache (length s.bytes))) >>= flush_runs)
    else none
