-- ===== src/RleStream.antt =====
-- src/containers/RLEStream.cpp and include/sserialize/containers/RLEStream.h: runs of equal differences.
-- `none` is a thrown exception.
pub mod Chunk
pub mod Run
pub mod Flush
pub mod RoundTrip
mod Examples
use sserialize.Base.{
  ℕ, zero, suc, ◌+◌, ◌-◌, ◌*◌, ◌/◌, ◌%◌, ◌^◌, ◌==◌, ltb, leb, if◌then◌else◌, Bool,
}
use sserialize.Base.{bit_or, bit_and, List, [], ◌∷◌, Option, none, some, ◌>>=◌}
use sserialize.Base.{ℤ, pos, abs, is_negative, sub_ℕ, eqb}
use sserialize.Storage.Adapter.{Adapter}
use sserialize.Storage.Stream.{put_vl_packed_uint64, put_vl_packed_int32}
use sserialize.Storage.Stream.{get_vl_packed_uint64, get_vl_packed_int32}

-- RLEStream::Creator.
pub record Creator : Type 0 where
  pub dest : Adapter
  pub prev_id : ℕ
  pub rle_diff : ℤ
  pub rle_count : ℕ

unfoldable pub create : Adapter → Creator
create dest = record { dest = dest; prev_id = 0; rle_diff = pos 0; rle_count = 0 }

-- putVlPackedUint64 and putVlPackedInt32 on the destination; their results are not looked at.
unfoldable pub put_word : Creator → ℕ → Option Creator
put_word c word = put_vl_packed_uint64 c.dest word >>= λ r. some (record c { dest = r.1 })

unfoldable pub put_diff : Creator → Option Creator
put_diff c = put_vl_packed_int32 c.dest c.rle_diff >>= λ r. some (record c { dest = r.1 })

-- The two stores of m_rleCount and m_rleDiff at the end of flush.
unfoldable pub cleared : Creator → Creator
cleared c = record c { rle_count = 0; rle_diff = pos 0 }

-- `m_rleCount << 2` is of 32 bits; the other shifts are of 64.
unfoldable pub flush : Creator → Option Creator
unfolding cleared
flush c =
    (if c.rle_count == 1
      then if ltb (abs c.rle_diff) c.prev_id
        then if is_negative c.rle_diff
          then put_word c (bit_or (abs c.rle_diff * 4 % 2 ^ 64) 0x1)
          else put_word c (bit_or (abs c.rle_diff * 4 % 2 ^ 64) 0x0)
        else put_word c (bit_or (c.prev_id * 4 % 2 ^ 64) 0x2)
      else if ltb 1 c.rle_count
      then (put_word c (bit_or (c.rle_count * 4 % 2 ^ 32) 0x3) >>= put_diff)
      else some c)
    >>= (λ c'. some (cleared c'))

-- narrow_check<int32_t>.
unfoldable pub is_int32 : ℤ → Bool
is_int32 d = if is_negative d then leb (abs d) (2 ^ 31) else ltb (abs d) (2 ^ 31)

-- RLEStream::Creator::put.
unfoldable pub put : Creator → ℕ → Option Creator
unfolding is_int32
put c value =
    let my_diff = sub_ℕ value c.prev_id in
    if is_int32 my_diff
    then if eqb my_diff c.rle_diff
      then some (record c { rle_count = (c.rle_count + 1) % 2 ^ 32; prev_id = value })
      else (flush c
          >>= (λ c'. some (record c' { rle_count = 1; rle_diff = my_diff; prev_id = value })))
    else none

unfoldable pub checkpoint : Creator → ℕ → Option Creator
checkpoint c value =
    flush c >>= λ c'. put_word (record c' { prev_id = value }) (bit_or (value * 4 % 2 ^ 64) 0x2)

-- A caller's loop over its values, and the destructor, which flushes.
unfoldable pub put_all : Creator → List ℕ → Option Creator
put_all c [] = flush c
put_all c (v ∷ vs) = put c v >>= λ c'. put_all c' vs

-- RLEStream.
pub record Stream : Type 0 where
  pub d : Adapter
  pub cur_rle_count : ℕ
  pub cur_rle_diff : ℤ
  pub cur_id : ℕ

-- The members before the constructor's operator++.
unfoldable pub stream : Adapter → Stream
stream d = record { d = d; cur_rle_count = 0; cur_rle_diff = pos 0; cur_id = 0 }

-- The part of operator++ behind the switch: one step of the current run.
unfoldable pub run_step : Stream → Stream
run_step s = record s {
  cur_rle_count = (s.cur_rle_count + 2 ^ 32 - 1) % 2 ^ 32;
  cur_id =
      if is_negative s.cur_rle_diff
      then (s.cur_id + 2 ^ 32 - abs s.cur_rle_diff) % 2 ^ 32
      else (s.cur_id + abs s.cur_rle_diff) % 2 ^ 32;
}

-- The switch over the two low bits of the word, with the other bits in `cur`.
unfoldable pub dispatch : Stream → ℕ → ℕ → Option Stream
dispatch s tmp cur =
    if tmp == 0x0
    then some (record s { cur_id = (s.cur_id + cur) % 2 ^ 64 % 2 ^ 32 })
    else if tmp == 0x1
    then some (record s { cur_id = (s.cur_id + 2 ^ 64 - cur) % 2 ^ 64 % 2 ^ 32 })
    else if tmp == 0x2
    then some (record s { cur_id = cur % 2 ^ 32 })
    else (get_vl_packed_int32 s.d >>= λ r.
        some (run_step (record s { d = r.1; cur_rle_count = cur % 2 ^ 32; cur_rle_diff = r.0 })))

-- The word of the try block: 0 behind the end of the data.
abbrev pub word_or_zero : Stream → Option (ℕ × Adapter) → ℕ × Stream
word_or_zero s none = (0, s)
word_or_zero s (some (w, d')) = (w, record s { d = d' })

unfoldable pub fetch : Stream → ℕ × Stream
fetch s = word_or_zero s (get_vl_packed_uint64 s.d)

-- operator++.
unfoldable pub next : Stream → Option Stream
next s =
    if s.cur_rle_count == 0
    then (let (w, s') = fetch s in dispatch s' (bit_and w 0x3) (w / 4))
    else some (run_step s)

-- `n` times operator++ followed by operator*.
unfoldable pub read_values : ℕ → Stream → Option (List ℕ × Stream)
read_values zero s = some ([], s)
read_values (suc n) s = next s >>= λ s'. read_values n s' >>= λ r. some (s'.cur_id ∷ r.0, r.1)
