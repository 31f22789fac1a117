-- ===== src/Storage/Stream.antt =====
-- The streaming functions of src/storage/UByteArrayAdapter.cpp at the get and the put pointer, and the
-- positional functions that they call. `none` is a thrown exception.
pub mod Append
pub mod Read
pub mod Over
use sserialize.Base.{
  ℕ, ◌+◌, ◌-◌, ◌%◌, ◌^◌, ltb, leb, ◌==◌, if◌then◌else◌, min, List, ◌++◌, take, drop,
}
use sserialize.Base.{length, replicate, Option, none, some, ◌>>=◌, ℤ, negsuc, abs, is_negative}
use sserialize.Storage.Adapter.{Adapter, grow_storage}
use sserialize.Pack.Varint.{p_v_u32, p_v_u64}
use sserialize.Pack.Signed.{p_vs32, up_v_signed}
use sserialize.Pack.Unpack.{up_v}
use sserialize.Pack.Fixed.{p_u8, p_u32, read_word}

-- `pos + length` wraps around.
unfoldable pub range_check : Adapter → ℕ → ℕ → Option (Unit {0})
range_check d pos n = if ltb d.len ((pos + n) % 2 ^ 64) then none else some tt

-- The callers throw where the result is false.
unfoldable pub resize_for_push : Adapter → ℕ → ℕ → Option Adapter
resize_for_push d pos n =
    if ltb d.len ((pos + n) % 2 ^ 64)
    then (grow_storage d ((pos + n) % 2 ^ 64 - d.len) >>= λ r. if r.0 then some r.1 else none)
    else some d

-- UByteArrayAdapterPrivateArray::put, a memmove to `pos` in the storage.
unfoldable pub write_at : List ℕ → ℕ → List ℕ → List ℕ
write_at bytes pos src = take pos bytes ++ (src ++ drop (pos + length src) bytes)

unfoldable pub put_data_at : Adapter → ℕ → List ℕ → Option Adapter
put_data_at d pos src =
    if length src == 0
    then some d
    else range_check d pos (length src) >>= λ ok.
        some (record d { storage = write_at d.storage (d.off_set + pos) src })

unfoldable pub put_data : Adapter → List ℕ → Option Adapter
put_data d src = resize_for_push d d.put_ptr (length src) >>= λ e.
    put_data_at e e.put_ptr src >>= λ e'. some (record e' { put_ptr = e'.put_ptr + length src })

-- putUint8 and putUint32 at a position store the bytes of their word.
unfoldable pub put_word_at : Adapter → ℕ → List ℕ → Option Adapter
put_word_at d pos word = range_check d pos (length word) >>= λ ok.
    some (record d { storage = write_at d.storage (d.off_set + pos) word })

unfoldable pub put_word : Adapter → List ℕ → Option Adapter
put_word d word = resize_for_push d d.put_ptr (length word) >>= λ e.
    put_word_at e e.put_ptr word >>= λ e'. some (record e' { put_ptr = e'.put_ptr + length word })

unfoldable pub put_uint8 : Adapter → ℕ → Option Adapter
put_uint8 d value = put_word d (p_u8 value)

unfoldable pub put_uint32 : Adapter → ℕ → Option Adapter
put_uint32 d value = put_word d (p_u32 value)

unfoldable pub put_uint32_at : Adapter → ℕ → ℕ → Option Adapter
put_uint32_at d pos value = put_word_at d pos (p_u32 value)

-- UBA_PUT_VL_STREAMING_FUNC: `packed` is what the pack function returns and leaves in `tmp`, of which
-- only the first bytes are used.
unfoldable pub put_vl : Adapter → Option (ℤ × List ℕ) → Option (ℤ × Adapter)
put_vl d packed = packed >>= λ r.
    if is_negative r.0
    then some (negsuc 0, d)
    else put_data d (take (abs r.0) r.1) >>= λ e. some (r.0, e)

unfoldable pub put_vl_packed_uint32 : Adapter → ℕ → Option (ℤ × Adapter)
put_vl_packed_uint32 d value = put_vl d (p_v_u32 value (replicate 5 0))

unfoldable pub put_vl_packed_uint64 : Adapter → ℕ → Option (ℤ × Adapter)
put_vl_packed_uint64 d value = put_vl d (p_v_u64 value (replicate 10 0))

unfoldable pub put_vl_packed_int32 : Adapter → ℤ → Option (ℤ × Adapter)
put_vl_packed_int32 d value = put_vl d (p_vs32 value (replicate 5 0))

-- The bytes that m_priv's unpack functions are given: at most `most` of those at `pos`.
unfoldable pub unpack_buffer : Adapter → ℕ → ℕ → List ℕ
unpack_buffer d most pos = take (min most (d.len - pos)) (drop (d.off_set + pos) d.storage)

-- A read of a variable-length value at the get pointer. A negative length is an exception.
unfoldable pub get_vl {ℓ} : {A : Type ℓ} → Adapter → Option (A × ℤ) → Option (A × Adapter)
get_vl d unpacked = range_check d d.get_ptr 1 >>= λ ok. unpacked >>= λ r.
    if is_negative r.1 then none else some (r.0, record d { get_ptr = d.get_ptr + abs r.1 })

unfoldable pub get_vl_packed_uint32 : Adapter → Option (ℕ × Adapter)
get_vl_packed_uint32 d = get_vl d (up_v 32 (unpack_buffer d 5 d.get_ptr))

unfoldable pub get_vl_packed_uint64 : Adapter → Option (ℕ × Adapter)
get_vl_packed_uint64 d = get_vl d (up_v 64 (unpack_buffer d 10 d.get_ptr))

unfoldable pub get_vl_packed_int32 : Adapter → Option (ℤ × Adapter)
get_vl_packed_int32 d = get_vl d (up_v_signed 32 (unpack_buffer d 5 d.get_ptr))

-- A word of `n` bytes at a position.
unfoldable pub get_word_at : Adapter → ℕ → ℕ → Option ℕ
get_word_at d pos n = range_check d pos n >>= λ ok. read_word n (drop (d.off_set + pos) d.storage)

unfoldable pub get_uint32_at : Adapter → ℕ → Option ℕ
get_uint32_at d pos = get_word_at d pos 4
