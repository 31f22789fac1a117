-- ===== src/Storage/Adapter.antt =====
-- The window of a UByteArrayAdapter and the operations that move it or its two pointers. `storage` is
-- the vector behind m_priv. `none` is a thrown exception.
pub mod Valid
pub mod Shrink
use sserialize.Base.{ℕ, ◌+◌, ◌-◌, ◌%◌, ◌^◌, ltb, leb, if◌then◌else◌, min, List, ◌++◌, take, drop}
use sserialize.Base.{length, replicate, Option, none, some, ◌>>=◌, Bool, true, false}

pub record Adapter : Type 0 where
  pub storage : List ℕ
  pub off_set : ℕ
  pub len : ℕ
  pub get_ptr : ℕ
  pub put_ptr : ℕ

-- The bytes that the adapter shows.
abbrev pub window : Adapter → List ℕ
window d = take d.len (drop d.off_set d.storage)

-- UByteArrayAdapter(std::vector<uint8_t>*).
unfoldable pub of_vector : List ℕ → Adapter
of_vector bytes = record {
  storage = bytes;
  off_set = 0;
  len = length bytes;
  get_ptr = 0;
  put_ptr = 0;
}

-- A pointer of a window that starts `add_offset` bytes later, in the two constructors below. They
-- compare with their own pointer, which is still 0.
sub_ptr : ℕ → ℕ → ℕ → ℕ
sub_ptr add_offset len ptr =
    if ltb 0 add_offset then 0 else if leb len (ptr - add_offset) then len else ptr - add_offset

unfoldable pub sub_adapter : Adapter → ℕ → Adapter
unfolding sub_ptr
sub_adapter d add_offset =
    let a = if ltb d.len add_offset then d.len else add_offset in
    let l = d.len - a in
    record {
      storage = d.storage;
      off_set = d.off_set + a;
      len = l;
      get_ptr = sub_ptr a l d.get_ptr;
      put_ptr = sub_ptr a l d.put_ptr;
    }

unfoldable pub sub_adapter_len : Adapter → ℕ → ℕ → Adapter
unfolding sub_ptr
sub_adapter_len d add_offset smaller_len =
    let a = if ltb d.len add_offset then d.len else add_offset in
    let l = if ltb smaller_len (d.len - a) then smaller_len else d.len - a in
    record {
      storage = d.storage;
      off_set = d.off_set + a;
      len = l;
      get_ptr = sub_ptr a l d.get_ptr;
      put_ptr = sub_ptr a l d.put_ptr;
    }

unfoldable pub set_put_ptr : Adapter → ℕ → Adapter
set_put_ptr d pos = record d { put_ptr = if leb d.len pos then d.len else pos }

unfoldable pub inc_put_ptr : Adapter → ℕ → Adapter
unfolding set_put_ptr
inc_put_ptr d num = set_put_ptr d (d.put_ptr + num)

unfoldable pub dec_put_ptr : Adapter → ℕ → Adapter
unfolding set_put_ptr
dec_put_ptr d num = set_put_ptr d (d.put_ptr - min num d.put_ptr)

unfoldable pub reset_put_ptr : Adapter → Adapter
reset_put_ptr d = record d { put_ptr = 0 }

unfoldable pub set_get_ptr : Adapter → ℕ → Adapter
set_get_ptr d pos = record d { get_ptr = if leb d.len pos then d.len else pos }

unfoldable pub inc_get_ptr : Adapter → ℕ → Adapter
unfolding set_get_ptr
inc_get_ptr d num = set_get_ptr d (d.get_ptr + num)

unfoldable pub dec_get_ptr : Adapter → ℕ → Adapter
unfolding set_get_ptr
dec_get_ptr d num = set_get_ptr d (d.get_ptr - min num d.get_ptr)

unfoldable pub reset_get_ptr : Adapter → Adapter
reset_get_ptr d = record d { get_ptr = 0 }

-- The comparison of the other pointer is with a pointer that was set to 0 two lines above it, and
-- nothing is subtracted.
unfoldable pub shrink_to_put_ptr : Adapter → Adapter
shrink_to_put_ptr d =
    let p = if ltb d.len d.put_ptr then d.len else d.put_ptr in
    record d {
      off_set = d.off_set + p;
      len = d.len - p;
      put_ptr = 0;
      get_ptr = if ltb d.get_ptr 0 then 0 else d.get_ptr - 0;
    }

unfoldable pub shrink_to_get_ptr : Adapter → Adapter
shrink_to_get_ptr d =
    let g = if ltb d.len d.get_ptr then d.len else d.get_ptr in
    record d {
      off_set = d.off_set + g;
      len = d.len - g;
      get_ptr = 0;
      put_ptr = if ltb d.put_ptr 0 then 0 else d.put_ptr - 0;
    }

-- UByteArrayAdapterPrivateVector::shrinkStorage, which takes the bytes to drop, and growStorage, which
-- takes the size to reach and fills with zeros.
unfoldable pub vector_shrink_storage : List ℕ → ℕ → List ℕ
vector_shrink_storage bytes size =
    let s = if ltb (length bytes) size then length bytes else size in take (length bytes - s) bytes

-- std::vector::resize throws a length_error above its max_size.
abbrev pub max_size : ℕ
max_size = 2 ^ 63 - 1

unfoldable pub vector_grow_storage : List ℕ → ℕ → Option (List ℕ)
vector_grow_storage bytes size =
    if ltb (length bytes) size
    then if ltb max_size size then none else some (bytes ++ replicate (size - length bytes) 0)
    else some bytes

-- Always succeeds on a vector.
unfoldable pub shrink_storage : Adapter → ℕ → Adapter
unfolding vector_shrink_storage
shrink_storage d byte =
    let b = if ltb d.len byte then d.len else byte in
    record d { storage = vector_shrink_storage d.storage (d.off_set + d.len - b); len = d.len - b }

-- With the result: false where the size would wrap around.
unfoldable pub grow_storage : Adapter → ℕ → Option (Bool × Adapter)
unfolding vector_grow_storage
grow_storage d byte =
    if ltb ((d.off_set + d.len + byte) % 2 ^ 64) (d.off_set + d.len)
    then some (false, d)
    else vector_grow_storage d.storage ((d.off_set + d.len + byte) % 2 ^ 64) >>= λ s.
        some (true, record d { storage = s; len = d.len + byte })

unfoldable pub resize : Adapter → ℕ → Option (Bool × Adapter)
unfolding grow_storage
resize d byte =
    if ltb byte d.len
    then some (
      true,
      record d {
        len = byte;
        get_ptr = if ltb byte d.get_ptr then byte else d.get_ptr;
        put_ptr = if ltb byte d.put_ptr then byte else d.put_ptr;
      },
    )
    else grow_storage d (byte - d.len)

unfoldable pub reset_to_storage : Adapter → Adapter
reset_to_storage d = record d { put_ptr = 0; get_ptr = 0; off_set = 0; len = length d.storage }

unfoldable pub reserve_from_put_ptr : Adapter → ℕ → Option (Bool × Adapter)
unfolding grow_storage
reserve_from_put_ptr d bytes =
    let need = ((d.put_ptr + bytes) % 2 ^ 64 + 2 ^ 64 - d.len) % 2 ^ 64 in
    if ltb d.put_ptr d.len
    then if leb bytes (d.len - d.put_ptr) then some (true, d) else grow_storage d need
    else grow_storage d need
