-- ===== src/Storage/Examples.antt =====
-- Runs of the storage operations and of their theorems.
use sserialize.Base.{◌+◌, ◌≤◌, ◌≡◌, ◌↔◌, refl, arith, [], ◌∷◌, ◌++◌, length, take, drop, some, true}
use sserialize.Storage.Adapter.{Adapter, window}
use sserialize.Storage.Adapter.{
  resize, reserve_from_put_ptr, shrink_to_get_ptr, shrink_to_put_ptr, shrink_storage,
}
use sserialize.Storage.Adapter.Valid.{IsValid, resize-IsValid}
use sserialize.Storage.Adapter.Shrink.{
  shrink_window, shrink_to_get_ptr-IsValid_iff, shrink_storage_vector,
}
use sserialize.Storage.Stream.{get_vl_packed_uint32}
use sserialize.Storage.Stream.Append.{IsAtEnd}
use sserialize.Storage.Stream.Read.{unread, advanced, get_vl_packed_uint32-groups}
use sserialize.Pack.Varint.Groups.{groups}

-- Four bytes with the get pointer at the second and the put pointer at the end.
abbrev four : Adapter
four = record { storage = 172 ∷ 2 ∷ 5 ∷ 6 ∷ []; off_set = 0; len = 4; get_ptr = 0; put_ptr = 4 }

four-IsValid : IsValid four
four-IsValid = omega arith

four-IsAtEnd : IsAtEnd four
four-IsAtEnd = omega arith

resize-IsValid_example :
    ((e : Adapter) × (resize four 9 ≡ some (true, e)) × IsValid e × (e.len ≡ 9))
    × ((e : Adapter) × (reserve_from_put_ptr four 9 ≡ some (true, e))
        × IsValid e
        × (e.put_ptr + 9 ≤ e.len))
resize-IsValid_example = resize-IsValid four 9 four-IsValid (omega arith)

shrink_window_example :
    (window (shrink_to_get_ptr four) ≡ drop four.get_ptr (window four))
    × ((shrink_to_get_ptr four).get_ptr ≡ 0)
    × ((shrink_to_get_ptr four).put_ptr ≡ four.put_ptr)
    × (window (shrink_to_put_ptr four) ≡ drop four.put_ptr (window four))
    × ((shrink_to_put_ptr four).put_ptr ≡ 0)
    × ((shrink_to_put_ptr four).get_ptr ≡ four.get_ptr)
shrink_window_example = shrink_window four four-IsValid

shrink_to_get_ptr-IsValid_iff_example :
    IsValid (shrink_to_get_ptr four) ↔ (four.put_ptr + four.get_ptr ≤ four.len)
shrink_to_get_ptr-IsValid_iff_example = shrink_to_get_ptr-IsValid_iff four four-IsValid

shrink_storage_vector_example :
    ((shrink_storage four 1).storage ≡ take 1 four.storage) × (¬ IsValid (shrink_storage four 1))
shrink_storage_vector_example =
    shrink_storage_vector four 1 four-IsValid refl (omega arith) (omega arith)

bytes_32 : unread four ≡ groups 5 300 ++ (5 ∷ 6 ∷ [])
unfolding groups
bytes_32 = refl

get_vl_packed_uint32-groups_example :
    get_vl_packed_uint32 four ≡ some (300, advanced four (length (groups 5 300)))
get_vl_packed_uint32-groups_example =
    get_vl_packed_uint32-groups four four-IsValid (omega arith) (5 ∷ 6 ∷ []) 300 (omega arith)
      bytes_32
