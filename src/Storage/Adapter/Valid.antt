-- ===== src/Storage/Adapter/Valid.antt =====
-- The invariant of an adapter, and the operations that keep it.
use sserialize.Base.{
  ℕ, ◌+◌, ◌-◌, ◌^◌, ◌≤◌, ◌≡◌, ◌∙◌, arith, length, length-append, length-replicate,
}
use sserialize.Base.{
  refl, Option, some, replicate, List, ◌++◌, ltb, leb, if◌then◌else◌, Bool, true, false, Bool-cases,
  inl, inr, ◌%◌,
}
use sserialize.Storage.Adapter.{Adapter, of_vector, sub_adapter, sub_adapter_len, set_put_ptr}
use sserialize.Storage.Adapter.{inc_put_ptr, dec_put_ptr, reset_put_ptr, set_get_ptr, inc_get_ptr}
use sserialize.Storage.Adapter.{dec_get_ptr, reset_get_ptr, resize, reset_to_storage, grow_storage}
use sserialize.Storage.Adapter.{vector_grow_storage, reserve_from_put_ptr, max_size}

-- The window lies in the storage, and the pointers in the window or at its end.
pub record IsValid (d : Adapter) : Type 0 where
  pub inside : d.off_set + d.len ≤ length d.storage
  pub get_inside : d.get_ptr ≤ d.len
  pub put_inside : d.put_ptr ≤ d.len

-- The adapter of a vector is valid.
pub of_vector-IsValid : (bytes : List ℕ) → IsValid (of_vector bytes)
unfolding of_vector
of_vector-IsValid bytes = omega arith

-- Both constructors of a sub-window of a valid adapter give a valid adapter, whatever their arguments.
pub sub_adapter-IsValid :
    (d : Adapter) (a l : ℕ)
    → IsValid d
    → IsValid (sub_adapter d a) × IsValid (sub_adapter_len d a l)
unfolding sub_adapter sub_adapter_len
sub_adapter-IsValid d a l v = (ground arith, ground arith)

-- Moving or resetting a pointer keeps the invariant, wherever it is moved to.
pub seek-IsValid :
    (d : Adapter) (n : ℕ)
    → IsValid d
    → IsValid (set_put_ptr d n)
      × IsValid (inc_put_ptr d n)
      × IsValid (dec_put_ptr d n)
      × IsValid (set_get_ptr d n)
      × IsValid (inc_get_ptr d n)
      × IsValid (dec_get_ptr d n)
      × IsValid (reset_put_ptr d)
      × IsValid (reset_get_ptr d)
      × IsValid (reset_to_storage d)
unfolding inc_put_ptr dec_put_ptr inc_get_ptr dec_get_ptr reset_put_ptr reset_get_ptr
    reset_to_storage
seek-IsValid d n v = (
  ground arith,
  ground arith,
  ground arith,
  ground arith,
  ground arith,
  ground arith,
  omega arith,
  omega arith,
  omega arith,
)

length-vector_grow_storage :
    (bytes more : List ℕ) (n : ℕ)
    → vector_grow_storage bytes n ≡ some more
    → (n ≤ length more) × (length bytes ≤ length more)
unfolding vector_grow_storage
length-vector_grow_storage bytes more n h =
    let k = n - length bytes in
    ground (arith, length-append bytes (replicate k 0), length-replicate {A = ℕ} k 0)

module _ (d : Adapter) (n : ℕ) (v : IsValid d) where
  -- What growStorage leaves: the result is true and the window has `n` bytes more.
  record Grown (o : Option (Bool × Adapter)) : Type 0 where
    after : Adapter
    result : o ≡ some (true, after)
    valid : IsValid after
    longer : after.len ≡ d.len + n
    same_get : after.get_ptr ≡ d.get_ptr
    same_put : after.put_ptr ≡ d.put_ptr

  grow_storage-Grown : d.off_set + d.len + n ≤ max_size → Grown (grow_storage d n)
  unfolding grow_storage vector_grow_storage
  grow_storage-Grown fits =
      let size = d.off_set + d.len + n in
      let k = size - length d.storage in
      let e : size % 2 ^ 64 ≡ size = omega arith in
      let l : ltb size (d.off_set + d.len) ≡ false = ground arith in
      let m : ltb max_size size ≡ false = ground arith in
      elim (Bool-cases (ltb (length d.storage) size)) [
        | inl less ↦ record {
          after = record d { storage = d.storage ++ replicate k 0; len = d.len + n };
          result = rw (e, l, less, m) refl;
          valid =
              omega (arith, length-append d.storage (replicate k 0), length-replicate {A = ℕ} k 0);
          longer = refl;
          same_get = refl;
          same_put = refl;
        }
        | inr enough ↦ record {
          after = record d { len = d.len + n };
          result = rw (e, l, enough) refl;
          valid = let le : size ≤ length d.storage = ground arith in omega arith;
          longer = refl;
          same_get = refl;
          same_put = refl;
        }
      ]

module _ (d : Adapter) (n : ℕ) (v : IsValid d) (fits : d.off_set + d.len + n ≤ max_size) where
  resize_result : (e : Adapter) × (resize d n ≡ some (true, e)) × IsValid e × (e.len ≡ n)
  unfolding resize
  resize_result = elim (Bool-cases (ltb n d.len)) [
    | inl less ↦
        let lt : n ≤ d.len = ground arith in
        (
          record d {
            len = n;
            get_ptr = if ltb n d.get_ptr then n else d.get_ptr;
            put_ptr = if ltb n d.put_ptr then n else d.put_ptr;
          },
          rw less refl,
          ground arith,
          refl,
        )
    | inr more ↦
        let le : d.len ≤ n = ground arith in
        let g = grow_storage-Grown d (n - d.len) v (omega arith) in
        (g.after, rw more g.result, g.valid, omega (arith, g.longer))
  ]

  reserve_result :
      (e : Adapter) × (reserve_from_put_ptr d n ≡ some (true, e))
      × IsValid e
      × (e.put_ptr + n ≤ e.len)
  unfolding reserve_from_put_ptr
  reserve_result = elim (Bool-cases (leb n (d.len - d.put_ptr))) [
    | inl enough ↦ elim (Bool-cases (ltb d.put_ptr d.len)) [
      | inl inside ↦ (d, rw (inside, enough) refl, v, ground arith)
      | inr at_end ↦
          let le : d.len ≤ d.put_ptr = ground arith in
          let few : n ≤ d.len - d.put_ptr = ground arith in
          let put = v.put_inside in
          let need : ((d.put_ptr + n) % 2 ^ 64 + 2 ^ 64 - d.len) % 2 ^ 64 ≡ 0 = omega arith in
          let e : reserve_from_put_ptr d n ≡ grow_storage d 0 = rw (at_end, need) refl in
          let g = grow_storage-Grown d 0 v (omega arith) in
          (g.after, e ∙ g.result, g.valid, omega (arith, g.longer, g.same_put))
    ]
    | inr less ↦
        let lt : d.len ≤ d.put_ptr + n = ground arith in
        let put = v.put_inside in
        let k = d.put_ptr + n - d.len in
        let need : ((d.put_ptr + n) % 2 ^ 64 + 2 ^ 64 - d.len) % 2 ^ 64 ≡ k = omega arith in
        let e : reserve_from_put_ptr d n ≡ grow_storage d k =
          elim (Bool-cases (ltb d.put_ptr d.len)) [
            | inl inside ↦ rw (inside, less, need) refl
            | inr at_end ↦ rw (at_end, need) refl
          ] in
        let g = grow_storage-Grown d k v (omega arith) in
        (g.after, e ∙ g.result, g.valid, omega (arith, g.longer, g.same_put))
  ]

  -- On a valid adapter, where the window's end and `n` bytes are at most the max_size 2 ^ 63 - 1 of a
  -- vector, resize and reserveFromPutPtr do not throw, their result is true and they leave a valid
  -- adapter; resize reaches its size, and reserveFromPutPtr leaves `n` bytes behind the put pointer.
  pub resize-IsValid :
      ((e : Adapter) × (resize d n ≡ some (true, e)) × IsValid e × (e.len ≡ n))
      × ((e : Adapter) × (reserve_from_put_ptr d n ≡ some (true, e))
          × IsValid e
          × (e.put_ptr + n ≤ e.len))
  resize-IsValid = (resize_result, reserve_result)
