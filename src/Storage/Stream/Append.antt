-- ===== src/Storage/Stream/Append.antt =====
-- Writing at the end of the storage.
use sserialize.Base.{
  ℕ, zero, suc, true, false, ◌+◌, ◌-◌, ◌%◌, ◌^◌, ◌≤◌, ◌<◌, ◌≡◌, refl, arith, List, [], ◌∷◌, ◌++◌,
  drop,
}
use sserialize.Base.{length, replicate, some, ltb, ℤ, pos, abs}
use sserialize.Base.{take-length-append, length-append, length-replicate, append-nil}
use sserialize.Base.{le→ltb}
use sserialize.Pack.Varint.Groups.{groups, length-groups-le}
use sserialize.Pack.Varint.Encode.{written, p_v_u32-written, p_v_u64-written}
use sserialize.Pack.Signed.{with_sign, p_vs32}
use sserialize.Pack.Signed.RoundTrip.{with_sign-sum_32}
use sserialize.Storage.Adapter.{Adapter, vector_grow_storage, grow_storage, max_size}
use sserialize.Storage.Stream.{
  range_check, resize_for_push, write_at, put_data_at, put_word_at, put_data, put_vl,
}
use sserialize.Storage.Stream.{
  put_vl_packed_uint32, put_vl_packed_uint64, put_vl_packed_int32, put_word,
}

-- The put pointer stands at the end of the window, and the window ends with the storage.
pub record IsAtEnd (d : Adapter) : Type 0 where
  pub whole : d.off_set + d.len ≡ length d.storage
  pub at_end : d.put_ptr ≡ d.len

-- `d` with more bytes behind the window, and the put pointer behind them.
unfoldable pub appended : Adapter → List ℕ → Adapter
appended d src = record d {
  storage = d.storage ++ src;
  len = d.len + length src;
  put_ptr = d.put_ptr + length src;
}

pub appended-IsAtEnd : (d : Adapter) (src : List ℕ) → IsAtEnd d → IsAtEnd (appended d src)
unfolding appended
appended-IsAtEnd d src a = omega (arith, length-append d.storage src)

drop_all : (n : ℕ) (xs : List ℕ) → length xs ≤ n → drop n xs ≡ []
drop_all zero [] h = refl
drop_all (suc n) [] h = refl
drop_all zero (x ∷ xs) h = absurd (omega arith)
drop_all (suc n) (x ∷ xs) h = drop_all n xs (omega arith)

write_at-replicate :
    (s src : List ℕ) (p : ℕ)
    → p ≡ length s
    → write_at (s ++ replicate (length src) 0) p src ≡ s ++ src
unfolding write_at
write_at-replicate s src p e =
    rw
      (
        e,
        take-length-append s (replicate (length src) 0),
        drop_all (length s + length src) (s ++ replicate (length src) 0) (
            omega (
              arith,
              length-append s (replicate (length src) 0),
              length-replicate {A = ℕ} (length src) 0,
            )),
        append-nil,
      )
      refl

module _ (d : Adapter) (a : IsAtEnd d) where
  -- The window with `n` zeros behind it.
  abbrev grown : ℕ → Adapter
  grown n = record d { storage = d.storage ++ replicate n 0; len = d.len + n }

  resize_for_push-grown :
      (n : ℕ)
      → 1 ≤ n
      → d.off_set + d.len + n < 2 ^ 63
      → resize_for_push d d.put_ptr n ≡ some (grown n)
  unfolding resize_for_push grow_storage vector_grow_storage
  resize_for_push-grown n p fits =
      let e : (d.put_ptr + n) % 2 ^ 64 ≡ d.len + n = omega arith in
      let e1 : d.len + n - d.len ≡ n = omega arith in
      let e2 : (d.off_set + d.len + n) % 2 ^ 64 ≡ d.off_set + d.len + n = omega arith in
      let e3 : d.off_set + d.len + n - length d.storage ≡ n = omega arith in
      let l1 : ltb d.len (d.len + n) ≡ true = ground arith in
      let l2 : ltb (d.off_set + d.len + n) (d.off_set + d.len) ≡ false = ground arith in
      let l3 : ltb (length d.storage) (d.off_set + d.len + n) ≡ true = ground arith in
      let l4 : ltb max_size (d.off_set + d.len + n) ≡ false = ground arith in
      rw (e, l1, e1, e2, l2, l3, l4, e3) refl

  appended_eq :
      (src : List ℕ)
      → 1 ≤ length src
      → d.off_set + d.len + length src < 2 ^ 63
      → (range_check (grown (length src)) d.put_ptr (length src) ≡ some tt)
        × (write_at (d.storage ++ replicate (length src) 0) (d.off_set + d.put_ptr) src
            ≡ d.storage ++ src)
  unfolding range_check
  appended_eq src p fits =
      (ground arith, write_at-replicate d.storage src (d.off_set + d.put_ptr) (omega arith))

  put_data_at-appended :
      (src : List ℕ)
      → d.off_set + d.len + length src < 2 ^ 63
      → (put_data_at (grown (length src)) d.put_ptr src
          ≡ some (record d { storage = d.storage ++ src; len = d.len + length src }))
        × (1 ≤ length src
            → put_word_at (grown (length src)) d.put_ptr src
              ≡ some (record d { storage = d.storage ++ src; len = d.len + length src }))
  unfolding put_data_at put_word_at
  put_data_at-appended [] fits = (refl, λ h. absurd (omega arith))
  put_data_at-appended (x ∷ src) fits =
      let (r, w) = appended_eq (x ∷ src) (omega arith) fits in
      (rw (r, w) (ground arith), λ h. rw (r, w))

  -- At the end of the storage, where it stays below 2 ^ 63 bytes, putData appends its bytes, and the put
  -- pointer is again at the end.
  pub put_data-appended :
      (src : List ℕ)
      → d.off_set + d.len + length src < 2 ^ 63
      → put_data d src ≡ some (appended d src)
  unfolding put_data appended
  put_data-appended [] fits =
      unfold resize_for_push put_data_at in ground (arith, append-nil d.storage)
  put_data-appended (x ∷ src) fits =
      rw
        (
          resize_for_push-grown (length (x ∷ src)) (omega arith) fits,
          (put_data_at-appended (x ∷ src) fits).0,
        )
        refl

  pub put_word-appended :
      (src : List ℕ)
      → 1 ≤ length src
      → d.off_set + d.len + length src < 2 ^ 63
      → put_word d src ≡ some (appended d src)
  unfolding put_word appended
  put_word-appended src p fits =
      rw (resize_for_push-grown (length src) p fits, (put_data_at-appended src fits).1 p) refl

  put_vl-appended :
      (g tail : List ℕ)
      → d.off_set + d.len + length g < 2 ^ 63
      → put_vl d (some (pos (length g), g ++ tail)) ≡ some (pos (length g), appended d g)
  unfolding put_vl
  put_vl-appended g tail fits = rw (take-length-append g tail, put_data-appended g fits)

  -- At the end of the storage, below 2 ^ 63 bytes, putVlPackedUint32 appends the groups of its value and
  -- returns their count.
  pub put_vl_packed_uint32-appended :
      (v : ℕ)
      → v < 2 ^ 32
      → d.off_set + d.len + 10 < 2 ^ 63
      → put_vl_packed_uint32 d v ≡ some (pos (length (groups 5 v)), appended d (groups 5 v))
  unfolding put_vl_packed_uint32 written
  put_vl_packed_uint32-appended v h fits =
      let le : length (groups 5 v) ≤ 5 = length-groups-le 5 v in
      rw (p_v_u32-written v (replicate 5 0) h, le→ltb 5 (length (groups 5 v)) le)
        (put_vl-appended (groups 5 v) _ (omega arith))

  -- At the end of the storage, below 2 ^ 63 bytes, putVlPackedUint64 appends the groups of its value and
  -- returns their count.
  pub put_vl_packed_uint64-appended :
      (v : ℕ)
      → v < 2 ^ 64
      → d.off_set + d.len + 10 < 2 ^ 63
      → put_vl_packed_uint64 d v ≡ some (pos (length (groups 10 v)), appended d (groups 10 v))
  unfolding put_vl_packed_uint64 written
  put_vl_packed_uint64-appended v h fits =
      let le : length (groups 10 v) ≤ 10 = length-groups-le 10 v in
      rw (p_v_u64-written v (replicate 10 0) h, le→ltb 10 (length (groups 10 v)) le)
        (put_vl-appended (groups 10 v) _ (omega arith))

  pub put_vl_packed_int32-appended :
      (s : ℤ)
      → abs s < 2 ^ 31
      → d.off_set + d.len + 10 < 2 ^ 63
      → let g = groups 5 (with_sign 32 s) in
        put_vl_packed_int32 d s ≡ some (pos (length g), appended d g)
  unfolding put_vl_packed_int32 p_vs32
  put_vl_packed_int32-appended s h fits =
      unfold put_vl_packed_uint32 in
      put_vl_packed_uint32-appended (with_sign 32 s) (with_sign-sum_32 s h).0 fits
