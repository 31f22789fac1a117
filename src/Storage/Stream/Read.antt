-- ===== src/Storage/Stream/Read.antt =====
-- Reading at the get pointer.
use sserialize.Base.{ℕ, zero, suc, ◌+◌, ◌-◌, ◌^◌, ◌≤◌, ◌<◌, ◌≡◌, refl, ap, arith, min}
use sserialize.Base.{
  List, [], ◌∷◌, ◌++◌, take, drop, length, length-append, length-take, length-drop,
}
use sserialize.Base.{some, ℤ, pos, abs, drop-add, drop-take, drop-append}
use sserialize.Pack.Varint.Groups.{groups, length-groups-le, length-groups-pos}
use sserialize.Pack.Unpack.RoundTrip.{up_v-groups}
use sserialize.Pack.Generic.{max_bytes}
use sserialize.Pack.Signed.{with_sign, up_v_signed}
use sserialize.Pack.Signed.RoundTrip.{with_sign-sum_32}
use sserialize.Storage.Adapter.{Adapter, window}
use sserialize.Storage.Adapter.Valid.{IsValid}
use sserialize.Storage.Stream.{range_check, get_vl, unpack_buffer, get_vl_packed_uint32}
use sserialize.Storage.Stream.{get_vl_packed_uint64, get_vl_packed_int32}

-- The bytes of the window behind the get pointer.
abbrev pub unread : Adapter → List ℕ
unread d = drop d.get_ptr (window d)

take-append :
    (n : ℕ) (xs ys : List ℕ) → length xs ≤ n → take n (xs ++ ys) ≡ xs ++ take (n - length xs) ys
take-append n [] ys h = let e : n - 0 ≡ n = omega arith in rw e
take-append zero (x ∷ xs) ys h = absurd (omega arith)
take-append (suc n) (x ∷ xs) ys h =
    let e : suc n - suc (length xs) ≡ n - length xs = omega arith in
    rw (e, take-append n xs ys (omega arith))

take-min : (a b : ℕ) (xs : List ℕ) → take (min a b) xs ≡ take a (take b xs)
take-min zero b xs = let e : min 0 b ≡ 0 = omega arith in rw e
take-min (suc a) zero xs = let e : min (suc a) 0 ≡ 0 = omega arith in rw e
take-min (suc a) (suc b) [] = let e : min (suc a) (suc b) ≡ suc (min a b) = omega arith in rw e
take-min (suc a) (suc b) (x ∷ xs) =
    let e : min (suc a) (suc b) ≡ suc (min a b) = omega arith in rw (e, take-min a b xs)

-- `d` after a read of `n` bytes.
unfoldable pub advanced : Adapter → ℕ → Adapter
advanced d n = record d { get_ptr = d.get_ptr + n }

module _ (d : Adapter) (v : IsValid d) (small : d.len < 2 ^ 63) (xs more : List ℕ)
    (e : unread d ≡ xs ++ more) where
  unpack_buffer-eq :
      (most : ℕ)
      → length xs ≤ most
      → unpack_buffer d most d.get_ptr ≡ xs ++ take (most - length xs) more
  unfolding unpack_buffer
  unpack_buffer-eq most h =
      rw
        (
          take-min most (d.len - d.get_ptr),
          drop-add,
          ← drop-take d.get_ptr d.len (drop d.off_set d.storage),
          e,
        )
        (take-append most xs more h)

  length-unread : length xs + length more + d.get_ptr ≡ d.len
  length-unread = omega (
    arith,
    ap (λ (t : List ℕ). length t) e,
    length-append xs more,
    length-drop d.get_ptr (window d),
    length-take d.len (drop d.off_set d.storage),
    length-drop d.off_set d.storage,
    v,
  )

  range_check-unread : 1 ≤ length xs → range_check d d.get_ptr 1 ≡ some tt
  unfolding range_check
  range_check-unread h = ground (arith, length-unread)

  -- After a read of `xs` the rest is unread.
  pub advanced-unread : IsValid (advanced d (length xs)) × (unread (advanced d (length xs)) ≡ more)
  unfolding advanced
  advanced-unread = (
    omega (arith, length-unread, v),
    rw (drop-add d.get_ptr (length xs) (window d), e) (drop-append xs more),
  )

  get_vl-advanced {ℓ} :
      {A : Type ℓ} (a : A)
      → 1 ≤ length xs
      → get_vl d (some (a, pos (length xs))) ≡ some (a, advanced d (length xs))
  unfolding get_vl advanced
  get_vl-advanced a h = rw (range_check-unread h)

module _ (d : Adapter) (valid : IsValid d) (small : d.len < 2 ^ 63) (more : List ℕ) where
  -- On a valid adapter of less than 2 ^ 63 bytes: where the groups of a uint32 are next, with any bytes
  -- behind them, getVlPackedUint32 returns it, and the get pointer moves behind the groups.
  pub get_vl_packed_uint32-groups :
      (v : ℕ)
      → v < 2 ^ 32
      → unread d ≡ groups 5 v ++ more
      → get_vl_packed_uint32 d ≡ some (v, advanced d (length (groups 5 v)))
  unfolding get_vl_packed_uint32 max_bytes
  get_vl_packed_uint32-groups v h e =
      rw
        (
          unpack_buffer-eq d valid small (groups 5 v) more e 5 (length-groups-le 5 v),
          up_v-groups 32 4 v (take (5 - length (groups 5 v)) more) refl h (omega arith),
        )
        (get_vl-advanced d valid small (groups 5 v) more e v (length-groups-pos 4 v))

  -- On a valid adapter of less than 2 ^ 63 bytes: where the groups of a uint64 are next, with any bytes
  -- behind them, getVlPackedUint64 returns it, and the get pointer moves behind the groups.
  pub get_vl_packed_uint64-groups :
      (v : ℕ)
      → v < 2 ^ 64
      → unread d ≡ groups 10 v ++ more
      → get_vl_packed_uint64 d ≡ some (v, advanced d (length (groups 10 v)))
  unfolding get_vl_packed_uint64 max_bytes
  get_vl_packed_uint64-groups v h e =
      rw
        (
          unpack_buffer-eq d valid small (groups 10 v) more e 10 (length-groups-le 10 v),
          up_v-groups 64 9 v (take (10 - length (groups 10 v)) more) refl h (omega arith),
        )
        (get_vl-advanced d valid small (groups 10 v) more e v (length-groups-pos 9 v))

  pub get_vl_packed_int32-groups :
      (s : ℤ)
      → abs s < 2 ^ 31
      → unread d ≡ groups 5 (with_sign 32 s) ++ more
      → get_vl_packed_int32 d ≡ some (s, advanced d (length (groups 5 (with_sign 32 s))))
  unfolding get_vl_packed_int32 up_v_signed max_bytes
  get_vl_packed_int32-groups s h e =
      let g = groups 5 (with_sign 32 s) in
      let (fits, back) = with_sign-sum_32 s h in
      rw
        (
          unpack_buffer-eq d valid small g more e 5 (length-groups-le 5 (with_sign 32 s)),
          up_v-groups 32 4 (with_sign 32 s) (take (5 - length g) more) refl fits (omega arith),
          back,
        )
        (get_vl-advanced d valid small g more e s (length-groups-pos 4 (with_sign 32 s)))
