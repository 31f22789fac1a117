-- ===== src/Storage/Stream/Over.antt =====
-- Writing over the zeros that a new storage has, and behind them.
use sserialize.Base.{
  ℕ, zero, suc, false, ◌+◌, ◌-◌, ◌%◌, ◌^◌, ◌≤◌, ◌<◌, ◌≡◌, refl, ap, arith, List, [], ◌∷◌, ◌++◌,
  append_assoc, append-nil, drop, inl, inr, ◌==◌,
}
use sserialize.Base.{
  length, length-append, length-replicate, take-length-append, replicate, some, ltb, pos,
  Bool-cases, le→ltb, ltb→lt,
}
use sserialize.Pack.Varint.Groups.{groups, length-groups-le}
use sserialize.Pack.Varint.Encode.{written, p_v_u32-written}
use sserialize.Storage.Adapter.{Adapter, vector_grow_storage, grow_storage, max_size}
use sserialize.Storage.Stream.{
  range_check, resize_for_push, write_at, put_data_at, put_data, put_vl, put_vl_packed_uint32,
}

abbrev pub zeros : ℕ → List ℕ
zeros k = replicate k 0

-- The bytes `s` and `k` zeros, with the put pointer between them.
abbrev pub over : List ℕ → ℕ → Adapter
over s k = record {
  storage = s ++ zeros k;
  off_set = 0;
  len = length s + k;
  get_ptr = 0;
  put_ptr = length s;
}

drop-replicate : (n m : ℕ) → drop n (zeros m) ≡ zeros (m - n)
drop-replicate zero m = (let e : m - 0 ≡ m = omega arith in rw e refl)
drop-replicate (suc n) zero = (let e : 0 - suc n ≡ 0 = omega arith in rw e refl)
drop-replicate (suc n) (suc m) =
    (let e : suc m - suc n ≡ m - n = omega arith in rw e (drop-replicate n m))

drop-past : (s xs : List ℕ) (n : ℕ) → drop (length s + n) (s ++ xs) ≡ drop n xs
drop-past [] xs n = (let e : 0 + n ≡ n = omega arith in rw e refl)
drop-past (x ∷ s) xs n =
    (let e : suc (length s) + n ≡ suc (length s + n) = omega arith in rw e (drop-past s xs n))

replicate-append : (k m : ℕ) → zeros k ++ zeros m ≡ zeros (k + m)
replicate-append zero m = (let e : 0 + m ≡ m = omega arith in rw e refl)
replicate-append (suc k) m =
    (let e : suc k + m ≡ suc (k + m) = omega arith in
      rw e (ap (λ (l : List ℕ). 0 ∷ l) (replicate-append k m)))

write_at-over :
    (s src : List ℕ) (m : ℕ)
    → write_at (s ++ zeros m) (length s) src ≡ (s ++ src) ++ zeros (m - length src)
unfolding write_at
write_at-over s src m =
    rw
      (
        take-length-append s (zeros m),
        drop-past s (zeros m) (length src),
        drop-replicate (length src) m,
        append_assoc,
      )
      refl

put_data_at-over :
    (s src : List ℕ) (m : ℕ)
    → length src ≤ m
    → length s + m < 2 ^ 63
    → put_data_at (over s m) (length s) src
      ≡ some (record (over s m) { storage = (s ++ src) ++ zeros (m - length src) })
unfolding put_data_at range_check
put_data_at-over s [] m le room = let e : m - 0 ≡ m = omega arith in rw (append-nil s, e) refl
put_data_at-over s (x ∷ src) m le room =
    let w = write_at-over s (x ∷ src) m in
    let z : (length (x ∷ src) == 0) ≡ false = ground arith in
    let e : (length s + length (x ∷ src)) % 2 ^ 64 ≡ length s + length (x ∷ src) = omega arith in
    let g : ltb (length s + m) (length s + length (x ∷ src)) ≡ false = ground arith in
    let o : 0 + length s ≡ length s = omega arith in rw (z, e, g, o, w) refl

module _ (s src : List ℕ) (k : ℕ) (room : length s + k + length src < 2 ^ 63) where
  abbrev n : ℕ
  n = length src

  -- The zeros that are missing are there after resizeForPush.
  resize_for_push-over :
      (m : ℕ) × (n ≤ m)
      × (m - n ≡ k - n)
      × (length s + m < 2 ^ 63)
      × (resize_for_push (over s k) (length s) n ≡ some (over s m))
  unfolding resize_for_push grow_storage vector_grow_storage
  resize_for_push-over =
      let e : (length s + n) % 2 ^ 64 ≡ length s + n = omega arith in
      elim (Bool-cases (ltb (length s + k) (length s + n))) [
        | inl l ↦
            let lt : length s + k < length s + n = ltb→lt (length s + k) (length s + n) l in
            let e1 : length s + n - (length s + k) ≡ n - k = omega arith in
            let e2 : (0 + (length s + k) + (n - k)) % 2 ^ 64 ≡ length s + n = omega arith in
            let l2 : ltb (length s + n) (0 + (length s + k)) ≡ false = ground arith in
            let e4 : length (s ++ zeros k) ≡ length s + k =
              omega (arith, length-append s (zeros k), length-replicate {A = ℕ} k 0) in
            let l3 : ltb max_size (length s + n) ≡ false = ground arith in
            let e7 : k + (n - k) ≡ n = ground arith in
            let e8 : length s + k + (n - k) ≡ length s + n = ground arith in
            (
              n,
              omega arith,
              ground arith,
              omega arith,
              rw (e, l, e1, e2, l2, e4, l, l3, e1, append_assoc, replicate-append k (n - k), e7, e8)
                  refl,
            )
        | inr l ↦ (k, ground arith, refl, omega arith, rw (e, l) refl)
      ]

  -- putData writes over the zeros, and appends what is left.
  pub put_data-over : put_data (over s k) src ≡ some (over (s ++ src) (k - n))
  unfolding put_data
  put_data-over =
      let (m, le, left, fits, r) = resize_for_push-over in
      let a = length-append s src in
      let l : length s + m ≡ length (s ++ src) + (k - n) = omega arith in
      rw (r, put_data_at-over s src m le fits, left, l, ← a) refl

pub put_vl_packed_uint32-over :
    (s : List ℕ) (k v : ℕ)
    → v < 2 ^ 32
    → length s + k + 5 < 2 ^ 63
    → put_vl_packed_uint32 (over s k) v
      ≡ some (pos (length (groups 5 v)), over (s ++ groups 5 v) (k - length (groups 5 v)))
unfolding put_vl_packed_uint32 put_vl written
put_vl_packed_uint32-over s k v h fits =
    let g = groups 5 v in
    let le : length g ≤ 5 = length-groups-le 5 v in
    rw
      (
        p_v_u32-written v (replicate 5 0) h,
        le→ltb 5 (length g) le,
        take-length-append g (drop (length g) (replicate 5 0)),
        put_data-over s g k (omega arith),
      )
      refl
