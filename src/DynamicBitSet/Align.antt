-- ===== src/DynamicBitSet/Align.antt =====
-- What align does to the bytes and the positions of a set.
use sserialize.Base.{
  ℕ, true, false, ◌+◌, ◌-◌, ◌*◌, ◌/◌, ◌%◌, ◌^◌, ◌<◌, ◌≡◌, refl, sym, ◌∙◌, arith, inl, inr,
  Bool-cases,
}
use sserialize.Base.{
  ◌==◌, ◌&&◌, ltb, leb, if◌then◌else◌, List, [], ◌++◌, length, replicate, length-append,
  length-replicate,
}
use sserialize.Base.Bits.{bit-zero, bit_and-high}
use sserialize.DynamicBitSet.{DynamicBitSet, is_set, resize_bytes, aligned_size, align}
use sserialize.DynamicBitSet.Member.{IsClean, digit, is_set-digit, get_or-zeros, grow-IsClean}
use sserialize.DynamicBitSet.Resize.{resize_bytes-take}
use native.Mathlib.Nat.{one-le-pow, div-mul-le_self, lt-div-mul-add, div-eq_of_lt}

-- The next multiple of 2 ^ shift above the size, or 0.
abbrev next_size : ℕ → ℕ → ℕ
next_size size shift = if ltb size (2 ^ shift) then 0 else (size / 2 ^ shift + 1) * 2 ^ shift

aligned_size-next :
    (size shift : ℕ) → size + 2 ^ shift < 2 ^ 64 → aligned_size size shift ≡ next_size size shift
unfolding aligned_size
aligned_size-next size shift fits =
    let p = 2 ^ shift in
    let o = one-le-pow shift 2 in
    let n = size / p in
    let le = div-mul-le_self size p in
    let e : n * p % 2 ^ 64 ≡ n * p = omega arith in
    elim (Bool-cases (ltb size p)) [
      | inl short ↦
          let z : n ≡ 0 = div-eq_of_lt (ground arith) in
          let z' : n * p ≡ 0 = rw z (omega arith) in
          let c : (n * p == 0) ≡ true = ground arith in
          rw (short, e, bit_and-high shift size, c, z') refl
      | inr long ↦
          let lt : size < n * p + p = lt-div-mul-add (omega arith) in
          let c : (n * p == 0) ≡ false = ground arith in
          let m : (n + 1) * p ≡ n * p + p = omega arith in
          let w : (n * p + p) % 2 ^ 64 ≡ n * p + p = omega arith in
          rw (long, e, bit_and-high shift size, c, m, w) refl
    ]

-- On a set whose vector holds only zeros behind its bytes, where the size and 2 ^ shift are below 2 ^ 63
-- together: align leaves the next multiple of 2 ^ shift above the size and keeps the positions, but a
-- set of fewer than 2 ^ shift bytes loses all its bytes and positions. A size that is a multiple
-- already grows as well.
pub align-next_size :
    (s : DynamicBitSet) (shift q : ℕ)
    → IsClean s
    → length s.bytes + 2 ^ shift < 2 ^ 63
    → (length (align s shift).bytes ≡ (
        if ltb (length s.bytes) (2 ^ shift)
        then 0
        else (length s.bytes / 2 ^ shift + 1) * 2 ^ shift))
      × (is_set (align s shift) q ≡ (leb (2 ^ shift) (length s.bytes) && is_set s q))
align-next_size s shift q clean fits =
    let size = length s.bytes in
    let p = 2 ^ shift in
    let o = one-le-pow shift 2 in
    let e = aligned_size-next size shift (omega arith) in
    let digits : is_set (align s shift) q ≡ (digit (align s shift).bytes q == 1) =
      is_set-digit (align s shift) q in
    elim (Bool-cases (ltb size p)) [
      | inl short ↦
          let z : aligned_size size shift ≡ 0 = e ∙ rw short refl in
          let l : leb p size ≡ false = ground arith in
          let b : (align s shift).bytes ≡ [] =
            unfold align in rw z (resize_bytes-take s 0 (omega arith)) in
          rw (digits, b, short, l, bit-zero (q % 8)) (refl, refl)
      | inr long ↦
          let n = size / p in
          let lt : size < n * p + p = lt-div-mul-add (omega arith) in
          let m : (n + 1) * p ≡ n * p + p = omega arith in
          let z : aligned_size size shift ≡ n * p + p = e ∙ rw (long, m) refl in
          let l : leb p size ≡ true = ground arith in
          let k = n * p + p - size in
          let zeros : List ℕ = replicate k 0 in
          let lr : length zeros ≡ k = length-replicate k 0 in
          let l' : ltb (n * p + p) size ≡ false = ground arith in
          let b : (align s shift).bytes ≡ s.bytes ++ zeros =
            unfold align resize_bytes in rw (z, l') (grow-IsClean s k clean).0 in
          rw (digits, b, long, l, m)
            (
              omega (arith, length-append s.bytes zeros, lr),
              rw (get_or-zeros s.bytes k (q / 8)) (sym (is_set-digit s q)),
            )
    ]
