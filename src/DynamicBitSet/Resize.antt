-- ===== src/DynamicBitSet/Resize.antt =====
-- How the operations change the size of a bit set, and what they leave in the vector behind it.
use sserialize.Base.{
  ℕ, suc, zero, false, ◌-◌, ◌/◌, ◌≤◌, ◌≡◌, refl, sym, arith, ltb, if◌then◌else◌, Bool-cases, inl,
  inr,
}
use sserialize.Base.{
  List, [], ◌∷◌, ◌++◌, length, get_or, take, drop, replicate, take-all, take-length-append,
  append-nil, bit_or, bit_xor,
}
use sserialize.DynamicBitSet.{
  DynamicBitSet, grow, resize_bytes, fresh, fill, assign, unset_bit, unite_assign, subtract_assign,
  xor_assign,
}
use sserialize.DynamicBitSet.Member.{IsClean, grow-IsClean}

-- A new set has the bytes of the loop; the byte of an empty one is zero.
pub get_or-fresh : (xs : List ℕ) (i : ℕ) → get_or (fresh xs).bytes i 0 ≡ get_or xs i 0
unfolding fresh
get_or-fresh [] zero = refl
get_or-fresh [] (suc i) = refl
get_or-fresh (x ∷ xs) i = refl

-- A smaller size keeps the first bytes.
pub resize_bytes-take :
    (s : DynamicBitSet) (n : ℕ) → n ≤ length s.bytes → (resize_bytes s n).bytes ≡ take n s.bytes
unfolding resize_bytes grow
resize_bytes-take s n le = elim (Bool-cases (ltb n (length s.bytes))) [
  | inl l ↦ rw l refl
  | inr l ↦
      let z : n - length s.bytes ≡ 0 = omega arith in
      rw (l, z, append-nil) (sym (take-all n s.bytes (ground arith)))
]

-- What fill leaves, whatever lies behind the bytes.
abbrev pub filled : List ℕ → List ℕ → List ℕ
filled xs ys = if ltb (length xs) (length ys) then xs ++ drop (length xs) ys else xs

pub fill-filled : (s : DynamicBitSet) (ys : List ℕ) → (fill s ys).bytes ≡ filled s.bytes ys
unfolding fill resize_bytes grow
fill-filled s ys = elim (Bool-cases (ltb (length s.bytes) (length ys))) [
  | inl l ↦
      let n = length ys - length s.bytes in
      let l' : ltb (length ys) (length s.bytes) ≡ false = ground arith in
      rw (l, l', take-length-append s.bytes (take n (s.behind ++ replicate n 0))) refl
  | inr l ↦ rw l refl
]

fill-IsClean : (s : DynamicBitSet) (ys : List ℕ) → IsClean s → IsClean (fill s ys)
unfolding fill resize_bytes
fill-IsClean s ys c = elim (Bool-cases (ltb (length s.bytes) (length ys))) [
  | inl l ↦
      let l' : ltb (length ys) (length s.bytes) ≡ false = ground arith in
      rw (l, l') (grow-IsClean s (length ys - length s.bytes) c).1
  | inr l ↦ rw l c
]

-- unset, operator|=, operator-= and operator^= leave only zeros behind the bytes where there were only zeros
-- before, and so do the operators that build a new set, always.
pub operators-IsClean :
    (s t : DynamicBitSet) (pos : ℕ)
    → IsClean s
    → IsClean (unset_bit s pos)
      × IsClean (unite_assign s t)
      × IsClean (subtract_assign s t)
      × IsClean (xor_assign s t)
      × ((xs : List ℕ) → IsClean (fresh xs))
unfolding unset_bit unite_assign subtract_assign xor_assign
operators-IsClean s t pos c = (
  elim (Bool-cases (ltb (pos / 8) (length s.bytes))) [ inl l ↦ rw l c | inr l ↦ rw l c ],
  fill-IsClean (record { bytes = assign bit_or s.bytes t.bytes; behind = s.behind }) t.bytes c,
  c,
  fill-IsClean (record { bytes = assign bit_xor s.bytes t.bytes; behind = s.behind }) t.bytes c,
  fresh-IsClean,
)
  where
    fresh-IsClean : (xs : List ℕ) → IsClean (fresh xs)
    fresh-IsClean [] = unfold fresh in tt
    fresh-IsClean (x ∷ xs) = unfold fresh in tt
