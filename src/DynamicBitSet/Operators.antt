-- ===== src/DynamicBitSet/Operators.antt =====
-- The operators on whole sets, position by position.
use sserialize.Base.{ℕ, zero, suc, ◌-◌, ◌/◌, ◌%◌, ◌<◌, ◌≡◌, refl, ap, sym, arith}
use sserialize.Base.{ltb, if◌then◌else◌, not, ◌&&◌, ◌||◌, min}
use sserialize.Base.{bit_or, bit_and, bit_xor, List, [], ◌∷◌, length, get_or, map, take, All}
use sserialize.Base.Bits.{
  bit, bit_lt, bit-zero, bit-bit_or, bit-bit_and, bit-bit_xor, bit-complement, bit_or-zero,
  bit_xor-zero, bit_and_mask, zero-bit_or, zero-bit_xor,
}
use sserialize.DynamicBitSet.{
  DynamicBitSet, is_set, complement, and_not, both, either, assign, fill, fresh,
}
use sserialize.Base.{◌∙◌}
use sserialize.DynamicBitSet.{intersection, union, difference, symmetric_difference, inverse}
use sserialize.DynamicBitSet.{intersect_assign, unite_assign, subtract_assign, xor_assign}
use sserialize.DynamicBitSet.Member.{is_set-digit, get_or-behind, digit-behind}
use sserialize.DynamicBitSet.Resize.{get_or-fresh, resize_bytes-take, filled, fill-filled}

-- Every byte of a set is below 256.
abbrev pub IsBytes : List ℕ → Type 0
IsBytes xs = All (λ x. x < 256) xs

pub get_or-lt : (xs : List ℕ) (i : ℕ) → IsBytes xs → get_or xs i 0 < 256
get_or-lt [] i h = omega arith
get_or-lt (x ∷ xs) zero (h, hs) = h
get_or-lt (x ∷ xs) (suc i) (h, hs) = get_or-lt xs i hs

-- A byte of each loop's result.
module _ (f : ℕ → ℕ → ℕ) where
  get_or-both :
      (xs ys : List ℕ) (i : ℕ)
      → get_or (both f xs ys) i 0
        ≡ (if ltb i (length xs) && ltb i (length ys) then f (get_or xs i 0) (get_or ys i 0) else 0)
  unfolding both
  get_or-both [] ys i = ground arith
  get_or-both (x ∷ xs) [] i = ground arith
  get_or-both (x ∷ xs) (y ∷ ys) zero = ground arith
  get_or-both (x ∷ xs) (y ∷ ys) (suc i) = ground (arith, get_or-both xs ys i)

  get_or-either :
      (xs ys : List ℕ) (i : ℕ)
      → ((a : ℕ) → f a 0 ≡ a)
      → ((b : ℕ) → f 0 b ≡ b)
      → get_or (either f xs ys) i 0 ≡ f (get_or xs i 0) (get_or ys i 0)
  unfolding either
  get_or-either [] ys i r l = sym (l (get_or ys i 0))
  get_or-either (x ∷ xs) [] i r l = sym (r (get_or (x ∷ xs) i 0))
  get_or-either (x ∷ xs) (y ∷ ys) zero r l = refl
  get_or-either (x ∷ xs) (y ∷ ys) (suc i) r l = get_or-either xs ys i r l

  get_or-assign :
      (xs ys : List ℕ) (i : ℕ)
      → ((a : ℕ) → a < 256 → f a 0 ≡ a)
      → IsBytes xs
      → get_or (assign f xs ys) i 0
        ≡ (if ltb i (length xs) then f (get_or xs i 0) (get_or ys i 0) else 0)
  unfolding assign
  get_or-assign [] ys i r h = ground arith
  get_or-assign (x ∷ xs) [] i r h =
      ground (arith, get_or-behind (x ∷ xs) i, r (get_or (x ∷ xs) i 0) (get_or-lt (x ∷ xs) i h))
  get_or-assign (x ∷ xs) (y ∷ ys) zero r h = ground arith
  get_or-assign (x ∷ xs) (y ∷ ys) (suc i) r (h, hs) = ground (arith, get_or-assign xs ys i r hs)

  -- The loops in place compute what the loops into a new set compute.
  assign-both :
      (xs ys : List ℕ) → assign f (take (min (length xs) (length ys)) xs) ys ≡ both f xs ys
  unfolding assign both
  assign-both [] ys = let e : min 0 (length ys) ≡ 0 = omega arith in rw e
  assign-both (x ∷ xs) [] = let e : min (suc (length xs)) 0 ≡ 0 = omega arith in rw e
  assign-both (x ∷ xs) (y ∷ ys) =
      let e : min (suc (length xs)) (suc (length ys)) ≡ suc (min (length xs) (length ys)) =
        omega arith in
      rw e (ap (λ t. f x y ∷ t) (assign-both xs ys))

  filled-either : (xs ys : List ℕ) → filled (assign f xs ys) ys ≡ either f xs ys
  unfolding assign either
  filled-either [] [] = refl
  filled-either [] (y ∷ ys) = ground arith
  filled-either (x ∷ xs) [] = ground arith
  filled-either (x ∷ xs) (y ∷ ys) = ground (arith, filled-either xs ys)

  fill-either :
      (xs ys bs : List ℕ)
      → (fill (record { bytes = assign f xs ys; behind = bs }) ys).bytes ≡ either f xs ys
  fill-either xs ys bs =
      fill-filled (record { bytes = assign f xs ys; behind = bs }) ys ∙ filled-either xs ys

bit-and_not : (a b i : ℕ) → b < 256 → i < 8 → bit (and_not a b) i ≡ min (bit a i) (1 - bit b i)
unfolding and_not complement
bit-and_not a b i hb hi = rw (bit-bit_and a (255 - b) i) (omega (arith, bit-complement 8 b i hb hi))

and_not-zero : (a : ℕ) → a < 256 → and_not a 0 ≡ a
unfolding and_not complement
and_not-zero a h = omega (arith, bit_and_mask 8 a)

module _ (s t : DynamicBitSet) where
  -- operator& keeps the positions of both sides.
  pub is_set-intersection : (q : ℕ) → is_set (intersection s t) q ≡ (is_set s q && is_set t q)
  unfolding intersection
  is_set-intersection q =
      let a : ℕ = get_or s.bytes (q / 8) 0 in
      let b : ℕ = get_or t.bytes (q / 8) 0 in
      let z = digit-behind s.bytes q in
      let z' = digit-behind t.bytes q in
      let h = bit-bit_and a b (q % 8) in
      rw
        (
          is_set-digit,
          is_set-digit s q,
          is_set-digit t q,
          get_or-fresh (both bit_and s.bytes t.bytes) (q / 8),
          get_or-both bit_and s.bytes t.bytes (q / 8),
        )
        (ground (arith, bit-zero (q % 8), bit_lt a (q % 8), bit_lt b (q % 8)))

  -- operator| has the positions of either side.
  pub is_set-union : (q : ℕ) → is_set (union s t) q ≡ (is_set s q || is_set t q)
  unfolding union
  is_set-union q =
      let a : ℕ = get_or s.bytes (q / 8) 0 in
      let b : ℕ = get_or t.bytes (q / 8) 0 in
      rw
        (
          is_set-digit,
          is_set-digit s q,
          is_set-digit t q,
          get_or-fresh (either bit_or s.bytes t.bytes) (q / 8),
          get_or-either bit_or s.bytes t.bytes (q / 8) bit_or-zero zero-bit_or,
          bit-bit_or a b (q % 8),
        )
        (ground (arith, bit_lt a (q % 8), bit_lt b (q % 8)))

  -- operator^ has the positions of one side that are not of the other.
  pub is_set-symmetric_difference :
      (q : ℕ)
      → is_set (symmetric_difference s t) q
        ≡ ((is_set s q && not (is_set t q)) || (is_set t q && not (is_set s q)))
  unfolding symmetric_difference
  is_set-symmetric_difference q =
      let a : ℕ = get_or s.bytes (q / 8) 0 in
      let b : ℕ = get_or t.bytes (q / 8) 0 in
      rw
        (
          is_set-digit,
          is_set-digit s q,
          is_set-digit t q,
          get_or-fresh (either bit_xor s.bytes t.bytes) (q / 8),
          get_or-either bit_xor s.bytes t.bytes (q / 8) bit_xor-zero zero-bit_xor,
          bit-bit_xor a b (q % 8),
        )
        (ground (arith, bit_lt a (q % 8), bit_lt b (q % 8)))

  -- operator- removes the positions of the other side, and those behind the other side's bytes.
  pub is_set-difference :
      (q : ℕ)
      → IsBytes t.bytes
      → is_set (difference s t) q
        ≡ (ltb (q / 8) (length t.bytes) && (is_set s q && not (is_set t q)))
  unfolding difference
  is_set-difference q ht =
      let a : ℕ = get_or s.bytes (q / 8) 0 in
      let b : ℕ = get_or t.bytes (q / 8) 0 in
      let z = digit-behind s.bytes q in
      let h = bit-and_not a b (q % 8) (get_or-lt t.bytes (q / 8) ht) (omega arith) in
      rw
        (
          is_set-digit,
          is_set-digit s q,
          is_set-digit t q,
          get_or-fresh (both and_not s.bytes t.bytes) (q / 8),
          get_or-both and_not s.bytes t.bytes (q / 8),
        )
        (ground (arith, bit-zero (q % 8), bit_lt a (q % 8), bit_lt b (q % 8)))

  -- operator-= removes the positions of the other side, and no others.
  pub is_set-subtract_assign :
      (q : ℕ)
      → IsBytes s.bytes
      → IsBytes t.bytes
      → is_set (subtract_assign s t) q ≡ (is_set s q && not (is_set t q))
  unfolding subtract_assign
  is_set-subtract_assign q hs ht =
      let a : ℕ = get_or s.bytes (q / 8) 0 in
      let b : ℕ = get_or t.bytes (q / 8) 0 in
      let z = digit-behind s.bytes q in
      let h = bit-and_not a b (q % 8) (get_or-lt t.bytes (q / 8) ht) (omega arith) in
      rw
        (
          is_set-digit,
          is_set-digit s q,
          is_set-digit t q,
          get_or-assign and_not s.bytes t.bytes (q / 8) and_not-zero hs,
        )
        (ground (arith, bit-zero (q % 8), bit_lt a (q % 8), bit_lt b (q % 8)))

  -- operator&, operator| and operator^ build a new set of the bytes that operator&=, operator|= and
  -- operator^= leave, whatever the vectors hold behind them; where these leave no byte, the new set has one
  -- byte, which is zero.
  pub assign_eq :
      (intersection s t ≡ fresh (intersect_assign s t).bytes)
      × (union s t ≡ fresh (unite_assign s t).bytes)
      × (symmetric_difference s t ≡ fresh (xor_assign s t).bytes)
  unfolding intersect_assign intersection unite_assign union xor_assign symmetric_difference
  assign_eq =
      let n = min (length s.bytes) (length t.bytes) in
      (
        rw (resize_bytes-take s n (omega arith), assign-both bit_and s.bytes t.bytes) refl,
        rw (fill-either bit_or s.bytes t.bytes s.behind) refl,
        (rw (fill-either bit_xor s.bytes t.bytes s.behind) refl),
      )

get_or-map :
    (xs : List ℕ) (i : ℕ) (f : ℕ → ℕ)
    → get_or (map f xs) i 0 ≡ (if ltb i (length xs) then f (get_or xs i 0) else 0)
get_or-map [] i f = ground arith
get_or-map (x ∷ xs) zero f = ground arith
get_or-map (x ∷ xs) (suc i) f = ground (arith, get_or-map xs i f)

-- operator~ has the positions of the set's bytes that are not in the set.
pub is_set-inverse :
    (s : DynamicBitSet) (q : ℕ)
    → IsBytes s.bytes
    → is_set (inverse s) q ≡ (ltb (q / 8) (length s.bytes) && not (is_set s q))
unfolding inverse complement
is_set-inverse s q hs =
    let b : ℕ = get_or s.bytes (q / 8) 0 in
    let h = bit-complement 8 b (q % 8) (get_or-lt s.bytes (q / 8) hs) (omega arith) in
    rw
      (
        is_set-digit,
        is_set-digit s q,
        get_or-fresh (map (λ x. 255 - x) s.bytes) (q / 8),
        get_or-map s.bytes (q / 8) (λ x. 255 - x),
      )
      (ground (arith, bit-zero (q % 8), bit_lt b (q % 8)))
