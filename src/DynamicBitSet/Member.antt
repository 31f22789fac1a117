-- ===== src/DynamicBitSet/Member.antt =====
-- set, unset and isSet as the operations of a set of positions.
use sserialize.Base.{
  ℕ, zero, suc, false, ◌+◌, ◌-◌, ◌/◌, ◌%◌, ◌^◌, ◌<◌, ◌≤◌, ◌≡◌, ◌≢◌, ◌⊎◌, refl, ap, ◌∙◌, arith,
}
use sserialize.Base.{◌==◌, ltb, if◌then◌else◌, not, ◌&&◌, ◌||◌, Bool-cases, inl, inr}
use sserialize.Base.{bit_or, bit_and, List, [], ◌∷◌, ◌++◌, length, get_or, set, replicate}
use sserialize.Base.{length-append, length-replicate, take, drop, All, subst, sym}
use sserialize.Base.Bits.{
  bit, bit_lt, bit-zero, bit_and-pow, bit-bit_or, bit-bit_and, bit-pow_self, bit-pow_ne,
  bit-complement,
}
use sserialize.DynamicBitSet.{DynamicBitSet, is_set, grow, reach, set_bit, unset_bit, complement}
use native.Mathlib.Nat.{one-le-pow, pow-le-pow_right}

-- The binary digit at a position, 0 behind the end.
abbrev pub digit : List ℕ → ℕ → ℕ
digit xs pos = bit (get_or xs (pos / 8) 0) (pos % 8)

pub get_or-behind : (xs : List ℕ) (i : ℕ) → length xs ≤ i → get_or xs i 0 ≡ 0
get_or-behind [] i h = refl
get_or-behind (x ∷ xs) zero h = absurd (omega arith)
get_or-behind (x ∷ xs) (suc i) h = get_or-behind xs i (omega arith)

pub digit-behind : (xs : List ℕ) (pos : ℕ) → length xs ≤ pos / 8 → digit xs pos ≡ 0
digit-behind xs pos h = rw (get_or-behind xs (pos / 8) h, bit-zero)

pub bit-cases : (a i : ℕ) → (bit a i ≡ 0) ⊎ (bit a i ≡ 1)
bit-cases a i = let l = bit_lt a i in ground arith

-- The test of a bit by its mask.
pub mask_test : (b k : ℕ) → not (bit_and b (2 ^ k) == 0) ≡ (bit b k == 1)
mask_test b k =
    let p = one-le-pow k 2 in
    elim (bit-cases b k) [
      | inl clear ↦
          let e : bit_and b (2 ^ k) ≡ 0 = (bit_and-pow b k ∙ rw clear (omega arith)) in
          rw (e, clear) refl
      | inr on ↦
          let e : bit_and b (2 ^ k) ≡ 2 ^ k = (bit_and-pow b k ∙ rw on (omega arith)) in
          rw (e, on) (ground arith)
    ]

-- isSet reads the digit.
pub is_set-digit : (s : DynamicBitSet) (pos : ℕ) → is_set s pos ≡ (digit s.bytes pos == 1)
unfolding is_set
is_set-digit s pos = elim (Bool-cases (ltb (pos / 8) (length s.bytes))) [
  | inl inside ↦ rw (inside, mask_test (get_or s.bytes (pos / 8) 0) (pos % 8)) refl
  | inr behind ↦ rw (behind, digit-behind s.bytes pos (ground arith)) refl
]

get_or-set_self : (xs : List ℕ) (i v : ℕ) → i < length xs → get_or (set xs i v) i 0 ≡ v
get_or-set_self [] i v h = absurd (omega arith)
get_or-set_self (x ∷ xs) zero v h = refl
get_or-set_self (x ∷ xs) (suc i) v h = get_or-set_self xs i v (omega arith)

get_or-set_ne : (xs : List ℕ) (i j v : ℕ) → i ≢ j → get_or (set xs i v) j 0 ≡ get_or xs j 0
get_or-set_ne [] i j v h = refl
get_or-set_ne (x ∷ xs) zero zero v h = absurd (h refl)
get_or-set_ne (x ∷ xs) zero (suc j) v h = refl
get_or-set_ne (x ∷ xs) (suc i) zero v h = refl
get_or-set_ne (x ∷ xs) (suc i) (suc j) v h = get_or-set_ne xs i j v (λ e. h (ap suc e))

get_or-replicate : (n i : ℕ) → get_or {A = ℕ} (replicate n 0) i 0 ≡ 0
get_or-replicate zero i = refl
get_or-replicate (suc n) zero = refl
get_or-replicate (suc n) (suc i) = get_or-replicate n i

pub get_or-zeros : (xs : List ℕ) (n i : ℕ) → get_or (xs ++ replicate n 0) i 0 ≡ get_or xs i 0
get_or-zeros [] n i = get_or-replicate n i
get_or-zeros (x ∷ xs) n zero = refl
get_or-zeros (x ∷ xs) n (suc i) = get_or-zeros xs n i

-- The vector holds only zeros behind the bytes that the set shows. A new set is clean; what operator&=
-- and a shrinking align drop stays in the vector and need not be zero.
abbrev pub IsClean : DynamicBitSet → Type 0
IsClean s = All (λ x. x ≡ 0) s.behind

take-zeros :
    (n m : ℕ) (xs : List ℕ)
    → All (λ x. x ≡ 0) xs
    → n ≤ m
    → take n (xs ++ replicate m 0) ≡ replicate n 0
take-zeros zero m xs h le = refl
take-zeros (suc n) zero [] h le = absurd (omega arith)
take-zeros (suc n) (suc m) [] h le = ap (λ (t : List ℕ). 0 ∷ t) (take-zeros n m [] h (omega arith))
take-zeros (suc n) m (x ∷ xs) (e, h) le =
    rw e (ap (λ (t : List ℕ). 0 ∷ t) (take-zeros n m xs h (omega arith)))

drop-zeros : (n : ℕ) (xs : List ℕ) → All (λ x. x ≡ 0) xs → All (λ x. x ≡ 0) (drop n xs)
drop-zeros zero xs h = h
drop-zeros (suc n) [] h = h
drop-zeros (suc n) (x ∷ xs) (e, h) = drop-zeros n xs h

-- A clean set grows by zeros.
pub grow-IsClean :
    (s : DynamicBitSet) (n : ℕ)
    → IsClean s
    → ((grow s n).bytes ≡ s.bytes ++ replicate n 0) × IsClean (grow s n)
unfolding grow
grow-IsClean s n c = (
  ap (λ (t : List ℕ). s.bytes ++ t) (take-zeros n n s.behind c (omega arith)),
  drop-zeros n s.behind c,
)

-- What the first lines of set leave: the byte at the offset, and no more positions.
record Reached (s : DynamicBitSet) (offset : ℕ) : Type 0 where
  inside : offset < length (reach s offset).bytes
  same : (i : ℕ) → get_or (reach s offset).bytes i 0 ≡ get_or s.bytes i 0
  clean : IsClean (reach s offset)

reach-Reached : (s : DynamicBitSet) (offset : ℕ) → IsClean s → Reached s offset
reach-Reached s offset c = elim (Bool-cases (ltb offset (length s.bytes))) [
  | inl l ↦
      let e : reach s offset ≡ s = unfold reach in rw l refl in
      record {
        inside = rw e (ground arith);
        same = λ i. ap (λ (t : DynamicBitSet). get_or t.bytes i 0) e;
        clean = subst IsClean (sym e) c;
      }
  | inr l ↦
      let n = offset + 1 - length s.bytes in
      let e : reach s offset ≡ grow s n = unfold reach in rw l refl in
      let (b, c') = grow-IsClean s n c in
      let b' : (reach s offset).bytes ≡ s.bytes ++ replicate n 0 = (ap DynamicBitSet.bytes e ∙ b) in
      record {
        inside =
            rw b'
              (ground (arith, length-append s.bytes (replicate n 0), length-replicate {A = ℕ} n 0));
        same = λ i. ap (λ (t : List ℕ). get_or t i 0) b' ∙ get_or-zeros s.bytes n i;
        clean = subst IsClean (sym e) c';
      }
]

-- A store in the byte of `pos` changes no digit of another byte.
digit-set :
    (xs : List ℕ) (pos q v : ℕ)
    → pos / 8 < length xs
    → digit (set xs (pos / 8) v) q ≡ (if pos / 8 == q / 8 then bit v (q % 8) else digit xs q)
digit-set xs pos q v h = elim (Bool-cases (pos / 8 == q / 8)) [
  | inl same ↦
      let e : q / 8 ≡ pos / 8 = ground arith in rw (same, e, get_or-set_self xs (pos / 8) v h)
  | inr other ↦
      let n : pos / 8 ≢ q / 8 = (λ e. ground arith) in
      rw (other, get_or-set_ne xs (pos / 8) (q / 8) v n)
]

bit-bit_or_pow : (b i j : ℕ) → bit (bit_or b (2 ^ i)) j ≡ (if i == j then 1 else bit b j)
bit-bit_or_pow b i j = elim (Bool-cases (i == j)) [
  | inl same ↦
      let e : j ≡ i = ground arith in
      let l = bit_lt b i in rw (same, e, bit-bit_or b (2 ^ i) i, bit-pow_self i) (omega arith)
  | inr other ↦
      let n : i ≢ j = (λ e. ground arith) in
      rw (other, bit-bit_or b (2 ^ i) j, bit-pow_ne i j n) (omega arith)
]

-- Where a byte is replaced, the digits of its positions are those of the new byte.
digit-update :
    (xs : List ℕ) (pos q v n : ℕ)
    → pos / 8 < length xs
    → ((k : ℕ) → k < 8 → bit v k ≡ (if pos % 8 == k then n else bit (get_or xs (pos / 8) 0) k))
    → digit (set xs (pos / 8) v) q ≡ (if pos == q then n else digit xs q)
digit-update xs pos q v n h f = elim (Bool-cases (pos / 8 == q / 8)) [
  | inl same ↦
      let e : q / 8 ≡ pos / 8 = ground arith in
      let g : (pos % 8 == q % 8) ≡ (pos == q) = ground arith in
      rw (digit-set xs pos q v h, same, f (q % 8) (omega arith), g, e) refl
  | inr other ↦
      let g : (pos == q) ≡ false = ground arith in rw (digit-set xs pos q v h, other, g) refl
]

digit-set_bit :
    (s : DynamicBitSet) (pos q : ℕ)
    → IsClean s
    → digit (set_bit s pos).bytes q ≡ (if pos == q then 1 else digit s.bytes q)
unfolding set_bit
digit-set_bit s pos q c =
    let d = reach s (pos / 8) in
    let o : ℕ = get_or d.bytes (pos / 8) 0 in
    let h = reach-Reached s (pos / 8) c in
    let e : digit d.bytes q ≡ digit s.bytes q = ap (λ (b : ℕ). bit b (q % 8)) (h.same (q / 8)) in
    digit-update d.bytes pos q (bit_or o (2 ^ (pos % 8))) 1 h.inside
      (λ k l. bit-bit_or_pow o (pos % 8) k)
    ∙ rw e refl

-- On a set whose vector holds only zeros behind its bytes: set adds its position to the set, and no other
-- one, and only zeros are behind the bytes again.
pub is_set-set_bit :
    (s : DynamicBitSet) (pos : ℕ)
    → IsClean s
    → ((q : ℕ) → is_set (set_bit s pos) q ≡ ((pos == q) || is_set s q)) × IsClean (set_bit s pos)
is_set-set_bit s pos c = (
  (λ q.
      rw (is_set-digit (set_bit s pos) q, is_set-digit s q, digit-set_bit s pos q c)
        (ground arith)),
  (unfold set_bit in (reach-Reached s (pos / 8) c).clean),
)

bit-bit_and-complement :
    (b i j : ℕ)
    → i < 8
    → j < 8
    → bit (bit_and b (complement (2 ^ i))) j ≡ (if i == j then 0 else bit b j)
unfolding complement
bit-bit_and-complement b i j hi hj =
    let l = bit_lt b j in
    let p : 2 ^ i < 2 ^ 8 =
      omega (arith, pow-le-pow_right {n = 2} (omega arith) {i = i} {j = 7} (omega arith)) in
    let c = bit-complement 8 (2 ^ i) j p hj in
    elim (Bool-cases (i == j)) [
      | inl same ↦
          let e : j ≡ i = ground arith in
          let one : bit (2 ^ i) j ≡ 1 = (rw e (bit-pow_self i)) in
          rw (same, bit-bit_and b (255 - 2 ^ i) j, c, one) (omega arith)
      | inr other ↦
          let n : i ≢ j = (λ e. ground arith) in
          rw (other, bit-bit_and b (255 - 2 ^ i) j, c, bit-pow_ne i j n) (omega arith)
    ]

digit-unset_bit :
    (s : DynamicBitSet) (pos q : ℕ)
    → digit (unset_bit s pos).bytes q ≡ (if pos == q then 0 else digit s.bytes q)
unfolding unset_bit
digit-unset_bit s pos q =
    let o : ℕ = get_or s.bytes (pos / 8) 0 in
    elim (Bool-cases (ltb (pos / 8) (length s.bytes))) [
      | inl inside ↦ rw inside (
          digit-update s.bytes pos q (bit_and o (complement (2 ^ (pos % 8)))) 0 (ground arith)
            (λ k h. bit-bit_and-complement o (pos % 8) k (omega arith) h))
      | inr behind ↦ rw behind (ground (arith, digit-behind s.bytes pos))
    ]

-- unset removes its position from the set, and no other one.
pub is_set-unset_bit :
    (s : DynamicBitSet) (pos q : ℕ) → is_set (unset_bit s pos) q ≡ (not (pos == q) && is_set s q)
is_set-unset_bit s pos q =
    rw (is_set-digit (unset_bit s pos) q, is_set-digit s q, digit-unset_bit s pos q) (ground arith)
