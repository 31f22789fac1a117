-- ===== src/DynamicBitSet/Equal.antt =====
-- operator== is equality as sets, and upperBound lies above every position.
use sserialize.Base.{
  ℕ, zero, suc, true, false, ◌+◌, ◌*◌, ◌/◌, ◌%◌, ◌<◌, ◌≤◌, ◌≡◌, ◌↔◌, refl, sym, arith,
}
use sserialize.Base.{◌==◌, List, [], ◌∷◌, get_or}
use sserialize.Base.Bits.{bit, bit_lt, bit-zero, bit_ext}
use sserialize.DynamicBitSet.{
  DynamicBitSet, is_set, all_zero, equal_bytes, equal, upper_bound_from, upper_bound,
}
use sserialize.DynamicBitSet.Member.{is_set-digit}
use sserialize.DynamicBitSet.Operators.{IsBytes, get_or-lt}

-- The same bytes, with zeros behind the end.
abbrev Same : List ℕ → List ℕ → Type 0
Same xs ys = (i : ℕ) → get_or xs i 0 ≡ get_or ys i 0

Same-cons : {x y : ℕ} (xs ys : List ℕ) → x ≡ y → Same xs ys → Same (x ∷ xs) (y ∷ ys)
Same-cons xs ys e h zero = e
Same-cons xs ys e h (suc i) = h i

Same-nil : {x : ℕ} (xs : List ℕ) → x ≡ 0 → Same xs [] → Same (x ∷ xs) []
Same-nil xs e h zero = e
Same-nil xs e h (suc i) = h i

all_zero-Same :
    (xs : List ℕ) → (all_zero xs ≡ true → Same xs []) × (Same xs [] → all_zero xs ≡ true)
unfolding all_zero
all_zero-Same [] = (λ h i. refl, λ h. refl)
all_zero-Same (x ∷ xs) =
    let (f, g) = all_zero-Same xs in
    (
      (λ h. Same-nil xs (ground arith) (f (ground arith))),
      (λ h. let e = h 0 in let r = g (λ i. h (suc i)) in ground arith),
    )

equal_bytes-Same :
    (xs ys : List ℕ)
    → (equal_bytes xs ys ≡ true → Same xs ys) × (Same xs ys → equal_bytes xs ys ≡ true)
unfolding equal_bytes
equal_bytes-Same [] ys =
    let (f, g) = all_zero-Same ys in (λ h i. sym (f h i), λ h. g (λ i. sym (h i)))
equal_bytes-Same (x ∷ xs) [] = all_zero-Same (x ∷ xs)
equal_bytes-Same (x ∷ xs) (y ∷ ys) =
    let (f, g) = equal_bytes-Same xs ys in
    (
      (λ h. Same-cons xs ys (ground arith) (f (ground arith))),
      (λ h. let e = h 0 in let r = g (λ i. h (suc i)) in ground arith),
    )

position : (i k : ℕ) → k < 8 → ((i * 8 + k) / 8 ≡ i) × ((i * 8 + k) % 8 ≡ k)
position i k h = omega arith

module _ (s t : DynamicBitSet) (hs : IsBytes s.bytes) (ht : IsBytes t.bytes) where
  Same-members : ((q : ℕ) → is_set s q ≡ is_set t q) → Same s.bytes t.bytes
  Same-members h i =
      bit_ext 8 (get_or s.bytes i 0) (get_or t.bytes i 0) (get_or-lt s.bytes i hs)
        (get_or-lt t.bytes i ht)
        λ k p.
          let (d, m) = position i k p in
          let e = h (i * 8 + k) in
          let e' : (bit (get_or s.bytes i 0) k == 1) ≡ (bit (get_or t.bytes i 0) k == 1) =
            rw (is_set-digit s (i * 8 + k), is_set-digit t (i * 8 + k), d, m) at e in
          ground (arith, bit_lt (get_or s.bytes i 0) k, bit_lt (get_or t.bytes i 0) k)

  -- operator== holds exactly of sets with the same positions, whatever zero bytes follow.
  pub equal_iff : (equal s t ≡ true) ↔ ((q : ℕ) → is_set s q ≡ is_set t q)
  unfolding equal
  equal_iff =
      let (f, g) = equal_bytes-Same s.bytes t.bytes in
      (
        (λ h q. rw (is_set-digit s q, is_set-digit t q, f h (q / 8)) refl),
        (λ h. g (Same-members h)),
      )

upper_bound_from-low :
    (n : ℕ) (xs : List ℕ)
    → (1 ≤ upper_bound_from n xs → 8 * n < upper_bound_from n xs) × (upper_bound_from n xs % 8 ≡ 0)
unfolding upper_bound_from
upper_bound_from-low n [] = ground arith
upper_bound_from-low n (x ∷ xs) = ground (arith, upper_bound_from-low (n + 1) xs)

upper_bound_from-above :
    (n : ℕ) (xs : List ℕ) (i : ℕ) → upper_bound_from n xs ≤ 8 * (n + i) → get_or xs i 0 ≡ 0
unfolding upper_bound_from
upper_bound_from-above n [] i h = refl
upper_bound_from-above n (x ∷ xs) zero h = ground (arith, upper_bound_from-low (n + 1) xs)
upper_bound_from-above n (x ∷ xs) (suc i) h =
    upper_bound_from-above (n + 1) xs i (ground (arith, upper_bound_from-low (n + 1) xs))

-- No position of the set is at upperBound or above.
pub is_set-upper_bound : (s : DynamicBitSet) (q : ℕ) → upper_bound s ≤ q → is_set s q ≡ false
unfolding upper_bound
is_set-upper_bound s q h =
    let (l, m) = upper_bound_from-low 0 s.bytes in
    let e = upper_bound_from-above 0 s.bytes (q / 8) (omega arith) in
    rw (is_set-digit s q, e, bit-zero (q % 8)) refl
