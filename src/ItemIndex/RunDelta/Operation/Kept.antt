-- ===== src/ItemIndex/RunDelta/Operation/Kept.antt =====
-- Ids of one side that the merge passes together, and the pushes of them.
use sserialize.Base.{
  ℕ, zero, suc, true, false, ◌+◌, ◌-◌, ◌*◌, ◌%◌, ◌^◌, ◌<◌, ◌≤◌, ◌≡◌, refl, sym, ap, ◌∙◌, arith, ltb,
  Bool, Bool-cases, subst, if◌then◌else◌,
}
use sserialize.Base.{List, [], ◌∷◌, ◌++◌, length, ◌>>=◌, All, Option-cases, inl, inr}
use native.Mathlib.Nat.{mul-suc}
use sserialize.ItemIndex.SetOp.{SetOpTraits, push_if, execute}
use sserialize.ItemIndex.SetOp.Member.{
  execute-less, execute-greater, execute-same, execute-nil_nil, execute-nil_cons, execute-cons_nil,
}
use sserialize.ItemIndex.RunDelta.Write.{AreNear}
use sserialize.ItemIndex.RunDelta.{RunCreator, run_ids, push_back_run, push_each}
use sserialize.ItemIndex.RunDelta.PushRle.{push_rle-push_each}
use sserialize.ItemIndex.RunDelta.Operation.{RunSide, push_one_when, push_run_when}

-- Strictly ascending ids below 2 ^ 31, from `low` on.
abbrev pub Rises : ℕ → List ℕ → Type 0
Rises low [] = Unit {0}
Rises low (x ∷ xs) = (low ≤ x) × (x < 2 ^ 31) × Rises (suc x) xs

pub Rises-append : (us xs : List ℕ) (low : ℕ) → Rises low (us ++ xs) → (l : ℕ) × Rises l xs
Rises-append [] xs low h = (low, h)
Rises-append (u ∷ us) xs low (_, _, h) = Rises-append us xs (suc u) h

abbrev pub kept : Bool → List ℕ → List ℕ
kept p us = if p then us else []

kept-nil : (p : Bool) (rest : List ℕ) → kept p [] ++ rest ≡ rest
kept-nil true rest = refl
kept-nil false rest = refl

kept-cons :
    (p : Bool) (x : ℕ) (us rest : List ℕ)
    → push_if p x (kept p us ++ rest) ≡ kept p (x ∷ us) ++ rest
unfolding push_if
kept-cons true x us rest = refl
kept-cons false x us rest = refl

module _ (t : SetOpTraits) where
  pub execute-below :
      (us xs ys : List ℕ) (y : ℕ)
      → All (λ (u : ℕ). u < y) us
      → execute t (us ++ xs) (y ∷ ys) ≡ kept t.push_first_smaller us ++ execute t xs (y ∷ ys)
  execute-below [] xs ys y h = sym (kept-nil t.push_first_smaller (execute t xs (y ∷ ys)))
  execute-below (u ∷ us) xs ys y (h, all) =
      execute-less t u y (us ++ xs) ys (ground arith)
      ∙ ap (λ (l : List ℕ). push_if t.push_first_smaller u l) (execute-below us xs ys y all)
      ∙ kept-cons t.push_first_smaller u us (execute t xs (y ∷ ys))

  pub execute-above :
      (us xs ys : List ℕ) (x : ℕ)
      → All (λ (u : ℕ). u < x) us
      → execute t (x ∷ xs) (us ++ ys) ≡ kept t.push_second_smaller us ++ execute t (x ∷ xs) ys
  execute-above [] xs ys x h = sym (kept-nil t.push_second_smaller (execute t (x ∷ xs) ys))
  execute-above (u ∷ us) xs ys x (h, all) =
      execute-greater t x u xs (us ++ ys) (ground arith) (ground arith)
      ∙ ap (λ (l : List ℕ). push_if t.push_second_smaller u l) (execute-above us xs ys x all)
      ∙ kept-cons t.push_second_smaller u us (execute t (x ∷ xs) ys)

  pub execute-shared :
      (us xs ys : List ℕ)
      → execute t (us ++ xs) (us ++ ys) ≡ kept t.push_equal us ++ execute t xs ys
  execute-shared [] xs ys = sym (kept-nil t.push_equal (execute t xs ys))
  execute-shared (u ∷ us) xs ys =
      execute-same t u u (us ++ xs) (us ++ ys) (ground arith) (ground arith)
      ∙ ap (λ (l : List ℕ). push_if t.push_equal u l) (execute-shared us xs ys)
      ∙ kept-cons t.push_equal u us (execute t xs ys)

pub push_each-append :
    (us vs : List ℕ) (c : RunCreator)
    → push_each c (us ++ vs) ≡ (push_each c us >>= λ c'. push_each c' vs)
unfolding push_each
push_each-append [] vs c = refl
push_each-append (u ∷ us) vs c = elim (Option-cases (push_back_run c u)) [
  | inl e ↦ rw e refl
  | inr (c', e) ↦ rw e (push_each-append us vs c')
]

pub push_one_when-push_each :
    (p : Bool) (c : RunCreator) (x : ℕ) → push_one_when p c x ≡ push_each c (kept p (x ∷ []))
unfolding push_one_when push_each
push_one_when-push_each false c x = refl
push_one_when-push_each true c x = elim (Option-cases (push_back_run c x)) [
  | inl e ↦ rw e refl
  | inr (c', e) ↦ rw e refl
]

pub push_run_when-push_each :
    (p : Bool) (c : RunCreator) (s : RunSide) (x k : ℕ)
    → s.id ≡ x
    → s.id < 2 ^ 32
    → s.val < 2 ^ 32
    → k < 2 ^ 32
    → push_run_when p c s (suc k) ≡ push_each c (kept p (x ∷ run_ids k s.val x))
unfolding push_run_when
push_run_when-push_each false c s x k e hi hv hk = unfold push_each in refl
push_run_when-push_each true c s x k e hi hv hk =
    let q : (suc k + 2 ^ 32 - 1) % 2 ^ 32 ≡ k = omega arith in
    rw q (push_rle-push_each c s.id s.val k hi hv)
    ∙ ap (λ (i : ℕ). push_each c (i ∷ run_ids k s.val i)) e

-- The ids of a run that ends below `y`.
pub run_ids-below :
    (k v x y : ℕ) → x + v * k < y → y < 2 ^ 32 → All (λ (u : ℕ). u < y) (run_ids k v x)
unfolding run_ids
run_ids-below zero v x y h hy = tt
run_ids-below (suc k) v x y h hy =
    let e = mul-suc v k in
    let q : (x + v) % 2 ^ 32 ≡ x + v = omega arith in
    rw q (omega arith, run_ids-below k v (x + v) y (omega arith) hy)

pub Rises-le : (xs : List ℕ) (l m : ℕ) → l ≤ m → Rises m xs → Rises l xs
Rises-le [] l m h r = tt
Rises-le (x ∷ xs) l m h (a, b, r) = (omega arith, b, r)

-- Strictly ascending ids of which there are at most `n`.
abbrev pub Fits : ℕ → ℕ → List ℕ → Type 0
Fits low n xs = Rises low xs × (length xs ≤ n)

push_if-Fits :
    (p : Bool) (x low n : ℕ) (rest : List ℕ)
    → low ≤ x
    → x < 2 ^ 31
    → Fits (suc x) n rest
    → Fits low (suc n) (push_if p x rest)
unfolding push_if
push_if-Fits true x low n rest h b (r, l) = ((h, b, r), omega arith)
push_if-Fits false x low n rest h b (r, l) =
    (Rises-le rest low (suc x) (omega arith) r, omega arith)

if-Fits :
    (p : Bool) (xs : List ℕ) (low : ℕ) → Rises low xs → Fits low (length xs) (if p then xs else [])
if-Fits true xs low r = (r, omega arith)
if-Fits false xs low r = (tt, omega arith)

Fits-le : (xs : List ℕ) (low m n : ℕ) → m ≤ n → Fits low m xs → Fits low n xs
Fits-le xs low m n h (r, l) = (r, omega arith)

-- The merge of strictly ascending ids is strictly ascending, and not longer than both.
pub execute-Fits :
    (t : SetOpTraits) (xs ys : List ℕ) (low : ℕ)
    → Rises low xs
    → Rises low ys
    → Fits low (length xs + length ys) (execute t xs ys)
execute-Fits t [] [] low r q = rw (execute-nil_nil t) (tt, omega arith)
execute-Fits t [] (y ∷ ys) low r q = rw (execute-nil_cons t y ys) (
    Fits-le (if t.push_second_remainder then y ∷ ys else []) low (length (y ∷ ys))
      (0 + suc (length ys)) (omega arith) (if-Fits t.push_second_remainder (y ∷ ys) low q))
execute-Fits t (x ∷ xs) [] low r q = rw (execute-cons_nil t x xs) (
    Fits-le (if t.push_first_remainder then x ∷ xs else []) low (length (x ∷ xs))
      (suc (length xs) + 0) (omega arith) (if-Fits t.push_first_remainder (x ∷ xs) low r))
execute-Fits t (x ∷ xs) (y ∷ ys) low (hx, bx, r) (hy, by_, q) = elim (Bool-cases (ltb x y)) [
  | inl lt ↦
      let zs = push_if t.push_first_smaller x (execute t xs (y ∷ ys)) in
      rw (execute-less t x y xs ys lt) (
        Fits-le zs low (suc (length xs + suc (length ys))) (suc (length xs) + suc (length ys))
          (omega arith)
          (push_if-Fits t.push_first_smaller x low (length xs + suc (length ys))
            (execute t xs (y ∷ ys)) hx bx
            (execute-Fits t xs (y ∷ ys) (suc x) r (ground arith, by_, q))))
  | inr ge ↦ elim (Bool-cases (ltb y x)) [
    | inl gt ↦
        let zs = push_if t.push_second_smaller y (execute t (x ∷ xs) ys) in
        rw (execute-greater t x y xs ys ge gt) (
          Fits-le zs low (suc (suc (length xs) + length ys)) (suc (length xs) + suc (length ys))
            (omega arith)
            (push_if-Fits t.push_second_smaller y low (suc (length xs) + length ys)
              (execute t (x ∷ xs) ys) hy by_
              (execute-Fits t (x ∷ xs) ys (suc y) (ground arith, bx, r) q)))
    | inr eq ↦
        let e : y ≡ x = ground arith in
        let zs = push_if t.push_equal x (execute t xs ys) in
        rw (execute-same t x y xs ys ge eq) (
          Fits-le zs low (suc (length xs + length ys)) (suc (length xs) + suc (length ys))
            (omega arith)
            (push_if-Fits t.push_equal x low (length xs + length ys) (execute t xs ys) hx bx
              (execute-Fits t xs ys (suc x) r (subst (λ (k : ℕ). Rises (suc k) ys) e q))))
  ]
]

-- Strictly ascending ids are near, up to any of them.
pub Rises-AreNear :
    (us vs : List ℕ) (low p : ℕ) → Rises low (us ++ vs) → p ≤ low → p < 2 ^ 31 → AreNear p us
Rises-AreNear [] vs low p r h b = tt
Rises-AreNear (u ∷ us) vs low p (a, c, r) h b =
    (omega arith, omega arith, Rises-AreNear us vs (suc u) u r (omega arith) c)
