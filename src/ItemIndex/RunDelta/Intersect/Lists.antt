-- ===== src/ItemIndex/RunDelta/Intersect/Lists.antt =====
-- The ids that several lists have in common, and what passing the lower ids of the lists leaves.
use sserialize.Base.{
  ℕ, suc, true, false, ◌+◌, ◌<◌, ◌≤◌, ◌≡◌, refl, arith, ◌==◌, ltb, leb, if◌then◌else◌, Bool, ◌&&◌,
}
use sserialize.Base.{List, [], ◌∷◌, length, All, Bool-cases, inl, inr}
use sserialize.ItemIndex.SetOp.Member.{IsAscending, IsAscending-le, has, has-below}

abbrev pub has_each : ℕ → List (List ℕ) → Bool
has_each v [] = true
has_each v (l ∷ ls) = has v l && has_each v ls

abbrev pub IsNonempty : List ℕ → Type 0
IsNonempty l = 1 ≤ length l

abbrev pub is_empty : List ℕ → Bool
is_empty [] = true
is_empty (x ∷ xs) = false

abbrev pub head_is : ℕ → List ℕ → Bool
head_is id [] = false
head_is id (x ∷ xs) = x == id

abbrev pub drop_below : ℕ → List ℕ → List ℕ
drop_below id [] = []
drop_below id (x ∷ xs) = if ltb x id then drop_below id xs else x ∷ xs

abbrev pub drop_each : ℕ → List (List ℕ) → List (List ℕ)
drop_each id [] = []
drop_each id (l ∷ ls) = drop_below id l ∷ drop_each id ls

abbrev pub heads_are : ℕ → List (List ℕ) → Bool
heads_are id [] = true
heads_are id (l ∷ ls) = head_is id l && heads_are id ls

abbrev pub max_head : List (List ℕ) → ℕ → ℕ
max_head [] m = m
max_head ([] ∷ ls) m = max_head ls m
max_head ((x ∷ xs) ∷ ls) m = max_head ls (if leb m x then x else m)

abbrev pub total : List (List ℕ) → ℕ
total [] = 0
total (l ∷ ls) = length l + total ls

abbrev pub empties : List (List ℕ) → ℕ
empties [] = 0
empties (l ∷ ls) = (if is_empty l then 1 else 0) + empties ls

abbrev pub tail : List ℕ → List ℕ
tail [] = []
tail (x ∷ xs) = xs

abbrev pub tails : List (List ℕ) → List (List ℕ)
tails [] = []
tails (l ∷ ls) = tail l ∷ tails ls

drop_below-IsAscending :
    (id : ℕ) (l : List ℕ) (b : ℕ) → IsAscending b l → IsAscending b (drop_below id l)
drop_below-IsAscending id [] b a = tt
drop_below-IsAscending id (x ∷ xs) b (le, a) = elim (Bool-cases (ltb x id)) [
  | inl e ↦ rw e (drop_below-IsAscending id xs b (IsAscending-le xs b (suc x) (omega arith) a))
  | inr e ↦ rw e (le, a)
]

length-drop_below : (id : ℕ) (l : List ℕ) → length (drop_below id l) ≤ length l
length-drop_below id [] = omega arith
length-drop_below id (x ∷ xs) = ground (arith, length-drop_below id xs)

has-drop_below : (v id : ℕ) (l : List ℕ) → id ≤ v → has v (drop_below id l) ≡ has v l
has-drop_below v id [] h = refl
has-drop_below v id (x ∷ xs) h = ground (arith, has-drop_below v id xs h)

has-drop_below_low :
    (v id : ℕ) (l : List ℕ) (b : ℕ) → IsAscending b l → v < id → has v (drop_below id l) ≡ false
has-drop_below_low v id [] b a h = refl
has-drop_below_low v id (x ∷ xs) b (le, a) h = elim (Bool-cases (ltb x id)) [
  | inl e ↦ rw e (has-drop_below_low v id xs (suc x) a h)
  | inr e ↦ rw e (ground (arith, has-below xs (suc x) v a))
]

-- No list has an id below its head, so not all lists have one below the greatest head.
has_each-below :
    (v : ℕ) (ls : List (List ℕ)) (m : ℕ)
    → All (IsAscending 0) ls
    → m ≤ v
    → v < max_head ls m
    → has_each v ls ≡ false
has_each-below v [] m a le h = absurd (omega arith)
has_each-below v ([] ∷ ls) m a le h = refl
has_each-below v ((x ∷ xs) ∷ ls) m ((_, a), rest) le h =
    let m' = if leb m x then x else m in
    elim (Bool-cases (leb m' v)) [
      | inl e ↦ ground (arith, has_each-below v ls m' rest)
      | inr e ↦ ground (arith, has-below xs (suc x) v a)
    ]

has_each-drop :
    (v id : ℕ) (ls : List (List ℕ)) → id ≤ v → has_each v (drop_each id ls) ≡ has_each v ls
has_each-drop v id [] h = refl
has_each-drop v id (l ∷ ls) h = rw (has-drop_below v id l h, has_each-drop v id ls h) refl

-- Passing the ids below the greatest head keeps what the lists have in common.
pub has_each-drop_max :
    (v : ℕ) (l : List ℕ) (ls : List (List ℕ))
    → All (IsAscending 0) (l ∷ ls)
    → has_each v (drop_each (max_head (l ∷ ls) 0) (l ∷ ls)) ≡ has_each v (l ∷ ls)
has_each-drop_max v l ls (a, rest) =
    let id = max_head (l ∷ ls) 0 in
    elim (Bool-cases (ltb v id)) [
      | inl low ↦
          let f = has-drop_below_low v id l 0 a (ground arith) in
          let g = has_each-below v (l ∷ ls) 0 (a, rest) (omega arith) (ground arith) in
          rw (f, g) refl
      | inr high ↦ has_each-drop v id (l ∷ ls) (ground arith)
    ]

pub drop_each-IsAscending :
    (id : ℕ) (ls : List (List ℕ)) (b : ℕ)
    → All (IsAscending b) ls
    → All (IsAscending b) (drop_each id ls)
drop_each-IsAscending id [] b a = tt
drop_each-IsAscending id (l ∷ ls) b (a, rest) =
    (drop_below-IsAscending id l b a, drop_each-IsAscending id ls b rest)

-- A list whose head is not the greatest loses ids.
pub total-drop_each-le : (id : ℕ) (ls : List (List ℕ)) → total (drop_each id ls) ≤ total ls
total-drop_each-le id [] = omega arith
total-drop_each-le id (l ∷ ls) = omega (arith, length-drop_below id l, total-drop_each-le id ls)

max_head-le : (ls : List (List ℕ)) (m : ℕ) → m ≤ max_head ls m
max_head-le [] m = omega arith
max_head-le ([] ∷ ls) m = max_head-le ls m
max_head-le ((x ∷ xs) ∷ ls) m = ground (arith, max_head-le ls x, max_head-le ls m)

max_head_mono : (ls : List (List ℕ)) (m n : ℕ) → m ≤ n → max_head ls m ≤ max_head ls n
max_head_mono [] m n h = h
max_head_mono ([] ∷ ls) m n h = max_head_mono ls m n h
max_head_mono ((x ∷ xs) ∷ ls) m n h =
    max_head_mono ls (if leb m x then x else m) (if leb n x then x else n) (ground arith)

pub total-drop_each :
    (id : ℕ) (ls : List (List ℕ))
    → All IsNonempty ls
    → max_head ls 0 ≤ id
    → heads_are id (drop_each id ls) ≡ false
    → total (drop_each id ls) < total ls
total-drop_each id [] n h e = cc
total-drop_each id ([] ∷ ls) (n, ns) h e = absurd (omega arith)
total-drop_each id ((x ∷ xs) ∷ ls) (n, ns) h e =
    let z : leb 0 x ≡ true = ground arith in
    let w : max_head ls x ≤ id = rw z at h in
    let k : max_head ls 0 ≤ id = omega (arith, max_head_mono ls 0 x (omega arith)) in
    let le : x ≤ id = omega (arith, max_head-le ls x) in
    elim (Bool-cases (x == id)) [
      | inl same ↦
          let f : ltb x id ≡ false = ground arith in
          let e' : heads_are id (drop_each id ls) ≡ false = rw (f, same) at e in
          rw f (omega (arith, total-drop_each id ls ns k e'))
      | inr other ↦
          let f : ltb x id ≡ true = ground arith in
          rw f (omega (arith, length-drop_below id xs, total-drop_each-le id ls))
    ]
