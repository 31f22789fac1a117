-- ===== src/ItemIndex/RunDelta/Intersect/Heads.antt =====
-- The heads and the tails of several lists, and the ids that they have in common.
use sserialize.Base.{
  ℕ, suc, true, false, ◌<◌, ◌≤◌, ◌≡◌, refl, ap, arith, ◌==◌, if◌then◌else◌, ◌&&◌, ◌||◌,
}
use sserialize.Base.{List, [], ◌∷◌, length, All, Bool-cases, inl, inr}
use sserialize.ItemIndex.SetOp.Member.{IsAscending, IsAscending-le, has}
use sserialize.ItemIndex.RunDelta.Intersect.Lists.{
  IsNonempty, drop_each, empties, has_each, heads_are, tails, total,
}

has_each-head :
    (v id : ℕ) (ls : List (List ℕ))
    → heads_are id ls ≡ true
    → (v == id) ≡ true
    → has_each v ls ≡ true
has_each-head v id [] e h = refl
has_each-head v id ([] ∷ ls) e h = cc
has_each-head v id ((x ∷ xs) ∷ ls) e h = ground (arith, has_each-head v id ls)

has_each-tails :
    (v id : ℕ) (ls : List (List ℕ))
    → heads_are id ls ≡ true
    → (v == id) ≡ false
    → has_each v ls ≡ has_each v (tails ls)
has_each-tails v id [] e h = refl
has_each-tails v id ([] ∷ ls) e h = cc
has_each-tails v id ((x ∷ xs) ∷ ls) e h = ground (arith, has_each-tails v id ls)

-- Where all heads are `id`, it is in all lists, and the rest is in common of the tails.
pub heads_are-has :
    (v id : ℕ) (ls : List (List ℕ))
    → heads_are id ls ≡ true
    → has_each v ls ≡ ((v == id) || has_each v (tails ls))
heads_are-has v id ls e = elim (Bool-cases (v == id)) [
  | inl h ↦ rw (h, has_each-head v id ls e h) refl
  | inr h ↦ rw (h, has_each-tails v id ls e h) refl
]

-- A list that is empty has nothing in common with others.
pub has_each-empties : (v : ℕ) (ls : List (List ℕ)) → 1 ≤ empties ls → has_each v ls ≡ false
has_each-empties v [] h = absurd (omega arith)
has_each-empties v ([] ∷ ls) h = refl
has_each-empties v ((x ∷ xs) ∷ ls) h = ground (arith, has_each-empties v ls)

pub tails-IsAscending :
    (id : ℕ) (ls : List (List ℕ))
    → All (IsAscending 0) ls
    → heads_are id ls ≡ true
    → All (IsAscending (suc id)) (tails ls)
tails-IsAscending id [] a e = tt
tails-IsAscending id ([] ∷ ls) a e = cc
tails-IsAscending id ((x ∷ xs) ∷ ls) ((_, a), rest) e =
    let h : x ≡ id = ground arith in (rw h at a, tails-IsAscending id ls rest (ground arith))

pub All-IsAscending-le :
    (ls : List (List ℕ)) (b c : ℕ) → b ≤ c → All (IsAscending c) ls → All (IsAscending b) ls
All-IsAscending-le [] b c h a = tt
All-IsAscending-le (l ∷ ls) b c h (a, rest) =
    (IsAscending-le l b c h a, All-IsAscending-le ls b c h rest)

pub total-tails-le : (ls : List (List ℕ)) → total (tails ls) ≤ total ls
total-tails-le [] = omega arith
total-tails-le ([] ∷ ls) = omega (arith, total-tails-le ls)
total-tails-le ((x ∷ xs) ∷ ls) = omega (arith, total-tails-le ls)

pub empties-IsNonempty : (ls : List (List ℕ)) → empties ls ≡ 0 → All IsNonempty ls
empties-IsNonempty [] h = tt
empties-IsNonempty ([] ∷ ls) h = absurd (omega arith)
empties-IsNonempty ((x ∷ xs) ∷ ls) h = (omega arith, empties-IsNonempty ls (omega arith))

pub empties-le : (ls : List (List ℕ)) → empties ls ≤ length ls
empties-le [] = omega arith
empties-le ([] ∷ ls) = omega (arith, empties-le ls)
empties-le ((x ∷ xs) ∷ ls) = omega (arith, empties-le ls)

pub length-drop_each : (id : ℕ) (ls : List (List ℕ)) → length (drop_each id ls) ≡ length ls
length-drop_each id [] = refl
length-drop_each id (l ∷ ls) = ap suc (length-drop_each id ls)

pub length-tails : (ls : List (List ℕ)) → length (tails ls) ≡ length ls
length-tails [] = refl
length-tails (l ∷ ls) = ap suc (length-tails ls)

-- The ids of the first list that all others have.
common : List ℕ → List (List ℕ) → List ℕ
common [] ls = []
common (x ∷ xs) ls = if has_each x ls then x ∷ common xs ls else common xs ls

common-IsAscending :
    (l : List ℕ) (ls : List (List ℕ)) (b : ℕ) → IsAscending b l → IsAscending b (common l ls)
unfolding common
common-IsAscending [] ls b a = tt
common-IsAscending (x ∷ xs) ls b (le, a) =
    let ih = common-IsAscending xs ls (suc x) a in
    elim (Bool-cases (has_each x ls)) [
      | inl e ↦ rw e (le, ih)
      | inr e ↦ rw e (IsAscending-le (common xs ls) b (suc x) (omega arith) ih)
    ]

has-common :
    (v : ℕ) (l : List ℕ) (ls : List (List ℕ)) → has v (common l ls) ≡ (has v l && has_each v ls)
unfolding common
has-common v [] ls = refl
has-common v (x ∷ xs) ls = elim (Bool-cases (v == x)) [
  | inl e ↦
      let h : x ≡ v = ground arith in
      rw (h) (elim (Bool-cases (has_each v ls)) [
        | inl f ↦ rw f (ground arith)
        | inr f ↦ rw (f, has-common v xs ls) (ground arith)
      ])
  | inr e ↦ rw e (elim (Bool-cases (has_each x ls)) [
    | inl f ↦ rw (f, e, has-common v xs ls) refl
    | inr f ↦ rw (f, has-common v xs ls) refl
  ])
]

-- What some lists have in common, in ascending order.
abbrev pub AreCommon : ℕ → List (List ℕ) → List ℕ → Type 0
AreCommon b ls ids = IsAscending b ids × ((v : ℕ) → has v ids ≡ has_each v ls)

pub AreCommon-exists :
    (l : List ℕ) (ls : List (List ℕ)) (b : ℕ)
    → All (IsAscending b) (l ∷ ls)
    → (ids : List ℕ) × AreCommon b (l ∷ ls) ids
AreCommon-exists l ls b (a, rest) =
    (common l ls, (common-IsAscending l ls b a, λ v. has-common v l ls))

pub total-tails-lt :
    (ls : List (List ℕ)) → All IsNonempty ls → 1 ≤ length ls → total (tails ls) < total ls
total-tails-lt [] ns h = absurd (omega arith)
total-tails-lt ([] ∷ ls) (n, ns) h = absurd (omega arith)
total-tails-lt ((x ∷ xs) ∷ ls) (n, ns) h = omega (arith, total-tails-le ls)

pub heads_are-ge :
    (id b : ℕ) (ls : List (List ℕ))
    → heads_are id ls ≡ true
    → All (IsAscending b) ls
    → 1 ≤ length ls
    → b ≤ id
heads_are-ge id b [] e a h = absurd (omega arith)
heads_are-ge id b ([] ∷ ls) e a h = cc
heads_are-ge id b ((x ∷ xs) ∷ ls) e ((le, a), rest) h = ground arith
