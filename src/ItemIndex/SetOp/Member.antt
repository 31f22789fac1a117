-- ===== src/ItemIndex/SetOp/Member.antt =====
-- The merge computes the set operation that its constants name.
use sserialize.Base.{ℕ, suc, true, false, ◌<◌, ◌≤◌, ◌≡◌, refl, arith}
use sserialize.Base.{
  ltb, ◌==◌, if◌then◌else◌, Bool, ◌&&◌, ◌||◌, Bool-cases, inl, inr, List, [], ◌∷◌,
}
use sserialize.Base.{not, ◌∙◌}
use sserialize.ItemIndex.SetOp.{SetOpTraits, execute, push_if}
use sserialize.ItemIndex.SetOp.{intersect_op, unite_op, difference_op, symmetric_difference_op}

-- Strictly ascending from `b` on.
abbrev pub IsAscending : ℕ → List ℕ → Type 0
IsAscending b [] = Unit {0}
IsAscending b (x ∷ xs) = (b ≤ x) × IsAscending (suc x) xs

abbrev pub has : ℕ → List ℕ → Bool
has v [] = false
has v (x ∷ xs) = (v == x) || has v xs

pub IsAscending-le : (xs : List ℕ) (b c : ℕ) → b ≤ c → IsAscending c xs → IsAscending b xs
IsAscending-le [] b c h a = tt
IsAscending-le (x ∷ xs) b c h (le, a) = (omega arith, a)

pub has-below : (xs : List ℕ) (b v : ℕ) → IsAscending b xs → v < b → has v xs ≡ false
has-below [] b v a h = refl
has-below (x ∷ xs) b v (le, a) h = ground (arith, has-below xs (suc x) v a)

-- The constants agree on what is smaller and what remains.
pub record IsConsistent (t : SetOpTraits) : Type 0 where
  pub first : t.push_first_remainder ≡ t.push_first_smaller
  pub second : t.push_second_remainder ≡ t.push_second_smaller

-- Whether an id is pushed, by the indexes that have it.
abbrev pub pushes : SetOpTraits → Bool → Bool → Bool
pushes t true true = t.push_equal
pushes t true false = t.push_first_smaller
pushes t false true = t.push_second_smaller
pushes t false false = false

module _ (t : SetOpTraits) where
  pushes_first : (p : Bool) → (t.push_first_smaller && p) ≡ pushes t p false
  pushes_first p = ground arith

  pushes_second : (p : Bool) → (t.push_second_smaller && p) ≡ pushes t false p
  pushes_second p = ground arith

  only_first :
      (v x : ℕ) (xs ys : List ℕ)
      → IsAscending (suc x) xs
      → IsAscending (suc x) ys
      → ((t.push_first_smaller && (v == x)) || pushes t (has v xs) (has v ys))
        ≡ pushes t ((v == x) || has v xs) (has v ys)
  only_first v x xs ys ax ay = elim (Bool-cases (v == x)) [
    | inl e ↦
        let h : v < suc x = ground arith in
        rw (e, has-below xs (suc x) v ax h, has-below ys (suc x) v ay h) (ground arith)
    | inr n ↦ rw n (ground arith)
  ]

  only_second :
      (v y : ℕ) (xs ys : List ℕ)
      → IsAscending (suc y) xs
      → IsAscending (suc y) ys
      → ((t.push_second_smaller && (v == y)) || pushes t (has v xs) (has v ys))
        ≡ pushes t (has v xs) ((v == y) || has v ys)
  only_second v y xs ys ax ay = elim (Bool-cases (v == y)) [
    | inl e ↦
        let h : v < suc y = ground arith in
        rw (e, has-below xs (suc y) v ax h, has-below ys (suc y) v ay h) (ground arith)
    | inr n ↦ rw n (ground arith)
  ]

  in_both :
      (v x : ℕ) (xs ys : List ℕ)
      → IsAscending (suc x) xs
      → IsAscending (suc x) ys
      → ((t.push_equal && (v == x)) || pushes t (has v xs) (has v ys))
        ≡ pushes t ((v == x) || has v xs) ((v == x) || has v ys)
  in_both v x xs ys ax ay = elim (Bool-cases (v == x)) [
    | inl e ↦
        let h : v < suc x = ground arith in
        rw (e, has-below xs (suc x) v ax h, has-below ys (suc x) v ay h) (ground arith)
    | inr n ↦ rw n (ground arith)
  ]

  push_if-IsAscending :
      (p : Bool) (x b : ℕ) (rest : List ℕ)
      → b ≤ x
      → IsAscending (suc x) rest
      → IsAscending b (push_if p x rest)
  unfolding push_if
  push_if-IsAscending true x b rest h a = (h, a)
  push_if-IsAscending false x b rest h a = IsAscending-le rest b (suc x) (omega arith) a

  -- The three cases of the loop.
  pub execute-less :
      (x y : ℕ) (xs ys : List ℕ)
      → ltb x y ≡ true
      → execute t (x ∷ xs) (y ∷ ys) ≡ push_if t.push_first_smaller x (execute t xs (y ∷ ys))
  unfolding execute
  execute-less x y xs ys h = ground arith

  pub execute-greater :
      (x y : ℕ) (xs ys : List ℕ)
      → ltb x y ≡ false
      → ltb y x ≡ true
      → execute t (x ∷ xs) (y ∷ ys) ≡ push_if t.push_second_smaller y (execute t (x ∷ xs) ys)
  unfolding execute
  execute-greater x y xs ys h k = rw (h, execute, k) refl

  pub execute-same :
      (x y : ℕ) (xs ys : List ℕ)
      → ltb x y ≡ false
      → ltb y x ≡ false
      → execute t (x ∷ xs) (y ∷ ys) ≡ push_if t.push_equal x (execute t xs ys)
  unfolding execute
  execute-same x y xs ys h k = ground arith

  pub execute-nil_cons :
      (y : ℕ) (ys : List ℕ)
      → execute t [] (y ∷ ys) ≡ (if t.push_second_remainder then y ∷ ys else [])
  unfolding execute
  execute-nil_cons y ys = refl

  pub execute-cons_nil :
      (x : ℕ) (xs : List ℕ)
      → execute t (x ∷ xs) [] ≡ (if t.push_first_remainder then x ∷ xs else [])
  unfolding execute
  execute-cons_nil x xs = refl

  pub execute-nil_nil : execute t [] [] ≡ []
  unfolding execute
  execute-nil_nil = refl

  if-IsAscending :
      (p : Bool) (xs : List ℕ) (b : ℕ) → IsAscending b xs → IsAscending b (if p then xs else [])
  if-IsAscending true xs b a = a
  if-IsAscending false xs b a = tt

  -- The ids that are pushed are strictly ascending.
  pub execute-IsAscending :
      (xs ys : List ℕ) (b : ℕ)
      → IsAscending b xs
      → IsAscending b ys
      → IsAscending b (execute t xs ys)
  execute-IsAscending [] [] b ax ay = rw execute-nil_nil tt
  execute-IsAscending [] (y ∷ ys) b ax ay =
      rw (execute-nil_cons y ys) (if-IsAscending t.push_second_remainder (y ∷ ys) b ay)
  execute-IsAscending (x ∷ xs) [] b ax ay =
      rw (execute-cons_nil x xs) (if-IsAscending t.push_first_remainder (x ∷ xs) b ax)
  execute-IsAscending (x ∷ xs) (y ∷ ys) b (hx, ax) (hy, ay) = elim (Bool-cases (ltb x y)) [
    | inl lt ↦ rw (execute-less x y xs ys lt) (
        push_if-IsAscending t.push_first_smaller x b (execute t xs (y ∷ ys)) hx
          (execute-IsAscending xs (y ∷ ys) (suc x) ax (ground arith, ay)))
    | inr ge ↦ elim (Bool-cases (ltb y x)) [
      | inl gt ↦ rw (execute-greater x y xs ys ge gt) (
          push_if-IsAscending t.push_second_smaller y b (execute t (x ∷ xs) ys) hy
            (execute-IsAscending (x ∷ xs) ys (suc y) (ground arith, ax) ay))
      | inr eq ↦
          let e : y ≡ x = ground arith in
          let ay' : IsAscending (suc x) ys = rw e at ay in
          rw (execute-same x y xs ys ge eq) (
            push_if-IsAscending t.push_equal x b (execute t xs ys) hx
              (execute-IsAscending xs ys (suc x) ax ay'))
    ]
  ]

  has-push_if :
      (p : Bool) (v x : ℕ) (rest : List ℕ)
      → has v (push_if p x rest) ≡ ((p && (v == x)) || has v rest)
  unfolding push_if
  has-push_if true v x rest = refl
  has-push_if false v x rest = refl

  has-if : (p : Bool) (v : ℕ) (xs : List ℕ) → has v (if p then xs else []) ≡ (p && has v xs)
  has-if true v xs = refl
  has-if false v xs = refl

  -- An id is pushed exactly where the constants say so of the indexes that have it.
  pub has-execute :
      (xs ys : List ℕ) (b v : ℕ)
      → IsConsistent t
      → IsAscending b xs
      → IsAscending b ys
      → has v (execute t xs ys) ≡ pushes t (has v xs) (has v ys)
  has-execute [] [] b v c ax ay = rw execute-nil_nil refl
  has-execute [] (y ∷ ys) b v c ax ay =
      rw (execute-nil_cons y ys, has-if t.push_second_remainder v (y ∷ ys), c.second)
        (pushes_second (has v (y ∷ ys)))
  has-execute (x ∷ xs) [] b v c ax ay =
      rw (execute-cons_nil x xs, has-if t.push_first_remainder v (x ∷ xs), c.first)
        (pushes_first (has v (x ∷ xs)))
  has-execute (x ∷ xs) (y ∷ ys) b v c (hx, ax) (hy, ay) = elim (Bool-cases (ltb x y)) [
    | inl lt ↦
        let ay' : IsAscending (suc x) (y ∷ ys) = (ground arith, ay) in
        rw
          (
            execute-less x y xs ys lt,
            has-push_if t.push_first_smaller v x (execute t xs (y ∷ ys)),
            has-execute xs (y ∷ ys) (suc x) v c ax ay',
          )
          (only_first v x xs (y ∷ ys) ax ay')
    | inr ge ↦ elim (Bool-cases (ltb y x)) [
      | inl gt ↦
          let ax' : IsAscending (suc y) (x ∷ xs) = (ground arith, ax) in
          rw
            (
              execute-greater x y xs ys ge gt,
              has-push_if t.push_second_smaller v y (execute t (x ∷ xs) ys),
              has-execute (x ∷ xs) ys (suc y) v c ax' ay,
            )
            (only_second v y (x ∷ xs) ys ax' ay)
      | inr eq ↦
          let e : y ≡ x = ground arith in
          let ay' : IsAscending (suc x) ys = rw e at ay in
          rw
            (
              execute-same x y xs ys ge eq,
              has-push_if t.push_equal v x (execute t xs ys),
              has-execute xs ys (suc x) v c ax ay',
              e,
            )
            (in_both v x xs ys ax ay')
    ]
  ]

consistent :
    (t : SetOpTraits)
    → t.push_first_remainder ≡ t.push_first_smaller
    → t.push_second_remainder ≡ t.push_second_smaller
    → IsConsistent t
consistent t p q = record { first = p; second = q }

and_pushes : (p q : Bool) → pushes intersect_op p q ≡ (p && q)
and_pushes p q = ground arith

or_pushes : (p q : Bool) → pushes unite_op p q ≡ (p || q)
or_pushes p q = ground arith

minus_pushes : (p q : Bool) → pushes difference_op p q ≡ (p && not q)
minus_pushes p q = ground arith

xor_pushes : (p q : Bool) → pushes symmetric_difference_op p q ≡ ((p && not q) || (q && not p))
xor_pushes p q = ground arith

-- On strictly ascending indexes the executer with the four traits gives the ids of both, of either,
-- of only the first, and of exactly one of them.
pub has-set_operations :
    (xs ys : List ℕ) (v : ℕ)
    → IsAscending 0 xs
    → IsAscending 0 ys
    → (has v (execute intersect_op xs ys) ≡ (has v xs && has v ys))
      × (has v (execute unite_op xs ys) ≡ (has v xs || has v ys))
      × (has v (execute difference_op xs ys) ≡ (has v xs && not (has v ys)))
      × (has v (execute symmetric_difference_op xs ys)
          ≡ ((has v xs && not (has v ys)) || (has v ys && not (has v xs))))
has-set_operations xs ys v ax ay = (
  has-execute intersect_op xs ys 0 v (consistent intersect_op refl refl) ax ay
      ∙ and_pushes (has v xs) (has v ys),
  has-execute unite_op xs ys 0 v (consistent unite_op refl refl) ax ay
      ∙ or_pushes (has v xs) (has v ys),
  has-execute difference_op xs ys 0 v (consistent difference_op refl refl) ax ay
      ∙ minus_pushes (has v xs) (has v ys),
  has-execute symmetric_difference_op xs ys 0 v (consistent symmetric_difference_op refl refl) ax ay
      ∙ xor_pushes (has v xs) (has v ys),
)
