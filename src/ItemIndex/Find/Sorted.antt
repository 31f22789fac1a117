-- ===== src/ItemIndex/Find/Sorted.antt =====
-- The binary searches find a key of a sorted container, or that it has none.
use sserialize.Base.{
  ℕ, zero, suc, true, false, ◌+◌, ◌-◌, ◌/◌, ◌^◌, ◌<◌, ◌≤◌, ◌≡◌, ◌≢◌, ◌⊎◌, refl, sym, ap, ◌∙◌, arith,
  inl, inr, ◌==◌, ltb, Bool-cases, if◌then◌else◌, some,
}
use sserialize.ItemIndex.Find.{search_from, find_id, binary_search_key}

-- The container is strictly ascending.
abbrev pub IsSorted : (ℕ → ℕ) → ℕ → Type 0
IsSorted at size = (p q : ℕ) → p < q → q < size → at p < at q

-- A position of the key, or `npos` where no position has it.
abbrev pub IsPositionOf : (ℕ → ℕ) → ℕ → ℕ → ℕ → ℕ → Type 0
IsPositionOf at size npos key r =
    ((r < size) × (at r ≡ key)) ⊎ ((r ≡ npos) × ((p : ℕ) → p < size → at p ≢ key))

module _ (at : ℕ → ℕ) (size key npos : ℕ) (sorted : IsSorted at size) where
  at_le : (p q : ℕ) → p ≤ q → q < size → at p ≤ at q
  at_le p q h k = elim (Bool-cases (ltb p q)) [
    | inl e ↦ let l = sorted p q (ground arith) k in omega arith
    | inr e ↦ let l : p ≡ q = ground arith in let d = ap at l in omega arith
  ]

  -- The positions before `left` are lower, and those from `past` on are greater.
  record Within (left past : ℕ) : Type 0 where
    low : left < size
    ordered : left ≤ past
    high : past ≤ size
    lower : (p : ℕ) → p < left → at p < key
    greater : (p : ℕ) → past ≤ p → p < size → key < at p

  abbrev Found : ℕ → ℕ → ℕ → Type 0
  Found fuel left past =
      (r : ℕ) × (search_from fuel at key npos left past ≡ some r) × IsPositionOf at size npos key r

  module _ (fuel left past : ℕ) where
    abbrev mid : ℕ
    mid = (past - 1 - left) / 2 + left

    round-stop :
        ltb (left + 1) past ≡ false
        → search_from (suc fuel) at key npos left past ≡ some (if at mid == key then mid else npos)
    unfolding search_from
    round-stop e = ground arith

    module _ (go : ltb (left + 1) past ≡ true) where
      round-hit : (at mid == key) ≡ true → search_from (suc fuel) at key npos left past ≡ some mid
      unfolding search_from
      round-hit e = ground arith

      round-right :
          (at mid == key) ≡ false
          → ltb (at mid) key ≡ true
          → search_from (suc fuel) at key npos left past
            ≡ search_from fuel at key npos (mid + 1) past
      unfolding search_from
      round-right e l = ground arith

      round-left :
          (at mid == key) ≡ false
          → ltb (at mid) key ≡ false
          → search_from (suc fuel) at key npos left past ≡ search_from fuel at key npos left mid
      unfolding search_from
      round-left e l = ground arith

  -- With one position left, its value decides.
  no-other :
      (left past : ℕ)
      → Within left past
      → ltb (left + 1) past ≡ false
      → (at left == key) ≡ false
      → (p : ℕ) → p < size
      → at p ≢ key
  no-other left past w e f p h k = elim (Bool-cases (ltb p left)) [
    | inl a ↦ let l = w.lower p (ground arith) in absurd (omega arith)
    | inr a ↦ elim (Bool-cases (ltb left p)) [
      | inl b ↦ let g = w.greater p (ground arith) h in absurd (omega arith)
      | inr b ↦
          let q : p ≡ left = ground arith in
          let r : at left ≡ key = ap at (sym q) ∙ k in absurd (ground arith)
    ]
  ]

  search-stop :
      (fuel left past : ℕ)
      → Within left past
      → ltb (left + 1) past ≡ false
      → Found (suc fuel) left past
  search-stop fuel left past w e =
      let i = w.low in
      let o = w.ordered in
      let m : (past - 1 - left) / 2 + left ≡ left = ground arith in
      let s = round-stop fuel left past e in
      elim (Bool-cases (at left == key)) [
        | inl f ↦ (left, s ∙ rw (m, f) refl, inl (i, ground arith))
        | inr f ↦ (npos, s ∙ rw (m, f) refl, inr (refl, no-other left past w e f))
      ]

  search-Found : (fuel left past : ℕ) → Within left past → past - left < fuel → Found fuel left past
  search-Found zero left past w h = absurd (omega arith)
  search-Found (suc fuel) left past w h = elim (Bool-cases (ltb (left + 1) past)) [
    | inr e ↦ search-stop fuel left past w e
    | inl e ↦
        let i = w.low in
        let o = w.high in
        let m = mid fuel left past in
        let l : left ≤ m = ground arith in
        let r : m + 1 < past = ground arith in
        elim (Bool-cases (at m == key)) [
          | inl f ↦ (m, round-hit fuel left past e f, inl (omega arith, ground arith))
          | inr f ↦ elim (Bool-cases (ltb (at m) key)) [
            | inl g ↦
                let w' : Within (m + 1) past = record {
                  low = omega arith;
                  ordered = omega arith;
                  high = o;
                  lower = λ p q.
                      (let d = at_le p m (omega arith) (omega arith) in
                        let lt : at m < key = ground arith in omega arith);
                  greater = w.greater;
                } in
                let (n, s, d) = search-Found fuel (m + 1) past w' (omega arith) in
                (n, round-right fuel left past e f g ∙ s, d)
            | inr g ↦
                let w' : Within left m = record {
                  low = i;
                  ordered = l;
                  high = omega arith;
                  lower = w.lower;
                  greater = λ p q k.
                      (let d = at_le m p q k in let gt : key < at m = ground arith in omega arith);
                } in
                let (n, s, d) = search-Found fuel left m w' (omega arith) in
                (n, round-left fuel left past e f g ∙ s, d)
          ]
        ]
  ]

  whole : 1 ≤ size → Found (size + 1) 0 size
  whole h =
      search-Found (size + 1) 0 size
        (record {
          low = h;
          ordered = omega arith;
          high = omega arith;
          lower = λ p q. absurd (omega arith);
          greater = λ p q k. absurd (omega arith);
        })
        (omega arith)

-- ItemIndexPrivate::find and binarySearchKeyInArray end on every strictly ascending container, an empty
-- one too. They return a position of the key where it has one, and else the greatest value of their
-- result type.
pub find_id-binary_search_key :
    (at : ℕ → ℕ) (size key : ℕ)
    → IsSorted at size
    → ((r : ℕ) × (find_id at size key ≡ some r) × IsPositionOf at size (2 ^ 32 - 1) key r)
      × ((r : ℕ) × (binary_search_key at size key ≡ some r)
          × IsPositionOf at size (2 ^ 64 - 1) key r)
unfolding find_id binary_search_key
find_id-binary_search_key at size key sorted = elim (Bool-cases (size == 0)) [
  | inl e ↦ (
    (2 ^ 32 - 1, rw e refl, inr (refl, λ p h. absurd (ground arith))),
    (2 ^ 64 - 1, rw e refl, inr (refl, λ p h. absurd (ground arith))),
  )
  | inr e ↦
      let (r, s, d) = whole at size key (2 ^ 32 - 1) sorted (ground arith) in
      let (r', s', d') = whole at size key (2 ^ 64 - 1) sorted (ground arith) in
      ((r, rw e s, d), (r', rw e s', d'))
]
