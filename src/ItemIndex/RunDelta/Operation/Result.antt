-- ===== src/ItemIndex/RunDelta/Operation/Result.antt =====
-- genericOp of two run-length indexes gives an index of the ids that the merge of their ids pushes.
use sserialize.Base.{
  ℕ, true, false, ◌+◌, ◌^◌, ◌<◌, ◌≡◌, ◌⊎◌, refl, sym, ap, ◌∙◌, arith, subst, inl, inr, Bool-cases,
  ltb, ◌&&◌, if◌then◌else◌,
}
use sserialize.Base.{List, [], ◌∷◌, ◌++◌, append-nil, length, length-append, Option, some}
use sserialize.ItemIndex.SetOp.{SetOpTraits, execute}
use sserialize.ItemIndex.SetOp.Member.{execute-nil_cons, execute-cons_nil, execute-nil_nil}
use sserialize.ItemIndex.RunDelta.{RunCreator, RunIndex, flush_runs, put_into_runs}
use sserialize.ItemIndex.RunDelta.Read.{IsRunIndexOf, put_into_runs-IsRunIndexOf}
use sserialize.ItemIndex.RunDelta.Operation.{
  RunSide, start_side, merge_runs, push_rest_runs, generic_runs, get_dest_index,
}
use sserialize.ItemIndex.RunDelta.Operation.Sides.{IsSide, start_side-Leads}
use sserialize.ItemIndex.RunDelta.Operation.Kept.{Rises, execute-Fits}
use sserialize.ItemIndex.RunDelta.Operation.Merge.{merge_runs-Merged}
use sserialize.ItemIndex.RunDelta.Operation.Flush.{flush_runs-result}
use sserialize.ItemIndex.RunDelta.Operation.Remainder.{
  rewound_dest, rewound_dest-Shows, fresh, Given, given, push_rest_runs-result,
}

-- What genericOp does after its loop.
abbrev finish : SetOpTraits → ℕ → ℕ → RunSide → RunSide → RunCreator → Option RunCreator
finish t m n a b c =
    if t.push_first_remainder && ltb a.index_it m
    then push_rest_runs c m a
    else if t.push_second_remainder && ltb b.index_it n
    then push_rest_runs c n b
    else flush_runs c

module _ (t : SetOpTraits) (m n : ℕ) (hm : m < 2 ^ 31) (hn : n < 2 ^ 31) (a b : RunSide)
    (zs : List ℕ) (g : Given zs) where
  -- An index of these ids comes out.
  abbrev Finished : List ℕ → Type 0
  Finished ids =
      (c' : RunCreator) × (i : RunIndex) × (finish t m n a b g.creator ≡ some c')
      × (get_dest_index c' ≡ some i)
      × IsRunIndexOf i ids

  nothing_more :
      length zs < 2 ^ 28 → finish t m n a b g.creator ≡ flush_runs g.creator → Finished (zs ++ [])
  nothing_more few e =
      let (c', i, f, _, o, w) =
        flush_runs-result 8 (omega arith) rewound_dest rewound_dest-Shows g.creator g.runs zs
          g.holds g.on_cache g.at_start few in
      (c', i, e ∙ f, (unfold get_dest_index in o), rw (append-nil zs) w)

  first_left :
      (x : ℕ) (xs : List ℕ)
      → IsSide m a (x ∷ xs)
      → b.index_it ≡ n
      → Rises 0 (zs ++ execute t (x ∷ xs) [])
      → length (zs ++ execute t (x ∷ xs) []) < 2 ^ 28
      → Finished (zs ++ execute t (x ∷ xs) [])
  first_left x xs h e r few =
      let i = h.it in
      let go : ltb a.index_it m ≡ true = ground arith in
      let stop : ltb b.index_it n ≡ false = ground arith in
      elim (Bool-cases t.push_first_remainder) [
        | inl p ↦
            let q : execute t (x ∷ xs) [] ≡ x ∷ xs = execute-cons_nil t x xs ∙ rw p refl in
            let f : finish t m n a b g.creator ≡ push_rest_runs g.creator m a = ground arith in
            let (c', i, s, o, w) =
              push_rest_runs-result m hm a x xs h zs g
                (subst (λ (l : List ℕ). Rises 0 (zs ++ l)) q r)
                (subst (λ (l : List ℕ). length (zs ++ l) < 2 ^ 28) q few) in
            (c', i, f ∙ s, o, subst (λ (l : List ℕ). IsRunIndexOf i (zs ++ l)) (sym q) w)
        | inr p ↦
            let q : execute t (x ∷ xs) [] ≡ [] = execute-cons_nil t x xs ∙ rw p refl in
            subst (λ (l : List ℕ). Finished (zs ++ l)) (sym q)
              (nothing_more (omega (arith, length-append zs (execute t (x ∷ xs) [])))
                (ground arith))
      ]

  second_left :
      (y : ℕ) (ys : List ℕ)
      → a.index_it ≡ m
      → IsSide n b (y ∷ ys)
      → Rises 0 (zs ++ execute t [] (y ∷ ys))
      → length (zs ++ execute t [] (y ∷ ys)) < 2 ^ 28
      → Finished (zs ++ execute t [] (y ∷ ys))
  second_left y ys e h r few =
      let i = h.it in
      let go : ltb b.index_it n ≡ true = ground arith in
      let stop : ltb a.index_it m ≡ false = ground arith in
      let skip : (t.push_first_remainder && ltb a.index_it m) ≡ false = ground arith in
      elim (Bool-cases t.push_second_remainder) [
        | inl p ↦
            let q : execute t [] (y ∷ ys) ≡ y ∷ ys = execute-nil_cons t y ys ∙ rw p refl in
            let f : finish t m n a b g.creator ≡ push_rest_runs g.creator n b =
              rw (skip, p, go) refl in
            let (c', i, s, o, w) =
              push_rest_runs-result n hn b y ys h zs g
                (subst (λ (l : List ℕ). Rises 0 (zs ++ l)) q r)
                (subst (λ (l : List ℕ). length (zs ++ l) < 2 ^ 28) q few) in
            (c', i, f ∙ s, o, subst (λ (l : List ℕ). IsRunIndexOf i (zs ++ l)) (sym q) w)
        | inr p ↦
            let q : execute t [] (y ∷ ys) ≡ [] = execute-nil_cons t y ys ∙ rw p refl in
            subst (λ (l : List ℕ). Finished (zs ++ l)) (sym q)
              (nothing_more (omega (arith, length-append zs (execute t [] (y ∷ ys))))
                (rw (skip, p) refl))
      ]

  all_left :
      (xs ys : List ℕ)
      → IsSide m a xs
      → IsSide n b ys
      → (xs ≡ []) ⊎ (ys ≡ [])
      → Rises 0 (zs ++ execute t xs ys)
      → length (zs ++ execute t xs ys) < 2 ^ 28
      → Finished (zs ++ execute t xs ys)
  all_left [] [] ha hb one r few =
      let f : ltb a.index_it m ≡ false = ground arith in
      let e : ltb b.index_it n ≡ false = ground arith in
      subst (λ (l : List ℕ). Finished (zs ++ l)) (sym (execute-nil_nil t))
        (nothing_more (omega (arith, length-append zs (execute t [] []))) (ground arith))
  all_left (x ∷ xs) [] ha hb one r few = first_left x xs ha hb r few
  all_left [] (y ∷ ys) ha hb one r few = second_left y ys ha hb r few
  all_left (x ∷ xs) (y ∷ ys) ha hb one r few = elim one [
    | inl e ↦ absurd (ground arith)
    | inr e ↦ absurd (ground arith)
  ]

generic_runs-finish :
    (t : SetOpTraits) (a b : RunIndex) (sa sb a' b' : RunSide) (c : RunCreator)
    → start_side a ≡ some sa
    → start_side b ≡ some sb
    → merge_runs (a.size + b.size + 1) t a.size b.size sa sb fresh ≡ some (a', b', c)
    → generic_runs t a b ≡ finish t a.size b.size a' b' c
unfolding generic_runs
generic_runs-finish t a b sa sb a' b' c ea eb m = rw (ea, eb, m) refl

-- `a` and `b` are valid run-length indexes of the ids `xs` and `ys`, which are not empty, strictly
-- ascending and below 2 ^ 31, and fewer than 2 ^ 28 together. genericOp does not throw, and the index
-- that it returns is a valid index of the ids, in their order, that the generic merge pushes for `xs` and
-- `ys`; putInto gives them.
pub put_into_runs-generic_runs :
    (t : SetOpTraits) (a b : RunIndex) (x y : ℕ) (xs ys : List ℕ)
    → IsRunIndexOf a (x ∷ xs)
    → IsRunIndexOf b (y ∷ ys)
    → Rises 0 (x ∷ xs)
    → Rises 0 (y ∷ ys)
    → length (x ∷ xs) + length (y ∷ ys) < 2 ^ 28
    → (c : RunCreator) × (i : RunIndex) × (generic_runs t a b ≡ some c)
      × (get_dest_index c ≡ some i)
      × IsRunIndexOf i (execute t (x ∷ xs) (y ∷ ys))
      × (put_into_runs i ≡ some (execute t (x ∷ xs) (y ∷ ys)))
put_into_runs-generic_runs t a b x y xs ys ha hb ra rb few =
    let na = ha.size in
    let nb = hb.size in
    let (sa, ea, la) = start_side-Leads a x xs ha in
    let (sb, eb, lb) = start_side-Leads b y ys hb in
    let fuel = a.size + b.size + 1 in
    let d =
      merge_runs-Merged fuel t a.size b.size sa sb 0 0 (x ∷ xs) (y ∷ ys) (omega arith) (omega arith)
        la lb ra rb (omega arith) in
    let all = execute t (x ∷ xs) (y ∷ ys) in
    let rest = execute t d.left.0 d.left.1 in
    let (rise, short) = execute-Fits t (x ∷ xs) (y ∷ ys) 0 ra rb in
    let rise' : Rises 0 (d.pushed ++ rest) = subst (λ (l : List ℕ). Rises 0 l) d.total rise in
    let short' : length (d.pushed ++ rest) < 2 ^ 28 =
      omega (arith, ap (λ (l : List ℕ). length l) d.total) in
    let g = given d.pushed rest rise' (omega (arith, length-append d.pushed rest)) in
    let (c, i, f, o, w) =
      all_left t a.size b.size (omega arith) (omega arith) d.after.0 d.after.1 d.pushed g d.left.0
        d.left.1 d.first d.second d.one_empty rise' short' in
    let w' : IsRunIndexOf i all = subst (λ (l : List ℕ). IsRunIndexOf i l) (sym d.total) w in
    let merged : merge_runs fuel t a.size b.size sa sb fresh
        ≡ some (d.after.0, d.after.1, g.creator) =
      d.result fresh ∙ rw g.result refl in
    let begun = generic_runs-finish t a b sa sb d.after.0 d.after.1 g.creator ea eb merged in
    (c, i, begun ∙ f, o, w', put_into_runs-IsRunIndexOf i all w')
