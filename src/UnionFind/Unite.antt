-- ===== src/UnionFind/Unite.antt =====
-- unite joins the classes of its two elements and no others.
use sserialize.Base.{ℕ, ◌+◌, ◌^◌, ◌<◌, ◌≡◌, ◌≢◌, ◌⊎◌, refl, sym, ap, ◌∙◌, arith, inl, inr}
use sserialize.Base.{
  ◌==◌, ltb, ◌||◌, if◌then◌else◌, Bool-cases, List, length, get_elem?, none, some,
}
use sserialize.UnionFind.{Entry, link, unite}
use sserialize.UnionFind.Root.{Root, IsForest, entry-eq, Root-entry, Root-Root, Root-unique}
use sserialize.UnionFind.Find.{Keeps, Keeps-trans, find-Root}
use sserialize.UnionFind.Link.{
  Joins, below, set_parent-below, below-Joins, raised, raise_rank-raised, raise_rank-none,
  raised-Joins,
}

module _ {A : Type 0} where
  -- A forest with the same elements, where `pa` and `pb` have one representative, which is one
  -- of them, and all others are kept.
  pub record Unites (d d' : List (Entry A)) (pa pb top : ℕ) : Type 0 where
    pub one_of : (top ≡ pa) ⊎ (top ≡ pb)
    pub same_length : length d' ≡ length d
    pub forest : IsForest d'
    pub roots : (i x : ℕ) → Root d i x → Root d' i (if (x == pa) || (x == pb) then top else x)

  -- The rank of the representative cannot grow.
  abbrev pub IsFull : List (Entry A) → ℕ → Type 0
  IsFull d p = (e : Entry A) × (get_elem? d p ≡ some e) × (e.rank + 1 ≡ 2 ^ 28)

  Joins-Unites :
      (d d' : List (Entry A)) (l w pa pb : ℕ)
      → ((l ≡ pa) × (w ≡ pb)) ⊎ ((l ≡ pb) × (w ≡ pa))
      → Joins d d' l w
      → Unites d d' pa pb w
  Joins-Unites d d' l w pa pb (inl (p, q)) j = record {
    one_of = inr q;
    same_length = j.same_length;
    forest = j.forest;
    roots = λ i x r.
        let e : (if x == l then w else x) ≡ (if (x == pa) || (x == pb) then w else x) =
          ground arith in
        let t : Root d' i (if (x == pa) || (x == pb) then w else x) = rw e at (j.roots i x r) in t;
  }
  Joins-Unites d d' l w pa pb (inr (p, q)) j = record {
    one_of = inl q;
    same_length = j.same_length;
    forest = j.forest;
    roots = λ i x r.
        let e : (if x == l then w else x) ≡ (if (x == pa) || (x == pb) then w else x) =
          ground arith in
        let t : Root d' i (if (x == pa) || (x == pb) then w else x) = rw e at (j.roots i x r) in t;
  }

  module _ (d : List (Entry A)) (forest : IsForest d) (pa pb : ℕ) (n : pa ≢ pb) (ra : Root d pa pa)
      (rb : Root d pb pb) where
    link-Unites :
        ((link d pa pb ≡ none) × IsFull d pb)
        ⊎ ((d' : List (Entry A)) × (top : ℕ) × (link d pa pb ≡ some d') × Unites d d' pa pb top)
    unfolding link
    link-Unites =
        let (ea, ha, oa) = Root-entry d ra in
        let (eb, hb, ob) = Root-entry d rb in
        let m : pb ≢ pa = (λ t. n (sym t)) in
        elim (Bool-cases (ltb ea.rank eb.rank)) [
          | inl lt ↦
              let s = set_parent-below d forest pa pb n ea eb ha hb oa ob in
              let j = below-Joins d forest pa pb n ea eb ha hb oa ob (ground arith) in
              inr (
                below d forest pa pb n ea eb ha hb oa ob,
                pb,
                rw (ha, hb, lt) s,
                Joins-Unites d _ pa pb pa pb (inl (refl, refl)) j,
              )
          | inr ge ↦ elim (Bool-cases (ltb eb.rank ea.rank)) [
            | inl gt ↦
                let s = set_parent-below d forest pb pa m eb ea hb ha ob oa in
                let j = below-Joins d forest pb pa m eb ea hb ha ob oa (ground arith) in
                inr (
                  below d forest pb pa m eb ea hb ha ob oa,
                  pa,
                  rw (ha, hb, ge, gt) s,
                  Joins-Unites d _ pb pa pa pb (inr (refl, refl)) j,
                )
            | inr le ↦
                let s = set_parent-below d forest pa pb n ea eb ha hb oa ob in
                elim (Bool-cases (eb.rank + 1 == 2 ^ 28)) [
                  | inl full ↦
                      let q : eb.rank + 1 ≡ 2 ^ 28 = ground arith in
                      let z = raise_rank-none d forest pa pb n ea eb ha hb oa ob q in
                      inl (rw (ha, hb, ge, le, s, z) refl, (eb, hb, q))
                  | inr room ↦
                      let (u, ku, fits, grows) = forest pb eb hb in
                      let lt : eb.rank + 1 < 2 ^ 28 = ground arith in
                      let z = raise_rank-raised d forest pa pb n ea eb ha hb oa ob lt in
                      let j = raised-Joins d forest pa pb n ea eb ha hb oa ob (ground arith) lt in
                      inr (
                        raised d forest pa pb n ea eb ha hb oa ob,
                        pb,
                        rw (ha, hb, ge, le, s, z) refl,
                        Joins-Unites d _ pa pb pa pb (inl (refl, refl)) j,
                      )
                ]
          ]
        ]

  Keeps-Unites :
      (d d' d'' : List (Entry A)) (pa pb top : ℕ)
      → Keeps d d'
      → Unites d' d'' pa pb top
      → Unites d d'' pa pb top
  Keeps-Unites d d' d'' pa pb top k u = record {
    one_of = u.one_of;
    same_length = u.same_length ∙ k.same_length;
    forest = u.forest;
    roots = λ i x r. u.roots i x (k.roots i x r);
  }

  same-Unites : (d d' : List (Entry A)) (p q : ℕ) → p ≡ q → Keeps d d' → Unites d d' p q p
  same-Unites d d' p q e k = record {
    one_of = inl refl;
    same_length = k.same_length;
    forest = k.forest;
    roots = λ i x r.
        let z : (if (x == p) || (x == q) then p else x) ≡ x = ground arith in
        let t : Root d' i (if (x == p) || (x == q) then p else x) = rw z (k.roots i x r) in t;
  }

  -- Every element has a representative already before find.
  Root-before :
      (d d1 : List (Entry A)) (b pb : ℕ)
      → IsForest d
      → b < length d
      → Keeps d d1
      → Root d1 b pb
      → Root d b pb × ((e : Entry A) × (get_elem? d pb ≡ some e))
  Root-before d d1 b pb w lb k r =
      let (q, d', f, k', r') = find-Root d b w lb in
      let e : q ≡ pb = Root-unique d1 (k.roots b q r') r in
      let t : Root d b pb = rw e at r' in let (g, h, o) = Root-entry d t in (t, (g, h))

  -- For two elements of a forest, unite either throws, where the second one's representative has
  -- the greatest rank, or leaves a forest with the same elements in which the two
  -- representatives have one of them as their representative and every other element's
  -- representative is as before.
  pub unite-Unites :
      (d : List (Entry A)) (a b : ℕ)
      → IsForest d
      → a < length d
      → b < length d
      → (pa : ℕ) × (pb : ℕ) × Root d a pa
        × Root d b pb
        × (((unite d a b ≡ none) × IsFull d pb)
            ⊎ ((d' : List (Entry A)) × (top : ℕ) × (unite d a b ≡ some d') × Unites d d' pa pb top))
  unfolding unite
  unite-Unites d a b w la lb =
      let (pa, d1, fa, k1, ra) = find-Root d a w la in
      let lb1 : b < length d1 = rw k1.same_length lb in
      let (pb, d2, fb, k2, rb1) = find-Root d1 b k1.forest lb1 in
      let k : Keeps d d2 = Keeps-trans d d1 d2 k1 k2 in
      let (rb, hb) = Root-before d d1 b pb w lb k1 rb1 in
      (
        pa,
        pb,
        ra,
        rb,
        elim (Bool-cases (pa == pb)) [
          | inl same ↦
              let q : pa ≡ pb = ground arith in
              inr (d2, pa, rw (fa, fb, same) refl, same-Unites d d2 pa pb q k)
          | inr other ↦
              let n : pa ≢ pb = (λ t. ground arith) in
              let ra2 : Root d2 pa pa = Root-Root d2 (k.roots a pa ra) in
              let rb2 : Root d2 pb pb = Root-Root d2 (k.roots b pb rb) in
              elim (link-Unites d2 k.forest pa pb n ra2 rb2) [
                | inl (z, (e, he, full)) ↦
                    let (e', he', r', v') = k.entries pb hb.0 hb.1 in
                    let o = ap (λ (t : Entry A). t.rank) (entry-eq d2 pb e e' he he') in
                    inl (rw (fa, fb, other) z, (hb.0, hb.1, omega arith))
                | inr (d3, top, z, u) ↦
                    inr (d3, top, rw (fa, fb, other) z, Keeps-Unites d d2 d3 pa pb top k u)
              ]
        ],
      )
