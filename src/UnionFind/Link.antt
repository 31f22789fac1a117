-- ===== src/UnionFind/Link.antt =====
-- The assignments of unite put one representative below another.
use sserialize.Base.{
  ℕ, false, ◌+◌, ◌%◌, ◌^◌, ◌<◌, ◌≤◌, ◌≡◌, ◌≢◌, refl, sym, ap, ◌∙◌, arith, inl, inr,
}
use sserialize.Base.{◌==◌, if◌then◌else◌, Bool-cases, List, length, get_elem?, set, none, some}
use sserialize.Base.{get_elem?-set_self, get_elem?-set_ne, length-set}
use sserialize.UnionFind.{Entry, set_parent, raise_rank}
use sserialize.UnionFind.Root.{Root, here, up, IsForest, get_elem?-lt, entry-eq, parent-eq}

module _ {A : Type 0} where
  -- A forest with the same elements, where the class of `l` is joined to that of `w`.
  pub record Joins (d d' : List (Entry A)) (l w : ℕ) : Type 0 where
    pub same_length : length d' ≡ length d
    pub forest : IsForest d'
    pub roots : (i x : ℕ) → Root d i x → Root d' i (if x == l then w else x)

  -- `d'` is `d` with `l` below `w`, whose rank may have grown.
  record IsLinked (d d' : List (Entry A)) (l w : ℕ) (el ew fw : Entry A) : Type 0 where
    same_length : length d' ≡ length d
    differ : l ≢ w
    old_l : get_elem? d l ≡ some el
    old_w : get_elem? d w ≡ some ew
    own_l : el.parent ≡ l
    own_w : ew.parent ≡ w
    new_l : get_elem? d' l ≡ some (record el { parent = w })
    new_w : get_elem? d' w ≡ some fw
    still_w : fw.parent ≡ w
    fits : fw.rank < 2 ^ 28
    higher : el.rank < fw.rank
    grown : ew.rank ≤ fw.rank
    others : (i : ℕ) → l ≢ i → w ≢ i → get_elem? d' i ≡ get_elem? d i

  module _ (d d' : List (Entry A)) (l w : ℕ) (el ew fw : Entry A) (forest : IsForest d)
      (k : IsLinked d d' l w el ew fw) where
    linked-w : Root d' w w
    linked-w = here fw k.new_w k.still_w

    linked-Root : {i x : ℕ} → Root d i x → Root d' i (if x == l then w else x)
    linked-Root {i = i} (here f h p) = elim (Bool-cases (i == l)) [
      | inl q ↦
          let q' : i ≡ l = ground arith in
          rw (q, q') (up (record el { parent = w }) k.new_l (λ t. k.differ (sym t)) linked-w)
      | inr q ↦ elim (Bool-cases (w == i)) [
        | inl u ↦ let u' : i ≡ w = ground arith in rw q (rw u' linked-w)
        | inr u ↦ rw q (here f (k.others i (λ t. ground arith) (λ t. ground arith) ∙ h) p)
      ]
    ]
    linked-Root {i = i} (up f h n p) =
        let not_l : l ≢ i = (λ t. n (own i l el f k.old_l k.own_l t h)) in
        let not_w : w ≢ i = (λ t. n (own i w ew f k.old_w k.own_w t h)) in
        up f (k.others i not_l not_w ∙ h) n (linked-Root p)
      where
        own :
            (i o : ℕ) (e f : Entry A)
            → get_elem? d o ≡ some e
            → e.parent ≡ o
            → o ≡ i
            → get_elem? d i ≡ some f
            → f.parent ≡ i
        own i o e f g p t h =
            let g' : get_elem? d i ≡ some e = rw t at g in parent-eq d i i f e h g' (p ∙ t)

    linked-entry :
        (j : ℕ) (u : Entry A)
        → get_elem? d j ≡ some u
        → (u' : Entry A) × (get_elem? d' j ≡ some u') × (u.rank ≤ u'.rank)
    linked-entry j u h = elim (Bool-cases (l == j)) [
      | inl q ↦
          let q' : j ≡ l = ground arith in
          let h' : get_elem? d l ≡ some u = rw q' at h in
          let o = ap (λ (t : Entry A). t.rank) (entry-eq d l u el h' k.old_l) in
          (record el { parent = w }, rw q' k.new_l, omega arith)
      | inr q ↦ elim (Bool-cases (w == j)) [
        | inl v ↦
            let v' : j ≡ w = ground arith in
            let h' : get_elem? d w ≡ some u = rw v' at h in
            let o = ap (λ (t : Entry A). t.rank) (entry-eq d w u ew h' k.old_w) in
            let g = k.grown in (fw, rw v' k.new_w, omega arith)
        | inr v ↦ (u, k.others j (λ t. ground arith) (λ t. ground arith) ∙ h, omega arith)
      ]
    ]

    linked-IsForest : IsForest d'
    linked-IsForest i f h = elim (Bool-cases (l == i)) [
      | inl q ↦
          let q' : i ≡ l = ground arith in
          let h' : get_elem? d' l ≡ some f = rw q' at h in
          let o : f ≡ record el { parent = w } =
            entry-eq d' l f (record el { parent = w }) h' k.new_l in
          let g = k.higher in let s = k.fits in rw (o, q') (fw, k.new_w, omega arith, λ m. g)
      | inr q ↦ elim (Bool-cases (w == i)) [
        | inl v ↦
            let v' : i ≡ w = ground arith in
            let h' : get_elem? d' w ≡ some f = rw v' at h in
            let o : f ≡ fw = entry-eq d' w f fw h' k.new_w in
            let z : get_elem? d' fw.parent ≡ some fw =
              ap (λ (t : ℕ). get_elem? d' t) k.still_w ∙ k.new_w in
            rw (o, v') (fw, z, k.fits, λ m. absurd (m k.still_w))
        | inr v ↦
            let h' : get_elem? d i ≡ some f =
              sym (k.others i (λ t. ground arith) (λ t. ground arith)) ∙ h in
            let (u, ku, fit, grows) = forest i f h' in
            let (u', ku', le) = linked-entry f.parent u ku in
            (u', ku', fit, λ m. (let lt = grows m in omega arith))
      ]
    ]

    linked-Joins : Joins d d' l w
    linked-Joins = record {
      same_length = k.same_length;
      forest = linked-IsForest;
      roots = λ i x r. linked-Root r;
    }

  module _ (d : List (Entry A)) (forest : IsForest d) (l w : ℕ) (n : l ≢ w) (el ew : Entry A)
      (hl : get_elem? d l ≡ some el) (hw : get_elem? d w ≡ some ew) (pl : el.parent ≡ l)
      (pw : ew.parent ≡ w) where
    abbrev pub below : List (Entry A)
    below = set d l (record el { parent = w })

    pub set_parent-below : set_parent d l w ≡ some below
    unfolding set_parent
    set_parent-below = rw hl refl

    below-w : get_elem? below w ≡ some ew
    below-w = get_elem?-set_ne d (record el { parent = w }) n ∙ hw

    pub below-Joins : el.rank < ew.rank → Joins d below l w
    below-Joins lt =
        let (u, ku, fits, grows) = forest w ew hw in
        linked-Joins d below l w el ew ew forest record {
          same_length = length-set d l (record el { parent = w });
          differ = n;
          old_l = hl;
          old_w = hw;
          own_l = pl;
          own_w = pw;
          new_l = get_elem?-set_self d l (record el { parent = w }) (get_elem?-lt d l el hl);
          new_w = below-w;
          still_w = pw;
          fits = fits;
          higher = lt;
          grown = omega arith;
          others = λ i p q. get_elem?-set_ne d (record el { parent = w }) p;
        }

    abbrev pub raised : List (Entry A)
    raised = set below w (record ew { rank = ew.rank + 1 })

    pub raise_rank-raised : ew.rank + 1 < 2 ^ 28 → raise_rank below w ≡ some raised
    unfolding raise_rank
    raise_rank-raised lt =
        let e : (ew.rank + 1) % 2 ^ 28 ≡ ew.rank + 1 = omega arith in
        let z : (ew.rank + 1 == 0) ≡ false = ground arith in rw (below-w, e, z) refl

    pub raise_rank-none : ew.rank + 1 ≡ 2 ^ 28 → raise_rank below w ≡ none
    unfolding raise_rank
    raise_rank-none q = rw (below-w, q) refl

    pub raised-Joins : el.rank ≡ ew.rank → ew.rank + 1 < 2 ^ 28 → Joins d raised l w
    raised-Joins same lt =
        let fw : Entry A = record ew { rank = ew.rank + 1 } in
        linked-Joins d raised l w el ew fw forest record {
          same_length = length-set below w fw ∙ length-set d l (record el { parent = w });
          differ = n;
          old_l = hl;
          old_w = hw;
          own_l = pl;
          own_w = pw;
          new_l =
              get_elem?-set_ne below fw (λ t. n (sym t))
              ∙ get_elem?-set_self d l (record el { parent = w }) (get_elem?-lt d l el hl);
          new_w = get_elem?-set_self below w fw (get_elem?-lt below w ew below-w);
          still_w = pw;
          fits = lt;
          higher = omega arith;
          grown = omega arith;
          others = λ i p q.
              get_elem?-set_ne below fw q ∙ get_elem?-set_ne d (record el { parent = w }) p;
        }
