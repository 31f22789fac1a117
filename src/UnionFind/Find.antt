-- ===== src/UnionFind/Find.antt =====
-- find returns the representative, and its path compression keeps every representative.
use sserialize.Base.{
  ℕ, zero, suc, true, false, ◌+◌, ◌^◌, ◌<◌, ◌≤◌, ◌≡◌, ◌≢◌, refl, sym, ap, ◌∙◌, arith, inl, inr,
}
use sserialize.Base.{
  ◌==◌, lt→ltb, if◌then◌else◌, Bool-cases, List, length, get_elem?, set, some, ◌>>=◌,
}
use sserialize.Base.{get_elem?-set_self, get_elem?-set_ne, length-set}
use sserialize.UnionFind.{Entry, set_parent, find_and_compress, find}
use sserialize.UnionFind.Root.{
  Root, here, up, IsForest, get_elem?-lt, get_elem?-some, entry-eq, parent-eq, Root-entry,
  Root-parent, Root-unique, Root-rank,
}

pub get_elem?-set :
    {A : Type 0} (d : List A) (i j : ℕ) (x : A)
    → i < length d
    → get_elem? (set d i x) j ≡ (if i == j then some x else get_elem? d j)
get_elem?-set d i j x h = elim (Bool-cases (i == j)) [
  | inl e ↦ let q : j ≡ i = ground arith in rw (e, q) (get_elem?-set_self d i x h)
  | inr n ↦ let q : i ≢ j = (λ e. ground arith) in rw (n, get_elem?-set_ne d x q) refl
]

module _ {A : Type 0} where
  -- A forest with the same elements and the same representatives.
  pub record Keeps (d d' : List (Entry A)) : Type 0 where
    pub same_length : length d' ≡ length d
    pub forest : IsForest d'
    pub roots : (i x : ℕ) → Root d i x → Root d' i x
    pub entries :
        (i : ℕ) (e : Entry A)
        → get_elem? d i ≡ some e
        → (e' : Entry A) × (get_elem? d' i ≡ some e') × (e'.rank ≡ e.rank) × (e'.value ≡ e.value)

  module _ (d : List (Entry A)) (w : IsForest d) (a r : ℕ) (e : Entry A)
      (h : get_elem? d a ≡ some e) (root : Root d a r) (n : e.parent ≢ a) where
    abbrev compressed : List (Entry A)
    compressed = set d a (record e { parent = r })

    at_a : get_elem? compressed a ≡ some (record e { parent = r })
    at_a = get_elem?-set_self d a (record e { parent = r }) (get_elem?-lt d a e h)

    r-ne : r ≢ a
    r-ne q = let root' : Root d a a = rw q at root in n (Root-parent d root' e h)

    not_a : (i : ℕ) → a ≢ i → get_elem? compressed i ≡ get_elem? d i
    not_a i q = get_elem?-set_ne d (record e { parent = r }) q

    compressed-here : Root compressed r r
    compressed-here =
        let (f, k, p) = Root-entry d root in here f (not_a r (λ q. r-ne (sym q)) ∙ k) p

    compressed-Root : {i x : ℕ} → Root d i x → Root compressed i x
    compressed-Root {i = i} (here f k p) = elim (Bool-cases (a == i)) [
      | inl q ↦
          let q' : i ≡ a = ground arith in
          let k' : get_elem? d a ≡ some f = rw q' at k in
          absurd (n (parent-eq d a a e f h k' (p ∙ q')))
      | inr q ↦ here f (not_a i (λ e. ground arith) ∙ k) p
    ]
    compressed-Root {i = i} {x = x} (up f k m p) = elim (Bool-cases (a == i)) [
      | inl q ↦
          let q' : i ≡ a = ground arith in
          let root' : Root d a x = rw q' at (up f k m p) in
          let o : x ≡ r = Root-unique d root' root in
          rw (q', o) (up (record e { parent = r }) at_a r-ne compressed-here)
      | inr q ↦ up f (not_a i (λ e. ground arith) ∙ k) m (compressed-Root p)
    ]

    compressed-IsForest : IsForest compressed
    compressed-IsForest i f k = elim (Bool-cases (a == i)) [
      | inl q ↦
          let q' : i ≡ a = ground arith in
          let k' : get_elem? compressed a ≡ some f = rw q' at k in
          let o : f ≡ record e { parent = r } =
            entry-eq compressed a f (record e { parent = r }) k' at_a in
          let (g, kg, pg) = Root-entry d root in
          let (u, ku, fits, grows) = w a e h in
          let lt : e.rank < g.rank = (Root-rank d w root e g h kg).1 n in
          rw (o, q') (g, not_a r (λ t. r-ne (sym t)) ∙ kg, fits, λ m. lt)
      | inr q ↦
          let k' : get_elem? d i ≡ some f = sym (not_a i (λ t. ground arith)) ∙ k in
          let (u, ku, fits, grows) = w i f k' in
          elim (Bool-cases (a == f.parent)) [
            | inl b ↦
                let b' : f.parent ≡ a = ground arith in
                let ku' : get_elem? d a ≡ some u = rw b' at ku in
                let o : u.rank ≡ e.rank = ap (λ (t : Entry A). t.rank) (entry-eq d a u e ku' h) in
                (record e { parent = r }, rw b' at_a, fits, λ m. (let l = grows m in omega arith))
            | inr b ↦ (u, not_a f.parent (λ t. ground arith) ∙ ku, fits, grows)
          ]
    ]

    compressed-entries :
        (i : ℕ) (f : Entry A)
        → get_elem? d i ≡ some f
        → (e' : Entry A) × (get_elem? compressed i ≡ some e')
          × (e'.rank ≡ f.rank)
          × (e'.value ≡ f.value)
    compressed-entries i f k = elim (Bool-cases (a == i)) [
      | inl q ↦
          let q' : i ≡ a = ground arith in
          let k' : get_elem? d a ≡ some f = rw q' at k in
          let o : e ≡ f = entry-eq d a e f h k' in
          (
            record e { parent = r },
            rw q' at_a,
            ap (λ (t : Entry A). t.rank) o,
            ap (λ (t : Entry A). t.value) o,
          )
      | inr q ↦ (f, not_a i (λ t. ground arith) ∙ k, refl, refl)
    ]

    pub compressed-Keeps : (set_parent d a r ≡ some compressed) × Keeps d compressed
    unfolding set_parent
    compressed-Keeps = (
      rw h refl,
      record {
        same_length = length-set d a (record e { parent = r });
        forest = compressed-IsForest;
        roots = λ i x k. compressed-Root k;
        entries = compressed-entries;
      },
    )

  pub Keeps-trans : (d d' d'' : List (Entry A)) → Keeps d d' → Keeps d' d'' → Keeps d d''
  Keeps-trans d d' d'' k l = record {
    same_length = l.same_length ∙ k.same_length;
    forest = l.forest;
    roots = λ i x p. l.roots i x (k.roots i x p);
    entries = λ i e h.
        let (e', h', r', v') = k.entries i e h in
        let (e'', h'', r'', v'') = l.entries i e' h' in (e'', h'', r'' ∙ r', v'' ∙ v');
  }

  find-own :
      (n : ℕ) (d : List (Entry A)) (a : ℕ) (e : Entry A)
      → get_elem? d a ≡ some e
      → (e.parent == a) ≡ true
      → find_and_compress (suc n) d a ≡ some (e.parent, d)
  unfolding find_and_compress
  find-own n d a e h q = rw h (ground arith)

  find-above :
      (n : ℕ) (d : List (Entry A)) (a : ℕ) (e : Entry A)
      → get_elem? d a ≡ some e
      → (e.parent == a) ≡ false
      → find_and_compress (suc n) d a
        ≡ (find_and_compress n d e.parent >>= (λ r. set_parent r.1 a r.0 >>= λ d'. some (r.0, d')))
  unfolding find_and_compress
  find-above n d a e h q = rw h (ground arith)

  Root-self :
      (d : List (Entry A)) (a r : ℕ) (e : Entry A)
      → get_elem? d a ≡ some e
      → Root d a r
      → r ≡ a
      → e.parent ≡ a
  Root-self d a r e h root q = let root' : Root d a a = rw q at root in Root-parent d root' e h

  find_and_compress-Root :
      (n : ℕ) (d : List (Entry A)) (a : ℕ) (e : Entry A)
      → IsForest d
      → get_elem? d a ≡ some e
      → 2 ^ 28 ≤ e.rank + n
      → (r : ℕ) × (d' : List (Entry A)) × (find_and_compress n d a ≡ some (r, d'))
        × Keeps d d'
        × Root d a r
  find_and_compress-Root zero d a e w h enough =
      let (u, ku, fits, grows) = w a e h in absurd (omega arith)
  find_and_compress-Root (suc n) d a e w h enough = elim (Bool-cases (e.parent == a)) [
    | inl q ↦
        let q' : e.parent ≡ a = ground arith in
        (
          e.parent,
          d,
          find-own n d a e h q,
          record {
            same_length = refl;
            forest = w;
            roots = λ i x p. p;
            entries = λ i f k. (f, k, refl, refl);
          },
          rw q' (here e h q'),
        )
    | inr q ↦
        let m : e.parent ≢ a = (λ t. ground arith) in
        let (u, ku, fits, grows) = w a e h in
        let l : e.rank < u.rank = grows m in
        let (r, d1, p, keeps, root) = find_and_compress-Root n d e.parent u w ku (omega arith) in
        let root_a : Root d a r = up e h m root in
        let lt : a < length d1 = rw keeps.same_length (get_elem?-lt d a e h) in
        let (e1, h1) = get_elem?-some d1 a lt in
        let root1 : Root d1 a r = keeps.roots a r root_a in
        let m1 : e1.parent ≢ a =
          (λ t. m (Root-self d a r e h root_a (Root-unique d1 root1 (here e1 h1 t)))) in
        let (s, keeps1) = compressed-Keeps d1 keeps.forest a r e1 h1 root1 m1 in
        (
          r,
          set d1 a (record e1 { parent = r }),
          rw (find-above n d a e h q, p, s) refl,
          Keeps-trans d d1 _ keeps keeps1,
          root_a,
        )
  ]

  -- In a forest, for an element, find succeeds (the recursion is shallow enough), returns its
  -- representative, and leaves a forest with the same elements and the same representatives.
  pub find-Root :
      (d : List (Entry A)) (a : ℕ)
      → IsForest d
      → a < length d
      → (r : ℕ) × (d' : List (Entry A)) × (find d a ≡ some (r, d')) × Keeps d d' × Root d a r
  find-Root d a w lt =
      let (e, h) = get_elem?-some d a lt in
      let (r, d', p, k, root) = find_and_compress-Root (2 ^ 28) d a e w h (omega arith) in
      (r, d', (unfold find in rw (lt→ltb a (length d) lt) p), k, root)
