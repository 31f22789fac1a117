-- ===== src/UnionFind/Root.antt =====
-- The representative of an element, and the invariant of the ranks.
use sserialize.Base.{ℕ, zero, suc, ◌^◌, ◌<◌, ◌≤◌, ◌≡◌, ◌≢◌, refl, ap, ◌∙◌, arith}
use sserialize.Base.{List, [], ◌∷◌, length, get_elem?, some}
use sserialize.UnionFind.{Entry}

module _ {A : Type 0} where
  -- The entry at `i` stands under the parent.
  pub data Root (d : List (Entry A)) : ℕ → ℕ → Type 0 where
    here : {i : ℕ} (e : Entry A) → get_elem? d i ≡ some e → e.parent ≡ i → Root d i i
    up :
        {i r : ℕ} (e : Entry A)
        → get_elem? d i ≡ some e
        → e.parent ≢ i
        → Root d e.parent r
        → Root d i r

  -- Parents are elements, ranks fit their field, and they grow on the way up.
  abbrev pub IsForest : List (Entry A) → Type 0
  IsForest d =
      (i : ℕ) (e : Entry A)
      → get_elem? d i ≡ some e
      → (f : Entry A) × (get_elem? d e.parent ≡ some f)
        × (e.rank < 2 ^ 28)
        × (e.parent ≢ i → e.rank < f.rank)

  pub get_elem?-lt :
      (d : List (Entry A)) (i : ℕ) (e : Entry A) → get_elem? d i ≡ some e → i < length d
  get_elem?-lt [] i e h = cc
  get_elem?-lt (x ∷ d) zero e h = omega arith
  get_elem?-lt (x ∷ d) (suc i) e h = omega (arith, get_elem?-lt d i e h)

  pub get_elem?-some :
      (d : List (Entry A)) (i : ℕ) → i < length d → (e : Entry A) × (get_elem? d i ≡ some e)
  get_elem?-some [] i h = absurd (omega arith)
  get_elem?-some (x ∷ d) zero h = (x, refl)
  get_elem?-some (x ∷ d) (suc i) h = get_elem?-some d i (omega arith)

  module _ (d : List (Entry A)) where
    pub entry-eq : (i : ℕ) (e f : Entry A) → get_elem? d i ≡ some e → get_elem? d i ≡ some f → e ≡ f
    entry-eq i e f h k = cc

    pub parent-eq :
        (i p : ℕ) (e f : Entry A)
        → get_elem? d i ≡ some e
        → get_elem? d i ≡ some f
        → f.parent ≡ p
        → e.parent ≡ p
    parent-eq i p e f h k q = ap (λ (t : Entry A). t.parent) (entry-eq i e f h k) ∙ q

    -- A representative is its own parent.
    pub Root-entry :
        {i r : ℕ} → Root d i r → (f : Entry A) × (get_elem? d r ≡ some f) × (f.parent ≡ r)
    Root-entry (here e h p) = (e, h, p)
    Root-entry (up e h n k) = Root-entry k

    pub Root-parent : {i r : ℕ} → Root d i r → (e : Entry A) → get_elem? d r ≡ some e → e.parent ≡ r
    Root-parent {r = r} h e k = let (f, g, p) = Root-entry h in parent-eq r r e f k g p

    pub Root-Root : {i r : ℕ} → Root d i r → Root d r r
    Root-Root (here e h p) = here e h p
    Root-Root (up e h n k) = Root-Root k

    pub Root-unique : {i r s : ℕ} → Root d i r → Root d i s → r ≡ s
    Root-unique (here e h p) (here f k q) = refl
    Root-unique {i = i} (here e h p) (up f k n q) = absurd (n (parent-eq i i f e k h p))
    Root-unique {i = i} (up e h n p) (here f k q) = absurd (n (parent-eq i i e f h k q))
    Root-unique {i = i} {s = s} (up e h n p) (up f k m q) =
        let w : f ≡ e = entry-eq i f e k h in
        let q' : Root d e.parent s = rw w at q in Root-unique p q'

    -- Below a representative the ranks are smaller.
    pub Root-rank :
        {i r : ℕ}
        → IsForest d
        → Root d i r
        → (e f : Entry A) → get_elem? d i ≡ some e
        → get_elem? d r ≡ some f
        → (e.rank ≤ f.rank) × (e.parent ≢ i → e.rank < f.rank)
    Root-rank {i = i} w (here e' h p) e f k g = (
      let q = ap (λ (t : Entry A). t.rank) (entry-eq i e f k g) in omega arith,
      λ n. absurd (n (parent-eq i i e e' k h p)),
    )
    Root-rank {i = i} w (up e' h n p) e f k g =
        let q = ap (λ (t : Entry A). t.rank) (entry-eq i e e' k h) in
        let (u, ku, fits, grows) = w i e' h in
        let (le, lt) = Root-rank w p u f ku g in
        let l : e'.rank < u.rank = grows n in (omega arith, λ m. omega arith)
