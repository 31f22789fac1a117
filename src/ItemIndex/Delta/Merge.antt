-- ===== src/ItemIndex/Delta/Merge.antt =====
-- One round of the loop of genericOp, and what the loop leaves.
use sserialize.Base.{
  ℕ, suc, true, false, ◌+◌, ◌^◌, ◌<◌, ◌≤◌, ◌≡◌, ◌⊎◌, refl, sym, ap, ◌∙◌, arith, List, [], ◌∷◌, ◌++◌,
  append_assoc,
}
use sserialize.Base.{Bool, ltb, ◌==◌, ◌&&◌, length, length-append, some, ◌>>=◌}
use sserialize.ItemIndex.SetOp.{SetOpTraits, push_if, execute}
use sserialize.ItemIndex.Delta.{DeltaCreator, Side, step_side, push_when, merge_loop}
use sserialize.ItemIndex.Delta.Encode.{pushed}
use sserialize.ItemIndex.Delta.Push.{pushed-pushed, pushed-nil, IsAt, Ids}

module _ (fuel : ℕ) (t : SetOpTraits) (m n : ℕ) (a b : Side) (c : DeltaCreator) where
  loop-stop :
      (ltb a.index_it m && ltb b.index_it n) ≡ false
      → merge_loop (suc fuel) t m n a b c ≡ some (a, b, c)
  unfolding merge_loop
  loop-stop h = rw h refl

  module _ (go : (ltb a.index_it m && ltb b.index_it n) ≡ true) where
    pub loop-equal :
        (a.item_id == b.item_id) ≡ true
        → merge_loop (suc fuel) t m n a b c ≡ (
            push_when t.push_equal c a.item_id >>= λ c'.
            step_side m a >>= λ a'. step_side n b >>= λ b'. merge_loop fuel t m n a' b' c')
    unfolding merge_loop
    loop-equal e = ground arith

    pub loop-less :
        (a.item_id == b.item_id) ≡ false
        → ltb a.item_id b.item_id ≡ true
        → merge_loop (suc fuel) t m n a b c ≡ (
            push_when t.push_first_smaller c a.item_id >>= λ c'.
            step_side m a >>= λ a'. merge_loop fuel t m n a' b c')
    unfolding merge_loop
    loop-less e l = ground arith

    pub loop-greater :
        (a.item_id == b.item_id) ≡ false
        → ltb a.item_id b.item_id ≡ false
        → merge_loop (suc fuel) t m n a b c ≡ (
            push_when t.push_second_smaller c b.item_id >>= λ c'.
            step_side n b >>= λ b'. merge_loop fuel t m n a b' c')
    unfolding merge_loop
    loop-greater e l = ground arith

-- What the loop leaves: pushed ids, and two sides one of which is at its end.
pub record Merged (t : SetOpTraits) (m n : ℕ) (xs ys : List ℕ) (a' b' : Side) (zs xs' ys' : List ℕ)
    : Type 0 where
  pub first : IsAt m a' xs'
  pub second : IsAt n b' ys'
  pub first_ids : Ids xs'
  pub second_ids : Ids ys'
  pub pushed_ids : Ids zs
  pub total : execute t xs ys ≡ zs ++ execute t xs' ys'
  pub one_empty : (xs' ≡ []) ⊎ (ys' ≡ [])
  pub count : length zs + length xs' + length ys' ≤ length xs + length ys

abbrev pub Outcome : ℕ → SetOpTraits → ℕ → ℕ → List ℕ → List ℕ → Side → Side → DeltaCreator → Type 0
Outcome fuel t m n xs ys a b c =
    (a' : Side) × (b' : Side) × (zs : List ℕ) × (xs' : List ℕ) × (ys' : List ℕ) × (merge_loop fuel t
        m n a b c
      ≡ some (a', b', pushed c zs))
    × Merged t m n xs ys a' b' zs xs' ys'

pub length-push_if : (p : Bool) (x : ℕ) → length (push_if p x []) ≤ 1
unfolding push_if
length-push_if true x = omega arith
length-push_if false x = omega arith

push_if-Ids : (p : Bool) (x : ℕ) → x < 2 ^ 32 → Ids (push_if p x [])
unfolding push_if
push_if-Ids true x h = (h, tt)
push_if-Ids false x h = tt

pub Ids-append : (xs ys : List ℕ) → Ids xs → Ids ys → Ids (xs ++ ys)
Ids-append [] ys h k = k
Ids-append (x ∷ xs) ys (hx, h) k = (hx, Ids-append xs ys h k)

push_if-append : (p : Bool) (x : ℕ) (rest : List ℕ) → push_if p x rest ≡ push_if p x [] ++ rest
unfolding push_if
push_if-append true x rest = refl
push_if-append false x rest = refl

pub stopped :
    (fuel : ℕ) (t : SetOpTraits) (m n : ℕ) (xs ys : List ℕ) (a b : Side) (c : DeltaCreator)
    → IsAt m a xs
    → IsAt n b ys
    → Ids xs
    → Ids ys
    → (xs ≡ []) ⊎ (ys ≡ [])
    → (ltb a.index_it m && ltb b.index_it n) ≡ false
    → Outcome (suc fuel) t m n xs ys a b c
stopped fuel t m n xs ys a b c ha hb ix iy one h = (
  a,
  b,
  [],
  xs,
  ys,
  rw (loop-stop fuel t m n a b c h, pushed-nil c) refl,
  record {
    first = ha;
    second = hb;
    first_ids = ix;
    second_ids = iy;
    pushed_ids = tt;
    total = refl;
    one_empty = one;
    count = omega arith;
  },
)

-- A push in front of a later outcome.
pub pushed_before :
    (fuel fuel' : ℕ) (t : SetOpTraits) (m n : ℕ) (xs ys xs1 ys1 : List ℕ) (a b a1 b1 : Side)
    (c : DeltaCreator) (p : Bool) (x : ℕ)
    → x < 2 ^ 32
    → length xs1 + length ys1 + 1 ≤ length xs + length ys
    → merge_loop fuel t m n a b c ≡ merge_loop fuel' t m n a1 b1 (pushed c (push_if p x []))
    → execute t xs ys ≡ push_if p x (execute t xs1 ys1)
    → Outcome fuel' t m n xs1 ys1 a1 b1 (pushed c (push_if p x []))
    → Outcome fuel t m n xs ys a b c
pushed_before fuel fuel' t m n xs ys xs1 ys1 a b a1 b1 c p x hx le e total
      (a', b', zs, xs', ys', r, g) =
    let z = push_if p x [] in
    let q = length-push_if p x in
    let k = g.count in
    (
      a',
      b',
      z ++ zs,
      xs',
      ys',
      e ∙ r ∙ (rw (pushed-pushed c z zs) refl),
      record {
        first = g.first;
        second = g.second;
        first_ids = g.first_ids;
        second_ids = g.second_ids;
        pushed_ids = Ids-append z zs (push_if-Ids p x hx) g.pushed_ids;
        total =
            total
            ∙ push_if-append p x (execute t xs1 ys1)
            ∙ ap (λ (l : List ℕ). z ++ l) g.total
            ∙ sym (append_assoc z zs (execute t xs' ys'));
        one_empty = g.one_empty;
        count = omega (arith, length-append z zs);
      },
    )
