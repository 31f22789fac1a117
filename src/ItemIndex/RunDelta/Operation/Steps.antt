-- ===== src/ItemIndex/RunDelta/Operation/Steps.antt =====
-- A round of genericOp pushes what the generic merge pushes of the ids that it passes.
use sserialize.Base.{
  ℕ, true, false, ◌+◌, ◌^◌, ◌<◌, ◌≡◌, refl, ap, ap₂, ◌∙◌, arith, ltb, Bool-cases, inl, inr, subst,
}
use sserialize.Base.{All, List, ◌∷◌, ◌++◌, length, length-append, Option, none, some, ◌>>=◌}
use sserialize.ItemIndex.SetOp.{SetOpTraits, execute}
use sserialize.ItemIndex.RunDelta.{RunCreator, push_each}
use sserialize.ItemIndex.RunDelta.Operation.{RunSide, smaller_round, equal_round, merge_round}
use sserialize.ItemIndex.RunDelta.Operation.Sides.{Leads, IsSide}
use sserialize.ItemIndex.RunDelta.Operation.Kept.{
  Rises, Rises-append, kept, execute-below, execute-above, execute-shared,
}
use sserialize.ItemIndex.RunDelta.Operation.Rounds.{
  smaller_round-PassedBelow, equal_round-PassedTogether,
}

bind-some {ℓ} :
    {A B C : Type ℓ} (o : Option A) (f : A → B) (g : B → Option C)
    → ((o >>= λ a. some (f a)) >>= g) ≡ (o >>= λ a. g (f a))
bind-some none f g = refl
bind-some (some a) f g = refl

module _ (t : SetOpTraits) (a b : RunSide) (c : RunCreator) where
  round_less :
      ltb a.id b.id ≡ true
      → merge_round t a b c
        ≡ (smaller_round t.push_first_smaller a b.id c >>= λ r. some (r.0, b, r.1))
  unfolding merge_round
  round_less e = ground arith

  round_greater :
      ltb a.id b.id ≡ false
      → ltb b.id a.id ≡ true
      → merge_round t a b c
        ≡ (smaller_round t.push_second_smaller b a.id c >>= λ r. some (a, r.0, r.1))
  unfolding merge_round
  round_greater e e' = ground arith

  round_equal :
      ltb a.id b.id ≡ false
      → ltb b.id a.id ≡ false
      → merge_round t a b c ≡ equal_round t.push_equal a b c
  unfolding merge_round
  round_equal e e' = ground arith

-- What a round leaves.
pub record Stepped (t : SetOpTraits) (m n : ℕ) (a b : RunSide) (xs ys : List ℕ) : Type 0 where
  pub after : RunSide × RunSide
  pub zs : List ℕ
  pub left : List ℕ × List ℕ
  pub result :
      (c : RunCreator)
      → merge_round t a b c ≡ (push_each c zs >>= λ c'. some (after.0, after.1, c'))
  pub total : execute t xs ys ≡ zs ++ execute t left.0 left.1
  pub first : IsSide m after.0 left.0
  pub second : IsSide n after.1 left.1
  pub rise : (low : ℕ) × Rises low left.0
  pub other_rise : (low : ℕ) × Rises low left.1
  pub shorter : length left.0 + length left.1 < length xs + length ys

module _ (t : SetOpTraits) (m n : ℕ) (hm : m < 2 ^ 31) (hn : n < 2 ^ 31) (a b : RunSide)
    (x y low low' : ℕ) (xs ys : List ℕ) (h : Leads m a x xs) (g : Leads n b y ys)
    (r : Rises low (x ∷ xs)) (q : Rises low' (y ∷ ys)) where
  round_first : ltb a.id b.id ≡ true → Stepped t m n a b (x ∷ xs) (y ∷ ys)
  round_first e =
      let (_, hy, _) = q in
      let ea = h.at_id in
      let eb = g.at_id in
      let f =
        smaller_round-PassedBelow m hm t.push_first_smaller a x b.id low xs h (omega arith) r
          (ground arith) in
      let l : x ∷ xs ≡ (x ∷ f.more) ++ f.left = ap (λ (l : List ℕ). x ∷ l) f.ids in
      record {
        after = (f.after, b);
        zs = kept t.push_first_smaller (x ∷ f.more);
        left = (f.left, y ∷ ys);
        result = λ c.
            round_less t a b c e
            ∙ ap (λ (o : Option (RunSide × RunCreator)). o >>= λ v. some (v.0, b, v.1)) (f.result c)
            ∙ (bind-some (push_each c (kept t.push_first_smaller (x ∷ f.more)))
                (λ c'. (f.after, c')) (λ v. some (v.0, b, v.1)));
        total =
            ap (λ (l : List ℕ). execute t l (y ∷ ys)) l
            ∙ execute-below t (x ∷ f.more) f.left ys y
                (subst (λ (k : ℕ). All (λ (u : ℕ). u < k) (x ∷ f.more)) eb f.lower);
        first = f.is_side;
        second = g;
        rise = Rises-append (x ∷ f.more) f.left low (subst (λ (l : List ℕ). Rises low l) l r);
        other_rise = (low', q);
        shorter = omega (arith, ap (λ (l : List ℕ). length l) f.ids, length-append f.more f.left);
      }

  round_second : ltb a.id b.id ≡ false → ltb b.id a.id ≡ true → Stepped t m n a b (x ∷ xs) (y ∷ ys)
  round_second e e' =
      let (_, hx, _) = r in
      let ea = h.at_id in
      let eb = g.at_id in
      let f =
        smaller_round-PassedBelow n hn t.push_second_smaller b y a.id low' ys g (omega arith) q
          (ground arith) in
      let l : y ∷ ys ≡ (y ∷ f.more) ++ f.left = ap (λ (l : List ℕ). y ∷ l) f.ids in
      record {
        after = (a, f.after);
        zs = kept t.push_second_smaller (y ∷ f.more);
        left = (x ∷ xs, f.left);
        result = λ c.
            round_greater t a b c e e'
            ∙ ap (λ (o : Option (RunSide × RunCreator)). o >>= λ v. some (a, v.0, v.1)) (f.result c)
            ∙ (bind-some (push_each c (kept t.push_second_smaller (y ∷ f.more)))
                (λ c'. (f.after, c')) (λ v. some (a, v.0, v.1)));
        total =
            ap (λ (l : List ℕ). execute t (x ∷ xs) l) l
            ∙ execute-above t (y ∷ f.more) xs f.left x
                (subst (λ (k : ℕ). All (λ (u : ℕ). u < k) (y ∷ f.more)) ea f.lower);
        first = h;
        second = f.is_side;
        rise = (low, r);
        other_rise =
            Rises-append (y ∷ f.more) f.left low' (subst (λ (l : List ℕ). Rises low' l) l q);
        shorter = omega (arith, ap (λ (l : List ℕ). length l) f.ids, length-append f.more f.left);
      }

  round_same : ltb a.id b.id ≡ false → ltb b.id a.id ≡ false → Stepped t m n a b (x ∷ xs) (y ∷ ys)
  round_same e e' =
      let ea = h.at_id in
      let eb = g.at_id in
      let s : y ≡ x = ground arith in
      let f =
        equal_round-PassedTogether m n hm hn t.push_equal a b x xs ys h
          (subst (λ (k : ℕ). Leads n b k ys) s g) in
      let l : x ∷ xs ≡ (x ∷ f.more) ++ f.left.0 = ap (λ (l : List ℕ). x ∷ l) f.first_ids in
      let k : y ∷ ys ≡ (x ∷ f.more) ++ f.left.1 =
        ap₂ (λ (z : ℕ) (l : List ℕ). z ∷ l) s f.second_ids in
      record {
        after = f.after;
        zs = kept t.push_equal (x ∷ f.more);
        left = f.left;
        result = λ c. round_equal t a b c e e' ∙ f.result c;
        total =
            ap₂ (λ (l k : List ℕ). execute t l k) l k
            ∙ execute-shared t (x ∷ f.more) f.left.0 f.left.1;
        first = f.first;
        second = f.second;
        rise = Rises-append (x ∷ f.more) f.left.0 low (subst (λ (l : List ℕ). Rises low l) l r);
        other_rise =
            Rises-append (x ∷ f.more) f.left.1 low' (subst (λ (l : List ℕ). Rises low' l) k q);
        shorter = omega (
          arith,
          ap (λ (l : List ℕ). length l) f.first_ids,
          ap (λ (l : List ℕ). length l) f.second_ids,
          length-append f.more f.left.0,
          length-append f.more f.left.1,
        );
      }

  pub merge_round-Stepped : Stepped t m n a b (x ∷ xs) (y ∷ ys)
  merge_round-Stepped = elim (Bool-cases (ltb a.id b.id)) [
    | inl e ↦ round_first e
    | inr e ↦ elim (Bool-cases (ltb b.id a.id)) [
      | inl e' ↦ round_second e e'
      | inr e' ↦ round_same e e'
    ]
  ]
