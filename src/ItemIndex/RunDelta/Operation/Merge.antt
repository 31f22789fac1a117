-- ===== src/ItemIndex/RunDelta/Operation/Merge.antt =====
-- The loop of genericOp pushes what the generic merge pushes, up to the remainder of one side.
use sserialize.Base.{
  ℕ, zero, suc, true, false, ◌+◌, ◌^◌, ◌<◌, ◌≡◌, ◌⊎◌, refl, sym, ap, ◌∙◌, arith, ltb, ◌&&◌, inl,
  inr,
}
use sserialize.Base.{List, [], ◌∷◌, ◌++◌, append_assoc, length, Option, some, ◌>>=◌, Option-cases}
use sserialize.ItemIndex.SetOp.{SetOpTraits, execute}
use sserialize.ItemIndex.RunDelta.{RunCreator, push_each}
use sserialize.ItemIndex.RunDelta.Operation.{RunSide, merge_round, merge_runs}
use sserialize.ItemIndex.RunDelta.Operation.Sides.{IsSide}
use sserialize.ItemIndex.RunDelta.Operation.Kept.{Rises, push_each-append}
use sserialize.ItemIndex.RunDelta.Operation.Steps.{Stepped, merge_round-Stepped}

-- What the loop leaves: pushed ids, and two sides one of which is at its end.
pub record Merged (fuel : ℕ) (t : SetOpTraits) (m n : ℕ) (a b : RunSide) (xs ys : List ℕ)
    : Type 0 where
  pub after : RunSide × RunSide
  pub pushed : List ℕ
  pub left : List ℕ × List ℕ
  pub result :
      (c : RunCreator)
      → merge_runs fuel t m n a b c ≡ (push_each c pushed >>= λ c'. some (after.0, after.1, c'))
  pub total : execute t xs ys ≡ pushed ++ execute t left.0 left.1
  pub first : IsSide m after.0 left.0
  pub second : IsSide n after.1 left.1
  pub one_empty : (left.0 ≡ []) ⊎ (left.1 ≡ [])

module _ (fuel : ℕ) (t : SetOpTraits) (m n : ℕ) (a b : RunSide) where
  loop-stop :
      (c : RunCreator)
      → (ltb a.index_it m && ltb b.index_it n) ≡ false
      → merge_runs (suc fuel) t m n a b c ≡ some (a, b, c)
  unfolding merge_runs
  loop-stop c e = ground arith

  loop-go :
      (c : RunCreator)
      → (ltb a.index_it m && ltb b.index_it n) ≡ true
      → merge_runs (suc fuel) t m n a b c
        ≡ (merge_round t a b c >>= λ r. merge_runs fuel t m n r.0 r.1 r.2)
  unfolding merge_runs
  loop-go c e = ground arith

  stopped :
      (xs ys : List ℕ)
      → IsSide m a xs
      → IsSide n b ys
      → (xs ≡ []) ⊎ (ys ≡ [])
      → (ltb a.index_it m && ltb b.index_it n) ≡ false
      → Merged (suc fuel) t m n a b xs ys
  unfolding push_each
  stopped xs ys h g one e = record {
    after = (a, b);
    pushed = [];
    left = (xs, ys);
    result = λ c. loop-stop c e;
    total = refl;
    first = h;
    second = g;
    one_empty = one;
  }

  joined :
      (zs vs : List ℕ) (a1 b1 a' b' : RunSide) (c : RunCreator)
      → (ltb a.index_it m && ltb b.index_it n) ≡ true
      → merge_round t a b c ≡ (push_each c zs >>= λ c'. some (a1, b1, c'))
      → ((c' : RunCreator)
          → merge_runs fuel t m n a1 b1 c' ≡ (push_each c' vs >>= λ c''. some (a', b', c'')))
      → merge_runs (suc fuel) t m n a b c ≡ (push_each c (zs ++ vs) >>= λ c''. some (a', b', c''))
  joined zs vs a1 b1 a' b' c e r later =
      loop-go c e
      ∙ ap
          (λ (o : Option (RunSide × RunSide × RunCreator)).
            o >>= λ v. merge_runs fuel t m n v.0 v.1 v.2)
          r
      ∙ elim (Option-cases (push_each c zs)) [
        | inl f ↦ rw (push_each-append zs vs c, f) refl
        | inr (c', f) ↦ rw (push_each-append zs vs c, f) (later c')
      ]

  -- A round in front of a later outcome.
  before :
      (xs ys : List ℕ)
      → (ltb a.index_it m && ltb b.index_it n) ≡ true
      → (r : Stepped t m n a b xs ys) → Merged fuel t m n r.after.0 r.after.1 r.left.0 r.left.1
      → Merged (suc fuel) t m n a b xs ys
  before xs ys e r later = record {
    after = later.after;
    pushed = r.zs ++ later.pushed;
    left = later.left;
    result = λ c.
        joined r.zs later.pushed r.after.0 r.after.1 later.after.0 later.after.1 c e (r.result c)
          later.result;
    total =
        r.total
        ∙ ap (λ (l : List ℕ). r.zs ++ l) later.total
        ∙ sym (append_assoc r.zs later.pushed (execute t later.left.0 later.left.1));
    first = later.first;
    second = later.second;
    one_empty = later.one_empty;
  }

-- `a` and `b` are the sides of two run-length indexes with the ids `xs` and `ys` left, which are below
-- 2 ^ 31 and strictly ascending; the fuel is more than their number. The loop pushes ids one by one, and
-- throws only where a push does. It stops where one side is at its end; the pushed ids, and behind them
-- what the generic merge pushes of the ids that are left, are what the generic merge pushes of `xs` and
-- `ys`.
pub merge_runs-Merged :
    (fuel : ℕ) (t : SetOpTraits) (m n : ℕ) (a b : RunSide) (low low' : ℕ) (xs ys : List ℕ)
    → m < 2 ^ 31
    → n < 2 ^ 31
    → IsSide m a xs
    → IsSide n b ys
    → Rises low xs
    → Rises low' ys
    → length xs + length ys < fuel
    → Merged fuel t m n a b xs ys
merge_runs-Merged zero t m n a b low low' xs ys hm hn h g r q f = absurd (omega arith)
merge_runs-Merged (suc fuel) t m n a b low low' [] ys hm hn h g r q f =
    stopped fuel t m n a b [] ys h g (inl refl) (ground arith)
merge_runs-Merged (suc fuel) t m n a b low low' (x ∷ xs) [] hm hn h g r q f =
    stopped fuel t m n a b (x ∷ xs) [] h g (inr refl) (ground arith)
merge_runs-Merged (suc fuel) t m n a b low low' (x ∷ xs) (y ∷ ys) hm hn h g r q f =
    let i = h.it in
    let j = g.it in
    let k = merge_round-Stepped t m n hm hn a b x y low low' xs ys h g r q in
    let (l, rise) = k.rise in
    let (l', rise') = k.other_rise in
    let s = k.shorter in
    before fuel t m n a b (x ∷ xs) (y ∷ ys) (ground arith) k (
      merge_runs-Merged fuel t m n k.after.0 k.after.1 l l' k.left.0 k.left.1 hm hn k.first k.second
        rise rise' (omega arith))
