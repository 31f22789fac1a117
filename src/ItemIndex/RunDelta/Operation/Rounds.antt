-- ===== src/ItemIndex/RunDelta/Operation/Rounds.antt =====
-- The three branches of a round of genericOp: pushes of ids that are passed.
use sserialize.Base.{
  ℕ, zero, suc, true, false, ◌+◌, ◌-◌, ◌*◌, ◌/◌, ◌%◌, ◌^◌, ◌<◌, ◌≤◌, ◌≡◌, refl, ap, ◌∙◌, arith,
  ◌==◌, ltb, Bool, Bool-cases, ◌&&◌, min, inl, inr, subst,
}
use sserialize.Base.{List, [], ◌∷◌, ◌++◌, some, ◌>>=◌, All}
use native.Mathlib.Nat.{mul-suc, mul-zero, div-add-mod, mod-lt, div-le_self, mul-le-mul_left}
use sserialize.ItemIndex.RunDelta.{RunCreator, run_ids, push_each}
use sserialize.ItemIndex.RunDelta.Operation.{
  RunSide, run_before, push_run_when, pass_run, smaller_round, equal_round,
}
use sserialize.ItemIndex.RunDelta.Operation.Sides.{Leads, IsSide}
use sserialize.ItemIndex.RunDelta.Operation.Passes.{inside-Leads, pass_one-IsSide, pass_run-IsSide}
use sserialize.ItemIndex.RunDelta.Operation.Kept.{
  Rises, kept, push_one_when-push_each, push_run_when-push_each, run_ids-below,
}

-- The differences of a run are not zero.
val_pos :
    (n : ℕ) (hn : n < 2 ^ 31) (s : RunSide) (x : ℕ) (xs : List ℕ) (low : ℕ)
    → Leads n s x xs
    → Rises low (x ∷ xs)
    → 2 ≤ s.rle
    → 1 ≤ s.val
val_pos n hn s x xs low h (_, small, r) many =
    let (ys, l, _) = inside-Leads n hn s x xs h many in
    let (le, _, _) = subst (λ (t : List ℕ). Rises (suc x) t) l r in
    let v = h.small_val in omega arith

quot_pos : (v d q m : ℕ) → v * q + m ≡ d → m < v → v ≤ d → 1 ≤ q
quot_pos v d zero m e lt le = absurd (omega (arith, mul-zero v))
quot_pos v d (suc q) m e lt le = omega arith

some_over : (v d q m k : ℕ) → v * q + m ≡ d → 1 ≤ m → k ≤ q → v * k < d
some_over v d q m k e h le = omega (arith, mul-le-mul_left v le)

none_over : (v d q m k : ℕ) → v * q + m ≡ d → 1 ≤ v → suc k ≤ q → v * k < d
none_over v d q m k e h le = omega (arith, mul-le-mul_left v le, mul-suc v k)

module _ (s : RunSide) (x y : ℕ) (at_id : s.id ≡ x) (hx : x < 2 ^ 31) (hy : y < 2 ^ 31)
    (hr : s.rle < 2 ^ 31) (hv : s.val < 2 ^ 31) (pos : 1 ≤ s.val) (many : 2 ≤ s.rle)
    (below : x + s.val < y) where
  abbrev Before : Type 0
  Before = (k : ℕ) × (run_before s y ≡ some (suc k)) × (suc k ≤ s.rle) × (x + s.val * k < y)

  -- The ids that the fast branch passes stand before the other side's id.
  run_before-lt : Before
  unfolding run_before
  run_before-lt =
      let d = (y + 2 ^ 32 - s.id) % 2 ^ 32 in
      let hd : d ≡ y - x = omega arith in
      let q = d / s.val in
      let m = d % s.val in
      let e : s.val * q + m ≡ d = div-add-mod d s.val in
      let lt : m < s.val = mod-lt d pos in
      let le : q ≤ d = div-le_self d s.val in
      let ge : 1 ≤ q = quot_pos s.val d q m e lt (omega arith) in
      let z : (s.val == 0) ≡ false = ground arith in
      elim (Bool-cases (ltb 0 m)) [
        | inl f ↦
            let k = min q (s.rle - 1) in
            let c : min ((q + 2 ^ 32 - 0 + 1) % 2 ^ 32) s.rle ≡ suc k = omega arith in
            let lk = some_over s.val d q m k e (ground arith) (omega arith) in
            (k, rw (z, f) (ap (λ (t : ℕ). some t) c), omega arith, omega arith)
        | inr f ↦
            let k = min (q - 1) (s.rle - 1) in
            let c : min ((q + 2 ^ 32 - 1 + 1) % 2 ^ 32) s.rle ≡ suc k = omega arith in
            let lk = none_over s.val d q m k e pos (omega arith) in
            (k, rw (z, f) (ap (λ (t : ℕ). some t) c), omega arith, omega arith)
      ]

-- What a round of the smaller side leaves: it has passed ids below `y`, and pushed them with `p`.
pub record PassedBelow (n : ℕ) (p : Bool) (s : RunSide) (x y : ℕ) (xs : List ℕ) : Type 0 where
  pub after : RunSide
  pub more : List ℕ
  pub left : List ℕ
  pub result :
      (c : RunCreator)
      → smaller_round p s y c ≡ (push_each c (kept p (x ∷ more)) >>= λ c'. some (after, c'))
  pub ids : xs ≡ more ++ left
  pub lower : All (λ (u : ℕ). u < y) (x ∷ more)
  pub is_side : IsSide n after left

module _ (n : ℕ) (hn : n < 2 ^ 31) (p : Bool) (s : RunSide) (x y low : ℕ) (xs : List ℕ)
    (h : Leads n s x xs) (hy : y < 2 ^ 31) (r : Rises low (x ∷ xs)) (lt : x < y) where
  smaller_one : (ltb 1 s.rle && ltb ((s.id + s.val) % 2 ^ 32) y) ≡ false → PassedBelow n p s x y xs
  unfolding smaller_round
  smaller_one e =
      let (s', g, q) = pass_one-IsSide n hn s x xs h in
      record {
        after = s';
        more = [];
        left = xs;
        result = λ c.
            rw (e, g, push_one_when-push_each p c s.id)
              (ap (λ (i : ℕ). push_each c (kept p (i ∷ [])) >>= λ c'. some (s', c')) h.at_id);
        ids = refl;
        lower = (lt, tt);
        is_side = q;
      }

  smaller_run : (ltb 1 s.rle && ltb ((s.id + s.val) % 2 ^ 32) y) ≡ true → PassedBelow n p s x y xs
  unfolding smaller_round
  smaller_run e =
      let many : 2 ≤ s.rle = ground arith in
      let pos = val_pos n hn s x xs low h r many in
      let (_, hx, _) = r in
      let at_id = h.at_id in
      let hv = h.small_val in
      let sr = h.small_rle in
      let (k, b, le, below) = run_before-lt s x y at_id hx hy sr hv pos many (ground arith) in
      let q = pass_run-IsSide k n s x xs hn h le in
      record {
        after = q.after;
        more = run_ids k s.val x;
        left = q.left;
        result = λ c.
            rw
              (
                e,
                b,
                push_run_when-push_each p c s x k at_id (omega arith) (omega arith) (omega arith),
                q.result,
              )
              refl;
        ids = q.ids;
        lower = (lt, run_ids-below k s.val x y below (omega arith));
        is_side = q.is_side;
      }

  pub smaller_round-PassedBelow : PassedBelow n p s x y xs
  smaller_round-PassedBelow = elim (Bool-cases (ltb 1 s.rle && ltb ((s.id + s.val) % 2 ^ 32) y)) [
    | inl e ↦ smaller_run e
    | inr e ↦ smaller_one e
  ]

-- What a round of an id of both sides leaves: they have passed the same ids, and pushed them with `p`.
pub record PassedTogether (m n : ℕ) (p : Bool) (a b : RunSide) (x : ℕ) (xs ys : List ℕ)
    : Type 0 where
  pub after : RunSide × RunSide
  pub more : List ℕ
  pub left : List ℕ × List ℕ
  pub result :
      (c : RunCreator)
      → equal_round p a b c
        ≡ (push_each c (kept p (x ∷ more)) >>= λ c'. some (after.0, after.1, c'))
  pub first_ids : xs ≡ more ++ left.0
  pub second_ids : ys ≡ more ++ left.1
  pub first : IsSide m after.0 left.0
  pub second : IsSide n after.1 left.1

module _ (m n : ℕ) (hm : m < 2 ^ 31) (hn : n < 2 ^ 31) (p : Bool) (a b : RunSide) (x : ℕ)
    (xs ys : List ℕ) (h : Leads m a x xs) (g : Leads n b x ys) where
  shared_one :
      (ltb 2 a.rle && ltb 2 b.rle && a.val == b.val) ≡ false → PassedTogether m n p a b x xs ys
  unfolding equal_round
  shared_one e =
      let (a', ra, qa) = pass_one-IsSide m hm a x xs h in
      let (b', rb, qb) = pass_one-IsSide n hn b x ys g in
      record {
        after = (a', b');
        more = [];
        left = (xs, ys);
        result = λ c.
            rw (e, ra, rb, push_one_when-push_each p c a.id)
              (ap (λ (i : ℕ). push_each c (kept p (i ∷ [])) >>= λ c'. some (a', b', c')) h.at_id);
        first_ids = refl;
        second_ids = refl;
        first = qa;
        second = qb;
      }

  shared_fast :
      (k : ℕ) (zs : List ℕ) (a' b' : RunSide) (c : RunCreator)
      → (ltb 2 a.rle && ltb 2 b.rle && a.val == b.val) ≡ true
      → min a.rle b.rle ≡ suc k
      → push_run_when p c a (suc k) ≡ push_each c zs
      → pass_run (suc k) a ≡ some a'
      → pass_run (suc k) b ≡ some b'
      → equal_round p a b c ≡ (push_each c zs >>= λ c'. some (a', b', c'))
  unfolding equal_round
  shared_fast k zs a' b' c e q u ra rb = rw (e, q, u, ra, rb) refl

  shared_run :
      (ltb 2 a.rle && ltb 2 b.rle && a.val == b.val) ≡ true → PassedTogether m n p a b x xs ys
  shared_run e =
      let k = min a.rle b.rle - 1 in
      let ra = h.small_rle in
      let va = h.small_val in
      let many : 1 ≤ min a.rle b.rle = ground arith in
      let v : b.val ≡ a.val = ground arith in
      let pa = pass_run-IsSide k m a x xs hm h (omega arith) in
      let pb = pass_run-IsSide k n b x ys hn g (omega arith) in
      record {
        after = (pa.after, pb.after);
        more = run_ids k a.val x;
        left = (pa.left, pb.left);
        result = λ c.
            shared_fast k (kept p (x ∷ run_ids k a.val x)) pa.after pb.after c e (omega arith)
              (push_run_when-push_each p c a x k h.at_id h.small_id (omega arith) (omega arith))
              pa.result pb.result;
        first_ids = pa.ids;
        second_ids = pb.ids ∙ ap (λ (w : ℕ). run_ids k w x ++ pb.left) v;
        first = pa.is_side;
        second = pb.is_side;
      }

  pub equal_round-PassedTogether : PassedTogether m n p a b x xs ys
  equal_round-PassedTogether = elim (Bool-cases (ltb 2 a.rle && ltb 2 b.rle && a.val == b.val)) [
    | inl e ↦ shared_run e
    | inr e ↦ shared_one e
  ]
