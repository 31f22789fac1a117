-- ===== src/ItemIndex/RunDelta/Operation/Passes.antt =====
-- A side of genericOp passes its ids one by one, or a run at a time.
use sserialize.Base.{
  ℕ, zero, suc, true, false, ◌+◌, ◌-◌, ◌*◌, ◌%◌, ◌^◌, ◌<◌, ◌≤◌, ◌≡◌, refl, sym, ap, ◌∙◌, arith,
  ◌==◌, leb, Bool-cases, Option-cases, subst, ◌⊎◌, inl, inr,
}
use sserialize.Base.{List, ◌∷◌, ◌++◌, length, some}
use native.Mathlib.Nat.{mul-suc, mul-zero}
use sserialize.ItemIndex.RunDelta.{run_ids, run_end}
use sserialize.ItemIndex.RunDelta.Runs.{runs_ids}
use sserialize.ItemIndex.RunDelta.Operation.{RunSide, get_next, pass_one, pass_run}
use sserialize.ItemIndex.RunDelta.Operation.Sides.{
  Leads, IsSide, moved, get_next-IsSide, get_next-keeps, get_next-index_it,
}

le-or-lt : (a b : ℕ) → (a ≤ b) ⊎ (suc b ≤ a)
le-or-lt a b = elim (Bool-cases (leb a b)) [
  | inl e ↦ inl (ground arith)
  | inr e ↦ inr (ground arith)
]

-- One id inside a run is passed.
abbrev inside : RunSide → RunSide
inside s = record s { rle = s.rle - 1; id = (s.id + s.val) % 2 ^ 32; index_it = s.index_it + 1 }

module _ (n : ℕ) (hn : n < 2 ^ 31) (s : RunSide) (x : ℕ) (xs : List ℕ) (h : Leads n s x xs) where
  pub inside-Leads :
      2 ≤ s.rle
      → (ys : List ℕ) × (xs ≡ (x + s.val) % 2 ^ 32 ∷ ys)
        × Leads n (inside s) ((x + s.val) % 2 ^ 32) ys
  inside-Leads many =
      let x' = (x + s.val) % 2 ^ 32 in
      let m = s.rle - 2 in
      let e : s.rle - 1 ≡ suc m = omega arith in
      let f : s.rle - 1 - 1 ≡ m = omega arith in
      let ys = run_ids m s.val x' ++ runs_ids (run_end m s.val x') h.runs in
      let l : xs ≡ x' ∷ ys =
        h.later
        ∙ ap (λ (k : ℕ). run_ids k s.val x ++ runs_ids (run_end k s.val x) h.runs) e
        ∙ (unfold run_ids run_end in refl) in
      let q = h.at_id in
      let i = h.it in
      let r = h.small_rle in
      (
        ys,
        l,
        record {
          at_id = omega arith;
          it = omega (arith, ap (λ (t : List ℕ). length t) l);
          small_id = omega arith;
          small_rle = omega arith;
          small_val = h.small_val;
          runs = h.runs;
          small = h.small;
          on = h.on;
          later =
              ap (λ (k : ℕ). run_ids k s.val x' ++ runs_ids (run_end k s.val x') h.runs) (sym f);
        },
      )

  pass_one-inside : 2 ≤ s.rle → pass_one s ≡ some (inside s)
  unfolding pass_one
  pass_one-inside many =
      let z : (s.rle - 1 == 0) ≡ false = ground arith in
      let i = h.it in
      let k : (s.index_it + 1) % 2 ^ 32 ≡ s.index_it + 1 = omega arith in rw (z, k) refl

  pass_one-last : s.rle ≤ 1 → (s' : RunSide) × (pass_one s ≡ some s') × IsSide n s' xs
  unfolding pass_one
  pass_one-last last =
      let e : s.rle - 1 ≡ 0 = omega arith in
      let z : (s.rle - 1 == 0) ≡ true = ground arith in
      let l : xs ≡ runs_ids s.id h.runs =
        h.later
        ∙ ap (λ (k : ℕ). run_ids k s.val x ++ runs_ids (run_end k s.val x) h.runs) e
        ∙ (unfold run_ids run_end in ap (λ (y : ℕ). runs_ids y h.runs) (sym h.at_id)) in
      let i = h.it in
      let (s', g, k) =
        get_next-IsSide h.runs n ((s.index_it + 1) % 2 ^ 32) (record s { rle = s.rle - 1 }) e
          h.small h.on (omega (arith, ap (λ (t : List ℕ). length t) l)) in
      (
        moved ((s.index_it + 1) % 2 ^ 32) s',
        rw (z, g)
            (ap
              (λ (m : ℕ).
                some (record s' { id = (s'.id + s'.val) % 2 ^ 32; index_it = (m + 1) % 2 ^ 32 }))
              (get_next-keeps (record s { rle = s.rle - 1 }) s' g)),
        subst (λ (t : List ℕ). IsSide n (moved ((s.index_it + 1) % 2 ^ 32) s') t) (sym l) k,
      )

  -- One id of a side is passed.
  pub pass_one-IsSide : (s' : RunSide) × (pass_one s ≡ some s') × IsSide n s' xs
  pass_one-IsSide = elim (le-or-lt s.rle 1) [
    | inl last ↦ pass_one-last last
    | inr many ↦
        let (ys, l, k) = inside-Leads many in
        (inside s, pass_one-inside many, subst (λ (t : List ℕ). IsSide n (inside s) t) (sym l) k)
  ]

  pass_run-one : 1 ≤ s.rle → pass_run 1 s ≡ pass_one s
  unfolding pass_run pass_one
  pass_run-one some_left =
      let r = h.small_rle in
      let q = h.small_id in
      let e : (s.rle + 2 ^ 32 - 1) % 2 ^ 32 ≡ s.rle - 1 = omega arith in
      let f : (s.id + s.val * 0) % 2 ^ 32 ≡ s.id = omega (arith, mul-zero s.val) in
      let i = (s.index_it + 1) % 2 ^ 32 in
      rw (e, f)
        (elim (Bool-cases (s.rle - 1 == 0)) [
          | inl z ↦
              rw (z, get_next-index_it (record s { rle = s.rle - 1 }) i)
                (elim (Option-cases (get_next (record s { rle = s.rle - 1 }))) [
                  | inl g ↦ rw g refl
                  | inr (r', g) ↦
                      let j = sym (get_next-keeps (record s { rle = s.rle - 1 }) r' g) in
                      rw g (
                        ap
                          (λ (m : ℕ). some (record r' {
                            id = (r'.id + r'.val) % 2 ^ 32;
                            index_it = (m + 1) % 2 ^ 32;
                          }))
                          j)
                ])
          | inr z ↦ rw z refl
        ])

  pass_run-inside :
      (k : ℕ) → suc (suc k) ≤ s.rle → pass_run (suc (suc k)) s ≡ pass_run (suc k) (inside s)
  unfolding pass_run
  pass_run-inside k le =
      let r = h.small_rle in
      let i = h.it in
      let e : (s.rle + 2 ^ 32 - suc (suc k)) % 2 ^ 32 ≡ (s.rle - 1 + 2 ^ 32 - suc k) % 2 ^ 32 =
        omega arith in
      let f : (s.index_it + suc (suc k)) % 2 ^ 32 ≡ (s.index_it + 1 + suc k) % 2 ^ 32 =
        omega arith in
      let a : (suc (suc k) + 2 ^ 32 - 1) % 2 ^ 32 ≡ suc k = omega arith in
      let b : (suc k + 2 ^ 32 - 1) % 2 ^ 32 ≡ k = omega arith in
      let g : (s.id + s.val * suc k) % 2 ^ 32 ≡ ((s.id + s.val) % 2 ^ 32 + s.val * k) % 2 ^ 32 =
        omega (arith, mul-suc s.val k) in
      rw (e, f, a, b, g) refl

-- Ids at the start of the run that a side stands in, and a side behind them.
pub record Passes (n k : ℕ) (s : RunSide) (x : ℕ) (xs : List ℕ) : Type 0 where
  pub after : RunSide
  pub left : List ℕ
  pub result : pass_run (suc k) s ≡ some after
  pub ids : xs ≡ run_ids k s.val x ++ left
  pub is_side : IsSide n after left

-- As many ids of the run as it has are passed at once.
pub pass_run-IsSide :
    (k n : ℕ) (s : RunSide) (x : ℕ) (xs : List ℕ)
    → n < 2 ^ 31
    → Leads n s x xs
    → suc k ≤ s.rle
    → Passes n k s x xs
unfolding run_ids
pass_run-IsSide zero n s x xs hn h le =
    let (s', g, q) = pass_one-IsSide n hn s x xs h in
    record {
      after = s';
      left = xs;
      result = pass_run-one n hn s x xs h le ∙ g;
      ids = refl;
      is_side = q;
    }
pass_run-IsSide (suc k) n s x xs hn h le =
    let (ys, l, q) = inside-Leads n hn s x xs h (omega arith) in
    let x' = (x + s.val) % 2 ^ 32 in
    let r = pass_run-IsSide k n (inside s) x' ys hn q (omega arith) in
    record {
      after = r.after;
      left = r.left;
      result = pass_run-inside n hn s x xs h k le ∙ r.result;
      ids = l ∙ ap (λ (t : List ℕ). x' ∷ t) r.ids;
      is_side = r.is_side;
    }
