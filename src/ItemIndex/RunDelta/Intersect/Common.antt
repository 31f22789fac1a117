-- ===== src/ItemIndex/RunDelta/Intersect/Common.antt =====
-- constrainedIntersect gives the first of the ids that all indexes have.
use sserialize.Base.{
  ℕ, zero, suc, true, false, ◌+◌, ◌-◌, ◌^◌, ◌<◌, ◌≤◌, ◌≡◌, refl, sym, ap, subst, ◌∙◌, arith, ◌==◌,
  ltb, Bool, ◌&&◌, ◌||◌,
}
use sserialize.Base.{List, [], ◌∷◌, length, take, some, ◌>>=◌, All, Bool-cases, inl, inr}
use sserialize.ItemIndex.SetOp.Member.{IsAscending, has}
use sserialize.ItemIndex.RunDelta.{RunIndex}
use sserialize.ItemIndex.RunDelta.Read.{IsRunIndexOf}
use sserialize.ItemIndex.RunDelta.Cursor.{Cursor, IsCursor, cursor_of, cursor_of-IsCursor}
use sserialize.ItemIndex.RunDelta.Intersect.{
  States, all_valid, next_each, next_equal, intersect_loop, states_of, total_size,
  constrained_intersect,
}
use sserialize.ItemIndex.RunDelta.Intersect.Lists.{IsNonempty, total, empties, tails, has_each}
use sserialize.ItemIndex.RunDelta.Intersect.Heads.{
  heads_are-has, heads_are-ge, has_each-empties, tails-IsAscending, All-IsAscending-le,
  total-tails-lt, empties-IsNonempty, length-tails, AreCommon, AreCommon-exists,
}
use sserialize.ItemIndex.RunDelta.Intersect.Moves.{
  HasLeft, HaveLeft, IsCursor-HasLeft, next_each-tails, all_valid-empties,
}
use sserialize.ItemIndex.RunDelta.Intersect.Rounds.{AreOn, next_equal-Equalled}

module _ (inner fuel : ℕ) (s : States) (id : ℕ) where
  loop-stop :
      (left : ℕ)
      → (all_valid s && ltb 0 left) ≡ false
      → intersect_loop inner (suc fuel) s id left ≡ some []
  unfolding intersect_loop
  loop-stop left e = ground arith

  module _ (left : ℕ) (go : (all_valid s && ltb 0 left) ≡ true) (s' : States) (id' : ℕ)
      (found : next_equal inner inner s false id ≡ some (s', id')) where
    loop-found :
        (t : States)
        → all_valid s' ≡ true
        → next_each s'.states s'.valid_counter ≡ some t
        → intersect_loop inner (suc fuel) s id left
          ≡ (intersect_loop inner fuel t id' (left - 1) >>= λ rest. some (id' ∷ rest))
    unfolding intersect_loop
    loop-found t v n = ground arith

    loop-ended :
        all_valid s' ≡ false
        → intersect_loop inner (suc fuel) s id left ≡ intersect_loop inner fuel s' id' left
    unfolding intersect_loop
    loop-ended v = ground arith

-- In lists of which one is empty.
nothing_common :
    (b : ℕ) (ls : List (List ℕ)) → ((v : ℕ) → has_each v ls ≡ false) → AreCommon b ls []
nothing_common b ls h = (tt, λ v. sym (h v))

exists_common :
    (b : ℕ) (ls : List (List ℕ))
    → 1 ≤ length ls
    → All (IsAscending b) ls
    → (ids : List ℕ) × AreCommon b ls ids
exists_common b [] h a = absurd (omega arith)
exists_common b (l ∷ ls) h a = AreCommon-exists l ls b a

abbrev Found : ℕ → ℕ → States → ℕ → ℕ → ℕ → List (List ℕ) → Type 0
Found inner fuel s id left b ls =
    (ids : List ℕ) × (intersect_loop inner fuel s id left ≡ some (take left ids))
    × AreCommon b ls ids

pub intersect_loop-AreCommon :
    (inner fuel : ℕ) (s : States) (id left b : ℕ) (ls : List (List ℕ))
    → AreOn s b ls
    → total ls + 1 < inner
    → total ls + 1 < fuel
    → Found inner fuel s id left b ls
intersect_loop-AreCommon inner zero s id left b ls o f h = absurd (omega arith)
intersect_loop-AreCommon inner (suc zero) s id left b ls o f h = absurd (omega arith)
intersect_loop-AreCommon inner (suc (suc fuel)) s id zero b ls o f h =
    let (ids, c) = exists_common b ls o.some_list o.ascending in
    (ids, loop-stop inner (suc fuel) s id 0 (ground arith), c)
intersect_loop-AreCommon inner (suc (suc fuel)) s id (suc n) b ls o f h =
    let av = all_valid-empties s ls o.left o.counter in
    elim (Bool-cases (empties ls == 0)) [
      | inr no_more ↦ (
        [],
        loop-stop inner (suc fuel) s id (suc n) (ground arith),
        nothing_common b ls (λ v. has_each-empties v ls (ground arith)),
      )
      | inl more ↦
          let go : (all_valid s && ltb 0 (suc n)) ≡ true = ground arith in
          let (s', id', after, e, q) =
            next_equal-Equalled inner inner s b ls false id o (omega arith) f
              (λ t. absurd (ground arith)) in
          let av' = all_valid-empties s' after q.on.left q.on.counter in
          let fw = q.fewer in
          elim (Bool-cases (empties after == 0)) [
            | inr ended ↦ (
              [],
              loop-ended inner (suc fuel) s id (suc n) go s' id' e (ground arith)
                  ∙ loop-stop inner fuel s' id' (suc n) (ground arith),
              nothing_common b ls (λ v. sym (q.same v) ∙ has_each-empties v after (ground arith)),
            )
            | inl all ↦
                let z : empties after ≡ 0 = ground arith in
                let ns = empties-IsNonempty after z in
                let c = q.on.counter in
                let w = q.on.few in
                let sl = q.on.some_list in
                let heads = q.equal z in
                let (t, r, ht, ct) =
                  next_each-tails s'.states after s'.valid_counter q.on.left ns (omega arith)
                    (omega arith) in
                let lt = length-tails after in
                let on' : AreOn t (suc id') (tails after) = record {
                  left = ht;
                  ascending =
                      tails-IsAscending id' after
                        (All-IsAscending-le after 0 b (omega arith) q.on.ascending) heads;
                  counter = omega arith;
                  few = omega arith;
                  some_list = omega arith;
                } in
                let less = total-tails-lt after ns sl in
                let (ids, run, (asc, same)) =
                  intersect_loop-AreCommon inner (suc fuel) t id' n (suc id') (tails after) on'
                    (omega arith) (omega arith) in
                let k : suc n - 1 ≡ n = omega arith in
                (
                  id' ∷ ids,
                  loop-found inner (suc fuel) s id (suc n) go s' id' e t (ground arith) r
                      ∙ rw (k, run) refl,
                  (
                    (heads_are-ge id' b after heads q.on.ascending sl, asc),
                    λ v.
                        ap (λ (p : Bool). (v == id') || p) (same v)
                        ∙ sym (heads_are-has v id' after heads)
                        ∙ q.same v,
                  ),
                )
          ]
    ]

-- Indexes of these lists of ids, strictly ascending, and none of them empty.
abbrev pub AreIndexesOf : List RunIndex → List (List ℕ) → Type 0
AreIndexesOf [] [] = Unit {0}
AreIndexesOf [] (l ∷ ls) = ⊥
AreIndexesOf (i ∷ is) [] = ⊥
AreIndexesOf (i ∷ is) (l ∷ ls) =
    IsRunIndexOf i l × IsAscending 0 l × IsNonempty l × AreIndexesOf is ls

cursor_of-HasLeft :
    (i : RunIndex) (ids : List ℕ)
    → IsRunIndexOf i ids
    → (c : Cursor) × (cursor_of i.body ≡ some c) × HasLeft c ids
cursor_of-HasLeft i ids h =
    let (c, e, k) = cursor_of-IsCursor i.body h.runs h.at_start h.on h.small in
    (c, e, IsCursor-HasLeft 0 c ids (subst (λ (t : List ℕ). IsCursor 0 c t) (sym h.stored) k))

-- The states that the indexes start with.
record Started (is : List RunIndex) (ls : List (List ℕ)) : Type 0 where
  states : List Cursor
  result : states_of is ≡ some states
  left : HaveLeft states ls
  ascending : All (IsAscending 0) ls
  none_empty : empties ls ≡ 0
  sizes : total_size is ≡ total ls
  count : length is ≡ length ls

started : (is : List RunIndex) (ls : List (List ℕ)) → AreIndexesOf is ls → Started is ls
unfolding states_of total_size
started [] [] h = record {
  states = [];
  result = refl;
  left = tt;
  ascending = tt;
  none_empty = refl;
  sizes = refl;
  count = refl;
}
started [] (l ∷ ls) h = elim h [ ]
started (i ∷ is) [] h = elim h [ ]
started (i ∷ is) ([] ∷ ls) (h, a, n, rest) = absurd (omega arith)
started (i ∷ is) ((x ∷ xs) ∷ ls) (h, a, n, rest) =
    let (c, e, k) = cursor_of-HasLeft i (x ∷ xs) h in
    let r = started is ls rest in
    let s = h.size in
    let t = r.sizes in
    let m = r.none_empty in
    let q = r.count in
    record {
      states = c ∷ r.states;
      result = rw (e, r.result) refl;
      left = (k, r.left);
      ascending = (a, r.ascending);
      none_empty = omega arith;
      sizes = omega arith;
      count = omega arith;
    }

-- `indexes` are valid run-length indexes of the strictly ascending lists `ls`: at least one, fewer than
-- 2 ^ 32, and none of them empty. constrainedIntersect ends and does not throw, and its result is the
-- first `count` of the ids that all lists have, in strictly ascending order.
pub constrained_intersect-AreCommon :
    (indexes : List RunIndex) (ls : List (List ℕ)) (count : ℕ)
    → AreIndexesOf indexes ls
    → 1 ≤ length ls
    → length ls < 2 ^ 32
    → (ids : List ℕ) × (constrained_intersect indexes count ≡ some (take count ids))
      × IsAscending 0 ids
      × ((v : ℕ) → has v ids ≡ has_each v ls)
unfolding constrained_intersect
constrained_intersect-AreCommon indexes ls count h some_list few =
    let r = started indexes ls h in
    let m = r.none_empty in
    let t = r.sizes in
    let q = r.count in
    let fuel = total_size indexes + 2 in
    let (ids, e, (a, c)) =
      intersect_loop-AreCommon fuel fuel
        (record { states = r.states; valid_counter = length indexes }) 0 count 0 ls
        (record {
          left = r.left;
          ascending = r.ascending;
          counter = omega arith;
          few = few;
          some_list = some_list;
        })
        (omega arith) (omega arith) in
    (ids, rw r.result e, a, c)
