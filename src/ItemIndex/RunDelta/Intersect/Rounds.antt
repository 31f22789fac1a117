-- ===== src/ItemIndex/RunDelta/Intersect/Rounds.antt =====
-- The loops of constrainedIntersect end, and push what the indexes have in common.
use sserialize.Base.{
  ℕ, zero, suc, true, false, ◌+◌, ◌^◌, ◌<◌, ◌≤◌, ◌≡◌, refl, sym, ◌∙◌, arith, ◌==◌, if◌then◌else◌,
  Bool, not, ◌&&◌,
}
use sserialize.Base.{List, [], ◌∷◌, length, some, All, Bool-cases, inl, inr}
use sserialize.ItemIndex.SetOp.Member.{IsAscending}
use sserialize.ItemIndex.RunDelta.Intersect.{
  States, Moved, move_each, all_valid, find_max, next_equal,
}
use sserialize.ItemIndex.RunDelta.Intersect.Lists.{
  IsNonempty, drop_each, heads_are, max_head, total, empties, has_each, has_each-drop_max,
  drop_each-IsAscending, total-drop_each, total-drop_each-le,
}
use sserialize.ItemIndex.RunDelta.Intersect.Heads.{
  All-IsAscending-le, empties-IsNonempty, length-drop_each,
}
use sserialize.ItemIndex.RunDelta.Intersect.Moves.{
  HaveLeft, move_each-drop, find_max-max_head, all_valid-empties,
}

-- The states have ascending ids from `b` on left, and count those that have one.
pub record AreOn (s : States) (b : ℕ) (ls : List (List ℕ)) : Type 0 where
  pub left : HaveLeft s.states ls
  pub ascending : All (IsAscending b) ls
  pub counter : s.valid_counter + empties ls ≡ length ls
  pub few : length ls < 2 ^ 32
  pub some_list : 1 ≤ length ls

has_each-drop_some :
    (v : ℕ) (ls : List (List ℕ))
    → 1 ≤ length ls
    → All (IsAscending 0) ls
    → has_each v (drop_each (max_head ls 0) ls) ≡ has_each v ls
has_each-drop_some v [] h a = absurd (omega arith)
has_each-drop_some v (l ∷ ls) h a = has_each-drop_max v l ls a

-- What moveToNextEqual leaves.
pub record Equalled (s : States) (b id : ℕ) (before after : List (List ℕ)) : Type 0 where
  pub on : AreOn s b after
  pub same : (v : ℕ) → has_each v after ≡ has_each v before
  pub fewer : total after ≤ total before
  pub equal : (empties after ≡ 0) → heads_are id after ≡ true

next_equal-stop :
    (inner fuel : ℕ) (s : States) (all : Bool) (id : ℕ)
    → (all_valid s && not all) ≡ false
    → next_equal inner (suc fuel) s all id ≡ some (s, id)
unfolding next_equal
next_equal-stop inner fuel s all id e = ground arith

next_equal-round :
    (inner fuel : ℕ) (s : States) (id top : ℕ) (m : Moved)
    → all_valid s ≡ true
    → find_max s.states 0 ≡ top
    → move_each inner top s.states s.valid_counter true false ≡ some m
    → next_equal inner (suc fuel) s false id
      ≡ next_equal inner fuel
          (record { states = m.states; valid_counter = m.valid_counter })
          m.all_equal
          top
unfolding next_equal
next_equal-round inner fuel s id top m v t e = ground arith

-- A round whose states do not all stand at the same id has passed some id.
passes_some :
    (ls : List (List ℕ)) (all : Bool)
    → All IsNonempty ls
    → all ≡ heads_are (max_head ls 0) (drop_each (max_head ls 0) ls)
    → total (drop_each (max_head ls 0) ls) + (if all then 0 else 1) ≤ total ls
passes_some ls true ns e = omega (arith, total-drop_each-le (max_head ls 0) ls)
passes_some ls false ns e =
    omega (arith, total-drop_each (max_head ls 0) ls ns (omega arith) (sym e))

pub next_equal-Equalled :
    (inner fuel : ℕ) (s : States) (b : ℕ) (ls : List (List ℕ)) (all : Bool) (id : ℕ)
    → AreOn s b ls
    → total ls < inner
    → total ls + (if all then 0 else 1) < fuel
    → (all ≡ true → heads_are id ls ≡ true)
    → (s' : States) × (id' : ℕ) × (after : List (List ℕ)) × (next_equal inner fuel s all id
        ≡ some (s', id'))
      × Equalled s' b id' ls after
next_equal-Equalled inner zero s b ls all id o f m eq = absurd (omega arith)
next_equal-Equalled inner (suc fuel) s b ls true id o f m eq = (
  s,
  id,
  ls,
  next_equal-stop inner fuel s true id (ground arith),
  record { on = o; same = λ v. refl; fewer = omega arith; equal = λ e. eq refl },
)
next_equal-Equalled inner (suc fuel) s b ls false id o f m eq =
    let av = all_valid-empties s ls o.left o.counter in
    elim (Bool-cases (empties ls == 0)) [
      | inr no_more ↦ (
        s,
        id,
        ls,
        next_equal-stop inner fuel s false id (ground arith),
        record {
          on = o;
          same = λ v. refl;
          fewer = omega arith;
          equal = λ e. absurd (ground arith);
        },
      )
      | inl more ↦
          let z : empties ls ≡ 0 = ground arith in
          let ns = empties-IsNonempty ls z in
          let top = max_head ls 0 in
          let after = drop_each top ls in
          let c = o.counter in
          let w = o.few in
          let fm = find_max-max_head s.states ls 0 o.left ns in
          let (mv, e, h, n, a) =
            move_each-drop inner top s.states ls s.valid_counter true false o.left ns f
              (omega arith) (omega arith) in
          let ll = length-drop_each top ls in
          let sl = o.some_list in
          let on' : AreOn (record { states = mv.states; valid_counter = mv.valid_counter }) b
              after =
            record {
              left = h;
              ascending = drop_each-IsAscending top ls b o.ascending;
              counter = omega arith;
              few = omega arith;
              some_list = omega arith;
            } in
          let le = total-drop_each-le top ls in
          let smaller : total after + (if mv.all_equal then 0 else 1) < fuel =
            omega (arith, passes_some ls mv.all_equal ns a) in
          let (s', id', last, r, q) =
            next_equal-Equalled inner fuel
              (record { states = mv.states; valid_counter = mv.valid_counter }) b after mv.all_equal
              top on' (omega arith) smaller (λ t. ground arith) in
          let zero_up = All-IsAscending-le ls 0 b (omega arith) o.ascending in
          let fw = q.fewer in
          (
            s',
            id',
            last,
            next_equal-round inner fuel s id top mv (ground arith) fm e ∙ r,
            record {
              on = q.on;
              same = λ v. q.same v ∙ has_each-drop_some v ls sl zero_up;
              fewer = omega arith;
              equal = q.equal;
            },
          )
    ]
