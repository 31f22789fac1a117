-- ===== src/ItemIndex/Delta/GenericOp.antt =====
-- genericOp gives the index of the ids that the generic merge pushes.
use sserialize.Base.{ℕ, zero, suc, true, false, ◌+◌, ◌<◌, ◌≡◌, refl, ◌∙◌, arith, List, [], ◌∷◌}
use sserialize.Base.{Bool, Bool-cases, inl, inr, ltb, ◌==◌, ◌&&◌, length, some}
use sserialize.ItemIndex.SetOp.{SetOpTraits, push_if}
use sserialize.ItemIndex.SetOp.Member.{execute-less, execute-greater, execute-same}
use sserialize.ItemIndex.Delta.{DeltaCreator, Side, push_when}
use sserialize.ItemIndex.Delta.Encode.{pushed}
use sserialize.ItemIndex.Delta.Push.{
  HasRoom, pushed-HasRoom, push_when-pushed, IsAt, Ids, step_side-IsAt,
}
use sserialize.ItemIndex.Delta.Merge.{
  Outcome, length-push_if, stopped, pushed_before, loop-equal, loop-less, loop-greater,
}

push_at :
    (p : Bool) (c : DeltaCreator) (id x : ℕ)
    → id ≡ x
    → HasRoom c 1
    → push_when p c id ≡ some (pushed c (push_if p x []))
push_at p c id x e h = rw e (push_when-pushed p c x h)

-- The loop of genericOp pushes what the generic merge pushes, up to the remainder of one side.
pub merge_loop-Merged :
    (fuel : ℕ) (t : SetOpTraits) (m n : ℕ) (xs ys : List ℕ) (a b : Side) (c : DeltaCreator)
    → IsAt m a xs
    → IsAt n b ys
    → Ids xs
    → Ids ys
    → HasRoom c (length xs + length ys)
    → length xs + length ys < fuel
    → Outcome fuel t m n xs ys a b c
merge_loop-Merged zero t m n xs ys a b c ha hb ix iy room h = absurd (omega arith)
merge_loop-Merged (suc fuel) t m n [] ys a b c ha hb ix iy room h =
    stopped fuel t m n [] ys a b c ha hb ix iy (inl refl) (ground arith)
merge_loop-Merged (suc fuel) t m n (x ∷ xs) [] a b c ha hb ix iy room h =
    stopped fuel t m n (x ∷ xs) [] a b c ha hb ix iy (inr refl) (ground arith)
merge_loop-Merged (suc fuel) t m n (x ∷ xs) (y ∷ ys) a b c ha hb (hx, ix) (hy, iy) room h =
    let i = ha.it in
    let j = hb.it in
    let ea = ha.item in
    let eb = hb.item in
    let go : (ltb a.index_it m && ltb b.index_it n) ≡ true = ground arith in
    let whole = suc (length xs) + suc (length ys) in
    let q : HasRoom c 1 = record {
      at_end = room.at_end;
      room = (let r = room.room in omega arith);
      few = (let f = room.few in omega arith);
    } in
    let (a1, sa, ka) = step_side-IsAt m a x xs ha hx ix in
    let (b1, sb, kb) = step_side-IsAt n b y ys hb hy iy in
    elim (Bool-cases (x == y)) [
      | inl same ↦
          let e : y ≡ x = ground arith in
          let l : ltb x y ≡ false = ground arith in
          let g : ltb y x ≡ false = ground arith in
          let le = length-push_if t.push_equal x in
          let r =
            pushed-HasRoom c (push_if t.push_equal x []) whole (length xs + length ys) room
              (omega arith) in
          let s : (a.item_id == b.item_id) ≡ true = ground arith in
          pushed_before (suc fuel) fuel t m n (x ∷ xs) (y ∷ ys) xs ys a b a1 b1 c t.push_equal x hx
            (omega arith)
            (loop-equal fuel t m n a b c go s
              ∙ rw (push_at t.push_equal c a.item_id x ea q, sa, sb) refl)
            (execute-same t x y xs ys l g)
            (merge_loop-Merged fuel t m n xs ys a1 b1 (pushed c (push_if t.push_equal x [])) ka kb
              ix iy r (omega arith))
      | inr other ↦
          let s : (a.item_id == b.item_id) ≡ false = ground arith in
          elim (Bool-cases (ltb x y)) [
            | inl l ↦
                let le = length-push_if t.push_first_smaller x in
                let r =
                  pushed-HasRoom c (push_if t.push_first_smaller x []) whole
                    (length xs + suc (length ys)) room (omega arith) in
                let s' : ltb a.item_id b.item_id ≡ true = ground arith in
                pushed_before (suc fuel) fuel t m n (x ∷ xs) (y ∷ ys) xs (y ∷ ys) a b a1 b c
                  t.push_first_smaller x hx (omega arith)
                  (loop-less fuel t m n a b c go s s'
                    ∙ rw (push_at t.push_first_smaller c a.item_id x ea q, sa) refl)
                  (execute-less t x y xs ys l)
                  (merge_loop-Merged fuel t m n xs (y ∷ ys) a1 b
                    (pushed c (push_if t.push_first_smaller x [])) ka hb ix (hy, iy) r
                    (omega arith))
            | inr l ↦
                let g : ltb y x ≡ true = ground arith in
                let le = length-push_if t.push_second_smaller y in
                let r =
                  pushed-HasRoom c (push_if t.push_second_smaller y []) whole
                    (suc (length xs) + length ys) room (omega arith) in
                let s' : ltb a.item_id b.item_id ≡ false = ground arith in
                pushed_before (suc fuel) fuel t m n (x ∷ xs) (y ∷ ys) (x ∷ xs) ys a b a b1 c
                  t.push_second_smaller y hy (omega arith)
                  (loop-greater fuel t m n a b c go s s'
                    ∙ rw (push_at t.push_second_smaller c b.item_id y eb q, sb) refl)
                  (execute-greater t x y xs ys l g)
                  (merge_loop-Merged fuel t m n (x ∷ xs) ys a b1
                    (pushed c (push_if t.push_second_smaller y [])) ha kb (hx, ix) iy r
                    (omega arith))
          ]
    ]
