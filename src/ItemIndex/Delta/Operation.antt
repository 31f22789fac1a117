-- ===== src/ItemIndex/Delta/Operation.antt =====
-- genericOp of two indexes gives an index of the ids that the merge of their ids pushes.
use sserialize.Base.{
  ℕ, suc, ◌+◌, ◌-◌, ◌%◌, ◌^◌, ◌<◌, ◌≤◌, ◌≡◌, refl, ap, ◌∙◌, arith, List, [], ◌∷◌, ◌++◌, true, false,
  inl, inr,
}
use sserialize.Base.{Bool-cases, ltb, ◌&&◌, if◌then◌else◌, length, length-append, Option, some}
use sserialize.Pack.Varint.Groups.{groups}
use sserialize.Storage.Adapter.Valid.{IsValid}
use sserialize.Storage.Stream.Read.{unread, advanced, advanced-unread, get_vl_packed_uint32-groups}
use sserialize.ItemIndex.SetOp.{SetOpTraits, execute}
use sserialize.ItemIndex.SetOp.Member.{execute-nil_cons, execute-cons_nil, execute-nil_nil}
use sserialize.ItemIndex.Delta.{DeltaIndex, DeltaCreator, Side, start}
use sserialize.ItemIndex.Delta.{
  push_remainder, flush_index, get_private_index, put_into, generic_op,
}
use sserialize.ItemIndex.Delta.Encode.{deltas, pushed}
use sserialize.ItemIndex.Delta.Push.{
  pushed-pushed, pushed-nil, HasRoom, pushed-HasRoom, Holds, Ids, push_remainder-pushed,
}
use sserialize.ItemIndex.Delta.RoundTrip.{created, create_index-created, finish-pushed}
use sserialize.ItemIndex.Delta.Merge.{Merged, Ids-append}
use sserialize.ItemIndex.Delta.GenericOp.{merge_loop-Merged}

-- The index of these ids.
pub record IsIndexOf (i : DeltaIndex) (ids : List ℕ) : Type 0 where
  pub valid : IsValid i.body
  pub small : i.body.len < 2 ^ 63
  pub size : i.size ≡ length ids
  pub content : unread i.body ≡ deltas 0 ids

start-Holds :
    (i : DeltaIndex) (x : ℕ) (xs : List ℕ)
    → IsIndexOf i (x ∷ xs)
    → x < 2 ^ 32
    → (s : Side) × (start i ≡ some s) × Holds i.size s x xs
unfolding start
start-Holds i x xs h hx =
    let d = (x + 2 ^ 32 - 0) % 2 ^ 32 in
    let e : d ≡ x = omega arith in
    let g = groups 5 d in
    let n = h.size in
    let u : unread i.body ≡ g ++ deltas x xs = h.content ∙ (unfold deltas in refl) in
    let (v, w) = advanced-unread i.body h.valid h.small g (deltas x xs) u in
    let r = get_vl_packed_uint32-groups i.body h.valid h.small (deltas x xs) d (omega arith) u in
    let k : Holds i.size (record { reader = advanced i.body (length g); index_it = 0; item_id = d })
        x xs =
      record {
        valid = v;
        small = (unfold advanced in h.small);
        item = e;
        it = omega arith;
        ahead = w;
      } in
    (record { reader = advanced i.body (length g); index_it = 0; item_id = d }, rw r refl, k)

-- What genericOp does after its loop.
abbrev finish : SetOpTraits → ℕ → ℕ → Side → Side → DeltaCreator → Option DeltaCreator
finish t m n a b c =
    if t.push_first_remainder && ltb a.index_it m
    then push_remainder c m a
    else if t.push_second_remainder && ltb b.index_it n
    then push_remainder c n b
    else flush_index c

-- The end of genericOp pushes what the merge pushes of the remainder.
record Finished (t : SetOpTraits) (m n : ℕ) (a b : Side) (c : DeltaCreator) (rest : List ℕ) (k : ℕ)
    : Type 0 where
  last : ℕ
  result : finish t m n a b c ≡ flush_index (record (pushed c rest) { prev = last })
  ids : Ids rest
  count : length rest ≤ k

nothing :
    (t : SetOpTraits) (m n : ℕ) (a b : Side) (c : DeltaCreator) (k : ℕ)
    → finish t m n a b c ≡ flush_index c
    → Finished t m n a b c [] k
nothing t m n a b c k e = record {
  last = c.prev;
  result = e ∙ (rw (pushed-nil c) refl);
  ids = tt;
  count = omega arith;
}

first_rest :
    (t : SetOpTraits) (m n x : ℕ) (xs : List ℕ) (a b : Side) (c : DeltaCreator)
    → Holds m a x xs
    → b.index_it ≡ n
    → Ids (x ∷ xs)
    → HasRoom c (suc (length xs))
    → Finished t m n a b c (execute t (x ∷ xs) []) (suc (length xs))
first_rest t m n x xs a b c h hb ids room =
    let i = h.it in
    let g : ltb a.index_it m ≡ true = ground arith in
    let f : ltb b.index_it n ≡ false = ground arith in
    elim (Bool-cases t.push_first_remainder) [
      | inl p ↦
          let e : (if t.push_first_remainder then x ∷ xs else []) ≡ x ∷ xs = rw p refl in
          rw (execute-cons_nil t x xs, e)
            (record {
              last = x;
              result = rw (p, g) (push_remainder-pushed m a x xs c h room);
              ids = ids;
              count = omega arith;
            })
      | inr p ↦
          let e : (if t.push_first_remainder then x ∷ xs else []) ≡ [] = rw p refl in
          rw (execute-cons_nil t x xs, e) (nothing t m n a b c (suc (length xs)) (ground arith))
    ]

second_rest :
    (t : SetOpTraits) (m n y : ℕ) (ys : List ℕ) (a b : Side) (c : DeltaCreator)
    → a.index_it ≡ m
    → Holds n b y ys
    → Ids (y ∷ ys)
    → HasRoom c (suc (length ys))
    → Finished t m n a b c (execute t [] (y ∷ ys)) (suc (length ys))
second_rest t m n y ys a b c ha h ids room =
    let i = h.it in
    let g : ltb b.index_it n ≡ true = ground arith in
    let f : ltb a.index_it m ≡ false = ground arith in
    let skip : (t.push_first_remainder && ltb a.index_it m) ≡ false = ground arith in
    elim (Bool-cases t.push_second_remainder) [
      | inl p ↦
          let e : (if t.push_second_remainder then y ∷ ys else []) ≡ y ∷ ys = rw p refl in
          rw (execute-nil_cons t y ys, e)
            (record {
              last = y;
              result = rw (skip, p, g) (push_remainder-pushed n b y ys c h room);
              ids = ids;
              count = omega arith;
            })
      | inr p ↦
          let e : (if t.push_second_remainder then y ∷ ys else []) ≡ [] = rw p refl in
          rw (execute-nil_cons t y ys, e) (nothing t m n a b c (suc (length ys)) (ground arith))
    ]

stopped_rest :
    (t : SetOpTraits) (m n : ℕ) (xs ys zs xs' ys' : List ℕ) (a b : Side) (c : DeltaCreator)
    → Merged t m n xs ys a b zs xs' ys'
    → HasRoom c (length xs' + length ys')
    → Finished t m n a b c (execute t xs' ys') (length xs' + length ys')
stopped_rest t m n xs ys zs [] [] a b c g room =
    let p = g.first in
    let q = g.second in
    let f : ltb a.index_it m ≡ false = ground arith in
    let e : ltb b.index_it n ≡ false = ground arith in
    rw (execute-nil_nil t) (nothing t m n a b c 0 (ground arith))
stopped_rest t m n xs ys zs (x ∷ xs') [] a b c g room =
    let z : suc (length xs') + 0 ≡ suc (length xs') = omega arith in
    rw z (first_rest t m n x xs' a b c g.first g.second g.first_ids (rw z at room))
stopped_rest t m n xs ys zs [] (y ∷ ys') a b c g room =
    let z : 0 + suc (length ys') ≡ suc (length ys') = omega arith in
    rw z (second_rest t m n y ys' a b c g.first g.second g.second_ids (rw z at room))
stopped_rest t m n xs ys zs (x ∷ xs') (y ∷ ys') a b c g room = elim g.one_empty [
  | inl e ↦ absurd (ground arith)
  | inr e ↦ absurd (ground arith)
]

finish-joined :
    (t : SetOpTraits) (m n : ℕ) (a b : Side) (c r : DeltaCreator) (zs rest : List ℕ) (last : ℕ)
    → finish t m n a b (pushed c zs)
      ≡ flush_index (record (pushed (pushed c zs) rest) { prev = last })
    → flush_index (record (pushed c (zs ++ rest)) { prev = last }) ≡ some r
    → finish t m n a b (pushed c zs) ≡ some r
finish-joined t m n a b c r zs rest last e f =
    e
    ∙ ap (λ (p : DeltaCreator). flush_index (record p { prev = last })) (pushed-pushed c zs rest)
    ∙ f

-- `a` and `b` are valid indexes of the ids `xs` and `ys`: not empty, of 32 bits, and fewer than 2 ^ 28
-- together. genericOp does not throw, and the index it returns has the ids, in their order, that
-- the generic merge pushes for `xs` and `ys`.
pub put_into-generic_op :
    (t : SetOpTraits) (a b : DeltaIndex) (x y : ℕ) (xs ys : List ℕ)
    → IsIndexOf a (x ∷ xs)
    → IsIndexOf b (y ∷ ys)
    → Ids (x ∷ xs)
    → Ids (y ∷ ys)
    → length (x ∷ xs) + length (y ∷ ys) < 2 ^ 28
    → (c : DeltaCreator) × (i : DeltaIndex) × (generic_op t a b ≡ some c)
      × (get_private_index c ≡ some i)
      × (i.size ≡ length (execute t (x ∷ xs) (y ∷ ys)))
      × (put_into i ≡ some (execute t (x ∷ xs) (y ∷ ys)))
unfolding generic_op
put_into-generic_op t a b x y xs ys ha hb (hx, ix) (hy, iy) few =
    let whole = suc (length xs) + suc (length ys) in
    let na = ha.size in
    let nb = hb.size in
    let room : HasRoom created whole = record {
      at_end = omega arith;
      room = omega arith;
      few = omega arith;
    } in
    let (sa, ra, ka) = start-Holds a x xs ha hx in
    let (sb, rb, kb) = start-Holds b y ys hb hy in
    let fuel = a.size + b.size + 1 in
    let (a', b', zs, xs', ys', rm, g) =
      merge_loop-Merged fuel t a.size b.size (x ∷ xs) (y ∷ ys) sa sb created ka kb (hx, ix) (hy, iy)
        room (omega arith) in
    let le = g.count in
    let left = length xs' + length ys' in
    let room' = pushed-HasRoom created zs whole left room (omega arith) in
    let d =
      stopped_rest t a.size b.size (x ∷ xs) (y ∷ ys) zs xs' ys' a' b' (pushed created zs) g room' in
    let rest = execute t xs' ys' in
    let lr = d.count in
    let (c, i, rf, o, n, r) =
      finish-pushed [] 0 0 0 refl (zs ++ rest) d.last (Ids-append zs rest g.pushed_ids d.ids)
        (omega (arith, length-append zs rest)) (omega (arith, length-append zs rest)) in
    (
      c,
      i,
      rw (create_index-created, ra, rb, rm)
          (finish-joined t a.size b.size a' b' created c zs rest d.last d.result rf),
      o,
      rw g.total n,
      rw g.total r,
    )
