-- ===== src/ItemIndex/Delta/Push.antt =====
-- Pushes one after the other, and a remainder that is copied as it is.
use sserialize.Base.{
  ℕ, suc, true, false, ◌+◌, ◌-◌, ◌*◌, ◌%◌, ◌^◌, ◌<◌, ◌≤◌, ◌≡◌, refl, sym, ◌∙◌, arith, List, [], ◌∷◌,
  ◌++◌, append_assoc, append-nil,
}
use sserialize.Base.{Bool, ltb, length, length-append, some, All}
use sserialize.Pack.Varint.Groups.{groups}
use sserialize.Storage.Adapter.{window, shrink_to_get_ptr}
use sserialize.Storage.Adapter.Valid.{IsValid}
use sserialize.Storage.Adapter.Shrink.{shrink_window}
use sserialize.Storage.Stream.Append.{IsAtEnd, appended, appended-IsAtEnd, put_data-appended}
use sserialize.Storage.Stream.Read.{unread, advanced, advanced-unread, get_vl_packed_uint32-groups}
use sserialize.RleStream.Flush.{appended-appended, appended-nil}
use sserialize.ItemIndex.SetOp.{push_if}
use sserialize.ItemIndex.Delta.{
  DeltaCreator, Side, push_back, push_when, step_side, flush_index, flush_with_data, push_remainder,
}
use sserialize.ItemIndex.Delta.Encode.{deltas, length-deltas, last_id, pushed, push_back-groups}

deltas-append :
    (xs ys : List ℕ) (p : ℕ) → deltas p (xs ++ ys) ≡ deltas p xs ++ deltas (last_id p xs) ys
unfolding deltas
deltas-append [] ys p = refl
deltas-append (x ∷ xs) ys p = rw (deltas-append xs ys x, append_assoc) refl

last_id-append : (xs ys : List ℕ) (p : ℕ) → last_id p (xs ++ ys) ≡ last_id (last_id p xs) ys
last_id-append [] ys p = refl
last_id-append (x ∷ xs) ys p = last_id-append xs ys x

pub pushed-pushed :
    (c : DeltaCreator) (xs ys : List ℕ) → pushed (pushed c xs) ys ≡ pushed c (xs ++ ys)
pushed-pushed c xs ys =
    let n : c.count + length xs + length ys ≡ c.count + length (xs ++ ys) =
      omega (arith, length-append xs ys) in
    rw
      (
        appended-appended c.dest (deltas c.prev xs) (deltas (last_id c.prev xs) ys),
        n,
        deltas-append xs ys c.prev,
        last_id-append xs ys c.prev,
      )
      refl

pub pushed-nil : (c : DeltaCreator) → pushed c [] ≡ c
unfolding deltas
pushed-nil c = let n : c.count + 0 ≡ c.count = omega arith in rw (appended-nil c.dest, n) refl

pub pushed-IsAtEnd : (c : DeltaCreator) (xs : List ℕ) → IsAtEnd c.dest → IsAtEnd (pushed c xs).dest
pushed-IsAtEnd c xs a = appended-IsAtEnd c.dest (deltas c.prev xs) a

-- There is room for so many more ids.
pub record HasRoom (c : DeltaCreator) (n : ℕ) : Type 0 where
  pub at_end : IsAtEnd c.dest
  pub room : c.dest.off_set + c.dest.len + 5 * n + 10 < 2 ^ 63
  pub few : c.count + n < 2 ^ 32

pub pushed-HasRoom :
    (c : DeltaCreator) (xs : List ℕ) (n m : ℕ)
    → HasRoom c n
    → length xs + m ≤ n
    → HasRoom (pushed c xs) m
unfolding appended
pushed-HasRoom c xs n m h le =
    let (lo, hi) = length-deltas c.prev xs in
    record {
      at_end = pushed-IsAtEnd c xs h.at_end;
      room = (let r = h.room in omega arith);
      few = (let f = h.few in omega arith);
    }

push_back-pushed :
    (c : DeltaCreator) (id : ℕ) → HasRoom c 1 → push_back c id ≡ some (pushed c (id ∷ []))
unfolding deltas
push_back-pushed c id h =
    let r = h.room in
    let f = h.few in
    rw
      (
        push_back-groups c id h.at_end (omega arith) (omega arith),
        append-nil (groups 5 ((id + 2 ^ 32 - c.prev) % 2 ^ 32)),
      )
      refl

pub push_when-pushed :
    (b : Bool) (c : DeltaCreator) (id : ℕ)
    → HasRoom c 1
    → push_when b c id ≡ some (pushed c (push_if b id []))
unfolding push_when push_if
push_when-pushed true c id h = push_back-pushed c id h
push_when-pushed false c id h = rw (pushed-nil c) refl

-- A side that stands at the first of these ids.
pub record Holds (m : ℕ) (s : Side) (x : ℕ) (xs : List ℕ) : Type 0 where
  pub valid : IsValid s.reader
  pub small : s.reader.len < 2 ^ 63
  pub item : s.item_id ≡ x
  pub it : s.index_it + suc (length xs) ≡ m
  pub ahead : unread s.reader ≡ deltas x xs

abbrev pub IsAt : ℕ → Side → List ℕ → Type 0
IsAt m s [] = s.index_it ≡ m
IsAt m s (x ∷ xs) = Holds m s x xs

abbrev pub Ids : List ℕ → Type 0
Ids xs = All (λ id. id < 2 ^ 32) xs

pub step_side-IsAt :
    (m : ℕ) (s : Side) (x : ℕ) (xs : List ℕ)
    → Holds m s x xs
    → x < 2 ^ 32
    → Ids xs
    → (t : Side) × (step_side m s ≡ some t) × IsAt m t xs
unfolding step_side
step_side-IsAt m s x [] h hx ids =
    let i = h.it in
    let e : ltb (s.index_it + 1) m ≡ false = ground arith in
    (record s { index_it = s.index_it + 1 }, rw e refl, omega arith)
step_side-IsAt m s x (y ∷ ys) h hx (hy, ids) =
    let i = h.it in
    let d = (y + 2 ^ 32 - x) % 2 ^ 32 in
    let g = groups 5 d in
    let e : ltb (s.index_it + 1) m ≡ true = ground arith in
    let u : unread s.reader ≡ g ++ deltas y ys = h.ahead ∙ (unfold deltas in refl) in
    let (v, w) = advanced-unread s.reader h.valid h.small g (deltas y ys) u in
    let r = get_vl_packed_uint32-groups s.reader h.valid h.small (deltas y ys) d (omega arith) u in
    let back : (x + d) % 2 ^ 32 ≡ y = omega arith in
    let t : Side = record {
      reader = advanced s.reader (length g);
      index_it = s.index_it + 1;
      item_id = y;
    } in
    let k : Holds m t y ys = record {
      valid = v;
      small = (unfold advanced in h.small);
      item = refl;
      it = omega arith;
      ahead = w;
    } in
    (t, rw (e, r, h.item, back) refl, k)

-- The rest of a side is pushed by its first id and its bytes.
pub push_remainder-pushed :
    (m : ℕ) (s : Side) (x : ℕ) (xs : List ℕ) (c : DeltaCreator)
    → Holds m s x xs
    → HasRoom c (suc (length xs))
    → push_remainder c m s ≡ flush_index (record (pushed c (x ∷ xs)) { prev = x })
unfolding push_remainder flush_with_data
push_remainder-pushed m s x xs c h room =
    let i = h.it in
    let q : HasRoom c 1 = record {
      at_end = room.at_end;
      room = (let r = room.room in omega arith);
      few = (let f = room.few in omega arith);
    } in
    let k = pushed-HasRoom c (x ∷ []) (suc (length xs)) (length xs) room (omega arith) in
    let (lo, hi) = length-deltas x xs in
    let w : window (shrink_to_get_ptr s.reader) ≡ deltas x xs =
      (shrink_window s.reader h.valid).0 ∙ h.ahead in
    let p =
      put_data-appended (pushed c (x ∷ [])).dest k.at_end (deltas x xs)
        (let r = k.room in omega arith) in
    let n : (c.count + 1 + (m - (s.index_it + 1))) % 2 ^ 32 ≡ c.count + suc (length xs) =
      (let f = room.few in omega arith) in
    let d : deltas c.prev (x ∷ []) ++ deltas x xs ≡ deltas c.prev (x ∷ xs) =
      sym (deltas-append (x ∷ []) xs c.prev) in
    rw
      (
        h.item,
        push_back-pushed c x q,
        w,
        p,
        appended-appended c.dest (deltas c.prev (x ∷ [])) (deltas x xs),
        d,
        n,
      )
      refl
