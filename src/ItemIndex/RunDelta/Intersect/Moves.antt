-- ===== src/ItemIndex/RunDelta/Intersect/Moves.antt =====
-- Each move of the states is the same move of the lists of ids that they have left.
use sserialize.Base.{
  ℕ, zero, suc, true, false, ◌+◌, ◌^◌, ◌<◌, ◌≤◌, ◌≡◌, refl, ap, ◌∙◌, arith, ◌==◌, ltb, leb,
  if◌then◌else◌, Bool, ◌&&◌, ◌||◌,
}
use sserialize.Base.{List, [], ◌∷◌, length, some, All, Bool-cases, inl, inr}
use sserialize.ItemIndex.RunDelta.Cursor.{Cursor, next_state, Stands, IsCursor, next_state-IsCursor}
use sserialize.ItemIndex.RunDelta.Intersect.{
  States, Moved, all_valid, counted, next_each, find_max, move_till, move_each,
}
use sserialize.ItemIndex.RunDelta.Intersect.Lists.{
  IsNonempty, is_empty, head_is, drop_below, drop_each, heads_are, max_head, total, empties, tails,
}

-- A state with these ids left.
abbrev pub HasLeft : Cursor → List ℕ → Type 0
HasLeft c [] = c.valid ≡ false
HasLeft c (x ∷ xs) = Stands c x xs

abbrev pub HaveLeft : List Cursor → List (List ℕ) → Type 0
HaveLeft [] [] = Unit {0}
HaveLeft [] (l ∷ ls) = ⊥
HaveLeft (c ∷ cs) [] = ⊥
HaveLeft (c ∷ cs) (l ∷ ls) = HasLeft c l × HaveLeft cs ls

pub IsCursor-HasLeft : (b : ℕ) (c : Cursor) (l : List ℕ) → IsCursor b c l → HasLeft c l
IsCursor-HasLeft b c [] (v, e) = v
IsCursor-HasLeft b c (x ∷ xs) h = h

pub length-HaveLeft :
    (cs : List Cursor) (ls : List (List ℕ)) → HaveLeft cs ls → length cs ≡ length ls
length-HaveLeft [] [] h = refl
length-HaveLeft [] (l ∷ ls) h = elim h [ ]
length-HaveLeft (c ∷ cs) [] h = elim h [ ]
length-HaveLeft (c ∷ cs) (l ∷ ls) (h, hs) = ap suc (length-HaveLeft cs ls hs)

pub counted-HasLeft :
    (c : Cursor) (l : List ℕ) (n : ℕ)
    → HasLeft c l
    → 1 ≤ n
    → n < 2 ^ 32
    → counted c n + (if is_empty l then 1 else 0) ≡ n
unfolding counted
counted-HasLeft c [] n h le small = rw h (omega arith)
counted-HasLeft c (x ∷ xs) n h le small = rw h.is_valid (omega arith)

move_till-next :
    (fuel id : ℕ) (c c' : Cursor)
    → c.valid ≡ true
    → ltb c.id id ≡ true
    → next_state c ≡ some c'
    → move_till (suc fuel) id c ≡ move_till fuel id c'
unfolding move_till
move_till-next fuel id c c' v l e = ground arith

-- A state is moved behind the ids that are lower.
move_till-drop :
    (fuel id : ℕ) (c : Cursor) (x : ℕ) (xs : List ℕ)
    → Stands c x xs
    → suc (length xs) < fuel
    → (c' : Cursor) × (move_till fuel id c ≡ some c')
      × HasLeft c' (drop_below id (x ∷ xs))
      × ((c'.id == id) ≡ head_is id (drop_below id (x ∷ xs)))
unfolding move_till
move_till-drop zero id c x xs h f = absurd (omega arith)
move_till-drop (suc zero) id c x xs h f = absurd (omega arith)
move_till-drop (suc (suc fuel)) id c x [] h f =
    let v = h.is_valid in
    let i = h.at_id in
    let (c', e, (v', i')) = next_state-IsCursor c x [] h in
    elim (Bool-cases (ltb x id)) [
      | inl l ↦ rw l (c', ground arith, v', ground arith)
      | inr l ↦ rw l (c, ground arith, h, rw i refl)
    ]
move_till-drop (suc (suc fuel)) id c x (y ∷ ys) h f =
    let v = h.is_valid in
    let i = h.at_id in
    let (c', e, h') = next_state-IsCursor c x (y ∷ ys) h in
    let (c2, e2, h2, i2) = move_till-drop (suc fuel) id c' y ys h' (omega arith) in
    elim (Bool-cases (ltb x id)) [
      | inl l ↦ rw l (c2, move_till-next (suc fuel) id c c' v (ground arith) e ∙ e2, h2, i2)
      | inr l ↦ rw l (c, ground arith, h, rw i refl)
    ]

-- All states are moved, counted and compared.
pub move_each-drop :
    (fuel id : ℕ) (cs : List Cursor) (ls : List (List ℕ)) (n : ℕ) (all one : Bool)
    → HaveLeft cs ls
    → All IsNonempty ls
    → total ls < fuel
    → length ls ≤ n
    → n < 2 ^ 32
    → (m : Moved) × (move_each fuel id cs n all one ≡ some m)
      × HaveLeft m.states (drop_each id ls)
      × (m.valid_counter + empties (drop_each id ls) ≡ n)
      × (m.all_equal ≡ (all && heads_are id (drop_each id ls)))
unfolding move_each
move_each-drop fuel id [] [] n all one h ns f le small = (_, refl, tt, omega arith, ground arith)
move_each-drop fuel id [] (l ∷ ls) n all one h ns f le small = elim h [ ]
move_each-drop fuel id (c ∷ cs) [] n all one h ns f le small = elim h [ ]
move_each-drop fuel id (c ∷ cs) ([] ∷ ls) n all one h (k, ns) f le small = absurd (omega arith)
move_each-drop fuel id (c ∷ cs) ((x ∷ xs) ∷ ls) n all one (h, hs) (k, ns) f le small =
    let (c', e, h', i) = move_till-drop fuel id c x xs h (omega arith) in
    let l = drop_below id (x ∷ xs) in
    let q = counted-HasLeft c' l n h' (omega arith) small in
    let z : (if is_empty l then 1 else 0) ≤ 1 = ground arith in
    let (m, r, hm, cm, am) =
      move_each-drop fuel id cs ls (counted c' n) (all && c'.id == id) (one || c'.id == id) hs ns
        (omega arith) (omega arith) (omega arith) in
    (
      record m { states = c' ∷ m.states },
      rw (e, r) refl,
      (h', hm),
      omega arith,
      am ∙ (rw i (ground arith)),
    )

-- All states are moved by one id.
pub next_each-tails :
    (cs : List Cursor) (ls : List (List ℕ)) (n : ℕ)
    → HaveLeft cs ls
    → All IsNonempty ls
    → length ls ≤ n
    → n < 2 ^ 32
    → (s : States) × (next_each cs n ≡ some s)
      × HaveLeft s.states (tails ls)
      × (s.valid_counter + empties (tails ls) ≡ n)
unfolding next_each
next_each-tails [] [] n h ns le small = (_, refl, tt, omega arith)
next_each-tails [] (l ∷ ls) n h ns le small = elim h [ ]
next_each-tails (c ∷ cs) [] n h ns le small = elim h [ ]
next_each-tails (c ∷ cs) ([] ∷ ls) n h (k, ns) le small = absurd (omega arith)
next_each-tails (c ∷ cs) ((x ∷ xs) ∷ ls) n (h, hs) (k, ns) le small =
    let (c', e, h') = next_state-IsCursor c x xs h in
    let h2 = IsCursor-HasLeft x c' xs h' in
    let q = counted-HasLeft c' xs n h2 (omega arith) small in
    let z : (if is_empty xs then 1 else 0) ≤ 1 = ground arith in
    let (s, r, hm, cm) = next_each-tails cs ls (counted c' n) hs ns (omega arith) (omega arith) in
    (record s { states = c' ∷ s.states }, rw (e, r) refl, (h2, hm), omega arith)

-- findMax gives the greatest of the ids at which the states stand.
pub find_max-max_head :
    (cs : List Cursor) (ls : List (List ℕ)) (m : ℕ)
    → HaveLeft cs ls
    → All IsNonempty ls
    → find_max cs m ≡ max_head ls m
unfolding find_max
find_max-max_head [] [] m h ns = refl
find_max-max_head [] (l ∷ ls) m h ns = elim h [ ]
find_max-max_head (c ∷ cs) [] m h ns = elim h [ ]
find_max-max_head (c ∷ cs) ([] ∷ ls) m h (k, ns) = absurd (omega arith)
find_max-max_head (c ∷ cs) ((x ∷ xs) ∷ ls) m (h, hs) (k, ns) =
    rw (h.is_valid, h.at_id) (find_max-max_head cs ls (if leb m x then x else m) hs ns)

pub all_valid-empties :
    (s : States) (ls : List (List ℕ))
    → HaveLeft s.states ls
    → s.valid_counter + empties ls ≡ length ls
    → all_valid s ≡ (empties ls == 0)
unfolding all_valid
all_valid-empties s ls h e = ground (arith, length-HaveLeft s.states ls h)
