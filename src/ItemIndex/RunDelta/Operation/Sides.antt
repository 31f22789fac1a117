-- ===== src/ItemIndex/RunDelta/Operation/Sides.antt =====
-- A side of genericOp stands at an id of its index: where it starts, and where a new word leads.
use sserialize.Base.{
  ℕ, zero, suc, true, false, ◌+◌, ◌-◌, ◌*◌, ◌/◌, ◌%◌, ◌^◌, ◌<◌, ◌≤◌, ◌≡◌, refl, sym, ap, ◌∙◌, arith,
  ◌==◌, ltb, bit_and, subst,
}
use sserialize.Base.{
  List, [], ◌∷◌, ◌++◌, append_assoc, append-nil, length, length-append, some, ◌>>=◌, All,
}
use sserialize.Pack.Varint.Groups.{groups, length-groups-pos}
use sserialize.Pack.Signed.RoundTrip.{and_one}
use sserialize.Storage.Adapter.{Adapter, reset_get_ptr}
use sserialize.Storage.Stream.Read.{advanced}
use sserialize.ItemIndex.RunDelta.{RunIndex, run_ids, run_end}
use sserialize.ItemIndex.RunDelta.Runs.{
  run_bytes_pos, Run, IsSmall, run_bytes, runs_bytes, runs_ids, nothing, run_bytes_many,
}
use sserialize.ItemIndex.RunDelta.Read.{IsRunIndexOf, IsOn, next_word}
use sserialize.ItemIndex.RunDelta.Cursor.{something_left, nothing_left}
use sserialize.ItemIndex.RunDelta.Operation.{RunSide, run_word, get_next, start_side}

-- A side at the id `x`, with the ids `xs` behind it, of an index with `n` ids.
pub record Leads (n : ℕ) (s : RunSide) (x : ℕ) (xs : List ℕ) : Type 0 where
  pub at_id : s.id ≡ x
  pub it : s.index_it + suc (length xs) ≡ n
  pub small_id : s.id < 2 ^ 32
  pub small_rle : s.rle < 2 ^ 31
  pub small_val : s.val < 2 ^ 31
  pub runs : List Run
  pub small : All IsSmall runs
  pub on : IsOn s.reader (runs_bytes runs)
  pub later : xs ≡ run_ids (s.rle - 1) s.val x ++ runs_ids (run_end (s.rle - 1) s.val x) runs

-- A side with these ids left.
abbrev pub IsSide : ℕ → RunSide → List ℕ → Type 0
IsSide n s [] = s.index_it ≡ n
IsSide n s (x ∷ xs) = Leads n s x xs

-- The difference is added, and the position is `i`.
abbrev pub moved : ℕ → RunSide → RunSide
moved i s = record s { id = (s.id + s.val) % 2 ^ 32; index_it = i }

module _ (s : RunSide) (v : ℕ) (hv : v < 2 ^ 31) (more : List ℕ) where
  get_next-single :
      IsOn s.reader (groups 5 (v * 2) ++ more)
      → (d : Adapter) × (get_next s ≡ some (record s { reader = d; val = v })) × IsOn d more
  unfolding get_next run_word
  get_next-single o =
      let l = something_left s.reader (groups 5 (v * 2)) more (length-groups-pos 4 (v * 2)) o in
      let (g, o') = next_word s.reader (v * 2) more (omega arith) o in
      let b : (bit_and (v * 2) 0x1 == 0) ≡ true = ground (arith, and_one (v * 2)) in
      let h : v * 2 / 2 ≡ v = omega arith in
      (advanced s.reader (length (groups 5 (v * 2))), rw (l, g, b, h) refl, o')

  get_next-many :
      (n : ℕ)
      → n < 2 ^ 31
      → IsOn s.reader (groups 5 (n * 2 + 1) ++ (groups 5 (v * 2) ++ more))
      → (d : Adapter) × (get_next s ≡ some (record s { reader = d; val = v; rle = n }))
        × IsOn d more
  unfolding get_next run_word
  get_next-many n hn o =
      let w = n * 2 + 1 in
      let l =
        something_left s.reader (groups 5 w) (groups 5 (v * 2) ++ more) (length-groups-pos 4 w) o in
      let (g, o') = next_word s.reader w (groups 5 (v * 2) ++ more) (omega arith) o in
      let d = advanced s.reader (length (groups 5 w)) in
      let (g', o'') = next_word d (v * 2) more (omega arith) o' in
      let b : (bit_and w 0x1 == 0) ≡ false = ground (arith, and_one w) in
      let h : v * 2 / 2 ≡ v = omega arith in
      let k : w / 2 ≡ n = omega arith in
      (advanced d (length (groups 5 (v * 2))), rw (l, g, b, g', h, k) refl, o'')

get_next-nothing : (s : RunSide) → IsOn s.reader [] → get_next s ≡ some (record s { val = 0 })
unfolding get_next run_word
get_next-nothing s o = rw (nothing_left s.reader o) refl

-- Behind a run the next word is read, and leads to the first id of the later runs.
pub get_next-IsSide :
    (rs : List Run) (n i : ℕ) (s : RunSide)
    → s.rle ≡ 0
    → All IsSmall rs
    → IsOn s.reader (runs_bytes rs)
    → i + length (runs_ids s.id rs) ≡ n
    → (s' : RunSide) × (get_next s ≡ some s') × IsSide n (moved i s') (runs_ids s.id rs)
get_next-IsSide [] n i s e all o it = (record s { val = 0 }, get_next-nothing s o, omega arith)
get_next-IsSide ((zero, v) ∷ rs) n i s e (h, all) o it =
    let (b, j, f) = nothing v s.id in
    rw (j, f) (get_next-IsSide rs n i s e all (rw b at o) (rw (j, f) at it))
get_next-IsSide ((suc zero, v) ∷ rs) n i s e (h, all) o it =
    let (d, g, o') = get_next-single s v h.1 (runs_bytes rs) (unfold run_bytes in o) in
    let x = (s.id + v) % 2 ^ 32 in
    let it' : i + suc (length (runs_ids x rs)) ≡ n = unfold run_ids run_end in it in
    (
      record s { reader = d; val = v },
      g,
      unfold run_ids run_end in
          record {
            at_id = refl;
            it = omega arith;
            small_id = omega arith;
            small_rle = omega arith;
            small_val = h.1;
            runs = rs;
            small = all;
            on = o';
            later = (let q : s.rle - 1 ≡ 0 = omega arith in rw q refl);
          },
    )
get_next-IsSide ((suc (suc m), v) ∷ rs) n i s e (h, all) o it =
    let (d, g, o') =
      get_next-many s v h.1 (runs_bytes rs) (suc (suc m)) h.0
        (rw (run_bytes_many m v, append_assoc) at o) in
    let x = (s.id + v) % 2 ^ 32 in
    let ys = run_ids (suc m) v x ++ runs_ids (run_end (suc m) v x) rs in
    let it' : i + suc (length ys) ≡ n = unfold run_ids run_end in it in
    (
      record s { reader = d; val = v; rle = suc (suc m) },
      g,
      unfold run_ids run_end in
          record {
            at_id = refl;
            it = omega arith;
            small_id = omega arith;
            small_rle = omega arith;
            small_val = h.1;
            runs = rs;
            small = all;
            on = o';
            later = (let q : suc (suc m) - 1 ≡ suc m = omega arith in rw q refl);
          },
    )

-- get_next does not look at the position.
pub get_next-index_it :
    (s : RunSide) (i : ℕ)
    → get_next (record s { index_it = i }) ≡ (get_next s >>= λ r. some (record r { index_it = i }))
unfolding get_next run_word
get_next-index_it s i = ground arith

pub get_next-keeps : (s s' : RunSide) → get_next s ≡ some s' → s'.index_it ≡ s.index_it
get_next-keeps s s' g =
    let p : some s' ≡ some (record s' { index_it = s.index_it }) =
      sym g ∙ get_next-index_it s s.index_it ∙ rw g refl in
    ground arith

get_next-id :
    (s : RunSide) (x : ℕ)
    → get_next (record s { id = x }) ≡ (get_next s >>= λ r. some (record r { id = x }))
unfolding get_next run_word
get_next-id s x = ground arith

get_next-keeps_id : (s s' : RunSide) → get_next s ≡ some s' → s'.id ≡ s.id
get_next-keeps_id s s' g =
    let p : some s' ≡ some (record s' { id = s.id }) = sym g ∙ get_next-id s s.id ∙ rw g refl in
    ground arith

start_side-get_next :
    (i : RunIndex)
    → ltb (reset_get_ptr i.body).get_ptr (reset_get_ptr i.body).len ≡ true
    → start_side i ≡ (
        get_next (record { reader = reset_get_ptr i.body; val = 0; rle = 0; id = 0; index_it = 0 })
        >>= λ s. some (record s { id = s.val; index_it = 0 }))
unfolding start_side get_next run_word
start_side-get_next i l = ground arith

runs_bytes-pos : (rs : List Run) (p : ℕ) → 1 ≤ length (runs_ids p rs) → 1 ≤ length (runs_bytes rs)
runs_bytes-pos [] p h = h
runs_bytes-pos ((zero, v) ∷ rs) p h =
    let (b, i, e) = nothing v p in rw b (runs_bytes-pos rs p (rw (i, e) at h))
runs_bytes-pos ((suc n, v) ∷ rs) p h =
    omega (arith, length-append (run_bytes (suc n, v)) (runs_bytes rs), run_bytes_pos n v)

-- genericOp starts at the first id of an index.
pub start_side-Leads :
    (i : RunIndex) (x : ℕ) (xs : List ℕ)
    → IsRunIndexOf i (x ∷ xs)
    → (s : RunSide) × (start_side i ≡ some s) × Leads i.size s x xs
unfolding start_side
start_side-Leads i x xs h =
    let d = reset_get_ptr i.body in
    let a = h.at_start in
    let o : IsOn d (runs_bytes h.runs) =
      unfold reset_get_ptr in
      subst (λ (g : ℕ). IsOn (record i.body { get_ptr = g }) (runs_bytes h.runs)) a h.on in
    let s0 : RunSide = record { reader = d; val = 0; rle = 0; id = 0; index_it = 0 } in
    let z = h.size in
    let n = ap (λ (t : List ℕ). length t) h.stored in
    let (s', g, k) = get_next-IsSide h.runs i.size 0 s0 refl h.small o (omega arith) in
    let keeps = get_next-keeps_id s0 s' g in
    let l : ltb d.get_ptr d.len ≡ true =
      something_left d (runs_bytes h.runs) [] (runs_bytes-pos h.runs 0 (omega arith))
        (rw append-nil o) in
    let k' : Leads i.size (moved 0 s') x xs =
      subst (λ (t : List ℕ). IsSide i.size (moved 0 s') t) (sym h.stored) k in
    let v = k'.small_val in
    let e : (s'.id + s'.val) % 2 ^ 32 ≡ s'.val = omega arith in
    (
      record s' { id = s'.val; index_it = 0 },
      start_side-get_next i l ∙ rw g refl,
      subst (λ (y : ℕ). Leads i.size (record s' { id = y; index_it = 0 }) x xs) e k',
    )
