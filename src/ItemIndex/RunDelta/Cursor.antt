-- ===== src/ItemIndex/RunDelta/Cursor.antt =====
-- SingleState of ItemIndexPrivateRleDE.cpp: a reader that stands at one id of an index.
use sserialize.Base.{
  ℕ, zero, suc, true, false, ◌+◌, ◌-◌, ◌*◌, ◌/◌, ◌%◌, ◌^◌, ◌<◌, ◌≤◌, ◌≡◌, refl, sym, ap, subst, ◌∙◌,
  arith, ◌==◌, ltb, Bool, bit_and, if◌then◌else◌,
}
use sserialize.Base.{
  List, [], ◌∷◌, ◌++◌, append_assoc, length, length-append, Option, some, ◌>>=◌, All, ◌⊎◌, inl, inr,
}
use sserialize.Pack.Varint.Groups.{groups, length-groups-pos}
use sserialize.Pack.Signed.RoundTrip.{and_one}
use sserialize.Storage.Adapter.{Adapter}
use sserialize.Storage.Stream.{get_vl_packed_uint32}
use sserialize.Storage.Stream.Read.{advanced}
use sserialize.ItemIndex.RunDelta.{run_ids, run_end}
use sserialize.ItemIndex.RunDelta.Runs.{
  Run, IsSmall, run_bytes, runs_bytes, runs_ids, nothing, run_bytes_many,
}
use sserialize.ItemIndex.RunDelta.Read.{IsOn, next_word, length-ahead}

pub record Cursor : Type 0 where
  pub reader : Adapter
  pub rle : ℕ
  pub diff : ℕ
  pub id : ℕ
  pub valid : Bool

unfoldable pub next_state : Cursor → Option Cursor
next_state c =
    if c.rle == 0
    then if ltb c.reader.get_ptr c.reader.len
      then (get_vl_packed_uint32 c.reader >>= λ r.
          if bit_and r.0 0x1 == 0
          then some (record {
            reader = r.1;
            rle = 0;
            diff = r.0 / 2;
            id = (c.id + r.0 / 2) % 2 ^ 32;
            valid = true;
          })
          else (get_vl_packed_uint32 r.1 >>= λ s. some (record {
            reader = s.1;
            rle = (r.0 / 2 + 2 ^ 32 - 1) % 2 ^ 32;
            diff = s.0 / 2;
            id = (c.id + s.0 / 2) % 2 ^ 32;
            valid = true;
          })))
      else some (record c { valid = false })
    else some (record c { id = (c.id + c.diff) % 2 ^ 32; rle = c.rle - 1 })

-- The constructor, which resets both pointers.
unfoldable pub cursor_of : Adapter → Option Cursor
cursor_of d = next_state (record {
  reader = record d { get_ptr = 0; put_ptr = 0 };
  rle = 0;
  diff = 0;
  id = 0;
  valid = true;
})

-- A cursor at `x`, with the ids `xs` behind it.
pub record Stands (c : Cursor) (x : ℕ) (xs : List ℕ) : Type 0 where
  pub is_valid : c.valid ≡ true
  pub at_id : c.id ≡ x
  pub small_rle : c.rle < 2 ^ 31
  pub runs : List Run
  pub small : All IsSmall runs
  pub on : IsOn c.reader (runs_bytes runs)
  pub later : xs ≡ run_ids c.rle c.diff x ++ runs_ids (run_end c.rle c.diff x) runs

-- A cursor with these ids left, or behind the last one and at `b` still.
abbrev pub IsCursor : ℕ → Cursor → List ℕ → Type 0
IsCursor b c [] = (c.valid ≡ false) × (c.id ≡ b)
IsCursor b c (x ∷ xs) = Stands c x xs

pub nothing_left : (d : Adapter) → IsOn d [] → ltb d.get_ptr d.len ≡ false
nothing_left d o = ground (arith, length-ahead d [] o)

pub something_left :
    (d : Adapter) (x more : List ℕ) → 1 ≤ length x → IsOn d (x ++ more) → ltb d.get_ptr d.len ≡ true
something_left d x more h o = ground (arith, length-ahead d (x ++ more) o, length-append x more)

module _ (c : Cursor) (e : c.rle ≡ 0) (rs : List Run) (all : All IsSmall rs) (v : ℕ)
    (small : v < 2 ^ 31) where
  next_single :
      IsOn c.reader (groups 5 (v * 2) ++ runs_bytes rs)
      → (c' : Cursor) × (next_state c ≡ some c')
        × Stands c' ((c.id + v) % 2 ^ 32) (runs_ids ((c.id + v) % 2 ^ 32) rs)
  unfolding next_state
  next_single o =
      let l =
        something_left c.reader (groups 5 (v * 2)) (runs_bytes rs) (length-groups-pos 4 (v * 2))
          o in
      let (g, o') = next_word c.reader (v * 2) (runs_bytes rs) (omega arith) o in
      let b : (bit_and (v * 2) 0x1 == 0) ≡ true = ground (arith, and_one (v * 2)) in
      let h : v * 2 / 2 ≡ v = omega arith in
      let x = (c.id + v) % 2 ^ 32 in
      (
        record {
          reader = advanced c.reader (length (groups 5 (v * 2)));
          rle = 0;
          diff = v;
          id = x;
          valid = true;
        },
        ground arith,
        record {
          is_valid = refl;
          at_id = refl;
          small_rle = omega arith;
          runs = rs;
          small = all;
          on = o';
          later = (unfold run_ids run_end in refl);
        },
      )

  next_run :
      (n : ℕ)
      → suc n < 2 ^ 31
      → IsOn c.reader (groups 5 (suc n * 2 + 1) ++ (groups 5 (v * 2) ++ runs_bytes rs))
      → (c' : Cursor) × (next_state c ≡ some c')
        × Stands c'
            ((c.id + v) % 2 ^ 32)
            (run_ids n v ((c.id + v) % 2 ^ 32) ++ runs_ids (run_end n v ((c.id + v) % 2 ^ 32)) rs)
  unfolding next_state
  next_run n hn o =
      let w = suc n * 2 + 1 in
      let l =
        something_left c.reader (groups 5 w) (groups 5 (v * 2) ++ runs_bytes rs)
          (length-groups-pos 4 w) o in
      let (g, o') = next_word c.reader w (groups 5 (v * 2) ++ runs_bytes rs) (omega arith) o in
      let d = advanced c.reader (length (groups 5 w)) in
      let (g', o'') = next_word d (v * 2) (runs_bytes rs) (omega arith) o' in
      let b : (bit_and w 0x1 == 0) ≡ false = ground (arith, and_one w) in
      let h : v * 2 / 2 ≡ v = omega arith in
      let k : (w / 2 + 2 ^ 32 - 1) % 2 ^ 32 ≡ n = omega arith in
      let x = (c.id + v) % 2 ^ 32 in
      (
        record {
          reader = advanced d (length (groups 5 (v * 2)));
          rle = n;
          diff = v;
          id = x;
          valid = true;
        },
        ground arith,
        record {
          is_valid = refl;
          at_id = refl;
          small_rle = omega arith;
          runs = rs;
          small = all;
          on = o'';
          later = refl;
        },
      )

-- Between two runs the next state stands at the first id of the later runs.
next_state-runs :
    (rs : List Run) (c : Cursor)
    → c.rle ≡ 0
    → All IsSmall rs
    → IsOn c.reader (runs_bytes rs)
    → (c' : Cursor) × (next_state c ≡ some c') × IsCursor c.id c' (runs_ids c.id rs)
next_state-runs [] c e all o =
    let l = nothing_left c.reader o in
    (record c { valid = false }, unfold next_state in ground arith, (refl, refl))
next_state-runs ((zero, v) ∷ rs) c e (s, all) o =
    let (b, i, f) = nothing v c.id in rw (i, f) (next_state-runs rs c e all (rw b at o))
next_state-runs ((suc zero, v) ∷ rs) c e (s, all) o =
    unfold run_ids run_end in next_single c e rs all v s.1 (unfold run_bytes in o)
next_state-runs ((suc (suc n), v) ∷ rs) c e (s, all) o =
    unfold run_ids run_end in
    next_run c e rs all v s.1 (suc n) s.0 (rw (run_bytes_many n v, append_assoc) at o)

ℕ-cases : (n : ℕ) → (n ≡ 0) ⊎ ((m : ℕ) × (n ≡ suc m))
ℕ-cases zero = inl refl
ℕ-cases (suc m) = inr (m, refl)

-- next moves a cursor to the next of its ids.
pub next_state-IsCursor :
    (c : Cursor) (x : ℕ) (xs : List ℕ)
    → Stands c x xs
    → (c' : Cursor) × (next_state c ≡ some c') × IsCursor x c' xs
next_state-IsCursor c x xs h = elim (ℕ-cases c.rle) [
  | inl e ↦
      let l : xs ≡ runs_ids x h.runs =
        h.later
        ∙ ap (λ (n : ℕ). run_ids n c.diff x ++ runs_ids (run_end n c.diff x) h.runs) e
        ∙ (unfold run_ids run_end in refl) in
      let r = next_state-runs h.runs c e h.small h.on in
      let r' =
        subst
          (λ (y : ℕ). (c' : Cursor) × (next_state c ≡ some c') × IsCursor y c' (runs_ids y h.runs))
          h.at_id r in
      subst (λ (ys : List ℕ). (c' : Cursor) × (next_state c ≡ some c') × IsCursor x c' ys) (sym l)
        r'
  | inr (m, e) ↦
      let x' = (x + c.diff) % 2 ^ 32 in
      let p = h.at_id in
      let k = h.small_rle in
      let z : (c.rle == 0) ≡ false = ground arith in
      let q : c.rle - 1 ≡ m = omega arith in
      let ys = run_ids m c.diff x' ++ runs_ids (run_end m c.diff x') h.runs in
      let l : xs ≡ x' ∷ ys =
        h.later
        ∙ ap (λ (n : ℕ). run_ids n c.diff x ++ runs_ids (run_end n c.diff x) h.runs) e
        ∙ (unfold run_ids run_end in refl) in
      let s : Stands (record c { id = (c.id + c.diff) % 2 ^ 32; rle = c.rle - 1 }) x' ys = record {
        is_valid = h.is_valid;
        at_id = omega arith;
        small_rle = omega arith;
        runs = h.runs;
        small = h.small;
        on = h.on;
        later =
            ap (λ (n : ℕ). run_ids n c.diff x' ++ runs_ids (run_end n c.diff x') h.runs) (sym q);
      } in
      (
        record c { id = (c.id + c.diff) % 2 ^ 32; rle = c.rle - 1 },
        unfold next_state in rw z refl,
        subst
            (λ (t : List ℕ).
              IsCursor x (record c { id = (c.id + c.diff) % 2 ^ 32; rle = c.rle - 1 }) t)
            (sym l) s,
      )
]

pub cursor_of-IsCursor :
    (d : Adapter) (rs : List Run)
    → d.get_ptr ≡ 0
    → IsOn d (runs_bytes rs)
    → All IsSmall rs
    → (c : Cursor) × (cursor_of d ≡ some c) × IsCursor 0 c (runs_ids 0 rs)
unfolding cursor_of
cursor_of-IsCursor d rs e o all =
    next_state-runs rs _ refl all (record {
      valid = (let v = o.valid in omega arith);
      small = o.small;
      ahead = rw e at o.ahead;
    })
