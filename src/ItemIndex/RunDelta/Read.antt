-- ===== src/ItemIndex/RunDelta/Read.antt =====
-- The bytes of runs are read as the ids of the runs.
use sserialize.Base.{
  ℕ, zero, suc, true, false, ◌+◌, ◌-◌, ◌*◌, ◌/◌, ◌^◌, ◌<◌, ◌≤◌, ◌≡◌, refl, ap, ◌∙◌, arith, ◌==◌,
  ltb, bit_and,
}
use sserialize.Base.{
  List, [], ◌∷◌, ◌++◌, append_assoc, length, length-append, Option, some, ◌>>=◌, All,
}
use sserialize.Pack.Varint.Groups.{groups}
use sserialize.Pack.Signed.RoundTrip.{and_one}
use sserialize.Storage.Adapter.{Adapter, window}
use sserialize.Storage.Adapter.Valid.{IsValid}
use sserialize.Storage.Stream.Read.{unread, advanced, advanced-unread, get_vl_packed_uint32-groups}
use sserialize.Storage.Stream.{get_vl_packed_uint32, get_vl, range_check, unpack_buffer}
use sserialize.Pack.Unpack.{up_v}
use sserialize.Base.{ℤ, none, length-drop, length-take, drop, append-nil}
use sserialize.ItemIndex.RunDelta.{RunIndex, run_ids, run_end, read_runs, put_into_runs}
use sserialize.ItemIndex.RunDelta.Runs.{
  Run, IsSmall, run_bytes, runs_bytes, runs_ids, length-run_ids, nothing, rounds, rounds-le,
  run_bytes_many,
}

-- A reader with these bytes ahead. Where its put pointer stands does not matter: shrinkToGetPtr can
-- leave it behind the window.
abbrev pub rewound : Adapter → Adapter
rewound d = record d { put_ptr = 0 }

pub record IsOn (d : Adapter) (bytes : List ℕ) : Type 0 where
  pub valid : IsValid (rewound d)
  pub small : d.len < 2 ^ 63
  pub ahead : unread d ≡ bytes

pub length-ahead : (d : Adapter) (bytes : List ℕ) → IsOn d bytes → d.len ≡ d.get_ptr + length bytes
length-ahead d bytes o =
    let v = o.valid in
    omega (
      arith,
      ap (λ (t : List ℕ). length t) o.ahead,
      length-drop d.get_ptr (window d),
      length-take d.len (drop d.off_set d.storage),
      length-drop d.off_set d.storage,
    )

get_vl-rewound {ℓ} :
    {A : Type ℓ} (d : Adapter) (u : Option (A × ℤ)) (a : A) (n : ℕ)
    → get_vl (rewound d) u ≡ some (a, advanced (rewound d) n)
    → get_vl d u ≡ some (a, advanced d n)
unfolding get_vl range_check advanced
get_vl-rewound d none a n h = ground arith
get_vl-rewound d (some r) a n h = ground arith

pub next_word :
    (d : Adapter) (w : ℕ) (more : List ℕ)
    → w < 2 ^ 32
    → IsOn d (groups 5 w ++ more)
    → (get_vl_packed_uint32 d ≡ some (w, advanced d (length (groups 5 w))))
      × IsOn (advanced d (length (groups 5 w))) more
unfolding get_vl_packed_uint32
next_word d w more h o =
    let n = length (groups 5 w) in
    let (v, e) = advanced-unread (rewound d) o.valid o.small (groups 5 w) more o.ahead in
    let r = get_vl_packed_uint32-groups (rewound d) o.valid o.small more w h o.ahead in
    (
      get_vl-rewound d (up_v 32 (unpack_buffer d 5 d.get_ptr)) w n (unfold unpack_buffer in r),
      unfold advanced in record { valid = v; small = o.small; ahead = e },
    )

module _ (fuel m n v : ℕ) (d : Adapter) (prev : ℕ) (more : List ℕ) (s : IsSmall (n, v))
    (fits : n ≤ m) (pos : 1 ≤ m) where
  -- What a round leaves for the later rounds.
  abbrev Continues : Adapter → Type 0
  Continues d' =
      (read_runs (suc fuel) m d prev ≡ (
        read_runs fuel (m - n) d' (run_end n v prev) >>= λ rest.
        some (run_ids n v prev ++ rest.0, rest.1)))
      × IsOn d' more

  read_single : n ≡ 1 → IsOn d (groups 5 (v * 2) ++ more) → (d' : Adapter) × Continues d'
  unfolding read_runs
  read_single e o =
      let (g, o') = next_word d (v * 2) more (omega arith) o in
      let z : (m == 0) ≡ false = ground arith in
      let b : (bit_and (v * 2) 0x1 == 0) ≡ true = ground (arith, and_one (v * 2)) in
      let h : v * 2 / 2 ≡ v = omega arith in
      (advanced d (length (groups 5 (v * 2))), (rw e (unfold run_ids run_end in ground arith), o'))

  read_run :
      IsOn d (groups 5 (n * 2 + 1) ++ (groups 5 (v * 2) ++ more)) → (d' : Adapter) × Continues d'
  unfolding read_runs
  read_run o =
      let (g, o') = next_word d (n * 2 + 1) (groups 5 (v * 2) ++ more) (omega arith) o in
      let d1 = advanced d (length (groups 5 (n * 2 + 1))) in
      let (g', o'') = next_word d1 (v * 2) more (omega arith) o' in
      let z : (m == 0) ≡ false = ground arith in
      let b : (bit_and (n * 2 + 1) 0x1 == 0) ≡ false = ground (arith, and_one (n * 2 + 1)) in
      let h : v * 2 / 2 ≡ v = omega arith in
      let k : (n * 2 + 1) / 2 ≡ n = omega arith in
      let l : ltb m n ≡ false = ground arith in
      (advanced d1 (length (groups 5 (v * 2))), (ground arith, o''))

read_round :
    (fuel m n v : ℕ) (d : Adapter) (prev : ℕ) (more : List ℕ) (s : IsSmall (suc n, v))
    (fits : suc n ≤ m)
    → IsOn d (run_bytes (suc n, v) ++ more)
    → (d' : Adapter) × Continues fuel m (suc n) v d prev more s fits (omega arith) d'
read_round fuel m zero v d prev more s fits o =
    read_single fuel m 1 v d prev more s fits (omega arith) refl (unfold run_bytes in o)
read_round fuel m (suc n) v d prev more s fits o =
    read_run fuel m (suc (suc n)) v d prev more s fits (omega arith)
      (rw (run_bytes_many n v, append_assoc) at o)

-- With one round for each run that is not empty and one more, the bytes of runs are read as their ids.
pub read_runs-runs :
    (rs : List Run) (fuel : ℕ) (d : Adapter) (prev : ℕ) (more : List ℕ)
    → All IsSmall rs
    → rounds rs < fuel
    → IsOn d (runs_bytes rs ++ more)
    → (e : Adapter) × (read_runs fuel (length (runs_ids prev rs)) d prev
        ≡ some (runs_ids prev rs, e))
      × IsOn e more
read_runs-runs [] (suc fuel) d prev more all h o = (d, unfold read_runs in refl, o)
read_runs-runs rs zero d prev more all h o = absurd (omega arith)
read_runs-runs ((zero, v) ∷ rs) (suc fuel) d prev more (s, all) h o =
    let (b, i, e) = nothing v prev in
    rw (i, e) (read_runs-runs rs (suc fuel) d prev more all (omega arith) (rw b at o))
read_runs-runs ((suc n, v) ∷ rs) (suc fuel) d prev more (s, all) h o =
    let ids = run_ids (suc n) v prev in
    let rest = runs_ids (run_end (suc n) v prev) rs in
    let m = length (ids ++ rest) in
    let c : m ≡ suc n + length rest =
      omega (arith, length-append ids rest, length-run_ids (suc n) v prev) in
    let (d', (r, o')) =
      read_round fuel m n v d prev (runs_bytes rs ++ more) s (omega arith) (rw append_assoc at o) in
    let (e, q, p) = read_runs-runs rs fuel d' (run_end (suc n) v prev) more all (omega arith) o' in
    let k : m - suc n ≡ length rest = omega arith in (e, r ∙ rw (k, q) refl, p)

-- A valid run-length index of these ids.
pub record IsRunIndexOf (i : RunIndex) (ids : List ℕ) : Type 0 where
  pub runs : List Run
  pub small : All IsSmall runs
  pub stored : ids ≡ runs_ids 0 runs
  pub size : i.size ≡ length ids
  pub at_start : i.body.get_ptr ≡ 0
  pub on : IsOn i.body (runs_bytes runs)

-- putInto writes the ids of a valid index, and as many rounds as its bytes are enough.
pub put_into_runs-IsRunIndexOf :
    (i : RunIndex) (ids : List ℕ) → IsRunIndexOf i ids → put_into_runs i ≡ some ids
unfolding put_into_runs
put_into_runs-IsRunIndexOf i ids h =
    let o = h.on in
    let l = length-ahead i.body (runs_bytes h.runs) o in
    let r = rounds-le h.runs in
    let o' : IsOn i.body (runs_bytes h.runs ++ []) = rw append-nil o in
    let (e, g, _) = read_runs-runs h.runs (i.body.len + 1) i.body 0 [] h.small (omega arith) o' in
    let size : i.size ≡ length (runs_ids 0 h.runs) =
      h.size ∙ ap (λ (t : List ℕ). length t) h.stored in
    rw (size, g, ← h.stored) refl
