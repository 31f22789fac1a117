-- ===== src/ItemIndex/RunDelta/Write.antt =====
-- What the creator of a run-length index has written, and what it holds back.
use sserialize.Base.{
  ℕ, suc, true, false, ◌+◌, ◌-◌, ◌*◌, ◌%◌, ◌^◌, ◌<◌, ◌≤◌, ◌≡◌, refl, sym, ap, ◌∙◌, arith, ◌==◌,
  bit_or,
}
use sserialize.Base.{
  List, [], ◌∷◌, ◌++◌, append_assoc, append-nil, length, length-append, some, All, Bool-cases, inl,
  inr,
}
use sserialize.Base.Bits.{bit_or_fields}
use sserialize.Pack.Varint.Groups.{groups, length-groups-le}
use sserialize.Storage.Adapter.{Adapter, of_vector}
use sserialize.Storage.Stream.Append.{
  IsAtEnd, appended, appended-IsAtEnd, put_vl_packed_uint32-appended,
}
use sserialize.RleStream.Flush.{appended-appended, appended-nil}
use sserialize.ItemIndex.RunDelta.{RunCreator, run_ids, run_end, put_run, push_back_run, push_each}
use sserialize.ItemIndex.RunDelta.Runs.{
  Run, IsSmall, run_bytes, runs_bytes, runs_ids, runs_end, run_ids-snoc, run_end-snoc,
  runs_ids-snoc, runs_end-snoc, runs_bytes-snoc, IsSmall-snoc, length-runs_bytes, length-run_ids,
}

-- Some bytes at the start of a vector, and the put pointer behind them.
abbrev pub written : List ℕ → Adapter
written bytes = appended (of_vector []) bytes

pub written-IsAtEnd : (bytes : List ℕ) → IsAtEnd (written bytes)
unfolding of_vector
written-IsAtEnd bytes = appended-IsAtEnd (of_vector []) bytes (omega arith)

-- `put_run` appends the words of the pending run.
pub put_run-appended :
    (c : RunCreator)
    → IsAtEnd c.content
    → c.content.off_set + c.content.len + 20 < 2 ^ 63
    → IsSmall (c.rle, c.last_diff)
    → put_run c ≡ some (record c { content = appended c.content (run_bytes (c.rle, c.last_diff)) })
unfolding put_run run_bytes
put_run-appended c a room (sn, sd) =
    let w = c.last_diff * 2 in
    let v = c.rle * 2 + 1 in
    let ew : w % 2 ^ 32 ≡ w = omega arith in
    let ev : bit_or (c.rle * 2 % 2 ^ 32) 0x1 ≡ v =
      (let q : c.rle * 2 % 2 ^ 32 ≡ c.rle * 2 ^ 1 = omega arith in
        rw q (omega (arith, bit_or_fields 1 c.rle 1 (omega arith)))) in
    elim (Bool-cases (c.rle == 0)) [
      | inl none_left ↦ rw (none_left, appended-nil c.content) refl
      | inr some_left ↦ elim (Bool-cases (c.rle == 1)) [
        | inl single ↦
            rw
              (
                some_left,
                single,
                ew,
                put_vl_packed_uint32-appended c.content a w (omega arith) (omega arith),
              )
              refl
        | inr many ↦
            let le = length-groups-le 5 v in
            let p =
              put_vl_packed_uint32-appended (appended c.content (groups 5 v))
                (appended-IsAtEnd c.content (groups 5 v) a) w (omega arith)
                (unfold appended in omega arith) in
            rw
              (
                some_left,
                many,
                ew,
                ev,
                put_vl_packed_uint32-appended c.content a v (omega arith) (omega arith),
                p,
                appended-appended,
              )
              refl
      ]
    ]

-- The creator was given `ids`, and has written the runs `rs` of them.
pub record Holds (c : RunCreator) (rs : List Run) (ids : List ℕ) : Type 0 where
  pub content : c.content ≡ written (runs_bytes rs)
  pub small : All IsSmall rs
  pub small_diff : c.last_diff < 2 ^ 31
  pub pending : ids ≡ runs_ids 0 rs ++ run_ids c.rle c.last_diff (runs_end 0 rs)
  pub at_id : c.prev ≡ run_end c.rle c.last_diff (runs_end 0 rs)
  pub small_prev : c.prev < 2 ^ 32
  pub count : c.count ≡ length ids

pub Holds-lengths :
    (c : RunCreator) (rs : List Run) (ids : List ℕ)
    → Holds c rs ids
    → length (runs_bytes rs) + 10 * c.rle ≤ 10 * length ids
Holds-lengths c rs ids h =
    let m = runs_end 0 rs in
    omega (
      arith,
      ap (λ (t : List ℕ). length t) h.pending,
      length-append (runs_ids 0 rs) (run_ids c.rle c.last_diff m),
      length-run_ids c.rle c.last_diff m,
      length-runs_bytes rs 0,
    )

-- The pending run is written behind the others.
pub put_run-Holds :
    (c : RunCreator) (rs : List Run) (ids : List ℕ)
    → Holds c rs ids
    → length ids < 2 ^ 28
    → put_run c
      ≡ some (record c { content = written (runs_bytes (rs ++ (c.rle, c.last_diff) ∷ [])) })
put_run-Holds c rs ids h few =
    let le = Holds-lengths c rs ids h in
    let e = h.content in
    let a : IsAtEnd c.content = rw e (written-IsAtEnd (runs_bytes rs)) in
    let n : c.content.off_set + c.content.len ≡ length (runs_bytes rs) =
      rw e (unfold appended of_vector in omega arith) in
    let d = h.small_diff in
    let p = put_run-appended c a (omega arith) (omega arith) in
    p
    ∙ rw
        (
          runs_bytes-snoc rs (c.rle, c.last_diff),
          ← appended-appended (of_vector []) (runs_bytes rs) (run_bytes (c.rle, c.last_diff)),
          ← e,
        )
        refl

module _ (c : RunCreator) (rs : List Run) (ids : List ℕ) (h : Holds c rs ids) (id : ℕ)
    (small : id < 2 ^ 32) (near : (id + 2 ^ 32 - c.prev) % 2 ^ 32 < 2 ^ 31)
    (few : length ids + 1 < 2 ^ 28) where
  abbrev Pushed : Type 0
  Pushed =
      (c' : RunCreator) × (rs' : List Run) × (push_back_run c id ≡ some c')
      × Holds c' rs' (ids ++ id ∷ [])
      × (c'.prev ≡ id)
      × (c'.dest ≡ c.dest)
      × (c'.beginning ≡ c.beginning)

  same_diff : ((id + 2 ^ 32 - c.prev) % 2 ^ 32 == c.last_diff) ≡ true → Pushed
  unfolding push_back_run
  same_diff e =
      let le = Holds-lengths c rs ids h in
      let d = c.last_diff in
      let m = runs_end 0 rs in
      let n = h.count in
      let p = h.small_prev in
      let f : (id + 2 ^ 32 - c.prev) % 2 ^ 32 ≡ d = ground arith in
      let g : (c.prev + d) % 2 ^ 32 ≡ id = omega arith in
      let r : (c.rle + 1) % 2 ^ 32 ≡ suc c.rle = omega arith in
      let k : (c.count + 1) % 2 ^ 32 ≡ suc c.count = omega arith in
      let last : run_end (suc c.rle) d m ≡ id = run_end-snoc c.rle d m ∙ rw (← h.at_id) g in
      let more : run_ids (suc c.rle) d m ≡ run_ids c.rle d m ++ id ∷ [] =
        run_ids-snoc c.rle d m ∙ rw (← h.at_id, g) refl in
      (
        record c { rle = suc c.rle; prev = id; count = suc c.count },
        rs,
        rw (e, r, k) refl,
        record {
          content = h.content;
          small = h.small;
          small_diff = h.small_diff;
          pending =
              ap (λ (t : List ℕ). t ++ id ∷ []) h.pending
              ∙ append_assoc (runs_ids 0 rs) (run_ids c.rle d m) (id ∷ [])
              ∙ ap (λ (t : List ℕ). runs_ids 0 rs ++ t) (sym more);
          at_id = sym last;
          small_prev = small;
          count = omega (arith, length-append ids (id ∷ []));
        },
        refl,
        refl,
        refl,
      )

  other_diff : ((id + 2 ^ 32 - c.prev) % 2 ^ 32 == c.last_diff) ≡ false → Pushed
  unfolding push_back_run
  other_diff e =
      let le = Holds-lengths c rs ids h in
      let diff = (id + 2 ^ 32 - c.prev) % 2 ^ 32 in
      let rs' = rs ++ (c.rle, c.last_diff) ∷ [] in
      let m = runs_end 0 rs in
      let n = h.count in
      let p = h.small_prev in
      let sd = h.small_diff in
      let g : (c.prev + diff) % 2 ^ 32 ≡ id = omega arith in
      let k : (c.count + 1) % 2 ^ 32 ≡ suc c.count = omega arith in
      let w = put_run-Holds c rs ids h (omega arith) in
      let before : runs_end 0 rs' ≡ c.prev = runs_end-snoc rs c.rle c.last_diff 0 ∙ sym h.at_id in
      let old : runs_ids 0 rs' ≡ ids = runs_ids-snoc rs c.rle c.last_diff 0 ∙ sym h.pending in
      let one : run_ids 1 diff c.prev ≡ id ∷ [] = unfold run_ids in rw g refl in
      let one_end : run_end 1 diff c.prev ≡ id = unfold run_end in g in
      (
        record c {
          content = written (runs_bytes rs');
          rle = 1;
          last_diff = diff;
          prev = id;
          count = suc c.count;
        },
        rs',
        rw (e, w, k) refl,
        record {
          content = refl;
          small = IsSmall-snoc rs (c.rle, c.last_diff) h.small (omega arith);
          small_diff = near;
          pending = rw (old, before, one) refl;
          at_id = rw (before, one_end) refl;
          small_prev = small;
          count = omega (arith, length-append ids (id ∷ []));
        },
        refl,
        refl,
        refl,
      )

  pub push_back_run-Holds : Pushed
  push_back_run-Holds = elim (Bool-cases ((id + 2 ^ 32 - c.prev) % 2 ^ 32 == c.last_diff)) [
    | inl e ↦ same_diff e
    | inr e ↦ other_diff e
  ]

-- Consecutive ids differ by less than 2 ^ 31, upwards, as uint32_t.
abbrev pub AreNear : ℕ → List ℕ → Type 0
AreNear prev [] = Unit {0}
AreNear prev (id ∷ ids) = (id < 2 ^ 32) × ((id + 2 ^ 32 - prev) % 2 ^ 32 < 2 ^ 31) × AreNear id ids

-- A loop over push_back leaves a creator that was given its ids behind the others.
pub push_each-Holds :
    (more : List ℕ) (c : RunCreator) (rs : List Run) (ids : List ℕ)
    → Holds c rs ids
    → AreNear c.prev more
    → length ids + length more < 2 ^ 28
    → (c' : RunCreator) × (rs' : List Run) × (push_each c more ≡ some c')
      × Holds c' rs' (ids ++ more)
      × (c'.dest ≡ c.dest)
      × (c'.beginning ≡ c.beginning)
unfolding push_each
push_each-Holds [] c rs ids h near few = (c, rs, refl, rw (append-nil ids) h, refl, refl)
push_each-Holds (id ∷ more) c rs ids h (small, near, rest) few =
    let (c1, rs1, e1, h1, p1, d1, b1) =
      push_back_run-Holds c rs ids h id small near (omega arith) in
    let (c2, rs2, e2, h2, d2, b2) =
      push_each-Holds more c1 rs1 (ids ++ id ∷ []) h1 (rw p1 rest)
        (omega (arith, length-append ids (id ∷ []))) in
    (c2, rs2, rw e1 e2, rw (← append_assoc ids (id ∷ []) more) h2, d2 ∙ d1, b2 ∙ b1)
