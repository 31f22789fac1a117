-- ===== src/ItemIndex/RunDelta/PushRle.antt =====
-- push_rle is a loop over push_back.
use sserialize.Base.{
  ℕ, zero, suc, true, false, ◌+◌, ◌-◌, ◌*◌, ◌%◌, ◌^◌, ◌<◌, ◌≡◌, refl, sym, arith, ◌==◌,
  if◌then◌else◌, Bool-cases, Option-cases, inl, inr,
}
use sserialize.Base.{◌∷◌, some, ◌>>=◌}
use native.Mathlib.Nat.{mul-suc, mul-zero}
use sserialize.ItemIndex.RunDelta.{RunCreator, run_ids, push_back_run, push_rle, push_each}

-- A creator after a push of `id` at the difference `diff`.
pub record IsAfter (c : RunCreator) (id diff : ℕ) : Type 0 where
  pub at_id : c.prev ≡ id
  at_diff : c.last_diff ≡ diff
  small_rle : c.rle < 2 ^ 32
  small_count : c.count < 2 ^ 32

pub push_back_run-IsAfter :
    (c c' : RunCreator) (id : ℕ)
    → push_back_run c id ≡ some c'
    → IsAfter c' id ((id + 2 ^ 32 - c.prev) % 2 ^ 32)
unfolding push_back_run
push_back_run-IsAfter c c' id h =
    elim (Bool-cases ((id + 2 ^ 32 - c.prev) % 2 ^ 32 == c.last_diff)) [
      | inl e ↦ ground arith
      | inr e ↦ ground arith
    ]

-- Pushes at the pending difference only count.
push_each-run :
    (k delta id : ℕ) (c : RunCreator)
    → IsAfter c id delta
    → id < 2 ^ 32
    → delta < 2 ^ 32
    → push_each c (run_ids k delta id)
      ≡ some (record c {
        rle = (c.rle + k) % 2 ^ 32;
        prev = (c.prev + delta * k) % 2 ^ 32;
        count = (c.count + k) % 2 ^ 32;
      })
unfolding push_each run_ids
push_each-run zero delta id c h hi hd =
    let p = h.at_id in
    let r = h.small_rle in
    let n = h.small_count in
    let er : (c.rle + 0) % 2 ^ 32 ≡ c.rle = omega arith in
    let en : (c.count + 0) % 2 ^ 32 ≡ c.count = omega arith in
    let ep : (c.prev + delta * 0) % 2 ^ 32 ≡ c.prev = omega (arith, mul-zero delta) in
    rw (er, en, ep) refl
push_each-run (suc k) delta id c h hi hd =
    let id' = (id + delta) % 2 ^ 32 in
    let p = h.at_id in
    let d = h.at_diff in
    let same : ((id' + 2 ^ 32 - c.prev) % 2 ^ 32 == c.last_diff) ≡ true = ground arith in
    let c' : RunCreator = record c {
      rle = (c.rle + 1) % 2 ^ 32;
      prev = id';
      count = (c.count + 1) % 2 ^ 32;
    } in
    let push : push_back_run c id' ≡ some c' = unfold push_back_run in rw same refl in
    let ih =
      push_each-run k delta id' c'
        (record { at_id = refl; at_diff = d; small_rle = omega arith; small_count = omega arith })
        (omega arith) hd in
    let er : ((c.rle + 1) % 2 ^ 32 + k) % 2 ^ 32 ≡ (c.rle + suc k) % 2 ^ 32 = omega arith in
    let en : ((c.count + 1) % 2 ^ 32 + k) % 2 ^ 32 ≡ (c.count + suc k) % 2 ^ 32 = omega arith in
    let ep : (id' + delta * k) % 2 ^ 32 ≡ (c.prev + delta * suc k) % 2 ^ 32 =
      omega (arith, mul-suc delta k) in
    rw (push, ih, er, en, ep) refl

-- The part of push_rle behind its first push.
push_rest :
    (len : ℕ) (c1 : RunCreator) (id delta d : ℕ)
    → IsAfter c1 id d
    → id < 2 ^ 32
    → delta < 2 ^ 32
    → (if len == 0
        then some c1
        else (push_back_run c1 ((id + delta) % 2 ^ 32) >>= λ c2. some (record c2 {
          rle = (c2.rle + (len - 1)) % 2 ^ 32;
          prev = (c2.prev + delta * (len - 1)) % 2 ^ 32;
          count = (c2.count + (len - 1)) % 2 ^ 32;
        })))
      ≡ push_each c1 (run_ids len delta id)
unfolding push_each run_ids
push_rest zero c1 id delta d h hi hd = refl
push_rest (suc k) c1 id delta d h hi hd =
    let id' = (id + delta) % 2 ^ 32 in
    let e : suc k - 1 ≡ k = omega arith in
    let z : (suc k == 0) ≡ false = ground arith in
    rw (z, e)
      (elim (Option-cases (push_back_run c1 id')) [
        | inl f ↦ rw f refl
        | inr (c2, f) ↦
            let p = h.at_id in
            let diff : (id' + 2 ^ 32 - c1.prev) % 2 ^ 32 ≡ delta = omega arith in
            let a = rw diff at (push_back_run-IsAfter c1 c2 id' f) in
            rw f (sym (push_each-run k delta id' c2 a (omega arith) hd))
      ])

-- push_rle leaves the creator that a loop over push_back leaves: of the next id, and of `len` ids
-- behind it, each `delta` above the one before it as uint32_t, 0 included. It throws where the loop
-- throws. The optional assertions are left out on both sides.
pub push_rle-push_each :
    (c : RunCreator) (next_id delta len : ℕ)
    → next_id < 2 ^ 32
    → delta < 2 ^ 32
    → push_rle c next_id delta len ≡ push_each c (next_id ∷ run_ids len delta next_id)
unfolding push_rle push_each
push_rle-push_each c next_id delta len hi hd = elim (Option-cases (push_back_run c next_id)) [
  | inl e ↦ rw e refl
  | inr (c1, e) ↦
      rw e (push_rest len c1 next_id delta _ (push_back_run-IsAfter c c1 next_id e) hi hd)
]
