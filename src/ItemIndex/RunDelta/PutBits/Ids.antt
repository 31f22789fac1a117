-- ===== src/ItemIndex/RunDelta/PutBits/Ids.antt =====
-- putInto sets the ids of the index, and no other positions.
use sserialize.Base.{
  ℕ, zero, suc, true, false, ◌+◌, ◌-◌, ◌*◌, ◌/◌, ◌%◌, ◌^◌, ◌<◌, ◌≤◌, ◌≡◌, refl, sym, ap, ◌∙◌, subst,
  arith, ◌==◌, ltb, ◌||◌, bit_and, All,
}
use sserialize.Base.{List, [], ◌∷◌, ◌++◌, append_assoc, length, length-append, some}
use native.Mathlib.Nat.{suc-mul, zero-mul}
use sserialize.Pack.Varint.Groups.{groups}
use sserialize.Pack.Signed.RoundTrip.{and_one}
use sserialize.Storage.Adapter.{Adapter}
use sserialize.Storage.Stream.{get_vl_packed_uint32}
use sserialize.Storage.Stream.Read.{advanced}
use sserialize.DynamicBitSet.{DynamicBitSet, is_set, set_bit}
use sserialize.DynamicBitSet.Member.{IsClean, is_set-set_bit}
use sserialize.ItemIndex.SetOp.Member.{has}
use sserialize.ItemIndex.RunDelta.{RunIndex, run_ids, run_end}
use sserialize.ItemIndex.RunDelta.Runs.{
  Run, IsSmall, run_bytes, runs_bytes, runs_ids, length-run_ids, nothing, rounds, rounds-le,
  run_bytes_many, run_ids-snoc, run_end-snoc, run_end-lt,
}
use sserialize.ItemIndex.RunDelta.Read.{IsOn, next_word, length-ahead, IsRunIndexOf}
use sserialize.ItemIndex.RunDelta.PutBits.{set_run, put_bits, put_into_bit_set}

-- The positions of `s` and the ids, and only zeros in the vector behind the bytes.
abbrev pub HasBoth : DynamicBitSet → DynamicBitSet → List ℕ → Type 0
HasBoth s' s ids = ((v : ℕ) → is_set s' v ≡ (has v ids || is_set s v)) × IsClean s'

has-append : (v : ℕ) (xs ys : List ℕ) → has v (xs ++ ys) ≡ (has v xs || has v ys)
has-append v [] ys = refl
has-append v (x ∷ xs) ys = ground (arith, has-append v xs ys)

run_end_eq : (n v p : ℕ) → p < 2 ^ 32 → run_end n v p ≡ (p + n * v) % 2 ^ 32
unfolding run_end
run_end_eq zero v p h = omega (arith, zero-mul v)
run_end_eq (suc n) v p h =
    omega (arith, run_end_eq n v ((p + v) % 2 ^ 32) (omega arith), suc-mul n v)

set_run-HasBoth :
    (n v p : ℕ) (s : DynamicBitSet)
    → IsClean s
    → HasBoth (set_run n v p s).0 s (run_ids n v p) × ((set_run n v p s).1 ≡ run_end n v p)
unfolding set_run run_ids run_end
set_run-HasBoth zero v p s c = (((λ u. refl), c), refl)
set_run-HasBoth (suc n) v p s c =
    let id = (p + v) % 2 ^ 32 in
    let (g, c') = is_set-set_bit s id c in
    let ((h, c2), e) = set_run-HasBoth n v id (set_bit s id) c' in
    (((λ u. h u ∙ rw (g u) (ground arith)), c2), e)

-- A run sets its last id, and then the others.
run-HasBoth :
    (n v p : ℕ) (s : DynamicBitSet)
    → IsClean s
    → p < 2 ^ 32
    → suc n < 2 ^ 31
    → let t = set_run ((suc n + 2 ^ 32 - 1) % 2 ^ 32) v p (set_bit s ((p + suc n * v) % 2 ^ 32)) in
      HasBoth t.0 s (run_ids (suc n) v p) × ((t.1 + v) % 2 ^ 32 ≡ run_end (suc n) v p)
run-HasBoth n v p s clean hp hn =
    let q : (suc n + 2 ^ 32 - 1) % 2 ^ 32 ≡ n = omega arith in
    let last = (p + suc n * v) % 2 ^ 32 in
    let l : (run_end n v p + v) % 2 ^ 32 ≡ last =
      sym (run_end-snoc n v p) ∙ run_end_eq (suc n) v p hp in
    let (g, c) = is_set-set_bit s last clean in
    let ((h, c'), e) = set_run-HasBoth n v p (set_bit s last) c in
    rw q (
      (
        (λ u.
            h u
            ∙ rw (g u, run_ids-snoc n v p, l, has-append u (run_ids n v p) (last ∷ []))
                (ground arith)),
        c',
      ),
      ap (λ (k : ℕ). (k + v) % 2 ^ 32) e ∙ sym (run_end-snoc n v p),
    )

module _ (fuel size count prev : ℕ) (d : Adapter) (s : DynamicBitSet)
    (go : ltb count size ≡ true) where
  put_bits-single :
      (w : ℕ) (d1 : Adapter)
      → get_vl_packed_uint32 d ≡ some (w, d1)
      → (bit_and w 0x1 == 0) ≡ true
      → put_bits (suc fuel) size count d prev s
        ≡ put_bits fuel size
            ((count + 1) % 2 ^ 32)
            d1
            ((prev + w / 2) % 2 ^ 32)
            (set_bit s ((prev + w / 2) % 2 ^ 32))
  unfolding put_bits
  put_bits-single w d1 g b = ground arith

  put_bits-run :
      (w x : ℕ) (d1 d2 : Adapter)
      → get_vl_packed_uint32 d ≡ some (w, d1)
      → (bit_and w 0x1 == 0) ≡ false
      → get_vl_packed_uint32 d1 ≡ some (x, d2)
      → let t =
          set_run
            ((w / 2 + 2 ^ 32 - 1) % 2 ^ 32)
            (x / 2)
            prev
            (set_bit s ((prev + w / 2 * (x / 2)) % 2 ^ 32)) in
        put_bits (suc fuel) size count d prev s
        ≡ put_bits fuel size ((count + w / 2) % 2 ^ 32) d2 ((t.1 + x / 2) % 2 ^ 32) t.0
  unfolding put_bits
  put_bits-run w x d1 d2 g b g' = ground arith

-- What a round leaves for the later rounds.
record Continues (fuel size count n v : ℕ) (d : Adapter) (prev : ℕ) (more : List ℕ)
    (s : DynamicBitSet) : Type 0 where
  reader : Adapter
  after : DynamicBitSet
  result :
      put_bits (suc fuel) size count d prev s
      ≡ put_bits fuel size (count + n) reader (run_end n v prev) after
  has_both : HasBoth after s (run_ids n v prev)
  on : IsOn reader more

module _ (fuel size count n v : ℕ) (d : Adapter) (prev : ℕ) (more : List ℕ) (s : DynamicBitSet)
    (clean : IsClean s) (small : IsSmall (suc n, v)) (hp : prev < 2 ^ 32)
    (room : count + suc n ≤ size) (hs : size < 2 ^ 32) where
  bits_single :
      n ≡ 0 → IsOn d (groups 5 (v * 2) ++ more) → Continues fuel size count (suc n) v d prev more s
  bits_single e o =
      let (g, o') = next_word d (v * 2) more (omega arith) o in
      let id = (prev + v) % 2 ^ 32 in
      let go : ltb count size ≡ true = ground arith in
      let b : (bit_and (v * 2) 0x1 == 0) ≡ true = ground (arith, and_one (v * 2)) in
      let h : v * 2 / 2 ≡ v = omega arith in
      let c : (count + 1) % 2 ^ 32 ≡ count + suc n = omega arith in
      let ends : run_end (suc n) v prev ≡ id = rw e (unfold run_end in refl) in
      let ids : run_ids (suc n) v prev ≡ id ∷ [] = rw e (unfold run_ids in refl) in
      record {
        reader = advanced d (length (groups 5 (v * 2)));
        after = set_bit s id;
        result =
            put_bits-single fuel size count prev d s go (v * 2)
              (advanced d (length (groups 5 (v * 2)))) g b
            ∙ rw (h, c, ends) refl;
        has_both = (
          (λ u. (is_set-set_bit s id clean).0 u ∙ rw ids (ground arith)),
          (is_set-set_bit s id clean).1,
        );
        on = o';
      }

  bits_run :
      IsOn d (groups 5 (suc n * 2 + 1) ++ (groups 5 (v * 2) ++ more))
      → Continues fuel size count (suc n) v d prev more s
  bits_run o =
      let w = suc n * 2 + 1 in
      let (g, o') = next_word d w (groups 5 (v * 2) ++ more) (omega arith) o in
      let d1 = advanced d (length (groups 5 w)) in
      let (g', o'') = next_word d1 (v * 2) more (omega arith) o' in
      let go : ltb count size ≡ true = ground arith in
      let b : (bit_and w 0x1 == 0) ≡ false = ground (arith, and_one w) in
      let h : v * 2 / 2 ≡ v = omega arith in
      let k : w / 2 ≡ suc n = omega arith in
      let c : (count + suc n) % 2 ^ 32 ≡ count + suc n = omega arith in
      let (both, ends) = run-HasBoth n v prev s clean hp small.0 in
      record {
        reader = advanced d1 (length (groups 5 (v * 2)));
        after =
            (set_run ((suc n + 2 ^ 32 - 1) % 2 ^ 32) v prev
              (set_bit s ((prev + suc n * v) % 2 ^ 32))).0;
        result =
            put_bits-run fuel size count prev d s go w (v * 2) d1
              (advanced d1 (length (groups 5 (v * 2)))) g b g'
            ∙ rw (h, k, c, ends) refl;
        has_both = both;
        on = o'';
      }

bits_round :
    (fuel size count n v : ℕ) (d : Adapter) (prev : ℕ) (more : List ℕ) (s : DynamicBitSet)
    → IsClean s
    → IsSmall (suc n, v)
    → prev < 2 ^ 32
    → count + suc n ≤ size
    → size < 2 ^ 32
    → IsOn d (run_bytes (suc n, v) ++ more)
    → Continues fuel size count (suc n) v d prev more s
bits_round fuel size count zero v d prev more s c a hp room hs o =
    bits_single fuel size count 0 v d prev more s c a hp room hs refl (unfold run_bytes in o)
bits_round fuel size count (suc n) v d prev more s c a hp room hs o =
    bits_run fuel size count (suc n) v d prev more s c a hp room hs
      (rw (run_bytes_many n v, append_assoc) at o)

put_bits-runs :
    (rs : List Run) (fuel size count : ℕ) (d : Adapter) (prev : ℕ) (s : DynamicBitSet)
    → IsClean s
    → All IsSmall rs
    → prev < 2 ^ 32
    → size < 2 ^ 32
    → size ≡ count + length (runs_ids prev rs)
    → rounds rs < fuel
    → IsOn d (runs_bytes rs)
    → (s' : DynamicBitSet) × (put_bits fuel size count d prev s ≡ some s')
      × HasBoth s' s (runs_ids prev rs)
put_bits-runs rs zero size count d prev s c all hp hs e h o = absurd (omega arith)
put_bits-runs [] (suc fuel) size count d prev s c all hp hs e h o =
    let stop : ltb count size ≡ false = ground arith in
    (s, (unfold put_bits in ground arith), ((λ u. refl), c))
put_bits-runs ((zero, v) ∷ rs) (suc fuel) size count d prev s c (a, all) hp hs e h o =
    let (b, i, f) = nothing v prev in
    rw (i, f)
      (put_bits-runs rs (suc fuel) size count d prev s c all hp hs (rw (i, f) at e) (omega arith)
        (rw b at o))
put_bits-runs ((suc n, v) ∷ rs) (suc fuel) size count d prev s c (a, all) hp hs e h o =
    let ids = run_ids (suc n) v prev in
    let rest = runs_ids (run_end (suc n) v prev) rs in
    let l : length (ids ++ rest) ≡ suc n + length rest =
      omega (arith, length-append ids rest, length-run_ids (suc n) v prev) in
    let r = bits_round fuel size count n v d prev (runs_bytes rs) s c a hp (omega arith) hs o in
    let (g, c') = r.has_both in
    let (s', q, (b, c2)) =
      put_bits-runs rs fuel size (count + suc n) r.reader (run_end (suc n) v prev) r.after c' all
        (run_end-lt (suc n) v prev hp) hs (omega arith) (omega arith) r.on in
    (s', r.result ∙ q, ((λ u. b u ∙ rw (g u, has-append u ids rest) (ground arith)), c2))

-- `i` is a valid run-length index of `ids`, fewer than 2 ^ 32, and the vector of the bit set `s` holds only
-- zeros behind its bytes. putInto on the bit set ends and does not throw, it sets the ids and keeps the
-- other positions as they are, and only zeros are behind the bytes again.
pub put_into_bit_set-HasBoth :
    (i : RunIndex) (ids : List ℕ) (s : DynamicBitSet)
    → IsClean s
    → IsRunIndexOf i ids
    → length ids < 2 ^ 32
    → (s' : DynamicBitSet) × (put_into_bit_set i s ≡ some s') × HasBoth s' s ids
unfolding put_into_bit_set
put_into_bit_set-HasBoth i ids s c h few =
    let o = h.on in
    let l = length-ahead i.body (runs_bytes h.runs) o in
    let r = rounds-le h.runs in
    let size : i.size ≡ length (runs_ids 0 h.runs) =
      h.size ∙ ap (λ (t : List ℕ). length t) h.stored in
    let n = h.size in
    let (s', q, b) =
      put_bits-runs h.runs (i.body.len + 1) i.size 0 i.body 0 s c h.small (omega arith)
        (omega arith) (omega arith) (omega arith) o in
    (s', q, subst (λ (t : List ℕ). HasBoth s' s t) (sym h.stored) b)
