-- ===== src/RleStream/Run.antt =====
-- A run of several equal differences is read step by step.
use sserialize.Base.{ℕ, suc, ◌+◌, ◌*◌, ◌/◌, ◌%◌, ◌^◌, ◌≤◌, ◌<◌, ◌≡◌, refl, ◌∙◌, arith}
use sserialize.Base.{true, false, ltb, ◌==◌, List, [], ◌∷◌, ◌++◌, append_assoc, length, some}
use sserialize.Base.{ℤ, pos, negsuc, abs, sub_ℕ}
use sserialize.Pack.Varint.Groups.{groups}
use sserialize.Pack.Signed.{with_sign}
use sserialize.Storage.Adapter.{Adapter}
use sserialize.Storage.Adapter.Valid.{IsValid}
use sserialize.Storage.Stream.Read.{unread, advanced, advanced-unread, get_vl_packed_int32-groups}
use sserialize.RleStream.{Stream, run_step, dispatch, next}
use sserialize.RleStream.Chunk.{
  flush_bytes, IsRun, last_or, IsReady, Reads, done, step, Decodes, next-word, behind-IsReady,
}

-- A stream within a run.
record IsRunning (s : Stream) (b : ℕ) (d : ℤ) (left : ℕ) (bytes : List ℕ) : Type 0 where
  valid : IsValid s.d
  small : s.d.len < 2 ^ 63
  count : s.cur_rle_count ≡ left
  diff : s.cur_rle_diff ≡ d
  at_value : s.cur_id ≡ b
  ahead : unread s.d ≡ bytes

run_step-IsRunning :
    (s : Stream) (b v : ℕ) (d : ℤ) (left : ℕ) (bytes : List ℕ)
    → sub_ℕ v b ≡ d
    → b < 2 ^ 32
    → v < 2 ^ 32
    → suc left < 2 ^ 32
    → IsRunning s b d (suc left) bytes
    → IsRunning (run_step s) v d left bytes
unfolding run_step
run_step-IsRunning s b v (pos n) left bytes e hb hv hl r = record {
  valid = r.valid;
  small = r.small;
  count = ground arith;
  diff = r.diff;
  at_value = ground arith;
  ahead = r.ahead;
}
run_step-IsRunning s b v (negsuc n) left bytes e hb hv hl r = record {
  valid = r.valid;
  small = r.small;
  count = ground arith;
  diff = r.diff;
  at_value = ground arith;
  ahead = r.ahead;
}

next-run : (s : Stream) (left : ℕ) → s.cur_rle_count ≡ suc left → next s ≡ some (run_step s)
unfolding next
next-run s left e = ground arith

run-Reads :
    (vs : List ℕ) (s : Stream) (b : ℕ) (d : ℤ) (more : List ℕ)
    → IsRun b d vs
    → b < 2 ^ 32
    → length vs < 2 ^ 32
    → IsRunning s b d (length vs) more
    → (u : Stream) × Reads s vs u × IsReady u (last_or b vs) more
run-Reads [] s b d more run hb hl r = (
  s,
  done,
  record {
    valid = r.valid;
    small = r.small;
    no_run = r.count;
    at_value = r.at_value;
    ahead = r.ahead;
  },
)
run-Reads (v ∷ vs) s b d more (e, hv, run) hb hl r =
    let q = run_step-IsRunning s b v d (length vs) more e hb hv hl r in
    let (u, h, p) = run-Reads vs (run_step s) v d more run hv (omega arith) q in
    (u, step (next-run s (length vs) r.count) q.at_value h, p)

-- The word of a run and its difference: the first step of the run is taken at once.
module _ (count b v : ℕ) (d : ℤ) (e : sub_ℕ v b ≡ d) (hb : b < 2 ^ 32) (hv : v < 2 ^ 32)
    (two : suc count < 2 ^ 30) (hd : abs d < 2 ^ 31) where
  abbrev run_word : ℕ
  run_word = suc count * 4 + 3

  next-run_word :
      (s : Stream) (more : List ℕ)
      → IsReady s b (groups 10 run_word ++ (groups 5 (with_sign 32 d) ++ more))
      → (u : Stream) × (next s ≡ some u) × IsRunning u v d count more
  next-run_word s more r =
      let rest = groups 5 (with_sign 32 d) ++ more in
      let fits : run_word < 2 ^ 64 = omega arith in
      let d1 : Adapter = advanced s.d (length (groups 10 run_word)) in
      let q = behind-IsReady s b run_word rest fits r b in
      let g = get_vl_packed_int32-groups d1 q.valid q.small more d hd q.ahead in
      let (v2, e2) = advanced-unread d1 q.valid q.small (groups 5 (with_sign 32 d)) more q.ahead in
      let t : Stream = record {
        d = advanced d1 (length (groups 5 (with_sign 32 d)));
        cur_rle_count = run_word / 4 % 2 ^ 32;
        cur_rle_diff = d;
        cur_id = s.cur_id;
      } in
      let k : IsRunning t b d (suc count) more = record {
        valid = v2;
        small = unfold advanced in q.small;
        count = omega arith;
        diff = refl;
        at_value = r.at_value;
        ahead = e2;
      } in
      let low : run_word % 4 ≡ 3 = omega arith in
      (
        run_step t,
        next-word s b run_word rest fits r ∙ (unfold dispatch in rw (low, g) refl),
        run_step-IsRunning t b v d count more e hb hv (omega arith) k,
      )

-- A run of two or more values is a word with its length and its difference.
pub Decodes-run :
    (v : ℕ) (vs : List ℕ) (b : ℕ) (d : ℤ)
    → IsRun b d (v ∷ vs)
    → b < 2 ^ 32
    → 1 ≤ length vs
    → length vs + 1 < 2 ^ 30
    → abs d < 2 ^ 31
    → Decodes b (flush_bytes (last_or v vs) d (length (v ∷ vs))) (v ∷ vs) (last_or v vs)
unfolding flush_bytes
Decodes-run v vs b d (e, hv, run) hb two hl hd s more r =
    let w = groups 10 (suc (length vs) * 4 + 3) in
    let g = groups 5 (with_sign 32 d) in
    let one : (suc (length vs) == 1) ≡ false = ground arith in
    let many : ltb 1 (suc (length vs)) ≡ true = ground arith in
    let r' : IsReady s b (w ++ (g ++ more)) = rw (one, many, append_assoc) at r in
    let (t, n, k) = next-run_word (length vs) b v d e hb hv (omega arith) hd s more r' in
    let (u, h, p) = run-Reads vs t v d more run hv (omega arith) k in (u, step n k.at_value h, p)
