-- ===== src/ItemIndex/RunDelta/Operation/Flush.antt =====
-- flush and flushWithData of the creator of genericOp, and the index that is opened.
use sserialize.Base.{ℕ, ◌+◌, ◌*◌, ◌%◌, ◌^◌, ◌<◌, ◌≤◌, ◌≡◌, refl, sym, ap, ap₂, ◌∙◌, arith}
use sserialize.Base.{List, [], ◌∷◌, ◌++◌, append_assoc, length, length-append, some, All}
use sserialize.Storage.Adapter.{Adapter, window, of_vector}
use sserialize.Storage.Stream.Append.{appended, put_data-appended}
use sserialize.RleStream.Flush.{appended-appended}
use sserialize.Storage.Stream.Over.{over}
use sserialize.ItemIndex.RunDelta.{
  open_runs, RunCreator, RunIndex, run_ids, run_end, flush_rle, flush_data, flush_runs,
  flush_runs_with,
}
use sserialize.ItemIndex.RunDelta.Runs.{
  Run, IsSmall, run_bytes, runs_bytes, runs_ids, runs_end, length-runs_bytes, runs_ids-snoc,
  runs_end-snoc, IsSmall-snoc,
}
use sserialize.ItemIndex.RunDelta.Read.{IsRunIndexOf}
use sserialize.ItemIndex.RunDelta.Write.{
  written, written-IsAtEnd, Holds, Holds-lengths, put_run-Holds,
}
use sserialize.ItemIndex.RunDelta.Operation.Open.{Shows, flush_data-runs}

IsSmall-append : (rs qs : List Run) → All IsSmall rs → All IsSmall qs → All IsSmall (rs ++ qs)
IsSmall-append [] qs h k = k
IsSmall-append (r ∷ rs) qs (a, h) k = (a, IsSmall-append rs qs h k)

runs_bytes-append : (rs qs : List Run) → runs_bytes (rs ++ qs) ≡ runs_bytes rs ++ runs_bytes qs
runs_bytes-append [] qs = refl
runs_bytes-append (r ∷ rs) qs =
    ap (λ (t : List ℕ). run_bytes r ++ t) (runs_bytes-append rs qs)
    ∙ sym (append_assoc (run_bytes r) (runs_bytes rs) (runs_bytes qs))

runs_ids-append :
    (rs qs : List Run) (p : ℕ)
    → runs_ids p (rs ++ qs) ≡ runs_ids p rs ++ runs_ids (runs_end p rs) qs
runs_ids-append [] qs p = refl
runs_ids-append ((n, d) ∷ rs) qs p =
    ap (λ (t : List ℕ). run_ids n d p ++ t) (runs_ids-append rs qs (run_end n d p))
    ∙ sym (
        append_assoc (run_ids n d p) (runs_ids (run_end n d p) rs)
          (runs_ids (runs_end p ((n, d) ∷ rs)) qs))

module _ (k : ℕ) (hk : k < 2 ^ 31) (view : Adapter → Adapter) (shows : Shows view) (c : RunCreator)
    (rs : List Run) (ids : List ℕ) (h : Holds c rs ids) (d : c.dest ≡ over [] k)
    (b : c.beginning ≡ 0) where
  abbrev all : List Run
  all = rs ++ (c.rle, c.last_diff) ∷ []

  all-ids : ids ≡ runs_ids 0 all
  all-ids = h.pending ∙ sym (runs_ids-snoc rs c.rle c.last_diff 0)

  all-IsSmall : length ids < 2 ^ 28 → All IsSmall all
  all-IsSmall few =
      let le = Holds-lengths c rs ids h in
      let sd = h.small_diff in IsSmall-snoc rs (c.rle, c.last_diff) h.small (omega arith)

  pub flush_runs-result :
      length ids < 2 ^ 28
      → (c' : RunCreator) × (i : RunIndex) × (flush_runs c ≡ some c')
        × (c'.beginning ≡ 0)
        × (open_runs (view c'.dest) ≡ some i)
        × IsRunIndexOf i ids
  unfolding flush_runs flush_rle
  flush_runs-result few =
      let (c', i, f, z, g, r) =
        flush_data-runs k view (record c { content = written (runs_bytes all); rle = 0 }) all ids hk
          shows refl (all-IsSmall few) all-ids h.count d b few in
      (c', i, rw (put_run-Holds c rs ids h few) f, z, g, r)

  -- The data of the other side is appended as it is.
  pub flush_runs_with-result :
      (src : Adapter) (later : List Run) (n : ℕ)
      → window src ≡ runs_bytes later
      → All IsSmall later
      → n ≡ length (runs_ids c.prev later)
      → length ids + n < 2 ^ 28
      → (c' : RunCreator) × (i : RunIndex) × (flush_runs_with c src n ≡ some c')
        × (open_runs (view c'.dest) ≡ some i)
        × IsRunIndexOf i (ids ++ runs_ids c.prev later)
  unfolding flush_runs_with flush_rle
  flush_runs_with-result src later n w small e few =
      let whole = all ++ later in
      let more = runs_ids c.prev later in
      let m = h.count in
      let le = length-runs_bytes later c.prev in
      let le' : length (runs_bytes all) ≤ 10 * length ids =
        rw (← all-ids) at (length-runs_bytes all 0) in
      let last : runs_end 0 all ≡ c.prev = runs_end-snoc rs c.rle c.last_diff 0 ∙ sym h.at_id in
      let total : ids ++ more ≡ runs_ids 0 whole =
        ap₂ (λ (t : List ℕ) (p : ℕ). t ++ runs_ids p later) all-ids (sym last)
        ∙ sym (runs_ids-append all later 0) in
      let l = length-append ids more in
      let count : (c.count + n) % 2 ^ 32 ≡ length (ids ++ more) = omega arith in
      let (c', i, f, z, g, r) =
        flush_data-runs k view
          (record c { content = written (runs_bytes whole); rle = 0; count = length (ids ++ more) })
          whole (ids ++ more) hk shows refl
          (IsSmall-append all later (all-IsSmall (omega arith)) small) total refl d b
          (omega arith) in
      let p =
        put_data-appended (written (runs_bytes all)) (written-IsAtEnd (runs_bytes all))
          (runs_bytes later) (unfold appended of_vector in omega arith) in
      let q : appended (written (runs_bytes all)) (runs_bytes later) ≡ written (runs_bytes whole) =
        appended-appended (of_vector []) (runs_bytes all) (runs_bytes later)
        ∙ ap (λ (t : List ℕ). written t) (sym (runs_bytes-append all later)) in
      let e1 : flush_runs_with c src n
          ≡ flush_data (record c {
            content = written (runs_bytes whole);
            rle = 0;
            count = length (ids ++ more);
          }) =
        rw (put_run-Holds c rs ids h (omega arith), w, p, q, count) refl in
      (c', i, e1 ∙ f, g, r)
