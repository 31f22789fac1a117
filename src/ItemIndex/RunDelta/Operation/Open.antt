-- ===== src/ItemIndex/RunDelta/Operation/Open.antt =====
-- What the creator of genericOp writes to a new cache, over its zeros, and opens from there.
use sserialize.Base.{
  ℕ, zero, suc, true, false, ◌+◌, ◌-◌, ◌*◌, ◌%◌, ◌^◌, ◌<◌, ◌≤◌, ◌≡◌, refl, sym, ap, ◌∙◌, arith,
  ◌==◌, ltb, leb, inl, inr, Bool-cases, if◌then◌else◌, take, drop,
}
use sserialize.Base.{
  List, [], ◌∷◌, ◌++◌, append_assoc, append-nil, length, length-append, length-replicate, some,
  take-all, All, take-length-append,
}
use sserialize.Pack.Varint.Groups.{groups, length-groups-le}
use sserialize.Storage.Adapter.{
  Adapter, window, of_vector, set_put_ptr, reset_get_ptr, shrink_to_get_ptr, resize,
}
use sserialize.Storage.Stream.Append.{appended}
use sserialize.Storage.Stream.Over.{over, zeros, put_data-over, put_vl_packed_uint32-over}
use sserialize.Storage.Stream.Read.{advanced}
use sserialize.ItemIndex.RunDelta.{RunCreator, RunIndex, flush_data, open_runs}
use sserialize.ItemIndex.RunDelta.Runs.{Run, IsSmall, runs_bytes, runs_ids, length-runs_bytes}
use sserialize.ItemIndex.RunDelta.Read.{IsOn, next_word, IsRunIndexOf}
use sserialize.ItemIndex.RunDelta.Write.{written}
use sserialize.ItemIndex.RunDelta.RoundTrip.{stored, length-stored, shrunk, written-window}

flush_data-over :
    (k : ℕ) (c : RunCreator) (body : List ℕ)
    → k < 2 ^ 31
    → c.dest ≡ over [] k
    → c.beginning ≡ 0
    → c.content ≡ written body
    → length body < 2 ^ 32
    → c.count < 2 ^ 32
    → (pad : ℕ) × (pad ≤ k)
      × (flush_data c ≡ some (record c { dest = over (stored c.count body) pad }))
unfolding flush_data
flush_data-over k c body hk d b w small few =
    let g1 = groups 5 c.count in
    let g2 = groups 5 (length body) in
    let l1 = length-groups-le 5 c.count in
    let l2 = length-groups-le 5 (length body) in
    let sp : set_put_ptr (over [] k) 0 ≡ over [] k =
      unfold set_put_ptr in
      (let z : (if leb (0 + k) 0 then 0 + k else 0) ≡ 0 = ground arith in
        ap (λ (p : ℕ). record (over [] k) { put_ptr = p }) z) in
    let n : c.content.len % 2 ^ 32 ≡ length body =
      rw w (unfold appended of_vector in omega arith) in
    let v : window c.content ≡ body = rw w (written-window body) in
    let k1 = k - length g1 in
    let k2 = k1 - length g2 in
    let k3 = k2 - length body in
    let p1 = put_vl_packed_uint32-over [] k c.count few (omega arith) in
    let p2 = put_vl_packed_uint32-over g1 k1 (length body) small (omega arith) in
    let p3 = put_data-over (g1 ++ g2) body k2 (omega (arith, length-append g1 g2)) in
    (k3, omega arith, rw (d, b, sp, p1, n, p2, v, p3, append_assoc g1 g2 body) refl)

pad-nil : (body pad : List ℕ) → length (body ++ pad) ≡ length body → body ++ pad ≡ body
pad-nil body [] e = append-nil body
pad-nil body (x ∷ pad) e = absurd (omega (arith, length-append body (x ∷ pad)))

take-le : (m n : ℕ) (xs : List ℕ) → m ≤ n → take m (take n xs) ≡ take m xs
take-le zero n xs h = refl
take-le (suc m) zero xs h = absurd (omega arith)
take-le (suc m) (suc n) [] h = refl
take-le (suc m) (suc n) (x ∷ xs) h = ap (λ (t : List ℕ). x ∷ t) (take-le m n xs (omega arith))

-- What is too long of the data is cut off.
trimmed :
    (b : Adapter) (body pad : List ℕ)
    → b.len ≡ length (body ++ pad)
    → b.get_ptr ≡ 0
    → IsOn b (body ++ pad)
    → (b' : Adapter) × ((if b.len == length body then some (true, b) else resize b (length body))
        ≡ some (true, b'))
      × (b'.get_ptr ≡ 0)
      × IsOn b' body
unfolding resize
trimmed b body pad l g o =
    let a = length-append body pad in
    elim (Bool-cases (b.len == length body)) [
      | inl e ↦ (b, rw e refl, g, rw (pad-nil body pad (ground arith)) at o)
      | inr e ↦
          let lt : ltb (length body) b.len ≡ true = ground arith in
          let z : ltb (length body) b.get_ptr ≡ false = ground arith in
          let v = o.valid in
          let s = o.small in
          let w : take b.len (drop b.off_set b.storage) ≡ body ++ pad =
            ap (λ (k : ℕ). drop k (window b)) (sym g) ∙ o.ahead in
          (
            record b {
              len = length body;
              get_ptr = b.get_ptr;
              put_ptr = if ltb (length body) b.put_ptr then length body else b.put_ptr;
            },
            rw (e, lt, z) refl,
            g,
            record {
              valid = omega arith;
              small = omega arith;
              ahead =
                  ap (λ (k : ℕ). drop k (take (length body) (drop b.off_set b.storage))) g
                  ∙ sym (take-le (length body) b.len (drop b.off_set b.storage) (omega arith))
                  ∙ ap (λ (t : List ℕ). take (length body) t) w
                  ∙ take-length-append body pad;
            },
          )
    ]

open_runs-padded :
    (d : Adapter) (n : ℕ) (body pad : List ℕ)
    → n < 2 ^ 32
    → length body < 2 ^ 32
    → IsOn (reset_get_ptr d) (stored n body ++ pad)
    → (i : RunIndex) × (open_runs d ≡ some i)
      × (i.size ≡ n)
      × (i.body.get_ptr ≡ 0)
      × IsOn i.body body
unfolding open_runs
open_runs-padded d n body pad hn small o =
    let o0 : IsOn (reset_get_ptr d) (groups 5 n ++ (groups 5 (length body) ++ (body ++ pad))) =
      rw (append_assoc, append_assoc) at o in
    let (r1, o1) = next_word (reset_get_ptr d) n (groups 5 (length body) ++ (body ++ pad)) hn o0 in
    let d1 = advanced (reset_get_ptr d) (length (groups 5 n)) in
    let (r2, o2) = next_word d1 (length body) (body ++ pad) small o1 in
    let d2 = advanced d1 (length (groups 5 (length body))) in
    let (l, o3) = shrunk d2 (body ++ pad) o2 in
    let (b, t, g, o4) =
      trimmed (shrink_to_get_ptr d2) body pad l (unfold shrink_to_get_ptr in refl) o3 in
    (record { body = b; size = n }, rw (r1, r2, t) refl, refl, g, o4)

-- A view of the cache that shows all of it.
abbrev pub Shows : (Adapter → Adapter) → Type 0
Shows view =
    (x : List ℕ) (pad : ℕ)
    → length x + pad < 2 ^ 63
    → IsOn (reset_get_ptr (view (over x pad))) (x ++ zeros pad)

pub over-IsOn :
    (x : List ℕ) (pad p : ℕ)
    → length x + pad < 2 ^ 63
    → IsOn (record (over x pad) { put_ptr = p }) (x ++ zeros pad)
over-IsOn x pad p room =
    let lz = length-replicate {A = ℕ} pad 0 in
    let whole : length (x ++ zeros pad) ≡ length x + pad =
      omega (arith, length-append x (zeros pad)) in
    record {
      valid = omega arith;
      small = omega arith;
      ahead = take-all (length x + pad) (x ++ zeros pad) (omega arith);
    }

-- The data of a creator that has written these runs is opened as an index of their ids.
pub flush_data-runs :
    (k : ℕ) (view : Adapter → Adapter) (c : RunCreator) (all : List Run) (ids : List ℕ)
    → k < 2 ^ 31
    → Shows view
    → c.content ≡ written (runs_bytes all)
    → All IsSmall all
    → ids ≡ runs_ids 0 all
    → c.count ≡ length ids
    → c.dest ≡ over [] k
    → c.beginning ≡ 0
    → length ids < 2 ^ 28
    → (c' : RunCreator) × (i : RunIndex) × (flush_data c ≡ some c')
      × (c'.beginning ≡ 0)
      × (open_runs (view c'.dest) ≡ some i)
      × IsRunIndexOf i ids
flush_data-runs k view c all ids hk shows w small e n d b few =
    let body = runs_bytes all in
    let le : length body ≤ 10 * length ids = rw (← e) at (length-runs_bytes all 0) in
    let (pad, lp, f) = flush_data-over k c body hk d b w (omega arith) (omega arith) in
    let x = stored c.count body in
    let lx = length-stored c.count body in
    let (i, r, z, g, q) =
      open_runs-padded (view (over x pad)) c.count body (zeros pad) (omega arith) (omega arith)
        (shows x pad (omega arith)) in
    (
      record c { dest = over x pad },
      i,
      f,
      b,
      r,
      record { runs = all; small = small; stored = e; size = z ∙ n; at_start = g; on = q },
    )
