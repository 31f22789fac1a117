-- ===== src/ItemIndex/RunDelta/RoundTrip.antt =====
-- A run-length index that a creator builds holds the ids that were pushed.
use sserialize.Base.{
  ℕ, true, false, ◌+◌, ◌-◌, ◌*◌, ◌%◌, ◌^◌, ◌<◌, ◌≤◌, ◌≡◌, refl, sym, ap, ◌∙◌, arith, ◌==◌, ltb,
}
use sserialize.Base.{List, [], ◌∷◌, ◌++◌, length, length-append, some, ◌>>=◌, take-all, drop-append}
use sserialize.Pack.Varint.Groups.{groups, length-groups-le}
use sserialize.Storage.Adapter.{
  Adapter, window, of_vector, sub_adapter, set_put_ptr, reset_get_ptr, shrink_to_get_ptr,
}
use sserialize.Storage.Adapter.Shrink.{shrink_window}
use sserialize.Storage.Stream.Append.{
  IsAtEnd, appended, appended-IsAtEnd, put_vl_packed_uint32-appended, put_data-appended,
}
use sserialize.Storage.Stream.Read.{advanced}
use sserialize.RleStream.Flush.{appended-appended, appended-nil}
use sserialize.ItemIndex.RunDelta.{
  RunCreator, RunIndex, run_ids, run_end, creator_of, flush_rle, flush_data, flush_runs, push_each,
  open_runs, get_run_index, put_into_runs,
}
use sserialize.ItemIndex.RunDelta.Runs.{
  Run, runs_bytes, runs_ids, runs_ids-snoc, IsSmall-snoc, length-runs_bytes,
}
use sserialize.ItemIndex.RunDelta.Read.{
  IsOn, rewound, next_word, length-ahead, IsRunIndexOf, put_into_runs-IsRunIndexOf,
}
use sserialize.ItemIndex.RunDelta.Write.{
  written, put_run-Holds, Holds, Holds-lengths, AreNear, push_each-Holds,
}

pub written-window : (bytes : List ℕ) → window (written bytes) ≡ bytes
unfolding appended of_vector
written-window bytes = take-all (0 + length bytes) bytes (omega arith)

-- The header and the words of the runs.
abbrev pub stored : ℕ → List ℕ → List ℕ
stored n body = groups 5 n ++ (groups 5 (length body) ++ body)

pub length-stored : (n : ℕ) (body : List ℕ) → length (stored n body) ≤ 10 + length body
length-stored n body = omega (
  arith,
  length-append (groups 5 n) (groups 5 (length body) ++ body),
  length-append (groups 5 (length body)) body,
  length-groups-le 5 n,
  length-groups-le 5 (length body),
)

flush_data-stored :
    (c : RunCreator) (body : List ℕ)
    → IsAtEnd c.dest
    → c.beginning ≡ c.dest.put_ptr
    → c.content ≡ written body
    → c.dest.off_set + c.dest.len + length body + 30 < 2 ^ 63
    → length body < 2 ^ 32
    → c.count < 2 ^ 32
    → flush_data c ≡ some (record c { dest = appended c.dest (stored c.count body) })
unfolding flush_data
flush_data-stored c body a b w room small few =
    let g1 = groups 5 c.count in
    let g2 = groups 5 (length body) in
    let l1 = length-groups-le 5 c.count in
    let l2 = length-groups-le 5 (length body) in
    let sp : set_put_ptr c.dest c.beginning ≡ c.dest = unfold set_put_ptr in ground arith in
    let n : c.content.len % 2 ^ 32 ≡ length body =
      rw w (unfold appended of_vector in omega arith) in
    let v : window c.content ≡ body = rw w (written-window body) in
    let d1 = appended c.dest g1 in
    let a1 = appended-IsAtEnd c.dest g1 a in
    let p1 = put_vl_packed_uint32-appended c.dest a c.count few (omega arith) in
    let p2 =
      put_vl_packed_uint32-appended d1 a1 (length body) small (unfold appended in omega arith) in
    let p3 =
      put_data-appended (appended d1 g2) (appended-IsAtEnd d1 g2 a1) body
        (unfold appended in omega arith) in
    rw (sp, p1, n, p2, v, p3, appended-appended, appended-appended) refl

-- The window that starts where `bytes` were appended.
sub_adapter-appended :
    (d : Adapter) (bytes : List ℕ)
    → IsAtEnd d
    → d.off_set + d.len + length bytes < 2 ^ 63
    → IsOn (reset_get_ptr (sub_adapter (appended d bytes) d.len)) bytes
unfolding sub_adapter appended reset_get_ptr
sub_adapter-appended d bytes a room =
    let e : ltb (d.len + length bytes) d.len ≡ false = ground arith in
    let l : d.len + length bytes - d.len ≡ length bytes = omega arith in
    let w = a.whole in
    rw (e, l)
      record {
        valid = omega (arith, length-append d.storage bytes);
        small = omega arith;
        ahead = rw (w, drop-append d.storage bytes) (take-all (length bytes) bytes (omega arith));
      }

pub shrunk :
    (d : Adapter) (bytes : List ℕ)
    → IsOn d bytes
    → ((shrink_to_get_ptr d).len ≡ length bytes) × IsOn (shrink_to_get_ptr d) bytes
unfolding shrink_to_get_ptr
shrunk d bytes o =
    let v = o.valid in
    let s = o.small in
    let w = (shrink_window (rewound d) v).0 ∙ o.ahead in
    let e : ltb d.len d.get_ptr ≡ false = ground arith in
    let n : d.len - d.get_ptr ≡ length bytes = omega (arith, length-ahead d bytes o) in
    rw e (n, record { valid = omega arith; small = omega arith; ahead = rw e at w })

open_runs-stored :
    (d : Adapter) (n : ℕ) (body : List ℕ)
    → n < 2 ^ 32
    → length body < 2 ^ 32
    → IsOn (reset_get_ptr d) (stored n body)
    → (i : RunIndex) × (open_runs d ≡ some i)
      × (i.size ≡ n)
      × (i.body.len ≡ length body)
      × (i.body.get_ptr ≡ 0)
      × IsOn i.body body
unfolding open_runs
open_runs-stored d n body hn small o =
    let (r1, o1) = next_word (reset_get_ptr d) n (groups 5 (length body) ++ body) hn o in
    let d1 = advanced (reset_get_ptr d) (length (groups 5 n)) in
    let (r2, o2) = next_word d1 (length body) body small o1 in
    let d2 = advanced d1 (length (groups 5 (length body))) in
    let (l, o3) = shrunk d2 body o2 in
    let e : (length body == length body) ≡ true = ground arith in
    (
      record { body = shrink_to_get_ptr d2; size = n },
      rw (r1, r2, l, e) refl,
      refl,
      l,
      unfold shrink_to_get_ptr in refl,
      o3,
    )

-- What flush leaves of a creator that was given these ids is opened as an index that gives them back.
pub flush_runs-Holds :
    (c : RunCreator) (rs : List Run) (ids : List ℕ)
    → Holds c rs ids
    → IsAtEnd c.dest
    → c.beginning ≡ c.dest.put_ptr
    → c.dest.off_set + c.dest.len + 10 * length ids + 40 < 2 ^ 63
    → length ids < 2 ^ 28
    → (c' : RunCreator) × (i : RunIndex) × (flush_runs c ≡ some c')
      × (get_run_index c' ≡ some i)
      × IsRunIndexOf i ids
unfolding flush_runs flush_rle get_run_index
flush_runs-Holds c rs ids h a b room few =
    let all = rs ++ (c.rle, c.last_diff) ∷ [] in
    let body = runs_bytes all in
    let le : length body ≤ 10 * length ids =
      rw (runs_ids-snoc rs c.rle c.last_diff 0, ← h.pending) at (length-runs_bytes all 0) in
    let n = h.count in
    let sd = h.small_diff in
    let c1 : RunCreator = record c { content = written body; rle = 0 } in
    let f = flush_data-stored c1 body a b refl (omega arith) (omega arith) (omega arith) in
    let x = stored c.count body in
    let ls = length-stored c.count body in
    let o = sub_adapter-appended c.dest x a (omega arith) in
    let at_end = a.at_end in
    let start : c.beginning ≡ c.dest.len = b ∙ at_end in
    let (i, r, z, l, g, q) =
      open_runs-stored (sub_adapter (appended c.dest x) c.dest.len) c.count body (omega arith)
        (omega arith) o in
    let k = Holds-lengths c rs ids h in
    let small = IsSmall-snoc rs (c.rle, c.last_diff) h.small (omega arith) in
    let old : runs_ids 0 all ≡ ids = runs_ids-snoc rs c.rle c.last_diff 0 ∙ sym h.pending in
    (
      record c1 { dest = appended c.dest x },
      i,
      rw (put_run-Holds c rs ids h few) f,
      ap (λ (t : ℕ). open_runs (sub_adapter (appended c.dest x) t)) start ∙ r,
      record { runs = all; small = small; stored = sym old; size = z ∙ n; at_start = g; on = q },
    )

pub creator_of-Holds : (d : Adapter) → Holds (creator_of d) [] []
unfolding creator_of run_ids run_end
creator_of-Holds d = record {
  content = sym (appended-nil (of_vector []));
  small = tt;
  small_diff = omega arith;
  pending = refl;
  at_id = refl;
  small_prev = omega arith;
  count = refl;
}

-- `d` is an adapter with the put pointer at the end of its storage, and with room for ten bytes for
-- each id and forty more. Fewer than 2 ^ 28 ids of 32 bits, each less than 2 ^ 31 above the one before
-- it as uint32_t (the first above 0; a greater difference loses its top bit), are pushed into a
-- run-length creator on `d`, and flushed. Nothing throws, and a valid index of the ids is then opened;
-- it has as many, and putInto gives them in their order. That the ids ascend is not asked for.
pub put_into_runs-push_each :
    (d : Adapter) (ids : List ℕ)
    → IsAtEnd d
    → d.off_set + d.len + 10 * length ids + 40 < 2 ^ 63
    → AreNear 0 ids
    → length ids < 2 ^ 28
    → (c : RunCreator) × (i : RunIndex) × ((push_each (creator_of d) ids >>= flush_runs) ≡ some c)
      × (get_run_index c ≡ some i)
      × IsRunIndexOf i ids
      × (i.size ≡ length ids)
      × (put_into_runs i ≡ some ids)
put_into_runs-push_each d ids a room near few =
    let (c1, rs, e, h, q, b) =
      push_each-Holds ids (creator_of d) [] [] (creator_of-Holds d) (unfold creator_of in near)
        (omega arith) in
    let q' : c1.dest ≡ d = q ∙ (unfold creator_of in refl) in
    let b' : c1.beginning ≡ d.put_ptr = b ∙ (unfold creator_of in refl) in
    let (c, i, f, o, r) = flush_runs-Holds c1 rs ids h (rw q' a) (rw q' b') (rw q' room) few in
    (c, i, rw e f, o, r, r.size, put_into_runs-IsRunIndexOf i ids r)
