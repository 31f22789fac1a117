-- ===== src/RleStream/RoundTrip.antt =====
-- What a creator writes is read back as the values put into it.
use sserialize.Base.{ℕ, true, false, ◌+◌, ◌*◌, ◌%◌, ◌^◌, ◌≤◌, ◌<◌, ◌≡◌, refl, sym, ap, ◌∙◌, arith}
use sserialize.Base.{Bool-cases, inl, inr, List, [], ◌∷◌, ◌++◌, append_assoc, append-nil}
use sserialize.Base.{length, length-append, some, ℤ, abs, sub_ℕ, eqb, eqb→eq}
use sserialize.Storage.Adapter.{Adapter}
use sserialize.Storage.Stream.Append.{IsAtEnd, appended, appended-IsAtEnd}
use sserialize.Storage.Stream.Read.{unread}
use sserialize.Base.{◌-◌, drop, drop-take, drop-add, drop-append, take-all, sym}
use sserialize.RleStream.{
  stream, Creator, create, flush, is_int32, put, put_all, Stream, read_values,
}
use sserialize.RleStream.Chunk.{
  flush_bytes, IsRun, last_or, IsReady, read_values-Reads, Decodes, Decodes-append,
}
use sserialize.RleStream.Flush.{
  appended-appended, flushed, flush-flushed, length-flush_bytes, IsRun-snoc, last_or-snoc,
  last_or-lt, Decodes-flush_bytes,
}

-- `vs` are uint32s whose differences, from `b` on, are below `2 ^ 31`.
abbrev pub IsClose : ℕ → List ℕ → Type 0
IsClose b [] = Unit {0}
IsClose b (v ∷ vs) = (v < 2 ^ 32) × (abs (sub_ℕ v b) < 2 ^ 31) × IsClose v vs

-- A creator with the run `ps` from `b` on in its counters.
record IsPending (c : Creator) (b : ℕ) (ps : List ℕ) : Type 0 where
  at_end : IsAtEnd c.dest
  start : b < 2 ^ 32
  count : c.rle_count ≡ length ps
  last : c.prev_id ≡ last_or b ps
  run : IsRun b c.rle_diff ps
  close : abs c.rle_diff < 2 ^ 31

appended-bounds :
    (d : Adapter) (xs : List ℕ)
    → ((appended d xs).off_set ≡ d.off_set) × ((appended d xs).len ≡ d.len + length xs)
unfolding appended
appended-bounds d xs = (refl, refl)

abbrev Fits : Creator → List ℕ → List ℕ → Type 0
Fits c ps vs =
    (length ps + length vs < 2 ^ 30) × (c.dest.off_set + c.dest.len + 20 * (length vs + 1) < 2 ^ 63)

flush-IsPending :
    (c : Creator) (b : ℕ) (ps : List ℕ)
    → IsPending c b ps
    → length ps < 2 ^ 30
    → c.dest.off_set + c.dest.len + 20 < 2 ^ 63
    → (flush c ≡ some (flushed c))
      × Decodes b (flush_bytes c.prev_id c.rle_diff c.rle_count) ps (last_or b ps)
flush-IsPending c b ps h small room = (
  flush-flushed c h.at_end room (rw h.last (last_or-lt ps b c.rle_diff h.start h.run)) h.close
      (omega arith),
  rw (h.last, h.count) (Decodes-flush_bytes ps b c.rle_diff h.run h.start small h.close),
)

is_int32-close : (d : ℤ) → abs d < 2 ^ 31 → is_int32 d ≡ true
unfolding is_int32
is_int32-close d h = ground arith

abbrev pub longer : Creator → ℕ → Creator
longer c v = record c { rle_count = (c.rle_count + 1) % 2 ^ 32; prev_id = v }

abbrev pub restarted : Creator → ℕ → Creator
restarted c v = record (flushed c) { rle_count = 1; rle_diff = sub_ℕ v c.prev_id; prev_id = v }

module _ (c : Creator) (b v : ℕ) (ps : List ℕ) (h : IsPending c b ps) (hv : v < 2 ^ 32)
    (near : abs (sub_ℕ v (last_or b ps)) < 2 ^ 31) (small : length ps + 1 < 2 ^ 30)
    (room : c.dest.off_set + c.dest.len + 20 < 2 ^ 63) where
  put-longer : eqb (sub_ℕ v c.prev_id) c.rle_diff ≡ true → put c v ≡ some (longer c v)
  unfolding put
  put-longer same = rw (same, is_int32-close (sub_ℕ v c.prev_id) (rw h.last near)) refl

  longer-IsPending :
      eqb (sub_ℕ v c.prev_id) c.rle_diff ≡ true → IsPending (longer c v) b (ps ++ (v ∷ []))
  longer-IsPending same = record {
    at_end = h.at_end;
    start = h.start;
    count = omega (arith, h.count, length-append ps (v ∷ []));
    last = rw (last_or-snoc ps b v) refl;
    run =
        IsRun-snoc ps b v c.rle_diff h.run hv
          (ap (λ (t : ℕ). sub_ℕ v t) (sym h.last) ∙ eqb→eq (sub_ℕ v c.prev_id) c.rle_diff same);
    close = h.close;
  }

  put-restarted : eqb (sub_ℕ v c.prev_id) c.rle_diff ≡ false → put c v ≡ some (restarted c v)
  unfolding put
  put-restarted other =
      rw
        (
          other,
          is_int32-close (sub_ℕ v c.prev_id) (rw h.last near),
          (flush-IsPending c b ps h (omega arith) room).0,
        )
        refl

  restarted-IsPending : IsPending (restarted c v) (last_or b ps) (v ∷ [])
  restarted-IsPending = record {
    at_end = appended-IsAtEnd c.dest (flush_bytes c.prev_id c.rle_diff c.rle_count) h.at_end;
    start = last_or-lt ps b c.rle_diff h.start h.run;
    count = refl;
    last = refl;
    run = (ap (λ (t : ℕ). sub_ℕ v t) (sym h.last), hv, tt);
    close = rw h.last near;
  }

-- The values of a creator's run and of the rest of its input are read back from what it writes.
put_all-Decodes :
    (vs ps : List ℕ) (c : Creator) (b : ℕ)
    → IsPending c b ps
    → IsClose (last_or b ps) vs
    → Fits c ps vs
    → (bytes : List ℕ) × (c' : Creator) × (e : ℕ) × (put_all c vs ≡ some c')
      × (c'.dest ≡ appended c.dest bytes)
      × Decodes b bytes (ps ++ vs) e
      × (c.dest.off_set + c.dest.len + length bytes < 2 ^ 63)
unfolding put_all
put_all-Decodes [] ps c b h close (small, room) =
    let (f, k) = flush-IsPending c b ps h (omega arith) (omega arith) in
    (
      flush_bytes c.prev_id c.rle_diff c.rle_count,
      flushed c,
      last_or b ps,
      f,
      refl,
      (rw append-nil k),
      (let le = length-flush_bytes c.prev_id c.rle_diff c.rle_count in omega arith),
    )
put_all-Decodes (v ∷ vs) ps c b h (hv, near, close) (small, room) =
    elim (Bool-cases (eqb (sub_ℕ v c.prev_id) c.rle_diff)) [
      | inl same ↦
          let close' : IsClose (last_or b (ps ++ (v ∷ []))) vs = rw (last_or-snoc ps b v) close in
          let (bytes, c', e, p, w, k, q) =
            put_all-Decodes vs (ps ++ (v ∷ [])) (longer c v) b
              (longer-IsPending c b v ps h hv near (omega arith) (omega arith) same) close'
              (omega (arith, length-append ps (v ∷ [])), omega arith) in
          (
            bytes,
            c',
            e,
            rw (put-longer c b v ps h hv near (omega arith) (omega arith) same) p,
            w,
            (rw append_assoc at k),
            q,
          )
      | inr other ↦
          let g = flush_bytes c.prev_id c.rle_diff c.rle_count in
          let (f, d) = flush-IsPending c b ps h (omega arith) (omega arith) in
          let le : length g ≤ 15 = length-flush_bytes c.prev_id c.rle_diff c.rle_count in
          let (bytes, c', e, p, w, k, q) =
            put_all-Decodes vs (v ∷ []) (restarted c v) (last_or b ps)
              (restarted-IsPending c b v ps h hv near (omega arith) (omega arith)) close
              (omega arith, (unfold appended in omega arith)) in
          (
            g ++ bytes,
            c',
            e,
            rw (put-restarted c b v ps h hv near (omega arith) (omega arith) other) p,
            w ∙ appended-appended c.dest g bytes,
            Decodes-append b (last_or b ps) e g bytes ps (v ∷ vs) d k,
            (let o = length-append g bytes in let (a, b) = appended-bounds c.dest g in omega arith),
          )
    ]

-- Behind an append the appended bytes are unread from the old end on.
unread-appended :
    (d : Adapter) (bytes : List ℕ)
    → d.off_set + d.len ≡ length d.storage
    → unread (record (appended d bytes) { get_ptr = d.len }) ≡ bytes
unfolding appended
unread-appended d bytes e =
    let n : d.len + length bytes - d.len ≡ length bytes = omega arith in
    rw
      (
        drop-take d.len (d.len + length bytes) (drop d.off_set (d.storage ++ bytes)),
        n,
        ← drop-add d.off_set d.len (d.storage ++ bytes),
        e,
        drop-append d.storage bytes,
      )
      (take-all (length bytes) bytes (omega arith))

-- Values below 2^32 whose consecutive differences (the first one from 0) are below 2^31 in
-- magnitude, fewer than 2^30 of them, are put into a creator whose destination's put pointer is
-- at the end of the storage, where 20 bytes for each of them and 20 more stay below 2^63. Then no put
-- throws, and a stream that starts where the destination ended reads the same values in order
-- and has then read all bytes.
pub read_values-put_all :
    (dest : Adapter) (vs : List ℕ)
    → IsAtEnd dest
    → IsClose 0 vs
    → length vs < 2 ^ 30
    → dest.off_set + dest.len + 20 * (length vs + 1) < 2 ^ 63
    → (c : Creator) × (u : Stream) × (put_all (create dest) vs ≡ some c)
      × (read_values (length vs) (stream (record c.dest { get_ptr = dest.len })) ≡ some (vs, u))
      × (unread u.d ≡ [])
unfolding create stream
read_values-put_all dest vs a close small room =
    let h : IsPending (create dest) 0 [] = record {
      at_end = a;
      start = omega arith;
      count = refl;
      last = refl;
      run = tt;
      close = omega arith;
    } in
    let (bytes, c, e, p, w, k, q) =
      put_all-Decodes vs [] (create dest) 0 h close (omega arith, room) in
    let s : Stream = stream (record c.dest { get_ptr = dest.len }) in
    let at_end : IsAtEnd c.dest = rw w (appended-IsAtEnd dest bytes a) in
    let l : c.dest.len ≡ dest.len + length bytes =
      ap (λ (t : Adapter). t.len) w ∙ (unfold appended in refl) in
    let x : unread (record c.dest { get_ptr = dest.len }) ≡ bytes ++ [] =
      ap (λ (t : Adapter). unread (record t { get_ptr = dest.len })) w
      ∙ unread-appended dest bytes a.whole
      ∙ sym (append-nil bytes) in
    let ready : IsReady s 0 (bytes ++ []) = record {
      valid = record { inside = ground arith; get_inside = omega arith; put_inside = ground arith };
      small = omega arith;
      no_run = refl;
      at_value = refl;
      ahead = x;
    } in
    let (u, reads, done) = k s [] ready in (c, u, p, read_values-Reads reads, done.ahead)
