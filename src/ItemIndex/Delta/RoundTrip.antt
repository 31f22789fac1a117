-- ===== src/ItemIndex/Delta/RoundTrip.antt =====
-- An index that a creator builds holds the ids that were pushed.
use sserialize.Base.{
  ℕ, ◌+◌, ◌*◌, ◌^◌, ◌<◌, ◌≡◌, ◌⊎◌, inl, inr, refl, sym, ◌∙◌, arith, List, [], ◌++◌, append-nil,
  append_assoc,
}
use sserialize.Base.{length, length-append, some, ◌>>=◌, All}
use sserialize.Pack.Fixed.{p_u32, word_bytes}
use sserialize.Storage.Adapter.{Adapter, of_vector}
use sserialize.Storage.Stream.{
  put_uint32, put_word, resize_for_push, range_check, write_at, put_word_at,
}
use sserialize.Storage.Stream.Append.{IsAtEnd, appended, appended-IsAtEnd, put_word-appended}
use sserialize.ItemIndex.Delta.{
  DeltaIndex, DeltaCreator, create_cache, create_index, push_all, flush_index,
}
use sserialize.ItemIndex.Delta.{get_private_index, put_into}
use sserialize.ItemIndex.Delta.Encode.{
  deltas, length-deltas, last_id, pushed, push_all-pushed, read_ids-deltas,
}
use sserialize.ItemIndex.Delta.Header.{
  no_word, placed, whole, flush_index-placed, body_window, open_index-placed, body_window-IsValid,
  body-unread,
}

module _ (front : List ℕ) (o b g : ℕ) (begin : o + b ≡ length front) where
  -- A creator that has just written its header behind `front`.
  abbrev pub started : DeltaCreator
  started = record {
    dest = placed front o b g begin (no_word ++ no_word) 8;
    beginning = b;
    prev = 0;
    count = 0;
  }

  appended-placed :
      (body : List ℕ)
      → appended (placed front o b g begin (no_word ++ no_word) 8) body
        ≡ placed front o b g begin (no_word ++ (no_word ++ body)) (8 + length body)
  unfolding appended
  appended-placed body =
      let e : b + 8 + length body ≡ b + (8 + length body) = omega arith in
      rw (append_assoc front (no_word ++ no_word) body, e) refl

  -- What the flush of these ids leaves is opened as an index that gives them back.
  pub finish-pushed :
      (ids : List ℕ) (last : ℕ)
      → All (λ id. id < 2 ^ 32) ids
      → length ids < 2 ^ 28
      → o + b + 5 * length ids + 18 < 2 ^ 63
      → (c : DeltaCreator) × (i : DeltaIndex) × (flush_index
            (record (pushed started ids) { prev = last })
          ≡ some c)
        × (get_private_index c ≡ some i)
        × (i.size ≡ length ids)
        × (put_into i ≡ some ids)
  unfolding get_private_index put_into
  finish-pushed ids last all few fits =
      let body = deltas 0 ids in
      let (lo, hi) = length-deltas 0 ids in
      let small : length body < 2 ^ 32 = omega arith in
      let room : b + length body + 8 < 2 ^ 63 = omega arith in
      let z : 0 + length ids ≡ length ids = omega arith in
      let w = body_window front o b g begin body (length ids) small lo room in
      let (e, r, q) =
        read_ids-deltas ids w 0 []
          (body_window-IsValid front o b g begin body (length ids) small lo room) (omega arith)
          (omega arith) all
          (body-unread front o b g begin body (length ids) small lo room ∙ sym (append-nil body)) in
      (
        record {
          dest =
              placed front o b g begin (whole front o b g begin body (length ids) small lo room)
                (8 + length body);
          beginning = b;
          prev = last;
          count = length ids;
        },
        record { body = w; size = length ids },
        rw
            (
              appended-placed body,
              z,
              flush_index-placed front o b g begin body (length ids) small lo room last,
            )
            refl,
        open_index-placed front o b g begin body (length ids) small lo room,
        refl,
        rw r refl,
      )

-- The creator on a new cache writes over its zeros.
abbrev pub created : DeltaCreator
created = started [] 0 0 0 refl

pub create_index-created : create_index (create_cache 8) ≡ some created
unfolding create_index create_cache of_vector put_uint32 put_word resize_for_push range_check
    put_word_at write_at p_u32 word_bytes
create_index-created = refl

-- A creator behind the bytes of its destination.
create_index-started :
    (d : Adapter) (a : IsAtEnd d)
    → d.off_set + d.len + 8 < 2 ^ 63
    → (begin : d.off_set + d.put_ptr ≡ length d.storage)
    → create_index d ≡ some (started d.storage d.off_set d.put_ptr d.get_ptr begin)
unfolding create_index put_uint32 p_u32 word_bytes appended
create_index-started d a fits begin =
    let p = a.at_end in
    let first = put_word-appended d a no_word (omega arith) (omega arith) in
    let second =
      put_word-appended (appended d no_word) (appended-IsAtEnd d no_word a) no_word (omega arith)
        (omega arith) in
    let l : d.len + 4 + 4 ≡ d.put_ptr + 8 = omega arith in
    let q : d.put_ptr + 4 + 4 ≡ d.put_ptr + 8 = omega arith in
    rw (first, second, append_assoc d.storage no_word no_word, l, q) refl

-- What a creator that has written its header does with the ids.
started-stored :
    (front : List ℕ) (o b g : ℕ) (begin : o + b ≡ length front) (ids : List ℕ)
    → All (λ id. id < 2 ^ 32) ids
    → length ids < 2 ^ 28
    → o + b + 5 * length ids + 18 < 2 ^ 63
    → (c : DeltaCreator) × (i : DeltaIndex) × ((push_all (started front o b g begin) ids
          >>= flush_index)
        ≡ some c)
      × (get_private_index c ≡ some i)
      × (i.size ≡ length ids)
      × (put_into i ≡ some ids)
started-stored front o b g begin ids all few fits =
    let (c, i, f, q, n, r) = finish-pushed front o b g begin ids (last_id 0 ids) all few fits in
    let at_end : IsAtEnd (placed front o b g begin (no_word ++ no_word) 8) = record {
      whole = end_whole;
      at_end = refl;
    } in
    let p = push_all-pushed ids (started front o b g begin) at_end (omega arith) (omega arith) in
    (c, i, rw p f, q, n, r)
  where
    end_whole : o + (b + 8) ≡ length (front ++ (no_word ++ no_word))
    end_whole = omega (arith, length-append front (no_word ++ no_word))

-- The calls on what the constructor leaves.
run_of :
    (d : Adapter) (ids : List ℕ) (c : DeltaCreator)
    → create_index d ≡ some c
    → (create_index d >>= (λ c. push_all c ids) >>= flush_index) ≡ (push_all c ids >>= flush_index)
run_of d ids c e = rw e refl

-- A creator is made on a new cache, or behind the bytes of a destination whose put pointer stands at the
-- end of its window and of its vector, which stays below 2 ^ 63 bytes; it is given fewer than 2 ^ 28 ids
-- of 32 bits, and flushed. Nothing throws, the index that it then opens at its beginning has as
-- many ids, and putInto gives the ids in their order.
pub put_into-push_all :
    (d : Adapter) (ids : List ℕ)
    → (d ≡ create_cache 8) ⊎ IsAtEnd d
    → d.off_set + d.len + 5 * length ids + 18 < 2 ^ 63
    → All (λ id. id < 2 ^ 32) ids
    → length ids < 2 ^ 28
    → (c : DeltaCreator) × (i : DeltaIndex) × ((create_index d
          >>= (λ c. push_all c ids)
          >>= flush_index)
        ≡ some c)
      × (get_private_index c ≡ some i)
      × (i.size ≡ length ids)
      × (put_into i ≡ some ids)
put_into-push_all d ids (inl e) fits all few =
    let (c, i, f, q, n, r) = started-stored [] 0 0 0 refl ids all few (omega arith) in
    (c, i, run_of d ids created (rw e create_index-created) ∙ f, q, n, r)
put_into-push_all d ids (inr a) fits all few =
    let p = a.at_end in
    let w = a.whole in
    let begin : d.off_set + d.put_ptr ≡ length d.storage = omega arith in
    let (c, i, f, q, n, r) =
      started-stored d.storage d.off_set d.put_ptr d.get_ptr begin ids all few (omega arith) in
    (
      c,
      i,
      run_of d ids (started d.storage d.off_set d.put_ptr d.get_ptr begin)
            (create_index-started d a (omega arith) begin)
          ∙ f,
      q,
      n,
      r,
    )
