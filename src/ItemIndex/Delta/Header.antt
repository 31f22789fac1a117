-- ===== src/ItemIndex/Delta/Header.antt =====
-- The header of ItemIndexPrivateDECreator's index, wherever in its destination the index begins.
use sserialize.Base.{
  ℕ, false, ◌+◌, ◌-◌, ◌%◌, ◌^◌, ◌<◌, ◌≤◌, ◌≡◌, refl, sym, ap, ◌∙◌, arith, List, [], ◌∷◌, ◌++◌,
  append_assoc,
}
use sserialize.Base.{
  ltb, length, length-append, drop, drop-add, drop-append, take-length-append, take-all, some,
}
use sserialize.Pack.Fixed.{p_u32, word_bytes}
use sserialize.Pack.Fixed.RoundTrip.{read_word-word_bytes}
use sserialize.Storage.Adapter.{Adapter, sub_adapter, sub_adapter_len}
use sserialize.Storage.Adapter.Valid.{IsValid}
use sserialize.Storage.Stream.{
  range_check, write_at, put_word_at, put_uint32_at, get_word_at, get_uint32_at,
}
use sserialize.Storage.Stream.Read.{unread}
use sserialize.ItemIndex.Delta.{flush_index, open_index}

abbrev pub no_word : List ℕ
no_word = 0 ∷ 0 ∷ 0 ∷ 0 ∷ []

-- Bytes in the middle are replaced by as many.
write_at-middle :
    (front old new rest : List ℕ) (p : ℕ)
    → p ≡ length front
    → length old ≡ length new
    → write_at (front ++ (old ++ rest)) p new ≡ front ++ (new ++ rest)
unfolding write_at
write_at-middle front old new rest p e l =
    let d : drop (length front + length new) (front ++ (old ++ rest)) ≡ rest =
      drop-add (length front) (length new) (front ++ (old ++ rest))
      ∙ rw (drop-append front (old ++ rest), ← l) (drop-append old rest) in
    rw (e, take-length-append front (old ++ rest), d) refl

-- `front` are the bytes before the index, which begins `b` bytes behind the window's start.
module _ (front : List ℕ) (o b g : ℕ) (begin : o + b ≡ length front) where
  -- An adapter on the index of `n` bytes, and its put pointer at their end.
  abbrev pub placed : List ℕ → ℕ → Adapter
  placed tail n = record {
    storage = front ++ tail;
    off_set = o;
    len = b + n;
    get_ptr = g;
    put_ptr = b + n;
  }

  put_uint32_at-placed :
      (before rest : List ℕ) (n p v : ℕ)
      → p ≡ b + length before
      → length before + 4 ≤ n
      → b + n < 2 ^ 63
      → put_uint32_at (placed (before ++ (no_word ++ rest)) n) p v
        ≡ some (placed (before ++ (word_bytes 4 v ++ rest)) n)
  unfolding put_uint32_at put_word_at range_check p_u32
  put_uint32_at-placed before rest n p v e le small =
      let l : length (word_bytes 4 v) ≡ 4 = unfold word_bytes in refl in
      let r : ltb (b + n) ((p + 4) % 2 ^ 64) ≡ false = ground arith in
      let w : write_at (front ++ (before ++ (no_word ++ rest))) (o + p) (word_bytes 4 v)
          ≡ front ++ (before ++ (word_bytes 4 v ++ rest)) =
        ap (λ (s : List ℕ). write_at s (o + p) (word_bytes 4 v))
          (sym (append_assoc front before (no_word ++ rest)))
        ∙ write_at-middle (front ++ before) no_word (word_bytes 4 v) rest (o + p)
            (omega (arith, length-append front before)) (sym l)
        ∙ append_assoc front before (word_bytes 4 v ++ rest) in
      rw (l, r, w) refl

  module _ (body : List ℕ) (n : ℕ) (small : length body < 2 ^ 32) (few : n ≤ length body)
      (fits : b + length body + 8 < 2 ^ 63) where
    -- The header and the body that flush leaves.
    abbrev pub whole : List ℕ
    whole = word_bytes 4 (length body) ++ (word_bytes 4 n ++ body)

    pub flush_index-placed :
        (prev : ℕ)
        → flush_index (record {
          dest = placed (no_word ++ (no_word ++ body)) (8 + length body);
          beginning = b;
          prev = prev;
          count = n;
        })
          ≡ some (record {
            dest = placed whole (8 + length body);
            beginning = b;
            prev = prev;
            count = n;
          })
    unfolding flush_index
    flush_index-placed prev =
        let size = 8 + length body in
        let e : (b + size + 2 ^ 64 - (b + 8)) % 2 ^ 64 % 2 ^ 32 ≡ length body = omega arith in
        let l : length (word_bytes 4 (length body)) ≡ 4 = unfold word_bytes in refl in
        let first =
          put_uint32_at-placed [] (no_word ++ body) size b (length body) (omega arith) (omega arith)
            (omega arith) in
        let second =
          put_uint32_at-placed (word_bytes 4 (length body)) body size (b + 4) n (omega (arith, l))
            (omega (arith, l)) (omega arith) in
        rw (e, first, second) refl

    -- The window of the index, with any pointers.
    abbrev from_begin : ℕ → ℕ → Adapter
    from_begin p q = record {
      storage = front ++ whole;
      off_set = o + b;
      len = 8 + length body;
      get_ptr = p;
      put_ptr = q;
    }

    sub_adapter-placed :
        let d = placed whole (8 + length body) in
        sub_adapter d b ≡ from_begin (sub_adapter d b).get_ptr (sub_adapter d b).put_ptr
    unfolding sub_adapter
    sub_adapter-placed =
        let l : ltb (b + (8 + length body)) b ≡ false = ground arith in
        let m : b + (8 + length body) - b ≡ 8 + length body = omega arith in rw (l, m) refl

    from-front : drop (o + b) (front ++ whole) ≡ whole
    from-front = rw begin (drop-append front whole)

    -- The window of the body.
    abbrev pub body_window : Adapter
    body_window = record {
      storage = front ++ whole;
      off_set = o + b + 8;
      len = length body;
      get_ptr = 0;
      put_ptr = 0;
    }

    module _ (p q : ℕ) where
      size_word : get_uint32_at (from_begin p q) 0 ≡ some (length body)
      unfolding get_uint32_at get_word_at range_check
      size_word =
          let r : ltb (8 + length body) ((0 + 4) % 2 ^ 64) ≡ false = ground arith in
          let z : o + b + 0 ≡ o + b = omega arith in
          rw (r, z, from-front)
            (read_word-word_bytes 4 (length body) (word_bytes 4 n ++ body) (omega arith))

      count_word : get_uint32_at (from_begin p q) 4 ≡ some n
      unfolding get_uint32_at get_word_at range_check
      count_word =
          let r : ltb (8 + length body) ((4 + 4) % 2 ^ 64) ≡ false = ground arith in
          rw (r, drop-add (o + b) 4 (front ++ whole), from-front)
            (unfold word_bytes in read_word-word_bytes 4 n body (omega arith))

      sub-body : sub_adapter_len (from_begin p q) 8 (length body) ≡ body_window
      unfolding sub_adapter_len
      sub-body =
          let l : ltb (8 + length body) 8 ≡ false = ground arith in
          let m : 8 + length body - 8 ≡ length body = omega arith in
          let k : ltb (length body) (length body) ≡ false = ground arith in rw (l, m, k) refl

      open_index-from : open_index (from_begin p q) ≡ some (record { body = body_window; size = n })
      unfolding open_index
      open_index-from =
          let k : ltb (length body) n ≡ false = ground arith in
          rw (size_word, count_word, sub-body, k) refl

    pub open_index-placed :
        open_index (sub_adapter (placed whole (8 + length body)) b)
        ≡ some (record { body = body_window; size = n })
    open_index-placed =
        let d = placed whole (8 + length body) in
        ap (λ (a : Adapter). open_index a) sub_adapter-placed
        ∙ open_index-from (sub_adapter d b).get_ptr (sub_adapter d b).put_ptr

    pub body_window-IsValid : IsValid body_window
    body_window-IsValid =
        let l : length whole ≡ 8 + length body = unfold word_bytes in omega arith in
        omega (arith, length-append front whole)

    pub body-unread : unread body_window ≡ body
    body-unread =
        let d : drop (o + b + 8) (front ++ whole) ≡ body =
          drop-add (o + b) 8 (front ++ whole) ∙ rw from-front (unfold word_bytes in refl) in
        rw d (take-all (length body) body (omega arith))
