-- ===== src/RleStream/Flush.antt =====
-- What flush writes, as bytes at the end of the storage.
use sserialize.Base.{ℕ, ◌+◌, ◌*◌, ◌%◌, ◌^◌, ◌≤◌, ◌<◌, ◌≡◌, refl, arith}
use sserialize.Base.{
  ltb, ◌==◌, Bool-cases, inl, inr, bit_or, List, [], ◌∷◌, ◌++◌, append_assoc, append-nil,
}
use sserialize.Base.{length, length-append, some, ◌>>=◌, ℤ, pos, abs, is_negative, sub_ℕ}
use sserialize.Base.Bits.{bit_or_fields}
use sserialize.Pack.Varint.Groups.{groups, length-groups-le}
use sserialize.Pack.Signed.{with_sign}
use sserialize.Storage.Adapter.{Adapter}
use sserialize.Storage.Stream.Append.{IsAtEnd, appended, appended-IsAtEnd}
use sserialize.Storage.Stream.Append.{put_vl_packed_uint64-appended, put_vl_packed_int32-appended}
use sserialize.RleStream.{Creator, cleared, put_word, put_diff, flush}
use sserialize.RleStream.Chunk.{flush_bytes, IsRun, last_or, done, Decodes, Decodes-single}
use sserialize.RleStream.Run.{Decodes-run}

pub appended-appended :
    (d : Adapter) (xs ys : List ℕ) → appended (appended d xs) ys ≡ appended d (xs ++ ys)
unfolding appended
appended-appended d xs ys = ground (arith, append_assoc d.storage xs ys, length-append xs ys)

pub appended-nil : (d : Adapter) → appended d [] ≡ d
unfolding appended
appended-nil d = ground (arith, append-nil d.storage)

module _ (c : Creator) (a : IsAtEnd c.dest) (room : c.dest.off_set + c.dest.len + 10 < 2 ^ 63) where
  put_word-groups :
      (w : ℕ) → w < 2 ^ 64 → put_word c w ≡ some (record c { dest = appended c.dest (groups 10 w) })
  unfolding put_word
  put_word-groups w h = rw (put_vl_packed_uint64-appended c.dest a w h room)

  put_diff-groups :
      abs c.rle_diff < 2 ^ 31
      → put_diff c ≡ some (record c { dest = appended c.dest (groups 5 (with_sign 32 c.rle_diff)) })
  unfolding put_diff
  put_diff-groups h = rw (put_vl_packed_int32-appended c.dest a c.rle_diff h room)

-- A word of a number below `2 ^ 62` and a tag.
tagged : (n tag : ℕ) → n < 2 ^ 62 → tag < 4 → bit_or (n * 4 % 2 ^ 64) tag ≡ n * 4 + tag
tagged n tag h t =
    let e : n * 4 % 2 ^ 64 ≡ n * 2 ^ 2 = omega arith in
    rw e (omega (arith, bit_or_fields 2 n tag t))

abbrev pub flushed : Creator → Creator
flushed c = record {
  dest = appended c.dest (flush_bytes c.prev_id c.rle_diff c.rle_count);
  prev_id = c.prev_id;
  rle_diff = pos 0;
  rle_count = 0;
}

module _ (c : Creator) (a : IsAtEnd c.dest) (room : c.dest.off_set + c.dest.len + 20 < 2 ^ 63)
    (hp : c.prev_id < 2 ^ 32) (hd : abs c.rle_diff < 2 ^ 31) (hc : c.rle_count < 2 ^ 30) where
  abbrev word_at_end : ℕ → Creator
  word_at_end w = record c { dest = appended c.dest (groups 10 w) }

  put_tagged :
      (n tag : ℕ)
      → n < 2 ^ 32
      → tag < 4
      → put_word c (bit_or (n * 4 % 2 ^ 64) tag) ≡ some (word_at_end (n * 4 + tag))
  put_tagged n tag h t =
      rw (tagged n tag (omega arith) t)
        (put_word-groups c a (omega arith) (n * 4 + tag) (omega arith))

  put_run :
      (put_word c (bit_or (c.rle_count * 4 % 2 ^ 32) 3) >>= put_diff)
      ≡ some (record c {
        dest =
            appended c.dest (groups 10 (c.rle_count * 4 + 3) ++ groups 5 (with_sign 32 c.rle_diff));
      })
  put_run =
      let w = c.rle_count * 4 + 3 in
      let e : c.rle_count * 4 % 2 ^ 32 ≡ c.rle_count * 4 % 2 ^ 64 = omega arith in
      let f : length (groups 10 w) ≤ 10 = length-groups-le 10 w in
      rw
        (
          e,
          put_tagged c.rle_count 3 (omega arith) (omega arith),
          put_diff-groups (word_at_end w) (appended-IsAtEnd c.dest (groups 10 w) a)
              (unfold appended in omega arith) hd,
          appended-appended,
        )
        refl

  -- flush writes the words of its run.
  pub flush-flushed : flush c ≡ some (flushed c)
  unfolding flush flush_bytes cleared
  flush-flushed = elim (Bool-cases (c.rle_count == 1)) [
    | inl one ↦ elim (Bool-cases (ltb (abs c.rle_diff) c.prev_id)) [
      | inl near ↦ elim (Bool-cases (is_negative c.rle_diff)) [
        | inl n ↦ rw (one, near, n, put_tagged (abs c.rle_diff) 1 (omega arith) (omega arith)) refl
        | inr p ↦ rw (one, near, p, put_tagged (abs c.rle_diff) 0 (omega arith) (omega arith)) refl
      ]
      | inr far ↦ rw (one, far, put_tagged c.prev_id 2 hp (omega arith)) refl
    ]
    | inr not_one ↦ elim (Bool-cases (ltb 1 c.rle_count)) [
      | inl many ↦ rw (not_one, many, put_run) refl
      | inr few ↦ rw (not_one, few, appended-nil c.dest) refl
    ]
  ]

pub length-flush_bytes : (p : ℕ) (d : ℤ) (n : ℕ) → length (flush_bytes p d n) ≤ 15
unfolding flush_bytes
length-flush_bytes p d n = ground (
  arith,
  length-groups-le 10 (abs d * 4 + 1),
  length-groups-le 10 (abs d * 4 + 0),
  length-groups-le 10 (p * 4 + 2),
  length-groups-le 10 (n * 4 + 3),
  length-groups-le 5 (with_sign 32 d),
  length-append (groups 10 (n * 4 + 3)) (groups 5 (with_sign 32 d)),
)

pub IsRun-snoc :
    (ps : List ℕ) (b v : ℕ) (d : ℤ)
    → IsRun b d ps
    → v < 2 ^ 32
    → sub_ℕ v (last_or b ps) ≡ d
    → IsRun b d (ps ++ (v ∷ []))
IsRun-snoc [] b v d run h e = (e, h, tt)
IsRun-snoc (p ∷ ps) b v d (q, k, run) h e = (q, k, IsRun-snoc ps p v d run h e)

pub last_or-snoc : (ps : List ℕ) (b v : ℕ) → last_or b (ps ++ (v ∷ [])) ≡ v
last_or-snoc [] b v = refl
last_or-snoc (p ∷ ps) b v = last_or-snoc ps p v

pub last_or-lt : (ps : List ℕ) (b : ℕ) (d : ℤ) → b < 2 ^ 32 → IsRun b d ps → last_or b ps < 2 ^ 32
last_or-lt [] b d h run = h
last_or-lt (p ∷ ps) b d h (e, k, run) = last_or-lt ps p d k run

-- What flush writes for a run is read back as the run.
pub Decodes-flush_bytes :
    (ps : List ℕ) (b : ℕ) (d : ℤ)
    → IsRun b d ps
    → b < 2 ^ 32
    → length ps < 2 ^ 30
    → abs d < 2 ^ 31
    → Decodes b (flush_bytes (last_or b ps) d (length ps)) ps (last_or b ps)
Decodes-flush_bytes [] b d run hb hl hd = unfold flush_bytes in λ s more r. (s, done, r)
Decodes-flush_bytes (p ∷ []) b d (e, hp, run) hb hl hd = Decodes-single b p d e hb hp
Decodes-flush_bytes (p ∷ q ∷ ps) b d run hb hl hd =
    Decodes-run p (q ∷ ps) b d run hb (omega arith) (omega arith) hd
