-- ===== src/ItemIndex/Delta/Encode.antt =====
-- What a creator appends for its ids, and that the differences are read back as the ids.
use sserialize.Base.{
  ℕ, suc, ◌+◌, ◌-◌, ◌*◌, ◌%◌, ◌^◌, ◌<◌, ◌≤◌, ◌≡◌, refl, arith, List, [], ◌∷◌, ◌++◌, append_assoc,
}
use sserialize.Base.{length, length-append, some, All}
use sserialize.Pack.Varint.Groups.{groups, length-groups-le, length-groups-pos}
use sserialize.Storage.Adapter.{Adapter}
use sserialize.Storage.Adapter.Valid.{IsValid}
use sserialize.Storage.Stream.Append.{
  IsAtEnd, appended, appended-IsAtEnd, put_vl_packed_uint32-appended,
}
use sserialize.Storage.Stream.Read.{unread, advanced, advanced-unread, get_vl_packed_uint32-groups}
use sserialize.RleStream.Flush.{appended-appended, appended-nil}
use sserialize.ItemIndex.Delta.{DeltaCreator, push_back, push_all, read_ids}

-- The differences of 32 bits, each in its groups.
unfoldable pub deltas : ℕ → List ℕ → List ℕ
deltas prev [] = []
deltas prev (id ∷ ids) = groups 5 ((id + 2 ^ 32 - prev) % 2 ^ 32) ++ deltas id ids

abbrev pub last_id : ℕ → List ℕ → ℕ
last_id prev [] = prev
last_id prev (id ∷ ids) = last_id id ids

-- Each id takes a byte at least, and five at most.
pub length-deltas :
    (prev : ℕ) (ids : List ℕ)
    → (length ids ≤ length (deltas prev ids)) × (length (deltas prev ids) ≤ 5 * length ids)
unfolding deltas
length-deltas prev [] = omega arith
length-deltas prev (id ∷ ids) =
    let x = (id + 2 ^ 32 - prev) % 2 ^ 32 in
    omega (
      arith,
      length-append (groups 5 x) (deltas id ids),
      length-groups-le 5 x,
      length-groups-pos 4 x,
      length-deltas id ids,
    )

-- The creator with more ids behind its others.
abbrev pub pushed : DeltaCreator → List ℕ → DeltaCreator
pushed c ids = record {
  dest = appended c.dest (deltas c.prev ids);
  beginning = c.beginning;
  prev = last_id c.prev ids;
  count = c.count + length ids;
}

pub push_back-groups :
    (c : DeltaCreator) (id : ℕ)
    → IsAtEnd c.dest
    → c.dest.off_set + c.dest.len + 10 < 2 ^ 63
    → c.count + 1 < 2 ^ 32
    → push_back c id
      ≡ some (record c {
        dest = appended c.dest (groups 5 ((id + 2 ^ 32 - c.prev) % 2 ^ 32));
        prev = id;
        count = c.count + 1;
      })
unfolding push_back
push_back-groups c id a room few =
    let x = (id + 2 ^ 32 - c.prev) % 2 ^ 32 in
    let e : (c.count + 1) % 2 ^ 32 ≡ c.count + 1 = omega arith in
    rw (put_vl_packed_uint32-appended c.dest a x (omega arith) room, e) refl

-- The ids of a loop over push_back reach the end of the storage as their differences.
pub push_all-pushed :
    (ids : List ℕ) (c : DeltaCreator)
    → IsAtEnd c.dest
    → c.dest.off_set + c.dest.len + 5 * length ids + 10 < 2 ^ 63
    → c.count + length ids < 2 ^ 32
    → push_all c ids ≡ some (pushed c ids)
unfolding push_all deltas
push_all-pushed [] c a room few =
    let e : c.count + 0 ≡ c.count = omega arith in rw (appended-nil c.dest, e) refl
push_all-pushed (id ∷ ids) c a room few =
    let x = (id + 2 ^ 32 - c.prev) % 2 ^ 32 in
    let c' : DeltaCreator = record c {
      dest = appended c.dest (groups 5 x);
      prev = id;
      count = c.count + 1;
    } in
    let g = length-groups-le 5 x in
    let h =
      push_all-pushed ids c' (appended-IsAtEnd c.dest (groups 5 x) a)
        (unfold appended in omega arith) (omega arith) in
    let e : c.count + 1 + length ids ≡ c.count + suc (length ids) = omega arith in
    rw (push_back-groups c id a (omega arith) (omega arith), h, appended-appended, e) refl

-- Where the differences of ids are next, they are read back as the ids.
pub read_ids-deltas :
    (ids : List ℕ) (d : Adapter) (prev : ℕ) (more : List ℕ)
    → IsValid d
    → d.len < 2 ^ 63
    → prev < 2 ^ 32
    → All (λ id. id < 2 ^ 32) ids
    → unread d ≡ deltas prev ids ++ more
    → (e : Adapter) × (read_ids (length ids) d prev ≡ some (ids, e)) × (unread e ≡ more)
unfolding read_ids deltas
read_ids-deltas [] d prev more v small hp all h = (d, refl, h)
read_ids-deltas (id ∷ ids) d prev more v small hp (hi, all) h =
    let x = (id + 2 ^ 32 - prev) % 2 ^ 32 in
    let h' : unread d ≡ groups 5 x ++ (deltas id ids ++ more) = rw append_assoc at h in
    let (v', h'') = advanced-unread d v small (groups 5 x) (deltas id ids ++ more) h' in
    let back : (prev + x) % 2 ^ 32 ≡ id = omega arith in
    let (e, r, q) =
      read_ids-deltas ids (advanced d (length (groups 5 x))) id more v' (unfold advanced in small)
        hi all h'' in
    (
      e,
      rw (get_vl_packed_uint32-groups d v small (deltas id ids ++ more) x (omega arith) h', back, r)
          refl,
      q,
    )
