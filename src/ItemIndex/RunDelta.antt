-- ===== src/ItemIndex/RunDelta.antt =====
-- src/containers/ItemIndexPrivates/ItemIndexPrivateRleDE.cpp and its header: an index whose ids are
-- stored as differences, where equal differences in a row are one run.
pub mod Runs
pub mod Read
pub mod Write
pub mod RoundTrip
pub mod PushRle
pub mod Cursor
pub mod Intersect
pub mod Operation
pub mod BitSet
pub mod PutBits
mod Examples
use sserialize.Base.{
  ℕ, zero, suc, true, false, ◌+◌, ◌-◌, ◌*◌, ◌/◌, ◌%◌, ◌^◌, ◌==◌, ltb, leb, if◌then◌else◌, Bool,
  bit_or, bit_and, List, [], ◌∷◌, ◌++◌, length, get_or,
}
use sserialize.Base.{Option, none, some, ◌>>=◌}
use sserialize.Storage.Adapter.{
  Adapter, window, of_vector, sub_adapter, set_put_ptr, reset_get_ptr, shrink_to_get_ptr, resize,
}
use sserialize.Storage.Stream.{put_data, put_vl_packed_uint32, get_vl_packed_uint32}

-- ItemIndexPrivateRleDECreator; m_data is its own vector, and m_dest is written at the end.
pub record RunCreator : Type 0 where
  pub dest : Adapter
  pub content : Adapter
  pub beginning : ℕ
  pub rle : ℕ
  pub last_diff : ℕ
  pub count : ℕ
  pub prev : ℕ

unfoldable pub creator_of : Adapter → RunCreator
creator_of d = record {
  dest = d;
  content = of_vector [];
  beginning = d.put_ptr;
  rle = 0;
  last_diff = 0;
  count = 0;
  prev = 0;
}

-- The words of the pending run; the results of putVlPackedUint32 are not looked at.
unfoldable pub put_run : RunCreator → Option RunCreator
put_run c =
    if c.rle == 0
    then some c
    else if c.rle == 1
    then (put_vl_packed_uint32 c.content (c.last_diff * 2 % 2 ^ 32) >>= λ r.
        some (record c { content = r.1 }))
    else (put_vl_packed_uint32 c.content (bit_or (c.rle * 2 % 2 ^ 32) 0x1) >>= λ r.
        put_vl_packed_uint32 r.1 (c.last_diff * 2 % 2 ^ 32) >>= λ s.
        some (record c { content = s.1 }))

unfoldable pub flush_rle : RunCreator → Option RunCreator
flush_rle c = put_run c >>= λ c'. some (record c' { rle = 0 })

-- The assertion that an id is greater than the one before it, which an optional build compiles in, is
-- left out: an id that is not greater has a difference that wraps around.
unfoldable pub push_back_run : RunCreator → ℕ → Option RunCreator
push_back_run c id =
    let diff = (id + 2 ^ 32 - c.prev) % 2 ^ 32 in
    if diff == c.last_diff
    then some (record c { rle = (c.rle + 1) % 2 ^ 32; prev = id; count = (c.count + 1) % 2 ^ 32 })
    else (put_run c >>= λ c'.
        some (record c' { rle = 1; last_diff = diff; prev = id; count = (c.count + 1) % 2 ^ 32 }))

-- `len` differences `delta` behind `next_id`; only the first of them can end a run. The optional
-- assertions that `delta` is not 0 and is the difference of the pending run are left out.
unfoldable pub push_rle : RunCreator → ℕ → ℕ → ℕ → Option RunCreator
push_rle c next_id delta len = push_back_run c next_id >>= λ c1.
    if len == 0
    then some c1
    else (push_back_run c1 ((next_id + delta) % 2 ^ 32) >>= λ c2. some (record c2 {
      rle = (c2.rle + (len - 1)) % 2 ^ 32;
      prev = (c2.prev + delta * (len - 1)) % 2 ^ 32;
      count = (c2.count + (len - 1)) % 2 ^ 32;
    }))

-- A caller's loop over its ids.
unfoldable pub push_each : RunCreator → List ℕ → Option RunCreator
push_each c [] = some c
push_each c (id ∷ ids) = push_back_run c id >>= λ c'. push_each c' ids

unfoldable pub flush_data : RunCreator → Option RunCreator
flush_data c = put_vl_packed_uint32 (set_put_ptr c.dest c.beginning) c.count >>= λ r.
    put_vl_packed_uint32 r.1 (c.content.len % 2 ^ 32) >>= λ s.
    put_data s.1 (window c.content) >>= λ d. some (record c { dest = d })

unfoldable pub flush_runs : RunCreator → Option RunCreator
flush_runs c = flush_rle c >>= flush_data

unfoldable pub flush_runs_with : RunCreator → Adapter → ℕ → Option RunCreator
flush_runs_with c append_data count_in_data = flush_rle c >>= λ c1.
    put_data c1.content (window append_data) >>= λ d.
    flush_data (record c1 { content = d; count = (c1.count + count_in_data) % 2 ^ 32 })

-- m_data and m_size of ItemIndexPrivateRleDE.
pub record RunIndex : Type 0 where
  pub body : Adapter
  pub size : ℕ

-- ItemIndexPrivateRleDE(const UByteArrayAdapter&).
unfoldable pub open_runs : Adapter → Option RunIndex
open_runs d = get_vl_packed_uint32 (reset_get_ptr d) >>= λ n. get_vl_packed_uint32 n.1 >>= λ s.
    let b = shrink_to_get_ptr s.1 in
    (if b.len == s.0 then some (true, b) else resize b s.0) >>= λ r.
    let b' = r.1 in some (record { body = b'; size = n.0 })

unfoldable pub get_run_index : RunCreator → Option RunIndex
get_run_index c = open_runs (sub_adapter c.dest c.beginning)

-- `while (rle) { prev += val; … }`: the ids, and where they end.
unfoldable pub run_ids : ℕ → ℕ → ℕ → List ℕ
run_ids zero val prev = []
run_ids (suc rle) val prev = let id = (prev + val) % 2 ^ 32 in id ∷ run_ids rle val id

unfoldable pub run_end : ℕ → ℕ → ℕ → ℕ
run_end zero val prev = prev
run_end (suc rle) val prev = run_end rle val ((prev + val) % 2 ^ 32)

-- The loop of putInto(uint32_t*) with room for `n` more ids. A run that is longer writes behind the
-- buffer, a fault.
unfoldable pub read_runs : ℕ → ℕ → Adapter → ℕ → Option (List ℕ × Adapter)
read_runs zero n d prev = none
read_runs (suc fuel) n d prev = elim (n == 0) [
  | true ↦ some ([], d)
  | false ↦ get_vl_packed_uint32 d >>= λ r. elim (bit_and r.0 0x1 == 0) [
    | true ↦
        let id = (prev + r.0 / 2) % 2 ^ 32 in
        read_runs fuel (n - 1) r.1 id >>= λ rest. some (id ∷ rest.0, rest.1)
    | false ↦ get_vl_packed_uint32 r.1 >>= λ s. elim (ltb n (r.0 / 2)) [
      | true ↦ none
      | false ↦ read_runs fuel (n - r.0 / 2) s.1 (run_end (r.0 / 2) (s.0 / 2) prev) >>= λ rest.
          some (run_ids (r.0 / 2) (s.0 / 2) prev ++ rest.0, rest.1)
    ]
  ]
]

-- Every round reads a byte at least.
unfoldable pub put_into_runs : RunIndex → Option (List ℕ)
put_into_runs i = read_runs (i.body.len + 1) i.size i.body 0 >>= λ r. some r.0
