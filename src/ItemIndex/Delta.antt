-- ===== src/ItemIndex/Delta.antt =====
-- src/containers/ItemIndexPrivates/ItemIndexPrivateDE.cpp and its header: an index whose ids are
-- stored as variable-length differences behind their size in bytes and their count.
pub mod Encode
pub mod Header
pub mod RoundTrip
pub mod Push
pub mod Merge
pub mod GenericOp
pub mod Operation
use sserialize.Base.{
  ℕ, zero, suc, true, false, ◌+◌, ◌-◌, ◌*◌, ◌%◌, ◌^◌, ◌<◌, ◌==◌, ltb, leb, if◌then◌else◌, Bool,
  List, [], ◌∷◌, ◌++◌, get_or, length, replicate,
}
use sserialize.Base.{Option, none, some, ◌>>=◌, ◌&&◌}
use sserialize.Storage.Adapter.{
  Adapter, window, sub_adapter, sub_adapter_len, shrink_to_get_ptr, of_vector,
}
use sserialize.Storage.Stream.{
  put_data, put_uint32, put_uint32_at, put_vl_packed_uint32, get_vl_packed_uint32, get_uint32_at,
}
use sserialize.ItemIndex.SetOp.{SetOpTraits}

-- m_data and m_size of ItemIndexPrivateDE. The cache of `at` is `Cache`.
pub record DeltaIndex : Type 0 where
  pub body : Adapter
  pub size : ℕ

-- ItemIndexPrivateDE(const UByteArrayAdapter&).
unfoldable pub open_index : Adapter → Option DeltaIndex
open_index d = get_uint32_at d 0 >>= λ bytes. get_uint32_at d 4 >>= λ n.
    let body = sub_adapter_len d 8 bytes in
    if ltb body.len n then none else some (record { body = body; size = n })

-- The ids that m_cache holds, and where the next difference is read.
pub record Cache : Type 0 where
  pub reader : Adapter
  pub cur_id : ℕ
  pub ids : List ℕ

-- The loop of `at`: `n` more ids are read.
unfoldable pub fill_cache : ℕ → Cache → Option Cache
fill_cache zero c = some c
fill_cache (suc n) c = get_vl_packed_uint32 c.reader >>= λ r.
    let id = (c.cur_id + r.0) % 2 ^ 32 in
    fill_cache n (record { reader = r.1; cur_id = id; ids = c.ids ++ (id ∷ []) })

-- `at`, with the cache that it leaves.
unfoldable pub at_pos : DeltaIndex → Cache → ℕ → Option (ℕ × Cache)
at_pos i c pos =
    if leb i.size pos
    then some (0, c)
    else (fill_cache (pos + 1 - length c.ids) c >>= λ c'. some (get_or c'.ids pos 0, c'))

-- The loop of putInto(uint32_t*).
unfoldable pub read_ids : ℕ → Adapter → ℕ → Option (List ℕ × Adapter)
read_ids zero d prev = some ([], d)
read_ids (suc n) d prev = get_vl_packed_uint32 d >>= λ r.
    let id = (prev + r.0) % 2 ^ 32 in read_ids n r.1 id >>= λ rest. some (id ∷ rest.0, rest.1)

unfoldable pub put_into : DeltaIndex → Option (List ℕ)
put_into i = read_ids i.size i.body 0 >>= λ r. some r.0

-- UByteArrayAdapter::createCache with MM_PROGRAM_MEMORY: a vector of zeros, and never an empty one.
abbrev pub cache_size : ℕ → ℕ
cache_size n = if n == 0 then 1 else n

unfoldable pub create_cache : ℕ → Adapter
create_cache n = of_vector (replicate (cache_size n) 0)

-- ItemIndexPrivateDECreator.
pub record DeltaCreator : Type 0 where
  pub dest : Adapter
  pub beginning : ℕ
  pub prev : ℕ
  pub count : ℕ

unfoldable pub create_index : Adapter → Option DeltaCreator
create_index d = put_uint32 d 0 >>= λ d1. put_uint32 d1 0 >>= λ d2.
    some (record { dest = d2; beginning = d.put_ptr; prev = 0; count = 0 })

-- The result of putVlPackedUint32 is not looked at.
unfoldable pub push_back : DeltaCreator → ℕ → Option DeltaCreator
push_back c id = put_vl_packed_uint32 c.dest ((id + 2 ^ 32 - c.prev) % 2 ^ 32) >>= λ r.
    some (record c { dest = r.1; prev = id; count = (c.count + 1) % 2 ^ 32 })

unfoldable pub flush_index : DeltaCreator → Option DeltaCreator
flush_index c =
    put_uint32_at c.dest c.beginning
      ((c.dest.put_ptr + 2 ^ 64 - (c.beginning + 8)) % 2 ^ 64 % 2 ^ 32)
    >>= λ d1. put_uint32_at d1 (c.beginning + 4) c.count >>= λ d2. some (record c { dest = d2 })

unfoldable pub flush_with_data : DeltaCreator → Adapter → ℕ → Option DeltaCreator
flush_with_data c src item_count = put_data c.dest (window src) >>= λ d.
    flush_index (record c { dest = d; count = (c.count + item_count) % 2 ^ 32 })

unfoldable pub get_private_index : DeltaCreator → Option DeltaIndex
get_private_index c = open_index (sub_adapter c.dest c.beginning)

-- A caller's loop over its ids.
unfoldable pub push_all : DeltaCreator → List ℕ → Option DeltaCreator
push_all c [] = some c
push_all c (id ∷ ids) = push_back c id >>= λ c'. push_all c' ids

-- One side of genericOp: its data, its position, and the id there.
pub record Side : Type 0 where
  pub reader : Adapter
  pub index_it : ℕ
  pub item_id : ℕ

unfoldable pub start : DeltaIndex → Option Side
start i =
    get_vl_packed_uint32 i.body >>= λ r. some (record { reader = r.1; index_it = 0; item_id = r.0 })

-- The position is advanced, and the next difference read where there is one.
unfoldable pub step_side : ℕ → Side → Option Side
step_side n s =
    if ltb (s.index_it + 1) n
    then (get_vl_packed_uint32 s.reader >>= λ r.
        some (record {
          reader = r.1;
          index_it = s.index_it + 1;
          item_id = (s.item_id + r.0) % 2 ^ 32;
        }))
    else some (record s { index_it = s.index_it + 1 })

unfoldable pub push_when : Bool → DeltaCreator → ℕ → Option DeltaCreator
push_when b c id = if b then push_back c id else some c

-- The while loop; one of the two positions grows in each round.
unfoldable pub merge_loop :
    ℕ → SetOpTraits → ℕ → ℕ → Side → Side → DeltaCreator → Option (Side × Side × DeltaCreator)
merge_loop zero t m n a b c = none
merge_loop (suc fuel) t m n a b c =
    if ltb a.index_it m && ltb b.index_it n
    then elim (a.item_id == b.item_id) [
      | true ↦
          (push_when t.push_equal c a.item_id >>= λ c'.
          step_side m a >>= λ a'. step_side n b >>= λ b'. merge_loop fuel t m n a' b' c')
      | false ↦ elim (ltb a.item_id b.item_id) [
        | true ↦
            (push_when t.push_first_smaller c a.item_id >>= λ c'.
            step_side m a >>= λ a'. merge_loop fuel t m n a' b c')
        | false ↦
            (push_when t.push_second_smaller c b.item_id >>= λ c'.
            step_side n b >>= λ b'. merge_loop fuel t m n a b' c')
      ]
    ]
    else some (a, b, c)

-- The rest of one side: its id, and then its bytes as they are.
unfoldable pub push_remainder : DeltaCreator → ℕ → Side → Option DeltaCreator
push_remainder c n s = push_back c s.item_id >>= λ c'.
    flush_with_data c' (shrink_to_get_ptr s.reader) (n - (s.index_it + 1))

-- genericOp, up to getPrivateIndex.
unfoldable pub generic_op : SetOpTraits → DeltaIndex → DeltaIndex → Option DeltaCreator
generic_op t a b = create_index (create_cache 8) >>= λ c. start a >>= λ sa. start b >>= λ sb.
    merge_loop (a.size + b.size + 1) t a.size b.size sa sb c >>= λ r.
    if t.push_first_remainder && ltb r.0.index_it a.size
    then push_remainder r.2 a.size r.0
    else if t.push_second_remainder && ltb r.1.index_it b.size
    then push_remainder r.2 b.size r.1
    else flush_index r.2
