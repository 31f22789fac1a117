-- ===== src/DynamicBitSet.antt =====
-- src/containers/DynamicBitSet.cpp: a set of positions as the bits of a row of bytes.
pub mod Member
pub mod Resize
pub mod Operators
pub mod Equal
pub mod Align
mod Examples
use sserialize.Base.{
  ℕ, zero, suc, true, false, ◌+◌, ◌-◌, ◌*◌, ◌/◌, ◌%◌, ◌^◌, ◌==◌, ltb, if◌then◌else◌, Bool, not,
  ◌&&◌,
}
use sserialize.Base.{
  bit_or, bit_and, bit_xor, List, [], ◌∷◌, ◌++◌, length, get_or, set, take, drop, replicate, min,
  map, reverse,
}

-- `bytes` are those that m_data shows, and `behind` those that its vector still holds behind them, which
-- a smaller size leaves there. No other adapter is on the vector. A vector that throws because it would
-- be longer than 2 ^ 63 - 1 bytes is not modelled here.
pub record DynamicBitSet : Type 0 where
  pub bytes : List ℕ
  pub behind : List ℕ

unfoldable pub is_set : DynamicBitSet → ℕ → Bool
is_set s pos =
    ltb (pos / 8) (length s.bytes)
    && not (bit_and (get_or s.bytes (pos / 8) 0) (2 ^ (pos % 8)) == 0)

-- growStorage by `n` bytes: first those that the vector still holds, as they are, and then zeros.
unfoldable pub grow : DynamicBitSet → ℕ → DynamicBitSet
grow s n = record {
  bytes = s.bytes ++ take n (s.behind ++ replicate n 0);
  behind = drop n s.behind;
}

unfoldable pub resize_bytes : DynamicBitSet → ℕ → DynamicBitSet
unfolding grow
resize_bytes s n =
    if ltb n (length s.bytes)
    then record { bytes = take n s.bytes; behind = drop n s.bytes ++ s.behind }
    else grow s (n - length s.bytes)

-- createCache of as many bytes, which the loop of an operator fills: never less than one byte.
unfoldable pub fresh : List ℕ → DynamicBitSet
fresh [] = record { bytes = 0 ∷ []; behind = [] }
fresh (x ∷ xs) = record { bytes = x ∷ xs; behind = [] }

-- The first two lines of set: the byte at `offset` is there.
unfoldable pub reach : DynamicBitSet → ℕ → DynamicBitSet
unfolding grow
reach s offset = if ltb offset (length s.bytes) then s else grow s (offset + 1 - length s.bytes)

unfoldable pub set_bit : DynamicBitSet → ℕ → DynamicBitSet
unfolding reach
set_bit s pos =
    let d = reach s (pos / 8) in
    record {
      bytes = set d.bytes (pos / 8) (bit_or (get_or d.bytes (pos / 8) 0) (2 ^ (pos % 8)));
      behind = d.behind;
    }

-- `~` of a byte that is stored in a byte.
unfoldable pub complement : ℕ → ℕ
complement b = 255 - b

unfoldable pub unset_bit : DynamicBitSet → ℕ → DynamicBitSet
unset_bit s pos =
    if ltb (pos / 8) (length s.bytes)
    then record {
      bytes =
          set s.bytes (pos / 8) (bit_and (get_or s.bytes (pos / 8) 0) (complement (2 ^ (pos % 8))));
      behind = s.behind;
    }
    else s

-- A loop over the bytes that both sides have.
unfoldable pub both : (ℕ → ℕ → ℕ) → List ℕ → List ℕ → List ℕ
both f [] ys = []
both f (x ∷ xs) [] = []
both f (x ∷ xs) (y ∷ ys) = f x y ∷ both f xs ys

-- The three loops of operator| and operator^: both sides, then what the longer one has more.
unfoldable pub either : (ℕ → ℕ → ℕ) → List ℕ → List ℕ → List ℕ
either f [] ys = ys
either f (x ∷ xs) [] = x ∷ xs
either f (x ∷ xs) (y ∷ ys) = f x y ∷ either f xs ys

-- A loop that assigns to the bytes that both sides have.
unfoldable pub assign : (ℕ → ℕ → ℕ) → List ℕ → List ℕ → List ℕ
assign f [] ys = []
assign f (x ∷ xs) [] = x ∷ xs
assign f (x ∷ xs) (y ∷ ys) = f x y ∷ assign f xs ys

-- operator&, operator|, operator-, operator^ and operator~.
unfoldable pub and_not : ℕ → ℕ → ℕ
and_not a b = bit_and a (complement b)

unfoldable pub intersection : DynamicBitSet → DynamicBitSet → DynamicBitSet
intersection s t = fresh (both bit_and s.bytes t.bytes)

unfoldable pub union : DynamicBitSet → DynamicBitSet → DynamicBitSet
union s t = fresh (either bit_or s.bytes t.bytes)

unfoldable pub difference : DynamicBitSet → DynamicBitSet → DynamicBitSet
difference s t = fresh (both and_not s.bytes t.bytes)

unfoldable pub symmetric_difference : DynamicBitSet → DynamicBitSet → DynamicBitSet
symmetric_difference s t = fresh (either bit_xor s.bytes t.bytes)

unfoldable pub inverse : DynamicBitSet → DynamicBitSet
inverse s = fresh (map complement s.bytes)

-- operator&=, operator|=, operator-= and operator^=.
unfoldable pub intersect_assign : DynamicBitSet → DynamicBitSet → DynamicBitSet
unfolding resize_bytes
intersect_assign s t =
    let d = resize_bytes s (min (length s.bytes) (length t.bytes)) in
    record { bytes = assign bit_and d.bytes t.bytes; behind = d.behind }

-- Where the other side is longer: resize, and putData of the other side's end.
unfoldable pub fill : DynamicBitSet → List ℕ → DynamicBitSet
unfolding resize_bytes
fill s ys =
    let d = resize_bytes s (length ys) in
    if ltb (length s.bytes) (length ys)
    then record {
      bytes = take (length s.bytes) d.bytes ++ drop (length s.bytes) ys;
      behind = d.behind;
    }
    else s

unfoldable pub unite_assign : DynamicBitSet → DynamicBitSet → DynamicBitSet
unfolding fill
unite_assign s t =
    fill (record { bytes = assign bit_or s.bytes t.bytes; behind = s.behind }) t.bytes

unfoldable pub subtract_assign : DynamicBitSet → DynamicBitSet → DynamicBitSet
subtract_assign s t = record { bytes = assign and_not s.bytes t.bytes; behind = s.behind }

unfoldable pub xor_assign : DynamicBitSet → DynamicBitSet → DynamicBitSet
unfolding fill
xor_assign s t = fill (record { bytes = assign bit_xor s.bytes t.bytes; behind = s.behind }) t.bytes

-- The loops of operator== behind the common bytes: no byte may be set.
unfoldable pub all_zero : List ℕ → Bool
all_zero [] = true
all_zero (x ∷ xs) = if x == 0 then all_zero xs else false

unfoldable pub equal_bytes : List ℕ → List ℕ → Bool
equal_bytes [] ys = all_zero ys
equal_bytes (x ∷ xs) [] = all_zero (x ∷ xs)
equal_bytes (x ∷ xs) (y ∷ ys) = if x == y then equal_bytes xs ys else false

unfoldable pub equal : DynamicBitSet → DynamicBitSet → Bool
equal s t = equal_bytes s.bytes t.bytes

-- upperBound: the loop runs from the last byte down; `n` bytes are before the list. A vector is shorter
-- than 2 ^ 63 bytes; what 8 * i loses from 2 ^ 61 bytes on is not written out.
unfoldable pub upper_bound_from : ℕ → List ℕ → ℕ
upper_bound_from n [] = 0
upper_bound_from n (x ∷ xs) =
    let later = upper_bound_from (n + 1) xs in
    if later == 0 then (if x == 0 then 0 else 8 * (n + 1)) else later

unfoldable pub upper_bound : DynamicBitSet → ℕ
upper_bound s = upper_bound_from 0 s.bytes

-- The size that align computes from m_data.size().
unfoldable pub aligned_size : ℕ → ℕ → ℕ
aligned_size size shift =
    let new_size = size / 2 ^ shift in
    let grown =
      if bit_and (new_size * 2 ^ shift % 2 ^ 64) size == 0 then new_size else new_size + 1 in
    grown * 2 ^ shift % 2 ^ 64

unfoldable pub align : DynamicBitSet → ℕ → DynamicBitSet
align s shift = resize_bytes s (aligned_size (length s.bytes) shift)

-- The loop of the template msb; eight rounds are enough for a byte.
unfoldable pub msb_loop : ℕ → ℕ → ℕ → ℕ
msb_loop zero num r = r
msb_loop (suc fuel) num r = if num / 2 == 0 then r else msb_loop fuel (num / 2) (r + 1)

unfoldable pub msb : ℕ → ℕ
msb num = msb_loop 8 num 0

-- The loop of smallestEntry.
unfoldable pub smallest_entry_from : ℕ → List ℕ → ℕ
smallest_entry_from id [] = id
smallest_entry_from id (x ∷ xs) =
    if x == 0 then smallest_entry_from ((id + 8) % 2 ^ 64) xs else (id + msb x) % 2 ^ 64

unfoldable pub smallest_entry : DynamicBitSet → ℕ
smallest_entry s = smallest_entry_from 0 s.bytes

-- The loop of largestEntry, on the bytes from the last one down.
unfoldable pub largest_entry_from : ℕ → List ℕ → ℕ
largest_entry_from id [] = id
largest_entry_from id (x ∷ xs) =
    if x == 0
    then largest_entry_from ((id + 2 ^ 64 - 8) % 2 ^ 64) xs
    else (id + 2 ^ 64 - (8 - msb x)) % 2 ^ 64

unfoldable pub largest_entry : DynamicBitSet → ℕ
largest_entry s =
    if length s.bytes == 0
    then 0
    else largest_entry_from ((length s.bytes * 8 - 1) % 2 ^ 64) (reverse s.bytes)
