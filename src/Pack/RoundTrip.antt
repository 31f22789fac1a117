-- ===== src/Pack/RoundTrip.antt =====
-- What the unsigned pack functions write up_v reads back, with the length that psize_v gives.
use sserialize.Base.{ℕ, ◌^◌, ◌<◌, ◌≤◌, ◌≡◌, arith}
use sserialize.Base.{List, ◌++◌, length, drop, take, ltb, if◌then◌else◌, some, pos, neg}
use sserialize.Pack.Varint.{p_v_u32, p_v_u64}
use sserialize.Pack.Varint.Groups.{groups}
use sserialize.Pack.Varint.Encode.{written, p_v_u32-written, p_v_u64-written}
use sserialize.Pack.Generic.{max_bytes, psize_v, p_v}
use sserialize.Pack.Generic.Size.{psize_v-groups}
use sserialize.Pack.Generic.Encode.{p_v-groups}
use sserialize.Pack.Unpack.{up_v}
use sserialize.Pack.Unpack.RoundTrip.{up_v-groups}

-- In a buffer with room for psize_v s bytes p_v<uint32_t> returns psize_v s, and up_v reads `s` and
-- that length from what it left.
pub up_v-p_v_u32 :
    (s : ℕ) (buf : List ℕ)
    → s < 2 ^ 32
    → psize_v s ≤ length buf
    → (buf' : List ℕ) × (p_v_u32 s buf ≡ some (pos (psize_v s), buf'))
      × (up_v 32 buf' ≡ some (s, pos (psize_v s)))
unfolding written max_bytes
up_v-p_v_u32 s buf h room =
    let n : psize_v s ≡ length (groups 5 s) = psize_v-groups 4 s (omega arith) in
    (
      groups 5 s ++ drop (length (groups 5 s)) buf,
      ground (arith, p_v_u32-written s buf h),
      ground (arith, up_v-groups 32 4 s (drop (length (groups 5 s)) buf)),
    )

-- In a buffer with room for psize_v s bytes p_v<uint64_t> returns psize_v s, and up_v reads `s` and
-- that length from what it left.
pub up_v-p_v_u64 :
    (s : ℕ) (buf : List ℕ)
    → s < 2 ^ 64
    → psize_v s ≤ length buf
    → (buf' : List ℕ) × (p_v_u64 s buf ≡ some (pos (psize_v s), buf'))
      × (up_v 64 buf' ≡ some (s, pos (psize_v s)))
unfolding written max_bytes
up_v-p_v_u64 s buf h room =
    let n : psize_v s ≡ length (groups 10 s) = psize_v-groups 9 s (omega arith) in
    (
      groups 10 s ++ drop (length (groups 10 s)) buf,
      ground (arith, p_v_u64-written s buf h),
      ground (arith, up_v-groups 64 9 s (drop (length (groups 10 s)) buf)),
    )

-- The template p_v agrees with p_v<uint32_t> wherever the bytes fit. Where they do not, the template
-- fills the buffer and returns its length negated, and p_v<uint32_t> stores nothing and returns the
-- missing size negated.
pub p_v-p_v_u32 :
    (s : ℕ) (buf : List ℕ)
    → s < 2 ^ 32
    → let short = ltb (length buf) (psize_v s) in
      (p_v 32 s buf ≡ (
        if short then some (neg (length buf), take (length buf) (groups 5 s)) else p_v_u32 s buf))
      × (p_v_u32 s buf ≡ (if short then some (neg (psize_v s), buf) else p_v 32 s buf))
unfolding written max_bytes
p_v-p_v_u32 s buf h =
    let n : psize_v s ≡ length (groups 5 s) = psize_v-groups 4 s (omega arith) in
    (
      ground (arith, p_v_u32-written s buf h, p_v-groups 32 4 s buf),
      ground (arith, p_v_u32-written s buf h, p_v-groups 32 4 s buf),
    )
