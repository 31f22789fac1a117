-- ===== src/Pack/Examples.antt =====
-- Runs of the pack functions and of their theorems.
use sserialize.Base.{
  ℕ, ◌^◌, ◌≤◌, ◌≡◌, refl, arith, List, [], ◌∷◌, ◌++◌, length, take, drop, ltb, if◌then◌else◌,
}
use sserialize.Base.{some, ℤ, pos, negsuc, neg}
use sserialize.Pack.Varint.{p_v_u32, p_v_u64}
use sserialize.Pack.Varint.Groups.{groups}
use sserialize.Pack.Varint.Encode.{written, p_v_u32-written, p_v_u64-written}
use sserialize.Pack.Generic.{p_v, psize_v, max_bytes}
use sserialize.Pack.Generic.Size.{psize_v-groups}
use sserialize.Pack.Generic.Encode.{p_v-groups}
use sserialize.Pack.Unpack.{up_v}
use sserialize.Pack.Unpack.Decode.{InBounds, up_v-InBounds}
use sserialize.Pack.RoundTrip.{up_v-p_v_u32, up_v-p_v_u64, p_v-p_v_u32}
use sserialize.Pack.Signed.{with_sign, p_vs32, p_vs64, up_v_signed, psize_v_signed}
use sserialize.Pack.Signed.RoundTrip.{up_v-p_vs32, up_v-p_vs64}
use sserialize.Pack.Fixed.{
  p_u8, p_u16, p_u24, p_u32, p_u40, p_u64, up_u8, up_u16, up_u24, up_u32, up_u40, up_u64,
}
use sserialize.Pack.Fixed.{
  p_s8, p_s16, p_s24, p_s32, p_s40, p_s64, up_s8, up_s16, up_s24, up_s32, up_s40, up_s64,
}
use sserialize.Pack.Fixed.RoundTrip.{up_u-p_u, up_s-p_s}

abbrev six : List ℕ
six = 0 ∷ 0 ∷ 0 ∷ 0 ∷ 0 ∷ 0 ∷ []

abbrev twelve : List ℕ
twelve = 7 ∷ 7 ∷ 7 ∷ 7 ∷ 7 ∷ 7 ∷ 7 ∷ 7 ∷ 7 ∷ 7 ∷ 7 ∷ 7 ∷ []

p_v_u32-written_example : p_v_u32 300 six ≡ written 5 300 six
p_v_u32-written_example = p_v_u32-written 300 six (omega arith)

p_v_u64-written_example : p_v_u64 (2 ^ 40) twelve ≡ written 10 (2 ^ 40) twelve
p_v_u64-written_example = p_v_u64-written (2 ^ 40) twelve (omega arith)

psize_v_300 : psize_v 300 ≡ 2
unfolding groups
psize_v_300 = psize_v-groups 4 300 (omega arith)

up_v-p_v_u32_example :
    (buf' : List ℕ) × (p_v_u32 300 six ≡ some (pos (psize_v 300), buf'))
    × (up_v 32 buf' ≡ some (300, pos (psize_v 300)))
up_v-p_v_u32_example = up_v-p_v_u32 300 six (omega arith) (omega (arith, psize_v_300))

up_v-p_v_u64_example :
    (buf' : List ℕ) × (p_v_u64 300 six ≡ some (pos (psize_v 300), buf'))
    × (up_v 64 buf' ≡ some (300, pos (psize_v 300)))
up_v-p_v_u64_example = up_v-p_v_u64 300 six (omega arith) (omega (arith, psize_v_300))

p_v-groups_example : p_v 16 300 six ≡ (
    if ltb (length six) (length (groups 3 300))
    then some (neg (length six), take (length six) (groups 3 300))
    else some (pos (length (groups 3 300)), groups 3 300 ++ drop (length (groups 3 300)) six))
unfolding max_bytes
p_v-groups_example = p_v-groups 16 2 300 six (omega arith) refl

p_v-p_v_u32_example :
    (p_v 32 300 six ≡ (
      if ltb (length six) (psize_v 300)
      then some (neg (length six), take (length six) (groups 5 300))
      else p_v_u32 300 six))
    × (p_v_u32 300 six ≡ (
        if ltb (length six) (psize_v 300) then some (neg (psize_v 300), six) else p_v 32 300 six))
p_v-p_v_u32_example = p_v-p_v_u32 300 six (omega arith)

up_v-InBounds_example : (r : ℕ × ℤ) × (up_v 32 (200 ∷ 200 ∷ []) ≡ some r) × InBounds 32 2 r
unfolding max_bytes
up_v-InBounds_example = up_v-InBounds 32 (200 ∷ 200 ∷ []) (omega arith)

size_32 : psize_v_signed 32 (negsuc 4) ≤ 6
unfolding psize_v_signed with_sign groups
size_32 = omega (arith, psize_v-groups 4 11 (omega arith))

size_64 : psize_v_signed 64 (negsuc 4) ≤ 6
unfolding psize_v_signed with_sign groups
size_64 = omega (arith, psize_v-groups 4 11 (omega arith))

up_v-p_vs32_example :
    (buf' : List ℕ) × (p_vs32 (negsuc 4) six ≡ some (pos (psize_v_signed 32 (negsuc 4)), buf'))
    × (up_v_signed 32 buf' ≡ some (negsuc 4, pos (psize_v_signed 32 (negsuc 4))))
up_v-p_vs32_example = up_v-p_vs32 (negsuc 4) six (omega arith) size_32

up_v-p_vs64_example :
    (buf' : List ℕ) × (p_vs64 (negsuc 4) six ≡ some (pos (psize_v_signed 64 (negsuc 4)), buf'))
    × (up_v_signed 64 buf' ≡ some (negsuc 4, pos (psize_v_signed 64 (negsuc 4))))
up_v-p_vs64_example = up_v-p_vs64 (negsuc 4) six (omega arith) size_64

up_u-p_u_example :
    (up_u8 (p_u8 200 ++ six) ≡ some 200)
    × (up_u16 (p_u16 300 ++ six) ≡ some 300)
    × (up_u24 (p_u24 70000 ++ six) ≡ some 70000)
    × (up_u32 (p_u32 70000 ++ six) ≡ some 70000)
    × (up_u40 (p_u40 70000 ++ six) ≡ some 70000)
    × (up_u64 (p_u64 70000 ++ six) ≡ some 70000)
up_u-p_u_example =
    up_u-p_u 200 300 70000 70000 70000 70000 six (omega arith) (omega arith) (omega arith)
      (omega arith) (omega arith) (omega arith)

up_s-p_s_example :
    (up_s8 (p_s8 (negsuc 4) ++ six) ≡ some (negsuc 4))
    × (up_s16 (p_s16 (negsuc 4) ++ six) ≡ some (negsuc 4))
    × (up_s24 (p_s24 (negsuc 4) ++ six) ≡ some (negsuc 4))
    × (up_s32 (p_s32 (negsuc 4) ++ six) ≡ some (negsuc 4))
    × (up_s40 (p_s40 (negsuc 4) ++ six) ≡ some (negsuc 4))
    × (up_s64 (p_s64 (negsuc 4) ++ six) ≡ some (negsuc 4))
up_s-p_s_example =
    up_s-p_s (negsuc 4) (negsuc 4) (negsuc 4) (negsuc 4) (negsuc 4) (negsuc 4) six (omega arith)
      (omega arith) (omega arith) (omega arith) (omega arith) (omega arith)
