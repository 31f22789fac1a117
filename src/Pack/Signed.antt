-- ===== src/Pack/Signed.antt =====
-- p_v, up_v and psize_v of pack_unpack_functions.h for the signed types of 32 and 64 bits: the
-- magnitude above a sign bit.
pub mod RoundTrip
use sserialize.Base.{ℕ, ◌+◌, ◌*◌, ◌/◌, ◌%◌, ◌^◌, ◌==◌, if◌then◌else◌, List, Option, some, ◌>>=◌}
use sserialize.Base.{bit_or, bit_and, ℤ, pos, neg, abs, is_negative}
use sserialize.Pack.Varint.{p_v_u32, p_v_u64}
use sserialize.Pack.Generic.{psize_v}
use sserialize.Pack.Unpack.{up_v}

-- tmp = UnsignedType(|s|); tmp <<= 1; tmp |= 0x1 where s < 0.
unfoldable pub with_sign : ℕ → ℤ → ℕ
with_sign w s = let tmp = abs s * 2 % 2 ^ w in if is_negative s then bit_or tmp 0x1 else tmp

unfoldable pub without_sign : ℕ → ℤ
without_sign tmp = if bit_and tmp 0x1 == 0 then pos (tmp / 2) else neg (tmp / 2)

unfoldable pub p_vs32 : ℤ → List ℕ → Option (ℤ × List ℕ)
p_vs32 s buf = p_v_u32 (with_sign 32 s) buf

pub p_vs64 : ℤ → List ℕ → Option (ℤ × List ℕ)
p_vs64 s buf = p_v_u64 (with_sign 64 s) buf

unfoldable pub up_v_signed : ℕ → List ℕ → Option (ℤ × ℤ)
up_v_signed w buf = up_v w buf >>= (λ r. some (without_sign r.0, r.1))

unfoldable pub psize_v_signed : ℕ → ℤ → ℕ
psize_v_signed w s = psize_v (with_sign w s)
