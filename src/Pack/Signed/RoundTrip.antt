-- ===== src/Pack/Signed/RoundTrip.antt =====
-- What the signed pack functions write their unpack functions read back.
use sserialize.Base.{ℕ, suc, ◌+◌, ◌*◌, ◌%◌, ◌^◌, ◌<◌, ◌≤◌, ◌≡◌, arith}
use sserialize.Base.{List, length, some, ℤ, pos, negsuc, abs, bit_and, bit_or}
use sserialize.Base.Bits.{bit_and_mask, bit_or_fields}
use sserialize.Pack.RoundTrip.{up_v-p_v_u32, up_v-p_v_u64}
use sserialize.Pack.Signed.{with_sign, without_sign, p_vs32, p_vs64, up_v_signed, psize_v_signed}

pub or_one : (a : ℕ) → bit_or (a * 2) 1 ≡ a * 2 + 1
or_one a = bit_or_fields 1 a 1 (omega arith)

pub and_one : (a : ℕ) → bit_and a 1 ≡ a % 2
and_one a = bit_and_mask 1 a

pub with_sign-sum_32 :
    (s : ℤ) → abs s < 2 ^ 31 → (with_sign 32 s < 2 ^ 32) × (without_sign (with_sign 32 s) ≡ s)
unfolding with_sign without_sign
with_sign-sum_32 (pos n) h = ground (arith, and_one (n * 2))
with_sign-sum_32 (negsuc n) h = ground (arith, or_one (suc n), and_one (suc n * 2 + 1))

pub with_sign-sum_64 :
    (s : ℤ) → abs s < 2 ^ 63 → (with_sign 64 s < 2 ^ 64) × (without_sign (with_sign 64 s) ≡ s)
unfolding with_sign without_sign
with_sign-sum_64 (pos n) h = ground (arith, and_one (n * 2))
with_sign-sum_64 (negsuc n) h = ground (arith, or_one (suc n), and_one (suc n * 2 + 1))

-- For an int32_t other than the least one: in a buffer with room p_vs32 returns psize_vs32 s, and
-- up_vs32 reads `s` and that length from what it left.
pub up_v-p_vs32 :
    (s : ℤ) (buf : List ℕ)
    → abs s < 2 ^ 31
    → psize_v_signed 32 s ≤ length buf
    → (buf' : List ℕ) × (p_vs32 s buf ≡ some (pos (psize_v_signed 32 s), buf'))
      × (up_v_signed 32 buf' ≡ some (s, pos (psize_v_signed 32 s)))
unfolding p_vs32 up_v_signed psize_v_signed
up_v-p_vs32 s buf h room =
    let (fits, back) = with_sign-sum_32 s h in
    let (buf', e, d) = up_v-p_v_u32 (with_sign 32 s) buf fits room in (buf', e, rw (d, back))

-- For an int64_t other than the least one: in a buffer with room p_vs64 returns psize_vs64 s, and
-- up_vs64 reads `s` and that length from what it left.
pub up_v-p_vs64 :
    (s : ℤ) (buf : List ℕ)
    → abs s < 2 ^ 63
    → psize_v_signed 64 s ≤ length buf
    → (buf' : List ℕ) × (p_vs64 s buf ≡ some (pos (psize_v_signed 64 s), buf'))
      × (up_v_signed 64 buf' ≡ some (s, pos (psize_v_signed 64 s)))
unfolding p_vs64 up_v_signed psize_v_signed
up_v-p_vs64 s buf h room =
    let (fits, back) = with_sign-sum_64 s h in
    let (buf', e, d) = up_v-p_v_u64 (with_sign 64 s) buf fits room in (buf', e, rw (d, back))
