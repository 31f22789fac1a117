-- ===== src/Pack/Fixed/RoundTrip.antt =====
-- The fixed widths read back what they wrote, and leave alone what follows.
use sserialize.Base.{ℕ, zero, suc, ◌-◌, ◌/◌, ◌^◌, ◌<◌, ◌≡◌, refl, arith, abs, ◌≤◌}
use sserialize.Base.{List, ◌++◌, take, some, ℤ, pos, negsuc}
use sserialize.Pack.Signed.{with_sign}
use sserialize.Pack.Signed.RoundTrip.{with_sign-sum_32, with_sign-sum_64, or_one}
use sserialize.Pack.Fixed.{word_bytes, read_word, to_signed, to_unsigned}
use sserialize.Pack.Fixed.{
  p_u8, p_u16, p_u24, p_u32, p_u40, p_u64, p_s8, p_s16, p_s24, p_s32, p_s40, p_s64,
}
use sserialize.Pack.Fixed.{up_u8, up_u16, up_u24, up_u32, up_u40, up_u64}
use sserialize.Pack.Fixed.{up_s8, up_s16, up_s24, up_s32, up_s40, up_s64}
use native.Mathlib.Nat.{pow-suc}

pub read_word-word_bytes :
    (n v : ℕ) (rest : List ℕ) → v < 256 ^ n → read_word n (word_bytes n v ++ rest) ≡ some v
unfolding read_word word_bytes
read_word-word_bytes zero v rest h = ground arith
read_word-word_bytes (suc n) v rest h =
    ground (arith, pow-suc 256 n, read_word-word_bytes n (v / 256) rest)

take-word_bytes : (k n v : ℕ) → k ≤ n → take k (word_bytes n v) ≡ word_bytes k v
unfolding word_bytes
take-word_bytes zero n v h = refl
take-word_bytes (suc k) zero v h = absurd (omega arith)
take-word_bytes (suc k) (suc n) v h = rw (take-word_bytes k n (v / 256) (omega arith))

-- At each unsigned width the unpack function returns the packed value, whatever follows its bytes.
pub up_u-p_u :
    (a b c d e f : ℕ) (rest : List ℕ)
    → a < 2 ^ 8
    → b < 2 ^ 16
    → c < 2 ^ 24
    → d < 2 ^ 32
    → e < 2 ^ 40
    → f < 2 ^ 64
    → (up_u8 (p_u8 a ++ rest) ≡ some a)
      × (up_u16 (p_u16 b ++ rest) ≡ some b)
      × (up_u24 (p_u24 c ++ rest) ≡ some c)
      × (up_u32 (p_u32 d ++ rest) ≡ some d)
      × (up_u40 (p_u40 e ++ rest) ≡ some e)
      × (up_u64 (p_u64 f ++ rest) ≡ some f)
unfolding p_u8 p_u16 p_u24 p_u32 p_u40 p_u64 up_u8 up_u16 up_u24 up_u32 up_u40 up_u64
up_u-p_u a b c d e f rest ha hb hc hd he hf = (
  read_word-word_bytes 1 a rest ha,
  read_word-word_bytes 2 b rest hb,
  rw (take-word_bytes 3 4 c (omega arith)) (read_word-word_bytes 3 c rest hc),
  read_word-word_bytes 4 d rest hd,
  rw (take-word_bytes 5 8 e (omega arith)) (read_word-word_bytes 5 e rest he),
  read_word-word_bytes 8 f rest hf,
)

-- `s` is a value of the signed type of `w` bits.
abbrev pub FitsSigned : ℕ → ℤ → Type 0
FitsSigned w (pos n) = n < 2 ^ (w - 1)
FitsSigned w (negsuc n) = n < 2 ^ (w - 1)

to_signed-to_unsigned_8 :
    (s : ℤ) → FitsSigned 8 s → (to_unsigned 8 s < 2 ^ 8) × (to_signed 8 (to_unsigned 8 s) ≡ s)
unfolding to_signed to_unsigned
to_signed-to_unsigned_8 (pos n) h = ground arith
to_signed-to_unsigned_8 (negsuc n) h = ground arith

to_signed-to_unsigned_16 :
    (s : ℤ) → FitsSigned 16 s → (to_unsigned 16 s < 2 ^ 16) × (to_signed 16 (to_unsigned 16 s) ≡ s)
unfolding to_signed to_unsigned
to_signed-to_unsigned_16 (pos n) h = ground arith
to_signed-to_unsigned_16 (negsuc n) h = ground arith

to_signed-to_unsigned_32 :
    (s : ℤ) → FitsSigned 32 s → (to_unsigned 32 s < 2 ^ 32) × (to_signed 32 (to_unsigned 32 s) ≡ s)
unfolding to_signed to_unsigned
to_signed-to_unsigned_32 (pos n) h = ground arith
to_signed-to_unsigned_32 (negsuc n) h = ground arith

to_signed-to_unsigned_64 :
    (s : ℤ) → FitsSigned 64 s → (to_unsigned 64 s < 2 ^ 64) × (to_signed 64 (to_unsigned 64 s) ≡ s)
unfolding to_signed to_unsigned
to_signed-to_unsigned_64 (pos n) h = ground arith
to_signed-to_unsigned_64 (negsuc n) h = ground arith

-- The magnitude needs one bit less than the width.
with_sign_24 : (s : ℤ) → abs s < 2 ^ 23 → with_sign 32 s < 2 ^ 24
unfolding with_sign
with_sign_24 (pos n) h = ground arith
with_sign_24 (negsuc n) h = ground (arith, or_one (suc n))

with_sign_40 : (s : ℤ) → abs s < 2 ^ 39 → with_sign 64 s < 2 ^ 40
unfolding with_sign
with_sign_40 (pos n) h = ground arith
with_sign_40 (negsuc n) h = ground (arith, or_one (suc n))

-- At each signed width the unpack function returns the packed value, whatever follows its bytes: at
-- 8, 16, 32 and 64 bits for every value of the type, at 24 and 40 bits for a magnitude below 2 ^ 23
-- and 2 ^ 39.
pub up_s-p_s :
    (a b c d e f : ℤ) (rest : List ℕ)
    → FitsSigned 8 a
    → FitsSigned 16 b
    → abs c < 2 ^ 23
    → FitsSigned 32 d
    → abs e < 2 ^ 39
    → FitsSigned 64 f
    → (up_s8 (p_s8 a ++ rest) ≡ some a)
      × (up_s16 (p_s16 b ++ rest) ≡ some b)
      × (up_s24 (p_s24 c ++ rest) ≡ some c)
      × (up_s32 (p_s32 d ++ rest) ≡ some d)
      × (up_s40 (p_s40 e ++ rest) ≡ some e)
      × (up_s64 (p_s64 f ++ rest) ≡ some f)
unfolding p_s8 p_s16 p_s24 p_s32 p_s40 p_s64 up_s8 up_s16 up_s24 up_s32 up_s40 up_s64
up_s-p_s a b c d e f rest ha hb hc hd he hf =
    let (a1, a2) = to_signed-to_unsigned_8 a ha in
    let (b1, b2) = to_signed-to_unsigned_16 b hb in
    let (d1, d2) = to_signed-to_unsigned_32 d hd in
    let (f1, f2) = to_signed-to_unsigned_64 f hf in
    let c1 = with_sign_24 c hc in
    let e1 = with_sign_40 e he in
    let u =
      up_u-p_u (to_unsigned 8 a) (to_unsigned 16 b) (with_sign 32 c) (to_unsigned 32 d)
        (with_sign 64 e) (to_unsigned 64 f) rest a1 b1 c1 d1 e1 f1 in
    (
      rw (u.0, a2),
      rw (u.1, b2),
      rw (u.2, (with_sign-sum_32 c (omega arith)).1),
      rw (u.3, d2),
      rw (u.4, (with_sign-sum_64 e (omega arith)).1),
      rw (u.5, f2),
    )
