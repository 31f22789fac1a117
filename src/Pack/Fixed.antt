-- ===== src/Pack/Fixed.antt =====
-- The functions of fixed width of pack_unpack_functions.h on a little-endian machine, where htole and
-- letoh are the identity and memcpy copies the bytes of a word, lowest first.
pub mod RoundTrip
use sserialize.Base.{ℕ, zero, suc, ◌+◌, ◌-◌, ◌*◌, ◌/◌, ◌%◌, ◌^◌, ltb, if◌then◌else◌, ◌>>=◌}
use sserialize.Base.{List, [], ◌∷◌, Option, none, some, take, ℤ, pos, negsuc}
use sserialize.Pack.Signed.{with_sign, without_sign}

-- The bytes of an unsigned word of `n` bytes in memory.
unfoldable pub word_bytes : ℕ → ℕ → List ℕ
word_bytes zero v = []
word_bytes (suc n) v = v % 256 ∷ word_bytes n (v / 256)

-- memcpy of `n` bytes into a word of zeros. `none` is a read behind the end.
unfoldable pub read_word : ℕ → List ℕ → Option ℕ
read_word zero src = some 0
read_word (suc n) [] = none
read_word (suc n) (b ∷ src) = read_word n src >>= (λ v. some (b + v * 256))

unfoldable pub p_u8 : ℕ → List ℕ
p_u8 src = word_bytes 1 src

pub p_u16 : ℕ → List ℕ
p_u16 src = word_bytes 2 src

unfoldable pub p_u32 : ℕ → List ℕ
p_u32 src = word_bytes 4 src

pub p_u64 : ℕ → List ℕ
p_u64 src = word_bytes 8 src

pub p_u24 : ℕ → List ℕ
p_u24 src = take 3 (p_u32 src)

pub p_u40 : ℕ → List ℕ
p_u40 src = take 5 (p_u64 src)

pub up_u8 : List ℕ → Option ℕ
up_u8 = read_word 1

pub up_u16 : List ℕ → Option ℕ
up_u16 = read_word 2

pub up_u24 : List ℕ → Option ℕ
up_u24 = read_word 3

pub up_u32 : List ℕ → Option ℕ
up_u32 = read_word 4

pub up_u40 : List ℕ → Option ℕ
up_u40 = read_word 5

pub up_u64 : List ℕ → Option ℕ
up_u64 = read_word 8

-- The casts between a signed and the unsigned type of `w` bits.
unfoldable pub to_unsigned : ℕ → ℤ → ℕ
to_unsigned w (pos n) = n % 2 ^ w
to_unsigned w (negsuc n) = 2 ^ w - 1 - n % 2 ^ w

unfoldable pub to_signed : ℕ → ℕ → ℤ
to_signed w u = if ltb u (2 ^ (w - 1)) then pos u else negsuc (2 ^ w - 1 - u)

pub p_s8 : ℤ → List ℕ
p_s8 src = p_u8 (to_unsigned 8 src)

pub p_s16 : ℤ → List ℕ
p_s16 src = p_u16 (to_unsigned 16 src)

pub p_s32 : ℤ → List ℕ
p_s32 src = p_u32 (to_unsigned 32 src)

pub p_s64 : ℤ → List ℕ
p_s64 src = p_u64 (to_unsigned 64 src)

-- The magnitude above a sign bit.
pub p_s24 : ℤ → List ℕ
p_s24 src = p_u24 (with_sign 32 src)

pub p_s40 : ℤ → List ℕ
p_s40 src = p_u40 (with_sign 64 src)

pub up_s8 : List ℕ → Option ℤ
up_s8 src = up_u8 src >>= (λ u. some (to_signed 8 u))

pub up_s16 : List ℕ → Option ℤ
up_s16 src = up_u16 src >>= (λ u. some (to_signed 16 u))

pub up_s32 : List ℕ → Option ℤ
up_s32 src = up_u32 src >>= (λ u. some (to_signed 32 u))

pub up_s64 : List ℕ → Option ℤ
up_s64 src = up_u64 src >>= (λ u. some (to_signed 64 u))

pub up_s24 : List ℕ → Option ℤ
up_s24 src = up_u24 src >>= (λ tmp. some (without_sign tmp))

pub up_s40 : List ℕ → Option ℤ
up_s40 src = up_u40 src >>= (λ tmp. some (without_sign tmp))
