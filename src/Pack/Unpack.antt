-- ===== src/Pack/Unpack.antt =====
-- up_v of pack_unpack_functions.h for an unsigned type of `w` bits, on the bytes of [s, e). It
-- returns the value and the length that it stores through `len`.
pub mod Decode
pub mod RoundTrip
pub mod Padded
use sserialize.Base.{ℕ, zero, suc, ◌+◌, ◌*◌, ◌%◌, ◌^◌, ◌==◌, ltb, if◌then◌else◌, ◌&&◌, not}
use sserialize.Base.{List, [], ◌∷◌, Option, none, some, Bool, bit_or, bit_and, length, ℤ, pos, neg}
use sserialize.Pack.Generic.{max_bytes}

-- retVal |= UnsignedType(b & 0x7F) << shift
unfoldable pub add_group : ℕ → ℕ → ℕ → ℕ → ℕ
add_group w ret b shift = bit_or ret (bit_and b 0x7f * 2 ^ shift % 2 ^ w)

-- myLen < maxLen && b & 0x80
unfoldable pub goes_on : ℕ → ℕ → ℕ → Bool
goes_on w len b = ltb len (max_bytes w) && not (bit_and b 0x80 == 0)

-- The loop that tests for the end, with what is left of [s, e).
pub up_v_checked : ℕ → List ℕ → ℕ → ℕ → ℕ → ℕ × ℤ
up_v_checked w [] ret len shift = (ret, neg len)
up_v_checked w (b ∷ rest) ret len shift =
    let ret' = add_group w ret b shift in
    let more = up_v_checked w rest ret' (len + 1) (shift + 7) in
    if goes_on w (len + 1) b then more else (ret', pos (len + 1))

-- The loop with no test. `none` is a read behind the end.
pub up_v_unchecked : ℕ → List ℕ → ℕ → ℕ → ℕ → Option (ℕ × ℤ)
up_v_unchecked w [] ret len shift = none
up_v_unchecked w (b ∷ rest) ret len shift =
    let ret' = add_group w ret b shift in
    let more = up_v_unchecked w rest ret' (len + 1) (shift + 7) in
    if goes_on w (len + 1) b then more else some (ret', pos (len + 1))

pub up_v : ℕ → List ℕ → Option (ℕ × ℤ)
up_v w buf =
    if ltb (length buf) (max_bytes w)
    then some (up_v_checked w buf 0 0 0)
    else up_v_unchecked w buf 0 0 0
