-- ===== src/Pack/Generic.antt =====
-- The templates of pack_unpack_functions.h for unsigned types: p_v by a loop, psize_v, and the
-- encoding padded to four bytes. `w` is std::numeric_limits<UnsignedType>::digits.
pub mod Encode
pub mod Size
pub mod Pad
use sserialize.Base.{ℕ, zero, suc, ◌+◌, ◌*◌, ◌/◌, ◌%◌, ◌^◌, ◌<◌, ◌==◌, ltb, if◌then◌else◌, arith}
use sserialize.Base.{
  List, [], ◌∷◌, Option, none, some, ◌>>=◌, bit_or, bit_and, length, set, get_or, ℤ, pos, neg,
}
use sserialize.Base.Order.{lt_wf}
use mathlib.Core.Logic.{dite}
use mathlib.Core.WellFounded.{Acc}
use native.Mathlib.Decide.{dec_lt}

-- maxBytes of p_v and maxLen of up_v.
unfoldable pub max_bytes : ℕ → ℕ
max_bytes w = w / 7 + (if ltb 0 (w % 7) then 1 else 0)

-- *d = s & 0x7F, with 0x80 set where bits are left behind the shift.
unfoldable pub group_byte : ℕ → ℕ
group_byte s = if s / 128 == 0 then bit_and s 0x7f else bit_or (bit_and s 0x7f) 0x80

-- The do loop that tests for the end; `i` bytes are written, and `buf` is what is left of [d, e).
unfoldable pub p_v_checked : ℕ → List ℕ → ℕ → ℤ × List ℕ
p_v_checked s [] i = (neg i, [])
p_v_checked s (x ∷ buf) i =
    let b = group_byte s in
    let (r, rest) = p_v_checked (s / 128) buf (i + 1) in
    if s / 128 == 0 then (pos (i + 1), b ∷ buf) else (r, b ∷ rest)

-- The do loop with no test. `none` is a store behind the end.
unfoldable pub p_v_unchecked : ℕ → List ℕ → ℕ → Option (ℤ × List ℕ)
p_v_unchecked s [] i = none
p_v_unchecked s (x ∷ buf) i =
    let b = group_byte s in
    let more = p_v_unchecked (s / 128) buf (i + 1) >>= (λ p. some (p.0, b ∷ p.1)) in
    if s / 128 == 0 then some (pos (i + 1), b ∷ buf) else more

pub p_v : ℕ → ℕ → List ℕ → Option (ℤ × List ℕ)
p_v w s buf =
    if ltb (length buf) (max_bytes w) then some (p_v_checked s buf 0) else p_v_unchecked s buf 0

shift_shrinks : (s : ℕ) → 0 < s / 128 → s / 128 < s
shift_shrinks s h = omega arith

-- The loop of psize_v with its counter.
psize_loop : (s : ℕ) → ℕ → Acc ◌<◌ s → ℕ
psize_loop s i (Acc.intro _ smaller) =
    dite (dec_lt 0 (s / 128))
      (λ more. psize_loop (s / 128) (i + 1) (smaller _ (shift_shrinks s more))) (λ _. i + 1)

pub psize_v : ℕ → ℕ
psize_v s = psize_loop s 0 (lt_wf.apply s)

-- The loop of p_vu32pad4 with `n` rounds left: the bytes that it stores.
pad_loop : ℕ → ℕ → List ℕ
pad_loop zero s = []
pad_loop (suc n) s = bit_or (bit_and s 0x7f) 0x80 % 256 ∷ pad_loop n (s / 128)

-- The four bytes that p_vu32pad4 leaves; it returns 4.
pub p_vu32pad4 : ℕ → List ℕ
p_vu32pad4 s = let d = pad_loop 4 s in set d 3 (bit_and (get_or d 3 0) 0x7f)
