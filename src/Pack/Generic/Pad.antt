-- ===== src/Pack/Generic/Pad.antt =====
-- The encoding that is padded to four bytes.
use sserialize.Base.{ℕ, ◌+◌, ◌/◌, ◌%◌, ◌≡◌, arith}
use sserialize.Base.{[], ◌∷◌, bit_and, bit_or}
use sserialize.Base.Bytes.{low_bits, mark_group}
use sserialize.Pack.Generic.{pad_loop, p_vu32pad4}

padded_byte : (a : ℕ) → bit_or (bit_and a 0x7f) 0x80 % 256 ≡ a % 128 + 128
padded_byte a = ground (arith, low_bits a, mark_group (a % 128))

pub p_vu32pad4-groups :
    (s : ℕ)
    → p_vu32pad4 s
      ≡ (s % 128 + 128)
        ∷ (s / 128 % 128 + 128)
        ∷ (s / 128 / 128 % 128 + 128)
        ∷ s / 128 / 128 / 128 % 128
        ∷ []
unfolding p_vu32pad4 pad_loop
p_vu32pad4-groups s = ground (
  arith,
  padded_byte s,
  padded_byte (s / 128),
  padded_byte (s / 128 / 128),
  padded_byte (s / 128 / 128 / 128),
  low_bits (s / 128 / 128 / 128 % 128 + 128),
)
