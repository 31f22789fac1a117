-- ===== src/Pack/Unpack/Padded.antt =====
-- up_v on the encoding padded to four bytes.
use sserialize.Base.{ℕ, ◌+◌, ◌*◌, ◌/◌, ◌%◌, ◌^◌, ◌<◌, ◌≡◌, arith}
use sserialize.Base.{List, ◌∷◌, ◌++◌, some, pos}
use sserialize.Pack.Generic.{max_bytes, p_vu32pad4}
use sserialize.Pack.Generic.Pad.{p_vu32pad4-groups}
use sserialize.Pack.Unpack.{up_v_checked, up_v_unchecked, up_v}
use sserialize.Pack.Unpack.RoundTrip.{goes_on-last, goes_on-inner, add_group-sum}

-- A marked byte, and the last byte, of either loop at 32 bits.
module _ (g ret len shift : ℕ) (rest : List ℕ) (hr : ret < 2 ^ shift)
    (fits : g * 2 ^ shift < 2 ^ 32) (hg : g < 128) where
  inner_step :
      len + 1 < 5
      → (up_v_checked 32 ((g + 128) ∷ rest) ret len shift
          ≡ up_v_checked 32 rest (ret + g * 2 ^ shift) (len + 1) (shift + 7))
        × (up_v_unchecked 32 ((g + 128) ∷ rest) ret len shift
            ≡ up_v_unchecked 32 rest (ret + g * 2 ^ shift) (len + 1) (shift + 7))
  unfolding up_v_checked up_v_unchecked max_bytes
  inner_step h = (
    ground (arith, goes_on-inner 32 (len + 1) g, add_group-sum 32 ret g (g + 128) shift),
    ground (arith, goes_on-inner 32 (len + 1) g, add_group-sum 32 ret g (g + 128) shift),
  )

  last_step :
      (up_v_checked 32 (g ∷ rest) ret len shift ≡ (ret + g * 2 ^ shift, pos (len + 1)))
      × (up_v_unchecked 32 (g ∷ rest) ret len shift ≡ some (ret + g * 2 ^ shift, pos (len + 1)))
  unfolding up_v_checked up_v_unchecked
  last_step = (
    ground (arith, goes_on-last 32 (len + 1) g, add_group-sum 32 ret g g shift),
    ground (arith, goes_on-last 32 (len + 1) g, add_group-sum 32 ret g g shift),
  )

four_groups :
    (a b c d : ℕ) (rest : List ℕ)
    → a < 128
    → b < 128
    → c < 128
    → d < 128
    → up_v 32 ((a + 128) ∷ (b + 128) ∷ (c + 128) ∷ d ∷ rest)
      ≡ some (a + b * 2 ^ 7 + c * 2 ^ 14 + d * 2 ^ 21, pos 4)
unfolding up_v max_bytes
four_groups a b c d rest ha hb hc hd = ground (
  arith,
  inner_step a 0 0 0 ((b + 128) ∷ (c + 128) ∷ d ∷ rest),
  inner_step b a 1 7 ((c + 128) ∷ d ∷ rest),
  inner_step c (a + b * 2 ^ 7) 2 14 (d ∷ rest),
  last_step d (a + b * 2 ^ 7 + c * 2 ^ 14) 3 21 rest,
)

-- up_vu32 reads the low 28 bits of `s`, at length 4, from what p_vu32pad4 stored, whatever follows.
pub up_v-p_vu32pad4 :
    (s : ℕ) (rest : List ℕ) → up_v 32 (p_vu32pad4 s ++ rest) ≡ some (s % 2 ^ 28, pos 4)
up_v-p_vu32pad4 s rest = rw (p_vu32pad4-groups s) (
    ground (
      arith,
      four_groups (s % 128) (s / 128 % 128) (s / 128 / 128 % 128) (s / 128 / 128 / 128 % 128) rest,
    ))
