-- ===== src/Pack/Buffer.antt =====
-- The memory [d, e) that a pack function writes, as the list of its bytes.
use sserialize.Base.{ℕ, ◌≤◌, ◌≡◌, refl, arith, List, [], ◌∷◌, ◌++◌, Option, none, some}
use sserialize.Base.{◌>>=◌, length, drop, ℤ, pos}

-- d[0] = b0; d[1] = b1; ... `none` is a write behind the end, undefined in the source's language.
pub store : List ℕ → List ℕ → Option (List ℕ)
store [] buf = some buf
store (b ∷ bs) [] = none
store (b ∷ bs) (x ∷ buf) = do rest ← store bs buf; some (b ∷ rest)

-- The stores of one branch, and its `return n`.
unfoldable pub put : ℕ → List ℕ → List ℕ → Option (ℤ × List ℕ)
put n bs buf = do buf' ← store bs buf; some (pos n, buf')

pub store_fits :
    (bs buf : List ℕ) → length bs ≤ length buf → store bs buf ≡ some (bs ++ drop (length bs) buf)
unfolding store
store_fits [] buf h = refl
store_fits (b ∷ bs) [] h = absurd (omega arith)
store_fits (b ∷ bs) (x ∷ buf) h = ground (arith, store_fits bs buf)

pub put_fits :
    (n : ℕ) (bs buf : List ℕ)
    → length bs ≤ length buf
    → put n bs buf ≡ some (pos n, bs ++ drop (length bs) buf)
unfolding put
put_fits n bs buf h = ground (arith, store_fits bs buf)
