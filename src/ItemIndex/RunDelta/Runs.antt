-- ===== src/ItemIndex/RunDelta/Runs.antt =====
-- What a run-length index stores: runs of equal differences, their bytes and their ids.
use sserialize.Base.{
  false, ℕ, zero, suc, ◌+◌, ◌*◌, ◌%◌, ◌^◌, ◌<◌, ◌≤◌, ◌≡◌, refl, arith, ◌==◌, if◌then◌else◌,
}
use sserialize.Base.{List, [], ◌∷◌, ◌++◌, append_assoc, append-nil, length, length-append, All}
use sserialize.Pack.Varint.Groups.{groups, length-groups-le, length-groups-pos}
use sserialize.ItemIndex.RunDelta.{run_ids, run_end}

-- A count of differences, and the difference.
abbrev pub Run : Type 0
Run = ℕ × ℕ

abbrev pub IsSmall : Run → Type 0
IsSmall r = (r.0 < 2 ^ 31) × (r.1 < 2 ^ 31)

unfoldable pub run_bytes : Run → List ℕ
run_bytes (n, d) =
    if n == 0
    then []
    else if n == 1
    then groups 5 (d * 2)
    else groups 5 (n * 2 + 1) ++ groups 5 (d * 2)

abbrev pub runs_bytes : List Run → List ℕ
runs_bytes [] = []
runs_bytes (r ∷ rs) = run_bytes r ++ runs_bytes rs

abbrev pub runs_ids : ℕ → List Run → List ℕ
runs_ids prev [] = []
runs_ids prev ((n, d) ∷ rs) = run_ids n d prev ++ runs_ids (run_end n d prev) rs

abbrev pub runs_end : ℕ → List Run → ℕ
runs_end prev [] = prev
runs_end prev ((n, d) ∷ rs) = runs_end (run_end n d prev) rs

pub nothing : (v p : ℕ) → (run_bytes (0, v) ≡ []) × (run_ids 0 v p ≡ []) × (run_end 0 v p ≡ p)
unfolding run_bytes run_ids run_end
nothing v p = (refl, refl, refl)

pub length-run_ids : (n d p : ℕ) → length (run_ids n d p) ≡ n
unfolding run_ids
length-run_ids zero d p = refl
length-run_ids (suc n) d p = omega (arith, length-run_ids n d ((p + d) % 2 ^ 32))

pub run_ids-snoc :
    (n d p : ℕ) → run_ids (suc n) d p ≡ run_ids n d p ++ (run_end n d p + d) % 2 ^ 32 ∷ []
unfolding run_ids run_end
run_ids-snoc zero d p = refl
run_ids-snoc (suc n) d p = rw (run_ids-snoc n d ((p + d) % 2 ^ 32)) refl

pub run_end-snoc : (n d p : ℕ) → run_end (suc n) d p ≡ (run_end n d p + d) % 2 ^ 32
unfolding run_end
run_end-snoc zero d p = refl
run_end-snoc (suc n) d p = run_end-snoc n d ((p + d) % 2 ^ 32)

pub run_end-lt : (n d p : ℕ) → p < 2 ^ 32 → run_end n d p < 2 ^ 32
unfolding run_end
run_end-lt zero d p h = h
run_end-lt (suc n) d p h = run_end-lt n d ((p + d) % 2 ^ 32) (omega arith)

pub runs_ids-snoc :
    (rs : List Run) (n d p : ℕ)
    → runs_ids p (rs ++ (n, d) ∷ []) ≡ runs_ids p rs ++ run_ids n d (runs_end p rs)
runs_ids-snoc [] n d p = append-nil (run_ids n d p)
runs_ids-snoc ((m, e) ∷ rs) n d p = rw (runs_ids-snoc rs n d (run_end m e p), append_assoc) refl

pub runs_end-snoc :
    (rs : List Run) (n d p : ℕ) → runs_end p (rs ++ (n, d) ∷ []) ≡ run_end n d (runs_end p rs)
runs_end-snoc [] n d p = refl
runs_end-snoc ((m, e) ∷ rs) n d p = runs_end-snoc rs n d (run_end m e p)

pub runs_bytes-snoc :
    (rs : List Run) (r : Run) → runs_bytes (rs ++ r ∷ []) ≡ runs_bytes rs ++ run_bytes r
runs_bytes-snoc [] r = append-nil (run_bytes r)
runs_bytes-snoc (q ∷ rs) r = rw (runs_bytes-snoc rs r, append_assoc) refl

pub IsSmall-snoc :
    (rs : List Run) (r : Run) → All IsSmall rs → IsSmall r → All IsSmall (rs ++ r ∷ [])
IsSmall-snoc [] r h p = (p, tt)
IsSmall-snoc (q ∷ rs) r (k, h) p = (k, IsSmall-snoc rs r h p)

pub length-run_bytes : (n d : ℕ) → length (run_bytes (n, d)) ≤ 10 * n
unfolding run_bytes
length-run_bytes n d = ground (
  arith,
  length-append (groups 5 (n * 2 + 1)) (groups 5 (d * 2)),
  length-groups-le 5 (n * 2 + 1),
  length-groups-le 5 (d * 2),
)

-- Runs take at most ten bytes for each of their ids.
pub length-runs_bytes :
    (rs : List Run) (p : ℕ) → length (runs_bytes rs) ≤ 10 * length (runs_ids p rs)
length-runs_bytes [] p = omega arith
length-runs_bytes ((n, d) ∷ rs) p = omega (
  arith,
  length-append (run_bytes (n, d)) (runs_bytes rs),
  length-append (run_ids n d p) (runs_ids (run_end n d p) rs),
  length-run_ids n d p,
  length-run_bytes n d,
  length-runs_bytes rs (run_end n d p),
)

-- The runs that take a round of the reading loop.
abbrev pub rounds : List Run → ℕ
rounds [] = 0
rounds ((zero, d) ∷ rs) = rounds rs
rounds ((suc n, d) ∷ rs) = suc (rounds rs)

pub run_bytes_many :
    (n d : ℕ) → run_bytes (suc (suc n), d) ≡ groups 5 (suc (suc n) * 2 + 1) ++ groups 5 (d * 2)
unfolding run_bytes
run_bytes_many n d =
    let e : (suc (suc n) == 0) ≡ false = ground arith in
    let f : (suc (suc n) == 1) ≡ false = ground arith in rw (e, f) refl

pub run_bytes_pos : (n d : ℕ) → 1 ≤ length (run_bytes (suc n, d))
run_bytes_pos zero d = unfold run_bytes in length-groups-pos 4 (d * 2)
run_bytes_pos (suc n) d = rw (run_bytes_many n d) (
    omega (
      arith,
      length-append (groups 5 (suc (suc n) * 2 + 1)) (groups 5 (d * 2)),
      length-groups-pos 4 (d * 2),
    ))

pub rounds-le : (rs : List Run) → rounds rs ≤ length (runs_bytes rs)
rounds-le [] = omega arith
rounds-le ((zero, d) ∷ rs) =
    omega (arith, length-append (run_bytes (0, d)) (runs_bytes rs), rounds-le rs)
rounds-le ((suc n, d) ∷ rs) =
    omega
      (arith, length-append (run_bytes (suc n, d)) (runs_bytes rs), run_bytes_pos n d, rounds-le rs)
