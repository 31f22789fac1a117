-- ===== src/UnionFind/Examples.antt =====
-- Runs of the union-find structure and of its theorems.
use sserialize.Base.{ℕ, zero, suc, ◌≡◌, ◌⊎◌, refl, arith, List, [], ◌∷◌, none, some}
use sserialize.UnionFind.{Entry, find, unite}
use sserialize.UnionFind.Root.{Root, IsForest}
use sserialize.UnionFind.Find.{Keeps, find-Root}
use sserialize.UnionFind.Unite.{Unites, IsFull, unite-Unites}

-- The elements 0 and 1 are one class, below 1, and 2 is alone.
abbrev e0 : Entry ℕ
e0 = record { value = 10; parent = 1; rank = 0 }

abbrev e1 : Entry ℕ
e1 = record { value = 11; parent = 1; rank = 1 }

abbrev e2 : Entry ℕ
e2 = record { value = 12; parent = 2; rank = 0 }

abbrev three : List (Entry ℕ)
three = e0 ∷ e1 ∷ e2 ∷ []

three-IsForest : IsForest three
three-IsForest zero e h = let q : e ≡ e0 = cc in rw q (e1, refl, omega arith, λ m. omega arith)
three-IsForest (suc zero) e h =
    let q : e ≡ e1 = cc in rw q (e1, refl, omega arith, λ m. absurd (m refl))
three-IsForest (suc (suc zero)) e h =
    let q : e ≡ e2 = cc in rw q (e2, refl, omega arith, λ m. absurd (m refl))
three-IsForest (suc (suc (suc i))) e h = cc

find-Root_example :
    (r : ℕ) × (d' : List (Entry ℕ)) × (find three 0 ≡ some (r, d'))
    × Keeps three d'
    × Root three 0 r
find-Root_example = find-Root three 0 three-IsForest (omega arith)

unite-Unites_example :
    (pa : ℕ) × (pb : ℕ) × Root three 0 pa
    × Root three 2 pb
    × (((unite three 0 2 ≡ none) × IsFull three pb)
        ⊎ ((d' : List (Entry ℕ)) × (top : ℕ) × (unite three 0 2 ≡ some d')
            × Unites three d' pa pb top))
unite-Unites_example = unite-Unites three 0 2 three-IsForest (omega arith) (omega arith)
