-- ===== src/ItemIndex/RunDelta/Intersect.antt =====
-- IndexStates and constrainedIntersect of ItemIndexPrivateRleDE.cpp: the ids that several run-length
-- indexes have in common. Each loop has fuel, which `none` has run out of.
pub mod Lists
pub mod Heads
pub mod Moves
pub mod Rounds
pub mod Common
use sserialize.Base.{
  ℕ, zero, suc, true, false, ◌+◌, ◌-◌, ◌%◌, ◌^◌, ◌==◌, ltb, leb, if◌then◌else◌, Bool, not, ◌&&◌,
  ◌||◌, List, [], ◌∷◌, length,
}
use sserialize.Base.{Option, none, some, ◌>>=◌}
use sserialize.ItemIndex.RunDelta.{RunIndex}
use sserialize.ItemIndex.RunDelta.Cursor.{Cursor, next_state, cursor_of}

-- IndexStates; stateCount is the number of the states.
pub record States : Type 0 where
  pub states : List Cursor
  pub valid_counter : ℕ

unfoldable pub all_valid : States → Bool
all_valid s = s.valid_counter == length s.states

-- `if (!s.valid) --validCounter`.
unfoldable pub counted : Cursor → ℕ → ℕ
counted c n = if c.valid then n else (n + 2 ^ 32 - 1) % 2 ^ 32

-- next of all states.
unfoldable pub next_each : List Cursor → ℕ → Option States
next_each [] n = some (record { states = []; valid_counter = n })
next_each (c ∷ cs) n = next_state c >>= λ c'.
    next_each cs (counted c' n) >>= λ r. some (record r { states = c' ∷ r.states })

-- The loop of findMax, from the greatest id so far.
unfoldable pub find_max : List Cursor → ℕ → ℕ
find_max [] max_id = max_id
find_max (c ∷ cs) max_id = find_max cs (if c.valid && leb max_id c.id then c.id else max_id)

-- moveTillLargerOrEqual of one state.
unfoldable pub move_till : ℕ → ℕ → Cursor → Option Cursor
move_till zero id c = none
move_till (suc fuel) id c = elim (c.valid && ltb c.id id) [
  | true ↦ next_state c >>= λ c'. move_till fuel id c'
  | false ↦ some c
]

-- What moveTillLargerOrEqual of all states leaves, with its two results.
pub record Moved : Type 0 where
  pub states : List Cursor
  pub valid_counter : ℕ
  pub all_equal : Bool
  pub one_equal : Bool

unfoldable pub move_each : ℕ → ℕ → List Cursor → ℕ → Bool → Bool → Option Moved
move_each fuel id [] n all one =
    some (record { states = []; valid_counter = n; all_equal = all; one_equal = one })
move_each fuel id (c ∷ cs) n all one = move_till fuel id c >>= λ c'.
    move_each fuel id cs (counted c' n) (all && c'.id == id) (one || c'.id == id) >>= λ r.
    some (record r { states = c' ∷ r.states })

-- The loop of moveToNextEqual, with the id that it leaves in its argument.
unfoldable pub next_equal : ℕ → ℕ → States → Bool → ℕ → Option (States × ℕ)
next_equal inner zero s all id = none
next_equal inner (suc fuel) s all id = elim (all_valid s && not all) [
  | true ↦
      let max_id = find_max s.states 0 in
      move_each inner max_id s.states s.valid_counter true false >>= λ m.
      next_equal inner fuel (record { states = m.states; valid_counter = m.valid_counter })
        m.all_equal max_id
  | false ↦ some (s, id)
]

-- The loop of constrainedIntersect with room for `left` more ids; the ids that it pushes.
unfoldable pub intersect_loop : ℕ → ℕ → States → ℕ → ℕ → Option (List ℕ)
intersect_loop inner zero s id left = none
intersect_loop inner (suc fuel) s id left = elim (all_valid s && ltb 0 left) [
  | true ↦ next_equal inner inner s false id >>= λ r. elim (all_valid r.0) [
    | true ↦ next_each r.0.states r.0.valid_counter >>= λ t.
        intersect_loop inner fuel t r.1 (left - 1) >>= λ rest. some (r.1 ∷ rest)
    | false ↦ intersect_loop inner fuel r.0 r.1 left
  ]
  | false ↦ some []
]

unfoldable pub states_of : List RunIndex → Option (List Cursor)
states_of [] = some []
states_of (i ∷ is) = cursor_of i.body >>= λ c. states_of is >>= λ cs. some (c ∷ cs)

unfoldable pub total_size : List RunIndex → ℕ
total_size [] = 0
total_size (i ∷ is) = i.size + total_size is

-- Every round of a loop but the last two passes an id of an index.
unfoldable pub constrained_intersect : List RunIndex → ℕ → Option (List ℕ)
constrained_intersect indexes count = states_of indexes >>= λ cs.
    let fuel = total_size indexes + 2 in
    intersect_loop fuel fuel (record { states = cs; valid_counter = length indexes }) 0 count
