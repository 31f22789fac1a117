-- ===== src/UnionFind.antt =====
-- include/sserialize/containers/UnionFind.h: union by rank with path compression.
-- `none` is a thrown exception, or an index behind the end of the vector.
pub mod Root
pub mod Find
pub mod Link
pub mod Unite
mod Examples
use sserialize.Base.{
  ℕ, zero, suc, true, false, ◌+◌, ◌%◌, ◌^◌, ◌<◌, ◌==◌, ltb, if◌then◌else◌, Bool, List, [], ◌∷◌,
  ◌++◌, length, get_elem?, set,
}
use sserialize.Base.{Option, none, some, ◌>>=◌}

-- Entry: `parent` is a field of 36 bits, `rank` one of 28.
pub record Entry (A : Type 0) : Type 0 where
  pub value : A
  pub parent : ℕ
  pub rank : ℕ

module _ {A : Type 0} where
  -- The constructor of Entry.
  unfoldable pub entry : ℕ → A → Option (Entry A)
  entry parent v =
      if ltb parent (2 ^ 36) then some (record { value = v; parent = parent; rank = 0 }) else none

  unfoldable pub get : List (Entry A) → ℕ → Option A
  get d a = get_elem? d a >>= λ e. some e.value

  unfoldable pub make_set : List (Entry A) → A → Option (ℕ × List (Entry A))
  make_set d v = entry (length d) v >>= λ e. some (length d, d ++ (e ∷ []))

  unfoldable pub set_parent : List (Entry A) → ℕ → ℕ → Option (List (Entry A))
  set_parent d a p = get_elem? d a >>= λ e. some (set d a (record e { parent = p }))

  -- epb.rank += 1, and the test for the overflow of the field.
  unfoldable pub raise_rank : List (Entry A) → ℕ → Option (List (Entry A))
  raise_rank d b = get_elem? d b >>= λ e.
      if (e.rank + 1) % 2 ^ 28 == 0
      then none
      else some (set d b (record e { rank = (e.rank + 1) % 2 ^ 28 }))

  -- The recursion, with fuel.
  unfoldable pub find_and_compress : ℕ → List (Entry A) → ℕ → Option (ℕ × List (Entry A))
  find_and_compress zero d a = none
  find_and_compress (suc n) d a = get_elem? d a >>= λ e. elim (e.parent == a) [
    | true ↦ some (e.parent, d)
    | false ↦
        (find_and_compress n d e.parent >>= (λ r. set_parent r.1 a r.0 >>= λ d'. some (r.0, d')))
  ]

  -- Ranks grow along the way up and have 28 bits: so many calls are enough.
  unfoldable pub find : List (Entry A) → ℕ → Option (ℕ × List (Entry A))
  find d a = if ltb a (length d) then find_and_compress (2 ^ 28) d a else none

  -- The assignments of unite, for two different representatives.
  unfoldable pub link : List (Entry A) → ℕ → ℕ → Option (List (Entry A))
  link d pa pb = get_elem? d pa >>= λ epa. get_elem? d pb >>= λ epb.
      if ltb epa.rank epb.rank
      then set_parent d pa pb
      else if ltb epb.rank epa.rank
      then set_parent d pb pa
      else (set_parent d pa pb >>= λ d'. raise_rank d' pb)

  unfoldable pub unite : List (Entry A) → ℕ → ℕ → Option (List (Entry A))
  unite d a b = find d a >>= λ ra.
      find ra.1 b >>= λ rb. if ra.0 == rb.0 then some rb.1 else link rb.1 ra.0 rb.0
