-- ===== src/Storage/Adapter/Shrink.antt =====
-- Shrinking: what shrinkToGetPtr and shrinkToPutPtr leave, and shrinkStorage on a vector.
use sserialize.Base.{
  ℕ, ◌+◌, ◌-◌, ◌≤◌, ◌<◌, ◌≡◌, ◌↔◌, sym, refl, arith, length, take, drop, length-take, List, ap, ◌∙◌,
  ltb, false,
}
use sserialize.Base.{drop-add, drop-take}
use sserialize.Storage.Adapter.{
  Adapter, window, shrink_to_get_ptr, shrink_to_put_ptr, shrink_storage,
}
use sserialize.Storage.Adapter.Valid.{IsValid}

window_shift :
    (s : List ℕ) (off n g : ℕ) → take (n - g) (drop (off + g) s) ≡ drop g (take n (drop off s))
window_shift s off n g = rw (drop-add off g s) (sym (drop-take g n (drop off s)))

-- On a valid adapter shrinkToGetPtr drops the bytes before the get pointer from the window, and
-- shrinkToPutPtr those before the put pointer; each resets its own pointer, and leaves the number of
-- the other pointer as it was, though the window's start has moved.
pub shrink_window :
    (d : Adapter)
    → IsValid d
    → (window (shrink_to_get_ptr d) ≡ drop d.get_ptr (window d))
      × ((shrink_to_get_ptr d).get_ptr ≡ 0)
      × ((shrink_to_get_ptr d).put_ptr ≡ d.put_ptr)
      × (window (shrink_to_put_ptr d) ≡ drop d.put_ptr (window d))
      × ((shrink_to_put_ptr d).put_ptr ≡ 0)
      × ((shrink_to_put_ptr d).get_ptr ≡ d.get_ptr)
unfolding shrink_to_get_ptr shrink_to_put_ptr
shrink_window d v = (
  ground (arith, window_shift d.storage d.off_set d.len d.get_ptr),
  refl,
  ground arith,
  ground (arith, window_shift d.storage d.off_set d.len d.put_ptr),
  refl,
  ground arith,
)

-- shrinkToGetPtr on a valid adapter leaves a valid one exactly when the put pointer lies at most at
-- len - get_ptr: a put pointer at the end is left behind the end of the shorter window.
pub shrink_to_get_ptr-IsValid_iff :
    (d : Adapter) → IsValid d → IsValid (shrink_to_get_ptr d) ↔ (d.put_ptr + d.get_ptr ≤ d.len)
unfolding shrink_to_get_ptr
shrink_to_get_ptr-IsValid_iff d v = (λ w. ground arith, λ h. ground arith)

-- On a valid adapter whose window ends with its vector, shrinkStorage by `byte` bytes, at most the
-- window's and less than half of the vector's, keeps only the first `byte` bytes of the vector, since
-- the vector is told the size to keep as the size to drop: the window reaches behind the vector's end.
pub shrink_storage_vector :
    (d : Adapter) (byte : ℕ)
    → IsValid d
    → d.off_set + d.len ≡ length d.storage
    → byte ≤ d.len
    → byte + byte < length d.storage
    → ((shrink_storage d byte).storage ≡ take byte d.storage) × (¬ IsValid (shrink_storage d byte))
unfolding shrink_storage
shrink_storage_vector d byte v whole le small =
    let l : ltb d.len byte ≡ false = ground arith in
    let k : d.off_set + d.len - byte ≡ length d.storage - byte = omega arith in
    let m : ltb (length d.storage) (length d.storage - byte) ≡ false = ground arith in
    let q : length d.storage - (length d.storage - byte) ≡ byte = omega arith in
    let kept : (shrink_storage d byte).storage ≡ take byte d.storage = rw (l, k, m, q) refl in
    let n : length (shrink_storage d byte).storage ≡ byte =
      ap (λ (t : List ℕ). length t) kept ∙ ground (arith, length-take byte d.storage) in
    (kept, λ w. omega (arith, n, w.inside, len_eq))
  where
    len_eq :
        (shrink_storage d byte).off_set + (shrink_storage d byte).len + byte ≡ d.off_set + d.len
    len_eq = ground arith
