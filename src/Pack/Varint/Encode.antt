-- ===== src/Pack/Varint/Encode.antt =====
-- Both specialisations of p_v write the groups of their number where these fit, and otherwise
-- return the missing length negated and write nothing.
use sserialize.Base.{ℕ, zero, suc, ◌+◌, ◌/◌, ◌^◌, ◌<◌, ◌≤◌, ◌≡◌, refl, ap, arith}
use sserialize.Base.{List, [], ◌∷◌, ◌++◌, length, drop, ltb, leb, if◌then◌else◌, Option, some, ℤ}
use sserialize.Base.{pos, neg, negsuc, Bool-cases, if_both, inl, inr, ltb→le}
use sserialize.Base.Bits.{shift-add}
use sserialize.Base.Bytes.{set_top_bit}
use native.Mathlib.Nat.{div-one}
use sserialize.Pack.Buffer.{put, put_fits}
use sserialize.Pack.Varint.{byte, byte_more, compare_s, p_v_u32_fast, p_v_u32_checked, p_v_u32}
use sserialize.Pack.Varint.{p_v_u64_fast, p_v_u64_checked, p_v_u64}
use sserialize.Pack.Varint.Groups.{groups, HasGroups, length-groups}

-- The bytes that the branch for `suc n` bytes stores.
stored : ℕ → ℕ → ℕ → List ℕ
stored zero k s = byte s k ∷ []
stored (suc n) k s = byte_more s k ∷ stored n (k + 7) s

stored-groups :
    (n j k s : ℕ) → n ≤ j → HasGroups n (s / 2 ^ k) → stored n k s ≡ groups (suc j) (s / 2 ^ k)
unfolding stored groups
stored-groups zero j k s h r = ground arith
stored-groups (suc n) zero k s h r = absurd (omega arith)
stored-groups (suc n) (suc j) k s h r =
    ground (arith, set_top_bit (s / 2 ^ k), shift-add s k 7, stored-groups n j (k + 7) s)

length-stored : (n k s : ℕ) → length (stored n k s) ≡ suc n
unfolding stored
length-stored zero k s = refl
length-stored (suc n) k s = ap suc (length-stored n (k + 7) s)

-- What p_v returns and leaves in the buffer for the groups of `s`, at most `j` of them.
unfoldable pub written : ℕ → ℕ → List ℕ → Option (ℤ × List ℕ)
written j s buf =
    let g = groups j s in
    if ltb (length buf) (length g)
    then some (neg (length g), buf)
    else some (pos (length g), g ++ drop (length g) buf)

module _ (n j s : ℕ) (buf : List ℕ) (h : n ≤ j) (r : HasGroups n s) where
  stored_eq : stored n 0 s ≡ groups (suc j) s
  stored_eq = ground (arith, stored-groups n j 0 s, div-one s)

  put-written : suc n ≤ length buf → put (suc n) (stored n 0 s) buf ≡ written (suc j) s buf
  unfolding written
  put-written room =
      ground (arith, stored_eq, length-stored n 0 s, put_fits (suc n) (stored n 0 s) buf)

  checked-written :
      (if ltb (length buf) (suc n) then some (negsuc n, buf) else put (suc n) (stored n 0 s) buf)
      ≡ written (suc j) s buf
  checked-written = elim (Bool-cases (ltb (length buf) (suc n))) [
    | inl short ↦ rw short (unfold written in ground (arith, length-groups n j s))
    | inr room ↦ rw room (put-written (omega (arith, ltb→le _ _ room)))
  ]

p_v_u32_fast-written :
    (s : ℕ) (buf : List ℕ) → s < 2 ^ 32 → 5 ≤ length buf → p_v_u32_fast s buf ≡ written 5 s buf
unfolding p_v_u32_fast stored
p_v_u32_fast-written s buf h room = ground (
  arith,
  put-written 0 4 s buf,
  put-written 1 4 s buf,
  put-written 2 4 s buf,
  put-written 3 4 s buf,
  put-written 4 4 s buf,
)

p_v_u32_checked-written :
    (s : ℕ) (buf : List ℕ) → s < 2 ^ 32 → p_v_u32_checked s buf ≡ written 5 s buf
unfolding p_v_u32_checked stored
p_v_u32_checked-written s buf h = ground (
  arith,
  checked-written 0 4 s buf,
  checked-written 1 4 s buf,
  checked-written 2 4 s buf,
  checked-written 3 4 s buf,
  checked-written 4 4 s buf,
)

-- p_v<uint32_t> on every buffer: it stores the groups of `s` and returns their count, or returns
-- the negated count and stores nothing where they do not fit. It never stores out of bounds.
pub p_v_u32-written : (s : ℕ) (buf : List ℕ) → s < 2 ^ 32 → p_v_u32 s buf ≡ written 5 s buf
unfolding p_v_u32
p_v_u32-written s buf h = elim (Bool-cases (leb 5 (length buf))) [
  | inl room ↦ rw room (p_v_u32_fast-written s buf h (ground arith))
  | inr short ↦ rw short (p_v_u32_checked-written s buf h)
]

p_v_u64_fast-written :
    (s : ℕ) (buf : List ℕ) → s < 2 ^ 64 → 10 ≤ length buf → p_v_u64_fast s buf ≡ written 10 s buf
unfolding p_v_u64_fast stored
p_v_u64_fast-written s buf h room =
    if_both (compare_s s 28)
      (λ a.
        if_both (compare_s s 14)
          (λ b.
            if_both (compare_s s 7)
              (λ c. put-written 0 9 s buf (omega arith) (ground arith) (omega arith))
              (λ c. put-written 1 9 s buf (omega arith) (ground arith) (omega arith)))
          (λ b.
            if_both (compare_s s 21)
              (λ c. put-written 2 9 s buf (omega arith) (ground arith) (omega arith))
              (λ c. put-written 3 9 s buf (omega arith) (ground arith) (omega arith))))
      (λ a.
        if_both (compare_s s 42)
          (λ b.
            if_both (compare_s s 35)
              (λ c. put-written 4 9 s buf (omega arith) (ground arith) (omega arith))
              (λ c. put-written 5 9 s buf (omega arith) (ground arith) (omega arith)))
          (λ b.
            if_both (compare_s s 56)
              (λ c.
                if_both (compare_s s 49)
                  (λ d. put-written 6 9 s buf (omega arith) (ground arith) (omega arith))
                  (λ d. put-written 7 9 s buf (omega arith) (ground arith) (omega arith)))
              (λ c.
                if_both (compare_s s 63)
                  (λ d. put-written 8 9 s buf (omega arith) (ground arith) (omega arith))
                  (λ d. put-written 9 9 s buf (omega arith) (ground arith) (omega arith)))))

p_v_u64_checked-written :
    (s : ℕ) (buf : List ℕ) → s < 2 ^ 64 → p_v_u64_checked s buf ≡ written 10 s buf
unfolding p_v_u64_checked stored
p_v_u64_checked-written s buf h =
    if_both (compare_s s 28)
      (λ a.
        if_both (compare_s s 14)
          (λ b.
            if_both (compare_s s 7) (λ c. checked-written 0 9 s buf (omega arith) (ground arith))
              (λ c. checked-written 1 9 s buf (omega arith) (ground arith)))
          (λ b.
            if_both (compare_s s 21) (λ c. checked-written 2 9 s buf (omega arith) (ground arith))
              (λ c. checked-written 3 9 s buf (omega arith) (ground arith))))
      (λ a.
        if_both (compare_s s 42)
          (λ b.
            if_both (compare_s s 35) (λ c. checked-written 4 9 s buf (omega arith) (ground arith))
              (λ c. checked-written 5 9 s buf (omega arith) (ground arith)))
          (λ b.
            if_both (compare_s s 56)
              (λ c.
                if_both (compare_s s 49)
                  (λ d. checked-written 6 9 s buf (omega arith) (ground arith))
                  (λ d. checked-written 7 9 s buf (omega arith) (ground arith)))
              (λ c.
                if_both (compare_s s 63)
                  (λ d. checked-written 8 9 s buf (omega arith) (ground arith))
                  (λ d. checked-written 9 9 s buf (omega arith) (ground arith)))))

-- p_v<uint64_t> on every buffer: it stores the groups of `s` and returns their count, or returns
-- the negated count and stores nothing where they do not fit. It never stores out of bounds.
pub p_v_u64-written : (s : ℕ) (buf : List ℕ) → s < 2 ^ 64 → p_v_u64 s buf ≡ written 10 s buf
unfolding p_v_u64
p_v_u64-written s buf h = elim (Bool-cases (leb 10 (length buf))) [
  | inl room ↦ rw room (p_v_u64_fast-written s buf h (ground arith))
  | inr short ↦ rw short (p_v_u64_checked-written s buf h)
]
