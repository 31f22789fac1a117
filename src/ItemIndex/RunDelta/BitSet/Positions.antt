-- ===== src/ItemIndex/RunDelta/BitSet/Positions.antt =====
-- The positions of a bit set in ascending order, and the pushes of them.
use sserialize.Base.{
  ℕ, zero, suc, true, false, ◌+◌, ◌-◌, ◌*◌, ◌/◌, ◌%◌, ◌^◌, ◌<◌, ◌≡◌, refl, subst, sym, ap, ◌∙◌,
  arith, ◌==◌, ltb, Bool-cases, inl, inr, if◌then◌else◌,
}
use sserialize.Base.{List, [], ◌∷◌, ◌++◌, length, none, some, ◌>>=◌, All, Option-cases}
use sserialize.Base.Bits.{bit}
use native.Mathlib.Nat.{pow-suc}
use sserialize.Pack.Signed.RoundTrip.{and_one}
use sserialize.ItemIndex.SetOp.Member.{IsAscending, has, has-below}
use sserialize.ItemIndex.RunDelta.{RunCreator, push_back_run, push_each}
use sserialize.ItemIndex.RunDelta.Operation.Kept.{Rises, Rises-le, push_each-append}
use sserialize.DynamicBitSet.Member.{digit, digit-behind}
use sserialize.ItemIndex.RunDelta.BitSet.{push_byte, push_bytes}

-- The positions of the `k` low bits of a byte, from `id` on.
abbrev pub byte_ids : ℕ → ℕ → ℕ → List ℕ
byte_ids zero id b = []
byte_ids (suc k) id b =
    let rest = byte_ids k (id + 1) (b / 2) in if b % 2 == 0 then rest else id ∷ rest

abbrev pub bytes_ids : ℕ → List ℕ → List ℕ
bytes_ids id [] = []
bytes_ids id (b ∷ bs) = byte_ids 8 id b ++ bytes_ids (id + 8) bs

byte_ids-zero : (k id : ℕ) → byte_ids k id 0 ≡ []
byte_ids-zero zero id = refl
byte_ids-zero (suc k) id = byte_ids-zero k (id + 1)

module _ (k id b : ℕ) (c : RunCreator) where
  byte-done : (b == 0) ≡ true → push_byte (suc k) id b c ≡ some c
  unfolding push_byte
  byte-done z = ground arith

  byte-skip :
      (b == 0) ≡ false
      → (b % 2 == 0) ≡ true
      → push_byte (suc k) id b c ≡ push_byte k (id + 1) (b / 2) c
  unfolding push_byte
  byte-skip z even = ground (arith, and_one b)

  byte-push :
      (b == 0) ≡ false
      → (b % 2 == 0) ≡ false
      → push_byte (suc k) id b c
        ≡ (push_back_run c (id % 2 ^ 32) >>= λ c'. push_byte k (id + 1) (b / 2) c')
  unfolding push_byte
  byte-push z odd = ground (arith, and_one b)

  ids-skip : (b % 2 == 0) ≡ true → byte_ids (suc k) id b ≡ byte_ids k (id + 1) (b / 2)
  ids-skip even = rw even refl

  ids-push : (b % 2 == 0) ≡ false → byte_ids (suc k) id b ≡ id ∷ byte_ids k (id + 1) (b / 2)
  ids-push odd = rw odd refl

push_each-stop :
    (c : RunCreator) (id : ℕ) (ids : List ℕ)
    → push_back_run c id ≡ none
    → push_each c (id ∷ ids) ≡ none
unfolding push_each
push_each-stop c id ids f = rw f refl

push_each-go :
    (c c' : RunCreator) (id : ℕ) (ids : List ℕ)
    → push_back_run c id ≡ some c'
    → push_each c (id ∷ ids) ≡ push_each c' ids
unfolding push_each
push_each-go c c' id ids f = rw f refl

push_byte-push_each :
    (k id b : ℕ) (c : RunCreator)
    → b < 2 ^ k
    → id + k < 2 ^ 32
    → push_byte k id b c ≡ push_each c (byte_ids k id b)
push_byte-push_each zero id b c h room = unfold push_byte push_each in ground arith
push_byte-push_each (suc k) id b c h room = elim (Bool-cases (b == 0)) [
  | inl z ↦
      let e : b ≡ 0 = ground arith in
      let n : push_each c [] ≡ some c = unfold push_each in refl in
      byte-done k id b c z
      ∙ sym (
          ap (λ (a : ℕ). push_each c (byte_ids (suc k) id a)) e
          ∙ ap (λ (l : List ℕ). push_each c l) (byte_ids-zero (suc k) id)
          ∙ n)
  | inr z ↦
      let half : b / 2 < 2 ^ k = omega (arith, pow-suc 2 k) in
      let q : id % 2 ^ 32 ≡ id = omega arith in
      elim (Bool-cases (b % 2 == 0)) [
        | inl even ↦
            byte-skip k id b c z even
            ∙ push_byte-push_each k (id + 1) (b / 2) c half (omega arith)
            ∙ ap (λ (l : List ℕ). push_each c l) (sym (ids-skip k id b c even))
        | inr odd ↦
            byte-push k id b c z odd
            ∙ ap (λ (i : ℕ). push_back_run c i >>= λ c'. push_byte k (id + 1) (b / 2) c') q
            ∙ elim (Option-cases (push_back_run c id)) [
              | inl f ↦
                  rw (ids-push k id b c odd, push_each-stop c id (byte_ids k (id + 1) (b / 2)) f, f)
                    refl
              | inr (c', f) ↦
                  rw
                    (ids-push k id b c odd, push_each-go c c' id (byte_ids k (id + 1) (b / 2)) f, f)
                    (push_byte-push_each k (id + 1) (b / 2) c' half (omega arith))
            ]
      ]
]

pub push_bytes-push_each :
    (bs : List ℕ) (id : ℕ) (c : RunCreator)
    → All (λ (b : ℕ). b < 2 ^ 8) bs
    → id + 8 * length bs < 2 ^ 31
    → push_bytes id bs c ≡ push_each c (bytes_ids id bs)
unfolding push_bytes
push_bytes-push_each [] id c h room = unfold push_each in refl
push_bytes-push_each (b ∷ bs) id c (hb, h) room =
    let q : (id + 8) % 2 ^ 32 ≡ id + 8 = omega arith in
    rw
      (
        q,
        push_byte-push_each 8 id b c hb (omega arith),
        push_each-append (byte_ids 8 id b) (bytes_ids (id + 8) bs) c,
      )
      (elim (Option-cases (push_each c (byte_ids 8 id b))) [
        | inl f ↦ rw f refl
        | inr (c', f) ↦ rw f (push_bytes-push_each bs (id + 8) c' h (omega arith))
      ])

byte_ids-Rises :
    (k id b : ℕ) (rest : List ℕ)
    → id + k < 2 ^ 31
    → Rises (id + k) rest
    → Rises id (byte_ids k id b ++ rest)
byte_ids-Rises zero id b rest room h = Rises-le rest id (id + 0) (omega arith) h
byte_ids-Rises (suc k) id b rest room h =
    let e : id + suc k ≡ id + 1 + k = omega arith in
    let ih =
      byte_ids-Rises k (id + 1) (b / 2) rest (omega arith) (subst (λ (l : ℕ). Rises l rest) e h) in
    let ids = byte_ids k (id + 1) (b / 2) in
    elim (Bool-cases (b % 2 == 0)) [
      | inl even ↦ rw even (Rises-le (ids ++ rest) id (id + 1) (omega arith) ih)
      | inr odd ↦
          rw odd
            (omega arith, omega arith, Rises-le (ids ++ rest) (suc id) (id + 1) (omega arith) ih)
    ]

pub bytes_ids-Rises :
    (bs : List ℕ) (id : ℕ) → id + 8 * length bs < 2 ^ 31 → Rises id (bytes_ids id bs)
bytes_ids-Rises [] id room = tt
bytes_ids-Rises (b ∷ bs) id room =
    byte_ids-Rises 8 id b (bytes_ids (id + 8) bs) (omega arith)
      (bytes_ids-Rises bs (id + 8) (omega arith))

pub Rises-IsAscending : (xs : List ℕ) (low : ℕ) → Rises low xs → IsAscending low xs
Rises-IsAscending [] low h = tt
Rises-IsAscending (x ∷ xs) low (a, _, h) = (a, Rises-IsAscending xs (suc x) h)

-- The bit at `q` of a byte decides on the id that stands for it.
has-byte_ids :
    (k id b q : ℕ) (rest : List ℕ)
    → id + k < 2 ^ 31
    → Rises (id + k) rest
    → has (id + q) (byte_ids k id b ++ rest) ≡ (if ltb q k then bit b q == 1 else has (id + q) rest)
has-byte_ids zero id b q rest room h = let e : ltb q 0 ≡ false = ground arith in rw e refl
has-byte_ids (suc k) id b zero rest room h =
    let e : id + suc k ≡ id + 1 + k = omega arith in
    let ids = byte_ids k (id + 1) (b / 2) in
    let r =
      byte_ids-Rises k (id + 1) (b / 2) rest (omega arith) (subst (λ (l : ℕ). Rises l rest) e h) in
    let below =
      has-below (ids ++ rest) (id + 1) (id + 0) (Rises-IsAscending (ids ++ rest) (id + 1) r)
        (omega arith) in
    let o : (id + 0 == id) ≡ true = ground arith in
    elim (Bool-cases (b % 2 == 0)) [
      | inl even ↦ rw (even, below) (ground arith)
      | inr odd ↦ rw (odd, o) (ground arith)
    ]
has-byte_ids (suc k) id b (suc q) rest room h =
    let e : id + suc k ≡ id + 1 + k = omega arith in
    let f : id + suc q ≡ id + 1 + q = omega arith in
    let ih =
      has-byte_ids k (id + 1) (b / 2) q rest (omega arith) (subst (λ (l : ℕ). Rises l rest) e h) in
    let o : (id + 1 + q == id) ≡ false = ground arith in
    let l : ltb (suc q) (suc k) ≡ ltb q k = ground arith in
    rw (f, l) (elim (Bool-cases (b % 2 == 0)) [ inl even ↦ rw even ih | inr odd ↦ rw (odd, o) ih ])

pub has-bytes_ids :
    (bs : List ℕ) (id q : ℕ)
    → id + 8 * length bs < 2 ^ 31
    → has (id + q) (bytes_ids id bs) ≡ (digit bs q == 1)
has-bytes_ids [] id q room = rw (digit-behind [] q (omega arith)) refl
has-bytes_ids (b ∷ bs) id q room =
    has-byte_ids 8 id b q (bytes_ids (id + 8) bs) (omega arith)
      (bytes_ids-Rises bs (id + 8) (omega arith))
    ∙ elim (Bool-cases (ltb q 8)) [
      | inl l ↦
          let d : q / 8 ≡ 0 = ground arith in let m : q % 8 ≡ q = ground arith in rw (l, d, m) refl
      | inr l ↦
          let d : q / 8 ≡ suc ((q - 8) / 8) = ground arith in
          let m : q % 8 ≡ (q - 8) % 8 = ground arith in
          let e : id + q ≡ id + 8 + (q - 8) = ground arith in
          rw (l, d, m, e) (has-bytes_ids bs (id + 8) (q - 8) (omega arith))
    ]
