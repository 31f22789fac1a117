-- ===== src/RleStream/Chunk.antt =====
-- The words of one flush, and that a reader turns them into the values of its run.
use sserialize.Base.{ℕ, suc, ◌+◌, ◌*◌, ◌/◌, ◌%◌, ◌^◌, ◌<◌, ◌≡◌, refl, ◌∙◌, arith}
use sserialize.Base.{ltb, ◌==◌, if◌then◌else◌, List, [], ◌∷◌, ◌++◌, append_assoc, length, some}
use sserialize.Base.{ℤ, pos, negsuc, abs, is_negative, sub_ℕ, Bool-cases, inl, inr}
use sserialize.Base.Bits.{bit_and_mask}
use sserialize.Pack.Varint.Groups.{groups}
use sserialize.Pack.Signed.{with_sign}
use sserialize.Storage.Adapter.{Adapter}
use sserialize.Storage.Adapter.Valid.{IsValid}
use sserialize.Storage.Stream.Read.{unread, advanced, advanced-unread, get_vl_packed_uint64-groups}
use sserialize.RleStream.{Stream, dispatch, fetch, next, read_values}

-- What flush writes for a run of `count` differences `diff` that ends at `prev_id`.
unfoldable pub flush_bytes : ℕ → ℤ → ℕ → List ℕ
flush_bytes prev_id diff count =
    if count == 1
    then if ltb (abs diff) prev_id
      then groups 10 (abs diff * 4 + (if is_negative diff then 1 else 0))
      else groups 10 (prev_id * 4 + 2)
    else if ltb 1 count
    then groups 10 (count * 4 + 3) ++ groups 5 (with_sign 32 diff)
    else []

-- `vs` are the uint32s of a run from `b` on.
abbrev pub IsRun : ℕ → ℤ → List ℕ → Type 0
IsRun b diff [] = Unit {0}
IsRun b diff (v ∷ vs) = (sub_ℕ v b ≡ diff) × (v < 2 ^ 32) × IsRun v diff vs

-- The value at which a run from `b` ends.
abbrev pub last_or : ℕ → List ℕ → ℕ
last_or b [] = b
last_or b (v ∷ vs) = last_or v vs

-- A stream between two runs at the value `b`, with these bytes ahead.
pub record IsReady (s : Stream) (b : ℕ) (bytes : List ℕ) : Type 0 where
  pub valid : IsValid s.d
  pub small : s.d.len < 2 ^ 63
  pub no_run : s.cur_rle_count ≡ 0
  pub at_value : s.cur_id ≡ b
  pub ahead : unread s.d ≡ bytes

-- The values that a stream shows in turn.
pub data Reads : Stream → List ℕ → Stream → Type 0 where
  done : {s : Stream} → Reads s [] s
  step :
      {s t u : Stream} {v : ℕ} {vs : List ℕ}
      → next s ≡ some t
      → t.cur_id ≡ v
      → Reads t vs u
      → Reads s (v ∷ vs) u

pub Reads-append :
    {s t u : Stream} {vs ws : List ℕ} → Reads s vs t → Reads t ws u → Reads s (vs ++ ws) u
Reads-append done k = k
Reads-append (step n e h) k = step n e (Reads-append h k)

pub read_values-Reads :
    {s u : Stream} {vs : List ℕ} → Reads s vs u → read_values (length vs) s ≡ some (vs, u)
unfolding read_values
read_values-Reads done = refl
read_values-Reads (step n e h) = rw (n, read_values-Reads h, e)

-- From `b`, and whatever follows, the bytes are read as the values, and leave the stream at `e`.
abbrev pub Decodes : ℕ → List ℕ → List ℕ → ℕ → Type 0
Decodes b bytes vs e =
    (s : Stream) (more : List ℕ)
    → IsReady s b (bytes ++ more)
    → (u : Stream) × Reads s vs u × IsReady u e more

pub Decodes-append :
    (b m e : ℕ) (xs ys vs ws : List ℕ)
    → Decodes b xs vs m
    → Decodes m ys ws e
    → Decodes b (xs ++ ys) (vs ++ ws) e
Decodes-append b m e xs ys vs ws f g s more r =
    let r' : IsReady s b (xs ++ (ys ++ more)) = rw append_assoc at r in
    let (t, h, q) = f s (ys ++ more) r' in let (u, k, p) = g t more q in (u, Reads-append h k, p)

-- One word: the stream that fetches it, and where its data stand behind it.
module _ (s : Stream) (b w : ℕ) (more : List ℕ) (h : w < 2 ^ 64)
    (r : IsReady s b (groups 10 w ++ more)) where
  abbrev behind : Adapter
  behind = advanced s.d (length (groups 10 w))

  fetch-word : fetch s ≡ (w, record s { d = behind })
  unfolding fetch
  fetch-word = rw (get_vl_packed_uint64-groups s.d r.valid r.small more w h r.ahead)

  pub next-word : next s ≡ dispatch (record s { d = behind }) (w % 4) (w / 4)
  unfolding next
  next-word = ground (arith, fetch-word, bit_and_mask 2 w, r.no_run)

  pub behind-IsReady : (id : ℕ) → IsReady (record s { d = behind; cur_id = id }) id more
  unfolding advanced
  behind-IsReady id =
      let (v, e) = advanced-unread s.d r.valid r.small (groups 10 w) more r.ahead in
      record { valid = v; small = r.small; no_run = r.no_run; at_value = refl; ahead = e }

-- A word that is no run is one value.
word-Decodes :
    (w b p : ℕ)
    → w < 2 ^ 64
    → ((s : Stream) → s.cur_id ≡ b → dispatch s (w % 4) (w / 4) ≡ some (record s { cur_id = p }))
    → Decodes b (groups 10 w) (p ∷ []) p
word-Decodes w b p h f s more r =
    let d' : Adapter = advanced s.d (length (groups 10 w)) in
    (
      record s { d = d'; cur_id = p },
      step (next-word s b w more h r ∙ f (record s { d = d' }) r.at_value) refl done,
      behind-IsReady s b w more h r p,
    )

word_up : (n b p : ℕ) → b + n ≡ p → p < 2 ^ 32 → Decodes b (groups 10 (n * 4 + 0)) (p ∷ []) p
word_up n b p e hp =
    word-Decodes (n * 4 + 0) b p (omega arith) λ s at. unfold dispatch in ground arith

word_down : (n b p : ℕ) → p + n ≡ b → b < 2 ^ 32 → Decodes b (groups 10 (n * 4 + 1)) (p ∷ []) p
word_down n b p e hb =
    word-Decodes (n * 4 + 1) b p (omega arith) λ s at. unfold dispatch in ground arith

pub word_full : (b p : ℕ) → p < 2 ^ 32 → Decodes b (groups 10 (p * 4 + 2)) (p ∷ []) p
word_full b p hp =
    word-Decodes (p * 4 + 2) b p (omega arith) λ s at. unfold dispatch in ground arith

-- A run of one value is one word.
pub Decodes-single :
    (b p : ℕ) (d : ℤ)
    → sub_ℕ p b ≡ d
    → b < 2 ^ 32
    → p < 2 ^ 32
    → Decodes b (flush_bytes p d 1) (p ∷ []) p
unfolding flush_bytes
Decodes-single b p (pos n) e hb hp = elim (Bool-cases (ltb n p)) [
  | inl near ↦ rw near (word_up n b p (ground arith) hp)
  | inr far ↦ rw far (word_full b p hp)
]
Decodes-single b p (negsuc n) e hb hp = elim (Bool-cases (ltb (suc n) p)) [
  | inl near ↦ rw near (word_down (suc n) b p (ground arith) hb)
  | inr far ↦ rw far (word_full b p hp)
]
