-- ===== src/ItemIndex/RunDelta/Operation/Remainder.antt =====
-- The end of genericOp: the rest of one side, or nothing, and the flush.
use sserialize.Base.{
  ℕ, zero, suc, ◌+◌, ◌-◌, ◌%◌, ◌^◌, ◌<◌, ◌≡◌, refl, sym, ap, ap₂, ◌∙◌, arith, ◌==◌, subst, inl, inr,
  Bool-cases, Option-cases,
}
use sserialize.Base.{
  List, [], ◌∷◌, ◌++◌, append_assoc, length, length-append, Option, some, some-ne-none, ◌>>=◌,
}
use sserialize.Storage.Adapter.{window, shrink_to_get_ptr, of_vector}
use sserialize.Storage.Stream.Over.{over}
use sserialize.ItemIndex.Delta.{create_cache}
use sserialize.ItemIndex.RunDelta.{
  RunCreator, RunIndex, run_ids, run_end, creator_of, push_back_run, push_rle, push_each,
  flush_runs_with,
}
use sserialize.ItemIndex.RunDelta.Runs.{Run, runs_bytes, runs_ids, length-run_ids}
use sserialize.ItemIndex.RunDelta.Read.{IsRunIndexOf}
use sserialize.ItemIndex.RunDelta.Write.{Holds, push_each-Holds}
use sserialize.ItemIndex.RunDelta.RoundTrip.{creator_of-Holds, shrunk}
use sserialize.ItemIndex.RunDelta.PushRle.{push_back_run-IsAfter, push_rle-push_each}
use sserialize.ItemIndex.RunDelta.Operation.{RunSide, push_rest_runs, get_dest_index}
use sserialize.ItemIndex.RunDelta.Operation.Sides.{Leads}
use sserialize.ItemIndex.RunDelta.Operation.Kept.{Rises, Rises-AreNear, push_each-append}
use sserialize.ItemIndex.RunDelta.Operation.Open.{Shows, over-IsOn}
use sserialize.Storage.Adapter.{Adapter, reset_get_ptr, reset_put_ptr}
use sserialize.ItemIndex.RunDelta.Operation.Flush.{flush_runs_with-result}

-- The view of the cache that genericOp opens.
abbrev pub rewound_dest : Adapter → Adapter
rewound_dest d = reset_put_ptr (reset_get_ptr d)

pub rewound_dest-Shows : Shows rewound_dest
unfolding reset_put_ptr reset_get_ptr
rewound_dest-Shows x pad room = over-IsOn x pad 0 room

-- The creator of genericOp, on a new cache.
abbrev pub fresh : RunCreator
fresh = creator_of (create_cache 8)

fresh-over : (fresh.dest ≡ over [] 8) × (fresh.beginning ≡ 0)
unfolding creator_of create_cache of_vector
fresh-over = (refl, refl)

-- A creator that was given these ids.
pub record Given (ids : List ℕ) : Type 0 where
  pub creator : RunCreator
  pub runs : List Run
  pub result : push_each fresh ids ≡ some creator
  pub holds : Holds creator runs ids
  pub on_cache : creator.dest ≡ over [] 8
  pub at_start : creator.beginning ≡ 0

pub given : (ids more : List ℕ) → Rises 0 (ids ++ more) → length ids < 2 ^ 28 → Given ids
given ids more r few =
    let (d, b) = fresh-over in
    let near = Rises-AreNear ids more 0 0 r (omega arith) (omega arith) in
    let (c, rs, e, h, d', b') =
      push_each-Holds ids fresh [] [] (creator_of-Holds (create_cache 8))
        (unfold creator_of in near) (omega arith) in
    record { creator = c; runs = rs; result = e; holds = h; on_cache = d' ∙ d; at_start = b' ∙ b }

-- The last id is remembered.
push_each-run_end :
    (k v x : ℕ) (c c' : RunCreator)
    → c.prev ≡ x
    → push_each c (run_ids k v x) ≡ some c'
    → c'.prev ≡ run_end k v x
unfolding push_each run_ids run_end
push_each-run_end zero v x c c' p e = ground arith
push_each-run_end (suc k) v x c c' p e =
    let id = (x + v) % 2 ^ 32 in
    elim (Option-cases (push_back_run c id)) [
      | inl f ↦ absurd (some-ne-none (sym e ∙ rw f refl))
      | inr (c1, f) ↦
          push_each-run_end k v id c1 c' (push_back_run-IsAfter c c1 id f).at_id (rw f at e)
    ]

push_each-last :
    (k v x : ℕ) (c c' : RunCreator)
    → push_each c (x ∷ run_ids k v x) ≡ some c'
    → c'.prev ≡ run_end k v x
unfolding push_each
push_each-last k v x c c' e = elim (Option-cases (push_back_run c x)) [
  | inl f ↦ absurd (some-ne-none (sym e ∙ rw f refl))
  | inr (c1, f) ↦ push_each-run_end k v x c1 c' (push_back_run-IsAfter c c1 x f).at_id (rw f at e)
]

push_each-one : (c : RunCreator) (x : ℕ) → push_each c (x ∷ []) ≡ push_back_run c x
unfolding push_each
push_each-one c x = elim (Option-cases (push_back_run c x)) [
  | inl f ↦ rw f refl
  | inr (c', f) ↦ rw f refl
]

module _ (n : ℕ) (hn : n < 2 ^ 31) (s : RunSide) (x : ℕ) (xs : List ℕ) (h : Leads n s x xs) where
  -- What the side pushes itself, and the ids of the bytes that it appends.
  abbrev run_rest : List ℕ
  run_rest = x ∷ run_ids (s.rle - 1) s.val x

  abbrev end_id : ℕ
  end_id = run_end (s.rle - 1) s.val x

  abbrev later : List ℕ
  later = runs_ids end_id h.runs

  abbrev appends : RunCreator → Option RunCreator
  appends c' = flush_runs_with c' (shrink_to_get_ptr s.reader) (length later)

  left-count : s.index_it + suc (s.rle - 1) + length later ≡ n
  left-count =
      let i = h.it in
      omega (
        arith,
        ap (λ (t : List ℕ). length t) h.later,
        length-append (run_ids (s.rle - 1) s.val x) later,
        length-run_ids (s.rle - 1) s.val x,
      )

  push_rest_runs-push_each :
      (c : RunCreator) → push_rest_runs c n s ≡ (push_each c run_rest >>= appends)
  unfolding push_rest_runs
  push_rest_runs-push_each c =
      let l = left-count in
      let id = h.at_id in
      elim (Bool-cases (s.rle == 0)) [
        | inl z ↦
            let k : (n + 2 ^ 32 - (s.index_it + 1) % 2 ^ 32) % 2 ^ 32 ≡ length later =
              ground arith in
            let none : s.rle - 1 ≡ 0 = ground arith in
            let z0 : [] ≡ run_ids 0 s.val x = unfold run_ids in refl in
            let e : [] ≡ run_ids (s.rle - 1) s.val x =
              z0 ∙ ap (λ (m : ℕ). run_ids m s.val x) (sym none) in
            let p : push_back_run c s.id ≡ push_each c run_rest =
              sym (push_each-one c s.id) ∙ ap₂ (λ (i : ℕ) (t : List ℕ). push_each c (i ∷ t)) id e in
            rw (z, k) (ap (λ (o : Option RunCreator). o >>= appends) p)
        | inr z ↦
            let k : (n + 2 ^ 32 - (s.index_it + s.rle) % 2 ^ 32) % 2 ^ 32 ≡ length later =
              ground arith in
            let p : push_rle c s.id s.val (s.rle - 1) ≡ push_each c run_rest =
              push_rle-push_each c s.id s.val (s.rle - 1) h.small_id
                (let v = h.small_val in omega arith)
              ∙ ap (λ (i : ℕ). push_each c (i ∷ run_ids (s.rle - 1) s.val i)) id in
            rw (z, k) (ap (λ (o : Option RunCreator). o >>= appends) p)
      ]

  rest-bytes : window (shrink_to_get_ptr s.reader) ≡ runs_bytes h.runs
  rest-bytes = unfold shrink_to_get_ptr in (shrunk s.reader (runs_bytes h.runs) h.on).1.ahead

  pub push_rest_runs-result :
      (zs : List ℕ) (g : Given zs)
      → Rises 0 (zs ++ x ∷ xs)
      → length (zs ++ x ∷ xs) < 2 ^ 28
      → (c' : RunCreator) × (i : RunIndex) × (push_rest_runs g.creator n s ≡ some c')
        × (get_dest_index c' ≡ some i)
        × IsRunIndexOf i (zs ++ x ∷ xs)
  push_rest_runs-result zs g r few =
      let total : zs ++ x ∷ xs ≡ (zs ++ run_rest) ++ later =
        ap (λ (t : List ℕ). zs ++ x ∷ t) h.later ∙ sym (append_assoc zs run_rest later) in
      let q = ap (λ (t : List ℕ). length t) total in
      let a = length-append (zs ++ run_rest) later in
      let v =
        given (zs ++ run_rest) later (subst (λ (t : List ℕ). Rises 0 t) total r) (omega arith) in
      let p : push_each g.creator run_rest ≡ some v.creator =
        sym (push_each-append zs run_rest fresh ∙ rw g.result refl) ∙ v.result in
      let e = push_each-last (s.rle - 1) s.val x g.creator v.creator p in
      let back : (zs ++ run_rest) ++ runs_ids v.creator.prev h.runs ≡ zs ++ x ∷ xs =
        ap (λ (k : ℕ). (zs ++ run_rest) ++ runs_ids k h.runs) e ∙ sym total in
      let (c', i, f, o, w) =
        flush_runs_with-result 8 (omega arith) rewound_dest rewound_dest-Shows v.creator v.runs
          (zs ++ run_rest) v.holds v.on_cache v.at_start (shrink_to_get_ptr s.reader) h.runs
          (length later) rest-bytes h.small (ap (λ (k : ℕ). length (runs_ids k h.runs)) (sym e))
          (omega arith) in
      (
        c',
        i,
        push_rest_runs-push_each g.creator ∙ ap (λ (b : Option RunCreator). b >>= appends) p ∙ f,
        (unfold get_dest_index in o),
        subst (λ (t : List ℕ). IsRunIndexOf i t) back w,
      )
