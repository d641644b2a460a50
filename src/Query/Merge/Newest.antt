-- ===== src/Query/Merge/Newest.antt =====
-- `merge_windowed`: the newest entries of all streams, newest first.
use mathlib.Core.Path.{subst}
use mathlib.Core.Option.{some-injective}
use mathlib.Core.List.{Permᴰ}
use mathlib.Core.List.Permᴰ
use deepfry.Base.{
  ℕ, zero, suc, ◌≤◌, ◌≡◌, ◌≢◌, ◌⊎◌, inl, inr, refl, sym, ap, ◌∙◌, arith, Bool, Bool-cases, some,
  Option-cases, List, [], ◌∷◌, ◌++◌, All, All-imp, All-append, get_elem?, set, length, ◌==◌,
}
use deepfry.Base.Results.{Result, ok}
use deepfry.Base.Words.{Bytes}
use deepfry.Lmdb.Scan.{Hit}
use deepfry.Query.Router.{concat_map}
use deepfry.Query.Merge.{
  Triple, MergeCandidate, StreamState, Floor, peek, push_head, advance_stream, advance, merge_loop,
}
use deepfry.Query.Merge.Heap.{IsNotOlder, IsNotOlder-trans, triple_of}
use deepfry.Query.Merge.Seed.{IsHeapOf, push_head-IsHeapOf, head_at}
use deepfry.Query.Merge.Advance.{
  IsNewestFirst, IsReady, content-peek-none, content-peek, consumed, advance_stream_lem,
}
use deepfry.Query.Merge.Refill.{content}
use deepfry.Query.Merge.Pop.{
  All-Perm, All-get, All-set, head_at-get, head_at-set, head_at-set_other, IsNotOlder-refl,
  pop-IsHeapOf, top-head,
}

eq_or_ne : (i j : ℕ) → (i ≢ j) ⊎ (j ≡ i)
eq_or_ne i j = ground arith

-- `out` has the newest entries of `out ++ leftover`, newest first.
abbrev pub IsNewest : List Triple → List Triple → Type 0
IsNewest [] leftover = Unit
IsNewest (t ∷ out) leftover =
    All (λ (u : Triple). IsNotOlder t u) (out ++ leftover) × IsNewest out leftover

-- `out` is the newest `room` entries of `total`, or all of them, newest first.
pub record IsPage (room : ℕ) (total out : List Triple) : Type 0 where
  pub leftover : List Triple
  pub same : Permᴰ (out ++ leftover) total
  pub newest : IsNewest out leftover
  pub bounded : length out ≤ room
  pub full : (leftover ≡ []) ⊎ (length out ≡ room)

module _ {E : Type 0} (scan : Bytes → Bool → ℕ → Result E (List Hit × Bytes × Bool))
    (batch_size since : ℕ) (floor : Floor) (rest : Bytes → Bool → List Hit)
    (At : Bytes → Bool → Type 0) where
  abbrev given : StreamState → List Triple
  given s = content scan batch_size since floor rest At s

  abbrev Ready : StreamState → Type 0
  Ready s = IsReady scan batch_size since floor rest At s

  -- All that the streams have to give.
  abbrev total : List StreamState → List Triple
  total streams = concat_map given streams

  total-set :
      (streams : List StreamState) (i : ℕ) (s s' : StreamState) (t : Triple)
      → get_elem? streams i ≡ some s
      → given s ≡ t ∷ given s'
      → Permᴰ (total streams) (t ∷ total (set streams i s'))
  total-set [] i s s' t e g = absurd cc
  total-set (x ∷ streams) zero s s' t e g =
      let p : total (x ∷ streams) ≡ t ∷ total (s' ∷ streams) =
        ap (λ (z : StreamState). given z ++ total streams) (some-injective _ _ e)
        ∙ ap (λ (ts : List Triple). ts ++ total streams) g in
      subst (λ (ts : List Triple). Permᴰ (total (x ∷ streams)) ts) p
        (Permᴰ.refl (total (x ∷ streams)))
  total-set (x ∷ streams) (suc i) s s' t e g =
      Permᴰ.trans (Permᴰ.append_left (given x) (total-set streams i s s' t e g))
        (Permᴰ.middle t (given x) (total (set streams i s')))

  -- Streams without a head have nothing to give.
  total_none :
      (streams : List StreamState)
      → All Ready streams
      → ((i : ℕ) (t : Triple) → head_at streams i ≢ some t)
      → total streams ≡ []
  total_none [] r n = refl
  total_none (s ∷ streams) r n = elim (Option-cases (peek s)) [
    | inl e ↦
        rw (content-peek-none scan batch_size since floor rest At s r.0.0 e)
          (total_none streams r.1 (λ i. n (suc i)))
    | inr (t, e) ↦ absurd (n 0 t e)
  ]

  given-IsNotOlder :
      (t : Triple) (s : StreamState)
      → Ready s
      → ((u : Triple) → peek s ≡ some u → IsNotOlder t u)
      → All (λ (u : Triple). IsNotOlder t u) (given s)
  given-IsNotOlder t s r n = elim (Option-cases (peek s)) [
    | inl e ↦
        subst (All (λ (u : Triple). IsNotOlder t u))
          (sym (content-peek-none scan batch_size since floor rest At s r.0 e)) tt
    | inr (u, e) ↦
        let split = content-peek scan batch_size since floor rest At s u e in
        let newest : IsNewestFirst (u ∷ given (consumed scan batch_size since floor rest At s)) =
          subst IsNewestFirst split r.3 in
        subst (All (λ (u : Triple). IsNotOlder t u)) (sym split) (
          n u e,
          All-imp (λ v o. IsNotOlder-trans t u v (n u e) o)
              (given (consumed scan batch_size since floor rest At s)) newest.0,
        )
  ]

  -- What is not older than any head is not older than anything that the streams have to give.
  total-IsNotOlder :
      (t : Triple) (streams : List StreamState)
      → All Ready streams
      → ((i : ℕ) (u : Triple) → head_at streams i ≡ some u → IsNotOlder t u)
      → All (λ (u : Triple). IsNotOlder t u) (total streams)
  total-IsNotOlder t [] r n = tt
  total-IsNotOlder t (s ∷ streams) r n =
      All-append (λ (u : Triple). IsNotOlder t u) (given s) (total streams)
        (given-IsNotOlder t s r.0 (n 0)) (total-IsNotOlder t streams r.1 (λ i. n (suc i)))

  -- A page of the streams after one entry, and that entry, are a page with room for one more.
  IsPage-cons :
      (room : ℕ) (t : Triple) (more all_left : List Triple)
      → Permᴰ all_left (t ∷ more)
      → All (λ (u : Triple). IsNotOlder t u) all_left
      → (out : List Triple) → IsPage room more out
      → IsPage (suc room) all_left (t ∷ out)
  IsPage-cons room t more all_left p o out page = record {
    leftover = page.leftover;
    same = Permᴰ.trans (Permᴰ.cons refl page.same) (Permᴰ.symm p);
    newest = (older.1, page.newest);
    bounded = omega (arith, page.bounded);
    full = elim page.full [ inl e ↦ inl e | inr e ↦ inr (ap suc e) ];
  }
    where
      older : All (λ (u : Triple). IsNotOlder t u) ((t ∷ out) ++ page.leftover)
      older =
          All-Perm (λ (u : Triple). IsNotOlder t u)
            (Permᴰ.trans p (Permᴰ.cons refl (Permᴰ.symm page.same))) o

  last-IsPage :
      (room : ℕ) (t : Triple) (more all_left : List Triple)
      → Permᴰ all_left (t ∷ more)
      → All (λ (u : Triple). IsNotOlder t u) all_left
      → room ≡ 0
      → IsPage (suc room) all_left (t ∷ [])
  last-IsPage room t more all_left p o e = record {
    leftover = more;
    same = Permᴰ.symm p;
    newest = ((All-Perm (λ (u : Triple). IsNotOlder t u) p o).1, tt);
    bounded = omega arith;
    full = inr (omega arith);
  }

  advance_lem :
      (i : ℕ) (streams : List StreamState) (heap : List MergeCandidate) (s s' : StreamState)
      → get_elem? streams i ≡ some s
      → advance_stream scan batch_size since floor s ≡ ok s'
      → advance scan batch_size since floor i streams heap
        ≡ ok (set streams i s', push_head i s' heap)
  unfolding advance
  advance_lem i streams heap s s' e run = ground arith

  abbrev Merges : ℕ → List StreamState → List MergeCandidate → Type 0
  Merges room streams heap =
      (out : List Triple) × (merge_loop scan batch_size since floor room streams heap ≡ ok out)
      × IsPage room (total streams) out

  merge_step :
      (room : ℕ) (streams : List StreamState) (c : MergeCandidate) (heap : List MergeCandidate)
      → All Ready streams
      → IsHeapOf (head_at streams) (λ i. Unit) (c ∷ heap)
      → ((streams' : List StreamState) (heap' : List MergeCandidate)
          → All Ready streams'
          → IsHeapOf (head_at streams') (λ i. Unit) heap'
          → Merges room streams' heap')
      → Merges (suc room) streams (c ∷ heap)
  unfolding merge_loop
  merge_step room streams c heap ready h next =
      let i = c.stream_idx in
      let t = triple_of c in
      let (s, at, head) = head_at-get streams i t h.heads.0 in
      let (s', run, ready', split) =
        advance_stream_lem scan batch_size since floor rest At s t
          (All-get Ready streams i s ready at) head in
      let streams' = set streams i s' in
      let moved = advance_lem i streams heap s s' at run in
      let popped =
        pop-IsHeapOf (head_at streams) (head_at streams') c heap h
          (λ j n. head_at-set_other streams i j s' n) in
      let pushed : IsHeapOf (head_at streams') (λ j. Unit) (push_head i s' heap) =
        push_head-IsHeapOf (head_at streams') (λ j. i ≢ j) (λ j. Unit) i s' heap popped h.distinct.0
          (head_at-set streams i s s' at) (λ j u. eq_or_ne i j) in
      let oldest : All (λ (u : Triple). IsNotOlder t u) (total streams) =
        total-IsNotOlder t streams ready (λ j u e.
          top-head (head_at streams) t (c ∷ heap) j u (IsNotOlder-refl t, h.descending.0) h.heads e
            (h.covers j u tt e)) in
      let perm = total-set streams i s s' t at split in
      let (out, merged, page) =
        next streams' (push_head i s' heap) (All-set Ready streams i s' ready ready') pushed in
      elim (Bool-cases (room == 0)) [
        | inl last ↦ (
          t ∷ [],
          ground (arith, moved, merged),
          last-IsPage room t (total streams') (total streams) perm oldest (ground arith),
        )
        | inr more ↦ (
          t ∷ out,
          ground (arith, moved, merged),
          IsPage-cons room t (total streams') (total streams) perm oldest out page,
        )
      ]

  pub merge_loop_lem :
      (room : ℕ) (streams : List StreamState) (heap : List MergeCandidate)
      → All Ready streams
      → IsHeapOf (head_at streams) (λ i. Unit) heap
      → Merges room streams heap
  unfolding merge_loop
  merge_loop_lem zero streams heap ready h = (
    [],
    refl,
    record {
      leftover = total streams;
      same = Permᴰ.refl (total streams);
      newest = tt;
      bounded = omega arith;
      full = inr refl;
    },
  )
  merge_loop_lem (suc room) streams [] ready h =
      let nothing = total_none streams ready (λ i t e. h.covers i t tt e) in
      (
        [],
        refl,
        rw nothing (record {
          leftover = [];
          same = Permᴰ.nil;
          newest = tt;
          bounded = omega arith;
          full = inl refl;
        }),
      )
  merge_loop_lem (suc room) streams (c ∷ heap) ready h =
      merge_step room streams c heap ready h
        (λ streams' heap' r h'. merge_loop_lem room streams' heap' r h')
