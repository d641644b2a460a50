-- ===== src/Query/Merge/Seed.antt =====
-- The heap holds one candidate for each stream that has a head: after the seed, and kept by a push.
use deepfry.Base.{
  ℕ, zero, suc, ◌+◌, ◌-◌, ◌≤◌, ◌<◌, ◌≡◌, ◌≢◌, ◌⊎◌, inl, inr, refl, sym, ap, ◌∙◌, arith, Option,
  none, some, Option-cases, List, [], ◌∷◌, All, All-imp,
}
use deepfry.Query.Merge.{Triple, MergeCandidate, StreamState, heap_push, peek, push_head, seed}
use deepfry.Query.Merge.Heap.{
  triple_of, Any, IsDescending, IsDistinct, All-heap_push, Any-heap_push, heap_push-IsDescending,
  heap_push-IsDistinct,
}

lt_or_le : (a b : ℕ) → (a < b) ⊎ (b ≤ a)
lt_or_le a b = ground arith

-- The heap's candidates are heads of the streams, no two of one stream, in descending order; the
-- head of every stream in `Q` is there.
pub record IsHeapOf (look : ℕ → Option Triple) (Q : ℕ → Type 0) (heap : List MergeCandidate)
    : Type 0 where
  pub descending : IsDescending heap
  pub distinct : IsDistinct heap
  pub heads : All (λ (c : MergeCandidate). look c.stream_idx ≡ some (triple_of c)) heap
  pub covers :
      (i : ℕ) (t : Triple)
      → Q i
      → look i ≡ some t
      → Any (λ (c : MergeCandidate). c.stream_idx ≡ i) heap

abbrev candidate : ℕ → Triple → MergeCandidate
candidate idx t = record { created_at = t.0; lev_id = t.1; key_bytes = t.2; stream_idx = idx }

push_head-none :
    (idx : ℕ) (s : StreamState) (heap : List MergeCandidate)
    → peek s ≡ none
    → push_head idx s heap ≡ heap
unfolding push_head
push_head-none idx s heap e = ground arith

push_head-some :
    (idx : ℕ) (s : StreamState) (heap : List MergeCandidate) (t : Triple)
    → peek s ≡ some t
    → push_head idx s heap ≡ heap_push (candidate idx t) heap
unfolding push_head
push_head-some idx s heap t e = ground arith

-- A stream that is not in the heap joins it.
pub push_head-IsHeapOf :
    (look : ℕ → Option Triple) (Q Q' : ℕ → Type 0) (idx : ℕ) (s : StreamState)
    (heap : List MergeCandidate)
    → IsHeapOf look Q heap
    → All (λ (c : MergeCandidate). idx ≢ c.stream_idx) heap
    → look idx ≡ peek s
    → ((i : ℕ) → Q' i → Q i ⊎ (i ≡ idx))
    → IsHeapOf look Q' (push_head idx s heap)
push_head-IsHeapOf look Q Q' idx s heap h new at grows = elim (Option-cases (peek s)) [
  | inl e ↦ rw (push_head-none idx s heap e) (record {
    descending = h.descending;
    distinct = h.distinct;
    heads = h.heads;
    covers = λ i t q l. elim (grows i q) [ inl q' ↦ h.covers i t q' l | inr p ↦ absurd cc ];
  })
  | inr (t, e) ↦
      let c = candidate idx t in
      rw (push_head-some idx s heap t e) (record {
        descending = heap_push-IsDescending c heap h.descending;
        distinct = heap_push-IsDistinct c heap new h.distinct;
        heads =
            All-heap_push (λ (d : MergeCandidate). look d.stream_idx ≡ some (triple_of d)) c heap
              (at ∙ e) h.heads;
        covers = λ i u q l.
            Any-heap_push (λ (d : MergeCandidate). d.stream_idx ≡ i) c heap
              (elim (grows i q) [ inl q' ↦ inr (h.covers i u q' l) | inr p ↦ inl (sym p) ]);
      })
]

-- The head of the stream at an index.
abbrev pub head_at : List StreamState → ℕ → Option Triple
head_at [] i = none
head_at (s ∷ streams) zero = peek s
head_at (s ∷ streams) (suc i) = head_at streams i

All-push_head :
    (P : MergeCandidate → Type 0) (idx : ℕ) (s : StreamState) (heap : List MergeCandidate)
    → ((c : MergeCandidate) → c.stream_idx ≡ idx → P c)
    → All P heap
    → All P (push_head idx s heap)
All-push_head P idx s heap f a = elim (Option-cases (peek s)) [
  | inl e ↦ rw (push_head-none idx s heap e, All) a
  | inr (t, e) ↦
      let c = candidate idx t in
      rw (push_head-some idx s heap t e, All) (All-heap_push P c heap (f c refl) a)
]

seed-IsHeapOf_from :
    (look : ℕ → Option Triple) (idx : ℕ) (streams : List StreamState) (heap : List MergeCandidate)
    → ((j : ℕ) → look (idx + j) ≡ head_at streams j)
    → All (λ (c : MergeCandidate). c.stream_idx < idx) heap
    → IsHeapOf look (λ i. i < idx) heap
    → IsHeapOf look (λ i. Unit) (seed idx streams heap)
unfolding seed
seed-IsHeapOf_from look idx [] heap at low h = record {
  descending = h.descending;
  distinct = h.distinct;
  heads = h.heads;
  covers = λ i t q l. elim (lt_or_le i idx) [
    | inl low' ↦ h.covers i t low' l
    | inr high ↦
        let same : idx + (i - idx) ≡ i = omega arith in
        let gone : look i ≡ none = rw same at (at (i - idx)) in absurd cc
  ];
}
seed-IsHeapOf_from look idx (s ∷ streams) heap at low h =
    let later : (j : ℕ) → look (suc idx + j) ≡ head_at streams j =
      λ j. let same : idx + suc j ≡ suc idx + j = omega arith in rw same at (at (suc j)) in
    let first : look idx ≡ peek s = let same : idx + 0 ≡ idx = omega arith in rw same at (at 0) in
    let below : All (λ (c : MergeCandidate). c.stream_idx < suc idx) heap =
      All-imp {P = λ (c : MergeCandidate). c.stream_idx < idx} (λ c l. omega arith) heap low in
    let new : All (λ (c : MergeCandidate). idx ≢ c.stream_idx) heap =
      All-imp {P = λ (c : MergeCandidate). c.stream_idx < idx} (λ c l e. omega arith) heap low in
    seed-IsHeapOf_from look (suc idx) streams (push_head idx s heap) (λ j. later j)
      (All-push_head (λ (c : MergeCandidate). c.stream_idx < suc idx) idx s heap
        (λ c e. omega arith) below)
      (push_head-IsHeapOf look (λ i. i < idx) (λ i. i < suc idx) idx s heap h new first
        (λ i l. ground arith))

same_index : (streams : List StreamState) (j : ℕ) → head_at streams (0 + j) ≡ head_at streams j
same_index streams j = let same : 0 + j ≡ j = omega arith in ap (head_at streams) same

-- The seeded heap has the head of every stream.
pub seed-IsHeapOf :
    (streams : List StreamState) → IsHeapOf (head_at streams) (λ i. Unit) (seed 0 streams [])
seed-IsHeapOf streams =
    seed-IsHeapOf_from (head_at streams) 0 streams [] (same_index streams) tt (record {
      descending = tt;
      distinct = tt;
      heads = tt;
      covers = λ i t l e. absurd (omega arith);
    })
