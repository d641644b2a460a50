-- ===== src/Query/Merge/Heap.antt =====
-- The heap of `merge_windowed`: in descending order, with one candidate for the head of each stream.
use Prim.Native.Nat.{Ordering}
use deepfry.Base.{◌≤◌, ◌<◌, ◌≡◌, ◌≢◌, ◌⊎◌, inl, inr, sym, arith, List, [], ◌∷◌, All, All-imp}
use deepfry.Query.Merge.{Triple, MergeCandidate, cmp, heap_push}

-- `t` comes before `u` in `(created_at DESC, lev_id DESC)`, or they tie.
abbrev pub IsNotOlder : Triple → Triple → Type 0
IsNotOlder t u = (u.0 < t.0) ⊎ ((t.0 ≡ u.0) × (u.1 ≤ t.1))

pub IsNotOlder-trans : (t u v : Triple) → IsNotOlder t u → IsNotOlder u v → IsNotOlder t v
IsNotOlder-trans t u v h k = ground arith

abbrev pub triple_of : MergeCandidate → Triple
triple_of c = (c.created_at, c.lev_id, c.key_bytes)

abbrev pub Any {ℓ} : {A : Type ℓ} → (A → Type 0) → List A → Type 0
Any P [] = ⊥
Any P (x ∷ xs) = P x ⊎ Any P xs

abbrev pub IsDescending : List MergeCandidate → Type 0
IsDescending [] = Unit
IsDescending (c ∷ heap) =
    All (λ (d : MergeCandidate). IsNotOlder (triple_of c) (triple_of d)) heap × IsDescending heap

abbrev pub IsDistinct : List MergeCandidate → Type 0
IsDistinct [] = Unit
IsDistinct (c ∷ heap) =
    All (λ (d : MergeCandidate). c.stream_idx ≢ d.stream_idx) heap × IsDistinct heap

cmp_cases :
    (c d : MergeCandidate)
    → ((cmp c d ≡ Ordering.lt) × IsNotOlder (triple_of d) (triple_of c))
      ⊎ ((cmp c d ≢ Ordering.lt) × IsNotOlder (triple_of c) (triple_of d))
unfolding cmp
cmp_cases c d = ground arith

heap_push_older :
    (c d : MergeCandidate) (heap : List MergeCandidate)
    → cmp c d ≡ Ordering.lt
    → heap_push c (d ∷ heap) ≡ d ∷ heap_push c heap
unfolding heap_push
heap_push_older c d heap e = ground arith

heap_push_newer :
    (c d : MergeCandidate) (heap : List MergeCandidate)
    → cmp c d ≢ Ordering.lt
    → heap_push c (d ∷ heap) ≡ c ∷ d ∷ heap
unfolding heap_push
heap_push_newer c d heap n = ground arith

pub All-heap_push :
    (P : MergeCandidate → Type 0) (c : MergeCandidate) (heap : List MergeCandidate)
    → P c
    → All P heap
    → All P (heap_push c heap)
All-heap_push P c [] p a = unfold heap_push in (p, tt)
All-heap_push P c (d ∷ heap) p a = elim (cmp_cases c d) [
  | inl (e, o) ↦ rw (heap_push_older c d heap e, All) (a.0, All-heap_push P c heap p a.1)
  | inr (n, o) ↦ rw (heap_push_newer c d heap n, All) (p, a)
]

pub Any-heap_push :
    (P : MergeCandidate → Type 0) (c : MergeCandidate) (heap : List MergeCandidate)
    → P c ⊎ Any P heap
    → Any P (heap_push c heap)
Any-heap_push P c [] (inl p) = unfold heap_push in inl p
Any-heap_push P c [] (inr x) = elim x [ ]
Any-heap_push P c (d ∷ heap) h = elim (cmp_cases c d) [
  | inl (e, o) ↦
      rw (heap_push_older c d heap e, Any)
        (elim h [
          | inl p ↦ inr (Any-heap_push P c heap (inl p))
          | inr (inl p) ↦ inl p
          | inr (inr a) ↦ inr (Any-heap_push P c heap (inr a))
        ])
  | inr (n, o) ↦ rw (heap_push_newer c d heap n, Any) h
]

pub heap_push-IsDescending :
    (c : MergeCandidate) (heap : List MergeCandidate)
    → IsDescending heap
    → IsDescending (heap_push c heap)
heap_push-IsDescending c [] s = unfold heap_push in (tt, tt)
heap_push-IsDescending c (d ∷ heap) s = elim (cmp_cases c d) [
  | inl (e, o) ↦
      rw (heap_push_older c d heap e, IsDescending)
        (
          All-heap_push (λ (x : MergeCandidate). IsNotOlder (triple_of d) (triple_of x)) c heap o
              s.0,
          heap_push-IsDescending c heap s.1,
        )
  | inr (n, o) ↦ rw (heap_push_newer c d heap n) (
    (
      o,
      All-imp
          (λ (x : MergeCandidate) h. IsNotOlder-trans (triple_of c) (triple_of d) (triple_of x) o h)
          heap s.0,
    ),
    s,
  )
]

pub heap_push-IsDistinct :
    (c : MergeCandidate) (heap : List MergeCandidate)
    → All (λ (d : MergeCandidate). c.stream_idx ≢ d.stream_idx) heap
    → IsDistinct heap
    → IsDistinct (heap_push c heap)
heap_push-IsDistinct c [] a s = unfold heap_push in (tt, tt)
heap_push-IsDistinct c (d ∷ heap) a s = elim (cmp_cases c d) [
  | inl (e, o) ↦
      rw (heap_push_older c d heap e, IsDistinct)
        (
          All-heap_push (λ (x : MergeCandidate). d.stream_idx ≢ x.stream_idx) c heap
              (λ p. a.0 (sym p)) s.0,
          heap_push-IsDistinct c heap a.1 s.1,
        )
  | inr (n, o) ↦ rw (heap_push_newer c d heap n) (a, s)
]
