-- ===== src/Query/Merge/Pop.antt =====
-- The heap without its first candidate, and the streams without its entry.
use mathlib.Core.Path.{subst}
use mathlib.Core.Option.{some-injective}
use mathlib.Core.List.{Permᴰ}
use deepfry.Base.{
  ℕ, zero, suc, ◌≡◌, ◌≢◌, inl, inr, refl, sym, ap, ◌∙◌, arith, Option, some, List, [], ◌∷◌, All,
  All-imp, get_elem?, set,
}
use deepfry.Query.Merge.{Triple, MergeCandidate, StreamState, peek}
use deepfry.Query.Merge.Heap.{IsNotOlder, triple_of, Any}
use deepfry.Query.Merge.Seed.{IsHeapOf, head_at}

pub All-Perm : (P : Triple → Type 0) {xs ys : List Triple} → Permᴰ xs ys → All P xs → All P ys
All-Perm P Permᴰ.nil a = tt
All-Perm P (Permᴰ.cons e p) a = (subst P e a.0, All-Perm P p a.1)
All-Perm P (Permᴰ.swap e f) (a, (b, rest)) = (subst P f b, (subst P e a, rest))
All-Perm P (Permᴰ.trans p q) a = All-Perm P q (All-Perm P p a)

All-and :
    (P Q : MergeCandidate → Type 0) (xs : List MergeCandidate)
    → All P xs
    → All Q xs
    → All (λ x. P x × Q x) xs
All-and P Q [] a b = tt
All-and P Q (x ∷ xs) a b = ((a.0, b.0), All-and P Q xs a.1 b.1)

pub All-get :
    (P : StreamState → Type 0) (xs : List StreamState) (i : ℕ) (s : StreamState)
    → All P xs
    → get_elem? xs i ≡ some s
    → P s
All-get P [] i s a e = absurd cc
All-get P (x ∷ xs) zero s a e = subst P (some-injective _ _ e) a.0
All-get P (x ∷ xs) (suc i) s a e = All-get P xs i s a.1 e

pub All-set :
    (P : StreamState → Type 0) (xs : List StreamState) (i : ℕ) (s : StreamState)
    → All P xs
    → P s
    → All P (set xs i s)
All-set P [] i s a p = tt
All-set P (x ∷ xs) zero s a p = (p, a.1)
All-set P (x ∷ xs) (suc i) s a p = (a.0, All-set P xs i s a.1 p)

pub head_at-get :
    (streams : List StreamState) (i : ℕ) (t : Triple)
    → head_at streams i ≡ some t
    → (s : StreamState) × (get_elem? streams i ≡ some s) × (peek s ≡ some t)
head_at-get [] i t e = absurd cc
head_at-get (s ∷ streams) zero t e = (s, refl, e)
head_at-get (s ∷ streams) (suc i) t e = head_at-get streams i t e

pub head_at-set :
    (streams : List StreamState) (i : ℕ) (s s' : StreamState)
    → get_elem? streams i ≡ some s
    → head_at (set streams i s') i ≡ peek s'
head_at-set [] i s s' e = absurd cc
head_at-set (x ∷ streams) zero s s' e = refl
head_at-set (x ∷ streams) (suc i) s s' e = head_at-set streams i s s' e

pub head_at-set_other :
    (streams : List StreamState) (i j : ℕ) (s : StreamState)
    → i ≢ j
    → head_at (set streams i s) j ≡ head_at streams j
head_at-set_other [] i j s n = refl
head_at-set_other (x ∷ streams) zero zero s n = absurd (n refl)
head_at-set_other (x ∷ streams) zero (suc j) s n = refl
head_at-set_other (x ∷ streams) (suc i) zero s n = refl
head_at-set_other (x ∷ streams) (suc i) (suc j) s n =
    head_at-set_other streams i j s (λ e. n (ap suc e))

pub IsNotOlder-refl : (t : Triple) → IsNotOlder t t
IsNotOlder-refl t = ground arith

-- Without its first candidate, the heap has the heads of the other streams.
pub pop-IsHeapOf :
    (look look' : ℕ → Option Triple) (c : MergeCandidate) (heap : List MergeCandidate)
    → IsHeapOf look (λ i. Unit) (c ∷ heap)
    → ((i : ℕ) → c.stream_idx ≢ i → look' i ≡ look i)
    → IsHeapOf look' (λ i. c.stream_idx ≢ i) heap
pop-IsHeapOf look look' c heap h same = record {
  descending = h.descending.1;
  distinct = h.distinct.1;
  heads =
      All-imp (λ d p. same d.stream_idx p.0 ∙ p.1) heap
        (All-and (λ d. c.stream_idx ≢ d.stream_idx) (λ d. look d.stream_idx ≡ some (triple_of d))
          heap h.distinct.0 h.heads.1);
  covers =
      λ i t n l. elim (h.covers i t tt (sym (same i n) ∙ l)) [ inl e ↦ absurd (n e) | inr a ↦ a ];
}

-- The first candidate is not older than the head of any stream.
pub top-head :
    (look : ℕ → Option Triple) (t : Triple) (heap : List MergeCandidate) (i : ℕ) (u : Triple)
    → All (λ (d : MergeCandidate). IsNotOlder t (triple_of d)) heap
    → All (λ (d : MergeCandidate). look d.stream_idx ≡ some (triple_of d)) heap
    → look i ≡ some u
    → Any (λ (d : MergeCandidate). d.stream_idx ≡ i) heap
    → IsNotOlder t u
top-head look t [] i u o h l x = elim x [ ]
top-head look t (d ∷ heap) i u o h l (inl e) =
    let p : some (triple_of d) ≡ some u = sym h.0 ∙ ap look e ∙ l in
    subst (λ v. IsNotOlder t v) (some-injective _ _ p) o.0
top-head look t (d ∷ heap) i u o h l (inr a) = top-head look t heap i u o.1 h.1 l a
