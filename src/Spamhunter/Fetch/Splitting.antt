-- ===== src/Spamhunter/Fetch/Splitting.antt =====
-- A batch that is refused for its size is split until it is not, and no author is lost.
use mathlib.Core.Path.{subst}
use deepfry.Base.{
  ℕ, zero, suc, ◌/◌, ◌≤◌, ◌<◌, ◌≡◌, ap, refl, sym, arith, ◌⊎◌, inl, inr, List, [], ◌∷◌, ◌++◌, map,
  length, take, drop, min, ◌*◌, lt→ltb, All-append, All-imp, take-append-drop, length-take,
  length-drop, if◌then◌else◌,
}
use deepfry.Base.Results.{Result, ok, err}
use deepfry.Base.Ints.{ℤ}
use deepfry.Base.Words.{Bytes}
use deepfry.Spamhunter.Client.{
  ClientError, payload_too_large, Event, AuthorGroup, Http, latest_per_author,
}
use deepfry.Spamhunter.Retry.{attempts, settle, retry, is_retryable, backoff_cap}
use deepfry.Spamhunter.Enumerate.Ends.{retry_first}
use deepfry.Spamhunter.Fetch.{
  must_split, extend, both_halves, fetch_within, fetch_batch, match_groups,
}
use deepfry.Spamhunter.Fetch.Matching.{HasAuthor, Answers, Distinct, match_groups_lem}

module _ (events_of : Bytes → List Event) where
  HasAuthor-append :
      (pk : Bytes) (xs ys : List AuthorGroup)
      → HasAuthor events_of pk xs ⊎ HasAuthor events_of pk ys
      → HasAuthor events_of pk (xs ++ ys)
  HasAuthor-append pk [] ys h = elim h [ inl m ↦ cc | inr m ↦ m ]
  HasAuthor-append pk (x ∷ xs) ys h = elim h [
    | inl m ↦ ground (arith, HasAuthor-append pk xs ys)
    | inr m ↦ ground (arith, HasAuthor-append pk xs ys)
  ]

  -- The groups of two batches answer both together.
  Answers-append :
      (b1 b2 : List Bytes) (g1 g2 : List AuthorGroup)
      → Answers events_of b1 g1
      → Answers events_of b2 g2
      → Answers events_of (b1 ++ b2) (g1 ++ g2)
  Answers-append b1 b2 g1 g2 (a1, c1) (a2, c2) = (
    All-append _ g1 g2 a1 a2,
    All-append _ b1 b2
        (All-imp
          (λ pk h. elim h [ inl m ↦ inl (HasAuthor-append pk g1 g2 (inl m)) | inr n ↦ inr n ]) b1
          c1)
        (All-imp
          (λ pk h. elim h [ inl m ↦ inl (HasAuthor-append pk g1 g2 (inr m)) | inr n ↦ inr n ]) b2
          c2),
  )

-- A call that is refused for its size is not tried again.
module _ {W A : Type 0} (op : W → Result ClientError A × W) where
  attempts_refused :
      (more delay : ℕ) (w : W)
      → (op w).0 ≡ err payload_too_large
      → (attempts op more delay w).answer ≡ err payload_too_large
  unfolding attempts settle is_retryable
  attempts_refused zero delay w e = e
  attempts_refused (suc more) delay w e =
      ap
        (λ r.
          (settle r (op w).1 delay
            (attempts op more (min (delay * 2) backoff_cap) (op w).1)).answer)
        e

  retry_refused :
      (w : W) → (op w).0 ≡ err payload_too_large → (retry op w).answer ≡ err payload_too_large
  unfolding retry
  retry_refused w e = attempts_refused _ _ w e

-- The adapter answers a batch of at most `most` authors, or it refuses it as too large, which it
-- does not do to a single author. Nothing is said of larger batches.
abbrev pub HasCapacity : Http → ℤ → ℤ → (Bytes → List Event) → ℕ → Type 0
HasCapacity h kind per_author events_of most =
    (batch : List Bytes) (w : h.World)
    → length batch ≤ most
    → ((groups : List AuthorGroup) × ((latest_per_author h kind per_author batch w).0 ≡ ok groups)
        × Answers events_of batch groups)
      ⊎ ((1 < length batch)
          × ((latest_per_author h kind per_author batch w).0 ≡ err payload_too_large))

module _ (h : Http) (kind per_author : ℤ) (events_of : Bytes → List Event) (most : ℕ)
    (server : HasCapacity h kind per_author events_of most) where
  abbrev Brings : List Bytes → Result ClientError (List AuthorGroup) → Type 0
  Brings batch (ok groups) = Answers events_of batch groups
  Brings batch (err e) = ⊥

  extend-Brings :
      (b1 b2 : List Bytes) (left : List AuthorGroup)
      (right : Result ClientError (List AuthorGroup) × h.World)
      → Answers events_of b1 left
      → Brings b2 right.0
      → Brings (b1 ++ b2) (extend h kind per_author left right).0
  unfolding extend
  extend-Brings b1 b2 left (ok right, w) a b = Answers-append events_of b1 b2 left right a b
  extend-Brings b1 b2 left (err e, w) a b = absurd b

  both_halves-Brings :
      (b1 b2 : List Bytes) (left : Result ClientError (List AuthorGroup) × h.World)
      (right : h.World → Result ClientError (List AuthorGroup) × h.World)
      → Brings b1 left.0
      → ((w : h.World) → Brings b2 (right w).0)
      → Brings (b1 ++ b2) (both_halves h kind per_author left right).0
  unfolding both_halves
  both_halves-Brings b1 b2 (ok left, w) right a b = extend-Brings b1 b2 left (right w) a (b w)
  both_halves-Brings b1 b2 (err e, w) right a b = absurd a

  fetch_within-Brings :
      (fuel : ℕ) (batch : List Bytes) (w : h.World)
      → length batch ≤ fuel
      → length batch ≤ most
      → Brings batch (fetch_within h kind per_author fuel batch w).0
  unfolding fetch_within must_split
  fetch_within-Brings zero batch w b m = elim (server batch w m) [
    | inl (groups, e, a) ↦
        subst (Brings batch)
          (sym (retry_first (latest_per_author h kind per_author batch) w groups e)) a
    | inr (large, e) ↦ absurd (omega arith)
  ]
  fetch_within-Brings (suc fuel) batch w b m =
      let op = latest_per_author h kind per_author batch in
      let w' = (retry op w).world in
      let mid = length batch / 2 in
      let halves =
        both_halves h kind per_author (fetch_within h kind per_author fuel (take mid batch) w')
          (fetch_within h kind per_author fuel (drop mid batch)) in
      elim (server batch w m) [
        | inl (groups, e, a) ↦
            subst (λ r. Brings batch (if must_split r (length batch) then halves else (r, w')).0)
              (sym (retry_first op w groups e)) a
        | inr (large, e) ↦
            subst (λ r. Brings batch (if must_split r (length batch) then halves else (r, w')).0)
              (sym (retry_refused op w e))
              (subst (λ c. Brings batch (if c then halves else (err payload_too_large, w')).0)
                (sym (lt→ltb 1 (length batch) large))
                (subst (λ q. Brings q halves.0) (take-append-drop mid batch)
                  (both_halves-Brings (take mid batch) (drop mid batch) _ _
                    (fetch_within-Brings fuel (take mid batch) w'
                      (omega (arith, length-take mid batch (omega arith)))
                      (omega (arith, length-take mid batch (omega arith))))
                    λ w2.
                      fetch_within-Brings fuel (drop mid batch) w2
                        (omega (arith, length-drop mid batch))
                        (omega (arith, length-drop mid batch)))))
      ]

  matched :
      (batch : List Bytes) (r : Result ClientError (List AuthorGroup))
      → Distinct batch
      → Brings batch r
      → (groups : List AuthorGroup) × (r ≡ ok groups)
        × (match_groups batch groups ≡ map (λ pk. (pk, events_of pk)) batch)
  matched batch (ok groups) d b = (groups, refl, match_groups_lem events_of batch groups d b)
  matched batch (err e) d b = absurd b

  -- Where the adapter answers every batch up to the length of the given one or refuses it as too
  -- large, which it does not do to a single author, the splitting of a batch without a repetition
  -- comes to an end with groups, and matching them by author gives every requested pubkey once,
  -- in order, with its own events.
  pub fetch_batch-match_groups :
      (batch : List Bytes) (w : h.World)
      → Distinct batch
      → length batch ≤ most
      → (groups : List AuthorGroup) × ((fetch_batch h kind per_author batch w).0 ≡ ok groups)
        × (match_groups batch groups ≡ map (λ pk. (pk, events_of pk)) batch)
  unfolding fetch_batch
  fetch_batch-match_groups batch w d m =
      matched batch _ d (fetch_within-Brings (length batch) batch w (omega arith) m)
