-- ===== src/Query/Engine/Underway.antt =====
-- The rounds of a query read an index from its boundary on.
use deepfry.Query.Engine.Below.{comes_after}
use mathlib.Core.Path.{subst}
use mathlib.Core.List.{append_assoc}
use deepfry.Base.{
  ℕ, ◌+◌, ◌<◌, ◌≡◌, ◌≢◌, ◌⊎◌, inl, inr, refl, sym, ap, ◌∙◌, arith, Bool, true, false, ◌||◌, leb,
  ltb, Option, some, List, [], ◌++◌, map, length, take, drop, take-append-drop, length-append,
  length-map, All, All-take,
}
use deepfry.Base.Results.{ok, ok-injective, err-ok}
use deepfry.Base.Words.{Bytes}
use deepfry.Lmdb.Heed.{Heed}
use deepfry.Lmdb.Payload.{Codecs, DictCache}
use deepfry.Lmdb.Payload.Cache.{IsCoherent}
use deepfry.Query.Filter.{NostrFilter}
use deepfry.Query.Router.{filter_map}
use deepfry.Query.Merge.{Triple}
use deepfry.Query.Engine.{
  Emitted, or_else, absorb, max_rounds, Position, Progress, effective_limit, emit_limit_of,
  last_position, position_eq, page_of, decide, scanned, round,
}
use deepfry.Query.Hydrate.Found.{IsStored}
use deepfry.Query.Engine.Rounds.{Gives, round-Gives, decide-Gives}
use deepfry.Query.Engine.Below.{below, All-below, All-keep_if_of_all, IsEntry, entries-IsEntry}
use deepfry.Query.Engine.Batches.{
  effective_limit-positive, emit_limit_of-positive, last_position-snoc, position_eq-below,
  batch-cases,
}
use deepfry.Query.Engine.Cursors.{take_short}
use deepfry.Query.Engine.Feed.{
  IsBoundary, feed-Reads, position_of, IsFeed, survives, IsPushed, absorb_lem, filtered_batch_all,
  IsDistinct-keep_if, IsDistinct-take,
}
use deepfry.Query.Engine.Pages.{filter_map-append, IsLeft, Answers, finish_lem}

pub true-false : Path Bool true false → ⊥
true-false e = absurd cc

room_lt : (n m : ℕ) → leb n m ≡ false → m < n
room_lt n m e = ground arith

none_true : (x y z : Bool) → x || (y || z) ≡ false → (x ≡ false) × (y ≡ false)
none_true false false z e = (refl, refl)
none_true false true z e = absurd (true-false e)
none_true true y z e = absurd (true-false e)

module _ (h : Heed) (c : Codecs) (env : h.Env) (now batch_size : ℕ) (f : NostrFilter)
    (stored : ℕ → Bytes) (entries : List Position)
    (feed : IsFeed h c env now batch_size f entries stored) (b : Option Position) where
  abbrev pub St : Type 0
  St = Progress (DictCache h c)

  abbrev pub emit : ℕ
  emit = emit_limit_of (effective_limit f)

  abbrev pub keep : Position → Option Emitted
  keep = survives h c env now batch_size f stored

  -- `done` was read up to the boundary of the round, and its survivors do not fill the page.
  abbrev pub IsReading : List Position → St → Type 0
  IsReading done s =
      (below entries b ≡ done ++ below entries s.round_boundary)
      × (s.valid ≡ filter_map keep done)
      × (length s.valid < effective_limit f)
      × IsCoherent h c env s.cache
      × IsBoundary entries s.round_boundary

  abbrev pub IsUnderway : St → Type 0
  IsUnderway s = (done : List Position) × IsReading done s

  absorbed :
      (s : St) (done : List Position) (batch : List Triple)
      → IsReading done s
      → map position_of batch ≡ take emit (below entries s.round_boundary)
      → (pushed : St) × ((absorb h c env now batch_size f batch s).0 ≡ ok pushed)
        × IsPushed h c env now batch_size f stored
            (take emit (below entries s.round_boundary))
            s
            pushed
  absorbed s done batch (split, same, room, co, entry) e =
      let R = below entries s.round_boundary in
      let under = subst (All (λ p. comes_after s.round_boundary p ≡ true)) (sym e) (
        All-take (λ p. comes_after s.round_boundary p ≡ true) emit R
          (All-below entries feed.descending s.round_boundary)) in
      absorb_lem h c env now batch_size f stored batch s (take emit R)
        (filtered_batch_all s.round_boundary batch under ∙ e)
        (IsDistinct-take emit R
          (IsDistinct-keep_if (comes_after s.round_boundary) entries feed.distinct))
        (All-take (λ p. IsStored h c env stored p.1) emit R
          (All-keep_if_of_all (λ p. IsStored h c env stored p.1) (comes_after s.round_boundary)
            entries feed.found))
        (omega arith) co

  module _ (s : St) (done : List Position) (batch : List Triple) (reading : IsReading done s)
      (e : map position_of batch ≡ take emit (below entries s.round_boundary)) where
    abbrev rest : List Position
    rest = drop emit (below entries s.round_boundary)

    length-batch : length batch ≡ length (take emit (below entries s.round_boundary))
    length-batch = sym (length-map position_of batch) ∙ ap length e

    split_further : below entries b ≡ (done ++ take emit (below entries s.round_boundary)) ++ rest
    split_further =
        reading.0
        ∙ ap (λ x. done ++ x) (sym (take-append-drop emit (below entries s.round_boundary)))
        ∙ sym (append_assoc done (take emit (below entries s.round_boundary)) rest)

    -- A round that is not the last of its index moves its boundary down.
    moves :
        (ltb (length batch) emit ≡ true) × (rest ≡ [])
        ⊎ ((ltb (length batch) emit ≡ false)
            × (p : Position) × (last_position batch ≡ some p)
            × (below entries (some p) ≡ rest)
            × (comes_after s.round_boundary p ≡ true)
            × IsEntry entries p
            × (length rest < length (below entries b)))
    moves =
        elim (batch-cases entries feed.descending s.round_boundary emit
          (emit_limit_of-positive (effective_limit f) (effective_limit-positive f))) [
            | inl (short, none_left) ↦ inl (ground (arith, length-batch), none_left)
            | inr (long, w, p, z, at_rest, under, everywhere) ↦ inr (
              ground (arith, length-batch),
              p,
              last_position-snoc batch w p (e ∙ z),
              at_rest,
              under,
              everywhere (IsEntry entries) (entries-IsEntry entries),
              omega (
                arith,
                ap length split_further,
                length-append (done ++ take emit (below entries s.round_boundary)) rest,
                length-append done (take emit (below entries s.round_boundary)),
                emit_limit_of-positive (effective_limit f) (effective_limit-positive f),
              ),
            )
          ]

    left :
        (deepest : Option Position)
        → IsLeft h c env now batch_size f stored entries feed b rest
            (ltb (length batch) emit)
            (or_else (last_position batch) deepest)
    left deepest = elim moves [
      | inl (full, none_left) ↦ rw full none_left
      | inr (more, p, last, at_rest, under, entry, fewer) ↦ rw (more, last) (at_rest, fewer, entry)
    ]

    module _ (pushed : St)
        (did : IsPushed h c env now batch_size f stored
          (take emit (below entries s.round_boundary))
          s
          pushed) where
      pushed_valid :
          pushed.valid
          ≡ take
              (effective_limit f)
              (filter_map keep (done ++ take emit (below entries s.round_boundary)))
      pushed_valid =
          did.0
          ∙ ap
              (λ x.
                take (effective_limit f)
                  (x ++ filter_map keep (take emit (below entries s.round_boundary))))
              reading.1
          ∙ ap (take (effective_limit f))
              (sym (filter_map-append keep done (take emit (below entries s.round_boundary))))

      stalls :
          ltb (length batch) emit ≡ false
          → position_eq (last_position batch) pushed.round_boundary ≡ true
          → ⊥
      stalls more same = elim moves [
        | inl (full, none_left) ↦ ground arith
        | inr (more', p, last, at_rest, under, entry, fewer) ↦
            true-false (sym (rw (last, did.2) at same) ∙ position_eq-below s.round_boundary p under)
      ]

      goes_on :
          leb (effective_limit f) (length pushed.valid) ≡ false
          → ltb (length batch) emit ≡ false
          → (below entries b
              ≡ (done ++ take emit (below entries s.round_boundary))
                ++ below entries (last_position batch))
            × (pushed.valid ≡ filter_map keep (done ++ take emit (below entries s.round_boundary)))
            × IsBoundary entries (last_position batch)
      goes_on room more = elim moves [
        | inl (full, none_left) ↦ absurd (ground arith)
        | inr (more', p, last, at_rest, under, entry, fewer) ↦
            let short : length pushed.valid ≢ effective_limit f = ground arith in
            (
              rw (last, at_rest) split_further,
              pushed_valid
                  ∙ take_short (effective_limit f)
                      (filter_map keep (done ++ take emit (below entries s.round_boundary)))
                      (λ z. short (ap length pushed_valid ∙ z)),
              rw last entry,
            )
      ]

      decides :
          Gives h c env now batch_size f
            (Answers h c env now batch_size f stored entries b)
            IsUnderway
            (decide h c env now batch_size f
              (last_position batch)
              (scanned h c env now batch_size f batch pushed))
      unfolding scanned page_of
      decides =
          let full = leb (effective_limit f) (length pushed.valid) in
          let exhausted = ltb (length batch) emit in
          let last = leb max_rounds (pushed.rounds + 1) in
          decide-Gives h c env now batch_size f (Answers h c env now batch_size f stored entries b)
            IsUnderway (last_position batch) (scanned h c env now batch_size f batch pushed)
            (λ stop. (
              finish_lem h c env now batch_size f stored entries feed b pushed.valid
                  (ltb (length batch) emit) _ (done ++ take emit (below entries s.round_boundary))
                  rest (effective_limit-positive f) split_further pushed_valid
                  (left pushed.deepest_scanned),
              did.1,
            ))
            (λ go stall. absurd (stalls (none_true full exhausted last go).1 stall))
            (λ go moved.
              let room = (none_true full exhausted last go).0 in
              let (split, valid, entry) = goes_on room (none_true full exhausted last go).1 in
              (
                done ++ take emit (below entries s.round_boundary),
                (
                  split,
                  valid,
                  room_lt (effective_limit f) (length pushed.valid) room,
                  did.1,
                  entry,
                ),
              ))

  pub round-Answers :
      (s : St)
      → IsUnderway s
      → Gives h c env now batch_size f
          (Answers h c env now batch_size f stored entries b)
          IsUnderway
          (round h c env now batch_size f s)
  round-Answers s (done, reading) =
      let (batch, m, e) =
        feed-Reads h c env now batch_size f stored entries feed s.round_boundary reading.4 in
      let (pushed, a, did) = absorbed s done batch reading e in
      round-Gives h c env now batch_size f (Answers h c env now batch_size f stored entries b)
        IsUnderway s (λ z. absurd (true-false (sym z ∙ feed.keys s.round_boundary)))
        (λ x n. absurd (err-ok (sym n ∙ m)))
        (λ batch' x n n'.
          let same : batch' ≡ batch = ok-injective (sym n ∙ m) in
          absurd (err-ok (sym (rw same at n') ∙ a)))
        (λ batch' pushed' n n'.
          let same : batch' ≡ batch = ok-injective (sym n ∙ m) in
          let same' : pushed' ≡ pushed = ok-injective (sym (rw same at n') ∙ a) in
          rw (same, same') (decides s done batch reading e pushed did))
