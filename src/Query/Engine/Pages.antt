-- ===== src/Query/Engine/Pages.antt =====
-- A page is the first survivors below its cursor, and its next cursor is where they end.
use mathlib.Core.List.{append_assoc, append-nil}
use deepfry.Base.{
  ℕ, ◌<◌, ◌≤◌, ◌≡◌, ◌≢◌, inl, inr, refl, sym, ap, ◌∙◌, arith, Bool, true, false, Bool-cases, Option,
  none, some, List, [], ◌∷◌, ◌++◌, map, length, take, drop, take_all, take-append-drop,
  length-take-le, ◌==◌,
}
use deepfry.Base.Results.{ok, err}
use deepfry.Base.Words.{Bytes}
use deepfry.Lmdb.Heed.{Heed}
use deepfry.Lmdb.Payload.{Codecs}
use deepfry.Lmdb.Payload.Cache.{IsCoherent}
use deepfry.Query.Filter.{NostrFilter, PageCursor}
use deepfry.Query.Router.{filter_map}
use deepfry.Query.Engine.{
  cursor_at, Position, Emitted, Page, effective_limit, next_cursor, finish, Outcome,
}
use deepfry.Query.Engine.Below.{below, cut, cut-All, IsEntry, entries-IsEntry}
use deepfry.Query.Engine.Cursors.{
  snoc-cases, next_cursor-full, next_cursor-partial, next_cursor-deepest, next_cursor-end,
  take_short,
}
use deepfry.Query.Engine.Lookup.{survivor-place}
use deepfry.Query.Hydrate.Found.{decoding}
use deepfry.Query.Engine.Feed.{IsFeed, survives}

pub filter_map-append :
    {A B : Type 0} (g : A → Option B) (xs ys : List A)
    → filter_map g (xs ++ ys) ≡ filter_map g xs ++ filter_map g ys
filter_map-append g [] ys = refl
filter_map-append g (x ∷ xs) ys = ground (arith, filter_map-append g xs ys)

abbrev pub place : PageCursor → Position
place cursor = (cursor.created_at, cursor.lev_id)

module _ (h : Heed) (c : Codecs) (env : h.Env) (now batch_size : ℕ) (f : NostrFilter)
    (stored : ℕ → Bytes) (entries : List Position) where
  -- What a query wants of the positions below a boundary.
  abbrev pub wanted : Option Position → List Emitted
  wanted b = filter_map (survives h c env now batch_size f stored) (below entries b)

  -- Without a next cursor all that is wanted is on the page; with one the rest of it is below the
  -- cursor, where there are fewer positions.
  abbrev pub Continues : Option Position → Option PageCursor → List Emitted → Type 0
  Continues b none v = wanted b ≡ v
  Continues b (some cursor) v =
      (wanted b ≡ v ++ wanted (some (place cursor)))
      × (length (below entries (some (place cursor))) < length (below entries b))
      × IsEntry entries (place cursor)

  abbrev pub IsPageAt : Option Position → Page → Type 0
  IsPageAt b page =
      (v : List Emitted) × (page.0 ≡ map (λ (x : Emitted). x.2) v)
      × (length v ≤ effective_limit f)
      × Continues b page.1 v

  -- A page, and a cache that is still coherent.
  abbrev pub Answers : Option Position → Outcome h c env now batch_size f → Type 0
  Answers b (ok page, cache) = IsPageAt b page × IsCoherent h c env cache
  Answers b (err e, cache) = ⊥

  module _ (feed : IsFeed h c env now batch_size f entries stored) (b : Option Position) where
    -- A cursor at the last event of a page.
    at_last :
        (w : List Emitted) (d : Emitted) (rest : List Emitted)
        → wanted b ≡ (w ++ d ∷ []) ++ rest
        → Continues b (some (cursor_at d)) (w ++ d ∷ [])
    at_last w d rest e =
        let e' : wanted b ≡ w ++ d ∷ rest = e ∙ append_assoc w (d ∷ []) rest in
        let (after, fewer) =
          cut Emitted (λ v. (v.0, v.1)) (survives h c env now batch_size f stored)
            (survivor-place (decoding h c env stored) now (effective_limit f) f) entries
            feed.descending b w d rest e' in
        (
          e ∙ ap (λ x. (w ++ d ∷ []) ++ x) (sym after),
          fewer,
          cut-All Emitted (λ v. (v.0, v.1)) (survives h c env now batch_size f stored)
              (survivor-place (decoding h c env stored) now (effective_limit f) f) (IsEntry entries)
              entries b w d rest e' (entries-IsEntry entries),
        )

    -- The cursor of what was collected, where nothing is left.
    all_seen :
        (v : List Emitted) (deepest : Option Position)
        → length v ≢ effective_limit f
        → wanted b ≡ v
        → Continues b (next_cursor (effective_limit f) v true deepest) v
    all_seen v deepest n e = rw (next_cursor-end (effective_limit f) v deepest n) e

    -- The cursor of a full page.
    full_page :
        (v rest : List Emitted) (exhausted : Bool) (deepest : Option Position)
        → length v ≡ effective_limit f
        → 1 ≤ effective_limit f
        → wanted b ≡ v ++ rest
        → Continues b (next_cursor (effective_limit f) v exhausted deepest) v
    full_page v rest exhausted deepest n one e = elim (snoc-cases v) [
      | inl z ↦ absurd (omega (arith, ap length z))
      | inr (w, d, z) ↦
          rw (z, next_cursor-full (effective_limit f) w d exhausted deepest (rw z at n))
            (at_last w d rest (rw z at e))
    ]

    -- The cursor of a page that the rounds did not fill.
    partial_page :
        (v rest : List Emitted) (p : Position)
        → 1 ≤ effective_limit f
        → wanted b ≡ v ++ rest
        → rest ≡ wanted (some p)
        → length (below entries (some p)) < length (below entries b)
        → IsEntry entries p
        → Continues b (next_cursor (effective_limit f) v false (some p)) v
    partial_page v rest p one e left fewer entry = elim (snoc-cases v) [
      | inl z ↦
          rw (z, next_cursor-deepest (effective_limit f) p one) (rw (z, left) at e, fewer, entry)
      | inr (w, d, z) ↦
          rw (z, next_cursor-partial (effective_limit f) w d (some p))
            (at_last w d rest (rw z at e))
    ]

    -- How far the rounds came: `done` was read, `rest` was not.
    abbrev pub IsLeft : List Position → Bool → Option Position → Type 0
    IsLeft rest true deepest = rest ≡ []
    IsLeft rest false none = ⊥
    IsLeft rest false (some p) =
        (below entries (some p) ≡ rest)
        × (length rest < length (below entries b))
        × IsEntry entries p

    unfilled :
        (valid : List Emitted) (exhausted : Bool) (deepest : Option Position) (rest : List Position)
        → 1 ≤ effective_limit f
        → length valid ≢ effective_limit f
        → wanted b ≡ valid ++ filter_map (survives h c env now batch_size f stored) rest
        → IsLeft rest exhausted deepest
        → Continues b (next_cursor (effective_limit f) valid exhausted deepest) valid
    unfilled valid true deepest rest one n e left = all_seen valid deepest n (
        e
        ∙ ap (λ x. valid ++ filter_map (survives h c env now batch_size f stored) x) left
        ∙ append-nil valid)
    unfilled valid false none rest one n e left = absurd left
    unfilled valid false (some p) rest one n e (at_rest, fewer, entry) =
        partial_page valid (filter_map (survives h c env now batch_size f stored) rest) p one e
          (ap (filter_map (survives h c env now batch_size f stored)) (sym at_rest))
          (rw at_rest fewer) entry

    -- The page of a loop that read `done`, and left `rest`.
    pub finish_lem :
        (valid : List Emitted) (exhausted : Bool) (deepest : Option Position)
        (done rest : List Position)
        → 1 ≤ effective_limit f
        → below entries b ≡ done ++ rest
        → valid
          ≡ take (effective_limit f) (filter_map (survives h c env now batch_size f stored) done)
        → IsLeft rest exhausted deepest
        → IsPageAt b (finish (effective_limit f) valid exhausted deepest)
    finish_lem valid exhausted deepest done rest one split same left =
        let limit = effective_limit f in
        let keep = survives h c env now batch_size f stored in
        let short : length valid ≤ limit = rw same (length-take-le limit (filter_map keep done)) in
        let all : wanted b ≡ filter_map keep done ++ filter_map keep rest =
          ap (filter_map keep) split ∙ filter_map-append keep done rest in
        let continues : Continues b (next_cursor limit valid exhausted deepest) valid =
          elim (Bool-cases (length valid == limit)) [
            | inl full ↦
                full_page valid (drop limit (filter_map keep done) ++ filter_map keep rest)
                  exhausted deepest (ground arith) one
                  (all
                    ∙ ap (λ x. x ++ filter_map keep rest)
                        (sym (take-append-drop limit (filter_map keep done)))
                    ∙ append_assoc (take limit (filter_map keep done)) _ _
                    ∙ ap (λ x. x ++ (drop limit (filter_map keep done) ++ filter_map keep rest))
                        (sym same))
            | inr n ↦
                let room : length valid ≢ limit = ground arith in
                let whole =
                  same ∙ take_short limit (filter_map keep done) (λ z. room (ap length same ∙ z)) in
                unfilled valid exhausted deepest rest one room
                  (all ∙ ap (λ x. x ++ filter_map keep rest) (sym whole)) left
          ] in
        rw (take_all valid limit short) (valid, refl, short, continues)
