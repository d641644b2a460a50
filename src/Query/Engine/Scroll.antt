-- ===== src/Query/Engine/Scroll.antt =====
-- A client that asks for page after page, each from the cursor that the last one ended with.
use mathlib.Core.Path.{subst}
use deepfry.Base.{
  ℕ, zero, suc, ◌<◌, ◌≤◌, ◌≡◌, refl, sym, ap, ◌∙◌, arith, Option, none, some, List, [], ◌∷◌, ◌++◌,
  map, length,
}
use deepfry.Base.Results.{ok, err}
use deepfry.Base.Words.{Bytes}
use deepfry.Lmdb.Heed.{Heed}
use deepfry.Lmdb.Payload.{Codecs, DecodedEvent, DictCache}
use deepfry.Lmdb.Payload.Cache.{IsCoherent}
use deepfry.Query.Filter.{NostrFilter, PageCursor}
use deepfry.Query.Engine.{max_rounds, Position, Emitted, Outcome, execute_query_internal}
use deepfry.Query.Engine.Below.{below, IsEntry}
use deepfry.Query.Engine.Feed.{IsFeed, IsBoundary}
use deepfry.Query.Engine.Pages.{wanted, Answers, place}
use deepfry.Query.Engine.Answer.{start, execute_query_internal-Answers}

module _ (h : Heed) (c : Codecs) (env : h.Env) (now batch_size : ℕ) (f : NostrFilter)
    (fuel : ℕ) where
  -- The events of all pages from a cursor on, and the caches between them.
  pub data Scroll : Option PageCursor → DictCache h c → List DecodedEvent → Type 0 where
    last_page :
        {cursor : Option PageCursor} {cache cache' : DictCache h c} {events : List DecodedEvent}
        → execute_query_internal h c env now batch_size f fuel cache cursor
          ≡ some (ok (events, none), cache')
        → Scroll cursor cache events
    page_before :
        {cursor : Option PageCursor} {cache cache' : DictCache h c}
        {events rest : List DecodedEvent} {next : PageCursor}
        → execute_query_internal h c env now batch_size f fuel cache cursor
          ≡ some (ok (events, some next), cache')
        → Scroll (some next) cache' rest
        → Scroll cursor cache (events ++ rest)

map-append : {A B : Type 0} (g : A → B) (xs ys : List A) → map g (xs ++ ys) ≡ map g xs ++ map g ys
map-append g [] ys = refl
map-append g (x ∷ xs) ys = ap (λ zs. g x ∷ zs) (map-append g xs ys)

module _ (h : Heed) (c : Codecs) (env : h.Env) (now batch_size : ℕ) (f : NostrFilter)
    (stored : ℕ → Bytes) (entries : List Position)
    (feed : IsFeed h c env now batch_size f entries stored) (fuel : ℕ)
    (enough : max_rounds ≤ fuel) where
  abbrev pub events_from : Option PageCursor → List DecodedEvent
  events_from cursor =
      map (λ (x : Emitted). x.2) (wanted h c env now batch_size f stored entries (start cursor))

  one_page :
      (cursor : Option PageCursor) (cache : DictCache h c)
      (outcome : Outcome h c env now batch_size f)
      → execute_query_internal h c env now batch_size f fuel cache cursor ≡ some outcome
      → Answers h c env now batch_size f stored entries (start cursor) outcome
      → ((next : PageCursor) (cache' : DictCache h c)
          → length (below entries (some (place next))) < length (below entries (start cursor))
          → IsCoherent h c env cache'
          → IsEntry entries (place next)
          → Scroll h c env now batch_size f fuel (some next) cache' (events_from (some next)))
      → Scroll h c env now batch_size f fuel cursor cache (events_from cursor)
  one_page cursor cache (err e, cache') ran answers next = absurd answers
  one_page cursor cache (ok (events, none), cache') ran ((v, same, short, whole), co) next =
      subst (Scroll h c env now batch_size f fuel cursor cache)
        (same ∙ ap (map (λ (x : Emitted). x.2)) (sym whole)) (last_page ran)
  one_page cursor cache (ok (events, some cur), cache') ran
        ((v, same, short, (whole, fewer, entry)), co) next =
      subst (Scroll h c env now batch_size f fuel cursor cache)
        (ap (λ x. x ++ events_from (some cur)) same
          ∙ sym (map-append (λ (x : Emitted). x.2) v _)
          ∙ ap (map (λ (x : Emitted). x.2)) (sym whole))
        (page_before ran (next cur cache' fewer co entry))

  scroll :
      (n : ℕ) (cursor : Option PageCursor) (cache : DictCache h c)
      → length (below entries (start cursor)) < n
      → IsCoherent h c env cache
      → IsBoundary entries (start cursor)
      → Scroll h c env now batch_size f fuel cursor cache (events_from cursor)
  scroll zero cursor cache more co entry = absurd (omega arith)
  scroll (suc n) cursor cache more co entry =
      let (outcome, ran, answers) =
        execute_query_internal-Answers h c env now batch_size f stored entries feed fuel cache
          cursor enough co entry in
      one_page cursor cache outcome ran answers
        (λ next cache' fewer co' entry'. scroll n (some next) cache' (omega arith) co' entry')

  -- A client that follows the cursors, under the same conditions as for one page, comes to a page
  -- without one after finitely many queries, and the pages together have every event that decodes
  -- and passes the checks exactly once, newest first.
  pub execute_query_internal-Scroll :
      (cursor : Option PageCursor) (cache : DictCache h c)
      → IsCoherent h c env cache
      → IsBoundary entries (start cursor)
      → Scroll h c env now batch_size f fuel cursor cache (events_from cursor)
  execute_query_internal-Scroll cursor cache co entry =
      scroll (suc (length (below entries (start cursor)))) cursor cache (omega arith) co entry
