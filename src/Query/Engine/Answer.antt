-- ===== src/Query/Engine/Answer.antt =====
-- The page of a query is what its rounds found.
use deepfry.Base.{ℕ, ◌≤◌, ◌≡◌, refl, Option, none, some, List, []}
use deepfry.Base.Words.{Bytes}
use deepfry.Lmdb.Heed.{Heed}
use deepfry.Lmdb.Payload.{Codecs, DictCache}
use deepfry.Lmdb.Payload.Cache.{IsCoherent}
use deepfry.Query.Filter.{NostrFilter, PageCursor}
use deepfry.Query.Engine.{max_rounds, Position, Outcome, execute_query_internal}
use deepfry.Query.Engine.Rounds.{all_rounds}
use deepfry.Query.Engine.Batches.{effective_limit-positive}
use deepfry.Query.Engine.Feed.{IsBoundary, IsFeed}
use deepfry.Query.Engine.Pages.{Answers}
use deepfry.Query.Engine.Underway.{IsUnderway, round-Answers}

-- The boundary of the first round.
abbrev pub start : Option PageCursor → Option Position
start none = none
start (some p) = some (p.created_at, p.lev_id)

module _ (h : Heed) (c : Codecs) (env : h.Env) (now batch_size : ℕ) (f : NostrFilter)
    (stored : ℕ → Bytes) (entries : List Position)
    (feed : IsFeed h c env now batch_size f entries stored) where
  -- A query over an index whose rounds read one list of positions, newest first, gives a page,
  -- and no error. The page has the first events that decode and pass the checks, from the cursor
  -- on and at most the limit. Without a next cursor these are all of them; with one, the rest is
  -- below the next cursor, where fewer positions are left. Every round has a start key, no levId
  -- is in the list twice, its payloads are found, the cursor is one of its positions or none, and
  -- the cached dictionaries are those that the environment holds.
  pub execute_query_internal-Answers :
      (fuel : ℕ) (dict_cache : DictCache h c) (cursor : Option PageCursor)
      → max_rounds ≤ fuel
      → IsCoherent h c env dict_cache
      → IsBoundary entries (start cursor)
      → (outcome : Outcome h c env now batch_size f) × (execute_query_internal h c env now
            batch_size f fuel dict_cache cursor
          ≡ some outcome)
        × Answers h c env now batch_size f stored entries (start cursor) outcome
  unfolding execute_query_internal
  execute_query_internal-Answers fuel dict_cache none enough co entry =
      all_rounds h c env now batch_size f (Answers h c env now batch_size f stored entries none)
        (IsUnderway h c env now batch_size f stored entries feed none)
        (round-Answers h c env now batch_size f stored entries feed none) fuel _ enough refl
        ([], (refl, refl, effective_limit-positive f, co, entry))
  execute_query_internal-Answers fuel dict_cache (some p) enough co entry =
      let b = some (p.created_at, p.lev_id) in
      all_rounds h c env now batch_size f (Answers h c env now batch_size f stored entries b)
        (IsUnderway h c env now batch_size f stored entries feed b)
        (round-Answers h c env now batch_size f stored entries feed b) fuel _ enough refl
        ([], (refl, refl, effective_limit-positive f, co, entry))
