-- ===== src/Graphql/Resolvers/Events.antt =====
-- What `events` serves.
use deepfry.Base.{
  ℕ, ◌≤◌, ◌≡◌, refl, sym, ap, ◌∙◌, inl, inr, arith, Option, none, some, length, length-map,
}
use deepfry.Base.Results.{ok, err, Result-cases, ok-injective, err-ok}
use deepfry.Base.Ints.{ℤ, pos, negsuc, at_least_one}
use deepfry.Base.Words.{Bytes}
use deepfry.Lmdb.Heed.{Heed}
use deepfry.Lmdb.Scan.{default_window_size}
use deepfry.Lmdb.Payload.{Codecs, DictCache}
use deepfry.Query.Filter.{NostrFilter, PageCursor}
use deepfry.Query.Filter.Cursor.{Base64, Reason, encode}
use deepfry.Query.Engine.{max_rounds, effective_limit, execute_query, Outcome}
use deepfry.Query.Engine.Safety.{IsSafe, execute_query_internal-IsSafe}
use deepfry.Graphql.{EventFilterInput, GqlError, decoded_event_to_gql}
use deepfry.Graphql.Inputs.{build_nostr_filter, build_from, or_default, clamp_limit}
use deepfry.Graphql.Inputs.Valid.{build_from-IsFilterOf}
use deepfry.Graphql.Resolvers.{
  option_map, is_some, decode_after, events_page, checked, Served, serve, run_events, events,
}

clamp_limit-bounds : (limit : Option ℤ) → (1 ≤ clamp_limit limit) × (clamp_limit limit ≤ 500)
unfolding clamp_limit at_least_one
clamp_limit-bounds none = (omega arith, omega arith)
clamp_limit-bounds (some (pos n)) = (omega arith, omega arith)
clamp_limit-bounds (some (negsuc n)) = (omega arith, omega arith)

effective_limit-positive : (f : NostrFilter) → 1 ≤ f.limit → effective_limit f ≡ f.limit
unfolding effective_limit
effective_limit-positive f e = ground arith

module _ (h : Heed) (c : Codecs) (b : Base64) (lossy : Bytes → Bytes)
    (reason_text : Reason b.DecodeError → Bytes) (env : h.Env) (now : ℕ) where
  -- At most the limit that was asked for and at most 500 events; a cursor exactly if there is more.
  abbrev pub IsServed : Option ℤ → Served h c b lossy reason_text env now → Type 0
  IsServed limit (ok page, cache) =
      (length page.events ≤ clamp_limit limit)
      × (length page.events ≤ 500)
      × (page.has_more ≡ is_some page.end_cursor)
  IsServed limit (err e, cache) = Unit

  more_iff_cursor :
      (next : Option PageCursor) (g : PageCursor → Bytes)
      → is_some next ≡ is_some (option_map g next)
  more_iff_cursor none g = refl
  more_iff_cursor (some p) g = refl

  serve-IsServed :
      (limit : Option ℤ) (f : NostrFilter) (outcome : Outcome h c env now default_window_size f)
      → f.limit ≡ clamp_limit limit
      → IsSafe h c env now default_window_size f outcome
      → IsServed limit (serve h c b lossy reason_text env now outcome.0, outcome.1)
  unfolding events_page
  serve-IsServed limit f (ok page, cache) e safe =
      let bounds = clamp_limit-bounds limit in
      let same : effective_limit f ≡ f.limit = effective_limit-positive f (omega arith) in
      (
        omega (arith, length-map (decoded_event_to_gql lossy) page.0),
        omega (arith, length-map (decoded_event_to_gql lossy) page.0),
        more_iff_cursor page.1 (encode b),
      )
  serve-IsServed limit f (err x, cache) e safe = tt

  checked-limit :
      (filter : Option EventFilterInput) (after : Option Bytes) (limit : Option ℤ)
      (cursor : Option PageCursor) (f : NostrFilter)
      → checked h c b lossy reason_text env now filter after limit ≡ ok (cursor, f)
      → f.limit ≡ clamp_limit limit
  unfolding checked build_nostr_filter
  checked-limit filter after limit cursor f e =
      elim (Result-cases (decode_after h c b lossy reason_text env now after)) [
        | inr (x, d) ↦ absurd (err-ok (rw d at e))
        | inl (p, d) ↦ elim (Result-cases (build_from (or_default filter) (clamp_limit limit))) [
          | inr (x, n) ↦ absurd (err-ok (rw (d, n) at e))
          | inl (g, n) ↦
              let same : (p, g) ≡ (cursor, f) = ok-injective (rw (d, n) at e) in
              ap (λ (x : Option PageCursor × NostrFilter). x.1.limit) (sym same)
              ∙ (build_from-IsFilterOf (or_default filter) (clamp_limit limit) g n).limit
        ]
      ]

  run_events-some :
      (fuel : ℕ) (cache : DictCache h c) (cursor : Option PageCursor) (f : NostrFilter)
      (outcome : Outcome h c env now default_window_size f)
      → execute_query h c env now f fuel cache cursor ≡ some outcome
      → run_events h c b lossy reason_text env now fuel cache (cursor, f)
        ≡ some (serve h c b lossy reason_text env now outcome.0, outcome.1)
  unfolding run_events
  run_events-some fuel cache cursor f outcome e = ground arith

  events-err :
      (fuel : ℕ) (cache : DictCache h c) (filter : Option EventFilterInput) (after : Option Bytes)
      (limit : Option ℤ) (x : GqlError)
      → checked h c b lossy reason_text env now filter after limit ≡ err x
      → events h c b lossy reason_text env now fuel cache filter after limit ≡ some (err x, cache)
  unfolding events
  events-err fuel cache filter after limit x e = ground arith

  events-ok :
      (fuel : ℕ) (cache : DictCache h c) (filter : Option EventFilterInput) (after : Option Bytes)
      (limit : Option ℤ) (arguments : Option PageCursor × NostrFilter)
      → checked h c b lossy reason_text env now filter after limit ≡ ok arguments
      → events h c b lossy reason_text env now fuel cache filter after limit
        ≡ run_events h c b lossy reason_text env now fuel cache arguments
  unfolding events
  events-ok fuel cache filter after limit arguments e = ground arith

  -- Whatever the arguments and the database are, with the fuel of 8 rounds or more events comes
  -- to an end: with an error, or with a page of at most the limit that was asked for, which
  -- counts as 1 to 500 and as 100 where it is missing, and has_more is true exactly where there
  -- is an end cursor.
  pub events-IsServed :
      (fuel : ℕ) (cache : DictCache h c) (filter : Option EventFilterInput) (after : Option Bytes)
      (limit : Option ℤ)
      → max_rounds ≤ fuel
      → (served : Served h c b lossy reason_text env now) × (events h c b lossy reason_text env now
            fuel cache filter after limit
          ≡ some served)
        × IsServed limit served
  events-IsServed fuel cache filter after limit enough =
      elim (Result-cases (checked h c b lossy reason_text env now filter after limit)) [
        | inr (x, e) ↦ ((err x, cache), events-err fuel cache filter after limit x e, tt)
        | inl ((cursor, f), e) ↦
            let (outcome, ran, safe) =
              execute_query_internal-IsSafe h c env now default_window_size f fuel cache cursor
                enough in
            (
              (serve h c b lossy reason_text env now outcome.0, outcome.1),
              events-ok fuel cache filter after limit (cursor, f) e
                  ∙ run_events-some fuel cache cursor f outcome (unfold execute_query in ran),
              serve-IsServed limit f outcome (checked-limit filter after limit cursor f e) safe,
            )
      ]
