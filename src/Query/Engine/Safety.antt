-- ===== src/Query/Engine/Safety.antt =====
-- What a page never holds, and that a query ends.
use deepfry.Base.{
  length-map, length-take-le, All-map, ℕ, ◌≤◌, ◌≡◌, inl, inr, refl, arith, true, Bool-cases, leb,
  Option, some, Option-cases, List, [], ◌∷◌, ◌++◌, length, take, All, All-append, All-take,
}
use deepfry.Base.Results.{ok, err}
use deepfry.Lmdb.Heed.{Heed}
use deepfry.Lmdb.Payload.{Codecs, DecodedEvent, DictCache}
use deepfry.Query.Filter.{NostrFilter, PageCursor}
use deepfry.Query.Engine.{
  absorb, map_of, filtered_batch, past_stalled, last_position, max_rounds, residual, Position,
  EventMap, find, delete, Emitted, collect_valid, effective_limit, Outcome, State, page_of, round,
  scanned, execute_query_internal,
}
use deepfry.Query.Engine.Collect.{collect_valid-full, collect_valid-none, collect_valid-some}
use deepfry.Query.Merge.{Triple}
use deepfry.Query.Engine.Rounds.{
  Gives, round-Gives, decide-Gives, absorb-cases, all_rounds, rounds_from_more,
}

module _ (now limit : ℕ) (f : NostrFilter) where
  -- Passed the checks.
  abbrev IsWanted : Emitted → Type 0
  IsWanted v = residual now f v.2.event ≡ true

  collect_valid-All :
      (batch : List Position) (m : EventMap) (valid : List Emitted)
      → All IsWanted valid
      → All IsWanted (collect_valid now limit f batch m valid)
  collect_valid-All [] m valid a = unfold collect_valid in a
  collect_valid-All ((ts, lev_id) ∷ batch) m valid a =
      elim (Bool-cases (leb limit (length valid))) [
        | inl e ↦ rw (collect_valid-full now limit f (ts, lev_id) batch m valid e) a
        | inr e ↦ elim (Option-cases (find lev_id m)) [
          | inl g ↦
              rw (collect_valid-none now limit f ts lev_id batch m valid e g)
                (collect_valid-All batch (delete lev_id m) valid a)
          | inr (decoded, g) ↦ elim (Bool-cases (residual now f decoded.event)) [
            | inl r ↦
                rw (collect_valid-some now limit f ts lev_id decoded batch m valid e g, r)
                  (collect_valid-All batch (delete lev_id m) (valid ++ (ts, lev_id, decoded) ∷ [])
                    (All-append IsWanted valid ((ts, lev_id, decoded) ∷ []) a (r, tt)))
            | inr r ↦
                rw (collect_valid-some now limit f ts lev_id decoded batch m valid e g, r)
                  (collect_valid-All batch (delete lev_id m) valid a)
          ]
        ]
      ]

module _ (h : Heed) (c : Codecs) (env : h.Env) (now batch_size : ℕ) (f : NostrFilter) where
  -- The events of a page are at most the limit, and each passed the checks.
  abbrev pub IsSafe : Outcome h c env now batch_size f → Type 0
  IsSafe (ok page, cache) =
      (length page.0 ≤ effective_limit f)
      × All (λ (decoded : DecodedEvent). residual now f decoded.event ≡ true) page.0
  IsSafe (err e, cache) = Unit

  abbrev AllWanted : State h c env now batch_size f → Type 0
  AllWanted s = All (λ (v : Emitted). residual now f v.2.event ≡ true) s.valid

  page_of-IsSafe :
      (s : State h c env now batch_size f)
      → AllWanted s
      → IsSafe (page_of h c env now batch_size f s)
  unfolding page_of
  page_of-IsSafe s a = (
    rw (length-map (λ (v : Emitted). v.2) (take (effective_limit f) s.valid))
        (length-take-le (effective_limit f) s.valid),
    All-map (λ (v : Emitted). v.2) (λ (decoded : DecodedEvent). residual now f decoded.event ≡ true)
        (take (effective_limit f) s.valid)
        (All-take (λ (v : Emitted). residual now f v.2.event ≡ true) (effective_limit f) s.valid a),
  )

  absorb-AllWanted :
      (batch : List Triple) (s pushed : State h c env now batch_size f)
      → (absorb h c env now batch_size f batch s).0 ≡ ok pushed
      → AllWanted s
      → AllWanted pushed
  absorb-AllWanted batch s pushed e a =
      elim (absorb-cases h c env now batch_size f batch s pushed e) [
        | inl p ↦ rw (← p) a
        | inr (pairs, g, p) ↦ rw (← p) (
            collect_valid-All now (effective_limit f) f (filtered_batch s.round_boundary batch)
              (map_of pairs) s.valid a)
      ]

  round-IsSafe :
      (s : State h c env now batch_size f)
      → AllWanted s
      → Gives h c env now batch_size f IsSafe AllWanted (round h c env now batch_size f s)
  unfolding scanned
  round-IsSafe s a =
      round-Gives h c env now batch_size f IsSafe AllWanted s (λ e. page_of-IsSafe s a) (λ e m. tt)
        (λ batch e m b. tt)
        (λ batch pushed m b.
          let w = absorb-AllWanted batch s pushed b a in
          let after = scanned h c env now batch_size f batch pushed in
          decide-Gives h c env now batch_size f IsSafe AllWanted (last_position batch) after
            (λ e. page_of-IsSafe after w)
            (λ e p.
              page_of-IsSafe
                (record after {
                  deepest_scanned = past_stalled (last_position batch) after.deepest_scanned;
                })
                w)
            (λ e p. w))

  -- With the fuel of 8 rounds or more, a query ends with an error or a page, and every page has
  -- at most limit events, or 256 where the limit is 0, and no event whose own id, author, kind or
  -- tags fail the checks of the filter, or that has expired, whatever the database holds. Of the
  -- times of the events it says nothing.
  pub execute_query_internal-IsSafe :
      (fuel : ℕ) (dict_cache : DictCache h c) (cursor : Option PageCursor)
      → max_rounds ≤ fuel
      → (outcome : Outcome h c env now batch_size f) × (execute_query_internal h c env now
            batch_size f fuel dict_cache cursor
          ≡ some outcome)
        × IsSafe outcome
  unfolding execute_query_internal
  execute_query_internal-IsSafe fuel dict_cache cursor enough =
      all_rounds h c env now batch_size f IsSafe AllWanted round-IsSafe fuel _ enough refl tt

  -- With the fuel of 8 rounds a query comes to an end, with a page or with an error, and with
  -- more fuel it comes to the same one.
  pub execute_query_internal-max_rounds :
      (fuel : ℕ) (dict_cache : DictCache h c) (cursor : Option PageCursor)
      → max_rounds ≤ fuel
      → (outcome : Outcome h c env now batch_size f) × (execute_query_internal h c env now
            batch_size f max_rounds dict_cache cursor
          ≡ some outcome)
        × (execute_query_internal h c env now batch_size f fuel dict_cache cursor ≡ some outcome)
  unfolding execute_query_internal
  execute_query_internal-max_rounds fuel dict_cache cursor enough =
      let (outcome, e, safe) =
        all_rounds h c env now batch_size f IsSafe AllWanted round-IsSafe max_rounds _ (omega arith)
          refl tt in
      (outcome, e, rounds_from_more h c env now batch_size f max_rounds fuel _ outcome enough e)
