-- ===== src/Graphql/Resolvers/Groups.antt =====
-- What `latestPerAuthor` serves.
use deepfry.Base.{
  ℕ, ◌≤◌, ◌≡◌, ◌≢◌, refl, inl, inr, arith, false, Bool-cases, some, List, [], ◌∷◌, map, length,
  length-map, ltb, All,
}
use deepfry.Base.Results.{Result, ok, err}
use deepfry.Base.Ints.{ℤ, pos, negsuc, to_u64}
use deepfry.Base.Words.{Bytes}
use deepfry.Lmdb.Heed.{Heed}
use deepfry.Lmdb.Payload.{Codecs, DecodedEvent, DictCache}
use deepfry.Query.Filter.Cursor.{Base64, Reason}
use deepfry.Query.Engine.Latest.{Buckets, LatestFault, latest_per_author}
use deepfry.Query.Engine.Buckets.{IsBucket, AreBuckets, latest_per_author-AreBuckets}
use deepfry.Graphql.{AuthorGroup, GqlError, negative_kind, too_many_authors, decoded_event_to_gql}
use deepfry.Graphql.Inputs.{clamp_per_author}
use deepfry.Graphql.Resolvers.{
  max_authors, valid_kind, author_groups, serve_groups, run_latest, latest_per_author_resolver,
}

clamp_per_author-le : (per_author : ℤ) → clamp_per_author per_author ≤ 500
unfolding clamp_per_author
clamp_per_author-le per_author = omega arith

module _ (h : Heed) (c : Codecs) (b : Base64) (lossy : Bytes → Bytes)
    (reason_text : Reason b.DecodeError → Bytes) (env : h.Env) (now : ℕ) where
  -- A group of at least one event, at most the number that was asked for, and at most 500.
  abbrev pub IsGroup : ℤ → AuthorGroup → Type 0
  IsGroup per_author group =
      (group.events ≢ [])
      × (length group.events ≤ clamp_per_author per_author)
      × (length group.events ≤ 500)

  abbrev pub Answer : Type 0
  Answer = Result GqlError (List AuthorGroup) × DictCache h c

  -- Groups only for at most 1000 authors and a kind that is not negative.
  abbrev pub IsAnswer : ℤ → ℤ → List Bytes → Answer → Type 0
  IsAnswer kind per_author authors (ok groups, cache) =
      (length authors ≤ 1000) × ((n : ℕ) × (kind ≡ pos n)) × All (IsGroup per_author) groups
  IsAnswer kind per_author authors (err e, cache) = Unit

  not_empty : (found : List DecodedEvent) → found ≢ [] → map (decoded_event_to_gql lossy) found ≢ []
  not_empty [] n = λ e. n refl
  not_empty (x ∷ found) n = λ e. absurd cc

  buckets-All :
      (per_author : ℤ) (groups : Buckets)
      → All (IsBucket h c env now (clamp_per_author per_author)) groups
      → All (IsGroup per_author) (author_groups h c b lossy reason_text env now groups)
  unfolding author_groups
  buckets-All per_author [] a = tt
  buckets-All per_author (group ∷ groups) (a, rest) = (
    (
      not_empty group.1 a.1,
      omega (arith, length-map (decoded_event_to_gql lossy) group.1),
      omega
          (arith, length-map (decoded_event_to_gql lossy) group.1, clamp_per_author-le per_author),
    ),
    buckets-All per_author groups rest,
  )

  run_latest-some :
      (fuel kind : ℕ) (cache : DictCache h c) (per_author : ℤ) (authors : List Bytes)
      (outcome : Result (LatestFault h c env now) Buckets × DictCache h c)
      → latest_per_author h c env now fuel kind (clamp_per_author per_author) authors cache
        ≡ some outcome
      → run_latest h c b lossy reason_text env now fuel cache kind per_author authors
        ≡ some (serve_groups h c b lossy reason_text env now outcome.0, outcome.1)
  unfolding run_latest
  run_latest-some fuel kind cache per_author authors outcome e = ground arith

  serve_groups-IsAnswer :
      (n : ℕ) (per_author : ℤ) (authors : List Bytes)
      (outcome : Result (LatestFault h c env now) Buckets × DictCache h c)
      → length authors ≤ 1000
      → AreBuckets h c env now (clamp_per_author per_author) outcome
      → IsAnswer
          (pos n)
          per_author
          authors
          (serve_groups h c b lossy reason_text env now outcome.0, outcome.1)
  serve_groups-IsAnswer n per_author authors (ok groups, cache) few a =
      (few, (n, refl), buckets-All per_author groups a)
  serve_groups-IsAnswer n per_author authors (err e, cache) few a = tt

  few_authors : (n : ℕ) → ltb max_authors n ≡ false → n ≤ 1000
  few_authors n e = ground arith

  -- Whatever the arguments and the database are, latestPerAuthor comes to an end without fuel:
  -- with an error, or, for at most 1000 authors and a kind that is not negative, with groups of
  -- at least one event, and at most the number that was asked for, taken as 1 where it is below 1
  -- and as 500 where it is above 500.
  pub latest_per_author_resolver-IsAnswer :
      (fuel : ℕ) (cache : DictCache h c) (kind per_author : ℤ) (authors : List Bytes)
      → (answer : Answer) × (latest_per_author_resolver h c b lossy reason_text env now fuel cache
            kind per_author authors
          ≡ some answer)
        × IsAnswer kind per_author authors answer
  unfolding latest_per_author_resolver valid_kind to_u64
  latest_per_author_resolver-IsAnswer fuel cache (negsuc n) per_author authors =
      elim (Bool-cases (ltb max_authors (length authors))) [
        | inl e ↦ ((err too_many_authors, cache), rw e refl, tt)
        | inr e ↦ ((err negative_kind, cache), rw e refl, tt)
      ]
  latest_per_author_resolver-IsAnswer fuel cache (pos n) per_author authors =
      elim (Bool-cases (ltb max_authors (length authors))) [
        | inl e ↦ ((err too_many_authors, cache), rw e refl, tt)
        | inr e ↦
            let (outcome, ran, are) =
              latest_per_author-AreBuckets h c env now (clamp_per_author per_author) fuel n authors
                cache in
            (
              (serve_groups h c b lossy reason_text env now outcome.0, outcome.1),
              rw e (run_latest-some fuel n cache per_author authors outcome ran),
              serve_groups-IsAnswer n per_author authors outcome (few_authors (length authors) e)
                  are,
            )
      ]
