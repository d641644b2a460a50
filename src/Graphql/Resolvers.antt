-- ===== src/Graphql/Resolvers.antt =====
-- LMDB2GraphQL/src/graphql/resolvers.rs: the resolvers of the queries. A blocking task always comes
-- to its end.
pub mod Events
pub mod Groups
pub mod Cursors
use deepfry.Base.{ℕ, Bool, true, false, Option, none, some, List, map, length, ltb, if◌then◌else◌}
use deepfry.Base.Results.{Result, ok, err, map_err, ◌>>=◌}
use deepfry.Base.Ints.{ℤ, to_u64}
use deepfry.Base.Words.{Bytes}
use deepfry.Lmdb.Heed.{Heed}
use deepfry.Lmdb.Payload.{Codecs, DecodedEvent, DictCache}
use deepfry.Query.Authors.{distinct_authors}
use deepfry.Query.Filter.{NostrFilter, PageCursor}
use deepfry.Query.Filter.Cursor.{Base64, Reason, encode, decode}
use deepfry.Query.Router.{exactly_32}
use deepfry.Query.Router.Hex.{decode_hex, hex_encode_lowercase}
use deepfry.Query.Engine.{QueryError, lmdb, cursor_decode, Page, execute_query}
use deepfry.Query.Engine.Latest.{Buckets, latest_per_author}
use deepfry.Graphql.{
  EventsPage, AuthorsPage, AuthorGroup, StatsResult, EventFilterInput, GqlError, negative_kind,
  too_many_authors, cursor_malformed_hex, cursor_wrong_length, map_query_error,
  decoded_event_to_gql,
}
use deepfry.Graphql.Inputs.{build_nostr_filter, clamp_limit, clamp_per_author}
use deepfry.Graphql.Stats.{read_stats}

abbrev pub max_authors : ℕ
max_authors = 1000

abbrev pub is_some {ℓ} : {A : Type ℓ} → Option A → Bool
is_some none = false
is_some (some a) = true

abbrev pub option_map {ℓ κ} : {A : Type ℓ} {B : Type κ} → (A → B) → Option A → Option B
option_map g none = none
option_map g (some a) = some (g a)

-- The `after` of `authors`.
unfoldable pub decode_author_cursor : Option Bytes → Result GqlError (Option Bytes)
decode_author_cursor none = ok none
decode_author_cursor (some s) = do
  bytes ← map_err (λ e. cursor_malformed_hex) (decode_hex s)
  elim (exactly_32 bytes) [ none ↦ err cursor_wrong_length | some pk ↦ ok (some pk) ]

-- `u64::try_from(kind)`
unfoldable pub valid_kind : ℤ → Result GqlError ℕ
valid_kind kind = elim (to_u64 kind) [ none ↦ err negative_kind | some n ↦ ok n ]

-- `lossy` is `String::from_utf8_lossy`, `reason_text` the text of a cursor's error.
module _ (h : Heed) (c : Codecs) (b : Base64) (lossy : Bytes → Bytes)
    (reason_text : Reason b.DecodeError → Bytes) (env : h.Env) (now : ℕ) where
  -- The `after` of `events`.
  unfoldable pub decode_after : Option Bytes → Result GqlError (Option PageCursor)
  decode_after none = ok none
  decode_after (some s) = do
    p ←
        map_err
          (λ r.
            map_query_error {E = h.Error} {Z = c.ZstdError} {J = c.JsonError}
              (cursor_decode (reason_text r)))
          (decode b s)
    ok (some p)

  unfoldable pub events_page : Page → EventsPage
  events_page page = record {
    events = map (decoded_event_to_gql lossy) page.0;
    has_more = is_some page.1;
    end_cursor = option_map (encode b) page.1;
  }

  -- The arguments of `events`, checked.
  unfoldable pub checked :
      Option EventFilterInput
      → Option Bytes
      → Option ℤ
      → Result GqlError (Option PageCursor × NostrFilter)
  checked filter after limit = do
    cursor ← decode_after after
    nostr_filter ← build_nostr_filter filter (clamp_limit limit)
    ok (cursor, nostr_filter)

  abbrev pub Served : Type 0
  Served = Result GqlError EventsPage × DictCache h c

  abbrev pub serve :
      Result (QueryError h.Error c.ZstdError c.JsonError) Page → Result GqlError EventsPage
  serve (ok page) = ok (events_page page)
  serve (err e) = err (map_query_error e)

  unfoldable pub run_events : ℕ → DictCache h c → Option PageCursor × NostrFilter → Option Served
  run_events fuel dict_cache (cursor, f) =
      elim (execute_query h c env now f fuel dict_cache cursor) [
        | none ↦ none
        | some (r, cache) ↦ some (serve r, cache)
      ]

  -- On the fuel of the rounds of a query.
  unfoldable pub events :
      ℕ → DictCache h c → Option EventFilterInput → Option Bytes → Option ℤ → Option Served
  events fuel dict_cache filter after limit = elim (checked filter after limit) [
    | err e ↦ some (err e, dict_cache)
    | ok arguments ↦ run_events fuel dict_cache arguments
  ]

  unfoldable pub author_groups : Buckets → List AuthorGroup
  author_groups groups =
      map
        (λ (group : Bytes × List DecodedEvent). record {
          author = group.0;
          events = map (decoded_event_to_gql lossy) group.1;
        })
        groups

  abbrev pub serve_groups :
      Result (QueryError h.Error c.ZstdError c.JsonError) Buckets
      → Result GqlError (List AuthorGroup)
  serve_groups (ok groups) = ok (author_groups groups)
  serve_groups (err e) = err (map_query_error e)

  unfoldable pub run_latest :
      ℕ
      → DictCache h c
      → ℕ
      → ℤ
      → List Bytes
      → Option (Result GqlError (List AuthorGroup) × DictCache h c)
  run_latest fuel dict_cache kind per_author authors =
      elim (latest_per_author h c env now fuel kind (clamp_per_author per_author) authors
        dict_cache) [ none ↦ none | some (r, cache) ↦ some (serve_groups r, cache) ]

  unfoldable pub latest_per_author_resolver :
      ℕ
      → DictCache h c
      → ℤ
      → ℤ
      → List Bytes
      → Option (Result GqlError (List AuthorGroup) × DictCache h c)
  latest_per_author_resolver fuel dict_cache kind per_author authors =
      let run : Option (Result GqlError (List AuthorGroup) × DictCache h c) =
        elim (valid_kind kind) [
          | err e ↦ some (err e, dict_cache)
          | ok n ↦ run_latest fuel dict_cache n per_author authors
        ] in
      if ltb max_authors (length authors) then some (err too_many_authors, dict_cache) else run

  unfoldable pub authors_page : List Bytes × Option Bytes → AuthorsPage
  authors_page (pubkeys, next_cursor) = record {
    authors = map hex_encode_lowercase pubkeys;
    has_more = is_some next_cursor;
    end_cursor = option_map hex_encode_lowercase next_cursor;
  }

  unfoldable pub authors : Option Bytes → Option ℤ → Result GqlError AuthorsPage
  authors after limit = do
    after_bytes ← decode_author_cursor after
    result ←
        map_err (λ e. map_query_error {E = h.Error} {Z = c.ZstdError} {J = c.JsonError} (lmdb e))
          (distinct_authors h env after_bytes (clamp_limit limit))
    ok (authors_page result)

  unfoldable pub stats : ℕ → Bytes → Result GqlError StatsResult
  stats db_version pinned =
      map_err (λ e. map_query_error {E = h.Error} {Z = c.ZstdError} {J = c.JsonError} (lmdb e))
        (read_stats h env db_version pinned)
