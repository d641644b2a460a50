-- ===== src/Query/Engine.antt =====
-- LMDB2GraphQL/src/query/engine.rs: the rounds of a query, its residual filter and its next cursor.
-- The clock does not move during a query: `now` is its value.
pub mod Expiry
pub mod Cursors
mod Examples
pub mod Feed
pub mod Fits
pub mod Latest
pub mod Answer
pub mod Batches
pub mod Below
pub mod Buckets
pub mod Collect
pub mod Lookup
pub mod Pages
pub mod Reads
pub mod Rounds
pub mod Safety
pub mod Scroll
pub mod Steps
pub mod Underway
mod Survivors
unfoldable pub use Survivors.*
use deepfry.Base.{
  ℕ, zero, suc, ◌+◌, ◌-◌, Bool, true, false, ◌&&◌, ◌||◌, not, ltb, leb, ◌==◌, Option, none, some,
  List, [], ◌∷◌, ◌++◌, ◌⊎◌, inl, inr, map, length, take, last?, is_empty, any, all, min, bytes_eq,
  if◌then◌else◌,
}
use deepfry.Base.Results.{Result, ok, err, map_err, ◌>>=◌}
use deepfry.Base.Words.{Bytes, u64_max}
use deepfry.Lmdb.Heed.{Heed}
use deepfry.Lmdb.Indexes.{IndexError}
use deepfry.Lmdb.Scan.{reverse, default_window_size, scan_index_one_window}
use deepfry.Lmdb.Payload.{Codecs, NostrEvent, DecodedEvent, PayloadError, DictCache}
use deepfry.Query.Filter.{NostrFilter, TagFilter, PageCursor}
use deepfry.Query.Router.{
  SelectedIndex, single, multi, select_index, build_start_keys, filter_map, unwrap_or,
}
use deepfry.Query.Merge.{Triple, merge_windowed}
use deepfry.Query.Hydrate.{hydrate_lev_ids}
use Expiry.{is_expired}
use Prim.Native.String.{String}

abbrev pub max_rounds : ℕ
max_rounds = 8

unfoldable pub index_short_name : SelectedIndex → String
index_short_name (single n) = n
index_short_name (multi n) = n

unfoldable pub position_eq : Option Position → Option Position → Bool
position_eq none none = true
position_eq (some (a, b)) (some (c, d)) = a == c && b == d
position_eq _ _ = false

-- The position of the last merged entry.
unfoldable pub last_position : List Triple → Option Position
last_position batch = elim (last? batch) [ none ↦ none | some t ↦ some (t.0, t.1) ]

-- `if let Some(lm) = last_merged { deepest_scanned = Some(lm) }`
abbrev pub or_else {ℓ} : {A : Type ℓ} → Option A → Option A → Option A
or_else none old = old
or_else (some a) old = some a

-- The fallback of a round without progress.
unfoldable pub past_stalled : Option Position → Option Position → Option Position
past_stalled none deepest = deepest
past_stalled (some (ts, lev_id)) deepest = if ltb 0 ts then some (ts - 1, u64_max) else deepest

unfoldable pub effective_limit : NostrFilter → ℕ
effective_limit f = if f.limit == 0 then default_window_size else f.limit

-- `limit.saturating_add(DEFAULT_WINDOW_SIZE).saturating_add(limit)`
unfoldable pub emit_limit_of : ℕ → ℕ
emit_limit_of limit = min u64_max (min u64_max (limit + default_window_size) + limit)

unfoldable pub round_until : NostrFilter → Option Position → ℕ
round_until f none = unwrap_or f.until u64_max
round_until f (some boundary) = boundary.0

unfoldable pub round_keys : NostrFilter → Option Position → List Bytes
round_keys f boundary =
    build_start_keys (record f { until = some (round_until f boundary) }) (select_index f) reverse

abbrev pub cursor_at : Emitted → PageCursor
cursor_at (ts, lev_id, decoded) = record { created_at = ts; lev_id = lev_id }

unfoldable pub last_cursor : List Emitted → Option PageCursor
last_cursor valid = elim (last? valid) [ none ↦ none | some v ↦ some (cursor_at v) ]

-- The next page's cursor.
unfoldable pub next_cursor : ℕ → List Emitted → Bool → Option Position → Option PageCursor
next_cursor limit valid exhausted deepest_scanned =
    if length valid == limit
    then last_cursor valid
    else if not (is_empty valid) && not exhausted
    then last_cursor valid
    else if is_empty valid && not exhausted
    then elim deepest_scanned [
      | none ↦ none
      | some p ↦ some (record { created_at = p.0; lev_id = p.1 })
    ]
    else none

abbrev pub Page : Type 0
Page = List DecodedEvent × Option PageCursor

abbrev pub finish : ℕ → List Emitted → Bool → Option Position → Page
finish limit valid exhausted deepest_scanned =
    let kept = take limit valid in
    (map (λ (v : Emitted). v.2) kept, next_cursor limit kept exhausted deepest_scanned)

pub data QueryError (E Z J : Type 0) : Type 0 where
  lmdb : IndexError E → QueryError E Z J
  payload : PayloadError E Z J → QueryError E Z J
  cursor_decode : (reason : Bytes) → QueryError E Z J

-- What the loop of a query carries from round to round.
pub record Progress (D : Type 0) : Type 0 where
  pub valid : List Emitted
  pub skip_count : ℕ
  pub cache : D
  pub round_boundary : Option Position
  pub rounds : ℕ
  pub exhausted : Bool
  pub deepest_scanned : Option Position

module _ (h : Heed) (c : Codecs) (env : h.Env) (now batch_size : ℕ) (f : NostrFilter) where
  abbrev pub Fault : Type 0
  Fault = QueryError h.Error c.ZstdError c.JsonError

  abbrev pub State : Type 0
  State = Progress (DictCache h c)

  abbrev pub Outcome : Type 0
  Outcome = Result Fault Page × DictCache h c

  -- `merge_windowed` in one round.
  unfoldable pub merge_round : Option Position → Result (IndexError h.Error) (List Triple)
  merge_round boundary =
      merge_windowed (scan_index_one_window h env (index_short_name (select_index f)) reverse)
        batch_size (unwrap_or f.since 0) boundary (round_keys f boundary)
        (emit_limit_of (effective_limit f))

  -- The state after the survivors of a batch were pushed, or the error of the hydration.
  unfoldable pub absorb : List Triple → State → Result Fault State × DictCache h c
  absorb merge_batch s =
      let batch = filtered_batch s.round_boundary merge_batch in
      let (hydrated, cache, skip_count) =
        hydrate_lev_ids h c env (map (λ (p : Position). p.1) batch) s.cache s.skip_count in
      let pushed : Result Fault State × DictCache h c = elim hydrated [
        | err e ↦ (err (payload e), cache)
        | ok pairs ↦ (
          ok (record s {
            valid = collect_valid now (effective_limit f) f batch (map_of pairs) s.valid;
            skip_count = skip_count;
            cache = cache;
          }),
          cache,
        )
      ] in
      if is_empty batch then (ok s, s.cache) else pushed

  -- The bookkeeping of a round that merged `merge_batch`.
  unfoldable pub scanned : List Triple → State → State
  scanned merge_batch s = record s {
    exhausted = ltb (length merge_batch) (emit_limit_of (effective_limit f));
    deepest_scanned = or_else (last_position merge_batch) s.deepest_scanned;
    rounds = s.rounds + 1;
  }

  unfoldable pub page_of : State → Outcome
  page_of s = (ok (finish (effective_limit f) s.valid s.exhausted s.deepest_scanned), s.cache)

  -- The end of a round: the result, or the state of the next round.
  unfoldable pub decide : Option Position → State → Outcome ⊎ State
  decide last_merged s =
      if leb (effective_limit f) (length s.valid) || (s.exhausted || leb max_rounds s.rounds)
      then inl (page_of s)
      else if position_eq last_merged s.round_boundary
      then inl (page_of (record s { deepest_scanned = past_stalled last_merged s.deepest_scanned }))
      else inr (record s { round_boundary = last_merged })

  -- A round after its merge.
  unfoldable pub after_merge : List Triple → State → Outcome ⊎ State
  after_merge merge_batch s = elim (absorb merge_batch s).0 [
    | err e ↦ inl (err e, (absorb merge_batch s).1)
    | ok pushed ↦ decide (last_position merge_batch) (scanned merge_batch pushed)
  ]

  -- One round of `loop`.
  unfoldable pub round : State → Outcome ⊎ State
  round s =
      let merged : Outcome ⊎ State = elim (merge_round s.round_boundary) [
        | err e ↦ inl (err (lmdb e), s.cache)
        | ok merge_batch ↦ after_merge merge_batch s
      ] in
      if is_empty (round_keys f s.round_boundary) then inl (page_of s) else merged

  -- `loop`, on fuel: `none` means that the fuel ran out.
  unfoldable pub rounds_from : ℕ → State → Option Outcome
  rounds_from zero s = none
  rounds_from (suc fuel) s = elim (round s) [
    | inl outcome ↦ some outcome
    | inr next ↦ rounds_from fuel next
  ]

  unfoldable pub execute_query_internal : ℕ → DictCache h c → Option PageCursor → Option Outcome
  execute_query_internal fuel dict_cache cursor = rounds_from fuel (record {
    valid = [];
    skip_count = 0;
    cache = dict_cache;
    round_boundary = elim cursor [ none ↦ none | some p ↦ some (p.created_at, p.lev_id) ];
    rounds = 0;
    exhausted = false;
    deepest_scanned = none;
  })

module _ (h : Heed) (c : Codecs) (env : h.Env) (now : ℕ) (f : NostrFilter) where
  unfoldable pub execute_query :
      ℕ → DictCache h c → Option PageCursor → Option (Outcome h c env now default_window_size f)
  execute_query fuel dict_cache cursor =
      execute_query_internal h c env now default_window_size f fuel dict_cache cursor
