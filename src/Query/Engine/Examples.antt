-- ===== src/Query/Engine/Examples.antt =====
-- Queries on three events of an `Event__created_at` index, of which one has a payload that does not
-- decode.
use deepfry.Query.Engine.Below.{comes_after}
use deepfry.Base.{
  All, if◌then◌else◌, ◌==◌, ℕ, ◌≡◌, inl, refl, arith, Option, none, some, List, [], ◌∷◌, map,
}
use deepfry.Base.Results.{ok}
use deepfry.Base.Words.{Bytes, le8}
use deepfry.Lmdb.Heed.{Heed}
use deepfry.Lmdb.Scan.Examples.{small_heed}
use deepfry.Lmdb.Payload.Examples.{stored, plain_codecs, frame, warm}
use deepfry.Query.Filter.{NostrFilter}
use deepfry.Query.Engine.{Position}
use deepfry.Query.Engine.Below.{IsDescending}
use deepfry.Query.Engine.Feed.{IsFeed, Reads}
use deepfry.Query.Engine.{
  merge_round, round_keys, emit_limit_of, effective_limit, index_short_name, round_until,
}
use deepfry.Query.Merge.{
  merge_windowed, refill_all, refill_stream, refill_attempts, advance, advance_stream, apply_floor,
  cmp, guard_prefix, heap_push, load_window, merge_loop, needs_refill, new_stream, passes_floor,
  peek, push_head, seed, stream_prefix, truncate_since,
}
use deepfry.Query.Router.{
  build_start_keys, dedup, sort_keys, raw_start_keys, select_index, insert_key, created_at_from_key,
  dedup_after, key_bound, key_leb,
}
use deepfry.Lmdb.Scan.{
  scan_index_one_window, window_batch, collect_window, is_new_key, resume_cursor, reverse_start,
  reverse_upper_bound, start_cursor, window_items,
}
use deepfry.Lmdb.Indexes.{open_named, full_db_name, lev_id_of_value, open_index}
use deepfry.Base.{bytes_eq, starts_with}
use deepfry.Base.Words.{from_le_bytes, to_le_bytes}
use deepfry.Query.Merge.{Triple}
use deepfry.Query.Hydrate.Found.{IsStored}
use deepfry.Lmdb.Payload.{get_event_payload, open_named_db, get_payload}
use deepfry.Query.Filter.{PageCursor}
use deepfry.Query.Engine.{Outcome, Emitted, max_rounds, execute_query_internal}
use deepfry.Query.Engine.Safety.{
  IsSafe, execute_query_internal-IsSafe, execute_query_internal-max_rounds,
}
use deepfry.Query.Engine.Pages.{wanted, Answers}
use deepfry.Query.Engine.Answer.{execute_query_internal-Answers}
use deepfry.Query.Engine.Latest.{LatestFault, Buckets, latest_per_author}
use deepfry.Query.Engine.Buckets.{AreBuckets, latest_per_author-AreBuckets}
use deepfry.Base.Results.{Result}
use deepfry.Lmdb.Payload.{DictCache}
use deepfry.Query.Engine.Scroll.{Scroll, execute_query_internal-Scroll}
use deepfry.Base.{is_empty, false, zero, suc}

abbrev relay : Heed
relay = record small_heed { get = λ db rtxn key. ok (stored key) }

-- Everything, one event on a page.
abbrev all_events : NostrFilter
all_events = record {
  ids = none;
  authors = none;
  kinds = none;
  tags = none;
  since = none;
  until = none;
  limit = 1;
}

abbrev entries : List Position
entries = (20, 3) ∷ (10, 2) ∷ (10, 1) ∷ []

-- The payloads by levId.
abbrev payloads : ℕ → Bytes
payloads n = if n == 1 then 0 ∷ 65 ∷ [] else if n == 2 then 9 ∷ [] else frame

reads :
    Reads relay plain_codecs tt 100 4 all_events entries payloads none
    × All
        (λ (p : Position). Reads relay plain_codecs tt 100 4 all_events entries payloads (some p))
        entries
unfolding merge_round round_keys emit_limit_of effective_limit index_short_name round_until
    comes_after merge_windowed refill_all refill_stream refill_attempts advance advance_stream
    apply_floor cmp guard_prefix heap_push load_window merge_loop needs_refill new_stream
    passes_floor peek push_head seed stream_prefix truncate_since build_start_keys dedup sort_keys
    raw_start_keys select_index insert_key created_at_from_key dedup_after key_bound key_leb
    scan_index_one_window window_batch collect_window is_new_key resume_cursor reverse_start
    reverse_upper_bound start_cursor window_items open_named full_db_name lev_id_of_value open_index
    bytes_eq starts_with from_le_bytes to_le_bytes
reads =
    let l : Triple = (20, 3, le8 20) in
    let m : Triple = (10, 2, le8 10) in
    let n : Triple = (10, 1, le8 10) in
    (
      (l ∷ m ∷ n ∷ [], refl, refl),
      ((m ∷ n ∷ [], refl, refl), ((n ∷ [], refl, refl), (([], refl, refl), tt))),
    )

has_keys : (b : Option Position) → is_empty (round_keys all_events b) ≡ false
unfolding round_keys build_start_keys dedup sort_keys raw_start_keys select_index insert_key
    dedup_after round_until
has_keys none = refl
has_keys (some p) = refl

in_order : IsDescending entries
unfolding comes_after
in_order = ((refl, (refl, tt)), ((refl, tt), (tt, tt)))

payloads_found : All (λ (p : Position). IsStored relay plain_codecs tt payloads p.1) entries
unfolding get_event_payload open_named_db get_payload to_le_bytes bytes_eq
payloads_found = (refl, (refl, (refl, tt)))

abbrev feed : IsFeed relay plain_codecs tt 100 4 all_events entries payloads
feed = record {
  descending = in_order;
  distinct = (
    ((λ e. absurd (omega arith)), ((λ e. absurd (omega arith)), tt)),
    (((λ e. absurd (omega arith)), tt), (tt, tt)),
  );
  found = payloads_found;
  keys = has_keys;
  first = reads.0;
  next = reads.1;
}

execute_query_internal-IsSafe_example :
    (outcome : Outcome relay plain_codecs tt 100 4 all_events) × (execute_query_internal relay
        plain_codecs tt 100 4 all_events 8 warm none
      ≡ some outcome)
    × IsSafe relay plain_codecs tt 100 4 all_events outcome
execute_query_internal-IsSafe_example =
    execute_query_internal-IsSafe relay plain_codecs tt 100 4 all_events 8 warm none (omega arith)

execute_query_internal-max_rounds_example :
    (outcome : Outcome relay plain_codecs tt 100 4 all_events) × (execute_query_internal relay
        plain_codecs tt 100 4 all_events max_rounds warm none
      ≡ some outcome)
    × (execute_query_internal relay plain_codecs tt 100 4 all_events 9 warm none ≡ some outcome)
execute_query_internal-max_rounds_example =
    execute_query_internal-max_rounds relay plain_codecs tt 100 4 all_events 9 warm none
      (omega arith)

abbrev second_page : PageCursor
second_page = record { created_at = 20; lev_id = 3 }

-- The first page ended at the event of time 20.
execute_query_internal-Answers_example :
    (outcome : Outcome relay plain_codecs tt 100 4 all_events) × (execute_query_internal relay
        plain_codecs tt 100 4 all_events 8 []
        (some second_page)
      ≡ some outcome)
    × Answers relay plain_codecs tt 100 4 all_events payloads entries (some (20, 3)) outcome
execute_query_internal-Answers_example =
    execute_query_internal-Answers relay plain_codecs tt 100 4 all_events payloads entries feed 8 []
      (some second_page) (omega arith) tt (inl refl)

execute_query_internal-Scroll_example : Scroll relay plain_codecs tt 100 4 all_events 8 none [] (
    map
      (λ (x : Emitted). x.2)
      (wanted relay plain_codecs tt 100 4 all_events payloads entries none))
execute_query_internal-Scroll_example =
    execute_query_internal-Scroll relay plain_codecs tt 100 4 all_events payloads entries feed 8
      (omega arith) none [] tt tt

abbrev repeat : ℕ → ℕ → Bytes
repeat zero b = []
repeat (suc n) b = b ∷ repeat n b

abbrev ghost : Bytes
ghost = repeat 64 97

-- Two authors: the first is no hex text of 32 bytes, the second has no events of the kind.
latest_per_author-AreBuckets_example :
    (outcome : Result (LatestFault relay plain_codecs tt 100) Buckets
      × DictCache relay plain_codecs)
    × (latest_per_author relay plain_codecs tt 100 0 1 2 ([] ∷ ghost ∷ []) [] ≡ some outcome)
    × AreBuckets relay plain_codecs tt 100 2 outcome
latest_per_author-AreBuckets_example =
    latest_per_author-AreBuckets relay plain_codecs tt 100 2 0 1 ([] ∷ ghost ∷ []) []
