-- ===== src/Lib.antt =====
-- LMDB2GraphQL: a read-only query service over the LMDB environment of a strfry relay. These files
-- model its index scans, the parser of the Meta record, the payloads, the page cursor, the index
-- router, the k-way merge, the hydration, the query engine, the author pages and
-- the resolvers (LMDB2GraphQL/src/lmdb, LMDB2GraphQL/src/query and LMDB2GraphQL/src/graphql). And its
-- client spamhunter/pubkey_iterator, which lists the authors and scores them: the store with its
-- writer, the client, the walk over the authors, the fetch, the whitelist and the pipeline.
--
-- How the parts work together: a query picks an index and builds one start key for each value of
-- its filter (Query/Router); each start key becomes a stream of the merge (Query/Merge), which is
-- refilled window by window with a reverse scan of the index (Lmdb/Scan), opened by name with its
-- comparator (Lmdb/Indexes). The page cursor (Query/Filter/Cursor) says where the next page
-- resumes. A query merges in rounds (Query/Engine); the levIds that a merge gives are hydrated into
-- events (Query/Hydrate), whose payloads are read and decoded (Lmdb/Payload). The resolvers check
-- the arguments of a client and call the engine (Graphql). At start-up the Meta record is parsed and
-- checked (Lmdb/Meta), and the comparators are checked against the indexes (Lmdb/SelfCheck).
-- The pubkey iterator walks the pages of authors (Spamhunter/Enumerate), with retries
-- (Spamhunter/Retry) of the calls of its client (Spamhunter/Client). The pubkeys of a page go to the
-- one writer of the store (Spamhunter/Store), and the cursor is stored after they are durable. The
-- pipeline (Spamhunter/Pipeline) then fetches the events of all pubkeys batch by batch
-- (Spamhunter/Fetch), and asks the whitelist (Spamhunter/Whitelist); a batch run scores what comes
-- out of it (Spamhunter/Detect) and gives the scores to the writer (Spamhunter/Batch).
--
-- Files and what they model:
--   Base             lists, results, words of bytes, integers and outcomes that may panic
--   Lmdb/Heed        the crate heed as a parameter: transactions, sub-DBs and their cursors
--   Lmdb/Indexes     lmdb/indexes.rs: full_db_name, the four open_index functions as one function
--                    at a comparator, collect_lev_ids_dup, scan_lev_ids_for_index,
--                    seek_first_ge_lev_id
--   Lmdb/Scan        lmdb/scan.rs: scan_index_bounded, scan_index_windowed, scan_index_one_window,
--                    reverse_upper_bound, collect_bounded, collect_window
--   Lmdb/SelfCheck   lmdb/self_check.rs: the self-check of the comparators
--   Lmdb/Meta        lmdb/meta.rs: parse_meta_flatbuffer, read_meta and the two gates
--   Query/Filter     query/filter.rs: NostrFilter, TagFilter, PageCursor with encode and decode
--   Query/Router     query/router.rs: select_index, build_start_keys, decode_hex,
--                    created_at_from_key; and hex_encode_lowercase of graphql/resolvers.rs
--   Lmdb/Payload     lmdb/payload.rs: the decoders, DictCache::get_or_load, get_event_payload,
--                    batch_get_event_payloads; and NostrEvent, DecodedEvent of lmdb/types.rs
--   Query/Merge      query/merge.rs: refill_stream, merge_windowed, merge_prefixes
--   Query/Authors    query/authors.rs: increment_be, distinct_authors
--   Query/Hydrate    query/hydrate.rs: hydrate_lev_ids, hydrate_lev_ids_batch
--   Query/Engine     query/engine.rs: is_expired, execute_query, latest_per_author
--   Graphql          graphql/types.rs, and graphql/resolvers.rs in Graphql/Inputs (build_nostr_filter
--                    and the clamps), Graphql/Stats (read_stats) and Graphql/Resolvers
--   Spamhunter       spamhunter/pubkey_iterator/src: model.rs and store/schema.rs in Model;
--                    store/writer.rs in Store; store/mod.rs and store/queries.rs in Store/Runs
--                    and Store/Handle; graphql in Client; enumerate.rs in Retry and Enumerate;
--                    fetch.rs in Fetch; detect/whitelist.rs in Whitelist; pipeline.rs in Pipeline;
--                    detect/mod.rs in Detect; run.rs in Batch
-- A folder of the same name holds the theorems of a file.
--
-- Conventions: a byte string, and a Rust string, is the list of its bytes as numbers. An iterator
-- of heed is the list of the items that it yields. An error of `?` is a value of Result; a slice
-- out of range is the outcome panic. `usize` has 64 bits, and its additions wrap as in a release
-- build. A BinaryHeap is the list of its candidates in descending order: pop takes the first.
-- Every read transaction of one call is taken to see the same environment, and the clock does not
-- move during a call. A HashMap is an association list. A statement of SQL is its documented effect
-- on the lists of rows. The walk of the pubkey iterator makes one call of its store or client a
-- step, and a round of the writer, a failing statement or a crash may come between two steps.
--
-- Bounds and fuel: `loop` of scan_index_windowed runs on fuel, one unit for each window; every
-- window but the last brings a hit, so one more than the hits that are left is enough. The two
-- attempts of refill_stream and the results of merge_windowed are counted as the code counts them.
-- The rounds of execute_query run on fuel; MAX_ROUNDS rounds are enough. The writer's loop has a
-- round for each message, the splitting of a batch one for each of its authors.
--
-- Parameters: heed; base64 in the page cursor; zstd and serde_json in the payloads; the comparators
-- in the self-check; String::from_utf8_lossy in the resolvers; the HTTP calls of the pubkey
-- iterator (Http and Whitelist), its floats (a NaN is none, which SQLite takes as NULL) and its
-- layers. The laws they are used with are the
-- fields of IsReverseIndex, IsSource and Base64; those of the engine on the merge are the fields of
-- IsFeed. One thread uses the dictionary cache, and its lock is not poisoned.
--
-- Not modelled: log messages, debug assertions, async-graphql and the blocking tasks, the HTTP server and the
-- configuration, the C++ comparators, and the other programs of the repository; of the pubkey
-- iterator the layers, the tuning, the export and the snapshot of a batch run.
pub mod Base
pub mod Lmdb
pub mod Query
pub mod Graphql
pub mod Spamhunter
