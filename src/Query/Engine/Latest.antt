-- ===== src/Query/Engine/Latest.antt =====
-- LMDB2GraphQL/src/query/engine.rs: the newest events of each author, in buckets.
use deepfry.Base.{
  ℕ, ◌&&◌, not, ◌==◌, Option, none, some, List, [], ◌∷◌, ◌++◌, map, length, take, drop, keep_if,
  is_empty, bytes_eq, if◌then◌else◌,
}
use deepfry.Base.Results.{Result, ok, err}
use deepfry.Base.Words.{Bytes, to_le_bytes, u64_max}
use deepfry.Lmdb.Heed.{Heed}
use deepfry.Lmdb.Scan.{Hit, reverse, scan_index_bounded}
use deepfry.Lmdb.Payload.{Codecs, DecodedEvent, DictCache}
use deepfry.Query.Router.{filter_map, exactly_32}
use deepfry.Query.Router.Hex.{decode_hex}
use deepfry.Query.Hydrate.{hydrate_lev_ids_batch}
use deepfry.Query.Engine.{QueryError, lmdb, payload}
use deepfry.Query.Engine.Expiry.{is_expired}

unfoldable pub decode_hex_32 : Bytes → Option Bytes
decode_hex_32 s =
    if length s == 64
    then elim (decode_hex s) [ ok bytes ↦ exactly_32 bytes | err e ↦ none ]
    else none

unfoldable pub bucket_key : Bytes → ℕ → Bytes
bucket_key pubkey_bytes kind = pubkey_bytes ++ (to_le_bytes 8 kind ++ to_le_bytes 8 u64_max)

-- The hits at a key of exactly this author and this kind.
unfoldable pub matching : Bytes → ℕ → List Hit → List ℕ
matching pubkey_bytes kind scan_results =
    filter_map
      (λ (hit : Hit).
        if length hit.0 == 48
          && (bytes_eq (take 32 hit.0) pubkey_bytes
              && bytes_eq (take 8 (drop 32 hit.0)) (to_le_bytes 8 kind))
        then some hit.1
        else none)
      scan_results

-- `HashMap<String, Vec<DecodedEvent>>`
abbrev pub Buckets : Type 0
Buckets = List (Bytes × List DecodedEvent)

-- `HashMap::insert`
unfoldable pub insert : Bytes → List DecodedEvent → Buckets → Buckets
insert k v [] = (k, v) ∷ []
insert k v ((l, w) ∷ m) =
    let rest = insert k v m in if bytes_eq l k then (k, v) ∷ m else (l, w) ∷ rest

module _ (h : Heed) (c : Codecs) (env : h.Env) (now : ℕ) where
  abbrev pub LatestFault : Type 0
  LatestFault = QueryError h.Error c.ZstdError c.JsonError

  -- The events of an author that are kept, in the order of the scan.
  unfoldable pub bucket :
      List ℕ → DictCache h c → Result LatestFault (List DecodedEvent) × DictCache h c
  bucket lev_ids cache =
      let (hydrated, cache', skip_count) = hydrate_lev_ids_batch h c env lev_ids cache 0 in
      let kept : Result LatestFault (List DecodedEvent) × DictCache h c = elim hydrated [
        | err e ↦ (err (payload e), cache')
        | ok hydrated_pairs ↦ (
          ok (
              keep_if (λ (ev : DecodedEvent). not (is_expired now ev.event))
                (map (λ (pair : ℕ × DecodedEvent). pair.1) hydrated_pairs)),
          cache',
        )
      ] in
      if is_empty lev_ids then (ok [], cache) else kept

  -- The scan of one author, and its bucket.
  unfoldable pub author_bucket :
      ℕ
      → ℕ
      → ℕ
      → Bytes
      → DictCache h c
      → Option (Result LatestFault (List DecodedEvent) × DictCache h c)
  author_bucket fuel kind per_author pubkey_bytes cache =
      elim (scan_index_bounded h fuel env "Event__pubkeyKind" reverse (bucket_key pubkey_bytes kind)
        per_author) [
          | none ↦ none
          | some (err e) ↦ some (err (lmdb e), cache)
          | some (ok scan_results) ↦ some (bucket (matching pubkey_bytes kind scan_results) cache)
        ]

  unfoldable pub insert_events : Bytes → List DecodedEvent → Buckets → Buckets
  insert_events author_hex events result =
      if is_empty events then result else insert author_hex events result

  -- The loop over the authors. The fuel is that of a scan without a limit, which it never is.
  unfoldable pub latest_loop :
      ℕ
      → ℕ
      → ℕ
      → List Bytes
      → Buckets
      → DictCache h c
      → Option (Result LatestFault Buckets × DictCache h c)
  latest_loop fuel kind per_author [] result cache = some (ok result, cache)
  latest_loop fuel kind per_author (author_hex ∷ authors) result cache =
      elim (decode_hex_32 author_hex) [
        | none ↦ latest_loop fuel kind per_author authors result cache
        | some pubkey_bytes ↦ elim (author_bucket fuel kind per_author pubkey_bytes cache) [
          | none ↦ none
          | some (err e, cache') ↦ some (err e, cache')
          | some (ok events, cache') ↦
              latest_loop fuel kind per_author authors (insert_events author_hex events result)
                cache'
        ]
      ]

  unfoldable pub latest_per_author :
      ℕ → ℕ → ℕ → List Bytes → DictCache h c → Option (Result LatestFault Buckets × DictCache h c)
  latest_per_author fuel kind per_author authors cache =
      if per_author == 0
      then some (ok [], cache)
      else latest_loop fuel kind per_author authors [] cache
