-- ===== src/Lmdb/Payload.antt =====
-- LMDB2GraphQL/src/lmdb/payload.rs: EventPayload lookups, the decoder and its dictionary cache.
-- The cache is passed on as a value: one thread uses it, and its lock is never poisoned.
pub mod Cache
pub mod Examples
use Prim.Native.String.{String}
use deepfry.Base.{
  ℕ, ◌+◌, ◌*◌, Option, none, some, List, [], ◌∷◌, length, take, drop, ltb, ◌==◌, is_empty,
  if◌then◌else◌,
}
use deepfry.Base.Results.{Result, ok, err, map_err, ◌>>=◌}
use deepfry.Base.Words.{Bytes, le8, to_le_bytes, from_le_bytes}
use deepfry.Lmdb.Heed.{Heed, Comparator}

abbrev pub event_payload_db_name : String
event_payload_db_name = "rasgueadb_defaultDb__EventPayload"

abbrev pub compression_dictionary_db_name : String
compression_dictionary_db_name = "rasgueadb_defaultDb__CompressionDictionary"

abbrev pub payload_tag_raw_json : ℕ
payload_tag_raw_json = 0

abbrev pub payload_tag_zstd_dict : ℕ
payload_tag_zstd_dict = 1

abbrev pub max_event_decompressed_size : ℕ
max_event_decompressed_size = 4 * 1024 * 1024

pub record NostrEvent : Type 0 where
  pub id : Bytes
  pub pubkey : Bytes
  pub created_at : ℕ
  pub kind : ℕ
  pub tags : List (List Bytes)
  pub content : Bytes
  pub sig : Bytes

pub record DecodedEvent : Type 0 where
  pub event : NostrEvent
  pub raw_json : Bytes

-- The crates serde_json and zstd.
pub record Codecs : Type 1 where
  pub JsonError : Type 0
  pub ZstdError : Type 0
  pub Dictionary : Type 0
  pub Decompressor : Type 0
  -- `serde_json::from_slice::<NostrEvent>`
  pub from_slice : Bytes → Result JsonError NostrEvent
  -- `DecoderDictionary::copy`
  pub copy : Bytes → Dictionary
  pub with_prepared_dictionary : Dictionary → Result ZstdError Decompressor
  pub decompress : Decompressor → Bytes → ℕ → Result ZstdError Bytes

pub data PayloadError (E Z J : Type 0) : Type 0 where
  heed : E → PayloadError E Z J
  sub_db_not_found : String → PayloadError E Z J
  lev_id_not_found : ℕ → PayloadError E Z J
  unknown_type_tag : ℕ → PayloadError E Z J
  truncated_zstd_payload : ℕ → PayloadError E Z J
  dict_not_found : ℕ → PayloadError E Z J
  zstd_error : Z → PayloadError E Z J
  decompressed_too_large : ℕ → PayloadError E Z J
  json_decode : J → PayloadError E Z J

abbrev pub or_err {ℓ} : {E A : Type ℓ} → Option A → E → Result E A
or_err none e = err e
or_err (some a) e = ok a

module _ (h : Heed) (c : Codecs) where
  open h use {Error, Env, Txn, Db, read_txn, open_db, get}
  open c use {
    JsonError, ZstdError, Dictionary, from_slice, copy, with_prepared_dictionary, decompress,
  }

  abbrev pub Failure : Type 0
  Failure = PayloadError Error ZstdError JsonError

  abbrev pub DictCache : Type 0
  DictCache = List (ℕ × Dictionary)

  unfoldable pub lookup : ℕ → DictCache → Option Dictionary
  lookup dict_id [] = none
  lookup dict_id ((k, dd) ∷ cache) =
      let rest = lookup dict_id cache in if k == dict_id then some dd else rest

  -- `entry(dict_id).or_insert_with(..)`
  unfoldable pub insert_absent : ℕ → Dictionary → DictCache → DictCache
  insert_absent dict_id dd cache = elim (lookup dict_id cache) [
    | none ↦ (dict_id, dd) ∷ cache
    | some old ↦ cache
  ]

  -- `open_event_payload_db` and `open_compression_dictionary_db` are this function at their names.
  unfoldable pub open_named_db : String → Env → Txn → Result Failure Db
  open_named_db name env rtxn = do
    opened ← map_err heed (open_db env rtxn Comparator.integer name)
    or_err opened (sub_db_not_found name)

  -- The slow path of `get_or_load`, before the cache is written.
  unfoldable pub load_dictionary : Env → ℕ → Result Failure Dictionary
  load_dictionary env dict_id = do
    rtxn ← map_err heed (read_txn env)
    dict_db ← open_named_db compression_dictionary_db_name env rtxn
    found ← map_err heed (get dict_db rtxn (to_le_bytes 4 dict_id))
    raw ← or_err found (dict_not_found dict_id)
    ok (copy raw)

  unfoldable pub get_or_load : DictCache → ℕ → Env → Result Failure Dictionary × DictCache
  get_or_load cache dict_id env = elim (lookup dict_id cache) [
    | some dd ↦ (ok dd, cache)
    | none ↦ elim (load_dictionary env dict_id) [
      | ok dd ↦ (ok dd, insert_absent dict_id dd cache)
      | err e ↦ (err e, cache)
    ]
  ]

  unfoldable pub decode_json : Bytes → Result Failure DecodedEvent
  decode_json json_bytes = do
    event ← map_err json_decode (from_slice json_bytes)
    ok (record { event = event; raw_json = json_bytes })

  -- The frame under a dictionary that `get_or_load` gave.
  unfoldable pub decode_frame : Bytes → ℕ → Dictionary → Result Failure DecodedEvent
  decode_frame zstd_frame max_decompressed dd = do
    decompressor ← map_err zstd_error (with_prepared_dictionary dd)
    decompressed ← map_err zstd_error (decompress decompressor zstd_frame max_decompressed)
    decode_json decompressed

  unfoldable pub decode_zstd : Bytes → DictCache → Env → ℕ → Result Failure DecodedEvent × DictCache
  decode_zstd body cache env max_decompressed =
      let (dd, cache') = get_or_load cache (from_le_bytes (take 4 body)) env in
      (dd >>= decode_frame (drop 4 body) max_decompressed, cache')

  unfoldable pub decode_event_payload_with_cache_and_limit :
      Bytes → DictCache → Env → ℕ → Result Failure DecodedEvent × DictCache
  decode_event_payload_with_cache_and_limit [] cache env max_decompressed =
      (err (unknown_type_tag 0), cache)
  decode_event_payload_with_cache_and_limit (tag ∷ body) cache env max_decompressed =
      if tag == payload_tag_raw_json
      then (decode_json body, cache)
      else if tag == payload_tag_zstd_dict
      then (if ltb (length (tag ∷ body)) 5
          then (err (truncated_zstd_payload (length (tag ∷ body))), cache)
          else decode_zstd body cache env max_decompressed)
      else (err (unknown_type_tag tag), cache)

  unfoldable pub decode_event_payload_with_cache :
      Bytes → DictCache → Env → Result Failure DecodedEvent × DictCache
  decode_event_payload_with_cache raw cache env =
      decode_event_payload_with_cache_and_limit raw cache env max_event_decompressed_size

  -- The decoder without a cache knows raw JSON only.
  unfoldable pub decode_event_payload : Bytes → Result Failure DecodedEvent
  decode_event_payload [] = err (unknown_type_tag 0)
  decode_event_payload (tag ∷ body) =
      if tag == payload_tag_raw_json then decode_json body else err (unknown_type_tag tag)

  -- `db.get(..)?.ok_or(LevIdNotFound)`
  unfoldable pub get_payload : Db → Txn → ℕ → Result Failure Bytes
  get_payload db rtxn lev_id = do
    found ← map_err heed (get db rtxn (le8 lev_id))
    or_err found (lev_id_not_found lev_id)

  unfoldable pub get_event_payload : Env → ℕ → Result Failure Bytes
  get_event_payload env lev_id = do
    rtxn ← map_err heed (read_txn env)
    db ← open_named_db event_payload_db_name env rtxn
    get_payload db rtxn lev_id

  -- The loop of `batch_get_event_payloads`.
  unfoldable pub get_payloads : Db → Txn → List ℕ → Result Failure (List (ℕ × Bytes))
  get_payloads db rtxn [] = ok []
  get_payloads db rtxn (lev_id ∷ lev_ids) = do
    raw ← get_payload db rtxn lev_id
    results ← get_payloads db rtxn lev_ids
    ok ((lev_id, raw) ∷ results)

  unfoldable pub batch_get_event_payloads : Env → List ℕ → Result Failure (List (ℕ × Bytes))
  batch_get_event_payloads env lev_ids =
      let run = (do
        rtxn ← map_err heed (read_txn env)
        db ← open_named_db event_payload_db_name env rtxn
        get_payloads db rtxn lev_ids) in
      if is_empty lev_ids then ok [] else run

  -- The event, or none with one more skipped; the levId is only logged.
  unfoldable pub decode_payload_skip_on_error : Bytes → ℕ → ℕ → Option DecodedEvent × ℕ
  decode_payload_skip_on_error raw lev_id skip_count = elim (decode_event_payload raw) [
    | ok decoded ↦ (some decoded, skip_count)
    | err e ↦ (none, skip_count + 1)
  ]
