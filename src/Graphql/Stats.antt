-- ===== src/Graphql/Stats.antt =====
-- LMDB2GraphQL/src/graphql/resolvers.rs: read_stats.
pub mod Saturation
use deepfry.Base.{ℕ, ◌-◌, ◌^◌, Option, none, some, ltb, length, ◌==◌, if◌then◌else◌}
use deepfry.Base.Results.{Result, ok, err, map_err, ◌>>=◌}
use deepfry.Base.Ints.{ℤ, pos, negsuc, saturate_i64}
use deepfry.Base.Words.{Bytes, from_le_bytes}
use deepfry.Lmdb.Heed.{Heed, Comparator, Entry}
use deepfry.Lmdb.Indexes.{IndexError, heed, sub_db_not_found, malformed_key}
use deepfry.Lmdb.Payload.{event_payload_db_name}
use deepfry.Graphql.{StatsResult}

-- `u32 as i32`
unfoldable pub as_i32 : ℕ → ℤ
as_i32 n = if ltb (2 ^ 31 - 1) n then negsuc (2 ^ 32 - 1 - n) else pos n

module _ {E : Type 0} where
  -- `ok_or_else` on the opened sub-DB.
  unfoldable pub opened_or_err : {A : Type 0} → Option A → Result (IndexError E) A
  opened_or_err none = err (sub_db_not_found event_payload_db_name)
  opened_or_err (some db) = ok db

  -- The levId of the last entry.
  unfoldable pub max_lev_id_of : Option Entry → Result (IndexError E) ℤ
  max_lev_id_of none = ok (pos 0)
  max_lev_id_of (some (k, v)) =
      if length k == 8
      then ok (saturate_i64 (from_le_bytes k))
      else err (malformed_key event_payload_db_name 8 (length k))

module _ (h : Heed) where
  unfoldable pub read_stats : h.Env → ℕ → Bytes → Result (IndexError h.Error) StatsResult
  read_stats env db_version pinned_strfry_version = do
    rtxn ← map_err heed (h.read_txn env)
    found ← map_err heed (h.open_db env rtxn Comparator.integer event_payload_db_name)
    db ← opened_or_err found
    entries ← map_err heed (h.entries db rtxn)
    last ← map_err heed (h.last db rtxn)
    max_lev_id ← max_lev_id_of last
    ok (record {
      event_count = saturate_i64 entries;
      max_lev_id = max_lev_id;
      db_version = as_i32 db_version;
      pinned_strfry_version = pinned_strfry_version;
    })
