-- ===== src/Graphql/Stats/Saturation.antt =====
-- The numbers of the statistics never wrap.
use deepfry.Base.{ℕ, ◌<◌, ◌^◌, ◌≡◌, refl, arith, some, min}
use deepfry.Base.Results.{ok}
use deepfry.Base.Ints.{pos, i64_max, saturate_i64}
use deepfry.Base.Words.{Bytes, IsU64, le8, from_le_bytes-le8, length-to_le_bytes}
use deepfry.Lmdb.Heed.{Heed, Comparator}
use deepfry.Lmdb.Payload.{event_payload_db_name}
use deepfry.Graphql.Stats.{as_i32, opened_or_err, max_lev_id_of, read_stats}

saturate_i64_lem : (n : ℕ) → saturate_i64 n ≡ pos (min n i64_max)
unfolding saturate_i64
saturate_i64_lem n = ground arith

as_i32_small : (n : ℕ) → n < 2 ^ 31 → as_i32 n ≡ pos n
unfolding as_i32
as_i32_small n s = ground arith

max_lev_id_of-le8 :
    (E : Type 0) (m : ℕ) (v : Bytes)
    → IsU64 m
    → max_lev_id_of {E = E} (some (le8 m, v)) ≡ ok (pos (min m i64_max))
unfolding max_lev_id_of
max_lev_id_of-le8 E m v u =
    rw (length-to_le_bytes 8 m, from_le_bytes-le8 m u, saturate_i64_lem m) refl

module _ (h : Heed) (env : h.Env) (rtxn : h.Txn) (db : h.Db) (reads : h.read_txn env ≡ ok rtxn)
    (opens : h.open_db env rtxn Comparator.integer event_payload_db_name ≡ ok (some db)) where
  -- Where the payloads can be opened, have n entries and the levId m of 64 bits as last key, the
  -- statistics are these two numbers, each cut at the largest of an i64, and the version, where
  -- it is below 2^31.
  pub read_stats_lem :
      (n m db_version : ℕ) (v pinned : Bytes)
      → h.entries db rtxn ≡ ok n
      → h.last db rtxn ≡ ok (some (le8 m, v))
      → IsU64 m
      → db_version < 2 ^ 31
      → read_stats h env db_version pinned
        ≡ ok (record {
          event_count = pos (min n i64_max);
          max_lev_id = pos (min m i64_max);
          db_version = pos db_version;
          pinned_strfry_version = pinned;
        })
  unfolding read_stats opened_or_err
  read_stats_lem n m db_version v pinned e l u s =
      rw
        (
          reads,
          opens,
          e,
          l,
          max_lev_id_of-le8 h.Error m v u,
          saturate_i64_lem n,
          as_i32_small db_version s,
        )
        refl
