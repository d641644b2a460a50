-- ===== src/Lmdb/Indexes.antt =====
-- LMDB2GraphQL/src/lmdb/indexes.rs: opening the `Event__*` sub-DBs, each with its comparator, and
-- the single-seek helper of the self-check.
use Prim.Native.String.{String, ◌++◌}
use text.Mathlib.Text.{◌==◌ as str_eq}
use deepfry.Base.{ℕ, Option, none, some, ◌||◌, List, [], ◌∷◌, length, take, ltb, if◌then◌else◌}
use deepfry.Base.Results.{Result, ok, err, map_err, ◌>>=◌}
use deepfry.Base.Words.{Bytes, from_le_bytes}
use deepfry.Lmdb.Heed.{Heed, Comparator, Bound, Entry}

pub data IndexError (E : Type 0) : Type 0 where
  heed : E → IndexError E
  sub_db_not_found : String → IndexError E
  malformed_key : String → ℕ → ℕ → IndexError E

abbrev pub rasgueadb_prefix : String
rasgueadb_prefix = "rasgueadb_defaultDb__"

unfoldable pub full_db_name : String → String
full_db_name short_name = rasgueadb_prefix ++ short_name

-- The first 8 bytes of a VALUE as a levId; a shorter VALUE has none and is skipped.
unfoldable pub lev_id_of_value : Bytes → Option ℕ
lev_id_of_value value = if ltb (length value) 8 then none else some (from_le_bytes (take 8 value))

module _ (h : Heed) where
  open h use {Error, Env, Txn, Db, read_txn, open_db, range}

  abbrev found_or : Option Db → String → Result (IndexError Error) Db
  found_or none full = err (sub_db_not_found full)
  found_or (some db) full = ok db

  -- `open_index_string_uint64`, `open_index_uint64_uint64`, `open_index_string_uint64_uint64` and
  -- `open_index_created_at` are this function at their comparators.
  unfoldable pub open_index : Comparator → Env → Txn → String → Result (IndexError Error) Db
  open_index comparator env rtxn short_name = do
    let full = full_db_name short_name
    opened ← map_err heed (open_db env rtxn comparator full)
    found_or opened full

  -- The match on the short name that every scan begins with.
  unfoldable pub open_named : Env → Txn → String → Result (IndexError Error) Db
  open_named env rtxn short_name =
      if str_eq short_name "Event__id"
        || (str_eq short_name "Event__pubkey" || str_eq short_name "Event__tag")
      then open_index Comparator.string_uint64 env rtxn short_name
      else if str_eq short_name "Event__kind"
      then open_index Comparator.uint64_uint64 env rtxn short_name
      else if str_eq short_name "Event__pubkeyKind"
      then open_index Comparator.string_uint64_uint64 env rtxn short_name
      else if str_eq short_name "Event__created_at"
      then open_index Comparator.integer env rtxn "Event__created_at"
      else err (sub_db_not_found short_name)

  -- `collect_lev_ids_dup`, on the items of the iterator
  unfoldable pub collect_lev_ids : List (Result Error Entry) → Result (IndexError Error) (List ℕ)
  collect_lev_ids [] = ok []
  collect_lev_ids (err e ∷ items) = err (heed e)
  collect_lev_ids (ok (key, value) ∷ items) = do
    rest ← collect_lev_ids items
    ok (elim (lev_id_of_value value) [ none ↦ rest | some lev_id ↦ lev_id ∷ rest ])

  -- `db.iter(..)` is the range without bounds.
  unfoldable pub scan_lev_ids_for_index : Env → String → Result (IndexError Error) (List ℕ)
  scan_lev_ids_for_index env short_name = do
    rtxn ← map_err heed (read_txn env)
    db ← open_named env rtxn short_name
    items ← map_err heed (range db rtxn Bound.unbounded Bound.unbounded)
    collect_lev_ids items

  -- The match on the short name of `seek_first_ge_lev_id`, without `Event__created_at`.
  unfoldable pub open_seekable : Env → Txn → String → Result (IndexError Error) Db
  open_seekable env rtxn short_name =
      if str_eq short_name "Event__id"
        || (str_eq short_name "Event__pubkey" || str_eq short_name "Event__tag")
      then open_index Comparator.string_uint64 env rtxn short_name
      else if str_eq short_name "Event__kind"
      then open_index Comparator.uint64_uint64 env rtxn short_name
      else if str_eq short_name "Event__pubkeyKind"
      then open_index Comparator.string_uint64_uint64 env rtxn short_name
      else err (sub_db_not_found short_name)

  -- `seek_range_first_lev_id`, on the items of the range.
  unfoldable pub first_lev_id : List (Result Error Entry) → Result (IndexError Error) (Option ℕ)
  first_lev_id [] = ok none
  first_lev_id (err e ∷ items) = err (heed e)
  first_lev_id (ok (key, value) ∷ items) = ok (lev_id_of_value value)

  unfoldable pub seek_range_first_lev_id : Db → Txn → Bytes → Result (IndexError Error) (Option ℕ)
  seek_range_first_lev_id db rtxn lower_bound_key = do
    items ← map_err heed (range db rtxn (Bound.included lower_bound_key) Bound.unbounded)
    first_lev_id items

  unfoldable pub seek_first_ge_lev_id : Env → String → Bytes → Result (IndexError Error) (Option ℕ)
  seek_first_ge_lev_id env short_name lower_bound_key = do
    rtxn ← map_err heed (read_txn env)
    db ← open_seekable env rtxn short_name
    seek_range_first_lev_id db rtxn lower_bound_key
