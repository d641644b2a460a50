-- ===== src/Lmdb/Scan.antt =====
-- LMDB2GraphQL/src/lmdb/scan.rs: bounded and windowed scans of an `Event__*` index.
pub mod Bounds
pub mod Window
pub mod Resume
pub mod First
pub mod Examples
use Prim.Native.String.{String}
use deepfry.Base.{
  ℕ, zero, suc, ◌+◌, ◌-◌, Bool, true, false, ◌&&◌, not, ltb, leb, ◌==◌, Option, none, some, List,
  [], ◌∷◌, ◌++◌, length, take, drop, last?, is_empty, bytes_eq, if◌then◌else◌,
}
use deepfry.Base.Results.{Result, ok, err, map_err, ◌>>=◌}
use deepfry.Base.Words.{Bytes, u64_max, le8, from_le_bytes}
use deepfry.Lmdb.Heed.{Heed, Bound, Entry}
use deepfry.Lmdb.Indexes.{IndexError, heed, lev_id_of_value, open_named}

abbrev pub default_window_size : ℕ
default_window_size = 256

pub data ScanDirection : Type 0 where
  forward reverse : ScanDirection

-- The start key with its time raised by one, and whether that was possible.
unfoldable pub reverse_upper_bound : Bytes → Bytes × Bool
reverse_upper_bound start_key =
    let len = length start_key in
    let ts = from_le_bytes (take 8 (drop (len - 8) start_key)) in
    if ltb len 8
    then (start_key, false)
    else if ts == u64_max
    then (start_key, false)
    else (take (len - 8) start_key ++ le8 (ts + 1), true)

-- The upper bound of a reverse walk that begins at `start_key`.
unfoldable pub reverse_start : Bytes → Bound
reverse_start start_key =
    let (rebuilt_key, is_excluded) = reverse_upper_bound start_key in
    if is_excluded then Bound.excluded rebuilt_key else Bound.included start_key

-- `results.last().map(|(k, _)| k) != Some(key)`, on the key of the last result
unfoldable pub is_new_key : Option Bytes → Bytes → Bool
is_new_key none key = true
is_new_key (some k) key = not (bytes_eq k key)

abbrev pub Hit : Type 0
Hit = Bytes × ℕ

-- The key of the last hit, or the given key if there is none.
abbrev pub last_key_or : Bytes → List Hit → Bytes
last_key_or k [] = k
last_key_or k ((key, lev_id) ∷ hits) = last_key_or key hits

-- `all_results.extend(batch)`, before the later windows
abbrev pub prepend :
    {E : Type 0} → List Hit → Option (Result E (List Hit)) → Option (Result E (List Hit))
prepend batch none = none
prepend batch (some (err e)) = some (err e)
prepend batch (some (ok hits)) = some (ok (batch ++ hits))

module _ {E : Type 0} where
  -- The loop of `collect_bounded`, on the items that `take(limit)` leaves.
  unfoldable pub bounded_items : List (Result E Entry) → Result (IndexError E) (List Hit)
  bounded_items [] = ok []
  bounded_items (err e ∷ items) = err (heed e)
  bounded_items (ok (key, value) ∷ items) = do
    rest ← bounded_items items
    ok (elim (lev_id_of_value value) [ none ↦ rest | some lev_id ↦ (key, lev_id) ∷ rest ])

  -- The loop of `collect_window`, with the number of results so far and the key of the last one.
  unfoldable pub window_items :
      ℕ → ℕ → Option Bytes → List (Result E Entry) → Result (IndexError E) (List Hit)
  window_items window_size n last [] = ok []
  window_items window_size n last (err e ∷ items) = err (heed e)
  window_items window_size n last (ok (key, value) ∷ items) = elim (lev_id_of_value value) [
    | none ↦ window_items window_size n last items
    | some lev_id ↦
        let more = (do
          rest ← window_items window_size (n + 1) (some key) items
          ok ((key, lev_id) ∷ rest)) in
        if leb window_size n && is_new_key last key then ok [] else more
  ]

module _ (h : Heed) where
  open h use {Error, Env, Txn, Db, read_txn, range, rev_range}

  -- The iterator of `collect_bounded`, and of the first window of `collect_window`.
  unfoldable pub start_cursor :
      Db → Txn → ScanDirection → Bytes → Result Error (List (Result Error Entry))
  start_cursor db rtxn forward start_key = range db rtxn (Bound.included start_key) Bound.unbounded
  start_cursor db rtxn reverse start_key =
      rev_range db rtxn Bound.unbounded (reverse_start start_key)

  -- The iterator of a resumed window.
  unfoldable pub resume_cursor :
      Db → Txn → ScanDirection → Bytes → Result Error (List (Result Error Entry))
  resume_cursor db rtxn forward key = range db rtxn (Bound.excluded key) Bound.unbounded
  resume_cursor db rtxn reverse key = rev_range db rtxn Bound.unbounded (Bound.excluded key)

  unfoldable pub collect_bounded :
      Db → Txn → ScanDirection → Bytes → ℕ → Result (IndexError Error) (List Hit)
  collect_bounded db rtxn direction start_key limit = do
    items ← map_err heed (start_cursor db rtxn direction start_key)
    bounded_items (take limit items)

  unfoldable pub collect_window :
      Db → Txn → ScanDirection → Bytes → Bool → ℕ → Result (IndexError Error) (List Hit)
  collect_window db rtxn direction resume_key first_batch window_size = do
    items ← map_err heed (
        if first_batch
        then start_cursor db rtxn direction resume_key
        else resume_cursor db rtxn direction resume_key)
    window_items window_size 0 none items

  -- The batch of one window in its own transaction.
  unfoldable pub window_batch :
      Env → String → ScanDirection → Bytes → Bool → ℕ → Result (IndexError Error) (List Hit)
  window_batch env short_name direction resume_key first_batch window_size = do
    rtxn ← map_err heed (read_txn env)
    db ← open_named h env rtxn short_name
    collect_window db rtxn direction resume_key first_batch window_size

  unfoldable pub scan_index_one_window :
      Env
      → String
      → ScanDirection
      → Bytes
      → Bool
      → ℕ
      → Result (IndexError Error) (List Hit × Bytes × Bool)
  scan_index_one_window env short_name direction resume_key first_batch window_size = do
    batch ← window_batch env short_name direction resume_key first_batch window_size
    ok (batch, last_key_or resume_key batch, false)

  -- `loop`, on fuel: `none` means that the fuel ran out.
  unfoldable pub windowed_loop :
      ℕ
      → Env
      → String
      → ScanDirection
      → Bytes
      → Bool
      → ℕ
      → Option (Result (IndexError Error) (List Hit))
  windowed_loop zero env short_name direction resume_key first_batch window_size = none
  windowed_loop (suc fuel) env short_name direction resume_key first_batch window_size =
      elim (window_batch env short_name direction resume_key first_batch window_size) [
        | err e ↦ some (err e)
        | ok [] ↦ some (ok [])
        | ok (hit ∷ batch) ↦ prepend (hit ∷ batch) (
            windowed_loop fuel env short_name direction (last_key_or resume_key (hit ∷ batch)) false
              window_size)
      ]

  unfoldable pub scan_index_windowed :
      ℕ → Env → String → ScanDirection → Bytes → ℕ → Option (Result (IndexError Error) (List Hit))
  scan_index_windowed fuel env short_name direction start_key window_size =
      windowed_loop fuel env short_name direction start_key true window_size

  unfoldable pub scan_index_bounded :
      ℕ → Env → String → ScanDirection → Bytes → ℕ → Option (Result (IndexError Error) (List Hit))
  scan_index_bounded fuel env short_name direction start_key limit =
      if limit == 0
      then scan_index_windowed fuel env short_name direction start_key default_window_size
      else some (do
        rtxn ← map_err heed (read_txn env)
        db ← open_named h env rtxn short_name
        collect_bounded db rtxn direction start_key limit)
