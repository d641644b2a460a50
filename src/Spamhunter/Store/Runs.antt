-- ===== src/Spamhunter/Store/Runs.antt =====
-- spamhunter/pubkey_iterator/src/store/mod.rs: the operations on the rows of `run`, each one
-- statement on a connection of its own; the clock is read by the caller. store/queries.rs: the
-- reads of the other tables.
use text.Mathlib.Text.{◌==◌ as str_eq}
use deepfry.Base.{
  ℕ, ◌+◌, ◌==◌, ltb, leb, true, false, Bool, Option, none, some, List, [], ◌∷◌, ◌++◌, map, length,
  keep_if, bytes_eq, if◌then◌else◌,
}
use deepfry.Base.Results.{Result, ok, err}
use deepfry.Base.Ints.{ℤ, pos, negsuc, i64_max}
use deepfry.Base.Words.{Bytes}
use deepfry.Query.Router.{key_leb, sort_keys}
use deepfry.Spamhunter.Model.{Run, Fingerprint, Tables}
use deepfry.Spamhunter.Store.{StoreError, full, query_returned_no_rows}

-- The row that `begin_run` inserts, at the time `now`.
unfoldable pub new_run : ℕ → ℕ → Bytes → Run
new_run id now config_json = record {
  run_id = id;
  started_at = now;
  finished_at = none;
  max_lev_id_start = none;
  max_lev_id_end = none;
  last_cursor = none;
  config_json = config_json;
  status = "running";
}

-- `WHERE status != 'done' ORDER BY run_id DESC LIMIT 1`
unfoldable pub latest : List Run → Option Run
latest [] = none
latest (r ∷ rs) =
    let rest = latest rs in
    if str_eq r.status "done"
    then rest
    else elim rest [ none ↦ some r | some q ↦ if ltb q.run_id r.run_id then some r else some q ]

-- `UPDATE run SET ... WHERE run_id = ?1` on one row.
unfoldable pub update_row : ℕ → (Run → Run) → Run → Run
update_row id change r = if r.run_id == id then change r else r

module _ {F : Type 0} where
  unfoldable pub begin_run : ℕ → Bytes → Tables F → Result StoreError (ℕ × Tables F)
  begin_run now config_json db =
      if db.sequence == i64_max
      then err full
      else ok (
        db.sequence + 1,
        record db {
          sequence = db.sequence + 1;
          run = db.run ++ (new_run (db.sequence + 1) now config_json ∷ []);
        },
      )

  unfoldable pub latest_unfinished_run : Tables F → Option Run
  latest_unfinished_run db = latest db.run

  unfoldable pub update_run : ℕ → (Run → Run) → Tables F → Tables F
  update_run id change db = record db { run = map (update_row id change) db.run }

  unfoldable pub set_run_cursor : ℕ → Bytes → Tables F → Tables F
  set_run_cursor id cursor = update_run id (λ r. record r { last_cursor = some cursor })

  unfoldable pub set_run_max_lev_start : ℕ → ℤ → Tables F → Tables F
  set_run_max_lev_start id v = update_run id (λ r. record r { max_lev_id_start = some v })

  unfoldable pub set_run_config_json : ℕ → Bytes → Tables F → Tables F
  set_run_config_json id config = update_run id (λ r. record r { config_json = config })

  unfoldable pub set_run_max_lev_end : ℕ → ℤ → Tables F → Tables F
  set_run_max_lev_end id v = update_run id (λ r. record r { max_lev_id_end = some v })

  unfoldable pub mark_run_aborted : ℕ → ℕ → Tables F → Tables F
  mark_run_aborted id now =
      update_run id (λ r. record r { status = "aborted"; finished_at = some now })

  unfoldable pub mark_run_done : ℕ → ℕ → ℤ → Tables F → Tables F × Result StoreError (Unit {0})
  mark_run_done id now v db =
      let rows = length (keep_if (λ r. r.run_id == id) db.run) in
      let db' =
        update_run id
          (λ r. record r { status = "done"; finished_at = some now; max_lev_id_end = some v }) db in
      (db', if rows == 1 then ok tt else err query_returned_no_rows)

  unfoldable pub read_pubkeys : Tables F → List Bytes
  read_pubkeys db = sort_keys db.pubkey

-- `ORDER BY`, for any order.
unfoldable pub insert_row : {A : Type 0} → (A → A → Bool) → A → List A → List A
insert_row before x [] = x ∷ []
insert_row before x (y ∷ ys) =
    let rest = insert_row before x ys in if before x y then x ∷ y ∷ ys else y ∷ rest

unfoldable pub order_by : {A : Type 0} → (A → A → Bool) → List A → List A
order_by before [] = []
order_by before (x ∷ xs) = insert_row before x (order_by before xs)

-- The order of SQLite on `INTEGER`, which is signed.
unfoldable pub int_leb : ℤ → ℤ → Bool
int_leb (pos m) (pos n) = leb m n
int_leb (pos m) (negsuc n) = false
int_leb (negsuc m) (pos n) = true
int_leb (negsuc m) (negsuc n) = leb n m

-- Rows of the key `(a, c)` before rows of `(b, d)`.
unfoldable pub pair_leb : Bytes → Bytes → Bool → Bool
pair_leb a b then_by = if bytes_eq a b then then_by else key_leb a b

module _ {F : Type 0} where
  unfoldable pub read_scores : ℕ → Tables F → List (Bytes × F)
  read_scores id db =
      map (λ s. (s.pubkey, s.score))
        (order_by (λ a b. key_leb a.pubkey b.pubkey) (keep_if (λ s. s.run_id == id) db.score))

  unfoldable pub read_signals : ℕ → Tables F → List (Bytes × Bytes × F)
  read_signals id db =
      map (λ s. (s.pubkey, s.layer, s.value))
        (order_by (λ a b. pair_leb a.pubkey b.pubkey (key_leb a.layer b.layer))
          (keep_if (λ s. s.run_id == id) db.signal))

  unfoldable pub read_fingerprints : ℕ → Tables F → List Fingerprint
  read_fingerprints id db =
      map {A = Fingerprint} (λ fp. record fp { minhash = none })
        (order_by (λ a b. pair_leb a.pubkey b.pubkey (int_leb a.content_hash b.content_hash))
          (keep_if (λ fp. fp.run_id == id) db.fingerprint))
