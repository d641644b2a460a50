-- ===== src/Spamhunter/Store.antt =====
-- spamhunter/pubkey_iterator/src/store/writer.rs: the statements and the loop of the writer, on
-- the tables of the schema with foreign keys on.
pub mod Runs
pub mod Handle
pub mod Keys
pub mod Batches
use deepfry.Base.{
  ℕ, zero, suc, ◌==◌, ◌&&◌, Bool, Option, none, some, List, [], ◌∷◌, any, take, drop, length,
  bytes_eq, if◌then◌else◌,
}
use deepfry.Base.Results.{Result, ok, err, ◌>>=◌}
use deepfry.Base.Ints.{ℤ, pos, negsuc}
use deepfry.Base.Words.{Bytes}
use deepfry.Spamhunter.Model.{
  Run, Score, SubScore, Fingerprint, Persist, WriteMsg, score, pubkeys, fingerprints, flush, Signal,
  Tables, F64,
}

-- The errors of rusqlite: a foreign key without its row, a NULL in a column NOT NULL, an id that is used up,
-- `QueryReturnedNoRows`, and a failure of the disk or a lock, which no statement here gives itself.
pub data StoreError : Type 0 where
  foreign_key not_null full query_returned_no_rows io : StoreError

-- `INSERT ... ON CONFLICT DO UPDATE`: `conflicts` finds the row with the key, `update` changes it.
unfoldable pub upsert : {A : Type 0} → (A → Bool) → (A → A) → A → List A → List A
upsert conflicts update new [] = new ∷ []
upsert conflicts update new (row ∷ rows) =
    let rest = upsert conflicts update new rows in
    if conflicts row then update row ∷ rows else row ∷ rest

unfoldable pub int_eq : ℤ → ℤ → Bool
int_eq (pos m) (pos n) = m == n
int_eq (pos m) (negsuc n) = 0 == 1
int_eq (negsuc m) (pos n) = 0 == 1
int_eq (negsuc m) (negsuc n) = m == n

unfoldable pub batch_size : ℕ
batch_size = 8192

-- The statement binds no `minhash`: a new row has none, an old one keeps its own.
unfoldable pub fingerprint_row : Fingerprint → Fingerprint
fingerprint_row fp = record fp { minhash = none }

unfoldable pub same_fingerprint : Fingerprint → Fingerprint → Bool
same_fingerprint fp row =
    row.run_id == fp.run_id
    && bytes_eq row.pubkey fp.pubkey
    && int_eq row.content_hash fp.content_hash

unfoldable pub update_fingerprint : Fingerprint → Fingerprint → Fingerprint
update_fingerprint fp row = record row { simhash = fp.simhash }

module _ {F : Type 0} where
  unfoldable pub has_run : ℕ → Tables F → Bool
  has_run id db = any (λ r. r.run_id == id) db.run

  unfoldable pub has_pubkey : Bytes → Tables F → Bool
  has_pubkey pk db = any (bytes_eq pk) db.pubkey

  -- The foreign keys of `score`, `signal` and `fingerprint`.
  unfoldable pub has_targets : ℕ → Bytes → Tables F → Bool
  has_targets id pk db = has_run id db && has_pubkey pk db

  unfoldable pub upsert_pubkey : Bytes → Tables F → Tables F
  upsert_pubkey pk db = record db { pubkey = upsert (bytes_eq pk) (λ row. row) pk db.pubkey }

  -- The columns `score` and `value` are REAL NOT NULL.
  unfoldable pub with_real :
      F64 F → (F → Result StoreError (Tables F)) → Result StoreError (Tables F)
  with_real none statement = err not_null
  with_real (some x) statement = statement x

  unfoldable pub score_row : Persist F → F → Score F
  score_row p x = record {
    run_id = p.run_id;
    pubkey = p.pubkey;
    score = x;
    whitelisted = p.whitelisted;
    suspected = p.suspected;
  }

  unfoldable pub same_score : Persist F → Score F → Bool
  same_score p row = row.run_id == p.run_id && bytes_eq row.pubkey p.pubkey

  unfoldable pub update_score : Persist F → F → Score F → Score F
  update_score p x row = record row {
    score = x;
    whitelisted = p.whitelisted;
    suspected = p.suspected;
  }

  unfoldable pub upsert_score : Persist F → Tables F → Result StoreError (Tables F)
  upsert_score p db = with_real p.score λ x.
      if has_targets p.run_id p.pubkey db
      then ok
          (record db { score = upsert (same_score p) (update_score p x) (score_row p x) db.score })
      else err foreign_key

  unfoldable pub signal_row : Persist F → SubScore F → F → Signal F
  signal_row p s x = record {
    run_id = p.run_id;
    pubkey = p.pubkey;
    layer = s.layer;
    value = x;
    evidence = s.evidence;
  }

  unfoldable pub same_signal : Persist F → SubScore F → Signal F → Bool
  same_signal p s row =
      row.run_id == p.run_id && bytes_eq row.pubkey p.pubkey && bytes_eq row.layer s.layer

  unfoldable pub update_signal : SubScore F → F → Signal F → Signal F
  update_signal s x row = record row { value = x; evidence = s.evidence }

  unfoldable pub upsert_signal : Persist F → SubScore F → Tables F → Result StoreError (Tables F)
  upsert_signal p s db = with_real s.value λ x.
      if has_targets p.run_id p.pubkey db
      then ok (record db {
        signal = upsert (same_signal p s) (update_signal s x) (signal_row p s x) db.signal;
      })
      else err foreign_key

  unfoldable pub upsert_fingerprint : Fingerprint → Tables F → Result StoreError (Tables F)
  upsert_fingerprint fp db =
      if has_targets fp.run_id fp.pubkey db
      then ok (record db {
        fingerprint =
            upsert (same_fingerprint fp) (update_fingerprint fp) (fingerprint_row fp)
              db.fingerprint;
      })
      else err foreign_key

  unfoldable pub write_signals :
      Persist F → List (SubScore F) → Tables F → Result StoreError (Tables F)
  write_signals p [] db = ok db
  write_signals p (s ∷ ss) db = do db' ← upsert_signal p s db; write_signals p ss db'

  unfoldable pub write_pubkeys : List Bytes → Tables F → Tables F
  write_pubkeys [] db = db
  write_pubkeys (pk ∷ pks) db = write_pubkeys pks (upsert_pubkey pk db)

  unfoldable pub write_fingerprints : List Fingerprint → Tables F → Result StoreError (Tables F)
  write_fingerprints [] db = ok db
  write_fingerprints (fp ∷ fps) db = do
    db' ← upsert_fingerprint fp (upsert_pubkey fp.pubkey db)
    write_fingerprints fps db'

  -- The arms of the match on one message.
  unfoldable pub write : WriteMsg F → Tables F → Result StoreError (Tables F)
  write (score p) db = do
    db' ← upsert_score p (upsert_pubkey p.pubkey db)
    write_signals p p.subscores db'
  write (pubkeys pks) db = ok (write_pubkeys pks db)
  write (fingerprints fps) db = write_fingerprints fps db
  write flush db = ok db

  -- One transaction: all messages, or an error and no change.
  unfoldable pub write_all : List (WriteMsg F) → Tables F → Result StoreError (Tables F)
  write_all [] db = ok db
  write_all (msg ∷ msgs) db = write msg db >>= write_all msgs

  -- The loop on a channel that is closed and has `queue` left: a full batch a round. What it
  -- leaves is what was committed, also where it ends with an error. One round a message is enough.
  unfoldable pub drain : ℕ → List (WriteMsg F) → Tables F → Tables F × Result StoreError (Unit {0})
  drain zero queue db = (db, ok tt)
  drain (suc fuel) [] db = (db, ok tt)
  drain (suc fuel) (first ∷ queue) db =
      let buf = take batch_size (first ∷ queue) in
      elim (write_all buf db) [
        | ok db' ↦ drain fuel (drop batch_size (first ∷ queue)) db'
        | err e ↦ (db, err e)
      ]

  unfoldable pub writer_loop :
      List (WriteMsg F) → Tables F → Tables F × Result StoreError (Unit {0})
  writer_loop queue db = drain (length queue) queue db
