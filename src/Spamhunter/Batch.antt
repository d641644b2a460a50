-- ===== src/Spamhunter/Batch.antt =====
-- spamhunter/pubkey_iterator/src/run.rs: the part of `run_batch` after the walk, with `stage` as the
-- score of an input. The scores wait in the channel until `close`: by when the writer commits
-- them the tables do not change.
pub mod Scored
pub mod Whole
mod Examples
use deepfry.Base.{ℕ, ◌==◌, Option, none, some, List, [], ◌∷◌, ◌++◌, map, if◌then◌else◌}
use deepfry.Base.Results.{Result, ok, err}
use deepfry.Base.Panics.{Outcome, done, fail, panic}
use deepfry.Base.Ints.{ℤ}
use deepfry.Base.Words.{Bytes}
use deepfry.Spamhunter.Model.{Run, Persist, WriteMsg, score, Tables}
use deepfry.Spamhunter.Store.{StoreError, writer_loop}
use deepfry.Spamhunter.Store.Runs.{mark_run_done, read_pubkeys}
use deepfry.Spamhunter.Client.{ClientError}
use deepfry.Spamhunter.Pipeline.{ScoredInput, Piped, run_pipeline, default_authors_per_call}

pub data RunError : Type 0 where
  client : ClientError → RunError
  store : StoreError → RunError
  missing_run_row : ℕ → RunError

-- `optional().map(Option::flatten)`: none is a row that is missing, or has no number.
unfoldable pub max_lev_end_of : ℕ → List Run → Option ℤ
max_lev_end_of id [] = none
max_lev_end_of id (r ∷ rs) = if r.run_id == id then r.max_lev_id_end else max_lev_end_of id rs

-- What a batch run leaves: the tables, the result, and the world outside.
pub record Batched (F W : Type 0) : Type 0 where
  pub db : Tables F
  pub result : Result RunError ℕ
  pub world : W

module _ {F : Type 0} where
  unfoldable pub read_max_lev_end : ℕ → Tables F → Option ℤ
  read_max_lev_end id db = max_lev_end_of id db.run

  -- The consumer: a score in the channel for each input.
  unfoldable pub consume : (ScoredInput → Persist F) → List ScoredInput → List (WriteMsg F)
  consume stage inputs = map score (map stage inputs)

  -- `store.close()?`
  unfoldable pub after_close :
      {W : Type 0} → ℕ → Tables F × Result StoreError (Unit {0}) → W → Batched F W
  after_close id (db, ok u) w = record { db = db; result = ok id; world = w }
  after_close id (db, err e) w = record { db = db; result = err (store e); world = w }

  -- An early return drops the store, which commits what is in the channel.
  unfoldable pub give_up : {W : Type 0} → RunError → List (WriteMsg F) → Tables F → W → Batched F W
  give_up e queue db w = record { db = (writer_loop queue db).0; result = err e; world = w }

  -- `mark_run_done(...)?`, and then the close.
  unfoldable pub after_mark :
      {W : Type 0}
      → ℕ
      → List (WriteMsg F)
      → Tables F × Result StoreError (Unit {0})
      → W
      → Batched F W
  after_mark id queue (db, ok u) w = after_close id (writer_loop queue db) w
  after_mark id queue (db, err e) w = give_up (store e) queue db w

  -- The end of the run, with the scores in the channel.
  unfoldable pub finish_run : {W : Type 0} → ℕ → ℕ → List (WriteMsg F) → Tables F → W → Batched F W
  finish_run id now queue db w = elim (read_max_lev_end id db) [
    | none ↦ give_up (missing_run_row id) queue db w
    | some v ↦ after_mark id queue (mark_run_done id now v db) w
  ]

  unfoldable pub after_pipeline :
      {W : Type 0} → (ScoredInput → Persist F) → ℕ → ℕ → Tables F → Piped W → Batched F W
  after_pipeline stage id now db p = elim p.result [
    | err e ↦ give_up (client e) (consume stage p.consumed) db p.world
    | ok n ↦ finish_run id now (consume stage p.consumed) db p.world
  ]

  unfoldable pub piped_batch :
      {W : Type 0}
      → (ScoredInput → Persist F)
      → ℕ
      → ℕ
      → Tables F
      → Outcome (Unit {0}) (Piped W)
      → Outcome (Unit {0}) (Batched F W)
  piped_batch stage id now db (done p) = done (after_pipeline stage id now db p)
  piped_batch stage id now db (fail e) = fail e
  piped_batch stage id now db panic = panic

  unfoldable pub score_batch :
      {W : Type 0}
      → (List Bytes → W → Result ClientError (List ScoredInput) × W)
      → (ScoredInput → Persist F)
      → ℕ
      → ℕ
      → Tables F
      → W
      → Outcome (Unit {0}) (Batched F W)
  score_batch fetch stage id now db w =
      piped_batch stage id now db (run_pipeline fetch (read_pubkeys db) default_authors_per_call w)
