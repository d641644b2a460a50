-- ===== src/Spamhunter/Batch/Whole.antt =====
-- The batch run as a whole: fetch, score, mark, close.
use mathlib.Core.Path.{subst}
use deepfry.Base.{
  ℕ, ◌==◌, ◌≡◌, ◌∙◌, ap, refl, sym, arith, ◌&&◌, true, some, List, [], ◌∷◌, map, length, any,
  keep_if, All, All-imp, All-map, if◌then◌else◌,
}
use deepfry.Base.Results.{Result, ok, err}
use deepfry.Base.Panics.{done}
use deepfry.Base.Ints.{ℤ}
use deepfry.Base.Words.{Bytes}
use deepfry.Spamhunter.Model.{Run, Persist, WriteMsg, score, Tables}
use deepfry.Spamhunter.Store.{
  StoreError, query_returned_no_rows, has_run, has_pubkey, has_targets, writer_loop,
}
use deepfry.Spamhunter.Store.Keys.{IsConsistent, HasNumbers, IsWritable}
use deepfry.Spamhunter.Store.Runs.{update_row, update_run, mark_run_done, read_pubkeys}
use deepfry.Spamhunter.Client.{Event, Http}
use deepfry.Spamhunter.Fetch.Matching.{Distinct}
use deepfry.Spamhunter.Fetch.Splitting.{HasCapacity}
use deepfry.Spamhunter.Whitelist.{Whitelist}
use deepfry.Spamhunter.Pipeline.{
  ScoredInput, Piped, Clients, default_authors_per_call, production_fetch_with_whitelist,
}
use deepfry.Spamhunter.Pipeline.Complete.{view, with_events, run_pipeline-Complete}
use deepfry.Spamhunter.Detect.{Floats, ScoringStage, score_pubkey}
use deepfry.Spamhunter.Batch.{
  client, max_lev_end_of, read_max_lev_end, Batched, consume, after_close, give_up, after_mark,
  finish_run, after_pipeline, piped_batch, score_batch,
}
use deepfry.Spamhunter.Batch.Scored.{has_score, writer_loop-AllScores}

any-update_row :
    (id other : ℕ) (change : Run → Run) (rows : List Run)
    → ((r : Run) → (change r).run_id ≡ r.run_id)
    → any (λ r. r.run_id == other) (map (update_row id change) rows)
      ≡ any (λ r. r.run_id == other) rows
unfolding update_row
any-update_row id other change [] keep = refl
any-update_row id other change (r ∷ rs) keep =
    ground (arith, keep r, any-update_row id other change rs keep)

max_lev_end_of-has_run :
    (id : ℕ) (rows : List Run) (v : ℤ)
    → max_lev_end_of id rows ≡ some v
    → any (λ r. r.run_id == id) rows ≡ true
unfolding max_lev_end_of
max_lev_end_of-has_run id [] v e = cc
max_lev_end_of-has_run id (r ∷ rs) v e = ground (arith, max_lev_end_of-has_run id rs v)

abbrev marked : ℕ → ℤ → Run → Run
marked now v r = record r { status = "done"; finished_at = some now; max_lev_id_end = some v }

module _ {F : Type 0} where
  has_run-update_run :
      (id other : ℕ) (change : Run → Run) (db : Tables F)
      → ((r : Run) → (change r).run_id ≡ r.run_id)
      → has_run other (update_run id change db) ≡ has_run other db
  unfolding has_run update_run
  has_run-update_run id other change db keep = any-update_row id other change db.run keep

  update_run-IsConsistent :
      (id : ℕ) (change : Run → Run) (db : Tables F)
      → ((r : Run) → (change r).run_id ≡ r.run_id)
      → IsConsistent db
      → IsConsistent (update_run id change db)
  unfolding has_targets update_run has_pubkey
  update_run-IsConsistent id change db keep c =
      let same : (other : ℕ) (pk : Bytes)
          → has_targets other pk db ≡ true
          → has_targets other pk (update_run id change db) ≡ true =
        λ other pk h.
          ap (λ b. b && has_pubkey pk db) (has_run-update_run id other change db keep) ∙ h in
      record {
        scores = All-imp (λ row. same row.run_id row.pubkey) db.score c.scores;
        signals = All-imp (λ row. same row.run_id row.pubkey) db.signal c.signals;
        prints = All-imp (λ row. same row.run_id row.pubkey) db.fingerprint c.prints;
      }

  after_close_fine :
      {W : Type 0} (id : ℕ) (r : Tables F × Result StoreError (Unit {0})) (w : W)
      → r.1 ≡ ok tt
      → ((after_close id r w).result ≡ ok id) × ((after_close id r w).db ≡ r.0)
  unfolding after_close
  after_close_fine id (db, ok u) w e = (refl, refl)
  after_close_fine id (db, err x) w e = cc

  mark_run_done_once :
      (id now : ℕ) (v : ℤ) (db : Tables F)
      → length (keep_if (λ r. r.run_id == id) db.run) ≡ 1
      → mark_run_done id now v db ≡ (update_run id (marked now v) db, ok tt)
  unfolding mark_run_done
  mark_run_done_once id now v db one =
      ap
        (λ n.
          (update_run id (marked now v) db, if n == 1 then ok tt else err query_returned_no_rows))
        one

  finish_run_once :
      {W : Type 0} (id now : ℕ) (queue : List (WriteMsg F)) (db : Tables F) (w : W) (v : ℤ)
      → read_max_lev_end id db ≡ some v
      → length (keep_if (λ r. r.run_id == id) db.run) ≡ 1
      → finish_run id now queue db w
        ≡ after_close id (writer_loop queue (update_run id (marked now v) db)) w
  unfolding finish_run after_mark
  finish_run_once id now queue db w v e one =
      rw (finish_run, e, mark_run_done_once id now v db one) refl

  -- Marking and closing, with scores of this run in the channel.
  abbrev IsScored : ℕ → List (Persist F) → {W : Type 0} → Batched F W → Type 0
  IsScored id ps b = (b.result ≡ ok id) × All (λ p. has_score p.run_id p.pubkey b.db ≡ true) ps

  finish_run-IsScored :
      {W : Type 0} (id now : ℕ) (ps : List (Persist F)) (db : Tables F) (w : W) (v : ℤ)
      → IsConsistent db
      → read_max_lev_end id db ≡ some v
      → length (keep_if (λ r. r.run_id == id) db.run) ≡ 1
      → All (λ p. (p.run_id ≡ id) × HasNumbers p) ps
      → IsScored id ps (finish_run id now (map score ps) db w)
  unfolding read_max_lev_end has_run
  finish_run-IsScored id now ps db w v c e one same =
      let db1 = update_run id (marked now v) db in
      let there : has_run id db1 ≡ true =
        has_run-update_run id id (marked now v) db (λ r. refl)
        ∙ max_lev_end_of-has_run id db.run v e in
      let (fine, all) =
        writer_loop-AllScores ps db1 (update_run-IsConsistent id (marked now v) db (λ r. refl) c) (
          All-map score (λ msg. IsWritable msg db1) ps
            (All-imp (λ p q. (subst (λ i. has_run i db1 ≡ true) (sym q.0) there, q.1)) ps same)) in
      let (result, tables) = after_close_fine id (writer_loop (map score ps) db1) w fine in
      subst (IsScored id ps) (sym (finish_run_once id now (map score ps) db w v e one))
        (result, subst (λ d. All (λ p. has_score p.run_id p.pubkey d ≡ true) ps) (sym tables) all)

  after_pipeline_fine :
      {W : Type 0} (stage : ScoredInput → Persist F) (id now n : ℕ) (db : Tables F) (p : Piped W)
      → p.result ≡ ok n
      → after_pipeline stage id now db p ≡ finish_run id now (consume stage p.consumed) db p.world
  unfolding after_pipeline
  after_pipeline_fine stage id now n db p e =
      ap
        (λ r. elim r [
          | err x ↦ give_up (client x) (consume stage p.consumed) db p.world
          | ok m ↦ finish_run id now (consume stage p.consumed) db p.world
        ])
        e

-- The inputs by their pubkeys.
module _ (f : Floats) (stage : ScoringStage f.F) (id : ℕ) where
  abbrev pub scored : ScoredInput → Persist f.F
  scored i = score_pubkey f stage id i.group.author i.group.events i.whitelisted

  runs_of :
      (inputs : List ScoredInput)
      → ((i : ScoredInput) → HasNumbers (scored i))
      → All (λ p. (p.run_id ≡ id) × HasNumbers p) (map scored inputs)
  unfolding score_pubkey
  runs_of [] n = tt
  runs_of (i ∷ is) n = ((refl, n i), runs_of is n)

  by_view :
      (inputs : List ScoredInput) (db : Tables f.F)
      → All (λ p. has_score p.run_id p.pubkey db ≡ true) (map scored inputs)
      → All (λ m. has_score id m.0 db ≡ true) (map view inputs)
  unfolding score_pubkey
  by_view [] db a = tt
  by_view (i ∷ is) db a = (a.0, by_view is db a.1)

  by_pubkey :
      (events_of : Bytes → List Event) (pks : List Bytes) (db : Tables f.F)
      → All (λ m. has_score id m.0 db ≡ true) (with_events events_of pks)
      → All (λ pk. has_score id pk db ≡ true) pks
  by_pubkey events_of [] db a = tt
  by_pubkey events_of (pk ∷ pks) db a = (a.0, by_pubkey events_of pks db a.1)

module _ (h : Http) (l : Whitelist) (kind per_author : ℤ) (events_of : Bytes → List Event)
    (server : HasCapacity h kind per_author events_of default_authors_per_call) (f : Floats)
    (stage : ScoringStage f.F) where
  -- On a disk that does not fail, a batch run after its walk succeeds and leaves a score of this
  -- run for every pubkey of the table, whatever the whitelist says. The adapter answers every
  -- batch of at most DEFAULT_AUTHORS_PER_CALL = 50 authors or refuses it as too large, which it
  -- does not do to a single author; no score or sub-score is NaN; the run has one row, with the
  -- number of its end, the pubkeys are listed once, and every row has its run and pubkey at the
  -- start.
  pub score_batch-Scored :
      (id now : ℕ) (v : ℤ) (db : Tables f.F) (c : Clients h.World l.World)
      → IsConsistent db
      → Distinct (read_pubkeys db)
      → read_max_lev_end id db ≡ some v
      → length (keep_if (λ r. r.run_id == id) db.run) ≡ 1
      → ((i : ScoredInput) → HasNumbers (scored f stage id i))
      → (b : Batched f.F (Clients h.World l.World)) × (score_batch
            (production_fetch_with_whitelist h l kind per_author)
            (scored f stage id)
            id
            now
            db
            c
          ≡ done b)
        × (b.result ≡ ok id)
        × All (λ pk. has_score id pk b.db ≡ true) (read_pubkeys db)
  unfolding score_batch piped_batch consume default_authors_per_call
  score_batch-Scored id now v db c k d e one numbers =
      let (p, runs, views, fine) =
        run_pipeline-Complete h l kind per_author events_of default_authors_per_call server
          (read_pubkeys db) default_authors_per_call c d (omega arith) (omega arith) in
      let ps = map (scored f stage id) p.consumed in
      let (result, all) =
        finish_run-IsScored id now ps db p.world v k e one
          (runs_of f stage id p.consumed numbers) in
      let end : Tables f.F = (finish_run id now (map score ps) db p.world).db in
      (
        finish_run id now (map score ps) db p.world,
        ap (piped_batch (scored f stage id) id now db) runs
            ∙ ap done (after_pipeline_fine (scored f stage id) id now 0 db p fine),
        result,
        by_pubkey f stage id events_of (read_pubkeys db) end (
            subst (All (λ m. has_score id m.0 end ≡ true)) views
              (by_view f stage id p.consumed end all)),
      )
