-- ===== src/Spamhunter/Enumerate.antt =====
-- spamhunter/pubkey_iterator/src/enumerate.rs: `run`, as a machine that makes one call of the
-- store or of the client a step, beside the writer of the store.
pub mod Steps
pub mod Covers
pub mod Rounds
pub mod Phases
pub mod Begins
pub mod Calls
pub mod Safety
pub mod Ends
pub mod Fresh
use Prim.Native.String.{String}
use text.Mathlib.Text.{◌==◌ as str_eq}
use deepfry.Base.{
  ℕ, ◌+◌, ◌==◌, ◌&&◌, ◌||◌, leb, Bool, true, false, Option, none, some, is_some, List, [], ◌∷◌,
  length, all, keep_if, if◌then◌else◌,
}
use deepfry.Base.Results.{Result, ok, err}
use deepfry.Base.Ints.{ℤ}
use deepfry.Base.Words.{Bytes}
use deepfry.Spamhunter.Model.{Run, Tables}
use deepfry.Spamhunter.Store.{StoreError}
use deepfry.Spamhunter.Store.Runs.{
  begin_run, latest_unfinished_run, set_run_cursor, set_run_max_lev_start, set_run_config_json,
  set_run_max_lev_end, mark_run_aborted,
}
use deepfry.Spamhunter.Store.Handle.{Store, open_store, insert_pubkeys, send_flush, flush_returns}
use deepfry.Spamhunter.Client.{
  ClientError, unavailable, payload_too_large, transport, graphql, AuthorsPage, StatsResult, Http,
  authors, stats,
}
use deepfry.Spamhunter.Retry.{Attempted, retry}

unfoldable pub limit_per_page : ℕ
limit_per_page = 500

pub data EnumerateError : Type 0 where
  client : ClientError → EnumerateError
  store : StoreError → EnumerateError

unfoldable pub is_hex_digit : ℕ → Bool
is_hex_digit b = (leb 48 b && leb b 57) || (leb 97 b && leb b 102)

unfoldable pub is_valid_pubkey : Bytes → Bool
is_valid_pubkey pk = length pk == 64 && all is_hex_digit pk

unfoldable pub valid_authors : AuthorsPage → List Bytes
valid_authors page = keep_if is_valid_pubkey page.authors

-- The variables of `run` that live through the loop.
pub record Walk : Type 0 where
  pub run_id : ℕ
  pub after : Option Bytes
  pub count : ℕ

-- The call that comes next, with what it is given. A flush is a send and a wait.
pub data Phase : Type 0 where
  choose_run : Phase
  refresh_config : Run → Phase
  probe_start : Walk → (existing_start : Option ℤ) → Phase
  store_start : Walk → ℤ → Phase
  fetch_page : Walk → Phase
  abort_run : Walk → ClientError → Phase
  enqueue_page : Walk → AuthorsPage → Phase
  flush_page : Walk → Bytes → Phase
  await_page : Walk → Bytes → Phase
  save_cursor : Walk → Bytes → Phase
  flush_last : Walk → Phase
  await_last : Walk → Phase
  probe_end : Walk → Phase
  store_end : Walk → ℤ → Phase
  returned : Result EnumerateError ℕ → Phase
  panicked : Phase

-- The arguments of `run` that are plain values, and the time, which is read twice at most.
pub record Options : Type 0 where
  pub resume : Bool
  pub config_json : Bytes
  pub limit : Option ℕ
  pub now : ℕ

-- What the machine holds: the arguments, the phase, the store and the world outside.
pub record State (F W : Type 0) : Type 0 where
  pub options : Options
  pub phase : Phase
  pub store : Store F
  pub world : W

-- A new walk: no cursor, nothing counted.
unfoldable pub start_walk : ℕ → Option Bytes → Walk
start_walk id after = record { run_id = id; after = after; count = 0 }

-- The guard of the restart at page 1.
unfoldable pub is_restart : ClientError → Option Bytes → Bool
is_restart unavailable after = false
is_restart payload_too_large after = false
is_restart transport after = false
is_restart (graphql none message) after = false
is_restart (graphql (some code) message) after = str_eq code "INVALID_CURSOR" && is_some after

-- The match on the answer of a page.
unfoldable pub after_fetch : Walk → Result ClientError AuthorsPage → Phase
after_fetch w (ok page) = enqueue_page w page
after_fetch w (err e) =
    if is_restart e w.after then fetch_page (record w { after = none }) else abort_run w e

-- The match on the end cursor, with the page in the channel.
unfoldable pub after_enqueue : Walk → Option Bytes → Phase
after_enqueue w none = flush_last w
after_enqueue w (some c) = flush_page w c

-- The test of the limit, with the cursor stored.
unfoldable pub after_save : Option ℕ → Walk → Phase
after_save none w = fetch_page w
after_save (some lim) w = if leb lim w.count then flush_last w else fetch_page w

unfoldable pub after_probe_start : Walk → Option ℤ → Result ClientError StatsResult → Phase
after_probe_start w existing (err e) = returned (err (client e))
after_probe_start w existing (ok s) =
    if is_some existing then fetch_page w else store_start w s.max_lev_id

unfoldable pub after_probe_end : Walk → Result ClientError StatsResult → Phase
after_probe_end w (err e) = returned (err (client e))
after_probe_end w (ok s) = store_end w s.max_lev_id

module _ {F W : Type 0} where
  -- The machine before the first call of `run`, on a store that was opened on `db`.
  unfoldable pub launch : Options → Tables F → W → State F W
  launch o db w = record { options = o; phase = choose_run; store = open_store db; world = w }

  -- A statement of its own connection, and the phase after it.
  unfoldable pub with_db : Phase → (Tables F → Tables F) → State F W → State F W
  with_db next change s = record s {
    phase = next;
    store = record (s.store) { db = change s.store.db };
  }

  unfoldable pub begun : Result StoreError (ℕ × Tables F) → State F W → State F W
  begun (ok (id, db')) s = with_db (probe_start (start_walk id none) none) (λ db. db') s
  begun (err e) s = record s { phase = returned (err (store e)) }

  unfoldable pub begin : State F W → State F W
  begin s = begun (begin_run s.options.now s.options.config_json s.store.db) s

  unfoldable pub resumed : Option Run → State F W → State F W
  resumed none s = begin s
  resumed (some r) s = record s { phase = refresh_config r }

  -- The choice of the run.
  unfoldable pub choose : State F W → State F W
  choose s = if s.options.resume then resumed (latest_unfinished_run s.store.db) s else begin s

  -- `insert_pubkeys` has returned, or has panicked since the writer is gone.
  unfoldable pub enqueued : Phase → Option (Store F) → State F W → State F W
  enqueued next none s = record s { phase = panicked }
  enqueued next (some store') s = record s { phase = next; store = store' }

  unfoldable pub enqueue : Walk → AuthorsPage → State F W → State F W
  enqueue w page s =
      let pks = valid_authors page in
      enqueued (after_enqueue (record w { count = w.count + length pks }) page.end_cursor)
        (insert_pubkeys pks s.store) s

  unfoldable pub flushing : Phase → State F W → State F W
  flushing next s = record s { phase = next; store = send_flush s.store }

  -- A machine that waits stays as it is.
  unfoldable pub wait : Phase → State F W → State F W
  wait next s = if flush_returns s.store then record s { phase = next } else s

module _ {F : Type 0} (h : Http) where
  unfoldable pub fetch : Walk → State F h.World → State F h.World
  fetch w s =
      let got = retry (authors h w.after limit_per_page) s.world in
      record s { phase = after_fetch w got.answer; world = got.world }

  unfoldable pub probe :
      (Result ClientError StatsResult → Phase) → State F h.World → State F h.World
  probe next s =
      let got = retry (stats h) s.world in record s { phase = next got.answer; world = got.world }

  -- The call of a phase.
  unfoldable pub step_at : Phase → State F h.World → State F h.World
  step_at choose_run s = choose s
  step_at (refresh_config r) s =
      with_db (probe_start (start_walk r.run_id r.last_cursor) r.max_lev_id_start)
        (set_run_config_json r.run_id s.options.config_json) s
  step_at (probe_start w existing) s = probe (after_probe_start w existing) s
  step_at (store_start w v) s = with_db (fetch_page w) (set_run_max_lev_start w.run_id v) s
  step_at (fetch_page w) s = fetch w s
  step_at (abort_run w e) s =
      with_db (returned (err (client e))) (mark_run_aborted w.run_id s.options.now) s
  step_at (enqueue_page w page) s = enqueue w page s
  step_at (flush_page w c) s = flushing (await_page w c) s
  step_at (await_page w c) s = wait (save_cursor w c) s
  step_at (save_cursor w c) s =
      with_db (after_save s.options.limit (record w { after = some c })) (set_run_cursor w.run_id c)
        s
  step_at (flush_last w) s = flushing (await_last w) s
  step_at (await_last w) s = wait (probe_end w) s
  step_at (probe_end w) s = probe (after_probe_end w) s
  step_at (store_end w v) s = with_db (returned (ok w.run_id)) (set_run_max_lev_end w.run_id v) s
  step_at (returned r) s = s
  step_at panicked s = s

  unfoldable pub step : State F h.World → State F h.World
  step s = step_at s.phase s
