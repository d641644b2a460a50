-- ===== src/Spamhunter/Enumerate/Fresh.antt =====
-- A walk that starts anew comes to its end with the whole listing stored.
use deepfry.Base.{
  ℕ, zero, suc, ◌+◌, ◌<◌, ◌≡◌, ◌∙◌, ap, refl, arith, false, Option, none, some, of_both,
}
use deepfry.Base.Results.{Result, ok, err}
use deepfry.Base.Ints.{i64_max}
use deepfry.Base.Words.{Bytes}
use deepfry.Spamhunter.Model.{Run, Tables}
use deepfry.Spamhunter.Store.{StoreError}
use deepfry.Spamhunter.Store.Runs.{begin_run}
use deepfry.Spamhunter.Store.Handle.{Store, open_store, flush_returns}
use deepfry.Spamhunter.Client.{Http, stats}
use deepfry.Spamhunter.Enumerate.{
  Phase, choose_run, refresh_config, probe_start, store_start, fetch_page, abort_run, enqueue_page,
  flush_page, await_page, save_cursor, flush_last, await_last, probe_end, store_end, returned,
  panicked, Options, State, start_walk, after_probe_start, launch, with_db, begun, begin, resumed,
  choose, enqueued, enqueue, flushing, wait, fetch, probe, step_at, step,
}
use deepfry.Spamhunter.Enumerate.Steps.{Reach, here, steps, commits}
use deepfry.Spamhunter.Enumerate.Covers.{Covers}
use deepfry.Spamhunter.Enumerate.Phases.{IsSafe, IsSound}
use deepfry.Spamhunter.Enumerate.Calls.{IsConsecutive}
use deepfry.Spamhunter.Store.{batch_size}
use deepfry.Spamhunter.Enumerate.Safety.{launch-IsSound, Reach-Covers}
use deepfry.Spamhunter.Enumerate.Ends.{
  HasPages, HasStats, retry_first, beat, beats, beat-phase, Ends, later, fetch_page-Ends,
  twice_later, beat-IsSound, twice-IsSound,
}

module _ {F W : Type 0} (s : State F W) where
  begun-options : (r : Result StoreError (ℕ × Tables F)) → (begun r s).options ≡ s.options
  unfolding begun with_db
  begun-options (ok x) = refl
  begun-options (err e) = refl

  resumed-options : (r : Option Run) → (resumed r s).options ≡ s.options
  unfolding resumed begin
  resumed-options none = begun-options _
  resumed-options (some r) = refl

  choose-options : (choose s).options ≡ s.options
  unfolding choose begin
  choose-options =
      of_both (λ (t : State F W). t.options ≡ s.options) s.options.resume _ _ (resumed-options _)
        (begun-options _)

  enqueued-options : (next : Phase) (r : Option (Store F)) → (enqueued next r s).options ≡ s.options
  unfolding enqueued
  enqueued-options next none = refl
  enqueued-options next (some st) = refl

  wait-options : (next : Phase) → (wait next s).options ≡ s.options
  unfolding wait
  wait-options next =
      of_both (λ (t : State F W). t.options ≡ s.options) (flush_returns s.store) _ _ refl refl

module _ {F : Type 0} (h : Http) where
  step_at-options : (ph : Phase) (s : State F h.World) → (step_at h ph s).options ≡ s.options
  unfolding step_at with_db probe fetch flushing enqueue
  step_at-options choose_run s = choose-options s
  step_at-options (refresh_config r) s = refl
  step_at-options (probe_start w x) s = refl
  step_at-options (store_start w v) s = refl
  step_at-options (fetch_page w) s = refl
  step_at-options (abort_run w e) s = refl
  step_at-options (enqueue_page w page) s = enqueued-options s _ _
  step_at-options (flush_page w c) s = refl
  step_at-options (await_page w c) s = wait-options s _
  step_at-options (save_cursor w c) s = refl
  step_at-options (flush_last w) s = refl
  step_at-options (await_last w) s = wait-options s _
  step_at-options (probe_end w) s = refl
  step_at-options (store_end w v) s = refl
  step_at-options (returned r) s = refl
  step_at-options panicked s = refl

  beats-options : (k : ℕ) (s : State F h.World) → (beats h k s).options ≡ s.options
  unfolding beats beat step
  beats-options zero s = refl
  beats-options (suc k) s = beats-options k (beat h s) ∙ step_at-options s.phase s

  pub beats-Reach : (k : ℕ) {s0 s : State F h.World} → Reach h s0 s → Reach h s0 (beats h k s)
  unfolding beats beat
  beats-Reach zero r = r
  beats-Reach (suc k) r = beats-Reach k (commits batch_size (omega arith) (steps r))

module _ {F : Type 0} (h : Http) (Before : Bytes → Bytes → Type 0) (Listed : Bytes → Type 0)
    (consecutive : IsConsecutive h Before Listed) (told : HasStats h) where
  choose-phase :
      (o : Options) (db : Tables F) (w : h.World)
      → o.resume ≡ false
      → db.sequence < i64_max
      → (choose (launch o db w)).phase ≡ probe_start (start_walk (db.sequence + 1) none) none
  unfolding choose launch begin begun begin_run with_db open_store
  choose-phase o db w f q = ground arith

  fresh-Ends :
      (o : Options) (db : Tables F) (w : h.World) (n : ℕ)
      → o.resume ≡ false
      → db.sequence < i64_max
      → IsSafe Before Listed db
      → HasPages h none n
      → Ends h (launch o db w)
  unfolding launch step_at probe after_probe_start with_db start_walk
  fresh-Ends o db w n f q a p =
      let id = db.sequence + 1 in
      let s0 = launch o db w in
      let s1 = beat h s0 in
      let s2 = beat h s1 in
      let s3 = beat h s2 in
      let (v, t) = told s1.world in
      let i3 : IsSound Before Listed s3 = twice-IsSound h Before Listed consecutive told s1 (
        beat-IsSound h Before Listed consecutive told s0
          (launch-IsSound h Before Listed consecutive o db w a)) in
      let e1 : s1.phase ≡ probe_start (start_walk id none) none =
        beat-phase h s0 choose_run refl ∙ choose-phase o db w f q in
      let e2 : s2.phase ≡ store_start (start_walk id none) v.max_lev_id =
        beat-phase h s1 (probe_start (start_walk id none) none) e1
        ∙ ap (after_probe_start (start_walk id none) none) (retry_first (stats h) s1.world v t) in
      let e3 : s3.phase ≡ fetch_page (start_walk id none) =
        beat-phase h s2 (store_start (start_walk id none) v.max_lev_id) e2 in
      later h s0 (
        twice_later h Before Listed consecutive told s1
          (fetch_page-Ends h Before Listed consecutive told n s3 (start_walk id none) i3 e3 p))

  -- A new walk without a limit, beside a writer that commits, comes to its end and returns an id,
  -- with every well-formed pubkey of the listing durable. The adapter answers its statistics and
  -- finitely many pages that follow each other, an id is left, and the stored cursors were
  -- covered at the start.
  pub walk-Covers :
      (o : Options) (db : Tables F) (w : h.World) (n : ℕ)
      → o.resume ≡ false
      → o.limit ≡ none
      → db.sequence < i64_max
      → IsSafe Before Listed db
      → HasPages h none n
      → (k : ℕ) × (id : ℕ) × ((beats h k (launch o db w)).phase ≡ returned (ok id))
        × Covers Listed (beats h k (launch o db w)).store.db
  unfolding launch
  walk-Covers o db w n f l q a p =
      let (k, id, e) = fresh-Ends o db w n f q a p in
      (
        k,
        id,
        e,
        λ pk v m.
            Reach-Covers h Before Listed consecutive o db w _ id pk a (beats-Reach h k here) e
              (ap (λ x. x.limit) (beats-options h k (launch o db w)) ∙ l) m v,
      )
