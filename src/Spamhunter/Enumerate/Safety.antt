-- ===== src/Spamhunter/Enumerate/Safety.antt =====
-- The cursor that is stored never passes a pubkey that is not, whatever happens around a walk.
use mathlib.Core.Path.{subst}
use deepfry.Base.{ℕ, ◌≡◌, refl, true, none, []}
use deepfry.Base.Results.{ok}
use deepfry.Base.Words.{Bytes}
use deepfry.Spamhunter.Model.{Tables}
use deepfry.Spamhunter.Store.{has_pubkey}
use deepfry.Spamhunter.Store.Runs.{
  update_run, set_run_cursor, set_run_max_lev_start, set_run_config_json, set_run_max_lev_end,
  mark_run_aborted,
}
use deepfry.Spamhunter.Store.Handle.{Store, open_store}
use deepfry.Spamhunter.Client.{Http, authors}
use deepfry.Spamhunter.Retry.Answers.{retry-IsAnswer}
use deepfry.Spamhunter.Enumerate.{
  limit_per_page, is_valid_pubkey, Phase, choose_run, refresh_config, probe_start, store_start,
  fetch_page, abort_run, enqueue_page, flush_page, await_page, save_cursor, flush_last, await_last,
  probe_end, store_end, returned, panicked, Options, State, start_walk, launch, fetch, probe,
  step_at, step,
}
use deepfry.Spamhunter.Enumerate.Steps.{
  Reach, here, steps, commits, statement_fails, crashes, is_statement,
}
use deepfry.Spamhunter.Enumerate.Phases.{Full, IsSafe, Holds, IsSound, round-IsSound}
use deepfry.Spamhunter.Enumerate.Begins.{choose-IsSound}
use deepfry.Spamhunter.Enumerate.Calls.{
  IsConsecutive, probe_start-Holds, probe_end-Holds, fetch-Holds, enqueue-IsSound, flush-IsAwaited,
  Held-flushing, after_save-Holds, flushing-IsSound, wait-IsSound, with_db-IsSound,
}

module _ {F : Type 0} (h : Http) (Before : Bytes → Bytes → Type 0) (Listed : Bytes → Type 0)
    (consecutive : IsConsecutive h Before Listed) where
  step_at-IsSound :
      (ph : Phase) (s : State F h.World)
      → s.phase ≡ ph
      → IsSound Before Listed s
      → Holds Before Listed s.options ph s.store
      → IsSound Before Listed (step_at h ph s)
  unfolding step_at probe fetch start_walk set_run_config_json set_run_max_lev_start
      set_run_max_lev_end set_run_cursor mark_run_aborted update_run has_pubkey
  step_at-IsSound choose_run s e i k = choose-IsSound Before Listed s i.alive i.safe k
  step_at-IsSound (refresh_config r) s e i k =
      with_db-IsSound Before Listed _ _ _ s i.alive i.safe (λ r c. c) k
  step_at-IsSound (probe_start w x) s e i k = record {
    alive = i.alive;
    safe = i.safe;
    holds = probe_start-Holds Before Listed s.options w x _ s.store k;
  }
  step_at-IsSound (store_start w v) s e i k =
      with_db-IsSound Before Listed _ _ _ s i.alive i.safe (λ r c. c) k
  step_at-IsSound (fetch_page w) s e i k = record {
    alive = i.alive;
    safe = i.safe;
    holds =
        fetch-Holds Before Listed h consecutive s.options w _ s.store
          (retry-IsAnswer (authors h w.after limit_per_page) s.world) k;
  }
  step_at-IsSound (abort_run w x) s e i k =
      with_db-IsSound Before Listed _ _ _ s i.alive i.safe (λ r c. c) k
  step_at-IsSound (enqueue_page w page) s e i k =
      enqueue-IsSound Before Listed w page s i.alive i.safe k
  step_at-IsSound (flush_page w c) s e i (pks, q, k) =
      flushing-IsSound Before Listed (await_page w c) s i.alive i.safe (
        pks,
        flush-IsAwaited Before Listed pks s.store i.alive q,
        Held-flushing Before Listed pks s.store i.alive k,
      )
  step_at-IsSound (await_page w c) s e i (pks, q, k) =
      wait-IsSound Before Listed (Before c) pks (save_cursor w c) s i q k (λ quiet. quiet)
  step_at-IsSound (save_cursor w c) s e i k =
      with_db-IsSound Before Listed _ _ _ s i.alive i.safe (λ r old. k.1)
        (after_save-Holds Before Listed s.options s.options.limit _ _ refl k)
  step_at-IsSound (flush_last w) s e i (pks, q, k) =
      flushing-IsSound Before Listed (await_last w) s i.alive i.safe (
        pks,
        flush-IsAwaited Before Listed pks s.store i.alive q,
        Held-flushing Before Listed pks s.store i.alive k,
      )
  step_at-IsSound (await_last w) s e i (pks, q, k) =
      wait-IsSound Before Listed (Full Listed s.options) pks (probe_end w) s i q k (λ quiet. quiet)
  step_at-IsSound (probe_end w) s e i k = record {
    alive = i.alive;
    safe = i.safe;
    holds = probe_end-Holds Before Listed s.options w _ s.store k;
  }
  step_at-IsSound (store_end w v) s e i k =
      with_db-IsSound Before Listed _ _ _ s i.alive i.safe (λ r c. c) k
  step_at-IsSound (returned r) s e i k = i
  step_at-IsSound panicked s e i k = i

  pub step-IsSound :
      (s : State F h.World) → IsSound Before Listed s → IsSound Before Listed (step h s)
  unfolding step
  step-IsSound s i = step_at-IsSound s.phase s refl i i.holds

  quiet_at :
      (o : Options) (ph : Phase) (st : Store F)
      → is_statement ph ≡ true
      → Holds Before Listed o ph st
      → st.queue ≡ []
  unfolding is_statement
  quiet_at o choose_run st e k = k
  quiet_at o (refresh_config r) st e k = k.0
  quiet_at o (probe_start w x) st e k = cc
  quiet_at o (store_start w v) st e k = k.0
  quiet_at o (fetch_page w) st e k = cc
  quiet_at o (abort_run w x) st e k = k
  quiet_at o (enqueue_page w page) st e k = cc
  quiet_at o (flush_page w c) st e k = cc
  quiet_at o (await_page w c) st e k = cc
  quiet_at o (save_cursor w c) st e k = k.0
  quiet_at o (flush_last w) st e k = cc
  quiet_at o (await_last w) st e k = cc
  quiet_at o (probe_end w) st e k = cc
  quiet_at o (store_end w v) st e k = k.0
  quiet_at o (returned r) st e k = cc
  quiet_at o panicked st e k = cc

  pub launch-IsSound :
      (o : Options) (db : Tables F) (w : h.World)
      → IsSafe Before Listed db
      → IsSound Before Listed (launch o db w)
  unfolding launch open_store
  launch-IsSound o db w a = record { alive = refl; safe = a; holds = refl }

  Reach-IsSound :
      {s0 s : State F h.World} → IsSound Before Listed s0 → Reach h s0 s → IsSound Before Listed s
  Reach-IsSound i here = i
  Reach-IsSound i (steps r) = step-IsSound _ (Reach-IsSound i r)
  Reach-IsSound i (commits n b r) = round-IsSound Before Listed n _ (Reach-IsSound i r)
  Reach-IsSound i (statement_fails {s = s} e b r) =
      let j = Reach-IsSound i r in
      record {
        alive = j.alive;
        safe = j.safe;
        holds = quiet_at s.options s.phase s.store b j.holds;
      }
  Reach-IsSound i (crashes o w r) = launch-IsSound o _ w ((Reach-IsSound i r).safe)

  -- Whatever is interleaved, walks, rounds of the writer whose transactions do not fail at the
  -- disk, failing statements, and crashes with a new start, fresh or resumed, every well-formed
  -- pubkey up to a stored cursor is durable at every moment, where it was so at the start. The
  -- pages of the adapter follow each other: what it lists up to the end of a page stands before
  -- its start or on it.
  pub Reach-IsSafe :
      (o : Options) (db : Tables F) (w : h.World) (s : State F h.World)
      → IsSafe Before Listed db
      → Reach h (launch o db w) s
      → IsSafe Before Listed s.store.db
  Reach-IsSafe o db w s a r = (Reach-IsSound (launch-IsSound o db w a) r).safe

  -- A walk without a limit that has returned an id has stored the whole listing.
  pub Reach-Covers :
      (o : Options) (db : Tables F) (w : h.World) (s : State F h.World) (id : ℕ) (pk : Bytes)
      → IsSafe Before Listed db
      → Reach h (launch o db w) s
      → s.phase ≡ returned (ok id)
      → s.options.limit ≡ none
      → Listed pk
      → is_valid_pubkey pk ≡ true
      → has_pubkey pk s.store.db ≡ true
  Reach-Covers o db w s id pk a r e l m v =
      let i = Reach-IsSound (launch-IsSound o db w a) r in
      let k : Holds Before Listed s.options (returned (ok id)) s.store =
        subst (λ ph. Holds Before Listed s.options ph s.store) e i.holds in
      k.1 pk v (l, m)
