-- ===== src/Spamhunter/Enumerate/Phases.antt =====
-- What each phase of a walk relies on, and that the rounds of the writer keep it.
use mathlib.Core.Path.{subst}
use deepfry.Base.{ℕ, ◌≡◌, sym, none, List, [], All, All-imp}
use deepfry.Base.Results.{ok, err}
use deepfry.Base.Words.{Bytes}
use deepfry.Spamhunter.Model.{Run, Tables}
use deepfry.Spamhunter.Store.{has_pubkey}
use deepfry.Spamhunter.Store.Runs.{update_run}
use deepfry.Spamhunter.Store.Handle.{Store, commit}
use deepfry.Spamhunter.Enumerate.{
  Phase, choose_run, refresh_config, probe_start, store_start, fetch_page, abort_run, enqueue_page,
  flush_page, await_page, save_cursor, flush_last, await_last, probe_end, store_end, returned,
  panicked, Options, State,
}
use deepfry.Spamhunter.Enumerate.Covers.{
  Covers, Past, UpTo, Held, Grows, Grows-Held, All-update_row,
}
use deepfry.Spamhunter.Enumerate.Rounds.{
  InFlight, IsAwaited, Commits, Commits-quiet, commit-InFlight, commit-IsAwaited,
}

-- Without a limit, what a walk that ends has listed.
abbrev pub Full : (Bytes → Type 0) → Options → Bytes → Type 0
Full Listed o pk = (o.limit ≡ none) × Listed pk

module _ {F : Type 0} (Before : Bytes → Bytes → Type 0) (Listed : Bytes → Type 0) where
  -- Every row of `run` has a cursor whose pubkeys are stored, or none.
  abbrev pub IsSafe : Tables F → Type 0
  IsSafe db = All (λ r. Covers (Past Before r.last_cursor) db) db.run

  abbrev pub Quiet : (Bytes → Type 0) → Store F → Type 0
  Quiet P st = (st.queue ≡ []) × Covers P st.db

  -- What each phase relies on.
  abbrev pub Holds : Options → Phase → Store F → Type 0
  Holds o choose_run st = st.queue ≡ []
  Holds o (refresh_config r) st = Quiet (Past Before r.last_cursor) st
  Holds o (probe_start w existing) st = Quiet (Past Before w.after) st
  Holds o (store_start w v) st = Quiet (Past Before w.after) st
  Holds o (fetch_page w) st = Quiet (Past Before w.after) st
  Holds o (abort_run w e) st = st.queue ≡ []
  Holds o (enqueue_page w page) st =
      (st.queue ≡ []) × Held (UpTo Before Listed page.end_cursor) page.authors st.db
  Holds o (flush_page w c) st = (pks : List Bytes) × InFlight pks [] st × Held (Before c) pks st.db
  Holds o (await_page w c) st = (pks : List Bytes) × IsAwaited pks st × Held (Before c) pks st.db
  Holds o (save_cursor w c) st = Quiet (Before c) st
  Holds o (flush_last w) st =
      (pks : List Bytes) × InFlight pks [] st × Held (Full Listed o) pks st.db
  Holds o (await_last w) st = (pks : List Bytes) × IsAwaited pks st × Held (Full Listed o) pks st.db
  Holds o (probe_end w) st = Quiet (Full Listed o) st
  Holds o (store_end w v) st = Quiet (Full Listed o) st
  Holds o (returned (ok id)) st = Quiet (Full Listed o) st
  Holds o (returned (err e)) st = st.queue ≡ []
  Holds o panicked st = ⊥

  pub record IsSound {W : Type 0} (s : State F W) : Type 0 where
    pub alive : s.store.failure ≡ none
    pub safe : IsSafe s.store.db
    pub holds : Holds s.options s.phase s.store

  Grows-IsSafe : (db db' : Tables F) → Grows db db' → IsSafe db → IsSafe db'
  Grows-IsSafe db db' (e, g) a =
      subst (All (λ r. Covers (Past Before r.last_cursor) db')) (sym e)
        (All-imp (λ r c pk v b. g pk (c pk v b)) db.run a)

  round-Holds :
      (o : Options) (ph : Phase) (n : ℕ) (st : Store F)
      → st.failure ≡ none
      → Holds o ph st
      → Commits (Holds o ph) n st
  round-Holds o choose_run n st a h = Commits-quiet (Holds o choose_run) n st a h h
  round-Holds o (refresh_config r) n st a h =
      Commits-quiet (Holds o (refresh_config r)) n st a h.0 h
  round-Holds o (probe_start w x) n st a h = Commits-quiet (Holds o (probe_start w x)) n st a h.0 h
  round-Holds o (store_start w v) n st a h = Commits-quiet (Holds o (store_start w v)) n st a h.0 h
  round-Holds o (fetch_page w) n st a h = Commits-quiet (Holds o (fetch_page w)) n st a h.0 h
  round-Holds o (abort_run w e) n st a h = Commits-quiet (Holds o (abort_run w e)) n st a h h
  round-Holds o (enqueue_page w page) n st a h =
      Commits-quiet (Holds o (enqueue_page w page)) n st a h.0 h
  round-Holds o (flush_page w c) n st a (pks, q, k) =
      let (a', g, q') = commit-InFlight pks n st a q in
      (a', g, (pks, q', Grows-Held pks st.db _ g k))
  round-Holds o (await_page w c) n st a (pks, q, k) =
      let (a', g, q') = commit-IsAwaited pks n st a q in
      (a', g, (pks, q', Grows-Held pks st.db _ g k))
  round-Holds o (save_cursor w c) n st a h = Commits-quiet (Holds o (save_cursor w c)) n st a h.0 h
  round-Holds o (flush_last w) n st a (pks, q, k) =
      let (a', g, q') = commit-InFlight pks n st a q in
      (a', g, (pks, q', Grows-Held pks st.db _ g k))
  round-Holds o (await_last w) n st a (pks, q, k) =
      let (a', g, q') = commit-IsAwaited pks n st a q in
      (a', g, (pks, q', Grows-Held pks st.db _ g k))
  round-Holds o (probe_end w) n st a h = Commits-quiet (Holds o (probe_end w)) n st a h.0 h
  round-Holds o (store_end w v) n st a h = Commits-quiet (Holds o (store_end w v)) n st a h.0 h
  round-Holds o (returned (ok id)) n st a h =
      Commits-quiet (Holds o (returned (ok id))) n st a h.0 h
  round-Holds o (returned (err e)) n st a h = Commits-quiet (Holds o (returned (err e))) n st a h h
  round-Holds o panicked n st a h = absurd h

  pub round-IsSound :
      {W : Type 0} (n : ℕ) (s : State F W)
      → IsSound s
      → IsSound (record s { store = commit n s.store })
  round-IsSound n s i =
      let (a, g, k) = round-Holds s.options s.phase n s.store i.alive i.holds in
      record { alive = a; safe = Grows-IsSafe s.store.db _ g i.safe; holds = k }

  -- A statement on the rows of `run`, each of which keeps its cursor or gets a covered one.
  pub update-IsSafe :
      (id : ℕ) (change : Run → Run) (db : Tables F)
      → ((r : Run)
          → Covers (Past Before r.last_cursor) db
          → Covers (Past Before ((change r).last_cursor)) db)
      → IsSafe db
      → IsSafe (update_run id change db)
  unfolding update_run has_pubkey
  update-IsSafe id change db keep a =
      All-update_row (λ c. Covers (Past Before c) db) id change db.run keep a
