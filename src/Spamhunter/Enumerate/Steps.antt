-- ===== src/Spamhunter/Enumerate/Steps.antt =====
-- What can happen around a walk: its own steps, rounds of the writer, failing statements, and a
-- crash with a new start, at any time and in any order.
use deepfry.Base.{ℕ, ◌≤◌, ◌≡◌, Bool, true, false}
use deepfry.Base.Results.{err}
use deepfry.Spamhunter.Store.{StoreError, batch_size}
use deepfry.Spamhunter.Store.Handle.{commit}
use deepfry.Spamhunter.Client.{Http}
use deepfry.Spamhunter.Enumerate.{
  Options, State, Phase, choose_run, refresh_config, probe_start, store_start, fetch_page,
  abort_run, enqueue_page, flush_page, await_page, save_cursor, flush_last, await_last, probe_end,
  store_end, returned, panicked, store, launch, step,
}

-- The phases whose call is a statement that `?` hands on the error of.
unfoldable pub is_statement : Phase → Bool
is_statement choose_run = true
is_statement (refresh_config r) = true
is_statement (probe_start w existing) = false
is_statement (store_start w v) = true
is_statement (fetch_page w) = false
is_statement (abort_run w e) = true
is_statement (enqueue_page w page) = false
is_statement (flush_page w c) = false
is_statement (await_page w c) = false
is_statement (save_cursor w c) = true
is_statement (flush_last w) = false
is_statement (await_last w) = false
is_statement (probe_end w) = false
is_statement (store_end w v) = true
is_statement (returned r) = false
is_statement panicked = false

module _ {F : Type 0} (h : Http) where
  -- The transactions of the writer succeed here; `writer_fails` stands for those that do not.
  pub data Reach (s0 : State F h.World) : State F h.World → Type 0 where
    here : Reach s0 s0
    steps : {s : State F h.World} → Reach s0 s → Reach s0 (step h s)
    commits :
        {s : State F h.World} (n : ℕ)
        → n ≤ batch_size
        → Reach s0 s
        → Reach s0 (record s { store = commit n s.store })
    statement_fails :
        {s : State F h.World} (e : StoreError)
        → is_statement s.phase ≡ true
        → Reach s0 s
        → Reach s0 (record s { phase = returned (err (store e)) })
    crashes :
        {s : State F h.World} (o : Options) (w : h.World)
        → Reach s0 s
        → Reach s0 (launch o s.store.db w)
