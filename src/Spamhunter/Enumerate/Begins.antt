-- ===== src/Spamhunter/Enumerate/Begins.antt =====
-- What the start of a walk, on a new or a resumed run, does to what its phase relies on.
use mathlib.Core.Path.{subst}
use deepfry.Base.{
  ℕ, ◌+◌, ◌≡◌, ◌∙◌, ap, refl, sym, arith, Option, none, some, [], ◌∷◌, ◌++◌, All, All-imp,
  All-append, any, bytes_eq, of_both,
}
use deepfry.Base.Results.{Result, ok, err}
use deepfry.Base.Words.{Bytes}
use deepfry.Spamhunter.Model.{Run, Tables}
use deepfry.Spamhunter.Store.{StoreError, has_pubkey}
use deepfry.Spamhunter.Store.Runs.{begin_run, new_run, latest_unfinished_run}
use deepfry.Spamhunter.Enumerate.{State, start_walk, with_db, begun, begin, resumed, choose}
use deepfry.Spamhunter.Enumerate.Covers.{Covers, Past, latest-Q}
use deepfry.Spamhunter.Enumerate.Phases.{IsSafe, IsSound}

module _ {F : Type 0} (Before : Bytes → Bytes → Type 0) (Listed : Bytes → Type 0) where
  begin_run-run :
      (now : ℕ) (config : Bytes) (db : Tables F) (id : ℕ) (db' : Tables F)
      → begin_run now config db ≡ ok (id, db')
      → (db'.run ≡ db.run ++ (new_run (db.sequence + 1) now config ∷ [])) × (db'.pubkey ≡ db.pubkey)
  unfolding begin_run
  begin_run-run now config db id db' e = ground arith

  begin_run-IsSafe :
      (now : ℕ) (config : Bytes) (db : Tables F) (id : ℕ) (db' : Tables F)
      → begin_run now config db ≡ ok (id, db')
      → IsSafe Before Listed db
      → IsSafe Before Listed db'
  unfolding new_run has_pubkey
  begin_run-IsSafe now config db id db' e a =
      let (rows, pks) = begin_run-run now config db id db' e in
      let keep : All (λ r. Covers (Past Before r.last_cursor) db') db.run =
        All-imp (λ r c pk v b. ap (any (bytes_eq pk)) pks ∙ c pk v b) db.run a in
      subst (All (λ r. Covers (Past Before r.last_cursor) db')) (sym rows)
        (All-append _ db.run _ keep (λ pk v b. absurd b, tt))

  begun-IsSound :
      {W : Type 0} (s : State F W) (r : Result StoreError (ℕ × Tables F))
      → begin_run s.options.now s.options.config_json s.store.db ≡ r
      → s.store.failure ≡ none
      → IsSafe Before Listed s.store.db
      → s.store.queue ≡ []
      → IsSound Before Listed (begun r s)
  unfolding begun with_db start_walk
  begun-IsSound s (ok (id, db')) e a b q = record {
    alive = a;
    safe = begin_run-IsSafe _ _ _ id db' e b;
    holds = (q, λ pk v p. absurd p);
  }
  begun-IsSound s (err x) e a b q = record { alive = a; safe = b; holds = q }

  resumed-IsSound :
      {W : Type 0} (s : State F W) (r : Option Run)
      → latest_unfinished_run s.store.db ≡ r
      → s.store.failure ≡ none
      → IsSafe Before Listed s.store.db
      → s.store.queue ≡ []
      → IsSound Before Listed (resumed r s)
  unfolding resumed begin latest_unfinished_run
  resumed-IsSound s none e a b q = begun-IsSound s _ refl a b q
  resumed-IsSound s (some r) e a b q = record {
    alive = a;
    safe = b;
    holds = (q, latest-Q (λ c. Covers (Past Before c) s.store.db) s.store.db.run r b e);
  }

  pub choose-IsSound :
      {W : Type 0} (s : State F W)
      → s.store.failure ≡ none
      → IsSafe Before Listed s.store.db
      → s.store.queue ≡ []
      → IsSound Before Listed (choose s)
  unfolding choose begin
  choose-IsSound s a b q =
      of_both (IsSound Before Listed) s.options.resume _ _ (resumed-IsSound s _ refl a b q)
        (begun-IsSound s _ refl a b q)
