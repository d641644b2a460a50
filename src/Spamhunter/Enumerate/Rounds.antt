-- ===== src/Spamhunter/Enumerate/Rounds.antt =====
-- A round of the writer while a walk is under way.
use mathlib.Core.Path.{subst}
use deepfry.Base.{
  ℕ, zero, suc, ◌≡◌, ◌∙◌, ap, refl, sym, Bool, true, false, none, ◌⊎◌, inl, inr, List, [], ◌∷◌,
}
use deepfry.Base.Words.{Bytes}
use deepfry.Spamhunter.Model.{WriteMsg, pubkeys, flush, Tables}
use deepfry.Spamhunter.Store.{batch_size, upsert_pubkey, write, write_all, write_pubkeys}
use deepfry.Spamhunter.Store.Handle.{Store, is_flush, commit}
use deepfry.Spamhunter.Enumerate.Covers.{
  AllStored, Grows, has_pubkey-write_pubkeys, has_pubkey-written,
}

module _ {F : Type 0} where
  -- `pks` are in the channel before `tail`, or are stored with `tail` left.
  abbrev pub InFlight : List Bytes → List (WriteMsg F) → Store F → Type 0
  InFlight pks tail st = (st.queue ≡ pubkeys pks ∷ tail) ⊎ ((st.queue ≡ tail) × AllStored pks st.db)

  abbrev pub IsAwaited : List Bytes → Store F → Type 0
  IsAwaited pks st =
      ((st.acked ≡ false) × InFlight pks (flush ∷ []) st)
      ⊎ ((st.acked ≡ true) × (st.queue ≡ []) × AllStored pks st.db)

  -- A round of the writer that succeeds and leaves `T`.
  abbrev pub Commits : (Store F → Type 0) → ℕ → Store F → Type 0
  Commits T n st = ((commit n st).failure ≡ none) × Grows st.db (commit n st).db × T (commit n st)

  commit_idle :
      (n : ℕ) (st : Store F) → commit n (record st { queue = [] }) ≡ record st { queue = [] }
  unfolding commit write_all
  commit_idle zero st = refl
  commit_idle (suc n) st = refl

  commit_quiet : (n : ℕ) (st : Store F) → st.queue ≡ [] → commit n st ≡ st
  commit_quiet n st e =
      subst (λ q. commit n (record st { queue = q }) ≡ record st { queue = q }) (sym e)
        (commit_idle n st)

  pub Commits-quiet :
      (T : Store F → Type 0) (n : ℕ) (st : Store F)
      → st.failure ≡ none
      → st.queue ≡ []
      → T st
      → Commits T n st
  Commits-quiet T n st a e t =
      subst (λ st'. (st'.failure ≡ none) × Grows st.db st'.db × T st') (sym (commit_quiet n st e))
        (a, (refl, λ pk h. h), t)

  write_pubkeys-run : (pks : List Bytes) (db : Tables F) → (write_pubkeys pks db).run ≡ db.run
  unfolding write_pubkeys upsert_pubkey
  write_pubkeys-run [] db = refl
  write_pubkeys-run (pk ∷ pks) db = write_pubkeys-run pks (upsert_pubkey pk db)

  write_pubkeys-Grows : (pks : List Bytes) (db : Tables F) → Grows db (write_pubkeys pks db)
  write_pubkeys-Grows pks db =
      (write_pubkeys-run pks db, λ pk h. has_pubkey-write_pubkeys pk pks db h)

  -- The store after the pubkeys, with `queue` left.
  abbrev written : List Bytes → List (WriteMsg F) → Bool → Store F → Store F
  written pks queue acked st = record st {
    db = write_pubkeys pks st.db;
    queue = queue;
    acked = acked;
  }

  commit_last :
      (pks : List Bytes) (n : ℕ) (st : Store F)
      → commit (suc n) (record st { queue = pubkeys pks ∷ [] }) ≡ written pks [] st.acked st
  unfolding commit write_all write is_flush
  commit_last pks zero st = refl
  commit_last pks (suc n) st = refl

  commit_both :
      (pks : List Bytes) (n : ℕ) (st : Store F)
      → commit (suc (suc n)) (record st { queue = pubkeys pks ∷ flush ∷ [] })
        ≡ written pks [] true st
  unfolding commit write_all write is_flush
  commit_both pks zero st = refl
  commit_both pks (suc n) st = refl

  commit_first :
      (pks : List Bytes) (st : Store F)
      → commit 1 (record st { queue = pubkeys pks ∷ flush ∷ [] })
        ≡ written pks (flush ∷ []) st.acked st
  unfolding commit write_all write is_flush
  commit_first pks st = refl

  commit_flush :
      (n : ℕ) (st : Store F)
      → commit (suc n) (record st { queue = flush ∷ [] }) ≡ record st { queue = []; acked = true }
  unfolding commit write_all write is_flush
  commit_flush zero st = refl
  commit_flush (suc n) st = refl

  -- A round takes the store to `st'`, which has grown and has `T`.
  Commits-to :
      (T : Store F → Type 0) (n : ℕ) (st st' : Store F)
      → commit n st ≡ st'
      → st'.failure ≡ none
      → Grows st.db st'.db
      → T st'
      → Commits T n st
  Commits-to T n st st' e a g t =
      subst (λ s. (s.failure ≡ none) × Grows st.db s.db × T s) (sym e) (a, g, t)

  -- The store with another queue that is the same.
  with_queue :
      (P : Store F → Type 0) (st : Store F) (q : List (WriteMsg F))
      → st.queue ≡ q
      → P (record st { queue = q })
      → P st
  with_queue P st q e p = subst (λ r. P (record st { queue = r })) (sym e) p

  same : (db : Tables F) → Grows db db
  same db = (refl, λ pk h. h)

  commit_none : (st : Store F) → commit 0 st ≡ st
  unfolding commit write_all
  commit_none st = refl

  commit-pubkeys :
      (pks : List Bytes) (n : ℕ) (st : Store F)
      → st.failure ≡ none
      → Commits (InFlight pks []) n (record st { queue = pubkeys pks ∷ [] })
  commit-pubkeys pks zero st a =
      Commits-to (InFlight pks []) 0 _ _ (commit_none _) a (same _) (inl refl)
  commit-pubkeys pks (suc n) st a =
      Commits-to (InFlight pks []) (suc n) _ _ (commit_last pks n st) a
        (write_pubkeys-Grows pks st.db) (inr (refl, λ pk. has_pubkey-written pk pks st.db))

  pub commit-InFlight :
      (pks : List Bytes) (n : ℕ) (st : Store F)
      → st.failure ≡ none
      → InFlight pks [] st
      → Commits (InFlight pks []) n st
  commit-InFlight pks n st a (inl e) =
      with_queue (Commits (InFlight pks []) n) st (pubkeys pks ∷ []) e (commit-pubkeys pks n st a)
  commit-InFlight pks n st a (inr (e, k)) = Commits-quiet (InFlight pks []) n st a e (inr (e, k))

  commit-flushing :
      (pks : List Bytes) (n : ℕ) (st : Store F)
      → st.failure ≡ none
      → st.acked ≡ false
      → Commits (IsAwaited pks) n (record st { queue = pubkeys pks ∷ flush ∷ [] })
  commit-flushing pks zero st a f =
      Commits-to (IsAwaited pks) 0 _ _ (commit_none _) a (same _) (inl (f, inl refl))
  commit-flushing pks (suc zero) st a f =
      Commits-to (IsAwaited pks) 1 _ _ (commit_first pks st) a (write_pubkeys-Grows pks st.db)
        (inl (f, inr (refl, λ pk. has_pubkey-written pk pks st.db)))
  commit-flushing pks (suc (suc n)) st a f =
      Commits-to (IsAwaited pks) (suc (suc n)) _ _ (commit_both pks n st) a
        (write_pubkeys-Grows pks st.db) (inr (refl, refl, λ pk. has_pubkey-written pk pks st.db))

  commit-acking :
      (pks : List Bytes) (n : ℕ) (st : Store F)
      → st.failure ≡ none
      → st.acked ≡ false
      → AllStored pks st.db
      → Commits (IsAwaited pks) n (record st { queue = flush ∷ [] })
  commit-acking pks zero st a f k =
      Commits-to (IsAwaited pks) 0 _ _ (commit_none _) a (same _) (inl (f, inr (refl, k)))
  commit-acking pks (suc n) st a f k =
      Commits-to (IsAwaited pks) (suc n) _ _ (commit_flush n st) a (same _) (inr (refl, refl, k))

  pub commit-IsAwaited :
      (pks : List Bytes) (n : ℕ) (st : Store F)
      → st.failure ≡ none
      → IsAwaited pks st
      → Commits (IsAwaited pks) n st
  commit-IsAwaited pks n st a (inl (f, inl e)) =
      with_queue (Commits (IsAwaited pks) n) st (pubkeys pks ∷ flush ∷ []) e
        (commit-flushing pks n st a f)
  commit-IsAwaited pks n st a (inl (f, inr (e, k))) =
      with_queue (Commits (IsAwaited pks) n) st (flush ∷ []) e (commit-acking pks n st a f k)
  commit-IsAwaited pks n st a (inr (f, e, k)) =
      Commits-quiet (IsAwaited pks) n st a e (inr (f, e, k))

  -- A full batch has the flush that is waited for.
  pub commit-acks :
      (pks : List Bytes) (st : Store F) → IsAwaited pks st → (commit batch_size st).acked ≡ true
  unfolding batch_size
  commit-acks pks st (inl (f, inl e)) =
      with_queue (λ s. (commit 8192 s).acked ≡ true) st (pubkeys pks ∷ flush ∷ []) e
        (ap (λ s. s.acked) (commit_both pks 8190 st))
  commit-acks pks st (inl (f, inr (e, k))) =
      with_queue (λ s. (commit 8192 s).acked ≡ true) st (flush ∷ []) e
        (ap (λ s. s.acked) (commit_flush 8191 st))
  commit-acks pks st (inr (f, e, k)) = ap (λ s. s.acked) (commit_quiet 8192 st e) ∙ f
