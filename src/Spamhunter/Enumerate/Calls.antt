-- ===== src/Spamhunter/Enumerate/Calls.antt =====
-- What one call of a walk does to what its phase relies on.
use mathlib.Core.Path.{subst}
use deepfry.Base.{
  ℕ, ◌+◌, ◌≡◌, ◌∙◌, ap, refl, sym, true, false, Option, none, some, ◌⊎◌, inl, inr, List, [], ◌∷◌,
  ◌++◌, if◌then◌else◌, leb, is_some, ◌||◌, of_both, length,
}
use deepfry.Base.Results.{Result, ok, err}
use deepfry.Base.Ints.{ℤ}
use deepfry.Base.Words.{Bytes}
use deepfry.Spamhunter.Model.{Run, WriteMsg, pubkeys, flush, Tables}
use deepfry.Spamhunter.Store.Runs.{update_run}
use deepfry.Spamhunter.Store.Handle.{Store, send, insert_pubkeys, send_flush, flush_returns}
use deepfry.Spamhunter.Client.{ClientError, AuthorsPage, StatsResult, Http, authors}
use deepfry.Spamhunter.Retry.Answers.{IsAnswer}
use deepfry.Spamhunter.Enumerate.{
  limit_per_page, is_valid_pubkey, valid_authors, Walk, Phase, enqueue_page, Options, State,
  is_restart, after_fetch, after_enqueue, after_save, after_probe_start, after_probe_end, with_db,
  enqueued, enqueue, flushing, wait,
}
use deepfry.Spamhunter.Enumerate.Covers.{
  Covers, Past, UpTo, contains-keep_if, Held, Held-Covers, contains,
}
use deepfry.Spamhunter.Enumerate.Rounds.{InFlight, IsAwaited}
use deepfry.Spamhunter.Enumerate.Phases.{Full, IsSafe, Quiet, Holds, IsSound, update-IsSafe}

-- What the adapter answers: the pubkeys up to the end of a page stand before its start or on it.
abbrev pub IsConsecutive : Http → (Bytes → Bytes → Type 0) → (Bytes → Type 0) → Type 0
IsConsecutive h Before Listed =
    (after : Option Bytes) (w : h.World) (page : AuthorsPage) (w' : h.World)
    → authors h after limit_per_page w ≡ (ok page, w')
    → (pk : Bytes) → UpTo Before Listed page.end_cursor pk
    → Past Before after pk ⊎ (contains pk page.authors ≡ true)

contains-nil : (pk : Bytes) → contains pk [] ≡ true → ⊥
unfolding contains
contains-nil pk h = absurd cc

none-some : {A : Type 0} {x : A} → Path (Option A) none (some x) → ⊥
none-some e = absurd cc

module _ {F : Type 0} (Before : Bytes → Bytes → Type 0) (Listed : Bytes → Type 0) where
  pub probe_start-Holds :
      (o : Options) (w : Walk) (x : Option ℤ) (r : Result ClientError StatsResult) (st : Store F)
      → Quiet Before Listed (Past Before w.after) st
      → Holds Before Listed o (after_probe_start w x r) st
  unfolding after_probe_start
  probe_start-Holds o w none (ok v) st h = h
  probe_start-Holds o w (some x) (ok v) st h = h
  probe_start-Holds o w x (err e) st h = h.0

  pub probe_end-Holds :
      (o : Options) (w : Walk) (r : Result ClientError StatsResult) (st : Store F)
      → Quiet Before Listed (Full Listed o) st
      → Holds Before Listed o (after_probe_end w r) st
  unfolding after_probe_end
  probe_end-Holds o w (ok v) st h = h
  probe_end-Holds o w (err e) st h = h.0

  pub fetch-Holds :
      (h : Http)
      → IsConsecutive h Before Listed
      → (o : Options) (w : Walk) (r : Result ClientError AuthorsPage) (st : Store F)
      → IsAnswer (authors h w.after limit_per_page) r
      → Quiet Before Listed (Past Before w.after) st
      → Holds Before Listed o (after_fetch w r) st
  unfolding after_fetch
  fetch-Holds h c o w (ok page) st (v, v', e) (q, k) =
      (q, λ pk i u. elim (c w.after v page v' e pk u) [ inl b ↦ inl (k pk i b) | inr m ↦ inr m ])
  fetch-Holds h c o w (err e) st a (q, k) =
      of_both (λ ph. Holds Before Listed o ph st) (is_restart e w.after) _ _ (q, λ pk i b. absurd b)
        q

  -- The pubkeys of a page that are well-formed are sent.
  Held-valid :
      {P : Bytes → Type 0} (page : AuthorsPage) (db : Tables F)
      → Held P page.authors db
      → Held P (valid_authors page) db
  unfolding valid_authors
  Held-valid page db k = λ pk v p. elim (k pk v p) [
    | inl stored ↦ inl stored
    | inr m ↦ inr (contains-keep_if is_valid_pubkey pk page.authors v m)
  ]

  enqueued-Holds :
      (o : Options) (w : Walk) (c : Option Bytes) (pks : List Bytes) (st : Store F)
      → InFlight pks [] st
      → Held (UpTo Before Listed c) pks st.db
      → Holds Before Listed o (after_enqueue w c) st
  unfolding after_enqueue
  enqueued-Holds o w none pks st q k = (pks, q, λ pk v f. k pk v f.1)
  enqueued-Holds o w (some c) pks st q k = (pks, q, k)

  pub send_alive :
      (msg : WriteMsg F) (st : Store F)
      → st.failure ≡ none
      → send msg st ≡ some (record st { queue = st.queue ++ (msg ∷ []) })
  unfolding send
  send_alive msg st a =
      ap (λ f. if is_some f then none else some (record st { queue = st.queue ++ (msg ∷ []) })) a

  send_flush_alive :
      (st : Store F)
      → st.failure ≡ none
      → send_flush st ≡ record st { queue = st.queue ++ (flush ∷ []); acked = false }
  unfolding send_flush
  send_flush_alive st a =
      ap
        (λ f.
          if is_some f then st else record st { queue = st.queue ++ (flush ∷ []); acked = false })
        a

  pub enqueue-IsSound :
      {W : Type 0} (w : Walk) (page : AuthorsPage) (s : State F W)
      → s.store.failure ≡ none
      → IsSafe Before Listed s.store.db
      → Holds Before Listed s.options (enqueue_page w page) s.store
      → IsSound Before Listed (enqueue w page s)
  unfolding enqueue enqueued insert_pubkeys send
  enqueue-IsSound w page s a b (q, k) =
      let pks = valid_authors page in
      let w' : Walk = record w { count = w.count + length pks } in
      let st : Store F = record (s.store) { queue = s.store.queue ++ (pubkeys pks ∷ []) } in
      subst (λ r. IsSound Before Listed (enqueued (after_enqueue w' page.end_cursor) r s))
        (sym (send_alive (pubkeys pks) s.store a))
        (record {
          alive = a;
          safe = b;
          holds =
              enqueued-Holds s.options w' page.end_cursor pks st
                (inl (ap (λ z. z ++ (pubkeys pks ∷ [])) q)) (Held-valid page s.store.db k);
        })

  pub flush-IsAwaited :
      (pks : List Bytes) (st : Store F)
      → st.failure ≡ none
      → InFlight pks [] st
      → IsAwaited pks (send_flush st)
  unfolding send_flush
  flush-IsAwaited pks st a (inl e) =
      subst (IsAwaited pks) (sym (send_flush_alive st a))
        (inl (refl, inl (ap (λ z. z ++ (flush ∷ [])) e)))
  flush-IsAwaited pks st a (inr (e, k)) =
      subst (IsAwaited pks) (sym (send_flush_alive st a))
        (inl (refl, inr (ap (λ z. z ++ (flush ∷ [])) e, k)))

  pub Held-flushing :
      {P : Bytes → Type 0} (pks : List Bytes) (st : Store F)
      → st.failure ≡ none
      → Held P pks st.db
      → Held P pks (send_flush st).db
  Held-flushing {P = P} pks st a k =
      subst (λ st'. Held P pks st'.db) (sym (send_flush_alive st a)) k

  pub after_save-Holds :
      (o : Options) (l : Option ℕ) (w : Walk) (st : Store F)
      → o.limit ≡ l
      → Quiet Before Listed (Past Before w.after) st
      → Holds Before Listed o (after_save l w) st
  unfolding after_save
  after_save-Holds o none w st e h = h
  after_save-Holds o (some lim) w st e h =
      of_both (λ ph. Holds Before Listed o ph st) (leb lim w.count) _ _
        (
          [],
          inr (h.0, λ pk m. absurd (contains-nil pk m)),
          λ pk v f. absurd (none-some (sym f.0 ∙ e)),
        )
        h

  pub flushing-IsSound :
      {W : Type 0} (next : Phase) (s : State F W)
      → s.store.failure ≡ none
      → IsSafe Before Listed s.store.db
      → Holds Before Listed s.options next (send_flush s.store)
      → IsSound Before Listed (flushing next s)
  unfolding flushing
  flushing-IsSound next s a b k =
      let e = send_flush_alive s.store a in
      subst (λ st. IsSound Before Listed (record s { phase = next; store = st })) (sym e)
        (record { alive = a; safe = b; holds = subst (Holds Before Listed s.options next) e k })

  returns_alive : (st : Store F) → st.failure ≡ none → flush_returns st ≡ st.acked
  unfolding flush_returns
  returns_alive st a = ap (λ f. is_some f || st.acked) a

  pub wait-IsSound :
      {W : Type 0} (P : Bytes → Type 0) (pks : List Bytes) (next : Phase) (s : State F W)
      → IsSound Before Listed s
      → IsAwaited pks s.store
      → Held P pks s.store.db
      → (Quiet Before Listed P s.store → Holds Before Listed s.options next s.store)
      → IsSound Before Listed (wait next s)
  unfolding wait
  wait-IsSound P pks next s i (inl (f, q)) k h =
      subst (λ b. IsSound Before Listed (if b then record s { phase = next } else s))
        (sym (returns_alive s.store i.alive ∙ f)) i
  wait-IsSound P pks next s i (inr (t, q, stored)) k h =
      subst (λ b. IsSound Before Listed (if b then record s { phase = next } else s))
        (sym (returns_alive s.store i.alive ∙ t))
        (record {
          alive = i.alive;
          safe = i.safe;
          holds = h (q, Held-Covers pks s.store.db stored k);
        })

  pub with_db-IsSound :
      {W : Type 0} (next : Phase) (id : ℕ) (change : Run → Run) (s : State F W)
      → s.store.failure ≡ none
      → IsSafe Before Listed s.store.db
      → ((r : Run)
          → Covers (Past Before r.last_cursor) s.store.db
          → Covers (Past Before ((change r).last_cursor)) s.store.db)
      → Holds Before Listed s.options next
          (record (s.store) { db = update_run id change s.store.db })
      → IsSound Before Listed (with_db next (update_run id change) s)
  unfolding with_db
  with_db-IsSound next id change s a b keep k = record {
    alive = a;
    safe = update-IsSafe Before Listed id change s.store.db keep b;
    holds = k;
  }
