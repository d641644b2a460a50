-- ===== src/Spamhunter/Enumerate/Ends.antt =====
-- A walk comes to its end, where the adapter answers.
use mathlib.Core.Path.{subst}
use deepfry.Base.{
  ℕ, zero, suc, ◌+◌, ◌≡◌, ◌∙◌, ap, refl, Bool, true, false, Bool-cases, Option, none, some, ◌⊎◌,
  inl, inr, List, [], if◌then◌else◌, leb, is_some, ◌||◌, ◌*◌, min, length,
}
use deepfry.Base.Results.{Result, ok}
use deepfry.Base.Ints.{ℤ}
use deepfry.Base.Words.{Bytes}
use deepfry.Spamhunter.Model.{pubkeys}
use deepfry.Spamhunter.Store.Handle.{commit, insert_pubkeys, send_flush, flush_returns}
use deepfry.Spamhunter.Client.{ClientError, AuthorsPage, StatsResult, Http, authors, stats}
use deepfry.Spamhunter.Retry.{retry}
use deepfry.Spamhunter.Enumerate.{
  limit_per_page, valid_authors, Walk, Phase, fetch_page, enqueue_page, flush_page, await_page,
  save_cursor, flush_last, await_last, probe_end, store_end, returned, State, after_fetch,
  after_enqueue, after_save, after_probe_end, with_db, enqueued, enqueue, flushing, wait, fetch,
  probe, step_at, step,
}
use deepfry.Spamhunter.Enumerate.Rounds.{InFlight}
use deepfry.Spamhunter.Enumerate.Phases.{Holds, IsSound, round-IsSound}
use deepfry.Spamhunter.Enumerate.Calls.{IsConsecutive, send_alive, flush-IsAwaited}
use deepfry.Spamhunter.Store.{batch_size}
use deepfry.Spamhunter.Enumerate.Rounds.{commit-acks}
use deepfry.Spamhunter.Retry.{attempts, settle, backoff_cap}
use deepfry.Spamhunter.Enumerate.Safety.{step-IsSound}

-- From `after` on the adapter has at most `n` more pages after the next one.
abbrev pub HasPages : Http → Option Bytes → ℕ → Type 0
HasPages h after zero =
    (page : AuthorsPage) × ((w : h.World) → (authors h after limit_per_page w).0 ≡ ok page)
    × (page.end_cursor ≡ none)
HasPages h after (suc n) =
    (page : AuthorsPage) × ((w : h.World) → (authors h after limit_per_page w).0 ≡ ok page)
    × ((page.end_cursor ≡ none)
        ⊎ ((c : Bytes) × (page.end_cursor ≡ some c) × HasPages h (some c) n))

-- The adapter tells its statistics.
abbrev pub HasStats : Http → Type 0
HasStats h = (w : h.World) → (v : StatsResult) × ((stats h w).0 ≡ ok v)

or_true : (b : Bool) → (b || true) ≡ true
or_true true = refl
or_true false = refl

-- A call that succeeds is not tried again.
module _ {W A : Type 0} (op : W → Result ClientError A × W) where
  attempts_first :
      (more delay : ℕ) (w : W) (v : A) → (op w).0 ≡ ok v → (attempts op more delay w).answer ≡ ok v
  unfolding attempts settle
  attempts_first zero delay w v e = e
  attempts_first (suc more) delay w v e =
      ap
        (λ r.
          (settle r (op w).1 delay
            (attempts op more (min (delay * 2) backoff_cap) (op w).1)).answer)
        e

  pub retry_first : (w : W) (v : A) → (op w).0 ≡ ok v → (retry op w).answer ≡ ok v
  unfolding retry
  retry_first w v e = attempts_first _ _ w v e

module _ {F : Type 0} (h : Http) where
  -- A step, and then a full round of the writer.
  unfoldable pub beat : State F h.World → State F h.World
  beat s = let s' = step h s in record s' { store = commit batch_size s'.store }

  unfoldable pub beats : ℕ → State F h.World → State F h.World
  beats zero s = s
  beats (suc n) s = beats n (beat s)

  pub beat-phase :
      (s : State F h.World) (ph : Phase) → s.phase ≡ ph → (beat s).phase ≡ (step_at h ph s).phase
  unfolding beat step
  beat-phase s ph e = ap (λ p. (step_at h p s).phase) e

  abbrev pub Ends : State F h.World → Type 0
  Ends s = (k : ℕ) × (id : ℕ) × ((beats k s).phase ≡ returned (ok id))

  pub later : (s : State F h.World) → Ends (beat s) → Ends s
  unfolding beats
  later s (k, id, e) = (suc k, id, e)

  module _ (told : HasStats h) where
    store_end-Ends : (s : State F h.World) (w : Walk) (v : ℤ) → s.phase ≡ store_end w v → Ends s
    unfolding beats step_at with_db
    store_end-Ends s w v e = (1, w.run_id, beat-phase s (store_end w v) e)

    probe_end-Ends : (s : State F h.World) (w : Walk) → s.phase ≡ probe_end w → Ends s
    unfolding step_at probe after_probe_end
    probe_end-Ends s w e =
        let (v, a) = told s.world in
        later s (
          store_end-Ends (beat s) w v.max_lev_id (
            beat-phase s (probe_end w) e
            ∙ ap (after_probe_end w) (retry_first (stats h) s.world v a)))

module _ {F : Type 0} (h : Http) (Before : Bytes → Bytes → Type 0) (Listed : Bytes → Type 0)
    (consecutive : IsConsecutive h Before Listed) (told : HasStats h) where
  pub beat-IsSound :
      (s : State F h.World) → IsSound Before Listed s → IsSound Before Listed (beat h s)
  unfolding beat
  beat-IsSound s i =
      round-IsSound Before Listed batch_size _ (step-IsSound h Before Listed consecutive s i)

  -- A wait whose acknowledgement has come ends.
  wait-phase :
      (next : Phase) (s : State F h.World) → s.store.acked ≡ true → (wait next s).phase ≡ next
  unfolding wait flush_returns
  wait-phase next s a =
      ap (λ b. (if is_some s.store.failure || b then record s { phase = next } else s).phase) a
      ∙ ap (λ b. (if b then record s { phase = next } else s).phase)
          (or_true (is_some s.store.failure))

  flush_acked :
      (pks : List Bytes) (s : State F h.World) (ph next : Phase)
      → IsSound Before Listed s
      → s.phase ≡ ph
      → step_at h ph s ≡ flushing next s
      → InFlight pks [] s.store
      → (beat h s).store.acked ≡ true
  unfolding beat step flushing
  flush_acked pks s ph next i e f q =
      ap (λ s'. (commit batch_size s'.store).acked) (ap (λ p. step_at h p s) e ∙ f)
      ∙ commit-acks pks (send_flush s.store) (flush-IsAwaited Before Listed pks s.store i.alive q)

  Holds-at :
      (s : State F h.World) (ph : Phase)
      → IsSound Before Listed s
      → s.phase ≡ ph
      → Holds Before Listed s.options ph s.store
  Holds-at s ph i e = subst (λ p. Holds Before Listed s.options p s.store) e i.holds

  flush_last-Ends :
      (s : State F h.World) (w : Walk) → IsSound Before Listed s → s.phase ≡ flush_last w → Ends h s
  unfolding step_at flushing
  flush_last-Ends s w i e =
      let (pks, q, k) = Holds-at s (flush_last w) i e in
      let s1 = beat h s in
      later h s (
        later h s1 (
          probe_end-Ends h told (beat h s1) w (
            beat-phase h s1 (await_last w) (beat-phase h s (flush_last w) e)
            ∙ wait-phase (probe_end w) s1
                (flush_acked pks s (flush_last w) (await_last w) i e refl q))))

  save_cursor-reached :
      (s : State F h.World) (w : Walk) (c : Bytes)
      → IsSound Before Listed s
      → s.phase ≡ flush_page w c
      → (beat h (beat h s)).phase ≡ save_cursor w c
  unfolding step_at flushing
  save_cursor-reached s w c i e =
      let (pks, q, k) = Holds-at s (flush_page w c) i e in
      let s1 = beat h s in
      beat-phase h s1 (await_page w c) (beat-phase h s (flush_page w c) e)
      ∙ wait-phase (save_cursor w c) s1
          (flush_acked pks s (flush_page w c) (await_page w c) i e refl q)

  enqueue-phase :
      (w : Walk) (page : AuthorsPage) (s : State F h.World)
      → IsSound Before Listed s
      → (enqueue w page s).phase
        ≡ after_enqueue (record w { count = w.count + length (valid_authors page) }) page.end_cursor
  unfolding enqueue insert_pubkeys enqueued
  enqueue-phase w page s i =
      let w' : Walk = record w { count = w.count + length (valid_authors page) } in
      ap (λ r. (enqueued (after_enqueue w' page.end_cursor) r s).phase)
        (send_alive Before Listed (pubkeys (valid_authors page)) s.store i.alive)

  -- A page that is answered is enqueued two steps later.
  fetched :
      (s : State F h.World) (w : Walk) (page : AuthorsPage)
      → IsSound Before Listed s
      → s.phase ≡ fetch_page w
      → ((w0 : h.World) → (authors h w.after limit_per_page w0).0 ≡ ok page)
      → (beat h (beat h s)).phase
        ≡ after_enqueue (record w { count = w.count + length (valid_authors page) }) page.end_cursor
  unfolding step_at fetch after_fetch
  fetched s w page i e a =
      let s1 = beat h s in
      let e1 : s1.phase ≡ enqueue_page w page =
        beat-phase h s (fetch_page w) e
        ∙ ap (after_fetch w)
            (retry_first (authors h w.after limit_per_page) s.world page (a s.world)) in
      beat-phase h s1 (enqueue_page w page) e1 ∙ enqueue-phase w page s1 (beat-IsSound s i)

  after_save-Ends :
      (l : Option ℕ) (s : State F h.World) (w : Walk)
      → IsSound Before Listed s
      → s.phase ≡ after_save l w
      → ((s' : State F h.World) → IsSound Before Listed s' → s'.phase ≡ fetch_page w → Ends h s')
      → Ends h s
  unfolding after_save
  after_save-Ends none s w i e go = go s i e
  after_save-Ends (some lim) s w i e go = elim (Bool-cases (leb lim w.count)) [
    | inl b ↦ flush_last-Ends s w i (e ∙ ap (λ b. if b then flush_last w else fetch_page w) b)
    | inr b ↦ go s i (e ∙ ap (λ b. if b then flush_last w else fetch_page w) b)
  ]

  pub twice_later : (s : State F h.World) → Ends h (beat h (beat h s)) → Ends h s
  twice_later s k = later h s (later h (beat h s) k)

  pub twice-IsSound :
      (s : State F h.World) → IsSound Before Listed s → IsSound Before Listed (beat h (beat h s))
  twice-IsSound s i = beat-IsSound (beat h s) (beat-IsSound s i)

  last_page-Ends :
      (s : State F h.World) (w : Walk) (page : AuthorsPage)
      → IsSound Before Listed s
      → s.phase ≡ fetch_page w
      → ((w0 : h.World) → (authors h w.after limit_per_page w0).0 ≡ ok page)
      → page.end_cursor ≡ none
      → Ends h s
  unfolding after_enqueue
  last_page-Ends s w page i e a n =
      twice_later s
        (flush_last-Ends _ _ (twice-IsSound s i) (fetched s w page i e a ∙ ap (after_enqueue _) n))

  pub fetch_page-Ends :
      (n : ℕ) (s : State F h.World) (w : Walk)
      → IsSound Before Listed s
      → s.phase ≡ fetch_page w
      → HasPages h w.after n
      → Ends h s
  unfolding after_enqueue step_at with_db
  fetch_page-Ends zero s w i e (page, a, n) = last_page-Ends s w page i e a n
  fetch_page-Ends (suc n) s w i e (page, a, inl last) = last_page-Ends s w page i e a last
  fetch_page-Ends (suc n) s w i e (page, a, inr (c, more, rest)) =
      let w' : Walk = record w { count = w.count + length (valid_authors page) } in
      let s2 = beat h (beat h s) in
      let i2 = twice-IsSound s i in
      let e2 : s2.phase ≡ flush_page w' c = fetched s w page i e a ∙ ap (after_enqueue w') more in
      let s4 = beat h (beat h s2) in
      let i4 = twice-IsSound s2 i2 in
      let e4 : s4.phase ≡ save_cursor w' c = save_cursor-reached s2 w' c i2 e2 in
      twice_later s (
        twice_later s2 (
          later h s4 (
            after_save-Ends s4.options.limit (beat h s4) (record w' { after = some c })
              (beat-IsSound s4 i4) (beat-phase h s4 (save_cursor w' c) e4)
              λ s' i' e'. fetch_page-Ends n s' (record w' { after = some c }) i' e' rest)))
