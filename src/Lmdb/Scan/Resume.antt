-- ===== src/Lmdb/Scan/Resume.antt =====
-- Windows chained by their resume keys: a windowed scan is the whole scan.
use Prim.Native.String.{String}
use deepfry.Base.{
  ℕ, zero, suc, ◌<◌, ◌≡◌, ◌≢◌, ◌⊎◌, inl, inr, refl, ap, arith, Bool, true, false, some, List, [],
  ◌∷◌, ◌++◌, map, length, length-append, All, All-keep_if, keep_if, bytes_eq, if◌then◌else◌,
}
use deepfry.Base.Results.{ok}
use deepfry.Base.Words.{Bytes}
use deepfry.Lmdb.Heed.{Heed, Bound, Entry}
use deepfry.Lmdb.Indexes.{open_named}
use deepfry.Lmdb.Scan.{
  Hit, reverse, reverse_upper_bound, reverse_start, start_cursor, resume_cursor, last_key_or,
  collect_window, window_batch, scan_index_one_window, windowed_loop, scan_index_windowed,
}
use deepfry.Lmdb.Scan.Window.{
  IsScanOrder, hits, FromOn, IsInOrder, after, remainder, EndsAfter, window_items-IsFirst,
}

-- What the scans rely on of an environment that nobody writes to: the index opens, and a reverse
-- cursor yields the entries strictly below its bound, in descending order with all duplicates. An
-- inclusive bound is relied on only where no entry has its key.
pub record IsReverseIndex (h : Heed) (env : h.Env) (short_name : String)
    (before : Bytes → Bytes → Bool) (view : List Entry) : Type 0 where
  pub rtxn : h.Txn
  pub db : h.Db
  pub reads : h.read_txn env ≡ ok rtxn
  pub opens : open_named h env rtxn short_name ≡ ok db
  pub order : IsScanOrder before
  pub in_order : IsInOrder before view
  pub excludes :
      (k : Bytes)
      → h.rev_range db rtxn Bound.unbounded (Bound.excluded k) ≡ ok (map ok (after before k view))
  pub includes :
      (k : Bytes)
      → All (λ (e : Entry). bytes_eq k e.0 ≡ false) view
      → h.rev_range db rtxn Bound.unbounded (Bound.included k) ≡ ok (map ok (after before k view))

-- The bound, exclusive, at which a window begins.
unfoldable pub walk_bound : Bytes → Bool → Bytes
walk_bound k true =
    let (rebuilt_key, is_excluded) = reverse_upper_bound k in if is_excluded then rebuilt_key else k
walk_bound k false = k

-- A first window whose bound cannot be raised begins at a key that no entry has.
abbrev pub IsClear : List Entry → Bytes → Bool → Type 0
IsClear view k true =
    (reverse_upper_bound k).1 ≡ false → All (λ (e : Entry). bytes_eq k e.0 ≡ false) view
IsClear view k false = Unit

module _ (before : Bytes → Bytes → Bool) (order : IsScanOrder before) where
  FromOn-keep_if :
      (k : Bytes) (p : Entry → Bool) (es : List Entry)
      → FromOn before k es
      → FromOn before k (keep_if p es)
  FromOn-keep_if k p [] f = tt
  FromOn-keep_if k p (e ∷ es) f = ground (arith, FromOn-keep_if k p es)

  pub IsInOrder-keep_if :
      (p : Entry → Bool) (es : List Entry) → IsInOrder before es → IsInOrder before (keep_if p es)
  IsInOrder-keep_if p [] o = tt
  IsInOrder-keep_if p (e ∷ es) o = ground (arith, IsInOrder-keep_if p es, FromOn-keep_if e.0 p es)

  pub after-after :
      (s l : Bytes) (es : List Entry)
      → before s l ≡ true
      → after before l (after before s es) ≡ after before l es
  after-after s l [] h = refl
  after-after s l (e ∷ es) h = ground (arith, order.trans s l e.0, after-after s l es h)

module _ (h : Heed) (env : h.Env) (short_name : String) (before : Bytes → Bytes → Bool)
    (view : List Entry) (index : IsReverseIndex h env short_name before view) where
  -- The hits that are left at a resume state.
  unfoldable pub rest : Bytes → Bool → List Hit
  rest k first = hits (after before (walk_bound k first) view)

  walk_from :
      (rebuilt k : Bytes) (is_excluded : Bool)
      → (is_excluded ≡ false → All (λ (e : Entry). bytes_eq k e.0 ≡ false) view)
      → h.rev_range index.db index.rtxn Bound.unbounded
          (if is_excluded then Bound.excluded rebuilt else Bound.included k)
        ≡ ok (map ok (after before (if is_excluded then rebuilt else k) view))
  walk_from rebuilt k true c = index.excludes rebuilt
  walk_from rebuilt k false c = index.includes k (c refl)

  cursor_at :
      (k : Bytes) (first : Bool)
      → IsClear view k first
      → (if first
          then start_cursor h index.db index.rtxn reverse k
          else resume_cursor h index.db index.rtxn reverse k)
        ≡ ok (map ok (after before (walk_bound k first) view))
  unfolding start_cursor resume_cursor reverse_start walk_bound
  cursor_at k false c = index.excludes k
  cursor_at k true c = walk_from (reverse_upper_bound k).0 k (reverse_upper_bound k).1 c

  window_batch_lem :
      (k : Bytes) (first : Bool) (w : ℕ)
      → 0 < w
      → IsClear view k first
      → (b : List Hit) × (window_batch h env short_name reverse k first w ≡ ok b)
        × (rest k first
            ≡ b ++ remainder before (walk_bound k first) b (after before (walk_bound k first) view))
        × EndsAfter before (walk_bound k first) b
  unfolding window_batch collect_window rest
  window_batch_lem k first w pos c =
      let s = walk_bound k first in
      let es = after before s view in
      let r =
        window_items-IsFirst before index.order h.Error w s es pos
          (IsInOrder-keep_if before index.order (λ (e : Entry). before s e.0) view index.in_order)
          (All-keep_if (λ (e : Entry). before s e.0) view) in
      (r.0, rw (index.reads, index.opens, cursor_at k first c) r.1.0, r.1.1, r.1.2)

  batch_rest :
      (k : Bytes) (first : Bool) (b : List Hit)
      → rest k first
        ≡ b ++ remainder before (walk_bound k first) b (after before (walk_bound k first) view)
      → EndsAfter before (walk_bound k first) b
      → (b ≡ [] × (rest k first ≡ []))
        ⊎ (b ≢ [] × (rest k first ≡ b ++ rest (last_key_or k b) false))
  unfolding rest walk_bound
  batch_rest k first [] e f = inl (refl, e)
  batch_rest k first (hit ∷ b) e f = inr (
    λ (p : hit ∷ b ≡ []). cc,
    rw (← after-after before index.order (walk_bound k first) (last_key_or k (hit ∷ b)) view f) e,
  )

  -- One window of a reverse scan, of positive size, returns a batch and a resume key; the hits
  -- that were left are the batch followed by what is left at that key, and an empty batch means
  -- that none were left. Where the start bound of a first window cannot be raised, no entry has
  -- the start key.
  pub scan_index_one_window_lem :
      (k : Bytes) (first : Bool) (w : ℕ)
      → 0 < w
      → IsClear view k first
      → (b : List Hit) × (scan_index_one_window h env short_name reverse k first w
          ≡ ok (b, last_key_or k b, false))
        × ((b ≡ [] × (rest k first ≡ []))
            ⊎ (b ≢ [] × (rest k first ≡ b ++ rest (last_key_or k b) false)))
  unfolding scan_index_one_window
  scan_index_one_window_lem k first w pos c =
      let r = window_batch_lem k first w pos c in (r.0, rw r.1, batch_rest k first r.0 r.2 r.3)

  abbrev Loops : ℕ → Bytes → Bool → ℕ → Type 0
  Loops fuel k first w =
      windowed_loop h fuel env short_name reverse k first w ≡ some (ok (rest k first))

  loop_step :
      (fuel : ℕ) (k : Bytes) (first : Bool) (w : ℕ) (b : List Hit)
      → length (rest k first) < suc fuel
      → window_batch h env short_name reverse k first w ≡ ok b
      → ((b ≡ [] × (rest k first ≡ []))
          ⊎ (b ≢ [] × (rest k first ≡ b ++ rest (last_key_or k b) false)))
      → ((l : Bytes) → length (rest l false) < fuel → Loops fuel l false w)
      → Loops (suc fuel) k first w
  unfolding windowed_loop
  loop_step fuel k first w [] f run (inl (e, r)) ih = ground arith
  loop_step fuel k first w [] f run (inr (n, r)) ih = absurd (n refl)
  loop_step fuel k first w (hit ∷ b) f run (inl (e, r)) ih = cc
  loop_step fuel k first w (hit ∷ b) f run (inr (n, r)) ih =
      let l = last_key_or k (hit ∷ b) in
      let shorter : length (rest l false) < fuel =
        omega (arith, ap length r, length-append (hit ∷ b) (rest l false)) in
      ground (arith, ih l shorter)

  -- Enough fuel: one window for each hit that is left, and one that comes back empty.
  windowed_loop_lem :
      (fuel : ℕ) (k : Bytes) (first : Bool) (w : ℕ)
      → 0 < w
      → IsClear view k first
      → length (rest k first) < fuel
      → Loops fuel k first w
  windowed_loop_lem zero k first w pos c f = absurd (omega arith)
  windowed_loop_lem (suc fuel) k first w pos c f =
      let r = window_batch_lem k first w pos c in
      loop_step fuel k first w r.0 f r.1 (batch_rest k first r.0 r.2 r.3)
        λ l g. windowed_loop_lem fuel l false w pos tt g

  -- A windowed reverse scan of an index that nobody writes to, with more fuel than hits are left,
  -- returns every hit below its start exactly once and in the order of the index, whatever
  -- positive size the windows have; where the start bound cannot be raised, no entry has the
  -- start key.
  pub scan_index_windowed_lem :
      (fuel : ℕ) (start_key : Bytes) (w : ℕ)
      → 0 < w
      → IsClear view start_key true
      → length (rest start_key true) < fuel
      → scan_index_windowed h fuel env short_name reverse start_key w
        ≡ some (ok (rest start_key true))
  unfolding scan_index_windowed
  scan_index_windowed_lem fuel start_key w pos c f = windowed_loop_lem fuel start_key true w pos c f
