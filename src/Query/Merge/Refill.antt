-- ===== src/Query/Merge/Refill.antt =====
-- `refill_stream`: what a stream still has to give is unchanged, and its next entry is at hand.
use mathlib.Core.List.{append-nil, map-append}
use deepfry.Base.{
  ℕ, suc, ◌<◌, ◌≡◌, refl, sym, ap, ◌∙◌, arith, Bool, true, false, ◌||◌, if◌then◌else◌, none, some,
  leb, List, [], ◌∷◌, ◌++◌, map, drop, keep_if, take_while, is_empty, All, starts_with,
}
use deepfry.Base.Results.{Result, ok}
use deepfry.Base.Words.{Bytes}
use deepfry.Lmdb.Scan.{Hit}
use deepfry.Query.Merge.{
  Triple, StreamState, Floor, needs_refill, to_triple, guard_prefix, passes_floor, apply_floor,
  truncate_since, drained, load_window, refill_attempts, refill_stream,
}
use deepfry.Query.Merge.Items.{
  IsContiguous, IsCut, select, keep_if-append, guard_batch, guard_ends, apply_floor_lem,
  truncate_since-IsCut,
}

abbrev pub has_prefix : Bytes → Hit → Bool
has_prefix p hit = starts_with hit.0 p

-- The entries of a stream among the hits of its scan.
abbrev pub under : Bytes → List Hit → List Triple
under p hits = map to_triple (keep_if (has_prefix p) hits)

-- Every entry of the first list is newer than every entry of the second.
abbrev pub IsApart : List Triple → List Triple → Type 0
IsApart xs ys = All (λ (x : Triple). All (λ (y : Triple). y.0 < x.0) ys) xs

-- What the merge relies on of the scan under one prefix: at a resume state the scan returns the
-- next hits and the state behind them; the hits with the prefix come first; and no time of that
-- prefix is split between two windows.
pub record IsSource {E : Type 0} (scan : Bytes → Bool → ℕ → Result E (List Hit × Bytes × Bool))
    (batch_size : ℕ) (rest : Bytes → Bool → List Hit) (At : Bytes → Bool → Type 0) (p : Bytes)
    : Type 0 where
  pub batch : Bytes → Bool → List Hit
  pub next : Bytes → Bool → Bytes
  pub scans :
      (k : Bytes) (f : Bool) → At k f → scan k f batch_size ≡ ok (batch k f, next k f, false)
  pub continues : (k : Bytes) (f : Bool) → At k f → At (next k f) false
  pub splits : (k : Bytes) (f : Bool) → At k f → rest k f ≡ batch k f ++ rest (next k f) false
  pub ends : (k : Bytes) (f : Bool) → At k f → batch k f ≡ [] → rest k f ≡ []
  pub contiguous : (k : Bytes) (f : Bool) → At k f → IsContiguous (has_prefix p) (rest k f)
  pub apart :
      (k : Bytes) (f : Bool)
      → At k f
      → IsApart (under p (batch k f)) (under p (rest (next k f) false))

map-eq-nil : (hits : List Hit) → map to_triple hits ≡ [] → hits ≡ []
map-eq-nil [] e = refl
map-eq-nil (hit ∷ hits) e = ground arith

-- Two batches that the floor empties hold entries of one time.
same_floor :
    (floor : Floor) (y z : Triple) (g h : List Triple)
    → apply_floor floor (y ∷ g) ≡ []
    → apply_floor floor (z ∷ h) ≡ []
    → y.0 ≡ z.0
unfolding apply_floor passes_floor
same_floor none y z g h e e' = ground arith
same_floor (some (ts, lev)) y z g h e e' = ground arith

module _ {E : Type 0} (scan : Bytes → Bool → ℕ → Result E (List Hit × Bytes × Bool))
    (batch_size since : ℕ) (floor : Floor) (rest : Bytes → Bool → List Hit)
    (At : Bytes → Bool → Type 0) where
  -- The entries that the scans of a stream still bring.
  abbrev pub future : StreamState → List Triple
  future s = select since floor (under s.prefix (rest s.resume_key s.first_batch))

  abbrev pub future_of : StreamState → Bool → List Triple
  future_of s true = []
  future_of s false = future s

  -- All the entries that a stream still has to give.
  abbrev pub content : StreamState → List Triple
  content s = drop s.buf_pos s.buffer ++ future_of s s.exhausted

  -- `s` has what was to be loaded, and needs no refill.
  abbrev pub IsLoaded : Bytes → List Triple → StreamState → Type 0
  IsLoaded p wanted s =
      (content s ≡ wanted)
      × (needs_refill s ≡ false)
      × At s.resume_key s.first_batch
      × (s.prefix ≡ p)

  -- The state that a window with the cut `c` leaves.
  abbrev loaded : StreamState → List Triple × Bool → StreamState
  loaded s c = record s { exhausted = s.exhausted || c.1; buffer = c.0; buf_pos = 0 }

  loaded-IsLoaded :
      (s : StreamState) (z : Triple) (fl t : List Triple) (c : List Triple × Bool)
      → s.exhausted ≡ false
      → At s.resume_key s.first_batch
      → under s.prefix (rest s.resume_key s.first_batch) ≡ t
      → IsCut since (z ∷ fl) c
      → IsLoaded s.prefix
          (take_while (λ (x : Triple). leb since x.0) ((z ∷ fl) ++ keep_if (passes_floor floor) t))
          (loaded s c)
  unfolding needs_refill
  loaded-IsLoaded s z fl t (kept, true) x at tail cut =
      simp x (append-nil kept ∙ sym (cut (keep_if (passes_floor floor) t)), refl, at, refl)
  loaded-IsLoaded s z fl t (kept, false) x at tail (same, cut) =
      simp (x, same, tail) (sym (cut (keep_if (passes_floor floor) t)), ground arith, at, refl)

  loaded_lem :
      (s : StreamState) (kept : List Triple) (cut : Bool)
      → if◌then◌else◌ {A = Result E StreamState}
          (is_empty kept)
          (ok (record s { exhausted = s.exhausted || cut; buffer = []; buf_pos = 0 }))
          (ok (record s { exhausted = s.exhausted || cut; buffer = kept; buf_pos = 0 }))
        ≡ ok (loaded s (kept, cut))
  loaded_lem s [] cut = refl
  loaded_lem s (z ∷ kept) cut = refl

  load_window_lem :
      (s : StreamState) (g t : List Triple) (again : Result E StreamState)
      → s.exhausted ≡ false
      → At s.resume_key s.first_batch
      → under s.prefix (rest s.resume_key s.first_batch) ≡ t
      → (g ≡ [] → t ≡ [])
      → ((y : Triple) (g' : List Triple)
          → g ≡ y ∷ g'
          → apply_floor floor g ≡ []
          → (s' : StreamState) × (again ≡ ok s')
            × IsLoaded s.prefix (select since floor (g ++ t)) s')
      → (s' : StreamState) × (load_window since floor s g again ≡ ok s')
        × IsLoaded s.prefix (select since floor (g ++ t)) s'
  unfolding load_window needs_refill
  load_window_lem s [] t again x at tail ends retry =
      (drained s, refl, rw (ends refl) (refl, refl, at, refl))
  load_window_lem s (y ∷ g) t again x at tail ends retry =
      with_floored (apply_floor floor (y ∷ g)) refl
    where
      with_floored :
          (fl : List Triple)
          → apply_floor floor (y ∷ g) ≡ fl
          → (s' : StreamState) × (load_window since floor s (y ∷ g) again ≡ ok s')
            × IsLoaded s.prefix (select since floor ((y ∷ g) ++ t)) s'
      with_floored [] e = let r = retry y g refl e in (r.0, rw e r.1, r.2)
      with_floored (z ∷ fl) e =
          let c = truncate_since since (z ∷ fl) in
          let split : keep_if (passes_floor floor) ((y ∷ g) ++ t)
              ≡ (z ∷ fl) ++ keep_if (passes_floor floor) t =
            keep_if-append (passes_floor floor) (y ∷ g) t
            ∙ ap (λ (zs : List Triple). zs ++ keep_if (passes_floor floor) t)
                (sym (apply_floor_lem floor (y ∷ g)) ∙ e) in
          (
            loaded s c,
            rw e (loaded_lem s c.0 c.1),
            rw split (loaded-IsLoaded s z fl t c x at tail (truncate_since-IsCut since (z ∷ fl))),
          )

  -- The state after the window of `s` was read.
  abbrev moved : (s : StreamState) → IsSource scan batch_size rest At s.prefix → StreamState
  moved s source = record s {
    resume_key = source.next s.resume_key s.first_batch;
    first_batch = false;
  }

  module _ (p : Bytes) (source : IsSource scan batch_size rest At p) (k : Bytes) (f : Bool)
      (at : At k f) where
    future_splits :
        under p (rest k f) ≡ under p (source.batch k f) ++ under p (rest (source.next k f) false)
    future_splits =
        ap (under p) (source.splits k f at)
        ∙ ap (map to_triple)
            (keep_if-append (has_prefix p) (source.batch k f) (rest (source.next k f) false))
        ∙ map-append to_triple (keep_if (has_prefix p) (source.batch k f))
            (keep_if (has_prefix p) (rest (source.next k f) false))

    guard_prefix_lem : guard_prefix p (source.batch k f) ≡ under p (source.batch k f)
    unfolding guard_prefix
    guard_prefix_lem = ap (map to_triple) (
        guard_batch (has_prefix p) (source.batch k f) (rest (source.next k f) false)
          (rw (source.splits k f at) at (source.contiguous k f at)))

    -- A window without an entry of the prefix is followed by none.
    under-ends :
        (hit : Hit) (b : List Hit)
        → source.batch k f ≡ hit ∷ b
        → under p (hit ∷ b) ≡ []
        → under p (rest (source.next k f) false) ≡ []
    under-ends hit b e none_left =
        let ys = rest (source.next k f) false in
        let whole : IsContiguous (has_prefix p) ((hit ∷ b) ++ ys) =
          rw (source.splits k f at, e) at (source.contiguous k f at) in
        let nothing : keep_if (has_prefix p) (hit ∷ b) ≡ [] =
          map-eq-nil (keep_if (has_prefix p) (hit ∷ b)) none_left in
        ap (map to_triple) (
          guard_ends (has_prefix p) hit b ys whole
            (guard_batch (has_prefix p) (hit ∷ b) ys whole ∙ nothing))

  refill_step :
      (n : ℕ) (s : StreamState) (source : IsSource scan batch_size rest At s.prefix)
      → s.exhausted ≡ false
      → At s.resume_key s.first_batch
      → ((y : Triple) (g' : List Triple)
          → under s.prefix (source.batch s.resume_key s.first_batch) ≡ y ∷ g'
          → apply_floor floor (under s.prefix (source.batch s.resume_key s.first_batch)) ≡ []
          → (s' : StreamState) × (refill_attempts scan batch_size since floor n (moved s source)
              ≡ ok s')
            × IsLoaded s.prefix (future s) s')
      → (s' : StreamState) × (refill_attempts scan batch_size since floor (suc n) s ≡ ok s')
        × IsLoaded s.prefix (future s) s'
  unfolding refill_attempts needs_refill
  refill_step n s source x at retry =
      let k = s.resume_key in
      let f = s.first_batch in rw (source.scans k f at) (with_batch (source.batch k f) refl)
    where
      with_batch :
          (b : List Hit)
          → source.batch s.resume_key s.first_batch ≡ b
          → (s' : StreamState) × (if◌then◌else◌ {A = Result E StreamState}
                (is_empty b)
                (ok (drained (moved s source)))
                (load_window since floor
                  (moved s source)
                  (guard_prefix s.prefix b)
                  (refill_attempts scan batch_size since floor n (moved s source)))
              ≡ ok s')
            × IsLoaded s.prefix (future s) s'
      with_batch [] e = (
        drained (moved s source),
        refl,
        (
          rw (source.ends s.resume_key s.first_batch at e) refl,
          refl,
          source.continues s.resume_key s.first_batch at,
          refl,
        ),
      )
      with_batch (hit ∷ b) e =
          let k = s.resume_key in
          let f = s.first_batch in
          let t = under s.prefix (rest (source.next k f) false) in
          let split : under s.prefix (rest k f) ≡ under s.prefix (hit ∷ b) ++ t =
            rw e at (future_splits s.prefix source k f at) in
          let guarded : guard_prefix s.prefix (hit ∷ b) ≡ under s.prefix (hit ∷ b) =
            rw e at (guard_prefix_lem s.prefix source k f at) in
          rw (guarded, split)
            (load_window_lem (moved s source) (under s.prefix (hit ∷ b)) t
              (refill_attempts scan batch_size since floor n (moved s source)) x
              (source.continues k f at) refl (under-ends s.prefix source k f at hit b e)
              (rw (e, split) at retry))

  -- Refilling a drained stream whose scan is not exhausted succeeds; what the stream then has to
  -- give is its entries under the prefix that the floor and since let through, in the order of
  -- the scan, with the next one in the buffer unless none is left. The scan returns its hits
  -- window by window, with those of the prefix first and no time of the prefix split between
  -- windows.
  pub refill_stream_lem :
      (s : StreamState) (source : IsSource scan batch_size rest At s.prefix)
      → s.exhausted ≡ false
      → At s.resume_key s.first_batch
      → (s' : StreamState) × (refill_stream scan batch_size since floor s ≡ ok s')
        × IsLoaded s.prefix (future s) s'
  unfolding refill_stream
  refill_stream_lem s source x at =
      let k = s.resume_key in
      let f = s.first_batch in
      let k' = source.next k f in
      let at' = source.continues k f at in
      let g = under s.prefix (source.batch k f) in
      let g' = under s.prefix (source.batch k' false) in
      let t = under s.prefix (rest k' false) in
      let t' = under s.prefix (rest (source.next k' false) false) in
      let split : under s.prefix (rest k f) ≡ g ++ t = future_splits s.prefix source k f at in
      let split' : t ≡ g' ++ t' = future_splits s.prefix source k' false at' in
      refill_step 1 s source x at (λ y ys e gone.
        let apart : IsApart (y ∷ ys) t = rw e at (source.apart k f at) in
        let older : All (λ (v : Triple). v.0 < y.0) t = apart.0 in
        let r = refill_step 0 (moved s source) source x at' (λ z zs e' gone'.
          let older' : All (λ (v : Triple). v.0 < y.0) ((z ∷ zs) ++ t') =
            rw (split', e') at older in
          let before : z.0 < y.0 = older'.0 in
          let same : y.0 ≡ z.0 = same_floor floor y z ys zs (rw e at gone) (rw e' at gone') in
          absurd (omega arith)) in
        let same : future s ≡ future (moved s source) =
          ap (take_while (λ (u : Triple). leb since u.0)) (
            ap (keep_if (passes_floor floor)) split
            ∙ keep_if-append (passes_floor floor) g t
            ∙ ap (λ (us : List Triple). us ++ keep_if (passes_floor floor) t)
                (sym (apply_floor_lem floor g) ∙ gone)) in
        let (same_content, full, at_next, same_prefix) = r.2 in
        (r.0, r.1, (same_content ∙ sym same, full, at_next, same_prefix)))
