-- ===== src/Lmdb/Scan/First.antt =====
-- The first levId at a key or after it, by a seek and by a scan.
mod Examples
use Prim.Native.String.{String}
use text.Mathlib.Text.{◌==◌ as str_eq}
use deepfry.Base.{
  ℕ, ◌≡◌, ◌≢◌, inl, inr, refl, sym, ap, ◌∙◌, arith, Bool, true, false, Bool-cases, ◌||◌, Option,
  none, some, Option-cases, List, [], ◌∷◌, take, ◌==◌, if◌then◌else◌,
}
use deepfry.Base.Results.{Result, ok, err, map_err, ◌>>=◌, Result-cases}
use deepfry.Base.Words.{Bytes}
use deepfry.Lmdb.Heed.{Heed, Entry, Bound}
use deepfry.Lmdb.Indexes.{
  IndexError, heed, lev_id_of_value, open_named, open_seekable, first_lev_id,
  seek_range_first_lev_id, seek_first_ge_lev_id,
}
use deepfry.Lmdb.Scan.{
  Hit, forward, start_cursor, bounded_items, collect_bounded, scan_index_bounded,
}

-- The levId of the first hit.
abbrev pub first_hit :
    {E : Type 0} → Result (IndexError E) (List Hit) → Result (IndexError E) (Option ℕ)
first_hit (err e) = err e
first_hit (ok []) = ok none
first_hit (ok (hit ∷ hits)) = ok (some hit.1)

-- It passes through the steps before it.
first_hit-bind :
    {E A : Type 0} (x : Result (IndexError E) A) (next : A → Result (IndexError E) (List Hit))
    → first_hit (x >>= next) ≡ (x >>= (λ a. first_hit (next a)))
first_hit-bind (ok a) next = refl
first_hit-bind (err e) next = refl

bind-alike :
    {E A B : Type 0} (x : Result (IndexError E) A) (g k : A → Result (IndexError E) B)
    → ((a : A) → g a ≡ k a)
    → (x >>= g) ≡ (x >>= k)
bind-alike (ok a) g k e = e a
bind-alike (err x) g k e = refl

module _ (h : Heed) where
  first_hit-bounded_items :
      (items : List (Result h.Error Entry))
      → first_hit (bounded_items (take 1 items)) ≡ first_lev_id h items
  unfolding bounded_items first_lev_id
  first_hit-bounded_items [] = refl
  first_hit-bounded_items (err e ∷ items) = refl
  first_hit-bounded_items (ok (key, value) ∷ items) = elim (Option-cases (lev_id_of_value value)) [
    | inl e ↦ ground arith
    | inr (lev_id, e) ↦ ground arith
  ]

  open_seekable-open_named :
      (env : h.Env) (rtxn : h.Txn) (short_name : String)
      → str_eq short_name "Event__created_at" ≡ false
      → open_seekable h env rtxn short_name ≡ open_named h env rtxn short_name
  unfolding open_seekable open_named
  open_seekable-open_named env rtxn short_name e = rw e refl

  abbrev forward_scan : h.Env → String → Bytes → Result (IndexError h.Error) (List Hit)
  forward_scan env short_name key = do
    rtxn ← map_err heed (h.read_txn env)
    db ← open_named h env rtxn short_name
    collect_bounded h db rtxn forward key 1

  seek-forward_scan :
      (env : h.Env) (short_name : String) (key : Bytes)
      → str_eq short_name "Event__created_at" ≡ false
      → seek_first_ge_lev_id h env short_name key ≡ first_hit (forward_scan env short_name key)
  unfolding seek_first_ge_lev_id seek_range_first_lev_id collect_bounded start_cursor
  seek-forward_scan env short_name key e =
      bind-alike (map_err heed (h.read_txn env)) _ _ (λ rtxn.
        rw (open_seekable-open_named env rtxn short_name e) (
          bind-alike (open_named h env rtxn short_name) _ _ (λ db.
            bind-alike (map_err heed (h.range db rtxn (Bound.included key) Bound.unbounded)) _ _
              (λ items. sym (first_hit-bounded_items items))
            ∙ sym (
                first_hit-bind (map_err heed (h.range db rtxn (Bound.included key) Bound.unbounded))
                  _))
          ∙ sym (first_hit-bind (open_named h env rtxn short_name) _)))
      ∙ sym (first_hit-bind (map_err heed (h.read_txn env)) _)

  -- In every index but Event__created_at, a seek gives the levId of the first hit of a forward
  -- scan from the same key with limit 1, which needs no fuel, and the same error.
  pub seek_first_ge_lev_id-scan_index_bounded :
      (fuel : ℕ) (env : h.Env) (short_name : String) (key : Bytes)
      → str_eq short_name "Event__created_at" ≡ false
      → (scanned : Result (IndexError h.Error) (List Hit)) × (scan_index_bounded h fuel env
            short_name forward key 1
          ≡ some scanned)
        × (seek_first_ge_lev_id h env short_name key ≡ first_hit scanned)
  unfolding scan_index_bounded
  seek_first_ge_lev_id-scan_index_bounded fuel env short_name key e =
      (forward_scan env short_name key, refl, seek-forward_scan env short_name key e)
