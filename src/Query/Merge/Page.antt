-- ===== src/Query/Merge/Page.antt =====
-- `merge_windowed` on start keys: its page of what their streams bring.
use mathlib.Core.Path.{subst}
use mathlib.Core.List.{Permᴰ}
use mathlib.Core.List.Permᴰ
use deepfry.Base.{
  ℕ, ◌≡◌, inl, inr, refl, arith, Bool, true, Bool-cases, List, [], ◌∷◌, map, All, keep_if,
  take_while, ◌==◌, leb,
}
use deepfry.Base.Results.{Result, ok}
use deepfry.Base.Words.{Bytes}
use deepfry.Lmdb.Scan.{Hit}
use deepfry.Query.Router.{concat_map}
use deepfry.Query.Merge.{
  Triple, StreamState, Floor, passes_floor, stream_prefix, new_stream, seed, refill_all,
  merge_windowed,
}
use deepfry.Query.Merge.Items.{select}
use deepfry.Query.Merge.Heap.{IsNotOlder}
use deepfry.Query.Merge.Seed.{seed-IsHeapOf}
use deepfry.Query.Merge.Advance.{IsNewestFirst, IsReady}
use deepfry.Query.Merge.Refill.{IsSource, under, content, refill_stream_lem}
use deepfry.Query.Merge.Newest.{IsPage, merge_loop_lem}

module _ (q : Triple → Bool) (P : Triple → Type 0) where
  All-keep_if_still : (ts : List Triple) → All P ts → All P (keep_if q ts)
  All-keep_if_still [] a = tt
  All-keep_if_still (t ∷ ts) a = elim (Bool-cases (q t)) [
    | inl e ↦ rw (e, All) (a.0, All-keep_if_still ts a.1)
    | inr e ↦ rw e (All-keep_if_still ts a.1)
  ]

  All-take_while_still : (ts : List Triple) → All P ts → All P (take_while q ts)
  All-take_while_still [] a = tt
  All-take_while_still (t ∷ ts) a = elim (Bool-cases (q t)) [
    | inl e ↦ rw (e, All) (a.0, All-take_while_still ts a.1)
    | inr e ↦ rw (e, All) tt
  ]

module _ (q : Triple → Bool) where
  keep_if-IsNewestFirst : (ts : List Triple) → IsNewestFirst ts → IsNewestFirst (keep_if q ts)
  keep_if-IsNewestFirst [] n = tt
  keep_if-IsNewestFirst (t ∷ ts) n = elim (Bool-cases (q t)) [
    | inl e ↦
        rw (e, IsNewestFirst)
          (
            All-keep_if_still q (λ (u : Triple). IsNotOlder t u) ts n.0,
            keep_if-IsNewestFirst ts n.1,
          )
    | inr e ↦ rw e (keep_if-IsNewestFirst ts n.1)
  ]

  take_while-IsNewestFirst : (ts : List Triple) → IsNewestFirst ts → IsNewestFirst (take_while q ts)
  take_while-IsNewestFirst [] n = tt
  take_while-IsNewestFirst (t ∷ ts) n = elim (Bool-cases (q t)) [
    | inl e ↦
        rw (e, IsNewestFirst)
          (
            All-take_while_still q (λ (u : Triple). IsNotOlder t u) ts n.0,
            take_while-IsNewestFirst ts n.1,
          )
    | inr e ↦ rw (e, IsNewestFirst) tt
  ]

module _ {E : Type 0} (scan : Bytes → Bool → ℕ → Result E (List Hit × Bytes × Bool))
    (batch_size since : ℕ) (floor : Floor) (rest : Bytes → Bool → List Hit)
    (At : Bytes → Bool → Type 0) where
  -- The scan from a start key brings the entries under its prefix newest first.
  abbrev pub IsStart : Bytes → Type 0
  IsStart key =
      At key true
      × IsSource scan batch_size rest At (stream_prefix key)
      × IsNewestFirst (under (stream_prefix key) (rest key true))

  -- The entries under a start key's prefix that the floor and `since` let through.
  abbrev pub wanted : Bytes → List Triple
  wanted key = select since floor (under (stream_prefix key) (rest key true))

  refill_all_lem :
      (keys : List Bytes)
      → All IsStart keys
      → (streams : List StreamState) × (refill_all scan batch_size since floor (map new_stream keys)
          ≡ ok streams)
        × All (IsReady scan batch_size since floor rest At) streams
        × (concat_map (content scan batch_size since floor rest At) streams
            ≡ concat_map wanted keys)
  unfolding refill_all new_stream
  refill_all_lem [] starts = ([], refl, tt, refl)
  refill_all_lem (key ∷ keys) ((at, source, newest), starts) =
      let (s, run, (same, full, at', prefix')) =
        refill_stream_lem scan batch_size since floor rest At (new_stream key) source refl at in
      let (streams, runs, ready, sames) = refill_all_lem keys starts in
      let first : IsNewestFirst (wanted key) =
        take_while-IsNewestFirst (λ (t : Triple). leb since t.0)
          (keep_if (passes_floor floor) (under (stream_prefix key) (rest key true)))
          (keep_if-IsNewestFirst (passes_floor floor) (under (stream_prefix key) (rest key true))
            newest) in
      (
        s ∷ streams,
        rw (run, runs) refl,
        ((full, at', rw prefix' source, rw same first), ready),
        rw (same, sames) refl,
      )

  -- Where the scan from each start key brings the entries under the prefix of that key newest
  -- first, merge_windowed succeeds, and its page has the newest of the entries that the floor and
  -- since let through, newest first, each as often as the keys bring it; it has emit_limit
  -- entries unless it has all.
  pub merge_windowed_lem :
      (start_keys : List Bytes) (emit_limit : ℕ)
      → All IsStart start_keys
      → (out : List Triple) × (merge_windowed scan batch_size since floor start_keys emit_limit
          ≡ ok out)
        × IsPage emit_limit (concat_map wanted start_keys) out
  unfolding merge_windowed
  merge_windowed_lem [] emit_limit starts = (
    [],
    refl,
    record { leftover = []; same = Permᴰ.nil; newest = tt; bounded = omega arith; full = inl refl },
  )
  merge_windowed_lem (key ∷ keys) emit_limit starts =
      let (streams, run, ready, same) = refill_all_lem (key ∷ keys) starts in
      let (out, merged, page) =
        merge_loop_lem scan batch_size since floor rest At emit_limit streams (seed 0 streams [])
          ready (seed-IsHeapOf streams) in
      let whole = concat_map wanted (key ∷ keys) in
      elim (Bool-cases (emit_limit == 0)) [
        | inl e ↦ (
          [],
          ground arith,
          record {
            leftover = whole;
            same = Permᴰ.refl whole;
            newest = tt;
            bounded = omega arith;
            full = inr (ground arith);
          },
        )
        | inr e ↦ (
          out,
          ground (arith, run, merged),
          subst (λ (ts : List Triple). IsPage emit_limit ts out) same page,
        )
      ]
