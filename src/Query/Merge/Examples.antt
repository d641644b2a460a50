-- ===== src/Query/Merge/Examples.antt =====
-- A refill at a concrete scan of three windows: one entry that the floor drops, one entry, nothing.
use deepfry.Base.{
  take_all, ◌^◌, Bool-cases, inr, if◌then◌else◌, ◌<◌, ◌+◌, ◌==◌, length, All, ℕ, none, inl,
  starts_with, ◌≡◌, refl, arith, Bool, true, false, some, List, [], ◌∷◌, ◌++◌,
}
use deepfry.Base.Results.{Result, ok}
use deepfry.Base.Words.{
  Bytes, AllBytes, u64_max, from_le_bytes-lt, from_le_bytes-le8, le8, to_le_bytes, from_le_bytes,
}
use deepfry.Lmdb.Heed.{Entry}
use deepfry.Lmdb.Scan.{Hit, reverse, reverse_upper_bound, scan_index_one_window}
use deepfry.Lmdb.Scan.Resume.{rest}
use deepfry.Lmdb.Scan.Examples.{newer_first, events, small_heed, small_index}
use deepfry.Query.Merge.Source.{At, index-IsSource}
use deepfry.Query.Merge.{
  StreamState, new_stream, stream_prefix, refill_stream, merge_windowed, Triple,
}
use deepfry.Query.Merge.Newest.{IsPage}
use deepfry.Query.Merge.Page.{IsStart, wanted, merge_windowed_lem}
use deepfry.Query.Router.{concat_map, created_at_from_key}
use deepfry.Query.Merge.Items.{IsContiguous}
use deepfry.Query.Merge.Refill.{
  IsSource, IsLoaded, IsApart, has_prefix, under, future, refill_stream_lem,
}

abbrev kind_one : Bytes
kind_one = le8 1

abbrev newer : Hit
newer = (kind_one ++ le8 20, 7)

abbrev older : Hit
older = (kind_one ++ le8 10, 3)

abbrev batch : Bytes → Bool → List Hit
batch k true = newer ∷ []
batch (b ∷ k) false = older ∷ []
batch [] false = []

abbrev next : Bytes → Bool → Bytes
next k true = 1 ∷ []
next k false = []

abbrev left : Bytes → Bool → List Hit
left k true = newer ∷ older ∷ []
left (b ∷ k) false = older ∷ []
left [] false = []

abbrev scan : Bytes → Bool → ℕ → Result (Unit {0}) (List Hit × Bytes × Bool)
scan k f n = ok (batch k f, next k f, false)

abbrev Anywhere : Bytes → Bool → Type 0
Anywhere k f = Unit

splits : (k : Bytes) (f : Bool) → left k f ≡ batch k f ++ left (next k f) false
splits k true = refl
splits (b ∷ k) false = refl
splits [] false = refl

ends : (k : Bytes) (f : Bool) → batch k f ≡ [] → left k f ≡ []
ends k true e = ground arith
ends (b ∷ k) false e = ground arith
ends [] false e = refl

contiguous : (k : Bytes) (f : Bool) → IsContiguous (has_prefix kind_one) (left k f)
unfolding to_le_bytes starts_with
contiguous k true = (λ e. ground arith, (λ e. tt, tt))
contiguous (b ∷ k) false = (λ e. tt, tt)
contiguous [] false = tt

apart :
    (k : Bytes) (f : Bool)
    → IsApart (under kind_one (batch k f)) (under kind_one (left (next k f) false))
unfolding to_le_bytes from_le_bytes created_at_from_key starts_with
apart k true = ((omega arith, tt), tt)
apart (b ∷ k) false = (tt, tt)
apart [] false = tt

abbrev three_windows : IsSource scan 1 left Anywhere kind_one
three_windows = record {
  batch = batch;
  next = next;
  scans = λ k f at. refl;
  continues = λ k f at. tt;
  splits = λ k f at. splits k f;
  ends = λ k f at. ends k f;
  contiguous = λ k f at. contiguous k f;
  apart = λ k f at. apart k f;
}

abbrev fresh : StreamState
fresh = new_stream (kind_one ++ le8 20)

refill_stream_example :
    (s' : StreamState) × (refill_stream scan 1 0 (some (20, 5)) fresh ≡ ok s')
    × IsLoaded scan 1 0
        (some (20, 5))
        left
        Anywhere
        kind_one
        (future scan 1 0 (some (20, 5)) left Anywhere fresh)
        s'
unfolding new_stream stream_prefix to_le_bytes
refill_stream_example =
    refill_stream_lem scan 1 0 (some (20, 5)) left Anywhere fresh three_windows refl tt

abbrev start : Bytes
start = kind_one ++ le8 20

start-IsStart : IsStart scan 1 0 none left Anywhere start
unfolding stream_prefix to_le_bytes from_le_bytes starts_with created_at_from_key
start-IsStart = (tt, three_windows, ((inl (omega arith), tt), (tt, tt)))

-- Two streams that bring two entries each, and room for three.
merge_windowed_example :
    (out : List Triple) × (merge_windowed scan 1 0 none (start ∷ start ∷ []) 3 ≡ ok out)
    × IsPage 3 (concat_map (wanted scan 1 0 none left Anywhere) (start ∷ start ∷ [])) out
merge_windowed_example =
    merge_windowed_lem scan 1 0 none left Anywhere (start ∷ start ∷ []) 3
      (start-IsStart, (start-IsStart, tt))

-- A key of eight bytes, as in `Event__created_at`.
abbrev pub IsTime : Bytes → Type 0
IsTime k = (length k ≡ 8) × AllBytes k

time_of_key : (k : Bytes) → IsTime k → created_at_from_key k ≡ from_le_bytes k
unfolding created_at_from_key
time_of_key k v = rw (v.0, v.0) refl

bound_of :
    (k : Bytes)
    → IsTime k
    → reverse_upper_bound k
      ≡ (if from_le_bytes k == u64_max then (k, false) else (le8 (from_le_bytes k + 1), true))
unfolding reverse_upper_bound
bound_of k v = rw (v.0, take_all k 8 (omega (arith, v.0))) refl

pub raises :
    (k : Bytes)
    → IsTime k
    → (reverse_upper_bound k).1 ≡ true
    → newer_first (reverse_upper_bound k).0 k ≡ true
raises k v e =
    let n = from_le_bytes k in
    let small : n < 256 ^ 8 = rw v.0 at (from_le_bytes-lt k v.1) in
    elim (Bool-cases (n == u64_max)) [
      | inl t ↦ let kept : false ≡ true = rw (bound_of k v, t) at e in absurd cc
      | inr f ↦ rw (bound_of k v, f, from_le_bytes-le8 (n + 1) (ground arith)) (ground arith)
    ]

pub by_time :
    (j k : Bytes)
    → IsTime j
    → IsTime k
    → starts_with j [] ≡ true
    → starts_with k [] ≡ true
    → newer_first j k ≡ true
    → created_at_from_key k < created_at_from_key j
by_time j k v u s t e = ground (arith, time_of_key j v, time_of_key k u)

pub are_times : All (λ (e : Entry). IsTime e.0) events
unfolding to_le_bytes
are_times = ground arith

index-IsSource_example :
    IsSource
      (scan_index_one_window small_heed tt "Event__created_at" reverse)
      1
      (rest small_heed tt "Event__created_at" newer_first events small_index)
      (At small_heed tt "Event__created_at" newer_first events small_index 1
        (omega arith)
        []
        IsTime
        are_times
        raises
        by_time)
      []
index-IsSource_example =
    index-IsSource small_heed tt "Event__created_at" newer_first events small_index 1 (omega arith)
      [] IsTime are_times raises by_time
