-- ===== src/Lmdb/Scan/Examples.antt =====
-- Scans of a small `Event__created_at` index.
use deepfry.Base.{
  ◌+◌, ◌<◌, length, ◌≡◌, ◌≢◌, ◌⊎◌, inl, inr, refl, arith, Bool, true, false, ◌||◌, ltb, ◌==◌, none,
  some, List, [], ◌∷◌, ◌++◌, map, All, keep_if, bytes_eq, if◌then◌else◌,
}
use deepfry.Base.Results.{Result, ok}
use deepfry.Base.Words.{Bytes, le8, to_le_bytes, from_le_bytes, u64_max}
use deepfry.Lmdb.Heed.{Heed, Bound, Entry}
use deepfry.Lmdb.Indexes.{lev_id_of_value, open_named, open_index}
use deepfry.Lmdb.Scan.{
  Hit, reverse, reverse_upper_bound, scan_index_one_window, scan_index_windowed, last_key_or,
}
use deepfry.Lmdb.Scan.Window.{after, hits, IsScanOrder, IsInOrder}
use deepfry.Lmdb.Scan.Bounds.{reverse_upper_bound_lem}
use deepfry.Lmdb.Scan.Resume.{
  IsReverseIndex, rest, walk_bound, scan_index_one_window_lem, scan_index_windowed_lem,
}

-- The key of a later time comes first.
abbrev pub newer_first : Bytes → Bytes → Bool
newer_first j k = ltb (from_le_bytes k) (from_le_bytes j)

-- Three events at two times, in reverse order.
abbrev pub events : List Entry
events = (le8 20, le8 3) ∷ (le8 10, le8 2) ∷ (le8 10, le8 1) ∷ []

abbrev reverse_range : Bound → Result (Unit {0}) (List (Result (Unit {0}) Entry))
reverse_range (Bound.included k) =
    ok (map ok (keep_if (λ (e : Entry). newer_first k e.0 || bytes_eq k e.0) events))
reverse_range (Bound.excluded k) = ok (map ok (after newer_first k events))
reverse_range Bound.unbounded = ok (map ok events)

abbrev pub small_heed : Heed
small_heed = record {
  Error = Unit {0};
  Env = Unit {0};
  Txn = Unit {0};
  Db = Unit {0};
  read_txn = λ env. ok tt;
  open_db = λ env rtxn comparator name. ok (some tt);
  get = λ db rtxn key. ok none;
  range = λ db rtxn from to. ok [];
  rev_range = λ db rtxn from to. reverse_range to;
  last = λ db rtxn. ok none;
  entries = λ db rtxn. ok 3;
}

pub includes_lem :
    (k : Bytes) (es : List Entry)
    → All (λ (e : Entry). bytes_eq k e.0 ≡ false) es
    → keep_if (λ (e : Entry). newer_first k e.0 || bytes_eq k e.0) es ≡ after newer_first k es
includes_lem k [] a = refl
includes_lem k (e ∷ es) a = ground (arith, includes_lem k es)

pub newest : open_named small_heed tt tt "Event__created_at" ≡ ok tt
unfolding open_named open_index
newest = refl

pub newer_first-IsScanOrder : IsScanOrder newer_first
newer_first-IsScanOrder = record { irrefl = λ k. ground arith; trans = λ j k l a b. ground arith }

pub order_of_events : IsInOrder newer_first events
unfolding to_le_bytes from_le_bytes
order_of_events = ((inr refl, (inr refl, tt)), ((inl refl, tt), (tt, tt)))

abbrev pub small_index : IsReverseIndex small_heed tt "Event__created_at" newer_first events
small_index = record {
  rtxn = tt;
  db = tt;
  reads = refl;
  opens = newest;
  order = newer_first-IsScanOrder;
  in_order = order_of_events;
  excludes = λ k. refl;
  includes = λ k a. rw (includes_lem k events a) refl;
}

clear :
    (reverse_upper_bound (le8 20)).1 ≡ false
    → All (λ (e : Entry). bytes_eq (le8 20) e.0 ≡ false) events
unfolding reverse_upper_bound to_le_bytes from_le_bytes
clear e = ground arith

few_left :
    length (rest small_heed tt "Event__created_at" newer_first events small_index (le8 20) true) < 4
unfolding rest walk_bound reverse_upper_bound to_le_bytes from_le_bytes hits lev_id_of_value
few_left = omega arith

reverse_upper_bound_example :
    reverse_upper_bound (le8 1 ++ le8 20)
    ≡ (if 20 == u64_max then (le8 1 ++ le8 20, false) else (le8 1 ++ le8 (20 + 1), true))
reverse_upper_bound_example = reverse_upper_bound_lem (le8 1) 20 (omega arith)

scan_index_one_window_example :
    (b : List Hit) × (scan_index_one_window small_heed tt "Event__created_at" reverse
        (le8 20)
        true
        1
      ≡ ok (b, last_key_or (le8 20) b, false))
    × ((b ≡ []
          × (rest small_heed tt "Event__created_at" newer_first events small_index (le8 20) true
              ≡ []))
        ⊎ (b ≢ []
            × (rest small_heed tt "Event__created_at" newer_first events small_index (le8 20) true
                ≡ b
                  ++ rest small_heed tt "Event__created_at" newer_first events small_index
                      (last_key_or (le8 20) b)
                      false)))
scan_index_one_window_example =
    scan_index_one_window_lem small_heed tt "Event__created_at" newer_first events small_index
      (le8 20) true 1 (omega arith) clear

scan_index_windowed_example :
    scan_index_windowed small_heed 4 tt "Event__created_at" reverse (le8 20) 1
    ≡ some
        (ok (rest small_heed tt "Event__created_at" newer_first events small_index (le8 20) true))
scan_index_windowed_example =
    scan_index_windowed_lem small_heed tt "Event__created_at" newer_first events small_index 4
      (le8 20) 1 (omega arith) clear few_left
