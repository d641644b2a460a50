-- ===== src/Lmdb/Scan/First/Examples.antt =====
-- A seek in a small `Event__kind` index.
use deepfry.Base.{◌≡◌, refl, some, List, [], ◌∷◌}
use deepfry.Base.Results.{Result, ok}
use deepfry.Base.Words.{le8}
use deepfry.Lmdb.Heed.{Heed}
use deepfry.Lmdb.Indexes.{IndexError, seek_first_ge_lev_id}
use deepfry.Lmdb.Scan.{Hit, forward, scan_index_bounded}
use deepfry.Lmdb.Scan.Examples.{small_heed}
use deepfry.Lmdb.Scan.First.{first_hit, seek_first_ge_lev_id-scan_index_bounded}

-- Two entries at the key that is sought or after it.
abbrev kinds : Heed
kinds = record small_heed {
  range = λ db rtxn from to. ok (ok (le8 1, le8 7) ∷ ok (le8 2, le8 8) ∷ []);
}

seek_first_ge_lev_id_example :
    (scanned : Result (IndexError kinds.Error) (List Hit)) × (scan_index_bounded kinds 0 tt
        "Event__kind" forward
        (le8 1)
        1
      ≡ some scanned)
    × (seek_first_ge_lev_id kinds tt "Event__kind" (le8 1) ≡ first_hit scanned)
seek_first_ge_lev_id_example =
    seek_first_ge_lev_id-scan_index_bounded kinds 0 tt "Event__kind" (le8 1) refl
