-- ===== src/Lmdb/SelfCheck/Examples.antt =====
-- A sample of two keys that memcmp would order the other way round.
use deepfry.Base.{ℕ, ◌≡◌, ◌↔◌, Bool, ltb, List, [], ◌∷◌}
use deepfry.Base.Results.{ok}
use deepfry.Base.Words.{Bytes, le8, from_le_bytes}
use deepfry.Lmdb.SelfCheck.{witness_positions}
use deepfry.Lmdb.SelfCheck.Order.{IsNonDecreasing, witness_positions-ok_iff}

abbrev by_number : Bytes → Bytes → Bool
by_number j k = ltb (from_le_bytes k) (from_le_bytes j)

witness_positions-ok_iff_example :
    ((found : List ℕ) × (witness_positions {E = Unit {0}} by_number "Event__kind"
          (le8 255 ∷ le8 256 ∷ [])
        ≡ ok found))
    ↔ IsNonDecreasing by_number (le8 255 ∷ le8 256 ∷ [])
witness_positions-ok_iff_example =
    witness_positions-ok_iff {E = Unit {0}} by_number "Event__kind" (le8 255 ∷ le8 256 ∷ [])
