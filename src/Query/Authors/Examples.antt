-- ===== src/Query/Authors/Examples.antt =====
-- Successors of concrete keys.
use deepfry.Base.{◌+◌, ◌^◌, ◌≡◌, ◌⊎◌, arith, none, some, [], ◌∷◌, length}
use deepfry.Base.Words.{Bytes, AllBytes}
use deepfry.Query.Authors.{increment_be}
use deepfry.Query.Authors.Increment.{be_value, increment_be_lem}

abbrev two_bytes : Bytes
two_bytes = 1 ∷ 255 ∷ []

increment_be_example :
    ((r : Bytes) × (increment_be two_bytes ≡ some r)
      × (length r ≡ length two_bytes)
      × AllBytes r
      × (be_value r ≡ be_value two_bytes + 1))
    ⊎ ((increment_be two_bytes ≡ none) × (be_value two_bytes + 1 ≡ 256 ^ length two_bytes))
increment_be_example = increment_be_lem two_bytes (omega arith)
