-- ===== src/Lmdb/Meta/Examples.antt =====
-- The Meta parser at concrete buffers.
use deepfry.Base.{◌≡◌, ◌↔◌, arith, [], ◌∷◌}
use deepfry.Base.Words.{Bytes}
use deepfry.Base.Panics.{done, panic}
use deepfry.Lmdb.Meta.{MetaRecord, parse_meta_flatbuffer}
use deepfry.Lmdb.Meta.Safety.{HasWrappingOffset, parse-panic_iff}
use deepfry.Lmdb.Meta.Layout.{documented_layout, parse-documented_layout}

-- The root offset is 4, and the soffset_t there is -1.
abbrev wrapping : Bytes
wrapping = 4 ∷ 0 ∷ 0 ∷ 0 ∷ 255 ∷ 255 ∷ 255 ∷ 255 ∷ 0 ∷ 0 ∷ 0 ∷ 0 ∷ 0 ∷ 0 ∷ []

abbrev version_three : MetaRecord
version_three = record { db_version = 3; endianness = 1; negentropy_mod_counter = 5 }

parse-panic_iff_example :
    (parse_meta_flatbuffer {E = Unit {0}} wrapping ≡ panic) ↔ HasWrappingOffset wrapping
parse-panic_iff_example = parse-panic_iff {E = Unit {0}} wrapping (omega arith) (omega arith)

parse-documented_layout_example :
    parse_meta_flatbuffer {E = Unit {0}} (documented_layout version_three) ≡ done version_three
parse-documented_layout_example =
    parse-documented_layout {E = Unit {0}} version_three (omega arith) (omega arith) (omega arith)
