-- ===== src/Lmdb/Meta/Layout.antt =====
-- The layout of a Meta value that types.rs documents (48 bytes), and that the parser reads it back.
use deepfry.Base.{◌^◌, ◌<◌, ◌≡◌, arith, [], ◌∷◌, ◌++◌}
use deepfry.Base.Words.{Bytes, to_le_bytes, from_le_bytes}
use deepfry.Base.Panics.{done}
use deepfry.Lmdb.Meta.{
  MetaRecord, parse_meta_flatbuffer, after_root, read_vtable, read_fields, read_u32_at, read_u64_at,
  read_le,
}

-- root_offset = 20, six bytes of padding, the vtable at 10 and the table at 20
abbrev header : Bytes → Bytes
header table =
    20 ∷ 0 ∷ 0 ∷ 0 ∷ 0 ∷ 0 ∷ 0 ∷ 0 ∷ 0 ∷ 0 ∷ 10 ∷ 0 ∷ 28 ∷ 0 ∷ 20 ∷ 0 ∷ 12 ∷ 0 ∷ 4 ∷ 0 ∷ table

pub documented_layout : MetaRecord → Bytes
documented_layout m = header (
    10
    ∷ 0
    ∷ 0
    ∷ 0
    ∷ (to_le_bytes 8 m.negentropy_mod_counter
        ++ (to_le_bytes 4 m.endianness
            ++ (0 ∷ 0 ∷ 0 ∷ 0 ∷ (to_le_bytes 4 m.db_version ++ 0 ∷ 0 ∷ 0 ∷ 0 ∷ [])))))

-- The parser reads every Meta record, with fields of their width, back from the documented
-- 48-byte layout.
pub parse-documented_layout :
    {E : Type 0} (m : MetaRecord)
    → m.db_version < 2 ^ 32
    → m.endianness < 2 ^ 32
    → m.negentropy_mod_counter < 2 ^ 64
    → parse_meta_flatbuffer {E = E} (documented_layout m) ≡ done m
unfolding documented_layout parse_meta_flatbuffer after_root read_vtable read_fields read_u32_at
    read_u64_at read_le to_le_bytes from_le_bytes
parse-documented_layout m hv he hn = ground arith
