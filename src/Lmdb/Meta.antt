-- ===== src/Lmdb/Meta.antt =====
-- LMDB2GraphQL/src/lmdb/meta.rs: the Meta record, its FlatBuffer and the start-up gates.
-- `usize` has 64 bits and its additions wrap, as in a release build.
mod Offsets
pub mod Safety
pub mod Layout
mod Examples
use Prim.Native.String.{String}
use deepfry.Base.{
  ℕ, ◌+◌, ◌-◌, ◌*◌, ◌/◌, ◌%◌, ◌^◌, Option, none, some, ◌||◌, not, ltb, ◌==◌, length, if◌then◌else◌,
}
use deepfry.Base.Results.{Result, ok, err}
use deepfry.Base.Words.{Bytes, to_le_bytes, from_le_bytes}
use deepfry.Base.Panics.{Outcome, done, fail, panic, fail_if, slice, ◌>>=◌, ◌>>◌}
use deepfry.Lmdb.Heed.{Heed, Comparator}

abbrev pub expected_db_version : ℕ
expected_db_version = 3

abbrev pub strfry_little_endian_marker : ℕ
strfry_little_endian_marker = 1

abbrev pub meta_db_name : String
meta_db_name = "rasgueadb_defaultDb__Meta"

pub record MetaRecord : Type 0 where
  pub db_version : ℕ
  pub endianness : ℕ
  pub negentropy_mod_counter : ℕ

-- The messages of `VtableError`, with the numbers that they print.
pub data VtableProblem : Type 0 where
  root_offset_exceeds vtable_exceeds : ℕ → ℕ → VtableProblem
  vtable_size_invalid : ℕ → ℕ → VtableProblem
  too_few_fields : ℕ → VtableProblem
  u32_field_exceeds u64_field_exceeds : ℕ → ℕ → VtableProblem

pub data MetaError (E : Type 0) : Type 0 where
  heed : E → MetaError E
  sub_db_not_found : String → MetaError E
  record_not_found : MetaError E
  value_too_short : ℕ → ℕ → MetaError E
  vtable_error : VtableProblem → MetaError E
  db_version_mismatch : ℕ → ℕ → MetaError E
  endianness_mismatch : ℕ → ℕ → MetaError E

-- `a + b` on `usize`
abbrev pub add_usize : ℕ → ℕ → ℕ
add_usize a b = (a + b) % 2 ^ 64

-- `x as usize` of an `i32` that is given by its 32 bits
abbrev pub i32_as_usize : ℕ → ℕ
i32_as_usize x = if ltb x (2 ^ 31) then x else x + (2 ^ 64 - 2 ^ 32)

module _ {E : Type 0} where
  -- `uN::from_le_bytes(raw[at..at + width].try_into()...)`
  unfoldable pub read_le : Bytes → ℕ → ℕ → Outcome (MetaError E) ℕ
  read_le raw at width = do bs ← slice raw at (add_usize at width); done (from_le_bytes bs)

  unfoldable pub read_u32_at : Bytes → ℕ → ℕ → Outcome (MetaError E) ℕ
  read_u32_at raw table_start field_offset =
      let abs = add_usize table_start field_offset in
      if field_offset == 0
      then done 0
      else if ltb (length raw) (add_usize abs 4)
      then fail (vtable_error (u32_field_exceeds abs (length raw)))
      else read_le raw abs 4

  unfoldable pub read_u64_at : Bytes → ℕ → ℕ → Outcome (MetaError E) ℕ
  read_u64_at raw table_start field_offset =
      let abs = add_usize table_start field_offset in
      if field_offset == 0
      then done 0
      else if ltb (length raw) (add_usize abs 8)
      then fail (vtable_error (u64_field_exceeds abs (length raw)))
      else read_le raw abs 8

  -- Steps 4 and 5 of `parse_meta_flatbuffer`: the field offsets and the fields.
  unfoldable pub read_fields : Bytes → ℕ → ℕ → Outcome (MetaError E) MetaRecord
  read_fields raw root_offset vtable_abs = do
    at_db_version ← read_le raw (add_usize vtable_abs 4) 2
    at_endianness ← read_le raw (add_usize vtable_abs 6) 2
    at_negentropy ← read_le raw (add_usize vtable_abs 8) 2
    db_version ← read_u32_at raw root_offset at_db_version
    endianness ← read_u32_at raw root_offset at_endianness
    counter ← read_u64_at raw root_offset at_negentropy
    done (record {
      db_version = db_version;
      endianness = endianness;
      negentropy_mod_counter = counter;
    })

  -- Step 3: the vtable's header.
  unfoldable pub read_vtable : Bytes → ℕ → ℕ → Outcome (MetaError E) MetaRecord
  read_vtable raw root_offset vtable_abs = do
    vtable_size ← read_le raw vtable_abs 2
    fail_if (ltb vtable_size 4 || ltb (length raw) (add_usize vtable_abs vtable_size))
        (vtable_error (vtable_size_invalid vtable_size vtable_abs))
    let num_fields = (vtable_size - 4) / 2
    fail_if (ltb num_fields 3) (vtable_error (too_few_fields num_fields))
    read_fields raw root_offset vtable_abs

  -- Step 2: the soffset_t at the table's start, which golpe uses as the vtable's position.
  unfoldable pub after_root : Bytes → ℕ → Outcome (MetaError E) MetaRecord
  after_root raw root_offset = do
    soffset ← read_le raw root_offset 4
    let vtable_abs = i32_as_usize soffset
    fail_if (ltb (length raw) (add_usize vtable_abs 4))
        (vtable_error (vtable_exceeds vtable_abs (length raw)))
    read_vtable raw root_offset vtable_abs

  unfoldable pub parse_meta_flatbuffer : Bytes → Outcome (MetaError E) MetaRecord
  parse_meta_flatbuffer raw = do
    fail_if (ltb (length raw) 14) (value_too_short (length raw) 14)
    root_offset ← read_le raw 0 4
    fail_if (ltb (length raw) (add_usize root_offset 4))
        (vtable_error (root_offset_exceeds root_offset (length raw)))
    after_root raw root_offset

  unfoldable pub assert_db_version : MetaRecord → Result (MetaError E) (Unit {0})
  assert_db_version meta =
      if not (meta.db_version == expected_db_version)
      then err (db_version_mismatch expected_db_version meta.db_version)
      else ok tt

  unfoldable pub assert_endianness : MetaRecord → Result (MetaError E) (Unit {0})
  assert_endianness meta =
      if not (meta.endianness == strfry_little_endian_marker)
      then err (endianness_mismatch meta.endianness strfry_little_endian_marker)
      else ok tt

module _ (h : Heed) where
  open h use {Error, Env, Db, Txn, read_txn, open_db, get}

  abbrev lift : {A : Type 0} → Result Error A → Outcome (MetaError Error) A
  lift (ok a) = done a
  lift (err e) = fail (heed e)

  abbrev or_fail : {A : Type 0} → Option A → MetaError Error → Outcome (MetaError Error) A
  or_fail none e = fail e
  or_fail (some a) e = done a

  unfoldable pub read_meta : Env → Outcome (MetaError Error) MetaRecord
  read_meta env = do
    rtxn ← lift (read_txn env)
    opened ← lift (open_db env rtxn Comparator.integer meta_db_name)
    meta_db ← or_fail opened (sub_db_not_found meta_db_name)
    found ← lift (get meta_db rtxn (to_le_bytes 8 1))
    meta_bytes ← or_fail found record_not_found
    parse_meta_flatbuffer meta_bytes
