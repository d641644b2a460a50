-- ===== src/Lmdb/Heed.antt =====
-- heed, the LMDB binding that the program calls, as a parameter: a read-only environment, its read
-- transactions, and the cursors over a sub-DB. An iterator is the list of the items that it yields.
use Prim.Native.String.{String}
use deepfry.Base.{ℕ, Option, List}
use deepfry.Base.Results.{Result}
use deepfry.Base.Words.{Bytes}

-- The comparator that a sub-DB is opened with: the three golpe ones of comparators.rs, and
-- `heed::IntegerComparator`.
pub data Comparator : Type 0 where
  string_uint64 uint64_uint64 string_uint64_uint64 integer : Comparator

-- `std::ops::Bound`
pub data Bound : Type 0 where
  included excluded : Bytes → Bound
  unbounded : Bound

abbrev pub Entry : Type 0
Entry = Bytes × Bytes

pub record Heed : Type 1 where
  pub Error : Type 0
  pub Env : Type 0
  pub Txn : Type 0
  pub Db : Type 0
  pub read_txn : Env → Result Error Txn
  -- `database_options().key_comparator().name().open()`
  pub open_db : Env → Txn → Comparator → String → Result Error (Option Db)
  pub get : Db → Txn → Bytes → Result Error (Option Bytes)
  -- `range(..).move_through_duplicate_values()`
  pub range : Db → Txn → Bound → Bound → Result Error (List (Result Error Entry))
  -- `rev_range(..).move_through_duplicate_values()`
  pub rev_range : Db → Txn → Bound → Bound → Result Error (List (Result Error Entry))
  pub last : Db → Txn → Result Error (Option Entry)
  -- `stat().entries`
  pub entries : Db → Txn → Result Error ℕ
