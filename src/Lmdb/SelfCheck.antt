-- ===== src/Lmdb/SelfCheck.antt =====
-- LMDB2GraphQL/src/lmdb/self_check.rs: the comparators against the order of the indexes. An error
-- has the keys where the code writes their hex text. `is_greater` stands for the comparators, which
-- call C++.
pub mod Order
mod Examples
use Prim.Native.String.{String}
use text.Mathlib.Text.{◌==◌ as str_eq}
use deepfry.Base.{
  ℕ, zero, suc, ◌+◌, ◌-◌, ◌/◌, Bool, true, false, ◌&&◌, ◌||◌, ltb, leb, ◌==◌, max, Option, none,
  some, List, [], ◌∷◌, length, not, is_empty, bytes_eq, get_elem?, if◌then◌else◌,
}
use deepfry.Base.Results.{Result, ok, err, map_err, ◌>>=◌}
use deepfry.Base.Words.{Bytes}
use deepfry.Lmdb.Heed.{Heed, Comparator, Bound, Entry}
use deepfry.Lmdb.Indexes.{IndexError, heed, sub_db_not_found, open_index}

abbrev pub self_check_sample_cap : ℕ
self_check_sample_cap = 10000

pub data SelfCheckError (E : Type 0) : Type 0 where
  monotonicity_violation : (index : String) (pos : ℕ) (prev cur : Bytes) → SelfCheckError E
  seek_round_trip_mismatch :
      (index : String) (sought : Bytes) (landed : Option Bytes) → SelfCheckError E
  index_scan : (index : String) (source : IndexError E) → SelfCheckError E

pub record IndexCheckReport : Type 0 where
  pub sampled : ℕ
  pub witnesses : ℕ

-- `prev.cmp(cur) == Ordering::Greater`, byte by byte.
unfoldable pub memcmp_greater : Bytes → Bytes → Bool
memcmp_greater [] ys = false
memcmp_greater (x ∷ xs) [] = true
memcmp_greater (x ∷ xs) (y ∷ ys) = let rest = memcmp_greater xs ys in ltb y x || (x == y && rest)

module _ {E : Type 0} where
  -- The keys of an iterator, `left` at most.
  unfoldable pub keys_of :
      String → ℕ → List (Result E Entry) → Result (SelfCheckError E) (List Bytes)
  keys_of index left [] = ok []
  keys_of index left (err e ∷ items) = err (index_scan index (heed e))
  keys_of index left (ok (key, value) ∷ items) =
      let rest = (do keys ← keys_of index (left - 1) items; ok (key ∷ keys)) in
      if leb left 1 then ok (key ∷ []) else rest

  -- Phase A from a position on: the positions of the witnesses.
  unfoldable pub phase_a :
      (Bytes → Bytes → Bool) → String → ℕ → Bytes → List Bytes → Result (SelfCheckError E) (List ℕ)
  phase_a is_greater index pos prev [] = ok []
  phase_a is_greater index pos prev (cur ∷ keys) =
      let rest = (do
        found ← phase_a is_greater index (pos + 1) cur keys
        ok (if memcmp_greater prev cur then pos ∷ found else found)) in
      if is_greater prev cur then err (monotonicity_violation index pos prev cur) else rest

  unfoldable pub witness_positions :
      (Bytes → Bytes → Bool) → String → List Bytes → Result (SelfCheckError E) (List ℕ)
  witness_positions is_greater index [] = ok []
  witness_positions is_greater index (key ∷ keys) = phase_a is_greater index 1 key keys

  -- What a seek landed on, against the key that was sought.
  unfoldable pub landed_on :
      String → Bytes → List (Result E Entry) → Result (SelfCheckError E) (Unit {0})
  landed_on index sought [] = err (seek_round_trip_mismatch index sought none)
  landed_on index sought (err e ∷ items) = err (index_scan index (heed e))
  landed_on index sought (ok (landed, value) ∷ items) =
      if bytes_eq landed sought
      then ok tt
      else err (seek_round_trip_mismatch index sought (some landed))

  -- The seek of one key of the sample; every target is a position of the sample.
  unfoldable pub check_key :
      String
      → (Bytes → Result E (List (Result E Entry)))
      → Option Bytes
      → Result (SelfCheckError E) (Unit {0})
  check_key index seek none = ok tt
  check_key index seek (some sought) = do
    items ← map_err (λ e. index_scan index (heed e)) (seek sought)
    landed_on index sought items

  unfoldable pub check_targets :
      String
      → (Bytes → Result E (List (Result E Entry)))
      → List Bytes
      → List ℕ
      → Result (SelfCheckError E) (Unit {0})
  check_targets index seek keys [] = ok tt
  check_targets index seek keys (idx ∷ targets) = do
    here ← check_key index seek (get_elem? keys idx)
    check_targets index seek keys targets

-- Both positions of each witness pair.
unfoldable pub both_positions : List ℕ → List ℕ
both_positions [] = []
both_positions (pos ∷ found) = (pos - 1) ∷ pos ∷ both_positions found

unfoldable pub insert_position : ℕ → List ℕ → List ℕ
insert_position n [] = n ∷ []
insert_position n (m ∷ ms) =
    let rest = insert_position n ms in if leb n m then n ∷ m ∷ ms else m ∷ rest

-- `sort_unstable`
unfoldable pub sort_positions : List ℕ → List ℕ
sort_positions [] = []
sort_positions (n ∷ ns) = insert_position n (sort_positions ns)

-- `dedup`
unfoldable pub dedup_positions : List ℕ → List ℕ
dedup_positions [] = []
dedup_positions (n ∷ []) = n ∷ []
dedup_positions (n ∷ m ∷ ns) =
    let rest = dedup_positions (m ∷ ns) in if n == m then rest else n ∷ rest

-- Every `step`-th position below `len`, on the fuel of as many.
unfoldable pub spread : ℕ → ℕ → ℕ → ℕ → List ℕ
spread zero i step len = []
spread (suc fuel) i step len =
    let rest = spread fuel (i + step) step len in if ltb i len then i ∷ rest else []

unfoldable pub seek_targets : ℕ → List ℕ → List ℕ
seek_targets len found =
    let targets = dedup_positions (sort_positions (both_positions found)) in
    if is_empty targets && not (len == 0)
    then spread len 0 (max ((len + 63) / 64) 1) len
    else targets

abbrev pub all_event_indexes : List String
all_event_indexes =
    "Event__id" ∷ "Event__pubkey" ∷ "Event__created_at" ∷ "Event__kind" ∷ "Event__pubkeyKind"
    ∷ "Event__tag" ∷ []

module _ (h : Heed) (is_greater : Comparator → Bytes → Bytes → Bool) where
  open h use {Error, Env, Txn, Db, read_txn, range}

  unfoldable pub check_index :
      Db → Txn → Comparator → String → List Bytes → Result (SelfCheckError Error) IndexCheckReport
  check_index db rtxn comparator index keys = do
    found ← witness_positions (is_greater comparator) index keys
    held ←
        check_targets index (λ sought. range db rtxn (Bound.included sought) Bound.unbounded) keys
          (seek_targets (length keys) found)
    ok (record { sampled = length keys; witnesses = length found })

  unfoldable pub check_opened :
      Env → Txn → Comparator → String → Result (SelfCheckError Error) IndexCheckReport
  check_opened env rtxn comparator index = do
    db ← map_err (index_scan index) (open_index h comparator env rtxn index)
    items ← map_err (λ e. index_scan index (heed e)) (range db rtxn Bound.unbounded Bound.unbounded)
    keys ← keys_of index self_check_sample_cap items
    check_index db rtxn comparator index keys

  unfoldable pub check_index_by_name : Env → String → Result (SelfCheckError Error) IndexCheckReport
  check_index_by_name env short_name = do
    rtxn ← map_err (λ e. index_scan short_name (heed e)) (read_txn env)
    if str_eq short_name "Event__id"
          || (str_eq short_name "Event__pubkey" || str_eq short_name "Event__tag")
        then check_opened env rtxn Comparator.string_uint64 short_name
        else if str_eq short_name "Event__kind"
        then check_opened env rtxn Comparator.uint64_uint64 short_name
        else if str_eq short_name "Event__pubkeyKind"
        then check_opened env rtxn Comparator.string_uint64_uint64 short_name
        else if str_eq short_name "Event__created_at"
        then check_opened env rtxn Comparator.integer short_name
        else err (index_scan short_name (sub_db_not_found short_name))

  unfoldable pub check_all : Env → List String → Result (SelfCheckError Error) (Unit {0})
  check_all env [] = ok tt
  check_all env (short_name ∷ names) = do
    report ← check_index_by_name env short_name
    check_all env names

  unfoldable pub run_comparator_self_check : Env → Result (SelfCheckError Error) (Unit {0})
  run_comparator_self_check env = check_all env all_event_indexes
