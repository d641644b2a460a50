-- ===== src/Query/Authors.antt =====
-- LMDB2GraphQL/src/query/authors.rs: the distinct authors of the index, one seek for each author.
pub mod Increment
pub mod Page
mod Examples
use deepfry.Base.{
  ℕ, zero, suc, ◌+◌, Bool, true, false, Option, none, some, List, [], ◌∷◌, ◌++◌, length, take,
  last?, ltb, ◌==◌, if◌then◌else◌,
}
use deepfry.Base.Results.{Result, ok, err, map_err, ◌>>=◌}
use deepfry.Base.Words.{Bytes, le8}
use deepfry.Lmdb.Heed.{Heed, Comparator, Bound, Entry}
use deepfry.Lmdb.Indexes.{IndexError, heed, open_index}

-- The loop of `increment_be` from the last byte on: the bytes and whether a carry is left.
unfoldable pub add_one : Bytes → Bytes × Bool
add_one [] = ([], true)
add_one (b ∷ bs) =
    let (low, carry) = add_one bs in
    if carry
    then (if b == 255 then (0 ∷ low, true) else ((b + 1) ∷ low, false))
    else (b ∷ low, false)

unfoldable pub increment_be : Bytes → Option Bytes
increment_be pk = let (low, carry) = add_one pk in if carry then none else some low

unfoldable pub make_seek_key : Bytes → Bytes
make_seek_key pk = pk ++ le8 0

-- 32 zero bytes
abbrev pub lowest_pubkey : Bytes
lowest_pubkey = le8 0 ++ (le8 0 ++ (le8 0 ++ le8 0))

abbrev pub seek_after : Option Bytes → Option Bytes
seek_after none = some lowest_pubkey
seek_after (some pk) = increment_be pk

module _ (h : Heed) where
  open h use {Error, Env, Txn, Db, read_txn, range}

  -- The loop, on the number of authors that are still wanted.
  unfoldable pub authors_from : ℕ → Db → Txn → Bytes → Result (IndexError Error) (List Bytes)
  authors_from zero db rtxn seek_key = ok []
  authors_from (suc n) db rtxn seek_key = do
    items ← map_err heed (range db rtxn (Bound.included seek_key) Bound.unbounded)
    elim items [
      | [] ↦ ok []
      | err e ∷ more ↦ err (heed e)
      | ok (key, value) ∷ more ↦
          let rest : Result (IndexError Error) (List Bytes) = elim (increment_be (take 32 key)) [
            | none ↦ ok []
            | some next_pk ↦ authors_from n db rtxn (make_seek_key next_pk)
          ] in
          if ltb (length key) 32 then ok [] else (do authors ← rest; ok (take 32 key ∷ authors))
    ]

  -- A page of authors, and the cursor of the next page if this one is full.
  unfoldable pub distinct_authors :
      Env → Option Bytes → ℕ → Result (IndexError Error) (List Bytes × Option Bytes)
  distinct_authors env after limit = do
    rtxn ← map_err heed (read_txn env)
    db ← open_index h Comparator.string_uint64 env rtxn "Event__pubkey"
    elim (seek_after after) [
      | none ↦ ok ([], none)
      | some pk ↦ (do
        result ← authors_from limit db rtxn (make_seek_key pk)
        ok (result, if length result == limit then last? result else none))
    ]
