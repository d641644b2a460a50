-- ===== src/Query/Filter.antt =====
-- LMDB2GraphQL/src/query/filter.rs: the filter of a query and the pagination cursor. A Rust string
-- is the list of its UTF-8 bytes.
pub mod Cursor
use deepfry.Base.{ℕ, Option, List}
use deepfry.Base.Words.{Bytes}

pub record TagFilter : Type 0 where
  pub name : Bytes
  pub values : List Bytes

pub record NostrFilter : Type 0 where
  pub ids : Option (List Bytes)
  pub authors : Option (List Bytes)
  pub kinds : Option (List ℕ)
  pub tags : Option (List TagFilter)
  pub since : Option ℕ
  pub until : Option ℕ
  pub limit : ℕ

pub record PageCursor : Type 0 where
  pub created_at : ℕ
  pub lev_id : ℕ
