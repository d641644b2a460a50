-- ===== src/Graphql.antt =====
-- LMDB2GraphQL/src/graphql/types.rs: what the resolvers take and give, and the errors of
-- resolvers.rs. A pubkey is the list of its bytes.
pub mod Inputs
pub mod Stats
pub mod Resolvers
mod Examples
use Prim.Native.String.{String}
use deepfry.Base.{ℕ, Bool, Option, List}
use deepfry.Base.Ints.{ℤ, as_i64}
use deepfry.Base.Words.{Bytes}
use deepfry.Lmdb.Payload.{DecodedEvent}
use deepfry.Query.Engine.{QueryError, lmdb, payload, cursor_decode}

pub record Event : Type 0 where
  pub id : Bytes
  pub pubkey : Bytes
  pub kind : ℤ
  pub created_at : ℤ
  pub content : Bytes
  pub sig : Bytes
  pub tags : List (List Bytes)
  pub raw : Bytes

pub record EventsPage : Type 0 where
  pub events : List Event
  pub end_cursor : Option Bytes
  pub has_more : Bool

pub record AuthorsPage : Type 0 where
  pub authors : List Bytes
  pub end_cursor : Option Bytes
  pub has_more : Bool

pub record AuthorGroup : Type 0 where
  pub author : Bytes
  pub events : List Event

pub record StatsResult : Type 0 where
  pub event_count : ℤ
  pub max_lev_id : ℤ
  pub db_version : ℤ
  pub pinned_strfry_version : Bytes

pub record TagFilterInput : Type 0 where
  pub name : Bytes
  pub values : List Bytes

pub record EventFilterInput : Type 0 where
  pub ids : Option (List Bytes)
  pub authors : Option (List Bytes)
  pub kinds : Option (List ℤ)
  pub since : Option ℤ
  pub until : Option ℤ
  pub tag : Option TagFilterInput

-- The errors that a client sees, by their messages.
pub data GqlError : Type 0 where
  negative_kind : GqlError
  negative_timestamp : (field : String) → GqlError
  since_after_until : GqlError
  too_many_authors : GqlError
  invalid_cursor : (reason : Bytes) → GqlError
  cursor_malformed_hex : GqlError
  cursor_wrong_length : GqlError
  internal_error : GqlError

unfoldable pub map_query_error : {E Z J : Type 0} → QueryError E Z J → GqlError
map_query_error (cursor_decode reason) = invalid_cursor reason
map_query_error (lmdb inner) = internal_error
map_query_error (payload inner) = internal_error

-- `lossy` is `String::from_utf8_lossy`.
unfoldable pub decoded_event_to_gql : (Bytes → Bytes) → DecodedEvent → Event
decoded_event_to_gql lossy d = record {
  id = d.event.id;
  pubkey = d.event.pubkey;
  kind = as_i64 d.event.kind;
  created_at = as_i64 d.event.created_at;
  content = d.event.content;
  sig = d.event.sig;
  tags = d.event.tags;
  raw = lossy d.raw_json;
}
