-- ===== src/Spamhunter/Client.antt =====
-- spamhunter/pubkey_iterator/src/graphql: client.rs, envelope.rs and the types of queries.rs.
use Prim.Native.String.{String}
use deepfry.Base.{ℕ, ◌==◌, Bool, Option, none, some, List, [], ◌∷◌, if◌then◌else◌}
use deepfry.Base.Results.{Result, ok, err}
use deepfry.Base.Ints.{ℤ}
use deepfry.Base.Words.{Bytes}

-- The text of a transport error is left out.
pub data ClientError : Type 0 where
  unavailable payload_too_large transport : ClientError
  graphql : (code : Option String) (message : String) → ClientError

pub record GraphQlError : Type 0 where
  pub message : String
  -- `extensions`, which may have a `code`.
  pub extensions : Option (Option String)

pub record GraphQlResponse (A : Type 0) : Type 0 where
  pub data_field : Option A
  pub errors : Option (List GraphQlError)

-- What the HTTP library gives: a status, and the decoded body or none.
pub record Response (A : Type 0) : Type 0 where
  pub status : ℕ
  pub body : Option (GraphQlResponse A)

pub record Event : Type 0 where
  pub id : Bytes
  pub pubkey : Bytes
  pub kind : ℤ
  pub created_at : ℤ
  pub content : Bytes
  pub tags : List (List Bytes)

pub record AuthorGroup : Type 0 where
  pub author : Bytes
  pub events : List Event

pub record AuthorsPage : Type 0 where
  pub authors : List Bytes
  pub has_more : Bool
  pub end_cursor : Option Bytes

pub record StatsResult : Type 0 where
  pub max_lev_id : ℤ

-- The HTTP calls, on the world outside; none is an error of the transport.
pub record Http : Type 1 where
  pub World : Type 0
  pub post_authors : Option Bytes → ℕ → World → Option (Response AuthorsPage) × World
  pub post_stats : World → Option (Response StatsResult) × World
  pub post_latest : ℤ → ℤ → List Bytes → World → Option (Response (List AuthorGroup)) × World

-- `x.extensions.and_then(|x| x.code)`
unfoldable pub code_of : Option (Option String) → Option String
code_of none = none
code_of (some code) = code

-- `env.data.ok_or(...)`
unfoldable pub data_or_error : {A : Type 0} → Option A → Result ClientError A
data_or_error none = err (graphql none "response carried null data with no errors")
data_or_error (some x) = ok x

-- The first of the `errors`, and the data where there is none.
unfoldable pub open_envelope : {A : Type 0} → GraphQlResponse A → Result ClientError A
open_envelope env = elim env.errors [
  | none ↦ data_or_error env.data_field
  | some [] ↦ data_or_error env.data_field
  | some (first ∷ rest) ↦ err (graphql (code_of first.extensions) first.message)
]

unfoldable pub decode_body : {A : Type 0} → Option (GraphQlResponse A) → Result ClientError A
decode_body none = err transport
decode_body (some env) = open_envelope env

-- `GraphQlClient::query` on what came back.
unfoldable pub query : {A : Type 0} → Option (Response A) → Result ClientError A
query none = err transport
query (some resp) =
    if resp.status == 503
    then err unavailable
    else if resp.status == 413
    then err payload_too_large
    else decode_body resp.body

module _ (h : Http) where
  unfoldable pub authors : Option Bytes → ℕ → h.World → Result ClientError AuthorsPage × h.World
  authors after limit w = let (resp, w') = h.post_authors after limit w in (query resp, w')

  unfoldable pub stats : h.World → Result ClientError StatsResult × h.World
  stats w = let (resp, w') = h.post_stats w in (query resp, w')

  unfoldable pub latest_per_author :
      ℤ → ℤ → List Bytes → h.World → Result ClientError (List AuthorGroup) × h.World
  latest_per_author kind per_author batch w =
      let (resp, w') = h.post_latest kind per_author batch w in (query resp, w')
