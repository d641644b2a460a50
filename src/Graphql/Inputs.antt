-- ===== src/Graphql/Inputs.antt =====
-- LMDB2GraphQL/src/graphql/resolvers.rs: the arguments of `events` checked and turned into a filter.
pub mod Valid
use Prim.Native.String.{String}
use deepfry.Base.{
  ℕ, Bool, false, Option, none, some, List, [], ◌∷◌, ltb, leb, min, max, if◌then◌else◌,
}
use deepfry.Base.Results.{Result, ok, err, ◌>>=◌}
use deepfry.Base.Ints.{ℤ, pos, negsuc, to_u64, at_least_one}
use deepfry.Query.Filter.{NostrFilter, TagFilter}
use deepfry.Graphql.{
  TagFilterInput, EventFilterInput, GqlError, negative_kind, negative_timestamp, since_after_until,
}

unfoldable pub nonneg_ts : Option ℤ → String → Result GqlError (Option ℕ)
nonneg_ts (some (negsuc n)) field = err (negative_timestamp field)
nonneg_ts (some (pos n)) field = ok (some n)
nonneg_ts none field = ok none

-- The loop over `f.kinds`.
unfoldable pub convert_kinds : List ℤ → Result GqlError (List ℕ)
convert_kinds [] = ok []
convert_kinds (k ∷ ks) = do
  n ← elim (to_u64 k) [ none ↦ err negative_kind | some n ↦ ok n ]
  out ← convert_kinds ks
  ok (n ∷ out)

unfoldable pub convert_optional_kinds : Option (List ℤ) → Result GqlError (Option (List ℕ))
convert_optional_kinds none = ok none
convert_optional_kinds (some ks) = do out ← convert_kinds ks; ok (some out)

-- `since > until`, where both are given.
unfoldable pub is_inverted : Option ℕ → Option ℕ → Bool
is_inverted (some s) (some u) = ltb u s
is_inverted s u = false

abbrev pub tag_filter : TagFilterInput → TagFilter
tag_filter t = record { name = t.name; values = t.values }

abbrev pub one_tag : Option TagFilterInput → Option (List TagFilter)
one_tag none = none
one_tag (some t) = some (tag_filter t ∷ [])

-- `filter.unwrap_or_default()`
unfoldable pub or_default : Option EventFilterInput → EventFilterInput
or_default none = record {
  ids = none;
  authors = none;
  kinds = none;
  since = none;
  until = none;
  tag = none;
}
or_default (some f) = f

unfoldable pub build_from : EventFilterInput → ℕ → Result GqlError NostrFilter
build_from f effective_limit = do
  kinds ← convert_optional_kinds f.kinds
  since ← nonneg_ts f.since "since"
  until ← nonneg_ts f.until "until"
  if is_inverted since until
      then err since_after_until
      else ok (record {
        ids = f.ids;
        authors = f.authors;
        kinds = kinds;
        tags = one_tag f.tag;
        since = since;
        until = until;
        limit = effective_limit;
      })

unfoldable pub build_nostr_filter : Option EventFilterInput → ℕ → Result GqlError NostrFilter
build_nostr_filter filter effective_limit = build_from (or_default filter) effective_limit

-- The limit of a page: in 1 to 500, and 100 without one.
unfoldable pub clamp_limit : Option ℤ → ℕ
clamp_limit none = 100
clamp_limit (some l) = min (at_least_one l) 500

unfoldable pub clamp_per_author : ℤ → ℕ
clamp_per_author per_author = min (at_least_one per_author) 500
