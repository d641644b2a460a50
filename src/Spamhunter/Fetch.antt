-- ===== src/Spamhunter/Fetch.antt =====
-- spamhunter/pubkey_iterator/src/fetch.rs. The pauses of the retries are left out here.
pub mod Matching
pub mod Splitting
use deepfry.Base.{
  ℕ, zero, suc, ◌/◌, ltb, Bool, Option, none, some, List, [], ◌∷◌, ◌++◌, length, take, drop,
  bytes_eq, if◌then◌else◌,
}
use deepfry.Base.Results.{Result, ok, err}
use deepfry.Base.Ints.{ℤ}
use deepfry.Base.Words.{Bytes}
use deepfry.Spamhunter.Client.{
  ClientError, unavailable, payload_too_large, transport, graphql, Event, AuthorGroup, Http,
  latest_per_author,
}
use deepfry.Spamhunter.Retry.{Attempted, retry}

-- `HashMap<String, V>`, as an association list.
abbrev pub StringMap : Type 0 → Type 0
StringMap V = List (Bytes × V)

module _ {V : Type 0} where
  unfoldable pub get : Bytes → StringMap V → Option V
  get key [] = none
  get key ((k, v) ∷ m) = if bytes_eq key k then some v else get key m

  -- `insert`: an old value is replaced.
  unfoldable pub put : Bytes → V → StringMap V → StringMap V
  put key value [] = (key, value) ∷ []
  put key value ((k, v) ∷ m) =
      let rest = put key value m in if bytes_eq key k then (k, value) ∷ m else (k, v) ∷ rest

  -- `remove`, without the value.
  unfoldable pub without : Bytes → StringMap V → StringMap V
  without key [] = []
  without key ((k, v) ∷ m) =
      let rest = without key m in if bytes_eq key k then rest else (k, v) ∷ rest

unfoldable pub or_default : {A : Type 0} → Option (List A) → List A
or_default none = []
or_default (some xs) = xs

-- `collect` into `m`: the last of two groups of one author stays.
unfoldable pub by_author : List AuthorGroup → StringMap (List Event) → StringMap (List Event)
by_author [] m = m
by_author (g ∷ gs) m = by_author gs (put g.author g.events m)

unfoldable pub match_requested : List Bytes → StringMap (List Event) → List (Bytes × List Event)
match_requested [] m = []
match_requested (pk ∷ pks) m = (pk, or_default (get pk m)) ∷ match_requested pks (without pk m)

unfoldable pub match_groups : List Bytes → List AuthorGroup → List (Bytes × List Event)
match_groups requested groups = match_requested requested (by_author groups [])

-- The guard of the split: the server refused a batch that can be split.
unfoldable pub must_split : Result ClientError (List AuthorGroup) → ℕ → Bool
must_split (ok groups) n = ltb 1 0
must_split (err payload_too_large) n = ltb 1 n
must_split (err unavailable) n = ltb 1 0
must_split (err transport) n = ltb 1 0
must_split (err (graphql code message)) n = ltb 1 0

module _ (h : Http) (kind per_author : ℤ) where
  abbrev pub Fetched : Type 0
  Fetched = Result ClientError (List AuthorGroup) × h.World

  -- `left.extend(right)`
  unfoldable pub extend : List AuthorGroup → Fetched → Fetched
  extend left (ok right, w) = (ok (left ++ right), w)
  extend left (err e, w) = (err e, w)

  unfoldable pub both_halves : Fetched → (h.World → Fetched) → Fetched
  both_halves (err e, w) right = (err e, w)
  both_halves (ok left, w) right = extend left (right w)

  -- The recursion, which the length of the batch bounds.
  unfoldable pub fetch_within : ℕ → List Bytes → h.World → Fetched
  fetch_within zero batch w =
      let got = retry (latest_per_author h kind per_author batch) w in (got.answer, got.world)
  fetch_within (suc fuel) batch w =
      let got = retry (latest_per_author h kind per_author batch) w in
      let mid = length batch / 2 in
      let halves =
        both_halves (fetch_within fuel (take mid batch) got.world)
          (fetch_within fuel (drop mid batch)) in
      if must_split got.answer (length batch) then halves else (got.answer, got.world)

  unfoldable pub fetch_batch : List Bytes → h.World → Fetched
  fetch_batch batch w = fetch_within (length batch) batch w
