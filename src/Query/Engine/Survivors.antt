-- ===== src/Query/Engine/Survivors.antt =====
-- LMDB2GraphQL/src/query/engine.rs: the loop over a batch of a round, and the checks that an event
-- passes.
use deepfry.Base.{
  ℕ, Bool, true, false, ◌&&◌, ◌||◌, not, ltb, leb, ◌==◌, Option, none, some, List, [], ◌∷◌, ◌++◌,
  length, any, all, bytes_eq, if◌then◌else◌,
}
use deepfry.Base.Words.{Bytes}
use deepfry.Lmdb.Payload.{NostrEvent, DecodedEvent}
use deepfry.Query.Filter.{NostrFilter, TagFilter}
use deepfry.Query.Router.{filter_map}
use deepfry.Query.Merge.{Triple}
use deepfry.Query.Engine.Expiry.{is_expired}

-- `filter.kinds` and so on: an absent field lets every event through.
abbrev pub passes {ℓ} : {A : Type ℓ} → Option A → (A → Bool) → Bool
passes none test = true
passes (some a) test = test a

-- A tag of an event that carries the name and one of the values.
unfoldable pub tag_matches : TagFilter → List Bytes → Bool
tag_matches tf (name ∷ value ∷ more) =
    bytes_eq name tf.name && any (λ v. bytes_eq v value) tf.values
tag_matches tf _ = false

-- The checks that follow the hydration, in their order.
unfoldable pub residual : ℕ → NostrFilter → NostrEvent → Bool
residual now f event =
    not (is_expired now event)
    && (passes f.kinds (λ kinds. any (λ k. k == event.kind) kinds)
        && (passes f.authors (λ authors. any (λ a. bytes_eq a event.pubkey) authors)
            && (passes f.ids (λ ids. any (λ id. bytes_eq id event.id) ids)
                && passes f.tags
                    (λ tags. all (λ (tf : TagFilter). any (tag_matches tf) event.tags) tags))))

-- `(created_at, lev_id)`
abbrev pub Position : Type 0
Position = ℕ × ℕ

-- Strictly below a boundary; without one every position is.
unfoldable pub is_below : Option Position → Position → Bool
is_below none p = true
is_below (some (cur_ts, cur_lev)) (ts, lev_id) =
    not (ltb cur_ts ts || (ts == cur_ts && leb cur_lev lev_id))

-- The cursor exclusion of a merged batch.
unfoldable pub filtered_batch : Option Position → List Triple → List Position
filtered_batch boundary batch =
    filter_map (λ (t : Triple). if is_below boundary (t.0, t.1) then some (t.0, t.1) else none)
      batch

-- `HashMap<LevId, DecodedEvent>`: an association list without a repeated key.
abbrev pub EventMap : Type 0
EventMap = List (ℕ × DecodedEvent)

unfoldable pub find : ℕ → EventMap → Option DecodedEvent
find k [] = none
find k ((l, e) ∷ m) = let rest = find k m in if l == k then some e else rest

unfoldable pub delete : ℕ → EventMap → EventMap
delete k [] = []
delete k ((l, e) ∷ m) = let rest = delete k m in if l == k then rest else (l, e) ∷ rest

-- `collect()` into a map: of two pairs with one key the later one stays.
unfoldable pub map_of : List (ℕ × DecodedEvent) → EventMap
map_of [] = []
map_of ((l, e) ∷ pairs) =
    let m = map_of pairs in elim (find l m) [ none ↦ (l, e) ∷ m | some later ↦ m ]

-- An emitted event with its position.
abbrev pub Emitted : Type 0
Emitted = ℕ × ℕ × DecodedEvent

-- The loop over a filtered batch: `HashMap::remove`, the residual checks, the push.
unfoldable pub collect_valid :
    ℕ → ℕ → NostrFilter → List Position → EventMap → List Emitted → List Emitted
collect_valid now limit f [] m valid = valid
collect_valid now limit f ((ts, lev_id) ∷ batch) m valid =
    let next = collect_valid now limit f batch (delete lev_id m) in
    let taken : List Emitted = elim (find lev_id m) [
      | none ↦ next valid
      | some decoded ↦
          next (if residual now f decoded.event then valid ++ (ts, lev_id, decoded) ∷ [] else valid)
    ] in
    if leb limit (length valid) then valid else taken
