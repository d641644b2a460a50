-- ===== src/Query/Engine/Feed.antt =====
-- What the rounds of a query read: an index as one list of positions, newest first.
use deepfry.Query.Engine.Below.{is_below_lem}
use deepfry.Query.Engine.Below.{comes_after}
use deepfry.Base.{
  ℕ, zero, suc, ◌≤◌, ◌≡◌, inl, inr, refl, sym, ap, arith, Bool, true, false, Bool-cases, Option,
  none, some, ◌≢◌, keep_if, All-map, List, [], ◌∷◌, ◌++◌, map, length, take, is_empty, All,
  All-take, take_whole,
}
use deepfry.Base.Results.{ok}
use deepfry.Base.Words.{Bytes}
use deepfry.Lmdb.Heed.{Heed}
use deepfry.Lmdb.Payload.{Codecs, DictCache}
use deepfry.Lmdb.Payload.Cache.{IsCoherent}
use deepfry.Query.Filter.{NostrFilter}
use deepfry.Query.Router.{filter_map}
use deepfry.Query.Merge.{Triple}
use deepfry.Query.Hydrate.Found.{decoding, IsStored, hydrate_lev_ids_lem}
use deepfry.Query.Engine.{
  Progress, map_of, Position, filtered_batch, Emitted, effective_limit, emit_limit_of, round_keys,
  merge_round, absorb,
}
use deepfry.Query.Engine.Steps.{absorb_nothing, absorb_pairs, pushed_state, hydration}
use deepfry.Query.Engine.Below.{IsDescending, below, All-keep_if_of_all, IsEntry, All-IsEntry}
use deepfry.Query.Engine.Lookup.{IsDistinct, pairs_of, map_of-IsFound, survivor, collect_valid_lem}

-- A query starts at the top or at one of the positions.
abbrev pub IsBoundary : List Position → Option Position → Type 0
IsBoundary entries none = Unit
IsBoundary entries (some p) = IsEntry entries p

abbrev pub position_of : Triple → Position
position_of t = (t.0, t.1)

module _ (h : Heed) (c : Codecs) (env : h.Env) (now batch_size : ℕ) (f : NostrFilter)
    (entries : List Position) (stored : ℕ → Bytes) where
  -- A round from a boundary merges the next of `entries` below it.
  abbrev pub Reads : Option Position → Type 0
  Reads b =
      (batch : List Triple) × (merge_round h c env now batch_size f b ≡ ok batch)
      × (map position_of batch ≡ take (emit_limit_of (effective_limit f)) (below entries b))

  -- The merge of a round reads `entries` from its boundary on, and their payloads are found.
  pub record IsFeed : Type 0 where
    pub descending : IsDescending entries
    pub distinct : IsDistinct entries
    pub found : All (λ (p : Position). IsStored h c env stored p.1) entries
    pub keys : (b : Option Position) → is_empty (round_keys f b) ≡ false
    pub first : Reads none
    pub next : All (λ (p : Position). Reads (some p)) entries

pub filtered_batch_all :
    (b : Option Position) (batch : List Triple)
    → All (λ p. comes_after b p ≡ true) (map position_of batch)
    → filtered_batch b batch ≡ map position_of batch
unfolding filtered_batch
filtered_batch_all b [] a = refl
filtered_batch_all b (t ∷ batch) a =
    ground (arith, is_below_lem b (t.0, t.1), a.0, filtered_batch_all b batch a.1)

pub IsDistinct-keep_if :
    (q : Position → Bool) (xs : List Position) → IsDistinct xs → IsDistinct (keep_if q xs)
IsDistinct-keep_if q [] d = tt
IsDistinct-keep_if q (x ∷ xs) d = elim (Bool-cases (q x)) [
  | inl e ↦
      rw (e, IsDistinct) (All-keep_if_of_all (λ y. x.1 ≢ y.1) q xs d.0, IsDistinct-keep_if q xs d.1)
  | inr e ↦ rw e (IsDistinct-keep_if q xs d.1)
]

pub IsDistinct-take : (n : ℕ) (xs : List Position) → IsDistinct xs → IsDistinct (take n xs)
IsDistinct-take zero xs d = tt
IsDistinct-take (suc n) [] d = tt
IsDistinct-take (suc n) (x ∷ xs) d = (All-take (λ y. x.1 ≢ y.1) n xs d.0, IsDistinct-take n xs d.1)

module _ (h : Heed) (c : Codecs) (env : h.Env) (now batch_size : ℕ) (f : NostrFilter)
    (stored : ℕ → Bytes) where
  -- What a query keeps of a position.
  abbrev pub survives : Position → Option Emitted
  survives = survivor (decoding h c env stored) now (effective_limit f) f

  -- A round pushed the survivors of its batch.
  abbrev pub IsPushed : List Position → Progress (DictCache h c) → Progress (DictCache h c) → Type 0
  IsPushed ps s pushed =
      (pushed.valid ≡ take (effective_limit f) (s.valid ++ filter_map survives ps))
      × IsCoherent h c env pushed.cache
      × (pushed.round_boundary ≡ s.round_boundary)

  pub absorb_lem :
      (batch : List Triple) (s : Progress (DictCache h c)) (ps : List Position)
      → filtered_batch s.round_boundary batch ≡ ps
      → IsDistinct ps
      → All (λ (p : Position). IsStored h c env stored p.1) ps
      → length s.valid ≤ effective_limit f
      → IsCoherent h c env s.cache
      → (pushed : Progress (DictCache h c)) × ((absorb h c env now batch_size f batch s).0
          ≡ ok pushed)
        × IsPushed ps s pushed
  absorb_lem batch s [] e d there le co = (
    s,
    ap (λ x. x.0) (absorb_nothing h c env now batch_size f batch s (rw e refl)),
    (sym (take_whole (effective_limit f) s.valid le), co, refl),
  )
  absorb_lem batch s (p ∷ ps) e d there le co =
      let lev_ids = map (λ (p : Position). p.1) (p ∷ ps) in
      let (hydrated, coherent) =
        hydrate_lev_ids_lem h c env stored lev_ids s.cache s.skip_count (All-map _ _ (p ∷ ps) there)
          co in
      let pairs = pairs_of (decoding h c env stored) (p ∷ ps) in
      let ran : (hydration h c env now batch_size f batch s).0 ≡ ok pairs = rw e hydrated in
      (
        pushed_state h c env now batch_size f batch pairs s,
        ap (λ x. x.0) (absorb_pairs h c env now batch_size f batch s pairs (rw e refl) ran),
        (
          rw e (
              collect_valid_lem (decoding h c env stored) now (effective_limit f) f (p ∷ ps)
                (map_of pairs) s.valid d (map_of-IsFound (decoding h c env stored) (p ∷ ps) d) le),
          rw e coherent,
          refl,
        ),
      )

module _ (h : Heed) (c : Codecs) (env : h.Env) (now batch_size : ℕ) (f : NostrFilter)
    (stored : ℕ → Bytes) (entries : List Position)
    (feed : IsFeed h c env now batch_size f entries stored) where
  pub feed-Reads :
      (b : Option Position) → IsBoundary entries b → Reads h c env now batch_size f entries stored b
  feed-Reads none at = feed.first
  feed-Reads (some p) at =
      All-IsEntry (λ (q : Position). Reads h c env now batch_size f entries stored (some q)) entries
        p feed.next at
