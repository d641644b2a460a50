-- ===== src/Spamhunter/Pipeline/Complete.antt =====
-- The consumer gets every pubkey once, in order, with its own events.
use mathlib.Core.Path.{subst}
use deepfry.Base.{
  ℕ, zero, suc, ◌≤◌, ◌<◌, ◌≡◌, ◌∙◌, ap, refl, sym, arith, Bool, List, [], ◌∷◌, ◌++◌, map, length,
  take, drop, All-take, length-take-le, take-append-drop, length-drop,
}
use deepfry.Base.Results.{Result, ok}
use deepfry.Base.Panics.{done}
use deepfry.Base.Ints.{ℤ}
use deepfry.Base.Words.{Bytes}
use deepfry.Spamhunter.Client.{ClientError, Event, Http}
use deepfry.Spamhunter.Fetch.{StringMap, fetch_batch, match_groups}
use deepfry.Spamhunter.Fetch.Matching.{Distinct}
use deepfry.Spamhunter.Fetch.Splitting.{HasCapacity, fetch_batch-match_groups}
use deepfry.Spamhunter.Whitelist.{Whitelist, is_whitelisted_bulk}
use deepfry.Spamhunter.Pipeline.{
  ScoredInput, chunks_within, chunks, Piped, after_batch, produce, run_pipeline, Clients,
  scored_input, with_whitelist, production_fetch_with_whitelist,
}

-- The pubkey and the events of an input.
abbrev pub view : ScoredInput → Bytes × List Event
view i = (i.group.author, i.group.events)

-- The pubkeys and the events that the adapter has.
abbrev pub with_events : (Bytes → List Event) → List Bytes → List (Bytes × List Event)
with_events events_of pks = map (λ pk. (pk, events_of pk)) pks

map-view :
    (wl : StringMap Bool) (ms : List (Bytes × List Event))
    → map view (map (scored_input wl) ms) ≡ ms
unfolding scored_input
map-view wl [] = refl
map-view wl (m ∷ ms) = ap (λ r. m ∷ r) (map-view wl ms)

map-append : {A B : Type 0} (f : A → B) (xs ys : List A) → map f (xs ++ ys) ≡ map f xs ++ map f ys
map-append f [] ys = refl
map-append f (x ∷ xs) ys = ap (λ r. f x ∷ r) (map-append f xs ys)

Distinct-take : (n : ℕ) (pks : List Bytes) → Distinct pks → Distinct (take n pks)
Distinct-take zero pks d = tt
Distinct-take (suc n) [] d = tt
Distinct-take (suc n) (x ∷ xs) d = (All-take _ n xs d.0, Distinct-take n xs d.1)

Distinct-drop : (n : ℕ) (pks : List Bytes) → Distinct pks → Distinct (drop n pks)
Distinct-drop zero pks d = d
Distinct-drop (suc n) [] d = tt
Distinct-drop (suc n) (x ∷ xs) d = Distinct-drop n xs d.1

-- A fetch that brings every batch without a repetition.
module _ {W : Type 0} (fetch : List Bytes → W → Result ClientError (List ScoredInput) × W)
    (events_of : Bytes → List Event) (most : ℕ)
    (brings : (batch : List Bytes) (w : W)
      → Distinct batch
      → length batch ≤ most
      → (inputs : List ScoredInput) × ((fetch batch w).0 ≡ ok inputs)
        × (map view inputs ≡ with_events events_of batch)) where
  abbrev IsComplete : List Bytes → Piped W → Type 0
  IsComplete pks p = (map view p.consumed ≡ with_events events_of pks) × (p.result ≡ ok 0)

  after_batch-IsComplete :
      (b1 b2 : List Bytes) (r : Result ClientError (List ScoredInput)) (w : W) (rest : Piped W)
      (inputs : List ScoredInput)
      → r ≡ ok inputs
      → map view inputs ≡ with_events events_of b1
      → IsComplete b2 rest
      → IsComplete (b1 ++ b2) (after_batch r w rest)
  unfolding after_batch
  after_batch-IsComplete b1 b2 r w rest inputs e m c =
      subst (λ r. IsComplete (b1 ++ b2) (after_batch r w rest)) (sym e)
        (
          map-append view inputs rest.consumed
              ∙ ap (λ z. z ++ map view rest.consumed) m
              ∙ ap (λ z. with_events events_of b1 ++ z) c.0
              ∙ sym (map-append (λ pk. (pk, events_of pk)) b1 b2),
          c.1,
        )

  produce-IsComplete :
      (fuel n : ℕ) (pks : List Bytes) (w : W)
      → suc n ≤ most
      → length pks ≤ fuel
      → Distinct pks
      → IsComplete pks (produce fetch (chunks_within fuel (suc n) pks) w)
  unfolding produce chunks_within
  produce-IsComplete zero n [] w m b d = (refl, refl)
  produce-IsComplete zero n (x ∷ xs) w m b d = absurd (omega arith)
  produce-IsComplete (suc fuel) n [] w m b d = (refl, refl)
  produce-IsComplete (suc fuel) n (x ∷ xs) w m b d =
      let b1 = take (suc n) (x ∷ xs) in
      let b2 = drop (suc n) (x ∷ xs) in
      let (inputs, e, same) =
        brings b1 w (Distinct-take (suc n) (x ∷ xs) d)
          (omega (arith, length-take-le (suc n) (x ∷ xs))) in
      let rest =
        produce-IsComplete fuel n b2 (fetch b1 w).1 m (omega (arith, length-drop (suc n) (x ∷ xs)))
          (Distinct-drop (suc n) (x ∷ xs) d) in
      subst
        (λ q. IsComplete q (
          after_batch (fetch b1 w).0 (fetch b1 w).1
            (produce fetch (chunks_within fuel (suc n) b2) (fetch b1 w).1)))
        (take-append-drop (suc n) (x ∷ xs))
        (after_batch-IsComplete b1 b2 (fetch b1 w).0 (fetch b1 w).1 _ inputs e same rest)

module _ (h : Http) (l : Whitelist) (kind per_author : ℤ) (events_of : Bytes → List Event)
    (most : ℕ) (server : HasCapacity h kind per_author events_of most) where
  production-brings :
      (batch : List Bytes) (c : Clients h.World l.World)
      → Distinct batch
      → length batch ≤ most
      → (inputs : List ScoredInput) × ((production_fetch_with_whitelist h l kind per_author batch
            c).0
          ≡ ok inputs)
        × (map view inputs ≡ with_events events_of batch)
  unfolding production_fetch_with_whitelist with_whitelist
  production-brings batch c d m =
      let (groups, e, same) =
        fetch_batch-match_groups h kind per_author events_of most server batch c.http d m in
      let w' = (fetch_batch h kind per_author batch c.http).1 in
      let matched = match_groups batch groups in
      let wl = is_whitelisted_bulk l (map (λ m. m.0) matched) c.cache c.list in
      (
        map (scored_input wl.value) matched,
        ap (λ r. (with_whitelist h l kind per_author batch r (record c { http = w' })).0) e,
        map-view wl.value matched ∙ same,
      )

  pub run_pipeline-Complete :
      (pubkeys : List Bytes) (authors_per_call : ℕ) (c : Clients h.World l.World)
      → Distinct pubkeys
      → 0 < authors_per_call
      → authors_per_call ≤ most
      → (p : Piped (Clients h.World l.World)) × (run_pipeline
            (production_fetch_with_whitelist h l kind per_author)
            pubkeys
            authors_per_call
            c
          ≡ done p)
        × (map view p.consumed ≡ with_events events_of pubkeys)
        × (p.result ≡ ok 0)
  unfolding run_pipeline chunks
  run_pipeline-Complete pubkeys zero c d b m = absurd (omega arith)
  run_pipeline-Complete pubkeys (suc n) c d b m =
      let fetch = production_fetch_with_whitelist h l kind per_author in
      let k =
        produce-IsComplete fetch events_of most production-brings (length pubkeys) n pubkeys c m
          (omega arith) d in
      (produce fetch (chunks_within (length pubkeys) (suc n) pubkeys) c, ground arith, k.0, k.1)
