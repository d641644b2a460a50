-- ===== src/Query/Engine/Steps.antt =====
-- The equations of the steps of a round.
use deepfry.Base.{List, map, ℕ, suc, ◌≡◌, inl, inr, refl, arith, true, false, some, is_empty}
use deepfry.Base.Results.{ok, err}
use deepfry.Lmdb.Heed.{Heed}
use deepfry.Lmdb.Payload.{Codecs, DecodedEvent}
use deepfry.Query.Filter.{NostrFilter}
use deepfry.Query.Hydrate.{Hydrated, hydrate_lev_ids}
use deepfry.Query.Merge.{Triple}
use deepfry.Query.Engine.{
  Fault, Position, map_of, collect_valid, lmdb, payload, effective_limit, last_position,
  filtered_batch, round_keys, State, Outcome, merge_round, absorb, scanned, page_of, decide,
  after_merge, round, rounds_from,
}

module _ (h : Heed) (c : Codecs) (env : h.Env) (now batch_size : ℕ) (f : NostrFilter) where
  abbrev Out : Type 0
  Out = Outcome h c env now batch_size f

  abbrev St : Type 0
  St = State h c env now batch_size f

  pub round_empty :
      (s : St)
      → is_empty (round_keys f s.round_boundary) ≡ true
      → round h c env now batch_size f s ≡ inl (page_of h c env now batch_size f s)
  unfolding round
  round_empty s e = rw e refl

  pub round_fails :
      (s : St) (e : _)
      → is_empty (round_keys f s.round_boundary) ≡ false
      → merge_round h c env now batch_size f s.round_boundary ≡ err e
      → round h c env now batch_size f s ≡ inl (err (lmdb e), s.cache)
  unfolding round
  round_fails s e n m = rw (n, m) refl

  pub round_merges :
      (s : St) (batch : List Triple)
      → is_empty (round_keys f s.round_boundary) ≡ false
      → merge_round h c env now batch_size f s.round_boundary ≡ ok batch
      → round h c env now batch_size f s ≡ after_merge h c env now batch_size f batch s
  unfolding round
  round_merges s batch n m = rw (n, m) refl

  pub after_merge-err :
      (batch : List Triple) (s : St) (e : Fault h c env now batch_size f)
      → (absorb h c env now batch_size f batch s).0 ≡ err e
      → after_merge h c env now batch_size f batch s
        ≡ inl (err e, (absorb h c env now batch_size f batch s).1)
  unfolding after_merge
  after_merge-err batch s e a = ground arith

  pub after_merge-ok :
      (batch : List Triple) (s pushed : St)
      → (absorb h c env now batch_size f batch s).0 ≡ ok pushed
      → after_merge h c env now batch_size f batch s
        ≡ decide h c env now batch_size f
            (last_position batch)
            (scanned h c env now batch_size f batch pushed)
  unfolding after_merge
  after_merge-ok batch s pushed a = ground arith

  pub rounds_from_ends :
      (n : ℕ) (s : St) (o : Out)
      → round h c env now batch_size f s ≡ inl o
      → rounds_from h c env now batch_size f (suc n) s ≡ some o
  unfolding rounds_from
  rounds_from_ends n s o e = ground arith

  pub rounds_from_goes :
      (n : ℕ) (s t : St)
      → round h c env now batch_size f s ≡ inr t
      → rounds_from h c env now batch_size f (suc n) s ≡ rounds_from h c env now batch_size f n t
  unfolding rounds_from
  rounds_from_goes n s t e = ground arith

  -- The hydration of a round.
  abbrev pub hydration : List Triple → St → Hydrated h c
  hydration batch s =
      hydrate_lev_ids h c env (map (λ (p : Position). p.1) (filtered_batch s.round_boundary batch))
        s.cache s.skip_count

  -- The state after its events were pushed.
  abbrev pub pushed_state : List Triple → List (ℕ × DecodedEvent) → St → St
  pushed_state batch pairs s = record s {
    valid =
        collect_valid now (effective_limit f) f (filtered_batch s.round_boundary batch)
          (map_of pairs) s.valid;
    skip_count = (hydration batch s).2;
    cache = (hydration batch s).1;
  }

  pub absorb_nothing :
      (batch : List Triple) (s : St)
      → is_empty (filtered_batch s.round_boundary batch) ≡ true
      → absorb h c env now batch_size f batch s ≡ (ok s, s.cache)
  unfolding absorb
  absorb_nothing batch s e = rw e refl

  pub absorb_pairs :
      (batch : List Triple) (s : St) (pairs : List (ℕ × DecodedEvent))
      → is_empty (filtered_batch s.round_boundary batch) ≡ false
      → (hydration batch s).0 ≡ ok pairs
      → absorb h c env now batch_size f batch s
        ≡ (ok (pushed_state batch pairs s), (hydration batch s).1)
  unfolding absorb
  absorb_pairs batch s pairs n g = rw (n, g) refl

  pub absorb_fails :
      (batch : List Triple) (s : St) (e : _)
      → is_empty (filtered_batch s.round_boundary batch) ≡ false
      → (hydration batch s).0 ≡ err e
      → absorb h c env now batch_size f batch s ≡ (err (payload e), (hydration batch s).1)
  unfolding absorb
  absorb_fails batch s e n g = rw (n, g) refl
