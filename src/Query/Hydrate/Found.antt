-- ===== src/Query/Hydrate/Found.antt =====
-- A hydration with a transaction for each payload, where all payloads are found.
use deepfry.Base.{
  ℕ, ◌+◌, ◌≡◌, refl, ap, ◌∙◌, inl, inr, arith, Option, none, some, List, [], ◌∷◌, All,
}
use deepfry.Base.Results.{ok, err, Result-cases, ok-injective, err-ok}
use deepfry.Base.Words.{Bytes}
use deepfry.Lmdb.Heed.{Heed}
use deepfry.Lmdb.Payload.{
  Codecs, DecodedEvent, DictCache, decode_event_payload_with_cache, get_event_payload,
}
use deepfry.Lmdb.Payload.Cache.{IsCoherent}
use deepfry.Query.Router.{filter_map}
use deepfry.Query.Hydrate.{Hydrated, push_event, hydrate_lev_ids}
use deepfry.Query.Hydrate.Skips.{decode-alike}

-- A levId with its event.
unfoldable pub paired : (ℕ → Option DecodedEvent) → ℕ → Option (ℕ × DecodedEvent)
paired decoding lev_id = elim (decoding lev_id) [ none ↦ none | some event ↦ some (lev_id, event) ]

module _ (h : Heed) (c : Codecs) (env : h.Env) (payload : ℕ → Bytes) where
  -- The event of a levId, where its payload decodes.
  unfoldable pub decoding : ℕ → Option DecodedEvent
  decoding lev_id = elim (decode_event_payload_with_cache h c (payload lev_id) [] env).0 [
    | ok event ↦ some event
    | err e ↦ none
  ]

  abbrev pub IsStored : ℕ → Type 0
  IsStored lev_id = get_event_payload h c env lev_id ≡ ok (payload lev_id)

  unfoldable after : DictCache h c → ℕ → DictCache h c
  after cache lev_id = (decode_event_payload_with_cache h c (payload lev_id) cache env).1

  hydrate-skips :
      (lev_id : ℕ) (lev_ids : List ℕ) (cache : DictCache h c) (skip : ℕ) (e : _)
      → IsStored lev_id
      → (decode_event_payload_with_cache h c (payload lev_id) cache env).0 ≡ err e
      → hydrate_lev_ids h c env (lev_id ∷ lev_ids) cache skip
        ≡ hydrate_lev_ids h c env lev_ids (after cache lev_id) (skip + 1)
  unfolding hydrate_lev_ids after
  hydrate-skips lev_id lev_ids cache skip e s d = ground arith

  hydrate-pushes :
      (lev_id : ℕ) (lev_ids : List ℕ) (cache : DictCache h c) (skip : ℕ) (event : DecodedEvent)
      → IsStored lev_id
      → (decode_event_payload_with_cache h c (payload lev_id) cache env).0 ≡ ok event
      → hydrate_lev_ids h c env (lev_id ∷ lev_ids) cache skip
        ≡ push_event h c lev_id event (hydrate_lev_ids h c env lev_ids (after cache lev_id) skip)
  unfolding hydrate_lev_ids after
  hydrate-pushes lev_id lev_ids cache skip event s d = ground arith

  paired-none :
      (lev_id : ℕ) (lev_ids : List ℕ) (e : _)
      → (decode_event_payload_with_cache h c (payload lev_id) [] env).0 ≡ err e
      → filter_map (paired decoding) (lev_id ∷ lev_ids) ≡ filter_map (paired decoding) lev_ids
  unfolding paired decoding
  paired-none lev_id lev_ids e d = ground arith

  paired-some :
      (lev_id : ℕ) (lev_ids : List ℕ) (event : DecodedEvent)
      → (decode_event_payload_with_cache h c (payload lev_id) [] env).0 ≡ ok event
      → filter_map (paired decoding) (lev_id ∷ lev_ids)
        ≡ (lev_id, event) ∷ filter_map (paired decoding) lev_ids
  unfolding paired decoding
  paired-some lev_id lev_ids event d = ground arith

  push_event-ok :
      (lev_id : ℕ) (event : DecodedEvent) (x : Hydrated h c) (pairs : List (ℕ × DecodedEvent))
      → x.0 ≡ ok pairs
      → IsCoherent h c env x.1
      → ((push_event h c lev_id event x).0 ≡ ok ((lev_id, event) ∷ pairs))
        × IsCoherent h c env (push_event h c lev_id event x).1
  push_event-ok lev_id event (ok found, cache, skip) pairs e co =
      (ap (λ l. ok ((lev_id, event) ∷ l)) (ok-injective e), co)
  push_event-ok lev_id event (err x, cache, skip) pairs e co = absurd (err-ok e)

  -- Where every payload is found and every cached dictionary is the one that the environment
  -- holds, a hydration with a transaction for each payload gives the events that decode, in the
  -- order of the levIds, and leaves such a cache.
  pub hydrate_lev_ids_lem :
      (lev_ids : List ℕ) (cache : DictCache h c) (skip : ℕ)
      → All IsStored lev_ids
      → IsCoherent h c env cache
      → ((hydrate_lev_ids h c env lev_ids cache skip).0 ≡ ok (filter_map (paired decoding) lev_ids))
        × IsCoherent h c env (hydrate_lev_ids h c env lev_ids cache skip).1
  hydrate_lev_ids_lem [] cache skip s co = unfold hydrate_lev_ids in (refl, co)
  hydrate_lev_ids_lem (lev_id ∷ lev_ids) cache skip s co =
      let alike = decode-alike h c env (payload lev_id) cache co in
      elim (Result-cases (decode_event_payload_with_cache h c (payload lev_id) [] env).0) [
        | inl (event, d) ↦
            let next =
              hydrate_lev_ids_lem lev_ids (after cache lev_id) skip s.1 (unfold after in alike.1) in
            rw (hydrate-pushes lev_id lev_ids cache skip event s.0 (alike.0 ∙ d)) (
              rw (paired-some lev_id lev_ids event d)
                (push_event-ok lev_id event _ (filter_map (paired decoding) lev_ids) next.0 next.1))
        | inr (e, d) ↦
            let next =
              hydrate_lev_ids_lem lev_ids (after cache lev_id) (skip + 1) s.1
                (unfold after in alike.1) in
            rw (hydrate-skips lev_id lev_ids cache skip e s.0 (alike.0 ∙ d))
              (rw (paired-none lev_id lev_ids e d) next)
      ]
