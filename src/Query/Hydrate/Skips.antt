-- ===== src/Query/Hydrate/Skips.antt =====
-- Which events a hydration gives: those that decode, in the order of the levIds; it counts the rest.
use deepfry.Base.{ℕ, ◌+◌, ◌≡◌, refl, arith, Option, none, some, List, [], ◌∷◌, length}
use deepfry.Base.Results.{ok, err}
use deepfry.Base.Words.{Bytes}
use deepfry.Lmdb.Heed.{Heed}
use deepfry.Lmdb.Payload.{
  Codecs, DecodedEvent, DictCache, max_event_decompressed_size, decode_event_payload_with_cache,
  batch_get_event_payloads,
}
use deepfry.Lmdb.Payload.Cache.{IsCoherent, decode-IsCoherent}
use deepfry.Query.Router.{filter_map}
use deepfry.Query.Hydrate.{decode_all, hydrate_lev_ids_batch}

module _ (h : Heed) (c : Codecs) (env : h.Env) where
  -- The event of a payload that decodes on its own.
  unfoldable pub decodable : ℕ × Bytes → Option (ℕ × DecodedEvent)
  decodable (lev_id, raw) = elim (decode_event_payload_with_cache h c raw [] env).0 [
    | ok event ↦ some (lev_id, event)
    | err e ↦ none
  ]

  pub decode-alike :
      (raw : Bytes) (cache : DictCache h c)
      → IsCoherent h c env cache
      → ((decode_event_payload_with_cache h c raw cache env).0
          ≡ (decode_event_payload_with_cache h c raw [] env).0)
        × IsCoherent h c env (decode_event_payload_with_cache h c raw cache env).1
  unfolding decode_event_payload_with_cache
  decode-alike raw cache co = decode-IsCoherent h c env raw cache max_event_decompressed_size co

  decode_all_lem :
      (raw_pairs : List (ℕ × Bytes)) (cache : DictCache h c) (skip : ℕ)
      → IsCoherent h c env cache
      → ((decode_all h c env raw_pairs cache skip).0 ≡ ok (filter_map decodable raw_pairs))
        × (length (filter_map decodable raw_pairs) + (decode_all h c env raw_pairs cache skip).2
            ≡ length raw_pairs + skip)
  unfolding decode_all decodable
  decode_all_lem [] cache skip co = (refl, refl)
  decode_all_lem ((lev_id, raw) ∷ raw_pairs) cache skip co =
      let alike = decode-alike raw cache co in
      let cache' = (decode_event_payload_with_cache h c raw cache env).1 in
      ground (
        arith,
        alike.0,
        decode_all_lem raw_pairs cache' skip alike.1,
        decode_all_lem raw_pairs cache' (skip + 1) alike.1,
      )

  all_read :
      (lev_id : ℕ) (lev_ids : List ℕ) (raw_pairs : List (ℕ × Bytes)) (cache : DictCache h c)
      (skip : ℕ)
      → batch_get_event_payloads h c env (lev_id ∷ lev_ids) ≡ ok raw_pairs
      → hydrate_lev_ids_batch h c env (lev_id ∷ lev_ids) cache skip
        ≡ decode_all h c env raw_pairs cache skip
  unfolding hydrate_lev_ids_batch
  all_read lev_id lev_ids raw_pairs cache skip e = rw e refl

  -- From the pairs that the batch read returned.
  pub hydrate_lev_ids_batch_pairs :
      (lev_ids : List ℕ) (raw_pairs : List (ℕ × Bytes)) (cache : DictCache h c) (skip : ℕ)
      → batch_get_event_payloads h c env lev_ids ≡ ok raw_pairs
      → IsCoherent h c env cache
      → ((hydrate_lev_ids_batch h c env lev_ids cache skip).0 ≡ ok (filter_map decodable raw_pairs))
        × (length (filter_map decodable raw_pairs)
              + (hydrate_lev_ids_batch h c env lev_ids cache skip).2
            ≡ length raw_pairs + skip)
  hydrate_lev_ids_batch_pairs [] raw_pairs cache skip e co =
      let nothing : [] ≡ raw_pairs = unfold batch_get_event_payloads in ground arith in
      rw (← nothing) (unfold hydrate_lev_ids_batch in (refl, refl))
  hydrate_lev_ids_batch_pairs (lev_id ∷ lev_ids) raw_pairs cache skip e co =
      rw (all_read lev_id lev_ids raw_pairs cache skip e) (decode_all_lem raw_pairs cache skip co)
