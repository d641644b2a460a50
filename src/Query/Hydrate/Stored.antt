-- ===== src/Query/Hydrate/Stored.antt =====
-- A hydration with one transaction, where all payloads are found.
use deepfry.Base.{
  ℕ, ◌+◌, ◌≡◌, ◌∙◌, refl, inl, inr, arith, List, [], ◌∷◌, map, length, length-map, All,
}
use deepfry.Base.Results.{ok, Result-cases}
use deepfry.Base.Words.{Bytes}
use deepfry.Lmdb.Heed.{Heed}
use deepfry.Lmdb.Payload.{
  Codecs, DictCache, event_payload_db_name, open_named_db, get_payloads, get_event_payload,
  batch_get_event_payloads, decode_event_payload_with_cache,
}
use deepfry.Lmdb.Payload.Cache.{IsCoherent}
use deepfry.Query.Router.{filter_map}
use deepfry.Query.Hydrate.{hydrate_lev_ids_batch}
use deepfry.Query.Hydrate.Skips.{decodable, hydrate_lev_ids_batch_pairs}
use deepfry.Query.Hydrate.Batch.{one_payload}
use deepfry.Query.Hydrate.Found.{paired, decoding, IsStored}

module _ (h : Heed) (c : Codecs) (env : h.Env) (payload : ℕ → Bytes) where
  abbrev stored_pairs : List ℕ → List (ℕ × Bytes)
  stored_pairs lev_ids = map (λ lev_id. (lev_id, payload lev_id)) lev_ids

  get_payloads-stored :
      (rtxn : h.Txn) (db : h.Db)
      → h.read_txn env ≡ ok rtxn
      → open_named_db h c event_payload_db_name env rtxn ≡ ok db
      → (lev_ids : List ℕ) → All (IsStored h c env payload) lev_ids
      → get_payloads h c db rtxn lev_ids ≡ ok (stored_pairs lev_ids)
  unfolding get_payloads
  get_payloads-stored rtxn db r o [] s = refl
  get_payloads-stored rtxn db r o (lev_id ∷ lev_ids) s =
      ground
        (arith, one_payload h c env rtxn db r o lev_id, get_payloads-stored rtxn db r o lev_ids s.1)

  -- The one transaction finds what a transaction for each levId finds.
  batch_get_event_payloads-stored :
      (lev_ids : List ℕ)
      → All (IsStored h c env payload) lev_ids
      → batch_get_event_payloads h c env lev_ids ≡ ok (stored_pairs lev_ids)
  unfolding batch_get_event_payloads get_event_payload
  batch_get_event_payloads-stored [] s = refl
  batch_get_event_payloads-stored (lev_id ∷ lev_ids) s = elim (Result-cases (h.read_txn env)) [
    | inr (x, r) ↦ absurd (ground arith)
    | inl (rtxn, r) ↦ elim (Result-cases (open_named_db h c event_payload_db_name env rtxn)) [
      | inr (x, o) ↦ absurd (ground arith)
      | inl (db, o) ↦
          rw (r, o)
            (get_payloads-stored rtxn db r o (lev_id ∷ lev_ids) (unfold get_event_payload in s))
    ]
  ]

  decodable-paired :
      (lev_ids : List ℕ)
      → filter_map (decodable h c env) (stored_pairs lev_ids)
        ≡ filter_map (paired (decoding h c env payload)) lev_ids
  unfolding decodable paired decoding
  decodable-paired [] = refl
  decodable-paired (lev_id ∷ lev_ids) =
      elim (Result-cases (decode_event_payload_with_cache h c (payload lev_id) [] env).0) [
        | inl (event, d) ↦ ground (arith, decodable-paired lev_ids)
        | inr (e, d) ↦ ground (arith, decodable-paired lev_ids)
      ]

  -- Where the payload of every levId is found and every cached dictionary is the one that the
  -- environment holds, a hydration with one transaction gives exactly the events whose payload
  -- decodes on its own, each with its levId and in the order of the levIds, and counts all others
  -- as skipped.
  pub hydrate_lev_ids_batch_lem :
      (lev_ids : List ℕ) (cache : DictCache h c) (skip : ℕ)
      → All (IsStored h c env payload) lev_ids
      → IsCoherent h c env cache
      → ((hydrate_lev_ids_batch h c env lev_ids cache skip).0
          ≡ ok (filter_map (paired (decoding h c env payload)) lev_ids))
        × (length (filter_map (paired (decoding h c env payload)) lev_ids)
              + (hydrate_lev_ids_batch h c env lev_ids cache skip).2
            ≡ length lev_ids + skip)
  hydrate_lev_ids_batch_lem lev_ids cache skip s co =
      let (found, count) =
        hydrate_lev_ids_batch_pairs h c env lev_ids (stored_pairs lev_ids) cache skip
          (batch_get_event_payloads-stored lev_ids s) co in
      rw (← decodable-paired lev_ids) (
        found,
        count ∙ rw (length-map {B = ℕ × Bytes} (λ lev_id. (lev_id, payload lev_id)) lev_ids) refl,
      )
