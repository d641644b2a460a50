-- ===== src/Query/Hydrate.antt =====
-- LMDB2GraphQL/src/query/hydrate.rs: the events of a list of levIds, one transaction for each or
-- one for all. `skip_count` and the dictionary cache are passed on; a failure keeps what they were.
pub mod Batch
pub mod Stored
pub mod Skips
pub mod Found
mod Examples
use deepfry.Base.{ℕ, ◌+◌, List, [], ◌∷◌, is_empty, if◌then◌else◌}
use deepfry.Base.Results.{Result, ok, err, ◌>>=◌}
use deepfry.Base.Words.{Bytes}
use deepfry.Lmdb.Heed.{Heed}
use deepfry.Lmdb.Payload.{
  Codecs, DecodedEvent, Failure, DictCache, decode_event_payload_with_cache, get_event_payload,
  batch_get_event_payloads,
}

module _ (h : Heed) (c : Codecs) where
  open h use {Env}

  -- The events or the error, the cache, and the number of payloads that were skipped.
  abbrev pub Hydrated : Type 0
  Hydrated = Result (Failure h c) (List (ℕ × DecodedEvent)) × DictCache h c × ℕ

  abbrev pub push_event : ℕ → DecodedEvent → Hydrated → Hydrated
  push_event lev_id decoded (ok results, cache, skip) =
      (ok ((lev_id, decoded) ∷ results), cache, skip)
  push_event lev_id decoded (err e, cache, skip) = (err e, cache, skip)

  unfoldable pub hydrate_lev_ids : Env → List ℕ → DictCache h c → ℕ → Hydrated
  hydrate_lev_ids env [] cache skip = (ok [], cache, skip)
  hydrate_lev_ids env (lev_id ∷ lev_ids) cache skip = elim (get_event_payload h c env lev_id) [
    | err e ↦ (err e, cache, skip)
    | ok raw ↦
        let (decoded, cache') = decode_event_payload_with_cache h c raw cache env in
        elim decoded [
          | ok event ↦ push_event lev_id event (hydrate_lev_ids env lev_ids cache' skip)
          | err e ↦ hydrate_lev_ids env lev_ids cache' (skip + 1)
        ]
  ]

  -- The loop over the payloads that one transaction read.
  unfoldable pub decode_all : Env → List (ℕ × Bytes) → DictCache h c → ℕ → Hydrated
  decode_all env [] cache skip = (ok [], cache, skip)
  decode_all env ((lev_id, raw) ∷ raw_pairs) cache skip =
      let (decoded, cache') = decode_event_payload_with_cache h c raw cache env in
      elim decoded [
        | ok event ↦ push_event lev_id event (decode_all env raw_pairs cache' skip)
        | err e ↦ decode_all env raw_pairs cache' (skip + 1)
      ]

  unfoldable pub hydrate_lev_ids_batch : Env → List ℕ → DictCache h c → ℕ → Hydrated
  hydrate_lev_ids_batch env lev_ids cache skip =
      let run : Hydrated = elim (batch_get_event_payloads h c env lev_ids) [
        | err e ↦ (err e, cache, skip)
        | ok raw_pairs ↦ decode_all env raw_pairs cache skip
      ] in
      if is_empty lev_ids then (ok [], cache, skip) else run
