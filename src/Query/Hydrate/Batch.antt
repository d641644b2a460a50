-- ===== src/Query/Hydrate/Batch.antt =====
-- One transaction for all payloads, or one for each: the same events.
use deepfry.Base.{ℕ, ◌+◌, ◌≡◌, ◌⊎◌, inl, inr, refl, ◌∙◌, arith, List, [], ◌∷◌}
use deepfry.Base.Results.{ok, err, Result-cases}
use deepfry.Base.Words.{Bytes}
use deepfry.Lmdb.Heed.{Heed}
use deepfry.Lmdb.Payload.{
  Codecs, Failure, DictCache, event_payload_db_name, open_named_db, get_payload, get_payloads,
  get_event_payload, batch_get_event_payloads, heed, decode_event_payload_with_cache,
}
use deepfry.Query.Hydrate.{Hydrated, hydrate_lev_ids, decode_all, hydrate_lev_ids_batch}

module _ (h : Heed) (c : Codecs) (env : h.Env) where
  -- The same events, cache and count; or the same error.
  abbrev pub IsSameOutcome : Hydrated h c → Hydrated h c → Type 0
  IsSameOutcome x y = (x ≡ y) ⊎ ((e : Failure h c) × (x.0 ≡ err e) × (y.0 ≡ err e))

  module _ (rtxn : h.Txn) (db : h.Db) (reads : h.read_txn env ≡ ok rtxn)
      (opens : open_named_db h c event_payload_db_name env rtxn ≡ ok db) where
    pub one_payload :
        (lev_id : ℕ) → get_event_payload h c env lev_id ≡ get_payload h c db rtxn lev_id
    unfolding get_event_payload
    one_payload lev_id = rw (reads, opens) refl

    first_found :
        (lev_id : ℕ) (lev_ids : List ℕ) (raw : Bytes) (raw_pairs : List (ℕ × Bytes))
        (cache : DictCache h c) (skip : ℕ)
        → get_payload h c db rtxn lev_id ≡ ok raw
        → ((cache' : DictCache h c) (skip' : ℕ)
            → hydrate_lev_ids h c env lev_ids cache' skip'
              ≡ decode_all h c env raw_pairs cache' skip')
        → hydrate_lev_ids h c env (lev_id ∷ lev_ids) cache skip
          ≡ decode_all h c env ((lev_id, raw) ∷ raw_pairs) cache skip
    unfolding hydrate_lev_ids decode_all
    first_found lev_id lev_ids raw raw_pairs cache skip g same =
        let cache' = (decode_event_payload_with_cache h c raw cache env).1 in
        ground (arith, one_payload lev_id, same cache' skip, same cache' (skip + 1))

    get_payloads-cons :
        (lev_id : ℕ) (lev_ids : List ℕ) (raw_pairs : List (ℕ × Bytes))
        → get_payloads h c db rtxn (lev_id ∷ lev_ids) ≡ ok raw_pairs
        → (raw : Bytes) × (pairs : List (ℕ × Bytes)) × (get_payload h c db rtxn lev_id ≡ ok raw)
          × (get_payloads h c db rtxn lev_ids ≡ ok pairs)
          × ((lev_id, raw) ∷ pairs ≡ raw_pairs)
    unfolding get_payloads
    get_payloads-cons lev_id lev_ids raw_pairs e =
        elim (Result-cases (get_payload h c db rtxn lev_id)) [
          | inl (raw, g) ↦ elim (Result-cases (get_payloads h c db rtxn lev_ids)) [
            | inl (pairs, gs) ↦ (raw, pairs, g, gs, ground arith)
            | inr (x, gs) ↦ absurd (ground arith)
          ]
          | inr (x, g) ↦ absurd (ground arith)
        ]

    all_found :
        (lev_ids : List ℕ) (raw_pairs : List (ℕ × Bytes)) (cache : DictCache h c) (skip : ℕ)
        → get_payloads h c db rtxn lev_ids ≡ ok raw_pairs
        → hydrate_lev_ids h c env lev_ids cache skip ≡ decode_all h c env raw_pairs cache skip
    all_found [] raw_pairs cache skip e =
        let nothing : [] ≡ raw_pairs = unfold get_payloads in ground arith in
        rw (← nothing) (unfold hydrate_lev_ids decode_all in refl)
    all_found (lev_id ∷ lev_ids) raw_pairs cache skip e =
        let (raw, pairs, g, gs, same) = get_payloads-cons lev_id lev_ids raw_pairs e in
        rw (← same) (
          first_found lev_id lev_ids raw pairs cache skip g
            (λ cache' skip'. all_found lev_ids pairs cache' skip' gs))

    first_ok :
        (lev_id : ℕ) (lev_ids : List ℕ) (raw : Bytes) (x : Failure h c) (cache : DictCache h c)
        (skip : ℕ)
        → get_payload h c db rtxn lev_id ≡ ok raw
        → ((cache' : DictCache h c) (skip' : ℕ)
            → (hydrate_lev_ids h c env lev_ids cache' skip').0 ≡ err x)
        → (hydrate_lev_ids h c env (lev_id ∷ lev_ids) cache skip).0 ≡ err x
    unfolding hydrate_lev_ids
    first_ok lev_id lev_ids raw x cache skip g fails =
        let cache' = (decode_event_payload_with_cache h c raw cache env).1 in
        ground (arith, one_payload lev_id, fails cache' skip, fails cache' (skip + 1))

    one_missing :
        (lev_ids : List ℕ) (x : Failure h c) (cache : DictCache h c) (skip : ℕ)
        → get_payloads h c db rtxn lev_ids ≡ err x
        → (hydrate_lev_ids h c env lev_ids cache skip).0 ≡ err x
    unfolding hydrate_lev_ids get_payloads
    one_missing [] x cache skip e = absurd (ground arith)
    one_missing (lev_id ∷ lev_ids) x cache skip e =
        elim (Result-cases (get_payload h c db rtxn lev_id)) [
          | inl (raw, g) ↦ elim (Result-cases (get_payloads h c db rtxn lev_ids)) [
            | inl (pairs, gs) ↦ absurd (ground arith)
            | inr (y, gs) ↦
                first_ok lev_id lev_ids raw x cache skip g
                  (λ cache' skip'. one_missing lev_ids x cache' skip' (ground arith))
          ]
          | inr (y, g) ↦ ground (arith, one_payload lev_id)
        ]

    opened :
        (lev_id : ℕ) (lev_ids : List ℕ) (cache : DictCache h c) (skip : ℕ)
        → IsSameOutcome
            (hydrate_lev_ids h c env (lev_id ∷ lev_ids) cache skip)
            (hydrate_lev_ids_batch h c env (lev_id ∷ lev_ids) cache skip)
    unfolding hydrate_lev_ids_batch batch_get_event_payloads
    opened lev_id lev_ids cache skip =
        elim (Result-cases (get_payloads h c db rtxn (lev_id ∷ lev_ids))) [
          | inl (pairs, g) ↦
              let same = all_found (lev_id ∷ lev_ids) pairs cache skip g in
              inl (same ∙ rw (reads, opens, g) refl)
          | inr (x, g) ↦
              inr (x, one_missing (lev_id ∷ lev_ids) x cache skip g, rw (reads, opens, g) refl)
        ]

  -- Hydrating with one transaction for all payloads gives the same events, cache and number of
  -- skipped payloads as with a transaction for each; or both give the same error.
  pub hydrate_lev_ids-batch :
      (lev_ids : List ℕ) (cache : DictCache h c) (skip : ℕ)
      → IsSameOutcome
          (hydrate_lev_ids h c env lev_ids cache skip)
          (hydrate_lev_ids_batch h c env lev_ids cache skip)
  unfolding hydrate_lev_ids_batch hydrate_lev_ids batch_get_event_payloads get_event_payload
  hydrate_lev_ids-batch [] cache skip = inl refl
  hydrate_lev_ids-batch (lev_id ∷ lev_ids) cache skip = elim (Result-cases (h.read_txn env)) [
    | inr (x, r) ↦ inr (heed x, ground arith, ground arith)
    | inl (rtxn, r) ↦ elim (Result-cases (open_named_db h c event_payload_db_name env rtxn)) [
      | inr (x, o) ↦ inr (x, ground arith, ground arith)
      | inl (db, o) ↦ opened rtxn db r o lev_id lev_ids cache skip
    ]
  ]
