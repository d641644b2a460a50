-- ===== src/Query/Engine/Fits.antt =====
-- How long the lists of hits and events are that scans and hydrations give.
use mathlib.Core.Path.{subst}
use Prim.Native.String.{String}
use deepfry.Base.{
  ℕ, suc, ◌+◌, ◌≤◌, ◌≡◌, ◌≢◌, inl, inr, refl, sym, arith, Bool-cases, ◌==◌, Option, none, some,
  List, [], ◌∷◌, length, length-take-le, take,
}
use deepfry.Base.Results.{Result, ok, err, map_err, ◌>>=◌, Result-cases}
use deepfry.Base.Words.{Bytes}
use deepfry.Lmdb.Heed.{Heed, Entry}
use deepfry.Lmdb.Indexes.{IndexError, open_named, lev_id_of_value, heed}
use deepfry.Lmdb.Scan.{
  Hit, reverse, start_cursor, bounded_items, collect_bounded, scan_index_bounded,
}
use deepfry.Lmdb.Payload.{
  Failure, get_payload, open_named_db, event_payload_db_name, heed as heed_failure, Codecs,
  DecodedEvent, DictCache, get_payloads, batch_get_event_payloads, decode_event_payload_with_cache,
}
use deepfry.Query.Router.{filter_map}
use deepfry.Query.Hydrate.{Hydrated, push_event, decode_all, hydrate_lev_ids_batch}
use deepfry.Query.Engine.Latest.{matching}

-- A list of at most `n`, or an error.
abbrev pub Fits {ℓ κ} : {E : Type ℓ} {A : Type κ} → ℕ → Result E (List A) → Type 0
Fits n (ok xs) = length xs ≤ n
Fits n (err e) = Unit

bind-Fits {ℓ κ μ} :
    {E : Type ℓ} {A : Type κ} {B : Type μ} (n : ℕ) (x : Result E A) (next : A → Result E (List B))
    → ((a : A) → Fits n (next a))
    → Fits n (x >>= next)
bind-Fits n (ok a) next g = g a
bind-Fits n (err e) next g = tt

pub Fits-le {ℓ κ} :
    {E : Type ℓ} {A : Type κ} (n m : ℕ) (x : Result E (List A)) → n ≤ m → Fits n x → Fits m x
Fits-le n m (ok xs) le g = omega arith
Fits-le n m (err e) le g = tt

length-filter_map-le :
    {A B : Type 0} (g : A → Option B) (xs : List A) → length (filter_map g xs) ≤ length xs
length-filter_map-le g [] = omega arith
length-filter_map-le g (x ∷ xs) = ground (arith, length-filter_map-le g xs)

bounded_items-Fits :
    {E : Type 0} (items : List (Result E Entry)) → Fits (length items) (bounded_items items)
unfolding bounded_items
bounded_items-Fits [] = omega arith
bounded_items-Fits (err e ∷ items) = tt
bounded_items-Fits (ok (key, value) ∷ items) =
    one_more key value (length items) (bounded_items items) (bounded_items-Fits items)
  where
    one_more :
        {E : Type 0} (key value : Bytes) (n : ℕ) (r : Result (IndexError E) (List Hit))
        → Fits n r
        → Fits (suc n) (
            r >>= (λ rest.
              ok (elim (lev_id_of_value value) [
                | none ↦ rest
                | some lev_id ↦ (key, lev_id) ∷ rest
              ])))
    one_more key value n (ok hits) g = ground arith
    one_more key value n (err e) g = tt

module _ (h : Heed) (env : h.Env) (short_name : String) (start_key : Bytes) (limit : ℕ) where
  abbrev pub bounded_scan : Result (IndexError h.Error) (List Hit)
  bounded_scan = do
    rtxn ← map_err heed (h.read_txn env)
    db ← open_named h env rtxn short_name
    collect_bounded h db rtxn reverse start_key limit

  pub bounded_scan-Fits : Fits limit bounded_scan
  unfolding collect_bounded
  bounded_scan-Fits = bind-Fits limit (map_err heed (h.read_txn env)) _ (λ rtxn.
      bind-Fits limit (open_named h env rtxn short_name) _ (λ db.
        bind-Fits limit (map_err heed (start_cursor h db rtxn reverse start_key)) _ (λ items.
          Fits-le (length (take limit items)) limit (bounded_items (take limit items))
            (length-take-le limit items) (bounded_items-Fits (take limit items)))))

  -- A bounded scan with a limit needs no fuel.
  pub scan_index_bounded_lem :
      (fuel : ℕ)
      → limit ≢ 0
      → scan_index_bounded h fuel env short_name reverse start_key limit ≡ some bounded_scan
  unfolding scan_index_bounded
  scan_index_bounded_lem fuel n = elim (Bool-cases (limit == 0)) [
    | inl e ↦ absurd (n (ground arith))
    | inr e ↦ rw e refl
  ]

pub length-matching-le :
    (pubkey_bytes : Bytes) (kind : ℕ) (hits : List Hit)
    → length (matching pubkey_bytes kind hits) ≤ length hits
unfolding matching
length-matching-le pubkey_bytes kind hits = length-filter_map-le _ hits

module _ (h : Heed) (c : Codecs) (env : h.Env) where
  push_event-Fits :
      (lev_id n : ℕ) (event : DecodedEvent) (x : Hydrated h c)
      → Fits n x.0
      → Fits (suc n) (push_event h c lev_id event x).0
  push_event-Fits lev_id n event (ok pairs, cache, skip) g = omega arith
  push_event-Fits lev_id n event (err e, cache, skip) g = tt

  decode_all-ok :
      (lev_id : ℕ) (raw : Bytes) (raw_pairs : List (ℕ × Bytes)) (cache : DictCache h c) (skip : ℕ)
      (event : DecodedEvent)
      → (decode_event_payload_with_cache h c raw cache env).0 ≡ ok event
      → decode_all h c env ((lev_id, raw) ∷ raw_pairs) cache skip
        ≡ push_event h c lev_id event (
            decode_all h c env raw_pairs (decode_event_payload_with_cache h c raw cache env).1 skip)
  unfolding decode_all
  decode_all-ok lev_id raw raw_pairs cache skip event e = ground arith

  decode_all-err :
      (lev_id : ℕ) (raw : Bytes) (raw_pairs : List (ℕ × Bytes)) (cache : DictCache h c) (skip : ℕ)
      (x : _)
      → (decode_event_payload_with_cache h c raw cache env).0 ≡ err x
      → decode_all h c env ((lev_id, raw) ∷ raw_pairs) cache skip
        ≡ decode_all h c env raw_pairs
            (decode_event_payload_with_cache h c raw cache env).1
            (skip + 1)
  unfolding decode_all
  decode_all-err lev_id raw raw_pairs cache skip x e = ground arith

  decode_all-Fits :
      (raw_pairs : List (ℕ × Bytes)) (cache : DictCache h c) (skip : ℕ)
      → Fits (length raw_pairs) (decode_all h c env raw_pairs cache skip).0
  decode_all-Fits [] cache skip = unfold decode_all in omega arith
  decode_all-Fits ((lev_id, raw) ∷ raw_pairs) cache skip =
      let x = decode_event_payload_with_cache h c raw cache env in
      elim (Result-cases x.0) [
        | inl (event, e) ↦
            subst (λ (y : Hydrated h c). Fits (suc (length raw_pairs)) y.0)
              (sym (decode_all-ok lev_id raw raw_pairs cache skip event e))
              (push_event-Fits lev_id (length raw_pairs) event
                (decode_all h c env raw_pairs x.1 skip) (decode_all-Fits raw_pairs x.1 skip))
        | inr (y, e) ↦
            subst (λ (z : Hydrated h c). Fits (suc (length raw_pairs)) z.0)
              (sym (decode_all-err lev_id raw raw_pairs cache skip y e))
              (Fits-le (length raw_pairs) (suc (length raw_pairs)) _ (omega arith)
                (decode_all-Fits raw_pairs x.1 (skip + 1)))
      ]

  get_payloads-Fits :
      (db : h.Db) (rtxn : h.Txn) (lev_ids : List ℕ)
      → Fits (length lev_ids) (get_payloads h c db rtxn lev_ids)
  unfolding get_payloads
  get_payloads-Fits db rtxn [] = omega arith
  get_payloads-Fits db rtxn (lev_id ∷ lev_ids) =
      bind-Fits (suc (length lev_ids)) (get_payload h c db rtxn lev_id) _ (λ raw.
        one_more lev_id raw (length lev_ids) (get_payloads h c db rtxn lev_ids)
          (get_payloads-Fits db rtxn lev_ids))
    where
      one_more :
          (lev_id : ℕ) (raw : Bytes) (n : ℕ) (r : Result (Failure h c) (List (ℕ × Bytes)))
          → Fits n r
          → Fits (suc n) (r >>= (λ results. ok ((lev_id, raw) ∷ results)))
      one_more lev_id raw n (ok pairs) g = omega arith
      one_more lev_id raw n (err e) g = tt

  batch_get-Fits :
      (lev_ids : List ℕ) → Fits (length lev_ids) (batch_get_event_payloads h c env lev_ids)
  unfolding batch_get_event_payloads
  batch_get-Fits [] = omega arith
  batch_get-Fits (lev_id ∷ lev_ids) =
      bind-Fits (suc (length lev_ids)) (map_err heed_failure (h.read_txn env)) _ (λ rtxn.
        bind-Fits (suc (length lev_ids)) (open_named_db h c event_payload_db_name env rtxn) _
          (λ db. get_payloads-Fits db rtxn (lev_id ∷ lev_ids)))

  abbrev run_of : Result (Failure h c) (List (ℕ × Bytes)) → DictCache h c → ℕ → Hydrated h c
  run_of r cache skip = elim r [
    | err e ↦ (err e, cache, skip)
    | ok raw_pairs ↦ decode_all h c env raw_pairs cache skip
  ]

  run-Fits :
      (n : ℕ) (r : Result (Failure h c) (List (ℕ × Bytes))) (cache : DictCache h c) (skip : ℕ)
      → Fits n r
      → Fits n (run_of r cache skip).0
  run-Fits n (ok pairs) cache skip g =
      Fits-le (length pairs) n (decode_all h c env pairs cache skip).0 g
        (decode_all-Fits pairs cache skip)
  run-Fits n (err e) cache skip g = tt

  -- A hydration gives at most as many events as there are levIds.
  pub hydrate-Fits :
      (lev_ids : List ℕ) (cache : DictCache h c) (skip : ℕ)
      → Fits (length lev_ids) (hydrate_lev_ids_batch h c env lev_ids cache skip).0
  unfolding hydrate_lev_ids_batch
  hydrate-Fits [] cache skip = omega arith
  hydrate-Fits (lev_id ∷ lev_ids) cache skip =
      run-Fits (suc (length lev_ids)) (batch_get_event_payloads h c env (lev_id ∷ lev_ids)) cache
        skip (batch_get-Fits (lev_id ∷ lev_ids))
