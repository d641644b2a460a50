-- ===== src/Query/Engine/Buckets.antt =====
-- The buckets of `latest_per_author`: none empty, none too long, nothing expired in them.
use deepfry.Base.{
  ℕ, ◌≤◌, ◌≡◌, ◌≢◌, inl, inr, refl, ap, ◌∙◌, arith, Bool, true, false, Bool-cases, not, ◌==◌,
  Option, none, some, Option-cases, List, [], ◌∷◌, map, length, length-map, length-keep_if-le,
  keep_if, All, All-keep_if, All-imp, bytes_eq,
}
use deepfry.Base.Results.{Result, ok, err, Result-cases}
use deepfry.Base.Words.{Bytes}
use deepfry.Lmdb.Heed.{Heed}
use deepfry.Lmdb.Indexes.{IndexError}
use deepfry.Lmdb.Scan.{Hit, reverse, scan_index_bounded}
use deepfry.Lmdb.Payload.{Failure, Codecs, DecodedEvent, DictCache}
use deepfry.Query.Hydrate.{hydrate_lev_ids_batch}
use deepfry.Query.Engine.{lmdb, payload}
use deepfry.Query.Engine.Expiry.{is_expired}
use deepfry.Query.Engine.Fits.{
  Fits, Fits-le, bounded_scan, bounded_scan-Fits, scan_index_bounded_lem, length-matching-le,
  hydrate-Fits,
}
use deepfry.Query.Engine.Latest.{
  decode_hex_32, bucket_key, matching, Buckets, insert, bucket, author_bucket, insert_events,
  latest_loop, latest_per_author, LatestFault,
}

module _ (h : Heed) (c : Codecs) (env : h.Env) (now per_author : ℕ) where
  abbrev IsKept : DecodedEvent → Type 0
  IsKept ev = is_expired now ev.event ≡ false

  -- A bucket of an author: of at least one event and at most `per_author`, none of them expired.
  abbrev pub IsBucket : Bytes × List DecodedEvent → Type 0
  IsBucket (author_hex, events) =
      ((pubkey_bytes : Bytes) × (decode_hex_32 author_hex ≡ some pubkey_bytes))
      × (events ≢ [])
      × (length events ≤ per_author)
      × All IsKept events

  insert-All :
      (k : Bytes) (v : List DecodedEvent) (m : Buckets)
      → IsBucket (k, v)
      → All IsBucket m
      → All IsBucket (insert k v m)
  unfolding insert
  insert-All k v [] b a = (b, tt)
  insert-All k v ((l, w) ∷ m) b a = elim (Bool-cases (bytes_eq l k)) [
    | inl e ↦ rw e (b, a.1)
    | inr e ↦ rw e (a.0, insert-All k v m b a.1)
  ]

  -- At most `n` events, none of them expired, or an error.
  abbrev IsShort : ℕ → Result (LatestFault h c env now) (List DecodedEvent) → Type 0
  IsShort n (ok events) = (length events ≤ n) × All IsKept events
  IsShort n (err e) = Unit

  abbrev kept_of :
      Result (Failure h c) (List (ℕ × DecodedEvent))
      → DictCache h c
      → Result (LatestFault h c env now) (List DecodedEvent) × DictCache h c
  kept_of r cache = elim r [
    | err e ↦ (err (payload e), cache)
    | ok hydrated_pairs ↦ (
      ok (
          keep_if (λ (ev : DecodedEvent). not (is_expired now ev.event))
            (map (λ (pair : ℕ × DecodedEvent). pair.1) hydrated_pairs)),
      cache,
    )
  ]

  not-true : (b : Bool) → not b ≡ true → b ≡ false
  not-true false e = refl
  not-true true e = absurd cc

  kept-IsShort :
      (n : ℕ) (r : Result (Failure h c) (List (ℕ × DecodedEvent))) (cache : DictCache h c)
      → Fits n r
      → IsShort n (kept_of r cache).0
  kept-IsShort n (ok pairs) cache g =
      let events = map (λ (pair : ℕ × DecodedEvent). pair.1) pairs in
      let test = λ (ev : DecodedEvent). not (is_expired now ev.event) in
      (
        omega (
          arith,
          length-keep_if-le test events,
          length-map (λ (pair : ℕ × DecodedEvent). pair.1) pairs,
        ),
        All-imp (λ (ev : DecodedEvent) e. not-true (is_expired now ev.event) e)
            (keep_if test events) (All-keep_if test events),
      )
  kept-IsShort n (err e) cache g = tt

  bucket-IsShort :
      (n : ℕ) (lev_ids : List ℕ) (cache : DictCache h c)
      → length lev_ids ≤ n
      → IsShort n (bucket h c env now lev_ids cache).0
  unfolding bucket
  bucket-IsShort n [] cache le = (omega arith, tt)
  bucket-IsShort n (lev_id ∷ lev_ids) cache le =
      let x = hydrate_lev_ids_batch h c env (lev_id ∷ lev_ids) cache 0 in
      kept-IsShort n x.0 x.1 (
        Fits-le (length (lev_id ∷ lev_ids)) n x.0 le
          (hydrate-Fits h c env (lev_id ∷ lev_ids) cache 0))

  abbrev Gives :
      Option (Result (LatestFault h c env now) (List DecodedEvent) × DictCache h c) → Type 0
  Gives x =
      (r : Result (LatestFault h c env now) (List DecodedEvent) × DictCache h c) × (x ≡ some r)
      × IsShort per_author r.0

  found-Gives :
      (fuel kind : ℕ) (pubkey_bytes : Bytes) (cache : DictCache h c)
      (r : Result (IndexError h.Error) (List Hit))
      → scan_index_bounded h fuel env "Event__pubkeyKind" reverse
          (bucket_key pubkey_bytes kind)
          per_author
        ≡ some r
      → Fits per_author r
      → Gives (author_bucket h c env now fuel kind per_author pubkey_bytes cache)
  found-Gives fuel kind pubkey_bytes cache (ok hits) e g = (
    bucket h c env now (matching pubkey_bytes kind hits) cache,
    unfold author_bucket in ground arith,
    bucket-IsShort per_author (matching pubkey_bytes kind hits) cache
        (omega (arith, length-matching-le pubkey_bytes kind hits)),
  )
  found-Gives fuel kind pubkey_bytes cache (err x) e g =
      ((err (lmdb x), cache), unfold author_bucket in ground arith, tt)

  author_bucket-Gives :
      (fuel kind : ℕ) (pubkey_bytes : Bytes) (cache : DictCache h c)
      → per_author ≢ 0
      → Gives (author_bucket h c env now fuel kind per_author pubkey_bytes cache)
  author_bucket-Gives fuel kind pubkey_bytes cache n =
      let key = bucket_key pubkey_bytes kind in
      found-Gives fuel kind pubkey_bytes cache
        (bounded_scan h env "Event__pubkeyKind" key per_author)
        (scan_index_bounded_lem h env "Event__pubkeyKind" key per_author fuel n)
        (bounded_scan-Fits h env "Event__pubkeyKind" key per_author)

  insert_events-All :
      (author_hex pubkey_bytes : Bytes) (events : List DecodedEvent) (m : Buckets)
      → decode_hex_32 author_hex ≡ some pubkey_bytes
      → length events ≤ per_author
      → All IsKept events
      → All IsBucket m
      → All IsBucket (insert_events h c env now author_hex events m)
  unfolding insert_events
  insert_events-All author_hex pubkey_bytes [] m d le k a = a
  insert_events-All author_hex pubkey_bytes (ev ∷ events) m d le k a =
      insert-All author_hex (ev ∷ events) m ((pubkey_bytes, d), (λ e. absurd cc), le, k) a

  -- Buckets, or an error.
  abbrev pub AreBuckets : Result (LatestFault h c env now) Buckets × DictCache h c → Type 0
  AreBuckets (ok m, cache) = All IsBucket m
  AreBuckets (err e, cache) = Unit

  loop-none :
      (fuel kind : ℕ) (author_hex : Bytes) (authors : List Bytes) (m : Buckets)
      (cache : DictCache h c)
      → decode_hex_32 author_hex ≡ none
      → latest_loop h c env now fuel kind per_author (author_hex ∷ authors) m cache
        ≡ latest_loop h c env now fuel kind per_author authors m cache
  unfolding latest_loop
  loop-none fuel kind author_hex authors m cache d = ground arith

  loop-err :
      (fuel kind : ℕ) (author_hex pubkey_bytes : Bytes) (authors : List Bytes) (m : Buckets)
      (cache cache' : DictCache h c) (e : LatestFault h c env now)
      → decode_hex_32 author_hex ≡ some pubkey_bytes
      → author_bucket h c env now fuel kind per_author pubkey_bytes cache ≡ some (err e, cache')
      → latest_loop h c env now fuel kind per_author (author_hex ∷ authors) m cache
        ≡ some (err e, cache')
  unfolding latest_loop
  loop-err fuel kind author_hex pubkey_bytes authors m cache cache' e d b = ground arith

  loop-ok :
      (fuel kind : ℕ) (author_hex pubkey_bytes : Bytes) (authors : List Bytes) (m : Buckets)
      (cache cache' : DictCache h c) (events : List DecodedEvent)
      → decode_hex_32 author_hex ≡ some pubkey_bytes
      → author_bucket h c env now fuel kind per_author pubkey_bytes cache ≡ some (ok events, cache')
      → latest_loop h c env now fuel kind per_author (author_hex ∷ authors) m cache
        ≡ latest_loop h c env now fuel kind per_author authors
            (insert_events h c env now author_hex events m)
            cache'
  unfolding latest_loop
  loop-ok fuel kind author_hex pubkey_bytes authors m cache cache' events d b = ground arith

  loop_lem :
      (fuel kind : ℕ) (authors : List Bytes) (m : Buckets) (cache : DictCache h c)
      → per_author ≢ 0
      → All IsBucket m
      → (outcome : Result (LatestFault h c env now) Buckets × DictCache h c) × (latest_loop h c env
            now fuel kind per_author authors m cache
          ≡ some outcome)
        × AreBuckets outcome
  loop_lem fuel kind [] m cache n a = ((ok m, cache), unfold latest_loop in refl, a)
  loop_lem fuel kind (author_hex ∷ authors) m cache n a =
      elim (Option-cases (decode_hex_32 author_hex)) [
        | inl d ↦
            rw (loop-none fuel kind author_hex authors m cache d)
              (loop_lem fuel kind authors m cache n a)
        | inr (pubkey_bytes, d) ↦
            let ((r, cache'), b, g) = author_bucket-Gives fuel kind pubkey_bytes cache n in
            elim (Result-cases r) [
              | inr (e, z) ↦ (
                (err e, cache'),
                loop-err fuel kind author_hex pubkey_bytes authors m cache cache' e d
                    (b ∙ ap (λ x. some (x, cache')) z),
                tt,
              )
              | inl (events, z) ↦
                  let fits : (length events ≤ per_author) × All IsKept events = rw z at g in
                  rw
                    (loop-ok fuel kind author_hex pubkey_bytes authors m cache cache' events d
                      (b ∙ ap (λ x. some (x, cache')) z))
                    (loop_lem fuel kind authors (insert_events h c env now author_hex events m)
                      cache' n
                      (insert_events-All author_hex pubkey_bytes events m d fits.0 fits.1 a))
            ]
      ]

  -- Whatever the authors and the database are, latest_per_author comes to an end without fuel:
  -- with an error, or with buckets under keys that decode to 32 bytes, each of at least one event
  -- and at most per_author, none of which has expired.
  pub latest_per_author-AreBuckets :
      (fuel kind : ℕ) (authors : List Bytes) (cache : DictCache h c)
      → (outcome : Result (LatestFault h c env now) Buckets × DictCache h c) × (latest_per_author h
            c env now fuel kind per_author authors cache
          ≡ some outcome)
        × AreBuckets outcome
  unfolding latest_per_author
  latest_per_author-AreBuckets fuel kind authors cache = elim (Bool-cases (per_author == 0)) [
    | inl e ↦ ((ok [], cache), rw e refl, tt)
    | inr e ↦ rw e (loop_lem fuel kind authors [] cache (λ z. absurd (ground arith)) tt)
  ]
