-- ===== src/Lmdb/Payload/Cache.antt =====
-- The dictionary cache: it never changes what is decoded.
use mathlib.Core.Option.{some-injective}
use deepfry.Base.{
  ℕ, ◌≡◌, inl, inr, refl, sym, ap, ◌∙◌, arith, Bool, true, false, Bool-cases, none, some,
  Option-cases, [], ◌∷◌, length, take, drop, All, ltb, ◌==◌, if◌then◌else◌,
}
use deepfry.Base.Results.{Result, ok, err, ◌>>=◌, Result-cases}
use deepfry.Base.Words.{Bytes, from_le_bytes}
use deepfry.Lmdb.Heed.{Heed}
use deepfry.Lmdb.Payload.{
  Codecs, DecodedEvent, Failure, DictCache, lookup, insert_absent, load_dictionary, get_or_load,
  decode_zstd, decode_frame, decode_json, payload_tag_raw_json, payload_tag_zstd_dict,
  truncated_zstd_payload, decode_event_payload_with_cache_and_limit,
}

module _ (h : Heed) (c : Codecs) (env : h.Env) where
  -- Every dictionary of the cache is the one that the environment holds.
  abbrev pub IsCoherent : DictCache h c → Type 0
  IsCoherent cache =
      All (λ (entry : ℕ × c.Dictionary). load_dictionary h c env entry.0 ≡ ok entry.1) cache

  lookup-IsCoherent :
      (dict_id : ℕ) (cache : DictCache h c) (dd : c.Dictionary)
      → IsCoherent cache
      → lookup h c dict_id cache ≡ some dd
      → load_dictionary h c env dict_id ≡ ok dd
  unfolding lookup
  lookup-IsCoherent dict_id [] dd co e = absurd cc
  lookup-IsCoherent dict_id ((k, old) ∷ cache) dd co e = elim (Bool-cases (k == dict_id)) [
    | inl same ↦
        let p : k ≡ dict_id = ground arith in
        let q : old ≡ dd = some-injective _ _ (rw same at e) in
        ap (load_dictionary h c env) (sym p) ∙ co.0 ∙ ap ok q
    | inr other ↦ lookup-IsCoherent dict_id cache dd co.1 (rw other at e)
  ]

  insert_absent-absent :
      (dict_id : ℕ) (dd : c.Dictionary) (cache : DictCache h c)
      → lookup h c dict_id cache ≡ none
      → insert_absent h c dict_id dd cache ≡ (dict_id, dd) ∷ cache
  unfolding insert_absent
  insert_absent-absent dict_id dd cache l = ground arith

  insert_absent-present :
      (dict_id : ℕ) (dd old : c.Dictionary) (cache : DictCache h c)
      → lookup h c dict_id cache ≡ some old
      → insert_absent h c dict_id dd cache ≡ cache
  unfolding insert_absent
  insert_absent-present dict_id dd old cache l = ground arith

  get_or_load_hit :
      (dict_id : ℕ) (dd : c.Dictionary) (cache : DictCache h c)
      → lookup h c dict_id cache ≡ some dd
      → get_or_load h c cache dict_id env ≡ (ok dd, cache)
  unfolding get_or_load
  get_or_load_hit dict_id dd cache l = ground arith

  get_or_load_miss :
      (dict_id : ℕ) (dd : c.Dictionary) (cache : DictCache h c)
      → lookup h c dict_id cache ≡ none
      → load_dictionary h c env dict_id ≡ ok dd
      → get_or_load h c cache dict_id env ≡ (ok dd, insert_absent h c dict_id dd cache)
  unfolding get_or_load
  get_or_load_miss dict_id dd cache l e = ground arith

  get_or_load_fails :
      (dict_id : ℕ) (x : Failure h c) (cache : DictCache h c)
      → lookup h c dict_id cache ≡ none
      → load_dictionary h c env dict_id ≡ err x
      → get_or_load h c cache dict_id env ≡ (err x, cache)
  unfolding get_or_load
  get_or_load_fails dict_id x cache l e = ground arith

  insert_absent-IsCoherent :
      (dict_id : ℕ) (dd : c.Dictionary) (cache : DictCache h c)
      → IsCoherent cache
      → load_dictionary h c env dict_id ≡ ok dd
      → IsCoherent (insert_absent h c dict_id dd cache)
  insert_absent-IsCoherent dict_id dd cache co e = elim (Option-cases (lookup h c dict_id cache)) [
    | inl l ↦ rw (insert_absent-absent dict_id dd cache l, All) (e, co)
    | inr (old, l) ↦ rw (insert_absent-present dict_id dd old cache l) co
  ]

  -- From a coherent cache, `get_or_load` gives what the environment holds, and keeps it coherent.
  pub get_or_load_lem :
      (dict_id : ℕ) (cache : DictCache h c)
      → IsCoherent cache
      → ((get_or_load h c cache dict_id env).0 ≡ load_dictionary h c env dict_id)
        × IsCoherent (get_or_load h c cache dict_id env).1
  get_or_load_lem dict_id cache co = elim (Option-cases (lookup h c dict_id cache)) [
    | inr (dd, l) ↦
        rw (get_or_load_hit dict_id dd cache l) (sym (lookup-IsCoherent dict_id cache dd co l), co)
    | inl l ↦ elim (Result-cases (load_dictionary h c env dict_id)) [
      | inl (dd, e) ↦
          rw (get_or_load_miss dict_id dd cache l e)
            (sym e, insert_absent-IsCoherent dict_id dd cache co e)
      | inr (x, e) ↦ rw (get_or_load_fails dict_id x cache l e) (sym e, co)
    ]
  ]

  abbrev IsAlike :
      Result (Failure h c) DecodedEvent × DictCache h c
      → Result (Failure h c) DecodedEvent × DictCache h c
      → Type 0
  IsAlike x y = (x.0 ≡ y.0) × IsCoherent x.1

  if-IsAlike :
      (b : Bool) (x y x' y' : Result (Failure h c) DecodedEvent × DictCache h c)
      → IsAlike x x'
      → IsAlike y y'
      → IsAlike (if b then x else y) (if b then x' else y')
  if-IsAlike true x y x' y' p q = p
  if-IsAlike false x y x' y' p q = q

  -- Decoding from a cache whose dictionaries are those that the environment holds gives the event
  -- or the error that decoding from an empty cache gives, and leaves such a cache.
  pub decode-IsCoherent :
      (raw : Bytes) (cache : DictCache h c) (max_decompressed : ℕ)
      → IsCoherent cache
      → ((decode_event_payload_with_cache_and_limit h c raw cache env max_decompressed).0
          ≡ (decode_event_payload_with_cache_and_limit h c raw [] env max_decompressed).0)
        × IsCoherent
            (decode_event_payload_with_cache_and_limit h c raw cache env max_decompressed).1
  unfolding decode_event_payload_with_cache_and_limit decode_zstd
  decode-IsCoherent [] cache max_decompressed co = (refl, co)
  decode-IsCoherent (tag ∷ body) cache max_decompressed co =
      let id = from_le_bytes (take 4 body) in
      let warm = get_or_load_lem id cache co in
      let cold = get_or_load_lem id [] tt in
      let json = decode_json h c body in
      let short : Failure h c = truncated_zstd_payload (length (tag ∷ body)) in
      let frame : IsAlike (decode_zstd h c body cache env max_decompressed)
          (decode_zstd h c body [] env max_decompressed) =
        (
          ap
              (λ (r : Result (Failure h c) c.Dictionary).
                r >>= decode_frame h c (drop 4 body) max_decompressed)
              (warm.0 ∙ sym cold.0),
          warm.1,
        ) in
      if-IsAlike (tag == payload_tag_raw_json) _ _ _ _ (refl, co)
        (if-IsAlike (tag == payload_tag_zstd_dict) _ _ _ _
          (if-IsAlike (ltb (length (tag ∷ body)) 5) (err short, cache)
            (decode_zstd h c body cache env max_decompressed) (err short, [])
            (decode_zstd h c body [] env max_decompressed) (refl, co) frame)
          (refl, co))
