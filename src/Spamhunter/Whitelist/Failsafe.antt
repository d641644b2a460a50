-- ===== src/Spamhunter/Whitelist/Failsafe.antt =====
-- An outage of the whitelist flags nobody, and every pubkey that was asked for has an answer.
use deepfry.Base.{
  ◌≡◌, ◌∙◌, ap, refl, sym, arith, Bool, true, false, Bool-cases, Option, none, some, Option-cases,
  is_some, ◌⊎◌, inl, inr, List, [], ◌∷◌, bytes_eq, bytes_eq→eq, if◌then◌else◌,
}
use deepfry.Base.Words.{Bytes}
use deepfry.Spamhunter.Enumerate.Covers.{contains}
use deepfry.Spamhunter.Fetch.{StringMap, get, put}
use deepfry.Spamhunter.Fetch.Matching.{get-put}
use deepfry.Spamhunter.Whitelist.{
  Whitelist, Maps, hits_of, misses_of, record_result, record_results, all_true, settle_misses,
  resolve_misses, is_whitelisted_bulk,
}

abbrev pub first_of : {A : Type 0} → Option A → Option A → Option A
first_of (some x) y = some x
first_of none y = y

abbrev verdict_of : Option Bool → Bool
verdict_of (some value) = value
verdict_of none = true

-- One that is equal to `x` finds the same.
get_same :
    {V : Type 0} (pk x : Bytes) (m : StringMap V)
    → (bytes_eq pk x ≡ false) ⊎ ((bytes_eq pk x ≡ true) × (get x m ≡ get pk m))
get_same pk x m = elim (Bool-cases (bytes_eq pk x)) [
  | inl same ↦ inr (same, ap (λ k. get k m) (sym (bytes_eq→eq pk x same)))
  | inr other ↦ inl other
]

miss_first :
    (x : Bytes) (xs : List Bytes) (cache out : StringMap Bool)
    → get x cache ≡ none
    → hits_of cache (x ∷ xs) out ≡ hits_of cache xs out
unfolding hits_of
miss_first x xs cache out n = rw (hits_of, n) refl

hit_first :
    (x : Bytes) (xs : List Bytes) (cache out : StringMap Bool) (hit : Bool)
    → get x cache ≡ some hit
    → hits_of cache (x ∷ xs) out ≡ hits_of cache xs (put x hit out)
unfolding hits_of
hit_first x xs cache out hit n = rw (hits_of, n) refl

get-hits_of :
    (pk : Bytes) (cache : StringMap Bool) (pks : List Bytes) (out : StringMap Bool)
    → get pk (hits_of cache pks out)
      ≡ (if contains pk pks then first_of (get pk cache) (get pk out) else get pk out)
unfolding hits_of contains
get-hits_of pk cache [] out = refl
get-hits_of pk cache (x ∷ xs) out = elim (Option-cases (get x cache)) [
  | inl n ↦
      ap (get pk) (miss_first x xs cache out n)
      ∙ get-hits_of pk cache xs out
      ∙ elim (get_same pk x cache) [
        | inl other ↦ rw other refl
        | inr (same, e) ↦ let f : get pk cache ≡ none = sym e ∙ n in rw (same, f) (ground arith)
      ]
  | inr (hit, n) ↦
      ap (get pk) (hit_first x xs cache out hit n)
      ∙ get-hits_of pk cache xs (put x hit out)
      ∙ rw (get-put pk x hit out) (elim (get_same pk x cache) [
        | inl other ↦ rw other refl
        | inr (same, e) ↦ let f : get pk cache ≡ some hit = sym e ∙ n in rw (same, f) (ground arith)
      ])
]

contains-misses_of :
    (pk : Bytes) (cache : StringMap Bool) (pks : List Bytes)
    → contains pk (misses_of cache pks)
      ≡ (if is_some (get pk cache) then false else contains pk pks)
unfolding misses_of contains
contains-misses_of pk cache [] = ground arith
contains-misses_of pk cache (x ∷ xs) =
    ground (arith, contains-misses_of pk cache xs, bytes_eq→eq pk x)

get-all_true :
    (pk : Bytes) (misses : List Bytes) (out : StringMap Bool)
    → get pk (all_true misses out) ≡ (if contains pk misses then some true else get pk out)
unfolding all_true contains
get-all_true pk [] out = refl
get-all_true pk (x ∷ xs) out =
    get-all_true pk xs (put x true out) ∙ rw (get-put pk x true out) (ground arith)

out-record_result :
    (pk x : Bytes) (r : Option Bool) (m : Maps)
    → get pk (record_result x r m).out
      ≡ (if bytes_eq pk x then some (verdict_of r) else get pk m.out)
unfolding record_result
out-record_result pk x none m = get-put pk x true m.out
out-record_result pk x (some v) m = get-put pk x v m.out

cache-record_result :
    (pk x : Bytes) (r : Option Bool) (m : Maps)
    → get pk (record_result x r m).cache
      ≡ (if bytes_eq pk x then first_of r (get pk m.cache) else get pk m.cache)
unfolding record_result
cache-record_result pk x none m = ground arith
cache-record_result pk x (some v) m = get-put pk x v m.cache

module _ (results : StringMap Bool) where
  out-record_results :
      (pk : Bytes) (misses : List Bytes) (m : Maps)
      → get pk (record_results results misses m).out
        ≡ (if contains pk misses then some (verdict_of (get pk results)) else get pk m.out)
  unfolding record_results contains
  out-record_results pk [] m = refl
  out-record_results pk (x ∷ xs) m =
      out-record_results pk xs (record_result x (get x results) m)
      ∙ rw (out-record_result pk x (get x results) m) (elim (get_same pk x results) [
        | inl other ↦ rw other refl
        | inr (same, e) ↦ rw (same, e) (ground arith)
      ])

  cache-record_results :
      (pk : Bytes) (misses : List Bytes) (m : Maps)
      → get pk (record_results results misses m).cache ≡ (
          if contains pk misses then first_of (get pk results) (get pk m.cache) else get pk m.cache)
  unfolding record_results contains
  cache-record_results pk [] m = refl
  cache-record_results pk (x ∷ xs) m =
      cache-record_results pk xs (record_result x (get x results) m)
      ∙ rw (cache-record_result pk x (get x results) m) (elim (get_same pk x results) [
        | inl other ↦ rw other refl
        | inr (same, e) ↦ rw (same, e) (ground arith)
      ])

-- What the server said of the misses, where it could be asked.
abbrev pub said_of : Option (StringMap Bool) → Bytes → Option Bool
said_of none pk = none
said_of (some results) pk = get pk results

-- The answer for a pubkey: the cached one, else the one of the server, else that it is listed.
abbrev pub answer_of : Option Bool → Option Bool → Bool
answer_of (some hit) said = hit
answer_of none (some value) = value
answer_of none none = true

settle_misses-out :
    (said : Option (StringMap Bool)) (misses : List Bytes) (m : Maps) (pk : Bytes)
    → get pk (settle_misses said misses m).out
      ≡ (if contains pk misses then some (verdict_of (said_of said pk)) else get pk m.out)
unfolding settle_misses
settle_misses-out none misses m pk = get-all_true pk misses m.out
settle_misses-out (some results) misses m pk = out-record_results results pk misses m

settle_misses-cache :
    (said : Option (StringMap Bool)) (misses : List Bytes) (m : Maps) (pk : Bytes)
    → get pk (settle_misses said misses m).cache
      ≡ (if contains pk misses then first_of (said_of said pk) (get pk m.cache) else get pk m.cache)
unfolding settle_misses
settle_misses-cache none misses m pk = ground arith
settle_misses-cache (some results) misses m pk = cache-record_results results pk misses m

module _ (l : Whitelist) where
  -- Without misses nothing is asked, which is the same.
  resolve_misses-out :
      (misses : List Bytes) (m : Maps) (w : l.World) (pk : Bytes)
      → get pk (resolve_misses l misses m w).value ≡ (
          if contains pk misses
          then some (verdict_of (said_of (l.check_bulk misses w).0 pk))
          else get pk m.out)
  unfolding resolve_misses contains
  resolve_misses-out [] m w pk = refl
  resolve_misses-out (x ∷ xs) m w pk = settle_misses-out (l.check_bulk (x ∷ xs) w).0 (x ∷ xs) m pk

  resolve_misses-cache :
      (misses : List Bytes) (m : Maps) (w : l.World) (pk : Bytes)
      → get pk (resolve_misses l misses m w).cache ≡ (
          if contains pk misses
          then first_of (said_of (l.check_bulk misses w).0 pk) (get pk m.cache)
          else get pk m.cache)
  unfolding resolve_misses contains
  resolve_misses-cache [] m w pk = refl
  resolve_misses-cache (x ∷ xs) m w pk =
      settle_misses-cache (l.check_bulk (x ∷ xs) w).0 (x ∷ xs) m pk

  combine_out :
      (c s : Option Bool) (b : Bool)
      → (if (if is_some c then false else b)
          then some (verdict_of s)
          else if b
          then first_of c none
          else none)
        ≡ (if b then some (answer_of c s) else none)
  combine_out c s b = ground arith

  combine_cache :
      (c s : Option Bool) (b : Bool)
      → (if (if is_some c then false else b) then first_of s c else c)
        ≡ (if b then first_of c s else c)
  combine_cache c s b = ground arith

  -- The answers of a bulk call have every pubkey that was asked for and no other: the cached
  -- value, else what the server said, else true, so that an outage lists everybody. The cache
  -- keeps its values and gains exactly what the server said of the pubkeys that were asked for
  -- and were not in it.
  pub is_whitelisted_bulk_lem :
      (pubkeys : List Bytes) (cache : StringMap Bool) (w : l.World) (pk : Bytes)
      → let said = said_of (l.check_bulk (misses_of cache pubkeys) w).0 pk in
        let r = is_whitelisted_bulk l pubkeys cache w in
        (get pk r.value
          ≡ (if contains pk pubkeys then some (answer_of (get pk cache) said) else none))
        × (get pk r.cache
            ≡ (if contains pk pubkeys then first_of (get pk cache) said else get pk cache))
  unfolding is_whitelisted_bulk get
  is_whitelisted_bulk_lem pubkeys cache w pk =
      let misses = misses_of cache pubkeys in
      let m : Maps = record { cache = cache; out = hits_of cache pubkeys [] } in
      let said = said_of (l.check_bulk misses w).0 pk in
      (
        resolve_misses-out misses m w pk
            ∙ rw (contains-misses_of pk cache pubkeys, get-hits_of pk cache pubkeys [])
                (combine_out (get pk cache) said (contains pk pubkeys)),
        resolve_misses-cache misses m w pk
            ∙ rw (contains-misses_of pk cache pubkeys)
                (combine_cache (get pk cache) said (contains pk pubkeys)),
      )
