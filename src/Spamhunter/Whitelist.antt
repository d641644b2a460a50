-- ===== src/Spamhunter/Whitelist.antt =====
-- spamhunter/pubkey_iterator/src/detect/whitelist.rs: the resolver with its cache, and the value of
-- the layer. `check` and `check_bulk` stand for the two HTTP calls: none is a call that fails, a
-- status that is no success or a body that cannot be decoded.
pub mod Failsafe
use deepfry.Base.{Bool, true, false, Option, none, some, List, [], ◌∷◌, if◌then◌else◌}
use deepfry.Base.Words.{Bytes}
use deepfry.Spamhunter.Fetch.{StringMap, get, put}

pub record Whitelist : Type 1 where
  pub World : Type 0
  pub check : Bytes → World → Option Bool × World
  pub check_bulk : List Bytes → World → Option (StringMap Bool) × World

-- The two maps of a bulk call: the cache and the answers.
pub record Maps : Type 0 where
  pub cache : StringMap Bool
  pub out : StringMap Bool

-- What a call leaves.
pub record Resolved (A W : Type 0) : Type 0 where
  pub value : A
  pub cache : StringMap Bool
  pub world : W

-- The first loop of the bulk call: the hits go to `out`, the others are the misses, in order.
unfoldable pub hits_of : StringMap Bool → List Bytes → StringMap Bool → StringMap Bool
hits_of cache [] out = out
hits_of cache (pk ∷ pks) out = elim (get pk cache) [
  | some hit ↦ hits_of cache pks (put pk hit out)
  | none ↦ hits_of cache pks out
]

unfoldable pub misses_of : StringMap Bool → List Bytes → List Bytes
misses_of cache [] = []
misses_of cache (pk ∷ pks) =
    let rest = misses_of cache pks in elim (get pk cache) [ some hit ↦ rest | none ↦ pk ∷ rest ]

-- One miss, with the results of the server.
unfoldable pub record_result : Bytes → Option Bool → Maps → Maps
record_result pk (some value) m = record { cache = put pk value m.cache; out = put pk value m.out }
record_result pk none m = record m { out = put pk true m.out }

unfoldable pub record_results : StringMap Bool → List Bytes → Maps → Maps
record_results results [] m = m
record_results results (pk ∷ pks) m =
    record_results results pks (record_result pk (get pk results) m)

-- The arm of the failure.
unfoldable pub all_true : List Bytes → StringMap Bool → StringMap Bool
all_true [] out = out
all_true (pk ∷ pks) out = all_true pks (put pk true out)

-- The match on what the bulk call brought.
unfoldable pub settle_misses : Option (StringMap Bool) → List Bytes → Maps → Maps
settle_misses (some results) misses m = record_results results misses m
settle_misses none misses m = record m { out = all_true misses m.out }

-- The match on what the single call brought.
unfoldable pub settle_one :
    {W : Type 0} → Bytes → StringMap Bool → Option Bool → W → Resolved Bool W
settle_one pk cache (some value) w = record { value = value; cache = put pk value cache; world = w }
settle_one pk cache none w = record { value = true; cache = cache; world = w }

module _ (l : Whitelist) where
  unfoldable pub is_whitelisted : Bytes → StringMap Bool → l.World → Resolved Bool l.World
  is_whitelisted pk cache w =
      let (resolved, w') = l.check pk w in
      elim (get pk cache) [
        | some hit ↦ record { value = hit; cache = cache; world = w }
        | none ↦ settle_one pk cache resolved w'
      ]

  -- The call with the misses, which is left out where there is none.
  unfoldable pub resolve_misses : List Bytes → Maps → l.World → Resolved (StringMap Bool) l.World
  resolve_misses [] m w = record { value = m.out; cache = m.cache; world = w }
  resolve_misses (pk ∷ misses) m w =
      let (resolved, w') = l.check_bulk (pk ∷ misses) w in
      let done = settle_misses resolved (pk ∷ misses) m in
      record { value = done.out; cache = done.cache; world = w' }

  unfoldable pub is_whitelisted_bulk :
      List Bytes → StringMap Bool → l.World → Resolved (StringMap Bool) l.World
  is_whitelisted_bulk pubkeys cache w =
      resolve_misses (misses_of cache pubkeys)
        (record { cache = cache; out = hits_of cache pubkeys [] }) w

-- `WhitelistAbsenceLayer::score`, for any type of floats.
unfoldable pub absence_value : {F : Type 0} → F → F → Bool → F
absence_value zero_value absence_subscore whitelisted =
    if whitelisted then zero_value else absence_subscore
