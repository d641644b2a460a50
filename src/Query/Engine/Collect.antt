-- ===== src/Query/Engine/Collect.antt =====
-- The steps of the loop over a filtered batch.
use deepfry.Base.{
  ℕ, ◌≡◌, refl, true, false, leb, none, some, List, [], ◌∷◌, ◌++◌, length, if◌then◌else◌,
}
use deepfry.Lmdb.Payload.{DecodedEvent}
use deepfry.Query.Filter.{NostrFilter}
use deepfry.Query.Engine.{residual, Position, EventMap, find, delete, Emitted, collect_valid}

module _ (now limit : ℕ) (f : NostrFilter) where
  pub collect_valid-full :
      (p : Position) (batch : List Position) (m : EventMap) (valid : List Emitted)
      → leb limit (length valid) ≡ true
      → collect_valid now limit f (p ∷ batch) m valid ≡ valid
  unfolding collect_valid
  collect_valid-full p batch m valid e = rw e refl

  pub collect_valid-none :
      (ts lev_id : ℕ) (batch : List Position) (m : EventMap) (valid : List Emitted)
      → leb limit (length valid) ≡ false
      → find lev_id m ≡ none
      → collect_valid now limit f ((ts, lev_id) ∷ batch) m valid
        ≡ collect_valid now limit f batch (delete lev_id m) valid
  unfolding collect_valid
  collect_valid-none ts lev_id batch m valid e g = rw (e, g) refl

  pub collect_valid-some :
      (ts lev_id : ℕ) (decoded : DecodedEvent) (batch : List Position) (m : EventMap)
      (valid : List Emitted)
      → leb limit (length valid) ≡ false
      → find lev_id m ≡ some decoded
      → collect_valid now limit f ((ts, lev_id) ∷ batch) m valid
        ≡ collect_valid now limit f batch
            (delete lev_id m)
            (if residual now f decoded.event then valid ++ (ts, lev_id, decoded) ∷ [] else valid)
  unfolding collect_valid
  collect_valid-some ts lev_id decoded batch m valid e g = rw (e, g) refl
