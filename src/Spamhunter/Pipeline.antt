-- ===== src/Spamhunter/Pipeline.antt =====
-- spamhunter/pubkey_iterator/src/pipeline.rs: the batches, the fetch of one with the whitelist, and
-- the run. One fetch is under way at a time, so the batches come in order; the consumer's thread
-- takes what was sent, in order and to the end, before it is joined.
pub mod Complete
use deepfry.Base.{
  ℕ, zero, suc, ◌==◌, Bool, true, Option, none, some, List, [], ◌∷◌, ◌++◌, map, length, take, drop,
  if◌then◌else◌,
}
use deepfry.Base.Results.{Result, ok, err}
use deepfry.Base.Panics.{Outcome, done, panic}
use deepfry.Base.Ints.{ℤ}
use deepfry.Base.Words.{Bytes}
use deepfry.Spamhunter.Client.{ClientError, Event, AuthorGroup, Http}
use deepfry.Spamhunter.Fetch.{StringMap, get, fetch_batch, match_groups}
use deepfry.Spamhunter.Whitelist.{Whitelist, Resolved, is_whitelisted_bulk}

unfoldable pub default_authors_per_call : ℕ
default_authors_per_call = 50

-- The carrier of detect/mod.rs.
pub record ScoredInput : Type 0 where
  pub group : AuthorGroup
  pub whitelisted : Bool

-- `chunks`, one round a chunk.
unfoldable pub chunks_within : {A : Type 0} → ℕ → ℕ → List A → List (List A)
chunks_within zero n xs = []
chunks_within (suc fuel) n [] = []
chunks_within (suc fuel) n (x ∷ xs) = take n (x ∷ xs) ∷ chunks_within fuel n (drop n (x ∷ xs))

unfoldable pub chunks : {A : Type 0} → ℕ → List A → List (List A)
chunks n xs = chunks_within (length xs) n xs

-- What a run leaves: what the consumer was given, the result, and the world outside.
pub record Piped (W : Type 0) : Type 0 where
  pub consumed : List ScoredInput
  pub result : Result ClientError ℕ
  pub world : W

-- The rest of the run after the fetch of one batch: the first error ends it.
unfoldable pub after_batch :
    {W : Type 0} → Result ClientError (List ScoredInput) → W → Piped W → Piped W
after_batch (ok inputs) w rest = record rest { consumed = inputs ++ rest.consumed }
after_batch (err e) w rest = record { consumed = []; result = err e; world = w }

module _ {W : Type 0} (fetch : List Bytes → W → Result ClientError (List ScoredInput) × W) where
  unfoldable pub produce : List (List Bytes) → W → Piped W
  produce [] w = record { consumed = []; result = ok 0; world = w }
  produce (batch ∷ batches) w = let (r, w') = fetch batch w in after_batch r w' (produce batches w')

  -- `chunks` panics at the size 0.
  unfoldable pub run_pipeline : List Bytes → ℕ → W → Outcome (Unit {0}) (Piped W)
  run_pipeline pubkeys authors_per_call w =
      if authors_per_call == 0 then panic else done (produce (chunks authors_per_call pubkeys) w)

-- The two clients, with the cache of the whitelist.
pub record Clients (H L : Type 0) : Type 0 where
  pub http : H
  pub cache : StringMap Bool
  pub list : L

-- `copied().unwrap_or(true)`
unfoldable pub or_true_value : Option Bool → Bool
or_true_value none = true
or_true_value (some b) = b

unfoldable pub scored_input : StringMap Bool → Bytes × List Event → ScoredInput
scored_input wl (pk, events) = record {
  group = record { author = pk; events = events };
  whitelisted = or_true_value (get pk wl);
}

module _ (h : Http) (l : Whitelist) (kind per_author : ℤ) where
  -- The part after the fetch.
  unfoldable pub with_whitelist :
      List Bytes
      → Result ClientError (List AuthorGroup)
      → Clients h.World l.World
      → Result ClientError (List ScoredInput) × Clients h.World l.World
  with_whitelist batch (err e) c = (err e, c)
  with_whitelist batch (ok groups) c =
      let matched = match_groups batch groups in
      let wl = is_whitelisted_bulk l (map (λ m. m.0) matched) c.cache c.list in
      (ok (map (scored_input wl.value) matched), record c { cache = wl.cache; list = wl.world })

  unfoldable pub production_fetch_with_whitelist :
      List Bytes
      → Clients h.World l.World
      → Result ClientError (List ScoredInput) × Clients h.World l.World
  production_fetch_with_whitelist batch c =
      let (r, w') = fetch_batch h kind per_author batch c.http in
      with_whitelist batch r (record c { http = w' })
