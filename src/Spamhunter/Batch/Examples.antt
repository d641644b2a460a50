-- ===== src/Spamhunter/Batch/Examples.antt =====
-- A witness for the batch run.
use deepfry.Base.{length, keep_if, ◌==◌, ◌≡◌, refl, true, some, [], ◌∷◌, bytes_eq, All}
use deepfry.Base.Results.{ok}
use deepfry.Base.Panics.{done}
use deepfry.Base.Ints.{pos}
use deepfry.Spamhunter.Model.{Tables}
use deepfry.Spamhunter.Store.Runs.{read_pubkeys, new_run}
use deepfry.Spamhunter.Fetch.Matching.{Distinct}
use deepfry.Spamhunter.Pipeline.{
  ScoredInput, default_authors_per_call, Clients, production_fetch_with_whitelist,
}
use deepfry.Spamhunter.Detect.{score_pubkey, combine, Floats, ScoringStage}
use deepfry.Spamhunter.Store.Keys.{HasNumbers}
use deepfry.Query.Router.{sort_keys, insert_key, key_leb}
use deepfry.Spamhunter.Batch.{Batched, read_max_lev_end, max_lev_end_of, score_batch}
use deepfry.Spamhunter.Batch.Scored.{has_score}
use deepfry.Spamhunter.Batch.Whole.{scored, score_batch-Scored}
use deepfry.Spamhunter.Examples.{
  adapter, empty_tables, events_of, adapter-HasCapacity, two_keys, list_server, clients,
}

-- Floats that are all the same.
abbrev floats : Floats
floats = record {
  F = Unit;
  sum_start = some tt;
  plus = λ x y. some tt;
  times = λ x y. some tt;
  sigmoid = λ x. some tt;
  exceeds = λ x y. true;
}

abbrev no_layers : ScoringStage Unit
no_layers = record { layers = []; weights = []; bias = some tt; tau = some tt }

-- A run whose walk has ended, and two pubkeys.
abbrev walked : Tables Unit
walked = record empty_tables {
  sequence = 1;
  run = record (new_run 1 5 []) { max_lev_id_end = some (pos 7) } ∷ [];
  pubkey = two_keys;
}

walked-Distinct : Distinct (read_pubkeys walked)
unfolding read_pubkeys sort_keys insert_key key_leb bytes_eq
walked-Distinct = ((refl, tt), (tt, tt))

walked-read_max_lev_end : read_max_lev_end 1 walked ≡ some (pos 7)
unfolding read_max_lev_end max_lev_end_of new_run
walked-read_max_lev_end = refl

no_layers-HasNumbers : (i : ScoredInput) → HasNumbers (scored floats no_layers 1 i)
unfolding score_pubkey combine
no_layers-HasNumbers i = (refl, tt)

walked-run : length (keep_if (λ r. r.run_id == 1) walked.run) ≡ 1
unfolding new_run
walked-run = refl

score_batch-Scored_example :
    (b : Batched Unit (Clients Unit Unit)) × (score_batch
        (production_fetch_with_whitelist adapter list_server (pos 1) (pos 100))
        (scored floats no_layers 1)
        1
        9
        walked
        clients
      ≡ done b)
    × (b.result ≡ ok 1)
    × All (λ pk. has_score 1 pk b.db ≡ true) (read_pubkeys walked)
score_batch-Scored_example =
    score_batch-Scored adapter list_server (pos 1) (pos 100) events_of
      (adapter-HasCapacity default_authors_per_call) floats no_layers 1 9 (pos 7) walked clients
      (record { scores = tt; signals = tt; prints = tt }) walked-Distinct walked-read_max_lev_end
      walked-run no_layers-HasNumbers
