-- ===== src/Query/Hydrate/Examples.antt =====
-- Hydration of three levIds, of which the second has a payload that does not decode.
use deepfry.Base.{All, if◌then◌else◌, ◌==◌, ℕ, ◌+◌, ◌≡◌, refl, List, [], ◌∷◌, length, bytes_eq}
use deepfry.Base.Results.{ok}
use deepfry.Base.Words.{Bytes, to_le_bytes}
use deepfry.Lmdb.Payload.{get_event_payload, open_named_db, get_payload}
use deepfry.Lmdb.Payload.Examples.{payload_heed, plain_codecs, warm, warm-IsCoherent}
use deepfry.Query.Router.{filter_map}
use deepfry.Query.Hydrate.{hydrate_lev_ids, hydrate_lev_ids_batch}
use deepfry.Query.Hydrate.Batch.{IsSameOutcome, hydrate_lev_ids-batch}
use deepfry.Query.Hydrate.Found.{paired, decoding, IsStored, hydrate_lev_ids_lem}
use deepfry.Lmdb.Payload.Cache.{IsCoherent}
use deepfry.Query.Hydrate.Stored.{hydrate_lev_ids_batch_lem}

abbrev three : List ℕ
three = 1 ∷ 2 ∷ 3 ∷ []

hydrate_lev_ids-batch_example :
    IsSameOutcome payload_heed plain_codecs tt
      (hydrate_lev_ids payload_heed plain_codecs tt three warm 0)
      (hydrate_lev_ids_batch payload_heed plain_codecs tt three warm 0)
hydrate_lev_ids-batch_example = hydrate_lev_ids-batch payload_heed plain_codecs tt three warm 0

abbrev raw_of : ℕ → Bytes
raw_of n = if n == 1 then 0 ∷ 65 ∷ [] else if n == 2 then 9 ∷ [] else 1 ∷ 5 ∷ 0 ∷ 0 ∷ 0 ∷ 65 ∷ []

each-IsStored : All (IsStored payload_heed plain_codecs tt raw_of) three
unfolding get_event_payload open_named_db get_payload to_le_bytes bytes_eq
each-IsStored = (refl, (refl, (refl, tt)))

hydrate_lev_ids_example :
    ((hydrate_lev_ids payload_heed plain_codecs tt three warm 0).0
      ≡ ok (filter_map (paired (decoding payload_heed plain_codecs tt raw_of)) three))
    × IsCoherent payload_heed plain_codecs tt
        (hydrate_lev_ids payload_heed plain_codecs tt three warm 0).1
hydrate_lev_ids_example =
    hydrate_lev_ids_lem payload_heed plain_codecs tt raw_of three warm 0 each-IsStored
      warm-IsCoherent

hydrate_lev_ids_batch_example :
    ((hydrate_lev_ids_batch payload_heed plain_codecs tt three warm 0).0
      ≡ ok (filter_map (paired (decoding payload_heed plain_codecs tt raw_of)) three))
    × (length (filter_map (paired (decoding payload_heed plain_codecs tt raw_of)) three)
          + (hydrate_lev_ids_batch payload_heed plain_codecs tt three warm 0).2
        ≡ length three + 0)
hydrate_lev_ids_batch_example =
    hydrate_lev_ids_batch_lem payload_heed plain_codecs tt raw_of three warm 0 each-IsStored
      warm-IsCoherent
