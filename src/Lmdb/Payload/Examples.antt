-- ===== src/Lmdb/Payload/Examples.antt =====
-- A small environment: three payloads (raw JSON, an unknown tag, a zstd frame) and one dictionary.
use deepfry.Base.{◌≡◌, refl, Option, none, some, [], ◌∷◌, ◌++◌, is_empty, bytes_eq, if◌then◌else◌}
use deepfry.Base.Results.{ok, err}
use deepfry.Base.Words.{Bytes, le8, to_le_bytes}
use deepfry.Lmdb.Heed.{Heed}
use deepfry.Lmdb.Payload.{
  NostrEvent, Codecs, DictCache, open_named_db, load_dictionary,
  decode_event_payload_with_cache_and_limit,
}
use deepfry.Lmdb.Payload.Cache.{IsCoherent, decode-IsCoherent}

abbrev pub frame : Bytes
frame = 1 ∷ 5 ∷ 0 ∷ 0 ∷ 0 ∷ 65 ∷ []

-- The payloads have keys of 8 bytes, the dictionary one of 4.
abbrev pub stored : Bytes → Option Bytes
stored key =
    if bytes_eq key (le8 1)
    then some (0 ∷ 65 ∷ [])
    else if bytes_eq key (le8 2)
    then some (9 ∷ [])
    else if bytes_eq key (le8 3)
    then some frame
    else if bytes_eq key (to_le_bytes 4 5)
    then some (42 ∷ [])
    else none

abbrev pub payload_heed : Heed
payload_heed = record {
  Error = Unit {0};
  Env = Unit {0};
  Txn = Unit {0};
  Db = Unit {0};
  read_txn = λ env. ok tt;
  open_db = λ env rtxn comparator name. ok (some tt);
  get = λ db rtxn key. ok (stored key);
  range = λ db rtxn from to. ok [];
  rev_range = λ db rtxn from to. ok [];
  last = λ db rtxn. ok none;
  entries = λ db rtxn. ok 3;
}

abbrev blank : NostrEvent
blank = record { id = []; pubkey = []; created_at = 0; kind = 1; tags = []; content = []; sig = [] }

abbrev pub plain_codecs : Codecs
plain_codecs = record {
  JsonError = Unit {0};
  ZstdError = Unit {0};
  Dictionary = Bytes;
  Decompressor = Bytes;
  from_slice = λ bs. if is_empty bs then err tt else ok (record blank { content = bs });
  copy = λ bs. bs;
  with_prepared_dictionary = λ dd. ok dd;
  decompress = λ dd bs max. ok (dd ++ bs);
}

abbrev pub warm : DictCache payload_heed plain_codecs
warm = (5, 42 ∷ []) ∷ []

pub warm-IsCoherent : IsCoherent payload_heed plain_codecs tt warm
unfolding load_dictionary open_named_db to_le_bytes bytes_eq
warm-IsCoherent = (refl, tt)

decode-IsCoherent_example :
    ((decode_event_payload_with_cache_and_limit payload_heed plain_codecs frame warm tt 100).0
      ≡ (decode_event_payload_with_cache_and_limit payload_heed plain_codecs frame [] tt 100).0)
    × IsCoherent payload_heed plain_codecs tt
        (decode_event_payload_with_cache_and_limit payload_heed plain_codecs frame warm tt 100).1
decode-IsCoherent_example =
    decode-IsCoherent payload_heed plain_codecs tt frame warm 100 warm-IsCoherent
