-- ===== src/Graphql/Examples.antt =====
-- The resolvers at concrete arguments.
use deepfry.Base.{ℕ, zero, suc, ◌≡◌, ◌↔◌, refl, arith, none, some, [], ◌∷◌, ◌++◌}
use deepfry.Base.Results.{ok}
use deepfry.Base.Ints.{pos, negsuc}
use deepfry.Base.Words.{Bytes, le8, to_le_bytes}
use deepfry.Lmdb.Heed.{Heed}
use deepfry.Graphql.Stats.{read_stats}
use deepfry.Graphql.Stats.Saturation.{read_stats_lem}
use deepfry.Lmdb.Payload.Examples.{payload_heed, plain_codecs}
use deepfry.Query.Filter.{NostrFilter}
use deepfry.Query.Filter.Cursor.Examples.{plain}
use deepfry.Graphql.{EventFilterInput}
use deepfry.Graphql.Inputs.{build_nostr_filter}
use deepfry.Graphql.Inputs.Valid.{IsFilterOf, build_nostr_filter-eq-ok_iff}
use deepfry.Lmdb.Indexes.{open_index}
use deepfry.Query.Authors.{distinct_authors, authors_from, make_seek_key, increment_be, add_one}
use deepfry.Graphql.Resolvers.{
  events, Served, decode_after, events_page, decode_author_cursor, authors_page,
  latest_per_author_resolver,
}
use deepfry.Graphql.Resolvers.Cursors.{
  decode_after-events_page, decode_author_cursor-distinct_authors,
}
use deepfry.Graphql.Resolvers.Events.{IsServed, events-IsServed}
use deepfry.Graphql.Resolvers.Groups.{Answer, IsAnswer, latest_per_author_resolver-IsAnswer}

abbrev repeat : ℕ → ℕ → Bytes
repeat zero b = []
repeat (suc n) b = b ∷ repeat n b

abbrev notes : EventFilterInput
notes = record {
  ids = none;
  authors = none;
  kinds = some (pos 1 ∷ []);
  since = some (pos 10);
  until = some (pos 20);
  tag = none;
}

abbrev notes_filter : NostrFilter
notes_filter = record {
  ids = none;
  authors = none;
  kinds = some (1 ∷ []);
  tags = none;
  since = some 10;
  until = some 20;
  limit = 100;
}

build_nostr_filter-eq-ok_iff_example :
    (build_nostr_filter (some notes) 100 ≡ ok notes_filter) ↔ IsFilterOf notes 100 notes_filter
build_nostr_filter-eq-ok_iff_example = build_nostr_filter-eq-ok_iff notes 100 notes_filter

events-IsServed_example :
    (served : Served payload_heed plain_codecs plain (λ s. s) (λ r. []) tt 100) × (events
        payload_heed plain_codecs plain
        (λ s. s)
        (λ r. [])
        tt
        100
        8
        []
        (some notes)
        none
        (some (negsuc 0))
      ≡ some served)
    × IsServed payload_heed plain_codecs plain (λ s. s) (λ r. []) tt 100 (some (negsuc 0)) served
events-IsServed_example =
    events-IsServed payload_heed plain_codecs plain (λ s. s) (λ r. []) tt 100 8 [] (some notes) none
      (some (negsuc 0)) (omega arith)

decode_after-events_page_example :
    decode_after payload_heed plain_codecs plain
      (λ s. s)
      (λ r. [])
      tt
      100
      (events_page payload_heed plain_codecs plain
        (λ s. s)
        (λ r. [])
        tt
        100
        ([], some (record { created_at = 20; lev_id = 7 }))).end_cursor
    ≡ ok (some (record { created_at = 20; lev_id = 7 }))
decode_after-events_page_example =
    decode_after-events_page payload_heed plain_codecs plain (λ s. s) (λ r. []) tt 100 []
      (some (record { created_at = 20; lev_id = 7 })) (omega arith, omega arith)

-- An index of one author.
abbrev one_author : Heed
one_author = record payload_heed {
  range = λ db rtxn from to. ok (ok (repeat 32 7 ++ le8 0, []) ∷ []);
}

one_author_page : distinct_authors one_author tt none 1 ≡ ok (repeat 32 7 ∷ [], some (repeat 32 7))
unfolding distinct_authors authors_from open_index make_seek_key increment_be add_one to_le_bytes
one_author_page = refl

decode_author_cursor-distinct_authors_example :
    decode_author_cursor
      (authors_page one_author plain_codecs plain
        (λ s. s)
        (λ r. [])
        tt
        100
        (repeat 32 7 ∷ [], some (repeat 32 7))).end_cursor
    ≡ ok (some (repeat 32 7))
decode_author_cursor-distinct_authors_example =
    decode_author_cursor-distinct_authors one_author plain_codecs plain (λ s. s) (λ r. []) tt 100
      none 1 (repeat 32 7 ∷ []) (some (repeat 32 7)) one_author_page (omega arith)

latest_per_author_resolver-IsAnswer_example :
    (answer : Answer payload_heed plain_codecs plain (λ s. s) (λ r. []) tt 100)
    × (latest_per_author_resolver payload_heed plain_codecs plain
          (λ s. s)
          (λ r. [])
          tt
          100
          0
          []
          (pos 1)
          (negsuc 4)
          (repeat 64 97 ∷ [])
        ≡ some answer)
    × IsAnswer payload_heed plain_codecs plain
        (λ s. s)
        (λ r. [])
        tt
        100
        (pos 1)
        (negsuc 4)
        (repeat 64 97 ∷ [])
        answer
latest_per_author_resolver-IsAnswer_example =
    latest_per_author_resolver-IsAnswer payload_heed plain_codecs plain (λ s. s) (λ r. []) tt 100 0
      [] (pos 1) (negsuc 4) (repeat 64 97 ∷ [])

-- The payloads, with a last one.
abbrev counted : Heed
counted = record payload_heed { last = λ db rtxn. ok (some (le8 9, [])) }

read_stats_example :
    read_stats counted tt 3 (84 ∷ [])
    ≡ ok (record {
      event_count = pos 3;
      max_lev_id = pos 9;
      db_version = pos 3;
      pinned_strfry_version = 84 ∷ [];
    })
read_stats_example =
    read_stats_lem counted tt tt tt refl refl 3 9 3 [] (84 ∷ []) refl refl (omega arith)
      (omega arith)
