-- ===== src/Query/Engine/Reads/Examples.antt =====
-- A round below an event of a small `Event__created_at` index.
use mathlib.Core.List.{Permᴰ}
use mathlib.Core.List.Permᴰ
use deepfry.Base.{Bool, refl, inl, inr, arith, none, some, List, [], ◌∷◌, map, All, starts_with}
use deepfry.Base.Words.{Bytes, to_le_bytes, from_le_bytes}
use deepfry.Lmdb.Indexes.{lev_id_of_value}
use deepfry.Lmdb.Scan.{scan_index_one_window, Hit, reverse_upper_bound}
use deepfry.Lmdb.Scan.Resume.{rest, walk_bound}
use deepfry.Lmdb.Scan.Window.{hits}
use deepfry.Lmdb.Scan.Examples.{newer_first, events, small_heed, small_index}
use deepfry.Lmdb.Payload.Examples.{plain_codecs}
use deepfry.Query.Filter.{NostrFilter}
use deepfry.Query.Router.{
  concat_map, created_at_from_key, build_start_keys, dedup, sort_keys, raw_start_keys, select_index,
  insert_key, dedup_after, key_bound,
}
use deepfry.Query.Merge.{stream_prefix, passes_floor}
use deepfry.Query.Merge.Source.{At, index-IsSource}
use deepfry.Query.Merge.Page.{IsStart, wanted}
use deepfry.Query.Merge.Examples.{IsTime, are_times, raises, by_time}
use deepfry.Query.Engine.{index_short_name, Position, round_keys, round_until}
use deepfry.Query.Engine.Below.{IsDescending, below, comes_after}
use deepfry.Query.Engine.Feed.{Reads, position_of}
use deepfry.Query.Engine.Reads.{scan, merge_round-Reads}

abbrev every_event : NostrFilter
every_event = record {
  ids = none;
  authors = none;
  kinds = none;
  tags = none;
  since = none;
  until = none;
  limit = 1;
}

abbrev listed : List Position
listed = (20, 3) ∷ (10, 2) ∷ (10, 1) ∷ []

abbrev left_at : Bytes → Bool → List Hit
left_at = rest small_heed tt "Event__created_at" newer_first events small_index

abbrev Here : Bytes → Bool → Type 0
Here =
    At small_heed tt "Event__created_at" newer_first events small_index 1 (omega arith) [] IsTime
      are_times raises by_time

starts :
    All
      (IsStart
        (scan small_heed plain_codecs tt 100 1 every_event listed
          (λ n. [])
          (some (20, 3))
          left_at
          Here)
        1
        0
        (some (20, 3))
        left_at
        Here)
      (round_keys every_event (some (20, 3)))
unfolding round_keys build_start_keys dedup sort_keys raw_start_keys select_index insert_key
    dedup_after round_until key_bound stream_prefix to_le_bytes from_le_bytes starts_with
    created_at_from_key rest walk_bound reverse_upper_bound hits lev_id_of_value
    scan_index_one_window index_short_name
starts =
    let source =
      index-IsSource small_heed tt "Event__created_at" newer_first events small_index 1
        (omega arith) [] IsTime are_times raises by_time in
    (
      (
        (
          ground arith,
          (λ e. ground arith),
          ((λ e. absurd cc), ((λ e. absurd cc), ((λ e. tt), tt))),
        ),
        source,
        ((inl (omega arith), (inl (omega arith), tt)), ((inr (refl, omega arith), tt), (tt, tt))),
      ),
      tt,
    )

placed :
    Permᴰ
      (map position_of (
        concat_map
          (wanted
            (scan small_heed plain_codecs tt 100 1 every_event listed
              (λ n. [])
              (some (20, 3))
              left_at
              Here)
            1
            0
            (some (20, 3))
            left_at
            Here)
          (round_keys every_event (some (20, 3)))))
      (below listed (some (20, 3)))
unfolding round_keys build_start_keys dedup sort_keys raw_start_keys select_index insert_key
    dedup_after round_until key_bound stream_prefix to_le_bytes from_le_bytes starts_with
    created_at_from_key rest walk_bound reverse_upper_bound hits lev_id_of_value comes_after
    passes_floor
placed = Permᴰ.refl ((10, 2) ∷ (10, 1) ∷ [])

newest_above : IsDescending listed
unfolding comes_after
newest_above = ((refl, (refl, tt)), ((refl, tt), (tt, tt)))

merge_round-Reads_example :
    Reads small_heed plain_codecs tt 100 1 every_event listed (λ n. []) (some (20, 3))
merge_round-Reads_example =
    merge_round-Reads small_heed plain_codecs tt 100 1 every_event listed (λ n. []) (some (20, 3))
      left_at Here starts placed newest_above
