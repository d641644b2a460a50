-- ===== src/Query/Router/Examples.antt =====
-- Start keys and a hex text at concrete inputs.
use deepfry.Base.{◌≡◌, ◌↔◌, map, arith, none, some, [], ◌∷◌, All}
use deepfry.Base.Results.{ok}
use deepfry.Base.Words.{AllBytes}
use deepfry.Lmdb.Scan.{reverse}
use deepfry.Query.Filter.{NostrFilter}
use deepfry.Query.Router.{multi, key_bound, build_start_keys, created_at_from_key}
use deepfry.Query.Router.Hex.{decode_hex, hex_encode_lowercase}
use deepfry.Query.Router.HexLaws.{to_lower, decode_hex-eq-ok_iff}
use deepfry.Query.Router.Order.{IsAscending, build_start_keys-IsAscending}
use deepfry.Query.Router.Bound.{build_start_keys_bound}

-- Kinds 7, 1 and 7, until time 100.
abbrev of_kinds : NostrFilter
of_kinds = record {
  ids = none;
  authors = none;
  kinds = some (7 ∷ 1 ∷ 7 ∷ []);
  tags = none;
  since = none;
  until = some 100;
  limit = 10;
}

build_start_keys_bound_example :
    All
      (λ k. created_at_from_key k ≡ key_bound of_kinds reverse)
      (build_start_keys of_kinds (multi "Event__kind") reverse)
unfolding key_bound
build_start_keys_bound_example =
    build_start_keys_bound of_kinds (multi "Event__kind") reverse (omega arith)

build_start_keys-IsAscending_example :
    IsAscending (build_start_keys of_kinds (multi "Event__kind") reverse)
build_start_keys-IsAscending_example =
    build_start_keys-IsAscending of_kinds (multi "Event__kind") reverse

-- The text `aB`.
decode_hex-eq-ok_iff_example :
    (decode_hex (97 ∷ 66 ∷ []) ≡ ok (171 ∷ []))
    ↔ (AllBytes (171 ∷ []) × (hex_encode_lowercase (171 ∷ []) ≡ map to_lower (97 ∷ 66 ∷ [])))
decode_hex-eq-ok_iff_example = decode_hex-eq-ok_iff (97 ∷ 66 ∷ []) (171 ∷ [])
