-- ===== src/Query/Engine/Expiry.antt =====
-- `is_expired` of engine.rs: the NIP-40 expiration of an event.
use deepfry.Base.{
  ℕ, ◌+◌, ◌-◌, ◌*◌, Bool, false, ◌&&◌, not, leb, ◌==◌, Option, none, some, List, [], ◌∷◌, any,
  bytes_eq, if◌then◌else◌,
}
use deepfry.Base.Words.{Bytes, u64_max}
use deepfry.Lmdb.Payload.{NostrEvent}

-- The digits of `str::parse::<u64>`, after a number that is already read.
unfoldable pub parse_digits : ℕ → Bytes → Option ℕ
parse_digits n [] = some n
parse_digits n (c ∷ cs) =
    let n' = n * 10 + (c - 48) in
    let rest = parse_digits n' cs in if leb 48 c && (leb c 57 && leb n' u64_max) then rest else none

-- `str::parse::<u64>`: digits, after one `+` at most.
unfoldable pub parse_u64 : Bytes → Option ℕ
parse_u64 [] = none
parse_u64 (c ∷ []) = parse_digits 0 (c ∷ [])
parse_u64 (c ∷ d ∷ cs) = if c == 43 then parse_digits 0 (d ∷ cs) else parse_digits 0 (c ∷ d ∷ cs)

-- "expiration"
abbrev pub expiration : Bytes
expiration = 101 ∷ 120 ∷ 112 ∷ 105 ∷ 114 ∷ 97 ∷ 116 ∷ 105 ∷ 111 ∷ 110 ∷ []

unfoldable pub tag_expires : ℕ → List Bytes → Bool
tag_expires now (name ∷ value ∷ more) =
    bytes_eq name expiration
    && elim (parse_u64 value) [ none ↦ false | some exp ↦ not (exp == 0) && leb exp now ]
tag_expires now _ = false

unfoldable pub is_expired : ℕ → NostrEvent → Bool
is_expired now event = any (tag_expires now) event.tags
