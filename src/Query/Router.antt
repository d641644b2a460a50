-- ===== src/Query/Router.antt =====
-- LMDB2GraphQL/src/query/router.rs: the choice of an index and the start keys of its scans.
pub mod Hex
pub mod HexLaws
pub mod Order
pub mod Bound
mod Examples
use Prim.Native.String.{String}
use text.Mathlib.Text.{◌==◌ as str_eq}
use deepfry.Base.{
  ℕ, suc, ◌+◌, ◌-◌, Bool, true, false, ◌&&◌, not, ltb, leb, ◌==◌, Option, none, some, is_some, List,
  [], ◌∷◌, ◌++◌, map, length, drop, all, if◌then◌else◌, bytes_eq,
}
use deepfry.Base.Results.{Result, ok, err}
use deepfry.Base.Words.{Bytes, u64_max, le8, from_le_bytes}
use deepfry.Lmdb.Scan.{ScanDirection, forward, reverse}
use deepfry.Query.Filter.{NostrFilter, TagFilter}
use Hex.{decode_hex}

pub data SelectedIndex : Type 0 where
  single multi : String → SelectedIndex

unfoldable pub select_index : NostrFilter → SelectedIndex
select_index f =
    if is_some f.ids
    then single "Event__id"
    else if is_some f.authors && is_some f.kinds
    then multi "Event__pubkeyKind"
    else if is_some f.authors
    then multi "Event__pubkey"
    else if is_some f.kinds
    then multi "Event__kind"
    else if is_some f.tags
    then multi "Event__tag"
    else single "Event__created_at"

-- `as_deref().unwrap_or(&[])`
abbrev pub or_empty {ℓ} : {A : Type ℓ} → Option (List A) → List A
or_empty none = []
or_empty (some xs) = xs

abbrev pub unwrap_or {ℓ} : {A : Type ℓ} → Option A → A → A
unwrap_or none d = d
unwrap_or (some a) d = a

-- `filter_map(..).collect()`
abbrev pub filter_map {ℓ κ} : {A : Type ℓ} {B : Type κ} → (A → Option B) → List A → List B
filter_map f [] = []
filter_map f (x ∷ xs) = let rest = filter_map f xs in elim (f x) [ none ↦ rest | some y ↦ y ∷ rest ]

abbrev pub concat_map {ℓ κ} : {A : Type ℓ} {B : Type κ} → (A → List B) → List A → List B
concat_map f [] = []
concat_map f (x ∷ xs) = f x ++ concat_map f xs

-- `try_into::<[u8; 32]>().ok()`
abbrev pub exactly_32 : Bytes → Option Bytes
exactly_32 bytes = if length bytes == 32 then some bytes else none

unfoldable pub decode_pubkey_warn : Bytes → Option Bytes
decode_pubkey_warn hex_pk = elim (decode_hex hex_pk) [ ok bytes ↦ exactly_32 bytes | err e ↦ none ]

-- The arm `Single("Event__id")`.
unfoldable pub id_key : Bytes → Bytes → Option Bytes
id_key ts_bytes hex_id = elim (decode_hex hex_id) [
  | ok bytes ↦ if length bytes == 32 then some (bytes ++ ts_bytes) else none
  | err e ↦ none
]

-- The arm `Multi("Event__pubkey")`.
unfoldable pub pubkey_key : Bytes → Bytes → Option Bytes
pubkey_key ts_bytes hex_pk = elim (decode_pubkey_warn hex_pk) [
  | none ↦ none
  | some pk ↦ some (pk ++ ts_bytes)
]

-- The arm `Multi("Event__kind")`.
unfoldable pub kind_key : Bytes → ℕ → Bytes
kind_key ts_bytes kind = le8 kind ++ ts_bytes

-- The arm `Multi("Event__pubkeyKind")`: the keys of one author.
unfoldable pub pubkey_kind_keys : Bytes → List ℕ → Bytes → List Bytes
pubkey_kind_keys ts_bytes kinds hex_pk = elim (decode_pubkey_warn hex_pk) [
  | none ↦ []
  | some pk ↦ map (λ kind. pk ++ (le8 kind ++ ts_bytes)) kinds
]

-- `matches!(b, b'0'..=b'9' | b'a'..=b'f')`
abbrev pub is_lower_hex : ℕ → Bool
is_lower_hex b = if leb 48 b && leb b 57 then true else leb 97 b && leb b 102

-- The arm `Multi("Event__tag")`: the bytes that strfry stores for a tag value.
unfoldable pub tag_value_bytes : Bytes → Bytes
tag_value_bytes value =
    if length value == 64 && all is_lower_hex value
    then elim (decode_hex value) [ ok bytes ↦ bytes | err e ↦ value ]
    else value

-- The keys of one `TagFilter`, whose name has to be one byte.
unfoldable pub tag_keys_of : Bytes → List Bytes → Bytes → List Bytes
tag_keys_of ts_bytes values (name_byte ∷ []) =
    map (λ value. name_byte ∷ (tag_value_bytes value ++ ts_bytes)) values
tag_keys_of ts_bytes values _ = []

unfoldable pub tag_keys : Bytes → TagFilter → List Bytes
tag_keys ts_bytes tag = tag_keys_of ts_bytes tag.values tag.name

-- `Ord` of `Vec<u8>`: lexicographic, a proper prefix first.
unfoldable pub key_leb : Bytes → Bytes → Bool
key_leb [] ys = true
key_leb (x ∷ xs) [] = false
key_leb (x ∷ xs) (y ∷ ys) = let rest = key_leb xs ys in if x == y then rest else ltb x y

unfoldable pub insert_key : Bytes → List Bytes → List Bytes
insert_key k [] = k ∷ []
insert_key k (x ∷ xs) = let rest = insert_key k xs in if key_leb k x then k ∷ x ∷ xs else x ∷ rest

-- `keys.sort()`
unfoldable pub sort_keys : List Bytes → List Bytes
sort_keys [] = []
sort_keys (k ∷ ks) = insert_key k (sort_keys ks)

-- `keys.dedup()`: drops an element that equals the one before it.
unfoldable pub dedup_after : Bytes → List Bytes → List Bytes
dedup_after k [] = []
dedup_after k (x ∷ xs) = if bytes_eq k x then dedup_after k xs else x ∷ dedup_after x xs

unfoldable pub dedup : List Bytes → List Bytes
dedup [] = []
dedup (k ∷ ks) = k ∷ dedup_after k ks

-- The keys before the sort, for each arm of the match.
unfoldable pub raw_start_keys : NostrFilter → SelectedIndex → Bytes → List Bytes
raw_start_keys f (single name) ts_bytes =
    if str_eq name "Event__id"
    then filter_map (id_key ts_bytes) (or_empty f.ids)
    else if str_eq name "Event__created_at"
    then ts_bytes ∷ []
    else []
raw_start_keys f (multi name) ts_bytes =
    if str_eq name "Event__pubkey"
    then filter_map (pubkey_key ts_bytes) (or_empty f.authors)
    else if str_eq name "Event__kind"
    then map (kind_key ts_bytes) (or_empty f.kinds)
    else if str_eq name "Event__pubkeyKind"
    then concat_map (pubkey_kind_keys ts_bytes (or_empty f.kinds)) (or_empty f.authors)
    else if str_eq name "Event__tag"
    then concat_map (tag_keys ts_bytes) (or_empty f.tags)
    else []

-- The time bound that the keys end with.
unfoldable pub key_bound : NostrFilter → ScanDirection → ℕ
key_bound f reverse = unwrap_or f.until u64_max
key_bound f forward = unwrap_or f.since 0

unfoldable pub build_start_keys : NostrFilter → SelectedIndex → ScanDirection → List Bytes
build_start_keys f selected direction =
    dedup (sort_keys (raw_start_keys f selected (le8 (key_bound f direction))))

-- The trailing word of a key, and 0 for a key of fewer than 8 bytes.
unfoldable pub created_at_from_key : Bytes → ℕ
created_at_from_key key =
    let tail = drop (length key - 8) key in if length tail == 8 then from_le_bytes tail else 0
