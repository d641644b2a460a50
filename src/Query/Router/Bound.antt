-- ===== src/Query/Router/Bound.antt =====
-- The time bound that the start keys end with.
use mathlib.Core.List.{append_assoc}
use deepfry.Base.{
  ℕ, ◌-◌, ◌≡◌, inl, inr, arith, Option, some, Option-cases, List, [], ◌∷◌, ◌++◌, map, length,
  length-append, drop-append, All, All-append,
}
use deepfry.Base.Results.{Result-cases}
use deepfry.Base.Words.{Bytes, IsU64, le8, length-to_le_bytes, from_le_bytes-le8}
use deepfry.Lmdb.Scan.{ScanDirection}
use deepfry.Query.Filter.{NostrFilter, TagFilter}
use deepfry.Query.Router.Hex.{decode_hex}
use deepfry.Query.Router.{
  SelectedIndex, single, multi, filter_map, concat_map, id_key, pubkey_key, kind_key,
  pubkey_kind_keys, tag_keys, tag_keys_of, tag_value_bytes, decode_pubkey_warn, raw_start_keys,
  key_bound, build_start_keys, created_at_from_key, or_empty,
}
use deepfry.Query.Router.Order.{All-build_start_keys}

-- A key that ends with the eight bytes of a word carries that word as its time.
pub created_at_from_key-append :
    (prefix : Bytes) (ts : ℕ) → IsU64 ts → created_at_from_key (prefix ++ le8 ts) ≡ ts
unfolding created_at_from_key
created_at_from_key-append prefix ts h =
    let n : length (prefix ++ le8 ts) - 8 ≡ length prefix =
      omega (arith, length-append prefix (le8 ts), length-to_le_bytes 8 ts) in
    rw (n, drop-append prefix (le8 ts), length-to_le_bytes 8 ts) (from_le_bytes-le8 ts h)

module _ {ℓ κ} {A : Type ℓ} {B : Type κ} (P : B → Type 0) where
  All-filter_map :
      (f : A → Option B)
      → ((x : A) (y : B) → f x ≡ some y → P y)
      → (xs : List A) → All P (filter_map f xs)
  All-filter_map f h [] = tt
  All-filter_map f h (x ∷ xs) = elim (Option-cases (f x)) [
    | inl e ↦ rw (e, All) (All-filter_map f h xs)
    | inr (y, e) ↦ rw (e, All) (h x y e, All-filter_map f h xs)
  ]

  All-concat_map :
      (f : A → List B) → ((x : A) → All P (f x)) → (xs : List A) → All P (concat_map f xs)
  All-concat_map f h [] = tt
  All-concat_map f h (x ∷ xs) = All-append P (f x) (concat_map f xs) (h x) (All-concat_map f h xs)

  All-map_of : (f : A → B) → ((x : A) → P (f x)) → (xs : List A) → All P (map f xs)
  All-map_of f h [] = tt
  All-map_of f h (x ∷ xs) = (h x, All-map_of f h xs)

module _ (ts : ℕ) (word : IsU64 ts) where
  abbrev EndsWithBound : Bytes → Type 0
  EndsWithBound k = created_at_from_key k ≡ ts

  id_key_bound : (hex k : Bytes) → id_key (le8 ts) hex ≡ some k → EndsWithBound k
  unfolding id_key
  id_key_bound hex k e = elim (Result-cases (decode_hex hex)) [
    | inl (bs, d) ↦ ground (arith, created_at_from_key-append bs ts word)
    | inr (x, d) ↦ ground arith
  ]

  pubkey_key_bound : (hex k : Bytes) → pubkey_key (le8 ts) hex ≡ some k → EndsWithBound k
  unfolding pubkey_key
  pubkey_key_bound hex k e = elim (Option-cases (decode_pubkey_warn hex)) [
    | inl d ↦ ground arith
    | inr (pk, d) ↦ ground (arith, created_at_from_key-append pk ts word)
  ]

  pubkey_kind_bound :
      (kinds : List ℕ) (hex : Bytes) → All EndsWithBound (pubkey_kind_keys (le8 ts) kinds hex)
  unfolding pubkey_kind_keys
  pubkey_kind_bound kinds hex = elim (Option-cases (decode_pubkey_warn hex)) [
    | inl d ↦ rw (d, All) tt
    | inr (pk, d) ↦
        rw (d, All)
          (All-map_of EndsWithBound (λ kind. pk ++ (le8 kind ++ le8 ts))
            (λ kind.
              rw (← append_assoc pk (le8 kind) (le8 ts))
                (created_at_from_key-append (pk ++ le8 kind) ts word))
            kinds)
  ]

  tag_keys_of_bound :
      (values : List Bytes) (name : Bytes) → All EndsWithBound (tag_keys_of (le8 ts) values name)
  unfolding tag_keys_of
  tag_keys_of_bound values [] = tt
  tag_keys_of_bound values (c ∷ []) =
      All-map_of EndsWithBound (λ v. c ∷ (tag_value_bytes v ++ le8 ts))
        (λ v. created_at_from_key-append (c ∷ tag_value_bytes v) ts word) values
  tag_keys_of_bound values (c ∷ d ∷ name) = tt

  kind_key_bound : (kind : ℕ) → EndsWithBound (kind_key (le8 ts) kind)
  unfolding kind_key
  kind_key_bound kind = created_at_from_key-append (le8 kind) ts word

  tag_keys_bound : (tag : TagFilter) → All EndsWithBound (tag_keys (le8 ts) tag)
  unfolding tag_keys
  tag_keys_bound tag = tag_keys_of_bound tag.values tag.name

  raw_start_keys_bound :
      (f : NostrFilter) (selected : SelectedIndex)
      → All EndsWithBound (raw_start_keys f selected (le8 ts))
  unfolding raw_start_keys
  raw_start_keys_bound f (single name) = ground (
    arith,
    All-filter_map EndsWithBound (id_key (le8 ts)) id_key_bound (or_empty f.ids),
    created_at_from_key-append [] ts word,
  )
  raw_start_keys_bound f (multi name) = ground (
    arith,
    All-filter_map EndsWithBound (pubkey_key (le8 ts)) pubkey_key_bound (or_empty f.authors),
    All-map_of EndsWithBound (kind_key (le8 ts)) kind_key_bound (or_empty f.kinds),
    All-concat_map EndsWithBound (pubkey_kind_keys (le8 ts) (or_empty f.kinds))
        (pubkey_kind_bound (or_empty f.kinds)) (or_empty f.authors),
    All-concat_map EndsWithBound (tag_keys (le8 ts)) tag_keys_bound (or_empty f.tags),
  )

-- Where the time bound of a filter (until or u64::MAX for a reverse scan, since or 0 for a
-- forward one) fits 64 bits, created_at_from_key reads it back from every start key of every
-- index.
pub build_start_keys_bound :
    (f : NostrFilter) (selected : SelectedIndex) (direction : ScanDirection)
    → IsU64 (key_bound f direction)
    → All
        (λ k. created_at_from_key k ≡ key_bound f direction)
        (build_start_keys f selected direction)
build_start_keys_bound f selected direction word =
    (All-build_start_keys (λ k. created_at_from_key k ≡ key_bound f direction) f selected
        direction).1
      (raw_start_keys_bound (key_bound f direction) word f selected)
