-- ===== src/Query/Authors/Page.antt =====
-- What a page of authors has, and which cursor it gives.
use mathlib.Core.Path.{subst}
use deepfry.Base.{
  ℕ, zero, suc, ◌≡◌, refl, inl, inr, arith, Bool-cases, ◌==◌, ltb, Option, none, Option-cases, List,
  [], ◌∷◌, length, take, last?, All, length-take, if◌then◌else◌,
}
use deepfry.Base.Results.{Result, ok, err, Result-cases, ok-injective, err-ok}
use deepfry.Base.Words.{Bytes}
use deepfry.Lmdb.Heed.{Heed, Comparator, Bound, Entry}
use deepfry.Lmdb.Indexes.{open_index}
use deepfry.Query.Authors.{increment_be, make_seek_key, seek_after, authors_from, distinct_authors}

module _ (h : Heed) (db : h.Db) (rtxn : h.Txn) where
  -- Every author of a page has 32 bytes.
  abbrev Are32 : List Bytes → Type 0
  Are32 pks = All (λ pk. length pk ≡ 32) pks

  from_items :
      (n : ℕ) (seek_key : Bytes) (pks : List Bytes) (items : List (Result h.Error Entry))
      → ((next : Bytes) (rest : List Bytes)
          → authors_from h n db rtxn (make_seek_key next) ≡ ok rest
          → Are32 rest)
      → h.range db rtxn (Bound.included seek_key) Bound.unbounded ≡ ok items
      → authors_from h (suc n) db rtxn seek_key ≡ ok pks
      → Are32 pks
  unfolding authors_from
  from_items n seek_key pks [] ih r e =
      let same : [] ≡ pks = ok-injective (rw r at e) in subst Are32 same tt
  from_items n seek_key pks (err x ∷ more) ih r e = absurd (err-ok (rw r at e))
  from_items n seek_key pks (ok (key, value) ∷ more) ih r e =
      elim (Bool-cases (ltb (length key) 32)) [
        | inl short ↦ let same : [] ≡ pks = ok-injective (rw (r, short) at e) in subst Are32 same tt
        | inr long ↦
            let whole : length (take 32 key) ≡ 32 = length-take 32 key (ground arith) in
            elim (Option-cases (increment_be (take 32 key))) [
              | inl top ↦
                  let same : take 32 key ∷ [] ≡ pks = ok-injective (rw (r, long, top) at e) in
                  subst Are32 same (whole, tt)
              | inr (next, up) ↦
                  elim (Result-cases (authors_from h n db rtxn (make_seek_key next))) [
                    | inl (rest, g) ↦
                        let same : take 32 key ∷ rest ≡ pks =
                          ok-injective (rw (r, long, up, g) at e) in
                        subst Are32 same (whole, ih next rest g)
                    | inr (x, g) ↦ absurd (err-ok (rw (r, long, up, g) at e))
                  ]
            ]
      ]

  authors_from-Are32 :
      (n : ℕ) (seek_key : Bytes) (pks : List Bytes)
      → authors_from h n db rtxn seek_key ≡ ok pks
      → Are32 pks
  authors_from-Are32 zero seek_key pks e =
      let same : [] ≡ pks = unfold authors_from in ok-injective e in subst Are32 same tt
  authors_from-Are32 (suc n) seek_key pks e =
      elim (Result-cases (h.range db rtxn (Bound.included seek_key) Bound.unbounded)) [
        | inl (items, r) ↦
            from_items n seek_key pks items
              (λ next rest g. authors_from-Are32 n (make_seek_key next) rest g) r e
        | inr (x, r) ↦ absurd (unfold authors_from in err-ok (rw r at e))
      ]

module _ (h : Heed) (env : h.Env) where
  abbrev pub page_cursor : ℕ → List Bytes → Option Bytes
  page_cursor limit pubkeys = if length pubkeys == limit then last? pubkeys else none

  -- Authors of 32 bytes, and the cursor.
  abbrev pub IsPage : ℕ → List Bytes × Option Bytes → Type 0
  IsPage limit (pubkeys, next) =
      All (λ pk. length pk ≡ 32) pubkeys × (next ≡ page_cursor limit pubkeys)

  nothing-IsPage : (limit : ℕ) → IsPage limit ([], none)
  nothing-IsPage limit = (tt, ground arith)

  -- Authors of 32 bytes, and the last of them as the cursor where the page is full.
  pub distinct_authors-IsPage :
      (after : Option Bytes) (limit : ℕ) (pubkeys : List Bytes) (next : Option Bytes)
      → distinct_authors h env after limit ≡ ok (pubkeys, next)
      → IsPage limit (pubkeys, next)
  unfolding distinct_authors
  distinct_authors-IsPage after limit pubkeys next e = elim (Result-cases (h.read_txn env)) [
    | inr (x, r) ↦ absurd (err-ok (rw r at e))
    | inl (rtxn, r) ↦
        elim (Result-cases (open_index h Comparator.string_uint64 env rtxn "Event__pubkey")) [
          | inr (x, o) ↦ absurd (err-ok (rw (r, o) at e))
          | inl (db, o) ↦ elim (Option-cases (seek_after after)) [
            | inl s ↦
                let same : ([], none) ≡ (pubkeys, next) = ok-injective (rw (r, o, s) at e) in
                subst (IsPage limit) same (nothing-IsPage limit)
            | inr (pk, s) ↦ elim (Result-cases (authors_from h limit db rtxn (make_seek_key pk))) [
              | inr (x, g) ↦ absurd (err-ok (rw (r, o, s, g) at e))
              | inl (found, g) ↦
                  let same : (found, page_cursor limit found) ≡ (pubkeys, next) =
                    ok-injective (rw (r, o, s, g) at e) in
                  subst (IsPage limit) same
                    (authors_from-Are32 h db rtxn limit (make_seek_key pk) found g, refl)
            ]
          ]
        ]
  ]
