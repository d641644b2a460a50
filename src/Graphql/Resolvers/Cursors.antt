-- ===== src/Graphql/Resolvers/Cursors.antt =====
-- The cursor of a page, given back.
use mathlib.Core.Path.{subst}
use deepfry.Base.{
  inl, inr, ap, sym, ◌∙◌, ◌==◌, Bool-cases, last?, All, [], ◌∷◌, if◌then◌else◌, ℕ, ◌≡◌, refl, arith,
  Option, none, some, List, length,
}
use deepfry.Base.Results.{ok}
use deepfry.Base.Words.{Bytes, AllBytes, IsU64}
use deepfry.Lmdb.Heed.{Heed}
use deepfry.Lmdb.Payload.{Codecs, DecodedEvent}
use deepfry.Query.Filter.{PageCursor}
use deepfry.Query.Filter.Cursor.{Base64, Reason, decode-encode_cursor}
use deepfry.Query.Router.HexLaws.{decode_hex-hex_encode}
use deepfry.Query.Authors.{distinct_authors}
use deepfry.Query.Authors.Page.{distinct_authors-IsPage}
use deepfry.Graphql.Resolvers.{decode_author_cursor, decode_after, events_page, authors_page}

-- A cursor of two 64-bit words, where there is one.
abbrev pub FitsWords : Option PageCursor → Type 0
FitsWords none = Unit
FitsWords (some p) = IsU64 p.created_at × IsU64 p.lev_id

-- A pubkey of 32 bytes, where there is one.
abbrev IsPubkey : Option Bytes → Type 0
IsPubkey none = Unit
IsPubkey (some pk) = AllBytes pk × (length pk ≡ 32)

last-IsPubkey :
    (pks : List Bytes) → All AllBytes pks → All (λ pk. length pk ≡ 32) pks → IsPubkey (last? pks)
last-IsPubkey [] a l = tt
last-IsPubkey (x ∷ []) a l = (a.0, l.0)
last-IsPubkey (x ∷ y ∷ xs) a l = last-IsPubkey (y ∷ xs) a.1 l.1

page_cursor-IsPubkey :
    (limit : ℕ) (pks : List Bytes)
    → All AllBytes pks
    → All (λ pk. length pk ≡ 32) pks
    → IsPubkey (if length pks == limit then last? pks else none)
page_cursor-IsPubkey limit pks a l = elim (Bool-cases (length pks == limit)) [
  | inl e ↦ rw e (last-IsPubkey pks a l)
  | inr e ↦ rw e tt
]

module _ (h : Heed) (c : Codecs) (b : Base64) (lossy : Bytes → Bytes)
    (reason_text : Reason b.DecodeError → Bytes) (env : h.Env) (now : ℕ) where
  -- The end cursor of a page of events, given back as after, is the cursor that the query gave,
  -- where its two words fit 64 bits.
  pub decode_after-events_page :
      (found : List DecodedEvent) (next : Option PageCursor)
      → FitsWords next
      → decode_after h c b lossy reason_text env now
          (events_page h c b lossy reason_text env now (found, next)).end_cursor
        ≡ ok next
  unfolding decode_after events_page
  decode_after-events_page found none u = refl
  decode_after-events_page found (some p) u = rw (decode-encode_cursor b p u.0 u.1) refl

  read_back :
      (pubkeys : List Bytes) (next : Option Bytes)
      → IsPubkey next
      → decode_author_cursor
          (authors_page h c b lossy reason_text env now (pubkeys, next)).end_cursor
        ≡ ok next
  unfolding decode_author_cursor authors_page
  read_back pubkeys none u = refl
  read_back pubkeys (some pk) u = ground (arith, decode_hex-hex_encode pk u.0, u.1)

  -- The end cursor of a page of authors, given back as after, is read as the last pubkey that
  -- distinct_authors found, where it found as many as the limit, and there is none otherwise. The
  -- pubkeys are made of bytes.
  pub decode_author_cursor-distinct_authors :
      (after : Option Bytes) (limit : ℕ) (pubkeys : List Bytes) (next : Option Bytes)
      → distinct_authors h env after limit ≡ ok (pubkeys, next)
      → All AllBytes pubkeys
      → decode_author_cursor
          (authors_page h c b lossy reason_text env now (pubkeys, next)).end_cursor
        ≡ ok (if length pubkeys == limit then last? pubkeys else none)
  decode_author_cursor-distinct_authors after limit pubkeys next e bytes =
      let (lengths, cursor) = distinct_authors-IsPage h env after limit pubkeys next e in
      read_back pubkeys next
        (subst IsPubkey (sym cursor) (page_cursor-IsPubkey limit pubkeys bytes lengths))
      ∙ ap ok cursor
