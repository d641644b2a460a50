-- ===== src/Query/Filter/Cursor/Examples.antt =====
-- Cursors at a concrete text encoding.
use deepfry.Base.{◌≡◌, ◌↔◌, refl, arith, Bool, true, all, ltb, ◌++◌, [], ◌∷◌, if◌then◌else◌}
use deepfry.Base.Results.{Result, ok, err}
use deepfry.Base.Words.{Bytes, AllBytes, le8}
use deepfry.Query.Filter.{PageCursor}
use deepfry.Query.Filter.Cursor.{Base64, encode, decode, decode-encode_cursor, decode-eq-ok_iff}

are_bytes : Bytes → Bool
are_bytes bs = all (λ b. ltb b 256) bs

pub unpack : Bytes → Result (Unit {0}) Bytes
unpack s = if are_bytes s then ok s else err tt

are_bytes→AllBytes : (s : Bytes) → are_bytes s ≡ true → AllBytes s
unfolding are_bytes
are_bytes→AllBytes [] e = tt
are_bytes→AllBytes (b ∷ s) e = ground (arith, are_bytes→AllBytes s)

AllBytes→are_bytes : (s : Bytes) → AllBytes s → are_bytes s ≡ true
unfolding are_bytes
AllBytes→are_bytes [] a = refl
AllBytes→are_bytes (b ∷ s) a = ground (arith, AllBytes→are_bytes s)

pub unpack_bytes : (s bs : Bytes) → unpack s ≡ ok bs → AllBytes bs
unfolding unpack
unpack_bytes s bs e = ground (arith, are_bytes→AllBytes s)

pub unpack_lem : (bs : Bytes) → AllBytes bs → unpack bs ≡ ok bs
unfolding unpack
unpack_lem bs a = ground (arith, AllBytes→are_bytes bs)

-- The text of some bytes is the bytes themselves.
abbrev pub plain : Base64
plain = record {
  DecodeError = Unit {0};
  encode = λ bs. bs;
  decode = unpack;
  decode_bytes = unpack_bytes;
  decode-encode = unpack_lem;
}

abbrev page : PageCursor
page = record { created_at = 1700000000; lev_id = 42 }

decode-encode_cursor_example : decode plain (encode plain page) ≡ ok page
decode-encode_cursor_example = decode-encode_cursor plain page (omega arith) (omega arith)

decode-eq-ok_iff_example :
    (decode plain (le8 1700000000 ++ le8 42) ≡ ok page)
    ↔ (unpack (le8 1700000000 ++ le8 42) ≡ ok (le8 1700000000 ++ le8 42))
decode-eq-ok_iff_example =
    decode-eq-ok_iff plain (le8 1700000000 ++ le8 42) page (omega arith) (omega arith)
