-- ===== src/Query/Router/Hex.antt =====
-- `nibble` and `decode_hex` of router.rs, and the encoder of graphql/resolvers.rs.
use deepfry.Base.{
  ℕ, ◌+◌, ◌-◌, ◌*◌, ◌/◌, ◌%◌, ◌&&◌, leb, ltb, ◌==◌, not, [], ◌∷◌, length, if◌then◌else◌,
}
use deepfry.Base.Results.{Result, ok, err, ◌>>=◌, map_err}
use deepfry.Base.Words.{Bytes}

-- The messages, with the numbers that they print.
pub data HexError : Type 0 where
  odd_length : ℕ → HexError
  invalid_at : ℕ → HexError

unfoldable pub nibble : ℕ → Result (Unit {0}) ℕ
nibble b =
    if leb 48 b && leb b 57
    then ok (b - 48)
    else if leb 97 b && leb b 102
    then ok (b - 97 + 10)
    else if leb 65 b && leb b 70
    then ok (b - 65 + 10)
    else err tt

-- The loop at index `i`, two bytes a round. `(hi << 4) | lo` is a sum: the nibbles do not overlap.
unfoldable pub decode_pairs : ℕ → Bytes → Result HexError Bytes
decode_pairs i [] = ok []
decode_pairs i (a ∷ []) = ok []
decode_pairs i (a ∷ b ∷ rest) = do
  hi ← map_err (λ _. invalid_at i) (nibble a)
  lo ← map_err (λ _. invalid_at (i + 1)) (nibble b)
  out ← decode_pairs (i + 2) rest
  ok ((hi * 16 + lo) ∷ out)

unfoldable pub decode_hex : Bytes → Result HexError Bytes
decode_hex s = if not (length s % 2 == 0) then err (odd_length (length s)) else decode_pairs 0 s

-- One digit of `{:02x}`.
unfoldable pub hex_digit : ℕ → ℕ
hex_digit d = if ltb d 10 then d + 48 else d + 87

unfoldable pub hex_encode_lowercase : Bytes → Bytes
hex_encode_lowercase [] = []
hex_encode_lowercase (b ∷ bs) = hex_digit (b / 16) ∷ hex_digit (b % 16) ∷ hex_encode_lowercase bs
