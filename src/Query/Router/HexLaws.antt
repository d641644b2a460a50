-- ===== src/Query/Router/HexLaws.antt =====
-- Hex texts: encoding is read back, and what `decode_hex` accepts.
use deepfry.Base.{
  ◌↔◌, sym, ap, ◌∙◌, length-map, ℕ, ◌+◌, ◌*◌, ◌/◌, ◌%◌, ◌<◌, ◌≡◌, inl, inr, refl, arith, ◌&&◌, leb,
  [], ◌∷◌, map, length, if◌then◌else◌,
}
use deepfry.Base.Results.{ok, Result-cases}
use deepfry.Base.Words.{Bytes, AllBytes}
use deepfry.Query.Router.Hex.{nibble, decode_pairs, decode_hex, hex_digit, hex_encode_lowercase}

nibble-hex_digit : (d : ℕ) → d < 16 → nibble (hex_digit d) ≡ ok d
unfolding nibble hex_digit
nibble-hex_digit d h = ground arith

decode_pairs-hex_encode :
    (i : ℕ) (bs : Bytes) → AllBytes bs → decode_pairs i (hex_encode_lowercase bs) ≡ ok bs
unfolding decode_pairs hex_encode_lowercase
decode_pairs-hex_encode i [] h = refl
decode_pairs-hex_encode i (b ∷ bs) h = ground (
  arith,
  nibble-hex_digit (b / 16),
  nibble-hex_digit (b % 16),
  decode_pairs-hex_encode (i + 2) bs,
)

pub length-hex_encode : (bs : Bytes) → length (hex_encode_lowercase bs) ≡ 2 * length bs
unfolding hex_encode_lowercase
length-hex_encode [] = omega arith
length-hex_encode (b ∷ bs) = omega (arith, length-hex_encode bs)

-- The lowercase hex text of any bytes decodes to those bytes.
pub decode_hex-hex_encode :
    (bs : Bytes) → AllBytes bs → decode_hex (hex_encode_lowercase bs) ≡ ok bs
unfolding decode_hex
decode_hex-hex_encode bs h = ground (arith, length-hex_encode bs, decode_pairs-hex_encode 0 bs h)

-- `to_ascii_lowercase`
abbrev pub to_lower : ℕ → ℕ
to_lower c = if leb 65 c && leb c 90 then c + 32 else c

nibble_accepts : (a d : ℕ) → nibble a ≡ ok d → (d < 16) × (hex_digit d ≡ to_lower a)
unfolding nibble hex_digit
nibble_accepts a d h = ground arith

decode_pairs_accepts :
    (i : ℕ) (s bs : Bytes)
    → decode_pairs i s ≡ ok bs
    → length s % 2 ≡ 0
    → AllBytes bs × (hex_encode_lowercase bs ≡ map to_lower s)
unfolding decode_pairs hex_encode_lowercase
decode_pairs_accepts i [] bs e h = ground arith
decode_pairs_accepts i (a ∷ []) bs e h = absurd (omega arith)
decode_pairs_accepts i (a ∷ b ∷ s) bs e h = elim (Result-cases (nibble a)) [
  | inr (x, ea) ↦ ground arith
  | inl (hi, ea) ↦ elim (Result-cases (nibble b)) [
    | inr (x, eb) ↦ ground arith
    | inl (lo, eb) ↦ elim (Result-cases (decode_pairs (i + 2) s)) [
      | inr (x, eo) ↦ ground arith
      | inl (out, eo) ↦
          let f = decode_pairs_accepts (i + 2) s out eo (omega arith) in
          let na = nibble_accepts a hi ea in
          let nb = nibble_accepts b lo eb in
          let same : (hi * 16 + lo) ∷ out ≡ bs = ground arith in
          let q : (hi * 16 + lo) / 16 ≡ hi = omega arith in
          let r : (hi * 16 + lo) % 16 ≡ lo = omega arith in
          rw (← same, q, r) ((omega arith, f.0), cc)
    ]
  ]
]

accepts :
    (s bs : Bytes) → decode_hex s ≡ ok bs → AllBytes bs × (hex_encode_lowercase bs ≡ map to_lower s)
unfolding decode_hex
accepts s bs e = ground (arith, decode_pairs_accepts 0 s bs)

nibble_completes : (a d : ℕ) → d < 16 → hex_digit d ≡ to_lower a → nibble a ≡ ok d
unfolding nibble hex_digit
nibble_completes a d h e = ground arith

decode_pairs_completes :
    (i : ℕ) (s bs : Bytes)
    → AllBytes bs
    → hex_encode_lowercase bs ≡ map to_lower s
    → decode_pairs i s ≡ ok bs
unfolding decode_pairs hex_encode_lowercase
decode_pairs_completes i [] [] h e = refl
decode_pairs_completes i (a ∷ s) [] h e = absurd cc
decode_pairs_completes i [] (x ∷ bs) h e = absurd cc
decode_pairs_completes i (a ∷ []) (x ∷ bs) h e = absurd (ground arith)
decode_pairs_completes i (a ∷ b ∷ s) (x ∷ bs) h e =
    let hi : hex_digit (x / 16) ≡ to_lower a = cc in
    let lo : hex_digit (x % 16) ≡ to_lower b = cc in
    let rest : hex_encode_lowercase bs ≡ map to_lower s = cc in
    let na = nibble_completes a (x / 16) (omega arith) hi in
    let nb = nibble_completes b (x % 16) (omega arith) lo in
    let out = decode_pairs_completes (i + 2) s bs h.1 rest in
    let same : x / 16 * 16 + x % 16 ≡ x = omega arith in rw (na, nb, out) (cc same)

completes :
    (s bs : Bytes) → AllBytes bs → hex_encode_lowercase bs ≡ map to_lower s → decode_hex s ≡ ok bs
unfolding decode_hex
completes s bs h e =
    let twice : length s ≡ 2 * length bs =
      sym (length-map to_lower s) ∙ ap length (sym e) ∙ length-hex_encode bs in
    ground (arith, decode_pairs_completes 0 s bs h e, twice)

-- decode_hex gives some bytes for a text exactly when each is below 256 and their lowercase hex
-- text is the given text in lower case; every other text is an error.
pub decode_hex-eq-ok_iff :
    (s bs : Bytes)
    → (decode_hex s ≡ ok bs) ↔ (AllBytes bs × (hex_encode_lowercase bs ≡ map to_lower s))
decode_hex-eq-ok_iff s bs = (accepts s bs, λ f. completes s bs f.0 f.1)
