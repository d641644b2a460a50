-- ===== src/Query/Filter/Cursor.antt =====
-- `PageCursor::encode` and `PageCursor::decode` of filter.rs. The crate base64 is a parameter.
pub mod Examples
use deepfry.Base.{
  ℕ, ◌≡◌, ◌↔◌, inl, inr, refl, sym, arith, All-take, All-drop, take_all, not, ◌==◌, ◌++◌, length,
  length-append, length-take, length-drop, take, drop, take-append, drop-append, take-append-drop,
  if◌then◌else◌,
}
use deepfry.Base.Results.{Result, ok, err, ◌>>=◌, map_err, Result-cases}
use deepfry.Base.Words.{
  Bytes, AllBytes, IsByte, le8-from_le_bytes, IsU64, le8, to_le_bytes, from_le_bytes,
  length-to_le_bytes, from_le_bytes-le8, AllBytes-to_le_bytes,
}
use deepfry.Query.Filter.{PageCursor}

-- `base64::engine::general_purpose::STANDARD`, on bytes and on the text of the cursor.
pub record Base64 : Type 1 where
  pub DecodeError : Type 0
  pub encode : Bytes → Bytes
  pub decode : Bytes → Result DecodeError Bytes
  pub decode_bytes : (s bs : Bytes) → decode s ≡ ok bs → AllBytes bs
  pub decode-encode : (bs : Bytes) → AllBytes bs → decode (encode bs) ≡ ok bs

-- The `reason` of `QueryError::CursorDecode`.
pub data Reason (E : Type 0) : Type 0 where
  malformed_base64 : E → Reason E
  wrong_length : ℕ → Reason E

two_words :
    (bs : Bytes)
    → AllBytes bs
    → length bs ≡ 16
    → bs ≡ le8 (from_le_bytes (take 8 bs)) ++ le8 (from_le_bytes (take 8 (drop 8 bs)))
two_words bs a n =
    let m : length (drop 8 bs) ≡ 8 = omega (arith, length-drop 8 bs) in
    let low =
      le8-from_le_bytes (take 8 bs) (All-take IsByte 8 bs a) (length-take 8 bs (omega arith)) in
    let high = le8-from_le_bytes (drop 8 bs) (All-drop IsByte 8 bs a) m in
    rw (take_all (drop 8 bs) 8 (omega arith), low, high) (sym (take-append-drop 8 bs))

module _ (b : Base64) where
  open b use {DecodeError, decode-encode}

  unfoldable pub encode : PageCursor → Bytes
  encode c = b.encode (le8 c.created_at ++ le8 c.lev_id)

  unfoldable pub decode : Bytes → Result (Reason DecodeError) PageCursor
  decode s = do
    bytes ← map_err malformed_base64 (b.decode s)
    if not (length bytes == 16)
        then err (wrong_length (length bytes))
        else ok (record {
          created_at = from_le_bytes (take 8 bytes);
          lev_id = from_le_bytes (take 8 (drop 8 bytes));
        })

  -- A cursor of two 64-bit words is read back as it was.
  pub decode-encode_cursor :
      (c : PageCursor) → IsU64 c.created_at → IsU64 c.lev_id → decode (encode c) ≡ ok c
  unfolding encode decode to_le_bytes from_le_bytes
  decode-encode_cursor c h k =
      rw (decode-encode (le8 c.created_at ++ le8 c.lev_id) (omega arith)) (ground arith)

  -- A text decodes to a cursor of two 64-bit words exactly when it is base64 of the 16 bytes of
  -- that cursor.
  pub decode-eq-ok_iff :
      (s : Bytes) (c : PageCursor)
      → IsU64 c.created_at
      → IsU64 c.lev_id
      → (decode s ≡ ok c) ↔ (b.decode s ≡ ok (le8 c.created_at ++ le8 c.lev_id))
  unfolding decode
  decode-eq-ok_iff s c h k = (
    λ e. elim (Result-cases (b.decode s)) [
      | inl (bs, d) ↦
          let n : length bs ≡ 16 = ground arith in
          rw (d, two_words bs (b.decode_bytes s bs d) n) (ground arith)
      | inr (x, d) ↦ ground arith
    ],
    λ e. rw e (unfold to_le_bytes from_le_bytes in ground arith),
  )
