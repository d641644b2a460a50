-- ===== src/Lmdb/Meta/Safety.antt =====
-- When `parse_meta_flatbuffer` panics.
use native.Mathlib.Nat.{mod-eq_of_lt}
use deepfry.Base.{ℕ, ◌+◌, ◌-◌, ◌%◌, ◌^◌, ◌≤◌, ◌<◌, ◌≡◌, ◌≢◌, ◌↔◌, arith, length}
use deepfry.Base.Words.{Bytes, AllBytes}
use deepfry.Base.Panics.{panic}
use deepfry.Lmdb.Meta.{i32_as_usize, read_le, read_vtable, after_root, parse_meta_flatbuffer}
use deepfry.Lmdb.Meta.Offsets.{word, word-lt, read_le-word, read_fields-ne-panic}

-- The buffer is long enough for the root offset and the soffset_t that it points to, and the
-- soffset_t is one of -4 to -1.
abbrev pub HasWrappingOffset : Bytes → Type 0
HasWrappingOffset raw =
    (14 ≤ length raw) × (word raw 0 4 + 4 ≤ length raw) × (2 ^ 32 - 4 ≤ word raw (word raw 0 4) 4)

-- The vtable's position does not wrap unless the soffset_t is -4 to -1.
vtable_fits : (so : ℕ) → so < 2 ^ 32 - 4 → i32_as_usize so + 4 < 2 ^ 64
vtable_fits so h = ground arith

vtable_wraps : (so : ℕ) → so < 2 ^ 32 → 2 ^ 32 - 4 ≤ so → i32_as_usize so ≡ so + (2 ^ 64 - 2 ^ 32)
vtable_wraps so k h = ground arith

module _ {E : Type 0} (raw : Bytes) (bytes : AllBytes raw)
    (small : length raw < 0x8000_0000_0000_0000) where
  read_vtable-ne-panic :
      (root v : ℕ) → root < 2 ^ 32 → v + 4 ≤ length raw → read_vtable {E = E} raw root v ≢ panic
  unfolding read_vtable
  read_vtable-ne-panic root v hr hv =
      let size = word raw v 2 in
      let wide : size < 256 ^ 2 = word-lt raw v 2 bytes (omega arith) in
      let m : (v + size) % 2 ^ 64 ≡ v + size = mod-eq_of_lt (omega arith) in
      ground (
        arith,
        read_le-word {E = E} raw small v 2,
        read_fields-ne-panic {E = E} raw small bytes root v,
      )

  after_root-ne-panic :
      (root : ℕ)
      → root < 2 ^ 32
      → root + 4 ≤ length raw
      → word raw root 4 < 2 ^ 32 - 4
      → after_root {E = E} raw root ≢ panic
  unfolding after_root
  after_root-ne-panic root hr h hs =
      let v = i32_as_usize (word raw root 4) in
      let m : (v + 4) % 2 ^ 64 ≡ v + 4 = mod-eq_of_lt (vtable_fits (word raw root 4) hs) in
      rw (read_le-word {E = E} raw small root 4 h, m)
        (ground (arith, read_vtable-ne-panic root v hr))

  read_vtable-panic :
      (root v : ℕ)
      → 14 ≤ length raw
      → 2 ^ 64 - 4 ≤ v
      → v < 2 ^ 64
      → read_vtable {E = E} raw root v ≡ panic
  unfolding read_vtable read_le
  read_vtable-panic root v long hv hw = ground arith

  after_root-panic :
      (root : ℕ)
      → root + 4 ≤ length raw
      → 14 ≤ length raw
      → 2 ^ 32 - 4 ≤ word raw root 4
      → after_root {E = E} raw root ≡ panic
  unfolding after_root
  after_root-panic root h long hs =
      let so = word raw root 4 in
      let small_so : so < 256 ^ 4 = word-lt raw root 4 bytes h in
      let e = vtable_wraps so (omega arith) hs in
      rw (read_le-word {E = E} raw small root 4 h, e)
        (ground (arith, read_vtable-panic root (so + (2 ^ 64 - 2 ^ 32))))

  -- On a buffer of bytes shorter than 2^63, the Meta parser panics exactly when the buffer holds
  -- a soffset_t of -4 to -1: every other buffer, however malformed, gives a record or an error.
  pub parse-panic_iff : (parse_meta_flatbuffer {E = E} raw ≡ panic) ↔ HasWrappingOffset raw
  unfolding parse_meta_flatbuffer
  parse-panic_iff =
      let root = word raw 0 4 in
      (
        λ p. ground (
          arith,
          word-lt raw 0 4 bytes,
          read_le-word {E = E} raw small 0 4,
          after_root-ne-panic root,
        ),
        λ w.
            rw (read_le-word {E = E} raw small 0 4 (omega arith))
              (ground (arith, after_root-panic root)),
      )
