-- ===== src/Lmdb/Meta/Offsets.antt =====
-- Reads of the parser of meta.rs that stay within the buffer.
use native.Mathlib.Nat.{mod-eq_of_lt}
use deepfry.Base.{
  ℕ, ◌+◌, ◌-◌, ◌%◌, ◌^◌, ◌≤◌, ◌<◌, ◌≡◌, ◌≢◌, arith, length, take, drop, length-take, length-drop,
  All-take, All-drop,
}
use deepfry.Base.Words.{Bytes, AllBytes, IsByte, from_le_bytes, from_le_bytes-lt}
use deepfry.Base.Panics.{done, panic, bind-ne-panic}
use deepfry.Lmdb.Meta.{read_le, read_u32_at, read_u64_at, read_fields}

-- the little-endian word of `width` bytes at `at`
unfoldable pub word : Bytes → ℕ → ℕ → ℕ
word raw at width = from_le_bytes (take width (drop at raw))

pub word-lt :
    (raw : Bytes) (at width : ℕ)
    → AllBytes raw
    → at + width ≤ length raw
    → word raw at width < 256 ^ width
unfolding word
word-lt raw at width a h =
    let n : length (take width (drop at raw)) ≡ width =
      length-take width (drop at raw) (omega (arith, length-drop at raw)) in
    rw n at (
      from_le_bytes-lt (take width (drop at raw))
        (All-take IsByte width (drop at raw) (All-drop IsByte at raw a)))

module _ {E : Type 0} (raw : Bytes) (small : length raw < 0x8000_0000_0000_0000) where
  pub read_le-word :
      (at width : ℕ)
      → at + width ≤ length raw
      → read_le {E = E} raw at width ≡ done (word raw at width)
  unfolding read_le word
  read_le-word at width h =
      let m : (at + width) % 2 ^ 64 ≡ at + width = mod-eq_of_lt (omega arith) in
      let d : at + width - at ≡ width = omega arith in ground arith

  read_le-ne-panic : (at width : ℕ) → at + width ≤ length raw → read_le {E = E} raw at width ≢ panic
  read_le-ne-panic at width h p = cc (read_le-word at width h)

  -- an offset table_start + field_offset does not wrap, so the bounds check is exact
  read_u32_at-ne-panic : (t f : ℕ) → t < 2 ^ 32 → f < 2 ^ 16 → read_u32_at {E = E} raw t f ≢ panic
  unfolding read_u32_at
  read_u32_at-ne-panic t f ht hf =
      let m : (t + f) % 2 ^ 64 ≡ t + f = mod-eq_of_lt (omega arith) in
      let k : (t + f + 4) % 2 ^ 64 ≡ t + f + 4 = mod-eq_of_lt (omega arith) in
      rw (m, k) (ground (arith, read_le-ne-panic (t + f) 4))

  read_u64_at-ne-panic : (t f : ℕ) → t < 2 ^ 32 → f < 2 ^ 16 → read_u64_at {E = E} raw t f ≢ panic
  unfolding read_u64_at
  read_u64_at-ne-panic t f ht hf =
      let m : (t + f) % 2 ^ 64 ≡ t + f = mod-eq_of_lt (omega arith) in
      let k : (t + f + 8) % 2 ^ 64 ≡ t + f + 8 = mod-eq_of_lt (omega arith) in
      rw (m, k) (ground (arith, read_le-ne-panic (t + f) 8))

  module _ (bytes : AllBytes raw) where
    offset_bounded :
        (at f : ℕ) → at + 2 ≤ length raw → read_le {E = E} raw at 2 ≡ done f → f < 2 ^ 16
    offset_bounded at f h e = ground (arith, read_le-word at 2 h, word-lt raw at 2 bytes h)

    pub read_fields-ne-panic :
        (root vtable : ℕ)
        → root < 2 ^ 32
        → vtable + 10 ≤ length raw
        → read_fields {E = E} raw root vtable ≢ panic
    unfolding read_fields
    read_fields-ne-panic root vtable hr hv =
        let a : (vtable + 4) % 2 ^ 64 ≡ vtable + 4 = mod-eq_of_lt (omega arith) in
        let b : (vtable + 6) % 2 ^ 64 ≡ vtable + 6 = mod-eq_of_lt (omega arith) in
        let c : (vtable + 8) % 2 ^ 64 ≡ vtable + 8 = mod-eq_of_lt (omega arith) in
        rw (a, b, c)
          (bind-ne-panic _ _ (read_le-ne-panic (vtable + 4) 2 (omega arith)) λ x ex.
            bind-ne-panic _ _ (read_le-ne-panic (vtable + 6) 2 (omega arith)) λ y ey.
              bind-ne-panic _ _ (read_le-ne-panic (vtable + 8) 2 (omega arith)) λ z ez.
                bind-ne-panic _ _
                  (read_u32_at-ne-panic root x hr (offset_bounded (vtable + 4) x (omega arith) ex))
                  λ _ _.
                    bind-ne-panic _ _
                      (read_u32_at-ne-panic root y hr
                        (offset_bounded (vtable + 6) y (omega arith) ey))
                      λ _ _.
                        bind-ne-panic _ _
                          (read_u64_at-ne-panic root z hr
                            (offset_bounded (vtable + 8) z (omega arith) ez))
                          λ _ _ p. cc)
