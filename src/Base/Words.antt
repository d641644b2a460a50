-- ===== src/Base/Words.antt =====
-- Bytes and little-endian words: `to_le_bytes`, `from_le_bytes`.
use native.Mathlib.Nat.{pow-suc}
use deepfry.Base.{
  ℕ, zero, suc, ◌+◌, ◌*◌, ◌/◌, ◌%◌, ◌^◌, ◌<◌, ◌≡◌, refl, ap, arith, List, [], ◌∷◌, length, All,
}

abbrev pub Bytes : Type 0
Bytes = List ℕ

abbrev pub IsByte : ℕ → Type 0
IsByte b = b < 256

abbrev pub AllBytes : Bytes → Type 0
AllBytes = All IsByte

-- `n.to_le_bytes()` of a word of `k` bytes
unfoldable pub to_le_bytes : ℕ → ℕ → Bytes
to_le_bytes zero n = []
to_le_bytes (suc k) n = (n % 256) ∷ to_le_bytes k (n / 256)

-- `from_le_bytes`, for a word of any width
unfoldable pub from_le_bytes : Bytes → ℕ
from_le_bytes [] = 0
from_le_bytes (b ∷ bs) = b + 256 * from_le_bytes bs

pub length-to_le_bytes : (k n : ℕ) → length (to_le_bytes k n) ≡ k
unfolding to_le_bytes
length-to_le_bytes zero n = refl
length-to_le_bytes (suc k) n = omega (arith, length-to_le_bytes k (n / 256))

pub AllBytes-to_le_bytes : (k n : ℕ) → AllBytes (to_le_bytes k n)
unfolding to_le_bytes
AllBytes-to_le_bytes zero n = tt
AllBytes-to_le_bytes (suc k) n = (omega arith, AllBytes-to_le_bytes k (n / 256))

pub from_le_bytes-to_le_bytes : (k n : ℕ) → n < 256 ^ k → from_le_bytes (to_le_bytes k n) ≡ n
unfolding to_le_bytes from_le_bytes
from_le_bytes-to_le_bytes zero n h = omega arith
from_le_bytes-to_le_bytes (suc k) n h =
    omega
      (arith, pow-suc 256 k, from_le_bytes-to_le_bytes k (n / 256) (omega (arith, pow-suc 256 k)))

pub from_le_bytes-lt : (bs : Bytes) → AllBytes bs → from_le_bytes bs < 256 ^ length bs
unfolding from_le_bytes
from_le_bytes-lt [] h = omega arith
from_le_bytes-lt (b ∷ bs) h = omega (arith, pow-suc 256 (length bs), from_le_bytes-lt bs h.1)

pub to_le_bytes-from_le_bytes :
    (bs : Bytes) → AllBytes bs → to_le_bytes (length bs) (from_le_bytes bs) ≡ bs
unfolding to_le_bytes from_le_bytes
to_le_bytes-from_le_bytes [] h = refl
to_le_bytes-from_le_bytes (b ∷ bs) h =
    let low : (b + 256 * from_le_bytes bs) % 256 ≡ b = omega arith in
    let high : (b + 256 * from_le_bytes bs) / 256 ≡ from_le_bytes bs = omega arith in
    rw (low, high) (ap (λ zs. b ∷ zs) (to_le_bytes-from_le_bytes bs h.1))

-- `u64::MAX` and `i64::MAX`
abbrev pub u64_max : ℕ
u64_max = 0xffff_ffff_ffff_ffff

abbrev pub i64_max : ℕ
i64_max = 0x7fff_ffff_ffff_ffff

abbrev pub IsU64 : ℕ → Type 0
IsU64 n = n < 0x1_0000_0000_0000_0000

-- `u64::to_le_bytes`
abbrev pub le8 : ℕ → Bytes
le8 n = to_le_bytes 8 n

pub le8-from_le_bytes : (bs : Bytes) → AllBytes bs → length bs ≡ 8 → le8 (from_le_bytes bs) ≡ bs
le8-from_le_bytes bs a n = rw n at (to_le_bytes-from_le_bytes bs a)

pub from_le_bytes-le8 : (n : ℕ) → IsU64 n → from_le_bytes (le8 n) ≡ n
from_le_bytes-le8 n h = from_le_bytes-to_le_bytes 8 n h
