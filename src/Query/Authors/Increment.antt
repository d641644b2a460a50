-- ===== src/Query/Authors/Increment.antt =====
-- `increment_be` is the successor of a big-endian number.
use native.Mathlib.Nat.{pow-suc, mul-le-mul_right}
use deepfry.Base.{
  ℕ, ◌+◌, ◌*◌, ◌^◌, ◌≡◌, ◌<◌, ◌⊎◌, inl, inr, refl, arith, Bool, true, false, Bool-cases, none, some,
  [], ◌∷◌, length, ◌==◌, if◌then◌else◌,
}
use deepfry.Base.Words.{Bytes, AllBytes, IsByte}
use deepfry.Query.Authors.{add_one, increment_be}

-- The number that bytes stand for, the first byte the most significant one.
unfoldable pub be_value : Bytes → ℕ
be_value [] = 0
be_value (b ∷ bs) = b * 256 ^ length bs + be_value bs

abbrev overflow : Bytes × Bool → ℕ
overflow (bs, true) = 256 ^ length bs
overflow (bs, false) = 0

abbrev IsSuccessor : Bytes → Bytes × Bool → Type 0
IsSuccessor bs r =
    (length r.0 ≡ length bs)
    × AllBytes r.0
    × (be_value r.0 + (if r.1 then 256 ^ length bs else 0) ≡ be_value bs + 1)

carry_out :
    (b X low high : ℕ) → b ≡ 255 → low + X ≡ high + 1 → 0 * X + low + X * 256 ≡ b * X + high + 1
carry_out b X low high e v = rw e (omega (arith, v))

carry_in : (b X low high : ℕ) → low + X ≡ high + 1 → (b + 1) * X + low + 0 ≡ b * X + high + 1
carry_in b X low high v = ground (arith, v)

add_one_step :
    (b : ℕ) (bs low : Bytes) (carry : Bool)
    → IsByte b
    → IsSuccessor bs (low, carry)
    → IsSuccessor (b ∷ bs) (
        if carry
        then (if b == 255 then (0 ∷ low, true) else ((b + 1) ∷ low, false))
        else (b ∷ low, false))
unfolding be_value
add_one_step b bs low false h (n, a, v) = (omega (arith, n), (h, a), rw n (omega (arith, v)))
add_one_step b bs low true h (n, a, v) = elim (Bool-cases (b == 255)) [
  | inl e ↦
      rw (e, IsSuccessor)
        (
          omega (arith, n),
          (omega arith, a),
          rw (n, pow-suc 256 (length bs))
              (carry_out b (256 ^ length bs) (be_value low) (be_value bs) (ground arith) v),
        )
  | inr e ↦
      rw (e, IsSuccessor)
        (
          omega (arith, n),
          (ground arith, a),
          rw n (carry_in b (256 ^ length bs) (be_value low) (be_value bs) v),
        )
]

add_one_lem : (bs : Bytes) → AllBytes bs → IsSuccessor bs (add_one bs)
unfolding add_one be_value
add_one_lem [] a = (refl, tt, refl)
add_one_lem (b ∷ bs) a = add_one_step b bs (add_one bs).0 (add_one bs).1 a.0 (add_one_lem bs a.1)

bounded : (b X low : ℕ) → b < 256 → low < X → b * X + low < X * 256
bounded b X low h l = omega (arith, mul-le-mul_right {m = b} {n = 255} X (omega arith))

be_value-lt : (bs : Bytes) → AllBytes bs → be_value bs < 256 ^ length bs
unfolding be_value
be_value-lt [] a = omega arith
be_value-lt (b ∷ bs) a =
    rw (pow-suc 256 (length bs))
      (bounded b (256 ^ length bs) (be_value bs) a.0 (be_value-lt bs a.1))

-- On a string of bytes, increment_be gives the bytes of the same length that stand for the next
-- number, read with the most significant byte first, or none exactly where that number does not
-- fit the length.
pub increment_be_lem :
    (pk : Bytes)
    → AllBytes pk
    → ((r : Bytes) × (increment_be pk ≡ some r)
        × (length r ≡ length pk)
        × AllBytes r
        × (be_value r ≡ be_value pk + 1))
      ⊎ ((increment_be pk ≡ none) × (be_value pk + 1 ≡ 256 ^ length pk))
unfolding increment_be
increment_be_lem pk a =
    let (n, bytes, v) = add_one_lem pk a in
    let small = be_value-lt pk a in
    elim (Bool-cases (add_one pk).1) [
      | inl carry ↦ inr (rw carry refl, ground (arith, v))
      | inr done ↦ inl ((add_one pk).0, rw done refl, n, bytes, ground (arith, v))
    ]
