-- ===== src/Lmdb/SelfCheck/Order.antt =====
-- Phase A of the self-check.
use Prim.Native.String.{String}
use deepfry.Base.{
  ℕ, ◌+◌, ◌≡◌, ◌↔◌, inl, inr, refl, Bool, false, Bool-cases, List, [], ◌∷◌, if◌then◌else◌,
}
use deepfry.Base.Results.{ok, Result-cases, err-ok}
use deepfry.Base.Words.{Bytes}
use deepfry.Lmdb.SelfCheck.{memcmp_greater, phase_a, witness_positions}

-- No key is greater than the next one.
abbrev pub IsNonDecreasing : (Bytes → Bytes → Bool) → List Bytes → Type 0
IsNonDecreasing is_greater [] = Unit
IsNonDecreasing is_greater (a ∷ []) = Unit
IsNonDecreasing is_greater (a ∷ b ∷ keys) =
    (is_greater a b ≡ false) × IsNonDecreasing is_greater (b ∷ keys)

module _ {E : Type 0} (is_greater : Bytes → Bytes → Bool) (index : String) where
  in_order :
      (pos : ℕ) (prev : Bytes) (keys : List Bytes) (found : List ℕ)
      → phase_a {E = E} is_greater index pos prev keys ≡ ok found
      → IsNonDecreasing is_greater (prev ∷ keys)
  unfolding phase_a
  in_order pos prev [] found e = tt
  in_order pos prev (cur ∷ keys) found e = elim (Bool-cases (is_greater prev cur)) [
    | inl g ↦ absurd (err-ok (rw g at e))
    | inr g ↦ elim (Result-cases (phase_a {E = E} is_greater index (pos + 1) cur keys)) [
      | inl (more, p) ↦ (g, in_order (pos + 1) cur keys more p)
      | inr (x, p) ↦ absurd (err-ok (rw (g, p) at e))
    ]
  ]

  passes :
      (pos : ℕ) (prev : Bytes) (keys : List Bytes)
      → IsNonDecreasing is_greater (prev ∷ keys)
      → (found : List ℕ) × (phase_a {E = E} is_greater index pos prev keys ≡ ok found)
  unfolding phase_a
  passes pos prev [] n = ([], refl)
  passes pos prev (cur ∷ keys) n =
      let (found, e) = passes (pos + 1) cur keys n.1 in
      (if memcmp_greater prev cur then pos ∷ found else found, rw (n.0, e) refl)

  -- Phase A passes exactly where the comparator finds no key of the sample greater than the next.
  pub witness_positions-ok_iff :
      (keys : List Bytes)
      → ((found : List ℕ) × (witness_positions {E = E} is_greater index keys ≡ ok found))
        ↔ IsNonDecreasing is_greater keys
  unfolding witness_positions
  witness_positions-ok_iff [] = ((λ f. tt), (λ n. ([], refl)))
  witness_positions-ok_iff (key ∷ keys) = ((λ f. in_order 1 key keys f.0 f.1), passes 1 key keys)
