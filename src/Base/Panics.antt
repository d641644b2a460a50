-- ===== src/Base/Panics.antt =====
-- Code that ends with a value, with an error, or by a panic; slices that panic out of bounds.
use deepfry.Base.{
  ◌≡◌, ◌≢◌, refl, ℕ, ◌-◌, Bool, true, false, ◌&&◌, leb, List, length, take, drop, if◌then◌else◌,
}

pub data Outcome {ℓ κ} (E : Type ℓ) (A : Type κ) : Type (ℓ ⊔ κ) where
  done : A → Outcome E A
  fail : E → Outcome E A
  panic : Outcome E A

infixl 5 ◌>>=◌ ◌>>◌
abbrev pub ◌>>=◌ {ℓ κ μ} :
    {E : Type ℓ} {A : Type κ} {B : Type μ} → Outcome E A → (A → Outcome E B) → Outcome E B
done a >>= f = f a
fail e >>= f = fail e
panic >>= f = panic

abbrev pub ◌>>◌ {ℓ κ} : {E : Type ℓ} {B : Type κ} → Outcome E (Unit {0}) → Outcome E B → Outcome E B
m >> k = m >>= λ _. k

-- `if b { return Err(e) }`
abbrev pub fail_if {ℓ} : {E : Type ℓ} → Bool → E → Outcome E (Unit {0})
fail_if true e = fail e
fail_if false e = done tt

-- `raw[a..b]`
abbrev pub slice {ℓ κ} : {E : Type ℓ} {A : Type κ} → List A → ℕ → ℕ → Outcome E (List A)
slice xs a b = if leb a b && leb b (length xs) then done (take (b - a) (drop a xs)) else panic

pub bind-ne-panic {ℓ κ μ} :
    {E : Type ℓ} {A : Type κ} {B : Type μ} (m : Outcome E A) (f : A → Outcome E B)
    → m ≢ panic
    → ((a : A) → m ≡ done a → f a ≢ panic)
    → (m >>= f) ≢ panic
bind-ne-panic (done a) f h k = k a refl
bind-ne-panic (fail e) f h k = λ p. cc
bind-ne-panic panic f h k = λ _. h refl
