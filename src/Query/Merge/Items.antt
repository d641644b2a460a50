-- ===== src/Query/Merge/Items.antt =====
-- Lists that are filtered, cut and guarded: the facts that a refill rests on.
use deepfry.Base.{
  ℕ, zero, suc, ◌≡◌, inl, inr, refl, sym, arith, Bool, true, false, Bool-cases, none, some,
  Option-cases, ltb, leb, lt→ltb, List, [], ◌∷◌, ◌++◌, take, keep_if, take_while, position, All,
}
use deepfry.Query.Merge.{Triple, truncate_since, cut_at, Floor, passes_floor, apply_floor}

module _ {ℓ} {A : Type ℓ} (P : A → Type 0) where
  All-append_left : (xs ys : List A) → All P (xs ++ ys) → All P xs
  All-append_left [] ys a = tt
  All-append_left (x ∷ xs) ys a = (a.0, All-append_left xs ys a.1)

  All-append_right : (xs ys : List A) → All P (xs ++ ys) → All P ys
  All-append_right [] ys a = a
  All-append_right (x ∷ xs) ys a = All-append_right xs ys a.1

module _ {ℓ} {A : Type ℓ} (p : A → Bool) where
  pub keep_if-append : (xs ys : List A) → keep_if p (xs ++ ys) ≡ keep_if p xs ++ keep_if p ys
  keep_if-append [] ys = refl
  keep_if-append (x ∷ xs) ys = ground (arith, keep_if-append xs ys)

  pub keep_if_none : (xs : List A) → All (λ x. p x ≡ false) xs → keep_if p xs ≡ []
  keep_if_none [] a = refl
  keep_if_none (x ∷ xs) a = ground (arith, keep_if_none xs a.1)

  pub keep_if-All : (xs : List A) → All (λ x. p x ≡ true) xs → keep_if p xs ≡ xs
  keep_if-All [] a = refl
  keep_if-All (x ∷ xs) a = ground (arith, keep_if-All xs a.1)

  pub keep_if-eq-nil : (xs : List A) → keep_if p xs ≡ [] → All (λ x. p x ≡ false) xs
  keep_if-eq-nil [] e = tt
  keep_if-eq-nil (x ∷ xs) e = ground (arith, keep_if-eq-nil xs)

  -- Once an element fails the test, all later ones do.
  abbrev pub IsContiguous : List A → Type 0
  IsContiguous [] = Unit
  IsContiguous (x ∷ xs) = (p x ≡ false → All (λ y. p y ≡ false) xs) × IsContiguous xs

  pub take_while-eq-keep_if : (xs : List A) → IsContiguous xs → take_while p xs ≡ keep_if p xs
  take_while-eq-keep_if [] c = refl
  take_while-eq-keep_if (x ∷ xs) c = ground (arith, keep_if_none xs, take_while-eq-keep_if xs c.1)

  IsContiguous-append_left : (xs ys : List A) → IsContiguous (xs ++ ys) → IsContiguous xs
  IsContiguous-append_left [] ys c = tt
  IsContiguous-append_left (x ∷ xs) ys c =
      (λ h. All-append_left (λ y. p y ≡ false) xs ys (c.0 h), IsContiguous-append_left xs ys c.1)

  -- The guard of a batch keeps what it would keep of the whole scan.
  pub guard_batch : (xs ys : List A) → IsContiguous (xs ++ ys) → take_while p xs ≡ keep_if p xs
  guard_batch xs ys c = take_while-eq-keep_if xs (IsContiguous-append_left xs ys c)

  -- Where the guard of a batch keeps nothing, it keeps nothing later either.
  pub guard_ends :
      (x : A) (xs ys : List A)
      → IsContiguous ((x ∷ xs) ++ ys)
      → take_while p (x ∷ xs) ≡ []
      → keep_if p ys ≡ []
  guard_ends x xs ys c e = elim (Bool-cases (p x)) [
    | inl t ↦ ground arith
    | inr f ↦ keep_if_none ys (All-append_right (λ y. p y ≡ false) xs ys (c.0 f))
  ]

  take_while-append-All :
      (xs ys : List A) → All (λ x. p x ≡ true) xs → take_while p (xs ++ ys) ≡ xs ++ take_while p ys
  take_while-append-All [] ys a = refl
  take_while-append-All (x ∷ xs) ys a = ground (arith, take_while-append-All xs ys a.1)

-- The entries that a query wants of a stream: above the floor's levId at its time, not before `since`.
abbrev pub select : ℕ → Floor → List Triple → List Triple
select since floor ts = take_while (λ (t : Triple). leb since t.0) (keep_if (passes_floor floor) ts)

All-pass : (ts : List Triple) → All (λ t. passes_floor none t ≡ true) ts
unfolding passes_floor
All-pass [] = tt
All-pass (t ∷ ts) = (refl, All-pass ts)

pub apply_floor_lem :
    (floor : Floor) (ts : List Triple) → apply_floor floor ts ≡ keep_if (passes_floor floor) ts
unfolding apply_floor passes_floor
apply_floor_lem none ts = sym (keep_if-All (passes_floor none) ts (All-pass ts))
apply_floor_lem (some floor) ts = refl

-- A cut of a batch before older entries, and what follows it.
abbrev pub IsCut : ℕ → List Triple → List Triple × Bool → Type 0
IsCut since ts (cut, false) =
    (cut ≡ ts)
    × ((more : List Triple)
        → take_while (λ (t : Triple). leb since t.0) (ts ++ more)
          ≡ ts ++ take_while (λ (t : Triple). leb since t.0) more)
IsCut since ts (cut, true) =
    (more : List Triple) → take_while (λ (t : Triple). leb since t.0) (ts ++ more) ≡ cut

cut_at_lem :
    (since : ℕ) (ts : List Triple)
    → IsCut since ts (cut_at ts (position (λ (t : Triple). ltb t.0 since) ts))
cut_at_lem since [] = (refl, λ more. refl)
cut_at_lem since (t ∷ ts) = elim (Bool-cases (ltb t.0 since)) [
  | inl old ↦ rw (old, IsCut) (λ more. ground arith)
  | inr new ↦ elim (Option-cases (position (λ (x : Triple). ltb x.0 since) ts)) [
    | inl e ↦
        let ih : IsCut since ts (ts, false) = rw e at (cut_at_lem since ts) in
        rw (new, e, IsCut) (ground arith, λ more. ground (arith, ih.1 more))
    | inr (i, e) ↦
        let ih : IsCut since ts (take i ts, true) = rw e at (cut_at_lem since ts) in
        rw (new, e, IsCut) (λ more. ground (arith, ih more))
  ]
]

not_before_zero : (ts : List Triple) → All (λ (t : Triple). leb 0 t.0 ≡ true) ts
not_before_zero [] = tt
not_before_zero (t ∷ ts) = (ground arith, not_before_zero ts)

pub truncate_since-IsCut : (since : ℕ) (ts : List Triple) → IsCut since ts (truncate_since since ts)
unfolding truncate_since
truncate_since-IsCut zero ts =
    (refl, λ more. take_while-append-All (λ (t : Triple). leb 0 t.0) ts more (not_before_zero ts))
truncate_since-IsCut (suc since) ts =
    rw (lt→ltb 0 (suc since) (omega arith)) (cut_at_lem (suc since) ts)
