-- ===== src/Query/Engine/Below.antt =====
-- Positions in the order newest first, and what is left of them below one.
use mathlib.Core.Path.{subst}
use deepfry.Base.{
  ltb, ◌||◌, ◌&&◌, ◌==◌, ◌<◌, ◌≡◌, ◌⊎◌, inl, inr, refl, sym, ap, ◌∙◌, arith, Bool, true, false,
  Bool-cases, Option, none, some, Option-cases, List, [], ◌∷◌, ◌++◌, length, All, keep_if,
  length-append, All-keep_if, All-imp,
}
use deepfry.Query.Router.{filter_map}
use deepfry.Query.Engine.{is_below, Position}

-- Later in the order: of an earlier second, or of the same one with a smaller levId.
unfoldable pub comes_after : Option Position → Position → Bool
comes_after none q = true
comes_after (some p) q = ltb q.0 p.0 || (q.0 == p.0 && ltb q.1 p.1)

-- The cursor exclusion lets exactly what comes after the boundary through.
pub is_below_lem : (b : Option Position) (q : Position) → is_below b q ≡ comes_after b q
unfolding is_below comes_after
is_below_lem none q = refl
is_below_lem (some (t, l)) (u, k) = ground arith

-- Each position is above all that follow it.
abbrev pub IsDescending : List Position → Type 0
IsDescending [] = Unit
IsDescending (p ∷ ps) = All (λ (q : Position). comes_after (some p) q ≡ true) ps × IsDescending ps

pub comes_after_trans :
    (b : Option Position) (p q : Position)
    → comes_after b p ≡ true
    → comes_after (some p) q ≡ true
    → comes_after b q ≡ true
unfolding comes_after
comes_after_trans none (t, l) (u, k) x y = refl
comes_after_trans (some (s, j)) (t, l) (u, k) x y = ground arith

pub comes_after_irrefl : (p : Position) → comes_after (some p) p ≡ false
unfolding comes_after
comes_after_irrefl (t, l) = ground arith

pub comes_after_asym :
    (p q : Position) → comes_after (some p) q ≡ true → comes_after (some q) p ≡ false
unfolding comes_after
comes_after_asym (t, l) (u, k) x = ground arith

pub keep_if_all :
    (q : Position → Bool) (xs : List Position) → All (λ x. q x ≡ true) xs → keep_if q xs ≡ xs
keep_if_all q [] a = refl
keep_if_all q (x ∷ xs) a = rw (a.0) (ap (λ ys. x ∷ ys) (keep_if_all q xs a.1))

-- A weaker test first changes nothing.
keep_if_twice :
    (p q : Position → Bool) (xs : List Position)
    → ((x : Position) → p x ≡ true → q x ≡ true)
    → keep_if p (keep_if q xs) ≡ keep_if p xs
keep_if_twice p q [] w = refl
keep_if_twice p q (x ∷ xs) w = ground (arith, w x, keep_if_twice p q xs w)

pub All-keep_if_of_all :
    (P : Position → Type 0) (q : Position → Bool) (xs : List Position)
    → All P xs
    → All P (keep_if q xs)
All-keep_if_of_all P q [] a = tt
All-keep_if_of_all P q (x ∷ xs) a = elim (Bool-cases (q x)) [
  | inl e ↦ rw (e, All) (a.0, All-keep_if_of_all P q xs a.1)
  | inr e ↦ rw e (All-keep_if_of_all P q xs a.1)
]

pub keep_if-IsDescending :
    (q : Position → Bool) (xs : List Position) → IsDescending xs → IsDescending (keep_if q xs)
keep_if-IsDescending q [] d = tt
keep_if-IsDescending q (x ∷ xs) d = elim (Bool-cases (q x)) [
  | inl e ↦
      rw (e, IsDescending)
        (
          All-keep_if_of_all (λ (y : Position). comes_after (some x) y ≡ true) q xs d.0,
          keep_if-IsDescending q xs d.1,
        )
  | inr e ↦ rw e (keep_if-IsDescending q xs d.1)
]

pub All-here :
    {A : Type 0} (P : A → Type 0) (xs : List A) (y : A) (ys : List A) → All P (xs ++ y ∷ ys) → P y
All-here P [] y ys a = a.0
All-here P (x ∷ xs) y ys a = All-here P xs y ys a.1

-- In a descending list, what is below an element is what follows it.
keep_if_after :
    (pre : List Position) (p : Position) (post : List Position)
    → IsDescending (pre ++ p ∷ post)
    → keep_if (comes_after (some p)) (pre ++ p ∷ post) ≡ post
keep_if_after [] p post d = rw (comes_after_irrefl p) (keep_if_all (comes_after (some p)) post d.0)
keep_if_after (x ∷ pre) p post d =
    let above = All-here (λ (q : Position). comes_after (some x) q ≡ true) pre p post d.0 in
    rw (comes_after_asym x p above) (keep_if_after pre p post d.1)

abbrev pub below : List Position → Option Position → List Position
below entries b = keep_if (comes_after b) entries

module _ (entries : List Position) (descending : IsDescending entries) where
  pub All-below : (b : Option Position) → All (λ p. comes_after b p ≡ true) (below entries b)
  All-below b = All-keep_if (comes_after b) entries

  -- Below an element of what is below a boundary there is what follows that element.
  pub below_lem :
      (b : Option Position) (pre : List Position) (p : Position) (post : List Position)
      → below entries b ≡ pre ++ p ∷ post
      → below entries (some p) ≡ post
  below_lem b pre p post e =
      let under : comes_after b p ≡ true =
        All-here (λ q. comes_after b q ≡ true) pre p post
          (subst (All (λ q. comes_after b q ≡ true)) e (All-below b)) in
      let sorted = subst IsDescending e (keep_if-IsDescending (comes_after b) entries descending) in
      sym (
        keep_if_twice (comes_after (some p)) (comes_after b) entries
          (λ q u. comes_after_trans b p q under u))
      ∙ ap (keep_if (comes_after (some p))) e
      ∙ keep_if_after pre p post sorted

module _ (V : Type 0) (at : V → Position) (survives : Position → Option V)
    (same_place : (p : Position) (v : V) → survives p ≡ some v → at v ≡ p) where
  filter_map-drops :
      (x : Position) (xs : List Position)
      → survives x ≡ none
      → filter_map survives (x ∷ xs) ≡ filter_map survives xs
  filter_map-drops x xs e = ground arith

  filter_map-keeps :
      (x : Position) (v : V) (xs : List Position)
      → survives x ≡ some v
      → filter_map survives (x ∷ xs) ≡ v ∷ filter_map survives xs
  filter_map-keeps x v xs e = ground arith

  split_at :
      (x : Position) (xs : List Position) (v : V) (w : List V) (d : V) (rest : List V)
      → ((w' : List V)
          → filter_map survives xs ≡ w' ++ d ∷ rest
          → (pre : List Position) × (post : List Position) × (xs ≡ pre ++ at d ∷ post)
            × (filter_map survives post ≡ rest))
      → survives x ≡ some v
      → v ∷ filter_map survives xs ≡ w ++ d ∷ rest
      → (pre : List Position) × (post : List Position) × (x ∷ xs ≡ pre ++ at d ∷ post)
        × (filter_map survives post ≡ rest)
  split_at x xs v [] d rest next k e =
      let same : v ≡ d = cc in
      let place : at d ≡ x = same_place x d (k ∙ ap some same) in
      ([], xs, ap (λ y. y ∷ xs) (sym place), cc)
  split_at x xs v (u ∷ w) d rest next k e =
      let (pre, post, here, tail) = next w cc in (x ∷ pre, post, ap (λ ys. x ∷ ys) here, tail)

  split :
      (xs : List Position) (w : List V) (d : V) (rest : List V)
      → filter_map survives xs ≡ w ++ d ∷ rest
      → (pre : List Position) × (post : List Position) × (xs ≡ pre ++ at d ∷ post)
        × (filter_map survives post ≡ rest)
  split [] [] d rest e = absurd cc
  split [] (u ∷ w) d rest e = absurd cc
  split (x ∷ xs) w d rest e = elim (Option-cases (survives x)) [
    | inl n ↦
        let (pre, post, here, tail) = split xs w d rest (sym (filter_map-drops x xs n) ∙ e) in
        (x ∷ pre, post, ap (λ ys. x ∷ ys) here, tail)
    | inr (v, k) ↦
        split_at x xs v w d rest (λ w' e'. split xs w' d rest e') k
          (sym (filter_map-keeps x v xs k) ∙ e)
  ]

  -- Cutting what survives of a list at one of the survivors cuts the list there.
  pub cut :
      (entries : List Position) (descending : IsDescending entries) (b : Option Position)
      (w : List V) (d : V) (rest : List V)
      → filter_map survives (below entries b) ≡ w ++ d ∷ rest
      → (filter_map survives (below entries (some (at d))) ≡ rest)
        × (length (below entries (some (at d))) < length (below entries b))
  cut entries descending b w d rest e =
      let (pre, post, here, tail) = split (below entries b) w d rest e in
      let at_post = below_lem entries descending b pre (at d) post here in
      (
        ap (filter_map survives) at_post ∙ tail,
        omega (arith, ap length at_post, ap length here, length-append pre (at d ∷ post)),
      )

  -- What holds of all positions holds of the place of a survivor.
  pub cut-All :
      (P : Position → Type 0) (entries : List Position) (b : Option Position) (w : List V) (d : V)
      (rest : List V)
      → filter_map survives (below entries b) ≡ w ++ d ∷ rest
      → All P entries
      → P (at d)
  cut-All P entries b w d rest e a =
      let (pre, post, here, tail) = split (below entries b) w d rest e in
      All-here P pre (at d) post
        (subst (All P) here (All-keep_if_of_all P (comes_after b) entries a))

abbrev pub IsEntry : List Position → Position → Type 0
IsEntry [] p = ⊥
IsEntry (x ∷ xs) p = (x ≡ p) ⊎ IsEntry xs p

pub All-IsEntry :
    (P : Position → Type 0) (xs : List Position) (p : Position) → All P xs → IsEntry xs p → P p
All-IsEntry P [] p a i = absurd i
All-IsEntry P (x ∷ xs) p a (inl e) = subst P e a.0
All-IsEntry P (x ∷ xs) p a (inr i) = All-IsEntry P xs p a.1 i

pub entries-IsEntry : (xs : List Position) → All (IsEntry xs) xs
entries-IsEntry [] = tt
entries-IsEntry (x ∷ xs) = (inl refl, All-imp (λ p i. inr i) xs (entries-IsEntry xs))
