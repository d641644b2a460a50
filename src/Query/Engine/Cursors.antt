-- ===== src/Query/Engine/Cursors.antt =====
-- The cursor that a page ends with.
use deepfry.Base.{
  ℕ, zero, suc, ◌≤◌, ◌≡◌, ◌≢◌, ◌⊎◌, inl, inr, refl, ap, arith, Bool, true, false, Option, none,
  some, List, [], ◌∷◌, ◌++◌, length, take, last?, is_empty,
}
use deepfry.Query.Engine.{Position, Emitted, cursor_at, last_cursor, next_cursor}

pub snoc-cases :
    {A : Type 0} (xs : List A) → (xs ≡ []) ⊎ ((w : List A) × (d : A) × (xs ≡ w ++ d ∷ []))
snoc-cases [] = inl refl
snoc-cases (x ∷ xs) = elim (snoc-cases xs) [
  | inl e ↦ inr ([], x, ap (λ ys. x ∷ ys) e)
  | inr (w, d, e) ↦ inr (x ∷ w, d, ap (λ ys. x ∷ ys) e)
]

pub last?-snoc : {A : Type 0} (w : List A) (d : A) → last? (w ++ d ∷ []) ≡ some d
last?-snoc [] d = refl
last?-snoc (x ∷ []) d = refl
last?-snoc (x ∷ y ∷ w) d = last?-snoc (y ∷ w) d

last_cursor-snoc : (w : List Emitted) (d : Emitted) → last_cursor (w ++ d ∷ []) ≡ some (cursor_at d)
unfolding last_cursor
last_cursor-snoc w d = ground (arith, last?-snoc w d)

is_empty-snoc : (w : List Emitted) (d : Emitted) → is_empty (w ++ d ∷ []) ≡ false
is_empty-snoc [] d = refl
is_empty-snoc (x ∷ w) d = refl

pub next_cursor-full :
    (limit : ℕ) (w : List Emitted) (d : Emitted) (exhausted : Bool) (deepest : Option Position)
    → length (w ++ d ∷ []) ≡ limit
    → next_cursor limit (w ++ d ∷ []) exhausted deepest ≡ some (cursor_at d)
unfolding next_cursor
next_cursor-full limit w d exhausted deepest e = ground (arith, last_cursor-snoc w d)

pub next_cursor-partial :
    (limit : ℕ) (w : List Emitted) (d : Emitted) (deepest : Option Position)
    → next_cursor limit (w ++ d ∷ []) false deepest ≡ some (cursor_at d)
unfolding next_cursor
next_cursor-partial limit w d deepest = ground (arith, last_cursor-snoc w d, is_empty-snoc w d)

pub next_cursor-deepest :
    (limit : ℕ) (p : Position)
    → 1 ≤ limit
    → next_cursor limit [] false (some p) ≡ some (record { created_at = p.0; lev_id = p.1 })
unfolding next_cursor
next_cursor-deepest limit p e = ground arith

pub next_cursor-end :
    (limit : ℕ) (valid : List Emitted) (deepest : Option Position)
    → length valid ≢ limit
    → next_cursor limit valid true deepest ≡ none
unfolding next_cursor
next_cursor-end limit valid deepest e = ground arith

-- A list that a `take` does not fill is taken whole.
pub take_short : {A : Type 0} (n : ℕ) (xs : List A) → length (take n xs) ≢ n → take n xs ≡ xs
take_short zero xs e = absurd (e refl)
take_short (suc n) [] e = refl
take_short (suc n) (x ∷ xs) e = ap (λ ys. x ∷ ys) (take_short n xs (λ z. e (ap suc z)))
