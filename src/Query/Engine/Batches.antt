-- ===== src/Query/Engine/Batches.antt =====
-- One batch of a descending list: its last position, and what is below it.
use deepfry.Query.Engine.Below.{comes_after}
use mathlib.Core.Path.{subst}
use mathlib.Core.List.{append_assoc}
use deepfry.Base.{
  ℕ, zero, suc, ◌<◌, ◌≤◌, ◌≡◌, ◌⊎◌, inl, inr, refl, sym, ap, ◌∙◌, arith, true, false, Bool-cases,
  ltb, Option, none, some, List, [], ◌∷◌, ◌++◌, map, length, take, drop, last?, take-append-drop,
  All,
}
use deepfry.Query.Filter.{NostrFilter}
use deepfry.Query.Merge.{Triple}
use deepfry.Query.Engine.{Position, position_eq, last_position, effective_limit, emit_limit_of}
use deepfry.Query.Engine.Below.{
  IsDescending, below, below_lem, All-below, All-here, All-keep_if_of_all,
}
use deepfry.Query.Engine.Cursors.{snoc-cases, last?-snoc}
use deepfry.Query.Engine.Feed.{position_of}

pub effective_limit-positive : (f : NostrFilter) → 1 ≤ effective_limit f
unfolding effective_limit
effective_limit-positive f = ground arith

pub emit_limit_of-positive : (limit : ℕ) → 1 ≤ limit → 1 ≤ emit_limit_of limit
unfolding emit_limit_of
emit_limit_of-positive limit one = omega arith

last_position-map : (batch : List Triple) → last_position batch ≡ last? (map position_of batch)
unfolding last_position
last_position-map [] = refl
last_position-map (t ∷ []) = refl
last_position-map (t ∷ u ∷ batch) = last_position-map (u ∷ batch)

pub last_position-snoc :
    (batch : List Triple) (w : List Position) (p : Position)
    → map position_of batch ≡ w ++ p ∷ []
    → last_position batch ≡ some p
last_position-snoc batch w p e = last_position-map batch ∙ ap last? e ∙ last?-snoc w p

drop_short : {A : Type 0} (n : ℕ) (xs : List A) → length (take n xs) < n → drop n xs ≡ []
drop_short zero xs e = absurd (omega arith)
drop_short (suc n) [] e = refl
drop_short (suc n) (x ∷ xs) e = drop_short n xs (omega arith)

pub position_eq-below :
    (b : Option Position) (p : Position) → comes_after b p ≡ true → position_eq (some p) b ≡ false
unfolding comes_after position_eq
position_eq-below none (t, l) e = refl
position_eq-below (some (s, j)) (t, l) e = ground arith

-- Either the batch is not full and nothing is left, or what is left is what is below its last
-- position.
pub batch-cases :
    (entries : List Position)
    → IsDescending entries
    → (b : Option Position) (n : ℕ) → 1 ≤ n
    → ((length (take n (below entries b)) < n) × (drop n (below entries b) ≡ []))
      ⊎ ((n ≤ length (take n (below entries b)))
          × (w : List Position) × (p : Position) × (take n (below entries b) ≡ w ++ p ∷ [])
          × (below entries (some p) ≡ drop n (below entries b))
          × (comes_after b p ≡ true)
          × ((P : Position → Type 0) → All P entries → P p))
batch-cases entries descending b n one =
    elim (Bool-cases (ltb (length (take n (below entries b))) n)) [
      | inl e ↦
          let short : length (take n (below entries b)) < n = ground arith in
          inl (short, drop_short n (below entries b) short)
      | inr e ↦
          let long : n ≤ length (take n (below entries b)) = ground arith in
          elim (snoc-cases (take n (below entries b))) [
            | inl z ↦ absurd (omega (arith, ap length z))
            | inr (w, p, z) ↦
                let here : below entries b ≡ w ++ p ∷ drop n (below entries b) =
                  sym (take-append-drop n (below entries b))
                  ∙ ap (λ x. x ++ drop n (below entries b)) z
                  ∙ append_assoc w (p ∷ []) (drop n (below entries b)) in
                inr (
                  long,
                  w,
                  p,
                  z,
                  below_lem entries descending b w p (drop n (below entries b)) here,
                  All-here (λ q. comes_after b q ≡ true) w p (drop n (below entries b))
                      (subst (All (λ q. comes_after b q ≡ true)) here
                        (All-below entries descending b)),
                  λ P a.
                      All-here P w p (drop n (below entries b))
                        (subst (All P) here (All-keep_if_of_all P (comes_after b) entries a)),
                )
          ]
    ]
