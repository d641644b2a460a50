-- ===== src/Graphql/Inputs/Valid.antt =====
-- Which inputs make a filter.
use mathlib.Core.Option
use mathlib.Core.Option.{some-injective}
use deepfry.Base.{
  ℕ, ◌≤◌, ◌≡◌, ◌↔◌, inl, inr, refl, sym, ap, ◌∙◌, arith, false, Bool-cases, Option, none, some,
  List, [], ◌∷◌, map,
}
use deepfry.Base.Results.{ok, Result-cases, ok-injective, err-ok}
use deepfry.Base.Ints.{ℤ, pos, negsuc, to_u64}
use deepfry.Query.Filter.{NostrFilter}
use deepfry.Graphql.{EventFilterInput}
use deepfry.Graphql.Inputs.{
  nonneg_ts, convert_kinds, convert_optional_kinds, is_inverted, one_tag, or_default, build_from,
  build_nostr_filter,
}

-- The filter of an input: the same numbers, and a range that is not inverted.
pub record IsFilterOf (f : EventFilterInput) (effective_limit : ℕ) (out : NostrFilter)
    : Type 0 where
  pub ids : out.ids ≡ f.ids
  pub authors : out.authors ≡ f.authors
  pub kinds : Option.map (map pos) out.kinds ≡ f.kinds
  pub tags : out.tags ≡ one_tag f.tag
  pub since : Option.map pos out.since ≡ f.since
  pub until : Option.map pos out.until ≡ f.until
  pub ordered : (s u : ℕ) → out.since ≡ some s → out.until ≡ some u → s ≤ u
  pub limit : out.limit ≡ effective_limit

nonneg_ts-ok :
    (v : Option ℤ) (field : _) (t : Option ℕ) → nonneg_ts v field ≡ ok t → Option.map pos t ≡ v
unfolding nonneg_ts
nonneg_ts-ok none field t e = ap (Option.map pos) (sym (ok-injective e))
nonneg_ts-ok (some (pos n)) field t e = ap (Option.map pos) (sym (ok-injective e))
nonneg_ts-ok (some (negsuc n)) field t e = absurd (err-ok e)

nonneg_ts-pos : (t : Option ℕ) (field : _) → nonneg_ts (Option.map pos t) field ≡ ok t
unfolding nonneg_ts
nonneg_ts-pos none field = refl
nonneg_ts-pos (some n) field = refl

convert_kinds-pos : (out : List ℕ) → convert_kinds (map pos out) ≡ ok out
unfolding convert_kinds to_u64
convert_kinds-pos [] = refl
convert_kinds-pos (n ∷ out) = rw (convert_kinds-pos out) refl

convert_kinds-ok : (ks : List ℤ) (out : List ℕ) → convert_kinds ks ≡ ok out → map pos out ≡ ks
unfolding convert_kinds to_u64
convert_kinds-ok [] out e = ap (map pos) (sym (ok-injective e))
convert_kinds-ok (negsuc n ∷ ks) out e = absurd (err-ok e)
convert_kinds-ok (pos n ∷ ks) out e = elim (Result-cases (convert_kinds ks)) [
  | inl (rest, r) ↦
      let same : n ∷ rest ≡ out = ok-injective (rw r at e) in
      ap (map pos) (sym same) ∙ ap (λ l. pos n ∷ l) (convert_kinds-ok ks rest r)
  | inr (x, r) ↦ absurd (err-ok (rw r at e))
]

optional-ok :
    (ks : Option (List ℤ)) (out : Option (List ℕ))
    → convert_optional_kinds ks ≡ ok out
    → Option.map (map pos) out ≡ ks
unfolding convert_optional_kinds
optional-ok none out e = ap (Option.map (map pos)) (sym (ok-injective e))
optional-ok (some ks) out e = elim (Result-cases (convert_kinds ks)) [
  | inl (l, r) ↦
      let same : some l ≡ out = ok-injective (rw r at e) in
      ap (Option.map (map pos)) (sym same) ∙ ap some (convert_kinds-ok ks l r)
  | inr (x, r) ↦ absurd (err-ok (rw r at e))
]

optional-pos : (out : Option (List ℕ)) → convert_optional_kinds (Option.map (map pos) out) ≡ ok out
unfolding convert_optional_kinds
optional-pos none = refl
optional-pos (some out) = rw (convert_kinds-pos out) refl

ordered-is_inverted :
    (s u : Option ℕ) → is_inverted s u ≡ false → (a b : ℕ) → s ≡ some a → u ≡ some b → a ≤ b
unfolding is_inverted
ordered-is_inverted none u e a b p q = absurd cc
ordered-is_inverted (some s) none e a b p q = absurd cc
ordered-is_inverted (some s) (some u) e a b p q =
    let s' : s ≡ a = some-injective _ _ p in let u' : u ≡ b = some-injective _ _ q in ground arith

is_inverted-ordered :
    (s u : Option ℕ) → ((a b : ℕ) → s ≡ some a → u ≡ some b → a ≤ b) → is_inverted s u ≡ false
unfolding is_inverted
is_inverted-ordered none u o = refl
is_inverted-ordered (some s) none o = refl
is_inverted-ordered (some s) (some u) o = let le = o s u refl refl in ground arith

module _ (f : EventFilterInput) (effective_limit : ℕ) where
  built :
      (out : NostrFilter) → IsFilterOf f effective_limit out → build_from f effective_limit ≡ ok out
  unfolding build_from
  built out v =
      rw
        (
          ← v.kinds,
          ← v.since,
          ← v.until,
          ← v.ids,
          ← v.authors,
          ← v.limit,
          ← v.tags,
          optional-pos out.kinds,
          nonneg_ts-pos out.since "since",
          nonneg_ts-pos out.until "until",
          is_inverted-ordered out.since out.until v.ordered,
        )
        refl

  pub build_from-IsFilterOf :
      (out : NostrFilter) → build_from f effective_limit ≡ ok out → IsFilterOf f effective_limit out
  unfolding build_from
  build_from-IsFilterOf out e = elim (Result-cases (convert_optional_kinds f.kinds)) [
    | inr (x, k) ↦ absurd (err-ok (rw k at e))
    | inl (kinds, k) ↦ elim (Result-cases (nonneg_ts f.since "since")) [
      | inr (x, s) ↦ absurd (err-ok (rw (k, s) at e))
      | inl (since, s) ↦ elim (Result-cases (nonneg_ts f.until "until")) [
        | inr (x, u) ↦ absurd (err-ok (rw (k, s, u) at e))
        | inl (until, u) ↦ elim (Bool-cases (is_inverted since until)) [
          | inl i ↦ absurd (err-ok (rw (k, s, u, i) at e))
          | inr i ↦
              let same = ok-injective (rw (k, s, u, i) at e) in
              rw (← same) (record {
                ids = refl;
                authors = refl;
                kinds = optional-ok f.kinds kinds k;
                tags = refl;
                since = nonneg_ts-ok f.since "since" since s;
                until = nonneg_ts-ok f.until "until" until u;
                ordered = ordered-is_inverted since until i;
                limit = refl;
              })
        ]
      ]
    ]
  ]

  -- An input makes a filter exactly when it has no negative kind and no negative bound and its
  -- since is not after its until; the filter then has the same numbers, and the given limit. The
  -- hex of the ids and authors is not looked at.
  pub build_nostr_filter-eq-ok_iff :
      (out : NostrFilter)
      → (build_nostr_filter (some f) effective_limit ≡ ok out) ↔ IsFilterOf f effective_limit out
  unfolding build_nostr_filter or_default
  build_nostr_filter-eq-ok_iff out = (build_from-IsFilterOf out, built out)
