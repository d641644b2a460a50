-- ===== src/Query/Merge/Order.antt =====
-- The hits of an index in the order of its scan.
use deepfry.Base.{
  ℕ, ◌≡◌, ◌⊎◌, inl, inr, refl, sym, ◌∙◌, arith, Bool, true, Bool-cases, none, some, Option-cases,
  List, [], ◌∷◌, ◌++◌, All, keep_if, starts_with,
}
use deepfry.Base.Words.{Bytes}
use deepfry.Lmdb.Heed.{Entry}
use deepfry.Lmdb.Indexes.{lev_id_of_value}
use deepfry.Lmdb.Scan.{Hit, last_key_or}
use deepfry.Lmdb.Scan.Window.{hits, IsInOrder}
use deepfry.Query.Merge.{Triple, to_triple}
use deepfry.Query.Merge.Items.{IsContiguous}
use deepfry.Query.Merge.Refill.{under}

hits_skip :
    (key value : Bytes) (es : List Entry)
    → lev_id_of_value value ≡ none
    → hits ((key, value) ∷ es) ≡ hits es
unfolding hits
hits_skip key value es e = ground arith

hits_push :
    (key value : Bytes) (lev_id : ℕ) (es : List Entry)
    → lev_id_of_value value ≡ some lev_id
    → hits ((key, value) ∷ es) ≡ (key, lev_id) ∷ hits es
unfolding hits
hits_push key value lev_id es e = ground arith

pub hits-keep_if-nil :
    (q : Entry → Bool) (es : List Entry) → hits es ≡ [] → hits (keep_if q es) ≡ []
hits-keep_if-nil q [] h = h
hits-keep_if-nil q ((key, value) ∷ es) h = elim (Option-cases (lev_id_of_value value)) [
  | inl e ↦
      let ih = hits-keep_if-nil q es (sym (hits_skip key value es e) ∙ h) in
      elim (Bool-cases (q (key, value))) [
        | inl t ↦ rw (t, hits_skip key value (keep_if q es) e) ih
        | inr f ↦ rw f ih
      ]
  | inr (lev_id, e) ↦
      let p : (key, lev_id) ∷ hits es ≡ [] = sym (hits_push key value lev_id es e) ∙ h in absurd cc
]

pub All-hits :
    (P : Bytes → Type 0) (es : List Entry)
    → All (λ (e : Entry). P e.0) es
    → All (λ (x : Hit). P x.0) (hits es)
All-hits P [] a = unfold hits in tt
All-hits P ((key, value) ∷ es) a = elim (Option-cases (lev_id_of_value value)) [
  | inl e ↦ rw (hits_skip key value es e) (All-hits P es a.1)
  | inr (lev_id, e) ↦ rw (hits_push key value lev_id es e, All) (a.0, All-hits P es a.1)
]

pub All-under :
    (p : Bytes) (Q : Triple → Type 0) (xs : List Hit)
    → All (λ (x : Hit). starts_with x.0 p ≡ true → Q (to_triple x)) xs
    → All Q (under p xs)
All-under p Q [] a = tt
All-under p Q (x ∷ xs) a = elim (Bool-cases (starts_with x.0 p)) [
  | inl e ↦ rw (e, All) (a.0 e, All-under p Q xs a.1)
  | inr e ↦ rw e (All-under p Q xs a.1)
]

pub IsContiguous-append_right :
    {A : Type 0} (q : A → Bool) (xs ys : List A) → IsContiguous q (xs ++ ys) → IsContiguous q ys
IsContiguous-append_right q [] ys c = c
IsContiguous-append_right q (x ∷ xs) ys c = IsContiguous-append_right q xs ys c.1

pub All-both : (P Q : Hit → Type 0) (xs : List Hit) → All P xs → All Q xs → All (λ x. P x × Q x) xs
All-both P Q [] a b = tt
All-both P Q (x ∷ xs) a b = ((a.0, b.0), All-both P Q xs a.1 b.1)

pub All-prefix : {A : Type 0} (P : A → Type 0) (xs ys : List A) → All P (xs ++ ys) → All P xs
All-prefix P [] ys a = tt
All-prefix P (x ∷ xs) ys a = (a.0, All-prefix P xs ys a.1)

module _ (before : Bytes → Bytes → Bool) where
  -- Each hit is at the key of the next ones or before them.
  abbrev pub IsOrdered : List Hit → Type 0
  IsOrdered [] = Unit
  IsOrdered (x ∷ xs) = All (λ (y : Hit). (x.0 ≡ y.0) ⊎ (before x.0 y.0 ≡ true)) xs × IsOrdered xs

  pub hits-IsOrdered : (es : List Entry) → IsInOrder before es → IsOrdered (hits es)
  hits-IsOrdered [] o = unfold hits in tt
  hits-IsOrdered ((key, value) ∷ es) o = elim (Option-cases (lev_id_of_value value)) [
    | inl e ↦ rw (hits_skip key value es e) (hits-IsOrdered es o.1)
    | inr (lev_id, e) ↦
        rw (hits_push key value lev_id es e, IsOrdered)
          (All-hits (λ k. (key ≡ k) ⊎ (before key k ≡ true)) es o.0, hits-IsOrdered es o.1)
  ]

  pub IsOrdered-prefix : (xs ys : List Hit) → IsOrdered (xs ++ ys) → IsOrdered xs
  IsOrdered-prefix [] ys o = tt
  IsOrdered-prefix (x ∷ xs) ys o = (
    All-prefix (λ (y : Hit). (x.0 ≡ y.0) ⊎ (before x.0 y.0 ≡ true)) xs ys o.0,
    IsOrdered-prefix xs ys o.1,
  )

  pub All-last :
      (P : Bytes → Type 0) (k : Bytes) (xs : List Hit)
      → P k
      → All (λ (x : Hit). P x.0) xs
      → P (last_key_or k xs)
  All-last P k [] p a = p
  All-last P k ((key, lev_id) ∷ xs) p a = All-last P key xs a.0 a.1

  -- Every hit of a batch is at its last key or before it.
  pub before_last :
      (k : Bytes) (b : List Hit)
      → IsOrdered b
      → All (λ (x : Hit). (x.0 ≡ last_key_or k b) ⊎ (before x.0 (last_key_or k b) ≡ true)) b
  before_last k [] o = tt
  before_last k ((key, lev_id) ∷ b) o = (
    All-last (λ l. (key ≡ l) ⊎ (before key l ≡ true)) key b (inl refl) o.0,
    before_last key b o.1,
  )
