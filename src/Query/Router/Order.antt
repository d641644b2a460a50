-- ===== src/Query/Router/Order.antt =====
-- The order of the start keys, and that sorting and deduplicating lose none.
use deepfry.Base.{
  ◌≡◌, ◌↔◌, inl, inr, refl, arith, true, false, Bool-cases, List, [], ◌∷◌, All, All-imp, bytes_eq,
  bytes_eq→eq, bytes_eq_refl,
}
use deepfry.Base.Words.{Bytes, le8}
use deepfry.Lmdb.Scan.{ScanDirection}
use deepfry.Query.Filter.{NostrFilter}
use deepfry.Query.Router.{
  SelectedIndex, key_leb, insert_key, sort_keys, dedup_after, dedup, raw_start_keys, key_bound,
  build_start_keys,
}

key_leb_total : (xs ys : Bytes) → key_leb xs ys ≡ false → key_leb ys xs ≡ true
unfolding key_leb
key_leb_total [] ys h = cc
key_leb_total (x ∷ xs) [] h = refl
key_leb_total (x ∷ xs) (y ∷ ys) h = ground (arith, key_leb_total xs ys)

key_leb_trans :
    (xs ys zs : Bytes) → key_leb xs ys ≡ true → key_leb ys zs ≡ true → key_leb xs zs ≡ true
unfolding key_leb
key_leb_trans [] ys zs h k = refl
key_leb_trans (x ∷ xs) [] zs h k = cc
key_leb_trans (x ∷ xs) (y ∷ ys) [] h k = cc
key_leb_trans (x ∷ xs) (y ∷ ys) (z ∷ zs) h k = ground (arith, key_leb_trans xs ys zs)

key_leb_antisym : (xs ys : Bytes) → key_leb xs ys ≡ true → key_leb ys xs ≡ true → xs ≡ ys
unfolding key_leb
key_leb_antisym [] [] h k = refl
key_leb_antisym [] (y ∷ ys) h k = cc
key_leb_antisym (x ∷ xs) [] h k = cc
key_leb_antisym (x ∷ xs) (y ∷ ys) h k = ground (arith, key_leb_antisym xs ys)

abbrev Above : Bytes → List Bytes → Type 0
Above k ks = All (λ x. key_leb k x ≡ true) ks

abbrev IsSorted : List Bytes → Type 0
IsSorted [] = Unit
IsSorted (k ∷ ks) = Above k ks × IsSorted ks

-- Each key is strictly below the keys after it.
abbrev pub IsAscending : List Bytes → Type 0
IsAscending [] = Unit
IsAscending (k ∷ ks) = All (λ x. key_leb x k ≡ false) ks × IsAscending ks

module _ (P : Bytes → Type 0) where
  All-insert_key : (k : Bytes) (ks : List Bytes) → All P (insert_key k ks) ↔ (P k × All P ks)
  unfolding insert_key
  All-insert_key k [] = (λ a. a, λ a. a)
  All-insert_key k (x ∷ xs) =
      let ih = All-insert_key k xs in
      elim (Bool-cases (key_leb k x)) [
        | inl e ↦ rw e (λ a. a, λ a. a)
        | inr e ↦ rw e (λ a. ((ih.0 a.1).0, (a.0, (ih.0 a.1).1)), λ a. (a.1.0, ih.1 (a.0, a.1.1)))
      ]

  All-sort_keys : (ks : List Bytes) → All P (sort_keys ks) ↔ All P ks
  unfolding sort_keys
  All-sort_keys [] = (λ a. a, λ a. a)
  All-sort_keys (k ∷ ks) =
      let ih = All-sort_keys ks in
      let here = All-insert_key k (sort_keys ks) in
      (λ a. ((here.0 a).0, ih.0 (here.0 a).1), λ a. here.1 (a.0, ih.1 a.1))

  All-dedup_after : (k : Bytes) (ks : List Bytes) → P k → All P (dedup_after k ks) ↔ All P ks
  unfolding dedup_after
  All-dedup_after k [] p = (λ a. a, λ a. a)
  All-dedup_after k (x ∷ xs) p = elim (Bool-cases (bytes_eq k x)) [
    | inl e ↦ rw e (
      λ a. (rw (bytes_eq→eq k x e) at p, (All-dedup_after k xs p).0 a),
      λ a. (All-dedup_after k xs p).1 a.1,
    )
    | inr e ↦
        rw e (
          λ a. (a.0, (All-dedup_after x xs a.0).0 a.1),
          λ a. (a.0, (All-dedup_after x xs a.0).1 a.1),
        )
  ]

  All-dedup : (ks : List Bytes) → All P (dedup ks) ↔ All P ks
  unfolding dedup
  All-dedup [] = (λ a. a, λ a. a)
  All-dedup (k ∷ ks) =
      (λ a. (a.0, (All-dedup_after k ks a.0).0 a.1), λ a. (a.0, (All-dedup_after k ks a.0).1 a.1))

  -- The start keys are the keys that the arm of the index produced, none added and none lost.
  pub All-build_start_keys :
      (f : NostrFilter) (selected : SelectedIndex) (direction : ScanDirection)
      → All P (build_start_keys f selected direction)
        ↔ All P (raw_start_keys f selected (le8 (key_bound f direction)))
  unfolding build_start_keys
  All-build_start_keys f selected direction =
      let ks = raw_start_keys f selected (le8 (key_bound f direction)) in
      (
        λ a. (All-sort_keys ks).0 ((All-dedup (sort_keys ks)).0 a),
        λ a. (All-dedup (sort_keys ks)).1 ((All-sort_keys ks).1 a),
      )

Above-trans : (k x : Bytes) (ks : List Bytes) → key_leb k x ≡ true → Above x ks → Above k ks
Above-trans k x ks h a = All-imp (λ y e. key_leb_trans k x y h e) ks a

insert_key-IsSorted : (k : Bytes) (ks : List Bytes) → IsSorted ks → IsSorted (insert_key k ks)
unfolding insert_key
insert_key-IsSorted k [] s = (tt, tt)
insert_key-IsSorted k (x ∷ xs) s = elim (Bool-cases (key_leb k x)) [
  | inl e ↦ rw e ((e, Above-trans k x xs e s.0), s)
  | inr e ↦ rw e (
    (All-insert_key (λ y. key_leb x y ≡ true) k xs).1 (key_leb_total k x e, s.0),
    insert_key-IsSorted k xs s.1,
  )
]

sort_keys-IsSorted : (ks : List Bytes) → IsSorted (sort_keys ks)
unfolding sort_keys
sort_keys-IsSorted [] = tt
sort_keys-IsSorted (k ∷ ks) = insert_key-IsSorted k (sort_keys ks) (sort_keys-IsSorted ks)

strictly_above : (k x : Bytes) → key_leb k x ≡ true → bytes_eq k x ≡ false → key_leb x k ≡ false
strictly_above k x h n = elim (Bool-cases (key_leb x k)) [
  | inr e ↦ e
  | inl e ↦ cc (key_leb_antisym k x h e, bytes_eq_refl k)
]

lt_of_lt_of_le : (k x y : Bytes) → key_leb x k ≡ false → key_leb x y ≡ true → key_leb y k ≡ false
lt_of_lt_of_le k x y h e = elim (Bool-cases (key_leb y k)) [
  | inr g ↦ g
  | inl g ↦ cc (key_leb_trans x y k e g)
]

All-dedup_after-Above :
    (k x : Bytes) (xs : List Bytes)
    → key_leb x k ≡ false
    → Above x xs
    → All (λ y. key_leb y k ≡ false) (dedup_after x xs)
All-dedup_after-Above k x xs low a =
    (All-dedup_after (λ y. key_leb y k ≡ false) x xs low).1
      (All-imp (λ y e. lt_of_lt_of_le k x y low e) xs a)

dedup_after-IsAscending :
    (k : Bytes) (ks : List Bytes) → Above k ks → IsSorted ks → IsAscending (k ∷ dedup_after k ks)
unfolding dedup_after
dedup_after-IsAscending k [] a s = (tt, tt)
dedup_after-IsAscending k (x ∷ xs) a s = elim (Bool-cases (bytes_eq k x)) [
  | inl e ↦ rw e (dedup_after-IsAscending k xs a.1 s.1)
  | inr e ↦ rw e (
      let low = strictly_above k x a.0 e in
      let above : All (λ y. key_leb y k ≡ false) (dedup_after x xs) =
        (All-dedup_after-Above k x xs low s.0) in
      ((low, above), dedup_after-IsAscending x xs s.0 s.1))
]

dedup-IsAscending : (ks : List Bytes) → IsSorted ks → IsAscending (dedup ks)
unfolding dedup
dedup-IsAscending [] s = tt
dedup-IsAscending (k ∷ ks) s = dedup_after-IsAscending k ks s.0 s.1

-- The start keys are strictly ascending, so no prefix is scanned twice.
pub build_start_keys-IsAscending :
    (f : NostrFilter) (selected : SelectedIndex) (direction : ScanDirection)
    → IsAscending (build_start_keys f selected direction)
unfolding build_start_keys
build_start_keys-IsAscending f selected direction =
    dedup-IsAscending (sort_keys (raw_start_keys f selected (le8 (key_bound f direction))))
      (sort_keys-IsSorted (raw_start_keys f selected (le8 (key_bound f direction))))
