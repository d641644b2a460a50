-- ===== src/Spamhunter/Enumerate/Covers.antt =====
-- What it means that the pubkeys before a cursor are stored, and what keeps it.
use deepfry.Base.{
  ℕ, ◌≡◌, arith, Bool, true, Option, none, some, Option-cases, Bool-cases, ◌⊎◌, inl, inr, List, [],
  ◌∷◌, map, any, All, keep_if, bytes_eq, bytes_eq→eq,
}
use mathlib.Core.Path.{subst}
use deepfry.Base.Words.{Bytes}
use deepfry.Spamhunter.Model.{Run, Tables}
use deepfry.Spamhunter.Store.{has_pubkey, upsert_pubkey, write_pubkeys}
use deepfry.Spamhunter.Store.Keys.{has_pubkey-upsert_pubkey, has_pubkey-upsert_self}
use deepfry.Spamhunter.Store.Runs.{update_row, latest}
use deepfry.Spamhunter.Enumerate.{is_valid_pubkey}

-- `pks` has `pk`.
unfoldable pub contains : Bytes → List Bytes → Bool
contains pk pks = any (bytes_eq pk) pks

pub contains-keep_if :
    (p : Bytes → Bool) (pk : Bytes) (pks : List Bytes)
    → p pk ≡ true
    → contains pk pks ≡ true
    → contains pk (keep_if p pks) ≡ true
unfolding contains
contains-keep_if p pk [] v h = cc
contains-keep_if p pk (x ∷ xs) v h = ground (arith, bytes_eq→eq pk x, contains-keep_if p pk xs v)

module _ {F : Type 0} where
  pub has_pubkey-write_pubkeys :
      (pk : Bytes) (pks : List Bytes) (db : Tables F)
      → has_pubkey pk db ≡ true
      → has_pubkey pk (write_pubkeys pks db) ≡ true
  unfolding write_pubkeys
  has_pubkey-write_pubkeys pk [] db h = h
  has_pubkey-write_pubkeys pk (x ∷ xs) db h =
      has_pubkey-write_pubkeys pk xs (upsert_pubkey x db) (has_pubkey-upsert_pubkey x pk db h)

  pub has_pubkey-written :
      (pk : Bytes) (pks : List Bytes) (db : Tables F)
      → contains pk pks ≡ true
      → has_pubkey pk (write_pubkeys pks db) ≡ true
  unfolding write_pubkeys contains
  has_pubkey-written pk [] db h = cc
  has_pubkey-written pk (x ∷ xs) db h = elim (Bool-cases (bytes_eq pk x)) [
    | inl same ↦
        let e : pk ≡ x = bytes_eq→eq pk x same in
        has_pubkey-write_pubkeys pk xs (upsert_pubkey x db)
          (subst (λ y. has_pubkey pk (upsert_pubkey y db) ≡ true) e (has_pubkey-upsert_self pk db))
    | inr other ↦ has_pubkey-written pk xs (upsert_pubkey x db) (ground arith)
  ]

  -- Every well-formed pubkey of `P` is stored.
  abbrev pub Covers : (Bytes → Type 0) → Tables F → Type 0
  Covers P db = (pk : Bytes) → is_valid_pubkey pk ≡ true → P pk → has_pubkey pk db ≡ true

  -- What is stored or will be once `pks` are.
  abbrev pub Held : (Bytes → Type 0) → List Bytes → Tables F → Type 0
  Held P pks db =
      (pk : Bytes)
      → is_valid_pubkey pk ≡ true
      → P pk
      → (has_pubkey pk db ≡ true) ⊎ (contains pk pks ≡ true)

  abbrev pub AllStored : List Bytes → Tables F → Type 0
  AllStored pks db = (pk : Bytes) → contains pk pks ≡ true → has_pubkey pk db ≡ true

  -- The table of pubkeys only grows, and no row of `run` changes.
  abbrev pub Grows : Tables F → Tables F → Type 0
  Grows db db' =
      (db'.run ≡ db.run) × ((pk : Bytes) → has_pubkey pk db ≡ true → has_pubkey pk db' ≡ true)

  pub Grows-Held :
      {P : Bytes → Type 0} (pks : List Bytes) (db db' : Tables F)
      → Grows db db'
      → Held P pks db
      → Held P pks db'
  Grows-Held pks db db' (e, g) k =
      λ pk v p. elim (k pk v p) [ inl a ↦ inl (g pk a) | inr b ↦ inr b ]

  pub Held-Covers :
      {P : Bytes → Type 0} (pks : List Bytes) (db : Tables F)
      → AllStored pks db
      → Held P pks db
      → Covers P db
  Held-Covers pks db a k = λ pk v p. elim (k pk v p) [ inl c ↦ c | inr c ↦ a pk c ]

-- The pubkeys before a cursor, where `Before c` are those that the listing has up to `c`.
abbrev pub Past : (Bytes → Bytes → Type 0) → Option Bytes → Bytes → Type 0
Past Before none pk = ⊥
Past Before (some c) pk = Before c pk

-- The pubkeys that the listing has up to the end of a page.
abbrev pub UpTo : (Bytes → Bytes → Type 0) → (Bytes → Type 0) → Option Bytes → Bytes → Type 0
UpTo Before Listed none pk = Listed pk
UpTo Before Listed (some c) pk = Before c pk

module _ (Q : Option Bytes → Type 0) where
  pub All-update_row :
      (id : ℕ) (change : Run → Run) (rows : List Run)
      → ((r : Run) → Q r.last_cursor → Q ((change r).last_cursor))
      → All (λ r. Q r.last_cursor) rows
      → All (λ r. Q r.last_cursor) (map (update_row id change) rows)
  unfolding update_row
  All-update_row id change [] keep a = tt
  All-update_row id change (r ∷ rs) keep a =
      ground (arith, keep r, All-update_row id change rs keep a.1)

  latest-cases :
      (x r : Run) (xs : List Run) → latest (x ∷ xs) ≡ some r → (x ≡ r) ⊎ (latest xs ≡ some r)
  unfolding latest
  latest-cases x r xs e = elim (Option-cases (latest xs)) [
    | inl none_before ↦ ground arith
    | inr (q, f) ↦ ground arith
  ]

  pub latest-Q :
      (rows : List Run) (r : Run)
      → All (λ r. Q r.last_cursor) rows
      → latest rows ≡ some r
      → Q r.last_cursor
  unfolding latest
  latest-Q [] r a e = cc
  latest-Q (x ∷ xs) r a e = elim (latest-cases x r xs e) [
    | inl same ↦ subst (λ q. Q q.last_cursor) same a.0
    | inr later ↦ latest-Q xs r a.1 later
  ]
