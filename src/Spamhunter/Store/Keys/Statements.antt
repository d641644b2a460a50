-- ===== src/Spamhunter/Store/Keys/Statements.antt =====
-- What one statement of the writer keeps: the foreign keys of the tables.
use mathlib.Core.Path.{subst}
use deepfry.Base.{
  none, some, is_some, ◌∙◌, ℕ, ◌≡◌, refl, sym, arith, Bool, true, Bool-cases, inl, inr, List, [],
  ◌∷◌, any, All, All-imp, if◌then◌else◌, bytes_eq, bytes_eq_refl,
}
use deepfry.Base.Results.{Result, ok, err}
use deepfry.Base.Words.{Bytes}
use mathlib.Core.Bool.{true≢false}
use deepfry.Spamhunter.Model.{F64, SubScore, Fingerprint, Persist, Tables}
use deepfry.Spamhunter.Store.{
  with_real, StoreError, foreign_key, upsert, has_run, has_pubkey, has_targets, upsert_pubkey,
  upsert_score, upsert_signal, upsert_fingerprint, score_row, signal_row, update_score,
  update_signal, update_fingerprint, fingerprint_row,
}

-- The statement keeps what all old rows satisfy, where the new row and the changed one do.
All-upsert :
    {A : Type 0} {P : A → Type 0} (conflicts : A → Bool) (update : A → A) (new : A) (rows : List A)
    → ((row : A) → P row → P (update row))
    → P new
    → All P rows
    → All P (upsert conflicts update new rows)
unfolding upsert
All-upsert conflicts update new [] keep n a = (n, tt)
All-upsert conflicts update new (row ∷ rows) keep n a =
    ground (arith, keep row a.0, All-upsert conflicts update new rows keep n a.1)

pub any-upsert :
    {A : Type 0} (p conflicts : A → Bool) (update : A → A) (new : A) (rows : List A)
    → ((row : A) → p row ≡ true → p (update row) ≡ true)
    → any p rows ≡ true
    → any p (upsert conflicts update new rows) ≡ true
unfolding upsert
any-upsert p conflicts update new [] keep h = cc
any-upsert p conflicts update new (row ∷ rows) keep h =
    ground (arith, keep row, any-upsert p conflicts update new rows keep)

pub any-upsert_self :
    {A : Type 0} (p conflicts : A → Bool) (update : A → A) (new : A) (rows : List A)
    → ((row : A) → conflicts row ≡ true → p (update row) ≡ true)
    → p new ≡ true
    → any p (upsert conflicts update new rows) ≡ true
unfolding upsert
any-upsert_self p conflicts update new [] keep h = ground arith
any-upsert_self p conflicts update new (row ∷ rows) keep h =
    ground (arith, keep row, any-upsert_self p conflicts update new rows keep h)

module _ {F : Type 0} where
  -- Every row that refers to a run and a pubkey finds both.
  pub record IsConsistent (db : Tables F) : Type 0 where
    pub scores : All (λ row. has_targets row.run_id row.pubkey db ≡ true) db.score
    pub signals : All (λ row. has_targets row.run_id row.pubkey db ≡ true) db.signal
    pub prints : All (λ row. has_targets row.run_id row.pubkey db ≡ true) db.fingerprint

  pub has_pubkey-upsert_pubkey :
      (pk other : Bytes) (db : Tables F)
      → has_pubkey other db ≡ true
      → has_pubkey other (upsert_pubkey pk db) ≡ true
  unfolding has_pubkey upsert_pubkey
  has_pubkey-upsert_pubkey pk other db h =
      any-upsert (bytes_eq other) (bytes_eq pk) (λ row. row) pk db.pubkey (λ row e. e) h

  pub has_pubkey-upsert_self :
      (pk : Bytes) (db : Tables F) → has_pubkey pk (upsert_pubkey pk db) ≡ true
  unfolding has_pubkey upsert_pubkey
  has_pubkey-upsert_self pk db =
      any-upsert_self (bytes_eq pk) (bytes_eq pk) (λ row. row) pk db.pubkey (λ row e. e)
        (bytes_eq_refl pk)

  has_targets-upsert_pubkey :
      (pk other : Bytes) (id : ℕ) (db : Tables F)
      → has_targets id other db ≡ true
      → has_targets id other (upsert_pubkey pk db) ≡ true
  unfolding has_targets has_run upsert_pubkey
  has_targets-upsert_pubkey pk other id db h = ground (arith, has_pubkey-upsert_pubkey pk other db)

  pub upsert_pubkey-IsConsistent :
      (pk : Bytes) (db : Tables F) → IsConsistent db → IsConsistent (upsert_pubkey pk db)
  unfolding upsert_pubkey
  upsert_pubkey-IsConsistent pk db c = record {
    scores =
        All-imp (λ row. has_targets-upsert_pubkey pk row.pubkey row.run_id db) db.score c.scores;
    signals =
        All-imp (λ row. has_targets-upsert_pubkey pk row.pubkey row.run_id db) db.signal c.signals;
    prints =
        All-imp (λ row. has_targets-upsert_pubkey pk row.pubkey row.run_id db) db.fingerprint
          c.prints;
  }

  -- What a statement that needs `Q` has done: it has kept all, or `Q` does not hold.
  abbrev pub Keeps : Type 0 → Tables F → Result StoreError (Tables F) → Type 0
  Keeps Q db (ok db') = IsConsistent db' × (db'.run ≡ db.run) × (db'.pubkey ≡ db.pubkey)
  Keeps Q db (err e) = ¬ Q

  -- The foreign keys of a statement.
  guarded :
      (id : ℕ) (pk : Bytes) (db db' : Tables F)
      → (has_targets id pk db ≡ true → Keeps Unit db (ok db'))
      → Keeps
          (has_targets id pk db ≡ true)
          db
          (if has_targets id pk db then ok db' else err foreign_key)
  guarded id pk db db' k = elim (Bool-cases (has_targets id pk db)) [
    | inl e ↦
        subst (λ b. Keeps (has_targets id pk db ≡ true) db (if b then ok db' else err foreign_key))
          (sym e) (k e)
    | inr e ↦
        subst (λ b. Keeps (has_targets id pk db ≡ true) db (if b then ok db' else err foreign_key))
          (sym e) (λ t. true≢false (sym t ∙ e))
  ]

  Keeps-and :
      (P Q : Type 0) (db : Tables F) (r : Result StoreError (Tables F))
      → Keeps Q db r
      → Keeps (P × Q) db r
  Keeps-and P Q db (ok db') k = k
  Keeps-and P Q db (err e) n = λ q. n q.1

  -- The columns that take no NaN.
  with_real-Keeps :
      (Q : Type 0) (db : Tables F) (v : F64 F) (statement : F → Result StoreError (Tables F))
      → ((x : F) → Keeps Q db (statement x))
      → Keeps ((is_some v ≡ true) × Q) db (with_real v statement)
  unfolding with_real
  with_real-Keeps Q db none statement k = λ q. true≢false (sym q.0)
  with_real-Keeps Q db (some x) statement k = Keeps-and _ Q db (statement x) (k x)

  pub upsert_score-Keeps :
      (p : Persist F) (db : Tables F)
      → IsConsistent db
      → Keeps
          ((is_some p.score ≡ true) × (has_targets p.run_id p.pubkey db ≡ true))
          db
          (upsert_score p db)
  unfolding upsert_score has_targets has_run has_pubkey score_row update_score
  upsert_score-Keeps p db c = with_real-Keeps _ db p.score _ λ x.
      guarded p.run_id p.pubkey db _ λ e. (
        record {
          scores = All-upsert _ (update_score p x) (score_row p x) db.score (λ row h. h) e c.scores;
          signals = c.signals;
          prints = c.prints;
        },
        refl,
        refl,
      )

  pub upsert_signal-Keeps :
      (p : Persist F) (s : SubScore F) (db : Tables F)
      → IsConsistent db
      → Keeps
          ((is_some s.value ≡ true) × (has_targets p.run_id p.pubkey db ≡ true))
          db
          (upsert_signal p s db)
  unfolding upsert_signal has_targets has_run has_pubkey signal_row update_signal
  upsert_signal-Keeps p s db c = with_real-Keeps _ db s.value _ λ x.
      guarded p.run_id p.pubkey db _ λ e. (
        record {
          scores = c.scores;
          signals =
              All-upsert _ (update_signal s x) (signal_row p s x) db.signal (λ row h. h) e
                c.signals;
          prints = c.prints;
        },
        refl,
        refl,
      )

  pub upsert_fingerprint-Keeps :
      (fp : Fingerprint) (db : Tables F)
      → IsConsistent db
      → Keeps (has_targets fp.run_id fp.pubkey db ≡ true) db (upsert_fingerprint fp db)
  unfolding upsert_fingerprint has_targets has_run has_pubkey fingerprint_row update_fingerprint
  upsert_fingerprint-Keeps fp db c = guarded fp.run_id fp.pubkey db _ λ e. (
    record {
      scores = c.scores;
      signals = c.signals;
      prints =
          All-upsert _ (update_fingerprint fp) (fingerprint_row fp) db.fingerprint (λ row h. h) e
            c.prints;
    },
    refl,
    refl,
  )
