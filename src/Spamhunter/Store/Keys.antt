-- ===== src/Spamhunter/Store/Keys.antt =====
-- The foreign keys and the primary keys of the tables that the writer keeps.
pub mod Statements
use mathlib.Core.Path.{subst}
use deepfry.Base.{
  is_some, ℕ, ◌≡◌, ◌∙◌, ap, refl, sym, arith, ◌==◌, true, ◌⊎◌, inl, inr, List, [], ◌∷◌, any, All,
  All-imp,
}
use deepfry.Base.Results.{Result, ok, err, Result-cases, ◌>>=◌}
use deepfry.Base.Words.{Bytes}
use deepfry.Spamhunter.Model.{
  SubScore, Fingerprint, Persist, WriteMsg, score, pubkeys, fingerprints, flush, Tables,
}
use deepfry.Spamhunter.Store.{
  StoreError, has_run, has_pubkey, has_targets, upsert_pubkey, upsert_score, upsert_signal,
  upsert_fingerprint, write_signals, write_pubkeys, write_fingerprints, write, write_all,
  writer_loop,
}
pub use deepfry.Spamhunter.Store.Keys.Statements.{
  IsConsistent, any-upsert, any-upsert_self, has_pubkey-upsert_pubkey, has_pubkey-upsert_self,
  Keeps, upsert_pubkey-IsConsistent, upsert_score-Keeps, upsert_signal-Keeps,
  upsert_fingerprint-Keeps,
}
use deepfry.Spamhunter.Store.Batches.{writer_loop-Written}

module _ {F : Type 0} where
  -- No NaN in a score.
  abbrev pub HasNumbers : Persist F → Type 0
  HasNumbers p = (is_some p.score ≡ true) × All (λ s. is_some s.value ≡ true) p.subscores

  -- What a message needs: the rows of `run` that it names, and numbers.
  abbrev pub IsWritable : WriteMsg F → Tables F → Type 0
  IsWritable (score p) db = (has_run p.run_id db ≡ true) × HasNumbers p
  IsWritable (pubkeys pks) db = Unit
  IsWritable (fingerprints fps) db = All (λ fp. has_run fp.run_id db ≡ true) fps
  IsWritable flush db = Unit

  -- What writing has done, where the messages needed `P`.
  abbrev Wrote : Type 0 → Tables F → Result StoreError (Tables F) → Type 0
  Wrote P db (ok db') = IsConsistent db' × (db'.run ≡ db.run)
  Wrote P db (err e) = ¬ P

  Wrote-back :
      {P Q : Type 0} (db db' : Tables F) (r : Result StoreError (Tables F))
      → db'.run ≡ db.run
      → (P → Q)
      → Wrote Q db' r
      → Wrote P db r
  Wrote-back db db' (ok d) e f (c, r) = (c, r ∙ e)
  Wrote-back db db' (err x) e f n = λ p. n (f p)

  -- A statement, and what follows it where it succeeds.
  Wrote-then :
      {P Q : Type 0} (db : Tables F) (r : Result StoreError (Tables F))
      (next : Tables F → Result StoreError (Tables F))
      → Keeps Q db r
      → (P → Q)
      → ((db' : Tables F)
          → IsConsistent db'
          → db'.run ≡ db.run
          → db'.pubkey ≡ db.pubkey
          → Wrote P db (next db'))
      → Wrote P db (r >>= next)
  Wrote-then db (ok db') next (c, e, k) f g = g db' c e k
  Wrote-then db (err x) next n f g = λ p. n (f p)

  same_targets :
      (id : ℕ) (pk : Bytes) (db db' : Tables F)
      → db'.run ≡ db.run
      → db'.pubkey ≡ db.pubkey
      → has_targets id pk db' ≡ has_targets id pk db
  unfolding has_targets has_run has_pubkey
  same_targets id pk db db' e k = rw (e, k) refl

  write_signals-Wrote :
      {P : Type 0} (p : Persist F) (ss : List (SubScore F)) (db : Tables F)
      → IsConsistent db
      → (P → All (λ s. is_some s.value ≡ true) ss × (has_targets p.run_id p.pubkey db ≡ true))
      → Wrote P db (write_signals p ss db)
  unfolding write_signals
  write_signals-Wrote p [] db c h = (c, refl)
  write_signals-Wrote p (s ∷ ss) db c h =
      Wrote-then db (upsert_signal p s db) (write_signals p ss) (upsert_signal-Keeps p s db c)
        (λ x. ((h x).0.0, (h x).1))
        λ db' c' e k.
          Wrote-back db db' _ e (λ x. x)
            (write_signals-Wrote p ss db' c'
              (λ x. ((h x).0.1, same_targets p.run_id p.pubkey db db' e k ∙ (h x).1)))

  write_pubkeys-Wrote :
      (pks : List Bytes) (db : Tables F)
      → IsConsistent db
      → Wrote Unit db (ok (write_pubkeys pks db))
  unfolding write_pubkeys upsert_pubkey
  write_pubkeys-Wrote [] db c = (c, refl)
  write_pubkeys-Wrote (pk ∷ pks) db c =
      write_pubkeys-Wrote pks (upsert_pubkey pk db) (upsert_pubkey-IsConsistent pk db c)

  -- The pubkey of a row is there, since it is written first.
  targets_after :
      (id : ℕ) (pk : Bytes) (db : Tables F)
      → has_run id db ≡ true
      → has_targets id pk (upsert_pubkey pk db) ≡ true
  unfolding has_targets has_run upsert_pubkey
  targets_after id pk db h = ground (arith, has_pubkey-upsert_self pk db)

  write_fingerprints-Wrote :
      (fps : List Fingerprint) (db : Tables F)
      → IsConsistent db
      → Wrote (All (λ fp. has_run fp.run_id db ≡ true) fps) db (write_fingerprints fps db)
  unfolding write_fingerprints upsert_pubkey has_run
  write_fingerprints-Wrote [] db c = (c, refl)
  write_fingerprints-Wrote (fp ∷ fps) db c =
      let db1 = upsert_pubkey fp.pubkey db in
      Wrote-back db db1 _ refl (λ x. x)
        (Wrote-then db1 (upsert_fingerprint fp db1) (write_fingerprints fps)
          (upsert_fingerprint-Keeps fp db1 (upsert_pubkey-IsConsistent fp.pubkey db c))
          (λ a. targets_after fp.run_id fp.pubkey db a.0)
          λ db' c' e k.
            Wrote-back db1 db' _ e
              (λ a.
                subst (λ rs. All (λ g. any (λ r. r.run_id == g.run_id) rs ≡ true) fps) (sym e) a.1)
              (write_fingerprints-Wrote fps db' c'))

  write-Wrote :
      (msg : WriteMsg F) (db : Tables F)
      → IsConsistent db
      → Wrote (IsWritable msg db) db (write msg db)
  unfolding write upsert_pubkey
  write-Wrote (score p) db c =
      let db1 = upsert_pubkey p.pubkey db in
      let Needs : Type 0 = HasNumbers p × (has_targets p.run_id p.pubkey db1 ≡ true) in
      Wrote-back {Q = Needs} db db1 _ refl (λ q. (q.1, targets_after p.run_id p.pubkey db q.0))
        (Wrote-then db1 (upsert_score p db1) (write_signals p p.subscores)
          (upsert_score-Keeps p db1 (upsert_pubkey-IsConsistent p.pubkey db c)) (λ q. (q.0.0, q.1))
          λ db' c' e k.
            Wrote-back db1 db' _ e (λ x. x)
              (write_signals-Wrote p p.subscores db' c'
                (λ q. (q.0.1, same_targets p.run_id p.pubkey db1 db' e k ∙ q.1))))
  write-Wrote (pubkeys pks) db c = write_pubkeys-Wrote pks db c
  write-Wrote (fingerprints fps) db c = write_fingerprints-Wrote fps db c
  write-Wrote flush db c = (c, refl)

  IsWritable-moved :
      (msg : WriteMsg F) (db db' : Tables F)
      → db'.run ≡ db.run
      → IsWritable msg db
      → IsWritable msg db'
  unfolding has_run
  IsWritable-moved (score p) db db' e h = (ap (any (λ r. r.run_id == p.run_id)) e ∙ h.0, h.1)
  IsWritable-moved (pubkeys pks) db db' e h = tt
  IsWritable-moved (fingerprints fps) db db' e h =
      subst (λ rs. All (λ g. any (λ r. r.run_id == g.run_id) rs ≡ true) fps) (sym e) h
  IsWritable-moved flush db db' e h = tt

  write_all-Wrote :
      (msgs : List (WriteMsg F)) (db : Tables F)
      → IsConsistent db
      → Wrote (All (λ msg. IsWritable msg db) msgs) db (write_all msgs db)
  unfolding write_all
  write_all-Wrote [] db c = (c, refl)
  write_all-Wrote (msg ∷ msgs) db c = elim (Result-cases (write msg db)) [
    | inl (db', e) ↦
        let (c', r) : Wrote (IsWritable msg db) db (ok db') =
          subst (Wrote (IsWritable msg db) db) e (write-Wrote msg db c) in
        subst (Wrote (All (λ m. IsWritable m db) (msg ∷ msgs)) db)
          (sym (ap (λ w. w >>= write_all msgs) e))
          (Wrote-back db db' _ r (λ a. All-imp (λ m. IsWritable-moved m db db' r) msgs a.1)
            (write_all-Wrote msgs db' c'))
    | inr (problem, e) ↦
        let n : ¬ IsWritable msg db =
          subst (Wrote (IsWritable msg db) db) e (write-Wrote msg db c) in
        subst (Wrote (All (λ m. IsWritable m db) (msg ∷ msgs)) db)
          (sym (ap (λ w. w >>= write_all msgs) e)) (λ a. n a.0)
  ]

  -- Whatever the channel holds, on a disk that does not fail, the writer keeps every score,
  -- signal and fingerprint at a run and a pubkey that are in their tables, and it ends with an
  -- error only where a message names a run that is missing or brings a score or a signal that is
  -- NaN.
  pub writer_loop-IsConsistent :
      (queue : List (WriteMsg F)) (db : Tables F)
      → IsConsistent db
      → IsConsistent (writer_loop queue db).0
        × (((writer_loop queue db).1 ≡ ok tt) ⊎ ¬ All (λ msg. IsWritable msg db) queue)
  writer_loop-IsConsistent queue db c =
      let (front, back, split, written, ending) = writer_loop-Written queue db in
      let kept : Wrote (All (λ msg. IsWritable msg db) front) db (ok (writer_loop queue db).0) =
        subst (Wrote (All (λ msg. IsWritable msg db) front) db) written
          (write_all-Wrote front db c) in
      (
        kept.0,
        elim ending [
          | inl (e, _) ↦ inl e
          | inr (_, _, w) ↦ inr (
              subst (Wrote (All (λ msg. IsWritable msg db) queue) db) w
                (write_all-Wrote queue db c))
        ],
      )
