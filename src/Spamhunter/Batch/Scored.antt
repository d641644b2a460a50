-- ===== src/Spamhunter/Batch/Scored.antt =====
-- A batch run gives every pubkey of the table a score.
use mathlib.Core.Path.{subst}
use deepfry.Base.{
  ℕ, ◌==◌, ◌≡◌, ◌∙◌, ap, refl, sym, arith, ◌&&◌, Bool, true, false, none, some, inl, inr, List, [],
  ◌∷◌, ◌++◌, map, any, All, bytes_eq, bytes_eq_refl, if◌then◌else◌,
}
use mathlib.Core.List.{append-nil}
use deepfry.Base.Results.{Result, ok, err, err-ok, ◌>>=◌}
use deepfry.Base.Words.{Bytes}
use deepfry.Spamhunter.Model.{F64, Score, SubScore, Persist, score, Tables}
use deepfry.Spamhunter.Store.{
  with_real, StoreError, foreign_key, has_targets, same_signal, update_signal, signal_row, upsert,
  upsert_pubkey, upsert_score, upsert_signal, score_row, same_score, update_score, write_signals,
  write, write_all, writer_loop,
}
use deepfry.Spamhunter.Store.Keys.{
  any-upsert, any-upsert_self, IsConsistent, IsWritable, writer_loop-IsConsistent,
}
use deepfry.Spamhunter.Store.Batches.{writer_loop-Written}

module _ {F : Type 0} where
  unfoldable pub has_row : ℕ → Bytes → List (Score F) → Bool
  has_row id pk rows = any (λ row. row.run_id == id && bytes_eq row.pubkey pk) rows

  abbrev pub has_score : ℕ → Bytes → Tables F → Bool
  has_score id pk db = has_row id pk db.score

  -- A statement that succeeds leaves `T` of its tables.
  abbrev Leaves : (Tables F → Type 0) → Result StoreError (Tables F) → Type 0
  Leaves T (ok db) = T db
  Leaves T (err e) = Unit

  Leaves-then :
      (T U : Tables F → Type 0) (r : Result StoreError (Tables F))
      (next : Tables F → Result StoreError (Tables F))
      → Leaves T r
      → ((db : Tables F) → T db → Leaves U (next db))
      → Leaves U (r >>= next)
  Leaves-then T U (ok db) next t f = f db t
  Leaves-then T U (err e) next t f = tt

  Leaves-imp :
      {T U : Tables F → Type 0}
      → ((db : Tables F) → T db → U db)
      → (r : Result StoreError (Tables F)) → Leaves T r
      → Leaves U r
  Leaves-imp f (ok db) t = f db t
  Leaves-imp f (err e) t = tt

  Leaves-guard :
      (T : Tables F → Type 0) (b : Bool) (db : Tables F)
      → T db
      → Leaves T (if b then ok db else err foreign_key)
  Leaves-guard T true db t = t
  Leaves-guard T false db t = tt

  Leaves-real :
      (T : Tables F → Type 0) (v : F64 F) (statement : F → Result StoreError (Tables F))
      → ((x : F) → Leaves T (statement x))
      → Leaves T (with_real v statement)
  unfolding with_real
  Leaves-real T none statement k = tt
  Leaves-real T (some x) statement k = k x

  write_signals-score :
      (p : Persist F) (ss : List (SubScore F)) (db : Tables F)
      → Leaves (λ db'. db'.score ≡ db.score) (write_signals p ss db)
  unfolding write_signals upsert_signal
  write_signals-score p [] db = refl
  write_signals-score p (s ∷ ss) db =
      Leaves-then (λ d. d.score ≡ db.score) (λ d. d.score ≡ db.score) _ _
        (Leaves-real (λ d. d.score ≡ db.score) s.value _
          λ x.
            Leaves-guard (λ d. d.score ≡ db.score) (has_targets p.run_id p.pubkey db)
              (record db {
                signal = upsert (same_signal p s) (update_signal s x) (signal_row p s x) db.signal;
              })
              refl)
        λ d e.
          subst (λ rows. Leaves (λ d'. d'.score ≡ rows) (write_signals p ss d)) e
            (write_signals-score p ss d)

  -- Every score that was there stays, and that of the message is there.
  abbrev Scores : ℕ → Bytes → Persist F → Tables F → Tables F → Type 0
  Scores id pk p db db' =
      (has_score id pk db ≡ true → has_score id pk db' ≡ true)
      × (has_score p.run_id p.pubkey db' ≡ true)

  upsert_score-Scores :
      (id : ℕ) (pk : Bytes) (p : Persist F) (db : Tables F)
      → Leaves (Scores id pk p db) (upsert_score p db)
  unfolding upsert_score has_row score_row update_score same_score
  upsert_score-Scores id pk p db = Leaves-real (Scores id pk p db) p.score _ λ x.
      Leaves-guard (Scores id pk p db) (has_targets p.run_id p.pubkey db)
        (record db { score = upsert (same_score p) (update_score p x) (score_row p x) db.score })
        (
          any-upsert _ (same_score p) (update_score p x) (score_row p x) db.score (λ row h. h),
          any-upsert_self _ (same_score p) (update_score p x) (score_row p x) db.score (λ row h. h)
              (ground (arith, bytes_eq_refl p.pubkey)),
        )

  write-Scores :
      (id : ℕ) (pk : Bytes) (p : Persist F) (db : Tables F)
      → Leaves (Scores id pk p db) (write (score p) db)
  unfolding write upsert_pubkey
  write-Scores id pk p db =
      Leaves-then (Scores id pk p db) (Scores id pk p db) _ _
        (upsert_score-Scores id pk p (upsert_pubkey p.pubkey db))
        λ d s.
          Leaves-imp {T = λ d'. d'.score ≡ d.score}
            (λ d' e. (λ h. ap (has_row id pk) e ∙ s.0 h, ap (has_row p.run_id p.pubkey) e ∙ s.1))
            (write_signals p p.subscores d) (write_signals-score p p.subscores d)

  Leaves-all :
      {X : Type 0} (T : X → Tables F → Type 0) (r : Result StoreError (Tables F))
      → ((x : X) → Leaves (T x) r)
      → Leaves (λ db. (x : X) → T x db) r
  Leaves-all T (ok db) f = f
  Leaves-all T (err e) f = tt

  -- The scores of all messages are there after them, with those that were there.
  abbrev AllScores : List (Persist F) → Tables F → Tables F → Type 0
  AllScores ps db db' =
      ((k : ℕ × Bytes) → has_score k.0 k.1 db ≡ true → has_score k.0 k.1 db' ≡ true)
      × All (λ p. has_score p.run_id p.pubkey db' ≡ true) ps

  write_all-AllScores :
      (ps : List (Persist F)) (db : Tables F)
      → Leaves (AllScores ps db) (write_all (map score ps) db)
  unfolding write_all
  write_all-AllScores [] db = (λ k h. h, tt)
  write_all-AllScores (p ∷ ps) db =
      Leaves-then (λ d. (k : ℕ × Bytes) → Scores k.0 k.1 p db d) (AllScores (p ∷ ps) db)
        (write (score p) db) (write_all (map score ps))
        (Leaves-all (λ k. Scores k.0 k.1 p db) _ (λ k. write-Scores k.0 k.1 p db))
        λ d s.
          Leaves-imp {T = AllScores ps d}
            (λ d' a. (
              λ k h. a.0 k ((s k).0 h),
              (a.0 (p.run_id, p.pubkey) ((s (p.run_id, p.pubkey)).1), a.1),
            ))
            (write_all (map score ps) d) (write_all-AllScores ps d)

  -- The loop, where no run is missing and no number is NaN.
  pub writer_loop-AllScores :
      (ps : List (Persist F)) (db : Tables F)
      → IsConsistent db
      → All (λ msg. IsWritable msg db) (map score ps)
      → ((writer_loop (map score ps) db).1 ≡ ok tt)
        × All (λ p. has_score p.run_id p.pubkey (writer_loop (map score ps) db).0 ≡ true) ps
  writer_loop-AllScores ps db c runs =
      let queue = map score ps in
      let (front, back, split, written, ending) = writer_loop-Written queue db in
      elim (writer_loop-IsConsistent queue db c).1 [
        | inr missing ↦ absurd (missing runs)
        | inl fine ↦ (
          fine,
          elim ending [
            | inr (x, r, w) ↦ absurd (err-ok (sym r ∙ fine))
            | inl (r, rest) ↦
                let whole : queue ≡ front = split ∙ ap (λ z. front ++ z) rest ∙ append-nil front in
                let all : write_all queue db ≡ ok (writer_loop queue db).0 =
                  ap (λ q. write_all q db) whole ∙ written in
                (subst (Leaves (AllScores ps db)) all (write_all-AllScores ps db)).1
          ],
        )
      ]
