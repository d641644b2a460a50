-- ===== src/Spamhunter/Store/Batches.antt =====
-- The batches of the writer do not show in the tables.
use deepfry.Base.{
  ℕ, zero, suc, ◌≤◌, ◌≡◌, ◌∙◌, ap, refl, sym, arith, ◌⊎◌, inl, inr, List, [], ◌∷◌, ◌++◌, take, drop,
  length, take-append-drop, length-drop,
}
use mathlib.Core.Path.{subst}
use mathlib.Core.List.{append_assoc}
use deepfry.Base.Results.{Result, ok, err, Result-cases, ◌>>=◌}
use deepfry.Spamhunter.Model.{WriteMsg, Tables}
use deepfry.Spamhunter.Store.{StoreError, batch_size, write, write_all, drain, writer_loop}

module _ {F : Type 0} where
  write_all-append :
      (xs ys : List (WriteMsg F)) (db : Tables F)
      → write_all (xs ++ ys) db ≡ (write_all xs db >>= write_all ys)
  unfolding write_all
  write_all-append [] ys db = refl
  write_all-append (x ∷ xs) ys db = elim (Result-cases (write x db)) [
    | inl (db', e) ↦ rw e (write_all-append xs ys db')
    | inr (problem, e) ↦ rw e refl
  ]

  -- What a loop that began with `queue` and `db` has done: the tables hold a front part of the
  -- queue, which is all of it, or the rest has a message that fails.
  abbrev pub Written :
      List (WriteMsg F) → Tables F → Tables F × Result StoreError (Unit {0}) → Type 0
  Written queue db (db', r) =
      (front : List (WriteMsg F)) × (back : List (WriteMsg F)) × (queue ≡ front ++ back)
      × (write_all front db ≡ ok db')
      × (((r ≡ ok tt) × (back ≡ []))
          ⊎ ((e : StoreError) × (r ≡ err e) × (write_all queue db ≡ err e)))

  drain_committed :
      (fuel : ℕ) (x : WriteMsg F) (xs : List (WriteMsg F)) (db db' : Tables F)
      → write_all (take batch_size (x ∷ xs)) db ≡ ok db'
      → drain (suc fuel) (x ∷ xs) db ≡ drain fuel (drop batch_size (x ∷ xs)) db'
  unfolding drain
  drain_committed fuel x xs db db' e = rw (drain, e) refl

  drain_failed :
      (fuel : ℕ) (x : WriteMsg F) (xs : List (WriteMsg F)) (db : Tables F) (e : StoreError)
      → write_all (take batch_size (x ∷ xs)) db ≡ err e
      → drain (suc fuel) (x ∷ xs) db ≡ (db, err e)
  unfolding drain
  drain_failed fuel x xs db e h = rw (drain, h) refl

  -- The first batch and what follows it.
  batch_first :
      (queue : List (WriteMsg F)) (db : Tables F)
      → write_all queue db
        ≡ (write_all (take batch_size queue) db >>= write_all (drop batch_size queue))
  batch_first queue db =
      ap (λ q. write_all q db) (sym (take-append-drop batch_size queue))
      ∙ write_all-append (take batch_size queue) (drop batch_size queue) db

  Written-after :
      (queue : List (WriteMsg F)) (db db' : Tables F)
      (end : Tables F × Result StoreError (Unit {0}))
      → write_all (take batch_size queue) db ≡ ok db'
      → Written (drop batch_size queue) db' end
      → Written queue db end
  Written-after queue db db' end e (front, back, split, written, ending) = (
    take batch_size queue ++ front,
    back,
    sym (take-append-drop batch_size queue)
        ∙ ap (λ q. take batch_size queue ++ q) split
        ∙ sym (append_assoc (take batch_size queue) front back),
    write_all-append (take batch_size queue) front db ∙ ap (λ r. r >>= write_all front) e ∙ written,
    elim ending [
      | inl all ↦ inl all
      | inr (problem, r, w) ↦ inr (
        problem,
        r,
        batch_first queue db ∙ ap (λ r. r >>= write_all (drop batch_size queue)) e ∙ w,
      )
    ],
  )

  Written-failed :
      (queue : List (WriteMsg F)) (db : Tables F) (e : StoreError)
      → write_all (take batch_size queue) db ≡ err e
      → Written queue db (db, err e)
  unfolding write_all
  Written-failed queue db e h = (
    [],
    queue,
    refl,
    refl,
    inr (e, refl, batch_first queue db ∙ ap (λ r. r >>= write_all (drop batch_size queue)) h),
  )

  drain-Written :
      (fuel : ℕ) (queue : List (WriteMsg F)) (db : Tables F)
      → length queue ≤ fuel
      → Written queue db (drain fuel queue db)
  unfolding drain write_all batch_size
  drain-Written zero [] db h = ([], [], refl, refl, inl (refl, refl))
  drain-Written zero (x ∷ xs) db h = absurd (omega arith)
  drain-Written (suc fuel) [] db h = ([], [], refl, refl, inl (refl, refl))
  drain-Written (suc fuel) (x ∷ xs) db h =
      elim (Result-cases (write_all (take batch_size (x ∷ xs)) db)) [
        | inl (db', e) ↦ subst (Written (x ∷ xs) db) (sym (drain_committed fuel x xs db db' e)) (
            Written-after (x ∷ xs) db db' _ e (
              drain-Written fuel (drop batch_size (x ∷ xs)) db'
                (omega (arith, length-drop batch_size (x ∷ xs)))))
        | inr (problem, e) ↦
            subst (Written (x ∷ xs) db) (sym (drain_failed fuel x xs db problem e))
              (Written-failed (x ∷ xs) db problem e)
      ]

  -- Whatever the channel holds, the writer leaves the tables that applying a front part of the
  -- messages one by one gives. That part is all of them, or the writer ends with the error that
  -- applying all of them gives: the batches do not show.
  pub writer_loop-Written :
      (queue : List (WriteMsg F)) (db : Tables F) → Written queue db (writer_loop queue db)
  unfolding writer_loop
  writer_loop-Written queue db = drain-Written (length queue) queue db (omega arith)
