-- ===== src/Query/Merge/Advance.antt =====
-- `advance_stream`: a stream gives its next entry, and is refilled when its buffer is used up.
use deepfry.Base.{
  ℕ, zero, suc, ◌+◌, ◌≤◌, ◌≡◌, inl, inr, refl, sym, ap, ◌∙◌, arith, Bool, true, false, Bool-cases,
  none, some, List, [], ◌∷◌, ◌++◌, All, get_elem?, length, drop,
}
use deepfry.Base.Results.{Result, ok}
use deepfry.Base.Words.{Bytes}
use deepfry.Lmdb.Scan.{Hit}
use deepfry.Query.Merge.{Triple, StreamState, Floor, needs_refill, peek, advance_stream}
use deepfry.Query.Merge.Heap.{IsNotOlder}
use deepfry.Query.Merge.Refill.{IsSource, content, future, future_of, refill_stream_lem}

-- Newest first, and on a tie the higher levId first.
abbrev pub IsNewestFirst : List Triple → Type 0
IsNewestFirst [] = Unit
IsNewestFirst (t ∷ ts) = All (λ (u : Triple). IsNotOlder t u) ts × IsNewestFirst ts

drop-get :
    (xs : List Triple) (n : ℕ) (t : Triple)
    → get_elem? xs n ≡ some t
    → drop n xs ≡ t ∷ drop (n + 1) xs
drop-get [] n t e = cc
drop-get (x ∷ xs) zero t e = cc
drop-get (x ∷ xs) (suc n) t e =
    let same : suc n + 1 ≡ suc (n + 1) = omega arith in rw same (drop-get xs n t e)

drop-get_none :
    (xs : List Triple) (n : ℕ) → get_elem? xs n ≡ none → (drop n xs ≡ []) × (length xs ≤ n)
drop-get_none [] zero e = (refl, omega arith)
drop-get_none [] (suc n) e = (refl, omega arith)
drop-get_none (x ∷ xs) zero e = absurd cc
drop-get_none (x ∷ xs) (suc n) e = let r = drop-get_none xs n e in (r.0, omega (arith, r.1))

drop_past : (xs : List Triple) (n : ℕ) → length xs ≤ n → drop n xs ≡ []
drop_past [] zero h = refl
drop_past [] (suc n) h = refl
drop_past (x ∷ xs) zero h = absurd (omega arith)
drop_past (x ∷ xs) (suc n) h = drop_past xs n (omega arith)

module _ {E : Type 0} (scan : Bytes → Bool → ℕ → Result E (List Hit × Bytes × Bool))
    (batch_size since : ℕ) (floor : Floor) (rest : Bytes → Bool → List Hit)
    (At : Bytes → Bool → Type 0) where
  -- What a stream has to give, newest first, starts in its buffer, and its scan can go on.
  abbrev pub IsReady : StreamState → Type 0
  IsReady s =
      (needs_refill s ≡ false)
      × At s.resume_key s.first_batch
      × IsSource scan batch_size rest At s.prefix
      × IsNewestFirst (content scan batch_size since floor rest At s)

  abbrev given : StreamState → List Triple
  given s = content scan batch_size since floor rest At s

  pub content-peek-none : (s : StreamState) → needs_refill s ≡ false → peek s ≡ none → given s ≡ []
  unfolding needs_refill peek
  content-peek-none s full e =
      let d = drop-get_none s.buffer s.buf_pos e in
      let x : s.exhausted ≡ true = ground (arith, d.1) in simp (d.0, x) refl

  abbrev pub consumed : StreamState → StreamState
  consumed s = record s { buf_pos = s.buf_pos + 1 }

  pub content-peek :
      (s : StreamState) (t : Triple) → peek s ≡ some t → given s ≡ t ∷ given (consumed s)
  unfolding peek
  content-peek s t e =
      ap (λ (zs : List Triple). zs ++ future_of scan batch_size since floor rest At s s.exhausted)
        (drop-get s.buffer s.buf_pos t e)

  used_up :
      (s : StreamState)
      → needs_refill s ≡ true
      → (s.exhausted ≡ false) × (given s ≡ future scan batch_size since floor rest At s)
  unfolding needs_refill
  used_up s e =
      let x : s.exhausted ≡ false = ground arith in
      let d : drop s.buf_pos s.buffer ≡ [] = drop_past s.buffer s.buf_pos (ground arith) in
      (x, simp (d, x) refl)

  -- A ready stream gives its head, and is ready again.
  pub advance_stream_lem :
      (s : StreamState) (t : Triple)
      → IsReady s
      → peek s ≡ some t
      → (s' : StreamState) × (advance_stream scan batch_size since floor s ≡ ok s')
        × IsReady s'
        × (given s ≡ t ∷ given s')
  unfolding advance_stream
  advance_stream_lem s t (full, at, source, newest) e =
      let split = content-peek s t e in
      let newest' : IsNewestFirst (t ∷ given (consumed s)) = rw split at newest in
      elim (Bool-cases (needs_refill (consumed s))) [
        | inl low ↦
            let u = used_up (consumed s) low in
            let (s', run, (same, full', at', prefix')) =
              refill_stream_lem scan batch_size since floor rest At (consumed s) source u.0 at in
            let split' : given s ≡ t ∷ given s' =
              split ∙ ap (λ (ts : List Triple). t ∷ ts) (u.1 ∙ sym same) in
            let kept : IsNewestFirst (t ∷ given s') = rw split' at newest in
            (s', rw low run, (full', at', rw prefix' source, kept.1), split')
        | inr more ↦ (consumed s, rw more refl, (more, at, source, newest'.1), split)
      ]
