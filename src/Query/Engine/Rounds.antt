-- ===== src/Query/Engine/Rounds.antt =====
-- The rounds of a query: they end, and what each round keeps holds of the result.
use deepfry.Base.{
  List, sym, ap, ◌∙◌, ℕ, zero, suc, ◌+◌, ◌<◌, ◌≤◌, ◌≡◌, ◌⊎◌, inl, inr, refl, arith, Bool, true,
  false, Bool-cases, ◌||◌, leb, Option, some, is_empty, length, if◌then◌else◌,
}
use deepfry.Base.Results.{ok, err, Result-cases, ok-injective, err-ok}
use deepfry.Lmdb.Heed.{Heed}
use deepfry.Lmdb.Payload.{Codecs, DecodedEvent}
use deepfry.Query.Filter.{NostrFilter}
use deepfry.Query.Merge.{Triple}
use deepfry.Query.Engine.{
  lmdb, max_rounds, position_eq, effective_limit, last_position, past_stalled, filtered_batch,
  round_keys, State, Outcome, merge_round, absorb, scanned, page_of, decide, after_merge, round,
  rounds_from,
}
use deepfry.Query.Engine.Steps.{
  round_empty, round_fails, round_merges, after_merge-err, after_merge-ok, rounds_from_ends,
  rounds_from_goes, hydration, pushed_state, absorb_nothing, absorb_pairs, absorb_fails,
}

module _ (h : Heed) (c : Codecs) (env : h.Env) (now batch_size : ℕ) (f : NostrFilter) where
  abbrev Out : Type 0
  Out = Outcome h c env now batch_size f

  abbrev St : Type 0
  St = State h c env now batch_size f

  -- `Q` of the result of a round that ends the loop, `J` of the state that it goes on with.
  abbrev pub Gives : (Out → Type 0) → (St → Type 0) → Out ⊎ St → Type 0
  Gives Q J (inl outcome) = Q outcome
  Gives Q J (inr s) = J s

  module _ (Q : Out → Type 0) (J : St → Type 0) where
    if-Gives :
        (b : Bool) (x y : Out ⊎ St) → Gives Q J x → Gives Q J y → Gives Q J (if b then x else y)
    if-Gives true x y p q = p
    if-Gives false x y p q = q

    -- What ends the loop in a state that was scanned.
    pub decide-Gives :
        (last_merged : Option (ℕ × ℕ)) (s : St)
        → (leb (effective_limit f) (length s.valid) || (s.exhausted || leb max_rounds s.rounds)
              ≡ true
            → Q (page_of h c env now batch_size f s))
        → (leb (effective_limit f) (length s.valid) || (s.exhausted || leb max_rounds s.rounds)
              ≡ false
            → position_eq last_merged s.round_boundary ≡ true
            → Q (
                page_of h c env now batch_size f
                  (record s { deepest_scanned = past_stalled last_merged s.deepest_scanned })))
        → (leb (effective_limit f) (length s.valid) || (s.exhausted || leb max_rounds s.rounds)
              ≡ false
            → position_eq last_merged s.round_boundary ≡ false
            → J (record s { round_boundary = last_merged }))
        → Gives Q J (decide h c env now batch_size f last_merged s)
    unfolding decide
    decide-Gives last_merged s stops stalls goes =
        elim (Bool-cases
          (leb (effective_limit f) (length s.valid) || (s.exhausted || leb max_rounds s.rounds))) [
            | inl e ↦ rw e (stops e)
            | inr e ↦ elim (Bool-cases (position_eq last_merged s.round_boundary)) [
              | inl p ↦ rw (e, p) (stalls e p)
              | inr p ↦ rw (e, p) (goes e p)
            ]
          ]

    -- What a round comes to, by where it ends.
    pub round-Gives :
        (s : St)
        → (is_empty (round_keys f s.round_boundary) ≡ true → Q (page_of h c env now batch_size f s))
        → ((e : _)
            → merge_round h c env now batch_size f s.round_boundary ≡ err e
            → Q (err (lmdb e), s.cache))
        → ((batch : _) (e : _)
            → merge_round h c env now batch_size f s.round_boundary ≡ ok batch
            → (absorb h c env now batch_size f batch s).0 ≡ err e
            → Q (err e, (absorb h c env now batch_size f batch s).1))
        → ((batch : _) (pushed : St)
            → merge_round h c env now batch_size f s.round_boundary ≡ ok batch
            → (absorb h c env now batch_size f batch s).0 ≡ ok pushed
            → Gives Q J (
                decide h c env now batch_size f
                  (last_position batch)
                  (scanned h c env now batch_size f batch pushed)))
        → Gives Q J (round h c env now batch_size f s)
    round-Gives s none_left fails breaks goes =
        elim (Bool-cases (is_empty (round_keys f s.round_boundary))) [
          | inl e ↦ rw (round_empty h c env now batch_size f s e) (none_left e)
          | inr n ↦ elim (Result-cases (merge_round h c env now batch_size f s.round_boundary)) [
            | inr (e, m) ↦ rw (round_fails h c env now batch_size f s e n m) (fails e m)
            | inl (batch, m) ↦ elim (Result-cases (absorb h c env now batch_size f batch s).0) [
              | inr (e, a) ↦
                  rw
                    (
                      round_merges h c env now batch_size f s batch n m,
                      after_merge-err h c env now batch_size f batch s e a,
                    )
                    (breaks batch e m a)
              | inl (pushed, a) ↦
                  rw
                    (
                      round_merges h c env now batch_size f s batch n m,
                      after_merge-ok h c env now batch_size f batch s pushed a,
                    )
                    (goes batch pushed m a)
            ]
          ]
        ]

  Step-cases : (x : Out ⊎ St) → ((o : Out) × (x ≡ inl o)) ⊎ ((s : St) × (x ≡ inr s))
  Step-cases (inl o) = inl (o, refl)
  Step-cases (inr s) = inr (s, refl)

  -- More fuel changes nothing.
  pub rounds_from_more :
      (n m : ℕ) (s : St) (o : Out)
      → n ≤ m
      → rounds_from h c env now batch_size f n s ≡ some o
      → rounds_from h c env now batch_size f m s ≡ some o
  rounds_from_more zero m s o le e = absurd (unfold rounds_from in cc)
  rounds_from_more (suc n) zero s o le e = absurd (omega arith)
  rounds_from_more (suc n) (suc m) s o le e = elim (Step-cases (round h c env now batch_size f s)) [
    | inl (p, r) ↦
        rounds_from_ends h c env now batch_size f m s p r
        ∙ sym (rounds_from_ends h c env now batch_size f n s p r)
        ∙ e
    | inr (t, r) ↦
        rounds_from_goes h c env now batch_size f m s t r
        ∙ rounds_from_more n m t o (omega arith)
            (sym (rounds_from_goes h c env now batch_size f n s t r) ∙ e)
  ]

  module _ (Q : Out → Type 0) (K : ℕ → St → Type 0) where
    -- Where a round keeps `K` for the rounds that are left, and the loop is not left with none of
    -- them, it gives a result with `Q`.
    pub rounds_from_lem :
        ((s : St) → K 0 s → ⊥)
        → ((n : ℕ) (s : St) → K (suc n) s → Gives Q (K n) (round h c env now batch_size f s))
        → (n : ℕ) (s : St) → K n s
        → (outcome : Out) × (rounds_from h c env now batch_size f n s ≡ some outcome) × Q outcome
    rounds_from_lem never keeps zero s k = absurd (never s k)
    rounds_from_lem never keeps (suc n) s k = elim (Step-cases (round h c env now batch_size f s)) [
      | inl (o, e) ↦ (o, rounds_from_ends h c env now batch_size f n s o e, rw e at (keeps n s k))
      | inr (t, e) ↦
          rw (rounds_from_goes h c env now batch_size f n s t e)
            (rounds_from_lem never keeps n t (rw e at (keeps n s k)))
    ]

  -- What a round pushed.
  pub absorb-cases :
      (batch : List Triple) (s pushed : St)
      → (absorb h c env now batch_size f batch s).0 ≡ ok pushed
      → (s ≡ pushed)
        ⊎ ((pairs : List (ℕ × DecodedEvent)) × ((hydration h c env now batch_size f batch s).0
              ≡ ok pairs)
            × (pushed_state h c env now batch_size f batch pairs s ≡ pushed))
  absorb-cases batch s pushed e =
      elim (Bool-cases (is_empty (filtered_batch s.round_boundary batch))) [
        | inl t ↦ inl (
            ok-injective
              (sym (ap (λ x. x.0) (absorb_nothing h c env now batch_size f batch s t)) ∙ e))
        | inr n ↦ elim (Result-cases (hydration h c env now batch_size f batch s).0) [
          | inl (pairs, g) ↦ inr (
            pairs,
            g,
            ok-injective
                (sym (ap (λ x. x.0) (absorb_pairs h c env now batch_size f batch s pairs n g)) ∙ e),
          )
          | inr (x, g) ↦ absurd (
              err-ok
                (sym (ap (λ x. x.0) (absorb_fails h c env now batch_size f batch s x n g)) ∙ e))
        ]
      ]

  -- The rounds that are left reach `max_rounds`, and the loop stops before them.
  abbrev IsBounded : ℕ → St → Type 0
  IsBounded n s = (max_rounds ≤ s.rounds + n) × (s.rounds < max_rounds)

  module _ (Q : Out → Type 0) (J : St → Type 0) where
    decide-IsBounded :
        (n : ℕ) (last_merged : Option (ℕ × ℕ)) (s : St)
        → max_rounds ≤ s.rounds + n
        → Gives Q J (decide h c env now batch_size f last_merged s)
        → Gives Q (λ t. J t × IsBounded n t) (decide h c env now batch_size f last_merged s)
    unfolding decide
    decide-IsBounded n last_merged s b g =
        elim (Bool-cases
          (leb (effective_limit f) (length s.valid) || (s.exhausted || leb max_rounds s.rounds))) [
            | inl e ↦ rw e (rw e at g)
            | inr e ↦ elim (Bool-cases (position_eq last_merged s.round_boundary)) [
              | inl p ↦ rw (e, p) (rw (e, p) at g)
              | inr p ↦ rw (e, p) (rw (e, p) at g, (b, ground arith))
            ]
          ]

    absorb-rounds :
        (batch : List Triple) (s pushed : St)
        → (absorb h c env now batch_size f batch s).0 ≡ ok pushed
        → pushed.rounds ≡ s.rounds
    absorb-rounds batch s pushed e = elim (absorb-cases batch s pushed e) [
      | inl p ↦ ap (λ t. t.rounds) (sym p)
      | inr (pairs, g, p) ↦ ap (λ t. t.rounds) (sym p)
    ]

    after_merge-IsBounded :
        (n : ℕ) (batch : List Triple) (s : St)
        → max_rounds ≤ s.rounds + suc n
        → Gives Q J (after_merge h c env now batch_size f batch s)
        → Gives Q (λ t. J t × IsBounded n t) (after_merge h c env now batch_size f batch s)
    unfolding scanned
    after_merge-IsBounded n batch s b g =
        elim (Result-cases (absorb h c env now batch_size f batch s).0) [
          | inr (e, a) ↦
              rw (after_merge-err h c env now batch_size f batch s e a)
                (rw (after_merge-err h c env now batch_size f batch s e a) at g)
          | inl (pushed, a) ↦
              let more : max_rounds ≤ (scanned h c env now batch_size f batch pushed).rounds + n =
                omega (arith, absorb-rounds batch s pushed a) in
              rw (after_merge-ok h c env now batch_size f batch s pushed a) (
                decide-IsBounded n (last_position batch)
                  (scanned h c env now batch_size f batch pushed) more
                  (rw (after_merge-ok h c env now batch_size f batch s pushed a) at g))
        ]

    round-IsBounded :
        (n : ℕ) (s : St)
        → max_rounds ≤ s.rounds + suc n
        → Gives Q J (round h c env now batch_size f s)
        → Gives Q (λ t. J t × IsBounded n t) (round h c env now batch_size f s)
    round-IsBounded n s b g = elim (Bool-cases (is_empty (round_keys f s.round_boundary))) [
      | inl e ↦
          rw (round_empty h c env now batch_size f s e)
            (rw (round_empty h c env now batch_size f s e) at g)
      | inr z ↦ elim (Result-cases (merge_round h c env now batch_size f s.round_boundary)) [
        | inr (e, m) ↦
            rw (round_fails h c env now batch_size f s e z m)
              (rw (round_fails h c env now batch_size f s e z m) at g)
        | inl (batch, m) ↦ rw (round_merges h c env now batch_size f s batch z m) (
            after_merge-IsBounded n batch s b
              (rw (round_merges h c env now batch_size f s batch z m) at g))
      ]
    ]

    -- What holds of the first state and is kept from round to round, as long as the loop goes on,
    -- gives `Q` of the result, which `max_rounds` rounds reach.
    pub all_rounds :
        ((s : St) → J s → Gives Q J (round h c env now batch_size f s))
        → (n : ℕ) (s : St) → max_rounds ≤ n
        → s.rounds ≡ 0
        → J s
        → (outcome : Out) × (rounds_from h c env now batch_size f n s ≡ some outcome) × Q outcome
    all_rounds keeps n s b z j =
        rounds_from_lem Q (λ k t. J t × IsBounded k t) (λ t k. ground arith)
          (λ k t j. round-IsBounded k t j.1.0 (keeps t j.0)) n s (j, (omega arith, omega arith))
