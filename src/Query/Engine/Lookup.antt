-- ===== src/Query/Engine/Lookup.antt =====
-- The map of the hydrated events, and what the loop over a batch takes from it.
use mathlib.Core.Option.{some-injective}
use mathlib.Core.List.{append_assoc}
use deepfry.Base.{
  take_whole, take_full, length-append, ℕ, ◌<◌, ◌≤◌, ◌≡◌, ◌≢◌, inl, inr, refl, sym, ap, ◌∙◌, arith,
  true, false, Bool-cases, leb, Option, none, some, Option-cases, List, [], ◌∷◌, ◌++◌, map, length,
  take, All, if◌then◌else◌,
}
use deepfry.Lmdb.Payload.{DecodedEvent}
use deepfry.Query.Filter.{NostrFilter}
use deepfry.Query.Router.{filter_map}
use deepfry.Query.Hydrate.Found.{paired}
use deepfry.Query.Engine.{
  residual, Position, EventMap, find, delete, map_of, Emitted, collect_valid,
}
use deepfry.Query.Engine.Collect.{collect_valid-full, collect_valid-none, collect_valid-some}

none-some : {A : Type 0} {a : A} → Path (Option A) none (some a) → ⊥
none-some e = absurd cc

full_or_room : (limit n : ℕ) → leb limit n ≡ false → n < limit
full_or_room limit n e = ground arith

-- No levId twice.
abbrev pub IsDistinct : List Position → Type 0
IsDistinct [] = Unit
IsDistinct (p ∷ ps) = All (λ (q : Position). p.1 ≢ q.1) ps × IsDistinct ps

find-delete : (k l : ℕ) (m : EventMap) → l ≢ k → find k (delete l m) ≡ find k m
unfolding find delete
find-delete k l [] n = refl
find-delete k l ((j, e) ∷ m) n = ground (arith, find-delete k l m n)

map_of-here :
    (l : ℕ) (e : DecodedEvent) (pairs : List (ℕ × DecodedEvent))
    → find l (map_of pairs) ≡ none
    → find l (map_of ((l, e) ∷ pairs)) ≡ some e
unfolding map_of find
map_of-here l e pairs n = ground arith

map_of-there :
    (k l : ℕ) (e : DecodedEvent) (pairs : List (ℕ × DecodedEvent))
    → l ≢ k
    → find k (map_of ((l, e) ∷ pairs)) ≡ find k (map_of pairs)
unfolding map_of find
map_of-there k l e pairs n = elim (Option-cases (find l (map_of pairs))) [
  | inl g ↦ ground arith
  | inr (x, g) ↦ ground arith
]

module _ (decoding : ℕ → Option DecodedEvent) where
  -- The hydrated events of a batch.
  abbrev pub pairs_of : List Position → List (ℕ × DecodedEvent)
  pairs_of ps = filter_map (paired decoding) (map (λ (p : Position). p.1) ps)

  pairs_of-none :
      (p : Position) (ps : List Position) → decoding p.1 ≡ none → pairs_of (p ∷ ps) ≡ pairs_of ps
  unfolding paired
  pairs_of-none p ps e = ground arith

  pairs_of-some :
      (p : Position) (e : DecodedEvent) (ps : List Position)
      → decoding p.1 ≡ some e
      → pairs_of (p ∷ ps) ≡ (p.1, e) ∷ pairs_of ps
  unfolding paired
  pairs_of-some p e ps d = ground arith

  find-other :
      (k : ℕ) (p : Position) (ps : List Position)
      → p.1 ≢ k
      → find k (map_of (pairs_of (p ∷ ps))) ≡ find k (map_of (pairs_of ps))
  find-other k p ps n = elim (Option-cases (decoding p.1)) [
    | inl d ↦ ap (λ x. find k (map_of x)) (pairs_of-none p ps d)
    | inr (e, d) ↦
        ap (λ x. find k (map_of x)) (pairs_of-some p e ps d)
        ∙ map_of-there k (p.1) e (pairs_of ps) n
  ]

  find-absent :
      (k : ℕ) (ps : List Position)
      → All (λ (q : Position). k ≢ q.1) ps
      → find k (map_of (pairs_of ps)) ≡ none
  find-absent k [] a = unfold map_of find in refl
  find-absent k (p ∷ ps) a = find-other k p ps (λ e. a.0 (sym e)) ∙ find-absent k ps a.1

  abbrev IsFound : EventMap → Position → Type 0
  IsFound m p = find p.1 m ≡ decoding p.1

  All-other :
      (p : Position) (ps qs : List Position)
      → All (λ (q : Position). p.1 ≢ q.1) qs
      → All (IsFound (map_of (pairs_of ps))) qs
      → All (IsFound (map_of (pairs_of (p ∷ ps)))) qs
  All-other p ps [] n a = tt
  All-other p ps (q ∷ qs) n a = (find-other (q.1) p ps n.0 ∙ a.0, All-other p ps qs n.1 a.1)

  -- The map of the hydrated events has at each levId of the batch what its payload decodes to.
  pub map_of-IsFound :
      (ps : List Position) → IsDistinct ps → All (IsFound (map_of (pairs_of ps))) ps
  map_of-IsFound [] d = tt
  map_of-IsFound (p ∷ ps) d =
      let absent = find-absent (p.1) ps d.0 in
      let here : IsFound (map_of (pairs_of (p ∷ ps))) p = elim (Option-cases (decoding p.1)) [
        | inl n ↦ ap (λ x. find (p.1) (map_of x)) (pairs_of-none p ps n) ∙ absent ∙ sym n
        | inr (e, s) ↦
            ap (λ x. find (p.1) (map_of x)) (pairs_of-some p e ps s)
            ∙ map_of-here (p.1) e (pairs_of ps) absent
            ∙ sym s
      ] in
      (here, All-other p ps ps d.0 (map_of-IsFound ps d.1))

  All-delete :
      (p : Position) (m : EventMap) (qs : List Position)
      → All (λ (q : Position). p.1 ≢ q.1) qs
      → All (IsFound m) qs
      → All (IsFound (delete p.1 m)) qs
  All-delete p m [] n a = tt
  All-delete p m (q ∷ qs) n a = (find-delete (q.1) (p.1) m n.0 ∙ a.0, All-delete p m qs n.1 a.1)

  module _ (now limit : ℕ) (f : NostrFilter) where
    -- The event at a position, where its payload decodes and it passes the checks.
    unfoldable pub survivor : Position → Option Emitted
    survivor (ts, lev_id) = elim (decoding lev_id) [
      | none ↦ none
      | some decoded ↦ if residual now f decoded.event then some (ts, lev_id, decoded) else none
    ]

    survivor-undecoded : (p : Position) → decoding p.1 ≡ none → survivor p ≡ none
    unfolding survivor
    survivor-undecoded (ts, lev_id) d = ground arith

    survivor-refused :
        (p : Position) (e : DecodedEvent)
        → decoding p.1 ≡ some e
        → residual now f e.event ≡ false
        → survivor p ≡ none
    unfolding survivor
    survivor-refused (ts, lev_id) e d r = ground arith

    survivor-kept :
        (p : Position) (e : DecodedEvent)
        → decoding p.1 ≡ some e
        → residual now f e.event ≡ true
        → survivor p ≡ some (p.0, p.1, e)
    unfolding survivor
    survivor-kept (ts, lev_id) e d r = ground arith

    pub survivor-place : (p : Position) (v : Emitted) → survivor p ≡ some v → (v.0, v.1) ≡ p
    survivor-place p v e = elim (Option-cases (decoding p.1)) [
      | inl n ↦ absurd (none-some (sym (survivor-undecoded p n) ∙ e))
      | inr (x, s) ↦ elim (Bool-cases (residual now f x.event)) [
        | inl r ↦
            ap (λ (u : Emitted). (u.0, u.1))
              (sym (some-injective _ _ (sym (survivor-kept p x s r) ∙ e)))
        | inr r ↦ absurd (none-some (sym (survivor-refused p x s r) ∙ e))
      ]
    ]

    survivors-cons :
        (p : Position) (v : Emitted) (ps : List Position)
        → survivor p ≡ some v
        → filter_map survivor (p ∷ ps) ≡ v ∷ filter_map survivor ps
    survivors-cons p v ps e = ground arith

    survivors-none :
        (p : Position) (ps : List Position)
        → survivor p ≡ none
        → filter_map survivor (p ∷ ps) ≡ filter_map survivor ps
    survivors-none p ps e = ground arith

    -- The loop over a batch takes its survivors, up to the limit.
    pub collect_valid_lem :
        (ps : List Position) (m : EventMap) (valid : List Emitted)
        → IsDistinct ps
        → All (IsFound m) ps
        → length valid ≤ limit
        → collect_valid now limit f ps m valid ≡ take limit (valid ++ filter_map survivor ps)
    collect_valid_lem [] m valid d a le = unfold collect_valid in sym (take_whole limit valid le)
    collect_valid_lem ((ts, lev_id) ∷ ps) m valid d a le =
        elim (Bool-cases (leb limit (length valid))) [
          | inl full ↦
              collect_valid-full now limit f (ts, lev_id) ps m valid full
              ∙ sym (take_full limit valid (filter_map survivor ((ts, lev_id) ∷ ps)) (ground arith))
          | inr room ↦ elim (Option-cases (decoding lev_id)) [
            | inl n ↦
                collect_valid-none now limit f ts lev_id ps m valid room (a.0 ∙ n)
                ∙ collect_valid_lem ps (delete lev_id m) valid d.1
                    (All-delete (ts, lev_id) m ps d.0 a.1) le
                ∙ ap (λ x. take limit (valid ++ x))
                    (sym (survivors-none (ts, lev_id) ps (survivor-undecoded (ts, lev_id) n)))
            | inr (e, s) ↦
                let step = collect_valid-some now limit f ts lev_id e ps m valid room (a.0 ∙ s) in
                let rest = All-delete (ts, lev_id) m ps d.0 a.1 in
                elim (Bool-cases (residual now f e.event)) [
                  | inl r ↦
                      (rw r at step)
                      ∙ collect_valid_lem ps (delete lev_id m) (valid ++ (ts, lev_id, e) ∷ []) d.1
                          rest
                          (omega (
                            arith,
                            length-append valid ((ts, lev_id, e) ∷ []),
                            full_or_room limit (length valid) room,
                          ))
                      ∙ ap (take limit)
                          (append_assoc valid ((ts, lev_id, e) ∷ []) (filter_map survivor ps))
                      ∙ ap (λ x. take limit (valid ++ x))
                          (sym (
                            survivors-cons (ts, lev_id) (ts, lev_id, e) ps
                              (survivor-kept (ts, lev_id) e s r)))
                  | inr r ↦
                      (rw r at step)
                      ∙ collect_valid_lem ps (delete lev_id m) valid d.1 rest le
                      ∙ ap (λ x. take limit (valid ++ x))
                          (sym
                            (survivors-none (ts, lev_id) ps (survivor-refused (ts, lev_id) e s r)))
                ]
          ]
        ]
