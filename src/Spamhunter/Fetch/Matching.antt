-- ===== src/Spamhunter/Fetch/Matching.antt =====
-- Matching by author gives every requested pubkey its own events.
use deepfry.Base.{
  ◌≡◌, ◌∙◌, ap, refl, arith, Bool, true, false, ◌||◌, Bool-cases, Option, some, ◌⊎◌, inl, inr, List,
  [], ◌∷◌, map, any, All, All-imp, bytes_eq, bytes_eq→eq, bytes_eq_refl, if◌then◌else◌,
}
use deepfry.Base.Words.{Bytes}
use deepfry.Spamhunter.Client.{Event, AuthorGroup}
use deepfry.Spamhunter.Fetch.{
  StringMap, get, put, without, or_default, by_author, match_requested, match_groups,
}

module _ {V : Type 0} where
  pub get-put :
      (key k : Bytes) (v : V) (m : StringMap V)
      → get key (put k v m) ≡ (if bytes_eq key k then some v else get key m)
  unfolding get put
  get-put key k v [] = refl
  get-put key k v ((k', v') ∷ m) = elim (Bool-cases (bytes_eq k k')) [
    | inl same ↦ let e : k ≡ k' = bytes_eq→eq k k' same in rw same (rw (← e) (ground arith))
    | inr other ↦
        ground (arith, get-put key k v m, bytes_eq→eq key k', bytes_eq→eq key k, bytes_eq_refl k)
  ]

  get-without :
      (key k : Bytes) (m : StringMap V) → bytes_eq key k ≡ false → get key (without k m) ≡ get key m
  unfolding get without
  get-without key k [] n = refl
  get-without key k ((k', v') ∷ m) n =
      ground (arith, get-without key k m n, bytes_eq→eq k k', bytes_eq→eq key k')

-- No pubkey is requested twice.
abbrev pub Distinct : List Bytes → Type 0
Distinct [] = Unit
Distinct (pk ∷ pks) = All (λ other. bytes_eq other pk ≡ false) pks × Distinct pks

-- What the adapter has for a batch: groups with the events of their author, and for no group
-- of a requested author no events.
module _ (events_of : Bytes → List Event) where
  abbrev pub HasAuthor : Bytes → List AuthorGroup → Type 0
  HasAuthor pk groups = any (λ g. bytes_eq pk g.author) groups ≡ true

  abbrev pub Answers : List Bytes → List AuthorGroup → Type 0
  Answers batch groups =
      All (λ g. g.events ≡ events_of g.author) groups
      × All (λ pk. HasAuthor pk groups ⊎ (events_of pk ≡ [])) batch

  author_first :
      (pk : Bytes) (g : AuthorGroup) (b : Bool) (rest : Option (List Event))
      → g.events ≡ events_of g.author
      → (if b then some (events_of pk) else if bytes_eq pk g.author then some g.events else rest)
        ≡ (if bytes_eq pk g.author || b then some (events_of pk) else rest)
  author_first pk g b rest e = elim (Bool-cases (bytes_eq pk g.author)) [
    | inl same ↦
        let f : pk ≡ g.author = bytes_eq→eq pk g.author same in rw (same, e, ← f) (ground arith)
    | inr other ↦ rw other refl
  ]

  get-by_author :
      (pk : Bytes) (groups : List AuthorGroup) (m : StringMap (List Event))
      → All (λ g. g.events ≡ events_of g.author) groups
      → get pk (by_author groups m)
        ≡ (if any (λ g. bytes_eq pk g.author) groups then some (events_of pk) else get pk m)
  unfolding by_author
  get-by_author pk [] m a = refl
  get-by_author pk (g ∷ gs) m a =
      get-by_author pk gs (put g.author g.events m) a.1
      ∙ rw (get-put pk g.author g.events m)
          (author_first pk g (any (λ g. bytes_eq pk g.author) gs) (get pk m) a.0)

  -- The map that is left has, for each pubkey that is still to come, its events.
  abbrev Serves : List Bytes → StringMap (List Event) → Type 0
  Serves pks m = All (λ pk. or_default (get pk m) ≡ events_of pk) pks

  abbrev with_events : List Bytes → List (Bytes × List Event)
  with_events pks = map (λ pk. (pk, events_of pk)) pks

  Serves-without :
      (pk : Bytes) (pks : List Bytes) (m : StringMap (List Event))
      → All (λ other. bytes_eq other pk ≡ false) pks
      → Serves pks m
      → Serves pks (without pk m)
  Serves-without pk [] m d s = tt
  Serves-without pk (x ∷ xs) m d s =
      (ap or_default (get-without x pk m d.0) ∙ s.0, Serves-without pk xs m d.1 s.1)

  match_requested_lem :
      (pks : List Bytes) (m : StringMap (List Event))
      → Distinct pks
      → Serves pks m
      → match_requested pks m ≡ with_events pks
  unfolding match_requested
  match_requested_lem [] m d s = refl
  match_requested_lem (pk ∷ pks) m d s =
      rw (s.0, match_requested_lem pks (without pk m) d.1 (Serves-without pk pks m d.0 s.1)) refl

  answered :
      (pk : Bytes) (groups : List AuthorGroup)
      → All (λ g. g.events ≡ events_of g.author) groups
      → HasAuthor pk groups ⊎ (events_of pk ≡ [])
      → or_default (get pk (by_author groups [])) ≡ events_of pk
  unfolding or_default get
  answered pk groups a c = rw (get-by_author pk groups [] a) (ground arith)

  -- Every requested pubkey comes once, in order, with its own events.
  pub match_groups_lem :
      (batch : List Bytes) (groups : List AuthorGroup)
      → Distinct batch
      → Answers batch groups
      → match_groups batch groups ≡ with_events batch
  unfolding match_groups
  match_groups_lem batch groups d (a, c) =
      match_requested_lem batch (by_author groups []) d
        (All-imp (λ pk. answered pk groups a) batch c)
