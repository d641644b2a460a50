-- ===== src/Lmdb/Scan/Window.antt =====
-- One window of a scan: it ends on a key boundary, and what is left is what comes after its last key.
use deepfry.Base.{
  ℕ, ◌+◌, ◌<◌, ◌≡◌, ◌⊎◌, inl, inr, refl, sym, ap, arith, Bool, true, false, Bool-cases, none, some,
  Option-cases, leb, ◌&&◌, List, [], ◌∷◌, ◌++◌, map, All, keep_if, bytes_eq_refl,
}
use deepfry.Base.Results.{ok}
use deepfry.Base.Words.{Bytes}
use deepfry.Lmdb.Heed.{Entry}
use deepfry.Lmdb.Indexes.{lev_id_of_value}
use deepfry.Lmdb.Scan.{Hit, window_items, is_new_key, last_key_or}

-- The order in which a scan meets the keys, strict.
pub record IsScanOrder (before : Bytes → Bytes → Bool) : Type 0 where
  pub irrefl : (k : Bytes) → before k k ≡ false
  pub trans : (j k l : Bytes) → before j k ≡ true → before k l ≡ true → before j l ≡ true

-- The hits of a list of entries: an entry with a short VALUE is none.
unfoldable pub hits : List Entry → List Hit
hits [] = []
hits ((key, value) ∷ es) = elim (lev_id_of_value value) [
  | none ↦ hits es
  | some lev_id ↦ (key, lev_id) ∷ hits es
]

module _ (before : Bytes → Bytes → Bool) where
  abbrev pub FromOn : Bytes → List Entry → Type 0
  FromOn k es = All (λ (e : Entry). (k ≡ e.0) ⊎ (before k e.0 ≡ true)) es

  -- The entries come in the order of the scan; entries of one key are duplicates.
  abbrev pub IsInOrder : List Entry → Type 0
  IsInOrder [] = Unit
  IsInOrder (e ∷ es) = FromOn e.0 es × IsInOrder es

  -- The entries after key `k`.
  abbrev pub after : Bytes → List Entry → List Entry
  after k es = keep_if (λ (e : Entry). before k e.0) es

module _ (before : Bytes → Bytes → Bool) where
  -- What a batch leaves of the entries that its window read.
  abbrev pub remainder : Bytes → List Hit → List Entry → List Hit
  remainder s [] es = []
  remainder s (hit ∷ b) es = hits (after before (last_key_or s (hit ∷ b)) es)

  abbrev pub EndsAfter : Bytes → List Hit → Type 0
  EndsAfter s [] = Unit
  EndsAfter s (hit ∷ b) = before s (last_key_or s (hit ∷ b)) ≡ true

module _ (before : Bytes → Bytes → Bool) (order : IsScanOrder before) where
  after-All :
      (k : Bytes) (es : List Entry)
      → All (λ (e : Entry). before k e.0 ≡ true) es
      → after before k es ≡ es
  after-All k [] a = refl
  after-All k (e ∷ es) a = rw a.0 (ap (λ (zs : List Entry). e ∷ zs) (after-All k es a.1))

  -- Past the key `k` the scan meets only later keys.
  All-after :
      (k key : Bytes) (es : List Entry)
      → before k key ≡ true
      → FromOn before key es
      → All (λ (e : Entry). before k e.0 ≡ true) es
  All-after k key [] h a = tt
  All-after k key (e ∷ es) h a = (ground (arith, order.trans k key e.0), All-after k key es h a.1)

  -- `b` is a window of `es` after the key `k`.
  abbrev IsWindow : Bytes → List Hit → List Entry → Type 0
  IsWindow k b es =
      (hits es ≡ b ++ hits (after before (last_key_or k b) es))
      × ((last_key_or k b ≡ k) ⊎ (before k (last_key_or k b) ≡ true))

  hits-after_skip :
      (k key value : Bytes) (es : List Entry)
      → lev_id_of_value value ≡ none
      → hits (after before k ((key, value) ∷ es)) ≡ hits (after before k es)
  unfolding hits
  hits-after_skip k key value es e = ground arith

  module _ (E : Type 0) (w : ℕ) where
    -- an entry with a short VALUE
    skip_entry :
        (n : ℕ) (k key value : Bytes) (es : List Entry) (b : List Hit)
        → lev_id_of_value value ≡ none
        → window_items {E = E} w n (some k) (map ok es) ≡ ok b
        → IsWindow k b es
        → (window_items {E = E} w n (some k) (map ok ((key, value) ∷ es)) ≡ ok b)
          × IsWindow k b ((key, value) ∷ es)
    unfolding window_items hits
    skip_entry n k key value es b e run win =
        (ground arith, (ground (arith, hits-after_skip (last_key_or k b) key value es e), win.1))

    -- the window is full and the entry has a new key
    stop_entry :
        (n : ℕ) (k key value : Bytes) (lev_id : ℕ) (es : List Entry)
        → lev_id_of_value value ≡ some lev_id
        → (leb w n && is_new_key (some k) key) ≡ true
        → FromOn before k ((key, value) ∷ es)
        → FromOn before key es
        → (window_items {E = E} w n (some k) (map ok ((key, value) ∷ es)) ≡ ok [])
          × IsWindow k [] ((key, value) ∷ es)
    unfolding window_items is_new_key
    stop_entry n k key value lev_id es e full f g =
        let new : before k key ≡ true = ground (arith, bytes_eq_refl k) in
        (
          ground arith,
          (
            sym (ap hits (after-All k ((key, value) ∷ es) (new, All-after k key es new g))),
            inl refl,
          ),
        )

    -- the entry joins the window
    push_entry :
        (n : ℕ) (k key value : Bytes) (lev_id : ℕ) (es : List Entry) (b : List Hit)
        → lev_id_of_value value ≡ some lev_id
        → (leb w n && is_new_key (some k) key) ≡ false
        → FromOn before k ((key, value) ∷ es)
        → window_items {E = E} w (n + 1) (some key) (map ok es) ≡ ok b
        → IsWindow key b es
        → (window_items {E = E} w n (some k) (map ok ((key, value) ∷ es)) ≡ ok ((key, lev_id) ∷ b))
          × IsWindow k ((key, lev_id) ∷ b) ((key, value) ∷ es)
    unfolding window_items hits
    push_entry n k key value lev_id es b e room f run win =
        let last = last_key_or key b in
        let gone : before last key ≡ false =
          ground (arith, order.irrefl key, order.trans key last key) in
        (ground arith, (ground arith, ground (arith, order.trans k key last)))

    window_items-IsWindow :
        (n : ℕ) (k : Bytes) (es : List Entry)
        → IsInOrder before es
        → FromOn before k es
        → (b : List Hit) × (window_items {E = E} w n (some k) (map ok es) ≡ ok b) × IsWindow k b es
    unfolding window_items hits
    window_items-IsWindow n k [] o f = ([], refl, (refl, inl refl))
    window_items-IsWindow n k ((key, value) ∷ es) o f =
        let here = window_items-IsWindow n k es o.1 f.1 in
        let next = window_items-IsWindow (n + 1) key es o.1 o.0 in
        elim (Option-cases (lev_id_of_value value)) [
          | inl e ↦ let r = skip_entry n k key value es here.0 e here.1 here.2 in (here.0, r.0, r.1)
          | inr (lev_id, e) ↦ elim (Bool-cases (leb w n && is_new_key (some k) key)) [
            | inl full ↦ let r = stop_entry n k key value lev_id es e full f o.0 in ([], r.0, r.1)
            | inr room ↦
                let r = push_entry n k key value lev_id es next.0 e room f next.1 next.2 in
                ((key, lev_id) ∷ next.0, r.0, r.1)
          ]
        ]

    abbrev pub IsFirst : Bytes → List Entry → List Hit → Type 0
    IsFirst s es b =
        (window_items {E = E} w 0 none (map ok es) ≡ ok b)
        × (hits es ≡ b ++ remainder before s b es)
        × EndsAfter before s b

    IsFirst-skip :
        (s key value : Bytes) (es : List Entry) (b : List Hit)
        → lev_id_of_value value ≡ none
        → IsFirst s es b
        → IsFirst s ((key, value) ∷ es) b
    unfolding window_items hits
    IsFirst-skip s key value es [] e r = (ground (arith, r.0), ground (arith, r.1), tt)
    IsFirst-skip s key value es (hit ∷ b) e r = (
      ground (arith, r.0),
      ground (arith, r.1, hits-after_skip (last_key_or s (hit ∷ b)) key value es e),
      r.2,
    )

    IsFirst-push :
        (s key value : Bytes) (lev_id : ℕ) (es : List Entry) (b : List Hit)
        → 0 < w
        → lev_id_of_value value ≡ some lev_id
        → before s key ≡ true
        → window_items {E = E} w 1 (some key) (map ok es) ≡ ok b
        → IsWindow key b es
        → IsFirst s ((key, value) ∷ es) ((key, lev_id) ∷ b)
    unfolding window_items hits
    IsFirst-push s key value lev_id es b pos e a run win =
        let last = last_key_or key b in
        let gone : before last key ≡ false =
          ground (arith, order.irrefl key, order.trans key last key) in
        (ground arith, ground arith, ground (arith, order.trans s key last))

    -- A window from its start: the batch and its remainder are all the hits, and no key of the
    -- batch is left in the remainder.
    pub window_items-IsFirst :
        (s : Bytes) (es : List Entry)
        → 0 < w
        → IsInOrder before es
        → All (λ (e : Entry). before s e.0 ≡ true) es
        → (b : List Hit) × IsFirst s es b
    unfolding window_items hits is_new_key
    window_items-IsFirst s [] pos o a = ([], (refl, refl, tt))
    window_items-IsFirst s ((key, value) ∷ es) pos o a =
        elim (Option-cases (lev_id_of_value value)) [
          | inl e ↦
              let r = window_items-IsFirst s es pos o.1 a.1 in
              (r.0, IsFirst-skip s key value es r.0 e r.1)
          | inr (lev_id, e) ↦
              let next = window_items-IsWindow 1 key es o.1 o.0 in
              (
                (key, lev_id) ∷ next.0,
                IsFirst-push s key value lev_id es next.0 pos e a.0 next.1 next.2,
              )
        ]
