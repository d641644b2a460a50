-- ===== src/Query/Merge/Source.antt =====
-- The streams of the merge on the scans of an index: the laws of `IsSource`.
use Prim.Native.String.{String}
use mathlib.Core.Path.{subst}
use deepfry.Base.{
  ℕ, ◌<◌, ◌≡◌, ◌⊎◌, inl, inr, sym, ap, ◌∙◌, Bool, true, false, Bool-cases, List, [], ◌∷◌, ◌++◌, All,
  All-imp, All-keep_if, All-keep_if_of_All, keep_if, starts_with,
}
use deepfry.Base.Results.{Result, ok, err}
use deepfry.Base.Words.{Bytes}
use deepfry.Lmdb.Heed.{Heed, Entry}
use deepfry.Lmdb.Indexes.{IndexError}
use deepfry.Lmdb.Scan.{Hit, reverse, reverse_upper_bound, last_key_or, scan_index_one_window}
use deepfry.Lmdb.Scan.Window.{hits, after}
use deepfry.Lmdb.Scan.Resume.{
  IsReverseIndex, IsClear, walk_bound, rest, IsInOrder-keep_if, after-after,
  scan_index_one_window_lem,
}
use deepfry.Query.Router.{created_at_from_key}
use deepfry.Query.Merge.{Triple}
use deepfry.Query.Merge.Items.{IsContiguous}
use deepfry.Query.Merge.Refill.{IsSource, IsApart, has_prefix, under}
use deepfry.Query.Merge.Order.{
  hits-keep_if-nil, All-hits, All-under, IsContiguous-append_right, All-both, All-prefix, IsOrdered,
  hits-IsOrdered, IsOrdered-prefix, All-last, before_last,
}

module _ (h : Heed) (env : h.Env) (short_name : String) (before : Bytes → Bytes → Bool)
    (view : List Entry) (index : IsReverseIndex h env short_name before view) (w : ℕ) (pos : 0 < w)
    (p : Bytes) (Valid : Bytes → Type 0) (valid : All (λ (e : Entry). Valid e.0) view)
    (raises : (k : Bytes)
      → Valid k
      → (reverse_upper_bound k).1 ≡ true
      → before (reverse_upper_bound k).0 k ≡ true)
    (by_time : (j k : Bytes)
      → Valid j
      → Valid k
      → starts_with j p ≡ true
      → starts_with k p ≡ true
      → before j k ≡ true
      → created_at_from_key k < created_at_from_key j) where
  abbrev scan : Bytes → Bool → ℕ → Result (IndexError h.Error) (List Hit × Bytes × Bool)
  scan k f n = scan_index_one_window h env short_name reverse k f n

  abbrev left : Bytes → Bool → List Hit
  left k f = rest h env short_name before view index k f

  -- The window can be read at a key of the index, and the hits under the prefix come first.
  abbrev pub At : Bytes → Bool → Type 0
  At k f = Valid k × IsClear view k f × IsContiguous (has_prefix p) (left k f)

  nothing_left : (k : Bytes) (f : Bool) → Valid k → left k f ≡ [] → left k false ≡ []
  unfolding rest walk_bound
  nothing_left k false v e = e
  nothing_left k true v e = elim (Bool-cases (reverse_upper_bound k).1) [
    | inl raised ↦
        let bound = (reverse_upper_bound k).0 in
        let wide : hits (after before bound view) ≡ [] = rw raised at e in
        ap hits (sym (after-after before index.order bound k view (raises k v raised)))
        ∙ hits-keep_if-nil (λ (x : Entry). before k x.0) (after before bound view) wide
    | inr same ↦ rw same at e
  ]

  abbrev batch_of : Result (IndexError h.Error) (List Hit × Bytes × Bool) → List Hit
  batch_of (ok r) = r.0
  batch_of (err e) = []

  abbrev next_of : Result (IndexError h.Error) (List Hit × Bytes × Bool) → Bytes
  next_of (ok r) = r.1
  next_of (err e) = []

  abbrev batch : Bytes → Bool → List Hit
  batch k f = batch_of (scan k f w)

  abbrev next : Bytes → Bool → Bytes
  next k f = next_of (scan k f w)

  ordered : (k : Bytes) (f : Bool) → IsOrdered before (left k f)
  unfolding rest
  ordered k f =
      let q = λ (e : Entry). before (walk_bound k f) e.0 in
      hits-IsOrdered before (keep_if q view)
        (IsInOrder-keep_if before index.order q view index.in_order)

  valid_left : (k : Bytes) (f : Bool) → All (λ (x : Hit). Valid x.0) (left k f)
  unfolding rest
  valid_left k f =
      let q = λ (e : Entry). before (walk_bound k f) e.0 in
      All-hits Valid (keep_if q view) (All-keep_if_of_All (λ (e : Entry). Valid e.0) q view valid)

  after_key : (k : Bytes) → All (λ (x : Hit). before k x.0 ≡ true) (left k false)
  unfolding rest walk_bound
  after_key k =
      let q = λ (e : Entry). before k e.0 in
      All-hits (λ x. before k x ≡ true) (keep_if q view) (All-keep_if q view)

  in_front : (j l k : Bytes) → (j ≡ l) ⊎ (before j l ≡ true) → before l k ≡ true → before j k ≡ true
  in_front j l k (inl e) b = rw e b
  in_front j l k (inr a) b = index.order.trans j l k a b

  newer_than :
      (l : Bytes) (x : Hit)
      → Valid x.0
      → (x.0 ≡ l) ⊎ (before x.0 l ≡ true)
      → starts_with x.0 p ≡ true
      → All (λ (y : Triple). y.0 < created_at_from_key x.0) (under p (left l false))
  newer_than l x vx ox sx =
      All-under p (λ (y : Triple). y.0 < created_at_from_key x.0) (left l false)
        (All-imp {P = λ (y : Hit). Valid y.0 × (before l y.0 ≡ true)}
          (λ y v sy. by_time x.0 y.0 vx v.0 sx sy (in_front x.0 l y.0 ox v.1)) (left l false)
          (All-both (λ (y : Hit). Valid y.0) (λ (y : Hit). before l y.0 ≡ true) (left l false)
            (valid_left l false) (after_key l)))

  -- A batch is split from what is left behind its last key by time.
  split-IsApart :
      (k : Bytes) (f : Bool) (b : List Hit)
      → left k f ≡ b ++ left (last_key_or k b) false
      → IsApart (under p b) (under p (left (last_key_or k b) false))
  split-IsApart k f b e =
      let l = last_key_or k b in
      let r = left l false in
      let ends =
        before_last before k b
          (IsOrdered-prefix before b r (subst (IsOrdered before) e (ordered k f))) in
      let good =
        All-prefix (λ (x : Hit). Valid x.0) b r
          (subst (All (λ (x : Hit). Valid x.0)) e (valid_left k f)) in
      All-under p (λ (x : Triple). All (λ (y : Triple). y.0 < x.0) (under p r)) b
        (All-imp {P = λ (x : Hit). Valid x.0 × ((x.0 ≡ l) ⊎ (before x.0 l ≡ true))}
          (λ x v sx. newer_than l x v.0 v.1 sx) b
          (All-both (λ (x : Hit). Valid x.0) (λ (x : Hit). (x.0 ≡ l) ⊎ (before x.0 l ≡ true)) b good
            ends))

  -- The window that is read at `k`.
  record IsWindowAt (k : Bytes) (f : Bool) : Type 0 where
    b : List Hit
    run : scan k f w ≡ ok (b, last_key_or k b, false)
    split : left k f ≡ b ++ left (last_key_or k b) false
    nothing : b ≡ [] → left k f ≡ []

  nothing_split :
      (k : Bytes) (f : Bool) (b : List Hit)
      → Valid k
      → b ≡ []
      → left k f ≡ []
      → left k f ≡ b ++ left (last_key_or k b) false
  nothing_split k f [] v e gone = gone ∙ sym (nothing_left k f v gone)
  nothing_split k f (x ∷ b) v e gone = absurd cc

  window_at : (k : Bytes) (f : Bool) → At k f → IsWindowAt k f
  window_at k f at =
      let r = scan_index_one_window_lem h env short_name before view index k f w pos at.1 in
      elim r.2 [
        | inl (e, gone) ↦ record {
          b = r.0;
          run = r.1;
          split = nothing_split k f r.0 at.0 e gone;
          nothing = λ e'. gone;
        }
        | inr (some_hits, split) ↦ record {
          b = r.0;
          run = r.1;
          split = split;
          nothing = λ e. absurd (some_hits e);
        }
      ]

  -- What a window returns is its batch and the key behind it.
  window_run :
      (k : Bytes) (f : Bool) (v : IsWindowAt k f) → scan k f w ≡ ok (batch k f, next k f, false)
  window_run k f v =
      v.run
      ∙ ap (λ (r : List Hit × Bytes). ok (r.0, r.1, false))
          (sym (
            ap
              (λ (r : Result (IndexError h.Error) (List Hit × Bytes × Bool)).
                (batch_of r, next_of r))
              v.run))

  window_split :
      (k : Bytes) (f : Bool) → IsWindowAt k f → left k f ≡ batch k f ++ left (next k f) false
  window_split k f v =
      subst
        (λ (r : Result (IndexError h.Error) (List Hit × Bytes × Bool)).
          left k f ≡ batch_of r ++ left (next_of r) false)
        (sym v.run) v.split

  window-IsApart :
      (k : Bytes) (f : Bool)
      → IsWindowAt k f
      → IsApart (under p (batch k f)) (under p (left (next k f) false))
  window-IsApart k f v =
      subst
        (λ (r : Result (IndexError h.Error) (List Hit × Bytes × Bool)).
          IsApart (under p (batch_of r)) (under p (left (next_of r) false)))
        (sym v.run) (split-IsApart k f v.b v.split)

  next_valid : (k : Bytes) (f : Bool) → IsWindowAt k f → Valid k → Valid (next k f)
  next_valid k f v good =
      subst (λ (r : Result (IndexError h.Error) (List Hit × Bytes × Bool)). Valid (next_of r))
        (sym v.run)
        (All-last before Valid k v.b good (
          All-prefix (λ (x : Hit). Valid x.0) v.b (left (last_key_or k v.b) false)
            (subst (All (λ (x : Hit). Valid x.0)) v.split (valid_left k f))))

  -- The one-window scans of an index that nobody writes to are, under any prefix, what the merge
  -- relies on: at a key of the index where the hits with the prefix come first, windows follow
  -- each other without loss and split no time of the prefix. The raised start bound comes before
  -- the key, and of two keys with the prefix the earlier one in the scan has the later time.
  pub index-IsSource : IsSource scan w left At p
  index-IsSource = record {
    batch = batch;
    next = next;
    scans = λ k f at. window_run k f (window_at k f at);
    continues = λ k f at. (
      next_valid k f (window_at k f at) at.0,
      tt,
      IsContiguous-append_right (has_prefix p) (batch k f) (left (next k f) false)
          (subst (IsContiguous (has_prefix p)) (window_split k f (window_at k f at)) at.2),
    );
    splits = λ k f at. window_split k f (window_at k f at);
    ends = λ k f at e. let v = window_at k f at in v.nothing (sym (ap batch_of v.run) ∙ e);
    contiguous = λ k f at. at.2;
    apart = λ k f at. window-IsApart k f (window_at k f at);
  }
