-- ===== src/Query/Engine/Reads.antt =====
-- The merge of a round reads the index: what IsFeed asks for, from the law of merge_windowed.
mod Examples
use mathlib.Core.Path.{subst}
use mathlib.Core.Logic.{∥∥₁_elim}
use mathlib.Core.List.{Permᴰ, Perm, append-nil}
use mathlib.Core.List.Permᴰ
use mathlib.Core.List.Perm
use deepfry.Base.{
  ℕ, zero, suc, ◌<◌, ◌≤◌, ◌≡◌, ◌⊎◌, inl, inr, refl, sym, ap, ◌∙◌, arith, Bool, true, false, Option,
  none, some, List, [], ◌∷◌, ◌++◌, map, length, take, take_all, length-map, All, All-imp, All-map,
}
use deepfry.Query.Merge.{Triple}
use deepfry.Query.Merge.Heap.{IsNotOlder}
use deepfry.Query.Merge.Newest.{IsNewest, IsPage}
use deepfry.Base.Results.{Result}
use deepfry.Base.Words.{Bytes}
use deepfry.Lmdb.Heed.{Heed}
use deepfry.Lmdb.Indexes.{IndexError}
use deepfry.Lmdb.Scan.{Hit, reverse, scan_index_one_window}
use deepfry.Lmdb.Payload.{Codecs}
use deepfry.Query.Filter.{NostrFilter}
use deepfry.Query.Router.{select_index, unwrap_or, concat_map}
use deepfry.Query.Merge.Page.{IsStart, wanted, merge_windowed_lem}
use deepfry.Query.Engine.{
  Position, index_short_name, effective_limit, emit_limit_of, round_keys, merge_round,
}
use deepfry.Query.Engine.Below.{
  below, keep_if-IsDescending, comes_after, comes_after_asym, IsDescending,
}
use deepfry.Query.Engine.Feed.{Reads, position_of}
use deepfry.Query.Engine.Underway.{true-false}

All-Permᴰ : (P : Position → Type 0) {xs ys : List Position} → Permᴰ xs ys → All P xs → All P ys
All-Permᴰ P Permᴰ.nil a = tt
All-Permᴰ P (Permᴰ.cons e p) a = (subst P e a.0, All-Permᴰ P p a.1)
All-Permᴰ P (Permᴰ.swap e f) (a, (b, rest)) = (subst P f b, (subst P e a, rest))
All-Permᴰ P (Permᴰ.trans p q) a = All-Permᴰ P q (All-Permᴰ P p a)

map-Permᴰ : {xs ys : List Triple} → Permᴰ xs ys → Permᴰ (map position_of xs) (map position_of ys)
map-Permᴰ Permᴰ.nil = Permᴰ.nil
map-Permᴰ (Permᴰ.cons e p) = Permᴰ.cons (ap position_of e) (map-Permᴰ p)
map-Permᴰ (Permᴰ.swap e f) = Permᴰ.swap (ap position_of e) (ap position_of f)
map-Permᴰ (Permᴰ.trans p q) = Permᴰ.trans (map-Permᴰ p) (map-Permᴰ q)

length-Permᴰ : {xs ys : List Position} → Permᴰ xs ys → length xs ≡ length ys
length-Permᴰ Permᴰ.nil = refl
length-Permᴰ (Permᴰ.cons e p) = ap suc (length-Permᴰ p)
length-Permᴰ (Permᴰ.swap e f) = refl
length-Permᴰ (Permᴰ.trans p q) = length-Permᴰ p ∙ length-Permᴰ q

Position-set : IsSet Position
Position-set = hlevel

-- The same, or before it.
abbrev IsUpTo : Position → Position → Type 0
IsUpTo p q = (q ≡ p) ⊎ (comes_after (some p) q ≡ true)

IsNotOlder-IsUpTo : (t u : Triple) → IsNotOlder t u → IsUpTo (position_of t) (position_of u)
unfolding comes_after
IsNotOlder-IsUpTo t u o = ground arith

both_ways : (p q : Position) → IsUpTo p q → IsUpTo q p → q ≡ p
both_ways p q (inl e) y = e
both_ways p q (inr x) (inl e) = sym e
both_ways p q (inr x) (inr y) = absurd (true-false (sym y ∙ comes_after_asym p q x))

heads :
    (p q : Position) (ps qs : List Position)
    → All (IsUpTo p) (p ∷ ps)
    → All (IsUpTo q) (q ∷ qs)
    → Permᴰ (p ∷ ps) (q ∷ qs)
    → q ≡ p
heads p q ps qs a b d =
    both_ways p q (All-Permᴰ (IsUpTo p) d a).0 (All-Permᴰ (IsUpTo q) (Permᴰ.symm d) b).0

-- The newest of a list, in order, are the first of it in descending order.
newest_take :
    (out leftover : List Triple) (xs : List Position)
    → IsNewest out leftover
    → IsDescending xs
    → Perm (map position_of (out ++ leftover)) xs
    → map position_of out ≡ take (length out) xs
newest_take [] leftover xs n d p = refl
newest_take (t ∷ out) leftover [] n d p =
    let nothing : ⊥ =
      ∥∥₁_elim p (λ x y. absurd x) (λ e. (All-Permᴰ (λ q. ⊥) (Permᴰ.symm e) tt).0) in
    absurd nothing
newest_take (t ∷ out) leftover (x ∷ xs) n d p =
    let a : All (IsUpTo (position_of t)) (map position_of (t ∷ out ++ leftover)) = (
      inl refl,
      All-map position_of (IsUpTo (position_of t)) (out ++ leftover)
          (All-imp (IsNotOlder-IsUpTo t) (out ++ leftover) n.0),
    ) in
    let b : All (IsUpTo x) (x ∷ xs) = (inl refl, All-imp (λ q e. inr e) xs d.0) in
    let same : x ≡ position_of t =
      ∥∥₁_elim p (Position-set _ _) (λ e. heads (position_of t) x _ xs a b e) in
    let rest : Perm (map position_of (out ++ leftover)) xs =
      Perm.cons_inv
        (subst (λ (y : Position). Perm (map position_of (t ∷ out ++ leftover)) (y ∷ xs)) same p) in
    rw same (ap (λ l. position_of t ∷ l) (newest_take out leftover xs n.1 d.1 rest))

page_take :
    (room : ℕ) (whole out : List Triple) (xs : List Position)
    → IsPage room whole out
    → IsDescending xs
    → Permᴰ (map position_of whole) xs
    → map position_of out ≡ take room xs
page_take room whole out xs page d p =
    let all : Permᴰ (map position_of (out ++ page.leftover)) xs =
      Permᴰ.trans (map-Permᴰ page.same) p in
    let first = newest_take out page.leftover xs page.newest d ∣ all ∣₁ in
    elim page.full [
      | inr full ↦ first ∙ ap (λ n. take n xs) full
      | inl none_left ↦
          let same : length out ≡ length xs =
            sym (length-map position_of out)
            ∙ ap (λ l. length (map position_of l))
                (sym (append-nil out) ∙ ap (λ l. out ++ l) (sym none_left))
            ∙ length-Permᴰ all in
          first
          ∙ take_all xs (length out) (omega (arith, same))
          ∙ sym (take_all xs room (omega (arith, same, page.bounded)))
    ]

module _ (h : Heed) (c : Codecs) (env : h.Env) (now batch_size : ℕ) (f : NostrFilter)
    (entries : List Position) (stored : ℕ → Bytes) (b : Option Position)
    (rest : Bytes → Bool → List Hit) (At : Bytes → Bool → Type 0) where
  abbrev pub scan : Bytes → Bool → ℕ → Result (IndexError h.Error) (List Hit × Bytes × Bool)
  scan = scan_index_one_window h env (index_short_name (select_index f)) reverse

  -- Where the scan from each start key of a round brings the entries under the prefix of that key
  -- newest first, and those that the boundary and since let through are, in some order, the
  -- positions below the boundary of a list in descending order, the round merges the next of
  -- them.
  pub merge_round-Reads :
      All (IsStart scan batch_size (unwrap_or f.since 0) b rest At) (round_keys f b)
      → Permᴰ
          (map position_of
            (concat_map (wanted scan batch_size (unwrap_or f.since 0) b rest At) (round_keys f b)))
          (below entries b)
      → IsDescending entries
      → Reads h c env now batch_size f entries stored b
  unfolding merge_round
  merge_round-Reads starts same d =
      let emit = emit_limit_of (effective_limit f) in
      let (out, merged, page) =
        merge_windowed_lem scan batch_size (unwrap_or f.since 0) b rest At (round_keys f b) emit
          starts in
      (
        out,
        merged,
        page_take emit _ out (below entries b) page (keep_if-IsDescending (comes_after b) entries d)
            same,
      )
