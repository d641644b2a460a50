-- ===== src/Query/Merge.antt =====
-- LMDB2GraphQL/src/query/merge.rs: the k-way merge of windowed reverse scans.
-- The scan of one window, `scan_index_one_window` at an index in reverse, is a parameter here.
-- `BinaryHeap` is its candidates in descending order.
pub mod Refill
pub mod Heap
pub mod Items
pub mod Page
pub mod Newest
pub mod Pop
pub mod Advance
pub mod Seed
pub mod Source
pub mod Order
pub mod Examples
use Prim.Native.Nat.{compare, Ordering}
use deepfry.Base.{
  ℕ, zero, suc, ◌+◌, ◌-◌, Bool, true, false, ◌&&◌, ◌||◌, not, ltb, leb, ◌==◌, Option, none, some,
  List, [], ◌∷◌, ◌++◌, map, length, take, is_empty, keep_if, take_while, position, get_elem?, set,
  starts_with, if◌then◌else◌,
}
use deepfry.Base.Results.{Result, ok, err, ◌>>=◌}
use deepfry.Base.Words.{Bytes}
use deepfry.Lmdb.Scan.{Hit, default_window_size}
use deepfry.Query.Router.{created_at_from_key}

-- `(created_at, lev_id, key_bytes)`
abbrev pub Triple : Type 0
Triple = ℕ × ℕ × Bytes

pub record MergeCandidate : Type 0 where
  pub created_at : ℕ
  pub lev_id : ℕ
  pub key_bytes : Bytes
  pub stream_idx : ℕ

-- `Ordering::then`
abbrev pub then_with : Ordering → Ordering → Ordering
then_with Ordering.eq second = second
then_with first _ = first

-- `MergeCandidate::cmp`
unfoldable pub cmp : MergeCandidate → MergeCandidate → Ordering
cmp a b = then_with (compare a.created_at b.created_at) (compare a.lev_id b.lev_id)

-- `BinaryHeap::push`
unfoldable pub heap_push : MergeCandidate → List MergeCandidate → List MergeCandidate
heap_push c [] = c ∷ []
heap_push c (d ∷ heap) =
    let rest = heap_push c heap in elim (cmp c d) [ Ordering.lt ↦ d ∷ rest | _ ↦ c ∷ d ∷ heap ]

pub record StreamState : Type 0 where
  pub resume_key : Bytes
  pub first_batch : Bool
  pub prefix : Bytes
  pub exhausted : Bool
  pub buffer : List Triple
  pub buf_pos : ℕ

-- `peek`, with the key bytes that the callers read beside it
unfoldable pub peek : StreamState → Option Triple
peek s = get_elem? s.buffer s.buf_pos

unfoldable pub needs_refill : StreamState → Bool
needs_refill s = not s.exhausted && leb (length s.buffer) s.buf_pos

-- The state of a stream that has nothing left.
abbrev pub drained : StreamState → StreamState
drained s = record s { exhausted = true; buffer = []; buf_pos = 0 }

abbrev pub to_triple : Hit → Triple
to_triple (key, lev_id) = (created_at_from_key key, lev_id, key)

-- The entries of a batch under the prefix.
unfoldable pub guard_prefix : Bytes → List Hit → List Triple
guard_prefix prefix batch =
    map to_triple (take_while (λ (hit : Hit). starts_with hit.0 prefix) batch)

abbrev pub Floor : Type 0
Floor = Option (ℕ × ℕ)

-- Kept: another time than the floor's, or a levId below the floor's.
unfoldable pub passes_floor : Floor → Triple → Bool
passes_floor none t = true
passes_floor (some (floor_ts, floor_lev)) t = not (t.0 == floor_ts) || ltb t.1 floor_lev

unfoldable pub apply_floor : Floor → List Triple → List Triple
apply_floor none guarded = guarded
apply_floor (some floor) guarded = keep_if (passes_floor (some floor)) guarded

abbrev pub cut_at : List Triple → Option ℕ → List Triple × Bool
cut_at guarded none = (guarded, false)
cut_at guarded (some idx) = (take idx guarded, true)

-- The entries not older than `since`, and whether an older one was met.
unfoldable pub truncate_since : ℕ → List Triple → List Triple × Bool
truncate_since since guarded =
    if ltb 0 since
    then cut_at guarded (position (λ (t : Triple). ltb t.0 since) guarded)
    else (guarded, false)

-- `key[..len - 8]`, with `saturating_sub`
unfoldable pub stream_prefix : Bytes → Bytes
stream_prefix key = take (length key - 8) key

unfoldable pub new_stream : Bytes → StreamState
new_stream key = record {
  resume_key = key;
  first_batch = true;
  prefix = stream_prefix key;
  exhausted = false;
  buffer = [];
  buf_pos = 0;
}

-- A window that was read: the stream's buffer, or another attempt.
unfoldable pub load_window :
    {E : Type 0}
    → ℕ
    → Floor
    → StreamState
    → List Triple
    → Result E StreamState
    → Result E StreamState
load_window since floor s guarded again =
    let floored = apply_floor floor guarded in
    let (truncated, cut) = truncate_since since floored in
    if is_empty guarded
    then ok (drained s)
    else if is_empty floored
    then again
    else if is_empty truncated
    then ok (record s { exhausted = s.exhausted || cut; buffer = []; buf_pos = 0 })
    else ok (record s { exhausted = s.exhausted || cut; buffer = truncated; buf_pos = 0 })

-- Pushes the next head of a stream, if any remains.
unfoldable pub push_head : ℕ → StreamState → List MergeCandidate → List MergeCandidate
push_head idx s heap = elim (peek s) [
  | none ↦ heap
  | some t ↦
      heap_push (record { created_at = t.0; lev_id = t.1; key_bytes = t.2; stream_idx = idx }) heap
]

-- Seeds the heap with the heads of the streams from index `idx` on.
unfoldable pub seed : ℕ → List StreamState → List MergeCandidate → List MergeCandidate
seed idx [] heap = heap
seed idx (s ∷ streams) heap = seed (suc idx) streams (push_head idx s heap)

module _ {E : Type 0} (scan : Bytes → Bool → ℕ → Result E (List Hit × Bytes × Bool))
    (batch_size since : ℕ) (floor : Floor) where
  -- The loop of `refill_stream`, on the attempts left.
  unfoldable pub refill_attempts : ℕ → StreamState → Result E StreamState
  refill_attempts zero s = ok (drained s)
  refill_attempts (suc n) s = do
    window ← scan s.resume_key s.first_batch batch_size
    let s' = record s { resume_key = window.1; first_batch = window.2 }
    if is_empty window.0
        then ok (drained s')
        else load_window since floor s' (guard_prefix s.prefix window.0) (refill_attempts n s')

  unfoldable pub refill_stream : StreamState → Result E StreamState
  refill_stream s = refill_attempts 2 s

  unfoldable pub refill_all : List StreamState → Result E (List StreamState)
  refill_all [] = ok []
  refill_all (s ∷ streams) = do
    s' ← refill_stream s
    streams' ← refill_all streams
    ok (s' ∷ streams')

  -- Consumes the entry at `buf_pos`, and refills the stream if that was its last.
  unfoldable pub advance_stream : StreamState → Result E StreamState
  advance_stream s =
      let s' = record s { buf_pos = s.buf_pos + 1 } in
      if needs_refill s' then refill_stream s' else ok s'

  -- `streams[idx]` out of bounds would panic: here no stream changes.
  unfoldable pub advance :
      ℕ → List StreamState → List MergeCandidate → Result E (List StreamState × List MergeCandidate)
  advance idx streams heap = elim (get_elem? streams idx) [
    | none ↦ ok (streams, heap)
    | some s ↦ (do s' ← advance_stream s; ok (set streams idx s', push_head idx s' heap))
  ]

  -- The loop, on the number of results that are still wanted.
  unfoldable pub merge_loop : ℕ → List StreamState → List MergeCandidate → Result E (List Triple)
  merge_loop zero streams heap = ok []
  merge_loop (suc room) streams [] = ok []
  merge_loop (suc room) streams (c ∷ heap) =
      let t : Triple = (c.created_at, c.lev_id, c.key_bytes) in
      let more = (do
        next ← advance c.stream_idx streams heap
        results ← merge_loop room next.0 next.1
        ok (t ∷ results)) in
      if room == 0 then ok (t ∷ []) else more

  unfoldable pub merge_windowed : List Bytes → ℕ → Result E (List Triple)
  merge_windowed start_keys emit_limit =
      let run = (do
        streams ← refill_all (map new_stream start_keys)
        merge_loop emit_limit streams (seed 0 streams [])) in
      if is_empty start_keys || emit_limit == 0 then ok [] else run

-- One first page: the window and the number of results are both the limit, or 256 without one.
unfoldable pub merge_prefixes :
    {E : Type 0}
    → (Bytes → Bool → ℕ → Result E (List Hit × Bytes × Bool))
    → List Bytes
    → ℕ
    → Result E (List Triple)
merge_prefixes scan start_keys limit =
    let scan_limit = if limit == 0 then default_window_size else limit in
    if is_empty start_keys
    then ok []
    else merge_windowed scan scan_limit 0 none start_keys scan_limit
