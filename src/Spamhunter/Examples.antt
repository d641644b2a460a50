-- ===== src/Spamhunter/Examples.antt =====
-- Witnesses and tests for the pubkey iterator.
use mathlib.Core.Path.{subst}
use deepfry.Base.{
  ℕ, zero, suc, ◌≡◌, ap, refl, sym, arith, true, false, Option, none, some, ◌⊎◌, inl, inr, List, [],
  ◌∷◌, map, bytes_eq, bytes_eq_refl, All, if◌then◌else◌,
}
use deepfry.Base.Results.{ok, ok-injective}
use deepfry.Base.Ints.{pos}
use deepfry.Base.Words.{Bytes}
use deepfry.Spamhunter.Model.{WriteMsg, score, pubkeys, flush, Tables}
use deepfry.Spamhunter.Store.{writer_loop, has_pubkey}
use deepfry.Spamhunter.Store.Runs.{
  new_run, begin_run, set_run_max_lev_start, update_run, update_row, set_run_cursor,
}
use deepfry.Spamhunter.Store.Handle.{
  open_store, writer_fails, insert_pubkeys, send, send_flush, flush_returns,
}
use deepfry.Spamhunter.Retry.{retry, attempts, settle, max_attempts}
use deepfry.Spamhunter.Store.Batches.{Written, writer_loop-Written}
use deepfry.Spamhunter.Store.Keys.{IsConsistent, IsWritable, writer_loop-IsConsistent}
use deepfry.Spamhunter.Client.{
  Http, Response, AuthorsPage, AuthorGroup, Event, authors, stats, latest_per_author, query,
  decode_body, open_envelope, data_or_error,
}
use deepfry.Spamhunter.Enumerate.{
  Options, State, returned, launch, step, step_at, choose, begin, begun, with_db, start_walk, probe,
  after_probe_start, fetch, after_fetch, enqueue, enqueued, after_enqueue, flushing, wait,
  after_save, valid_authors,
}
use deepfry.Spamhunter.Enumerate.Covers.{Covers, contains, UpTo}
use deepfry.Spamhunter.Enumerate.Phases.{IsSafe}
use deepfry.Spamhunter.Enumerate.Calls.{IsConsecutive}
use deepfry.Spamhunter.Enumerate.Steps.{here}
use deepfry.Spamhunter.Enumerate.Safety.{Reach-IsSafe}
use deepfry.Spamhunter.Enumerate.Ends.{HasPages, HasStats, beats}
use deepfry.Spamhunter.Enumerate.Fresh.{beats-Reach, walk-Covers}
use deepfry.Spamhunter.Fetch.{get, fetch_batch, match_groups}
use deepfry.Spamhunter.Fetch.Matching.{Distinct}
use deepfry.Spamhunter.Fetch.Splitting.{HasCapacity, fetch_batch-match_groups}
use deepfry.Spamhunter.Whitelist.{Whitelist, is_whitelisted_bulk, misses_of}
use deepfry.Spamhunter.Whitelist.Failsafe.{said_of, answer_of, first_of, is_whitelisted_bulk_lem}
use deepfry.Spamhunter.Pipeline.{Clients}

abbrev repeated : ℕ → ℕ → Bytes
repeated zero b = []
repeated (suc n) b = b ∷ repeated n b

-- 64 times the digit a, and b.
abbrev key_a : Bytes
key_a = repeated 64 97

abbrev key_b : Bytes
key_b = repeated 64 98

abbrev success : {A : Type 0} → A → Option (Response A)
success x =
    some (record { status = 200; body = some (record { data_field = some x; errors = none }) })

abbrev page_one : AuthorsPage
page_one = record { authors = key_a ∷ []; has_more = true; end_cursor = some key_a }

abbrev page_two : AuthorsPage
page_two = record { authors = key_b ∷ []; has_more = false; end_cursor = none }

abbrev note_of : Bytes → Event
note_of pk = record {
  id = [];
  pubkey = pk;
  kind = pos 1;
  created_at = pos 0;
  content = pk;
  tags = [];
}

abbrev group_of : Bytes → AuthorGroup
group_of pk = record { author = pk; events = note_of pk ∷ [] }

-- Two pages of one author, and one author a call.
abbrev page_after : Option Bytes → AuthorsPage
page_after none = page_one
page_after (some c) = page_two

abbrev latest_of : List Bytes → Option (Response (List AuthorGroup))
latest_of [] = success []
latest_of (pk ∷ []) = success (group_of pk ∷ [])
latest_of (pk ∷ other ∷ pks) = some (record { status = 413; body = none })

abbrev pub adapter : Http
adapter = record {
  World = Unit;
  post_authors = λ after limit w. (success (page_after after), w);
  post_stats = λ w. (success (record { max_lev_id = pos 7 }), w);
  post_latest = λ kind per_author batch w. (latest_of batch, w);
}

abbrev Before : Bytes → Bytes → Type 0
Before c pk = pk ≡ key_a

abbrev Listed : Bytes → Type 0
Listed pk = (pk ≡ key_a) ⊎ (pk ≡ key_b)

adapter-IsConsecutive : IsConsecutive adapter Before Listed
unfolding authors query decode_body open_envelope data_or_error contains bytes_eq
adapter-IsConsecutive none w page w' e pk u =
    subst (λ q. UpTo Before Listed q.end_cursor pk → ⊥ ⊎ (contains pk q.authors ≡ true))
      (ok-injective (ap (λ r. r.0) e))
      (λ f. inr (subst (λ k. contains k (key_a ∷ []) ≡ true) (sym f) refl)) u
adapter-IsConsecutive (some c) w page w' e pk u =
    subst (λ q. UpTo Before Listed q.end_cursor pk → (pk ≡ key_a) ⊎ (contains pk q.authors ≡ true))
      (ok-injective (ap (λ r. r.0) e))
      (λ f. elim f [
        | inl first ↦ inl first
        | inr second ↦ inr (subst (λ k. contains k (key_b ∷ []) ≡ true) (sym second) refl)
      ])
      u

adapter-HasPages : HasPages adapter none 1
unfolding authors query decode_body open_envelope data_or_error
adapter-HasPages = (page_one, λ w. refl, inr (key_a, refl, (page_two, λ w. refl, refl)))

adapter-HasStats : HasStats adapter
unfolding stats query decode_body open_envelope data_or_error
adapter-HasStats w = (record { max_lev_id = pos 7 }, refl)

abbrev pub empty_tables : Tables Unit
empty_tables = record {
  sequence = 0;
  run = [];
  pubkey = [];
  score = [];
  signal = [];
  fingerprint = [];
}

abbrev fresh_options : Options
fresh_options = record { resume = false; config_json = []; limit = none; now = 5 }

Reach-IsSafe_example :
    IsSafe Before Listed (beats adapter 9 (launch fresh_options empty_tables tt)).store.db
Reach-IsSafe_example =
    Reach-IsSafe adapter Before Listed adapter-IsConsecutive fresh_options empty_tables tt
      (beats adapter 9 (launch fresh_options empty_tables tt)) tt (beats-Reach adapter 9 here)

walk-Covers_example :
    (k : ℕ) × (id : ℕ) × ((beats adapter k (launch fresh_options empty_tables tt)).phase
      ≡ returned (ok id))
    × Covers Listed (beats adapter k (launch fresh_options empty_tables tt)).store.db
walk-Covers_example =
    walk-Covers adapter Before Listed adapter-IsConsecutive adapter-HasStats fresh_options
      empty_tables tt 1 refl refl (omega arith) tt adapter-HasPages

-- A run, a score in it, and a score in a run that is not there.
abbrev one_run : Tables Unit
one_run = record empty_tables { sequence = 1; run = new_run 1 5 [] ∷ [] }

abbrev score_in : ℕ → WriteMsg Unit
score_in id = score (record {
  run_id = id;
  pubkey = key_a;
  score = some tt;
  whitelisted = false;
  suspected = true;
  subscores = record { layer = []; value = some tt; evidence = none } ∷ [];
})

abbrev messages : List (WriteMsg Unit)
messages = pubkeys (key_b ∷ []) ∷ flush ∷ score_in 1 ∷ score_in 2 ∷ []

writer_loop-Written_example : Written messages one_run (writer_loop messages one_run)
writer_loop-Written_example = writer_loop-Written messages one_run

writer_loop-IsConsistent_example :
    IsConsistent (writer_loop messages one_run).0
    × (((writer_loop messages one_run).1 ≡ ok tt) ⊎ ¬ All (λ msg. IsWritable msg one_run) messages)
writer_loop-IsConsistent_example =
    writer_loop-IsConsistent messages one_run (record { scores = tt; signals = tt; prints = tt })

abbrev pub events_of : Bytes → List Event
events_of pk = note_of pk ∷ []

pub adapter-HasCapacity : (most : ℕ) → HasCapacity adapter (pos 1) (pos 100) events_of most
unfolding latest_per_author query decode_body open_envelope data_or_error
adapter-HasCapacity most [] w m = inl ([], refl, (tt, tt))
adapter-HasCapacity most (pk ∷ []) w m =
    inl (group_of pk ∷ [], refl, ((refl, tt), (inl (ground (arith, bytes_eq_refl pk)), tt)))
adapter-HasCapacity most (pk ∷ other ∷ pks) w m = inr (omega arith, refl)

abbrev pub two_keys : List Bytes
two_keys = key_a ∷ key_b ∷ []

two_keys-Distinct : Distinct two_keys
unfolding bytes_eq
two_keys-Distinct = ((refl, tt), (tt, tt))

fetch_batch-match_groups_example :
    (groups : List AuthorGroup) × ((fetch_batch adapter (pos 1) (pos 100) two_keys tt).0
      ≡ ok groups)
    × (match_groups two_keys groups ≡ map (λ pk. (pk, events_of pk)) two_keys)
fetch_batch-match_groups_example =
    fetch_batch-match_groups adapter (pos 1) (pos 100) events_of 2 (adapter-HasCapacity 2) two_keys
      tt two_keys-Distinct (omega arith)

-- A server that knows one pubkey, which is not listed.
abbrev pub list_server : Whitelist
list_server = record {
  World = Unit;
  check = λ pk w. (some false, w);
  check_bulk = λ pks w. (some ((key_a, false) ∷ []), w);
}

is_whitelisted_bulk_example :
    let said = said_of (list_server.check_bulk (misses_of [] two_keys) tt).0 key_b in
    let r = is_whitelisted_bulk list_server two_keys [] tt in
    (get key_b r.value
      ≡ (if contains key_b two_keys then some (answer_of (get key_b []) said) else none))
    × (get key_b r.cache
        ≡ (if contains key_b two_keys then first_of (get key_b []) said else get key_b []))
is_whitelisted_bulk_example = is_whitelisted_bulk_lem list_server two_keys [] tt key_b

abbrev pub clients : Clients Unit Unit
clients = record { http = tt; cache = []; list = tt }

abbrev stepped : ℕ → State Unit Unit → State Unit Unit
stepped zero s = s
stepped (suc n) s = stepped n (step adapter s)

-- The writer's transaction fails while the walk waits for its acknowledgement.
abbrev after_failure : State Unit Unit
after_failure =
    let s = stepped 6 (launch fresh_options empty_tables tt) in
    stepped 2 (record s { store = writer_fails s.store })

-- The flush returns all the same, and the cursor is stored without the pubkeys before it.
cursor_without_pubkeys :
    (map (λ r. r.last_cursor) after_failure.store.db.run ≡ some key_a ∷ [])
    × (has_pubkey key_a after_failure.store.db ≡ false)
unfolding step step_at launch open_store choose begin begun begin_run new_run with_db start_walk
    probe after_probe_start retry attempts settle max_attempts stats authors query decode_body
    open_envelope data_or_error set_run_max_lev_start update_run update_row fetch after_fetch
    enqueue enqueued after_enqueue insert_pubkeys send flushing send_flush wait flush_returns
    writer_fails set_run_cursor after_save has_pubkey valid_authors
cursor_without_pubkeys = (refl, refl)
