-- ===== src/Spamhunter/Retry.antt =====
-- spamhunter/pubkey_iterator/src/enumerate.rs: the retries with their pauses.
pub mod Answers
use Prim.Native.String.{String}
use deepfry.Base.{
  ℕ, zero, suc, ◌+◌, ◌-◌, ◌*◌, ◌≤◌, ◌≡◌, ◌≢◌, refl, arith, Bool, true, false, Bool-cases, Option,
  none, some, ◌⊎◌, inl, inr, List, [], ◌∷◌, length, min, if◌then◌else◌,
}
use deepfry.Base.Results.{Result, ok, err, Result-cases}
use deepfry.Spamhunter.Client.{ClientError, unavailable, payload_too_large, transport, graphql}

unfoldable pub max_attempts : ℕ
max_attempts = 5

-- Milliseconds.
unfoldable pub backoff_base : ℕ
backoff_base = 250

unfoldable pub backoff_cap : ℕ
backoff_cap = 10000

unfoldable pub is_retryable : ClientError → Bool
is_retryable unavailable = true
is_retryable transport = true
is_retryable (graphql none message) = true
is_retryable payload_too_large = false
is_retryable (graphql (some code) message) = false

-- The answer, the world after it, and the pauses that were made.
pub record Attempted (W A : Type 0) : Type 0 where
  pub answer : Result ClientError A
  pub world : W
  pub sleeps : List ℕ

-- The match on the answer of an attempt that is not the last, with what the next ones bring.
unfoldable pub settle :
    {W A : Type 0} → Result ClientError A → W → ℕ → Attempted W A → Attempted W A
settle (ok v) w delay rest = record { answer = ok v; world = w; sleeps = [] }
settle (err e) w delay rest =
    if is_retryable e
    then record rest { sleeps = delay ∷ rest.sleeps }
    else record { answer = err e; world = w; sleeps = [] }

module _ {W A : Type 0} (op : W → Result ClientError A × W) where
  -- The attempts from one on that has `more` after it.
  unfoldable pub attempts : ℕ → ℕ → W → Attempted W A
  attempts zero delay w =
      let (answer, w') = op w in record { answer = answer; world = w'; sleeps = [] }
  attempts (suc more) delay w =
      let (answer, w') = op w in
      settle answer w' delay (attempts more (min (delay * 2) backoff_cap) w')

  unfoldable pub retry : W → Attempted W A
  retry w = attempts (max_attempts - 1) backoff_base w
