-- ===== src/Spamhunter/Retry/Answers.antt =====
-- A retried call answers as one of its attempts did.
use deepfry.Base.{ℕ, zero, suc, ◌≡◌, refl, ap, of_both}
use deepfry.Base.Results.{Result, ok, err}
use deepfry.Spamhunter.Client.{ClientError}
use deepfry.Spamhunter.Retry.{Attempted, settle, attempts, retry, is_retryable}

-- The answer of a call that was retried is the answer of one call.
module _ {W A : Type 0} (op : W → Result ClientError A × W) where
  abbrev pub IsAnswer : Result ClientError A → Type 0
  IsAnswer (ok v) = (w : W) × (w' : W) × (op w ≡ (ok v, w'))
  IsAnswer (err e) = Unit

  op-IsAnswer : (w : W) (r : Result ClientError A) → (op w).0 ≡ r → IsAnswer r
  op-IsAnswer w (ok v) e = (w, (op w).1, ap (λ r. (r, (op w).1)) e)
  op-IsAnswer w (err x) e = tt

  settle-IsAnswer :
      (r : Result ClientError A) (w : W) (delay : ℕ) (rest : Attempted W A)
      → IsAnswer r
      → IsAnswer rest.answer
      → IsAnswer (settle r w delay rest).answer
  unfolding settle
  settle-IsAnswer (ok v) w delay rest a b = a
  settle-IsAnswer (err e) w delay rest a b =
      of_both (λ (r : Attempted W A). IsAnswer r.answer) (is_retryable e) _ _ b tt

  attempts-IsAnswer : (more delay : ℕ) (w : W) → IsAnswer (attempts op more delay w).answer
  unfolding attempts
  attempts-IsAnswer zero delay w = op-IsAnswer w _ refl
  attempts-IsAnswer (suc more) delay w =
      settle-IsAnswer (op w).0 (op w).1 delay _ (op-IsAnswer w (op w).0 refl)
        (attempts-IsAnswer more _ (op w).1)

  pub retry-IsAnswer : (w : W) → IsAnswer (retry op w).answer
  unfolding retry
  retry-IsAnswer w = attempts-IsAnswer _ _ w
