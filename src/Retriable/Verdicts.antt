-- ===== src/Retriable/Verdicts.antt =====
-- What the retry policy decides: `ShouldRetry`, and `NewDefaultPolicy`.
use dolly.Prelude.{ℕ, ◌≤◌, ◌<◌, ◌≡◌, ◌↔◌, ◌⊎◌, inl, inr, refl, true, false, Option, arith}
use dolly.Slices.{string_contains_one_of}
use dolly.HttpError.{GoError, go_error_text}
use dolly.Retriable.{
  Response, Outcome, replied, failed, CtxState, live, canceled, deadline_exceeded, other_cause,
  Policy, new_default_policy, should_retry, non_retriable_errors,
}

-- A context that does not end the request.
abbrev pub IsOpen : CtxState → Type 0
IsOpen live = Unit
IsOpen canceled = ⊥
IsOpen deadline_exceeded = ⊥
IsOpen other_cause = Unit

-- When the default policy is meant to send a request again after `n` retries.
abbrev pub DefaultRetry : Outcome → CtxState → ℕ → Type 0
DefaultRetry (replied resp) ctx n =
    ((resp.status_code ≡ 429) × (n ≤ 3))
    ⊎ ((resp.status_code ≡ 502) ⊎ (resp.status_code ≡ 503)) × (n < 10)
DefaultRetry (failed resp err) ctx n =
    IsOpen ctx × (string_contains_one_of (go_error_text err) non_retriable_errors ≡ false) × (n ≤ 5)

-- The default policy retries a response exactly if it is 429 after at most 3 retries, or 502 or 503
-- after fewer than 10; and an error exactly if the context is not cancelled or past its deadline,
-- the error's text holds none of the non-retriable texts, and there were at most 5 retries.
pub default_policy_iff :
    (o : Outcome) (ctx : CtxState) (n : ℕ)
    → ((should_retry new_default_policy o ctx n).retry ≡ true) ↔ DefaultRetry o ctx n
unfolding should_retry new_default_policy
default_policy_iff (replied resp) ctx n = ground arith
default_policy_iff (failed resp err) live n = ground arith
default_policy_iff (failed resp err) canceled n = ground arith
default_policy_iff (failed resp err) deadline_exceeded n = ground arith
default_policy_iff (failed resp err) other_cause n = ground arith

-- Whatever the policy's functions say, a response is retried only if its status is 429 or at least
-- 500 and the retries are below the total limit, and an error only if the context is neither
-- cancelled nor past its deadline.
pub never_retried :
    (p : Policy) (resp : Response) (beside : Option Response) (err : GoError) (ctx : CtxState)
    (n : ℕ)
    → (((should_retry p (replied resp) ctx n).retry ≡ false)
        ⊎ ((resp.status_code ≡ 429) ⊎ (500 ≤ resp.status_code)) × (n < p.total_retry_limit))
      × (((should_retry p (failed beside err) ctx n).retry ≡ false) ⊎ IsOpen ctx)
unfolding should_retry
never_retried p resp beside err live n = (ground arith, inr tt)
never_retried p resp beside err canceled n = (ground arith, inl refl)
never_retried p resp beside err deadline_exceeded n = (ground arith, inl refl)
never_retried p resp beside err other_cause n = (ground arith, inr tt)
