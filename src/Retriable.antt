-- ===== src/Retriable.antt =====
-- xhttp/retriable/retriable.go: the retry policy and the retry loop `Do`; the walk over the hosts is in
-- Execute.
-- What `net/http` does on an attempt is an input: `Outcome`. A reply has no error; a failure may
-- have a response beside it. Durations are nanoseconds, counters are not bounded.
pub mod Verdicts
pub mod Execute
pub mod Attempts
pub mod Hosts
pub mod Client
pub mod Headers
pub mod Sent
pub mod Walked
pub mod Propagated
pub mod Request
pub mod Answered
pub mod Examples
pub mod ClientExamples
use dolly.Prelude.{
  ℕ, zero, suc, ◌+◌, ◌-◌, ◌*◌, ◌/◌, ◌≡◌, Bool, true, false, not, ◌&&◌, ◌||◌, Option, none, some,
  List, [], ◌∷◌, ◌++◌, Str, codes, ltb, leb, ◌==◌, if◌then◌else◌, length, drop,
}
use dolly.GoText.{contains}
use dolly.Slices.{string_contains_one_of}
use dolly.Http.{Header}
use dolly.HttpError.{GoError, api, go_error_text, ManyError, add, new_error}

pub record Response : Type 0 where
  pub header : Header
  pub status_code : ℕ
  pub status : Str
  pub body : Str

pub data Outcome : Type 0 where
  replied : Response → Outcome
  failed : Option Response → GoError → Outcome

-- `r.Context().Err()` once the context is done; a context may also be done with another error.
pub data CtxState : Type 0 where
  live canceled deadline_exceeded other_cause : CtxState

pub record Verdict : Type 0 where
  pub retry : Bool
  pub sleep : ℕ
  pub reason : Str

abbrev pub ShouldRetry : Type 0
ShouldRetry = Outcome → ℕ → Verdict

-- `Retries` maps a status code to a function, 0 standing for connection errors.
pub record Policy : Type 0 where
  pub retries : ℕ → Option ShouldRetry
  pub total_retry_limit : ℕ
  pub request_timeout : ℕ

abbrev pub stop_with : Str → Verdict
stop_with reason = record { retry = false; sleep = 0; reason = reason }

abbrev pub success : Str
success = codes "success"

abbrev pub not_found : Str
not_found = codes "not-found"

abbrev pub limit_exceeded : Str
limit_exceeded = codes "limit-exceeded"

abbrev pub deadline : Str
deadline = codes "deadline"

abbrev pub cancelled : Str
cancelled = codes "cancelled"

abbrev pub non_retriable : Str
non_retriable = codes "non-retriable"

unfoldable pub should_retry_factory : ℕ → ℕ → Str → ShouldRetry
should_retry_factory limit wait reason outcome retries = record {
  retry = leb retries limit;
  sleep = wait;
  reason = reason;
}

abbrev pub second : ℕ
second = 1000000000

unfoldable pub default_retries : ℕ → Option ShouldRetry
unfolding should_retry_factory
default_retries status =
    if status == 0
    then some (should_retry_factory 5 (second * 2) (codes "connection"))
    else if status == 429
    then some (should_retry_factory 3 second (codes "rate-limit"))
    else if status == 503
    then some (should_retry_factory 10 (second / 2) (codes "unavailable"))
    else if status == 502
    then some (should_retry_factory 10 (second / 2) (codes "gateway"))
    else none

unfoldable pub new_default_policy : Policy
unfolding default_retries
new_default_policy = record {
  retries = default_retries;
  total_retry_limit = 10;
  request_timeout = 0;
}

abbrev pub non_retriable_errors : List Str
non_retriable_errors =
    codes "no such host"
    ∷ codes "TLS handshake error"
    ∷ codes "certificate signed by unknown authority"
    ∷ codes "client didn't provide a certificate"
    ∷ codes "tls: bad certificate"
    ∷ codes "x509: certificate"
    ∷ codes "x509: cannot validate certificate"
    ∷ codes "server gave HTTP response to HTTPS client"
    ∷ codes "dial tcp: lookup"
    ∷ []

-- `fn(r, resp, err, retries)` if the map has the key, and else the verdict given.
abbrev pub apply_rule : Option ShouldRetry → Outcome → ℕ → Verdict
apply_rule none outcome n = stop_with non_retriable
apply_rule (some rule) outcome n = rule outcome n

-- The branch of `ShouldRetry` on an error that the context did not cause.
unfoldable pub retry_error : Policy → Option Response → GoError → ℕ → Verdict
retry_error p resp err n =
    if string_contains_one_of (go_error_text err) non_retriable_errors
    then stop_with non_retriable
    else apply_rule (p.retries 0) (failed resp err) n

unfoldable pub retry_failed : Policy → Option Response → GoError → CtxState → ℕ → Verdict
unfolding retry_error
retry_failed p resp err canceled n = stop_with cancelled
retry_failed p resp err deadline_exceeded n = stop_with deadline
retry_failed p resp err _ n = retry_error p resp err n

-- The branch of `ShouldRetry` on a response.
unfoldable pub retry_replied : Policy → Response → ℕ → Verdict
retry_replied p resp n =
    if ltb code 400
    then stop_with success
    else if code == 404
    then stop_with not_found
    else if not (code == 429) && (leb 400 code && ltb code 500)
    then stop_with non_retriable
    else if leb p.total_retry_limit n
    then stop_with limit_exceeded
    else apply_rule (p.retries code) (replied resp) n
  where
    open resp use {status_code as code}

-- `(*Policy).ShouldRetry`. Its block under `r.TLS != nil` only writes to the log, and `Do` sends
-- requests made by `http.NewRequest`, whose `TLS` is nil.
unfoldable pub should_retry : Policy → Outcome → CtxState → ℕ → Verdict
unfolding retry_failed retry_replied
should_retry p (replied resp) ctx n = retry_replied p resp n
should_retry p (failed resp err) ctx n = retry_failed p resp err ctx n

-- The body's reader: `raw.Seek(0, 0)` rewinds it.
pub record Reader : Type 0 where
  pub bytes : Str
  pub pos : ℕ

unfoldable pub rewind : Reader → Reader
rewind r = record r { pos = 0 }

abbrev pub unread : Reader → Str
unread r = drop r.pos r.bytes

-- One attempt: what the transport returns, how much of the body it reads, and the context after it.
pub record Attempt : Type 0 where
  pub outcome : Outcome
  pub consumed : ℕ
  pub ctx : CtxState

-- What `Do` has done: the bodies sent and the pauses, the oldest first, and the last outcome.
pub record Trace : Type 0 where
  pub sent : List Str
  pub slept : List ℕ
  pub result : Outcome

abbrev pub advance : ℕ → Reader → Reader
advance n r = record r { pos = r.pos + n }

abbrev pub add_round : Str → ℕ → Option Trace → Option Trace
add_round body pause none = none
add_round body pause (some t) = some (record t { sent = body ∷ t.sent; slept = pause ∷ t.slept })

-- The loop of `Do` from the round `retries`; `none` means that the fuel ran out. `transport n` is
-- the attempt of round `n`. A request without a body has the empty reader.
unfoldable pub do_loop : ℕ → Policy → (ℕ → Attempt) → Reader → ℕ → Option Trace
unfolding should_retry rewind
do_loop zero p transport body retries = none
do_loop (suc fuel) p transport body retries =
    let r = rewind body in
    let a = transport retries in
    let verdict = should_retry p a.outcome a.ctx retries in
    let rest = do_loop fuel p transport (advance a.consumed r) (retries + 1) in
    if verdict.retry
    then add_round (unread r) verdict.sleep rest
    else some (record { sent = unread r ∷ []; slept = []; result = a.outcome })

-- `Do`: `convertRequest` has read the whole body into a new reader.
unfoldable pub do_request : ℕ → Policy → (ℕ → Attempt) → Str → Option Trace
unfolding do_loop
do_request fuel p transport body = do_loop fuel p transport (record { bytes = body; pos = 0 }) 0
