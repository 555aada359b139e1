-- ===== src/Retriable/Execute.antt =====
-- xhttp/retriable/retriable.go: `executeRequest`, the walk over the hosts. What `doHTTP` returns for
-- a host is an input.
use dolly.Prelude.{
  ℕ, ◌+◌, ◌-◌, Bool, true, ◌||◌, Option, none, some, List, [], ◌∷◌, ◌++◌, Str, codes, ltb, leb,
  ◌==◌, if◌then◌else◌, length,
}
use dolly.HttpError.{GoError, api, ManyError, add, new_error}
use dolly.Retriable.{Response, Outcome, replied, failed, Reader, rewind, unread, advance}

abbrev pub resp_of : Outcome → Option Response
resp_of (replied resp) = some resp
resp_of (failed resp err) = resp

-- `shouldTryDifferentHost`; a reply has a response.
unfoldable pub should_try_different_host : Outcome → Bool
should_try_different_host (failed resp err) = true
should_try_different_host (replied resp) = code == 500 || code == 503 || code == 504 || code == 429
  where
    open resp use {status_code as code}

-- The variables of `executeRequest`, with the bodies sent and the responses closed, oldest first.
pub record Walk : Type 0 where
  pub resp : Option Response
  pub many : Option ManyError
  pub body : Reader
  pub sent : List Str
  pub closed : List Response

-- `httperror.New` of a failing response
abbrev pub request_failed : Str → Str → Str → Response → GoError
request_failed method path host resp = api (
    new_error resp.status_code (codes "reques_failed")
      (method ++ codes " " ++ host ++ codes " " ++ path ++ codes " " ++ resp.status))

abbrev add_failed_status : Str → Str → Str → Response → Option ManyError → Option ManyError
add_failed_status method path host resp many =
    if leb 400 resp.status_code
    then some (add many host (request_failed method path host resp))
    else many

module _ (method path : Str) (hosts_count : ℕ) where
  -- The rest of the loop's body once another host is to be tried.
  unfoldable pub after_failure : ℕ → Str → Outcome → Walk → Walk
  unfolding rewind
  after_failure i host (failed resp err) w = record w {
    many = some (add w.many host err);
    body = rewind w.body;
  }
  after_failure i host (replied resp) w =
      let w' = record w {
        many = add_failed_status method path host resp w.many;
        body = rewind w.body;
      } in
      if ltb i (hosts_count - 1)
      then record w' { closed = w.closed ++ resp ∷ []; resp = none }
      else w'

-- `resp, err = c.doHTTP(…)`: the request is made from what the reader has left, and reads it all.
unfoldable pub call_host : Outcome → Walk → Walk
call_host outcome w = record w {
  resp = resp_of outcome;
  body = advance (length (unread w.body)) w.body;
  sent = w.sent ++ unread w.body ∷ [];
}

-- `do_http i host body` is what `doHTTP` returns for the host of the round `i`.
module _ (do_http : ℕ → Str → Str → Outcome) (method path : Str) (hosts_count : ℕ) where
  unfoldable pub host_loop : ℕ → List Str → Walk → Walk
  unfolding call_host after_failure should_try_different_host
  host_loop i [] w = w
  host_loop i (host ∷ hosts) w =
      let outcome = do_http i host (unread w.body) in
      let w' = call_host outcome w in
      let rest =
        host_loop (i + 1) hosts (after_failure method path hosts_count i host outcome w') in
      if should_try_different_host outcome then rest else w'

pub data Executed : Type 0 where
  got : Response → Executed
  all_failed : Option ManyError → Executed

abbrev finish : Option Response → Option ManyError → Executed
finish none many = all_failed many
finish (some resp) many = got resp

abbrev pub walk_of : Reader → Walk
walk_of body = record { resp = none; many = none; body = body; sent = []; closed = [] }

abbrev pub first_walk : Str → Walk
first_walk body = walk_of (record { bytes = body; pos = 0 })

-- `executeRequest`, with the reader as it comes; it returns the walk beside its result, to show what
-- was sent and closed.
unfoldable pub execute_from :
    (ℕ → Str → Str → Outcome) → Str → List Str → Str → Reader → Executed × Walk
unfolding host_loop
execute_from do_http method hosts path body =
    let w = host_loop do_http method path (length hosts) 0 hosts (walk_of body) in
    (finish w.resp w.many, w)

-- `executeRequest` with a body that is read from its start
unfoldable pub execute_request :
    (ℕ → Str → Str → Outcome) → Str → List Str → Str → Str → Executed × Walk
unfolding execute_from
execute_request do_http method hosts path body =
    execute_from do_http method hosts path (record { bytes = body; pos = 0 })
