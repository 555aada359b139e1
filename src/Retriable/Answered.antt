-- ===== src/Retriable/Answered.antt =====
-- What `Request` returns: the answer of the first good host, decoded; and the error that a server has
-- written with `WriteJSON`, read back by a client.
use dolly.Prelude.{
  ℕ, ◌≤◌, ◌≡◌, ◌≢◌, refl, ap, sym, ◌∙◌, Bool, true, false, Option, some, List, [], ◌∷◌, ◌++◌, Str,
  str_eq-nil, ◌⊎◌, inr, length, arith, leb, ◌==◌, if◌then◌else◌,
}
use dolly.Http.{Writer, body_allowed, status}
use dolly.Identity
use dolly.HttpError.{Error, new_error}
use dolly.HttpError.Answers.{Json, error_json}
use dolly.Marshal.{Body}
use dolly.Marshal.Written.{bodies_with, error_of, served, error_served, sent_as, pretty}
use dolly.Retriable.{Response, Outcome, replied, Reader, rewind, unread}
use dolly.Retriable.Execute.{
  should_try_different_host, execute_from, execute_request, Walk, host_loop, call_host,
  after_failure, walk_of,
}
use dolly.Retriable.Hosts.{Skipped, first_good_host}
use dolly.Retriable.Request.{
  RequestBody, body_reader, from_start, Target, api_err, decode_response, answered, request,
}

module _ {ℓ} {V : Type ℓ} (decode_error : Str → Option (Str × Str)) (decode : Str → Str ⊎ V)
    (copy_error : Str → Option Str) where
  -- Hosts are tried in order. If the body of a request is read from its start, each host of a list
  -- fails in a way that another is tried after, and the next replies with a status that is not 500, 503,
  -- 504 or 429, then `Request` returns this reply as `DecodeResponse` reads it.
  pub request_first_good :
      (do_http : ℕ → Str → Str → Outcome) (method path : Str) (before after : List Str)
      (host s : Str) (body : RequestBody) (target : Target) (resp : Response)
      → body_reader body ≡ inr (from_start s)
      → Skipped do_http s 0 before
      → do_http (length before) host s ≡ replied resp
      → should_try_different_host (replied resp) ≡ false
      → request decode_error decode copy_error do_http method
          (before ++ host ∷ after)
          path
          body
          target
        ≡ answered (decode_response decode_error decode copy_error target resp)
  unfolding request execute_request
  request_first_good do_http method path before after host s body target resp b skipped reply good =
      let (found, same, ends, sent, closed) =
        first_good_host do_http method path before after host s skipped (rw reply good) in
      let same_resp : found ≡ resp = replied_eq found (sym same ∙ reply) in rw (b, ends, same_resp)
    where
      replied_eq : (x : Response) → replied x ≡ replied resp → x ≡ resp
      replied_eq x h = cc h

  decode_response-error :
      (target : Target) (resp : Response) (code message : Str)
      → 300 ≤ resp.status_code
      → code ≢ []
      → decode_error resp.body ≡ some (code, message)
      → decode_response decode_error decode copy_error target resp
        ≡ (resp.header, resp.status_code, api_err (new_error resp.status_code code message))
  unfolding decode_response
  decode_response-error target resp code message high named read =
      let other : (resp.status_code == 204) ≡ false = ground arith in
      let failing : leb 300 resp.status_code ≡ true = ground arith in
      rw (other, failing, read, str_eq-nil code named)

  -- An error crosses the wire. A server answers with `WriteJSON`, the first of whose bodies that is not
  -- nil is, or holds in its chain, an `*Error` with a code, and with a status from 300 to 999 that has a
  -- body and is not one on which the client tries another host; the client's JSON decoder reads the
  -- code and the message that the codec wrote. If hosts before fail and this server's answer is what the
  -- transport delivers for the next one, then `Request` returns the status and an `*Error` with
  -- the status, the code and the message of the server's, and no cause.
  pub error_round_trip :
      (encode : Bool → Json → Str) (gzip sprintf : Str → Str) (r : Identity.Request) (nils : ℕ)
      (b : Body) (rest : List (Option Body)) (e : Error) (do_http : ℕ → Str → Str → Outcome)
      (method path : Str) (before after : List Str) (host s : Str) (body : RequestBody)
      (target : Target) (w : Writer) (resp : Response)
      → error_of sprintf b ≡ some e
      → e.code ≢ []
      → 300 ≤ e.http_status
      → e.http_status ≤ 999
      → body_allowed e.http_status ≡ true
      → decode_error (encode (pretty r) (error_json e)) ≡ some (e.code, e.message)
      → served encode gzip sprintf r (bodies_with nils b rest) ≡ some w
      → resp.status_code ≡ status w
      → resp.body ≡ w.body
      → body_reader body ≡ inr (from_start s)
      → Skipped do_http s 0 before
      → do_http (length before) host s ≡ replied resp
      → should_try_different_host (replied resp) ≡ false
      → request decode_error decode copy_error do_http method
          (before ++ host ∷ after)
          path
          body
          target
        ≡ answered (resp.header, e.http_status, api_err (new_error e.http_status e.code e.message))
  error_round_trip encode gzip sprintf r nils b rest e do_http method path before after host s body
        target w resp found named low high allowed read sent same_status same_body start skipped
        reply good =
      let sent_w : sent_as e.http_status (encode (pretty r) (error_json e)) ≡ w = some_eq (
        sym (error_served encode gzip sprintf r nils b rest e found (omega arith) high allowed)
        ∙ sent) in
      let same : resp.status_code ≡ e.http_status = same_status ∙ ap status (sym sent_w) in
      let text : resp.body ≡ encode (pretty r) (error_json e) =
        same_body ∙ ap (λ (v : Writer). v.body) (sym sent_w) in
      let high_enough : 300 ≤ resp.status_code = omega arith in
      request_first_good do_http method path before after host s body target resp start skipped
        reply good
      ∙ ap answered (
          decode_response-error target resp e.code e.message high_enough named
            (ap decode_error text ∙ read))
      ∙ ap (λ n. answered (resp.header, n, api_err (new_error n e.code e.message))) same
    where
      some_eq : {x y : Writer} → some x ≡ some y → x ≡ y
      some_eq h = cc h

module _ (method path : Str) (n i : ℕ) (host : Str) where
  after_call-body :
      (o : Outcome) (w : Walk)
      → (after_failure method path n i host o (call_host o w)).body
        ≡ record { bytes = w.body.bytes; pos = 0 }
  unfolding after_failure call_host rewind
  after_call-body o w = ground arith

  after_call-sent :
      (o : Outcome) (w : Walk)
      → (after_failure method path n i host o (call_host o w)).sent ≡ w.sent ++ unread w.body ∷ []
  unfolding after_failure call_host
  after_call-sent o w = ground arith

  one_host-sent :
      (do_http : ℕ → Str → Str → Outcome) (w : Walk)
      → (host_loop do_http method path n i (host ∷ []) w).sent ≡ w.sent ++ unread w.body ∷ []
  unfolding host_loop
  one_host-sent do_http w = go (should_try_different_host (do_http i host (unread w.body)))
    where
      o : Outcome
      o = do_http i host (unread w.body)

      go :
          (b : Bool)
          → (if b then after_failure method path n i host o (call_host o w) else call_host o w).sent
            ≡ w.sent ++ unread w.body ∷ []
      go true = after_call-sent o w
      go false = unfold call_host in refl

-- A body that is an `io.ReadSeeker` is sent to the first host from where it stands, but a host that is
-- tried after it gets it from its start: both get the same only if it stands there.
pub seeker_rewound :
    (do_http : ℕ → Str → Str → Outcome) (method path : Str) (first second : Str) (r : Reader)
    → should_try_different_host (do_http 0 first (unread r)) ≡ true
    → (execute_from do_http method (first ∷ second ∷ []) path r).1.sent ≡ unread r ∷ r.bytes ∷ []
unfolding execute_from host_loop
seeker_rewound do_http method path first second r h =
    let o = do_http 0 first (unread r) in
    let w = after_failure method path 2 0 first o (call_host o (walk_of r)) in
    rw h (
      one_host-sent method path 2 1 second do_http w
      ∙ ap (λ (b : Reader). w.sent ++ unread b ∷ [])
          (after_call-body method path 2 0 first o (walk_of r))
      ∙ ap (λ (s : List Str). s ++ r.bytes ∷ [])
          (after_call-sent method path 2 0 first o (walk_of r)))
