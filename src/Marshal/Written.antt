-- ===== src/Marshal/Written.antt =====
-- What a server sends for the bodies of `WriteJSON`.
use mathlib.Core.Option
use dolly.Prelude.{
  ℕ, zero, suc, refl, replicate, ◌≤◌, ◌≡◌, Bool, true, Option, none, some, List, [], ◌∷◌, ◌++◌, Str,
  codes, arith, lookup,
}
use dolly.GoText.{is_some}
use dolly.Http.{Header, Writer, new_writer, body_allowed, run, set_value, call, send_header, status}
use dolly.Http.Written.{run_answer}
use dolly.Identity.{Request}
use dolly.HttpError.{Error, add, GoError}
use dolly.HttpError.Constructors.{with_unexpected}
use dolly.HttpError.Answers.{
  Json, error_json, content_type, application_json, should_pretty_print, write_error, write_many,
  answer,
}
use dolly.Marshal.{
  Responder, api_error, many_errors, Body, responder, failure, value, first_body, respond,
  write_failure, write_body, write_json,
}

abbrev pub pretty : Request → Bool
pretty r = is_some (lookup (codes "pp") r.query)

abbrev pub json_header : Header
json_header = set_value content_type application_json []

abbrev pub sent_as : ℕ → Str → Writer
sent_as status bytes = record {
  header = json_header;
  sent = some (status, json_header);
  body = bytes;
}

-- The error that `WriteJSON` answers with for a body that is an error and no other responder: the
-- `*Error` itself, the one that `errors.As` finds, or one with the code "unexpected".
abbrev pub error_of : (Str → Str) → Body → Option Error
error_of sprintf (responder (api_error e)) = e
error_of sprintf (failure text none) = some (with_unexpected (sprintf text))
error_of sprintf (failure text (some (api_error e))) = e
error_of sprintf _ = none

-- Bodies of which the first that is not nil is `b`
abbrev pub bodies_with : ℕ → Body → List (Option Body) → List (Option Body)
bodies_with nils b rest = replicate nils none ++ some b ∷ rest

first_body-replicate :
    (nils : ℕ) (b : Body) (rest : List (Option Body))
    → first_body (bodies_with nils b rest) ≡ some b
unfolding first_body
first_body-replicate zero b rest = refl
first_body-replicate (suc nils) b rest = first_body-replicate nils b rest

module _ (encode : Bool → Json → Str) (gzip sprintf : Str → Str) where
  -- The server's writer after `WriteJSON`; `none` is a panic.
  abbrev pub served : Request → List (Option Body) → Option Writer
  served r bodies =
      Option.bind (write_json encode gzip sprintf (some r) bodies) (λ cs. run cs new_writer)

  pub error_calls :
      (r : Request) (b : Body) (e : Error)
      → error_of sprintf b ≡ some e
      → write_body encode gzip sprintf (some b) (some r)
        ≡ some (answer encode e.http_status (error_json e) (pretty r))
  unfolding write_body write_failure respond write_error should_pretty_print
  error_calls r (responder (api_error none)) e h = absurd (cc h)
  error_calls r (responder (api_error (some x))) e h = cc h
  error_calls r (responder (many_errors m)) e h = absurd (cc h)
  error_calls r (responder (Responder.custom f)) e h = absurd (cc h)
  error_calls r (failure text none) e h = cc h
  error_calls r (failure text (some (api_error none))) e h = absurd (cc h)
  error_calls r (failure text (some (api_error (some x)))) e h = cc h
  error_calls r (failure text (some (many_errors m))) e h = absurd (cc h)
  error_calls r (failure text (some (Responder.custom f))) e h = absurd (cc h)
  error_calls r (value json) e h = absurd (cc h)

  -- Let the first body that is not nil be an `*Error`, or an error that is no responder and in whose chain
  -- the first responder is an `*Error`, neither of them nil, or there is no responder at all. Then `WriteJSON` sends the status of
  -- that `*Error` with the JSON of its code and message, and in the last case the status 500 with
  -- the code "unexpected" and the error's text as `fmt.Sprintf` writes it. The status is from 100 to 999 and one with a body.
  pub error_served :
      (r : Request) (nils : ℕ) (b : Body) (rest : List (Option Body)) (e : Error)
      → error_of sprintf b ≡ some e
      → 100 ≤ e.http_status
      → e.http_status ≤ 999
      → body_allowed e.http_status ≡ true
      → served r (bodies_with nils b rest)
        ≡ some (sent_as e.http_status (encode (pretty r) (error_json e)))
  unfolding write_json Option.bind
  error_served r nils b rest e found low high allowed =
      rw (first_body-replicate nils b rest, error_calls r b e found)
        (run_answer content_type application_json e.http_status (encode (pretty r) (error_json e))
          [] low high allowed)

  -- A `ManyError` that comes from `Add` on a nil one has no status: `WriteJSON` on it panics, as
  -- `WriteHeader` does on 0.
  pub collected_panics :
      (r : Request) (key : Str) (err : GoError) (bodies : List (Option Body))
      → served r (some (responder (many_errors (some (add none key err)))) ∷ bodies) ≡ none
  unfolding write_json first_body write_body respond write_many should_pretty_print add run call
      send_header Option.bind
  collected_panics r key err bodies = ground arith
