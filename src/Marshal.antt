-- ===== src/Marshal.antt =====
-- xhttp/marshal: `WriteJSON` and its `DecodeBody`. The codec library, the compression and what
-- `fmt.Sprintf` makes of a format without arguments are parameters: `encode`, `gzip` and `sprintf`.
-- A handler's calls are `none` if it panics. The logs of `httpError` are not modelled.
pub mod Written
pub mod Examples
use mathlib.Core.Option
use dolly.Prelude.{
  Bool, true, false, ◌&&◌, Option, none, some, List, [], ◌∷◌, ◌++◌, Str, codes, ◌⊎◌, inl, inr,
  if◌then◌else◌,
}
use dolly.GoText.{contains}
use dolly.Http.{Call, set, write_header, write}
use dolly.Identity.{Request, get}
use dolly.HttpError.{Error, ManyError, new_error, with_cause, GoError, go_error_text}
use dolly.HttpError.Constructors.{with_unexpected}
use dolly.HttpError.Answers.{
  Json, null, content_type, application_json, should_pretty_print, write_error, write_many,
}

-- A value that implements `WriteHTTPResponse`; a nil pointer is `none`.
pub data Responder : Type 0 where
  api_error : Option Error → Responder
  many_errors : Option ManyError → Responder
  custom : (Option Request → Option (List Call)) → Responder

-- A body that is not nil. A `failure` is another error: its text, and what `errors.As` finds in its
-- chain. A `value` is what the codec sees of it.
pub data Body : Type 0 where
  responder : Responder → Body
  failure : Str → Option Responder → Body
  value : Json → Body

-- The first body that is not nil
unfoldable pub first_body : List (Option Body) → Option Body
first_body [] = none
first_body (none ∷ bodies) = first_body bodies
first_body (some b ∷ bodies) = some b

abbrev pub accept_encoding : Str
accept_encoding = codes "Accept-Encoding"

-- A nil request takes no encoding.
unfoldable pub takes_gzip : Option Request → Bool
unfolding contains
takes_gzip none = false
takes_gzip (some r) = contains (get accept_encoding r) (codes "gzip")

module _ (encode : Bool → Json → Str) (gzip sprintf : Str → Str) where
  -- The method `WriteHTTPResponse` of the value
  unfoldable pub respond : Responder → Option Request → Option (List Call)
  unfolding write_error write_many
  respond (api_error e) r = write_error encode e r
  respond (many_errors m) r = write_many encode m r
  respond (custom f) r = f r

  abbrev pub value_calls : Bool → Json → Bool → List Call
  value_calls zipped json pretty =
      let plain = encode pretty json in
      if zipped
      then set content_type application_json
        ∷ set (codes "Content-Encoding") (codes "gzip")
        ∷ write (gzip plain)
        ∷ []
      else set content_type application_json ∷ write plain ∷ []

  -- The default branch of `WriteJSON`; `NewEncoder` reads the URL of the request.
  unfoldable pub write_value : Json → Option Request → Option (List Call)
  unfolding takes_gzip should_pretty_print
  write_value json r = Option.map (value_calls (takes_gzip r) json) (should_pretty_print r)

  unfoldable pub write_failure : Str → Option Responder → Option Request → Option (List Call)
  unfolding respond with_unexpected
  write_failure text none r = respond (api_error (some (with_unexpected (sprintf text)))) r
  write_failure text (some found) r = respond found r

  unfoldable pub write_body : Option Body → Option Request → Option (List Call)
  unfolding respond write_failure write_value
  write_body none r = write_value null r
  write_body (some (responder b)) r = respond b r
  write_body (some (failure text found)) r = write_failure text found r
  write_body (some (value json)) r = write_value json r

  -- `WriteJSON`
  unfoldable pub write_json : Option Request → List (Option Body) → Option (List Call)
  unfolding first_body write_body
  write_json r bodies = write_body (first_body bodies) r

  -- `DecodeBody`: `decode` is `Decode` on the body of the request into the `result`, whose Go type is
  -- named `kind`. It returns the value, or the error beside the calls of the answer.
  unfoldable pub decode_body {ℓ} :
      {A : Type ℓ}
      → (Str → GoError ⊎ A)
      → Str
      → Str
      → Option Request
      → Option ((GoError × List Call) ⊎ A)
  unfolding write_json go_error_text new_error with_cause
  decode_body decode kind body r = elim (decode body) [
    | inr a ↦ some (inr a)
    | inl err ↦
        Option.map (λ cs. inl (err, cs))
          (write_json r (
            some (
              responder (
                api_error (
                  some (
                    with_cause
                      (new_error 400 (codes "invalid_json") (
                        codes "failed to decode '" ++ (kind ++ (codes "': " ++ go_error_text err))))
                      err))))
            ∷ []))
  ]
