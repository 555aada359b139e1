-- ===== src/Retriable/ClientExamples.antt =====
-- The client's headers and its answers at concrete inputs.
use dolly.Prelude.{
  ◌⊎◌, ◌≡◌, ◌≢◌, str_eq, refl, ℕ, zero, suc, none, some, List, [], ◌∷◌, ◌++◌, Str, codes, arith,
  ◌⊎◌, inr, lookup, insert,
}
use dolly.Identity
use dolly.GoText.{split}
use dolly.Http.{body_allowed, canonical, values, Writer}
use dolly.HttpError.{Error, new_error, other}
use dolly.HttpError.Constructors.{with_not_found}
use dolly.HttpError.Answers.{error_json}
use dolly.Marshal.{responder, api_error}
use dolly.Marshal.Written.{served, sent_as, error_served}
use dolly.Marshal.Examples.{zero_codec, zero_decoder, same, plain_request}
use dolly.Retriable.{Response, Outcome, replied, failed}
use dolly.Retriable.Execute.{should_try_different_host}
use dolly.Retriable.Client.{
  Client, Context, default_client, background, request_header, convert_header, propagate_headers,
}
use dolly.Retriable.Headers.{matching}
use dolly.Retriable.Walked.{sent_values}
use mathlib.Core.List.{Perm, Mem}
use mathlib.Core.List.Perm
use dolly.Retriable.Propagated.{propagated_header}
use dolly.Retriable.Request.{body_reader, bytes, pointer, request, answered, api_err}
use dolly.Retriable.Answered.{error_round_trip}

abbrev client : Client
client = record default_client {
  headers = (codes "x-key", codes "1") ∷ (codes "X-Key", codes "2") ∷ [];
}

abbrev incoming : Identity.Request
incoming = record plain_request { headers = (codes "X-Key", codes "3") ∷ [] }

abbrev names : List Str
names = codes "accept" ∷ codes "x-KEY" ∷ []

abbrev given : Context
given = record background { headers = some ((codes "X-key", codes "4") ∷ []) }

three_ne : codes "3" ≢ []
three_ne = cc

propagated_header_example :
    values
      (codes "x-KEY")
      (convert_header (request_header client (propagate_headers none incoming names)))
    ≡ Identity.get (codes "X-Key") incoming ∷ []
unfolding canonical lookup str_eq
propagated_header_example =
    propagated_header client none incoming (codes "accept" ∷ []) [] (codes "x-KEY")
      (λ e. three_ne e)

-- The context's value replaces both of the client's own, in whatever order these are.
sent_values_example :
    ((matching (canonical (codes "X-KEY")) ((codes "X-key", codes "4") ∷ []) ≡ [])
      × Perm (values (codes "X-KEY") (convert_header (request_header client given))) (
          matching
            (canonical (codes "X-KEY"))
            ((codes "X-Key", codes "2") ∷ (codes "x-key", codes "1") ∷ [])))
    ⊎ ((v : Str) × Mem v (matching (canonical (codes "X-KEY")) ((codes "X-key", codes "4") ∷ []))
        × (values (codes "X-KEY") (convert_header (request_header client given)) ≡ v ∷ []))
sent_values_example =
    sent_values client given ((codes "X-Key", codes "2") ∷ (codes "x-key", codes "1") ∷ [])
      ((codes "X-key", codes "4") ∷ []) (codes "X-KEY")
      (Perm.swap (codes "X-Key", codes "2") (codes "x-key", codes "1") [])
      (Perm.refl ((codes "X-key", codes "4") ∷ []))

sent_both :
    values (codes "x-key") (convert_header (request_header client background))
    ≡ codes "1" ∷ codes "2" ∷ []
unfolding convert_header request_header lookup insert canonical str_eq
sent_both = refl

-- A server that answers 404 with an error, behind a host that fails to connect.
abbrev missing : Error
missing = with_not_found (codes "/x")

abbrev missing_reply : Response
missing_reply = record {
  header = [];
  status_code = 404;
  status = codes "404 Not Found";
  body = codes "not_found" ++ 0 ∷ codes "/x";
}

abbrev two_hosts : ℕ → Str → Str → Outcome
two_hosts zero host body = failed none (other (codes "connection refused"))
two_hosts (suc n) host body = replied missing_reply

abbrev writer : Writer
writer = sent_as 404 (codes "not_found" ++ 0 ∷ codes "/x")

abbrev no_value : Str → Str ⊎ Str
no_value s = inr s

served-missing :
    served zero_codec same same plain_request (some (responder (api_error (some missing))) ∷ [])
    ≡ some writer
unfolding error_json with_not_found
served-missing =
    error_served zero_codec same same plain_request 0 (responder (api_error (some missing))) []
      missing refl (omega arith) (omega arith) (unfold body_allowed in refl)

error_round_trip_example :
    request zero_decoder no_value
      (λ s. none)
      two_hosts
      (codes "POST")
      (codes "a" ∷ codes "b" ∷ [])
      (codes "/x")
      (bytes (codes "body"))
      pointer
    ≡ answered ([], 404, api_err (new_error 404 (codes "not_found") (codes "/x")))
unfolding with_not_found body_reader should_try_different_host error_json split body_allowed
error_round_trip_example =
    error_round_trip zero_decoder no_value (λ s. none) zero_codec same same plain_request 0
      (responder (api_error (some missing))) [] missing two_hosts (codes "POST") (codes "/x")
      (codes "a" ∷ []) [] (codes "b") (codes "body") (bytes (codes "body")) pointer writer
      missing_reply refl (cc) (omega arith) (omega arith) refl refl served-missing refl refl refl
      (refl, tt) refl refl
