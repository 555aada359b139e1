-- ===== src/Xhttp/Examples.antt =====
-- The wrappers of xhttp at concrete inputs.
use mathlib.Core.Option
use dolly.Prelude.{
  ◌≡◌, refl, false, ◌⊎◌, none, some, List, [], ◌∷◌, codes, leb, if◌then◌else◌, lookup, str_eq,
}
use dolly.Http.{
  Call, write_header, write, Writer, new_writer, call, run, status, send_header, send_body,
}
use dolly.Identity.{Request, from_request, new_identity}
use dolly.Marshal.Examples.{plain_request}
use dolly.Xhttp.{
  new_response_capture, ResponseCapture, capture_calls, perf, successful, failed, request_metrics,
  request_log,
}
use dolly.Xhttp.Captured.{SendsOnce, capture-status}
use dolly.Xhttp.Metered.{tags_for, request_metrics-status}

abbrev calls : List Call
calls = write_header 404 ∷ write (codes "gone") ∷ []

abbrev writer : Writer
writer = record { header = []; sent = some (404, []); body = codes "gone" }

capture-status_example :
    let captured = capture_calls call calls (new_response_capture new_writer) in
    (Option.map (λ (x : ResponseCapture Writer). x.delegate) captured ≡ run calls new_writer)
    × ((¬ SendsOnce false calls)
        ⊎ (Option.map (λ (x : ResponseCapture Writer). x.status_code) captured
            ≡ Option.map status (run calls new_writer)))
capture-status_example = capture-status calls

abbrev known : Request
known = record plain_request {
  context =
      some (record { identity = some (new_identity (codes "bob") [] []); correlation_id = [] });
}

request_metrics-status_example :
    request_metrics known calls
    ≡ Option.map
        (λ id.
          let tags = tags_for known id (status writer) in
          perf tags ∷ (if leb 400 (status writer) then failed tags else successful tags) ∷ [])
        (from_request known).identity
request_metrics-status_example =
    request_metrics-status known calls writer
      (unfold run call send_header send_body Option.bind in refl) (refl, tt)

skipped :
    request_log
      (record {
        skip_paths = record { path = codes "/x"; agent = codes "*" } ∷ [];
        prefix = codes "api";
        extractor = none;
      })
      plain_request
      calls
    ≡ none
unfolding request_log lookup str_eq
skipped = refl
