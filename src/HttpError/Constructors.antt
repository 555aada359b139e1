-- ===== src/HttpError/Constructors.antt =====
-- The errors that xhttp/httperror/errors.go makes for the codes of codes.go. The message is what
-- `fmt.Sprintf` has built.
use dolly.Prelude.{Str, codes}
use dolly.HttpError.{Error, new_error, unexpected}

unfoldable pub with_invalid_param : Str → Error
unfolding new_error
with_invalid_param message = new_error 400 (codes "invalid_parameter") message

unfoldable pub with_invalid_json : Str → Error
unfolding new_error
with_invalid_json message = new_error 400 (codes "invalid_json") message

unfoldable pub with_bad_nonce : Str → Error
unfolding new_error
with_bad_nonce message = new_error 400 (codes "bad_nonce") message

unfoldable pub with_invalid_request : Str → Error
unfolding new_error
with_invalid_request message = new_error 400 (codes "invalid_request") message

unfoldable pub with_malformed : Str → Error
unfolding new_error
with_malformed message = new_error 400 (codes "malformed") message

unfoldable pub with_invalid_content_type : Str → Error
unfolding new_error
with_invalid_content_type message = new_error 400 (codes "invalid_content_type") message

unfoldable pub with_content_length_required : Error
unfolding new_error
with_content_length_required =
    new_error 400 (codes "content_length_required") (codes "Content-Length header not provided")

unfoldable pub with_not_found : Str → Error
unfolding new_error
with_not_found message = new_error 404 (codes "not_found") message

unfoldable pub with_request_too_large : Str → Error
unfolding new_error
with_request_too_large message = new_error 400 (codes "request_too_large") message

unfoldable pub with_failed_to_read_request_body : Str → Error
unfolding new_error
with_failed_to_read_request_body message = new_error 500 (codes "request_body") message

unfoldable pub with_rate_limit_exceeded : Str → Error
unfolding new_error
with_rate_limit_exceeded message = new_error 429 (codes "rate_limit_exceeded") message

unfoldable pub with_too_early : Str → Error
unfolding new_error
with_too_early message = new_error 425 (codes "too_early") message

unfoldable pub with_unexpected : Str → Error
unfolding new_error
with_unexpected message = new_error 500 unexpected message

unfoldable pub with_forbidden : Str → Error
unfolding new_error
with_forbidden message = new_error 403 (codes "forbidden") message

unfoldable pub with_unauthorized : Str → Error
unfolding new_error
with_unauthorized message = new_error 401 (codes "unauthorized") message

unfoldable pub with_account_not_found : Str → Error
unfolding new_error
with_account_not_found message = new_error 403 (codes "account_not_found") message

unfoldable pub with_not_ready : Str → Error
unfolding new_error
with_not_ready message = new_error 403 (codes "not_ready") message

unfoldable pub with_conflict : Str → Error
unfolding new_error
with_conflict message = new_error 409 (codes "conflict") message
