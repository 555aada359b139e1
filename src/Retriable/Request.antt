-- ===== src/Retriable/Request.antt =====
-- `Request`, `Head` and `DecodeResponse` of xhttp/retriable/retriable.go. What encoding/json decodes a
-- body to, and what the writer of the caller takes, are parameters, as is what a reader holds.
use dolly.Prelude.{
  ℕ, Option, none, some, List, [], Str, codes, str_eq, ◌⊎◌, inl, inr, leb, ◌==◌, if◌then◌else◌,
}
use dolly.Http.{Header}
use dolly.HttpError.{Error, ManyError, new_error}
use dolly.Retriable.{Response, Outcome, Reader}
use dolly.Retriable.Execute.{Executed, got, all_failed, execute_from}

-- The dynamic types of `requestBody`. `reader` has what `ioutil.ReadAll` returns, and `object` what
-- `json.Marshal` returns: an error's text or bytes.
pub data RequestBody : Type 0 where
  no_body : RequestBody
  read_seeker : Reader → RequestBody
  reader : Str ⊎ Str → RequestBody
  bytes : Str → RequestBody
  text : Str → RequestBody
  object : Str ⊎ Str → RequestBody

abbrev pub from_start : Str → Reader
from_start s = record { bytes = s; pos = 0 }

abbrev pub read_from : Str ⊎ Str → Str ⊎ Reader
read_from (inl err) = inl err
read_from (inr s) = inr (from_start s)

-- The switch of `Request` on the type of its body; a request without a body has the empty reader.
unfoldable pub body_reader : RequestBody → Str ⊎ Reader
body_reader no_body = inr (from_start (codes ""))
body_reader (read_seeker r) = inr r
body_reader (reader read) = read_from read
body_reader (bytes s) = inr (from_start s)
body_reader (text s) = inr (from_start s)
body_reader (object json) = read_from json

-- The dynamic type of `body` in `DecodeResponse`: `io.Writer`, or a pointer that is decoded into
pub data Target : Type 0 where
  writer pointer : Target

-- The third result of `DecodeResponse`, and what it has done with the body.
pub data Decoded {ℓ} (V : Type ℓ) : Type ℓ where
  no_content : Decoded V
  api_err : Error → Decoded V
  text_err : Str → Decoded V
  copied : Str → Decoded V
  unable_to_read : Str → Decoded V
  decoded : V → Decoded V
  unable_to_decode : Str → Decoded V

-- `decode_error` is what a JSON decoder finds for the code and the message of an `Error`, `decode` what
-- it finds for the caller's type, or its error; `copy_error` is the error of the caller's writer.
module _ {ℓ} {V : Type ℓ} (decode_error : Str → Option (Str × Str)) (decode : Str → Str ⊎ V)
    (copy_error : Str → Option Str) where
  abbrev pub decode_failure : Response → Option (Str × Str) → Decoded V
  decode_failure resp none = text_err resp.body
  decode_failure resp (some (code, message)) =
      if str_eq code []
      then text_err resp.body
      else api_err (new_error resp.status_code code message)

  abbrev pub copied_or : Str → Option Str → Decoded V
  copied_or body none = copied body
  copied_or body (some err) = unable_to_read err

  abbrev pub decoded_or : Str ⊎ V → Decoded V
  decoded_or (inl err) = unable_to_decode err
  decoded_or (inr v) = decoded v

  unfoldable pub decode_success : Target → Str → Decoded V
  decode_success writer body = copied_or body (copy_error body)
  decode_success pointer body = decoded_or (decode body)

  -- `DecodeResponse`; it also returns the header and the status of the response.
  unfoldable pub decode_response : Target → Response → Header × ℕ × Decoded V
  unfolding decode_success new_error
  decode_response target resp = (
    resp.header,
    resp.status_code,
    if resp.status_code == 204
        then no_content
        else if leb 300 resp.status_code
        then decode_failure resp (decode_error resp.body)
        else decode_success target resp.body,
  )

  pub data Requested : Type ℓ where
    unable_to_send : Str → Requested
    hosts_failed : Option ManyError → Requested
    answered : Header × ℕ × Decoded V → Requested

  abbrev pub requested : Target → Executed → Requested
  requested target (got resp) = answered (decode_response target resp)
  requested target (all_failed many) = hosts_failed many

  abbrev pub send :
      (ℕ → Str → Str → Outcome) → Str → List Str → Str → Target → Str ⊎ Reader → Requested
  send do_http method hosts path target (inl err) = unable_to_send err
  send do_http method hosts path target (inr r) =
      requested target (execute_from do_http method hosts path r).0

  -- `Request`
  unfoldable pub request :
      (ℕ → Str → Str → Outcome) → Str → List Str → Str → RequestBody → Target → Requested
  unfolding body_reader execute_from decode_response
  request do_http method hosts path body target =
      send do_http method hosts path target (body_reader body)

abbrev pub head_of : Executed → Option ManyError ⊎ (Header × ℕ)
head_of (got resp) = inr (resp.header, resp.status_code)
head_of (all_failed many) = inl many

-- `Head`
unfoldable pub head : (ℕ → Str → Str → Outcome) → List Str → Str → Option ManyError ⊎ (Header × ℕ)
unfolding execute_from
head do_http hosts path =
    head_of (execute_from do_http (codes "HEAD") hosts path (from_start (codes ""))).0
