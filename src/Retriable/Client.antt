-- ===== src/Retriable/Client.antt =====
-- The client of xhttp/retriable/retriable.go: its options, the headers that it puts on a request, and
-- `doHTTP`. A TLS configuration and a DNS server are known by a name; the policy is not nil. A type
-- assertion that fails panics: `none`.
use mathlib.Core.Option
use dolly.Prelude.{
  ℕ, ◌*◌, Option, none, some, List, [], ◌∷◌, ◌++◌, Str, codes, str_eq, Assoc, insert, ltb,
  if◌then◌else◌, length,
}
use dolly.Http.{Header, canonical, add_value, set_value}
use dolly.Identity
use dolly.HttpError.{other}
use dolly.Retriable.{
  Outcome, failed, Policy, new_default_policy, second, Attempt, Trace, do_request,
}

-- `*http.Transport`, or another round tripper
pub data Transport : Type 0 where
  standard : Option Str → Option Str → Transport
  round_tripper : Transport

pub record Client : Type 0 where
  pub transport : Option Transport
  pub timeout : ℕ
  pub headers : Assoc Str
  pub name : Str
  pub policy : Policy

-- `(*Client).AddHeader`
unfoldable pub add_header : Str → Str → Client → Client
add_header header value c = record c { headers = insert header value c.headers }

unfoldable pub insert_all : Assoc Str → Assoc Str → Assoc Str
insert_all [] m = m
insert_all ((key, val) ∷ added) m = insert_all added (insert key val m)

-- `(*Client).WithHeaders`
unfoldable pub with_headers : Assoc Str → Client → Client
unfolding insert_all
with_headers headers c = record c { headers = insert_all headers c.headers }

abbrev set_tls : Str → Option Transport → Option Transport
set_tls tls none = some (standard (some tls) none)
set_tls tls (some (standard old dns)) = some (standard (some tls) dns)
set_tls tls (some round_tripper) = none

abbrev set_dns : Str → Option Transport → Option Transport
set_dns dns none = some (standard none (some dns))
set_dns dns (some (standard tls old)) = some (standard tls (some dns))
set_dns dns (some round_tripper) = none

-- `(*Client).WithTLS` and `(*Client).WithDNSServer`; a client without a transport gets a clone of
-- the default one.
unfoldable pub with_tls : Str → Client → Option Client
with_tls tls c = Option.map (λ t. record c { transport = some t }) (set_tls tls c.transport)

unfoldable pub with_dns_server : Str → Client → Option Client
with_dns_server dns c = Option.map (λ t. record c { transport = some t }) (set_dns dns c.transport)

-- `(*Client).WithTransport`, `WithName`, `WithPolicy` and `WithTimeout`
unfoldable pub with_transport : Transport → Client → Client
with_transport t c = record c { transport = some t }

unfoldable pub with_name : Str → Client → Client
with_name name c = record c { name = name }

unfoldable pub with_policy : Policy → Client → Client
with_policy p c = record c { policy = p }

unfoldable pub with_timeout : ℕ → Client → Client
with_timeout timeout c = record c { timeout = timeout }

pub data ClientOption : Type 0 where
  name tls dns_server : Str → ClientOption
  policy : Policy → ClientOption
  transport : Transport → ClientOption
  timeout : ℕ → ClientOption

unfoldable pub apply_option : ClientOption → Client → Option Client
unfolding with_tls with_dns_server with_transport with_name with_policy with_timeout
apply_option (name s) c = some (with_name s c)
apply_option (tls s) c = with_tls s c
apply_option (dns_server s) c = with_dns_server s c
apply_option (policy p) c = some (with_policy p c)
apply_option (transport t) c = some (with_transport t c)
apply_option (timeout n) c = some (with_timeout n c)

unfoldable pub apply_options : List ClientOption → Client → Option Client
unfolding apply_option
apply_options [] c = some c
apply_options (opt ∷ opts) c = Option.bind (apply_option opt c) (apply_options opts)

abbrev pub default_client : Client
default_client = record {
  transport = none;
  timeout = second * 30;
  headers = [];
  name = codes "retriable";
  policy = new_default_policy;
}

-- `New`
unfoldable pub new : List ClientOption → Option Client
unfolding apply_options
new opts = apply_options opts default_client

-- What the client reads of a Go context: the value for `contextValueForHTTPHeader`, if it is a
-- `map[string]string`, and the timeout that `ensureContext` has set. `background` has neither.
pub record Context : Type 0 where
  pub headers : Option (Assoc Str)
  pub timeout : Option ℕ

abbrev pub background : Context
background = record { headers = none; timeout = none }

abbrev pub or_background : Option Context → Context
or_background none = background
or_background (some ctx) = ctx

-- `ensureContext`; a nil context is `none`.
unfoldable pub ensure_context : Client → Option Context → Context
ensure_context c none =
    if ltb 0 c.policy.request_timeout
    then record background { timeout = some c.policy.request_timeout }
    else background
ensure_context c (some ctx) = ctx

-- `WithHeaders` of a context
unfoldable pub context_with_headers : Option Context → Assoc Str → Context
context_with_headers ctx headers = record (or_background ctx) { headers = some headers }

-- The loop of `PropagateHeadersFromRequest`
unfoldable pub propagated_values : Identity.Request → List Str → Assoc Str → Assoc Str
propagated_values r [] values = values
propagated_values r (header ∷ headers) values =
    let val = Identity.get (canonical header) r in
    propagated_values r headers (if str_eq val [] then values else insert header val values)

-- `PropagateHeadersFromRequest`
unfoldable pub propagate_headers : Option Context → Identity.Request → List Str → Context
unfolding propagated_values
propagate_headers ctx r headers =
    let values = propagated_values r headers [] in
    if ltb 0 (length values)
    then record (or_background ctx) { headers = some values }
    else or_background ctx

unfoldable pub add_values : Assoc Str → Header → Header
unfolding add_value
add_values [] h = h
add_values ((key, val) ∷ m) h = add_values m (add_value key val h)

unfoldable pub set_values : Assoc Str → Header → Header
unfolding set_value
set_values [] h = h
set_values ((key, val) ∷ m) h = set_values m (set_value key val h)

abbrev pub set_given : Option (Assoc Str) → Header → Header
set_given none h = h
set_given (some m) h = set_values m h

-- The headers that `doHTTP` puts on its request
unfoldable pub request_header : Client → Context → Header
unfolding add_values set_values
request_header c ctx = set_given ctx.headers (add_values c.headers [])

unfoldable pub add_each : Str → List Str → Header → Header
unfolding add_value
add_each key [] h = h
add_each key (val ∷ vals) h = add_each key vals (add_value key val h)

unfoldable pub add_entries : Header → Header → Header
unfolding add_each
add_entries [] h = h
add_entries ((key, vals) ∷ m) h = add_entries m (add_each key vals h)

-- The headers of the request that `convertRequest` makes of another
unfoldable pub convert_header : Header → Header
unfolding add_entries
convert_header h = add_entries h []

abbrev pub result_of : Option Trace → Option Outcome
result_of none = none
result_of (some t) = some t.result

-- `doHTTP` for the host of the round `i`. `url_error` is the error of `http.NewRequest` for a method
-- and a URL, and `attempts` what the transport does on each attempt at a request with some headers;
-- `none` means that the fuel of `Do` ran out.
unfoldable pub do_http :
    ℕ
    → Client
    → Context
    → (Str → Str → Option Str)
    → (ℕ → Str → Header → ℕ → Attempt)
    → Str
    → Str
    → ℕ
    → Str
    → Str
    → Option Outcome
unfolding request_header convert_header do_request
do_http fuel c ctx url_error attempts method path i host body =
    elim (url_error method (host ++ path)) [
      | some text ↦ some (failed none (other text))
      | none ↦ result_of (
          do_request fuel c.policy
            (attempts i (host ++ path) (convert_header (request_header c ctx))) body)
    ]
