-- ===== src/Xhttp.antt =====
-- The wrappers of xhttp: response_capture.go, request_metrics.go and request_logger.go, and
-- `GetRelativeURL` of xhttp.go. The handler inside is known by the calls that it makes on its writer.
-- Not modelled: the time that a request takes, the log line's form, and the protocol version in it.
pub mod Captured
pub mod Metered
pub mod Examples
use mathlib.Core.Option
use dolly.Prelude.{
  ℕ, zero, suc, ◌+◌, ◌*◌, ◌%◌, ◌^◌, Bool, true, false, ◌&&◌, ◌||◌, not, Option, none, some, List,
  [], ◌∷◌, ◌++◌, Str, codes, str_eq, ltb, leb, length, get_elem?, if◌then◌else◌,
}
use dolly.GoText.{contains, join}
use dolly.GoText.Numbers.{format_int}
use dolly.Http.{Call, set, write_header, write, flush}
use dolly.Identity.{Identity, Request, from_request, get}

pub record ResponseCapture (W : Type 0) : Type 0 where
  pub status_code : ℕ
  pub body_size : ℕ
  pub delegate : W

-- `NewResponseCapture`
abbrev pub new_response_capture : {W : Type 0} → W → ResponseCapture W
new_response_capture w = record { status_code = 200; body_size = 0; delegate = w }

module _ {W : Type 0} (step : Call → W → Option W) where
  abbrev pub with_delegate : ResponseCapture W → Option W → Option (ResponseCapture W)
  with_delegate r w = Option.map (λ v. record r { delegate = v }) w

  -- The methods `Header`, `WriteHeader`, `Write` and `Flush`; `step` is a call on the delegate.
  unfoldable pub capture_call : Call → ResponseCapture W → Option (ResponseCapture W)
  capture_call (set key val) r = with_delegate r (step (set key val) r.delegate)
  capture_call (write_header sc) r =
      with_delegate (record r { status_code = sc }) (step (write_header sc) r.delegate)
  capture_call (write bytes) r =
      with_delegate (record r { body_size = (r.body_size + length bytes) % 2 ^ 64 })
        (step (write bytes) r.delegate)
  capture_call flush r = with_delegate r (step flush r.delegate)

  unfoldable pub capture_calls : List Call → ResponseCapture W → Option (ResponseCapture W)
  unfolding capture_call
  capture_calls [] r = some r
  capture_calls (c ∷ cs) r = Option.bind (capture_call c r) (capture_calls cs)

-- What a capture has of the calls that its delegate takes: the status and the size.
unfoldable pub observe : List Call → ℕ → ℕ → ℕ × ℕ
observe [] status size = (status, size)
observe (set key val ∷ cs) status size = observe cs status size
observe (write_header sc ∷ cs) status size = observe cs sc size
observe (write bytes ∷ cs) status size = observe cs status ((size + length bytes) % 2 ^ 64)
observe (flush ∷ cs) status size = observe cs status size

abbrev pub observed : List Call → ℕ × ℕ
observed cs = observe cs 200 0

-- The entries of the table `responseCodes` from an index on
unfoldable pub code_texts : ℕ → ℕ → List Str
unfolding format_int
code_texts zero i = []
code_texts (suc n) i = format_int i ∷ code_texts n (i + 1)

-- The table of `NewRequestMetrics`
unfoldable pub response_codes : List Str
unfolding code_texts
response_codes = code_texts 599 0

abbrev pub or_text : Option Str → Str → Str
or_text none s = s
or_text (some t) s = t

-- `(*requestMetrics).statusCode`
unfoldable pub status_text : ℕ → Str
unfolding response_codes
status_text status_code =
    if ltb status_code (length response_codes) && ltb 0 status_code
    then or_text (get_elem? response_codes status_code) []
    else format_int status_code

pub record Tags : Type 0 where
  pub method : Str
  pub role : Str
  pub status : Str
  pub uri : Str

-- What `ServeHTTP` tells the metrics: the measure of the time, and a counter.
pub data Metric : Type 0 where
  perf successful failed : Tags → Metric

-- `(*requestMetrics).ServeHTTP`, given the calls of the handler inside; it panics if the request has a
-- nil identity.
unfoldable pub request_metrics : Request → List Call → Option (List Metric)
unfolding observe status_text
request_metrics r cs =
    Option.map
      (λ id.
        let sc = (observed cs).0 in
        let tags : Tags = record {
          method = r.method;
          role = id.role;
          status = status_text sc;
          uri = r.path;
        } in
        perf tags ∷ (if leb 400 sc then failed tags else successful tags) ∷ [])
      (from_request r).identity

pub record LoggerSkipPath : Type 0 where
  pub path : Str
  pub agent : Str

pub record LoggerConfig : Type 0 where
  pub skip_paths : List LoggerSkipPath
  pub prefix : Str
  pub extractor : Option (Request → List Str)

pub record LogLine : Type 0 where
  pub prefix : Str
  pub client : Str
  pub method : Str
  pub path : Str
  pub remote_addr : Str
  pub status_code : ℕ
  pub body_size : ℕ
  pub agent : Str
  pub extra : Str

abbrev first_name : Option (List Str) → Str
first_name none = []
first_name (some []) = []
first_name (some (name ∷ names)) = name

-- `(*RequestLogger).client`
unfoldable pub client_name : Request → Str
client_name r = first_name r.tls

abbrev pub agent_of : Request → Str
agent_of r =
    let agent = get (codes "User-Agent") r in if str_eq agent [] then codes "no-agent" else agent

abbrev skip_matches : Str → Str → LoggerSkipPath → Bool
skip_matches path agent skip =
    (str_eq skip.path (codes "*") || str_eq path skip.path)
    && (str_eq skip.agent (codes "*") || contains agent skip.agent)

-- The loop over the paths to skip
unfoldable pub is_skipped : Str → Str → List LoggerSkipPath → Bool
unfolding contains
is_skipped path agent [] = false
is_skipped path agent (skip ∷ skips) = skip_matches path agent skip || is_skipped path agent skips

abbrev joined : List Str → Str
joined [] = []
joined (field ∷ fields) = b':' ∷ join (field ∷ fields) b':'

abbrev extra_of : Option (Request → List Str) → Request → Str
extra_of none r = []
extra_of (some extractor) r = joined (extractor r)

-- `(*RequestLogger).ServeHTTP`, given the calls of the handler inside: the line that it logs
unfoldable pub request_log : LoggerConfig → Request → List Call → Option LogLine
unfolding is_skipped client_name observe join
request_log cfg r cs =
    let line : LogLine = record {
      prefix = cfg.prefix;
      client = client_name r;
      method = r.method;
      path = r.path;
      remote_addr = r.remote_addr;
      status_code = (observed cs).0;
      body_size = (observed cs).1;
      agent = agent_of r;
      extra = extra_of cfg.extractor r;
    } in
    if is_skipped r.path (agent_of r) cfg.skip_paths then none else some line

pub record Url : Type 0 where
  pub scheme : Str
  pub host : Str
  pub path : Str

abbrev is_tls : Option (List Str) → Bool
is_tls none = false
is_tls (some names) = true

-- The protocol that a proxy gives in `X-Forwarded-Proto`, or the guess
abbrev pub forwarded_proto : Request → Str → Str
forwarded_proto r proto =
    let given = get (codes "X-Forwarded-Proto") r in if str_eq given [] then proto else given

-- `GetRelativeURL`
unfoldable pub get_relative_url : Request → Str → Url
get_relative_url request endpoint = record {
  scheme = forwarded_proto request (if is_tls request.tls then codes "https" else codes "http");
  host = if str_eq request.host [] then codes "localhost" else request.host;
  path = endpoint;
}
