-- ===== src/Rest/Address.antt =====
-- The server's address: `GetServerURL` and `GetServerBaseURL`, against the bind address.
use dolly.Prelude.{
  ℕ, suc, ◌+◌, ◌≡◌, ◌≢◌, refl, ap, Option, none, some, [], ◌∷◌, ◌++◌, Str, codes, str_eq,
  str_eq-nil, length, take, drop, arith, if◌then◌else◌,
}
use dolly.GoText.{last_index_byte}
use dolly.GoText.Laws.{IsWhole}
use dolly.Identity.{Request}
use dolly.Xhttp.{Url, forwarded_proto}
use dolly.Rest.{
  HttpServer, HttpServerConfig, ClientAuthType, new, get_port, get_host_name, protocol,
}

abbrev host_port : HttpServer → Str
host_port s = s.hostname ++ (codes ":" ++ s.port)

abbrev pub first_text : Str → Str → Str
first_text [] other = other
first_text (c ∷ s) other = c ∷ s

-- `GetServerURL`
unfoldable pub get_server_url : HttpServer → Request → Str → Url
unfolding protocol
get_server_url s r relative_endpoint = record {
  scheme = forwarded_proto r (protocol s);
  host = first_text r.url_host (first_text r.host (host_port s));
  path = relative_endpoint;
}

-- `GetServerBaseURL`
unfoldable pub get_server_base_url : HttpServer → Url
unfolding protocol
get_server_base_url s = record { scheme = protocol s; host = host_port s; path = [] }

last_index-whole : (s : Str) (b : ℕ) → IsWhole b s → last_index_byte s b ≡ none
unfolding last_index_byte
last_index-whole [] b h = refl
last_index-whole (c ∷ s) b h = rw (last_index-whole s b h.1) (rw h.0)

last_index-append :
    (s t : Str) (b : ℕ) → IsWhole b t → last_index_byte (s ++ b ∷ t) b ≡ some (length s)
unfolding last_index_byte
last_index-append [] t b h = rw (last_index-whole t b h) (ground arith)
last_index-append (c ∷ s) t b h = rw (last_index-append s t b h)

take-length : (s t : Str) → take (length s) (s ++ t) ≡ s
take-length [] t = refl
take-length (c ∷ s) t = ap (λ r. c ∷ r) (take-length s t)

drop-length-suc : (s t : Str) (c : ℕ) → drop (suc (length s)) (s ++ c ∷ t) ≡ t
drop-length-suc [] t c = refl
drop-length-suc (d ∷ s) t c = drop-length-suc s t c

-- The last colon of a bind address separates the port.
pub get_port-append : (host port : Str) → IsWhole b':' port → get_port (host ++ b':' ∷ port) ≡ port
unfolding get_port
get_port-append host port whole =
    let e : length host + 1 ≡ suc (length host) = omega arith in
    rw (last_index-append host port b':' whole, e) (drop-length-suc host port b':')

pub get_host_name-append :
    (os_name host port : Str)
    → host ≢ []
    → IsWhole b':' port
    → get_host_name os_name (host ++ b':' ∷ port) ≡ host
unfolding get_host_name
get_host_name-append os_name host port named whole =
    rw (
      last_index-append host port b':' whole,
      take-length host (b':' ∷ port),
      str_eq-nil host named,
    )

-- A server that `New` makes for a bind address of a host and a port is known by just this address: it
-- is the host of its base URL, and of the URL that `GetServerURL` returns for any end-point if the request
-- names no host; the last colon separates the two, so the host may be an IPv6 address. Without a colon the
-- port is 443, and without a host the name is that of the machine.
pub base_url-bind_addr :
    (local_ip : Option Str) (os_name version ipaddr host port : Str) (config : HttpServerConfig)
    (tls : Option ClientAuthType) (r : Request) (endpoint : Str)
    → host ≢ []
    → IsWhole b':' port
    → r.host ≡ []
    → r.url_host ≡ []
    → let made = λ (addr : Str).
      new local_ip os_name version ipaddr (record config { bind_addr = addr }) tls in
      ((get_server_base_url (made (host ++ b':' ∷ port))).host ≡ host ++ b':' ∷ port)
      × ((get_server_url (made (host ++ b':' ∷ port)) r endpoint).host ≡ host ++ b':' ∷ port)
      × ((get_server_base_url (made port)).host
          ≡ (if str_eq port [] then os_name else port) ++ codes ":443")
      × ((get_server_base_url (made (b':' ∷ port))).host ≡ os_name ++ b':' ∷ port)
unfolding get_server_base_url get_server_url new
base_url-bind_addr local_ip os_name version ipaddr host port config tls r endpoint named whole e f =
    let hn = get_host_name-append os_name host port named whole in
    let pt = get_port-append host port whole in
    (
      rw (hn, pt),
      rw (e, f, hn, pt),
      unfold get_host_name get_port in rw (last_index-whole port b':' whole),
      unfold get_host_name get_port str_eq in rw (last_index-append [] port b':' whole),
    )
