-- ===== src/Identity/Realip.antt =====
-- xhttp/identity/realip.go, and `GuestIdentityMapper` of identity.go, which names a guest by the
-- address. What `net.ParseIP` reads and what `GetLocalIP` returns are parameters.
use dolly.Prelude.{
  ℕ, ◌+◌, ◌-◌, Bool, false, not, ◌&&◌, ◌||◌, Option, none, some, List, [], ◌∷◌, Str, codes, str_eq,
  ◌==◌, if◌then◌else◌, take, drop, ◌⊎◌, inr,
}
use dolly.GoText.{index_byte, last_index_byte, is_some, split, trim_space}
use dolly.Netutil.{IpAddress, is_private_address}
use dolly.Identity.{Identity, Request, get, new_identity, guest_role_name}

-- What `net.SplitHostPort` returns for the host between `]` at `end` and the last colon at `i`
abbrev bracketed : Str → ℕ → Option ℕ → Str
bracketed addr i none = []
bracketed addr i (some end) =
    let host = take (end - 1) (drop 1 addr) in
    if (end + 1 == i)
      && not (is_some (index_byte (drop 1 addr) b'['))
      && not (is_some (index_byte (drop (end + 1) addr) b']'))
    then host
    else []

abbrev unbracketed : Str → ℕ → Str
unbracketed addr i =
    if is_some (index_byte (take i addr) b':')
      || is_some (index_byte addr b'[')
      || is_some (index_byte addr b']')
    then []
    else take i addr

abbrev host_before : Str → Option ℕ → Str
host_before addr none = []
host_before [] (some i) = []
host_before (c ∷ addr) (some i) =
    if c == b'['
    then bracketed (c ∷ addr) i (index_byte (c ∷ addr) b']')
    else unbracketed (c ∷ addr) i

-- The host that `net.SplitHostPort` returns, which is empty on an error
unfoldable pub split_host : Str → Str
unfolding index_byte last_index_byte
split_host addr = host_before addr (last_index_byte addr b':')

abbrev or_no_address : Option Str → Str
or_no_address none = []
or_no_address (some ip) = ip

-- `!isPrivate && err == nil`
abbrev pub is_public : Option Bool → Bool
is_public none = false
is_public (some is_private) = not is_private

abbrev pub x_real_ip : Str
x_real_ip = codes "X-Real-Ip"

abbrev pub x_forwarded_for : Str
x_forwarded_for = codes "X-Forwarded-For"

abbrev first_or : Str → List Str → Str
first_or s [] = s
first_or s (name ∷ names) = name

abbrev peer_name : Str → Option (List Str) → Str
peer_name ip none = ip
peer_name ip (some names) = first_or ip names

-- The branch without either header
unfoldable pub remote_ip : Option Str → Request → Str
unfolding split_host index_byte
remote_ip local_ip r =
    let ip =
      if is_some (index_byte r.remote_addr b':') then split_host r.remote_addr else r.remote_addr in
    if str_eq ip [] then or_no_address local_ip else ip

-- The loop over the addresses, and what it leaves to return
unfoldable pub first_public : (Str → Option IpAddress) → List Str → Str → Str
unfolding is_private_address trim_space
first_public parse_ip [] real_ip = real_ip
first_public parse_ip (text ∷ texts) real_ip =
    let address = trim_space text in
    let rest = first_public parse_ip texts real_ip in
    if is_public (is_private_address parse_ip address) then address else rest

module _ (parse_ip : Str → Option IpAddress) (local_ip : Option Str) where
  -- `ClientIPFromRequest`
  unfoldable pub client_ip_from_request : Request → Str
  unfolding remote_ip first_public split
  client_ip_from_request r =
      let real_ip = get x_real_ip r in
      let forwarded = get x_forwarded_for r in
      if str_eq real_ip [] && str_eq forwarded []
      then remote_ip local_ip r
      else first_public parse_ip (split forwarded b',') real_ip

  -- `GuestIdentityMapper`
  unfoldable pub guest_identity_mapper : Request → Str ⊎ Option Identity
  unfolding client_ip_from_request
  guest_identity_mapper r =
      inr (some (new_identity guest_role_name (peer_name (client_ip_from_request r) r.tls) []))
