-- ===== src/Http.antt =====
-- What the packages use of Go's `net/http`: header maps, and the response writer of its server. A
-- handler only writes, so what it does to its writer is the list of its calls.
pub mod Canonical
pub mod Written
use mathlib.Core.Option
use dolly.Prelude.{
  ℕ, ◌+◌, ◌-◌, Bool, true, false, not, ◌&&◌, ◌||◌, Option, none, some, List, [], ◌∷◌, ◌++◌, Str,
  codes, Assoc, lookup, insert, ltb, leb, ◌==◌, if◌then◌else◌,
}
use dolly.GoText.{index_byte, is_some}

abbrev pub Header : Type 0
Header = Assoc (List Str)

-- `validHeaderFieldByte` of net/textproto
unfoldable pub is_token : ℕ → Bool
unfolding index_byte
is_token c =
    (leb b'0' c && leb c b'9')
    || (leb b'a' c && leb c b'z')
    || (leb b'A' c && leb c b'Z')
    || is_some (index_byte (codes "!#$%&'*+-.^_`|~") c)

unfoldable pub all_tokens : Str → Bool
unfolding is_token
all_tokens [] = true
all_tokens (c ∷ s) = is_token c && all_tokens s

abbrev pub in_case : Bool → ℕ → ℕ
in_case true c = if leb b'a' c && leb c b'z' then c - 32 else c
in_case false c = if leb b'A' c && leb c b'Z' then c + 32 else c

unfoldable pub cased : Bool → Str → Str
cased upper [] = []
cased upper (c ∷ s) = in_case upper c ∷ cased (in_case upper c == b'-') s

-- `textproto.CanonicalMIMEHeaderKey`
unfoldable pub canonical : Str → Str
unfolding all_tokens cased
canonical s = if all_tokens s then cased true s else s

abbrev pub or_nil : Option (List Str) → List Str
or_nil none = []
or_nil (some vals) = vals

abbrev pub values : Str → Header → List Str
values key h = or_nil (lookup (canonical key) h)

-- `Header.Add` and `Header.Set`
unfoldable pub add_value : Str → Str → Header → Header
add_value key val h = insert (canonical key) (values key h ++ val ∷ []) h

unfoldable pub set_value : Str → Str → Header → Header
set_value key val h = insert (canonical key) (val ∷ []) h

abbrev pub first_or_empty : List Str → Str
first_or_empty [] = []
first_or_empty (val ∷ vals) = val

-- `Header.Get`
abbrev pub value : Str → Header → Str
value key h = first_or_empty (values key h)

-- A call that a handler makes on its `ResponseWriter`; `set` is `w.Header().Set`.
pub data Call : Type 0 where
  set : Str → Str → Call
  write_header : ℕ → Call
  write : Str → Call
  flush : Call

-- The server's writer: the header map, the status and headers once they are sent, and the body.
pub record Writer : Type 0 where
  pub header : Header
  pub sent : Option (ℕ × Header)
  pub body : Str

abbrev pub new_writer : Writer
new_writer = record { header = []; sent = none; body = [] }

-- `bodyAllowedForStatus`
unfoldable pub body_allowed : ℕ → Bool
body_allowed status = not ((leb 100 status && leb status 199) || status == 204 || status == 304)

-- `WriteHeader`: a status outside of 100 to 999 panics, and a second call is ignored.
unfoldable pub send_header : ℕ → Writer → Option Writer
send_header status w = elim w.sent [
  | some s ↦ some w
  | none ↦
      if ltb status 100 || ltb 999 status
      then none
      else some (record w { sent = some (status, w.header) })
]

abbrev pub add_body : Str → Option (ℕ × Header) → Writer → Writer
add_body bytes none w = w
add_body bytes (some (status, h)) w =
    if body_allowed status then record w { body = w.body ++ bytes } else w

-- `Write` sends the status 200 if none is sent; a status without a body drops the bytes.
unfoldable pub send_body : Str → Writer → Option Writer
unfolding send_header body_allowed
send_body bytes w = Option.map (λ v. add_body bytes v.sent v) (send_header 200 w)

-- A call on the server's writer; a panic is `none`.
unfoldable pub call : Call → Writer → Option Writer
unfolding set_value send_header send_body
call (set key val) w = some (record w { header = set_value key val w.header })
call (write_header status) w = send_header status w
call (write bytes) w = send_body bytes w
call flush w = send_header 200 w

unfoldable pub run : List Call → Writer → Option Writer
unfolding call
run [] w = some w
run (c ∷ cs) w = Option.bind (call c w) (run cs)

-- The status that the client sees once the handler has returned.
abbrev pub status_of : Option (ℕ × Header) → ℕ
status_of none = 200
status_of (some (status, h)) = status

abbrev pub status : Writer → ℕ
status w = status_of w.sent
