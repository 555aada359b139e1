-- ===== src/Cryptoprov/Uri.antt =====
-- The PKCS #11 URIs of xpki/cryptoprov/uri.go, and `LoadPrivateKey` of utils.go. `url.Parse`,
-- `url.ParseQuery` and `ioutil.ReadFile` are a parameter, what they return beside an error.
use dolly.Prelude.{
  Bool, not, ◌&&◌, ◌||◌, Option, none, some, List, [], ◌∷◌, ◌++◌, Str, codes, str_eq, Assoc, lookup,
  if◌then◌else◌, ◌==◌, Result, ok, panic, ◌>>=◌, ◌>>◌, guard, or_err,
}
use dolly.GoText.{has_prefix, replace, trim_right, trim_space}
use dolly.Cryptoprov.{Crypto, by_manufacturer}

pub record Url : Type 0 where
  pub scheme : Str
  pub opaque : Str
  pub path : Str

pub record System : Type 0 where
  pub parse_url : Str → Option Url
  pub parse_query : Str → Option (Assoc (List Str))
  pub read_file : Str → Option Str

-- `tokenConfig` of config.go; `Mod` is `model`.
pub record TokenConfig : Type 0 where
  pub man : Str
  pub model : Str
  pub dir : Str
  pub serial : Str
  pub label : Str
  pub pwd : Str
  pub attrs : Str

-- `keyURI`
pub record KeyUri : Type 0 where
  pub manufacturer : Str
  pub model : Str
  pub token_serial : Str
  pub token_label : Str
  pub id : Str

-- `Get` of `url.Values`
abbrev pub get : Assoc (List Str) → Str → Str
get val k = elim (lookup k val) [ none ↦ [] | some values ↦ elim values [ [] ↦ [] | v ∷ vs ↦ v ] ]

-- `setIfPresent`: the value that the target has after it
abbrev pub set_if_present : Assoc (List Str) → Str → Str → Str
set_if_present val k target = let sv = get val k in if str_eq sv [] then target else sv

-- strings.TrimRight(s, "\x00")
abbrev pub trim_nul : Str → Str
trim_nul s = trim_right (λ c. c == 0) s

abbrev pub or_panic : {A : Type 0} → Option A → Result A
or_panic none = panic
or_panic (some a) = ok a

abbrev pub token_of : Assoc (List Str) → TokenConfig
token_of attr = record {
  man = set_if_present attr (codes "manufacturer") [];
  model = set_if_present attr (codes "model") [];
  dir = set_if_present attr (codes "module-path") (set_if_present attr (codes "module-name") []);
  label = set_if_present attr (codes "token") [];
  serial = set_if_present attr (codes "serial") [];
  pwd = set_if_present attr (codes "pin-value") [];
  attrs = [];
}

abbrev pub key_of : Assoc (List Str) → KeyUri
key_of attr = record {
  manufacturer = trim_space (trim_nul (set_if_present attr (codes "manufacturer") []));
  model = trim_space (set_if_present attr (codes "model") []);
  token_serial = set_if_present attr (codes "serial") [];
  token_label = set_if_present attr (codes "token") [];
  id = set_if_present attr (codes "id") [];
}

-- objtype != "private" || c.tokenSerial == "" || c.id == ""
abbrev pub is_incomplete : Str → KeyUri → Bool
is_incomplete objtype c =
    not (str_eq objtype (codes "private")) || (str_eq c.token_serial [] || str_eq c.id [])

module _ (sys : System) where
  -- The attributes of a URI, which both parsers read first
  unfoldable pub attributes : Str → Result (Assoc (List Str))
  unfolding replace
  attributes uri = do
    u ← or_err (codes "invalid URI: " ++ uri) (sys.parse_url uri)
    guard (str_eq u.scheme (codes "pkcs11")) (codes "invalid URI")
    or_err (codes "invalid URI: " ++ uri)
        (sys.parse_query (replace u.opaque (codes ";") (codes "&")))

  -- The end of `ParseTokenURI`, where there is a source of the pin. `url.Parse` returns nil beside an
  -- error, and a field of it is read before the error.
  unfoldable pub with_pin : Str → TokenConfig → Result TokenConfig
  unfolding trim_space trim_right
  with_pin pin_source_uri c = do
    pin_uri ← or_panic (sys.parse_url pin_source_uri)
    let path =
        (if not (str_eq pin_uri.opaque []) && str_eq pin_uri.path []
          then pin_uri.opaque
          else pin_uri.path)
    guard (str_eq pin_uri.scheme (codes "file") && not (str_eq path [])) (codes "invalid URI")
    pin ← or_err (codes "invalid URI") (sys.read_file path)
    ok (record c {
      pwd = trim_space pin;
      man = trim_space (trim_nul c.man);
      model = trim_space c.model;
    })

  -- `ParseTokenURI`
  unfoldable pub parse_token_uri : Str → Result TokenConfig
  unfolding attributes with_pin
  parse_token_uri uri = do
    attr ← attributes uri
    let pin_source_uri = set_if_present attr (codes "pin-source") []
    (if str_eq pin_source_uri []
        then ok (token_of attr)
        else with_pin pin_source_uri (token_of attr))

  -- `ParsePrivateKeyURI`
  unfoldable pub parse_private_key_uri : Str → Result KeyUri
  unfolding attributes trim_space trim_right
  parse_private_key_uri uri = do
    attr ← attributes uri
    guard (not (is_incomplete (set_if_present attr (codes "type") []) (key_of attr)))
        (codes "invalid private key URI")
    ok (key_of attr)

  module _ {Provider : Type 0} {Key : Type 0} (manufacturer_of : Provider → Str)
      (get_key : Provider → Str → Result Key) (parse_private_key_pem : Str → Result Key) where
    -- The key that a URI names
    unfoldable pub key_of_uri : Crypto Provider → Str → Result (Option Provider × Key)
    unfolding parse_private_key_uri by_manufacturer
    key_of_uri c uri = do
      pkuri ← parse_private_key_uri uri
      provider ← by_manufacturer manufacturer_of pkuri.manufacturer c
      pvk ← get_key provider pkuri.id
      ok (some provider, pvk)

    -- `LoadPrivateKey`; a key in PEM has no provider.
    unfoldable pub load_private_key : Crypto Provider → Str → Result (Option Provider × Key)
    unfolding key_of_uri has_prefix
    load_private_key c key =
        let pem = parse_private_key_pem key >>= (λ pvk. ok (none, pvk)) in
        let named = key_of_uri c key in if has_prefix key (codes "pkcs11") then named else pem
