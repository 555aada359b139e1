-- ===== src/Cryptoprov/Examples.antt =====
-- Providers of xpki/cryptoprov that are named by their manufacturers, and the theorems about them.
use dolly.Prelude.{
  ◌≡◌, refl, true, Option, none, some, List, [], ◌∷◌, ◌++◌, Str, codes, str_eq, Assoc, lookup,
  insert, All, if◌then◌else◌, Result, ok, err,
}
use dolly.GoText.{has_prefix, replace, replace_loop, trim_left, trim_right, trim_space}
use dolly.Cryptoprov.{
  Crypto, add, add_all, new, by_manufacturer, load_provider, load_all, load, register,
}
use dolly.Cryptoprov.Loaded.{IsFound, load-IsFound}
use dolly.Cryptoprov.Uri.{
  System, TokenConfig, KeyUri, set_if_present, attributes, token_of, key_of, parse_token_uri,
  parse_private_key_uri, key_of_uri, load_private_key,
}
use dolly.Cryptoprov.Keys.{load_private_key-named}

abbrev Provider : Type 0
Provider = Str

abbrev manufacturer_of : Provider → Str
manufacturer_of p = p

-- A configuration is its location, and its manufacturer too.
abbrev same : Str → Str
same s = s

abbrev load_token_config : Str → Result Str
load_token_config location = ok location

abbrev loaders : Assoc (Str → Result Provider)
loaders = (codes "SoftHSM", λ tc. ok tc) ∷ (codes "AWSKMS", λ tc. ok tc) ∷ []

abbrev crypto : Crypto Provider
crypto = record {
  provider = some (codes "SoftHSM");
  by_manufacturer = (codes "SoftHSM", codes "SoftHSM") ∷ (codes "AWSKMS", codes "AWSKMS") ∷ [];
}

loads :
    load manufacturer_of load_token_config same loaders (codes "SoftHSM") (codes "AWSKMS" ∷ [])
    ≡ ok crypto
unfolding load load_provider load_all new add_all add lookup insert str_eq
loads = refl

load-IsFound_example :
    All
      (IsFound manufacturer_of load_token_config same loaders crypto)
      (codes "SoftHSM" ∷ codes "AWSKMS" ∷ [])
load-IsFound_example =
    load-IsFound manufacturer_of load_token_config same loaders (codes "SoftHSM")
      (codes "AWSKMS" ∷ []) crypto loads

abbrev three : Assoc Str
three = (codes "a", codes "1") ∷ (codes "b", codes "2") ∷ (codes "c", codes "3") ∷ []

registers :
    register (codes "c") (codes "3") ((codes "a", codes "1") ∷ (codes "b", codes "2") ∷ [])
    ≡ ok three
unfolding register lookup insert str_eq
registers = refl

-- The attributes of a key with a manufacturer that ends in a space
abbrev attributes_of_key : Assoc (List Str)
attributes_of_key =
    (codes "manufacturer", codes "SoftHSM " ∷ [])
    ∷ (codes "serial", codes "42" ∷ [])
    ∷ (codes "id", codes "key1" ∷ [])
    ∷ (codes "type", codes "private" ∷ [])
    ∷ []

abbrev sys : System
sys = record {
  parse_url = λ uri.
      if has_prefix uri (codes "pkcs11:")
      then some (record { scheme = codes "pkcs11"; opaque = uri; path = [] })
      else none;
  parse_query = λ query. some attributes_of_key;
  read_file = λ path. none;
}

abbrev uri : Str
uri = codes "pkcs11:manufacturer=SoftHSM%20;serial=42;id=key1;type=private"

abbrev token : TokenConfig
token = token_of attributes_of_key

abbrev key_uri : KeyUri
key_uri = key_of attributes_of_key

reads : attributes sys uri ≡ ok attributes_of_key
unfolding attributes has_prefix replace replace_loop str_eq
reads = refl

no_pin_source : set_if_present attributes_of_key (codes "pin-source") [] ≡ []
unfolding lookup str_eq
no_pin_source = refl

token_read : parse_token_uri sys uri ≡ ok token
unfolding parse_token_uri attributes has_prefix replace replace_loop str_eq lookup
token_read = refl

key_read : parse_private_key_uri sys uri ≡ ok key_uri
unfolding parse_private_key_uri attributes has_prefix replace replace_loop str_eq lookup
key_read = refl

abbrev get_key : Provider → Str → Result Str
get_key p id = ok (p ++ id)

abbrev parse_pem : Str → Result Str
parse_pem pem = err (codes "no PEM")

named : has_prefix uri (codes "pkcs11") ≡ true
unfolding has_prefix
named = refl

key_loaded :
    load_private_key sys manufacturer_of get_key parse_pem crypto uri
    ≡ ok (some (codes "SoftHSM"), codes "SoftHSMkey1")
unfolding load_private_key key_of_uri parse_private_key_uri attributes has_prefix replace
    replace_loop str_eq lookup by_manufacturer trim_space trim_left trim_right
key_loaded = refl

load_private_key-named_example :
    (p : Provider) × (k : KeyUri) × (◌≡◌ {A = Option Provider} (some (codes "SoftHSM")) (some p))
    × (parse_private_key_uri sys uri ≡ ok k)
    × (manufacturer_of p ≡ k.manufacturer)
    × (get_key p k.id ≡ ok (codes "SoftHSMkey1"))
load_private_key-named_example =
    load_private_key-named manufacturer_of load_token_config same loaders (codes "SoftHSM")
      (codes "AWSKMS" ∷ []) crypto sys get_key parse_pem uri (some (codes "SoftHSM"))
      (codes "SoftHSMkey1") loads named key_loaded
