-- ===== src/Identity/Examples.antt =====
-- The address of a client at concrete headers.
use dolly.Prelude.{
  ◌≡◌, refl, Bool, true, false, Option, none, some, [], ◌∷◌, Str, codes, str_eq, not, ◌&&◌, ◌==◌,
  if◌then◌else◌, arith, inl, inr,
}
use dolly.GoText.{join, trim_space}
use dolly.GoText.Laws.{IsWhole}
use dolly.Netutil.{IpAddress, v4, octets}
use dolly.Netutil.Blocks.{IsPrivate}
use dolly.Identity.Realip.{split_host, client_ip_from_request}
use dolly.Identity.ClientAddress.{with_headers, client_ip-with_headers}
use dolly.Marshal.Examples.{plain_request}

abbrev reads : Str → Option IpAddress
reads s =
    if str_eq s (codes "10.0.0.1")
    then some (v4 (octets 10 0 0 1))
    else if str_eq s (codes "144.12.54.87")
    then some (v4 (octets 144 12 54 87))
    else none

public_address : ¬ IsPrivate (v4 (octets 144 12 54 87))
public_address p = ground arith

abbrev no_comma : Str → Bool
no_comma [] = true
no_comma (c ∷ s) = not (c == b',') && no_comma s

whole : (s : Str) → no_comma s ≡ true → IsWhole b',' s
whole [] h = tt
whole (c ∷ s) h = go (c == b',') refl (whole s) h
  where
    go :
        (b : Bool)
        → (c == b',') ≡ b
        → (no_comma s ≡ true → IsWhole b',' s)
        → (not b && no_comma s) ≡ true
        → IsWhole b',' (c ∷ s)
    go true e rest h = absurd (cc h)
    go false e rest h = (e, rest h)

octets-IsPrivate : IsPrivate (v4 (octets 10 0 0 1))
octets-IsPrivate = inr (inl (omega arith, omega arith))

client_ip-with_headers_example :
    (client_ip_from_request reads none (
        with_headers []
          (codes "10.0.0.1" ∷ codes "unknown" ∷ codes " 144.12.54.87" ∷ codes "10.0.0.1" ∷ [])
          plain_request)
      ≡ codes "144.12.54.87")
    × (client_ip_from_request reads none
          (with_headers [] (codes "10.0.0.1" ∷ codes "unknown" ∷ []) plain_request)
        ≡ [])
unfolding str_eq trim_space join
client_ip-with_headers_example =
    client_ip-with_headers reads none plain_request [] (codes " 144.12.54.87")
      (codes "10.0.0.1" ∷ codes "unknown" ∷ []) (codes "10.0.0.1" ∷ []) (v4 (octets 144 12 54 87))
      refl
      (
        whole (codes "10.0.0.1") refl,
        (
          whole (codes "unknown") refl,
          (whole (codes " 144.12.54.87") refl, (whole (codes "10.0.0.1") refl, tt)),
        ),
      )
      (octets-IsPrivate, (tt, tt)) refl public_address

hosts :
    (split_host (codes "[::1]:80") ≡ codes "::1")
    × (split_host (codes "10.0.0.1:80") ≡ codes "10.0.0.1")
    × (split_host (codes "::1") ≡ [])
unfolding split_host
hosts = (refl, refl, refl)
