-- ===== src/Netutil.antt =====
-- netutil/localip.go: the test whether an address is private. What `net.ParseIP` reads is a parameter.
pub mod Blocks
use mathlib.Core.Option
use dolly.Prelude.{
  ℕ, ◌+◌, ◌-◌, ◌*◌, ◌/◌, ◌^◌, Bool, true, false, ◌||◌, Option, none, some, List, [], ◌∷◌, Str, ◌==◌,
}

-- `net.IP` as `ParseIP` makes it, in numbers of 32 and of 128 bits; it has an address of IPv6 that
-- stands for one of IPv4 as the latter.
pub data IpAddress : Type 0 where
  v4 v6 : ℕ → IpAddress

-- An address of IPv4 by its octets
abbrev pub octets : ℕ → ℕ → ℕ → ℕ → ℕ
octets a b c d = ((a * 256 + b) * 256 + c) * 256 + d

-- An address of IPv6 by its first 16 bits and its last
abbrev pub hextets : ℕ → ℕ → ℕ
hextets first last = first * 2 ^ 112 + last

-- `net.IPNet`: an address in it and the length of the prefix
pub record IpNet : Type 0 where
  pub address : IpAddress
  pub ones : ℕ

-- `(*IPNet).Contains`
unfoldable pub contains : IpNet → IpAddress → Bool
contains n ip = within n.address ip
  where
    within : IpAddress → IpAddress → Bool
    within (v4 a) (v4 b) = a / 2 ^ (32 - n.ones) == b / 2 ^ (32 - n.ones)
    within (v6 a) (v6 b) = a / 2 ^ (128 - n.ones) == b / 2 ^ (128 - n.ones)
    within (v4 a) (v6 b) = false
    within (v6 a) (v4 b) = false

abbrev pub block : IpAddress → ℕ → IpNet
block address ones = record { address = address; ones = ones }

-- The blocks that `init` parses
abbrev pub cidrs : List IpNet
cidrs =
    block (v4 (octets 127 0 0 1)) 8
    ∷ block (v4 (octets 10 0 0 0)) 8
    ∷ block (v4 (octets 172 16 0 0)) 12
    ∷ block (v4 (octets 192 168 0 0)) 16
    ∷ block (v4 (octets 169 254 0 0)) 16
    ∷ block (v6 1) 128
    ∷ block (v6 (hextets 64512 0)) 7
    ∷ block (v6 (hextets 65152 0)) 10
    ∷ []

unfoldable pub in_blocks : List IpNet → IpAddress → Bool
unfolding contains
in_blocks [] ip = false
in_blocks (n ∷ ns) ip = contains n ip || in_blocks ns ip

-- `IsPrivateAddress`; the error, of an address that is not valid, is `none`.
unfoldable pub is_private_address : (Str → Option IpAddress) → Str → Option Bool
unfolding in_blocks
is_private_address parse_ip address = Option.map (in_blocks cidrs) (parse_ip address)
