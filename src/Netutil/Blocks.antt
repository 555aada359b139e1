-- ===== src/Netutil/Blocks.antt =====
-- The private addresses, from the first to the last of each block.
use dolly.Prelude.{ℕ, ◌-◌, ◌^◌, ◌≤◌, ◌≡◌, true, ◌⊎◌, arith}
use dolly.Netutil.{IpAddress, v4, v6, octets, hextets, contains, cidrs, in_blocks}

abbrev Within : ℕ → ℕ → ℕ → Type 0
Within first last n = (first ≤ n) × (n ≤ last)

abbrev pub IsPrivate : IpAddress → Type 0
IsPrivate (v4 n) =
    Within (octets 127 0 0 0) (octets 127 255 255 255) n
    ⊎ Within (octets 10 0 0 0) (octets 10 255 255 255) n
    ⊎ Within (octets 172 16 0 0) (octets 172 31 255 255) n
    ⊎ Within (octets 192 168 0 0) (octets 192 168 255 255) n
    ⊎ Within (octets 169 254 0 0) (octets 169 254 255 255) n
IsPrivate (v6 n) =
    (n ≡ 1)
    ⊎ Within (hextets 64512 0) (hextets 65023 (2 ^ 112 - 1)) n
    ⊎ Within (hextets 65152 0) (hextets 65215 (2 ^ 112 - 1)) n

pub in_blocks-IsPrivate : (ip : IpAddress) → IsPrivate ip → in_blocks cidrs ip ≡ true
unfolding in_blocks contains
in_blocks-IsPrivate (v4 n) p = ground arith
in_blocks-IsPrivate (v6 n) p = ground arith

pub IsPrivate-in_blocks : (ip : IpAddress) → in_blocks cidrs ip ≡ true → IsPrivate ip
unfolding in_blocks contains
IsPrivate-in_blocks (v4 n) p = ground arith
IsPrivate-in_blocks (v6 n) p = ground arith
