-- ===== src/Armor/Crc.antt =====
-- `crc24` of xpki/armor/armor.go, with the wrap-around of its uint32.
use Prim.Native.Nat.{bit_xor}
use dolly.Prelude.{ℕ, zero, suc, ◌*◌, ◌/◌, ◌%◌, ◌^◌, [], ◌∷◌, Str, ◌==◌, if◌then◌else◌}

abbrev pub crc24_init : ℕ
crc24_init = 11994318

abbrev pub crc24_poly : ℕ
crc24_poly = 25578747

abbrev pub shift : ℕ → ℕ
shift crc = crc * 2 % 2 ^ 32

-- One round of the inner loop.
unfoldable pub crc_bit : ℕ → ℕ
crc_bit crc = if shift crc / 2 ^ 24 % 2 == 1 then bit_xor (shift crc) crc24_poly else shift crc

-- for i := 0; i < 8; i++ { … }
unfoldable pub crc_bits : ℕ → ℕ → ℕ
unfolding crc_bit
crc_bits zero crc = crc
crc_bits (suc n) crc = crc_bits n (crc_bit crc)

unfoldable pub crc24 : ℕ → Str → ℕ
unfolding crc_bits
crc24 crc [] = crc
crc24 crc (b ∷ d) = crc24 (crc_bits 8 (bit_xor crc (b * 2 ^ 16))) d
