-- ===== src/Armor/Examples.antt =====
-- Armored texts, and the theorem about them.
use mathlib.Core.Option
use dolly.Prelude.{◌≡◌, refl, Option, some, suc, [], ◌∷◌, ◌++◌, Str, str_eq, insert, codes, length}
use dolly.Armor.Base64.{base64_decode}
use dolly.Armor.Crc.{crc24, crc24_init}
use dolly.Armor.Decoder.{Block, decode}
use dolly.Armor.Decoded.{IsAnswer, decode_ends}

-- An ASCII text with a line feed behind.
abbrev line : Str → Str
line s = s ++ 10 ∷ []

abbrev hello : Str
hello =
    line (codes "-----BEGIN MESSAGE-----")
    ++ line (codes "Version: 1")
    ++ line []
    ++ line (codes "aGVsbG8=")
    ++ line (codes "=R/WK")
    ++ line (codes "-----END MESSAGE-----")

reads_hello : base64_decode (codes "aGVsbG8=") ≡ some (codes "hello")
unfolding base64_decode Option.bind
reads_hello = refl

crc_hello : crc24 crc24_init (codes "hello") ≡ 4715914
unfolding crc24
crc_hello = refl

decodes_hello :
    decode 2 (codes "junk" ++ 10 ∷ hello)
    ≡ some (
      some (record {
        kind = codes "MESSAGE";
        headers = (codes "Version", codes "1") ∷ [];
        bytes = codes "hello";
        crc = 4715914;
      }),
      [],
    )
unfolding decode Option.bind str_eq insert
decodes_hello = refl

decode_ends_example :
    (r : Option Block × Str) × (decode (suc (length hello)) hello ≡ some r) × IsAnswer hello r
decode_ends_example = decode_ends hello
