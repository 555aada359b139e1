-- ===== src/Armor/Base64.antt =====
-- What xpki/armor/armor.go uses of Go's `encoding/base64`: decoding in the standard alphabet with
-- padding, of texts without line ends. The last quantum's unused bits are not checked. An error is
-- `none`.
use mathlib.Core.Option
use dolly.Prelude.{
  ℕ, ◌+◌, ◌-◌, ◌*◌, ◌/◌, ◌%◌, ◌&&◌, Option, none, some, [], ◌∷◌, ◌++◌, Str, leb, ◌==◌,
  if◌then◌else◌,
}

-- The value of a character of the alphabet.
unfoldable pub sextet : ℕ → Option ℕ
sextet c =
    if leb b'A' c && leb c b'Z'
    then some (c - 65)
    else if leb b'a' c && leb c b'z'
    then some (c - 71)
    else if leb b'0' c && leb c b'9'
    then some (c + 4)
    else if c == b'+'
    then some 62
    else if c == b'/'
    then some 63
    else none

-- The bytes of four characters without padding.
unfoldable pub quantum : ℕ → ℕ → ℕ → ℕ → Str
quantum a b c d = (a * 4 + b / 16) ∷ (b % 16 * 16 + c / 4) ∷ (c % 4 * 64 + d) ∷ []

unfoldable pub full : ℕ → ℕ → ℕ → ℕ → Option Str
unfolding sextet quantum
full a b c d = Option.bind (sextet a) λ a.
    Option.bind (sextet b) λ b. Option.bind (sextet c) λ c. Option.map (quantum a b c) (sextet d)

-- The quantum `ab==` has one byte.
unfoldable pub one_byte : ℕ → ℕ → Option Str
unfolding sextet
one_byte a b = Option.bind (sextet a) λ a. Option.map (λ b. (a * 4 + b / 16) ∷ []) (sextet b)

-- The quantum `abc=` has two.
unfoldable pub two_bytes : ℕ → ℕ → ℕ → Option Str
unfolding sextet
two_bytes a b c = Option.bind (sextet a) λ a.
    Option.bind (sextet b)
      λ b. Option.map (λ c. (a * 4 + b / 16) ∷ (b % 16 * 16 + c / 4) ∷ []) (sextet c)

-- The last quantum, which may be padded.
abbrev last_quantum : ℕ → ℕ → ℕ → ℕ → Option Str
last_quantum a b c d =
    if d == b'=' then (if c == b'=' then one_byte a b else two_bytes a b c) else full a b c d

-- `base64.StdEncoding.Decode`
unfoldable pub base64_decode : Str → Option Str
unfolding full one_byte two_bytes
base64_decode [] = some []
base64_decode (a ∷ []) = none
base64_decode (a ∷ b ∷ []) = none
base64_decode (a ∷ b ∷ c ∷ []) = none
base64_decode (a ∷ b ∷ c ∷ d ∷ []) = last_quantum a b c d
base64_decode (a ∷ b ∷ c ∷ d ∷ e ∷ s) =
    Option.bind (full a b c d) (λ bytes. Option.map (λ more. bytes ++ more) (base64_decode (e ∷ s)))
