-- ===== src/Armor/Decoder.antt =====
-- `Decode` of xpki/armor/armor.go.
use mathlib.Core.Option
use dolly.Prelude.{
  ℕ, zero, suc, ◌+◌, ◌-◌, ◌*◌, ◌%◌, ◌^◌, Bool, false, not, ◌&&◌, ◌||◌, Option, none, some, [], ◌∷◌,
  Str, codes, Assoc, insert, leb, ltb, ◌==◌, if◌then◌else◌, length, get_elem?, take, drop,
}
use dolly.GoText.{has_prefix, has_suffix, index, index_byte, trim_right, trim_space, is_empty}
use dolly.Armor.Base64.{base64_decode}
use dolly.Armor.Crc.{crc24, crc24_init}

pub record Block : Type 0 where
  pub kind : Str
  pub headers : Assoc Str
  pub bytes : Str
  pub crc : ℕ

abbrev pub is_byte : Option ℕ → ℕ → Bool
is_byte none b = false
is_byte (some c) b = c == b

abbrev blank : ℕ → Bool
blank c = c == 32 || c == 9

-- Where the line ends whose line feed is at `i`.
unfoldable pub line_end : ℕ → Str → ℕ
line_end i input = if ltb 0 i && is_byte (get_elem? input (i - 1)) 13 then i - 1 else i

-- `getLine`
unfoldable pub get_line : Str → Str × Str
unfolding index_byte trim_right line_end
get_line input = elim (index_byte input 10) [
  | none ↦ (trim_right blank input, [])
  | some i ↦ (trim_right blank (take (line_end i input) input), drop (i + 1) input)
]

-- `removeWhitespace`
unfoldable pub remove_whitespace : Str → Str
remove_whitespace [] = []
remove_whitespace (b ∷ input) =
    let rest = remove_whitespace input in
    if b == 32 || b == 9 || b == 13 || b == 10 then rest else b ∷ rest

abbrev pub pem_start : Str
pem_start = 10 ∷ codes "-----BEGIN "

abbrev pub pem_end : Str
pem_end = 10 ∷ codes "-----END "

abbrev pub pem_end_of_line : Str
pem_end_of_line = codes "-----"

-- What follows the first start of a block; the line feed may miss at the very beginning.
unfoldable pub find_start : Str → Option Str
unfolding has_prefix index
find_start input =
    if has_prefix input (drop 1 pem_start)
    then some (drop (length pem_start - 1) input)
    else Option.map (λ i. drop (i + length pem_start) input) (index input pem_start)

-- The loop over the header lines: the headers and the rest behind them, or that the data ends.
pub data Headed : Type 0 where
  ended : Headed
  headed : Assoc Str → Str → Headed

unfoldable pub header_loop : ℕ → Assoc Str → Str → Option Headed
unfolding get_line index_byte trim_space
header_loop zero headers rest = none
header_loop (suc fuel) headers [] = some ended
header_loop (suc fuel) headers (c ∷ s) =
    let line_next = get_line (c ∷ s) in
    elim (index_byte line_next.0 b':') [
      | none ↦ some (headed headers (c ∷ s))
      | some i ↦
          header_loop fuel
            (insert (trim_space (take i line_next.0)) (trim_space (drop (i + 1) line_next.0))
              headers)
            line_next.1
    ]

-- The index of the end line, and that of what follows its start
unfoldable pub find_end : Assoc Str → Str → Option (ℕ × ℕ)
unfolding has_prefix index
find_end headers rest =
    if is_empty headers && has_prefix rest (drop 1 pem_end)
    then some (0, length pem_end - 1)
    else Option.map (λ i. (i, i + length pem_end)) (index rest pem_end)

-- Whether the end line has the type, the dashes and nothing more.
unfoldable pub good_trailer : Str → Str → Bool
unfolding has_prefix has_suffix get_line
good_trailer type_line trailer =
    let n = length type_line + length pem_end_of_line in
    leb n (length trailer)
    && has_prefix (take n trailer) type_line
    && has_suffix (take n trailer) pem_end_of_line
    && is_empty (get_line (drop n trailer)).0

-- The three bytes of the checksum line
unfoldable pub checksum : Str → Option ℕ
checksum [] = none
checksum (a ∷ []) = none
checksum (a ∷ b ∷ []) = none
checksum (a ∷ b ∷ c ∷ []) = some (a * 2 ^ 16 + b * 2 ^ 8 + c)
checksum (a ∷ b ∷ c ∷ d ∷ bytes) = none

-- The bytes of the block, if the checksum fits.
unfoldable pub checked : Str → Assoc Str → ℕ → Str → Option Block
unfolding crc24
checked kind headers crc bytes =
    if crc == crc24 crc24_init bytes % 2 ^ 24
    then some (record { kind = kind; headers = headers; bytes = bytes; crc = crc })
    else none

-- From the data between the headers and the end line to the block.
unfoldable pub parse_body : Str → Assoc Str → Str → Option Block
unfolding remove_whitespace base64_decode checksum checked
parse_body kind headers body =
    let block = remove_whitespace body in
    let n = length block in
    if ltb n 5 || not (is_byte (get_elem? block (n - 5)) b'=')
    then none
    else Option.bind (Option.bind (base64_decode (drop (n - 4) block)) checksum) λ crc.
      Option.bind (base64_decode (remove_whitespace (take (n - 5) block)))
        (checked kind headers crc)

-- How one try to find a block ends: there is no start, the data end among the headers, a start is
-- rejected with what is left, or there is a block and what is left.
pub data Attempt : Type 0 where
  no_start unended : Attempt
  rejected : Str → Attempt
  decoded : Block → Str → Attempt

-- What is left behind a block with the end line at `i`.
unfoldable pub behind_end : ℕ → Str → Str
unfolding get_line
behind_end i rest = (get_line (drop (i + length pem_end - 1) rest)).1

unfoldable pub with_body : Str → ℕ → Option Block → Attempt
unfolding behind_end
with_body rest i none = rejected rest
with_body rest i (some block) = decoded block (behind_end i rest)

unfoldable pub with_end : Str → Assoc Str → Str → Option (ℕ × ℕ) → Attempt
unfolding good_trailer parse_body with_body
with_end kind headers rest none = rejected rest
with_end kind headers rest (some (i, trailer)) =
    if good_trailer kind (drop trailer rest)
    then with_body rest i (parse_body kind headers (take i rest))
    else rejected rest

unfoldable pub with_headers : Str → Headed → Attempt
unfolding with_end find_end
with_headers kind ended = unended
with_headers kind (headed headers rest) = with_end kind headers rest (find_end headers rest)

-- From the line of the start, and the rest behind it.
unfoldable pub with_type : Str → Str → Option Attempt
unfolding has_suffix header_loop with_headers
with_type type_line rest =
    if has_suffix type_line pem_end_of_line
    then Option.map (with_headers (take (length type_line - length pem_end_of_line) type_line))
        (header_loop (suc (length rest)) [] rest)
    else some (rejected rest)

abbrev pub with_start : Option Str → Option Attempt
with_start none = some no_start
with_start (some s) = with_type (get_line s).0 (get_line s).1

-- `Decode` up to the calls of `decodeError`
unfoldable pub attempt : Str → Option Attempt
unfolding find_start with_type get_line
attempt input = with_start (find_start input)

-- The end of `decodeError`
abbrev pub or_input : Str → Option Block × Str → Option Block × Str
or_input input (none, rest) = (none, input)
or_input input (some block, rest) = (some block, rest)

-- `Decode`; `decodeError` calls it on what is left. No block is `none` within the result.
unfoldable pub decode : ℕ → Str → Option (Option Block × Str)
unfolding attempt
decode zero input = none
decode (suc fuel) input = elim (attempt input) [
  | none ↦ none
  | some no_start ↦ some (none, input)
  | some unended ↦ some (none, input)
  | some (rejected rest) ↦ Option.map (or_input input) (decode fuel rest)
  | some (decoded block rest) ↦ some (some block, rest)
]
