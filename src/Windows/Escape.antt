-- ===== src/Windows/Escape.antt =====
-- `escape` and `unescape` of src/Windows/curl_easy.cpp. Each throws `curl_easy::error` where the
-- result here is `none`.
pub mod RoundTrip
use azure_dcap_client.Prelude.{
  ℕ, ◌+◌, ◌-◌, ◌*◌, ◌/◌, ◌%◌, Bool, true, false, ◌&&◌, ◌||◌, [], ◌∷◌, ◌++◌, Option, none, some,
  Bytes, ltb, leb, ◌==◌, if◌then◌else◌, take,
}

-- `Int8FromHexAscii`; `none` is -1.
unfoldable pub int8_from_hex_ascii : ℕ → Option ℕ
int8_from_hex_ascii ch =
    if leb b'0' ch && leb ch b'9'
    then some (ch - b'0')
    else if leb b'a' ch && leb ch b'f'
    then some (ch - b'a' + 10)
    else if leb b'A' ch && leb ch b'F'
    then some (ch - b'A' + 10)
    else none

-- `HexAsciiFromUInt8`; `none` is -1.
unfoldable pub hex_ascii_from_uint8 : ℕ → Option ℕ
hex_ascii_from_uint8 i =
    if ltb i 10 then some (b'0' + i) else if ltb i 16 then some (b'A' + (i - 10)) else none

-- The characters that stand for themselves.
unfoldable pub is_unescaped : ℕ → Bool
is_unescaped ch =
    (leb b'a' ch && leb ch b'z')
    || (leb b'A' ch && leb ch b'Z')
    || (leb b'0' ch && leb ch b'9')
    || ch == b'-'
    || ch == b'.'
    || ch == b'~'
    || ch == b'?'
    || ch == b'_'

-- `ch >> 4` as a `uint8_t`, where `ch` is a signed `char` with this bit pattern.
unfoldable pub first_nibble : ℕ → ℕ
first_nibble ch = if ltb ch 128 then ch / 16 else ch / 16 + 240

-- A round of the loop of `escape`: what is appended.
unfoldable pub escape_char : ℕ → Option Bytes
unfolding is_unescaped hex_ascii_from_uint8 first_nibble
escape_char ch =
    if is_unescaped ch then some (ch ∷ []) else elim (hex_ascii_from_uint8 (first_nibble ch)) [
      | none ↦ none
      | some first ↦ elim (hex_ascii_from_uint8 (ch % 16)) [
        | none ↦ none
        | some second ↦ some (b'%' ∷ first ∷ second ∷ [])
      ]
    ]

-- A text before another that is there.
abbrev pub before : Bytes → Option Bytes → Option Bytes
before s none = none
before s (some t) = some (s ++ t)

unfoldable pub escape_loop : Bytes → Option Bytes
unfolding escape_char
escape_loop [] = some []
escape_loop (ch ∷ s) = elim (escape_char ch) [ none ↦ none | some t ↦ before t (escape_loop s) ]

-- `strlen`
unfoldable pub strlen : Bytes → ℕ
strlen [] = 0
strlen (ch ∷ s) = let rest = strlen s + 1 in if ch == 0 then 0 else rest

-- `curl_easy::escape`; a length that is not 0 lies within the text.
unfoldable pub escape : Bytes → ℕ → Option Bytes
unfolding escape_loop strlen
escape url length = escape_loop (take (if length == 0 then strlen url else length) url)

-- Where the loop of `unescape` is in an encoded character: outside, behind `%`, or behind the first
-- digit with its value.
pub data Position : Type 0 where
  outside behind_percent : Position
  behind_digit : ℕ → Position

unfoldable pub unescape_loop : Position → Bytes → Option Bytes
unfolding int8_from_hex_ascii
unescape_loop outside [] = some []
unescape_loop behind_percent [] = none
unescape_loop (behind_digit high) [] = none
unescape_loop outside (ch ∷ s) =
    let rest = unescape_loop (if ch == b'%' then behind_percent else outside) s in
    if ch == b'%' then rest else before (ch ∷ []) rest
unescape_loop behind_percent (ch ∷ s) = elim (int8_from_hex_ascii ch) [
  | none ↦ none
  | some hex_value ↦ unescape_loop (behind_digit hex_value) s
]
unescape_loop (behind_digit high) (ch ∷ s) = elim (int8_from_hex_ascii ch) [
  | none ↦ none
  | some hex_value ↦ before ((high * 16 + hex_value) ∷ []) (unescape_loop outside s)
]

-- `curl_easy::unescape`
unfoldable pub unescape : Bytes → Option Bytes
unfolding unescape_loop
unescape encoded = unescape_loop outside encoded
