-- ===== src/Hex.antt =====
-- The hexadecimal codec of src/dcap_provider.cpp: `format_as_hex_string`, `hex_decode`, and the
-- two-byte integers with the byte order of the machine.
pub mod RoundTrip
pub mod Endian
pub mod Accepts
use azure_dcap_client.Prelude.{
  ℕ, zero, suc, ◌+◌, ◌-◌, ◌*◌, ◌/◌, ◌%◌, ◌^◌, Bool, true, false, ◌&&◌, ◌||◌, List, [], ◌∷◌, Option,
  none, some, Bytes, ltb, leb, ◌==◌, if◌then◌else◌, length, take, drop, get_or,
}
use azure_dcap_client.Errors.{SgxPlatError, sgx_plat_error_ok, sgx_plat_error_invalid_parameter}

-- a digit of `%02x`
unfoldable pub hex_digit : ℕ → ℕ
hex_digit n = if ltb n 10 then b'0' + n else b'a' + (n - 10)

unfoldable pub format_as_hex_string : Bytes → Bytes
unfolding hex_digit
format_as_hex_string [] = []
format_as_hex_string (b ∷ bs) = hex_digit (b / 16) ∷ hex_digit (b % 16) ∷ format_as_hex_string bs

-- `isspace` of the C locale
unfoldable pub is_space : ℕ → Bool
is_space c = c == b' ' || (leb 9 c && leb c 13)

-- The value of a hexadecimal digit in either case.
unfoldable pub digit_value : ℕ → Option ℕ
digit_value c =
    if leb b'0' c && leb c b'9'
    then some (c - b'0')
    else if leb b'a' c && leb c b'f'
    then some (c - b'a' + 10)
    else if leb b'A' c && leb c b'F'
    then some (c - b'A' + 10)
    else none

unfoldable pub skip_space : Bytes → Bytes
unfolding is_space
skip_space [] = []
skip_space (c ∷ s) = let rest = skip_space s in if is_space c then rest else c ∷ s

-- An optional sign: whether it is a minus, and what follows.
unfoldable pub read_sign : Bytes → Bool × Bytes
read_sign [] = (false, [])
read_sign (c ∷ s) =
    if c == b'-' then (true, s) else if c == b'+' then (false, s) else (false, c ∷ s)

-- The digits that start the text: their value behind `acc`, how many there are, and what follows.
unfoldable pub read_digits : Bytes → ℕ → ℕ → ℕ × ℕ × Bytes
unfolding digit_value
read_digits [] acc count = (acc, count, [])
read_digits (c ∷ s) acc count = elim (digit_value c) [
  | none ↦ (acc, count, c ∷ s)
  | some d ↦ read_digits s (acc * 16 + d) (count + 1)
]

-- `0x` or `0X` is skipped where a digit follows it.
unfoldable pub skip_prefix : Bytes → Bytes
unfolding digit_value
skip_prefix (z ∷ x ∷ d ∷ s) = elim (digit_value d) [
  | none ↦ z ∷ x ∷ d ∷ s
  | some _ ↦ if (z == b'0') && (x == b'x' || x == b'X') then d ∷ s else z ∷ x ∷ d ∷ s
]
skip_prefix s = s

-- `strtoul(s, &end, 16)` of the C library for a text whose value fits: the value, and the text at
-- `end`. Without digits `end` is the start of the text.
unfoldable pub strtoul : Bytes → ℕ × Bytes
unfolding skip_space read_sign skip_prefix read_digits
strtoul s =
    let (negative, body) = read_sign (skip_space s) in
    let (value, count, rest) = read_digits (skip_prefix body) 0 0 in
    if count == 0 then (0, s) else ((if negative then (2 ^ 64 - value) % 2 ^ 64 else value), rest)

-- One round of the loop of `hex_decode`: the byte, and whether `*end` is 0. The text is the buffer
-- of `c_str()`, so that its end reads as 0.
unfoldable pub decode_byte : Bytes → ℕ × Bool
unfolding strtoul
decode_byte s = let (value, rest) = strtoul s in (value % 256, get_or rest 0 0 == 0)

unfoldable pub decode_loop : ℕ → Bytes → SgxPlatError × Bytes
unfolding decode_byte
decode_loop zero s = (sgx_plat_error_ok, [])
decode_loop (suc n) s =
    let (b, done) = decode_byte (take 2 s) in
    let (e, bs) = decode_loop n (drop 2 s) in
    if done then (e, b ∷ bs) else (sgx_plat_error_invalid_parameter, b ∷ [])

-- `hex_decode<T>` with `size` for `sizeof(T)`: the error, and the bytes of `*decoded` written.
unfoldable pub hex_decode : ℕ → Bytes → SgxPlatError × Bytes
unfolding decode_loop
hex_decode size s =
    if length s == 2 * size then decode_loop size s else (sgx_plat_error_invalid_parameter, [])

-- The bytes of a `uint16_t` in memory, on a machine that is little-endian or not.
abbrev pub memory_of_u16 : Bool → ℕ → Bytes
memory_of_u16 true x = x % 256 ∷ x / 256 ∷ []
memory_of_u16 false x = x / 256 ∷ x % 256 ∷ []

-- The `uint16_t` that two bytes in memory hold.
abbrev pub u16_of_memory : Bool → Bytes → ℕ
u16_of_memory true bs = get_or bs 0 0 + 256 * get_or bs 1 0
u16_of_memory false bs = 256 * get_or bs 0 0 + get_or bs 1 0

-- The bytes of the `int` 1 in memory.
abbrev pub one_bytes : Bool → Bytes
one_bytes true = 1 ∷ 0 ∷ 0 ∷ 0 ∷ []
one_bytes false = 0 ∷ 0 ∷ 0 ∷ 1 ∷ []

unfoldable pub is_little_endian : Bool → Bool
is_little_endian little = get_or (one_bytes little) 0 0 == 0

-- The masks and shifts of a `uint16_t`, by `/` and `%`: the two halves have no bit in common.
unfoldable pub byte_swap : ℕ → ℕ
byte_swap x = x / 256 % 256 + x % 256 * 256

unfoldable pub format_as_big_endian_hex_string : Bool → ℕ → Bytes
unfolding is_little_endian byte_swap format_as_hex_string
format_as_big_endian_hex_string little x =
    format_as_hex_string (memory_of_u16 little (if is_little_endian little then byte_swap x else x))

-- The end of `parse_svn_values`: the `uint16_t` that the decoded bytes hold, swapped by the code's
-- test of the machine.
unfoldable pub decoded_pce_svn : Bool → Bytes → ℕ
unfolding is_little_endian byte_swap
decoded_pce_svn little bs =
    let x = u16_of_memory little bs in if is_little_endian little then byte_swap x else x
