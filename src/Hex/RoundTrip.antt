-- ===== src/Hex/RoundTrip.antt =====
-- `hex_decode` reads back what `format_as_hex_string` prints.
use azure_dcap_client.Prelude.{
  ℕ, ◌+◌, ◌*◌, ◌/◌, ◌%◌, ◌<◌, ◌≡◌, refl, true, false, some, [], ◌∷◌, arith, Bytes, AreBytes, length,
  ◌∙◌,
}
use azure_dcap_client.Errors.{sgx_plat_error_ok}
use azure_dcap_client.Hex.{
  hex_digit, format_as_hex_string, digit_value, skip_space, read_sign, skip_prefix, read_digits,
  strtoul, decode_byte, decode_loop, hex_decode,
}

pub digit_value-hex_digit : (n : ℕ) → n < 16 → digit_value (hex_digit n) ≡ some n
unfolding digit_value hex_digit
digit_value-hex_digit n h = ground arith

-- Two printed digits are read as they stand: no space, no sign, no prefix.
skip_space-hex_digit : (n : ℕ) (s : Bytes) → n < 16 → skip_space (hex_digit n ∷ s) ≡ hex_digit n ∷ s
unfolding skip_space hex_digit
skip_space-hex_digit n s h = ground arith

read_sign-hex_digit :
    (n : ℕ) (s : Bytes) → n < 16 → read_sign (hex_digit n ∷ s) ≡ (false, hex_digit n ∷ s)
unfolding read_sign hex_digit
read_sign-hex_digit n s h = ground arith

pub read_digits-hex_digit :
    (n : ℕ) (s : Bytes) (acc count : ℕ)
    → n < 16
    → read_digits (hex_digit n ∷ s) acc count ≡ read_digits s (acc * 16 + n) (count + 1)
unfolding read_digits
read_digits-hex_digit n s acc count h = ground (arith, digit_value-hex_digit n h)

read_digits_two :
    (m n : ℕ)
    → m < 16
    → n < 16
    → read_digits (hex_digit m ∷ hex_digit n ∷ []) 0 0 ≡ (m * 16 + n, 2, [])
unfolding read_digits
read_digits_two m n hm hn =
    read_digits-hex_digit m (hex_digit n ∷ []) 0 0 hm
    ∙ read_digits-hex_digit n [] (0 * 16 + m) (0 + 1) hn
    ∙ ground arith

strtoul-hex_digit :
    (m n : ℕ) → m < 16 → n < 16 → strtoul (hex_digit m ∷ hex_digit n ∷ []) ≡ (m * 16 + n, [])
unfolding strtoul skip_prefix
strtoul-hex_digit m n hm hn = ground (
  arith,
  skip_space-hex_digit m (hex_digit n ∷ []) hm,
  read_sign-hex_digit m (hex_digit n ∷ []) hm,
  read_digits_two m n hm hn,
)

pub decode_byte-hex_digit :
    (b : ℕ) → b < 256 → decode_byte (hex_digit (b / 16) ∷ hex_digit (b % 16) ∷ []) ≡ (b, true)
unfolding decode_byte
decode_byte-hex_digit b h =
    ground (arith, strtoul-hex_digit (b / 16) (b % 16) (omega arith) (omega arith))

pub length-format_as_hex_string : (bs : Bytes) → length (format_as_hex_string bs) ≡ 2 * length bs
unfolding format_as_hex_string
length-format_as_hex_string [] = omega arith
length-format_as_hex_string (b ∷ bs) = omega (arith, length-format_as_hex_string bs)

decode_loop-format_as_hex_string :
    (bs : Bytes)
    → AreBytes bs
    → decode_loop (length bs) (format_as_hex_string bs) ≡ (sgx_plat_error_ok, bs)
unfolding decode_loop format_as_hex_string
decode_loop-format_as_hex_string [] h = refl
decode_loop-format_as_hex_string (b ∷ bs) (hb, hbs) =
    ground (arith, decode_byte-hex_digit b hb, decode_loop-format_as_hex_string bs hbs)

-- Decoding the printed form of any bytes, at their size, succeeds and gives the bytes back.
pub hex_decode-format_as_hex_string :
    (bs : Bytes)
    → AreBytes bs
    → hex_decode (length bs) (format_as_hex_string bs) ≡ (sgx_plat_error_ok, bs)
unfolding hex_decode
hex_decode-format_as_hex_string bs h =
    ground (arith, length-format_as_hex_string bs, decode_loop-format_as_hex_string bs h)
