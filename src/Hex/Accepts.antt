-- ===== src/Hex/Accepts.antt =====
-- Text that is no hexadecimal number and that `hex_decode` of src/dcap_provider.cpp accepts, because
-- `strtoul` takes a sign and leading space.
use azure_dcap_client.Prelude.{ℕ, ◌-◌, ◌%◌, ◌<◌, ◌≡◌, [], ◌∷◌, arith}
use azure_dcap_client.Errors.{sgx_plat_error_ok}
use azure_dcap_client.Hex.{
  hex_digit, skip_space, read_sign, skip_prefix, read_digits, strtoul, decode_byte, decode_loop,
  hex_decode,
}
use azure_dcap_client.Hex.RoundTrip.{digit_value-hex_digit}

-- A minus sign and a digit decode, without an error, to the byte that is the digit's negation
-- modulo 256.
pub hex_decode_accepts_minus :
    (n : ℕ)
    → n < 16
    → hex_decode 1 (b'-' ∷ hex_digit n ∷ []) ≡ (sgx_plat_error_ok, (256 - n) % 256 ∷ [])
unfolding hex_decode decode_loop decode_byte strtoul skip_space read_sign skip_prefix read_digits
hex_decode_accepts_minus n h = ground (arith, digit_value-hex_digit n h)
