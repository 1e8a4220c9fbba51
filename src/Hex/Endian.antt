-- ===== src/Hex/Endian.antt =====
-- The byte order of the two-byte integers of src/dcap_provider.cpp in hexadecimal text.
use azure_dcap_client.Prelude.{ℕ, ◌/◌, ◌%◌, ◌<◌, ◌≡◌, refl, Bool, true, false, not, [], ◌∷◌, arith}
use azure_dcap_client.Errors.{sgx_plat_error_ok}
use azure_dcap_client.Hex.{
  format_as_hex_string, hex_decode, is_little_endian, byte_swap, format_as_big_endian_hex_string,
  decoded_pce_svn,
}
use azure_dcap_client.Hex.RoundTrip.{hex_decode-format_as_hex_string}

pub byte_swap-byte_swap : (x : ℕ) → x < 65536 → byte_swap (byte_swap x) ≡ x
unfolding byte_swap
byte_swap-byte_swap x h = omega arith

-- `is_little_endian` answers with the opposite of the byte order of the machine.
pub is_little_endian_opposite : (little : Bool) → is_little_endian little ≡ not little
unfolding is_little_endian
is_little_endian_opposite true = refl
is_little_endian_opposite false = refl

-- On a little-endian and on a big-endian machine alike, the text of a 16-bit integer has its low
-- byte first.
pub format_as_big_endian_hex_string_low_first :
    (little : Bool) (x : ℕ)
    → x < 65536
    → format_as_big_endian_hex_string little x ≡ format_as_hex_string (x % 256 ∷ x / 256 ∷ [])
unfolding format_as_big_endian_hex_string
format_as_big_endian_hex_string_low_first true x h = refl
format_as_big_endian_hex_string_low_first false x h = ground arith

-- On either machine the two bytes that `hex_decode` reads from the text of a 16-bit integer are, as
-- `parse_svn_values` reads them, that integer.
pub decoded_pce_svn-format :
    (little : Bool) (x : ℕ)
    → x < 65536
    → (hex_decode 2 (format_as_big_endian_hex_string little x)
        ≡ (sgx_plat_error_ok, x % 256 ∷ x / 256 ∷ []))
      × (decoded_pce_svn little (x % 256 ∷ x / 256 ∷ []) ≡ x)
unfolding decoded_pce_svn
decoded_pce_svn-format true x h = (
  rw (format_as_big_endian_hex_string_low_first true x h)
      (hex_decode-format_as_hex_string (x % 256 ∷ x / 256 ∷ []) (omega arith)),
  ground arith,
)
decoded_pce_svn-format false x h = (
  rw (format_as_big_endian_hex_string_low_first false x h)
      (hex_decode-format_as_hex_string (x % 256 ∷ x / 256 ∷ []) (omega arith)),
  ground arith,
)
