-- ===== src/Provider/Config/Svn.antt =====
-- `parse_svn_values` of src/dcap_provider.cpp reads a TCB header that is spelled as the program
-- spells the SVNs in its own requests.
use azure_dcap_client.Prelude.{
  ℕ, ◌+◌, ◌*◌, ap₂, ◌/◌, ◌%◌, ◌<◌, ◌≡◌, sym, ◌∙◌, ap, arith, Bytes, AreBytes, [], ◌∷◌, ◌++◌, some,
  length, length-append, take, drop, take_append, drop_append, take-length,
}
use azure_dcap_client.Errors.{sgx_plat_error_ok}
use azure_dcap_client.Host.{Host}
use azure_dcap_client.Hex.{format_as_hex_string, format_as_big_endian_hex_string, hex_decode}
use azure_dcap_client.Hex.RoundTrip.{length-format_as_hex_string, hex_decode-format_as_hex_string}
use azure_dcap_client.Hex.Endian.{format_as_big_endian_hex_string_low_first, decoded_pce_svn-format}
use azure_dcap_client.Curl.{CurlEasy, get_header}
use azure_dcap_client.Provider.{get_raw_header, tcb_info_header}
use azure_dcap_client.Provider.Config.{parse_svn_values}

-- The header's two parts.
parts_lem :
    (a b : Bytes)
    → length a ≡ 32
    → length b ≡ 4
    → (length (a ++ b) ≡ 36) × (take 32 (a ++ b) ≡ a) × (take 4 (drop 32 (a ++ b)) ≡ b)
parts_lem a b ha hb = (
  omega (arith, length-append a b),
  rw (sym ha) (take_append a b),
  rw (sym ha, drop_append a b, sym hb) (take-length b),
)

parse_svn_values-format :
    (h : Host) (curl : CurlEasy) (cpu_svn : Bytes) (pce_svn : ℕ)
    → length cpu_svn ≡ 16
    → AreBytes cpu_svn
    → pce_svn < 65536
    → get_header curl tcb_info_header
      ≡ some
          (format_as_hex_string cpu_svn ++ format_as_big_endian_hex_string h.little_endian pce_svn)
    → parse_svn_values h curl ≡ (sgx_plat_error_ok, cpu_svn, pce_svn)
unfolding parse_svn_values get_raw_header
parse_svn_values-format h curl cpu_svn pce_svn size are_bytes small e =
    let a = format_as_hex_string cpu_svn in
    let b = format_as_big_endian_hex_string h.little_endian pce_svn in
    let low = pce_svn % 256 ∷ pce_svn / 256 ∷ [] in
    let (whole, first, second) =
      parts_lem a b (omega (arith, length-format_as_hex_string cpu_svn)) (
        ap length (format_as_big_endian_hex_string_low_first h.little_endian pce_svn small)
        ∙ omega (arith, length-format_as_hex_string low)) in
    let cpu : hex_decode 16 a ≡ (sgx_plat_error_ok, cpu_svn) =
      ap (λ n. hex_decode n a) (sym size) ∙ hex_decode-format_as_hex_string cpu_svn are_bytes in
    let (pce, value) = decoded_pce_svn-format h.little_endian pce_svn small in ground arith

-- If the TCB header is the hexadecimal text of 16 bytes and of two further bytes, then the call
-- succeeds with the 16 bytes as the CPU SVN and, on a little-endian and on a big-endian machine, with
-- the PCE SVN of which the first of the two bytes is the low one: "0102" is read as 0x0201. A
-- comment of the source calls this format big-endian.
pub parse_svn_values_low_first :
    (h : Host) (curl : CurlEasy) (cpu_svn : Bytes) (first second : ℕ)
    → length cpu_svn ≡ 16
    → AreBytes cpu_svn
    → first < 256
    → second < 256
    → get_header curl tcb_info_header
      ≡ some (format_as_hex_string cpu_svn ++ format_as_hex_string (first ∷ second ∷ []))
    → parse_svn_values h curl ≡ (sgx_plat_error_ok, cpu_svn, first + 256 * second)
parse_svn_values_low_first h curl cpu_svn first second size are_bytes lo hi e =
    let pce_svn = first + 256 * second in
    let small : pce_svn < 65536 = omega arith in
    let low : pce_svn % 256 ≡ first = omega arith in
    let high : pce_svn / 256 ≡ second = omega arith in
    let text : format_as_big_endian_hex_string h.little_endian pce_svn
        ≡ format_as_hex_string (first ∷ second ∷ []) =
      format_as_big_endian_hex_string_low_first h.little_endian pce_svn small
      ∙ ap₂ (λ a b. format_as_hex_string (a ∷ b ∷ [])) low high in
    parse_svn_values-format h curl cpu_svn pce_svn size are_bytes small
      (e ∙ ap (λ t. some (format_as_hex_string cpu_svn ++ t)) (sym text))
