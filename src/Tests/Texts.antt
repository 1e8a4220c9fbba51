-- ===== src/Tests/Texts.antt =====
-- Runs on texts, numbers and header lines.
use azure_dcap_client.Prelude.{
  ◌≡◌, ◌≢◌, ◌↔◌, bytes_eq, refl, arith, true, false, [], ◌∷◌, ◌++◌, some, Bytes, codes, insert,
  length, AreBytes,
}
use azure_dcap_client.Errors.{sgx_plat_error_ok}
use azure_dcap_client.Hex.{hex_decode, format_as_hex_string, format_as_big_endian_hex_string}
use azure_dcap_client.Hex.RoundTrip.{hex_decode-format_as_hex_string}
use azure_dcap_client.Hex.Endian.{format_as_big_endian_hex_string_low_first}
use azure_dcap_client.Host.{Host}
use azure_dcap_client.Settings.{get_collateral_version}
use azure_dcap_client.Settings.Fallback.{get_collateral_version_unchecked}
use azure_dcap_client.Url.{build_enclave_id_url}
use azure_dcap_client.Url.Enclave.{build_enclave_id_url_empty}
use azure_dcap_client.Curl.{CurlEasy, is_optional_whitespace, store_header, get_header, run_events}
use azure_dcap_client.Curl.Header.{header_line, store_header_lem}
use azure_dcap_client.Curl.Body.{chunk_events, run_events-chunks}
use azure_dcap_client.Provider.Config.{parse_svn_values}
use azure_dcap_client.Provider.Config.Svn.{parse_svn_values_low_first}
use azure_dcap_client.Tests.Setup.{server}

abbrev sixteen_bytes : Bytes
sixteen_bytes = 1 ∷ 2 ∷ 3 ∷ 4 ∷ 5 ∷ 6 ∷ 7 ∷ 8 ∷ 9 ∷ 10 ∷ 11 ∷ 12 ∷ 13 ∷ 14 ∷ 15 ∷ 255 ∷ []

sixteen_bytes-AreBytes : AreBytes sixteen_bytes
sixteen_bytes-AreBytes = omega arith

hex_decode-format_as_hex_string_example :
    hex_decode (length sixteen_bytes) (format_as_hex_string sixteen_bytes)
    ≡ (sgx_plat_error_ok, sixteen_bytes)
hex_decode-format_as_hex_string_example =
    hex_decode-format_as_hex_string sixteen_bytes sixteen_bytes-AreBytes

low_first_example : format_as_big_endian_hex_string true 258 ≡ format_as_hex_string (2 ∷ 1 ∷ [])
low_first_example = format_as_big_endian_hex_string_low_first true 258 (omega arith)

-- A machine whose collateral version is "v9".
abbrev odd_version : Host
odd_version = record server { getenv = λ name. some (codes "v9") }

get_collateral_version_unchecked_example : get_collateral_version odd_version ≡ codes "v9"
get_collateral_version_unchecked_example =
    get_collateral_version_unchecked odd_version (codes "v9") refl (omega arith) (omega arith)

build_enclave_id_url_empty_example :
    (((build_enclave_id_url odd_version true).0 ≡ [])
      ↔ (get_collateral_version odd_version ≢ codes "v2"))
    × ((build_enclave_id_url odd_version false).0 ≢ [])
build_enclave_id_url_empty_example = build_enclave_id_url_empty odd_version

abbrev fresh : CurlEasy
fresh = record { handle = []; body = []; headers = [] }

store_header_lem_example :
    store_header (header_line (codes "Ab") (b' ' ∷ []) (codes "v ")) fresh ≡ (
      length (header_line (codes "Ab") (b' ' ∷ []) (codes "v ")),
      record fresh { headers = insert (codes "Ab") (codes "v ") [] },
    )
unfolding is_optional_whitespace
store_header_lem_example =
    store_header_lem fresh (codes "Ab") (b' ' ∷ []) b'v' (b' ' ∷ []) (ground arith) (refl, tt) refl

run_events-chunks_example :
    run_events server (chunk_events (codes "ab" ∷ codes "c" ∷ [])) fresh
    ≡ (2 ∷ 1 ∷ [], record fresh { body = codes "abc" })
run_events-chunks_example =
    run_events-chunks server (codes "ab" ∷ codes "c" ∷ []) fresh (omega arith) (omega arith)

-- A response with the SVNs of the sixteen bytes and "0102".
abbrev svn_response : CurlEasy
svn_response = record fresh {
  headers =
      (codes "SGX-TCBm", format_as_hex_string sixteen_bytes ++ format_as_hex_string (1 ∷ 2 ∷ []))
      ∷ [];
}

parse_svn_values_low_first_example :
    parse_svn_values server svn_response ≡ (sgx_plat_error_ok, sixteen_bytes, 513)
unfolding get_header bytes_eq
parse_svn_values_low_first_example =
    parse_svn_values_low_first server svn_response sixteen_bytes 1 2 refl sixteen_bytes-AreBytes
      (omega arith) (omega arith) refl
