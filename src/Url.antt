-- ===== src/Url.antt =====
-- The URLs that src/dcap_provider.cpp requests.
pub mod Enclave
use azure_dcap_client.Prelude.{
  ℕ, Bool, true, false, not, ◌&&◌, ◌||◌, List, [], ◌∷◌, ◌++◌, Option, none, some, Bytes, codes,
  bytes_eq, if◌then◌else◌, length, is_empty, get_or, Outcome, ok, throw, fault, bad_alloc,
}
use azure_dcap_client.Host.{Host}
use azure_dcap_client.Errors.{SgxPlatError, sgx_plat_error_ok, sgx_plat_error_invalid_parameter}
use azure_dcap_client.Safe.{safe_cast, int_max}
use azure_dcap_client.Hex.{format_as_hex_string, format_as_big_endian_hex_string}
use azure_dcap_client.Settings.{
  get_collateral_version, get_base_url, get_client_id, get_env_variable,
  env_azdcap_disable_ondemand,
}

abbrev pub api_version_legacy : Bytes
api_version_legacy = codes "api-version=2018-10-01-preview"

abbrev pub api_version : Bytes
api_version = codes "api-version=2020-02-12-preview"

abbrev pub root_crl_name : Bytes
root_crl_name = codes "https%3a%2f%2fcertificates.trustedservices.intel.com%2fintelsgxrootca.crl"

abbrev pub processor_crl_name : Bytes
processor_crl_name =
    codes "https%3a%2f%2fcertificates.trustedservices.intel.com%2fintelsgxpckprocessor.crl"

-- `sgx_ql_pck_cert_id_t`, each array with its bytes.
pub record PckCertId : Type 0 where
  pub qe3_id : Bytes
  pub platform_cpu_svn : Bytes
  pub platform_pce_isv_svn : ℕ
  pub encrypted_ppid : Bytes
  pub pce_id : ℕ

-- What the URLs share: `/` and the version, if there is one; `clientid=`, the client and `&`.
abbrev version_part : Bytes → Bytes
version_part version = if is_empty version then [] else b'/' ∷ version

abbrev client_part : Bytes → Bytes
client_part client_id =
    if is_empty client_id then [] else codes "clientid=" ++ client_id ++ b'&' ∷ []

unfoldable pub build_pck_cert_url : Host → PckCertId → Bytes
unfolding get_collateral_version get_base_url get_client_id format_as_hex_string
    format_as_big_endian_hex_string
build_pck_cert_url h pck_cert_id =
    let qe_id = format_as_hex_string pck_cert_id.qe3_id in
    let cpu_svn = format_as_hex_string pck_cert_id.platform_cpu_svn in
    let pce_svn =
      format_as_big_endian_hex_string h.little_endian pck_cert_id.platform_pce_isv_svn in
    let pce_id = format_as_big_endian_hex_string h.little_endian pck_cert_id.pce_id in
    let version = get_collateral_version h in
    get_base_url h
    ++ version_part version
    ++ b'/' ∷ qe_id
    ++ b'/' ∷ cpu_svn
    ++ b'/' ∷ pce_svn
    ++ b'/' ∷ pce_id
    ++ b'?' ∷ client_part (get_client_id h)
    ++ api_version_legacy

-- `curl_easy::escape` of src/Linux/curl_easy.cpp, on texts shorter than 2 GiB.
unfoldable pub escape : Host → Bytes → Outcome Bytes
escape h unescaped = elim (h.curl_escape unescaped) [
  | none ↦ throw bad_alloc
  | some escaped ↦ ok escaped
]

unfoldable pub pck_crl_url_of : Host → Bytes → Bytes → Bytes
unfolding get_collateral_version get_base_url get_client_id
pck_crl_url_of h escaped version_query =
    get_base_url h
    ++ version_part (get_collateral_version h)
    ++ codes "/pckcrl?uri="
    ++ escaped
    ++ b'&' ∷ []
    ++ client_part (get_client_id h)
    ++ version_query

-- `build_pck_crl_url` of a name.
unfoldable pub build_pck_crl_url : Host → Bytes → Bytes → Outcome Bytes
unfolding escape pck_crl_url_of
build_pck_crl_url h crl_name version_query = elim (escape h crl_name) [
  | ok escaped ↦ ok (pck_crl_url_of h escaped version_query)
  | throw e ↦ throw e
  | fault ↦ fault
]

-- `build_pck_crl_url` of an entry of `params.crl_urls`: the error, and the URL.
unfoldable pub build_indexed_crl_url : Host → Bytes → Outcome (SgxPlatError × Bytes)
unfolding build_pck_crl_url safe_cast
build_indexed_crl_url h crl_url =
    if is_empty crl_url
    then ok (sgx_plat_error_invalid_parameter, [])
    else elim (safe_cast int_max (length crl_url)) [
      | throw e ↦ throw e
      | fault ↦ fault
      | ok _ ↦ elim (build_pck_crl_url h crl_url api_version_legacy) [
        | ok url ↦ ok (sgx_plat_error_ok, url)
        | throw e ↦ throw e
        | fault ↦ fault
      ]
    ]

unfoldable pub build_tcb_info_url : Host → Bytes → Bytes
unfolding get_collateral_version get_base_url get_client_id format_as_hex_string
build_tcb_info_url h fmspc =
    get_base_url h
    ++ version_part (get_collateral_version h)
    ++ codes "/tcb/"
    ++ format_as_hex_string fmspc
    ++ b'?' ∷ []
    ++ client_part (get_client_id h)
    ++ api_version_legacy

abbrev pub qe_issuer_chain : Bytes
qe_issuer_chain = codes "SGX-QE-Identity-Issuer-Chain"

abbrev pub enclave_id_issuer_chain : Bytes
enclave_id_issuer_chain = codes "SGX-Enclave-Identity-Issuer-Chain"

-- The URL, and the header name that the code leaves in `expected_issuer_chain_header`.
unfoldable pub build_enclave_id_url : Host → Bool → Bytes × Bytes
unfolding get_collateral_version get_base_url get_client_id
build_enclave_id_url h qve =
    let version = get_collateral_version h in
    let expected_issuer_chain_header =
      if not (is_empty version) && not (bytes_eq version (codes "v1"))
      then enclave_id_issuer_chain
      else qe_issuer_chain in
    if qve && not (bytes_eq version (codes "v2")) then ([], expected_issuer_chain_header) else (
      get_base_url h
          ++ version_part version
          ++ b'/' ∷ (if qve then codes "qveid" else codes "qeid")
          ++ b'?' ∷ []
          ++ client_part (get_client_id h)
          ++ api_version_legacy,
      expected_issuer_chain_header,
    )

-- `get_issuer_chain_cache_name`
unfoldable pub get_issuer_chain_cache_name : Bytes → Bytes
get_issuer_chain_cache_name url = url ++ codes "IssuerChain"

-- The JSON request body, or an empty text.
unfoldable pub build_eppid_json : Host → PckCertId → Bytes
unfolding get_env_variable format_as_hex_string
build_eppid_json h pck_cert_id =
    let disable_ondemand = get_env_variable h env_azdcap_disable_ondemand in
    let eppid = format_as_hex_string pck_cert_id.encrypted_ppid in
    if not (is_empty disable_ondemand) && bytes_eq disable_ondemand (codes "1")
    then []
    else if is_empty eppid
    then []
    else codes "{\"eppid\":\"" ++ eppid ++ codes "\"}\n"
