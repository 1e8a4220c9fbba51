-- ===== src/Tests/Requests.antt =====
-- Runs of the calls that ask the server.
use azure_dcap_client.Prelude.{
  ◌≡◌, refl, arith, true, [], ◌∷◌, ◌++◌, some, none, ok, fault, Bytes, codes, lookup, insert,
  bytes_eq, curle_ok,
}
use azure_dcap_client.Errors.{sgx_ql_success, sgx_ql_error_unexpected}
use azure_dcap_client.Host.{Host}
use azure_dcap_client.Hex.{hex_decode, decoded_pce_svn}
use azure_dcap_client.Curl.{CurlEasy, create, set_headers, perform, get_header}
use azure_dcap_client.Url.{
  PckCertId, build_enclave_id_url, build_pck_crl_url, build_pck_cert_url, build_eppid_json,
  root_crl_name, processor_crl_name, api_version, get_issuer_chain_cache_name,
}
use azure_dcap_client.Provider.{World, new_block, get_raw_header, crl_issuer_chain, default_values}
use azure_dcap_client.Provider.Buffers.{null, live}
use azure_dcap_client.Provider.Buffers.Filled.{terminated}
use azure_dcap_client.Provider.Collateral.{
  tcb_info, pck_root_crl, pck_cert, qve_identity, Collateral, get_cache_expiration_time,
  get_collateral,
}
use azure_dcap_client.Provider.Collateral.Caching.{collateral_of, get_collateral_once}
use azure_dcap_client.Provider.Config.{
  IsConfig, config_output, parse_svn_values, build_cert_chain, sgx_ql_get_quote_config,
}
use azure_dcap_client.Provider.Config.Caching.{response_block, get_quote_config_once}
use azure_dcap_client.Provider.QveIdentity.{qve_output, sgx_ql_get_qve_identity}
use azure_dcap_client.Provider.QveIdentity.Errors.{get_qve_identity_ignores_status}
use azure_dcap_client.Provider.RootCrl.{sgx_ql_get_root_ca_crl}
use azure_dcap_client.Provider.RootCrl.Size.{get_root_ca_crl_size}
use azure_dcap_client.Provider.Verification.{
  check_parameters, sgx_ql_get_quote_verification_collateral,
}
use azure_dcap_client.Provider.Verification.Faults.{out_of_memory_faults}
use azure_dcap_client.Tests.Layout.{packed_layout}
use azure_dcap_client.Tests.Setup.{MemoryStore, memory_cache, memory_add, server, value_or}

abbrev start : World memory_cache
start = record { store = []; time = 1000; sent = []; allocations = 0 }

abbrev fresh : CurlEasy
fresh = record { handle = []; body = []; headers = [] }

abbrev chain_header : Bytes
chain_header = crl_issuer_chain

-- The handle for a URL, and what the server makes of it.
abbrev created : CurlEasy
created = value_or (create server (codes "u") none) fresh

abbrev answered : CurlEasy
answered = value_or (perform server [] created) fresh

abbrev store_with_body : MemoryStore
store_with_body =
    (memory_add (codes "u") (get_cache_expiration_time tcb_info 1000) (codes "{}") []).1

abbrev store_with_both : MemoryStore
store_with_both =
    (memory_add (get_issuer_chain_cache_name (codes "u")) (get_cache_expiration_time tcb_info 1000)
      (codes "chain") store_with_body).1

get_collateral_once_example :
    let (r, w') = get_collateral memory_cache server tcb_info (codes "u") chain_header none start in
    let (r', w'') =
      get_collateral memory_cache server tcb_info
        (codes "u")
        chain_header
        none
        (record w' { time = 2000 }) in
    (r ≡ ok (collateral_of memory_cache server answered (codes "chain")))
    × (r' ≡ ok (collateral_of memory_cache server answered (codes "chain")))
    × (w''.sent ≡ created.handle ∷ [])
unfolding create perform get_header insert lookup bytes_eq get_cache_expiration_time
    get_issuer_chain_cache_name
get_collateral_once_example =
    get_collateral_once memory_cache server tcb_info (codes "u") chain_header none start created
      answered (codes "chain") [] store_with_body store_with_both 2000 refl refl refl refl refl refl
      (ground arith) (omega arith) (omega arith) (omega arith) (omega arith)

abbrev holding_both : World memory_cache
holding_both = record start { store = store_with_both }

-- A libcurl that cannot allocate.
abbrev no_escape : Host
no_escape = record server { curl_escape = λ s. none }

out_of_memory_faults_example :
    (sgx_ql_get_quote_verification_collateral memory_cache no_escape
      (some (codes "f"))
      1
      (some (codes "processor"))
      (some null)
      start).0
    ≡ fault
unfolding check_parameters bytes_eq
out_of_memory_faults_example =
    out_of_memory_faults memory_cache no_escape (some (codes "f")) 1 (some (codes "processor"))
      (some null) (codes "f") processor_crl_name start refl refl

abbrev crl_url : Bytes
crl_url = value_or (build_pck_crl_url server root_crl_name api_version) []

abbrev crl_collateral : Collateral
crl_collateral = record {
  status = sgx_ql_success;
  response_body = codes "{}";
  issuer_chain = codes "chain";
}

abbrev after_crl : World memory_cache
after_crl = (get_collateral memory_cache server pck_root_crl crl_url crl_issuer_chain none start).1

get_root_ca_crl_size_example : sgx_ql_get_root_ca_crl memory_cache server (some null) start ≡ (
  ok (record {
    status = sgx_ql_success;
    crl = some (live (terminated 4096 (codes "{}")));
    size = some 3;
  }),
  (new_block memory_cache server 3 after_crl).1,
)
unfolding build_pck_crl_url get_collateral new_block insert lookup bytes_eq perform create
    get_header
get_root_ca_crl_size_example =
    get_root_ca_crl_size memory_cache server start after_crl
      (new_block memory_cache server 3 after_crl).1 crl_url crl_collateral 4096 refl refl refl
      (omega arith) refl

-- A server that gives no header.
abbrev bare_server : Host
bare_server = record server {
  curl_easy_perform = λ sent handle. record { events = []; code = λ r. curle_ok };
}

abbrev version_two : Host
version_two = record bare_server { getenv = λ name. some (codes "v2") }

abbrev no_collateral : Collateral
no_collateral = record { status = sgx_ql_error_unexpected; response_body = []; issuer_chain = [] }

abbrev qve_url : Bytes × Bytes
qve_url = build_enclave_id_url version_two true

abbrev after_qve : World memory_cache
after_qve = (get_collateral memory_cache version_two qve_identity qve_url.0 qve_url.1 none start).1

get_qve_identity_ignores_status_example :
    sgx_ql_get_qve_identity memory_cache version_two (some null) (some null) start ≡ (
      ok (qve_output sgx_ql_success (live (terminated 4096 [])) (live (terminated 8192 []))),
      record after_qve { allocations = 2 },
    )
unfolding build_enclave_id_url get_collateral new_block insert lookup bytes_eq perform create
    get_header
get_qve_identity_ignores_status_example =
    get_qve_identity_ignores_status memory_cache version_two start after_qve
      (record after_qve { allocations = 1 }) (record after_qve { allocations = 2 }) no_collateral
      4096 8192 refl refl (omega arith) (omega arith) refl refl

abbrev cert_id : PckCertId
cert_id = record {
  qe3_id = [];
  platform_cpu_svn = [];
  platform_pce_isv_svn = 0;
  encrypted_ppid = [];
  pce_id = 0;
}

abbrev cert_url : Bytes
cert_url = build_pck_cert_url server cert_id

abbrev cert_created : CurlEasy
cert_created = value_or (create server cert_url (some (build_eppid_json server cert_id))) fresh

abbrev cert_prepared : CurlEasy
cert_prepared = value_or (set_headers server default_values cert_created) fresh

abbrev cert_answered : CurlEasy
cert_answered = value_or (perform server [] cert_prepared) fresh

abbrev cpu_svn : Bytes
cpu_svn = 1 ∷ 2 ∷ 3 ∷ 4 ∷ 5 ∷ 6 ∷ 7 ∷ 8 ∷ 9 ∷ 10 ∷ 11 ∷ 12 ∷ 13 ∷ 14 ∷ 15 ∷ 16 ∷ []

abbrev cert_chain : Bytes
cert_chain = codes "{}" ++ b'\n' ∷ codes "root"

abbrev cert_stored : MemoryStore
cert_stored =
    (memory_add cert_url (get_cache_expiration_time pck_cert 1000)
      (packed_layout.store
          (response_block memory_cache server packed_layout 4096 cpu_svn 258 cert_chain).config
        ++ (cert_chain ++ 0 ∷ []))
      []).1

abbrev cert_made : World memory_cache
cert_made = record start { sent = cert_prepared.handle ∷ []; allocations = 1 }

abbrev cert_again : World memory_cache
cert_again = record cert_made { store = cert_stored; time = 2000; allocations = 2 }

cert_config-IsConfig :
    IsConfig (response_block memory_cache server packed_layout 4096 cpu_svn 258 cert_chain).config
cert_config-IsConfig = record {
  cpu_svn_size = refl;
  version_range = omega arith;
  pce_isv_svn_range = omega arith;
  p_cert_data_range = omega arith;
  cert_data_size_range = omega arith;
}

get_quote_config_once_example :
    let (r, after) = sgx_ql_get_quote_config memory_cache server packed_layout cert_id start in
    let second =
      sgx_ql_get_quote_config memory_cache server packed_layout cert_id
        (record after { time = 2000 }) in
    (r
      ≡ ok (
          config_output sgx_ql_success
            (live (response_block memory_cache server packed_layout 4096 cpu_svn 258 cert_chain))))
    × (second ≡ (
      ok (
          config_output sgx_ql_success
            (live (response_block memory_cache server packed_layout 8192 cpu_svn 258 cert_chain))),
      cert_again,
    ))
    × (cert_again.sent ≡ cert_prepared.handle ∷ [])
unfolding create set_headers perform get_header insert lookup bytes_eq get_cache_expiration_time
    build_cert_chain parse_svn_values get_raw_header new_block build_pck_cert_url build_eppid_json
    hex_decode decoded_pce_svn
get_quote_config_once_example =
    get_quote_config_once memory_cache server packed_layout cert_id start cert_made cert_again
      cert_created cert_prepared cert_answered (codes "0102030405060708090A0B0C0D0E0F100201")
      (codes "root") cpu_svn cert_chain 258 4096 8192 2000 [] cert_stored refl refl refl refl refl
      refl refl refl cert_config-IsConfig (omega arith) refl refl (omega arith) (omega arith) refl
