-- ===== src/Provider/Config.antt =====
-- `sgx_ql_get_quote_config` of src/dcap_provider.cpp.
pub mod Svn
pub mod Caching
use azure_dcap_client.Prelude.{
  ℕ, ◌+◌, ◌-◌, ◌%◌, ◌^◌, ◌<◌, ◌≡◌, Bool, true, false, not, ◌||◌, Bytes, List, [], ◌∷◌, ◌++◌, Option,
  none, some, if◌then◌else◌, ltb, ◌==◌, length, take, drop, get_or, Action, pure, raise, crash,
  gets, try_catch, ◌>>=◌, ◌>>◌, Outcome, ok, throw, fault, Exception, bad_alloc, overflow_error,
  runtime_error, other_exception, curl_error, CurlCode, curle_http_returned_error,
}
use azure_dcap_client.Errors.{
  SgxPlatError, sgx_plat_error_ok, sgx_plat_error_unexpected_server_response, is_plat_ok,
  Quote3Error, sgx_ql_success, sgx_ql_error_unexpected, sgx_ql_error_out_of_memory,
  sgx_ql_no_platform_cert_data, convert_to_intel_error,
}
use azure_dcap_client.Host.{Host}
use azure_dcap_client.Hex.{hex_decode, decoded_pce_svn}
use azure_dcap_client.Curl.{CurlEasy, create, set_headers, get_header}
use azure_dcap_client.Url.{PckCertId, build_pck_cert_url, build_eppid_json}
use azure_dcap_client.Cache.{LocalCache}
use azure_dcap_client.Provider.{
  World, new_block, perform_request, get_raw_header, from_outcome, default_values, try_cache_get,
  on_store, tcb_info_header, pck_cert_issuer_chain,
}
use azure_dcap_client.Provider.Buffers.{Pointer, null, live}
use azure_dcap_client.Provider.Collateral.{pck_cert, get_cache_expiration_time}

-- `sgx_ql_config_t`
pub record QuoteConfig : Type 0 where
  pub cert_cpu_svn : Bytes
  pub cert_pce_isv_svn : ℕ
  pub version : ℕ
  pub p_cert_data : ℕ
  pub cert_data_size : ℕ

-- The values that the fields of the structure can hold.
pub record IsConfig (q : QuoteConfig) : Type 0 where
  pub cpu_svn_size : length q.cert_cpu_svn ≡ 16
  pub version_range : q.version < 2 ^ 32
  pub pce_isv_svn_range : q.cert_pce_isv_svn < 2 ^ 16
  pub p_cert_data_range : q.p_cert_data < 2 ^ 64
  pub cert_data_size_range : q.cert_data_size < 2 ^ 32

-- How the compiler lays the structure out in memory: its size, its bytes, and what bytes hold.
pub record ConfigLayout : Type 0 where
  pub sizeof_config : ℕ
  pub store : QuoteConfig → Bytes
  pub load : Bytes → QuoteConfig
  pub length-store : (q : QuoteConfig) → length (store q) ≡ sizeof_config
  pub load-store : (q : QuoteConfig) (rest : Bytes) → IsConfig q → load (store q ++ rest) ≡ q

-- `parse_svn_values`: the error, the CPU SVN and the PCE ISV SVN.
unfoldable pub parse_svn_values : Host → CurlEasy → SgxPlatError × Bytes × ℕ
parse_svn_values h curl =
    let (result, tcb) = get_raw_header curl tcb_info_header in
    let (cpu_error, cpu_svn) = hex_decode 16 (take 32 tcb) in
    let (pce_error, pce_svn) = hex_decode 2 (take 4 (drop 32 tcb)) in
    if not (is_plat_ok result)
    then (result, [], 0)
    else if not (length tcb == 32 + 4)
    then (sgx_plat_error_unexpected_server_response, [], 0)
    else if not (is_plat_ok cpu_error)
    then (cpu_error, cpu_svn, 0)
    else if not (is_plat_ok pce_error)
    then (pce_error, cpu_svn, 0)
    else (sgx_plat_error_ok, cpu_svn, decoded_pce_svn h.little_endian pce_svn)

-- The last character of a text that is not empty.
abbrev pub back : Bytes → ℕ
back s = get_or s (length s - 1) 0

-- `build_cert_chain`, which takes the last character of the body, and the header, unseen.
unfoldable pub build_cert_chain : Host → CurlEasy → Outcome Bytes
build_cert_chain h curl = elim curl.body [
  | [] ↦ fault
  | _ ↦ elim (get_header curl pck_cert_issuer_chain) [
    | none ↦ fault
    | some header ↦
        let leaf_cert = if back curl.body == b'\n' then curl.body else curl.body ++ b'\n' ∷ [] in
        ok (leaf_cert ++ h.curl_easy_unescape header)
  ]
]

-- The block of a configuration: the structure at its start, and the certificates behind it.
pub record ConfigBlock : Type 0 where
  pub address : ℕ
  pub config : QuoteConfig
  pub cert_data : Bytes

pub record ConfigOutput : Type 0 where
  pub status : Quote3Error
  pub config : Pointer ConfigBlock

abbrev pub config_output : Quote3Error → Pointer ConfigBlock → ConfigOutput
config_output status config = record { status = status; config = config }

-- The value behind the handlers: a `std::runtime_error` is swallowed.
unfoldable pub config_error : Exception → Quote3Error
config_error bad_alloc = sgx_ql_error_out_of_memory
config_error (curl_error curle_http_returned_error) = sgx_ql_no_platform_cert_data
config_error (curl_error code) = sgx_ql_error_unexpected
config_error runtime_error = sgx_ql_success
config_error overflow_error = sgx_ql_success
config_error other_exception = sgx_ql_error_unexpected

module _ (c : LocalCache) (h : Host) (layout : ConfigLayout) where
  -- The branch for a cache hit. The pointer is written into the copy, and lies outside it if the
  -- entry is shorter than the structure.
  unfoldable pub config_from_cache : Bytes → Action (World c) ConfigOutput
  config_from_cache cache_hit = do
    address ← new_block c h (length cache_hit)
    (if ltb (length cache_hit) layout.sizeof_config
        then crash
        else pure (
            config_output sgx_ql_success (
              live (record {
                address = address;
                config = record (layout.load cache_hit) {
                  p_cert_data = address + layout.sizeof_config;
                };
                cert_data = drop layout.sizeof_config cache_hit;
              }))))

  -- The block that is filled from a response.
  unfoldable pub config_block : ℕ → Bytes → ℕ → Bytes → ConfigBlock
  config_block address cpu_svn pce_svn cert_data =
      let cert_data_size = (length cert_data % 2 ^ 32 + 1) % 2 ^ 32 in
      record {
        address = address;
        config = record {
          cert_cpu_svn = cpu_svn;
          cert_pce_isv_svn = pce_svn;
          version = 1;
          p_cert_data = address + layout.sizeof_config;
          cert_data_size = cert_data_size;
        };
        cert_data = take cert_data_size (cert_data ++ 0 ∷ []);
      }

  -- The end of the `try` block: the block is added to the cache as it stands in memory. The output
  -- parameter points to the block by then.
  unfoldable pub cache_config : Bytes → ConfigBlock → Action (World c) ConfigOutput
  unfolding get_cache_expiration_time config_error
  cache_config cert_url block =
      try_catch
        (do
          w ← gets (λ w. w)
          on_store c (
              c.local_cache_add cert_url (get_cache_expiration_time pck_cert w.time)
                (layout.store block.config ++ block.cert_data))
          pure (config_output sgx_ql_success (live block)))
        (λ e. pure (config_output (config_error e) (live block)))

  -- The part behind the response.
  unfoldable pub config_from_response : Bytes → CurlEasy → Action (World c) ConfigOutput
  unfolding cache_config
  config_from_response cert_url curl = do
    let missing =
        not (is_plat_ok (get_raw_header curl tcb_info_header).0)
        || not (is_plat_ok (get_raw_header curl pck_cert_issuer_chain).0)
    let (error, cpu_svn, pce_svn) = parse_svn_values h curl
    (if missing
        then pure (config_output sgx_ql_error_unexpected null)
        else if not (is_plat_ok error)
        then pure (config_output (convert_to_intel_error error) null)
        else (do
          cert_data ← from_outcome (build_cert_chain h curl)
          let size = layout.sizeof_config + (length cert_data % 2 ^ 32 + 1) % 2 ^ 32
          address ← new_block c h size
          cache_config cert_url (config_block address cpu_svn pce_svn cert_data)))

  unfoldable pub sgx_ql_get_quote_config : PckCertId → Action (World c) ConfigOutput
  unfolding config_error
  sgx_ql_get_quote_config pck_cert_id =
      try_catch
        (do
          let cert_url = build_pck_cert_url h pck_cert_id
          cache_hit ← try_cache_get c cert_url
          elim cache_hit [
            | some bytes ↦ config_from_cache bytes
            | none ↦ (do
              created ← from_outcome (create h cert_url (some (build_eppid_json h pck_cert_id)))
              prepared ← from_outcome (set_headers h default_values created)
              curl ← perform_request c h prepared
              config_from_response cert_url curl)
          ])
        (λ e. pure (config_output (config_error e) null))
