-- ===== src/Provider/Collateral.antt =====
-- `get_collateral` of src/dcap_provider.cpp, and the data that depend on the kind of collateral.
pub mod Caching
use azure_dcap_client.Prelude.{
  ℕ, ◌+◌, ◌*◌, Bool, true, false, List, [], ◌∷◌, Option, none, some, Bytes, codes, if◌then◌else◌,
  Action, Outcome, ok, throw, fault, pure, raise, gets, modify, try_catch, zoom, ◌>>=◌, ◌>>◌, ⊤,
  Exception, runtime_error, overflow_error, bad_alloc, other_exception, curl_error, CurlCode,
  curle_http_returned_error,
}
use azure_dcap_client.Errors.{
  Quote3Error, sgx_ql_success, sgx_ql_error_unexpected, sgx_ql_no_quote_collateral_data,
  sgx_ql_network_error, convert_to_intel_error, is_success,
}
use azure_dcap_client.Host.{Host}
use azure_dcap_client.Curl.{create}
use azure_dcap_client.Url.{get_issuer_chain_cache_name}
use azure_dcap_client.Cache.{LocalCache}
use azure_dcap_client.Provider.{
  World, on_store, try_cache_get, perform_request, get_unescape_header, from_outcome,
  is_runtime_error,
}

pub data CollateralTypes : Type 0 where
  tcb_info qe_identity qve_identity pck_cert pck_crl pck_root_crl : CollateralTypes

unfoldable pub get_collateral_friendly_name : CollateralTypes → Bytes
get_collateral_friendly_name tcb_info = codes "Tcb Info"
get_collateral_friendly_name qe_identity = codes "Qe Identity"
get_collateral_friendly_name qve_identity = codes "Qve Identity"
get_collateral_friendly_name pck_cert = codes "PCK Cert"
get_collateral_friendly_name pck_crl = codes "PCK Crl"
get_collateral_friendly_name pck_root_crl = codes "Root CA Crl"

-- The fields of a `tm` that the code changes, counted from the local time of the Epoch, and the
-- seconds from the Epoch to it in a zone whose offset is constant that day.
pub record Tm : Type 0 where
  pub tm_mday : ℕ
  pub tm_hour : ℕ

abbrev pub mktime : Tm → ℕ
mktime t = t.tm_mday * 86400 + t.tm_hour * 3600

-- The expiration time, from `time(nullptr)`; the code's default branch is for no enumerator.
unfoldable pub get_cache_expiration_time : CollateralTypes → ℕ → ℕ
get_cache_expiration_time collateral_type now =
    let epoch : Tm = record { tm_mday = 0; tm_hour = 0 } in
    let half_day = record epoch { tm_hour = 12 } in
    let day = record epoch { tm_mday = 1 } in
    now
    + mktime (elim collateral_type [
      | tcb_info ↦ half_day
      | qe_identity ↦ half_day
      | qve_identity ↦ half_day
      | pck_cert ↦ day
      | pck_crl ↦ day
      | pck_root_crl ↦ day
    ])

-- The value of a call of `get_collateral`, and its two output parameters.
pub record Collateral : Type 0 where
  pub status : Quote3Error
  pub response_body : Bytes
  pub issuer_chain : Bytes

module _ (c : LocalCache) (h : Host) where
  -- The state of a call: `retval` and the output parameters beside the world.
  record Call : Type 0 where
    world : World c
    retval : Quote3Error
    response_body : Bytes
    issuer_chain : Bytes

  abbrev on_world : {A : Type 0} → Action (World c) A → Action Call A
  on_world = zoom (λ s. s.world) (λ w s. record s { world = w })

  -- The update of the cache.
  unfoldable pub cache_collateral : CollateralTypes → Bytes → Bytes → Bytes → Action (World c) ⊤
  unfolding get_cache_expiration_time get_issuer_chain_cache_name
  cache_collateral collateral_type url response_body issuer_chain w =
      let expiry = get_cache_expiration_time collateral_type w.time in
      (on_store c (c.local_cache_add url expiry response_body)
          >> on_store c (c.local_cache_add (get_issuer_chain_cache_name url) expiry issuer_chain))
        w

  -- The part of the `try` block that asks the server.
  unfoldable fetch_collateral :
      CollateralTypes → Bytes → Bytes → Option Bytes → Action Call Quote3Error
  unfolding create perform_request get_unescape_header convert_to_intel_error cache_collateral
  fetch_collateral collateral_type url header_name request_body = do
    created ← from_outcome (create h url request_body)
    curl ← on_world (perform_request c h created)
    modify (λ s. record s { response_body = curl.body })
    old ← gets (λ s. s.issuer_chain)
    let found = get_unescape_header h curl header_name old
    modify (λ s. record s { issuer_chain = found.1; retval = convert_to_intel_error found.0 })
    s ← gets (λ s. s)
    (if is_success s.retval
        then on_world (cache_collateral collateral_type url s.response_body s.issuer_chain)
        else pure tt)
    pure s.retval

  -- The `try` block.
  unfoldable look_up_collateral :
      CollateralTypes → Bytes → Bytes → Option Bytes → Action Call Quote3Error
  unfolding try_cache_get fetch_collateral get_issuer_chain_cache_name
  look_up_collateral collateral_type url header_name request_body = do
    cache_hit_collateral ← on_world (try_cache_get c url)
    let fetch = fetch_collateral collateral_type url header_name request_body
    elim cache_hit_collateral [
      | none ↦ fetch
      | some body ↦ do
        cache_hit_issuer_chain ← on_world (try_cache_get c (get_issuer_chain_cache_name url))
        elim cache_hit_issuer_chain [
          | none ↦ fetch
          | some chain ↦ do
            modify (λ s. record s { response_body = body; issuer_chain = chain })
            pure sgx_ql_success
        ]
    ]

  -- The two handlers.
  unfoldable handle_collateral_error : Exception → Action Call Quote3Error
  handle_collateral_error runtime_error = gets (λ s. s.retval)
  handle_collateral_error overflow_error = gets (λ s. s.retval)
  handle_collateral_error (curl_error curle_http_returned_error) =
      pure sgx_ql_no_quote_collateral_data
  handle_collateral_error (curl_error code) = pure sgx_ql_network_error
  handle_collateral_error e = raise e

  -- The output parameters are empty at every call in the source.
  unfoldable pub get_collateral :
      CollateralTypes → Bytes → Bytes → Option Bytes → Action (World c) Collateral
  unfolding look_up_collateral handle_collateral_error
  get_collateral collateral_type url header_name request_body w =
      let (r, s) =
        try_catch (look_up_collateral collateral_type url header_name request_body)
          handle_collateral_error
          (record {
            world = w;
            retval = sgx_ql_error_unexpected;
            response_body = [];
            issuer_chain = [];
          }) in
      (
        elim r [
          | ok status ↦ ok (record {
            status = status;
            response_body = s.response_body;
            issuer_chain = s.issuer_chain;
          })
          | throw e ↦ throw e
          | fault ↦ fault
        ],
        s.world,
      )
