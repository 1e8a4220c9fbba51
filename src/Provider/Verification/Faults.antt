-- ===== src/Provider/Verification/Faults.antt =====
-- Where `sgx_ql_get_quote_verification_collateral` of src/dcap_provider.cpp reads through a null
-- pointer.
use azure_dcap_client.Prelude.{ℕ, ◌≡◌, arith, Option, none, some, Bytes, fault}
use azure_dcap_client.Host.{Host}
use azure_dcap_client.Url.{escape, build_pck_crl_url}
use azure_dcap_client.Cache.{LocalCache}
use azure_dcap_client.Provider.{World}
use azure_dcap_client.Provider.Buffers.{Pointer}
use azure_dcap_client.Provider.Verification.{
  QveCollateral, check_parameters, request_collateral, handle_request_error,
  sgx_ql_get_quote_verification_collateral,
}

module _ (c : LocalCache) (h : Host) where
  -- With good parameters, if libcurl cannot allocate the escaped name of the CRL, the handler of
  -- `std::bad_alloc` reads through a null pointer: no error is returned.
  pub out_of_memory_faults :
      (fmspc : Option Bytes) (fmspc_size : ℕ) (pck_ca : Option Bytes)
      (pp : Option (Pointer QveCollateral)) (id requested_ca : Bytes) (w : World c)
      → check_parameters fmspc fmspc_size pck_ca pp ≡ some (id, requested_ca)
      → h.curl_escape requested_ca ≡ none
      → (sgx_ql_get_quote_verification_collateral c h fmspc fmspc_size pck_ca pp w).0 ≡ fault
  unfolding sgx_ql_get_quote_verification_collateral request_collateral handle_request_error
      build_pck_crl_url escape
  out_of_memory_faults fmspc fmspc_size pck_ca pp id requested_ca w good failed = ground arith
