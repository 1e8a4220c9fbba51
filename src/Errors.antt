-- ===== src/Errors.antt =====
-- The error enumerations of src/dcap_provider.h and of the Intel interface, and
-- `convert_to_intel_error` of src/dcap_provider.cpp.
use azure_dcap_client.Prelude.{◌≡◌, ◌↔◌, refl, Bool, true, false}

-- `sgx_plat_error_t`
pub data SgxPlatError : Type 0 where
  sgx_plat_error_ok sgx_plat_error_out_of_memory sgx_plat_error_invalid_parameter : SgxPlatError
  sgx_plat_error_unexpected_server_response sgx_plat_no_data_found : SgxPlatError
  sgx_plat_error_overflow : SgxPlatError

-- `quote3_error_t`: the values that the library returns.
pub data Quote3Error : Type 0 where
  sgx_ql_success sgx_ql_error_unexpected sgx_ql_error_invalid_parameter : Quote3Error
  sgx_ql_error_out_of_memory sgx_ql_no_platform_cert_data : Quote3Error
  sgx_ql_no_quote_collateral_data sgx_ql_network_error : Quote3Error

unfoldable pub convert_to_intel_error : SgxPlatError → Quote3Error
convert_to_intel_error sgx_plat_error_ok = sgx_ql_success
convert_to_intel_error sgx_plat_error_out_of_memory = sgx_ql_error_out_of_memory
convert_to_intel_error sgx_plat_error_invalid_parameter = sgx_ql_error_invalid_parameter
convert_to_intel_error sgx_plat_error_unexpected_server_response = sgx_ql_error_unexpected
convert_to_intel_error sgx_plat_no_data_found = sgx_ql_no_platform_cert_data
convert_to_intel_error sgx_plat_error_overflow = sgx_ql_error_unexpected

-- The tests `result != SGX_PLAT_ERROR_OK` and `result == SGX_QL_SUCCESS`.
abbrev pub is_plat_ok : SgxPlatError → Bool
is_plat_ok sgx_plat_error_ok = true
is_plat_ok e = false

abbrev pub is_success : Quote3Error → Bool
is_success sgx_ql_success = true
is_success e = false

pub convert_to_intel_error_success :
    (e : SgxPlatError) → (convert_to_intel_error e ≡ sgx_ql_success) ↔ (e ≡ sgx_plat_error_ok)
unfolding convert_to_intel_error
convert_to_intel_error_success sgx_plat_error_ok = (λ _. refl, λ _. refl)
convert_to_intel_error_success e = (λ h. cc, λ h. cc)
