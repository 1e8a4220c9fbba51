-- ===== src/Provider/Verification/Parameters.antt =====
-- Which parameters `sgx_ql_get_quote_verification_collateral` of src/dcap_provider.cpp refuses.
use azure_dcap_client.Prelude.{
  ℕ, ◌≡◌, ◌≢◌, refl, arith, Option, none, some, Bytes, codes, bytes_eq_ne, sym, ok,
}
use azure_dcap_client.Errors.{sgx_ql_error_invalid_parameter}
use azure_dcap_client.Host.{Host}
use azure_dcap_client.Cache.{LocalCache}
use azure_dcap_client.Provider.{World}
use azure_dcap_client.Provider.Buffers.{Pointer}
use azure_dcap_client.Provider.Verification.{
  QveCollateral, requested_ca_of, check_parameters, sgx_ql_get_quote_verification_collateral,
}

requested_ca_of-ne : (pck_ca : Bytes) → pck_ca ≢ codes "processor" → requested_ca_of pck_ca ≡ none
unfolding requested_ca_of
requested_ca_of-ne pck_ca ne =
    ground (arith, bytes_eq_ne (codes "processor") pck_ca (λ e. ne (sym e)))

module _ (c : LocalCache) (h : Host) where
  -- Any CA name but "processor", "platform" included, is refused as an invalid parameter, whatever
  -- the other parameters are; no request is sent and the output parameter is left as it was.
  pub refuses_other_ca :
      (fmspc : Option Bytes) (fmspc_size : ℕ) (pck_ca : Bytes) (pp : Option (Pointer QveCollateral))
      (w : World c)
      → pck_ca ≢ codes "processor"
      → sgx_ql_get_quote_verification_collateral c h fmspc fmspc_size (some pck_ca) pp w
        ≡ (ok (record { status = sgx_ql_error_invalid_parameter; collateral = pp }), w)
  unfolding sgx_ql_get_quote_verification_collateral check_parameters
  refuses_other_ca none fmspc_size pck_ca pp w ne = refl
  refuses_other_ca (some fmspc) fmspc_size pck_ca pp w ne =
      ground (arith, requested_ca_of-ne pck_ca ne)
