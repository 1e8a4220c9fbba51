-- ===== src/Provider/RootCrl.antt =====
-- `sgx_ql_get_root_ca_crl` of src/dcap_provider.cpp.
pub mod Size
use azure_dcap_client.Prelude.{
  ℕ, ◌%◌, ◌^◌, Bool, true, false, not, Option, none, some, if◌then◌else◌, Action, pure, try_catch,
  ◌>>=◌, ◌>>◌, Outcome, ok, throw, fault,
}
use azure_dcap_client.Errors.{Quote3Error, sgx_ql_error_invalid_parameter, is_success}
use azure_dcap_client.Host.{Host}
use azure_dcap_client.Url.{build_pck_crl_url, root_crl_name, api_version}
use azure_dcap_client.Cache.{LocalCache}
use azure_dcap_client.Provider.{World, from_outcome, crl_issuer_chain}
use azure_dcap_client.Provider.Buffers.{
  Buffer, Pointer, null, live, is_null, fill_vector_buffer, error_of_exception,
}
use azure_dcap_client.Provider.Collateral.{pck_root_crl, get_collateral}
use azure_dcap_client.Provider.QveIdentity.{is_bad_output}

-- The value, what the output parameter points to, and the size where it has been written.
pub record RootCrlOutput : Type 0 where
  pub status : Quote3Error
  pub crl : Option (Pointer Buffer)
  pub size : Option ℕ

abbrev failed : Quote3Error → RootCrlOutput
failed status = record { status = status; crl = some null; size = none }

module _ (c : LocalCache) (h : Host) where
  -- Nothing is allocated for the caller before the last call that throws, so that the handlers
  -- delete a null pointer.
  unfoldable pub sgx_ql_get_root_ca_crl : Option (Pointer Buffer) → Action (World c) RootCrlOutput
  unfolding error_of_exception
  sgx_ql_get_root_ca_crl pp_root_ca_crl =
      if is_bad_output pp_root_ca_crl
      then pure
          (record { status = sgx_ql_error_invalid_parameter; crl = pp_root_ca_crl; size = none })
      else try_catch
          (do
            root_ca_crl_url ← from_outcome (build_pck_crl_url h root_crl_name api_version)
            collateral ← get_collateral c h pck_root_crl root_ca_crl_url crl_issuer_chain none
            (if is_success collateral.status
                then (do
                  filled ← fill_vector_buffer c h collateral.response_body
                  pure (record {
                    status = filled.0;
                    crl = some (live filled.1);
                    size = some (filled.1.buffer_length % 2 ^ 16);
                  }))
                else pure (failed collateral.status)))
          (λ e. pure (failed (error_of_exception e)))
