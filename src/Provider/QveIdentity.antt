-- ===== src/Provider/QveIdentity.antt =====
-- `sgx_ql_get_qve_identity` of src/dcap_provider.cpp.
pub mod Errors
use azure_dcap_client.Prelude.{
  ℕ, Bytes, Bool, true, false, not, ◌||◌, Option, none, some, if◌then◌else◌, is_empty, Action, pure,
  raise, try_catch, ◌>>=◌, ◌>>◌, Exception, bad_alloc, overflow_error,
}
use azure_dcap_client.Errors.{Quote3Error, sgx_ql_error_invalid_parameter, is_success}
use azure_dcap_client.Host.{Host}
use azure_dcap_client.Url.{build_enclave_id_url}
use azure_dcap_client.Cache.{LocalCache}
use azure_dcap_client.Provider.{World}
use azure_dcap_client.Provider.Buffers.{
  Buffer, Pointer, null, live, deleted, is_null, fill_string_buffer, fill_vector_buffer,
  error_of_exception,
}
use azure_dcap_client.Provider.Collateral.{qve_identity, get_collateral}

-- An output parameter that is null, or that points to a pointer which is not null.
abbrev pub is_bad_output : {A : Type 0} → Option (Pointer A) → Bool
is_bad_output none = true
is_bad_output (some p) = not (is_null p)

-- `delete[]` in the handlers of `std::bad_alloc` and `std::overflow_error`.
abbrev pub release : {A : Type 0} → Exception → A → Pointer A
release bad_alloc a = deleted
release overflow_error a = deleted
release e a = live a

-- The value, and what the two output parameters point to.
pub record QveOutput : Type 0 where
  pub status : Quote3Error
  pub identity : Option (Pointer Buffer)
  pub issuer_chain : Option (Pointer Buffer)

abbrev pub qve_output : Quote3Error → Pointer Buffer → Pointer Buffer → QveOutput
qve_output status identity issuer_chain = record {
  status = status;
  identity = some identity;
  issuer_chain = some issuer_chain;
}

module _ (c : LocalCache) (h : Host) where
  -- The part behind `get_collateral`, whose value is not tested.
  unfoldable pub fill_qve_output : Bytes → Bytes → Action (World c) QveOutput
  unfolding error_of_exception
  fill_qve_output response_body issuer_chain = do
    identity ← fill_vector_buffer c h response_body
    (if is_success identity.0
        then try_catch
            (do
              chain ← fill_string_buffer c h issuer_chain
              pure (qve_output chain.0 (live identity.1) (live chain.1)))
            (λ e. pure (qve_output (error_of_exception e) (release e identity.1) null))
        else pure (qve_output identity.0 (live identity.1) null))

  unfoldable pub sgx_ql_get_qve_identity :
      Option (Pointer Buffer) → Option (Pointer Buffer) → Action (World c) QveOutput
  unfolding fill_qve_output error_of_exception
  sgx_ql_get_qve_identity pp_qve_identity pp_issuer_chain =
      let refused : QveOutput = record {
        status = sgx_ql_error_invalid_parameter;
        identity = pp_qve_identity;
        issuer_chain = pp_issuer_chain;
      } in
      let (qve_url, expected_issuer) = build_enclave_id_url h true in
      if is_bad_output pp_qve_identity || is_bad_output pp_issuer_chain || is_empty qve_url
      then pure refused
      else try_catch
          (do
            collateral ← get_collateral c h qve_identity qve_url expected_issuer none
            fill_qve_output collateral.response_body collateral.issuer_chain)
          (λ e. pure (qve_output (error_of_exception e) null null))
