-- ===== src/Provider/QveIdentity/Errors.antt =====
-- What `sgx_ql_get_qve_identity` of src/dcap_provider.cpp returns where `get_collateral` fails.
use azure_dcap_client.Prelude.{
  ℕ, ◌+◌, ◌^◌, ◌<◌, ◌≡◌, arith, true, false, none, some, length, is_empty, ok,
}
use azure_dcap_client.Errors.{sgx_ql_success}
use azure_dcap_client.Host.{Host}
use azure_dcap_client.Url.{build_enclave_id_url}
use azure_dcap_client.Cache.{LocalCache}
use azure_dcap_client.Provider.{World, new_block}
use azure_dcap_client.Provider.Buffers.{null, live}
use azure_dcap_client.Provider.Buffers.Filled.{
  terminated, fill_string_buffer_lem, fill_vector_buffer_lem,
}
use azure_dcap_client.Provider.Collateral.{qve_identity, Collateral, get_collateral}
use azure_dcap_client.Provider.QveIdentity.{fill_qve_output, qve_output, sgx_ql_get_qve_identity}

module _ (c : LocalCache) (h : Host) where
  -- Whatever value `get_collateral` returns, also where it reports an error, the call returns
  -- success, with what the two texts then hold: each in a new buffer with a terminating zero. The
  -- parameters are good, there is a URL, and the two allocations succeed.
  pub get_qve_identity_ignores_status :
      (w w1 w2 w3 : World c) (collateral : Collateral) (a b : ℕ)
      → is_empty (build_enclave_id_url h true).0 ≡ false
      → get_collateral c h qve_identity
          (build_enclave_id_url h true).0
          (build_enclave_id_url h true).1
          none
          w
        ≡ (ok collateral, w1)
      → length collateral.response_body + 1 < 2 ^ 32
      → length collateral.issuer_chain + 1 < 2 ^ 32
      → new_block c h (length collateral.response_body + 1) w1 ≡ (ok a, w2)
      → new_block c h (length collateral.issuer_chain + 1) w2 ≡ (ok b, w3)
      → sgx_ql_get_qve_identity c h (some null) (some null) w ≡ (
        ok (
            qve_output sgx_ql_success
              (live (terminated a collateral.response_body))
              (live (terminated b collateral.issuer_chain))),
        w3,
      )
  unfolding sgx_ql_get_qve_identity fill_qve_output
  get_qve_identity_ignores_status w w1 w2 w3 collateral a b url got small1 small2 new1 new2 =
      ground (
        arith,
        fill_vector_buffer_lem c h collateral.response_body w1 w2 a small1 new1,
        fill_string_buffer_lem c h collateral.issuer_chain w2 w3 b small2 new2,
      )
