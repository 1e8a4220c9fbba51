-- ===== src/Provider/RootCrl/Size.antt =====
-- The size that `sgx_ql_get_root_ca_crl` of src/dcap_provider.cpp reports.
use azure_dcap_client.Prelude.{ℕ, ◌+◌, ◌%◌, ◌^◌, ◌<◌, ◌≡◌, arith, Bytes, none, some, length, ok}
use azure_dcap_client.Errors.{sgx_ql_success}
use azure_dcap_client.Host.{Host}
use azure_dcap_client.Url.{build_pck_crl_url, root_crl_name, api_version}
use azure_dcap_client.Cache.{LocalCache}
use azure_dcap_client.Provider.{World, new_block, crl_issuer_chain}
use azure_dcap_client.Provider.Buffers.{null, live}
use azure_dcap_client.Provider.Buffers.Filled.{terminated, fill_vector_buffer_lem}
use azure_dcap_client.Provider.Collateral.{pck_root_crl, Collateral, get_collateral}
use azure_dcap_client.Provider.RootCrl.{sgx_ql_get_root_ca_crl}

module _ (c : LocalCache) (h : Host) where
  -- Where the CRL is fetched and the allocation succeeds, the call succeeds with the whole CRL and
  -- its terminating zero; the size that it reports is that length modulo 65536.
  pub get_root_ca_crl_size :
      (w w1 w2 : World c) (url : Bytes) (collateral : Collateral) (a : ℕ)
      → build_pck_crl_url h root_crl_name api_version ≡ ok url
      → get_collateral c h pck_root_crl url crl_issuer_chain none w ≡ (ok collateral, w1)
      → collateral.status ≡ sgx_ql_success
      → length collateral.response_body + 1 < 2 ^ 32
      → new_block c h (length collateral.response_body + 1) w1 ≡ (ok a, w2)
      → sgx_ql_get_root_ca_crl c h (some null) w ≡ (
        ok (record {
          status = sgx_ql_success;
          crl = some (live (terminated a collateral.response_body));
          size = some ((length collateral.response_body + 1) % 2 ^ 16);
        }),
        w2,
      )
  unfolding sgx_ql_get_root_ca_crl
  get_root_ca_crl_size w w1 w2 url collateral a built got status small new =
      ground (arith, fill_vector_buffer_lem c h collateral.response_body w1 w2 a small new)
