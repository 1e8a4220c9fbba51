-- ===== src/Provider/Revocation/Filling.antt =====
-- The block of `sgx_ql_get_revocation_info` of src/dcap_provider.cpp, with the assertions of the Linux
-- build.
use azure_dcap_client.Prelude.{
  ℕ, ◌^◌, ◌<◌, ◌≤◌, ◌≡◌, ◌≢◌, ◌⊎◌, arith, Bytes, [], none, length, ok, is_empty, fault,
}
use azure_dcap_client.Errors.{sgx_plat_error_ok}
use azure_dcap_client.Host.{Host}
use azure_dcap_client.Cache.{LocalCache}
use azure_dcap_client.Provider.{World, new_block}
use azure_dcap_client.Provider.Buffers.{Pointer, live}
use azure_dcap_client.Provider.Revocation.{
  revocation_output, pack_revocation_info, place_all, RevocationParams, sgx_ql_get_revocation_info,
  fetch_crls, fetch_tcb_info, finish_revocation_info, are_bad_params,
}
use azure_dcap_client.Provider.Revocation.Block.{
  CrlResponses, RevocationInfo, revocation_size, place_tcb_info, place_crl_array, all_assert,
  tcb_info_asserts,
}
use azure_dcap_client.Provider.Revocation.Packing.{IsTotalled}
use azure_dcap_client.Provider.Revocation.Placing.{
  AreSmall, IsLaidOut, place_crl_array_total, place_crl_array-IsLaidOut,
}
use azure_dcap_client.Provider.Revocation.Asserted.{fills_block, all_assert_lem}

-- A request for nothing.
abbrev pub no_request : ℕ → RevocationParams
no_request version = record {
  version = version;
  fmspc_size = 0;
  fmspc = none;
  crl_url_count = 0;
  crl_urls = none;
}

module _ (c : LocalCache) (h : Host) where
  -- Where the totals are those of the responses, the TCB info and its issuer chain are both empty or
  -- both not, there is a TCB info or a CRL, the sizes and the number of the CRLs fit a `uint32_t`, that
  -- number is the number of URLs, the size of the block is a `size_t`, and a block of exactly that size
  -- is allocated: the last part of the function succeeds, so that all assertions of the Linux build
  -- hold, and the info in that block points to the TCB info behind the structure, to its issuer chain
  -- directly behind it, to the array of the CRLs behind the zero of the chain, and from the array's
  -- entries to the CRLs and their issuer chains, packed behind the array one behind the other with a
  -- zero each, up to the last byte of the block, with their sizes; what is copied to each of
  -- these places is the text that it is for; pointers to what is not there are
  -- null.
  pub pack_revocation_info-IsLaidOut :
      (tcb_info tcb_issuer_chain : Bytes) (r : CrlResponses) (size address : ℕ) (w w' : World c)
      → IsTotalled r
      → is_empty tcb_info ≡ is_empty tcb_issuer_chain
      → (tcb_info ≢ []) ⊎ (r.crls ≢ [])
      → AreSmall r.crls
      → length r.crls < 2 ^ 32
      → revocation_size tcb_info tcb_issuer_chain r ≡ ok size
      → new_block c h size w ≡ (ok address, w')
      → (info : RevocationInfo) × (pack_revocation_info c h
            (length r.crls)
            tcb_info
            tcb_issuer_chain
            r
            w
          ≡ (ok (revocation_output sgx_plat_error_ok (live info)), w'))
        × IsLaidOut info address size tcb_info tcb_issuer_chain r.crls
  unfolding pack_revocation_info place_all
  pack_revocation_info-IsLaidOut tcb_info tcb_issuer_chain r size address w w' t same some_part
        small few sized new =
      let (info, placed) =
        place_crl_array_total (place_tcb_info address tcb_info tcb_issuer_chain) r.crls small few in
      let (full, total) =
        fills_block tcb_info tcb_issuer_chain r size address info t same sized placed in
      let asserted =
        all_assert_lem size address tcb_info tcb_issuer_chain r info same some_part full total in
      (
        info,
        ground (arith, sized, new, placed, asserted),
        place_crl_array-IsLaidOut address size tcb_info tcb_issuer_chain info r.crls placed full,
      )

  -- With parameters that are accepted, but without an FMSPC and without a URL, the function ends in an
  -- assertion that fails, whatever the version from 1 on, if the block of 48 bytes is allocated.
  pub get_revocation_info_nothing :
      (version address : ℕ) (old : Pointer RevocationInfo) (w w' : World c)
      → 1 ≤ version
      → new_block c h 48 w ≡ (ok address, w')
      → sgx_ql_get_revocation_info c h (no_request version) old w ≡ (fault, w')
  unfolding sgx_ql_get_revocation_info are_bad_params fetch_crls fetch_tcb_info pack_revocation_info
      finish_revocation_info revocation_size place_all all_assert tcb_info_asserts place_crl_array
      place_tcb_info
  get_revocation_info_nothing version address old w w' h1 new = ground (arith, new)
