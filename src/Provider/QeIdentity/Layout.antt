-- ===== src/Provider/QeIdentity/Layout.antt =====
-- Where the two texts stand in the block of `sgx_get_qe_identity_info` of src/dcap_provider.cpp.
use azure_dcap_client.Prelude.{ℕ, ◌+◌, ◌%◌, ◌^◌, ◌<◌, ◌≡◌, arith, Bytes, length, ok}
use azure_dcap_client.Safe.{safe_add}
use azure_dcap_client.Provider.QeIdentity.{
  safe_sum, sizeof_qe_identity_info, place_qe_identity, qe_identity_size,
}

-- If the size of the block is a `size_t`, then the identity and its terminating zero stand behind
-- the structure, the issuer chain and its terminating zero directly behind these, and the block ends
-- there. What is copied to the first place is the identity and to the second the chain, and the sizes
-- that the structure reports are theirs, modulo 2^32.
pub qe_identity_fills_block :
    (address size : ℕ) (identity_info issuer_chain : Bytes)
    → qe_identity_size identity_info issuer_chain ≡ ok size
    → let q = place_qe_identity address identity_info issuer_chain in
      (q.qe_id_info ≡ sizeof_qe_identity_info)
      × (q.issuer_chain ≡ q.qe_id_info + (length identity_info + 1))
      × (q.cursor ≡ q.issuer_chain + (length issuer_chain + 1))
      × (q.cursor ≡ size)
      × (size < 2 ^ 64)
      × (q.copied_info ≡ identity_info)
      × (q.copied_chain ≡ issuer_chain)
      × (q.qe_id_info_size ≡ length identity_info % 2 ^ 32)
      × (q.issuer_chain_size ≡ length issuer_chain % 2 ^ 32)
unfolding place_qe_identity qe_identity_size safe_sum safe_add
qe_identity_fills_block address size identity_info issuer_chain h = ground arith
