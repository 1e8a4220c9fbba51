-- ===== src/Provider/Verification/Filling.antt =====
-- What `sgx_ql_get_quote_verification_collateral` of src/dcap_provider.cpp leaves in its structure.
use azure_dcap_client.Prelude.{ℕ, ◌+◌, ◌^◌, ◌<◌, ◌≡◌, arith, some, Bytes, length, ok}
use azure_dcap_client.Errors.{sgx_ql_success}
use azure_dcap_client.Host.{Host}
use azure_dcap_client.Cache.{LocalCache}
use azure_dcap_client.Provider.{World, new_block}
use azure_dcap_client.Provider.Buffers.{live, fill_string_buffer, fill_vector_buffer}
use azure_dcap_client.Provider.Buffers.Filled.{
  terminated, fill_string_buffer_lem, fill_vector_buffer_lem,
}
use azure_dcap_client.Provider.Collateral.{Collateral}
use azure_dcap_client.Provider.Verification.{
  QveCollateral, zeroed_collateral, Responses, fill_collateral, allocate_and_fill,
}

-- The two texts of a response fit a 32-bit length with a terminating zero.
pub record IsSmall (r : Collateral) : Type 0 where
  pub small_body : length r.response_body + 1 < 2 ^ 32
  pub small_chain : length r.issuer_chain + 1 < 2 ^ 32

module _ (c : LocalCache) (h : Host) (addresses : ℕ → ℕ) where
  -- The state behind an allocation.
  abbrev pub next : World c → World c
  next w = record w { allocations = w.allocations + 1 }

  -- The structure with its seven buffers, which are allocated one after the other.
  abbrev pub filled : QveCollateral → Responses → ℕ → QveCollateral
  filled q r n = record q {
    pck_crl_issuer_chain = some (terminated (addresses n) r.pck_crl.issuer_chain);
    root_ca_crl = some (terminated (addresses (n + 1)) r.root_ca_crl.response_body);
    pck_crl = some (terminated (addresses (n + 1 + 1)) r.pck_crl.response_body);
    tcb_info_issuer_chain = some (terminated (addresses (n + 1 + 1 + 1)) r.tcb_info.issuer_chain);
    tcb_info = some (terminated (addresses (n + 1 + 1 + 1 + 1)) r.tcb_info.response_body);
    qe_identity_issuer_chain =
        some (terminated (addresses (n + 1 + 1 + 1 + 1 + 1)) r.qe_identity.issuer_chain);
    qe_identity =
        some (terminated (addresses (n + 1 + 1 + 1 + 1 + 1 + 1)) r.qe_identity.response_body);
  }

  module _ (never_out : (n size : ℕ) → h.new_block n size ≡ some (addresses n)) where
    new_block_lem :
        (size : ℕ) (w : World c) → new_block c h size w ≡ (ok (addresses w.allocations), next w)
    unfolding new_block
    new_block_lem size w = let e = never_out w.allocations size in ground arith

    string_lem :
        (content : Bytes) (w : World c)
        → length content + 1 < 2 ^ 32
        → fill_string_buffer c h content w
          ≡ (ok (sgx_ql_success, terminated (addresses w.allocations) content), next w)
    string_lem content w small =
        fill_string_buffer_lem c h content w (next w) (addresses w.allocations) small
          (new_block_lem (length content + 1) w)

    vector_lem :
        (content : Bytes) (w : World c)
        → length content + 1 < 2 ^ 32
        → fill_vector_buffer c h content w
          ≡ (ok (sgx_ql_success, terminated (addresses w.allocations) content), next w)
    vector_lem content w small =
        fill_vector_buffer_lem c h content w (next w) (addresses w.allocations) small
          (new_block_lem (length content + 1) w)

    fill_collateral_lem :
        (q : QveCollateral) (r : Responses) (w : World c)
        → IsSmall r.pck_crl
        → IsSmall r.root_ca_crl
        → IsSmall r.tcb_info
        → IsSmall r.qe_identity
        → (fill_collateral c h q r w).0 ≡ ok (sgx_ql_success, filled q r w.allocations)
    unfolding fill_collateral
    fill_collateral_lem q r w s1 s2 s3 s4 =
        let w1 = next w in
        let w2 = next w1 in
        let w3 = next w2 in
        let w4 = next w3 in
        let w5 = next w4 in
        let w6 = next w5 in
        ground (
          arith,
          string_lem r.pck_crl.issuer_chain w,
          vector_lem r.root_ca_crl.response_body w1,
          vector_lem r.pck_crl.response_body w2,
          string_lem r.tcb_info.issuer_chain w3,
          vector_lem r.tcb_info.response_body w4,
          string_lem r.qe_identity.issuer_chain w5,
          vector_lem r.qe_identity.response_body w6,
        )

    -- Where no allocation fails and each text is shorter than 4 GiB, the four responses become a
    -- structure in which each text that the caller is given stands in a block of its own, whole and
    -- with a terminating zero, under the field of its own kind; the call succeeds.
    pub allocate_and_fill_lem :
        (r : Responses) (w : World c)
        → IsSmall r.pck_crl
        → IsSmall r.root_ca_crl
        → IsSmall r.tcb_info
        → IsSmall r.qe_identity
        → (allocate_and_fill c h r w).0
          ≡ ok (record {
            status = sgx_ql_success;
            collateral =
                some (
                  live
                    (filled (zeroed_collateral (addresses w.allocations)) r (w.allocations + 1)));
          })
    unfolding allocate_and_fill
    allocate_and_fill_lem r w s1 s2 s3 s4 = ground (
      arith,
      new_block_lem h.sizeof_qve_collateral w,
      fill_collateral_lem (zeroed_collateral (addresses w.allocations)) r (next w) s1 s2 s3 s4,
    )
