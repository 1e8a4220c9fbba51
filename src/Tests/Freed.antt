-- ===== src/Tests/Freed.antt =====
-- A collateral that is freed.
use azure_dcap_client.Prelude.{
  arith, ◌+◌, ◌*◌, Bytes, codes, ℕ, ◌≡◌, refl, false, [], some, ok, ltb, if◌then◌else◌,
}
use azure_dcap_client.Provider.{World}
use azure_dcap_client.Provider.Buffers.{live}
use azure_dcap_client.Provider.Collateral.{Collateral}
use azure_dcap_client.Provider.Free.Balance.{with_blocks, allocate_and_fill-free}
use azure_dcap_client.Provider.Verification.Filling.{filled}
use azure_dcap_client.Tests.Setup.{memory_cache, server}
use azure_dcap_client.Errors.{sgx_ql_success}
use azure_dcap_client.Provider.Free.{Heap, sgx_ql_free_quote_verification_collateral}
use azure_dcap_client.Provider.Free.Ownership.{is_among, blocks_of, free_collateral_lem}
use azure_dcap_client.Provider.Verification.{
  QveCollateral, zeroed_collateral, Responses, allocate_and_fill,
}

-- Blocks 0 to 9.
abbrev ten_blocks : Heap
ten_blocks a = ltb a 10

abbrev two_buffers : QveCollateral
two_buffers = record (zeroed_collateral 7) {
  pck_crl = some (record { address = 2; bytes = []; buffer_length = 1 });
  tcb_info = some (record { address = 3; bytes = []; buffer_length = 1 });
}

free_collateral_lem_example :
    let (r, heap) = sgx_ql_free_quote_verification_collateral (some two_buffers) ten_blocks in
    (r ≡ ok sgx_ql_success)
    × ((b : ℕ) → heap b ≡ (if is_among b (blocks_of two_buffers) then false else ten_blocks b))
free_collateral_lem_example =
    free_collateral_lem two_buffers ten_blocks (refl, refl, (refl, refl, (refl, refl, tt)))

abbrev start : World memory_cache
start = record { store = []; time = 1000; sent = []; allocations = 0 }

abbrev small : Bytes → Collateral
small body = record { status = sgx_ql_success; response_body = body; issuer_chain = codes "chain" }

abbrev four : Responses
four = record {
  pck_crl = small (codes "crl");
  root_ca_crl = small (codes "root");
  tcb_info = small (codes "tcb");
  qe_identity = small (codes "qe");
}

abbrev addresses : ℕ → ℕ
addresses n = 4096 * (n + 1)

abbrev handed_out : QveCollateral
handed_out = filled memory_cache server addresses (zeroed_collateral 4096) four 1

-- The blocks below the first address are in use.
abbrev low_heap : Heap
low_heap b = ltb b 4096

allocate_and_fill-free_example :
    let (result, heap) =
      sgx_ql_free_quote_verification_collateral
        (some handed_out)
        (with_blocks (blocks_of handed_out) low_heap) in
    ((allocate_and_fill memory_cache server four start).0
      ≡ ok (record { status = sgx_ql_success; collateral = some (live handed_out) }))
    × (result ≡ ok sgx_ql_success)
    × ((b : ℕ) → heap b ≡ low_heap b)
allocate_and_fill-free_example =
    allocate_and_fill-free addresses (λ i j e. omega (arith, e)) memory_cache server
      (λ n size. refl) four start low_heap
      (record { small_body = omega arith; small_chain = omega arith })
      (record { small_body = omega arith; small_chain = omega arith })
      (record { small_body = omega arith; small_chain = omega arith })
      (record { small_body = omega arith; small_chain = omega arith }) (λ k _. ground arith)
