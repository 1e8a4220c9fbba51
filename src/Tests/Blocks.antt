-- ===== src/Tests/Blocks.antt =====
-- Runs on the memory blocks that the provider fills.
use azure_dcap_client.Prelude.{
  ℕ, ◌+◌, ◌*◌, lookup, insert, bytes_eq, ◌^◌, ◌<◌, ◌≡◌, refl, arith, [], ◌∷◌, some, ok, fault,
  Bytes, length, ◌⊎◌, inl, inr, codes, Outcome,
}
use azure_dcap_client.Errors.{SgxPlatError, sgx_plat_error_ok, sgx_ql_success}
use azure_dcap_client.Curl.{create, set_headers}
use azure_dcap_client.Url.{build_indexed_crl_url}
use azure_dcap_client.Provider.{World, perform_request, get_unescape_header}
use azure_dcap_client.Provider.Buffers.{live, null}
use azure_dcap_client.Provider.Collateral.{Collateral}
use azure_dcap_client.Provider.QeIdentity.{
  place_qe_identity, qe_identity_size, safe_sum, sizeof_qe_identity_info,
}
use azure_dcap_client.Provider.QeIdentity.Layout.{qe_identity_fills_block}
use azure_dcap_client.Provider.Revocation.{fetch_crl, fetch_crls}
use azure_dcap_client.Provider.Revocation.Block.{
  CrlResponses, RevocationInfo, no_responses, add_crl, revocation_size, place_crl_array,
  place_tcb_info, store_crl,
}
use azure_dcap_client.Provider.Revocation.Packing.{IsTotalled, fetch_crls-IsTotalled}
use azure_dcap_client.Provider.Revocation.{
  sgx_ql_get_revocation_info, revocation_output, pack_revocation_info,
}
use azure_dcap_client.Provider.{new_block}
use azure_dcap_client.Provider.Revocation.Layout.{revocation_info_overruns}
use azure_dcap_client.Provider.Revocation.Placing.{IsLaidOut}
use azure_dcap_client.Provider.Revocation.Filling.{
  no_request, get_revocation_info_nothing, pack_revocation_info-IsLaidOut,
}
use azure_dcap_client.Provider.Verification.{Responses, allocate_and_fill, zeroed_collateral}
use azure_dcap_client.Provider.Verification.Filling.{filled, allocate_and_fill_lem}
use azure_dcap_client.Tests.Setup.{memory_cache, server}

qe_identity_fills_block_example :
    let q = place_qe_identity 4096 (codes "id") (codes "chain") in
    (q.qe_id_info ≡ sizeof_qe_identity_info)
    × (q.issuer_chain ≡ q.qe_id_info + 3)
    × (q.cursor ≡ q.issuer_chain + 6)
    × (q.cursor ≡ 41)
    × (41 < 2 ^ 64)
    × (q.copied_info ≡ codes "id")
    × (q.copied_chain ≡ codes "chain")
    × (q.qe_id_info_size ≡ 2)
    × (q.issuer_chain_size ≡ 5)
unfolding qe_identity_size
qe_identity_fills_block_example = qe_identity_fills_block 4096 41 (codes "id") (codes "chain") refl

-- One CRL of three bytes, with a chain of five.
abbrev one_crl : CrlResponses
one_crl = record {
  crls = (codes "crl", codes "chain") ∷ [];
  total_crl_size = 4;
  total_crl_issuer_chain_size = 6;
}

one_crl-IsTotalled : IsTotalled one_crl
one_crl-IsTotalled = record { crl_total = refl; chain_total = refl }

no_responses-IsTotalled : IsTotalled no_responses
no_responses-IsTotalled = record { crl_total = refl; chain_total = refl }

abbrev empty_info : RevocationInfo
empty_info = place_tcb_info 4096 [] []

abbrev info_of : Outcome RevocationInfo → RevocationInfo
info_of (ok info) = info
info_of r = empty_info

abbrev placed : RevocationInfo
placed = info_of (place_crl_array (place_tcb_info 4096 (codes "tcb") (codes "ab")) one_crl.crls)

abbrev overrun : RevocationInfo
overrun = info_of (place_crl_array (place_tcb_info 4096 (codes "tcb") []) one_crl.crls)

revocation_info_overruns_example : overrun.cursor ≡ 94
unfolding revocation_size place_crl_array place_tcb_info
revocation_info_overruns_example =
    revocation_info_overruns (codes "tcb") one_crl 93 4096 overrun one_crl-IsTotalled (cc) refl refl

abbrev start : World memory_cache
start = record { store = []; time = 1000; sent = []; allocations = 0 }

abbrev responses_of : Outcome (SgxPlatError ⊎ CrlResponses) → CrlResponses
responses_of (ok (inr r)) = r
responses_of r = no_responses

abbrev fetched : Outcome (SgxPlatError ⊎ CrlResponses) × World memory_cache
fetched = fetch_crls memory_cache server (codes "http://crl" ∷ []) no_responses start

fetch_crls-IsTotalled_example :
    IsTotalled (responses_of fetched.0) × (length (responses_of fetched.0).crls ≡ 1)
unfolding fetch_crls fetch_crl build_indexed_crl_url create set_headers perform_request store_crl
    get_unescape_header safe_sum insert lookup bytes_eq add_crl
fetch_crls-IsTotalled_example =
    fetch_crls-IsTotalled memory_cache server (codes "http://crl" ∷ []) no_responses
      (responses_of fetched.0) start fetched.1 no_responses-IsTotalled refl

abbrev small : Bytes → Collateral
small body = record { status = sgx_ql_success; response_body = body; issuer_chain = codes "chain" }

abbrev four : Responses
four = record {
  pck_crl = small (codes "crl");
  root_ca_crl = small (codes "root");
  tcb_info = small (codes "tcb");
  qe_identity = small (codes "qe");
}

abbrev addresses : ℕ → ℕ
addresses n = 4096 * (n + 1)

allocate_and_fill_lem_example :
    (allocate_and_fill memory_cache server four start).0
    ≡ ok (record {
      status = sgx_ql_success;
      collateral =
          some (live (filled memory_cache server addresses (zeroed_collateral 4096) four 1));
    })
allocate_and_fill_lem_example =
    allocate_and_fill_lem memory_cache server addresses (λ n size. refl) four start
      (record { small_body = omega arith; small_chain = omega arith })
      (record { small_body = omega arith; small_chain = omega arith })
      (record { small_body = omega arith; small_chain = omega arith })
      (record { small_body = omega arith; small_chain = omega arith })

pack_revocation_info-IsLaidOut_example :
    (info : RevocationInfo) × (pack_revocation_info memory_cache server 1
        (codes "tcb")
        (codes "ab")
        one_crl
        start
      ≡ (
        ok (revocation_output sgx_plat_error_ok (live info)),
        (new_block memory_cache server 96 start).1,
      ))
    × IsLaidOut info 4096 96 (codes "tcb") (codes "ab") one_crl.crls
unfolding revocation_size new_block
pack_revocation_info-IsLaidOut_example =
    pack_revocation_info-IsLaidOut memory_cache server (codes "tcb") (codes "ab") one_crl 96 4096
      start (new_block memory_cache server 96 start).1 one_crl-IsTotalled refl (inl (cc))
      (omega arith, tt) (omega arith) refl refl

get_revocation_info_nothing_example :
    sgx_ql_get_revocation_info memory_cache server (no_request 1) null start
    ≡ (fault, (new_block memory_cache server 48 start).1)
unfolding new_block
get_revocation_info_nothing_example =
    get_revocation_info_nothing memory_cache server 1 4096 null start
      (new_block memory_cache server 48 start).1 (omega arith) refl
