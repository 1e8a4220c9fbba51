-- ===== src/Provider/Revocation/Asserted.antt =====
-- The assertions of `sgx_ql_get_revocation_info` of src/dcap_provider.cpp, which the Linux build has.
use azure_dcap_client.Prelude.{
  ℕ, ◌+◌, ◌*◌, ◌<◌, ◌≤◌, ◌≡◌, ◌≢◌, ◌⊎◌, inl, inr, refl, arith, true, Bytes, List, [], ◌∷◌, length,
  ok, is_empty,
}
use azure_dcap_client.Provider.Revocation.Block.{
  CrlResponses, RevocationInfo, revocation_size, place_tcb_info, place_crl_array, all_assert,
  tcb_info_asserts, crls_assert,
}
use azure_dcap_client.Provider.Revocation.Layout.{revocation_size_sound, place_crl_array_end}
use azure_dcap_client.Provider.Revocation.Packing.{crl_bytes, chain_bytes, IsTotalled}
use azure_dcap_client.Provider.Revocation.Placing.{end_of_tcb, cursor_lem}

crls_assert_lem :
    (size buffer : ℕ) (l : List (Bytes × Bytes))
    → buffer + crl_bytes l + chain_bytes l ≤ size
    → crls_assert size buffer l ≡ true
unfolding crls_assert
crls_assert_lem size buffer [] h = refl
crls_assert_lem size buffer ((crl, chain) ∷ l) h =
    let rest =
      crls_assert_lem size (buffer + (length crl + 1) + (length chain + 1)) l (omega arith) in
    ground arith

tcb_info_asserts_lem :
    (size : ℕ) (tcb_info tcb_issuer_chain : Bytes)
    → is_empty tcb_info ≡ is_empty tcb_issuer_chain
    → 48 < size
    → end_of_tcb tcb_info tcb_issuer_chain ≤ size
    → tcb_info_asserts size tcb_info tcb_issuer_chain ≡ true
unfolding tcb_info_asserts
tcb_info_asserts_lem size [] [] same lo hi = ground arith
tcb_info_asserts_lem size [] (y ∷ ys) same lo hi = cc
tcb_info_asserts_lem size (x ∷ xs) [] same lo hi = cc
tcb_info_asserts_lem size (x ∷ xs) (y ∷ ys) same lo hi = ground arith

-- With both texts or none, the parts fill the block.
pub fills_block :
    (tcb_info tcb_issuer_chain : Bytes) (r : CrlResponses) (size address : ℕ)
    (info : RevocationInfo)
    → IsTotalled r
    → is_empty tcb_info ≡ is_empty tcb_issuer_chain
    → revocation_size tcb_info tcb_issuer_chain r ≡ ok size
    → place_crl_array (place_tcb_info address tcb_info tcb_issuer_chain) r.crls ≡ ok info
    → (info.cursor ≡ size)
      × (size
          ≡ end_of_tcb tcb_info tcb_issuer_chain
            + length r.crls * 32
            + crl_bytes r.crls
            + chain_bytes r.crls)
unfolding place_tcb_info
fills_block [] [] r size address info t same sized placed =
    let a = revocation_size_sound [] [] r size t sized in
    let b = place_crl_array_end (place_tcb_info address [] []) info r.crls placed in
    (omega arith, omega arith)
fills_block [] (y ∷ ys) r size address info t same sized placed = cc
fills_block (x ∷ xs) [] r size address info t same sized placed = cc
fills_block (x ∷ xs) (y ∷ ys) r size address info t same sized placed =
    let a = revocation_size_sound (x ∷ xs) (y ∷ ys) r size t sized in
    let b = place_crl_array_end (place_tcb_info address (x ∷ xs) (y ∷ ys)) info r.crls placed in
    (omega arith, omega arith)

some_part_size :
    (tcb_info tcb_issuer_chain : Bytes) (l : List (Bytes × Bytes))
    → (tcb_info ≢ []) ⊎ (l ≢ [])
    → 48 < end_of_tcb tcb_info tcb_issuer_chain + length l * 32
some_part_size [] chain [] (inl ne) = absurd (ne refl)
some_part_size [] chain [] (inr ne) = absurd (ne refl)
some_part_size [] chain (e ∷ l) ne = omega arith
some_part_size (x ∷ xs) chain l ne = omega arith

pub all_assert_lem :
    (size address : ℕ) (tcb_info tcb_issuer_chain : Bytes) (r : CrlResponses)
    (info : RevocationInfo)
    → is_empty tcb_info ≡ is_empty tcb_issuer_chain
    → (tcb_info ≢ []) ⊎ (r.crls ≢ [])
    → info.cursor ≡ size
    → size
      ≡ end_of_tcb tcb_info tcb_issuer_chain
        + length r.crls * 32
        + crl_bytes r.crls
        + chain_bytes r.crls
    → all_assert size (length r.crls) tcb_info tcb_issuer_chain r.crls info ≡ true
unfolding all_assert
all_assert_lem size address tcb_info tcb_issuer_chain r info same some_part full total =
    let part = some_part_size tcb_info tcb_issuer_chain r.crls some_part in
    let start = cursor_lem 0 tcb_info tcb_issuer_chain in
    let first =
      tcb_info_asserts_lem size tcb_info tcb_issuer_chain same (omega arith) (omega arith) in
    let second =
      crls_assert_lem size (end_of_tcb tcb_info tcb_issuer_chain + length r.crls * 32) r.crls
        (omega arith) in
    rw (start, first, second) (ground arith)
