-- ===== src/Provider/Free.antt =====
-- The functions of src/dcap_provider.cpp that free what the others have returned, over the blocks that
-- are allocated.
pub mod Ownership
pub mod Balance
use azure_dcap_client.Prelude.{
  ℕ, Bool, true, false, List, [], ◌∷◌, Option, none, some, ◌==◌, if◌then◌else◌, Action, ok, fault,
  ⊤, pure, crash, ◌>>=◌, ◌>>◌,
}
use azure_dcap_client.Errors.{Quote3Error, sgx_ql_success}
use azure_dcap_client.Provider.Buffers.{Buffer}
use azure_dcap_client.Provider.Verification.{QveCollateral}

-- Whether the block at an address is allocated.
abbrev pub Heap : Type 0
Heap = ℕ → Bool

abbrev pub without : ℕ → Heap → Heap
without a heap b = if a == b then false else heap b

-- `delete[]` of a null pointer does nothing; a block that is not allocated must not be deleted.
unfoldable pub delete_array : Option ℕ → Action Heap ⊤
delete_array none heap = (ok tt, heap)
delete_array (some a) heap = if heap a then (ok tt, without a heap) else (fault, heap)

unfoldable pub sgx_ql_free_quote_config : Option ℕ → Action Heap Quote3Error
unfolding delete_array
sgx_ql_free_quote_config p_quote_config = do delete_array p_quote_config; pure sgx_ql_success

unfoldable pub sgx_free_qe_identity_info : Option ℕ → Action Heap ⊤
unfolding delete_array
sgx_free_qe_identity_info p_qe_identity_info = delete_array p_qe_identity_info

unfoldable pub sgx_ql_free_revocation_info : Option ℕ → Action Heap ⊤
unfolding delete_array
sgx_ql_free_revocation_info p_revocation_info = delete_array p_revocation_info

abbrev pub buffer_address : Option Buffer → Option ℕ
buffer_address none = none
buffer_address (some buffer) = some buffer.address

-- A null pointer is read through.
unfoldable pub sgx_ql_free_quote_verification_collateral :
    Option QveCollateral → Action Heap Quote3Error
unfolding delete_array
sgx_ql_free_quote_verification_collateral none = crash
sgx_ql_free_quote_verification_collateral (some p_quote_collateral) = do
  delete_array (buffer_address p_quote_collateral.pck_crl)
  delete_array (buffer_address p_quote_collateral.root_ca_crl)
  delete_array (buffer_address p_quote_collateral.tcb_info)
  delete_array (buffer_address p_quote_collateral.tcb_info_issuer_chain)
  delete_array (buffer_address p_quote_collateral.qe_identity)
  delete_array (buffer_address p_quote_collateral.qe_identity_issuer_chain)
  delete_array (buffer_address p_quote_collateral.pck_crl_issuer_chain)
  delete_array (some p_quote_collateral.address)
  pure sgx_ql_success

unfoldable pub sgx_ql_free_qve_identity : Option ℕ → Option ℕ → Action Heap Quote3Error
unfolding delete_array
sgx_ql_free_qve_identity p_qve_identity p_qve_identity_issuer_chain = do
  delete_array p_qve_identity
  delete_array p_qve_identity_issuer_chain
  pure sgx_ql_success

unfoldable pub sgx_ql_free_root_ca_crl : Option ℕ → Action Heap Quote3Error
unfolding delete_array
sgx_ql_free_root_ca_crl p_root_ca_crl = do delete_array p_root_ca_crl; pure sgx_ql_success
