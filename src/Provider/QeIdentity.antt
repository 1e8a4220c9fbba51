-- ===== src/Provider/QeIdentity.antt =====
-- `sgx_get_qe_identity_info` of src/dcap_provider.cpp.
pub mod Layout
use azure_dcap_client.Prelude.{
  ℕ, ◌+◌, ◌%◌, ◌^◌, Bool, true, false, Bytes, List, [], ◌∷◌, Option, none, some, if◌then◌else◌,
  length, Action, pure, raise, crash, gets, try_catch, ◌>>=◌, ◌>>◌, Outcome, ok, throw, fault,
  Exception, bad_alloc, overflow_error, runtime_error, other_exception, curl_error, CurlCode,
  curle_http_returned_error,
}
use azure_dcap_client.Errors.{
  SgxPlatError, sgx_plat_error_ok, sgx_plat_error_out_of_memory, sgx_plat_error_invalid_parameter,
  sgx_plat_error_unexpected_server_response, sgx_plat_no_data_found, sgx_plat_error_overflow,
  is_plat_ok,
}
use azure_dcap_client.Host.{Host}
use azure_dcap_client.Safe.{safe_add}
use azure_dcap_client.Curl.{create}
use azure_dcap_client.Url.{build_enclave_id_url}
use azure_dcap_client.Cache.{LocalCache}
use azure_dcap_client.Provider.{
  World, new_block, perform_request, get_unescape_header, from_outcome,
}
use azure_dcap_client.Provider.Buffers.{Pointer, null, live}

-- Calls of `safe_add` to one total, one after the other.
unfoldable pub safe_sum : ℕ → List ℕ → Outcome ℕ
unfolding safe_add
safe_sum total [] = ok total
safe_sum total (n ∷ ns) = elim (safe_add total n) [
  | ok next ↦ safe_sum next ns
  | throw e ↦ throw e
  | fault ↦ fault
]

-- `sizeof(sgx_qe_identity_info_t)` with 8-byte pointers.
abbrev pub sizeof_qe_identity_info : ℕ
sizeof_qe_identity_info = 32

-- `sgx_qe_identity_info_t` at the start of its block; the two pointers as offsets in the block.
-- `cursor` is where the code's variable `buffer` ends; `copied_info` is what `memcpy` puts at
-- `qe_id_info`, and `copied_chain` what it puts at `issuer_chain`.
pub record QeIdentityInfo : Type 0 where
  pub address : ℕ
  pub qe_id_info_size : ℕ
  pub qe_id_info : ℕ
  pub issuer_chain_size : ℕ
  pub issuer_chain : ℕ
  pub cursor : ℕ
  pub copied_info : Bytes
  pub copied_chain : Bytes

unfoldable pub place_qe_identity : ℕ → Bytes → Bytes → QeIdentityInfo
place_qe_identity address identity_info issuer_chain =
    let buffer = sizeof_qe_identity_info in
    let behind_info = buffer + (length identity_info + 1) in
    let behind_chain = behind_info + (length issuer_chain + 1) in
    record {
      address = address;
      qe_id_info_size = length identity_info % 2 ^ 32;
      qe_id_info = buffer;
      issuer_chain_size = length issuer_chain % 2 ^ 32;
      issuer_chain = behind_info;
      cursor = behind_chain;
      copied_info = identity_info;
      copied_chain = issuer_chain;
    }

-- The size of the block.
unfoldable pub qe_identity_size : Bytes → Bytes → Outcome ℕ
unfolding safe_sum
qe_identity_size identity_info issuer_chain =
    safe_sum sizeof_qe_identity_info (length identity_info ∷ 1 ∷ length issuer_chain ∷ 1 ∷ [])

-- The value, and what the output parameter points to.
pub record QeOutput : Type 0 where
  pub status : SgxPlatError
  pub info : Option (Pointer QeIdentityInfo)

abbrev pub qe_output : SgxPlatError → Option (Pointer QeIdentityInfo) → QeOutput
qe_output status info = record { status = status; info = info }

-- The handlers, which the function shares with `sgx_ql_get_revocation_info`: the value returned.
unfoldable pub plat_error_of_exception : Exception → SgxPlatError
plat_error_of_exception bad_alloc = sgx_plat_error_out_of_memory
plat_error_of_exception overflow_error = sgx_plat_error_overflow
plat_error_of_exception (curl_error curle_http_returned_error) = sgx_plat_no_data_found
plat_error_of_exception e = sgx_plat_error_unexpected_server_response

-- The handler of `std::overflow_error` clears the output; the others leave it.
abbrev pub output_after : {A : Type 0} → Exception → Option (Pointer A) → Option (Pointer A)
output_after overflow_error pp = some null
output_after e pp = pp

module _ (c : LocalCache) (h : Host) where
  unfoldable pub sgx_get_qe_identity_info :
      Option (Pointer QeIdentityInfo) → Action (World c) QeOutput
  unfolding plat_error_of_exception
  sgx_get_qe_identity_info none = pure (qe_output sgx_plat_error_invalid_parameter none)
  sgx_get_qe_identity_info (some old) =
      let (qe_id_url, issuer_chain_header) = build_enclave_id_url h false in
      try_catch
        (do
          created ← from_outcome (create h qe_id_url none)
          curl ← perform_request c h created
          let (result, issuer_chain) = get_unescape_header h curl issuer_chain_header []
          (if is_plat_ok result
              then (do
                total_buffer_size ← from_outcome (qe_identity_size curl.body issuer_chain)
                address ← new_block c h total_buffer_size
                pure (
                    qe_output sgx_plat_error_ok
                      (some (live (place_qe_identity address curl.body issuer_chain)))))
              else pure (qe_output result (some old))))
        (λ e. pure (qe_output (plat_error_of_exception e) (output_after e (some old))))
