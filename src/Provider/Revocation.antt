-- ===== src/Provider/Revocation.antt =====
-- `sgx_ql_get_revocation_info` of src/dcap_provider.cpp: the requests, and the one block into which
-- all is packed.
pub mod Block
pub mod Packing
pub mod Layout
pub mod Placing
pub mod Asserted
pub mod Filling
use azure_dcap_client.Provider.Revocation.Block.{
  CrlData, CrlResponses, RevocationInfo, add_crl, no_responses, place_crl_array, place_crls,
  place_tcb_info, revocation_size, sizeof_crl_data, sizeof_revocation_info, store_crl, all_assert,
}
use azure_dcap_client.Prelude.{
  ℕ, ◌+◌, ◌-◌, ◌%◌, ◌^◌, Bool, true, false, not, ◌||◌, Bytes, List, [], ◌∷◌, ◌++◌, Option, none,
  some, if◌then◌else◌, ltb, ◌==◌, length, take, is_empty, Action, pure, raise, crash, gets,
  try_catch, ◌⊎◌, inl, inr, ◌>>=◌, ◌>>◌, Outcome, ok, throw, fault, Exception, bad_alloc,
  overflow_error,
}
use azure_dcap_client.Errors.{
  SgxPlatError, sgx_plat_error_ok, sgx_plat_error_invalid_parameter, is_plat_ok,
}
use azure_dcap_client.Host.{Host}
use azure_dcap_client.Safe.{safe_multiply, safe_cast, u32_limit}
use azure_dcap_client.Curl.{CurlEasy, create, set_headers}
use azure_dcap_client.Url.{build_indexed_crl_url, build_tcb_info_url}
use azure_dcap_client.Cache.{LocalCache}
use azure_dcap_client.Provider.{
  World, new_block, perform_request, get_unescape_header, from_outcome, default_values,
  crl_issuer_chain, tcb_info_issuer_chain,
}
use azure_dcap_client.Provider.Buffers.{Pointer, null, live}
use azure_dcap_client.Provider.QeIdentity.{safe_sum, plat_error_of_exception, output_after}

-- `sgx_ql_get_revocation_info_params_t`; `none` is a null pointer.
pub record RevocationParams : Type 0 where
  pub version : ℕ
  pub fmspc_size : ℕ
  pub fmspc : Option Bytes
  pub crl_url_count : ℕ
  pub crl_urls : Option (List Bytes)

-- The value, and what the output parameter points to.
pub record RevocationOutput : Type 0 where
  pub status : SgxPlatError
  pub info : Pointer RevocationInfo

abbrev pub revocation_output : SgxPlatError → Pointer RevocationInfo → RevocationOutput
revocation_output status info = record { status = status; info = info }

abbrev pub is_null_pointer : {A : Type 0} → Option A → Bool
is_null_pointer none = true
is_null_pointer (some _) = false

-- `!=` of `bool`
abbrev pub differ : Bool → Bool → Bool
differ true b = not b
differ false b = b

-- The three tests of the parameters.
unfoldable pub are_bad_params : RevocationParams → Bool
are_bad_params params =
    ltb params.version 1
    || differ (params.crl_url_count == 0) (is_null_pointer params.crl_urls)
    || differ (is_null_pointer params.fmspc) (params.fmspc_size == 0)

abbrev pub texts_of : {A : Type 0} → Option (List A) → List A
texts_of none = []
texts_of (some s) = s

module _ (c : LocalCache) (h : Host) where
  -- One round of the loop over the CRL URLs: the responses, or the error that is returned.
  unfoldable pub fetch_crl : Bytes → CrlResponses → Action (World c) (SgxPlatError ⊎ CrlResponses)
  fetch_crl crl_url r = do
    url ← from_outcome (build_indexed_crl_url h crl_url)
    (if is_plat_ok url.0
        then (do
          created ← from_outcome (create h url.1 none)
          prepared ← from_outcome (set_headers h default_values created)
          curl ← perform_request c h prepared
          from_outcome (store_crl h curl r))
        else pure (inl url.0))

  -- The loop, which ends at the first error.
  unfoldable pub fetch_crls :
      List Bytes → CrlResponses → Action (World c) (SgxPlatError ⊎ CrlResponses)
  fetch_crls [] r = pure (inr r)
  fetch_crls (crl_url ∷ rest) r = do
    fetched ← fetch_crl crl_url r
    elim fetched [ inl e ↦ pure (inl e) | inr r' ↦ fetch_crls rest r' ]

  -- The request for the TCB info: the error, the info and its issuer chain.
  unfoldable pub fetch_tcb_info : RevocationParams → Action (World c) (SgxPlatError × Bytes × Bytes)
  fetch_tcb_info params =
      if ltb 0 params.fmspc_size
      then (do
        let fmspc = take params.fmspc_size (texts_of params.fmspc)
        created ← from_outcome (create h (build_tcb_info_url h fmspc) none)
        curl ← perform_request c h created
        let found = get_unescape_header h curl tcb_info_issuer_chain []
        pure (found.0, curl.body, found.1))
      else pure (sgx_plat_error_ok, [], [])

  -- An overflow behind the allocation is handled by `delete[]` of a pointer that no longer is the
  -- start of the block. An assertion that fails ends the process.
  abbrev pub finish_info : Outcome RevocationInfo → Action (World c) RevocationOutput
  finish_info (ok info) = pure (revocation_output sgx_plat_error_ok (live info))
  finish_info (throw e) = crash
  finish_info fault = crash

  -- An assertion that fails ends the process.
  abbrev pub if_asserted : Bool → Outcome RevocationInfo → Outcome RevocationInfo
  if_asserted true placed = placed
  if_asserted false placed = fault

  -- What is placed, if the assertions on it hold.
  unfoldable pub place_all : ℕ → ℕ → ℕ → Bytes → Bytes → CrlResponses → Outcome RevocationInfo
  unfolding place_tcb_info place_crl_array all_assert
  place_all address size crl_url_count tcb_info tcb_issuer_chain r =
      elim (place_crl_array (place_tcb_info address tcb_info tcb_issuer_chain) r.crls) [
        | throw e ↦ throw e
        | fault ↦ fault
        | ok info ↦
            if_asserted (all_assert size crl_url_count tcb_info tcb_issuer_chain r.crls info)
              (ok info)
      ]

  -- The last part.
  unfoldable pub pack_revocation_info :
      ℕ → Bytes → Bytes → CrlResponses → Action (World c) RevocationOutput
  unfolding revocation_size place_all
  pack_revocation_info crl_url_count tcb_info tcb_issuer_chain r = do
    buffer_size ← from_outcome (revocation_size tcb_info tcb_issuer_chain r)
    address ← new_block c h buffer_size
    finish_info (place_all address buffer_size crl_url_count tcb_info tcb_issuer_chain r)

  -- The part behind the loop.
  unfoldable pub finish_revocation_info :
      RevocationParams → Pointer RevocationInfo → CrlResponses → Action (World c) RevocationOutput
  unfolding fetch_tcb_info pack_revocation_info
  finish_revocation_info params old r = do
    tcb ← fetch_tcb_info params
    (if is_plat_ok tcb.0
        then pack_revocation_info params.crl_url_count tcb.1 tcb.2 r
        else pure (revocation_output tcb.0 old))

  unfoldable pub sgx_ql_get_revocation_info :
      RevocationParams → Pointer RevocationInfo → Action (World c) RevocationOutput
  unfolding plat_error_of_exception finish_revocation_info
  sgx_ql_get_revocation_info params old =
      if are_bad_params params
      then pure (revocation_output sgx_plat_error_invalid_parameter old)
      else try_catch
          (do
            crls ← fetch_crls (take params.crl_url_count (texts_of params.crl_urls)) no_responses
            elim crls [
              | inl e ↦ pure (revocation_output e old)
              | inr r ↦ finish_revocation_info params old r
            ])
          (λ e. pure (
            revocation_output (plat_error_of_exception e)
              (elim e [ overflow_error ↦ null | _ ↦ old ])))
