-- ===== src/Provider/Verification.antt =====
-- `sgx_ql_get_quote_verification_collateral` of src/dcap_provider.cpp.
pub mod Parameters
pub mod Filling
pub mod Faults
use azure_dcap_client.Prelude.{
  ℕ, Bool, true, false, not, ◌||◌, [], Option, none, some, Bytes, codes, bytes_eq, if◌then◌else◌,
  is_empty, take, ◌==◌, Action, pure, raise, crash, try_catch, ◌>>=◌, ◌>>◌, ⊤, Exception, bad_alloc,
  overflow_error, runtime_error, other_exception, curl_error,
}
use azure_dcap_client.Errors.{
  Quote3Error, sgx_ql_success, sgx_ql_error_invalid_parameter, sgx_ql_error_out_of_memory,
  sgx_ql_error_unexpected, is_success,
}
use azure_dcap_client.Host.{Host}
use azure_dcap_client.Curl.{create}
use azure_dcap_client.Url.{
  build_pck_crl_url, build_tcb_info_url, build_enclave_id_url, root_crl_name, processor_crl_name,
  api_version,
}
use azure_dcap_client.Cache.{LocalCache}
use azure_dcap_client.Provider
use azure_dcap_client.Provider.{
  World, new_block, from_outcome, crl_issuer_chain, tcb_info_issuer_chain,
}
use azure_dcap_client.Provider.Buffers.{
  Buffer, Pointer, null, live, deleted, is_null, fill_string_buffer, fill_vector_buffer,
}
use azure_dcap_client.Provider.Collateral.{
  CollateralTypes, tcb_info, qe_identity, pck_crl, pck_root_crl, Collateral, get_collateral,
}
use azure_dcap_client.Provider.QveIdentity.{is_bad_output}

-- `sgx_ql_qve_collateral_t`, zeroed at first.
pub record QveCollateral : Type 0 where
  pub address : ℕ
  pub version : ℕ
  pub pck_crl_issuer_chain : Option Buffer
  pub root_ca_crl : Option Buffer
  pub pck_crl : Option Buffer
  pub tcb_info_issuer_chain : Option Buffer
  pub tcb_info : Option Buffer
  pub qe_identity_issuer_chain : Option Buffer
  pub qe_identity : Option Buffer

-- The structure behind `memset`, with its version.
abbrev pub zeroed_collateral : ℕ → QveCollateral
zeroed_collateral address = record {
  address = address;
  version = 1;
  pck_crl_issuer_chain = none;
  root_ca_crl = none;
  pck_crl = none;
  tcb_info_issuer_chain = none;
  tcb_info = none;
  qe_identity_issuer_chain = none;
  qe_identity = none;
}

-- The four responses.
pub record Responses : Type 0 where
  pub pck_crl : Collateral
  pub root_ca_crl : Collateral
  pub tcb_info : Collateral
  pub qe_identity : Collateral

pub record VerificationOutput : Type 0 where
  pub status : Quote3Error
  pub collateral : Option (Pointer QveCollateral)

abbrev pub stopped : Quote3Error → VerificationOutput
stopped status = record { status = status; collateral = some null }

-- The CRL that is asked for: the code compares with both names and refuses the second.
unfoldable pub requested_ca_of : Bytes → Option Bytes
unfolding bytes_eq
requested_ca_of pck_ca =
    let requested_ca = if bytes_eq (codes "processor") pck_ca then processor_crl_name else [] in
    if bytes_eq (codes "platform") pck_ca
    then none
    else if is_empty requested_ca
    then none
    else some requested_ca

-- The tests of the parameters: the FMSPC and the CRL, if none fails.
unfoldable pub check_parameters :
    Option Bytes → ℕ → Option Bytes → Option (Pointer QveCollateral) → Option (Bytes × Bytes)
unfolding requested_ca_of
check_parameters none fmspc_size pck_ca pp = none
check_parameters (some fmspc) fmspc_size none pp = none
check_parameters (some fmspc) fmspc_size (some pck_ca) pp =
    if fmspc_size == 0 || is_bad_output pp then none else elim (requested_ca_of pck_ca) [
      | none ↦ none
      | some requested_ca ↦ some (take fmspc_size fmspc, requested_ca)
    ]

module _ (c : LocalCache) (h : Host) where
  -- A call of `get_collateral` with the test of its value.
  unfoldable pub get_or_stop :
      CollateralTypes
      → Bytes
      → Bytes
      → (Collateral → Action (World c) VerificationOutput)
      → Action (World c) VerificationOutput
  get_or_stop kind url header next = do
    collateral ← get_collateral c h kind url header none
    (if is_success collateral.status then next collateral else pure (stopped collateral.status))

  -- A buffer of the structure, filled only if the fills before it have succeeded.
  unfoldable pub fill_field :
      Quote3Error × QveCollateral
      → Action (World c) (Quote3Error × Buffer)
      → (Option Buffer → QveCollateral → QveCollateral)
      → Action (World c) (Quote3Error × QveCollateral)
  fill_field (status, q) fill put =
      if is_success status then (do r ← fill; pure (r.0, put (some r.1) q)) else pure (status, q)

  unfoldable pub fill_collateral :
      QveCollateral → Responses → Action (World c) (Quote3Error × QveCollateral)
  unfolding fill_field
  fill_collateral q r = do
    let string = fill_string_buffer c h
    let vector = fill_vector_buffer c h
    a ←
        fill_field (sgx_ql_success, q) (string r.pck_crl.issuer_chain)
          (λ b q. record q { pck_crl_issuer_chain = b })
    a ← fill_field a (vector r.root_ca_crl.response_body) (λ b q. record q { root_ca_crl = b })
    a ← fill_field a (vector r.pck_crl.response_body) (λ b q. record q { pck_crl = b })
    a ←
        fill_field a (string r.tcb_info.issuer_chain)
          (λ b q. record q { tcb_info_issuer_chain = b })
    a ← fill_field a (vector r.tcb_info.response_body) (λ b q. record q { tcb_info = b })
    a ←
        fill_field a (string r.qe_identity.issuer_chain)
          (λ b q. record q { qe_identity_issuer_chain = b })
    fill_field a (vector r.qe_identity.response_body) (λ b q. record q { qe_identity = b })

  -- The handlers once the structure is allocated: it is deleted with its buffers, and the output
  -- parameter still points to it. The fills throw nothing else.
  unfoldable pub handle_fill_error : Exception → Action (World c) VerificationOutput
  handle_fill_error bad_alloc =
      pure (record { status = sgx_ql_error_out_of_memory; collateral = some deleted })
  handle_fill_error overflow_error =
      pure (record { status = sgx_ql_error_unexpected; collateral = some deleted })
  handle_fill_error e = raise e

  unfoldable pub allocate_and_fill : Responses → Action (World c) VerificationOutput
  unfolding handle_fill_error
  allocate_and_fill r = do
    address ← new_block c h h.sizeof_qve_collateral
    try_catch
        (do
          filled ← fill_collateral (zeroed_collateral address) r
          pure (record { status = filled.0; collateral = some (live filled.1) }))
        handle_fill_error

  -- The four requests, in order. The two handles that are created beside them are not used.
  unfoldable pub request_collateral : Bytes → Bytes → Action (World c) VerificationOutput
  unfolding get_or_stop
  request_collateral fmspc requested_ca = do
    pck_crl_url ← from_outcome (build_pck_crl_url h requested_ca api_version)
    get_or_stop CollateralTypes.pck_crl pck_crl_url crl_issuer_chain λ crl. do
      root_ca_crl_url ← from_outcome (build_pck_crl_url h root_crl_name api_version)
      get_or_stop CollateralTypes.pck_root_crl root_ca_crl_url crl_issuer_chain λ root. do
        let tcb_info_url = build_tcb_info_url h fmspc
        from_outcome (create h tcb_info_url none)
        get_or_stop CollateralTypes.tcb_info tcb_info_url Provider.tcb_info_issuer_chain λ tcb. do
          let (qe_identity_url, header_name) = build_enclave_id_url h false
          from_outcome (create h qe_identity_url none)
          get_or_stop CollateralTypes.qe_identity qe_identity_url header_name λ qe.
              allocate_and_fill
                (record { pck_crl = crl; root_ca_crl = root; tcb_info = tcb; qe_identity = qe })

  -- The handlers before the structure is allocated: two of them pass a null pointer to
  -- `sgx_ql_free_quote_verification_collateral`, which reads its fields.
  unfoldable pub handle_request_error : Exception → Action (World c) VerificationOutput
  handle_request_error bad_alloc = crash
  handle_request_error overflow_error = crash
  handle_request_error e = pure (stopped sgx_ql_error_unexpected)

  -- The handlers inside `allocate_and_fill` rethrow nothing that these would see.
  unfoldable pub sgx_ql_get_quote_verification_collateral :
      Option Bytes
      → ℕ
      → Option Bytes
      → Option (Pointer QveCollateral)
      → Action (World c) VerificationOutput
  unfolding check_parameters request_collateral handle_request_error
  sgx_ql_get_quote_verification_collateral fmspc fmspc_size pck_ca pp_quote_collateral =
      elim (check_parameters fmspc fmspc_size pck_ca pp_quote_collateral) [
        | none ↦
            pure
              (record { status = sgx_ql_error_invalid_parameter; collateral = pp_quote_collateral })
        | some (id, requested_ca) ↦
            try_catch (request_collateral id requested_ca) handle_request_error
      ]
