-- ===== src/Provider/Revocation/Block.antt =====
-- The responses that `sgx_ql_get_revocation_info` of src/dcap_provider.cpp collects, and the layout of
-- the block into which it copies them.
use azure_dcap_client.Prelude.{
  ℕ, ◌+◌, ◌-◌, ◌%◌, ◌^◌, ◌*◌, Bool, true, false, not, ◌&&◌, ◌||◌, ltb, leb, ◌==◌, ◌⊎◌, inl, inr,
  Bytes, List, [], ◌∷◌, ◌++◌, Option, none, some, if◌then◌else◌, length, is_empty, Outcome, ok,
  throw, fault,
}
use azure_dcap_client.Errors.{SgxPlatError, is_plat_ok}
use azure_dcap_client.Host.{Host}
use azure_dcap_client.Safe.{safe_multiply, safe_cast, u32_limit}
use azure_dcap_client.Curl.{CurlEasy}
use azure_dcap_client.Provider.{get_unescape_header, crl_issuer_chain}
use azure_dcap_client.Provider.QeIdentity.{safe_sum}

-- `sizeof(sgx_ql_revocation_info_t)` and `sizeof(sgx_ql_crl_data_t)` with 8-byte pointers.
abbrev pub sizeof_revocation_info : ℕ
sizeof_revocation_info = 48

abbrev pub sizeof_crl_data : ℕ
sizeof_crl_data = 32

-- `sgx_ql_crl_data_t`, the pointers as offsets in the block, and what `memcpy` puts there.
pub record CrlData : Type 0 where
  pub crl_data_size : ℕ
  pub crl_data : ℕ
  pub crl_issuer_chain_size : ℕ
  pub crl_issuer_chain : ℕ
  pub copied_crl : Bytes
  pub copied_chain : Bytes

-- `sgx_ql_revocation_info_t` with the array that it points to; pointers are offsets in the block, and
-- `cursor` is where the code's variable `buffer` ends; `copied_tcb_info` and
-- `copied_tcb_issuer_chain` are what `memcpy` puts where `tcb_info` and `tcb_issuer_chain` point.
pub record RevocationInfo : Type 0 where
  pub address : ℕ
  pub version : ℕ
  pub tcb_info_size : ℕ
  pub tcb_info : Option ℕ
  pub tcb_issuer_chain_size : ℕ
  pub tcb_issuer_chain : Option ℕ
  pub crl_count : ℕ
  pub crls : Option ℕ
  pub crl_array : List CrlData
  pub cursor : ℕ
  pub copied_tcb_info : Bytes
  pub copied_tcb_issuer_chain : Bytes

-- The responses for the CRLs, each with its issuer chain, and the two running totals.
pub record CrlResponses : Type 0 where
  pub crls : List (Bytes × Bytes)
  pub total_crl_size : ℕ
  pub total_crl_issuer_chain_size : ℕ

abbrev pub no_responses : CrlResponses
no_responses = record { crls = []; total_crl_size = 0; total_crl_issuer_chain_size = 0 }

-- `==` of `bool`
abbrev pub equal : Bool → Bool → Bool
equal true b = b
equal false b = not b

-- A response is appended, and the totals grow by its sizes and a terminating zero each.
unfoldable pub add_crl : CrlResponses → Bytes → Bytes → Outcome CrlResponses
unfolding safe_sum
add_crl r crl chain = elim (safe_sum r.total_crl_size (length crl ∷ 1 ∷ [])) [
  | throw e ↦ throw e
  | fault ↦ fault
  | ok total_crl_size ↦ elim (safe_sum r.total_crl_issuer_chain_size (length chain ∷ 1 ∷ [])) [
    | throw e ↦ throw e
    | fault ↦ fault
    | ok total_crl_issuer_chain_size ↦ ok (record {
      crls = r.crls ++ (crl, chain) ∷ [];
      total_crl_size = total_crl_size;
      total_crl_issuer_chain_size = total_crl_issuer_chain_size;
    })
  ]
]

-- The part of a round of the loop behind the response: the responses, or the error that is returned,
-- which drops them. The total of the CRLs grows before the header is looked at.
unfoldable pub store_crl : Host → CurlEasy → CrlResponses → Outcome (SgxPlatError ⊎ CrlResponses)
store_crl h curl r = elim (safe_sum r.total_crl_size (length curl.body ∷ 1 ∷ [])) [
  | throw e ↦ throw e
  | fault ↦ fault
  | ok total_crl_size ↦
      let found = get_unescape_header h curl crl_issuer_chain [] in
      let added = add_crl r curl.body found.1 in
      if is_plat_ok found.0
      then elim added [ ok r' ↦ ok (inr r') | throw e ↦ throw e | fault ↦ fault ]
      else ok (inl found.0)
]

-- The size of the block.
unfoldable pub revocation_size : Bytes → Bytes → CrlResponses → Outcome ℕ
unfolding safe_sum safe_multiply
revocation_size tcb_info tcb_issuer_chain r = elim (safe_multiply (length r.crls) sizeof_crl_data) [
  | throw e ↦ throw e
  | fault ↦ fault
  | ok array_size ↦ safe_sum 0 (
      sizeof_revocation_info
      ∷ length tcb_info
      ∷ length tcb_issuer_chain
      ∷ (if is_empty tcb_issuer_chain then 0 else 1)
      ∷ array_size
      ∷ r.total_crl_size
      ∷ r.total_crl_issuer_chain_size
      ∷ [])
]

-- The loop that copies the CRLs: the entries of the array, and where `buffer` ends.
unfoldable pub place_crls : ℕ → List (Bytes × Bytes) → Outcome (List CrlData × ℕ)
unfolding safe_cast
place_crls buffer [] = ok ([], buffer)
place_crls buffer ((crl, chain) ∷ rest) = elim (safe_cast (u32_limit - 1) (length crl)) [
  | throw e ↦ throw e
  | fault ↦ fault
  | ok crl_data_size ↦
      let behind_crl = buffer + (length crl + 1) in
      let behind_chain = behind_crl + (length chain + 1) in
      elim (place_crls behind_chain rest) [
        | throw e ↦ throw e
        | fault ↦ fault
        | ok placed ↦ ok (
          record {
            crl_data_size = crl_data_size;
            crl_data = buffer;
            crl_issuer_chain_size = length chain % 2 ^ 32;
            crl_issuer_chain = behind_crl;
            copied_crl = crl;
            copied_chain = chain;
          }
              ∷ placed.0,
          placed.1,
        )
      ]
]

-- The structure behind `memset`, and the part for the TCB info. The assertions between these
-- statements are `tcb_info_asserts`.
unfoldable pub place_tcb_info : ℕ → Bytes → Bytes → RevocationInfo
place_tcb_info address tcb_info tcb_issuer_chain =
    let buffer = sizeof_revocation_info in
    let zeroed : RevocationInfo = record {
      address = address;
      version = 1;
      tcb_info_size = 0;
      tcb_info = none;
      tcb_issuer_chain_size = 0;
      tcb_issuer_chain = none;
      crl_count = 0;
      crls = none;
      crl_array = [];
      cursor = buffer;
      copied_tcb_info = [];
      copied_tcb_issuer_chain = [];
    } in
    if is_empty tcb_info then zeroed else record zeroed {
      tcb_info_size = length tcb_info % 2 ^ 32;
      tcb_info = some buffer;
      tcb_issuer_chain_size = length tcb_issuer_chain % 2 ^ 32;
      tcb_issuer_chain = some (buffer + length tcb_info);
      cursor = buffer + length tcb_info + (length tcb_issuer_chain + 1);
      copied_tcb_info = tcb_info;
      copied_tcb_issuer_chain = tcb_issuer_chain;
    }

-- The part for the CRLs. The assertions in its loop are `crls_assert`.
unfoldable pub place_crl_array : RevocationInfo → List (Bytes × Bytes) → Outcome RevocationInfo
unfolding place_crls safe_cast safe_multiply
place_crl_array info [] = ok info
place_crl_array info (crl ∷ crls) =
    let all = crl ∷ crls in
    elim (safe_cast (u32_limit - 1) (length all)) [
      | throw e ↦ throw e
      | fault ↦ fault
      | ok crl_count ↦ elim (safe_multiply (length all) sizeof_crl_data) [
        | throw e ↦ throw e
        | fault ↦ fault
        | ok array_size ↦ elim (place_crls (info.cursor + array_size) all) [
          | throw e ↦ throw e
          | fault ↦ fault
          | ok placed ↦ ok (record info {
            crl_count = crl_count;
            crls = some info.cursor;
            crl_array = placed.0;
            cursor = placed.1;
          })
        ]
      ]
    ]

-- `assert` is compiled into the Linux build, which does not define NDEBUG. The assertions behind the
-- structure and in the part for the TCB info, in a block of the given size.
unfoldable pub tcb_info_asserts : ℕ → Bytes → Bytes → Bool
tcb_info_asserts size tcb_info tcb_issuer_chain =
    let buffer = sizeof_revocation_info in
    let behind_info = buffer + length tcb_info in
    ltb buffer size
    && equal (is_empty tcb_info) (is_empty tcb_issuer_chain)
    && (is_empty tcb_info
        || (ltb behind_info size && leb (behind_info + (length tcb_issuer_chain + 1)) size))

-- The assertions in the loop over the CRLs, from a cursor on.
unfoldable pub crls_assert : ℕ → ℕ → List (Bytes × Bytes) → Bool
crls_assert size buffer [] = true
crls_assert size buffer ((crl, chain) ∷ rest) =
    let behind_crl = buffer + (length crl + 1) in
    let behind_chain = behind_crl + (length chain + 1) in
    ltb behind_crl size && leb behind_chain size && crls_assert size behind_chain rest

-- All assertions, with those on the number of CRLs and on the end of the block: of the size of the
-- block, the number of URLs, the inputs, and the info once all is placed. The number of CRLs is that of
-- the issuer chains, since they are paired.
unfoldable pub all_assert : ℕ → ℕ → Bytes → Bytes → List (Bytes × Bytes) → RevocationInfo → Bool
unfolding tcb_info_asserts crls_assert place_tcb_info
all_assert size crl_url_count tcb_info tcb_issuer_chain crls info =
    tcb_info_asserts size tcb_info tcb_issuer_chain
    && (length crls == crl_url_count)
    && crls_assert size
        ((place_tcb_info 0 tcb_info tcb_issuer_chain).cursor + length crls * sizeof_crl_data) crls
    && (info.cursor == size)
