-- ===== src/Provider/Revocation/Layout.antt =====
-- Where the parts of the block of `sgx_ql_get_revocation_info` of src/dcap_provider.cpp stand.
use azure_dcap_client.Prelude.{
  ℕ, suc, ◌+◌, ◌*◌, ◌≡◌, ◌≢◌, refl, arith, Bytes, List, [], ◌∷◌, some, length, ok, is_empty,
  if◌then◌else◌,
}
use azure_dcap_client.Safe.{safe_multiply, safe_cast}
use azure_dcap_client.Provider.Revocation.Block.{
  CrlResponses, RevocationInfo, revocation_size, place_tcb_info, place_crl_array,
}
use azure_dcap_client.Provider.Revocation.Packing.{
  safe_sum_sound, crl_bytes, chain_bytes, IsTotalled, ArePacked, place_crls-ArePacked,
  ArePacked-end,
}

abbrev pub terminator : Bytes → ℕ
terminator s = if is_empty s then 0 else 1

-- The size of the block, with no wrap-around.
pub revocation_size_sound :
    (tcb_info tcb_issuer_chain : Bytes) (r : CrlResponses) (size : ℕ)
    → IsTotalled r
    → revocation_size tcb_info tcb_issuer_chain r ≡ ok size
    → size
      ≡ 48
        + length tcb_info
        + length tcb_issuer_chain
        + terminator tcb_issuer_chain
        + length r.crls * 32
        + crl_bytes r.crls
        + chain_bytes r.crls
unfolding revocation_size safe_multiply
revocation_size_sound tcb_info tcb_issuer_chain r size t h = ground (
  arith,
  safe_sum_sound 0
      (48
        ∷ length tcb_info
        ∷ length tcb_issuer_chain
        ∷ (if is_empty tcb_issuer_chain then 0 else 1)
        ∷ (length r.crls * 32)
        ∷ r.total_crl_size
        ∷ r.total_crl_issuer_chain_size
        ∷ [])
      size,
)

-- The array stands where the TCB info ends, the CRLs are packed behind it, and nothing else changes.
pub place_crl_array_lem :
    (info placed : RevocationInfo) (l : List (Bytes × Bytes))
    → place_crl_array info l ≡ ok placed
    → l ≢ []
    → (placed.crls ≡ some info.cursor)
      × (placed.crl_count ≡ length l)
      × ArePacked (info.cursor + length l * 32) placed.cursor placed.crl_array l
unfolding place_crl_array safe_cast safe_multiply
place_crl_array_lem info placed [] h ne = absurd (ne refl)
place_crl_array_lem info placed (e ∷ l) h ne = ground (
  arith,
  place_crls-ArePacked (info.cursor + suc (length l) * 32) placed.cursor (e ∷ l) placed.crl_array,
)

pub place_crl_array-nil :
    (info placed : RevocationInfo) → place_crl_array info [] ≡ ok placed → placed ≡ info
unfolding place_crl_array
place_crl_array-nil info placed h = ground arith

-- Where `buffer` ends behind the CRLs.
pub place_crl_array_end :
    (info placed : RevocationInfo) (l : List (Bytes × Bytes))
    → place_crl_array info l ≡ ok placed
    → placed.cursor ≡ info.cursor + length l * 32 + crl_bytes l + chain_bytes l
place_crl_array_end info placed [] h =
    let same = place_crl_array-nil info placed h in rw same (omega arith)
place_crl_array_end info placed (e ∷ l) h =
    let (at, count, packed) = place_crl_array_lem info placed (e ∷ l) h (cc) in
    omega (
      arith,
      ArePacked-end (info.cursor + suc (length l) * 32) placed.cursor placed.crl_array (e ∷ l)
          packed,
    )

-- Where the totals are those of the responses, with a TCB info and an empty issuer chain the block is one byte too small: the parts, with the
-- terminating zeros that the code skips, end one byte behind it.
pub revocation_info_overruns :
    (tcb_info : Bytes) (r : CrlResponses) (size address : ℕ) (info : RevocationInfo)
    → IsTotalled r
    → tcb_info ≢ []
    → revocation_size tcb_info [] r ≡ ok size
    → place_crl_array (place_tcb_info address tcb_info []) r.crls ≡ ok info
    → info.cursor ≡ size + 1
unfolding place_tcb_info
revocation_info_overruns [] r size address info t ne sized placed = absurd (ne refl)
revocation_info_overruns (x ∷ xs) r size address info t ne sized placed = omega (
  arith,
  revocation_size_sound (x ∷ xs) [] r size t sized,
  place_crl_array_end (place_tcb_info address (x ∷ xs) []) info r.crls placed,
)
