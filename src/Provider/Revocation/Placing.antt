-- ===== src/Provider/Revocation/Placing.antt =====
-- Where the parts of `sgx_ql_get_revocation_info` of src/dcap_provider.cpp are placed, and what is copied
-- there.
use azure_dcap_client.Prelude.{
  ℕ, suc, ◌+◌, ◌*◌, ◌%◌, ◌^◌, ◌<◌, ◌≡◌, refl, arith, Bytes, List, [], ◌∷◌, none, some, length, ok,
}
use azure_dcap_client.Safe.{safe_multiply, safe_cast}
use azure_dcap_client.Provider.Revocation.Block.{
  CrlData, RevocationInfo, place_tcb_info, place_crl_array, place_crls,
}
use azure_dcap_client.Provider.Revocation.Layout.{place_crl_array_lem, place_crl_array-nil}
use azure_dcap_client.Provider.Revocation.Packing.{ArePacked}

-- The TCB info and its issuer chain, where they are, which sizes are reported and what is copied; null pointers where
-- there is no TCB info.
abbrev pub IsTcbAt : RevocationInfo → Bytes → Bytes → Type 0
IsTcbAt info [] chain =
    (info.tcb_info ≡ none)
    × (info.tcb_info_size ≡ 0)
    × (info.tcb_issuer_chain ≡ none)
    × (info.tcb_issuer_chain_size ≡ 0)
IsTcbAt info (x ∷ xs) chain =
    (info.tcb_info ≡ some 48)
    × (info.tcb_info_size ≡ length (x ∷ xs) % 2 ^ 32)
    × (info.tcb_issuer_chain ≡ some (48 + length (x ∷ xs)))
    × (info.tcb_issuer_chain_size ≡ length chain % 2 ^ 32)
    × (info.copied_tcb_info ≡ x ∷ xs)
    × (info.copied_tcb_issuer_chain ≡ chain)

-- Where they end, with a zero behind the chain.
abbrev pub end_of_tcb : Bytes → Bytes → ℕ
end_of_tcb [] chain = 48
end_of_tcb (x ∷ xs) chain = 48 + length (x ∷ xs) + (length chain + 1)

-- The array of CRLs from a start on, and behind it up to an end the CRLs and their chains.
abbrev pub AreCrlsAt : RevocationInfo → ℕ → ℕ → List (Bytes × Bytes) → Type 0
AreCrlsAt info start end [] =
    (info.crls ≡ none) × (info.crl_count ≡ 0) × (info.crl_array ≡ []) × (start ≡ end)
AreCrlsAt info start end (e ∷ l) =
    (info.crls ≡ some start)
    × (info.crl_count ≡ length (e ∷ l))
    × ArePacked (start + length (e ∷ l) * 32) end info.crl_array (e ∷ l)

-- The sizes of the CRLs fit a `uint32_t`.
abbrev pub AreSmall : List (Bytes × Bytes) → Type 0
AreSmall [] = Unit
AreSmall ((crl, chain) ∷ l) = (length crl < 2 ^ 32) × AreSmall l

-- The entry of the array for one CRL.
abbrev entry_at : ℕ → Bytes → Bytes → CrlData
entry_at buffer crl chain = record {
  crl_data_size = length crl;
  crl_data = buffer;
  crl_issuer_chain_size = length chain % 2 ^ 32;
  crl_issuer_chain = buffer + (length crl + 1);
  copied_crl = crl;
  copied_chain = chain;
}

place_crls_total :
    (buffer : ℕ) (l : List (Bytes × Bytes))
    → AreSmall l
    → (placed : List CrlData × ℕ) × (place_crls buffer l ≡ ok placed)
unfolding place_crls safe_cast
place_crls_total buffer [] small = (_, refl)
place_crls_total buffer ((crl, chain) ∷ l) (fits, small) =
    let (placed, e) = place_crls_total (buffer + (length crl + 1) + (length chain + 1)) l small in
    ((entry_at buffer crl chain ∷ placed.0, placed.1), ground (arith, e))

pub place_crl_array_total :
    (info : RevocationInfo) (l : List (Bytes × Bytes))
    → AreSmall l
    → length l < 2 ^ 32
    → (placed : RevocationInfo) × (place_crl_array info l ≡ ok placed)
unfolding place_crl_array safe_cast safe_multiply
place_crl_array_total info [] small few = (info, refl)
place_crl_array_total info (e ∷ l) small few =
    let (placed, done) = place_crls_total (info.cursor + suc (length l) * 32) (e ∷ l) small in
    (
      record info {
        crl_count = suc (length l);
        crls = some info.cursor;
        crl_array = placed.0;
        cursor = placed.1;
      },
      ground (arith, done),
    )

pub cursor_lem :
    (address : ℕ) (tcb_info tcb_issuer_chain : Bytes)
    → (place_tcb_info address tcb_info tcb_issuer_chain).cursor
      ≡ end_of_tcb tcb_info tcb_issuer_chain
unfolding place_tcb_info
cursor_lem address [] tcb_issuer_chain = refl
cursor_lem address (x ∷ xs) tcb_issuer_chain = refl

-- What is placed is where the layout says.
abbrev pub IsLaidOut : RevocationInfo → ℕ → ℕ → Bytes → Bytes → List (Bytes × Bytes) → Type 0
IsLaidOut info address size tcb_info tcb_issuer_chain crls =
    (info.address ≡ address)
    × (info.version ≡ 1)
    × IsTcbAt info tcb_info tcb_issuer_chain
    × AreCrlsAt info (end_of_tcb tcb_info tcb_issuer_chain) size crls

place_crl_array_keeps :
    (info placed : RevocationInfo) (l : List (Bytes × Bytes))
    → place_crl_array info l ≡ ok placed
    → (placed.address ≡ info.address)
      × (placed.version ≡ info.version)
      × (placed.tcb_info ≡ info.tcb_info)
      × (placed.tcb_info_size ≡ info.tcb_info_size)
      × (placed.tcb_issuer_chain ≡ info.tcb_issuer_chain)
      × (placed.tcb_issuer_chain_size ≡ info.tcb_issuer_chain_size)
      × (placed.copied_tcb_info ≡ info.copied_tcb_info)
      × (placed.copied_tcb_issuer_chain ≡ info.copied_tcb_issuer_chain)
unfolding place_crl_array safe_cast safe_multiply
place_crl_array_keeps info placed [] h = ground arith
place_crl_array_keeps info placed (e ∷ l) h = ground arith

pub place_crl_array-IsLaidOut :
    (address size : ℕ) (tcb_info tcb_issuer_chain : Bytes) (info : RevocationInfo)
    (l : List (Bytes × Bytes))
    → place_crl_array (place_tcb_info address tcb_info tcb_issuer_chain) l ≡ ok info
    → info.cursor ≡ size
    → IsLaidOut info address size tcb_info tcb_issuer_chain l
unfolding place_tcb_info place_crl_array safe_cast safe_multiply
place_crl_array-IsLaidOut address size [] chain info [] placed full =
    let same = place_crl_array-nil (place_tcb_info address [] chain) info placed in
    rw same (refl, refl, (refl, refl, refl, refl), (refl, refl, refl, rw same at full))
place_crl_array-IsLaidOut address size (x ∷ xs) chain info [] placed full =
    let same = place_crl_array-nil (place_tcb_info address (x ∷ xs) chain) info placed in
    rw same (refl, refl, (refl, refl, refl, refl, refl, refl), (refl, refl, refl, rw same at full))
place_crl_array-IsLaidOut address size [] chain info (e ∷ l) placed full =
    let start = place_tcb_info address [] chain in
    let (a, b, k, m, n, o, p, q) = place_crl_array_keeps start info (e ∷ l) placed in
    let (at, count, packed) = place_crl_array_lem start info (e ∷ l) placed (cc) in
    (a, b, (k, m, n, o), (at, count, rw full at packed))
place_crl_array-IsLaidOut address size (x ∷ xs) chain info (e ∷ l) placed full =
    let start = place_tcb_info address (x ∷ xs) chain in
    let (a, b, k, m, n, o, p, q) = place_crl_array_keeps start info (e ∷ l) placed in
    let (at, count, packed) = place_crl_array_lem start info (e ∷ l) placed (cc) in
    (a, b, (k, m, n, o, p, q), (at, count, rw full at packed))
