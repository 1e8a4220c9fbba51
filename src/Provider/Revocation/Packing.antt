-- ===== src/Provider/Revocation/Packing.antt =====
-- The running totals of `sgx_ql_get_revocation_info` of src/dcap_provider.cpp, and the loop that
-- copies the CRLs.
use azure_dcap_client.Prelude.{
  refl, ℕ, ◌+◌, ◌%◌, ◌^◌, ◌≡◌, arith, Bytes, List, [], ◌∷◌, ◌++◌, length, length-append, ◌⊎◌, ok,
  >>=-ok, pure, inl, inr,
}
use azure_dcap_client.Errors.{SgxPlatError}
use azure_dcap_client.Host.{Host}
use azure_dcap_client.Safe.{safe_add, safe_cast}
use azure_dcap_client.Curl.{CurlEasy}
use azure_dcap_client.Cache.{LocalCache}
use azure_dcap_client.Provider.{World, get_unescape_header, crl_issuer_chain}
use azure_dcap_client.Provider.QeIdentity.{safe_sum}
use azure_dcap_client.Provider.Revocation.{fetch_crl, fetch_crls}
use azure_dcap_client.Provider.Revocation.Block.{
  CrlData, CrlResponses, add_crl, place_crls, store_crl,
}

abbrev pub sum : List ℕ → ℕ
sum [] = 0
sum (n ∷ ns) = n + sum ns

pub safe_sum_sound :
    (total : ℕ) (ns : List ℕ) (r : ℕ) → safe_sum total ns ≡ ok r → r ≡ total + sum ns
unfolding safe_sum safe_add
safe_sum_sound total [] r h = ground arith
safe_sum_sound total (n ∷ ns) r h = ground (arith, safe_sum_sound (total + n) ns r)

-- The CRLs with a terminating zero each, and their issuer chains likewise.
abbrev pub crl_bytes : List (Bytes × Bytes) → ℕ
crl_bytes [] = 0
crl_bytes ((crl, chain) ∷ l) = (length crl + 1) + crl_bytes l

abbrev pub chain_bytes : List (Bytes × Bytes) → ℕ
chain_bytes [] = 0
chain_bytes ((crl, chain) ∷ l) = (length chain + 1) + chain_bytes l

crl_bytes-append :
    (l : List (Bytes × Bytes)) (crl chain : Bytes)
    → crl_bytes (l ++ (crl, chain) ∷ []) ≡ crl_bytes l + (length crl + 1)
crl_bytes-append [] crl chain = omega arith
crl_bytes-append (e ∷ l) crl chain = omega (arith, crl_bytes-append l crl chain)

chain_bytes-append :
    (l : List (Bytes × Bytes)) (crl chain : Bytes)
    → chain_bytes (l ++ (crl, chain) ∷ []) ≡ chain_bytes l + (length chain + 1)
chain_bytes-append [] crl chain = omega arith
chain_bytes-append (e ∷ l) crl chain = omega (arith, chain_bytes-append l crl chain)

-- The totals are those of the responses.
pub record IsTotalled (r : CrlResponses) : Type 0 where
  pub crl_total : r.total_crl_size ≡ crl_bytes r.crls
  pub chain_total : r.total_crl_issuer_chain_size ≡ chain_bytes r.crls

pub add_crl-IsTotalled :
    (r r' : CrlResponses) (crl chain : Bytes)
    → IsTotalled r
    → add_crl r crl chain ≡ ok r'
    → IsTotalled r' × (length r'.crls ≡ length r.crls + 1)
unfolding add_crl
add_crl-IsTotalled r r' crl chain t h = grind (
  arith,
  safe_sum_sound r.total_crl_size (length crl ∷ 1 ∷ []),
  safe_sum_sound r.total_crl_issuer_chain_size (length chain ∷ 1 ∷ []),
  crl_bytes-append r.crls crl chain,
  chain_bytes-append r.crls crl chain,
  length-append r.crls ((crl, chain) ∷ []),
)

-- The entries stand one behind the other between two offsets: each CRL with a terminating zero,
-- its issuer chain directly behind with another, the sizes are those of the contents, and these are
-- what is copied.
abbrev pub ArePacked : ℕ → ℕ → List CrlData → List (Bytes × Bytes) → Type 0
ArePacked start end [] [] = start ≡ end
ArePacked start end [] (e ∷ l) = ⊥
ArePacked start end (d ∷ ds) [] = ⊥
ArePacked start end (d ∷ ds) ((crl, chain) ∷ l) =
    (d.crl_data ≡ start)
    × (d.crl_data_size ≡ length crl)
    × (d.crl_issuer_chain ≡ start + (length crl + 1))
    × (d.crl_issuer_chain_size ≡ length chain % 2 ^ 32)
    × (d.copied_crl ≡ crl)
    × (d.copied_chain ≡ chain)
    × ArePacked (start + (length crl + 1) + (length chain + 1)) end ds l

-- If the loop that copies the CRLs ends, then it has put them one behind the other, from where it
-- started to where it ended: each with a terminating zero, its issuer chain directly behind it with
-- another, and their sizes beside them, the one of the chain modulo 2^32.
pub place_crls-ArePacked :
    (start end : ℕ) (l : List (Bytes × Bytes)) (ds : List CrlData)
    → place_crls start l ≡ ok (ds, end)
    → ArePacked start end ds l
unfolding place_crls safe_cast
place_crls-ArePacked start end [] [] h = ground arith
place_crls-ArePacked start end [] (d ∷ ds) h = cc
place_crls-ArePacked start end ((crl, chain) ∷ l) [] h = ground arith
place_crls-ArePacked start end ((crl, chain) ∷ l) (d ∷ ds) h =
    ground (arith, place_crls-ArePacked (start + (length crl + 1) + (length chain + 1)) end l ds)

pub ArePacked-end :
    (start end : ℕ) (ds : List CrlData) (l : List (Bytes × Bytes))
    → ArePacked start end ds l
    → end ≡ start + crl_bytes l + chain_bytes l
ArePacked-end start end [] [] h = omega arith
ArePacked-end start end [] (e ∷ l) h = absurd h
ArePacked-end start end (d ∷ ds) [] h = absurd h
ArePacked-end start end (d ∷ ds) ((crl, chain) ∷ l) (a, b, k, e, f, g, rest) =
    omega (arith, ArePacked-end (start + (length crl + 1) + (length chain + 1)) end ds l rest)

store_crl-IsTotalled :
    (h : Host) (curl : CurlEasy) (r r' : CrlResponses)
    → IsTotalled r
    → store_crl h curl r ≡ ok (inr r')
    → IsTotalled r' × (length r'.crls ≡ length r.crls + 1)
unfolding store_crl
store_crl-IsTotalled h curl r r' t done =
    ground
      (arith, add_crl-IsTotalled r r' curl.body (get_unescape_header h curl crl_issuer_chain []).1)

fetched_cases :
    (x : SgxPlatError ⊎ CrlResponses)
    → ((e : SgxPlatError) × (x ≡ inl e)) ⊎ ((r : CrlResponses) × (x ≡ inr r))
fetched_cases (inl e) = inl (e, refl)
fetched_cases (inr r) = inr (r, refl)

module _ (c : LocalCache) (h : Host) where
  fetch_crl-IsTotalled :
      (crl_url : Bytes) (r r' : CrlResponses) (w w' : World c)
      → IsTotalled r
      → fetch_crl c h crl_url r w ≡ (ok (inr r'), w')
      → IsTotalled r' × (length r'.crls ≡ length r.crls + 1)
  unfolding fetch_crl
  fetch_crl-IsTotalled crl_url r r' w w' t done =
      grind (arith, λ (curl : CurlEasy). store_crl-IsTotalled h curl r r' t)

  -- If the loop over the CRL URLs ends without an error, and the two running totals were the sizes of
  -- the responses and of their issuer chains, each with a terminating zero, then they are so behind the
  -- loop, and there is one more response for every URL.
  pub fetch_crls-IsTotalled :
      (urls : List Bytes) (r r' : CrlResponses) (w w' : World c)
      → IsTotalled r
      → fetch_crls c h urls r w ≡ (ok (inr r'), w')
      → IsTotalled r' × (length r'.crls ≡ length r.crls + length urls)
  unfolding fetch_crls
  fetch_crls-IsTotalled [] r r' w w' t done = ground arith
  fetch_crls-IsTotalled (crl_url ∷ rest) r r' w w' t done =
      let (fetched, w1, first, behind) =
        >>=-ok (fetch_crl c h crl_url r)
          (λ x. elim x [ inl e ↦ pure (inl e) | inr r1 ↦ fetch_crls c h rest r1 ]) w done in
      elim (fetched_cases fetched) [
        | inl (e, failed) ↦ let last = rw failed at behind in absurd (ground arith)
        | inr (r1, more) ↦
            let (t1, one) = fetch_crl-IsTotalled crl_url r r1 w w1 t (rw more at first) in
            let (t2, others) = fetch_crls-IsTotalled rest r1 r' w1 w' t1 (rw more at behind) in
            (t2, omega arith)
      ]
