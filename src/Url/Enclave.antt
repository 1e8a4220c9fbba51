-- ===== src/Url/Enclave.antt =====
-- Which collateral versions give a QvE identity URL, and which header goes with a QE identity URL.
use azure_dcap_client.Prelude.{
  ℕ, ◌≡◌, ◌≢◌, ◌↔◌, inl, inr, arith, true, false, [], ◌∷◌, ◌++◌, Bytes, codes, bytes_eq,
  bytes_eq_refl, bytes_eq_ne, Bool-cases,
}
use azure_dcap_client.Host.{Host}
use azure_dcap_client.Settings.{get_collateral_version}
use azure_dcap_client.Url.{build_enclave_id_url}

append-ne-nil : (xs : Bytes) (y : ℕ) (ys : Bytes) → xs ++ y ∷ ys ≢ []
append-ne-nil [] y ys h = cc
append-ne-nil (x ∷ xs) y ys h = cc

-- The code finds no URL for the QvE identity exactly if the collateral version is not "v2"; for the
-- QE identity it always finds one.
pub build_enclave_id_url_empty :
    (h : Host)
    → (((build_enclave_id_url h true).0 ≡ []) ↔ (get_collateral_version h ≢ codes "v2"))
      × ((build_enclave_id_url h false).0 ≢ [])
unfolding build_enclave_id_url
build_enclave_id_url_empty h = (
  (
    elim (Bool-cases (bytes_eq (get_collateral_version h) (codes "v2"))) [
      | inl e ↦ rw e (λ p. absurd (append-ne-nil _ _ _ p))
      | inr e ↦ λ _ v. ground (arith, bytes_eq_refl (codes "v2"))
    ],
    λ v. rw (bytes_eq_ne _ _ v),
  ),
  append-ne-nil _ _ _,
)
