-- ===== src/Provider/Free/Ownership.antt =====
-- What freeing leaves of the blocks.
use azure_dcap_client.Prelude.{
  ℕ, ◌≡◌, ◌∙◌, refl, arith, Bool, true, false, ◌||◌, List, [], ◌∷◌, Option, none, some, ◌==◌,
  if◌then◌else◌, Action, ok, pure, ◌>>◌, >>-ok,
}
use azure_dcap_client.Errors.{sgx_ql_success}
use azure_dcap_client.Provider.Free.{
  Heap, without, delete_array, buffer_address, sgx_ql_free_quote_verification_collateral,
}
use azure_dcap_client.Provider.Verification.{QveCollateral}

-- Whether an address is one of the pointers that are not null.
abbrev pub is_among : ℕ → List (Option ℕ) → Bool
is_among b [] = false
is_among b (none ∷ blocks) = is_among b blocks
is_among b (some a ∷ blocks) = a == b || is_among b blocks

-- The pointers that are not null point to blocks that are allocated, and to different ones.
abbrev pub AreOwned : Heap → List (Option ℕ) → Type 0
AreOwned heap [] = Unit
AreOwned heap (none ∷ blocks) = AreOwned heap blocks
AreOwned heap (some a ∷ blocks) =
    (heap a ≡ true) × (is_among a blocks ≡ false) × AreOwned heap blocks

AreOwned-without :
    (a : ℕ) (heap : Heap) (blocks : List (Option ℕ))
    → is_among a blocks ≡ false
    → AreOwned heap blocks
    → AreOwned (without a heap) blocks
AreOwned-without a heap [] apart owned = tt
AreOwned-without a heap (none ∷ blocks) apart owned = AreOwned-without a heap blocks apart owned
AreOwned-without a heap (some b ∷ blocks) apart (held, other, rest) = (
  ground (arith, apart, held),
  other,
  AreOwned-without a heap blocks (ground (arith, apart)) rest,
)

-- Deletions in a row, and a value behind them.
abbrev pub delete_all : {A : Type 0} → List (Option ℕ) → A → Action Heap A
delete_all [] value = pure value
delete_all (block ∷ blocks) value = delete_array block >> delete_all blocks value

delete_live :
    (a : ℕ) (heap : Heap) → heap a ≡ true → delete_array (some a) heap ≡ (ok tt, without a heap)
unfolding delete_array
delete_live a heap held = rw held refl

delete_all_lem :
    {A : Type 0} (blocks : List (Option ℕ)) (value : A) (heap : Heap)
    → AreOwned heap blocks
    → let (r, heap') = delete_all blocks value heap in
      (r ≡ ok value) × ((b : ℕ) → heap' b ≡ (if is_among b blocks then false else heap b))
unfolding delete_array
delete_all_lem [] value heap owned = (refl, λ b. refl)
delete_all_lem (none ∷ blocks) value heap owned = delete_all_lem blocks value heap owned
delete_all_lem (some a ∷ blocks) value heap (held, apart, rest) =
    let (returned, others) =
      delete_all_lem blocks value (without a heap) (AreOwned-without a heap blocks apart rest) in
    let step : delete_all (some a ∷ blocks) value heap ≡ delete_all blocks value (without a heap) =
      >>-ok (delete_array (some a)) (delete_all blocks value) heap (without a heap)
        (delete_live a heap held) in
    rw step (returned, λ b. others b ∙ ground arith)

abbrev pub blocks_of : QveCollateral → List (Option ℕ)
blocks_of q =
    buffer_address q.pck_crl
    ∷ buffer_address q.root_ca_crl
    ∷ buffer_address q.tcb_info
    ∷ buffer_address q.tcb_info_issuer_chain
    ∷ buffer_address q.qe_identity
    ∷ buffer_address q.qe_identity_issuer_chain
    ∷ buffer_address q.pck_crl_issuer_chain
    ∷ some q.address
    ∷ []

-- A collateral whose buffers, some of which may be null, and whose structure are different blocks
-- that are allocated is freed whole, and nothing else is: the call succeeds, each of its blocks is
-- deleted, and every other block stays as it is.
pub free_collateral_lem :
    (q : QveCollateral) (heap : Heap)
    → AreOwned heap (blocks_of q)
    → let (r, heap') = sgx_ql_free_quote_verification_collateral (some q) heap in
      (r ≡ ok sgx_ql_success)
      × ((b : ℕ) → heap' b ≡ (if is_among b (blocks_of q) then false else heap b))
unfolding sgx_ql_free_quote_verification_collateral
free_collateral_lem q heap owned = delete_all_lem (blocks_of q) sgx_ql_success heap owned
