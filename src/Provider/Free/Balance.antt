-- ===== src/Provider/Free/Balance.antt =====
-- The blocks that `sgx_ql_get_quote_verification_collateral` of src/dcap_provider.cpp allocates, and the
-- call that frees them.
use azure_dcap_client.Prelude.{
  ℕ, ◌+◌, ◌≤◌, ◌≡◌, ◌∙◌, refl, arith, sym, ap, ==_iff, Bool, true, false, ◌||◌, List, [], ◌∷◌,
  Option, some, ◌==◌, if◌then◌else◌, Bool-cases, inl, inr, ok,
}
use azure_dcap_client.Errors.{sgx_ql_success}
use azure_dcap_client.Host.{Host}
use azure_dcap_client.Cache.{LocalCache}
use azure_dcap_client.Provider.{World}
use azure_dcap_client.Provider.Buffers.{live}
use azure_dcap_client.Provider.Free.{Heap, sgx_ql_free_quote_verification_collateral}
use azure_dcap_client.Provider.Free.Ownership.{is_among, AreOwned, blocks_of, free_collateral_lem}
use azure_dcap_client.Provider.Verification.{zeroed_collateral, Responses, allocate_and_fill}
use azure_dcap_client.Provider.Verification.Filling.{IsSmall, filled, allocate_and_fill_lem}

-- Whether a number is among those of a list.
abbrev is_index : ℕ → List ℕ → Bool
is_index i [] = false
is_index i (k ∷ ks) = k == i || is_index i ks

-- The numbers of a list are different, and not below a bound.
abbrev AreApart : ℕ → List ℕ → Type 0
AreApart n [] = Unit
AreApart n (k ∷ ks) = (is_index k ks ≡ false) × (n ≤ k) × AreApart n ks

-- The numbers of the allocations in the order in which their blocks are freed.
abbrev freed_order : ℕ → List ℕ
freed_order n =
    (n + 1 + 1 + 1)
    ∷ (n + 1 + 1)
    ∷ (n + 1 + 1 + 1 + 1 + 1)
    ∷ (n + 1 + 1 + 1 + 1)
    ∷ (n + 1 + 1 + 1 + 1 + 1 + 1 + 1)
    ∷ (n + 1 + 1 + 1 + 1 + 1 + 1)
    ∷ (n + 1)
    ∷ n
    ∷ []

freed_order-AreApart : (n : ℕ) → AreApart n (freed_order n)
freed_order-AreApart n = (
  ground arith,
  omega arith,
  (
    ground arith,
    omega arith,
    (
      ground arith,
      omega arith,
      (
        ground arith,
        omega arith,
        (
          ground arith,
          omega arith,
          (ground arith, omega arith, (ground arith, omega arith, (refl, omega arith, tt))),
        ),
      ),
    ),
  ),
)

-- The blocks of a list as allocated beside those of a heap.
abbrev pub with_blocks : List (Option ℕ) → Heap → Heap
with_blocks blocks heap b = is_among b blocks || heap b

module _ (addresses : ℕ → ℕ) (injective : (i j : ℕ) → addresses i ≡ addresses j → i ≡ j) where
  abbrev at_addresses : List ℕ → List (Option ℕ)
  at_addresses [] = []
  at_addresses (k ∷ ks) = some (addresses k) ∷ at_addresses ks

  is_among_lem : (i : ℕ) (ks : List ℕ) → is_among (addresses i) (at_addresses ks) ≡ is_index i ks
  is_among_lem i [] = refl
  is_among_lem i (k ∷ ks) =
      let rest = is_among_lem i ks in
      elim (Bool-cases (k == i)) [
        | inl e ↦ let same : k ≡ i = (==_iff k i).0 e in ground (arith, same)
        | inr e ↦ elim (Bool-cases (addresses k == addresses i)) [
          | inl f ↦ absurd (
              let same = injective k i ((==_iff (addresses k) (addresses i)).0 f) in
              ground (arith, e, same))
          | inr f ↦ rw (e, f) rest
        ]
      ]

  AreOwned_lem :
      (n : ℕ) (ks : List ℕ) (heap : Heap)
      → ((k : ℕ) → is_index k ks ≡ true → heap (addresses k) ≡ true)
      → AreApart n ks
      → AreOwned heap (at_addresses ks)
  AreOwned_lem n [] heap held apart = tt
  AreOwned_lem n (k ∷ ks) heap held (first, _, rest) = (
    held k (ground arith),
    is_among_lem k ks ∙ first,
    AreOwned_lem n ks heap (λ j h. held j (ground (arith, h))) rest,
  )

  fresh_among :
      (n b : ℕ) (ks : List ℕ) (heap : Heap)
      → ((k : ℕ) → n ≤ k → heap (addresses k) ≡ false)
      → AreApart n ks
      → is_among b (at_addresses ks) ≡ true
      → heap b ≡ false
  fresh_among n b [] heap fresh apart h = cc (h)
  fresh_among n b (k ∷ ks) heap fresh (_, bound, rest) h = elim (Bool-cases (addresses k == b)) [
    | inl e ↦
        let same : addresses k ≡ b = (==_iff (addresses k) b).0 e in rw (sym same) (fresh k bound)
    | inr e ↦ fresh_among n b ks heap fresh rest (ground (arith, e, h))
  ]

  -- Freeing blocks that were allocated before leaves what was there before.
  restored :
      (n b : ℕ) (ks : List ℕ) (heap : Heap)
      → ((k : ℕ) → n ≤ k → heap (addresses k) ≡ false)
      → AreApart n ks
      → (if is_among b (at_addresses ks) then false else with_blocks (at_addresses ks) heap b)
        ≡ heap b
  restored n b ks heap fresh apart = elim (Bool-cases (is_among b (at_addresses ks))) [
    | inl e ↦ rw e (sym (fresh_among n b ks heap fresh apart e))
    | inr e ↦ rw e refl
  ]

  module _ (c : LocalCache) (h : Host)
      (never_out : (n size : ℕ) → h.new_block n size ≡ some (addresses n)) where
    -- The collateral that is made of four responses, where no allocation fails and each text is
    -- shorter than 4 GiB, is freed whole by `sgx_ql_free_quote_verification_collateral`, and nothing
    -- else is: with its blocks allocated beside those of any heap, the call succeeds and leaves that
    -- heap as it was. The allocator gives different addresses, none of a block that is allocated.
    pub allocate_and_fill-free :
        (r : Responses) (w : World c) (heap : Heap)
        → IsSmall r.pck_crl
        → IsSmall r.root_ca_crl
        → IsSmall r.tcb_info
        → IsSmall r.qe_identity
        → ((k : ℕ) → w.allocations ≤ k → heap (addresses k) ≡ false)
        → let q =
            filled c h addresses
              (zeroed_collateral (addresses w.allocations))
              r
              (w.allocations + 1) in
          let (result, heap') =
            sgx_ql_free_quote_verification_collateral (some q) (with_blocks (blocks_of q) heap) in
          ((allocate_and_fill c h r w).0
            ≡ ok (record { status = sgx_ql_success; collateral = some (live q) }))
          × (result ≡ ok sgx_ql_success)
          × ((b : ℕ) → heap' b ≡ heap b)
    allocate_and_fill-free r w heap s1 s2 s3 s4 fresh =
        let n = w.allocations in
        let q = filled c h addresses (zeroed_collateral (addresses n)) r (n + 1) in
        let apart = freed_order-AreApart n in
        let before = with_blocks (blocks_of q) heap in
        let held : (k : ℕ) → is_index k (freed_order n) ≡ true → before (addresses k) ≡ true =
          λ k e. ap (λ x. x || heap (addresses k)) (is_among_lem k (freed_order n) ∙ e) in
        let owned : AreOwned before (blocks_of q) =
          AreOwned_lem n (freed_order n) before held apart in
        let (returned, left) = free_collateral_lem q before owned in
        (
          allocate_and_fill_lem c h addresses never_out r w s1 s2 s3 s4,
          returned,
          λ b. left b ∙ restored n b (freed_order n) heap fresh apart,
        )
