-- ===== src/Cache/Windows/Open.antt =====
-- `OpenHandle` of src/Windows/local_cache.cpp: attempts until one is not a sharing violation.
use azure_dcap_client.Prelude.{
  ℕ, zero, suc, ◌-◌, ◌≤◌, ◌<◌, ◌≡◌, ◌≢◌, ◌⊎◌, inl, inr, refl, arith, Bool, true, false, ◌==◌,
  Bool-cases,
}
use azure_dcap_client.Cache.Windows.Api.{WindowsApi}
use azure_dcap_client.Cache.Windows.{open_attempts, open_handle}
use azure_dcap_client.Cache.Windows.Format.{max_retry, error_sharing_violation}

module _ (W : WindowsApi) (attempt : W.Os → Bool × W.Os) where
  -- What the attempts lead to, from a property that each finds and that those leave that fail.
  open_attempts_rule :
      (Before : W.Os → Type 0) (After : Bool → W.Os → Type 0)
      → ((os : W.Os) → Before os → After (attempt os).0 (W.sleep (attempt os).1))
      → ((os : W.Os) → After false os → Before os)
      → (left : ℕ) (os : W.Os) → Before os
      → After (open_attempts W attempt left os).0 (open_attempts W attempt left os).1
  unfolding open_attempts
  open_attempts_rule Before After tried again zero os before = tried os before
  open_attempts_rule Before After tried again (suc left) os before =
      let os' = W.sleep (attempt os).1 in
      elim (Bool-cases (attempt os).0) [
        | inl e ↦
            let done : After true os' = rw e at (tried os before) in
            let last : open_attempts W attempt (suc left) os ≡ (true, os') = ground (arith, e) in
            rw last done
        | inr e ↦
            let failed : After false os' = rw e at (tried os before) in
            elim (Bool-cases (W.last_error os' == error_sharing_violation)) [
              | inl busy ↦
                  let next : open_attempts W attempt (suc left) os
                      ≡ open_attempts W attempt left os' =
                    ground (arith, e, busy) in
                  rw next (open_attempts_rule Before After tried again left os' (again os' failed))
              | inr free ↦
                  let last : open_attempts W attempt (suc left) os ≡ (false, os') =
                    ground (arith, e, free) in
                  rw last failed
            ]
      ]

  pub open_handle_rule :
      (Before : W.Os → Type 0) (After : Bool → W.Os → Type 0)
      → ((os : W.Os) → Before os → After (attempt os).0 (W.sleep (attempt os).1))
      → ((os : W.Os) → After false os → Before os)
      → (os : W.Os) → Before os
      → After (open_handle W attempt os).0 (open_handle W attempt os).1
  unfolding open_handle
  open_handle_rule Before After tried again os before =
      open_attempts_rule Before After tried again (max_retry - 1) os before

  -- The system after a number of attempts and of the pauses behind them.
  unfoldable pub after_attempts : ℕ → W.Os → W.Os
  after_attempts zero os = os
  after_attempts (suc n) os = after_attempts n (W.sleep (attempt os).1)

  -- Whether the attempt with this number meets a sharing violation.
  abbrev pub IsRefused : W.Os → ℕ → Type 0
  IsRefused os n =
      ((attempt (after_attempts n os)).0 ≡ false)
      × (W.last_error (after_attempts (suc n) os) ≡ error_sharing_violation)

  -- Whether the attempt with this number ends the loop without being the last.
  abbrev pub IsDecided : W.Os → ℕ → Type 0
  IsDecided os n =
      ((attempt (after_attempts n os)).0 ≡ true)
      ⊎ (W.last_error (after_attempts (suc n) os) ≢ error_sharing_violation)

  open_attempts_lem :
      (left n : ℕ) (os : W.Os)
      → n ≤ left
      → ((k : ℕ) → k < n → IsRefused os k)
      → IsDecided os n ⊎ (n ≡ left)
      → open_attempts W attempt left os
        ≡ ((attempt (after_attempts n os)).0, after_attempts (suc n) os)
  unfolding open_attempts after_attempts
  open_attempts_lem zero zero os le refused decided = refl
  open_attempts_lem zero (suc n) os le refused decided = absurd (omega arith)
  open_attempts_lem (suc left) zero os le refused (inl (inl e)) = ground (arith, e)
  open_attempts_lem (suc left) zero os le refused (inl (inr other)) =
      elim (Bool-cases (attempt os).0) [
        | inl e ↦ ground (arith, e)
        | inr e ↦ ground (arith, e, other)
      ]
  open_attempts_lem (suc left) zero os le refused (inr last) = absurd (omega arith)
  open_attempts_lem (suc left) (suc n) os le refused decided =
      let (failed, busy) = refused 0 (omega arith) in
      let rest =
        open_attempts_lem left n (W.sleep (attempt os).1) (omega arith)
          (λ k h. refused (suc k) (omega arith)) (shifted decided) in
      ground (arith, failed, busy, rest)
    where
      shifted :
          IsDecided os (suc n) ⊎ (suc n ≡ suc left)
          → IsDecided (W.sleep (attempt os).1) n ⊎ (n ≡ left)
      shifted (inl d) = inl d
      shifted (inr e) = inr (omega arith)

  -- `OpenHandle` makes attempts until one gives a handle, or fails for another reason than a sharing
  -- violation, or is the last of 10000; it returns what that attempt gave, with a pause behind every
  -- attempt, the last one too.
  pub open_handle_lem :
      (n : ℕ) (os : W.Os)
      → n < max_retry
      → ((k : ℕ) → k < n → IsRefused os k)
      → IsDecided os n ⊎ (suc n ≡ max_retry)
      → open_handle W attempt os ≡ ((attempt (after_attempts n os)).0, after_attempts (suc n) os)
  unfolding open_handle
  open_handle_lem n os le refused decided =
      open_attempts_lem (max_retry - 1) n os (omega arith) refused (at_last decided)
    where
      at_last : IsDecided os n ⊎ (suc n ≡ max_retry) → IsDecided os n ⊎ (n ≡ max_retry - 1)
      at_last (inl d) = inl d
      at_last (inr e) = inr (omega arith)
