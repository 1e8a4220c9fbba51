-- ===== src/Cache/Contract.antt =====
-- What the callers of src/local_cache.h may take the cache for: a map from identifiers to entries
-- that expire. Any sequence of calls, at times that do not go back, gives what the map gives.
use azure_dcap_client.Prelude.{
  ℕ, ◌+◌, ◌^◌, ◌≤◌, ◌<◌, ◌≡◌, ◌≢◌, sym, ◌∙◌, refl, arith, Bool, true, List, [], ◌∷◌, Option, none,
  some, Bytes, Action, ok, pure, ◌>>=◌, ◌>>◌, length, leb, if◌then◌else◌, lookup, insert, bytes_eq,
  bytes_eq_sound, bytes_eq_refl, lookup-insert_self, lookup-insert_ne, Bool-cases, inl, inr,
}
use azure_dcap_client.Cache.{LocalCache}

-- An expiration time, and data.
abbrev pub Entry : Type 0
Entry = ℕ × Bytes

abbrev pub EntryMap : Type 0
EntryMap = List (Bytes × Entry)

abbrev pub unexpired : ℕ → Option Entry → Option Bytes
unexpired now none = none
unexpired now (some (expiry, bytes)) = if leb expiry now then none else some bytes

-- The calls.
pub data Call : Type 0 where
  add : Bytes → ℕ → Bytes → Call
  look_up : Bytes → Call
  clear : Call

-- What the look-ups of a sequence of calls should return, from a map. Each call has its time.
unfoldable pub expected : List (ℕ × Call) → EntryMap → List (Option Bytes)
expected [] m = []
expected ((now, add id expiry bytes) ∷ calls) m = expected calls (insert id (expiry, bytes) m)
expected ((now, look_up id) ∷ calls) m = unexpired now (lookup id m) ∷ expected calls m
expected ((now, clear) ∷ calls) m = expected calls []

module _ (c : LocalCache) where
  -- What they return from a cache.
  unfoldable pub run : List (ℕ × Call) → Action c.Store (List (Option Bytes))
  run [] = pure []
  run ((now, add id expiry bytes) ∷ calls) = do c.local_cache_add id expiry bytes; run calls
  run ((now, look_up id) ∷ calls) = do
    found ← c.local_cache_get now id
    rest ← run calls
    pure (found ∷ rest)
  run ((now, clear) ∷ calls) = do c.local_cache_clear; run calls

  module _ (used : Bytes → Bool) where
    -- The calls come at times that do not go back, use the given identifiers, and store what fits
    -- the types of the sizes and of the expiration times; no call to add an entry or to clear the
    -- cache fails.
    unfoldable pub IsAccepted : ℕ → List (ℕ × Call) → c.Store → Type 0
    IsAccepted from [] s = Unit
    IsAccepted from ((now, add id expiry bytes) ∷ calls) s =
        (from ≤ now)
        × (used id ≡ true)
        × (expiry < 2 ^ 63)
        × (length bytes + 16 < 2 ^ 31)
        × ((c.local_cache_add id expiry bytes s).0 ≡ ok tt)
        × IsAccepted now calls (c.local_cache_add id expiry bytes s).1
    IsAccepted from ((now, look_up id) ∷ calls) s =
        (from ≤ now) × (used id ≡ true) × IsAccepted now calls (c.local_cache_get now id s).1
    IsAccepted from ((now, clear) ∷ calls) s =
        (from ≤ now)
        × ((c.local_cache_clear s).0 ≡ ok tt)
        × IsAccepted now calls (c.local_cache_clear s).1

    -- From a time on, the cache answers as the map does.
    abbrev Answers : ℕ → c.Store → EntryMap → Type 0
    Answers from s m =
        (now : ℕ) (id : Bytes)
        → from ≤ now
        → used id ≡ true
        → (c.local_cache_get now id s).0 ≡ ok (unexpired now (lookup id m))

    Answers-look_up :
        (from now : ℕ) (id : Bytes) (s : c.Store) (m : EntryMap)
        → from ≤ now
        → used id ≡ true
        → Answers from s m
        → Answers now (c.local_cache_get now id s).1 m
    Answers-look_up from now id s m le known same later other le' known' =
        c.get-get id other now later (unexpired now (lookup id m)) s (c.local_cache_get now id s).1
          le' (λ i. (same now id le known i, (c.local_cache_get now id s).1))
        ∙ same later other (omega arith) known'

    Answers-clear :
        (from now : ℕ) (s : c.Store) (m : EntryMap)
        → from ≤ now
        → (c.local_cache_clear s).0 ≡ ok tt
        → Answers from s m
        → Answers now (c.local_cache_clear s).1 []
    unfolding lookup
    Answers-clear from now s m le done same later other le' known' =
        let s' = (c.local_cache_clear s).1 in
        c.get-clear other later (unexpired later (lookup other m)) s s' (λ i. (done i, s'))
          (same later other (omega arith) known')

    -- The names of the files of the given identifiers differ.
    abbrev pub IsApart : Type 0
    IsApart = (a b : Bytes) → used a ≡ true → used b ≡ true → c.name a ≡ c.name b → a ≡ b

    module _ (apart : IsApart) where
      Answers-add :
          (from now : ℕ) (id : Bytes) (expiry : ℕ) (bytes : Bytes) (s : c.Store) (m : EntryMap)
          → from ≤ now
          → used id ≡ true
          → expiry < 2 ^ 63
          → length bytes + 16 < 2 ^ 31
          → (c.local_cache_add id expiry bytes s).0 ≡ ok tt
          → Answers from s m
          → Answers now (c.local_cache_add id expiry bytes s).1 (insert id (expiry, bytes) m)
      Answers-add from now id expiry bytes s m le known small fits done same later other le'
            known' =
          let s' = (c.local_cache_add id expiry bytes s).1 in
          let added : c.local_cache_add id expiry bytes s ≡ (ok tt, s') = λ i. (done i, s') in
          elim (Bool-cases (bytes_eq id other)) [
            | inl e ↦
                rw (sym (bytes_eq_sound id other e), lookup-insert_self id (expiry, bytes) m)
                  (elim (Bool-cases (leb expiry later)) [
                    | inl late ↦
                        rw late
                          (c.get-add_expired id expiry later bytes s s' added (ground arith) small)
                    | inr live ↦
                        rw live
                          (c.get-add id expiry later bytes s s' added (ground arith) small fits)
                  ])
            | inr e ↦
                let ne : id ≢ other = λ h. cc (e, bytes_eq_refl other, h) in
                rw (lookup-insert_ne id other (expiry, bytes) m ne) (
                  c.get-add_ne id other expiry later bytes s s' added
                    (λ h. ne (apart id other known known' h))
                  ∙ same later other (omega arith) known')
          ]

      run-Answers :
          (calls : List (ℕ × Call)) (from : ℕ) (s : c.Store) (m : EntryMap)
          → IsAccepted from calls s
          → Answers from s m
          → (run calls s).0 ≡ ok (expected calls m)
      unfolding run expected IsAccepted
      run-Answers [] from s m accepted same = refl
      run-Answers ((now, add id expiry bytes) ∷ calls) from s m (le, known, small, fits, done, rest)
            same =
          let later =
            run-Answers calls now (c.local_cache_add id expiry bytes s).1
              (insert id (expiry, bytes) m) rest
              (Answers-add from now id expiry bytes s m le known small fits done same) in
          ground (arith, done, later)
      run-Answers ((now, look_up id) ∷ calls) from s m (le, known, rest) same =
          let later =
            run-Answers calls now (c.local_cache_get now id s).1 m rest
              (Answers-look_up from now id s m le known same) in
          let here = same now id le known in ground (arith, here, later)
      run-Answers ((now, clear) ∷ calls) from s m (le, done, rest) same =
          let later =
            run-Answers calls now (c.local_cache_clear s).1 [] rest
              (Answers-clear from now s m le done same) in
          ground (arith, done, later)

      -- The cache refines a map with entries that expire. From a store in which no look-up of the
      -- given identifiers finds an entry, a sequence of calls returns, and its look-ups return what
      -- the map gives: the data that were last added under the identifier, until they expire or the
      -- cache is cleared. The names of the files of the given identifiers differ, the times of the calls
      -- do not go back, sizes and expiration times fit their types, and no call to add an entry or to
      -- clear the cache fails.
      pub run-expected :
          (calls : List (ℕ × Call)) (s : c.Store)
          → ((now : ℕ) (id : Bytes) → used id ≡ true → (c.local_cache_get now id s).0 ≡ ok none)
          → IsAccepted 0 calls s
          → (run calls s).0 ≡ ok (expected calls [])
      unfolding lookup
      run-expected calls s empty accepted =
          run-Answers calls 0 s [] accepted (λ now id le known. empty now id known)
