-- ===== src/Cache/Windows/Refinement.antt =====
-- src/Windows/local_cache.cpp as a map with entries that expire.
use azure_dcap_client.Prelude.{
  ℕ, ◌≡◌, ◌∙◌, true, false, Bool, List, [], none, Bytes, ok, is_empty, ap, ◌∷◌, ◌++◌, refl,
}
use azure_dcap_client.Cache.Contract.{Call, expected, run, IsAccepted, IsApart, run-expected}
use azure_dcap_client.Cache.Windows.Api.{WindowsApi, WindowsLaws}
use azure_dcap_client.Cache.Windows.{CacheStore, init, get_file_name}
use azure_dcap_client.Cache.Windows.Format.{sha256}
use azure_dcap_client.Cache.Windows.Init.{get_result, file_result}
use azure_dcap_client.Cache.Windows.Laws.{windows_cache}
use azure_dcap_client.Cache.Windows.Result.{result_of}

module _ (W : WindowsApi) (L : WindowsLaws W) where
  name_found :
      (s : CacheStore W) (id : Bytes) (n : Bytes)
      → sha256 W.bcrypt id ≡ ok n
      → get_file_name W s id ≡ ok (s.cache_dirname ++ b'\\' ∷ n)
  unfolding get_file_name
  name_found s id n e = rw (get_file_name, e) refl

  no_file :
      (id : Bytes) (now : ℕ) (s s1 : CacheStore W) (n : Bytes)
      → is_empty id ≡ false
      → sha256 W.bcrypt id ≡ ok n
      → init W s ≡ (ok tt, s1)
      → L.content s1.os (s1.cache_dirname ++ b'\\' ∷ n) ≡ none
      → ((windows_cache W L).local_cache_get now id s).0 ≡ ok none
  unfolding result_of
  no_file id now s s1 n named hashed e absent =
      get_result W L id now s s1 named e
      ∙ ap (file_result W L now s1.os) (name_found s1 id n hashed)
      ∙ ap (result_of now) absent

  -- The Windows cache refines a map with entries that expire, where the calls of Windows do what they
  -- document, a search finds every file of an entry that can be read, and no other process changes the
  -- cache. From a directory in which none of the files of
  -- the given identifiers can be opened, any sequence of calls that add an entry, look one up or clear
  -- the cache returns, and its look-ups return what the map gives: the data that were last added under
  -- the identifier, until they expire or the cache is cleared. The identifiers are not empty, have
  -- digests, and these differ, the times of the calls do not go back, sizes and expiration times fit
  -- their types, `init` succeeds, and no call to add an entry or to clear the cache fails.
  pub windows_refines :
      (used : Bytes → Bool)
      → ((id : Bytes) → used id ≡ true → is_empty id ≡ false)
      → ((id : Bytes) → used id ≡ true → (n : Bytes) × (sha256 W.bcrypt id ≡ ok n))
      → IsApart (windows_cache W L) used
      → (calls : List (ℕ × Call)) (s s1 : CacheStore W) → init W s ≡ (ok tt, s1)
      → ((id p : Bytes) → used id ≡ true → get_file_name W s1 id ≡ ok p → L.content s1.os p ≡ none)
      → IsAccepted (windows_cache W L) used 0 calls s
      → (run (windows_cache W L) calls s).0 ≡ ok (expected calls [])
  windows_refines used named hashed apart calls s s1 e absent accepted =
      run-expected (windows_cache W L) used apart calls s
        (λ now id known.
          let (n, digest) = hashed id known in
          no_file id now s s1 n (named id known) digest e
            (absent id _ known (name_found s1 id n digest)))
        accepted
