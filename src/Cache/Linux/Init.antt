-- ===== src/Cache/Linux/Init.antt =====
-- `init` of src/Linux/local_cache.cpp: the cache directory is chosen once.
use azure_dcap_client.Prelude.{
  ℕ, ◌≡◌, ◌≢◌, refl, arith, false, [], ◌∷◌, ◌++◌, Option, none, Bytes, is_empty, ok, fault,
  Option-cases, inl, inr,
}
use azure_dcap_client.Cache.FileSystem.{FileSystem}
use azure_dcap_client.Cache.Linux.{
  load_cache_locations, first_location, application_name, CacheStore, make_dir, init_callback, init,
}

is_empty-append : (xs : Bytes) (y : ℕ) (ys : Bytes) → is_empty (xs ++ y ∷ ys) ≡ false
is_empty-append [] y ys = refl
is_empty-append (x ∷ xs) y ys = refl

is_empty-application : (location : Bytes) → is_empty (location ++ application_name) ≡ false
is_empty-application location = is_empty-append location _ _

-- The last location is a fixed path, so that there always is one.
first_location_found :
    (getenv : Bytes → Option Bytes) → first_location (load_cache_locations getenv) ≢ none
unfolding first_location
first_location_found getenv = ground arith

module _ (F : FileSystem) (getenv : Bytes → Option Bytes) (digest : Bytes → Bytes) where
  -- The loop over the locations always finds one, so that `init` never reaches the code behind it,
  -- which would append a null pointer.
  pub init-ne-fault : (s : CacheStore F getenv digest) → (init F getenv digest s).0 ≢ fault
  unfolding init init_callback make_dir
  init-ne-fault s = ground (arith, first_location_found getenv)

  pub init_done :
      (s : CacheStore F getenv digest)
      → is_empty s.cache_dirname ≡ false
      → init F getenv digest s ≡ (ok tt, s)
  unfolding init
  init_done s h = rw h

  -- An `init` that returns has set the directory.
  pub init_sets :
      (s s' : CacheStore F getenv digest)
      → init F getenv digest s ≡ (ok tt, s')
      → is_empty s'.cache_dirname ≡ false
  unfolding init init_callback make_dir
  init_sets s s' h = elim (Option-cases (first_location (load_cache_locations getenv))) [
    | inl e ↦ absurd (first_location_found getenv e)
    | inr (location, e) ↦ ground (arith, e, is_empty-application location)
  ]

  pub init_again :
      (s s' : CacheStore F getenv digest)
      → init F getenv digest s ≡ (ok tt, s')
      → init F getenv digest s' ≡ (ok tt, s')
  init_again s s' h = init_done s' (init_sets s s' h)
