-- ===== src/Cache.antt =====
-- src/local_cache.h: the operations that both platforms implement and that the provider calls, with
-- what the provider relies on.
pub mod FileSystem
pub mod Header
pub mod Linux
pub mod Windows
pub mod Contract
use azure_dcap_client.Prelude.{
  ℕ, ◌+◌, ◌^◌, ◌<◌, ◌≤◌, ◌≡◌, ◌≢◌, Option, none, some, [], Bytes, Action, ok, ⊤, length,
}

-- `local_cache_get` takes what `time(nullptr)` gives; `name` is the name of the file of an entry, so
-- that two entries are kept apart where their names differ.
pub record LocalCache : Type 1 where
  pub Store : Type 0
  pub local_cache_add : Bytes → ℕ → Bytes → Action Store ⊤
  pub local_cache_get : ℕ → Bytes → Action Store (Option Bytes)
  pub local_cache_clear : Action Store ⊤
  pub name : Bytes → Bytes
  -- An entry that has been added is read back until it expires.
  pub get-add :
      (id : Bytes) (expiry now : ℕ) (bytes : Bytes) (s s' : Store)
      → local_cache_add id expiry bytes s ≡ (ok tt, s')
      → now < expiry
      → expiry < 2 ^ 63
      → length bytes + 16 < 2 ^ 31
      → (local_cache_get now id s').0 ≡ ok (some bytes)
  pub get-add_expired :
      (id : Bytes) (expiry now : ℕ) (bytes : Bytes) (s s' : Store)
      → local_cache_add id expiry bytes s ≡ (ok tt, s')
      → expiry ≤ now
      → expiry < 2 ^ 63
      → (local_cache_get now id s').0 ≡ ok none
  -- Adding an entry changes no other.
  pub get-add_ne :
      (id other : Bytes) (expiry now : ℕ) (bytes : Bytes) (s s' : Store)
      → local_cache_add id expiry bytes s ≡ (ok tt, s')
      → name id ≢ name other
      → (local_cache_get now other s').0 ≡ (local_cache_get now other s).0
  -- A look-up changes no later one, of any entry.
  pub get-get :
      (id other : Bytes) (now later : ℕ) (found : Option Bytes) (s s' : Store)
      → now ≤ later
      → local_cache_get now id s ≡ (ok found, s')
      → (local_cache_get later other s').0 ≡ (local_cache_get later other s).0
  -- Clearing the cache leaves no entry.
  pub get-clear :
      (id : Bytes) (now : ℕ) (found : Option Bytes) (s s' : Store)
      → local_cache_clear s ≡ (ok tt, s')
      → (local_cache_get now id s).0 ≡ ok found
      → (local_cache_get now id s').0 ≡ ok none
