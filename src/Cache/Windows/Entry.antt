-- ===== src/Cache/Windows/Entry.antt =====
-- The bytes of an entry of src/Windows/local_cache.cpp, and what is read back from them.
use azure_dcap_client.Prelude.{
  ℕ, ◌+◌, ◌%◌, ◌^◌, ◌≤◌, ◌<◌, ◌≡◌, refl, arith, true, false, ◌++◌, Bytes, some, ok, ==_iff, length,
  drop, take-length,
}
use azure_dcap_client.Cache.Header.{cache_v1, is_expired, little_endian_value-bytes}
use azure_dcap_client.Cache.Windows.Api.{WindowsApi, WindowsLaws}
use azure_dcap_client.Cache.Windows.Entries.{entry_bytes}
use azure_dcap_client.Cache.Windows.Result.{header_in, data_in}
use azure_dcap_client.Cache.Windows.{CacheStore}
use azure_dcap_client.Cache.Windows.Format.{header_bytes, header_of, data_size_of}

pub is_expired-lt :
    (version expiry now : ℕ)
    → now < expiry
    → expiry < 2 ^ 63
    → is_expired (record { version = version; expiry = expiry }) now ≡ false
unfolding is_expired
is_expired-lt version expiry now h k = ground arith

pub is_expired-le :
    (version expiry now : ℕ)
    → expiry ≤ now
    → expiry < 2 ^ 63
    → is_expired (record { version = version; expiry = expiry }) now ≡ true
unfolding is_expired
is_expired-le version expiry now h k = ground arith

data_size_lem : (n m : ℕ) → m ≡ n + 16 → n + 16 < 2 ^ 31 → data_size_of (m % 2 ^ 32) ≡ n
unfolding data_size_of
data_size_lem n m e h = omega arith

-- The data behind a header are read back whole.
data_in_lem :
    (file bytes : Bytes)
    → length file ≡ length bytes + 16
    → drop 16 file ≡ bytes
    → length bytes + 16 < 2 ^ 31
    → data_in file ≡ ok (some bytes)
unfolding data_in
data_in_lem file bytes size rest small =
    rw
      (
        data_size_lem (length bytes) (length file) size small,
        rest,
        take-length bytes,
        (==_iff (length bytes) (length bytes)).1 refl,
      )
      refl

module _ (W : WindowsApi) (L : WindowsLaws W) where
  abbrev Store : Type 0
  Store = CacheStore W

  pub header_in_entry :
      (expiry : ℕ) (bytes : Bytes)
      → expiry < 2 ^ 63
      → header_in (entry_bytes W L expiry bytes) ≡ some (record { version = 1; expiry = expiry })
  unfolding header_in header_of header_bytes
  header_in_entry expiry bytes small =
      λ i. some (record { version = 1; expiry = little_endian_value-bytes expiry (omega arith) i })

  pub data_in_entry :
      (expiry : ℕ) (bytes : Bytes)
      → length bytes + 16 < 2 ^ 31
      → data_in (entry_bytes W L expiry bytes) ≡ ok (some bytes)
  unfolding header_bytes
  data_in_entry expiry bytes small =
      let fits : length bytes % 2 ^ 32 ≡ length bytes = omega arith in
      rw (fits, take-length bytes)
        (data_in_lem
          (header_bytes W.padding (record { version = cache_v1; expiry = expiry }) ++ bytes) bytes
          (omega arith) refl small)
