-- ===== src/Cache/Windows/Format.antt =====
-- The constants of src/Windows/local_cache.cpp, the digest, the bytes of a header, and the choice of the
-- directory.
use azure_dcap_client.Prelude.{
  ℕ, ◌+◌, ◌-◌, ◌%◌, ◌^◌, Bool, not, ◌∷◌, ◌++◌, Option, none, some, Bytes, codes, ltb, if◌then◌else◌,
  take, drop, is_empty, Outcome, ok, throw, runtime_error,
}
use azure_dcap_client.Hex.{format_as_hex_string}
use azure_dcap_client.Cache.Header.{CacheEntryHeaderV1, little_endian_bytes, little_endian_value}
use azure_dcap_client.Cache.Windows.Api.{Bcrypt}

abbrev pub max_retry : ℕ
max_retry = 10000

abbrev pub error_path_not_found : ℕ
error_path_not_found = 3

abbrev pub error_sharing_violation : ℕ
error_sharing_violation = 32

abbrev pub error_already_exists : ℕ
error_already_exists = 183

abbrev pub application_name : Bytes
application_name = codes "\\.az-dcap-client"

abbrev pub nt_success : ℕ → Bool
nt_success status = ltb status (2 ^ 31)

-- Each call is made after the one before has succeeded.
unfoldable pub sha256 : Bcrypt → Bytes → Outcome Bytes
unfolding format_as_hex_string
sha256 bcrypt input =
    let (hash_status, hash) = bcrypt.finish_hash bcrypt.get_property.1 input in
    if not (nt_success bcrypt.open_algorithm_provider)
    then throw runtime_error
    else if not (nt_success bcrypt.get_property.0)
    then throw runtime_error
    else if not (nt_success bcrypt.create_hash)
    then throw runtime_error
    else if not (nt_success (bcrypt.hash_data input))
    then throw runtime_error
    else if not (nt_success hash_status)
    then throw runtime_error
    else ok (format_as_hex_string (take bcrypt.get_property.1 hash))

-- `sizeof(CacheEntryHeaderV1)`: two bytes, six of padding, and a `time_t`.
abbrev pub header_size : ℕ
header_size = 16

unfoldable pub header_bytes : (ℕ → ℕ) → CacheEntryHeaderV1 → Bytes
header_bytes padding header =
    little_endian_bytes 2 header.version
    ++ (padding 0
        ∷ padding 1
        ∷ padding 2
        ∷ padding 3
        ∷ padding 4
        ∷ padding 5
        ∷ little_endian_bytes 8 header.expiry)

unfoldable pub header_of : Bytes → CacheEntryHeaderV1
header_of buffer = record {
  version = little_endian_value (take 2 buffer);
  expiry = little_endian_value (take 8 (drop 8 buffer));
}

-- `size - sizeof(CacheEntryHeaderV1)` in a `DWORD`.
unfoldable pub data_size_of : ℕ → ℕ
data_size_of size = (size + 2 ^ 32 - header_size) % 2 ^ 32

-- The directory of `init_callback`, from the values of `LOCALAPPDATA` and `AZDCAP_CACHE`.
unfoldable pub base_directory : Bytes → Bytes → Option Bytes
base_directory home cache =
    if not (is_empty cache)
    then some cache
    else if not (is_empty home)
    then some (home ++ codes "..\\..\\LocalLow")
    else none

-- The characters of "Deleting file failed, error code " and of its end. A text that begins behind
-- them reads what is not part of it.
abbrev pub delete_message_size : ℕ
delete_message_size = 34
