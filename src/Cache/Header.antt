-- ===== src/Cache/Header.antt =====
-- `CacheEntryHeaderV1` of src/Linux/local_cache.cpp as bytes: packed, and little-endian as on the
-- machines that have SGX. A `time_t` is its 64-bit pattern.
use azure_dcap_client.Prelude.{
  ℕ, zero, suc, ◌+◌, ◌-◌, ◌*◌, ◌/◌, ◌%◌, ◌^◌, ◌<◌, ◌≤◌, ◌≡◌, refl, arith, Bool, true, ◌||◌, [], ◌∷◌,
  ◌++◌, Bytes, leb, lt→leb, length, take, drop, replicate,
}

pub record CacheEntryHeaderV1 : Type 0 where
  pub version : ℕ
  pub expiry : ℕ

abbrev pub cache_v1 : ℕ
cache_v1 = 1

abbrev pub little_endian_bytes : ℕ → ℕ → Bytes
little_endian_bytes zero x = []
little_endian_bytes (suc n) x = x % 256 ∷ little_endian_bytes n (x / 256)

abbrev pub little_endian_value : Bytes → ℕ
little_endian_value [] = 0
little_endian_value (b ∷ bs) = b + 256 * little_endian_value bs

-- `sizeof(CacheEntryHeaderV1)`
abbrev pub header_size : ℕ
header_size = 10

unfoldable pub header_bytes : CacheEntryHeaderV1 → Bytes
header_bytes header = little_endian_bytes 2 header.version ++ little_endian_bytes 8 header.expiry

-- A buffer of `n` zero bytes after a `read` of at most `n` bytes from a file that holds `bytes`.
unfoldable pub read_into : ℕ → Bytes → Bytes
read_into n bytes = take n bytes ++ replicate (n - length bytes) 0

unfoldable pub read_header : Bytes → CacheEntryHeaderV1
unfolding read_into
read_header bytes =
    let buffer = read_into header_size bytes in
    record {
      version = little_endian_value (take 2 buffer);
      expiry = little_endian_value (take 8 (drop 2 buffer));
    }

-- `header.expiry <= time(nullptr)` for a signed `time_t` and a time after the Epoch.
unfoldable pub is_expired : CacheEntryHeaderV1 → ℕ → Bool
is_expired header now = leb (2 ^ 63) header.expiry || leb header.expiry now

pub little_endian_value-bytes :
    (x : ℕ) → x < 2 ^ 64 → little_endian_value (little_endian_bytes 8 x) ≡ x
little_endian_value-bytes x h = omega arith

-- The header that is read from the start of an entry is the one that was written, where its fields
-- fit the types that they are written as.
pub read_header-header_bytes :
    (header : CacheEntryHeaderV1) (rest : Bytes)
    → header.version < 2 ^ 16
    → header.expiry < 2 ^ 64
    → read_header (header_bytes header ++ rest) ≡ header
unfolding read_header header_bytes read_into
read_header-header_bytes header rest hv he =
    λ i. record { version = (ver i); expiry = little_endian_value-bytes header.expiry he i }
  where
    ver : little_endian_value (little_endian_bytes 2 header.version) ≡ header.version
    ver = omega arith

-- The file of an entry.
abbrev pub entry_bytes : ℕ → Bytes → Bytes
entry_bytes expiry bytes = header_bytes (record { version = cache_v1; expiry = expiry }) ++ bytes

pub length-entry_bytes :
    (expiry : ℕ) (bytes : Bytes) → length (entry_bytes expiry bytes) ≡ length bytes + 10
unfolding header_bytes
length-entry_bytes expiry bytes = omega arith

pub drop-entry_bytes : (expiry : ℕ) (bytes : Bytes) → drop 10 (entry_bytes expiry bytes) ≡ bytes
unfolding header_bytes
drop-entry_bytes expiry bytes = refl

-- An entry is read as expired from its expiration time on, and not before.
pub is_expired-entry_bytes :
    (expiry now : ℕ) (bytes : Bytes)
    → expiry < 2 ^ 63
    → is_expired (read_header (entry_bytes expiry bytes)) now ≡ leb expiry now
unfolding is_expired
is_expired-entry_bytes expiry now bytes h = rw (
  read_header-header_bytes (record { version = cache_v1; expiry = expiry }) bytes (omega arith)
      (omega arith),
  lt→leb (2 ^ 63) expiry h,
)

-- An entry that has expired stays expired.
pub is_expired-later :
    (header : CacheEntryHeaderV1) (now later : ℕ)
    → now ≤ later
    → is_expired header now ≡ true
    → is_expired header later ≡ true
unfolding is_expired
is_expired-later header now later le e = ground arith
