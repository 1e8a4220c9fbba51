-- ===== src/Cache/Windows/Reading.antt =====
-- What a look-up of src/Windows/local_cache.cpp returns for a file of the format of an entry.
use azure_dcap_client.Prelude.{
  ℕ, ◌+◌, ◌*◌, ◌%◌, length-take, ◌^◌, ◌≤◌, ◌<◌, ◌≡◌, refl, arith, ◌∷◌, ◌++◌, Bytes, Option, none,
  some, Outcome, ok, throw, runtime_error, ◌∙◌, ==_iff, length, take-length,
}
use azure_dcap_client.Cache.Header.{little_endian_bytes, little_endian_value-bytes}
use azure_dcap_client.Cache.Windows.{CacheStore, load_entry}
use azure_dcap_client.Cache.Windows.Api.{WindowsApi, WindowsLaws}
use azure_dcap_client.Cache.Windows.Entry.{is_expired-lt, is_expired-le}
use azure_dcap_client.Cache.Windows.Format.{header_of, data_size_of}
use azure_dcap_client.Cache.Windows.Result.{
  header_in, data_in, result_of, result_short, result_late, result_live, load_entry_result,
}

-- A file as the format has it: two bytes of the version, six of padding, eight of the expiration time
-- with the low byte first, and the data.
abbrev pub entry_file : ℕ → ℕ → (ℕ → ℕ) → ℕ → Bytes → Bytes
entry_file v w padding expiry bytes =
    v
    ∷ w
    ∷ padding 0
    ∷ padding 1
    ∷ padding 2
    ∷ padding 3
    ∷ padding 4
    ∷ padding 5
    ∷ (little_endian_bytes 8 expiry ++ bytes)

-- What a look-up at a time is to return for what a file holds, `none` for a file that is not there.
pub data Answers (now : ℕ) : Option Bytes → Outcome (Option Bytes) → Type 0 where
  no_file : Answers now none (ok none)
  too_short : (bytes : Bytes) → length bytes < 16 → Answers now (some bytes) (throw runtime_error)
  stale :
      (v w : ℕ) (padding : ℕ → ℕ) (expiry : ℕ) (bytes : Bytes)
      → expiry < 2 ^ 63
      → expiry ≤ now
      → Answers now (some (entry_file v w padding expiry bytes)) (ok none)
  live :
      (v w : ℕ) (padding : ℕ → ℕ) (expiry : ℕ) (bytes : Bytes)
      → expiry < 2 ^ 63
      → now < expiry
      → length bytes + 16 < 2 ^ 32
      → Answers now (some (entry_file v w padding expiry bytes)) (ok (some bytes))

header_in_short : (bytes : Bytes) → length bytes < 16 → header_in bytes ≡ none
unfolding header_in
header_in_short bytes h = ground (arith, length-take 16 bytes)

header_in_file :
    (v w : ℕ) (padding : ℕ → ℕ) (expiry : ℕ) (bytes : Bytes)
    → expiry < 2 ^ 63
    → header_in (entry_file v w padding expiry bytes)
      ≡ some (record { version = v + 256 * (w + 256 * 0); expiry = expiry })
unfolding header_in header_of
header_in_file v w padding expiry bytes small = λ i. some (record {
  version = v + 256 * (w + 256 * 0);
  expiry = little_endian_value-bytes expiry (omega arith) i;
})

data_in_file :
    (v w : ℕ) (padding : ℕ → ℕ) (expiry : ℕ) (bytes : Bytes)
    → length bytes + 16 < 2 ^ 32
    → data_in (entry_file v w padding expiry bytes) ≡ ok (some bytes)
unfolding data_in data_size_of
data_in_file v w padding expiry bytes fits =
    let size : data_size_of (length (entry_file v w padding expiry bytes) % 2 ^ 32) ≡ length bytes =
      omega arith in
    rw (size, take-length bytes, (==_iff (length bytes) (length bytes)).1 refl) refl

result_of_file :
    (now : ℕ) (file : Option Bytes) (r : Outcome (Option Bytes))
    → Answers now file r
    → result_of now file ≡ r
unfolding result_of
result_of_file now file r no_file = refl
result_of_file now file r (too_short bytes h) = result_short now bytes (header_in_short bytes h)
result_of_file now file r (stale v w padding expiry bytes small late) =
    result_late now (entry_file v w padding expiry bytes) _
      (header_in_file v w padding expiry bytes small) (is_expired-le _ expiry now late small)
result_of_file now file r (live v w padding expiry bytes small early fits) =
    result_live now (entry_file v w padding expiry bytes) _
      (header_in_file v w padding expiry bytes small) (is_expired-lt _ expiry now early small)
    ∙ data_in_file v w padding expiry bytes fits

module _ (W : WindowsApi) (L : WindowsLaws W) where
  -- Where the calls of Windows do what they document and no other process changes the cache, the part
  -- of a look-up on the file returns nothing where there is no file; it throws an exception where the
  -- file has fewer than 16 bytes; and where the file has the format of an entry, with an expiration
  -- time below 2^63, it returns nothing if that time has come, and otherwise all the data behind the
  -- header, if the file has fewer than 2^32 bytes.
  pub load_entry_lem :
      (now : ℕ) (p : Bytes) (s : CacheStore W) (r : Outcome (Option Bytes))
      → Answers now (L.content s.os p) r
      → (load_entry W now p s).0 ≡ r
  load_entry_lem now p s r a =
      load_entry_result W L now p s ∙ result_of_file now (L.content s.os p) r a
