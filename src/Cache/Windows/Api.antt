-- ===== src/Cache/Windows/Api.antt =====
-- The calls of Windows that src/Windows/local_cache.cpp makes, as a parameter. `Os` is all that they
-- change: the files, the open handles, and the last error of the thread.
use azure_dcap_client.Hex.{format_as_hex_string}
use azure_dcap_client.Prelude.{
  In, codes, ◌∷◌, ℕ, ◌%◌, ◌^◌, ◌≡◌, ◌≢◌, Bool, true, false, List, [], ◌++◌, Option, none, some,
  Bytes, length, take, drop, is_some,
}

-- The calls of BCrypt in the order of the code, each with its `NTSTATUS` as 32 bits.
pub record Bcrypt : Type 0 where
  pub open_algorithm_provider : ℕ
  -- and the length of the hash
  pub get_property : ℕ × ℕ
  pub create_hash : ℕ
  pub hash_data : Bytes → ℕ
  -- and the bytes that are written to a buffer of the given size
  pub finish_hash : ℕ → Bytes → ℕ × Bytes

pub record WindowsApi : Type 1 where
  pub Os : Type 0
  pub bcrypt : Bcrypt
  -- The bytes of a `CacheEntryHeaderV1` that belong to none of its fields.
  pub padding : ℕ → ℕ
  -- Whether the first argument of a call is evaluated before the second: C++ leaves it open.
  pub left_to_right : Bool
  pub last_error : Os → ℕ
  pub sleep : Os → Os
  -- The text in a buffer of `MAX_PATH` characters that was zero before the call.
  pub get_environment_variable : Os → Bytes → Bytes × Os
  pub create_directory : Os → Bytes → Os
  -- `CreateFile` with `GENERIC_WRITE`, no sharing and `CREATE_ALWAYS`: whether it gives a handle.
  pub create_file_write : Os → Bytes → Bool × Os
  -- `CreateFile` with `GENERIC_READ`, `FILE_SHARE_READ` and `OPEN_EXISTING`.
  pub create_file_read : Os → Bytes → Bool × Os
  -- `WriteFile` through the handle that writes a path.
  pub write_file : Os → Bytes → Bytes → Bool × Os
  -- `ReadFile` of a path that is open, at an offset, of at most a number of bytes.
  pub read_file : Os → Bytes → ℕ → ℕ → Option Bytes
  -- The low-order 32 bits of the size of a path that is open.
  pub get_file_size : Os → Bytes → ℕ
  pub close_write : Os → Bytes → Os
  pub close_read : Os → Bytes → Os
  pub delete_file : Os → Bytes → Bool × Os
  -- The names that `FindFirstFile` and `FindNextFile` give for a pattern; none where the first fails.
  pub find_files : Os → Bytes → List Bytes

-- What the code relies on, while no other process changes the cache: `content` is what reading a
-- path gives, where it can be opened; `written` is what stands behind a handle that writes a path.
pub record WindowsLaws (W : WindowsApi) : Type 0 where
  pub content : W.Os → Bytes → Option Bytes
  pub written : W.Os → Bytes → Bytes
  pub sleep_content : (os : W.Os) (q : Bytes) → content (W.sleep os) q ≡ content os q
  pub sleep_written : (os : W.Os) (p : Bytes) → written (W.sleep os) p ≡ written os p
  pub environment_content :
      (os : W.Os) (name q : Bytes) → content (W.get_environment_variable os name).1 q ≡ content os q
  pub directory_content :
      (os : W.Os) (p q : Bytes) → content (W.create_directory os p) q ≡ content os q
  -- A path can be opened for reading just where it has a content.
  pub read_opens : (os : W.Os) (p : Bytes) → (W.create_file_read os p).0 ≡ is_some (content os p)
  pub read_content :
      (os : W.Os) (p q : Bytes) → content (W.create_file_read os p).1 q ≡ content os q
  pub close_read_content : (os : W.Os) (p q : Bytes) → content (W.close_read os p) q ≡ content os q
  pub read_file_lem :
      (os : W.Os) (p bytes : Bytes) (offset n : ℕ)
      → content os p ≡ some bytes
      → W.read_file os p offset n ≡ some (take n (drop offset bytes))
  pub get_file_size_lem :
      (os : W.Os) (p bytes : Bytes)
      → content os p ≡ some bytes
      → W.get_file_size os p ≡ length bytes % 2 ^ 32
  -- A file that is opened for writing is empty, and what is written to it is read once it is closed.
  pub write_opens :
      (os os' : W.Os) (p : Bytes) → W.create_file_write os p ≡ (true, os') → written os' p ≡ []
  pub write_file_lem :
      (os os' : W.Os) (p bytes : Bytes)
      → W.write_file os p bytes ≡ (true, os')
      → written os' p ≡ written os p ++ bytes
  pub close_write_lem :
      (os : W.Os) (p : Bytes) → content (W.close_write os p) p ≡ some (written os p)
  pub delete_file_lem :
      (os os' : W.Os) (p : Bytes) → W.delete_file os p ≡ (true, os') → content os' p ≡ none
  pub delete_file_fails :
      (os os' : W.Os) (p q : Bytes)
      → W.delete_file os p ≡ (false, os')
      → content os' q ≡ content os q
  -- No other file changes.
  pub write_opens_other :
      (os : W.Os) (p q : Bytes) → p ≢ q → content (W.create_file_write os p).1 q ≡ content os q
  pub write_file_other :
      (os : W.Os) (p bytes q : Bytes) → p ≢ q → content (W.write_file os p bytes).1 q ≡ content os q
  pub close_write_other :
      (os : W.Os) (p q : Bytes) → p ≢ q → content (W.close_write os p) q ≡ content os q
  pub delete_file_other :
      (os : W.Os) (p q : Bytes) → p ≢ q → content (W.delete_file os p).1 q ≡ content os q
  -- The directory of the cache can be searched, so that every file in it that can be read and whose
  -- name is a hexadecimal text is found.
  pub find_files_lem :
      (os : W.Os) (directory digest bytes : Bytes)
      → content os (directory ++ b'\\' ∷ format_as_hex_string digest) ≡ some bytes
      → In (format_as_hex_string digest) (W.find_files os (directory ++ codes "\\*"))
