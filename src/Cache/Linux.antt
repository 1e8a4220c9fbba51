-- ===== src/Cache/Linux.antt =====
-- src/Linux/local_cache.cpp over a file system, the environment variables and the SHA-256 digest of
-- OpenSSL.
pub mod Init
pub mod Entries
pub mod Reading
pub mod Laws
pub mod Refinement
pub mod Clear
pub mod Sharing
use azure_dcap_client.Prelude.{
  ℕ, ◌+◌, ◌-◌, ◌*◌, ◌%◌, ◌^◌, Bool, true, false, not, List, [], ◌∷◌, ◌++◌, Option, none, some,
  Bytes, codes, leb, ltb, ◌==◌, if◌then◌else◌, length, take, drop, is_empty, Action, Outcome, ok,
  throw, fault, ⊤, pure, raise, crash, gets, modify, raise_if, ◌>>=◌, ◌>>◌, runtime_error,
  other_exception,
}
use azure_dcap_client.Hex.{format_as_hex_string}
use azure_dcap_client.Cache.FileSystem.{
  FileSystem, FileView, cannot_open, cannot_read, readable, TypeFlag, ftw_f, ftw_sl, ftw_sln,
  ftw_dp, ftw_d, ftw_dnr, ftw_ns,
}
use azure_dcap_client.Cache.Header.{
  CacheEntryHeaderV1, cache_v1, header_size, header_bytes, read_into, read_header, is_expired,
}

-- `cache_locations`
abbrev pub load_cache_locations : (Bytes → Option Bytes) → List (Option Bytes)
load_cache_locations getenv =
    getenv (codes "AZDCAP_CACHE")
    ∷ getenv (codes "XDG_CACHE_HOME")
    ∷ getenv (codes "HOME")
    ∷ getenv (codes "TMPDIR")
    ∷ some (codes "/tmp/")
    ∷ []

abbrev pub application_name : Bytes
application_name = codes "/.az-dcap-client/"

-- The loop of `init_callback`: the first location that is set and not empty.
unfoldable pub first_location : List (Option Bytes) → Option Bytes
first_location [] = none
first_location (none ∷ locations) = first_location locations
first_location (some [] ∷ locations) = first_location locations
first_location (some (c ∷ s) ∷ locations) = some (c ∷ s)

-- An `int` with the bit pattern of a file offset.
abbrev pub as_int : ℕ → ℕ
as_int offset = offset % 2 ^ 32

-- `end_of_data - start_of_data` in `int`.
unfoldable pub data_size_of : ℕ → ℕ → ℕ
data_size_of start_of_data end_of_data =
    (as_int end_of_data + 2 ^ 32 - as_int start_of_data) % 2 ^ 32

-- What `local_cache_get` returns behind the test of the expiration time, from the file's bytes. A
-- negative size is refused by the constructor of `std::vector`.
unfoldable pub read_entry : Bytes → Outcome (Option Bytes)
unfolding data_size_of read_into
read_entry bytes =
    let start_of_data = if ltb (length bytes) header_size then length bytes else header_size in
    let data_size = data_size_of start_of_data (length bytes) in
    if leb (2 ^ 31) data_size
    then throw other_exception
    else ok (some (read_into data_size (drop start_of_data bytes)))

module _ (F : FileSystem) (getenv : Bytes → Option Bytes) (digest : Bytes → Bytes) where
  -- The files, and `g_cache_dirname`.
  pub record CacheStore : Type 0 where
    pub files : F.Files
    pub cache_dirname : Bytes

  -- A call that fails makes `file::fail` throw, or `throw_errno` where it is called directly.
  abbrev pub or_throw : (F.Files → Option F.Files) → Action CacheStore ⊤
  or_throw call s = elim (call s.files) [
    | none ↦ (throw runtime_error, s)
    | some files ↦ (ok tt, record s { files = files })
  ]

  -- `file::write` does not look at the number of bytes that were written.
  abbrev pub without_count : Option (ℕ × F.Files) → Option F.Files
  without_count none = none
  without_count (some (n, files)) = some files

  unfoldable pub make_dir : Bytes → Action CacheStore ⊤
  make_dir dirname s = elim (F.stat s.files dirname) [
    | some true ↦ (ok tt, s)
    | some false ↦ (throw runtime_error, s)
    | none ↦ or_throw (λ files. F.mkdir files dirname) s
  ]

  -- Behind the loop the code appends null pointers to a text.
  unfoldable pub init_callback : Action CacheStore ⊤
  unfolding first_location make_dir
  init_callback = elim (first_location (load_cache_locations getenv)) [
    | none ↦ crash
    | some location ↦
        let dirname = location ++ application_name in
        make_dir dirname >> modify (λ s. record s { cache_dirname = dirname })
  ]

  unfoldable pub init : Action CacheStore ⊤
  unfolding init_callback
  init s = let first = init_callback s in if is_empty s.cache_dirname then first else (ok tt, s)

  unfoldable pub sha256 : Bytes → Bytes
  unfolding format_as_hex_string
  sha256 input = format_as_hex_string (digest input)

  unfoldable pub get_file_name : CacheStore → Bytes → Bytes
  unfolding sha256
  get_file_name s id = s.cache_dirname ++ b'/' ∷ sha256 id

  -- The part of `local_cache_add` on the file of the entry.
  unfoldable pub write_entry : Bytes → ℕ → Bytes → Action CacheStore ⊤
  unfolding header_bytes
  write_entry file_name expiry bytes = do
    or_throw (λ files. F.open_write files file_name)
    or_throw (λ files. F.truncate files file_name)
    or_throw (λ files.
        without_count
          (F.write files file_name (header_bytes (record { version = cache_v1; expiry = expiry }))))
    or_throw (λ files. without_count (F.write files file_name bytes))

  -- `local_cache_add` with a data pointer that is not null.
  unfoldable pub local_cache_add : Bytes → ℕ → Bytes → Action CacheStore ⊤
  unfolding init get_file_name write_entry
  local_cache_add id expiry bytes = do
    raise_if (is_empty id) runtime_error
    raise_if (length bytes == 0) runtime_error
    init
    file_name ← gets (λ s. get_file_name s id)
    write_entry file_name expiry bytes

  -- The part of `local_cache_get` on the file of the entry. Whether `unlink` fails does not matter.
  unfoldable pub load_entry : ℕ → Bytes → Action CacheStore (Option Bytes)
  unfolding read_header is_expired read_entry
  load_entry now file_name s = elim (F.view s.files file_name) [
    | cannot_open ↦ (ok none, s)
    | cannot_read ↦ (throw runtime_error, s)
    | readable bytes ↦
        if is_expired (read_header bytes) now
        then (
          ok none,
          elim (F.unlink s.files file_name) [ none ↦ s | some files ↦ record s { files = files } ],
        )
        else (read_entry bytes, s)
  ]

  unfoldable pub local_cache_get : ℕ → Bytes → Action CacheStore (Option Bytes)
  unfolding init get_file_name load_entry
  local_cache_get now id = do
    raise_if (is_empty id) runtime_error
    init
    file_name ← gets (λ s. get_file_name s id)
    load_entry now file_name

  -- `delete_path`: `none` where it returns a value that is not 0.
  unfoldable pub delete_path : F.Files → Bytes → TypeFlag → ℕ → Option F.Files
  delete_path files path flag level = if level == 0 then some files else elim flag [
    | ftw_sl ↦ F.unlink files path
    | ftw_sln ↦ F.unlink files path
    | ftw_f ↦ F.unlink files path
    | ftw_dp ↦ F.rmdir files path
    | ftw_d ↦ none
    | ftw_dnr ↦ none
    | ftw_ns ↦ none
  ]

  -- `nftw` stops at the first call that does not return 0.
  unfoldable pub delete_paths : List (Bytes × TypeFlag × ℕ) → F.Files → F.Files × Bool
  unfolding delete_path
  delete_paths [] files = (files, true)
  delete_paths ((path, flag, level) ∷ entries) files = elim (delete_path files path flag level) [
    | none ↦ (files, false)
    | some files' ↦ delete_paths entries files'
  ]

  unfoldable pub local_cache_clear : Action CacheStore ⊤
  unfolding init delete_paths
  local_cache_clear = do
    init
    s ← gets (λ s. s)
    let result = delete_paths (F.nftw s.files s.cache_dirname) s.files
    modify (λ s. record s { files = result.0 })
    raise_if (not result.1) runtime_error
