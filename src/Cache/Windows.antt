-- ===== src/Cache/Windows.antt =====
-- src/Windows/local_cache.cpp over the calls of Windows. Texts of wide characters are their codes.
pub mod Format
pub mod Api
pub mod Open
pub mod Result
pub mod Entries
pub mod Init
pub mod Entry
pub mod Reading
pub mod Laws
pub mod Refinement
pub mod Clear
pub mod Cleared
use azure_dcap_client.Cache.Windows.Format.{
  application_name, base_directory, data_size_of, delete_message_size, error_already_exists,
  error_path_not_found, error_sharing_violation, header_bytes, header_of, header_size, max_retry,
  nt_success, sha256,
}
use azure_dcap_client.Prelude.{
  ℕ, zero, suc, ◌+◌, ◌-◌, ◌%◌, ◌^◌, Bool, true, false, not, ◌&&◌, ◌||◌, List, [], ◌∷◌, ◌++◌, Option,
  none, some, Bytes, codes, ltb, ◌==◌, bytes_eq, if◌then◌else◌, length, take, drop, is_empty,
  Action, Outcome, ok, throw, fault, ⊤, pure, raise, gets, modify, raise_if, ◌>>=◌, ◌>>◌,
  runtime_error,
}
use azure_dcap_client.Hex.{format_as_hex_string}
use azure_dcap_client.Cache.Header.{
  CacheEntryHeaderV1, cache_v1, little_endian_bytes, little_endian_value, is_expired,
}
use azure_dcap_client.Cache.Windows.Api.{Bcrypt, WindowsApi}

module _ (W : WindowsApi) where
  -- The system, and `g_cache_dirname`.
  pub record CacheStore : Type 0 where
    pub os : W.Os
    pub cache_dirname : Bytes

  -- The result of `CreateDirectory` is not read; the last error is, whoever has set it.
  unfoldable pub make_dir : Bytes → Action CacheStore ⊤
  make_dir dirname s =
      let os = W.create_directory s.os dirname in
      (
        if W.last_error os == error_path_not_found && not (W.last_error os == error_already_exists)
            then throw runtime_error
            else ok tt,
        record s { os = os },
      )

  unfoldable pub init_callback : Action CacheStore ⊤
  unfolding base_directory make_dir
  init_callback s =
      let (home, os1) = W.get_environment_variable s.os (codes "LOCALAPPDATA") in
      let (cache, os2) = W.get_environment_variable os1 (codes "AZDCAP_CACHE") in
      let s2 = record s { os = os2 } in
      elim (base_directory home cache) [
        | none ↦ (throw runtime_error, s2)
        | some directory ↦
            let dirname = directory ++ application_name in
            (make_dir dirname >> modify (λ t. record t { cache_dirname = dirname })) s2
      ]

  -- A callback that throws is called again by the next call.
  unfoldable pub init : Action CacheStore ⊤
  unfolding init_callback
  init s = let first = init_callback s in if is_empty s.cache_dirname then first else (ok tt, s)

  unfoldable pub get_file_name : CacheStore → Bytes → Outcome Bytes
  unfolding sha256
  get_file_name s id = elim (sha256 W.bcrypt id) [
    | ok name ↦ ok (s.cache_dirname ++ b'\\' ∷ name)
    | throw e ↦ throw e
    | fault ↦ fault
  ]

  -- The loop of `OpenHandle`, with a number of attempts left behind the next one.
  unfoldable pub open_attempts : (W.Os → Bool × W.Os) → ℕ → W.Os → Bool × W.Os
  open_attempts attempt zero os = let (opened, os1) = attempt os in (opened, W.sleep os1)
  open_attempts attempt (suc left) os =
      let (opened, os1) = attempt os in
      let os2 = W.sleep os1 in
      elim opened [
        | true ↦ (true, os2)
        | false ↦ elim (W.last_error os2 == error_sharing_violation) [
          | true ↦ open_attempts attempt left os2
          | false ↦ (false, os2)
        ]
      ]

  unfoldable pub open_handle : (W.Os → Bool × W.Os) → W.Os → Bool × W.Os
  unfolding open_attempts
  open_handle attempt = open_attempts attempt (max_retry - 1)

  -- The part of `local_cache_add` on the file, which is closed however the call ends.
  unfoldable pub write_entry : Bytes → ℕ → Bytes → Action CacheStore ⊤
  unfolding open_handle header_bytes
  write_entry file_name expiry bytes s =
      let header = header_bytes W.padding (record { version = cache_v1; expiry = expiry }) in
      let (opened, os1) = open_handle (λ os. W.create_file_write os file_name) s.os in
      let (header_done, os2) = W.write_file os1 file_name header in
      let (data_done, os3) = W.write_file os2 file_name (take (length bytes % 2 ^ 32) bytes) in
      if not opened
      then (throw runtime_error, record s { os = os1 })
      else if not header_done
      then (throw runtime_error, record s { os = W.close_write os2 file_name })
      else if not data_done
      then (throw runtime_error, record s { os = W.close_write os3 file_name })
      else (ok tt, record s { os = W.close_write os3 file_name })

  -- `local_cache_add` with a data pointer that is not null.
  unfoldable pub local_cache_add : Bytes → ℕ → Bytes → Action CacheStore ⊤
  unfolding init get_file_name write_entry
  local_cache_add id expiry bytes = do
    raise_if (is_empty id) runtime_error
    raise_if (length bytes == 0) runtime_error
    init
    file_name ← (λ s. (get_file_name s id, s))
    write_entry file_name expiry bytes

  -- `none` where `ReadFile` fails or reads less than a header.
  unfoldable pub read_header : W.Os → Bytes → Option CacheEntryHeaderV1
  unfolding header_of
  read_header os file_name = elim (W.read_file os file_name 0 header_size) [
    | none ↦ none
    | some buffer ↦ if length buffer == header_size then some (header_of buffer) else none
  ]

  unfoldable pub read_data : W.Os → Bytes → Outcome (Option Bytes)
  unfolding data_size_of
  read_data os file_name =
      let data_size = data_size_of (W.get_file_size os file_name) in
      elim (W.read_file os file_name header_size data_size) [
        | none ↦ throw runtime_error
        | some bytes ↦ if length bytes == data_size then ok (some bytes) else throw runtime_error
      ]

  -- The part of `local_cache_get` on the file of the entry. Whether `DeleteFileW` fails does not
  -- matter.
  unfoldable pub load_entry : ℕ → Bytes → Action CacheStore (Option Bytes)
  unfolding open_handle read_header is_expired read_data
  load_entry now file_name s =
      let (opened, os1) = open_handle (λ os. W.create_file_read os file_name) s.os in
      let closed = W.close_read os1 file_name in
      if not opened then (ok none, record s { os = os1 }) else elim (read_header os1 file_name) [
        | none ↦ (throw runtime_error, record s { os = closed })
        | some header ↦
            if is_expired header now
            then (ok none, record s { os = (W.delete_file closed file_name).1 })
            else (read_data os1 file_name, record s { os = closed })
      ]

  unfoldable pub local_cache_get : ℕ → Bytes → Action CacheStore (Option Bytes)
  unfolding init get_file_name load_entry
  local_cache_get now id = do
    raise_if (is_empty id) runtime_error
    init
    file_name ← (λ s. (get_file_name s id, s))
    load_entry now file_name

  -- `throw_if(!DeleteFileW(...), "Deleting file failed, error code " + GetLastError())`: the text is
  -- made whether or not the file was deleted.
  unfoldable pub delete_entry : Bytes → Action CacheStore ⊤
  delete_entry path s =
      let (deleted, os) = W.delete_file s.os path in
      let last_error = W.last_error (if W.left_to_right then os else s.os) in
      (
        if not (ltb last_error delete_message_size)
            then fault
            else if not deleted
            then throw runtime_error
            else ok tt,
        record s { os = os },
      )

  unfoldable pub delete_entries : List Bytes → Action CacheStore ⊤
  unfolding delete_entry
  delete_entries [] = pure tt
  delete_entries (name ∷ names) =
      if bytes_eq name (codes ".") || bytes_eq name (codes "..") then delete_entries names else (do
        base ← gets (λ s. s.cache_dirname)
        delete_entry (base ++ b'\\' ∷ name)
        delete_entries names)

  unfoldable pub local_cache_clear : Action CacheStore ⊤
  unfolding init delete_entries
  local_cache_clear = do
    init
    s ← gets (λ s. s)
    delete_entries (W.find_files s.os (s.cache_dirname ++ codes "\\*"))
