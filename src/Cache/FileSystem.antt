-- ===== src/Cache/FileSystem.antt =====
-- The POSIX calls that src/Linux/local_cache.cpp makes, as a parameter. A call that is interrupted
-- is repeated by the code until it is not (`RETRY_ON_EINTR`): these are the results after that.
use azure_dcap_client.Hex.{format_as_hex_string}
use azure_dcap_client.Prelude.{
  ℕ, suc, length, take, ◌∷◌, In, ◌≡◌, ◌≢◌, ◌⊎◌, inl, inr, refl, Bool, List, [], ◌++◌, Option, some,
  Bytes,
}

-- What opening a path with `O_RDONLY`, locking it with `LOCK_SH` and reading it to its end gives.
pub data FileView : Type 0 where
  cannot_open cannot_read : FileView
  readable : Bytes → FileView

-- The type flags of `nftw`.
pub data TypeFlag : Type 0 where
  ftw_f ftw_sl ftw_sln ftw_dp ftw_d ftw_dnr ftw_ns : TypeFlag

pub record FileSystem : Type 1 where
  pub Files : Type 0
  pub view : Files → Bytes → FileView
  -- `stat`: whether the path is a directory, or `none` for an error.
  pub stat : Files → Bytes → Option Bool
  pub mkdir : Files → Bytes → Option Files
  -- `open` with `O_CREAT | O_WRONLY` and `flock` with `LOCK_EX`.
  pub open_write : Files → Bytes → Option Files
  -- `ftruncate` to 0, and `write` at the offset of the descriptor, of a path so opened: `write`
  -- returns the number of bytes that it has written.
  pub truncate : Files → Bytes → Option Files
  pub write : Files → Bytes → Bytes → Option (ℕ × Files)
  pub unlink : Files → Bytes → Option Files
  pub rmdir : Files → Bytes → Option Files
  -- The calls of its callback that `nftw` with `FTW_DEPTH` makes below a directory: path, type flag
  -- and level.
  pub nftw : Files → Bytes → List (Bytes × TypeFlag × ℕ)
  -- A descriptor that has been truncated stands at the end of an empty file.
  pub truncate_lem : (f f' : Files) (p : Bytes) → truncate f p ≡ some f' → view f' p ≡ readable []
  -- The bytes that are written stand behind what has been written through the descriptor.
  pub write_lem :
      (f f' : Files) (p old bytes : Bytes) (n : ℕ)
      → write f p bytes ≡ some (n, f')
      → view f p ≡ readable old
      → view f' p ≡ readable (old ++ take n bytes)
  -- No other file changes.
  pub open_write_other :
      (f f' : Files) (p q : Bytes) → open_write f p ≡ some f' → p ≢ q → view f' q ≡ view f q
  pub truncate_other :
      (f f' : Files) (p q : Bytes) → truncate f p ≡ some f' → p ≢ q → view f' q ≡ view f q
  pub write_other :
      (f f' : Files) (p q bytes : Bytes) (n : ℕ)
      → write f p bytes ≡ some (n, f')
      → p ≢ q
      → view f' q ≡ view f q
  pub unlink_other :
      (f f' : Files) (p q : Bytes) → unlink f p ≡ some f' → p ≢ q → view f' q ≡ view f q
  pub rmdir_other :
      (f f' : Files) (p q : Bytes) → rmdir f p ≡ some f' → p ≢ q → view f' q ≡ view f q
  -- A name that has been removed cannot be opened.
  pub unlink_lem : (f f' : Files) (p : Bytes) → unlink f p ≡ some f' → view f' p ≡ cannot_open
  pub rmdir_lem : (f f' : Files) (p : Bytes) → rmdir f p ≡ some f' → view f' p ≡ cannot_open
  -- The directory of the cache can be read, so that a traversal comes, below the root, by every file
  -- that can be read and whose name is a hexadecimal text, with a path to that file.
  pub nftw_lem :
      (f : Files) (dirname digest bytes : Bytes)
      → view f (dirname ++ b'/' ∷ format_as_hex_string digest) ≡ readable bytes
      → (path : Bytes) × (flag : TypeFlag) × (above : ℕ) × In
          (path, flag, suc above)
          (nftw f dirname)
        × ((f' : Files)
            → view f' path ≡ cannot_open
            → view f' (dirname ++ b'/' ∷ format_as_hex_string digest) ≡ cannot_open)

-- No write is short. POSIX lets a `write` write less than it is given, for example on a full disk.
abbrev pub WritesWhole : FileSystem → Type 0
WritesWhole F =
    (f f' : F.Files) (p bytes : Bytes) (n : ℕ) → F.write f p bytes ≡ some (n, f') → n ≡ length bytes

pub FileView-cases :
    (v : FileView) → (v ≡ cannot_open) ⊎ (v ≡ cannot_read) ⊎ ((b : Bytes) × (v ≡ readable b))
FileView-cases cannot_open = inl refl
FileView-cases cannot_read = inr (inl refl)
FileView-cases (readable b) = inr (inr (b, refl))
