-- ===== src/Cache/Linux/Clear.antt =====
-- `delete_path` and `local_cache_clear` of src/Linux/local_cache.cpp.
use azure_dcap_client.Prelude.{
  ℕ, zero, suc, ◌≡◌, ◌≢◌, arith, sym, ap, ◌∙◌, Bool-cases, Option-cases, true, false, not, List, [],
  ◌∷◌, Option, some, Bytes, In, first, behind, inl, inr, bytes_eq, bytes_eq_sound, bytes_eq_refl,
  Action, ok, ⊤, gets, modify, raise_if, runtime_error, ◌>>=◌, ◌>>◌, >>=-ok,
}
use azure_dcap_client.Cache.FileSystem.{
  FileSystem, cannot_open, readable, TypeFlag, ftw_f, ftw_sl, ftw_sln, ftw_dp, ftw_d, ftw_dnr,
  ftw_ns,
}
use azure_dcap_client.Cache.Linux.{
  CacheStore, init, get_file_name, sha256, local_cache_clear, delete_path, delete_paths,
}

-- The flags that end a traversal with an error, below the root.
abbrev pub IsRefused : TypeFlag → Type 0
IsRefused ftw_d = Unit
IsRefused ftw_dnr = Unit
IsRefused ftw_ns = Unit
IsRefused flag = ⊥

module _ (F : FileSystem) (getenv : Bytes → Option Bytes) (digest : Bytes → Bytes) where
  abbrev Store : Type 0
  Store = CacheStore F getenv digest

  -- What a deletion leaves: its path cannot be opened, and the others are as they were.
  delete_path_lem :
      (files files' : F.Files) (path : Bytes) (flag : TypeFlag) (above : ℕ)
      → delete_path F getenv digest files path flag (suc above) ≡ some files'
      → (F.view files' path ≡ cannot_open)
        × ((q : Bytes) → path ≢ q → F.view files' q ≡ F.view files q)
  unfolding delete_path
  delete_path_lem files files' path ftw_sl above h =
      let e : F.unlink files path ≡ some files' = ground (arith, h) in
      (F.unlink_lem files files' path e, λ q ne. F.unlink_other files files' path q e ne)
  delete_path_lem files files' path ftw_sln above h =
      let e : F.unlink files path ≡ some files' = ground (arith, h) in
      (F.unlink_lem files files' path e, λ q ne. F.unlink_other files files' path q e ne)
  delete_path_lem files files' path ftw_f above h =
      let e : F.unlink files path ≡ some files' = ground (arith, h) in
      (F.unlink_lem files files' path e, λ q ne. F.unlink_other files files' path q e ne)
  delete_path_lem files files' path ftw_dp above h =
      let e : F.rmdir files path ≡ some files' = ground (arith, h) in
      (F.rmdir_lem files files' path e, λ q ne. F.rmdir_other files files' path q e ne)
  delete_path_lem files files' path ftw_d above h = absurd (ground (arith, h))
  delete_path_lem files files' path ftw_dnr above h = absurd (ground (arith, h))
  delete_path_lem files files' path ftw_ns above h = absurd (ground (arith, h))

  delete_path_root :
      (files files' : F.Files) (path : Bytes) (flag : TypeFlag)
      → delete_path F getenv digest files path flag 0 ≡ some files'
      → files ≡ files'
  unfolding delete_path
  delete_path_root files files' path flag h = ground arith

  delete_path_keeps :
      (files files' : F.Files) (path q : Bytes) (flag : TypeFlag) (level : ℕ)
      → delete_path F getenv digest files path flag level ≡ some files'
      → F.view files q ≡ cannot_open
      → F.view files' q ≡ cannot_open
  delete_path_keeps files files' path q flag zero h gone =
      rw (sym (delete_path_root files files' path flag h)) gone
  delete_path_keeps files files' path q flag (suc above) h gone =
      let (own, others) = delete_path_lem files files' path flag above h in
      elim (Bool-cases (bytes_eq path q)) [
        | inl same ↦ rw (sym (bytes_eq_sound path q same)) own
        | inr apart ↦ others q (λ e. cc (apart, bytes_eq_refl q, e)) ∙ gone
      ]

  delete_paths_first :
      (files files' : F.Files) (path : Bytes) (flag : TypeFlag) (level : ℕ)
      (entries : List (Bytes × TypeFlag × ℕ))
      → delete_paths F getenv digest ((path, flag, level) ∷ entries) files ≡ (files', true)
      → (files1 : F.Files) × (delete_path F getenv digest files path flag level ≡ some files1)
        × (delete_paths F getenv digest entries files1 ≡ (files', true))
  unfolding delete_paths
  delete_paths_first files files' path flag level entries h =
      elim (Option-cases (delete_path F getenv digest files path flag level)) [
        | inl failed ↦ absurd (ground (arith, failed, h))
        | inr (files1, done) ↦ (files1, done, ground (arith, done, h))
      ]

  delete_paths_keep :
      (entries : List (Bytes × TypeFlag × ℕ)) (files files' : F.Files) (q : Bytes)
      → delete_paths F getenv digest entries files ≡ (files', true)
      → F.view files q ≡ cannot_open
      → F.view files' q ≡ cannot_open
  unfolding delete_paths
  delete_paths_keep [] files files' q h gone =
      let same : files ≡ files' = ap (λ x. x.0) h in rw (sym same) gone
  delete_paths_keep ((path, flag, level) ∷ entries) files files' q h gone =
      let (files1, done, rest) = delete_paths_first files files' path flag level entries h in
      delete_paths_keep entries files1 files' q rest
        (delete_path_keeps files files1 path q flag level done gone)

  -- Behind a traversal that has succeeded, no path that it came by below the root can be opened.
  delete_paths_lem :
      (entries : List (Bytes × TypeFlag × ℕ)) (files files' : F.Files) (p : Bytes) (f : TypeFlag)
      (above : ℕ)
      → delete_paths F getenv digest entries files ≡ (files', true)
      → In (p, f, suc above) entries
      → F.view files' p ≡ cannot_open
  delete_paths_lem [] files files' p f above h there = elim there [ ]
  delete_paths_lem (e ∷ entries) files files' p f above h first =
      let (files1, done, rest) = delete_paths_first files files' p f (suc above) entries h in
      delete_paths_keep entries files1 files' p rest
        ((delete_path_lem files files1 p f above done).0)
  delete_paths_lem ((path, flag, level) ∷ entries) files files' p f above h (behind there) =
      let (files1, done, rest) = delete_paths_first files files' path flag level entries h in
      delete_paths_lem entries files1 files' p f above rest there

  -- The part of `local_cache_clear` behind `init`.
  abbrev clear_files : Action Store ⊤
  clear_files = do
    s ← gets (λ s. s)
    let result = delete_paths F getenv digest (F.nftw s.files s.cache_dirname) s.files
    modify (λ s. record s { files = result.0 })
    raise_if (not result.1) runtime_error

  clear_files_lem :
      (s s' : Store)
      → clear_files s ≡ (ok tt, s')
      → (delete_paths F getenv digest (F.nftw s.files s.cache_dirname) s.files ≡ (s'.files, true))
        × (s'.cache_dirname ≡ s.cache_dirname)
  clear_files_lem s s' h =
      let result = delete_paths F getenv digest (F.nftw s.files s.cache_dirname) s.files in
      elim (Bool-cases (result.1)) [
        | inl done ↦ ground (arith, done, h)
        | inr failed ↦ absurd (ground (arith, failed, h))
      ]

  -- Behind a `local_cache_clear` that has succeeded, no file of an entry that could be read can be
  -- opened, and none that could not be opened.
  pub clear_lem :
      (s s' : Store)
      → local_cache_clear F getenv digest s ≡ (ok tt, s')
      → (s1 : Store) × (init F getenv digest s ≡ (ok tt, s1))
        × (s'.cache_dirname ≡ s1.cache_dirname)
        × ((id bytes : Bytes)
            → F.view s1.files (get_file_name F getenv digest s1 id) ≡ readable bytes
            → F.view s'.files (get_file_name F getenv digest s1 id) ≡ cannot_open)
        × ((q : Bytes) → F.view s1.files q ≡ cannot_open → F.view s'.files q ≡ cannot_open)
  unfolding local_cache_clear get_file_name sha256
  clear_lem s s' h =
      let (_, s1, e1, h1) = >>=-ok (init F getenv digest) (λ _. clear_files) s h in
      let entries = F.nftw s1.files s1.cache_dirname in
      let (all, dirname) = clear_files_lem s1 s' h1 in
      (
        s1,
        e1,
        dirname,
        λ id bytes held.
            let (path, flag, above, listed, same) =
              F.nftw_lem s1.files s1.cache_dirname (digest id) bytes held in
            same s'.files (delete_paths_lem entries s1.files s'.files path flag above all listed),
        λ q gone. delete_paths_keep entries s1.files s'.files q all gone,
      )

  -- A traversal that meets an entry of no deletable kind below the root stops there: it reports
  -- failure, and nothing behind that entry is deleted.
  pub delete_paths_refused :
      (files : F.Files) (path : Bytes) (flag : TypeFlag) (level : ℕ)
      (entries : List (Bytes × TypeFlag × ℕ))
      → IsRefused flag
      → delete_paths F getenv digest ((path, flag, suc level) ∷ entries) files ≡ (files, false)
  unfolding delete_paths delete_path
  delete_paths_refused files path flag level entries h = ground arith
