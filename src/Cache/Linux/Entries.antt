-- ===== src/Cache/Linux/Entries.antt =====
-- What `local_cache_add` of src/Linux/local_cache.cpp leaves in the files.
use azure_dcap_client.Prelude.{
  ℕ, ◌≡◌, ◌≢◌, arith, none, ◌++◌, take, take-length, ap, false, [], Option, some, Bytes, Action, ok,
  ⊤, >>=-ok, raise_if-ok, is_empty, raise_if, runtime_error, length, ◌∙◌, ◌==◌, ◌>>◌,
}
use azure_dcap_client.Cache.FileSystem.{FileSystem, readable, WritesWhole}
use azure_dcap_client.Cache.Header.{header_bytes, cache_v1, entry_bytes}
use azure_dcap_client.Cache.Linux.{
  CacheStore, or_throw, without_count, init, get_file_name, write_entry, local_cache_add,
}

module _ (F : FileSystem) (getenv : Bytes → Option Bytes) (digest : Bytes → Bytes)
    (writes_whole : WritesWhole F) where
  abbrev Store : Type 0
  Store = CacheStore F getenv digest

  abbrev call_files : (F.Files → Option F.Files) → Action Store ⊤
  call_files = or_throw F getenv digest

  call_files_last :
      (call : F.Files → Option F.Files) (s s' : Store)
      → call_files call s ≡ (ok tt, s')
      → (call s.files ≡ some s'.files) × (s'.cache_dirname ≡ s.cache_dirname)
  call_files_last call s s' h = ground arith

  call_files_first :
      (call : F.Files → Option F.Files) (rest : Action Store ⊤) (s s' : Store)
      → (call_files call >> rest) s ≡ (ok tt, s')
      → (files : F.Files) × (call s.files ≡ some files)
        × (rest (record s { files = files }) ≡ (ok tt, s'))
  call_files_first call rest s s' h = ground arith

  abbrev count_off : Option (ℕ × F.Files) → Option F.Files
  count_off = without_count F getenv digest

  counted :
      (r : Option (ℕ × F.Files)) (f' : F.Files)
      → count_off r ≡ some f'
      → (n : ℕ) × (r ≡ some (n, f'))
  counted none f' h = cc
  counted (some (n, f)) f' h = (n, ground arith)

  written :
      (f f' : F.Files) (p old bytes : Bytes)
      → count_off (F.write f p bytes) ≡ some f'
      → F.view f p ≡ readable old
      → F.view f' p ≡ readable (old ++ bytes)
  written f f' p old bytes e held =
      let (n, e') = counted (F.write f p bytes) f' e in
      let all : take n bytes ≡ bytes = rw (writes_whole f f' p bytes n e') (take-length bytes) in
      F.write_lem f f' p old bytes n e' held ∙ ap (λ t. readable (old ++ t)) all

  written_other :
      (f f' : F.Files) (p q bytes : Bytes)
      → count_off (F.write f p bytes) ≡ some f'
      → p ≢ q
      → F.view f' q ≡ F.view f q
  written_other f f' p q bytes e ne =
      let (n, e') = counted (F.write f p bytes) f' e in F.write_other f f' p q bytes n e' ne

  -- The entry's file holds the header and the data, and every other file is as before.
  write_entry_lem :
      (name : Bytes) (expiry : ℕ) (bytes : Bytes) (s s' : Store)
      → write_entry F getenv digest name expiry bytes s ≡ (ok tt, s')
      → (F.view s'.files name ≡ readable (entry_bytes expiry bytes))
        × (s'.cache_dirname ≡ s.cache_dirname)
        × ((q : Bytes) → name ≢ q → F.view s'.files q ≡ F.view s.files q)
  unfolding write_entry
  write_entry_lem name expiry bytes s s' h =
      let header = header_bytes (record { version = cache_v1; expiry = expiry }) in
      let w2 = call_files (λ f. count_off (F.write f name bytes)) in
      let w1 = call_files (λ f. count_off (F.write f name header)) >> w2 in
      let t = call_files (λ f. F.truncate f name) >> w1 in
      let (f1, e1, h1) = call_files_first (λ f. F.open_write f name) t s s' h in
      let (f2, e2, h2) = call_files_first (λ f. F.truncate f name) w1 _ s' h1 in
      let (f3, e3, h3) = call_files_first (λ f. count_off (F.write f name header)) w2 _ s' h2 in
      let (e4, dirname) = call_files_last (λ f. count_off (F.write f name bytes)) _ s' h3 in
      (
        written f3 s'.files name header bytes e4
            (written f2 f3 name [] header e3 (F.truncate_lem f1 f2 name e2)),
        dirname,
        λ q ne.
            written_other f3 s'.files name q bytes e4 ne
            ∙ written_other f2 f3 name q header e3 ne
            ∙ F.truncate_other f1 f2 name q e2 ne
            ∙ F.open_write_other s.files f1 name q e1 ne,
      )

  -- An `add` that returns has initialised the directory, and then written the entry's file.
  pub local_cache_add_lem :
      (id : Bytes) (expiry : ℕ) (bytes : Bytes) (s s' : Store)
      → local_cache_add F getenv digest id expiry bytes s ≡ (ok tt, s')
      → (s1 : Store) × (is_empty id ≡ false)
        × (init F getenv digest s ≡ (ok tt, s1))
        × (s'.cache_dirname ≡ s1.cache_dirname)
        × (F.view s'.files (get_file_name F getenv digest s1 id)
            ≡ readable (entry_bytes expiry bytes))
        × ((q : Bytes)
            → get_file_name F getenv digest s1 id ≢ q
            → F.view s'.files q ≡ F.view s1.files q)
  unfolding local_cache_add
  local_cache_add_lem id expiry bytes s s' h =
      let write : Action Store ⊤ =
        λ t. write_entry F getenv digest (get_file_name F getenv digest t id) expiry bytes t in
      let third = init F getenv digest >> write in
      let second = raise_if (length bytes == 0) runtime_error >> third in
      let (named, ha) = raise_if-ok (is_empty id) runtime_error second s h in
      let (_, hb) = raise_if-ok (length bytes == 0) runtime_error third s ha in
      let (_, s1, e1, h1) = >>=-ok (init F getenv digest) (λ _. write) s hb in
      let (held, dirname, others) =
        write_entry_lem (get_file_name F getenv digest s1 id) expiry bytes s1 s' h1 in
      (s1, named, e1, dirname, held, others)
