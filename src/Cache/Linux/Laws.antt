-- ===== src/Cache/Linux/Laws.antt =====
-- The laws of src/local_cache.h that the Linux implementation meets.
use azure_dcap_client.Prelude.{
  ℕ, ◌+◌, ◌^◌, ◌≤◌, ◌<◌, ◌≡◌, ◌≢◌, arith, true, false, Option, none, some, Bytes, Action, ok, throw,
  >>=-ok, raise_if-ok, Bool-cases, inl, inr, is_empty, runtime_error, length, sym, ◌∙◌, ◌>>◌,
  append_cancel, ap, lt→leb, le→leb,
}
use azure_dcap_client.Cache.{LocalCache}
use azure_dcap_client.Cache.FileSystem.{
  FileSystem, WritesWhole, FileView-cases, cannot_open, cannot_read,
}
use azure_dcap_client.Cache.Header.{
  header_bytes, cache_v1, entry_bytes, length-entry_bytes, drop-entry_bytes, is_expired-entry_bytes,
}
use azure_dcap_client.Cache.Linux.{
  CacheStore, init, get_file_name, sha256, local_cache_add, local_cache_get, load_entry,
  local_cache_clear,
}
use azure_dcap_client.Cache.Linux.Init.{init_done, init_sets}
use azure_dcap_client.Cache.Linux.Entries.{local_cache_add_lem}
use azure_dcap_client.Cache.Linux.Reading.{
  read_entry_lem, load_entry_view, load_entry_found, load_entry_expired, load_entry_keeps,
  load_entry_absent,
}
use azure_dcap_client.Cache.Linux.Clear.{clear_lem}

module _ (F : FileSystem) (getenv : Bytes → Option Bytes) (digest : Bytes → Bytes)
    (writes_whole : WritesWhole F) where
  abbrev pub Store : Type 0
  Store = CacheStore F getenv digest

  abbrev pub entry_file : Store → Bytes → Bytes
  entry_file = get_file_name F getenv digest

  -- Once `init` has returned, a look-up is the look-up of the file.
  pub get_after_init :
      (id : Bytes) (now : ℕ) (s s1 : Store)
      → is_empty id ≡ false
      → init F getenv digest s ≡ (ok tt, s1)
      → local_cache_get F getenv digest now id s
        ≡ load_entry F getenv digest now (entry_file s1 id) s1
  unfolding local_cache_get
  get_after_init id now s s1 named e = ground arith

  get_empty_id :
      (id : Bytes) (now : ℕ) (s : Store)
      → is_empty id ≡ true
      → (local_cache_get F getenv digest now id s).0 ≡ throw runtime_error
  unfolding local_cache_get
  get_empty_id id now s h = rw h

  file_name_of :
      (s s' : Store) (id : Bytes)
      → s'.cache_dirname ≡ s.cache_dirname
      → entry_file s' id ≡ entry_file s id
  unfolding get_file_name
  file_name_of s s' id e = rw e

  file_name-ne :
      (s : Store) (id other : Bytes)
      → sha256 F getenv digest id ≢ sha256 F getenv digest other
      → entry_file s id ≢ entry_file s other
  unfolding get_file_name
  file_name-ne s id other ne e = ne (cc (append_cancel s.cache_dirname _ _ e))

  -- An entry that `local_cache_add` has written is read back whole by `local_cache_get` at any time
  -- before its expiration time, if no write of the file system is short: the code does not look at the
  -- number of bytes that `write` returns. The expiration time and the size are in the range of their
  -- types.
  pub linux_get-add :
      (id : Bytes) (expiry now : ℕ) (bytes : Bytes) (s s' : Store)
      → local_cache_add F getenv digest id expiry bytes s ≡ (ok tt, s')
      → now < expiry
      → expiry < 2 ^ 63
      → length bytes + 16 < 2 ^ 31
      → (local_cache_get F getenv digest now id s').0 ≡ ok (some bytes)
  linux_get-add id expiry now bytes s s' added live fits small =
      let (s1, named, e1, dirname, held, others) =
        local_cache_add_lem F getenv digest writes_whole id expiry bytes s s' added in
      let header = header_bytes (record { version = cache_v1; expiry = expiry }) in
      let p = entry_file s1 id in
      let again : init F getenv digest s' ≡ (ok tt, s') =
        init_done F getenv digest s' (rw dirname (init_sets F getenv digest s s1 e1)) in
      rw (get_after_init id now s' s' named again, file_name_of s1 s' id dirname)
        (load_entry_found F getenv digest now p (entry_bytes expiry bytes) s' held
            (is_expired-entry_bytes expiry now bytes fits ∙ lt→leb expiry now live)
          ∙ read_entry_lem header bytes (length-entry_bytes expiry bytes)
              (drop-entry_bytes expiry bytes) small)

  -- Adding an entry changes no look-up of another, where their digests differ.
  pub linux_get-add_ne :
      (id other : Bytes) (expiry now : ℕ) (bytes : Bytes) (s s' : Store)
      → local_cache_add F getenv digest id expiry bytes s ≡ (ok tt, s')
      → sha256 F getenv digest id ≢ sha256 F getenv digest other
      → (local_cache_get F getenv digest now other s').0
        ≡ (local_cache_get F getenv digest now other s).0
  linux_get-add_ne id other expiry now bytes s s' added ne =
      let (s1, named, e1, dirname, held, others) =
        local_cache_add_lem F getenv digest writes_whole id expiry bytes s s' added in
      let again : init F getenv digest s' ≡ (ok tt, s') =
        init_done F getenv digest s' (rw dirname (init_sets F getenv digest s s1 e1)) in
      elim (Bool-cases (is_empty other)) [
        | inl e ↦ get_empty_id other now s' e ∙ sym (get_empty_id other now s e)
        | inr e ↦
            rw
              (
                get_after_init other now s' s' e again,
                get_after_init other now s s1 e e1,
                file_name_of s1 s' other dirname,
              )
              (load_entry_view F getenv digest now (entry_file s1 other) s1 s'
                (others (entry_file s1 other) (file_name-ne s1 id other ne)))
      ]

  -- A look-up changes no later look-up, of the same entry or of another, whether it has found an
  -- entry, or none, or has removed one that has expired.
  pub linux_get-get :
      (id other : Bytes) (now later : ℕ) (found : Option Bytes) (s s' : Store)
      → now ≤ later
      → local_cache_get F getenv digest now id s ≡ (ok found, s')
      → (local_cache_get F getenv digest later other s').0
        ≡ (local_cache_get F getenv digest later other s).0
  unfolding local_cache_get
  linux_get-get id other now later found s s' le hit =
      let load : Action Store (Option Bytes) =
        λ t. load_entry F getenv digest now (entry_file t id) t in
      let rest = init F getenv digest >> load in
      let (named, h) = raise_if-ok (is_empty id) runtime_error rest s hit in
      let (_, s1, e1, h1) = >>=-ok (init F getenv digest) (λ _. load) s h in
      let (dirname, same) =
        load_entry_keeps F getenv digest now later (entry_file s1 id) (entry_file s1 other) found s1
          s' le h1 in
      let again : init F getenv digest s' ≡ (ok tt, s') =
        init_done F getenv digest s' (rw dirname (init_sets F getenv digest s s1 e1)) in
      elim (Bool-cases (is_empty other)) [
        | inl e ↦ get_empty_id other later s' e ∙ sym (get_empty_id other later s e)
        | inr e ↦
            rw
              (
                get_after_init other later s' s' e again,
                get_after_init other later s s1 e e1,
                file_name_of s1 s' other dirname,
              )
              same
      ]

  -- From its expiration time on, which fits a `time_t`, an entry that has been added is not found.
  pub get_expired :
      (id : Bytes) (expiry now : ℕ) (bytes : Bytes) (s s' : Store)
      → local_cache_add F getenv digest id expiry bytes s ≡ (ok tt, s')
      → expiry ≤ now
      → expiry < 2 ^ 63
      → (local_cache_get F getenv digest now id s').0 ≡ ok none
  get_expired id expiry now bytes s s' added late fits =
      let (s1, named, e1, dirname, held, others) =
        local_cache_add_lem F getenv digest writes_whole id expiry bytes s s' added in
      let again : init F getenv digest s' ≡ (ok tt, s') =
        init_done F getenv digest s' (rw dirname (init_sets F getenv digest s s1 e1)) in
      rw (get_after_init id now s' s' named again, file_name_of s1 s' id dirname)
        (load_entry_expired F getenv digest now (entry_file s1 id) (entry_bytes expiry bytes) s'
          held (is_expired-entry_bytes expiry now bytes fits ∙ le→leb expiry now late))

  load_entry_unreadable :
      (now : ℕ) (p : Bytes) (s : Store)
      → F.view s.files p ≡ cannot_read
      → (load_entry F getenv digest now p s).0 ≡ throw runtime_error
  unfolding load_entry
  load_entry_unreadable now p s e = ground (arith, e)

  -- An entry that a look-up has found is not found once the cache has been cleared.
  pub linux_get-clear :
      (id : Bytes) (now : ℕ) (found : Option Bytes) (s s' : Store)
      → local_cache_clear F getenv digest s ≡ (ok tt, s')
      → (local_cache_get F getenv digest now id s).0 ≡ ok found
      → (local_cache_get F getenv digest now id s').0 ≡ ok none
  linux_get-clear id now found s s' cleared hit = elim (Bool-cases (is_empty id)) [
    | inl e ↦ absurd (cc (hit, get_empty_id id now s e))
    | inr named ↦
        let (s1, e1, dirname, removed, kept) = clear_lem F getenv digest s s' cleared in
        let p = entry_file s1 id in
        let hit1 : (load_entry F getenv digest now p s1).0 ≡ ok found =
          ap (λ x. x.0) (sym (get_after_init id now s s1 named e1)) ∙ hit in
        let again : init F getenv digest s' ≡ (ok tt, s') =
          init_done F getenv digest s' (rw dirname (init_sets F getenv digest s s1 e1)) in
        let gone : F.view s'.files p ≡ cannot_open = elim (FileView-cases (F.view s1.files p)) [
          | inl absent ↦ kept p absent
          | inr (inl unreadable) ↦ absurd (cc (hit1, load_entry_unreadable now p s1 unreadable))
          | inr (inr (bytes, held)) ↦ removed id bytes held
        ] in
        rw (get_after_init id now s' s' named again, file_name_of s1 s' id dirname)
          (load_entry_absent F getenv digest now p s' gone)
  ]

  -- The interface of src/local_cache.h, with its laws.
  abbrev pub linux_cache : LocalCache
  linux_cache = record {
    Store = Store;
    local_cache_add = local_cache_add F getenv digest;
    local_cache_get = local_cache_get F getenv digest;
    local_cache_clear = local_cache_clear F getenv digest;
    name = sha256 F getenv digest;
    get-add = linux_get-add;
    get-add_expired = get_expired;
    get-add_ne = linux_get-add_ne;
    get-get = linux_get-get;
    get-clear = linux_get-clear;
  }
