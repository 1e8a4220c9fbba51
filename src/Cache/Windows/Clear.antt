-- ===== src/Cache/Windows/Clear.antt =====
-- `local_cache_clear` of src/Windows/local_cache.cpp.
use azure_dcap_client.Prelude.{
  ◌≤◌, ◌<◌, ◌≡◌, inl, inr, refl, arith, sym, ap, Bool, true, false, List, [], ◌∷◌, ◌++◌, ◌||◌,
  Bytes, codes, Bool-cases, ◌∙◌, ◌>>◌, >>=-ok, >>-ok, >>-fault, none, ok, fault, Action, ⊤,
  bytes_eq, bytes_eq_sound, bytes_eq_refl, if◌then◌else◌,
}
use azure_dcap_client.Cache.Windows.Api.{WindowsApi, WindowsLaws}
use azure_dcap_client.Cache.Windows.{
  CacheStore, init, delete_entry, delete_entries, local_cache_clear,
}
use azure_dcap_client.Cache.Windows.Format.{delete_message_size}

abbrev pub is_dots : Bytes → Bool
is_dots name = bytes_eq name (codes ".") || bytes_eq name (codes "..")

module _ (W : WindowsApi) where
  abbrev Store : Type 0
  Store = CacheStore W

  abbrev path_of : Store → Bytes → Bytes
  path_of s name = s.cache_dirname ++ b'\\' ∷ name

  delete_entry_cases :
      (path : Bytes) (s s' : Store)
      → delete_entry W path s ≡ (ok tt, s')
      → ((W.delete_file s.os path).0 ≡ true) × (s' ≡ record s { os = (W.delete_file s.os path).1 })
  unfolding delete_entry
  delete_entry_cases path s s' h = ground (arith, h)

  delete_entry_faults :
      (path : Bytes) (s : Store)
      → delete_message_size ≤ W.last_error s.os
      → delete_message_size ≤ W.last_error (W.delete_file s.os path).1
      → (delete_entry W path s).0 ≡ fault
  unfolding delete_entry
  delete_entry_faults path s before after = ground (arith, before, after)

  delete_entries_faults :
      (name : Bytes) (names : List Bytes) (s : Store)
      → is_dots name ≡ false
      → (delete_entry W (path_of s name) s).0 ≡ fault
      → (delete_entries W (name ∷ names) s).0 ≡ fault
  unfolding delete_entries
  delete_entries_faults name names s named beyond =
      rw named (>>-fault (delete_entry W (path_of s name)) (delete_entries W names) s beyond)

  delete_entries_skip :
      (name : Bytes) (names : List Bytes) (s : Store)
      → is_dots name ≡ true
      → delete_entries W (name ∷ names) s ≡ delete_entries W names s
  unfolding delete_entries
  delete_entries_skip name names s e = rw e refl

  delete_entries_first :
      (name : Bytes) (names : List Bytes) (s s' : Store)
      → is_dots name ≡ false
      → delete_entries W (name ∷ names) s ≡ (ok tt, s')
      → (delete_entry W (path_of s name) >> delete_entries W names) s ≡ (ok tt, s')
  unfolding delete_entries
  delete_entries_first name names s s' e h = rw e at h

  abbrev pub delete_found : Action Store ⊤
  delete_found s = delete_entries W (W.find_files s.os (s.cache_dirname ++ codes "\\*")) s

  -- The names that are not deleted.
  abbrev pub AreDots : List Bytes → Type 0
  AreDots [] = Unit
  AreDots (name ∷ names) = (is_dots name ≡ true) × AreDots names

  delete_entries_skip_all :
      (dots names : List Bytes) (s : Store)
      → AreDots dots
      → delete_entries W (dots ++ names) s ≡ delete_entries W names s
  delete_entries_skip_all [] names s h = refl
  delete_entries_skip_all (name ∷ dots) names s (h, rest) =
      delete_entries_skip name (dots ++ names) s h ∙ delete_entries_skip_all dots names s rest

  -- Where an entry is there to be deleted, and the last error of the thread is 34 or more both
  -- before and after `DeleteFileW`, `local_cache_clear` reads behind the text of its message, even
  -- where the file was deleted: the number is added to the address of the text, and the sum is made
  -- into a string before it is known whether it is needed.
  pub clear_reads_beyond :
      (s s1 : Store) (dots : List Bytes) (name : Bytes) (names : List Bytes)
      → init W s ≡ (ok tt, s1)
      → W.find_files s1.os (s1.cache_dirname ++ codes "\\*") ≡ dots ++ name ∷ names
      → AreDots dots
      → is_dots name ≡ false
      → delete_message_size ≤ W.last_error s1.os
      → delete_message_size ≤ W.last_error (W.delete_file s1.os (path_of s1 name)).1
      → (local_cache_clear W s).0 ≡ fault
  unfolding local_cache_clear
  clear_reads_beyond s s1 dots name names e found skipped named before after =
      let beyond = delete_entry_faults (path_of s1 name) s1 before after in
      ap (λ x. x.0) (>>-ok (init W) delete_found s s1 e)
      ∙ ap (λ x. (delete_entries W x s1).0) found
      ∙ ap (λ x. x.0) (delete_entries_skip_all dots (name ∷ names) s1 skipped)
      ∙ delete_entries_faults name names s1 named beyond

  module _ (L : WindowsLaws W) where
    -- A file that cannot be opened stays so.
    delete_keeps_gone :
        (os : W.Os) (p q : Bytes)
        → L.content os q ≡ none
        → L.content (W.delete_file os p).1 q ≡ none
    delete_keeps_gone os p q gone =
        let os' = (W.delete_file os p).1 in
        elim (Bool-cases (bytes_eq p q)) [
          | inr apart ↦ L.delete_file_other os p q (λ h. cc (apart, bytes_eq_refl q, h)) ∙ gone
          | inl same ↦ elim (Bool-cases (W.delete_file os p).0) [
            | inl deleted ↦
                rw (sym (bytes_eq_sound p q same))
                  (L.delete_file_lem os os' p (λ i. (deleted i, os')))
            | inr failed ↦ L.delete_file_fails os os' p q (λ i. (failed i, os')) ∙ gone
          ]
        ]

    -- The files of the names that are deleted.
    unfoldable pub AreGone : Store → List Bytes → Type 0
    AreGone s [] = Unit
    AreGone s (name ∷ names) =
        (is_dots name ≡ false → L.content s.os (path_of s name) ≡ none) × AreGone s names

    -- One deletion, and the rest.
    deleted_lem :
        (name : Bytes) (names : List Bytes) (s s' : Store)
        → is_dots name ≡ false
        → delete_entries W (name ∷ names) s ≡ (ok tt, s')
        → (s1 : Store) × (delete_entries W names s1 ≡ (ok tt, s'))
          × (s1.cache_dirname ≡ s.cache_dirname)
          × (L.content s1.os (path_of s name) ≡ none)
          × ((q : Bytes) → L.content s.os q ≡ none → L.content s1.os q ≡ none)
    deleted_lem name names s s' named h =
        let path = path_of s name in
        let os' = (W.delete_file s.os path).1 in
        let (_, s1, e1, h1) =
          >>=-ok (delete_entry W path) (λ _. delete_entries W names) s
            (delete_entries_first name names s s' named h) in
        let (deleted, same) = delete_entry_cases path s s1 e1 in
        (
          s1,
          h1,
          ap (λ (t : Store). t.cache_dirname) same,
          ap (λ (t : Store). L.content t.os path) same
              ∙ L.delete_file_lem s.os os' path (λ i. (deleted i, os')),
          λ q gone. ap (λ (t : Store). L.content t.os q) same ∙ delete_keeps_gone s.os path q gone,
        )

    pub delete_entries_keep :
        (names : List Bytes) (s s' : Store)
        → delete_entries W names s ≡ (ok tt, s')
        → (s'.cache_dirname ≡ s.cache_dirname)
          × ((q : Bytes) → L.content s.os q ≡ none → L.content s'.os q ≡ none)
    unfolding delete_entries
    delete_entries_keep [] s s' h =
        let same : s ≡ s' = ap (λ x. x.1) h in rw (sym same) (refl, λ q gone. gone)
    delete_entries_keep (name ∷ names) s s' h = elim (Bool-cases (is_dots name)) [
      | inl dots ↦ delete_entries_keep names s s' (sym (delete_entries_skip name names s dots) ∙ h)
      | inr named ↦
          let (s1, h1, dirname, gone, kept) = deleted_lem name names s s' named h in
          let (dirname', kept') = delete_entries_keep names s1 s' h1 in
          (dirname' ∙ dirname, λ q e. kept' q (kept q e))
    ]

    pub delete_entries_lem :
        (names : List Bytes) (s s' : Store)
        → delete_entries W names s ≡ (ok tt, s')
        → AreGone s' names
    unfolding AreGone
    delete_entries_lem [] s s' h = tt
    delete_entries_lem (name ∷ names) s s' h = elim (Bool-cases (is_dots name)) [
      | inl dots ↦ (
        λ named. cc (dots, named),
        delete_entries_lem names s s' (sym (delete_entries_skip name names s dots) ∙ h),
      )
      | inr named ↦
          let (s1, h1, dirname, gone, kept) = deleted_lem name names s s' named h in
          let (dirname', kept') = delete_entries_keep names s1 s' h1 in
          (
            λ _. rw (dirname' ∙ dirname) (kept' (path_of s name) gone),
            delete_entries_lem names s1 s' h1,
          )
    ]

    -- Every file that was found can be deleted in its turn, and the last error of the thread is small.
    unfoldable pub AreDeletable : Store → List Bytes → Type 0
    AreDeletable s [] = Unit
    AreDeletable s (name ∷ names) =
        if is_dots name
        then AreDeletable s names
        else (((W.delete_file s.os (path_of s name)).0 ≡ true)
            × (W.last_error s.os < delete_message_size)
            × (W.last_error (W.delete_file s.os (path_of s name)).1 < delete_message_size)
            × AreDeletable (record s { os = (W.delete_file s.os (path_of s name)).1 }) names)

    delete_entry_returns :
        (path : Bytes) (s : Store)
        → (W.delete_file s.os path).0 ≡ true
        → W.last_error s.os < delete_message_size
        → W.last_error (W.delete_file s.os path).1 < delete_message_size
        → delete_entry W path s ≡ (ok tt, record s { os = (W.delete_file s.os path).1 })
    unfolding delete_entry
    delete_entry_returns path s deleted before after = ground (arith, deleted, before, after)

    delete_entries_return :
        (names : List Bytes) (s : Store)
        → AreDeletable s names
        → (s' : Store) × (delete_entries W names s ≡ (ok tt, s'))
    unfolding delete_entries AreDeletable
    delete_entries_return [] s h = (s, refl)
    delete_entries_return (name ∷ names) s h = elim (Bool-cases (is_dots name)) [
      | inl dots ↦
          let (s', e) = delete_entries_return names s (rw dots at h) in
          (s', delete_entries_skip name names s dots ∙ e)
      | inr named ↦
          let (deleted, before, after, rest) : (((W.delete_file s.os (path_of s name)).0 ≡ true)
              × (W.last_error s.os < delete_message_size)
              × (W.last_error (W.delete_file s.os (path_of s name)).1 < delete_message_size)
              × AreDeletable (record s { os = (W.delete_file s.os (path_of s name)).1 }) names) =
            rw named at h in
          let s1 : Store = record s { os = (W.delete_file s.os (path_of s name)).1 } in
          let (s', e) = delete_entries_return names s1 rest in
          let first = delete_entry_returns (path_of s name) s deleted before after in
          (
            s',
            rw named
                (>>-ok (delete_entry W (path_of s name)) (delete_entries W names) s s1 first ∙ e),
          )
    ]

    -- Where deleting does what it documents, each file in the directory can be deleted, and the last
    -- error of the thread stays below 34, `local_cache_clear` returns, and none of the files can be
    -- opened any more.
    pub clear_lem :
        (s s1 : Store)
        → init W s ≡ (ok tt, s1)
        → AreDeletable s1 (W.find_files s1.os (s1.cache_dirname ++ codes "\\*"))
        → (s' : Store) × (local_cache_clear W s ≡ (ok tt, s'))
          × AreGone s' (W.find_files s1.os (s1.cache_dirname ++ codes "\\*"))
    unfolding local_cache_clear
    clear_lem s s1 e deletable =
        let names = W.find_files s1.os (s1.cache_dirname ++ codes "\\*") in
        let (s', h) = delete_entries_return names s1 deletable in
        (s', >>-ok (init W) delete_found s s1 e ∙ h, delete_entries_lem names s1 s' h)
