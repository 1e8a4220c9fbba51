-- ===== src/Cache/Linux/Reading.antt =====
-- What a look-up of src/Linux/local_cache.cpp finds in the file of an entry, and does to it.
use azure_dcap_client.Prelude.{
  ℕ, ◌+◌, ◌-◌, ◌^◌, ◌≤◌, ◌<◌, ◌≡◌, refl, arith, true, false, ◌++◌, Option, none, some, Bytes, ok,
  Bool-cases, inl, inr, ◌⊎◌, Option-cases, bytes_eq, bytes_eq_sound, bytes_eq_refl, length, sym,
  ◌∙◌, drop, append-nil, take-length, lt→leb, le→ltb,
}
use azure_dcap_client.Cache.FileSystem.{FileSystem, FileView-cases, readable, cannot_open}
use azure_dcap_client.Cache.Header.{read_header, read_into, is_expired, is_expired-later}
use azure_dcap_client.Cache.Linux.{CacheStore, load_entry, read_entry, data_size_of}

pub read_into_whole : (bytes : Bytes) → read_into (length bytes) bytes ≡ bytes
unfolding read_into
read_into_whole bytes =
    let none_left : length bytes - length bytes ≡ 0 = omega arith in
    rw (none_left, take-length bytes) (append-nil bytes)

pub data_size_lem : (n m : ℕ) → m ≡ n + 10 → n + 16 < 2 ^ 31 → data_size_of 10 m ≡ n
unfolding data_size_of
data_size_lem n m e h = omega arith

-- The data behind a header are read back whole.
pub read_entry_lem :
    (header bytes : Bytes)
    → length (header ++ bytes) ≡ length bytes + 10
    → drop 10 (header ++ bytes) ≡ bytes
    → length bytes + 16 < 2 ^ 31
    → read_entry (header ++ bytes) ≡ ok (some bytes)
unfolding read_entry
read_entry_lem header bytes size rest h = rw (
  le→ltb (length (header ++ bytes)) 10 (omega arith),
  data_size_lem (length bytes) (length (header ++ bytes)) size h,
  lt→leb (2 ^ 31) (length bytes) (omega arith),
  rest,
  read_into_whole bytes,
)

module _ (F : FileSystem) (getenv : Bytes → Option Bytes) (digest : Bytes → Bytes) where
  abbrev Store : Type 0
  Store = CacheStore F getenv digest

  -- What a look-up returns depends on nothing but the view of the file.
  pub load_entry_view :
      (now : ℕ) (p : Bytes) (s s' : Store)
      → F.view s'.files p ≡ F.view s.files p
      → (load_entry F getenv digest now p s').0 ≡ (load_entry F getenv digest now p s).0
  unfolding load_entry
  load_entry_view now p s s' e = ground arith

  -- What `load_entry` has done to the files, if anything: it has removed a file that has expired.
  pub load_entry_cases :
      (now : ℕ) (p : Bytes) (found : Option Bytes) (s s' : Store)
      → load_entry F getenv digest now p s ≡ (ok found, s')
      → (s' ≡ s)
        ⊎ ((content : Bytes) × (files : F.Files) × (F.view s.files p ≡ readable content)
            × (is_expired (read_header content) now ≡ true)
            × (F.unlink s.files p ≡ some files)
            × (s' ≡ record s { files = files }))
  unfolding load_entry
  load_entry_cases now p found s s' h = elim (FileView-cases (F.view s.files p)) [
    | inl e ↦ inl (ground (arith, e))
    | inr (inl e) ↦ absurd (ground (arith, e))
    | inr (inr (content, e)) ↦ elim (Bool-cases (is_expired (read_header content) now)) [
      | inr live ↦ inl (ground (arith, e, live))
      | inl late ↦ elim (Option-cases (F.unlink s.files p)) [
        | inl failed ↦ inl (ground (arith, e, late, failed))
        | inr (files, removed) ↦
            inr (content, files, e, late, removed, ground (arith, e, late, removed))
      ]
    ]
  ]

  pub load_entry_found :
      (now : ℕ) (p content : Bytes) (s : Store)
      → F.view s.files p ≡ readable content
      → is_expired (read_header content) now ≡ false
      → (load_entry F getenv digest now p s).0 ≡ read_entry content
  unfolding load_entry
  load_entry_found now p content s e live = ground arith

  pub load_entry_absent :
      (now : ℕ) (p : Bytes) (s : Store)
      → F.view s.files p ≡ cannot_open
      → (load_entry F getenv digest now p s).0 ≡ ok none
  unfolding load_entry
  load_entry_absent now p s e = ground (arith, e)

  pub load_entry_expired :
      (now : ℕ) (p content : Bytes) (s : Store)
      → F.view s.files p ≡ readable content
      → is_expired (read_header content) now ≡ true
      → (load_entry F getenv digest now p s).0 ≡ ok none
  unfolding load_entry
  load_entry_expired now p content s e late = ground arith

  -- A file that has expired is not found later either, once it has been removed.
  pub load_entry_removed :
      (now later : ℕ) (p q content : Bytes) (files : F.Files) (s : Store)
      → now ≤ later
      → F.view s.files p ≡ readable content
      → is_expired (read_header content) now ≡ true
      → F.unlink s.files p ≡ some files
      → (load_entry F getenv digest later q (record s { files = files })).0
        ≡ (load_entry F getenv digest later q s).0
  load_entry_removed now later p q content files s le e late removed =
      elim (Bool-cases (bytes_eq p q)) [
        | inl same ↦
            let here : p ≡ q = bytes_eq_sound p q same in
            rw (sym here) (
              load_entry_absent later p (record s { files = files })
                (F.unlink_lem s.files files p removed)
              ∙ sym (
                  load_entry_expired later p content s e
                    (is_expired-later (read_header content) now later le late)))
        | inr apart ↦
            load_entry_view later q s (record s { files = files })
              (F.unlink_other s.files files p q removed (λ h. cc (apart, bytes_eq_refl q, h)))
      ]

  pub load_entry_keeps :
      (now later : ℕ) (p q : Bytes) (found : Option Bytes) (s s' : Store)
      → now ≤ later
      → load_entry F getenv digest now p s ≡ (ok found, s')
      → (s'.cache_dirname ≡ s.cache_dirname)
        × ((load_entry F getenv digest later q s').0 ≡ (load_entry F getenv digest later q s).0)
  load_entry_keeps now later p q found s s' le h = elim (load_entry_cases now p found s s' h) [
    | inl same ↦ rw same (refl, refl)
    | inr (content, files, e, late, removed, same) ↦
        rw same (refl, load_entry_removed now later p q content files s le e late removed)
  ]
