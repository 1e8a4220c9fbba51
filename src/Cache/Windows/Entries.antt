-- ===== src/Cache/Windows/Entries.antt =====
-- What `local_cache_add` of src/Windows/local_cache.cpp leaves in the files.
use azure_dcap_client.Prelude.{
  ℕ, ◌%◌, ◌^◌, ◌≡◌, ◌≢◌, refl, ap, Bool, not, ⊤, true, false, [], ◌++◌, Bytes, ◌∙◌, some, ok, throw,
  Outcome, runtime_error, length, take, if◌then◌else◌,
}
use azure_dcap_client.Cache.Header.{cache_v1}
use azure_dcap_client.Cache.Windows.Api.{WindowsApi, WindowsLaws}
use azure_dcap_client.Cache.Windows.Open.{open_handle_rule}
use azure_dcap_client.Cache.Windows.{CacheStore, open_handle, write_entry}
use azure_dcap_client.Cache.Windows.Format.{header_bytes}

module _ (W : WindowsApi) (L : WindowsLaws W) where
  abbrev Store : Type 0
  Store = CacheStore W

  -- The file of an entry.
  abbrev pub entry_bytes : ℕ → Bytes → Bytes
  entry_bytes expiry bytes =
      header_bytes W.padding (record { version = cache_v1; expiry = expiry })
      ++ take (length bytes % 2 ^ 32) bytes

  open_write : Bytes → W.Os → Bool × W.Os
  open_write p = open_handle W (λ os. W.create_file_write os p)

  abbrev SameOthers : Bytes → W.Os → W.Os → Type 0
  SameOthers p os os' = (q : Bytes) → p ≢ q → L.content os' q ≡ L.content os q

  open_write_lem :
      (p : Bytes) (os : W.Os)
      → ((open_write p os).0 ≡ true → L.written (open_write p os).1 p ≡ [])
        × SameOthers p os (open_write p os).1
  unfolding open_write
  open_write_lem p os =
      open_handle_rule W (λ t. W.create_file_write t p) (SameOthers p os)
        (λ opened t. (opened ≡ true → L.written t p ≡ []) × SameOthers p os t)
        (λ t same. (
          λ opened.
              L.sleep_written (W.create_file_write t p).1 p
              ∙ L.write_opens t (W.create_file_write t p).1 p
                  (λ i. (opened i, (W.create_file_write t p).1)),
          λ q ne.
              L.sleep_content (W.create_file_write t p).1 q
              ∙ L.write_opens_other t p q ne
              ∙ same q ne,
        ))
        (λ t failed. failed.1) os (λ q ne. refl)

  -- How the three calls of Windows decide the result.
  abbrev finish : Bool → Bool → Bool → Store → Store → Store → Outcome ⊤ × Store
  finish opened headed written s1 s2 s3 =
      if not opened
      then (throw runtime_error, s1)
      else if not headed
      then (throw runtime_error, s2)
      else if not written
      then (throw runtime_error, s3)
      else (ok tt, s3)

  finish_rule :
      (P : Outcome ⊤ × Store → Type 0) (opened headed written : Bool) (s1 s2 s3 : Store)
      → P (throw runtime_error, s1)
      → P (throw runtime_error, s2)
      → P (throw runtime_error, s3)
      → (opened ≡ true → headed ≡ true → written ≡ true → P (ok tt, s3))
      → P (finish opened headed written s1 s2 s3)
  finish_rule P false headed written s1 s2 s3 p1 p2 p3 p4 = p1
  finish_rule P true false written s1 s2 s3 p1 p2 p3 p4 = p2
  finish_rule P true true false s1 s2 s3 p1 p2 p3 p4 = p3
  finish_rule P true true true s1 s2 s3 p1 p2 p3 p4 = p4 refl refl refl

  -- The file of an entry that was added holds the header and the data, and every other file is as
  -- before, whether the call returns or throws.
  pub write_entry_lem :
      (p : Bytes) (expiry : ℕ) (bytes : Bytes) (s : Store)
      → let (r, s') = write_entry W p expiry bytes s in
        (r ≡ ok tt → L.content s'.os p ≡ some (entry_bytes expiry bytes))
        × (s'.cache_dirname ≡ s.cache_dirname)
        × SameOthers p s.os s'.os
  unfolding write_entry open_write
  write_entry_lem p expiry bytes s =
      let header = header_bytes W.padding (record { version = cache_v1; expiry = expiry }) in
      let written_bytes = take (length bytes % 2 ^ 32) bytes in
      let (empty, same1) = open_write_lem p s.os in
      let os1 = (open_write p s.os).1 in
      let os2 = (W.write_file os1 p header).1 in
      let os3 = (W.write_file os2 p written_bytes).1 in
      let os4 = W.close_write os3 p in
      let same2 : SameOthers p s.os os2 =
        λ q ne. L.write_file_other os1 p header q ne ∙ same1 q ne in
      let same3 : SameOthers p s.os os3 =
        λ q ne. L.write_file_other os2 p written_bytes q ne ∙ same2 q ne in
      finish_rule
        (λ (r, t).
          (r ≡ ok tt → L.content t.os p ≡ some (entry_bytes expiry bytes))
          × (t.cache_dirname ≡ s.cache_dirname)
          × SameOthers p s.os t.os)
        (open_write p s.os).0 (W.write_file os1 p header).0 (W.write_file os2 p written_bytes).0
        (record s { os = os1 }) (record s { os = W.close_write os2 p }) (record s { os = os4 })
        (λ h. cc, refl, same1) (λ h. cc, refl, λ q ne. L.close_write_other os2 p q ne ∙ same2 q ne)
        (λ h. cc, refl, λ q ne. L.close_write_other os3 p q ne ∙ same3 q ne)
        (λ opened headed dated. (
          λ h.
              L.close_write_lem os3 p
              ∙ ap some (
                  L.write_file_lem os2 os3 p written_bytes (λ i. (dated i, os3))
                  ∙ ap (λ x. x ++ written_bytes)
                      (L.write_file_lem os1 os2 p header (λ i. (headed i, os2))
                        ∙ ap (λ x. x ++ header) (empty opened))),
          refl,
          λ q ne. L.close_write_other os3 p q ne ∙ same3 q ne,
        ))
