-- ===== src/Cache/Windows/Result.antt =====
-- What a look-up of src/Windows/local_cache.cpp returns, as a function of the bytes of the file.
use azure_dcap_client.Prelude.{
  ℕ, ◌%◌, ◌^◌, ◌≤◌, ◌≡◌, ◌≢◌, inl, inr, refl, arith, sym, ap, Bool, true, false, ◌==◌, Bytes,
  is_some, Bool-cases, ◌∙◌, Option, none, some, Option-cases, ok, throw, Outcome, runtime_error,
  length, take, drop, if◌then◌else◌, bytes_eq, bytes_eq_sound, bytes_eq_refl,
}
use azure_dcap_client.Cache.Header.{CacheEntryHeaderV1, is_expired, is_expired-later}
use azure_dcap_client.Cache.Windows.Api.{WindowsApi, WindowsLaws}
use azure_dcap_client.Cache.Windows.Open.{open_handle_rule}
use azure_dcap_client.Cache.Windows.{CacheStore, open_handle, load_entry, read_header, read_data}
use azure_dcap_client.Cache.Windows.Format.{header_size, header_of, data_size_of}

unfoldable pub header_in : Bytes → Option CacheEntryHeaderV1
header_in bytes =
    let buffer = take header_size bytes in
    if length buffer == header_size then some (header_of buffer) else none

unfoldable pub data_in : Bytes → Outcome (Option Bytes)
data_in bytes =
    let data_size = data_size_of (length bytes % 2 ^ 32) in
    let buffer = take data_size (drop header_size bytes) in
    if length buffer == data_size then ok (some buffer) else throw runtime_error

-- The look-up of an entry whose file cannot be opened, or holds the given bytes.
unfoldable pub result_of : ℕ → Option Bytes → Outcome (Option Bytes)
unfolding header_in data_in
result_of now none = ok none
result_of now (some bytes) = elim (header_in bytes) [
  | none ↦ throw runtime_error
  | some header ↦ if is_expired header now then ok none else data_in bytes
]

pub result_short :
    (now : ℕ) (bytes : Bytes)
    → header_in bytes ≡ none
    → result_of now (some bytes) ≡ throw runtime_error
unfolding result_of
result_short now bytes e = ground (arith, e)

pub result_late :
    (now : ℕ) (bytes : Bytes) (header : CacheEntryHeaderV1)
    → header_in bytes ≡ some header
    → is_expired header now ≡ true
    → result_of now (some bytes) ≡ ok none
unfolding result_of
result_late now bytes header e late = ground (arith, e, late)

pub result_live :
    (now : ℕ) (bytes : Bytes) (header : CacheEntryHeaderV1)
    → header_in bytes ≡ some header
    → is_expired header now ≡ false
    → result_of now (some bytes) ≡ data_in bytes
unfolding result_of
result_live now bytes header e live = ground (arith, e, live)

module _ (W : WindowsApi) (L : WindowsLaws W) where
  abbrev Store : Type 0
  Store = CacheStore W

  abbrev pub Same : W.Os → W.Os → Type 0
  Same os os' = (q : Bytes) → L.content os' q ≡ L.content os q

  open_read : Bytes → W.Os → Bool × W.Os
  open_read p = open_handle W (λ os. W.create_file_read os p)

  open_read_lem :
      (p : Bytes) (os : W.Os)
      → ((open_read p os).0 ≡ is_some (L.content os p)) × Same os (open_read p os).1
  unfolding open_read
  open_read_lem p os =
      open_handle_rule W (λ t. W.create_file_read t p) (Same os)
        (λ opened t. (opened ≡ is_some (L.content os p)) × Same os t)
        (λ t same. (
          L.read_opens t p ∙ ap is_some (same p),
          λ q. L.sleep_content (W.create_file_read t p).1 q ∙ L.read_content t p q ∙ same q,
        ))
        (λ t failed. failed.1) os (λ q. refl)

  read_header_lem :
      (os : W.Os) (p bytes : Bytes)
      → L.content os p ≡ some bytes
      → read_header W os p ≡ header_in bytes
  unfolding read_header header_in
  read_header_lem os p bytes e =
      let read : W.read_file os p 0 header_size ≡ some (take header_size bytes) =
        L.read_file_lem os p bytes 0 header_size e in
      rw (read_header, read) refl

  read_data_lem :
      (os : W.Os) (p bytes : Bytes) → L.content os p ≡ some bytes → read_data W os p ≡ data_in bytes
  unfolding read_data data_in
  read_data_lem os p bytes e =
      let size = L.get_file_size_lem os p bytes e in
      let read = L.read_file_lem os p bytes header_size (data_size_of (length bytes % 2 ^ 32)) e in
      cc (size, read)

  -- The rest of a look-up, behind reading the header of an open file.
  abbrev behind_header :
      ℕ → Bytes → Store → W.Os → Option CacheEntryHeaderV1 → Outcome (Option Bytes) × Store
  behind_header now p s os none = (throw runtime_error, record s { os = W.close_read os p })
  behind_header now p s os (some header) =
      if is_expired header now
      then (ok none, record s { os = (W.delete_file (W.close_read os p) p).1 })
      else (read_data W os p, record s { os = W.close_read os p })

  load_entry_open :
      (now : ℕ) (p : Bytes) (s : Store)
      → (open_read p s.os).0 ≡ true
      → load_entry W now p s
        ≡ behind_header now p s (open_read p s.os).1 (read_header W (open_read p s.os).1 p)
  unfolding load_entry open_read
  load_entry_open now p s e = ground (arith, e)

  load_entry_shut :
      (now : ℕ) (p : Bytes) (s : Store)
      → (open_read p s.os).0 ≡ false
      → load_entry W now p s ≡ (ok none, record s { os = (open_read p s.os).1 })
  unfolding load_entry open_read
  load_entry_shut now p s e = ground (arith, e)

  behind_header_result :
      (now : ℕ) (p bytes : Bytes) (s : Store) (os : W.Os)
      → L.content os p ≡ some bytes
      → (behind_header now p s os (header_in bytes)).0 ≡ result_of now (some bytes)
  behind_header_result now p bytes s os e =
      let rest = read_data_lem os p bytes e in
      elim (Option-cases (header_in bytes)) [
        | inl short ↦ rw short (sym (result_short now bytes short))
        | inr (header, found) ↦ elim (Bool-cases (is_expired header now)) [
          | inl late ↦ rw (found, late) (sym (result_late now bytes header found late))
          | inr live ↦ rw (found, live) (rest ∙ sym (result_live now bytes header found live))
        ]
      ]

  -- The part of a look-up on the file returns what `result_of` says of the bytes of the file, however
  -- often it has to be opened.
  pub load_entry_result :
      (now : ℕ) (p : Bytes) (s : Store)
      → (load_entry W now p s).0 ≡ result_of now (L.content s.os p)
  unfolding result_of
  load_entry_result now p s =
      let (opened, same) = open_read_lem p s.os in
      let os1 = (open_read p s.os).1 in
      elim (Option-cases (L.content s.os p)) [
        | inl e ↦ rw (load_entry_shut now p s (opened ∙ ap is_some e), e) refl
        | inr (bytes, e) ↦
            let held : L.content os1 p ≡ some bytes = same p ∙ e in
            rw
              (load_entry_open now p s (opened ∙ ap is_some e), e, read_header_lem os1 p bytes held)
              (behind_header_result now p bytes s os1 held)
      ]

  -- Removing a file that has expired changes no later look-up.
  delete_expired :
      (now later : ℕ) (p q bytes : Bytes) (header : CacheEntryHeaderV1) (os : W.Os)
      → now ≤ later
      → L.content os p ≡ some bytes
      → header_in bytes ≡ some header
      → is_expired header now ≡ true
      → result_of later (L.content (W.delete_file os p).1 q) ≡ result_of later (L.content os q)
  unfolding result_of
  delete_expired now later p q bytes header os le held found late =
      let os' = (W.delete_file os p).1 in
      elim (Bool-cases (bytes_eq p q)) [
        | inr apart ↦
            let ne : p ≢ q = λ h. cc (apart, bytes_eq_refl q, h) in
            ap (result_of later) (L.delete_file_other os p q ne)
        | inl same ↦ elim (Bool-cases (W.delete_file os p).0) [
          | inr failed ↦
              ap (result_of later) (L.delete_file_fails os os' p q (λ i. (failed i, os')))
          | inl deleted ↦
              let gone : L.content os' p ≡ none =
                L.delete_file_lem os os' p (λ i. (deleted i, os')) in
              rw (sym (bytes_eq_sound p q same), gone, held)
                (sym (
                  result_late later bytes header found (is_expired-later header now later le late)))
        ]
      ]

  -- What a look-up does to the files: nothing that a later look-up could tell.
  pub load_entry_keeps :
      (now later : ℕ) (p q : Bytes) (s : Store)
      → now ≤ later
      → ((load_entry W now p s).1.cache_dirname ≡ s.cache_dirname)
        × (result_of later (L.content (load_entry W now p s).1.os q)
            ≡ result_of later (L.content s.os q))
  load_entry_keeps now later p q s le =
      let (opened, same) = open_read_lem p s.os in
      let os1 = (open_read p s.os).1 in
      let closed : Same s.os (W.close_read os1 p) = λ k. L.close_read_content os1 p k ∙ same k in
      elim (Option-cases (L.content s.os p)) [
        | inl e ↦
            rw (load_entry_shut now p s (opened ∙ ap is_some e))
              (refl, ap (result_of later) (same q))
        | inr (bytes, e) ↦
            rw
              (
                load_entry_open now p s (opened ∙ ap is_some e),
                read_header_lem os1 p bytes (same p ∙ e),
              )
              (elim (Option-cases (header_in bytes)) [
                | inl short ↦ rw short (refl, ap (result_of later) (closed q))
                | inr (header, found) ↦ elim (Bool-cases (is_expired header now)) [
                  | inr live ↦ rw (found, live) (refl, ap (result_of later) (closed q))
                  | inl late ↦
                      rw (found, late)
                        (
                          refl,
                          delete_expired now later p q bytes header (W.close_read os1 p) le
                                (closed p ∙ e) found late
                              ∙ ap (result_of later) (closed q),
                        )
                ]
              ])
      ]
