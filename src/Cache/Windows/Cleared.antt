-- ===== src/Cache/Windows/Cleared.antt =====
-- What `local_cache_clear` of src/Windows/local_cache.cpp leaves for a look-up.
use azure_dcap_client.Prelude.{
  ℕ, ◌≡◌, refl, arith, sym, ap, ◌∙◌, inl, inr, false, Bool-cases, Option-cases, Option, none, Bytes,
  List, [], ◌∷◌, ◌++◌, codes, bytes_eq, In, first, behind, ok, Outcome, throw, fault, >>=-ok,
  is_empty, take,
}
use azure_dcap_client.Hex.{hex_digit, format_as_hex_string}
use azure_dcap_client.Cache.Windows.{
  CacheStore, init, get_file_name, local_cache_get, local_cache_clear, delete_entries,
}
use azure_dcap_client.Cache.Windows.Api.{Bcrypt, WindowsApi, WindowsLaws}
use azure_dcap_client.Cache.Windows.Clear.{
  is_dots, AreGone, delete_entries_keep, delete_entries_lem, delete_found,
}
use azure_dcap_client.Cache.Windows.Format.{sha256}
use azure_dcap_client.Cache.Windows.Init.{
  init_lem, init_done, get_result, get_empty_id, file_name_again, file_name_lem, file_result,
}
use azure_dcap_client.Cache.Windows.Result.{result_of}

hex_is_dots : (digest : Bytes) → is_dots (format_as_hex_string digest) ≡ false
unfolding format_as_hex_string bytes_eq hex_digit
hex_is_dots [] = refl
hex_is_dots (b ∷ bs) = ground arith

sha256_is_hex :
    (bcrypt : Bcrypt) (input n : Bytes)
    → sha256 bcrypt input ≡ ok n
    → (digest : Bytes) × (n ≡ format_as_hex_string digest)
unfolding sha256
sha256_is_hex bcrypt input n h = (
  take bcrypt.get_property.1 (bcrypt.finish_hash bcrypt.get_property.1 input).1,
  ground (arith, h),
)

module _ (W : WindowsApi) (L : WindowsLaws W) where
  abbrev Store : Type 0
  Store = CacheStore W

  AreGone-In :
      (s : Store) (names : List Bytes) (name : Bytes)
      → AreGone W L s names
      → In name names
      → is_dots name ≡ false
      → L.content s.os (s.cache_dirname ++ b'\\' ∷ name) ≡ none
  unfolding AreGone
  AreGone-In s [] name gone there named = elim there [ ]
  AreGone-In s (n ∷ names) name (own, rest) first named = own named
  AreGone-In s (n ∷ names) name (own, rest) (behind there) named =
      AreGone-In s names name rest there named

  result_of-none : (now : ℕ) → result_of now none ≡ ok none
  unfolding result_of
  result_of-none now = refl

  not_found :
      (now : ℕ) (os : W.Os) (name : Outcome Bytes) (found : Option Bytes)
      → file_result W L now os name ≡ ok found
      → (p : Bytes) × (name ≡ ok p)
  not_found now os (ok p) found h = (p, refl)
  not_found now os (throw e) found h = cc
  not_found now os fault found h = cc

  file_gone :
      (s1 s' : Store) (id p : Bytes)
      → delete_entries W (W.find_files s1.os (s1.cache_dirname ++ codes "\\*")) s1 ≡ (ok tt, s')
      → get_file_name W s1 id ≡ ok p
      → L.content s'.os p ≡ none
  file_gone s1 s' id p h named =
      let names = W.find_files s1.os (s1.cache_dirname ++ codes "\\*") in
      let (dirname, kept) = delete_entries_keep W L names s1 s' h in
      let (n, hashed, path) = file_name_lem W L s1 id p named in
      let (digest, hex) = sha256_is_hex W.bcrypt id n hashed in
      elim (Option-cases (L.content s1.os p)) [
        | inl absent ↦ kept p absent
        | inr (bytes, held) ↦
            let there =
              L.find_files_lem s1.os s1.cache_dirname digest bytes (rw (path, hex) at held) in
            let gone =
              AreGone-In s' names (format_as_hex_string digest)
                (delete_entries_lem W L names s1 s' h) there (hex_is_dots digest) in
            rw (path, hex, sym dirname) gone
      ]

  -- An entry that a look-up has found is not found once the cache has been cleared.
  pub windows_get-clear :
      (id : Bytes) (now : ℕ) (found : Option Bytes) (s s' : Store)
      → local_cache_clear W s ≡ (ok tt, s')
      → (local_cache_get W now id s).0 ≡ ok found
      → (local_cache_get W now id s').0 ≡ ok none
  unfolding local_cache_clear
  windows_get-clear id now found s s' cleared hit = elim (Bool-cases (is_empty id)) [
    | inl e ↦ absurd (cc (hit, get_empty_id W L id now s e))
    | inr named ↦
        let (_, s1, e1, h1) = >>=-ok (init W) (λ _. delete_found W) s cleared in
        let (dirname, kept) =
          delete_entries_keep W L (W.find_files s1.os (s1.cache_dirname ++ codes "\\*")) s1 s' h1 in
        let (p, chosen) =
          not_found now s1.os (get_file_name W s1 id) found
            (sym (get_result W L id now s s1 named e1) ∙ hit) in
        let again : init W s' ≡ (ok tt, s') =
          init_done W L s' (rw dirname ((init_lem W L s s1 e1).0)) in
        get_result W L id now s' s' named again
        ∙ ap (file_result W L now s'.os) (file_name_again W L s1 s' id dirname ∙ chosen)
        ∙ ap (result_of now) (file_gone s1 s' id p h1 chosen)
        ∙ result_of-none now
  ]
