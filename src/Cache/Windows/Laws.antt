-- ===== src/Cache/Windows/Laws.antt =====
-- The laws of src/local_cache.h that the Windows implementation meets.
use azure_dcap_client.Prelude.{
  ℕ, ◌+◌, ◌^◌, ◌≤◌, ◌<◌, ◌≡◌, ◌≢◌, inl, inr, sym, ap, true, false, Bytes, Bool-cases, ◌∙◌, ◌>>◌,
  ◌>>=◌, >>=-ok, raise_if-ok, Option, none, some, ok, Action, runtime_error, length, is_empty,
}
use azure_dcap_client.Cache.{LocalCache}
use azure_dcap_client.Cache.Header.{CacheEntryHeaderV1, is_expired}
use azure_dcap_client.Cache.Windows.Api.{WindowsApi, WindowsLaws}
use azure_dcap_client.Cache.Windows.Entries.{entry_bytes, write_entry_lem}
use azure_dcap_client.Cache.Windows.Result.{result_of, result_late, result_live, load_entry_keeps}
use azure_dcap_client.Cache.Windows.{
  CacheStore, init, get_file_name, write_entry, local_cache_add, load_entry, local_cache_get,
  local_cache_clear,
}
use azure_dcap_client.Cache.Windows.Cleared.{windows_get-clear}
use azure_dcap_client.Cache.Windows.Init.{
  name_first, init_lem, init_done, get_result, get_empty_id, local_cache_add_lem, file_name_again,
  file_name-ne, file_result_≡, file_result, entry_name,
}
use azure_dcap_client.Cache.Windows.Entry.{
  is_expired-lt, is_expired-le, header_in_entry, data_in_entry,
}

module _ (W : WindowsApi) (L : WindowsLaws W) where
  abbrev Store : Type 0
  Store = CacheStore W

  written_lem :
      (p : Bytes) (expiry : ℕ) (bytes : Bytes) (s s' : Store)
      → write_entry W p expiry bytes s ≡ (ok tt, s')
      → (L.content s'.os p ≡ some (entry_bytes W L expiry bytes))
        × (s'.cache_dirname ≡ s.cache_dirname)
        × ((q : Bytes) → p ≢ q → L.content s'.os q ≡ L.content s.os q)
  written_lem p expiry bytes s s' h =
      let (held, dirname, others) = write_entry_lem W L p expiry bytes s in
      let last : (write_entry W p expiry bytes s).1 ≡ s' = ap (λ x. x.1) h in
      rw (sym last) (held (ap (λ x. x.0) h), dirname, others)

  -- After an `add` that returns: the entry's file holds the entry, the other files are as `init` has
  -- left them, and `init` and the names of the files stay as they are.
  added_lem :
      (id : Bytes) (expiry : ℕ) (bytes : Bytes) (s s' : Store)
      → local_cache_add W id expiry bytes s ≡ (ok tt, s')
      → (s1 : Store) × (p : Bytes) × (is_empty id ≡ false)
        × (init W s ≡ (ok tt, s1))
        × (init W s' ≡ (ok tt, s'))
        × (get_file_name W s1 id ≡ ok p)
        × ((other : Bytes) → get_file_name W s' other ≡ get_file_name W s1 other)
        × (L.content s'.os p ≡ some (entry_bytes W L expiry bytes))
        × ((q : Bytes) → p ≢ q → L.content s'.os q ≡ L.content s1.os q)
  added_lem id expiry bytes s s' added =
      let (s1, p, named, e1, found, written) = local_cache_add_lem W L id expiry bytes s s' added in
      let (held, dirname, others) = written_lem p expiry bytes s1 s' written in
      let again : init W s' ≡ (ok tt, s') =
        init_done W L s' (rw dirname ((init_lem W L s s1 e1).0)) in
      (
        s1,
        p,
        named,
        e1,
        again,
        found,
        λ other. file_name_again W L s1 s' other dirname,
        held,
        others,
      )

  pub windows_get-add :
      (id : Bytes) (expiry now : ℕ) (bytes : Bytes) (s s' : Store)
      → local_cache_add W id expiry bytes s ≡ (ok tt, s')
      → now < expiry
      → expiry < 2 ^ 63
      → length bytes + 16 < 2 ^ 31
      → (local_cache_get W now id s').0 ≡ ok (some bytes)
  windows_get-add id expiry now bytes s s' added live fits small =
      let (s1, p, named, e1, again, found, names, held, others) =
        added_lem id expiry bytes s s' added in
      let file = entry_bytes W L expiry bytes in
      let header : CacheEntryHeaderV1 = record { version = 1; expiry = expiry } in
      let live_header : is_expired header now ≡ false = is_expired-lt _ expiry now live fits in
      get_result W L id now s' s' named again
      ∙ ap (file_result W L now s'.os) (names id ∙ found)
      ∙ ap (result_of now) held
      ∙ result_live now file header (header_in_entry W L expiry bytes fits) live_header
      ∙ data_in_entry W L expiry bytes small

  pub windows_get-add_expired :
      (id : Bytes) (expiry now : ℕ) (bytes : Bytes) (s s' : Store)
      → local_cache_add W id expiry bytes s ≡ (ok tt, s')
      → expiry ≤ now
      → expiry < 2 ^ 63
      → (local_cache_get W now id s').0 ≡ ok none
  windows_get-add_expired id expiry now bytes s s' added late fits =
      let (s1, p, named, e1, again, found, names, held, others) =
        added_lem id expiry bytes s s' added in
      let header : CacheEntryHeaderV1 = record { version = 1; expiry = expiry } in
      let late_header : is_expired header now ≡ true = is_expired-le _ expiry now late fits in
      get_result W L id now s' s' named again
      ∙ ap (file_result W L now s'.os) (names id ∙ found)
      ∙ ap (result_of now) held
      ∙ result_late now (entry_bytes W L expiry bytes) header
          (header_in_entry W L expiry bytes fits) late_header

  pub windows_get-add_ne :
      (id other : Bytes) (expiry now : ℕ) (bytes : Bytes) (s s' : Store)
      → local_cache_add W id expiry bytes s ≡ (ok tt, s')
      → (entry_name W L) id ≢ (entry_name W L) other
      → (local_cache_get W now other s').0 ≡ (local_cache_get W now other s).0
  windows_get-add_ne id other expiry now bytes s s' added ne =
      let (s1, p, named, e1, again, found, names, held, others) =
        added_lem id expiry bytes s s' added in
      elim (Bool-cases (is_empty other)) [
        | inl e ↦ get_empty_id W L other now s' e ∙ sym (get_empty_id W L other now s e)
        | inr e ↦
            get_result W L other now s' s' e again
            ∙ ap (file_result W L now s'.os) (names other)
            ∙ file_result_≡ W L now s'.os s1.os (get_file_name W s1 other) (λ q named_q.
              ap (result_of now) (others q (file_name-ne W L s1 id other p q ne found named_q)))
            ∙ sym (get_result W L other now s s1 e e1)
      ]

  pub windows_get-get :
      (id other : Bytes) (now later : ℕ) (found : Option Bytes) (s s' : Store)
      → now ≤ later
      → local_cache_get W now id s ≡ (ok found, s')
      → (local_cache_get W later other s').0 ≡ (local_cache_get W later other s).0
  unfolding local_cache_get
  windows_get-get id other now later found s s' le hit =
      let name : Action Store Bytes = λ t. (get_file_name W t id, t) in
      let rest = init W >> (name >>= load_entry W now) in
      let (named, h) = raise_if-ok (is_empty id) runtime_error rest s hit in
      let (_, s1, e1, h1) = >>=-ok (init W) (λ _. name >>= load_entry W now) s h in
      let (p, chosen, h2) = name_first (λ t. get_file_name W t id) (load_entry W now) s1 s' h1 in
      let last : (load_entry W now p s1).1 ≡ s' = ap (λ x. x.1) h2 in
      let kept : (s'.cache_dirname ≡ s1.cache_dirname)
          × ((q : Bytes)
              → result_of later (L.content s'.os q) ≡ result_of later (L.content s1.os q)) =
        rw (sym last) (
          (load_entry_keeps W L now later p p s1 le).0,
          λ q. (load_entry_keeps W L now later p q s1 le).1,
        ) in
      let again : init W s' ≡ (ok tt, s') =
        init_done W L s' (rw (kept.0) ((init_lem W L s s1 e1).0)) in
      elim (Bool-cases (is_empty other)) [
        | inl e ↦ get_empty_id W L other later s' e ∙ sym (get_empty_id W L other later s e)
        | inr e ↦
            get_result W L other later s' s' e again
            ∙ ap (file_result W L later s'.os) (file_name_again W L s1 s' other kept.0)
            ∙ file_result_≡ W L later s'.os s1.os (get_file_name W s1 other) (λ q _. kept.1 q)
            ∙ sym (get_result W L other later s s1 e e1)
      ]

  -- The interface of src/local_cache.h, with its laws.
  abbrev pub windows_cache : LocalCache
  windows_cache = record {
    Store = Store;
    local_cache_add = local_cache_add W;
    local_cache_get = local_cache_get W;
    local_cache_clear = local_cache_clear W;
    name = entry_name W L;
    get-add = windows_get-add;
    get-add_expired = windows_get-add_expired;
    get-add_ne = windows_get-add_ne;
    get-get = windows_get-get;
    get-clear = windows_get-clear W L;
  }
