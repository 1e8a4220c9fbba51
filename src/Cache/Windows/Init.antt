-- ===== src/Cache/Windows/Init.antt =====
-- `init` of src/Windows/local_cache.cpp, the names of the files, and the calls behind both.
use azure_dcap_client.Prelude.{
  ℕ, ◌≡◌, ◌≢◌, inl, inr, refl, arith, sym, ap, Bool, true, false, [], ◌∷◌, ◌++◌, ◌==◌, Bytes,
  Bool-cases, ◌∙◌, ◌>>◌, ◌>>=◌, >>=-ok, raise_if-ok, Option, Option-cases, Outcome-cases, codes,
  modify, ok, throw, fault, Outcome, Action, Exception, runtime_error, length, is_empty,
  append_cancel, ⊤, raise_if,
}
use azure_dcap_client.Cache.Windows.Api.{WindowsApi, WindowsLaws}
use azure_dcap_client.Cache.Windows.Result.{result_of, Same, load_entry_result}
use azure_dcap_client.Cache.Windows.{
  CacheStore, make_dir, init_callback, init, get_file_name, write_entry, local_cache_add,
  load_entry, local_cache_get,
}
use azure_dcap_client.Cache.Windows.Format.{sha256, base_directory, application_name}

is_empty-append : (xs : Bytes) (y : ℕ) (ys : Bytes) → is_empty (xs ++ y ∷ ys) ≡ false
is_empty-append [] y ys = refl
is_empty-append (x ∷ xs) y ys = refl

pub name_first :
    {S A : Type 0} (name : S → Outcome Bytes) (rest : Bytes → Action S A) (s s' : S) {a : A}
    → ((λ t. (name t, t)) >>= rest) s ≡ (ok a, s')
    → (p : Bytes) × (name s ≡ ok p) × (rest p s ≡ (ok a, s'))
name_first name rest s s' h = elim (Outcome-cases (name s)) [
  | inl (p, found) ↦ (p, found, ground (arith, found, h))
  | inr (inl (x, failed)) ↦ absurd (ground (arith, failed, h))
  | inr (inr failed) ↦ absurd (ground (arith, failed, h))
]

-- The result of a call on the file of a name, with its guard and with what comes before.
named_call :
    {S A : Type 0} (c : Bool) (e : Exception) (before : Action S ⊤) (name : S → Outcome Bytes)
    (call : Bytes → Action S A) (s s1 : S)
    → c ≡ false
    → before s ≡ (ok tt, s1)
    → ((raise_if c e >> (before >> ((λ t. (name t, t)) >>= call))) s).0
      ≡ elim (name s1) [ ok p ↦ (call p s1).0 | throw x ↦ throw x | fault ↦ fault ]
named_call c e before name call s s1 passes done = ground (arith, passes, done)

module _ (W : WindowsApi) (L : WindowsLaws W) where
  abbrev Store : Type 0
  Store = CacheStore W

  make_dir_lem :
      (dirname : Bytes) (s s1 : Store)
      → make_dir W dirname s ≡ (ok tt, s1)
      → s1 ≡ record s { os = W.create_directory s.os dirname }
  unfolding make_dir
  make_dir_lem dirname s s1 h = ground (arith, h)

  init_callback_lem :
      (s s1 : Store)
      → init_callback W s ≡ (ok tt, s1)
      → (is_empty s1.cache_dirname ≡ false) × Same W L s.os s1.os
  unfolding init_callback
  init_callback_lem s s1 h =
      let (home, os1) = W.get_environment_variable s.os (codes "LOCALAPPDATA") in
      let (cache, os2) = W.get_environment_variable os1 (codes "AZDCAP_CACHE") in
      let s2 : Store = record s { os = os2 } in
      elim (Option-cases (base_directory home cache)) [
        | inl e ↦ absurd (ground (arith, e, h))
        | inr (directory, e) ↦
            let dirname = directory ++ application_name in
            let set : Action Store ⊤ = modify (λ t. record t { cache_dirname = dirname }) in
            let chosen : (make_dir W dirname >> set) s2 ≡ (ok tt, s1) =
              rw (init_callback, e) at h in
            let (_, s3, e3, h3) = >>=-ok (make_dir W dirname) (λ _. set) s2 chosen in
            let made = make_dir_lem dirname s2 s3 e3 in
            let last : record s3 { cache_dirname = dirname } ≡ s1 = ap (λ x. x.1) h3 in
            rw (sym last, made)
              (
                is_empty-append directory _ _,
                λ q.
                    L.directory_content os2 dirname q
                    ∙ L.environment_content os1 (codes "AZDCAP_CACHE") q
                    ∙ L.environment_content s.os (codes "LOCALAPPDATA") q,
              )
      ]

  pub init_lem :
      (s s1 : Store)
      → init W s ≡ (ok tt, s1)
      → (is_empty s1.cache_dirname ≡ false) × Same W L s.os s1.os
  unfolding init
  init_lem s s1 h = elim (Bool-cases (is_empty s.cache_dirname)) [
    | inl e ↦ init_callback_lem s s1 (rw e at h)
    | inr e ↦
        let same : (ok tt, s) ≡ (ok tt, s1) = rw e at h in
        rw (sym (ap (λ x. x.1) same)) (e, λ q. refl)
  ]

  pub init_done : (s : Store) → is_empty s.cache_dirname ≡ false → init W s ≡ (ok tt, s)
  unfolding init
  init_done s h = rw h

  -- What a look-up returns behind `init`, from the file name and the contents of the files.
  abbrev pub file_result : ℕ → W.Os → Outcome Bytes → Outcome (Option Bytes)
  file_result now os (ok p) = result_of now (L.content os p)
  file_result now os (throw e) = throw e
  file_result now os fault = fault

  pub file_result_≡ :
      (now : ℕ) (os os' : W.Os) (name : Outcome Bytes)
      → ((p : Bytes)
          → name ≡ ok p
          → result_of now (L.content os p) ≡ result_of now (L.content os' p))
      → file_result now os name ≡ file_result now os' name
  file_result_≡ now os os' (ok p) same = same p refl
  file_result_≡ now os os' (throw e) same = refl
  file_result_≡ now os os' fault same = refl

  pub get_result :
      (id : Bytes) (now : ℕ) (s s1 : Store)
      → is_empty id ≡ false
      → init W s ≡ (ok tt, s1)
      → (local_cache_get W now id s).0 ≡ file_result now s1.os (get_file_name W s1 id)
  unfolding local_cache_get
  get_result id now s s1 named e =
      named_call (is_empty id) runtime_error (init W) (λ t. get_file_name W t id) (load_entry W now)
        s s1 named e
      ∙ (elim (Outcome-cases (get_file_name W s1 id)) [
        | inl (p, found) ↦ rw found (load_entry_result W L now p s1)
        | inr (inl (x, failed)) ↦ rw failed refl
        | inr (inr failed) ↦ rw failed refl
      ])

  pub get_empty_id :
      (id : Bytes) (now : ℕ) (s : Store)
      → is_empty id ≡ true
      → (local_cache_get W now id s).0 ≡ throw runtime_error
  unfolding local_cache_get
  get_empty_id id now s h = rw h

  -- An `add` that returns has initialised the directory, and then written the entry's file.
  pub local_cache_add_lem :
      (id : Bytes) (expiry : ℕ) (bytes : Bytes) (s s' : Store)
      → local_cache_add W id expiry bytes s ≡ (ok tt, s')
      → (s1 : Store) × (p : Bytes) × (is_empty id ≡ false)
        × (init W s ≡ (ok tt, s1))
        × (get_file_name W s1 id ≡ ok p)
        × (write_entry W p expiry bytes s1 ≡ (ok tt, s'))
  unfolding local_cache_add
  local_cache_add_lem id expiry bytes s s' h =
      let name : Action Store Bytes = λ t. (get_file_name W t id, t) in
      let write : Bytes → Action Store ⊤ = λ p. write_entry W p expiry bytes in
      let third = init W >> (name >>= write) in
      let second = raise_if (length bytes == 0) runtime_error >> third in
      let (named, ha) = raise_if-ok (is_empty id) runtime_error second s h in
      let (_, hb) = raise_if-ok (length bytes == 0) runtime_error third s ha in
      let (_, s1, e1, h1) = >>=-ok (init W) (λ _. name >>= write) s hb in
      let (p, found, h2) = name_first (λ t. get_file_name W t id) write s1 s' h1 in
      (s1, p, named, e1, found, h2)

  pub file_name_lem :
      (s : Store) (id p : Bytes)
      → get_file_name W s id ≡ ok p
      → (n : Bytes) × (sha256 W.bcrypt id ≡ ok n) × (p ≡ s.cache_dirname ++ b'\\' ∷ n)
  unfolding get_file_name
  file_name_lem s id p e = elim (Outcome-cases (sha256 W.bcrypt id)) [
    | inl (n, found) ↦ (n, found, ground (arith, found, e))
    | inr (inl (x, failed)) ↦ absurd (ground (arith, failed, e))
    | inr (inr failed) ↦ absurd (ground (arith, failed, e))
  ]

  pub file_name_again :
      (s s' : Store) (id : Bytes)
      → s'.cache_dirname ≡ s.cache_dirname
      → get_file_name W s' id ≡ get_file_name W s id
  unfolding get_file_name
  file_name_again s s' id e = rw e

  abbrev pub entry_name : Bytes → Bytes
  entry_name id = elim (sha256 W.bcrypt id) [ ok n ↦ n | throw e ↦ [] | fault ↦ [] ]

  -- The files of entries whose names differ are apart.
  pub file_name-ne :
      (s : Store) (id other p q : Bytes)
      → entry_name id ≢ entry_name other
      → get_file_name W s id ≡ ok p
      → get_file_name W s other ≡ ok q
      → p ≢ q
  file_name-ne s id other p q ne e e' same =
      let (n, hn, hp) = file_name_lem s id p e in
      let (m, hm, hq) = file_name_lem s other q e' in
      let tails : b'\\' ∷ n ≡ b'\\' ∷ m = append_cancel s.cache_dirname _ _ (sym hp ∙ same ∙ hq) in
      let names : n ≡ m = cc (tails) in ne (rw (entry_name, hn, hm) names)
