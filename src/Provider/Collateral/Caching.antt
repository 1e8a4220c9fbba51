-- ===== src/Provider/Collateral/Caching.antt =====
-- `get_collateral` of src/dcap_provider.cpp asks the server once: a second call before the expiration
-- time finds both entries in the cache.
use azure_dcap_client.Prelude.{
  ℕ, ◌+◌, ◌^◌, ◌<◌, ◌≡◌, ◌≢◌, refl, ◌∙◌, arith, Option, none, some, ◌∷◌, Bytes, ok, length,
}
use azure_dcap_client.Errors.{sgx_ql_success, convert_to_intel_error}
use azure_dcap_client.Host.{Host}
use azure_dcap_client.Curl.{CurlEasy, create, perform, get_header}
use azure_dcap_client.Url.{get_issuer_chain_cache_name}
use azure_dcap_client.Cache.{LocalCache}
use azure_dcap_client.Provider.{
  World, try_cache_get, perform_request, get_raw_header, get_unescape_header,
}
use azure_dcap_client.Provider.Collateral.{
  CollateralTypes, get_cache_expiration_time, Collateral, cache_collateral, fetch_collateral,
  look_up_collateral, get_collateral,
}

module _ (c : LocalCache) (h : Host) where
  -- With both entries in the cache the call returns them, and sends no request.
  pub get_collateral_cached :
      (kind : CollateralTypes) (url header : Bytes) (body : Option Bytes) (w : World c)
      (b chain : Bytes) (s1 s2 : c.Store)
      → c.local_cache_get w.time url w.store ≡ (ok (some b), s1)
      → c.local_cache_get w.time (get_issuer_chain_cache_name url) s1 ≡ (ok (some chain), s2)
      → get_collateral c h kind url header body w ≡ (
        ok (record { status = sgx_ql_success; response_body = b; issuer_chain = chain }),
        record w { store = s2 },
      )
  unfolding get_collateral look_up_collateral try_cache_get
  get_collateral_cached kind url header body w b chain s1 s2 e1 e2 = ground arith

  -- The collateral that a response gives.
  abbrev pub collateral_of : CurlEasy → Bytes → Collateral
  collateral_of curl raw = record {
    status = sgx_ql_success;
    response_body = curl.body;
    issuer_chain = h.curl_easy_unescape raw;
  }

  -- Without a cached body, a response with the header is returned, and both entries are written.
  pub get_collateral_fetched :
      (kind : CollateralTypes) (url header : Bytes) (body : Option Bytes) (w : World c)
      (created curl : CurlEasy) (raw : Bytes) (s1 s2 s3 : c.Store)
      → c.local_cache_get w.time url w.store ≡ (ok none, s1)
      → create h url body ≡ ok created
      → perform h w.sent created ≡ ok curl
      → get_header curl header ≡ some raw
      → c.local_cache_add url (get_cache_expiration_time kind w.time) curl.body s1 ≡ (ok tt, s2)
      → c.local_cache_add
          (get_issuer_chain_cache_name url)
          (get_cache_expiration_time kind w.time)
          (h.curl_easy_unescape raw)
          s2
        ≡ (ok tt, s3)
      → get_collateral c h kind url header body w
        ≡ (ok (collateral_of curl raw), record w { store = s3; sent = created.handle ∷ w.sent })
  unfolding get_collateral look_up_collateral try_cache_get fetch_collateral perform_request
      get_unescape_header get_raw_header convert_to_intel_error cache_collateral
  get_collateral_fetched kind url header body w created curl raw s1 s2 s3 e1 e2 e3 e4 e5 e6 =
      ground arith

  -- A later look-up of both entries, from what the two calls of `local_cache_add` left.
  both_found :
      (url body chain : Bytes) (expiry now : ℕ) (s1 s2 s3 : c.Store)
      → c.local_cache_add url expiry body s1 ≡ (ok tt, s2)
      → c.local_cache_add (get_issuer_chain_cache_name url) expiry chain s2 ≡ (ok tt, s3)
      → c.name (get_issuer_chain_cache_name url) ≢ c.name url
      → now < expiry
      → expiry < 2 ^ 63
      → length body + 16 < 2 ^ 31
      → length chain + 16 < 2 ^ 31
      → (s4 s5 : c.Store) × (c.local_cache_get now url s3 ≡ (ok (some body), s4))
        × (c.local_cache_get now (get_issuer_chain_cache_name url) s4 ≡ (ok (some chain), s5))
  both_found url body chain expiry now s1 s2 s3 added1 added2 ne live fits small1 small2 =
      let chain_name = get_issuer_chain_cache_name url in
      let first : c.local_cache_get now url s3
          ≡ (ok (some body), (c.local_cache_get now url s3).1) =
        λ i. (
          (c.get-add_ne chain_name url expiry now chain s2 s3 added2 ne
                ∙ c.get-add url expiry now body s1 s2 added1 live fits small1)
              i,
          (c.local_cache_get now url s3).1,
        ) in
      let s4 = (c.local_cache_get now url s3).1 in
      (
        s4,
        (c.local_cache_get now chain_name s4).1,
        first,
        λ i. (
          (c.get-get url chain_name now now (some body) s3 s4 (omega arith) first
                ∙ c.get-add chain_name expiry now chain s2 s3 added2 live fits small2)
              i,
          (c.local_cache_get now chain_name s4).1,
        ),
      )

  -- After a call that has asked the server and has stored both entries, a second call at any time
  -- before the expiration time returns the same collateral and sends no request: only the first
  -- call's request has been sent. The entries' file names differ, and both texts and the expiration
  -- time are in the range of the types that hold their sizes.
  pub get_collateral_once :
      (kind : CollateralTypes) (url header : Bytes) (body : Option Bytes) (w : World c)
      (created curl : CurlEasy) (raw : Bytes) (s1 s2 s3 : c.Store) (later : ℕ)
      → c.local_cache_get w.time url w.store ≡ (ok none, s1)
      → create h url body ≡ ok created
      → perform h w.sent created ≡ ok curl
      → get_header curl header ≡ some raw
      → c.local_cache_add url (get_cache_expiration_time kind w.time) curl.body s1 ≡ (ok tt, s2)
      → c.local_cache_add
          (get_issuer_chain_cache_name url)
          (get_cache_expiration_time kind w.time)
          (h.curl_easy_unescape raw)
          s2
        ≡ (ok tt, s3)
      → c.name (get_issuer_chain_cache_name url) ≢ c.name url
      → later < get_cache_expiration_time kind w.time
      → get_cache_expiration_time kind w.time < 2 ^ 63
      → length curl.body + 16 < 2 ^ 31
      → length (h.curl_easy_unescape raw) + 16 < 2 ^ 31
      → let (r, w') = get_collateral c h kind url header body w in
        let (r', w'') = get_collateral c h kind url header body (record w' { time = later }) in
        (r ≡ ok (collateral_of curl raw))
        × (r' ≡ ok (collateral_of curl raw))
        × (w''.sent ≡ created.handle ∷ w.sent)
  get_collateral_once kind url header body w created curl raw s1 s2 s3 later e1 e2 e3 e4 e5 e6 ne
        live fits small1 small2 =
      let (s4, s5, hit1, hit2) =
        both_found url curl.body (h.curl_easy_unescape raw) (get_cache_expiration_time kind w.time)
          later s1 s2 s3 e5 e6 ne live fits small1 small2 in
      let after : World c = record w { store = s3; sent = created.handle ∷ w.sent; time = later } in
      let second =
        get_collateral_cached kind url header body after curl.body (h.curl_easy_unescape raw) s4 s5
          hit1 hit2 in
      rw
        (
          get_collateral_fetched kind url header body w created curl raw s1 s2 s3 e1 e2 e3 e4 e5 e6,
          second,
        )
        (refl, refl, refl)
