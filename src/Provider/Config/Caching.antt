-- ===== src/Provider/Config/Caching.antt =====
-- `sgx_ql_get_quote_config` of src/dcap_provider.cpp asks the server once: a second call before the
-- expiration time makes its configuration from the cache.
use azure_dcap_client.Prelude.{
  ℕ, ◌+◌, ◌%◌, ◌^◌, ◌<◌, ◌≡◌, refl, sym, ◌∙◌, ap, arith, false, Bytes, [], ◌∷◌, ◌++◌, none, some,
  length, length-append, drop, drop_append, take, take-length, ok, ltb, le→ltb,
}
use azure_dcap_client.Errors.{sgx_plat_error_ok, sgx_ql_success}
use azure_dcap_client.Host.{Host}
use azure_dcap_client.Curl.{CurlEasy, create, set_headers, perform, get_header}
use azure_dcap_client.Url.{PckCertId, build_pck_cert_url, build_eppid_json}
use azure_dcap_client.Cache.{LocalCache}
use azure_dcap_client.Provider.{
  World, new_block, perform_request, get_raw_header, try_cache_get, default_values, tcb_info_header,
  pck_cert_issuer_chain,
}
use azure_dcap_client.Provider.Buffers.{live}
use azure_dcap_client.Provider.Collateral.{pck_cert, get_cache_expiration_time}
use azure_dcap_client.Provider.Config.{
  QuoteConfig, IsConfig, ConfigLayout, ConfigBlock, config_output, config_block, parse_svn_values,
  build_cert_chain, config_from_cache, cache_config, config_from_response, sgx_ql_get_quote_config,
}

module _ (c : LocalCache) (h : Host) (layout : ConfigLayout) where
  -- A configuration moved to another address: its pointer is aligned again.
  abbrev pub moved : ℕ → QuoteConfig → Bytes → ConfigBlock
  moved address config cert_data = record {
    address = address;
    config = record config { p_cert_data = address + layout.sizeof_config };
    cert_data = cert_data;
  }

  config_from_cache_lem :
      (config : QuoteConfig) (cert_data : Bytes) (w w' : World c) (address : ℕ)
      → IsConfig config
      → new_block c h (length (layout.store config ++ cert_data)) w ≡ (ok address, w')
      → config_from_cache c h layout (layout.store config ++ cert_data) w
        ≡ (ok (config_output sgx_ql_success (live (moved address config cert_data))), w')
  unfolding config_from_cache
  config_from_cache_lem config cert_data w w' address valid new =
      let long : ltb (length (layout.store config ++ cert_data)) layout.sizeof_config ≡ false =
        le→ltb _ _ (
          omega
            (arith, length-append (layout.store config) cert_data, layout.length-store config)) in
      let behind : drop layout.sizeof_config (layout.store config ++ cert_data) ≡ cert_data =
        rw (sym (layout.length-store config)) (drop_append (layout.store config) cert_data) in
      let loaded = layout.load-store config cert_data valid in ground arith

  new_block-sent :
      (size address : ℕ) (w w' : World c)
      → new_block c h size w ≡ (ok address, w')
      → w'.sent ≡ w.sent
  unfolding new_block
  new_block-sent size address w w' e = ground arith

  -- With an entry in the cache that holds a configuration, the call returns a copy of it in a new
  -- block, with the pointer to the certificates of that block, and sends no request.
  pub quote_config_cached :
      (id : PckCertId) (config : QuoteConfig) (cert_data : Bytes) (w w' : World c) (s : c.Store)
      (address : ℕ)
      → IsConfig config
      → c.local_cache_get w.time (build_pck_cert_url h id) w.store
        ≡ (ok (some (layout.store config ++ cert_data)), s)
      → new_block c h (length (layout.store config ++ cert_data)) (record w { store = s })
        ≡ (ok address, w')
      → sgx_ql_get_quote_config c h layout id w
        ≡ (ok (config_output sgx_ql_success (live (moved address config cert_data))), w')
  unfolding sgx_ql_get_quote_config try_cache_get
  quote_config_cached id config cert_data w w' s address valid hit new =
      let made =
        config_from_cache_lem config cert_data (record w { store = s }) w' address valid new in
      ground arith

  -- What a response gives, at an address.
  abbrev pub response_block : ℕ → Bytes → ℕ → Bytes → ConfigBlock
  response_block address cpu_svn pce_svn chain = record {
    address = address;
    config = record {
      cert_cpu_svn = cpu_svn;
      cert_pce_isv_svn = pce_svn;
      version = 1;
      p_cert_data = address + layout.sizeof_config;
      cert_data_size = length chain + 1;
    };
    cert_data = chain ++ 0 ∷ [];
  }

  -- The size fits the field, so the whole text is copied, with its NUL.
  config_block_lem :
      (address : ℕ) (cpu_svn : Bytes) (pce_svn : ℕ) (chain : Bytes)
      → length chain + 1 < 2 ^ 32
      → config_block c h layout address cpu_svn pce_svn chain
        ≡ response_block address cpu_svn pce_svn chain
  unfolding config_block
  config_block_lem address cpu_svn pce_svn chain small =
      let size : (length chain % 2 ^ 32 + 1) % 2 ^ 32 ≡ length chain + 1 = omega arith in
      let whole : take (length chain + 1) (chain ++ 0 ∷ []) ≡ chain ++ 0 ∷ [] =
        rw (sym (length-append chain (0 ∷ []))) (take-length (chain ++ 0 ∷ [])) in
      rw (size, whole) refl

  cache_config_lem :
      (cert_url : Bytes) (w : World c) (block : ConfigBlock) (s : c.Store)
      → c.local_cache_add cert_url
          (get_cache_expiration_time pck_cert w.time)
          (layout.store block.config ++ block.cert_data)
          w.store
        ≡ (ok tt, s)
      → cache_config c h layout cert_url block w
        ≡ (ok (config_output sgx_ql_success (live block)), record w { store = s })
  unfolding cache_config
  cache_config_lem cert_url w block s e = ground arith

  config_from_response_lem :
      (cert_url : Bytes) (w w' : World c) (curl : CurlEasy) (tcb raw cpu_svn chain : Bytes)
      (pce_svn address : ℕ) (s' : c.Store)
      → get_header curl tcb_info_header ≡ some tcb
      → get_header curl pck_cert_issuer_chain ≡ some raw
      → parse_svn_values h curl ≡ (sgx_plat_error_ok, cpu_svn, pce_svn)
      → build_cert_chain h curl ≡ ok chain
      → length chain + 1 < 2 ^ 32
      → new_block c h (layout.sizeof_config + (length chain + 1)) w ≡ (ok address, w')
      → c.local_cache_add cert_url
          (get_cache_expiration_time pck_cert w'.time)
          (layout.store (response_block address cpu_svn pce_svn chain).config ++ (chain ++ 0 ∷ []))
          w'.store
        ≡ (ok tt, s')
      → config_from_response c h layout cert_url curl w ≡ (
        ok (config_output sgx_ql_success (live (response_block address cpu_svn pce_svn chain))),
        record w' { store = s' },
      )
  unfolding config_from_response get_raw_header
  config_from_response_lem cert_url w w' curl tcb raw cpu_svn chain pce_svn address s' e5 e6 e7 e8
        small e9 e10 =
      let size : length chain + 1 ≡ (length chain % 2 ^ 32 + 1) % 2 ^ 32 = omega arith in
      let new : new_block c h (layout.sizeof_config + (length chain % 2 ^ 32 + 1) % 2 ^ 32) w
          ≡ (ok address, w') =
        ap (λ n. new_block c h (layout.sizeof_config + n) w) (sym size) ∙ e9 in
      let cached : cache_config c h layout cert_url
            (config_block c h layout address cpu_svn pce_svn chain) w'
          ≡ (
            ok (config_output sgx_ql_success (live (response_block address cpu_svn pce_svn chain))),
            record w' { store = s' },
          ) =
        ap (λ b. cache_config c h layout cert_url b w')
          (config_block_lem address cpu_svn pce_svn chain small)
        ∙ cache_config_lem cert_url w' (response_block address cpu_svn pce_svn chain) s' e10 in
      ground arith

  -- Without an entry, a response whose headers are there and whose SVNs are well-formed gives a
  -- block that is filled from it and is added to the cache.
  pub quote_config_fetched :
      (id : PckCertId) (w w' : World c) (created prepared curl : CurlEasy)
      (tcb raw cpu_svn chain : Bytes) (pce_svn address : ℕ) (s s' : c.Store)
      → c.local_cache_get w.time (build_pck_cert_url h id) w.store ≡ (ok none, s)
      → create h (build_pck_cert_url h id) (some (build_eppid_json h id)) ≡ ok created
      → set_headers h default_values created ≡ ok prepared
      → perform h w.sent prepared ≡ ok curl
      → get_header curl tcb_info_header ≡ some tcb
      → get_header curl pck_cert_issuer_chain ≡ some raw
      → parse_svn_values h curl ≡ (sgx_plat_error_ok, cpu_svn, pce_svn)
      → build_cert_chain h curl ≡ ok chain
      → length chain + 1 < 2 ^ 32
      → new_block c h
          (layout.sizeof_config + (length chain + 1))
          (record w { store = s; sent = prepared.handle ∷ w.sent })
        ≡ (ok address, w')
      → c.local_cache_add
          (build_pck_cert_url h id)
          (get_cache_expiration_time pck_cert w'.time)
          (layout.store (response_block address cpu_svn pce_svn chain).config ++ (chain ++ 0 ∷ []))
          w'.store
        ≡ (ok tt, s')
      → sgx_ql_get_quote_config c h layout id w ≡ (
        ok (config_output sgx_ql_success (live (response_block address cpu_svn pce_svn chain))),
        record w' { store = s' },
      )
  unfolding sgx_ql_get_quote_config try_cache_get perform_request
  quote_config_fetched id w w' created prepared curl tcb raw cpu_svn chain pce_svn address s s' e1
        e2 e3 e4 e5 e6 e7 e8 small e9 e10 =
      let answered =
        config_from_response_lem (build_pck_cert_url h id)
          (record w { store = s; sent = prepared.handle ∷ w.sent }) w' curl tcb raw cpu_svn chain
          pce_svn address s' e5 e6 e7 e8 small e9 e10 in
      ground arith

  -- After a call that has asked the server, a second call at any time before the expiration time
  -- returns a block with the same SVNs and the same certificates, whose pointer points into that
  -- block, and sends no request. The response has both headers, well-formed SVNs and a certificate
  -- text, the file has a size of an `int`, and the values are in the range of their fields.
  pub get_quote_config_once :
      (id : PckCertId) (w w' w'' : World c) (created prepared curl : CurlEasy)
      (tcb raw cpu_svn chain : Bytes) (pce_svn address again later : ℕ) (s s' : c.Store)
      → c.local_cache_get w.time (build_pck_cert_url h id) w.store ≡ (ok none, s)
      → create h (build_pck_cert_url h id) (some (build_eppid_json h id)) ≡ ok created
      → set_headers h default_values created ≡ ok prepared
      → perform h w.sent prepared ≡ ok curl
      → get_header curl tcb_info_header ≡ some tcb
      → get_header curl pck_cert_issuer_chain ≡ some raw
      → parse_svn_values h curl ≡ (sgx_plat_error_ok, cpu_svn, pce_svn)
      → build_cert_chain h curl ≡ ok chain
      → IsConfig (response_block address cpu_svn pce_svn chain).config
      → layout.sizeof_config + (length chain + 1) + 16 < 2 ^ 31
      → new_block c h
          (layout.sizeof_config + (length chain + 1))
          (record w { store = s; sent = prepared.handle ∷ w.sent })
        ≡ (ok address, w')
      → c.local_cache_add
          (build_pck_cert_url h id)
          (get_cache_expiration_time pck_cert w'.time)
          (layout.store (response_block address cpu_svn pce_svn chain).config ++ (chain ++ 0 ∷ []))
          w'.store
        ≡ (ok tt, s')
      → later < get_cache_expiration_time pck_cert w'.time
      → get_cache_expiration_time pck_cert w'.time < 2 ^ 63
      → new_block c h
          (length (
            layout.store (response_block address cpu_svn pce_svn chain).config
            ++ (chain ++ 0 ∷ [])))
          (record w' {
            store = (c.local_cache_get later (build_pck_cert_url h id) s').1;
            time = later;
          })
        ≡ (ok again, w'')
      → let (r, after) = sgx_ql_get_quote_config c h layout id w in
        let second = sgx_ql_get_quote_config c h layout id (record after { time = later }) in
        (r
          ≡ ok (config_output sgx_ql_success (live (response_block address cpu_svn pce_svn chain))))
        × (second ≡ (
          ok (config_output sgx_ql_success (live (response_block again cpu_svn pce_svn chain))),
          w'',
        ))
        × (w''.sent ≡ prepared.handle ∷ w.sent)
  get_quote_config_once id w w' w'' created prepared curl tcb raw cpu_svn chain pce_svn address
        again later s s' e1 e2 e3 e4 e5 e6 e7 e8 valid small e9 e10 live_yet fits e11 =
      let block = response_block address cpu_svn pce_svn chain in
      let url = build_pck_cert_url h id in
      let bytes = layout.store block.config ++ (chain ++ 0 ∷ []) in
      let size : length bytes + 16 < 2 ^ 31 = omega (
        arith,
        length-append (layout.store block.config) (chain ++ 0 ∷ []),
        length-append chain (0 ∷ []),
        layout.length-store block.config,
      ) in
      let found : c.local_cache_get later url s'
          ≡ (ok (some bytes), (c.local_cache_get later url s').1) =
        λ i. (
          c.get-add url (get_cache_expiration_time pck_cert w'.time) later bytes w'.store s' e10
              live_yet fits size i,
          (c.local_cache_get later url s').1,
        ) in
      let after : World c = record w' { store = s'; time = later } in
      rw
        (
          quote_config_fetched id w w' created prepared curl tcb raw cpu_svn chain pce_svn address s
              s' e1 e2 e3 e4 e5 e6 e7 e8 (omega arith) e9 e10,
          quote_config_cached id block.config (chain ++ 0 ∷ []) after w''
              (c.local_cache_get later url s').1 again valid found e11,
        )
        (
          refl,
          refl,
          new_block-sent _ again _ w'' e11
              ∙ new_block-sent _ address (record w { store = s; sent = prepared.handle ∷ w.sent })
                  w' e9,
        )
