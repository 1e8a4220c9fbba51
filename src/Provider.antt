-- ===== src/Provider.antt =====
-- What the entry points of src/dcap_provider.cpp share: the state of a call, the headers of a
-- response, and the cached and the remote look-up.
pub mod Collateral
pub mod Buffers
pub mod QveIdentity
pub mod RootCrl
pub mod Verification
pub mod Free
pub mod QeIdentity
pub mod Revocation
pub mod Config
use azure_dcap_client.Prelude.{
  ℕ, ◌+◌, ◌*◌, Bool, true, false, List, [], ◌∷◌, ◌++◌, Option, none, some, Bytes, codes,
  if◌then◌else◌, length, take, drop, ◌==◌, is_empty, Action, Outcome, ok, throw, fault, pure, raise,
  crash, gets, modify, try_catch, zoom, ◌>>=◌, ◌>>◌, ⊤, Exception, runtime_error, overflow_error,
  bad_alloc, other_exception, curl_error,
}
use azure_dcap_client.Errors.{
  SgxPlatError, sgx_plat_error_ok, sgx_plat_error_unexpected_server_response, is_plat_ok,
}
use azure_dcap_client.Host.{Host, Handle}
use azure_dcap_client.Curl.{CurlEasy, create, perform, get_header, set_headers}
use azure_dcap_client.Cache.{LocalCache}

abbrev pub crl_issuer_chain : Bytes
crl_issuer_chain = codes "SGX-PCK-CRL-Issuer-Chain"

abbrev pub tcb_info_issuer_chain : Bytes
tcb_info_issuer_chain = codes "SGX-TCB-Info-Issuer-Chain"

abbrev pub pck_cert_issuer_chain : Bytes
pck_cert_issuer_chain = codes "SGX-PCK-Certificate-Issuer-Chain"

abbrev pub tcb_info_header : Bytes
tcb_info_header = codes "SGX-TCBm"

-- `headers::default_values`
abbrev pub default_values : List (Bytes × Bytes)
default_values = (codes "Content-Type", codes "application/json") ∷ []

-- `catch (std::runtime_error&)` catches `std::overflow_error` too.
abbrev pub is_runtime_error : Exception → Bool
is_runtime_error runtime_error = true
is_runtime_error overflow_error = true
is_runtime_error e = false

-- `get_raw_header`: the error, and the text.
unfoldable pub get_raw_header : CurlEasy → Bytes → SgxPlatError × Bytes
unfolding get_header
get_raw_header curl header_item = elim (get_header curl header_item) [
  | none ↦ (sgx_plat_error_unexpected_server_response, [])
  | some raw_header ↦ (sgx_plat_error_ok, raw_header)
]

-- `get_unescape_header`, with `old` the text that stays where there is an error.
unfoldable pub get_unescape_header : Host → CurlEasy → Bytes → Bytes → SgxPlatError × Bytes
unfolding get_raw_header
get_unescape_header h curl header_item old =
    let (result, raw_header) = get_raw_header curl header_item in
    if is_plat_ok result then (result, h.curl_easy_unescape raw_header) else (result, old)

-- A call that does not touch the state.
abbrev pub from_outcome : {S A : Type 0} → Outcome A → Action S A
from_outcome r s = (r, s)

module _ (c : LocalCache) where
  -- The cache, the clock, the requests sent so far (the last one first) and the number of blocks
  -- allocated so far. The clock stands still during a call.
  pub record World : Type 0 where
    pub store : c.Store
    pub time : ℕ
    pub sent : List Handle
    pub allocations : ℕ

  -- An operation of the cache.
  abbrev pub on_store : {A : Type 0} → Action c.Store A → Action World A
  on_store = zoom (λ w. w.store) (λ s w. record w { store = s })

  unfoldable pub try_cache_get : Bytes → Action World (Option Bytes)
  try_cache_get cert_url w =
      try_catch (on_store (c.local_cache_get w.time cert_url))
        (λ e. if is_runtime_error e then pure none else raise e) w

  module _ (h : Host) where
    -- `perform`, which sends a request.
    unfoldable pub perform_request : CurlEasy → Action World CurlEasy
    unfolding perform
    perform_request curl w = (perform h w.sent curl, record w { sent = curl.handle ∷ w.sent })

    -- `new char[size]`: its address.
    unfoldable pub new_block : ℕ → Action World ℕ
    new_block size w = elim (h.new_block w.allocations size) [
      | none ↦ (throw bad_alloc, w)
      | some address ↦ (ok address, record w { allocations = w.allocations + 1 })
    ]
