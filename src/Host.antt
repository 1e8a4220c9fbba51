-- ===== src/Host.antt =====
-- What the program calls and does not implement, as parameters: the environment variables, the byte
-- order of the machine, the allocator, and libcurl.
use azure_dcap_client.Prelude.{ℕ, Bool, List, Option, Bytes, CurlCode}

-- The options that src/Linux/curl_easy.cpp sets, with their values.
pub data CurlOption : Type 0 where
  curlopt_url curlopt_customrequest curlopt_copypostfields : Bytes → CurlOption
  curlopt_writefunction curlopt_writedata curlopt_headerfunction curlopt_headerdata : CurlOption
  curlopt_failonerror curlopt_sslversion : CurlOption
  curlopt_httpheader : List Bytes → CurlOption

-- A call that libcurl makes while it performs a request: `size`, `nitems` and the buffer.
pub data CurlEvent : Type 0 where
  header_event write_event : ℕ → ℕ → Bytes → CurlEvent

-- What `curl_easy_perform` does with a handle: the calls of the callbacks, and the code that it
-- returns, which may depend on what the callbacks return.
pub record Transfer : Type 0 where
  pub events : List CurlEvent
  pub code : List ℕ → CurlCode

-- The options of a handle, the last one set first.
abbrev pub Handle : Type 0
Handle = List CurlOption

pub record Host : Type 0 where
  -- `getenv`
  pub getenv : Bytes → Option Bytes
  -- Whether the least significant byte of an integer stands first in memory.
  pub little_endian : Bool
  -- `new char[n]` as the allocation of this number since the start: an address, or `std::bad_alloc`.
  pub new_block : ℕ → ℕ → Option ℕ
  -- Whether `curl_easy_init` returns a handle.
  pub curl_easy_init : Bool
  pub curl_easy_setopt : Handle → CurlOption → CurlCode
  -- `curl_easy_perform`, which depends on the requests sent before.
  pub curl_easy_perform : List Handle → Handle → Transfer
  -- `curl_escape`, or `none` for a null result.
  pub curl_escape : Bytes → Option Bytes
  -- `curl_easy_unescape`; empty for a null result, for which the decoded size stays 0.
  pub curl_easy_unescape : Bytes → Bytes
  pub curl_max_write_size : ℕ
  pub curl_max_http_header : ℕ
  -- `sizeof(sgx_ql_qve_collateral_t)`, a type of the Intel headers.
  pub sizeof_qve_collateral : ℕ
