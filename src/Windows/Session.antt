-- ===== src/Windows/Session.antt =====
-- The rest of the class `curl_easy` of src/Windows/curl_easy.cpp over WinHTTP: `create`, `set_headers`,
-- `get_body` and `get_header`. `perform` is in Windows.Perform.

pub mod Response
use azure_dcap_client.Prelude.{
  ℕ, ◌+◌, ◌-◌, Bool, true, false, not, List, [], ◌∷◌, ◌++◌, Option, none, some, Bytes, leb, ltb,
  ◌==◌, ◌&&◌, if◌then◌else◌, is_empty, length, take, lookup, insert, ◌⊎◌, inl, inr, Outcome, ok,
  throw, fault, ⊤, curl_error, curle_other,
}
use azure_dcap_client.Windows.Perform.{WinHttp, checked, throw_on_code}

-- What `WinHttpCrackUrl` stores: the host, the port, the path, and what follows it.
pub record CrackedUrl : Type 0 where
  pub host_name : Bytes
  pub port : ℕ
  pub url_path : Bytes
  pub extra_info : Bytes

-- The calls of Windows, each with the error code of its failure or `none`.
pub record SessionApi : Type 0 where
  pub win_http : WinHttp
  pub win_http_open : Option ℕ
  pub win_http_crack_url : Bytes → Option ℕ × CrackedUrl
  pub win_http_connect : Bytes → ℕ → Option ℕ
  pub win_http_open_request : Bytes → Option ℕ
  pub win_http_set_redirect_policy : Option ℕ
  pub win_http_set_secure_protocols : Option ℕ
  -- `MultiByteToWideChar` and `WideCharToMultiByte`: the error code, or the text.
  pub multi_byte_to_wide_char : Bytes → ℕ ⊎ Bytes
  pub wide_char_to_multi_byte : Bytes → ℕ ⊎ Bytes
  pub error_insufficient_buffer : ℕ

-- The members of the class, without the handles.
pub record Session : Type 0 where
  pub url_to_retrieve : Bytes
  pub host_name : Bytes
  pub port : ℕ
  pub body : Bytes
  pub headers : List (Bytes × Bytes)
  pub request_header_text : Bytes
  pub request_body_data : Bytes

infixl 5 ◌then◌
abbrev pub ◌then◌ : {A : Type 0} → Outcome ⊤ → Outcome A → Outcome A
m then k = elim m [ ok _ ↦ k | throw e ↦ throw e | fault ↦ fault ]

-- A text that the code converts, for the rest of a call.
abbrev pub converted : {A : Type 0} → ℕ ⊎ Bytes → (Bytes → Outcome A) → Outcome A
converted text k = elim text [ inl code ↦ throw (curl_error (curle_other code)) | inr s ↦ k s ]

-- `std::tolower` of the C locale
unfoldable pub lower_char : ℕ → ℕ
lower_char c = if leb b'A' c && leb c b'Z' then c + 32 else c

unfoldable pub to_lower : Bytes → Bytes
unfolding lower_char
to_lower [] = []
to_lower (c ∷ s) = lower_char c ∷ to_lower s

unfoldable pub utf8_string_from_unicode_string : SessionApi → Bytes → ℕ ⊎ Bytes
utf8_string_from_unicode_string w s = w.wide_char_to_multi_byte s

unfoldable pub unicode_string_from_utf8_string : SessionApi → Bytes → ℕ ⊎ Bytes
unicode_string_from_utf8_string w s = if is_empty s then inr [] else w.multi_byte_to_wide_char s

unfoldable pub create : SessionApi → Bytes → Option Bytes → Outcome Session
unfolding unicode_string_from_utf8_string checked
create w url p_body =
    checked w.win_http w.win_http_open
    then converted (unicode_string_from_utf8_string w url) (λ wide_url.
      let (failed, components) = w.win_http_crack_url wide_url in
      let url_to_retrieve = components.url_path ++ components.extra_info in
      checked w.win_http failed
      then checked w.win_http (w.win_http_connect components.host_name components.port)
      then checked w.win_http (w.win_http_open_request url_to_retrieve)
      then checked w.win_http w.win_http_set_redirect_policy
      then checked w.win_http w.win_http_set_secure_protocols
      then ok (record {
        url_to_retrieve = url_to_retrieve;
        host_name = components.host_name;
        port = components.port;
        body = [];
        headers = [];
        request_header_text = [];
        request_body_data = elim p_body [ none ↦ [] | some body ↦ body ];
      }))

-- The loop of `set_headers`, which keeps what it has appended before a throw.
unfoldable pub append_headers : SessionApi → List (Bytes × Bytes) → Bytes → Outcome ⊤ × Bytes
unfolding unicode_string_from_utf8_string
append_headers w [] text = (ok tt, text)
append_headers w ((name, value) ∷ kvps) text =
    elim (unicode_string_from_utf8_string w (name ++ b':' ∷ value)) [
      | inl code ↦ (throw (curl_error (curle_other code)), text)
      | inr wide ↦ append_headers w kvps (text ++ wide)
    ]

unfoldable pub set_headers : SessionApi → List (Bytes × Bytes) → Session → Outcome ⊤ × Session
unfolding append_headers
set_headers w header_name_values self =
    let (result, text) = append_headers w header_name_values [] in
    (result, record self { request_header_text = text })

-- A round of `get_body`: what `WinHttpQueryDataAvailable` and `WinHttpReadData` give. The second
-- leaves the bytes that it has read, of at most the size that is available.
pub record Arrival : Type 0 where
  pub query_failed : Option ℕ
  pub size_available : ℕ
  pub read_failed : Option ℕ
  pub bytes_read : Bytes

-- The loop, on the rounds that come before the response has ended.
unfoldable pub read_body : SessionApi → List Arrival → Bytes → Outcome Bytes
unfolding checked
read_body w [] result_data = ok result_data
read_body w (a ∷ arrivals) result_data =
    let rest = read_body w arrivals (result_data ++ a.bytes_read) in
    checked w.win_http a.query_failed
    then (if a.size_available == 0
        then ok result_data
        else checked w.win_http a.read_failed then rest)

-- A throw leaves `body` as it was.
unfoldable pub get_body : SessionApi → List Arrival → Session → Outcome Bytes × Session
unfolding read_body
get_body w arrivals self =
    if is_empty self.body
    then elim (read_body w arrivals []) [
      | ok result_data ↦ (ok result_data, record self { body = result_data })
      | throw e ↦ (throw e, self)
      | fault ↦ (fault, self)
    ]
    else (ok self.body, self)

-- The two calls of `WinHttpQueryHeaders` for a header: the error code of the one without a buffer,
-- and the error code and the text of the other.
pub record HeaderQuery : Type 0 where
  pub size_failed : Option ℕ
  pub text_failed : Option ℕ
  pub text : Bytes

-- Where the response has the header.
unfoldable pub read_header_text :
    SessionApi → HeaderQuery → Bytes → Session → Outcome (Option Bytes) × Session
unfolding checked utf8_string_from_unicode_string
read_header_text w q header self =
    let read : Outcome Bytes =
      checked w.win_http q.text_failed
      then converted (utf8_string_from_unicode_string w q.text) (λ s. ok s) in
    elim read [
      | ok header_as_utf8 ↦ (
        ok (some header_as_utf8),
        record self { headers = insert header header_as_utf8 self.headers },
      )
      | throw e ↦ (throw e, self)
      | fault ↦ (fault, self)
    ]

unfoldable pub get_header :
    SessionApi → (Bytes → HeaderQuery) → Bytes → Session → Outcome (Option Bytes) × Session
unfolding to_lower lookup unicode_string_from_utf8_string read_header_text
get_header w query field_name self =
    let header = to_lower field_name in
    elim (lookup header self.headers) [
      | some value ↦ (ok (some value), self)
      | none ↦ elim (unicode_string_from_utf8_string w header) [
        | inl code ↦ (throw (curl_error (curle_other code)), self)
        | inr wide ↦ elim (query wide).size_failed [
          | none ↦ (ok none, self)
          | some code ↦
              if code == w.error_insufficient_buffer
              then read_header_text w (query wide) header self
              else (ok none, self)
        ]
      ]
    ]
