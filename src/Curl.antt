-- ===== src/Curl.antt =====
-- The class `curl_easy` of src/Linux/curl_easy.cpp: a handle with its options, the body and the
-- headers that the callbacks collect, and the errors that become exceptions.
pub mod Header
pub mod Body
use azure_dcap_client.Prelude.{
  ℕ, zero, suc, ◌+◌, ◌-◌, ◌*◌, Bool, true, false, ◌&&◌, ◌||◌, List, [], ◌∷◌, ◌++◌, Option, none,
  some, Bytes, codes, bytes_eq, lookup, insert, ltb, leb, ◌==◌, if◌then◌else◌, length, take, drop,
  get_or, is_empty, Outcome, ok, throw, fault, bad_alloc, curl_error, CurlCode, curle_ok,
  curle_out_of_memory,
}
use mathlib.Core.List.{map}
use azure_dcap_client.Host.{
  Host, CurlOption, curlopt_url, curlopt_customrequest, curlopt_copypostfields,
  curlopt_writefunction, curlopt_writedata, curlopt_headerfunction, curlopt_headerdata,
  curlopt_failonerror, curlopt_sslversion, curlopt_httpheader, CurlEvent, header_event, write_event,
  Transfer, Handle,
}

-- The fields of the class.
pub record CurlEasy : Type 0 where
  pub handle : Handle
  pub body : Bytes
  pub headers : List (Bytes × Bytes)

-- `std::tolower` on the C locale
unfoldable pub tolower : ℕ → ℕ
tolower c = if leb b'A' c && leb c b'Z' then c + 32 else c

-- The function lowers a copy and returns its argument.
unfoldable pub to_lower : Bytes → Bytes
unfolding tolower
to_lower inout = let retval = map tolower inout in inout

unfoldable pub is_optional_whitespace : ℕ → Bool
is_optional_whitespace c = c == b' ' || c == b'\t'

abbrev pub http_version : Bytes
http_version = codes "HTTP/1.1"

unfoldable pub is_http_version : Bytes → Bool
unfolding bytes_eq
is_http_version buffer =
    leb (length http_version) (length buffer)
    && bytes_eq (take (length http_version) buffer) http_version

-- The first loop of `header_callback`: the index of the first `:`, or the size of the buffer.
unfoldable pub field_name_end : Bytes → ℕ
field_name_end [] = 0
field_name_end (c ∷ s) = let rest = suc (field_name_end s) in if c == b':' then 0 else rest

-- The second loop: how many characters of optional whitespace the text starts with.
unfoldable pub count_whitespace : Bytes → ℕ
unfolding is_optional_whitespace
count_whitespace [] = 0
count_whitespace (c ∷ s) =
    let rest = suc (count_whitespace s) in if is_optional_whitespace c then rest else 0

-- The third loop, downwards from an index.
unfoldable pub content_end : Bytes → ℕ → ℕ → ℕ
unfolding is_optional_whitespace
content_end buffer start zero = 0
content_end buffer start (suc i) =
    let rest = content_end buffer start i in
    if ltb start (suc i) && is_optional_whitespace (get_or buffer (suc i) 0) then rest else suc i

-- `header_callback` behind its size test, on the bytes of the buffer: the value that it returns.
unfoldable pub store_header : Bytes → CurlEasy → ℕ × CurlEasy
unfolding is_http_version field_name_end count_whitespace content_end to_lower insert
store_header buffer self =
    let buffer_size = length buffer in
    if ltb buffer_size 2
      || (if get_or buffer (buffer_size - 1) 0 == b'\n' then false else true)
      || (if get_or buffer (buffer_size - 2) 0 == b'\r' then false else true)
    then (0, self)
    else if buffer_size == 2
    then (buffer_size, self)
    else let field_name_end_index = field_name_end buffer in
      if leb buffer_size field_name_end_index
      then ((if is_http_version buffer then buffer_size else 0), self)
      else let after_colon = field_name_end_index + 1 in
        let content_start_index = after_colon + count_whitespace (drop after_colon buffer) in
        if leb buffer_size content_start_index
        then (0, self)
        else let content_end_index = content_end buffer content_start_index (buffer_size - 2) in
          if leb content_end_index content_start_index
          then (0, self)
          else let field_name = to_lower (take field_name_end_index buffer) in
            let content =
              take (content_end_index - content_start_index) (drop content_start_index buffer) in
            (buffer_size, record self { headers = insert field_name content self.headers })

unfoldable pub header_callback : Host → ℕ → ℕ → Bytes → CurlEasy → ℕ × CurlEasy
unfolding store_header
header_callback h size nitems buffer self =
    if ltb h.curl_max_http_header size || ltb h.curl_max_http_header nitems
    then (0, self)
    else store_header (take (size * nitems) buffer) self

-- A `std::bad_alloc` of the insertion, which the code turns into 0, is not modelled.
unfoldable pub write_callback : Host → ℕ → ℕ → Bytes → CurlEasy → ℕ × CurlEasy
write_callback h size nmemb buffer self =
    if ltb h.curl_max_write_size size || ltb h.curl_max_write_size nmemb
    then (0, self)
    else let full_size = size * nmemb in
      (full_size, record self { body = self.body ++ take full_size buffer })

unfoldable pub throw_on_error : CurlCode → Outcome (Unit {0})
throw_on_error curle_ok = ok tt
throw_on_error curle_out_of_memory = throw bad_alloc
throw_on_error code = throw (curl_error code)

-- The release build: `assert` does nothing.
unfoldable pub set_opt_or_throw : Host → CurlOption → CurlEasy → Outcome CurlEasy
unfolding throw_on_error
set_opt_or_throw h option self = elim (throw_on_error (h.curl_easy_setopt self.handle option)) [
  | ok _ ↦ ok (record self { handle = option ∷ self.handle })
  | throw e ↦ throw e
  | fault ↦ fault
]

-- Calls of `set_opt_or_throw`, one after the other.
unfoldable pub set_opts : Host → List CurlOption → CurlEasy → Outcome CurlEasy
unfolding set_opt_or_throw
set_opts h [] self = ok self
set_opts h (o ∷ os) self = elim (set_opt_or_throw h o self) [
  | ok self' ↦ set_opts h os self'
  | throw e ↦ throw e
  | fault ↦ fault
]

-- The options of `create`, in its order; the last two where there is a body that is not empty.
abbrev pub body_options : Option Bytes → List CurlOption
body_options none = []
body_options (some []) = []
body_options (some (c ∷ s)) =
    curlopt_customrequest (codes "GET") ∷ curlopt_copypostfields (c ∷ s) ∷ []

unfoldable pub create : Host → Bytes → Option Bytes → Outcome CurlEasy
unfolding set_opts
create h url p_body =
    if h.curl_easy_init
    then set_opts h
        (curlopt_url url
          ∷ curlopt_writefunction
          ∷ curlopt_writedata
          ∷ curlopt_headerfunction
          ∷ curlopt_headerdata
          ∷ curlopt_failonerror
          ∷ curlopt_sslversion
          ∷ body_options p_body)
        (record { handle = []; body = []; headers = [] })
    else throw bad_alloc

-- The callbacks that libcurl calls, and the values that they return.
unfoldable pub run_events : Host → List CurlEvent → CurlEasy → List ℕ × CurlEasy
unfolding header_callback write_callback
run_events h [] self = ([], self)
run_events h (header_event size nitems buffer ∷ events) self =
    let (r, self') = header_callback h size nitems buffer self in
    let (rs, self'') = run_events h events self' in (r ∷ rs, self'')
run_events h (write_event size nmemb buffer ∷ events) self =
    let (r, self') = write_callback h size nmemb buffer self in
    let (rs, self'') = run_events h events self' in (r ∷ rs, self'')

-- `perform`, where `sent` are the requests sent before: the result, and the object.
unfoldable pub perform : Host → List Handle → CurlEasy → Outcome CurlEasy
unfolding run_events throw_on_error
perform h sent self =
    let transfer = h.curl_easy_perform sent self.handle in
    let (returned, self') = run_events h transfer.events self in
    elim (throw_on_error (transfer.code returned)) [
      | ok _ ↦ ok self'
      | throw e ↦ throw e
      | fault ↦ fault
    ]

unfoldable pub get_header : CurlEasy → Bytes → Option Bytes
unfolding to_lower lookup
get_header self field_name = lookup (to_lower field_name) self.headers

-- The header lines `name:value` of a map, as one option.
abbrev pub header_lines : List (Bytes × Bytes) → List Bytes
header_lines [] = []
header_lines ((name, value) ∷ m) = (name ++ b':' ∷ value) ∷ header_lines m

unfoldable pub set_headers : Host → List (Bytes × Bytes) → CurlEasy → Outcome CurlEasy
unfolding set_opt_or_throw
set_headers h header_name_values self =
    set_opt_or_throw h (curlopt_httpheader (header_lines header_name_values)) self
