-- ===== src/Windows/Session/Response.antt =====
-- `get_body` and `get_header` of src/Windows/curl_easy.cpp: what they read once, they keep.
use azure_dcap_client.Prelude.{
  ◌<◌, ◌≡◌, ◌∙◌, arith, sym, ap, false, List, [], ◌∷◌, ◌++◌, append_assoc, append-nil, none, some,
  Bytes, is_empty, lookup, lookup-insert_self, ok,
}
use azure_dcap_client.Windows.Perform.{checked}
use azure_dcap_client.Windows.Session.{
  SessionApi, Session, Arrival, read_body, get_body, HeaderQuery, read_header_text, get_header,
  to_lower,
}

-- Rounds in which both calls succeed, and data are there.
abbrev pub AreWhole : List Arrival → Type 0
AreWhole [] = Unit
AreWhole (a ∷ arrivals) =
    (a.query_failed ≡ none) × (0 < a.size_available) × (a.read_failed ≡ none) × AreWhole arrivals

abbrev pub all_bytes : List Arrival → Bytes
all_bytes [] = []
all_bytes (a ∷ arrivals) = a.bytes_read ++ all_bytes arrivals

read_body-all_bytes :
    (w : SessionApi) (arrivals : List Arrival) (before : Bytes)
    → AreWhole arrivals
    → read_body w arrivals before ≡ ok (before ++ all_bytes arrivals)
unfolding read_body checked
read_body-all_bytes w [] before h = ap ok (sym (append-nil before))
read_body-all_bytes w (a ∷ arrivals) before (queried, some_left, read, rest) =
    let next = read_body-all_bytes w arrivals (before ++ a.bytes_read) rest in
    let joined = append_assoc before a.bytes_read (all_bytes arrivals) in
    ground (arith, queried, some_left, read, next, joined)

-- The body of a response that arrives in any number of pieces, each read without an error, is all
-- pieces in their order; where it is not empty, every later `get_body` returns it again, whatever
-- the network gives then.
pub get_body-all_bytes :
    (w : SessionApi) (arrivals later : List Arrival) (self : Session)
    → self.body ≡ []
    → AreWhole arrivals
    → is_empty (all_bytes arrivals) ≡ false
    → let self' = record self { body = all_bytes arrivals } in
      (get_body w arrivals self ≡ (ok (all_bytes arrivals), self'))
      × (get_body w later self' ≡ (ok (all_bytes arrivals), self'))
unfolding get_body
get_body-all_bytes w arrivals later self empty whole full =
    let read = read_body-all_bytes w arrivals [] whole in
    (ground (arith, empty, read), ground (arith, full))

read_header_text-stores :
    (w : SessionApi) (q : HeaderQuery) (header value : Bytes) (self self' : Session)
    → read_header_text w q header self ≡ (ok (some value), self')
    → lookup header self'.headers ≡ some value
unfolding read_header_text
read_header_text-stores w q header value self self' h =
    grind (arith, λ (v : Bytes). lookup-insert_self header v self.headers)

get_header-found :
    (w : SessionApi) (query : Bytes → HeaderQuery) (name value : Bytes) (self : Session)
    → lookup (to_lower name) self.headers ≡ some value
    → get_header w query name self ≡ (ok (some value), self)
unfolding get_header
get_header-found w query name value self e = ground (arith, e)

get_header-stores :
    (w : SessionApi) (query : Bytes → HeaderQuery) (name value : Bytes) (self self' : Session)
    → get_header w query name self ≡ (ok (some value), self')
    → lookup (to_lower name) self'.headers ≡ some value
unfolding get_header
get_header-stores w query name value self self' h = grind (
  arith,
  λ (wide : Bytes). read_header_text-stores w (query wide) (to_lower name) value self self',
)

-- Once `get_header` has found a header, every later call for it returns the same value, in whatever
-- case its name is spelled and whatever the response then says, and changes nothing.
pub get_header-get_header :
    (w : SessionApi) (query query' : Bytes → HeaderQuery) (name other value : Bytes)
    (self self' : Session)
    → get_header w query name self ≡ (ok (some value), self')
    → to_lower other ≡ to_lower name
    → get_header w query' other self' ≡ (ok (some value), self')
get_header-get_header w query query' name other value self self' h e =
    get_header-found w query' other value self'
      (ap (λ x. lookup x self'.headers) e ∙ get_header-stores w query name value self self' h)
